-- ===== src/Url/RoundTrip.antt =====
-- `UrlDecode` undoes `UrlEncode` (src/util.cc).
use muqiu.Common.{
  ℕ, zero, suc, ◌/◌, ◌%◌, ◌<◌, ◌≡◌, refl, sym, ap, ◌∙◌, arith, Bool, true, false, not, ◌&&◌, Option,
  none, some, Bool-cases, inl, inr,
}
use muqiu.Common.{[], ◌∷◌, ◌++◌, append_assoc, append-nil, All, if◌then◌else◌, ◌==◌}
use muqiu.Url.Tables.{is_unreserved}
use muqiu.Url.Codec.{
  Bytes, opened, escape, encode_char, encode_loop, url_encode, isxdigit, hex_value, is_escape,
  decode_char, decode_loop, url_decode, hex_digit,
}

-- What each function does, with no regard to when `ss` is allocated.
abbrev pub encoded : Bool → Bytes → Bytes
encoded plus [] = []
encoded plus (c ∷ cs) = (if is_unreserved c then c ∷ [] else escape plus c) ++ encoded plus cs

abbrev plain_char : Bool → ℕ → ℕ
plain_char plus c = if c == b'+' && plus then b' ' else c

abbrev decoded : Bool → Bytes → Bytes
decoded plus [] = []
decoded plus (c ∷ []) = plain_char plus c ∷ []
decoded plus (c ∷ a ∷ []) = plain_char plus c ∷ plain_char plus a ∷ []
decoded plus (c ∷ a ∷ b ∷ rest) = elim (is_escape c a b) [
  | true ↦ hex_value a b ∷ decoded plus rest
  | false ↦ plain_char plus c ∷ decoded plus (a ∷ b ∷ rest)
]

opened-encode_char :
    (plus : Bool) (seen : Bytes) (ss : Option Bytes) (c : ℕ)
    → opened (seen ++ c ∷ []) (encode_char plus seen ss c)
      ≡ opened seen ss ++ (if is_unreserved c then c ∷ [] else escape plus c)
unfolding encode_char
opened-encode_char plus seen none c = ground arith
opened-encode_char plus seen (some ss) c = ground arith

-- `UrlEncode` replaces each reserved character by its escape and keeps every other.
pub encode_loop-encoded :
    (plus : Bool) (seen : Bytes) (ss : Option Bytes) (str : Bytes)
    → encode_loop plus seen ss str ≡ opened seen ss ++ encoded plus str
unfolding encode_loop
encode_loop-encoded plus seen ss [] = sym (append-nil (opened seen ss))
encode_loop-encoded plus seen ss (c ∷ cs) =
    encode_loop-encoded plus (seen ++ c ∷ []) (encode_char plus seen ss c) cs
    ∙ ap (λ t. t ++ encoded plus cs) (opened-encode_char plus seen ss c)
    ∙ append_assoc (opened seen ss) (if is_unreserved c then c ∷ [] else escape plus c) _

opened-decode_char :
    (plus : Bool) (seen : Bytes) (ss : Option Bytes) (c : ℕ)
    → opened (seen ++ c ∷ []) (decode_char plus seen ss c)
      ≡ opened seen ss ++ plain_char plus c ∷ []
unfolding decode_char
opened-decode_char plus seen none c = ground arith
opened-decode_char plus seen (some ss) c = ground arith

-- `UrlDecode` replaces each escape by its character, and each `+` by a blank on request.
decode_loop-decoded :
    (plus : Bool) (seen : Bytes) (ss : Option Bytes) (str : Bytes)
    → decode_loop plus seen ss str ≡ opened seen ss ++ decoded plus str
unfolding decode_loop
decode_loop-decoded plus seen ss [] = sym (append-nil (opened seen ss))
decode_loop-decoded plus seen ss (c ∷ []) = opened-decode_char plus seen ss c
decode_loop-decoded plus seen ss (c ∷ a ∷ []) =
    opened-decode_char plus (seen ++ c ∷ []) (decode_char plus seen ss c) a
    ∙ ap (λ t. t ++ plain_char plus a ∷ []) (opened-decode_char plus seen ss c)
    ∙ append_assoc (opened seen ss) (plain_char plus c ∷ []) _
decode_loop-decoded plus seen ss (c ∷ a ∷ b ∷ rest) = elim (Bool-cases (is_escape c a b)) [
  | inl e ↦
      rw (e, decode_loop, decoded)
        (decode_loop-decoded plus (seen ++ c ∷ a ∷ b ∷ [])
            (some (opened seen ss ++ hex_value a b ∷ [])) rest
          ∙ append_assoc (opened seen ss) (hex_value a b ∷ []) _)
  | inr e ↦
      rw (e, decode_loop, decoded)
        (decode_loop-decoded plus (seen ++ c ∷ []) (decode_char plus seen ss c) (a ∷ b ∷ rest)
          ∙ ap (λ t. t ++ decoded plus (a ∷ b ∷ rest)) (opened-decode_char plus seen ss c)
          ∙ append_assoc (opened seen ss) (plain_char plus c ∷ []) _)
]

-- A test that holds of each number below a bound.
unfoldable pub all_below : (ℕ → Bool) → ℕ → Bool
all_below f zero = true
all_below f (suc n) = if f n then all_below f n else false

pub all_below_lem : (f : ℕ → Bool) (n c : ℕ) → all_below f n ≡ true → c < n → f c ≡ true
unfolding all_below
all_below_lem f zero c h l = absurd (omega arith)
all_below_lem f (suc n) c h l = elim (Bool-cases (f n)) [
  | inl e ↦
      let h' : all_below f n ≡ true = ground arith in
      elim (Bool-cases (c == n)) [
        | inl q ↦ let same : c ≡ n = ground (arith, q) in rw same e
        | inr q ↦ all_below_lem f n c h' (ground (arith, q))
      ]
  | inr e ↦ ground arith
]

-- A character that is kept starts no escape and is no plus.
abbrev kept_well : ℕ → Bool
kept_well c = if is_unreserved c then not (c == b'%') && not (c == b'+') else true

abbrev escaped_well : ℕ → Bool
escaped_well c =
    isxdigit (hex_digit (c / 16))
    && isxdigit (hex_digit (c % 16))
    && hex_value (hex_digit (c / 16)) (hex_digit (c % 16)) == c

kept : all_below kept_well 256 ≡ true
unfolding all_below is_unreserved
kept = refl

escaped : all_below escaped_well 256 ≡ true
unfolding all_below isxdigit hex_value
escaped = refl

not_escape : (c a b : ℕ) → (c == b'%') ≡ false → is_escape c a b ≡ false
unfolding is_escape
not_escape c a b e = rw e refl

two_digits : (a b : ℕ) → isxdigit a ≡ true → isxdigit b ≡ true → is_escape b'%' a b ≡ true
unfolding is_escape
two_digits a b e f = rw (e, f) refl

decoded-kept :
    (plus : Bool) (c : ℕ) (rest : Bytes)
    → (c == b'%') ≡ false
    → decoded plus (c ∷ rest) ≡ plain_char plus c ∷ decoded plus rest
decoded-kept plus c [] e = refl
decoded-kept plus c (a ∷ []) e = refl
decoded-kept plus c (a ∷ b ∷ rest) e = rw (not_escape c a b e, decoded) refl

decoded-escape :
    (plus : Bool) (a b : ℕ) (rest : Bytes)
    → isxdigit a ≡ true
    → isxdigit b ≡ true
    → decoded plus (b'%' ∷ a ∷ b ∷ rest) ≡ hex_value a b ∷ decoded plus rest
decoded-escape plus a b rest e f = rw (two_digits a b e f, decoded) refl

decoded-plus :
    (plus : Bool) (rest : Bytes)
    → plus ≡ true
    → decoded plus (b'+' ∷ rest) ≡ b' ' ∷ decoded plus rest
decoded-plus true rest h = decoded-kept true b'+' rest refl
decoded-plus false rest h = absurd (ground (arith, h))

decoded-char :
    (plus : Bool) (c : ℕ) (rest : Bytes)
    → c < 256
    → decoded plus ((if is_unreserved c then c ∷ [] else escape plus c) ++ rest)
      ≡ c ∷ decoded plus rest
unfolding escape
decoded-char plus c rest h =
    let k = all_below_lem kept_well 256 c kept h in
    let x = all_below_lem escaped_well 256 c escaped h in
    elim (Bool-cases (is_unreserved c)) [
      | inl e ↦
          let p : (c == b'%') ≡ false = ground (arith, k, e) in
          let q : (c == b'+') ≡ false = ground (arith, k, e) in
          rw e (decoded-kept plus c rest p ∙ rw q refl)
      | inr e ↦ elim (Bool-cases (c == b' ' && plus)) [
        | inl s ↦
            let same : c ≡ b' ' = ground (arith, s) in
            let asked : plus ≡ true = ground (arith, s) in
            rw (e, s) (rw same (decoded-plus plus rest asked))
        | inr s ↦
            let a : isxdigit (hex_digit (c / 16)) ≡ true = ground (arith, x) in
            let b : isxdigit (hex_digit (c % 16)) ≡ true = ground (arith, x) in
            let v : hex_value (hex_digit (c / 16)) (hex_digit (c % 16)) ≡ c = ground (arith, x) in
            rw (e, s)
              (decoded-escape plus (hex_digit (c / 16)) (hex_digit (c % 16)) rest a b ∙ rw v refl)
      ]
    ]

decoded-encoded :
    (plus : Bool) (str : Bytes) → All (λ c. c < 256) str → decoded plus (encoded plus str) ≡ str
decoded-encoded plus [] h = refl
decoded-encoded plus (c ∷ cs) h =
    decoded-char plus c (encoded plus cs) h.0 ∙ ap (λ t. c ∷ t) (decoded-encoded plus cs h.1)

-- `UrlDecode` with the same flag undoes `UrlEncode` on every text of bytes.
pub url_decode-url_encode :
    (plus : Bool) (str : Bytes)
    → All (λ c. c < 256) str
    → url_decode (url_encode str plus) plus ≡ str
unfolding url_decode url_encode
url_decode-url_encode plus str h =
    decode_loop-decoded plus [] none (encode_loop plus [] none str)
    ∙ ap (λ t. decoded plus t) (encode_loop-encoded plus [] none str)
    ∙ decoded-encoded plus str h
