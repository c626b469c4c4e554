-- ===== src/Http/Fields.antt =====
-- Reading the head of a message, line by line, as a peer of `dump` does (src/http.cc).
use muqiu.Common.{ℕ, zero, suc, ◌≤◌, ◌<◌, ◌≡◌, refl, sym, ap, ◌∙◌, arith}
use muqiu.Common.{Option, none, some}
use muqiu.Common.{
  List, [], ◌∷◌, ◌++◌, length, length-append, append_assoc, All, if◌then◌else◌, ◌==◌,
}
use muqiu.Url.Codec.{Bytes}
use muqiu.Url.Reserved.{Lacks, Lacks-append}
use muqiu.Http.Method.{codes}
use muqiu.Http.Params.{split}
use muqiu.Http.ParamLaws.{split-found}
use muqiu.Http.Dump.{crlf, field}

-- The line up to the first CRLF, and what stands behind it; a CR alone is an error.
unfoldable pub read_line : Bytes → Option (Bytes × Bytes)
read_line [] = none
read_line (c ∷ s) =
    let end : Option (Bytes × Bytes) = elim s [
      | [] ↦ none
      | d ∷ rest ↦ if d == 10 then some ([], rest) else none
    ] in
    let more : Option (Bytes × Bytes) = elim (read_line s) [
      | none ↦ none
      | some (line, rest) ↦ some (c ∷ line, rest)
    ] in
    if c == 13 then end else more

unfoldable pub after_colon : Bytes → Bytes → Option (Bytes × Bytes)
after_colon key [] = none
after_colon key (c ∷ value) = if c == b' ' then some (key, value) else none

-- `key: value`.
unfoldable pub read_field : Bytes → Option (Bytes × Bytes)
read_field line = elim (split b':' line) [ none ↦ none | some (key, s) ↦ after_colon key s ]

-- The fields up to the empty line, and what stands behind it, on fuel for the number of lines.
unfoldable pub read_fields : ℕ → Bytes → Option (List (Bytes × Bytes) × Bytes)
read_fields zero s = none
read_fields (suc fuel) s = elim (read_line s) [
  | none ↦ none
  | some ([], rest) ↦ some ([], rest)
  | some (c ∷ line, rest) ↦ elim (read_field (c ∷ line)) [
    | none ↦ none
    | some f ↦ elim (read_fields fuel rest) [
      | none ↦ none
      | some (fields, body) ↦ some (f ∷ fields, body)
    ]
  ]
]

-- The first line, the fields, and the body.
unfoldable pub read_message : Bytes → Option (Bytes × List (Bytes × Bytes) × Bytes)
read_message s = elim (read_line s) [
  | none ↦ none
  | some (line, rest) ↦ elim (read_fields (suc (length rest)) rest) [
    | none ↦ none
    | some (fields, body) ↦ some (line, fields, body)
  ]
]

-- Fields that can be told apart: no CR in a key or a value, and no colon in a key.
abbrev pub IsField : Bytes × Bytes → Type 0
IsField (key, value) = Lacks b':' key × Lacks 13 key × Lacks 13 value

abbrev pub print_fields : List (Bytes × Bytes) → Bytes
print_fields [] = []
print_fields ((key, value) ∷ fs) = field key value ++ print_fields fs

pub print_fields-append :
    (fs gs : List (Bytes × Bytes)) → print_fields (fs ++ gs) ≡ print_fields fs ++ print_fields gs
print_fields-append [] gs = refl
print_fields-append ((key, value) ∷ fs) gs =
    ap (λ (t : Bytes). field key value ++ t) (print_fields-append fs gs)
    ∙ sym (append_assoc (field key value) (print_fields fs) (print_fields gs))

pub read_line-found :
    (line rest : Bytes) → Lacks 13 line → read_line (line ++ (crlf ++ rest)) ≡ some (line, rest)
unfolding read_line
read_line-found [] rest h = refl
read_line-found (c ∷ line) rest h = rw (h.0, read_line-found line rest h.1) refl

read_field-found :
    (key value : Bytes)
    → Lacks b':' key
    → read_field (key ++ (codes ": " ++ value)) ≡ some (key, value)
unfolding read_field after_colon
read_field-found key value h =
    rw (split-found b':' key (b' ' ∷ value) h, read_field, after_colon) refl

field-line :
    (key value rest : Bytes)
    → field key value ++ rest ≡ (key ++ (codes ": " ++ value)) ++ (crlf ++ rest)
field-line [] value rest = ap (λ (t : Bytes). codes ": " ++ t) (append_assoc value crlf rest)
field-line (c ∷ key) value rest = ap (λ (t : Bytes). c ∷ t) (field-line key value rest)

line-Lacks : (key value : Bytes) → IsField (key, value) → Lacks 13 (key ++ (codes ": " ++ value))
line-Lacks key value (a, b, c) = Lacks-append 13 key (codes ": " ++ value) b (refl, (refl, c))

read_fields-next :
    (fuel : ℕ) (s line rest body : Bytes) (f : Bytes × Bytes) (fs : List (Bytes × Bytes))
    → read_line s ≡ some (line, rest)
    → read_field line ≡ some f
    → read_fields fuel rest ≡ some (fs, body)
    → read_fields (suc fuel) s ≡ some (f ∷ fs, body)
unfolding read_fields read_field split
read_fields-next fuel s [] rest body f fs e ef er = ground (arith, ef)
read_fields-next fuel s (c ∷ line) rest body f fs e ef er = rw (e, ef, er, read_fields) refl

read_fields-print :
    (fuel : ℕ) (fs : List (Bytes × Bytes)) (body : Bytes)
    → All IsField fs
    → length fs < fuel
    → read_fields fuel (print_fields fs ++ (crlf ++ body)) ≡ some (fs, body)
unfolding read_fields
read_fields-print zero fs body h f = absurd (omega arith)
read_fields-print (suc fuel) [] body h f = rw (read_line-found [] body tt, read_fields) refl
read_fields-print (suc fuel) ((key, value) ∷ fs) body (h, hs) f =
    let rest = print_fields fs ++ (crlf ++ body) in
    ap (λ (s : Bytes). read_fields (suc fuel) s)
      (append_assoc (field key value) (print_fields fs) (crlf ++ body) ∙ field-line key value rest)
    ∙ read_fields-next fuel ((key ++ (codes ": " ++ value)) ++ (crlf ++ rest))
        (key ++ (codes ": " ++ value)) rest body (key, value) fs
        (read_line-found (key ++ (codes ": " ++ value)) rest (line-Lacks key value h))
        (read_field-found key value h.0) (read_fields-print fuel fs body hs (omega (arith, f)))

fields_short :
    (fs : List (Bytes × Bytes)) (body : Bytes)
    → length fs ≤ length (print_fields fs ++ (crlf ++ body))
fields_short [] body = omega arith
fields_short ((key, value) ∷ fs) body =
    let rest = print_fields fs ++ (crlf ++ body) in
    let e : length (print_fields ((key, value) ∷ fs) ++ (crlf ++ body))
        ≡ length ((key ++ (codes ": " ++ value)) ++ (crlf ++ rest)) =
      ap length (
        append_assoc (field key value) (print_fields fs) (crlf ++ body)
        ∙ field-line key value rest) in
    let long = length-append (key ++ (codes ": " ++ value)) (crlf ++ rest) in
    omega (arith, e, long, fields_short fs body)

-- A first line, fields and a body are read back.
pub read_message-print :
    (line : Bytes) (fs : List (Bytes × Bytes)) (body : Bytes)
    → Lacks 13 line
    → All IsField fs
    → read_message (line ++ (crlf ++ (print_fields fs ++ (crlf ++ body)))) ≡ some (line, fs, body)
unfolding read_message
read_message-print line fs body hl hf =
    let rest = print_fields fs ++ (crlf ++ body) in
    rw
      (
        read_line-found line rest hl,
        read_fields-print (suc (length rest)) fs body hf (omega (arith, fields_short fs body)),
        read_message,
      )
      refl
