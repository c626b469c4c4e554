-- ===== src/Url/Codec.antt =====
-- `StringUtil::UrlEncode` and `UrlDecode` (src/util.cc). A text is its bytes.
--
-- Both loops keep `ss` null until a character changes; then it starts with the characters that
-- the loop has passed, `seen`.
use muqiu.Common.{
  ℕ, ◌+◌, ◌-◌, ◌*◌, ◌/◌, ◌%◌, Bool, true, false, not, ◌&&◌, ◌||◌, Option, none, some,
}
use muqiu.Common.{List, [], ◌∷◌, ◌++◌, if◌then◌else◌, ltb, leb, ◌==◌}
use muqiu.Url.Tables.{xdigit_chars, entry, is_unreserved}

abbrev pub Bytes : Type 0
Bytes = List ℕ

-- `*ss` once it is allocated.
abbrev pub opened : Bytes → Option Bytes → Bytes
opened seen none = seen
opened seen (some ss) = ss

-- `hexdigits[n]`.
abbrev pub hex_digit : ℕ → ℕ
hex_digit n = if ltb n 10 then b'0' + n else b'A' + (n - 10)

-- What stands for a reserved character.
unfoldable pub escape : Bool → ℕ → Bytes
escape space_as_plus c =
    if c == b' ' && space_as_plus
    then b'+' ∷ []
    else b'%' ∷ hex_digit (c / 16) ∷ hex_digit (c % 16) ∷ []

-- `ss` behind one character.
unfoldable pub encode_char : Bool → Bytes → Option Bytes → ℕ → Option Bytes
encode_char space_as_plus seen ss c =
    if not (is_unreserved c)
    then some (opened seen ss ++ escape space_as_plus c)
    else elim ss [ none ↦ none | some out ↦ some (out ++ c ∷ []) ]

unfoldable pub encode_loop : Bool → Bytes → Option Bytes → Bytes → Bytes
encode_loop space_as_plus seen ss [] = opened seen ss
encode_loop space_as_plus seen ss (c ∷ cs) =
    encode_loop space_as_plus (seen ++ c ∷ []) (encode_char space_as_plus seen ss c) cs

unfoldable pub url_encode : Bytes → Bool → Bytes
url_encode str space_as_plus = encode_loop space_as_plus [] none str

unfoldable pub isxdigit : ℕ → Bool
isxdigit c = (leb b'0' c && leb c b'9') || (leb b'A' c && leb c b'F') || (leb b'a' c && leb c b'f')

-- What the two digits behind a `%` stand for; the shift leaves the low four bits free.
unfoldable pub hex_value : ℕ → ℕ → ℕ
hex_value a b = (entry xdigit_chars a * 16 + entry xdigit_chars b) % 256

unfoldable pub is_escape : ℕ → ℕ → ℕ → Bool
is_escape c a b = c == b'%' && (isxdigit a && isxdigit b)

-- `ss` behind a character that starts no escape.
unfoldable pub decode_char : Bool → Bytes → Option Bytes → ℕ → Option Bytes
decode_char space_as_plus seen ss c =
    if c == b'+' && space_as_plus
    then some (opened seen ss ++ b' ' ∷ [])
    else elim ss [ none ↦ none | some out ↦ some (out ++ c ∷ []) ]

unfoldable pub decode_loop : Bool → Bytes → Option Bytes → Bytes → Bytes
decode_loop plus seen ss [] = opened seen ss
decode_loop plus seen ss (c ∷ []) = opened (seen ++ c ∷ []) (decode_char plus seen ss c)
decode_loop plus seen ss (c ∷ a ∷ []) =
    let ss' = decode_char plus seen ss c in
    opened ((seen ++ c ∷ []) ++ a ∷ []) (decode_char plus (seen ++ c ∷ []) ss' a)
decode_loop plus seen ss (c ∷ a ∷ b ∷ rest) = elim (is_escape c a b) [
  | true ↦
      decode_loop plus (seen ++ c ∷ a ∷ b ∷ []) (some (opened seen ss ++ hex_value a b ∷ [])) rest
  | false ↦ decode_loop plus (seen ++ c ∷ []) (decode_char plus seen ss c) (a ∷ b ∷ rest)
]

unfoldable pub url_decode : Bytes → Bool → Bytes
url_decode str space_as_plus = decode_loop space_as_plus [] none str
