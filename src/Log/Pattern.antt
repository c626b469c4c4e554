-- ===== src/Log/Pattern.antt =====
-- `LogFormatter::init` (src/Log.cc).
--
-- The index in the pattern is the pattern from it on; `nstr` is the text that is not pushed yet.
-- The loop runs on fuel, and `none` says that it has run out. Characters are bytes of ASCII.
use muqiu.Common.{ℕ, zero, suc, Bool, true, false, ◌&&◌, ◌||◌, Option, none, some}
use muqiu.Common.{List, [], ◌∷◌, ◌++◌, length, if◌then◌else◌, leb, ◌==◌}
use muqiu.Http.Method.{codes}
use muqiu.Url.Codec.{Bytes}

-- An entry of `vec`: a text, or the letter of an item with its format.
pub data Piece : Type 0 where
  text : Bytes → Piece
  item : ℕ → Bytes → Piece

unfoldable pub isalpha : ℕ → Bool
isalpha c = (leb b'a' c && leb c b'z') || (leb b'A' c && leb c b'Z')

-- The loop that looks for the closing brace: the format, and the pattern behind the brace.
unfoldable pub find_brace : Bytes → Option (Bytes × Bytes)
find_brace [] = none
find_brace (c ∷ s) =
    if c == b'}'
    then some ([], s)
    else elim (find_brace s) [ none ↦ none | some (fmt, rest) ↦ some (c ∷ fmt, rest) ]

-- `if (!nstr.empty()) vec.push_back(...)`.
abbrev pub flush : Bytes → List Piece → List Piece
flush [] vec = vec
flush (c ∷ nstr) vec = text (c ∷ nstr) ∷ vec

-- What is pushed, whether there was an error, and what is left of the pattern, from the character
-- behind a `%` on.
pub record Item : Type 0 where
  pub pushed : List Piece
  pub error : Bool
  pub rest : Bytes

-- The letter a, and what stands behind it.
unfoldable pub read_format : Bytes → ℕ → Bytes → Item
read_format nstr a [] = record { pushed = flush nstr (item a [] ∷ []); error = false; rest = [] }
read_format nstr a (b ∷ s) =
    if b == b'{'
    then elim (find_brace s) [
      | none ↦ record {
        pushed = item a (codes "<<pattern_error>>") ∷ flush nstr [];
        error = true;
        rest = b ∷ s;
      }
      | some (fmt, rest) ↦ record {
        pushed = flush nstr (item a fmt ∷ []);
        error = false;
        rest = rest;
      }
    ]
    else record { pushed = flush nstr (item a [] ∷ []); error = false; rest = b ∷ s }

unfoldable pub read_item : Bytes → Bytes → Item
read_item nstr [] = record { pushed = flush nstr []; error = false; rest = [] }
read_item nstr (a ∷ s) =
    if a == b'%'
    then record { pushed = text (nstr ++ b'%' ∷ []) ∷ []; error = false; rest = s }
    else if isalpha a
    then read_format nstr a s
    else record { pushed = flush nstr []; error = false; rest = s }

unfoldable pub parse_pattern : ℕ → Bytes → Bytes → Option (List Piece × Bool)
parse_pattern zero nstr pattern = none
parse_pattern (suc fuel) nstr [] = some ([], false)
parse_pattern (suc fuel) nstr (c ∷ s) =
    let i = read_item nstr s in
    let plain = parse_pattern fuel (nstr ++ c ∷ []) s in
    let special : Option (List Piece × Bool) = elim (parse_pattern fuel [] i.rest) [
      | none ↦ none
      | some (vec, error) ↦ some (i.pushed ++ vec, i.error || error)
    ] in
    if c == b'%' then special else plain

-- The items of a formatter.
pub data FormatItem : Type 0 where
  string_item : Bytes → FormatItem
  date_time_item : Bytes → FormatItem
  message_item level_item elapse_item name_item thread_id_item new_line_item : FormatItem
  filename_item line_item tab_item fiber_id_item thread_name_item : FormatItem

-- `formatterItems`: the item of a letter; only the date and time keeps its format.
unfoldable pub formatter_item : ℕ → Bytes → Option FormatItem
formatter_item c fmt =
    if c == b'm'
    then some message_item
    else if c == b'p'
    then some level_item
    else if c == b'r'
    then some elapse_item
    else if c == b'c'
    then some name_item
    else if c == b't'
    then some thread_id_item
    else if c == b'n'
    then some new_line_item
    else if c == b'd'
    then some (date_time_item fmt)
    else if c == b'f'
    then some filename_item
    else if c == b'l'
    then some line_item
    else if c == b'T'
    then some tab_item
    else if c == b'F'
    then some fiber_id_item
    else if c == b'N'
    then some thread_name_item
    else none

-- The loop over `vec`: the items, and whether a letter is unknown.
unfoldable pub make_items : List Piece → List FormatItem × Bool
make_items [] = ([], false)
make_items (text t ∷ vec) = let (items, error) = make_items vec in (string_item t ∷ items, error)
make_items (item c fmt ∷ vec) =
    let (items, error) = make_items vec in
    elim (formatter_item c fmt) [
      | none ↦ (string_item (codes "<<error_format %" ++ c ∷ codes ">>") ∷ items, true)
      | some i ↦ (i ∷ items, error)
    ]

-- `init`: the items and `m_error`.
unfoldable pub init : Bytes → Option (List FormatItem × Bool)
init pattern = elim (parse_pattern (suc (length pattern)) [] pattern) [
  | none ↦ none
  | some (vec, error) ↦ some ((make_items vec).0, error || (make_items vec).1)
]
