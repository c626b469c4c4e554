-- ===== src/Log/PatternLaws.antt =====
-- The pattern of a formatter is read item by item (src/Log.cc).
use muqiu.Common.{
  ℕ, zero, suc, ◌-◌, ◌≤◌, ◌<◌, ◌≡◌, refl, sym, ap, ◌∙◌, arith, Bool, true, false, ◌||◌, Option,
  none, some,
}
use muqiu.Common.{List, [], ◌∷◌, ◌++◌, length, length-append, append_assoc, append-nil, ◌==◌}
use muqiu.Url.Codec.{Bytes}
use muqiu.Url.Reserved.{Lacks}
use muqiu.Log.Pattern.{
  Piece, item, isalpha, find_brace, flush, Item, read_format, read_item, parse_pattern, make_items,
  init,
}

-- An item of a pattern: the text before it, its letter, and its format in braces, if it has them.
pub record Segment : Type 0 where
  pub before : Bytes
  pub letter : ℕ
  pub braces : Option Bytes

abbrev pub in_braces : Option Bytes → Bytes → Bytes
in_braces none rest = rest
in_braces (some fmt) rest = b'{' ∷ (fmt ++ (b'}' ∷ rest))

-- The pattern of the items, with a text behind the last.
abbrev pub print : List Segment → Bytes → Bytes
print [] tail = tail
print (s ∷ ss) tail = s.before ++ (b'%' ∷ s.letter ∷ in_braces s.braces (print ss tail))

abbrev pub format_of : Option Bytes → Bytes
format_of none = []
format_of (some fmt) = fmt

abbrev pub pieces : List Segment → List Piece
pieces [] = []
pieces (s ∷ ss) = flush s.before (item s.letter (format_of s.braces) ∷ pieces ss)

abbrev pub StartsOther : Bytes → Type 0
StartsOther [] = Unit
StartsOther (c ∷ s) = (c == b'{') ≡ false

abbrev pub FitsBraces : Option Bytes → Bytes → Type 0
FitsBraces none rest = StartsOther rest
FitsBraces (some fmt) rest = Lacks b'}' fmt

-- The items can be told apart: no text has a `%`, the letters are letters, no format has a closing
-- brace, and what follows an item without a format starts with no opening brace.
abbrev pub FitsAll : List Segment → Bytes → Type 0
FitsAll [] tail = Lacks b'%' tail
FitsAll (s ∷ ss) tail =
    Lacks b'%' s.before
    × (isalpha s.letter ≡ true)
    × FitsBraces s.braces (print ss tail)
    × FitsAll ss tail

find_brace-found :
    (fmt rest : Bytes) → Lacks b'}' fmt → find_brace (fmt ++ (b'}' ∷ rest)) ≡ some (fmt, rest)
unfolding find_brace
find_brace-found [] rest h = refl
find_brace-found (c ∷ fmt) rest h = rw (h.0, find_brace-found fmt rest h.1) refl

read_format-braces :
    (nstr : Bytes) (a : ℕ) (braces : Option Bytes) (rest : Bytes)
    → FitsBraces braces rest
    → read_format nstr a (in_braces braces rest)
      ≡ record { pushed = flush nstr (item a (format_of braces) ∷ []); error = false; rest = rest }
unfolding read_format
read_format-braces nstr a none [] h = refl
read_format-braces nstr a none (b ∷ s) h = rw h refl
read_format-braces nstr a (some fmt) rest h = rw (find_brace-found fmt rest h, read_format) refl

letter_no_percent : (a : ℕ) → isalpha a ≡ true → (a == b'%') ≡ false
unfolding isalpha
letter_no_percent a h = ground arith

-- A text goes to `nstr`.
skip_text :
    (fuel : ℕ) (nstr t rest : Bytes)
    → Lacks b'%' t
    → length t < fuel
    → parse_pattern fuel nstr (t ++ rest) ≡ parse_pattern (fuel - length t) (nstr ++ t) rest
unfolding parse_pattern
skip_text fuel nstr [] rest h f =
    ap (λ (n : Bytes). parse_pattern fuel n rest) (sym (append-nil nstr))
    ∙ ap (λ (k : ℕ). parse_pattern k (nstr ++ []) rest) (omega arith)
skip_text zero nstr (c ∷ t) rest h f = absurd (omega arith)
skip_text (suc fuel) nstr (c ∷ t) rest h f = rw h.0 (
    skip_text fuel (nstr ++ c ∷ []) t rest h.1 (omega (arith, f))
    ∙ ap (λ (k : ℕ). parse_pattern k ((nstr ++ c ∷ []) ++ t) rest) (omega arith)
    ∙ ap (λ (n : Bytes). parse_pattern (suc fuel - suc (length t)) n rest)
        (append_assoc nstr (c ∷ []) t))

flush-append :
    (nstr : Bytes) (p : Piece) (ps : List Piece) → flush nstr (p ∷ []) ++ ps ≡ flush nstr (p ∷ ps)
flush-append [] p ps = refl
flush-append (c ∷ nstr) p ps = refl

read_item-letter :
    (nstr : Bytes) (a : ℕ) (s : Bytes)
    → isalpha a ≡ true
    → read_item nstr (a ∷ s) ≡ read_format nstr a s
unfolding read_item
read_item-letter nstr a s h = rw (letter_no_percent a h, h) refl

-- The loop behind an item.
abbrev after_item : ℕ → Item → Option (List Piece × Bool)
after_item fuel i = elim (parse_pattern fuel [] i.rest) [
  | none ↦ none
  | some (vec, error) ↦ some (i.pushed ++ vec, i.error || error)
]

parse_pattern-percent :
    (fuel : ℕ) (nstr s : Bytes)
    → parse_pattern (suc fuel) nstr (b'%' ∷ s) ≡ after_item fuel (read_item nstr s)
unfolding parse_pattern
parse_pattern-percent fuel nstr s = refl

-- A `%`, a letter and its format give an item.
parse_item :
    (fuel : ℕ) (nstr : Bytes) (a : ℕ) (braces : Option Bytes) (rest : Bytes) (vec : List Piece)
    → isalpha a ≡ true
    → FitsBraces braces rest
    → parse_pattern fuel [] rest ≡ some (vec, false)
    → parse_pattern (suc fuel) nstr (b'%' ∷ a ∷ in_braces braces rest)
      ≡ some (flush nstr (item a (format_of braces) ∷ vec), false)
parse_item fuel nstr a braces rest vec ha hf e =
    parse_pattern-percent fuel nstr (a ∷ in_braces braces rest)
    ∙ ap (after_item fuel) (
        read_item-letter nstr a (in_braces braces rest) ha
        ∙ read_format-braces nstr a braces rest hf)
    ∙ rw (e, after_item)
        (ap (λ (x : List Piece). some (x, false))
          (flush-append nstr (item a (format_of braces)) vec))

length-in_braces :
    (braces : Option Bytes) (rest : Bytes) → length rest ≤ length (in_braces braces rest)
length-in_braces none rest = omega arith
length-in_braces (some fmt) rest = omega (arith, length-append fmt (b'}' ∷ rest))

pub parse_pattern-print :
    (fuel : ℕ) (ss : List Segment) (tail : Bytes)
    → FitsAll ss tail
    → length (print ss tail) < fuel
    → parse_pattern fuel [] (print ss tail) ≡ some (pieces ss, false)
unfolding parse_pattern
parse_pattern-print fuel [] tail h f =
    ap (λ (t : Bytes). parse_pattern fuel [] t) (sym (append-nil tail))
    ∙ skip_text fuel [] tail [] h f
    ∙ ap (λ (k : ℕ). parse_pattern k tail [])
        (let e : fuel - length tail ≡ suc (fuel - length tail - 1) = omega (arith, f) in e)
parse_pattern-print fuel (s ∷ ss) tail (hb, ha, hf, hs) f =
    let rest = print ss tail in
    let behind = b'%' ∷ s.letter ∷ in_braces s.braces rest in
    let long = length-append s.before behind in
    let more = length-in_braces s.braces rest in
    let left = fuel - length s.before - 1 in
    let e : fuel - length s.before ≡ suc left = omega (arith, long, f) in
    skip_text fuel [] s.before behind hb (omega (arith, long, f))
    ∙ ap (λ (k : ℕ). parse_pattern k s.before behind) e
    ∙ parse_item left s.before s.letter s.braces rest (pieces ss) ha hf
        (parse_pattern-print left ss tail hs (omega (arith, long, more, f)))

-- What `init` makes of the pattern of some items are these items, each behind its text, and no
-- error but for an unknown letter; a text behind the last item is lost.
pub init-print :
    (ss : List Segment) (tail : Bytes)
    → FitsAll ss tail
    → init (print ss tail) ≡ some ((make_items (pieces ss)).0, (make_items (pieces ss)).1)
unfolding init
init-print ss tail h =
    rw (parse_pattern-print (suc (length (print ss tail))) ss tail h (omega arith), init) refl
