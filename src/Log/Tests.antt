-- ===== src/Log/Tests.antt =====
-- Patterns of a formatter (src/Log.cc).
use muqiu.Common.{◌≡◌, refl, true, false, none, some, List, [], ◌∷◌}
use muqiu.Http.Method.{codes}
use muqiu.Log.Pattern.{
  isalpha, find_brace, read_format, read_item, parse_pattern, formatter_item, make_items, init,
  string_item, date_time_item, level_item,
}
use muqiu.Log.PatternLaws.{Segment, print, pieces, init-print}

-- "%d{%Y}[%p]": the closing bracket behind the last item is lost.
abbrev segments : List Segment
segments =
    record { before = []; letter = b'd'; braces = some (codes "%Y") }
    ∷ record { before = codes "["; letter = b'p'; braces = none }
    ∷ []

bracket_lost :
    init (codes "%d{%Y}[%p]")
    ≡ some (date_time_item (codes "%Y") ∷ string_item (codes "[") ∷ level_item ∷ [], false)
unfolding init parse_pattern read_item read_format find_brace isalpha make_items formatter_item
bracket_lost = refl

no_brace : init (codes "%d{x") ≡ some (date_time_item (codes "<<pattern_error>>") ∷ [], true)
unfolding init parse_pattern read_item read_format find_brace isalpha make_items formatter_item
no_brace = refl

init-print_example :
    init (print segments (codes "]"))
    ≡ some ((make_items (pieces segments)).0, (make_items (pieces segments)).1)
unfolding isalpha
init-print_example =
    init-print segments (codes "]")
      (tt, refl, (refl, (refl, tt)), ((refl, tt), refl, refl, (refl, tt)))
