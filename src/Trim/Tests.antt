-- ===== src/Trim/Tests.antt =====
-- Runs of trimming (src/util.cc).
use muqiu.Common.{ℕ, ◌≡◌, refl, Bool, ◌||◌, [], ◌∷◌, ◌==◌}
use muqiu.Trim.Strip.{Bytes, find_first_not_of, find_last_not_of, trim, trim_right}
use muqiu.Trim.Edges.{TrimOf, trim-TrimOf}

abbrev blank : ℕ → Bool
blank c = c == b' ' || c == b'\t'

abbrev padded : Bytes
padded = b' ' ∷ b'a' ∷ b' ' ∷ b'b' ∷ b'\t' ∷ []

inside : trim blank padded ≡ b'a' ∷ b' ' ∷ b'b' ∷ []
unfolding trim find_first_not_of find_last_not_of
inside = refl

one_lost : trim_right blank padded ≡ b' ' ∷ b'a' ∷ b' ' ∷ []
unfolding trim_right find_last_not_of
one_lost = refl

trim-TrimOf_example : TrimOf blank padded (trim blank padded)
trim-TrimOf_example = trim-TrimOf blank padded
