-- ===== src/Trim/Strip.antt =====
-- `StringUtil::Trim`, `TrimLeft` and `TrimRight` (src/util.cc).
--
-- `blank c` says that the delimiters have the character c. An index that is `npos` is none.
use muqiu.Common.{ℕ, suc, ◌+◌, ◌-◌, Bool, Option, none, some}
use muqiu.Common.{List, [], ◌∷◌, take, drop, if◌then◌else◌}

abbrev pub Bytes : Type 0
Bytes = List ℕ

module _ (blank : ℕ → Bool) where
  unfoldable pub find_first_not_of : Bytes → Option ℕ
  find_first_not_of [] = none
  find_first_not_of (c ∷ s) =
      if blank c then elim (find_first_not_of s) [ none ↦ none | some i ↦ some (suc i) ] else some 0

  unfoldable pub find_last_not_of : Bytes → Option ℕ
  find_last_not_of [] = none
  find_last_not_of (c ∷ s) = elim (find_last_not_of s) [
    | none ↦ if blank c then none else some 0
    | some i ↦ some (suc i)
  ]

  unfoldable pub trim : Bytes → Bytes
  trim str = elim (find_first_not_of str) [
    | none ↦ []
    | some begin ↦ elim (find_last_not_of str) [
      | none ↦ []
      | some end ↦ take (end - begin + 1) (drop begin str)
    ]
  ]

  unfoldable pub trim_left : Bytes → Bytes
  trim_left str = elim (find_first_not_of str) [ none ↦ [] | some begin ↦ drop begin str ]

  unfoldable pub trim_right : Bytes → Bytes
  trim_right str = elim (find_last_not_of str) [ none ↦ [] | some end ↦ take end str ]
