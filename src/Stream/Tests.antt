-- ===== src/Stream/Tests.antt =====
-- Runs of the loops of streams (src/stream.cc).
use muqiu.Common.{ℕ, ◌+◌, ◌≡◌, refl, ap, arith, none, some, min}
use muqiu.Common.Int.{ℤ, pos, negsuc, to_int}
use muqiu.Stream.FixSize.{read_fix_size, write_fix_size, move_loop}
use muqiu.Stream.Ending.{Returns, Moves, write_fix_size-Returns, read_fix_size-never}

-- A stream that takes up to two bytes at a call, and counts what it has taken.
abbrev two_at_most : ℕ → ℕ → ℕ → ℤ × ℕ
two_at_most s offset left = (pos (min 2 left), s + min 2 left)

write_five : write_fix_size two_at_most 5 0 ≡ some (pos 5, 5)
unfolding write_fix_size move_loop to_int
write_five = refl

number : ℤ → ℕ
number (pos n) = n
number (negsuc n) = 0

two_at_most-Moves : Moves two_at_most (λ o s. o ≡ s)
unfolding number
two_at_most-Moves o left n s m e =
    let k : min 2 left ≡ n = ap number e in (omega (arith, k), omega (arith, m, k))

write_fix_size-Returns_example :
    (z : ℤ) × (s' : ℕ) × (write_fix_size two_at_most 5 0 ≡ some (z, s'))
    × Returns two_at_most (λ o s. o ≡ s) 5 z s'
write_fix_size-Returns_example =
    write_fix_size-Returns two_at_most (λ o s. o ≡ s) two_at_most-Moves 5 0 refl

-- A stream at its end.
abbrev at_its_end : ℕ → ℕ → ℕ → ℤ × ℕ
at_its_end s offset left = (pos 0, s)

read_fix_size-never_example : read_fix_size at_its_end 1000 3 7 ≡ none
read_fix_size-never_example =
    read_fix_size-never at_its_end 1000 3 7 (omega arith) (λ s o left. refl)
