-- ===== src/Common/Int.antt =====
-- The integers over the native numbers: what a C++ call returns where it may be negative.
use Prim.Native.Nat.{ℕ, zero, suc}
use mathlib.Core.Path.{◌≡◌, refl}
use muqiu.Common.{◌^◌, ◌%◌, ◌-◌, ◌<◌, arith, true, if◌then◌else◌, ltb}
use mathlib.Core.Logic.{◌⊎◌, inl, inr}

-- `negsuc n` is -(n + 1).
pub data ℤ : Type 0 where
  pos : ℕ → ℤ
  negsuc : ℕ → ℤ

-- To split on what a call returns and keep the equation.
pub ℤ-cases : (z : ℤ) → (z ≡ pos 0) ⊎ (((n : ℕ) × (z ≡ pos (suc n))) ⊎ ((n : ℕ) × (z ≡ negsuc n)))
ℤ-cases (pos zero) = inl refl
ℤ-cases (pos (suc n)) = inr (inl (n, refl))
ℤ-cases (negsuc n) = inr (inr (n, refl))

-- An unsigned number as an `int`, by its 32 low bits.
unfoldable pub to_int : ℕ → ℤ
to_int v = let low = v % 2 ^ 32 in if ltb low (2 ^ 31) then pos low else negsuc (2 ^ 32 - 1 - low)

pub to_int-small : (n : ℕ) → n < 2 ^ 31 → to_int n ≡ pos n
unfolding to_int
to_int-small n h =
    let low : n % 2 ^ 32 ≡ n = omega (arith, h) in
    let below : ltb n (2 ^ 31) ≡ true = ground (arith, h) in rw (low, below) refl
