-- ===== src/Address/Prefix.antt =====
-- The length of a prefix of a mask (src/address.cc).
use muqiu.Common.{ℕ, zero, suc, ◌+◌, ◌-◌, ◌*◌, ◌/◌, ◌%◌, ◌^◌, ◌≤◌, ◌<◌, ◌≡◌, refl, ap, ◌∙◌, arith}
use muqiu.Common.{Option, none, some, Bool-cases, inl, inr, ◌⊎◌}
use muqiu.Common.{if◌then◌else◌, ◌==◌}
use Prim.Native.Nat.{bit_and}
use native.Mathlib.Nat.{pow-suc}
use muqiu.Common.Bits.{and_digit}

-- The loop of `CountBytes`, on fuel; `none` says that it has run out.
unfoldable pub count_loop : ℕ → ℕ → ℕ → Option ℕ
count_loop zero result value = none
count_loop (suc fuel) result value =
    let next = count_loop fuel (suc result) (bit_and value (value - 1)) in
    if value == 0 then some result else next

-- `CountBytes<T>` of a type with w bits.
unfoldable pub count_bytes : ℕ → ℕ → Option ℕ
count_bytes w value = count_loop (suc w) 0 value

-- The ones among the w low bits.
abbrev pub ones : ℕ → ℕ → ℕ
ones zero value = 0
ones (suc w) value = value % 2 + ones w (value / 2)

parity : (v : ℕ) → (v % 2 ≡ 0) ⊎ (v % 2 ≡ 1)
parity v = ground arith

ones_le : (w value : ℕ) → ones w value ≤ w
ones_le zero value = omega arith
ones_le (suc w) value = omega (arith, ones_le w (value / 2))

ones_zero : (w : ℕ) → ones w 0 ≡ 0
ones_zero zero = refl
ones_zero (suc w) = omega (arith, ones_zero w)

ones-double : (w m : ℕ) → ones (suc w) (m * 2) ≡ ones w m
ones-double w m =
    let rest : m * 2 / 2 ≡ m = omega arith in omega (arith, ap (λ (t : ℕ). ones w t) rest)

and_self : (n a : ℕ) → a ≤ n → bit_and a a ≡ a
and_self n zero h = refl
and_self zero (suc a) h = absurd (omega arith)
and_self (suc n) (suc a) h =
    omega (arith, and_digit (suc a) (suc a), and_self n (suc a / 2) (omega arith))

even_step : (v : ℕ) → 0 < v → v % 2 ≡ 0 → bit_and v (v - 1) ≡ bit_and (v / 2) (v / 2 - 1) * 2
even_step v p even =
    let half : (v - 1) / 2 ≡ v / 2 - 1 = omega (arith, even) in
    omega (arith, and_digit v (v - 1), ap (λ (t : ℕ). bit_and (v / 2) t) half, even)

odd_step : (v : ℕ) → v % 2 ≡ 1 → bit_and v (v - 1) ≡ v / 2 * 2
odd_step v odd =
    let half : (v - 1) / 2 ≡ v / 2 = omega (arith, odd) in
    omega (
      arith,
      and_digit v (v - 1),
      ap (λ (t : ℕ). bit_and (v / 2) t) half,
      and_self (v / 2) (v / 2) (omega arith),
      odd,
    )

-- `v & (v - 1)` has one bit fewer than v, and is below it.
clear_lowest :
    (w v : ℕ)
    → 0 < v
    → v < 2 ^ w
    → (suc (ones w (bit_and v (v - 1))) ≡ ones w v) × (bit_and v (v - 1) < v)
clear_lowest zero v p h = absurd (omega arith)
clear_lowest (suc w) v p h = elim (parity v) [
  | inl even ↦
      let half = v / 2 in
      let (e, l) = clear_lowest w half (omega (arith, even)) (omega (arith, pow-suc 2 w)) in
      let same = even_step v p even in
      let count = ap (λ (t : ℕ). ones (suc w) t) same ∙ ones-double w (bit_and half (half - 1)) in
      (omega (arith, count, e, even), omega (arith, same, l, even))
  | inr odd ↦
      let same = odd_step v odd in
      let count = ap (λ (t : ℕ). ones (suc w) t) same ∙ ones-double w (v / 2) in
      (omega (arith, count, odd), omega (arith, same, odd))
]

count_loop-ones :
    (fuel result w v : ℕ)
    → v < 2 ^ w
    → ones w v < fuel
    → count_loop fuel result v ≡ some (result + ones w v)
unfolding count_loop
count_loop-ones zero result w v h f = absurd (omega arith)
count_loop-ones (suc fuel) result w v h f = elim (Bool-cases (v == 0)) [
  | inl e ↦
      let zero_value : v ≡ 0 = ground (arith, e) in
      rw (e, count_loop)
        (ap (λ (k : ℕ). some k) (omega (arith, ap (λ (t : ℕ). ones w t) zero_value, ones_zero w)))
  | inr e ↦
      let (c, l) = clear_lowest w v (ground (arith, e)) h in
      rw (e, count_loop)
        (count_loop-ones fuel (suc result) w (bit_and v (v - 1)) (omega (arith, l, h))
            (omega (arith, c, f))
          ∙ ap (λ (k : ℕ). some k) (omega (arith, c)))
]

-- `CountBytes` of a number of w bits ends and gives the number of its ones, which is at most w.
pub count_bytes-ones : (w v : ℕ) → v < 2 ^ w → (count_bytes w v ≡ some (ones w v)) × (ones w v ≤ w)
unfolding count_bytes
count_bytes-ones w v h = (
  count_loop-ones (suc w) 0 w v h (omega (arith, ones_le w v))
      ∙ ap (λ (k : ℕ). some k) (omega arith),
  ones_le w v,
)
