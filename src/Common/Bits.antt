-- ===== src/Common/Bits.antt =====
-- `&` with a mask of low bits and `|` of disjoint fields, as arithmetic.
use Prim.Native.Nat.{ℕ, zero, suc, ◌+◌, ◌*◌, ◌/◌, ◌%◌, ◌^◌, ◌≤◌, ◌<◌, ◌-◌, min, max}
use Prim.Native.Nat.{
  bit_and, bit_or, digits, bit_and-bitwise, bit_or-bitwise, bit_xor, bit_xor-bitwise, differ,
}
use mathlib.Core.Path.{◌≡◌, refl, ap, ◌∙◌}
use native.Mathlib.Nat.{pow-suc, one-le-pow}
use native.Mathlib.Omega.{arith}

-- The digit recursion gives the same result on any fuel that covers the first number.
enough_digits :
    (z : ℕ → ℕ) (f : ℕ → ℕ → ℕ) (n m a b : ℕ) → a ≤ n → a ≤ m → digits z f n a b ≡ digits z f m a b
enough_digits z f zero zero a b p q = refl
enough_digits z f zero (suc m) zero b p q = refl
enough_digits z f (suc n) zero zero b p q = refl
enough_digits z f (suc n) (suc m) zero b p q = refl
enough_digits z f zero (suc m) (suc a) b p q = absurd (omega arith)
enough_digits z f (suc n) zero (suc a) b p q = absurd (omega arith)
enough_digits z f (suc n) (suc m) (suc a) b p q =
    rw (enough_digits z f n m (suc a / 2) (b / 2) (omega arith) (omega arith))

or_digit : (a b : ℕ) → bit_or a b ≡ bit_or (a / 2) (b / 2) * 2 + max (a % 2) (b % 2)
or_digit zero b = simp bit_or-bitwise (omega arith)
or_digit (suc a) b = simp bit_or-bitwise (
    omega (
      arith,
      enough_digits (λ y. y) max a (suc a / 2) (suc a / 2) (b / 2) (omega arith) (omega arith),
    ))

pub and_digit : (a b : ℕ) → bit_and a b ≡ bit_and (a / 2) (b / 2) * 2 + min (a % 2) (b % 2)
and_digit zero b = simp bit_and-bitwise (omega arith)
and_digit (suc a) b = simp bit_and-bitwise (
    omega (
      arith,
      enough_digits (λ y. 0) min a (suc a / 2) (suc a / 2) (b / 2) (omega arith) (omega arith),
    ))

or_nothing_below : (n b : ℕ) → b ≤ n → bit_or 0 b ≡ b
or_nothing_below zero zero h = refl
or_nothing_below zero (suc b) h = absurd (omega arith)
or_nothing_below (suc n) zero h = refl
or_nothing_below (suc n) (suc b) h =
    omega (arith, or_digit 0 (suc b), or_nothing_below n (suc b / 2) (omega arith))

pub and_nothing_below : (n a : ℕ) → a ≤ n → bit_and a 0 ≡ 0
and_nothing_below n zero h = refl
and_nothing_below zero (suc a) h = absurd (omega arith)
and_nothing_below (suc n) (suc a) h =
    omega (arith, and_digit (suc a) 0, and_nothing_below n (suc a / 2) (omega arith))

times_two_pow : (q k : ℕ) → q * 2 ^ suc k ≡ 2 * (q * 2 ^ k)
times_two_pow q k = omega (arith, ap (λ (t : ℕ). q * t) (pow-suc 2 k))

-- `low | (high << k)` is a sum where `low` fits k bits.
pub bit_or-shifted : (k low high : ℕ) → low < 2 ^ k → bit_or low (high * 2 ^ k) ≡ low + high * 2 ^ k
bit_or-shifted zero low high h =
    ground (arith, or_nothing_below (high * 1) (high * 1) (omega arith))
bit_or-shifted (suc k) low high h = ground (
  arith,
  or_digit low (high * 2 ^ suc k),
  times_two_pow high k,
  pow-suc 2 k,
  bit_or-shifted k (low / 2) high (omega (arith, pow-suc 2 k)),
)

pub bit_and_1 : (a : ℕ) → bit_and a 1 ≡ a % 2
bit_and_1 a = omega (arith, and_digit a 1, and_nothing_below (a / 2) (a / 2) (omega arith))

low_2 : (a : ℕ) → bit_and a 3 ≡ a % 4
low_2 a = omega (arith, and_digit a 3, bit_and_1 (a / 2))

low_3 : (a : ℕ) → bit_and a 7 ≡ a % 8
low_3 a = omega (arith, and_digit a 7, low_2 (a / 2))

low_4 : (a : ℕ) → bit_and a 15 ≡ a % 16
low_4 a = omega (arith, and_digit a 15, low_3 (a / 2))

low_5 : (a : ℕ) → bit_and a 31 ≡ a % 32
low_5 a = omega (arith, and_digit a 31, low_4 (a / 2))

low_6 : (a : ℕ) → bit_and a 63 ≡ a % 64
low_6 a = omega (arith, and_digit a 63, low_5 (a / 2))

-- `a & 0x7f` is the remainder by 128.
pub bit_and_7f : (a : ℕ) → bit_and a 0x7f ≡ a % 128
bit_and_7f a = omega (arith, and_digit a 127, low_6 (a / 2))

-- `low | 0x80` sets the top bit of a seven-bit group.
pub bit_or_80 : (low : ℕ) → low < 128 → bit_or low 0x80 ≡ low + 128
bit_or_80 low h = bit_or-shifted 7 low 1 h

xor_digit : (a b : ℕ) → bit_xor a b ≡ bit_xor (a / 2) (b / 2) * 2 + differ (a % 2) (b % 2)
xor_digit zero b = simp bit_xor-bitwise (omega (arith, differ_zero (b % 2)))
  where
    differ_zero : (d : ℕ) → differ 0 d ≡ d
    differ_zero d = refl
xor_digit (suc a) b = simp bit_xor-bitwise (
    omega (
      arith,
      enough_digits (λ y. y) differ a (suc a / 2) (suc a / 2) (b / 2) (omega arith) (omega arith),
    ))

differ_bits : (a b : ℕ) → a < 2 → b < 2 → differ a b ≡ (a + b) % 2
differ_bits zero zero h k = refl
differ_bits zero (suc zero) h k = refl
differ_bits (suc zero) zero h k = refl
differ_bits (suc zero) (suc zero) h k = refl
differ_bits (suc (suc a)) b h k = absurd (omega arith)
differ_bits zero (suc (suc b)) h k = absurd (omega arith)
differ_bits (suc zero) (suc (suc b)) h k = absurd (omega arith)

-- `a ^ 0` keeps the number, and `a ^ 0xff…f` turns every bit round.
xor_nothing_below : (n a : ℕ) → a ≤ n → bit_xor a 0 ≡ a
xor_nothing_below n zero h = refl
xor_nothing_below zero (suc a) h = absurd (omega arith)
xor_nothing_below (suc n) (suc a) h = omega (
  arith,
  xor_digit (suc a) 0,
  differ_bits (suc a % 2) 0 (omega arith) (omega arith),
  xor_nothing_below n (suc a / 2) (omega arith),
)

pub bit_xor-zero : (a : ℕ) → bit_xor a 0 ≡ a
bit_xor-zero a = xor_nothing_below a a (omega arith)

pub bit_xor-ones : (k a : ℕ) → a < 2 ^ k → bit_xor a (2 ^ k - 1) ≡ 2 ^ k - 1 - a
bit_xor-ones zero zero h = refl
bit_xor-ones zero (suc a) h = absurd (omega arith)
bit_xor-ones (suc k) a h =
    let half : (2 ^ suc k - 1) / 2 ≡ 2 ^ k - 1 = omega (arith, pow-suc 2 k) in
    let odd : (2 ^ suc k - 1) % 2 ≡ 1 = omega (arith, pow-suc 2 k, one-le-pow k 2) in
    xor_digit a (2 ^ suc k - 1)
    ∙ rw (half, odd)
        (omega (
          arith,
          pow-suc 2 k,
          differ_bits (a % 2) 1 (omega arith) (omega arith),
          bit_xor-ones k (a / 2) (omega (arith, pow-suc 2 k)),
        ))
