-- ===== src/Http/Decimal.antt =====
-- Numbers in the text of a message, as a stream prints them (src/http.cc).
use muqiu.Common.{
  ℕ, zero, suc, ◌+◌, ◌-◌, ◌*◌, ◌/◌, ◌%◌, ◌≤◌, ◌<◌, ◌≡◌, refl, ap, ◌∙◌, arith, Bool-cases, inl, inr,
}
use muqiu.Common.{[], ◌∷◌, ◌++◌, ltb}
use muqiu.Url.Codec.{Bytes}
use muqiu.Url.Reserved.{Lacks, Lacks-append}
use muqiu.Http.Dump.{digits, decimal}

-- The number of a text in decimal, behind the digits of `n`.
abbrev pub number : ℕ → Bytes → ℕ
number n [] = n
number n (c ∷ s) = number (n * 10 + (c - b'0')) s

number-append : (n : ℕ) (s t : Bytes) → number n (s ++ t) ≡ number (number n s) t
number-append n [] t = refl
number-append n (c ∷ s) t = number-append (n * 10 + (c - b'0')) s t

number-digits : (fuel n : ℕ) → n ≤ fuel → number 0 (digits fuel n) ≡ n
unfolding digits
number-digits zero n h = omega (arith, h)
number-digits (suc fuel) n h = elim (Bool-cases (ltb n 10)) [
  | inl e ↦ rw (e, digits, number) (omega arith)
  | inr e ↦
      rw (e, digits, number)
        (number-append 0 (digits fuel (n / 10)) ((b'0' + n % 10) ∷ [])
          ∙ ap (λ (k : ℕ). k * 10 + (b'0' + n % 10 - b'0'))
              (number-digits fuel (n / 10) (ground (arith, h, e)))
          ∙ omega arith)
]

pub number-decimal : (n : ℕ) → number 0 (decimal n) ≡ n
unfolding decimal
number-decimal n = number-digits n n (omega arith)

digits-Lacks : (c fuel n : ℕ) → c < b'0' → Lacks c (digits fuel n)
unfolding digits
digits-Lacks c zero n h = (ground (arith, h), tt)
digits-Lacks c (suc fuel) n h = elim (Bool-cases (ltb n 10)) [
  | inl e ↦ rw (e, digits) (ground (arith, h), tt)
  | inr e ↦
      rw (e, digits)
        (Lacks-append c (digits fuel (n / 10)) ((b'0' + n % 10) ∷ [])
          (digits-Lacks c fuel (n / 10) h) (ground (arith, h), tt))
]

pub decimal-Lacks : (c n : ℕ) → c < b'0' → Lacks c (decimal n)
unfolding decimal
decimal-Lacks c n h = digits-Lacks c n n h
