-- ===== src/Url/Reserved.antt =====
-- Which characters `UrlEncode` leaves out (src/util.cc).
use muqiu.Common.{ℕ, ◌<◌, ◌≡◌, refl, sym, arith, Bool, true, false, not, ◌&&◌, none, ◌⊎◌, inl, inr}
use muqiu.Common.{[], ◌∷◌, ◌++◌, All, if◌then◌else◌, ◌==◌}
use mathlib.Core.Path.{subst}
use muqiu.Url.Tables.{is_unreserved}
use muqiu.Url.Codec.{Bytes, escape, url_encode}
use muqiu.Url.RoundTrip.{encoded, encode_loop-encoded, all_below, all_below_lem}

-- No character of a text is `c`.
abbrev pub Lacks : ℕ → Bytes → Type 0
Lacks c s = All (λ (x : ℕ). (x == c) ≡ false) s

abbrev pub lacks : ℕ → Bytes → Bool
lacks c [] = true
lacks c (x ∷ s) = not (x == c) && lacks c s

pub lacks→Lacks : (c : ℕ) (s : Bytes) → lacks c s ≡ true → Lacks c s
lacks→Lacks c [] e = tt
lacks→Lacks c (x ∷ s) e = (ground (arith, e), lacks→Lacks c s (ground (arith, e)))

pub Lacks-append : (c : ℕ) (s t : Bytes) → Lacks c s → Lacks c t → Lacks c (s ++ t)
Lacks-append c [] t a b = b
Lacks-append c (x ∷ s) t a b = (a.0, Lacks-append c s t a.1 b)

-- What stands for a character.
abbrev piece : Bool → ℕ → Bytes
piece plus c = if is_unreserved c then c ∷ [] else escape plus c

-- The characters between the parts of a query, of a form and of a cookie.
abbrev pub IsSeparator : ℕ → Type 0
IsSeparator c = (c ≡ b'&') ⊎ (c ≡ b';')

ampersand : all_below (λ c. lacks b'&' (piece true c)) 256 ≡ true
unfolding all_below is_unreserved escape
ampersand = refl

semicolon : all_below (λ c. lacks b';' (piece true c)) 256 ≡ true
unfolding all_below is_unreserved escape
semicolon = refl

separator_free :
    (flag : ℕ) → IsSeparator flag → all_below (λ c. lacks flag (piece true c)) 256 ≡ true
separator_free flag (inl e) = rw e ampersand
separator_free flag (inr e) = rw e semicolon

encoded-Lacks :
    (flag : ℕ) (str : Bytes)
    → IsSeparator flag
    → All (λ c. c < 256) str
    → Lacks flag (encoded true str)
encoded-Lacks flag [] s h = tt
encoded-Lacks flag (c ∷ str) s h =
    Lacks-append flag (piece true c) (encoded true str)
      (lacks→Lacks flag (piece true c)
        (all_below_lem (λ x. lacks flag (piece true x)) 256 c (separator_free flag s) h.0))
      (encoded-Lacks flag str s h.1)

-- An encoded text has no separator.
pub url_encode-Lacks :
    (flag : ℕ) (str : Bytes)
    → IsSeparator flag
    → All (λ c. c < 256) str
    → Lacks flag (url_encode str true)
unfolding url_encode
url_encode-Lacks flag str s h =
    subst (λ (t : Bytes). Lacks flag t) (sym (encode_loop-encoded true [] none str))
      (encoded-Lacks flag str s h)
