-- ===== src/Http/ParamLaws.antt =====
-- The parameters of a query, of a form and of a cookie are read back (src/http.cc).
use muqiu.Common.{==_iff}
use muqiu.Common.{ℕ, zero, suc, ◌<◌, ◌≡◌, refl, arith, true, none, some}
use muqiu.Common.{List, [], ◌∷◌, ◌++◌, map, length, length-append, All}
use muqiu.Url.Codec.{Bytes, url_encode}
use muqiu.Url.RoundTrip.{url_decode-url_encode}
use muqiu.Url.Reserved.{Lacks, IsSeparator, url_encode-Lacks}
use muqiu.Http.Params.{split, parse_loop, parse_param}

-- The text of parameters: keys as they are, values encoded, with `flag` between.
abbrev pub print : ℕ → List (Bytes × Bytes) → Bytes
print flag [] = []
print flag ((k, v) ∷ []) = k ++ (b'=' ∷ url_encode v true)
print flag ((k, v) ∷ p ∷ ps) = k ++ (b'=' ∷ (url_encode v true ++ (flag ∷ print flag (p ∷ ps))))

-- A key has no `=`, and a value is bytes.
abbrev pub IsParam : Bytes × Bytes → Type 0
IsParam (k, v) = Lacks b'=' k × All (λ (c : ℕ). c < 256) v

pub split-found : (c : ℕ) (s rest : Bytes) → Lacks c s → split c (s ++ (c ∷ rest)) ≡ some (s, rest)
unfolding split
split-found c [] rest h = rw ((==_iff c c).1 refl) refl
split-found c (x ∷ s) rest h = rw (h.0, split-found c s rest h.1) refl

pub split-none : (c : ℕ) (s : Bytes) → Lacks c s → split c s ≡ none
unfolding split
split-none c [] h = refl
split-none c (x ∷ s) h = rw (h.0, split-none c s h.1) refl

parse_loop-print :
    (flag : ℕ) (trim : Bytes → Bytes) (fuel : ℕ) (ps : List (Bytes × Bytes))
    → IsSeparator flag
    → All IsParam ps
    → length (print flag ps) < fuel
    → parse_loop fuel flag trim (print flag ps) ≡ some (map (λ p. (trim p.0, p.1)) ps)
unfolding parse_loop split
parse_loop-print flag trim zero ps s h f = absurd (omega arith)
parse_loop-print flag trim (suc fuel) [] s h f = refl
parse_loop-print flag trim (suc fuel) ((k, v) ∷ []) s ((hk, hv), t) f =
    let enc = url_encode v true in
    rw
      (
        split-found b'=' k enc hk,
        split-none flag enc (url_encode-Lacks flag v s hv),
        url_decode-url_encode true v hv,
        parse_loop,
      )
      refl
parse_loop-print flag trim (suc fuel) ((k, v) ∷ p ∷ ps) s ((hk, hv), hs) f =
    let enc = url_encode v true in
    let rest = print flag (p ∷ ps) in
    let long = length-append k (b'=' ∷ (enc ++ (flag ∷ rest))) in
    let long' = length-append enc (flag ∷ rest) in
    let ih = parse_loop-print flag trim fuel (p ∷ ps) s hs (omega (arith, long, long', f)) in
    rw
      (
        split-found b'=' k (enc ++ (flag ∷ rest)) hk,
        split-found flag enc rest (url_encode-Lacks flag v s hv),
        ih,
        url_decode-url_encode true v hv,
        parse_loop,
      )
      refl

-- What the macro reads from the text of parameters with a separator that is `&` or `;` is these
-- parameters in order, with trimmed keys, if no key has a `=` and every value is a text of bytes.
pub parse_param-print :
    (flag : ℕ) (trim : Bytes → Bytes) (ps : List (Bytes × Bytes))
    → IsSeparator flag
    → All IsParam ps
    → parse_param flag trim (print flag ps) ≡ some (map (λ p. (trim p.0, p.1)) ps)
unfolding parse_param
parse_param-print flag trim ps s h =
    parse_loop-print flag trim (suc (length (print flag ps))) ps s h (omega arith)
