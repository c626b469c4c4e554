-- ===== src/ByteArray/Overwrite.antt =====
-- `memcpy` into one node and into the bytes of all nodes: laws of `overwrite`.
use muqiu.Common.{ℕ, ◌+◌, ◌-◌, ◌*◌, ◌≤◌, ◌≡◌, refl, sym, ap, ◌∙◌, arith}
use muqiu.Common.{List, [], ◌∷◌, ◌++◌, append-nil, append_assoc, length, take, drop}
use muqiu.Common.{length-append, length-take, length-drop, take-append-drop, drop_all}
use muqiu.Common.{
  take-append, drop-append, take-append_le, take-append_ge, drop-append_le, drop-append_ge, All,
}
use muqiu.ByteArray.State.{Bytes, overwrite}

-- The bytes of a list of nodes, in order.
abbrev pub contents : List Bytes → Bytes
contents [] = []
contents (c ∷ cs) = c ++ contents cs

abbrev pub Sized : ℕ → List Bytes → Type 0
Sized base cs = All (λ c. length c ≡ base) cs

pub contents-append : (cs ds : List Bytes) → contents (cs ++ ds) ≡ contents cs ++ contents ds
contents-append [] ds = refl
contents-append (c ∷ cs) ds =
    rw (contents-append cs ds) (sym (append_assoc c (contents cs) (contents ds)))

pub length-contents :
    (base : ℕ) (cs : List Bytes) → Sized base cs → length (contents cs) ≡ length cs * base
length-contents base [] h = omega arith
length-contents base (c ∷ cs) h =
    omega (arith, length-append c (contents cs), length-contents base cs h.1)

pub Sized-append :
    (base : ℕ) (cs ds : List Bytes) → Sized base cs → Sized base ds → Sized base (cs ++ ds)
Sized-append base [] ds h k = k
Sized-append base (c ∷ cs) ds h k = (h.0, Sized-append base cs ds h.1 k)

pub overwrite-nil : (xs : Bytes) (n : ℕ) → overwrite xs n [] ≡ xs
overwrite-nil xs n = let e : n + 0 ≡ n = omega arith in rw e (take-append-drop n xs)

pub length-overwrite :
    (xs : Bytes) (n : ℕ) (bs : Bytes)
    → n + length bs ≤ length xs
    → length (overwrite xs n bs) ≡ length xs
length-overwrite xs n bs h = omega (
  arith,
  length-append (take n xs) (bs ++ drop (n + length bs) xs),
  length-append bs (drop (n + length bs) xs),
  length-take n xs,
  length-drop (n + length bs) xs,
)

pub overwrite-append_right :
    (xs ys : Bytes) (n : ℕ) (bs : Bytes)
    → overwrite (xs ++ ys) (length xs + n) bs ≡ xs ++ overwrite ys n bs
overwrite-append_right xs ys n bs =
    let e : length xs + n - length xs ≡ n = omega arith in
    let d : length xs + n + length bs - length xs ≡ n + length bs = omega arith in
    rw (take-append_ge (length xs + n) xs ys (omega arith), e)
      (rw (drop-append_ge (length xs + n + length bs) xs ys (omega arith), d)
        (append_assoc xs (take n ys) (bs ++ drop (n + length bs) ys)))

pub overwrite-append_left :
    (xs ys : Bytes) (n : ℕ) (bs : Bytes)
    → n + length bs ≤ length xs
    → overwrite (xs ++ ys) n bs ≡ overwrite xs n bs ++ ys
overwrite-append_left xs ys n bs h =
    rw (take-append_le n xs ys (omega arith), drop-append_le (n + length bs) xs ys h)
      (simp append_assoc)

-- Bytes that run over the end of the first part.
pub overwrite-append_split :
    (xs ys : Bytes) (n : ℕ) (bs : Bytes)
    → n ≤ length xs
    → length xs ≤ n + length bs
    → let k = length xs - n in
      overwrite (xs ++ ys) n bs ≡ overwrite xs n (take k bs) ++ overwrite ys 0 (drop k bs)
overwrite-append_split xs ys n bs h hh =
    let k = length xs - n in
    let e : length xs ≡ n + length (take k bs) = omega (arith, length-take k bs) in
    let f : n + length bs - length xs ≡ 0 + length (drop k bs) = omega (arith, length-drop k bs) in
    rw (take-append_le n xs ys h, drop-append_ge (n + length bs) xs ys hh, f)
      (rw (drop_all (n + length (take k bs)) xs (omega (arith, e)), append-nil)
        (simp append_assoc (
          ap (λ t. take n xs ++ t)
            (ap (λ t. t ++ drop (0 + length (drop k bs)) ys) (sym (take-append-drop k bs))
              ∙ append_assoc (take k bs) (drop k bs) _))))

-- One more node in front of the cursor.
pub contents-snoc :
    (before : List Bytes) (f : Bytes) (after : List Bytes)
    → contents ((before ++ f ∷ []) ++ after) ≡ contents before ++ (f ++ contents after)
contents-snoc before f after =
    rw (append_assoc before (f ∷ []) after) (contents-append before (f ∷ after))

pub length-snoc :
    (before : List Bytes) (f : Bytes) (base : ℕ)
    → (length (before ++ f ∷ []) ≡ length before + 1)
      × (length (before ++ f ∷ []) * base ≡ length before * base + base)
length-snoc before f base =
    let e : length (before ++ f ∷ []) ≡ length before + 1 =
      omega (arith, length-append before (f ∷ [])) in
    (e, rw e (omega arith))

-- What a copy wrote is what a slice at its place reads.
pub slice-overwrite :
    (xs : Bytes) (n : ℕ) (bs : Bytes)
    → n ≤ length xs
    → take (length bs) (drop n (overwrite xs n bs)) ≡ bs
slice-overwrite xs n bs h =
    let front : Bytes = take n xs in
    let tail : Bytes = bs ++ drop (n + length bs) xs in
    let e : length front ≡ n = omega (arith, length-take n xs) in
    ap (λ k. take (length bs) (drop k (front ++ tail))) (sym e)
    ∙ ap (take (length bs)) (drop-append front tail)
    ∙ take-append bs (drop (n + length bs) xs)
