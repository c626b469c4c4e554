-- ===== src/Servlet/Keeping.antt =====
-- Lists of entries with different URIs (src/servlet.cc).
use mathlib.Core.Path.{subst}
use muqiu.Common.{
  ◌≡◌, refl, sym, ap, ◌∙◌, arith, Bool, true, false, ◌&&◌, Bool-cases, none, some, inl, inr,
}
use muqiu.Common.{List, [], ◌∷◌, ◌++◌, All, if◌then◌else◌, ◌==◌, ==_iff}
use muqiu.ByteArray.State.{Bytes}
use muqiu.Servlet.Dispatch.{same, assign, find, keep, erase_key, erase_first}

and_true : (a b : Bool) → (a && b) ≡ true → (a ≡ true) × (b ≡ true)
and_true true b e = (refl, e)
and_true false b e = absurd (ground (arith, e))

pub same→eq : (xs ys : Bytes) → same xs ys ≡ true → xs ≡ ys
same→eq [] [] e = refl
same→eq [] (y ∷ ys) e = absurd (ground (arith, e))
same→eq (x ∷ xs) [] e = absurd (ground (arith, e))
same→eq (x ∷ xs) (y ∷ ys) e =
    let (h, t) = and_true (x == y) (same xs ys) e in
    ap (λ z. z ∷ xs) ((==_iff x y).0 h) ∙ ap (λ zs. y ∷ zs) (same→eq xs ys t)

pub same_refl : (xs : Bytes) → same xs xs ≡ true
same_refl [] = refl
same_refl (x ∷ xs) = rw ((==_iff x x).1 refl, same_refl xs) refl

same_comm_true : (xs ys : Bytes) → same xs ys ≡ true → same ys xs ≡ true
same_comm_true xs ys e = subst (λ (zs : Bytes). same zs xs ≡ true) (same→eq xs ys e) (same_refl xs)

pub same_comm_false : (xs ys : Bytes) → same xs ys ≡ false → same ys xs ≡ false
same_comm_false xs ys e = elim (Bool-cases (same ys xs)) [
  | inl q ↦ absurd (ground (arith, e, same_comm_true ys xs q))
  | inr q ↦ q
]

other_key : (k uri w : Bytes) → same k uri ≡ false → same k w ≡ true → same uri w ≡ false
other_key k uri w e h =
    subst (λ (z : Bytes). same uri z ≡ false) (same→eq k w h) (same_comm_false k uri e)

module _ {A : Type 0} where
  if_if : (b : Bool) (x y z : A) → (if b then x else z) ≡ (if b then x else if b then y else z)
  if_if true x y z = refl
  if_if false x y z = refl

  if_same : (b : Bool) (x : A) → x ≡ (if b then x else x)
  if_same true x = refl
  if_same false x = refl

module _ {A : Type 0} where
  -- What `assign` and `erase` do to `find`.
  pub find-assign :
      (uri w : Bytes) (v : A) (m : List (Bytes × A))
      → find w (assign uri v m) ≡ (if same uri w then some v else find w m)
  find-assign uri w v [] = refl
  find-assign uri w v ((k, x) ∷ m) = elim (Bool-cases (same k uri)) [
    | inl q ↦ rw (q, sym (same→eq k uri q)) (if_if (same k w) (some v) (some x) (find w m))
    | inr q ↦ elim (Bool-cases (same k w)) [
      | inl r ↦ rw (q, r, other_key k uri w q r) refl
      | inr r ↦ rw (q, r) (find-assign uri w v m)
    ]
  ]

  pub find-erase_key :
      (uri w : Bytes) (m : List (Bytes × A))
      → find w (erase_key uri m) ≡ (if same uri w then none else find w m)
  find-erase_key uri w [] = if_same (same uri w) none
  find-erase_key uri w ((k, x) ∷ m) = elim (Bool-cases (same k uri)) [
    | inl q ↦ rw q (
        find-erase_key uri w m
        ∙ rw (sym (same→eq k uri q)) (if_if (same k w) none (some x) (find w m)))
    | inr q ↦ elim (Bool-cases (same k w)) [
      | inl r ↦ rw (q, r, other_key k uri w q r) refl
      | inr r ↦ rw (q, r) (find-erase_key uri w m)
    ]
  ]

  -- No two entries have one URI.
  abbrev pub Absent : Bytes → List (Bytes × A) → Type 0
  Absent uri m = All (λ (e : Bytes × A). same e.0 uri ≡ false) m

  abbrev pub Distinct : List (Bytes × A) → Type 0
  Distinct [] = Unit
  Distinct ((k, v) ∷ m) = Absent k m × Distinct m

  pub keep-keep :
      (p q : Bytes → Bool) (m : List (Bytes × A)) → keep p (keep q m) ≡ keep (λ k. q k && p k) m
  keep-keep p q [] = refl
  keep-keep p q ((k, v) ∷ m) = elim (Bool-cases (q k)) [
    | inl e ↦ rw e (ap (λ t. if p k then (k, v) ∷ t else t) (keep-keep p q m))
    | inr e ↦ rw e (keep-keep p q m)
  ]

  pub keep-append :
      (p : Bytes → Bool) (m n : List (Bytes × A)) → keep p (m ++ n) ≡ keep p m ++ keep p n
  keep-append p [] n = refl
  keep-append p ((k, v) ∷ m) n = elim (Bool-cases (p k)) [
    | inl e ↦ rw e (ap (λ t. (k, v) ∷ t) (keep-append p m n))
    | inr e ↦ rw e (keep-append p m n)
  ]

  pub keep-Absent :
      (p : Bytes → Bool) (uri : Bytes) (m : List (Bytes × A)) → Absent uri m → Absent uri (keep p m)
  keep-Absent p uri [] a = tt
  keep-Absent p uri ((k, v) ∷ m) (h, a) = elim (Bool-cases (p k)) [
    | inl e ↦ rw e (h, keep-Absent p uri m a)
    | inr e ↦ rw e (keep-Absent p uri m a)
  ]

  pub keep-Distinct : (p : Bytes → Bool) (m : List (Bytes × A)) → Distinct m → Distinct (keep p m)
  keep-Distinct p [] d = tt
  keep-Distinct p ((k, v) ∷ m) (a, d) = elim (Bool-cases (p k)) [
    | inl e ↦ rw e (keep-Absent p k m a, keep-Distinct p m d)
    | inr e ↦ rw e (keep-Distinct p m d)
  ]

  pub erase_key-Absent : (uri : Bytes) (m : List (Bytes × A)) → Absent uri (erase_key uri m)
  erase_key-Absent uri [] = tt
  erase_key-Absent uri ((k, v) ∷ m) = elim (Bool-cases (same k uri)) [
    | inl e ↦ rw e (erase_key-Absent uri m)
    | inr e ↦ rw e (e, erase_key-Absent uri m)
  ]

  erase_key_noop : (uri : Bytes) (m : List (Bytes × A)) → Absent uri m → erase_key uri m ≡ m
  erase_key_noop uri [] a = refl
  erase_key_noop uri ((k, v) ∷ m) (h, a) = rw h (ap (λ t. (k, v) ∷ t) (erase_key_noop uri m a))

  -- Where no two entries have one URI, to take out the first of a URI is to take out all.
  pub erase_first-erase_key :
      (uri : Bytes) (m : List (Bytes × A)) → Distinct m → erase_first uri m ≡ erase_key uri m
  erase_first-erase_key uri [] d = refl
  erase_first-erase_key uri ((k, v) ∷ m) (a, d) = elim (Bool-cases (same k uri)) [
    | inl e ↦
        rw e (sym (erase_key_noop uri m (subst (λ (z : Bytes). Absent z m) (same→eq k uri e) a)))
    | inr e ↦ rw e (ap (λ t. (k, v) ∷ t) (erase_first-erase_key uri m d))
  ]

  Absent-append :
      (uri k : Bytes) (v : A) (m : List (Bytes × A))
      → Absent uri m
      → same k uri ≡ false
      → Absent uri (m ++ (k, v) ∷ [])
  Absent-append uri k v [] a e = (e, tt)
  Absent-append uri k v ((j, w) ∷ m) (h, a) e = (h, Absent-append uri k v m a e)

  pub Distinct-append :
      (uri : Bytes) (v : A) (m : List (Bytes × A))
      → Distinct m
      → Absent uri m
      → Distinct (m ++ (uri, v) ∷ [])
  Distinct-append uri v [] d a = (tt, tt)
  Distinct-append uri v ((k, w) ∷ m) (b, d) (h, a) =
      (Absent-append k uri v m b (same_comm_false k uri h), Distinct-append uri v m d a)
