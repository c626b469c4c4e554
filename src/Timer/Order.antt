-- ===== src/Timer/Order.antt =====
-- The order of the set of timers (src/timer.cc).
use muqiu.Common.{◌≡◌, refl, arith, true, false, Bool-cases, inl, inr}
use muqiu.Common.{List, [], ◌∷◌, All}
use muqiu.Timer.Manager.{Timer, earlier, same_key, contains, insert, erase}

abbrev pub Before : Timer → List Timer → Type 0
Before x ys = All (λ y. earlier x y ≡ true) ys

abbrev pub IsSorted : List Timer → Type 0
IsSorted [] = Unit
IsSorted (x ∷ xs) = Before x xs × IsSorted xs

pub earlier_trans : (a b c : Timer) → earlier a b ≡ true → earlier b c ≡ true → earlier a c ≡ true
earlier_trans a b c p q = ground arith

Before-trans : (a b : Timer) (ys : List Timer) → earlier a b ≡ true → Before b ys → Before a ys
Before-trans a b [] p q = tt
Before-trans a b (y ∷ ys) p q = (earlier_trans a b y p q.0, Before-trans a b ys p q.1)

insert-Before :
    (x t : Timer) (ys : List Timer) → earlier x t ≡ true → Before x ys → Before x (insert t ys)
unfolding insert
insert-Before x t [] p q = (p, tt)
insert-Before x t (y ∷ ys) p q = elim (Bool-cases (earlier t y)) [
  | inl e ↦ rw e (p, q)
  | inr e ↦ rw e (elim (Bool-cases (earlier y t)) [
    | inl f ↦ rw f (q.0, insert-Before x t ys p q.1)
    | inr f ↦ rw f q
  ])
]

pub insert-IsSorted : (t : Timer) (xs : List Timer) → IsSorted xs → IsSorted (insert t xs)
unfolding insert
insert-IsSorted t [] s = (tt, tt)
insert-IsSorted t (x ∷ xs) s = elim (Bool-cases (earlier t x)) [
  | inl e ↦ rw e ((e, Before-trans t x xs e s.0), s)
  | inr e ↦ rw e (elim (Bool-cases (earlier x t)) [
    | inl f ↦ rw f (insert-Before x t xs f s.0, insert-IsSorted t xs s.1)
    | inr f ↦ rw f s
  ])
]

erase-Before : (x t : Timer) (ys : List Timer) → Before x ys → Before x (erase t ys)
unfolding erase
erase-Before x t [] h = tt
erase-Before x t (y ∷ ys) h = elim (Bool-cases (same_key t y)) [
  | inl e ↦ rw e h.1
  | inr e ↦ rw e (h.0, erase-Before x t ys h.1)
]

pub erase-IsSorted : (t : Timer) (xs : List Timer) → IsSorted xs → IsSorted (erase t xs)
unfolding erase
erase-IsSorted t [] s = tt
erase-IsSorted t (x ∷ xs) s = elim (Bool-cases (same_key t x)) [
  | inl e ↦ rw e s.1
  | inr e ↦ rw e (erase-Before x t xs s.0, erase-IsSorted t xs s.1)
]

later_differs : (t x y : Timer) → same_key t x ≡ true → earlier x y ≡ true → same_key t y ≡ false
later_differs t x y p q = ground arith

contains-later :
    (t x : Timer) (ys : List Timer) → same_key t x ≡ true → Before x ys → contains t ys ≡ false
unfolding contains
contains-later t x [] p q = refl
contains-later t x (y ∷ ys) p q = rw (later_differs t x y p q.0) (contains-later t x ys p q.1)

-- An erased timer is gone.
pub contains-erase : (t : Timer) (xs : List Timer) → IsSorted xs → contains t (erase t xs) ≡ false
unfolding contains erase
contains-erase t [] s = refl
contains-erase t (x ∷ xs) s = elim (Bool-cases (same_key t x)) [
  | inl e ↦ rw e (contains-later t x xs e s.0)
  | inr e ↦ rw e (rw e (contains-erase t xs s.1))
]

same_self : (t : Timer) → same_key t t ≡ true
same_self t = ground arith

-- An inserted timer is there, or one with its key was.
pub contains-insert : (t : Timer) (xs : List Timer) → contains t (insert t xs) ≡ true
unfolding contains insert
contains-insert t [] = rw (same_self t)
contains-insert t (x ∷ xs) = elim (Bool-cases (earlier t x)) [
  | inl e ↦ rw e (rw (same_self t))
  | inr e ↦ elim (Bool-cases (earlier x t)) [
    | inl f ↦ rw (e, f) (rw (contains-insert t xs) (ground arith))
    | inr f ↦ rw (e, f) (rw (e, f))
  ]
]
