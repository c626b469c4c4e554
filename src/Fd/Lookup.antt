-- ===== src/Fd/Lookup.antt =====
-- The table of descriptors is a map from descriptors to contexts (src/fdmanager.cc).
use muqiu.Common.{
  ℕ, zero, suc, ◌*◌, ◌/◌, ◌≤◌, ◌<◌, ◌≡◌, ◌≢◌, refl, sym, ap, ◌∙◌, arith, Bool, true, false, Option,
  none, some, some_inj, Bool-cases, Option-cases, inl, inr,
}
use muqiu.Common.{
  [], ◌∷◌, length, get_elem?, set, length-set, length-replicate, if◌then◌else◌, leb, lt→ltb,
}
use muqiu.Common.Int.{pos}
use muqiu.Fd.Context.{FdCtx, new_fd_ctx}
use muqiu.Fd.Manager.{FdManager, new_fd_manager, resize, store, create, get_at, get, del}

-- The map that a table stands for: a descriptor that is not in the table has no context.
abbrev pub context_of : FdManager → ℕ → Option FdCtx
context_of [] fd = none
context_of (c ∷ m) zero = c
context_of (c ∷ m) (suc fd) = context_of m fd

context_of-get :
    (m : FdManager) (fd : ℕ) (c : Option FdCtx) → get_elem? m fd ≡ some c → context_of m fd ≡ c
context_of-get [] fd c e = absurd (ground (arith, e))
context_of-get (x ∷ m) zero c e = some_inj e
context_of-get (x ∷ m) (suc fd) c e = context_of-get m fd c e

context_of-none : (m : FdManager) (fd : ℕ) → get_elem? m fd ≡ none → context_of m fd ≡ none
context_of-none [] fd e = refl
context_of-none (x ∷ m) zero e = absurd (ground (arith, e))
context_of-none (x ∷ m) (suc fd) e = context_of-none m fd e

length-resize : (n : ℕ) (m : FdManager) → length (resize n m) ≡ n
unfolding resize
length-resize zero m = refl
length-resize (suc n) [] = ap suc (length-resize n [])
length-resize (suc n) (c ∷ m) = ap suc (length-resize n m)

context_of-resize :
    (n : ℕ) (m : FdManager) (fd : ℕ) → length m ≤ n → context_of (resize n m) fd ≡ context_of m fd
unfolding resize
context_of-resize zero [] fd h = refl
context_of-resize zero (c ∷ m) fd h = absurd (omega arith)
context_of-resize (suc n) [] zero h = refl
context_of-resize (suc n) [] (suc fd) h = context_of-resize n [] fd (omega arith)
context_of-resize (suc n) (c ∷ m) zero h = refl
context_of-resize (suc n) (c ∷ m) (suc fd) h = context_of-resize n m fd (omega arith)

pub context_of-set :
    (m : FdManager) (fd : ℕ) (c : Option FdCtx) → fd < length m → context_of (set m fd c) fd ≡ c
context_of-set [] fd c h = absurd (omega arith)
context_of-set (x ∷ m) zero c h = refl
context_of-set (x ∷ m) (suc fd) c h = context_of-set m fd c (omega arith)

pub context_of-set_other :
    (m : FdManager) (fd j : ℕ) (c : Option FdCtx)
    → j ≢ fd
    → context_of (set m fd c) j ≡ context_of m j
context_of-set_other [] fd j c h = refl
context_of-set_other (x ∷ m) zero zero c h = absurd (h refl)
context_of-set_other (x ∷ m) zero (suc j) c h = refl
context_of-set_other (x ∷ m) (suc fd) zero c h = refl
context_of-set_other (x ∷ m) (suc fd) (suc j) c h =
    context_of-set_other m fd j c (λ e. h (ap suc e))

context_of-beyond : (m : FdManager) (fd : ℕ) → length m ≤ fd → context_of m fd ≡ none
context_of-beyond [] fd h = refl
context_of-beyond (x ∷ m) zero h = absurd (omega arith)
context_of-beyond (x ∷ m) (suc fd) h = context_of-beyond m fd (omega arith)

pub store-ok :
    (fd : ℕ) (c : Option FdCtx) (m : FdManager) → fd < length m → store fd c m ≡ some (set m fd c)
unfolding store
store-ok fd c m h = rw (lt→ltb fd (length m) h) refl

get_elem?-context_of :
    (m : FdManager) (fd : ℕ) (c : FdCtx) → context_of m fd ≡ some c → get_elem? m fd ≡ some (some c)
get_elem?-context_of [] fd c e = absurd (ground (arith, e))
get_elem?-context_of (x ∷ m) zero c e = ap some e
get_elem?-context_of (x ∷ m) (suc fd) c e = get_elem?-context_of m fd c e

pub context_of-lt : (m : FdManager) (fd : ℕ) (c : FdCtx) → context_of m fd ≡ some c → fd < length m
context_of-lt [] fd c e = absurd (ground (arith, e))
context_of-lt (x ∷ m) zero c e = omega arith
context_of-lt (x ∷ m) (suc fd) c e = omega (arith, context_of-lt m fd c e)

-- `get` of a descriptor that has a context leaves the table as it is.
pub get-known :
    (fstat : ℕ → Option Bool) (getfl : ℕ → ℕ) (fd : ℕ) (auto_create : Bool) (m : FdManager)
    (c : FdCtx)
    → context_of m fd ≡ some c
    → get fstat getfl (pos fd) auto_create m ≡ some (some c, m)
unfolding get get_at
get-known fstat getfl fd auto_create m c e = rw (get_elem?-context_of m fd c e, get, get_at) refl

-- A new manager has 64 entries, and no operation makes the table shorter.
abbrev pub IsLong : FdManager → Type 0
IsLong m = 64 ≤ length m

module _ (fstat : ℕ → Option Bool) (getfl : ℕ → ℕ) where
  abbrev fresh : ℕ → Option FdCtx
  fresh fd = some (new_fd_ctx fstat getfl fd).0

  -- What `get` of a descriptor does to the map that the table stands for.
  pub record GetOf (fd : ℕ) (auto_create : Bool) (m : FdManager) (r : Option FdCtx) (m' : FdManager)
      : Type 0 where
    pub known : (c : FdCtx) → context_of m fd ≡ some c → r ≡ some c
    pub unknown : context_of m fd ≡ none → r ≡ (if auto_create then fresh fd else none)
    pub stored : context_of m' fd ≡ r
    pub others : (j : ℕ) → j ≢ fd → context_of m' j ≡ context_of m j
    pub long : IsLong m'

  -- The table that `create` stores in.
  abbrev grown : ℕ → FdManager → FdManager
  grown fd m = if leb (length m) fd then resize (3 * fd / 2) m else m

  grown-fits :
      (fd : ℕ) (m : FdManager)
      → IsLong m
      → (fd < length (grown fd m))
        × IsLong (grown fd m)
        × ((j : ℕ) → context_of (grown fd m) j ≡ context_of m j)
  grown-fits fd m h = elim (Bool-cases (leb (length m) fd)) [
    | inl e ↦
        let le : length m ≤ fd = ground (arith, e) in
        let n = length-resize (3 * fd / 2) m in
        rw e (
          omega (arith, n),
          omega (arith, n),
          λ j. context_of-resize (3 * fd / 2) m j (omega arith),
        )
    | inr e ↦ let lt : fd < length m = ground (arith, e) in rw e (lt, h, λ j. refl)
  ]

  create-GetOf :
      (fd : ℕ) (m : FdManager)
      → IsLong m
      → context_of m fd ≡ none
      → (r : Option FdCtx) × (m' : FdManager) × (create fstat getfl fd m ≡ some (r, m'))
        × GetOf fd true m r m'
  unfolding create
  create-GetOf fd m h e =
      let g = grown-fits fd m h in
      let m' = grown fd m in
      let l = length-set m' fd (fresh fd) in
      (
        fresh fd,
        set m' fd (fresh fd),
        rw (store-ok fd (fresh fd) m' g.0, create) refl,
        record {
          known = λ c k. absurd (ground (arith, e, k));
          unknown = λ k. refl;
          stored = context_of-set m' fd (fresh fd) g.0;
          others = λ j n. context_of-set_other m' fd j (fresh fd) n ∙ g.2 j;
          long = omega (arith, l, g.1);
        },
      )

  missing-GetOf :
      (fd : ℕ) (auto_create : Bool) (m : FdManager)
      → IsLong m
      → context_of m fd ≡ none
      → (r : Option FdCtx) × (m' : FdManager) × ((if auto_create
            then create fstat getfl fd m
            else some (none, m))
          ≡ some (r, m'))
        × GetOf fd auto_create m r m'
  missing-GetOf fd true m h e = create-GetOf fd m h e
  missing-GetOf fd false m h e = (
    none,
    m,
    refl,
    record {
      known = λ c k. absurd (ground (arith, e, k));
      unknown = λ k. refl;
      stored = e;
      others = λ j n. refl;
      long = h;
    },
  )

  -- On a table of at least 64 entries `get` of a descriptor returns the context that the map has,
  -- and where it has none a new one on request, else null; the map then has what is returned, and
  -- for other descriptors what it had.
  pub get-GetOf :
      (fd : ℕ) (auto_create : Bool) (m : FdManager)
      → IsLong m
      → (r : Option FdCtx) × (m' : FdManager) × (get fstat getfl (pos fd) auto_create m
          ≡ some (r, m'))
        × GetOf fd auto_create m r m'
  unfolding get get_at
  get-GetOf fd auto_create m h = elim (Option-cases (get_elem? m fd)) [
    | inl e ↦ rw (e, get, get_at) (missing-GetOf fd auto_create m h (context_of-none m fd e))
    | inr (none, e) ↦
        rw (e, get, get_at) (missing-GetOf fd auto_create m h (context_of-get m fd none e))
    | inr (some c, e) ↦
        let k = context_of-get m fd (some c) e in
        rw (e, get, get_at)
          (
            some c,
            m,
            refl,
            record {
              known = λ d q. sym k ∙ q;
              unknown = λ q. absurd (ground (arith, k, q));
              stored = k;
              others = λ j n. refl;
              long = h;
            },
          )
  ]

-- `del` takes a descriptor out of the map and leaves every other.
pub del-context_of :
    (fd : ℕ) (m : FdManager)
    → (m' : FdManager) × (del (pos fd) m ≡ some m')
      × (context_of m' fd ≡ none)
      × ((j : ℕ) → j ≢ fd → context_of m' j ≡ context_of m j)
      × (length m' ≡ length m)
unfolding del
del-context_of fd m = elim (Bool-cases (leb (length m) fd)) [
  | inl e ↦
      let le : length m ≤ fd = ground (arith, e) in
      rw e (m, refl, context_of-beyond m fd le, λ j n. refl, refl)
  | inr e ↦
      let lt : fd < length m = ground (arith, e) in
      rw e (
        set m fd none,
        refl,
        context_of-set m fd none lt,
        λ j n. context_of-set_other m fd j none n,
        length-set m fd none,
      )
]

pub new_fd_manager-IsLong : IsLong new_fd_manager
unfolding new_fd_manager
new_fd_manager-IsLong =
    let empty : Option FdCtx = none in let e = length-replicate 64 empty in omega (arith, e)
