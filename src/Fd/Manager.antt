-- ===== src/Fd/Manager.antt =====
-- `FdManager` (src/fdmanager.cc, include/fdmanager.h).
--
-- The table is the list of its pointers, null where there is no context. A caller that changes a
-- context through the pointer that `get` returned changes the entry of the table. `none` as the
-- result of an operation stands for an index outside of the table. Locks are left out; no other
-- thread runs between the two locks of `get`.
use muqiu.Common.{ℕ, zero, suc, ◌*◌, ◌/◌, Bool, Option, none, some}
use muqiu.Common.{List, [], ◌∷◌, length, get_elem?, set, replicate, if◌then◌else◌, ltb, leb}
use muqiu.Common.Int.{ℤ, pos, negsuc}
use muqiu.Fd.Context.{FdCtx, new_fd_ctx}

abbrev pub FdManager : Type 0
FdManager = List (Option FdCtx)

unfoldable pub new_fd_manager : FdManager
new_fd_manager = replicate 64 none

-- `m_datas.resize(n)`.
unfoldable pub resize : ℕ → FdManager → FdManager
resize zero m = []
resize (suc n) [] = none ∷ resize n []
resize (suc n) (c ∷ m) = c ∷ resize n m

-- `m_datas[fd] = ctx`.
unfoldable pub store : ℕ → Option FdCtx → FdManager → Option FdManager
store fd ctx m = if ltb fd (length m) then some (set m fd ctx) else none

module _ (fstat : ℕ → Option Bool) (getfl : ℕ → ℕ) where
  -- What `get` does under its second lock.
  unfoldable pub create : ℕ → FdManager → Option (Option FdCtx × FdManager)
  create fd m =
      let ctx = some (new_fd_ctx fstat getfl fd).0 in
      let m' = if leb (length m) fd then resize (3 * fd / 2) m else m in
      elim (store fd ctx m') [ none ↦ none | some m'' ↦ some (ctx, m'') ]

  -- `m_datas[fd] || !auto_create`.
  unfoldable pub get_at :
      ℕ → Bool → Option (Option FdCtx) → FdManager → Option (Option FdCtx × FdManager)
  get_at fd auto_create none m = if auto_create then create fd m else some (none, m)
  get_at fd auto_create (some none) m = if auto_create then create fd m else some (none, m)
  get_at fd auto_create (some (some ctx)) m = some (some ctx, m)

  unfoldable pub get : ℤ → Bool → FdManager → Option (Option FdCtx × FdManager)
  get (pos fd) auto_create m = get_at fd auto_create (get_elem? m fd) m
  get (negsuc zero) auto_create m = some (none, m)
  get (negsuc (suc n)) auto_create m = none

unfoldable pub del : ℤ → FdManager → Option FdManager
del (pos fd) m = some (if leb (length m) fd then m else set m fd none)
del (negsuc n) m = none
