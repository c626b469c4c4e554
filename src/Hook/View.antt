-- ===== src/Hook/View.antt =====
-- The user of a hooked socket sees the flags that it has set (src/hook.cc).
use muqiu.Common.{
  ℕ, ◌≡◌, ◌≢◌, refl, sym, ap, ◌∙◌, arith, Bool, true, false, not, Option, some, Bool-cases, inl,
  inr,
}
use muqiu.Common.{set, if◌then◌else◌}
use muqiu.Common.Int.{ℤ, pos}
use muqiu.Fd.Context.{FdCtx, has_nonblock, with_nonblock, without_nonblock, set_user_nonblock}
use muqiu.Fd.Manager.{FdManager}
use muqiu.Fd.Lookup.{
  context_of, context_of-set, context_of-set_other, context_of-lt, store-ok, get-known,
}
use muqiu.Hook.Flags.{Kernel, is_open_socket, set_flags, get_flags}

pub has-with_nonblock : (flags : ℕ) → has_nonblock (with_nonblock flags) ≡ true
has-with_nonblock flags = ground arith

pub has-without_nonblock : (flags : ℕ) → has_nonblock (without_nonblock flags) ≡ false
has-without_nonblock flags = ground arith

branch :
    (b u v : Bool) (a x y : ℕ)
    → b ≡ true
    → u ≡ v
    → (if not b then a else if u then x else y) ≡ (if v then x else y)
branch b u v a x y e h = rw (e, h) refl

taken : {A : Type 0} (b : Bool) (x y : A) → b ≡ true → (if b then x else y) ≡ x
taken b x y e = rw e refl

module _ {K : Type 0} (fstat : ℕ → Option Bool) (getfl : ℕ → ℕ) (kernel : Kernel K) where
  -- An F_SETFL that succeeds leaves the flag O_NONBLOCK as it was given.
  abbrev pub KeepsNonblock : Type 0
  KeepsNonblock =
      (fd arg : ℕ) (k : K)
      → (kernel.fcntl_setfl fd arg k).0 ≡ pos 0
      → has_nonblock (kernel.fcntl_getfl fd (kernel.fcntl_setfl fd arg k).1) ≡ has_nonblock arg

  -- The flags that the kernel is given: the user's, with the O_NONBLOCK of the framework.
  abbrev pub passed : FdCtx → ℕ → ℕ
  passed ctx arg = if ctx.sys_nonblock then with_nonblock arg else without_nonblock arg

  -- What F_SETFL does to an open socket, where the kernel has answered r: F_GETFL shows the user's
  -- O_NONBLOCK, while the kernel has that of the framework if it has succeeded, and no other
  -- descriptor changes.
  pub record FlagsSet (fd arg : ℕ) (ctx : FdCtx) (fds fds' : FdManager) (r : ℤ) (k' : K)
      : Type 0 where
    pub shown :
        (flags : ℕ) × (get_flags fstat getfl kernel fd fds' k' ≡ some flags)
        × (has_nonblock flags ≡ has_nonblock arg)
    pub kept : r ≡ pos 0 → has_nonblock (kernel.fcntl_getfl fd k') ≡ ctx.sys_nonblock
    pub stored : context_of fds' fd ≡ some (set_user_nonblock (has_nonblock arg) ctx)
    pub others : (j : ℕ) → j ≢ fd → context_of fds' j ≡ context_of fds j

  shown-user :
      (fd : ℕ) (fds : FdManager) (k : K) (ctx : FdCtx)
      → context_of fds fd ≡ some ctx
      → is_open_socket ctx ≡ true
      → (flags : ℕ) × (get_flags fstat getfl kernel fd fds k ≡ some flags)
        × (has_nonblock flags ≡ ctx.user_nonblock)
  unfolding get_flags
  shown-user fd fds k ctx e s =
      let g = get-known fstat getfl fd false fds ctx e in
      let arg = kernel.fcntl_getfl fd k in
      elim (Bool-cases ctx.user_nonblock) [
        | inl u ↦ (
          with_nonblock arg,
          rw (g, get_flags)
              (ap some (
                branch (is_open_socket ctx) ctx.user_nonblock true arg (with_nonblock arg)
                  (without_nonblock arg) s u)),
          has-with_nonblock arg ∙ sym u,
        )
        | inr u ↦ (
          without_nonblock arg,
          rw (g, get_flags)
              (ap some (
                branch (is_open_socket ctx) ctx.user_nonblock false arg (with_nonblock arg)
                  (without_nonblock arg) s u)),
          has-without_nonblock arg ∙ sym u,
        )
      ]

  chosen-nonblock : (ctx : FdCtx) (arg : ℕ) → has_nonblock (passed ctx arg) ≡ ctx.sys_nonblock
  chosen-nonblock ctx arg = elim (Bool-cases ctx.sys_nonblock) [
    | inl e ↦ rw e (has-with_nonblock arg)
    | inr e ↦ rw e (has-without_nonblock arg)
  ]

  -- Over a kernel where an F_SETFL that succeeds leaves O_NONBLOCK as it was given, fcntl(F_SETFL)
  -- on a descriptor with the context of an open socket returns what the kernel does on the user's
  -- flags with the O_NONBLOCK of the framework, and leaves the kernel as that call does. F_GETFL then
  -- shows the O_NONBLOCK that the user has set, the kernel has the O_NONBLOCK of the framework if the
  -- call has succeeded, and the context of no other descriptor changes.
  pub set_flags-FlagsSet :
      KeepsNonblock
      → (fd arg : ℕ) (fds : FdManager) (ctx : FdCtx) (k : K) → context_of fds fd ≡ some ctx
      → is_open_socket ctx ≡ true
      → (fds' : FdManager) × (set_flags fstat getfl kernel fd arg fds k
          ≡ some (
            (kernel.fcntl_setfl fd (passed ctx arg) k).0,
            fds',
            (kernel.fcntl_setfl fd (passed ctx arg) k).1,
          ))
        × FlagsSet fd arg ctx fds fds'
            (kernel.fcntl_setfl fd (passed ctx arg) k).0
            (kernel.fcntl_setfl fd (passed ctx arg) k).1
  unfolding set_flags
  set_flags-FlagsSet keeps fd arg fds ctx k e s =
      let g = get-known fstat getfl fd false fds ctx e in
      let lt = context_of-lt fds fd ctx e in
      let ctx' = set_user_nonblock (has_nonblock arg) ctx in
      let at : context_of (set fds fd (some ctx')) fd ≡ some ctx' =
        context_of-set fds fd (some ctx') lt in
      let arg' = passed ctx arg in
      (
        set fds fd (some ctx'),
        rw (g, store-ok fd (some ctx') fds lt, set_flags) (taken (is_open_socket ctx) _ _ s),
        record {
          shown = shown-user fd (set fds fd (some ctx')) (kernel.fcntl_setfl fd arg' k).1 ctx' at s;
          kept = λ r. keeps fd arg' k r ∙ chosen-nonblock ctx arg;
          stored = at;
          others = λ j n. context_of-set_other fds fd j (some ctx') n;
        },
      )
