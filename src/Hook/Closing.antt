-- ===== src/Hook/Closing.antt =====
-- The hooked socket, accept and close (src/hook.cc).
use muqiu.Common.{ℕ, ◌≡◌, ◌≢◌, refl, Bool, true, false, Option, none, some}
use muqiu.Common.{get_elem?, if◌then◌else◌}
use muqiu.Common.Int.{ℤ, pos, negsuc}
use muqiu.IoManager.Events.{Events, EpollCtlOp, FdContext, IoManager, is_none}
use muqiu.IoManager.Cancel.{cancel_all}
use muqiu.IoManager.Counting.{IsValid}
use muqiu.IoManager.Validity.{cancel_all-IsValid}
use muqiu.Fd.Context.{FdCtx}
use muqiu.Fd.Manager.{FdManager, get, del}
use muqiu.Fd.Lookup.{context_of, get-known, del-context_of}

module _ (fstat : ℕ → Option Bool) (getfl : ℕ → ℕ) where
  -- What `socket` and `accept` do with the descriptor that the original function has returned: -1
  -- or another negative result is not put in the table.
  unfoldable pub register : ℤ → FdManager → Option FdManager
  register (negsuc n) fds = some fds
  register (pos fd) fds = elim (get fstat getfl (pos fd) true fds) [
    | none ↦ none
    | some (ctx, fds') ↦ some fds'
  ]

  module _ (epoll_ctl_fails : EpollCtlOp → ℕ → Events → Bool) where
    -- `if (iom) iom->cancelAll(fd)`.
    unfoldable pub cancel_watched : Bool → ℕ → IoManager → Option (Bool × IoManager)
    cancel_watched has_manager fd io =
        if has_manager then cancel_all epoll_ctl_fails fd io else some (false, io)

    -- What `close` does before it calls the original function.
    unfoldable pub close : Bool → Bool → ℕ → FdManager → IoManager → Option (FdManager × IoManager)
    close hook_enable has_manager fd fds io =
        let dropped : Option (FdManager × IoManager) = elim (get fstat getfl (pos fd) false fds) [
          | none ↦ none
          | some (none, fds') ↦ some (fds', io)
          | some (some ctx, fds') ↦ elim (cancel_watched has_manager fd io) [
            | none ↦ none
            | some (done, io') ↦ elim (del (pos fd) fds') [
              | none ↦ none
              | some fds'' ↦ some (fds'', io')
            ]
          ]
        ] in
        if hook_enable then dropped else some (fds, io)

    -- With the hook on and a manager on the thread, `close` of a descriptor that has a context ends
    -- well over a valid table of events: the descriptor has no context afterwards, every other has
    -- the context that it had, the table of events is valid, and either no event of the descriptor
    -- is waited for, or `cancelAll` had returned false.
    pub close-context_of :
        (fd : ℕ) (fds : FdManager) (ctx : FdCtx) (io : IoManager)
        → context_of fds fd ≡ some ctx
        → IsValid io
        → (fds' : FdManager) × (done : Bool) × (io' : IoManager) × (close true true fd fds io
            ≡ some (fds', io'))
          × (cancel_all epoll_ctl_fails fd io ≡ some (done, io'))
          × (context_of fds' fd ≡ none)
          × ((j : ℕ) → j ≢ fd → context_of fds' j ≡ context_of fds j)
          × IsValid io'
          × (done ≡ true
              → (c : FdContext) → get_elem? io'.contexts fd ≡ some c
              → is_none c.events ≡ true)
    unfolding close cancel_watched
    close-context_of fd fds ctx io known v =
        let (r, e, v', no_events) = cancel_all-IsValid epoll_ctl_fails fd io v in
        let (fds', d, gone, others, long) = del-context_of fd fds in
        (
          fds',
          r.0,
          r.1,
          rw (get-known fstat getfl fd false fds ctx known, e, d, close, cancel_watched) refl,
          e,
          gone,
          others,
          v',
          no_events,
        )
