-- ===== src/Hook/Connect.antt =====
-- `connect_with_timeout` (src/hook.cc).
use muqiu.Common.{
  ℕ, zero, suc, ◌≡◌, refl, sym, ap, ◌∙◌, arith, Bool, true, false, not, ◌||◌, Option, none, some,
  Bool-cases, inl, inr,
}
use muqiu.Common.{if◌then◌else◌, ◌==◌, ==_iff}
use muqiu.Common.Int.{ℤ, pos, negsuc}
use mathlib.Core.Path.{subst}
use muqiu.IoManager.Events.{write, Events, EpollCtlOp, IoManager, add_event}
use muqiu.IoManager.Counting.{IsValid}
use muqiu.IoManager.Validity.{add_event-IsValid}
use muqiu.Fd.Context.{FdCtx, no_timeout}
use muqiu.Fd.Manager.{FdManager, get}
use muqiu.Fd.Lookup.{context_of, get-known}
use muqiu.Hook.Io.{
  ebadf, etimedout, World, Outside, failed_with, call_fun, add_timeout, cancel_timer, Round, again,
  stop, resume,
}
use muqiu.Hook.Waiting.{
  Free, Quiet, IsHeld, Meanwhile-IsHeld, cancel_timer-Quiet, add_timeout-IsHeld,
}
use muqiu.Hook.Retry.{Contract, Ready, add_event-refused}
use muqiu.Hook.Sockets.{IsHooked}

-- EINPROGRESS of errno.h.
abbrev pub einprogress : ℕ
einprogress = 115

-- `so_error` is getsockopt(SO_ERROR): none where it fails.
module _ {K : Type 0} (o : Outside K) (so_error : K → Option ℕ) where
  unfoldable pub check_error : World K → ℤ × World K
  check_error w = elim (so_error w.kernel) [
    | none ↦ (negsuc 0, w)
    | some zero ↦ (pos 0, w)
    | some (suc e) ↦ (negsuc 0, record w { errno = suc e })
  ]

  unfoldable pub after_resume : Option (Round K) → Option (ℤ × World K)
  after_resume none = none
  after_resume (some (again w)) = some (check_error w)
  after_resume (some (stop r w)) = some (r, w)

  -- The connection is under way: wait until the descriptor can be written.
  unfoldable pub await_connect : ℕ → ℕ → World K → Option (ℤ × World K)
  await_connect fd timeout_ms w =
      let w1 = add_timeout o timeout_ms w in
      elim (add_event o.epoll_ctl_fails o.scheduler o.this_fiber fd write none w1.io) [
        | none ↦ none
        | some (true, io) ↦ after_resume (resume o (o.swap_out (record w1 { io = io })))
        | some (false, io) ↦ elim (cancel_timer o (record w1 { io = io; errno = o.epoll_errno })) [
          | none ↦ none
          | some w2 ↦ some (check_error w2)
        ]
      ]

  unfoldable pub connect_on : ℕ → ℕ → Option FdCtx → World K → Option (ℤ × World K)
  connect_on fd timeout_ms none w = some (negsuc 0, record w { errno = ebadf })
  connect_on fd timeout_ms (some ctx) w =
      let (n, w1) = call_fun o (record w { timer = none; cancelled = 0 }) in
      if ctx.is_closed
      then some (negsuc 0, record w { errno = ebadf })
      else if not ctx.is_socket || ctx.user_nonblock
      then some (call_fun o w)
      else if failed_with einprogress n w1
      then await_connect fd timeout_ms w1
      else some (n, w1)

  unfoldable pub connect_with_timeout :
      (ℕ → Option Bool) → (ℕ → ℕ) → Bool → FdManager → ℕ → ℕ → World K → Option (ℤ × World K)
  connect_with_timeout fstat getfl hook_enable fds fd timeout_ms w =
      if not hook_enable then some (call_fun o w) else elim (get fstat getfl (pos fd) false fds) [
        | none ↦ none
        | some (ctx, fds') ↦ connect_on fd timeout_ms ctx w
      ]

  module _ (fd timeout_ms : ℕ) (w : World K) where
    -- The world at `addEvent`: the original function has been called, and the timer is set.
    abbrev timed : World K
    timed = add_timeout o timeout_ms (call_fun o w).1

    abbrev watch : Option (Bool × IoManager)
    watch = add_event o.epoll_ctl_fails o.scheduler o.this_fiber fd write none timed.io

    -- The connection is under way, the fiber has waited to write, and w' is what is left as it runs
    -- again and its timer is cancelled.
    pub record Woken (w' : World K) : Type 0 where
      pub pending : failed_with einprogress (call_fun o w).0 (call_fun o w).1 ≡ true
      pub io : IoManager
      pub watched : watch ≡ some (true, io)
      pub resumed : cancel_timer o (o.swap_out (record timed { io = io })) ≡ some w'

    -- The connection is under way, `addEvent` fails, since `epoll_ctl` does, and w' is what is left
    -- as the timer is cancelled.
    pub record Unwatched (w' : World K) : Type 0 where
      pub pending : failed_with einprogress (call_fun o w).0 (call_fun o w).1 ≡ true
      pub io : IoManager
      pub refused : watch ≡ some (false, io)
      pub failing : (op : EpollCtlOp) × (es : Events) × (o.epoll_ctl_fails op fd es ≡ true)
      pub left : cancel_timer o (record timed { io = io; errno = o.epoll_errno }) ≡ some w'

    -- How a connect that starts at w ends: at once; by a timeout, where one is set, after a wait; by
    -- the error of the socket, after a wait that no timeout has ended; or by that error without a
    -- wait, as the descriptor could not be watched.
    pub data ConnectOf (r : Option (ℤ × World K)) : Type 0 where
      at_once :
          r ≡ some (call_fun o w)
          → failed_with einprogress (call_fun o w).0 (call_fun o w).1 ≡ false
          → Quiet (call_fun o w).1
          → ConnectOf r
      timed_out :
          (w' : World K)
          → Woken w'
          → w'.cancelled ≡ etimedout
          → r ≡ some (negsuc 0, record w' { errno = etimedout })
          → (timeout_ms == no_timeout) ≡ false
          → Quiet w'
          → ConnectOf r
      writable :
          (w' : World K)
          → Woken w'
          → w'.cancelled ≡ 0
          → r ≡ some (check_error w')
          → Quiet w'
          → ConnectOf r
      not_watched :
          (w' : World K) → Unwatched w' → r ≡ some (check_error w') → Quiet w' → ConnectOf r

  module _ (fd : ℕ) (c : Contract o fd write) where
    after_resume-ConnectOf :
        (timeout_ms : ℕ) (w : World K) (io : IoManager)
        → failed_with einprogress (call_fun o w).0 (call_fun o w).1 ≡ true
        → watch fd timeout_ms w ≡ some (true, io)
        → IsHeld timeout_ms (o.swap_out (record (timed fd timeout_ms w) { io = io }))
        → ConnectOf fd timeout_ms w
            (after_resume (resume o (o.swap_out (record (timed fd timeout_ms w) { io = io }))))
    unfolding after_resume resume
    after_resume-ConnectOf timeout_ms w io pending watched h =
        let (w', e, quiet, ke, ee, ie, ce) =
          cancel_timer-Quiet o fd write c.patience timeout_ms
            (o.swap_out (record (timed fd timeout_ms w) { io = io })) h in
        let woken : Woken fd timeout_ms w w' = record {
          pending = pending;
          io = io;
          watched = watched;
          resumed = e;
        } in
        elim h.reason [
          | inl z ↦
              let q : (w'.cancelled == 0) ≡ true = (==_iff w'.cancelled 0).1 (ce ∙ z) in
              writable w' woken (ce ∙ z) (rw (e, q, resume, after_resume) refl) quiet
          | inr (z, t) ↦
              let late : w'.cancelled ≡ etimedout = ce ∙ z in
              let q : (w'.cancelled == 0) ≡ false = ground (arith, late) in
              timed_out w' woken late
                (rw (e, q, resume, after_resume)
                  (ap (λ (n : ℕ). some (negsuc 0, record w' { errno = n })) late))
                t quiet
        ]

    await_connect-ConnectOf :
        (timeout_ms : ℕ) (w : World K)
        → failed_with einprogress (call_fun o w).0 (call_fun o w).1 ≡ true
        → Ready o fd write (call_fun o w).1
        → ConnectOf fd timeout_ms w (await_connect fd timeout_ms (call_fun o w).1)
    unfolding await_connect
    await_connect-ConnectOf timeout_ms w pending r =
        let (h1, k1, i1, c1) =
          add_timeout-IsHeld o fd write c.patience timeout_ms (call_fun o w).1 r.none_yet r.valid in
        let w1 = add_timeout o timeout_ms (call_fun o w).1 in
        let free1 = subst (λ (x : IoManager). Free fd write x) (sym i1) r.free in
        let (a, e, v) =
          add_event-IsValid o.epoll_ctl_fails o.scheduler o.this_fiber fd write none w1.io free1
            h1.valid in
        elim (Bool-cases a.0) [
          | inl q ↦
              let w2 = record w1 { io = a.1 } in
              let held : IsHeld timeout_ms w2 = record {
                safe = h1.safe;
                timed = h1.timed;
                reason = h1.reason;
                valid = v;
              } in
              let (h2, p) =
                Meanwhile-IsHeld o fd write c.patience timeout_ms (c.stays timeout_ms w2 held)
                  held in
              let e' = e ∙ ap (λ (b : Bool). some (b, a.1)) q in
              rw (e', await_connect) (after_resume-ConnectOf timeout_ms w a.1 pending e' h2)
          | inr q ↦
              let w2 = record w1 { io = a.1; errno = o.epoll_errno } in
              let held : IsHeld timeout_ms w2 = record {
                safe = h1.safe;
                timed = h1.timed;
                reason = h1.reason;
                valid = v;
              } in
              let (w3, e3, quiet, ke, ee, ie, ce) =
                cancel_timer-Quiet o fd write c.patience timeout_ms w2 held in
              let e' = e ∙ ap (λ (b : Bool). some (b, a.1)) q in
              let unwatched : Unwatched fd timeout_ms w w3 = record {
                pending = pending;
                io = a.1;
                refused = e';
                failing = add_event-refused o fd write w1.io none a.1 e';
                left = e3;
              } in
              not_watched w3 unwatched (rw (e', e3, await_connect) refl) quiet
        ]

    connect_on-ConnectOf :
        (timeout_ms : ℕ) (ctx : FdCtx) (w : World K)
        → IsHooked ctx
        → IsValid w.io
        → Free fd write w.io
        → ConnectOf fd timeout_ms
            (record w { timer = none; cancelled = 0 })
            (connect_on fd timeout_ms (some ctx) w)
    unfolding connect_on
    connect_on-ConnectOf timeout_ms ctx w h v f =
        let w0 = record w { timer = none; cancelled = 0 } in
        let quiet : Quiet (call_fun o w0).1 = λ t e. absurd (ground (arith, e)) in
        let ready : Ready o fd write (call_fun o w0).1 = record {
          quiet = quiet;
          none_yet = refl;
          valid = v;
          free = f;
        } in
        elim (Bool-cases (failed_with einprogress (call_fun o w0).0 (call_fun o w0).1)) [
          | inl q ↦
              rw (h.open_yet, h.socket, h.blocking, q, connect_on)
                (await_connect-ConnectOf timeout_ms w0 q ready)
          | inr q ↦ at_once (rw (h.open_yet, h.socket, h.blocking, q, connect_on) refl) q quiet
        ]

    -- With the hook on, a connect on a descriptor whose context is an open socket that its user
    -- expects to block, and that no one waits to write, returns: at once what the original function
    -- has returned, where that is not that the connection is under way. Where it is, the timer and
    -- then the event are set and the fiber waits; it returns -1 with ETIMEDOUT if a timeout, where one
    -- is set, has ended the wait, and else the error that the socket has after the wait. If
    -- `epoll_ctl` refuses to watch the descriptor it returns that error without a wait. Its timer will
    -- not run afterwards.
    pub connect_with_timeout-ConnectOf :
        (fstat : ℕ → Option Bool) (getfl : ℕ → ℕ) (fds : FdManager) (ctx : FdCtx) (timeout_ms : ℕ)
        (w : World K)
        → context_of fds fd ≡ some ctx
        → IsHooked ctx
        → IsValid w.io
        → Free fd write w.io
        → ConnectOf fd timeout_ms
            (record w { timer = none; cancelled = 0 })
            (connect_with_timeout fstat getfl true fds fd timeout_ms w)
    unfolding connect_with_timeout
    connect_with_timeout-ConnectOf fstat getfl fds ctx timeout_ms w known h v f =
        rw (get-known fstat getfl fd false fds ctx known, connect_with_timeout)
          (connect_on-ConnectOf timeout_ms ctx w h v f)
