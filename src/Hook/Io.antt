-- ===== src/Hook/Io.antt =====
-- `do_io`, by which every hooked call that reads or writes runs (src/hook.cc).
--
-- The system and the other fibers are parameters: the original function over the state K of the
-- kernel, with what it returns and the `errno` that it leaves; `epoll_ctl`; the clock and the
-- address of a new timer; and `swap_out`, which is all that happens until the fiber runs again.
-- `none` stands for undefined behaviour, or says that the fuel has run out.
use muqiu.Common.{ℕ, zero, suc, Bool, true, false, not, ◌&&◌, ◌||◌, Option, none, some}
use muqiu.Common.{if◌then◌else◌, ◌==◌}
use muqiu.Common.Int.{ℤ, pos, negsuc}
use muqiu.Timer.Manager.{Timer, TimerManager, add_condition_timer, cancel}
use muqiu.IoManager.Events.{Event, Events, EpollCtlOp, IoManager, add_event, cancel_event}
use muqiu.Fd.Context.{FdCtx, no_timeout, get_timeout}
use muqiu.Fd.Manager.{FdManager, get}

-- EINTR, EBADF, EAGAIN and ETIMEDOUT of errno.h.
abbrev pub eintr : ℕ
eintr = 4

abbrev pub ebadf : ℕ
ebadf = 9

abbrev pub eagain : ℕ
eagain = 11

abbrev pub etimedout : ℕ
etimedout = 110

-- What the call works on: the thread's `errno`, the managers, the object of its timer, and
-- `cancelled` of its `timer_info`.
pub record World (K : Type 0) : Type 0 where
  pub kernel : K
  pub errno : ℕ
  pub io : IoManager
  pub timers : TimerManager
  pub timer : Option Timer
  pub cancelled : ℕ

pub record Outside (K : Type 0) : Type 0 where
  pub call : K → ℤ × ℕ × K
  pub epoll_ctl_fails : EpollCtlOp → ℕ → Events → Bool
  pub epoll_errno : ℕ
  pub now : K → ℕ
  pub new_address : TimerManager → ℕ
  pub scheduler : ℕ
  pub this_fiber : ℕ
  pub timeout_cb : ℕ
  pub timer_info : ℕ
  pub swap_out : World K → World K

abbrev is_minus_one : ℤ → Bool
is_minus_one (pos n) = false
is_minus_one (negsuc n) = n == 0

module _ {K : Type 0} where
  -- `n == -1 && errno == e`.
  abbrev pub failed_with : ℕ → ℤ → World K → Bool
  failed_with e n w = is_minus_one n && w.errno == e

  module _ (o : Outside K) where
    -- `fun(fd, args)`.
    abbrev pub call_fun : World K → ℤ × World K
    call_fun w = let (n, e, k) = o.call w.kernel in (n, record w { kernel = k; errno = e })

    -- The call, again while a signal interrupts it.
    unfoldable pub uninterrupted : ℕ → World K → Option (ℤ × World K)
    uninterrupted zero w = none
    uninterrupted (suc fuel) w =
        let (n, w') = call_fun w in
        let again = uninterrupted fuel w' in if failed_with eintr n w' then again else some (n, w')

    -- The function of the timer, while the `timer_info` is alive.
    unfoldable pub on_timeout : ℕ → Event → World K → Option (World K)
    on_timeout fd event w =
        if not (w.cancelled == 0)
        then some w
        else elim (cancel_event o.epoll_ctl_fails fd event w.io) [
          | none ↦ none
          | some (done, io) ↦ some (record w { io = io; cancelled = etimedout })
        ]

    unfoldable pub add_timeout : ℕ → World K → World K
    add_timeout to w =
        let (timer, timers, at_front) =
          add_condition_timer (o.new_address w.timers) (o.now w.kernel) to o.timeout_cb o.timer_info
            false w.timers in
        if to == no_timeout
        then record w { timer = none }
        else record w { timer = some timer; timers = timers }

    -- `if (timer) timer->cancel()`.
    unfoldable pub cancel_timer : World K → Option (World K)
    cancel_timer w = elim w.timer [
      | none ↦ some w
      | some t ↦ elim (cancel t w.timers) [
        | none ↦ none
        | some (done, t', timers) ↦ some (record w { timer = some t'; timers = timers })
      ]
    ]

-- How a wait ends: with a result, or with another try.
pub data Round (K : Type 0) : Type 0 where
  again : World K → Round K
  stop : ℤ → World K → Round K

module _ {K : Type 0} (o : Outside K) where
  -- The fiber runs again: the timer goes, and a timeout ends the call.
  unfoldable pub resume : World K → Option (Round K)
  resume w = elim (cancel_timer o w) [
    | none ↦ none
    | some w' ↦ some (
        if w'.cancelled == 0
        then again w'
        else stop (negsuc 0) (record w' { errno = w'.cancelled }))
  ]

  -- The call would block: wait for the event, with a timer where a timeout is set.
  unfoldable pub wait : ℕ → Event → ℕ → World K → Option (Round K)
  wait fd event to w =
      let w1 = add_timeout o to w in
      elim (add_event o.epoll_ctl_fails o.scheduler o.this_fiber fd event none w1.io) [
        | none ↦ none
        | some (true, io) ↦ resume (o.swap_out (record w1 { io = io }))
        | some (false, io) ↦ elim (cancel_timer o (record w1 { io = io; errno = o.epoll_errno })) [
          | none ↦ none
          | some w2 ↦ some (stop (negsuc 0) w2)
        ]
      ]

  -- From `retry` on.
  unfoldable pub io_loop : ℕ → ℕ → Event → ℕ → World K → Option (ℤ × World K)
  io_loop zero fd event to w = none
  io_loop (suc fuel) fd event to w = elim (uninterrupted o (suc fuel) w) [
    | none ↦ none
    | some (n, w') ↦
        let waited : Option (ℤ × World K) = elim (wait fd event to w') [
          | none ↦ none
          | some (again w2) ↦ io_loop fuel fd event to w2
          | some (stop r w2) ↦ some (r, w2)
        ] in
        if failed_with eagain n w' then waited else some (n, w')
  ]

  -- What is done with the context of the descriptor.
  unfoldable pub do_io_on : ℕ → ℕ → Event → ℕ → Option FdCtx → World K → Option (ℤ × World K)
  do_io_on fuel fd event timeout_so none w = some (call_fun o w)
  do_io_on fuel fd event timeout_so (some ctx) w =
      if ctx.is_closed
      then some (negsuc 0, record w { errno = ebadf })
      else if not ctx.is_socket || ctx.user_nonblock
      then some (call_fun o w)
      else io_loop fuel fd event (get_timeout timeout_so ctx)
          (record w { timer = none; cancelled = 0 })

  -- `do_io` over the table of descriptors.
  unfoldable pub do_io :
      (ℕ → Option Bool)
      → (ℕ → ℕ)
      → Bool
      → FdManager
      → ℕ
      → ℕ
      → Event
      → ℕ
      → World K
      → Option (ℤ × World K)
  do_io fstat getfl hook_enable fds fuel fd event timeout_so w =
      if not hook_enable then some (call_fun o w) else elim (get fstat getfl (pos fd) false fds) [
        | none ↦ none
        | some (ctx, fds') ↦ do_io_on fuel fd event timeout_so ctx w
      ]
