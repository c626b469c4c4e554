-- ===== src/IoManager/Idle.antt =====
-- The loop of `IOManager::idle` (src/IoManager.cc), over the timers and the event table.
--
-- The system is a parameter: epoll_wait over the state K of the kernel, the clock, and
-- `Scheduler::stopping`. The reads that empty the wake-up descriptor are left out, as is the swap at
-- the end of a round. The functions of due timers go to the same scheduler as those of the events,
-- in front of them; they stand in a list of their own.
use muqiu.Common.{ℕ, zero, suc, ◌++◌, Bool, true, false, ◌&&◌, Option, none, some}
use muqiu.Common.{List, [], ◌∷◌, if◌then◌else◌, ltb, ◌==◌}
use muqiu.Common.Int.{ℤ, pos, negsuc, to_int}
use muqiu.Timer.Manager.{TimerManager, Callback, no_timer, get_next_timer, list_expired_cb}
use muqiu.IoManager.Events.{Events, EpollCtlOp, IoManager}
use muqiu.IoManager.Cancel.{Reported, handle_reported}

-- An entry of the array of events: the wake-up descriptor, or a descriptor of the table.
pub data Report : Type 0 where
  wakeup : Report
  ready : ℕ → Reported → Report

-- What epoll_wait gives: a negative result with EINTR, another one, or events.
pub data Answer : Type 0 where
  interrupted : Answer
  failed : Answer
  events : List Report → Answer

pub record System (K : Type 0) : Type 0 where
  pub epoll_wait : ℤ → K → Answer × K
  pub epoll_ctl_fails : EpollCtlOp → ℕ → Events → Bool
  pub now : K → ℕ
  pub address : ℕ
  pub scheduler_stopping : Bool

pub record Idle (K : Type 0) : Type 0 where
  pub kernel : K
  pub timers : TimerManager
  pub io : IoManager
  pub posted : List Callback

abbrev pub max_timeout : ℕ
max_timeout = 3000

abbrev above_max : ℤ → Bool
above_max (pos n) = ltb max_timeout n
above_max (negsuc n) = false

-- `next_timeout` as it is cut before every call of epoll_wait.
unfoldable pub cut_timeout : ℕ → ℕ
cut_timeout next_timeout =
    if next_timeout == no_timer
    then max_timeout
    else if above_max (to_int next_timeout)
    then max_timeout
    else next_timeout

-- The functions that are there.
abbrev pub present : List (Option Callback) → List Callback
present [] = []
present (none ∷ cbs) = present cbs
present (some cb ∷ cbs) = cb ∷ present cbs

module _ {K : Type 0} (o : System K) where
  -- The inner loop: the events, none where the call fails, on fuel.
  unfoldable pub wait : ℕ → ℕ → K → Option (List Report × K)
  wait zero next_timeout k = none
  wait (suc fuel) next_timeout k =
      let timeout = cut_timeout next_timeout in
      let (answer, k') = o.epoll_wait (to_int timeout) k in
      elim answer [
        | interrupted ↦ wait fuel timeout k'
        | failed ↦ some ([], k')
        | events reports ↦ some (reports, k')
      ]

  -- The loop over the events.
  unfoldable pub handle_all : List Report → IoManager → Option IoManager
  handle_all [] m = some m
  handle_all (wakeup ∷ reports) m = handle_all reports m
  handle_all (ready fd r ∷ reports) m = elim (handle_reported o.epoll_ctl_fails fd r m) [
    | none ↦ none
    | some m' ↦ handle_all reports m'
  ]

  -- `stopping(timeout)`: the timeout, whether all is done, and the timers.
  unfoldable pub stopping : Idle K → ℕ × Bool × TimerManager
  stopping s =
      let (timeout, timers) = get_next_timer (o.now s.kernel) s.timers in
      (timeout, (timeout == no_timer) && (s.io.pending == 0) && o.scheduler_stopping, timers)

  -- One round: whether the loop ends, and the new state.
  unfoldable pub idle_round : ℕ → Idle K → Option (Bool × Idle K)
  idle_round fuel s =
      let (timeout, ends, timers) = stopping s in
      let waited : Option (Bool × Idle K) = elim (wait fuel timeout s.kernel) [
        | none ↦ none
        | some (reports, k) ↦
            let (cbs, timers') = list_expired_cb o.address (o.now k) timers in
            elim (handle_all reports s.io) [
              | none ↦ none
              | some io ↦ some (
                false,
                record { kernel = k; timers = timers'; io = io; posted = s.posted ++ present cbs },
              )
            ]
      ] in
      if ends then some (true, record s { timers = timers }) else waited
