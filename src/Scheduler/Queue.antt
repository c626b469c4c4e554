-- ===== src/Scheduler/Queue.antt =====
-- The queue and the counts of `Scheduler` (src/Scheduler.cc, include/scheduler.h).
--
-- Fibers, functions and threads are known by numbers. Log lines are left out. `tickle` of this
-- class only logs; whether it is called is part of a result.
use muqiu.Common.{ℕ, Bool, true, false, not, ◌&&◌, ◌||◌, Option, none, some}
use muqiu.Common.{List, [], ◌∷◌, ◌++◌, if◌then◌else◌, ltb, ◌==◌}

-- `Fiber::STATE`.
pub data FiberState : Type 0 where
  init hold runing term ready except : FiberState

abbrev pub is_runing : FiberState → Bool
is_runing runing = true
is_runing init = false
is_runing hold = false
is_runing term = false
is_runing ready = false
is_runing except = false

abbrev pub is_ready : FiberState → Bool
is_ready ready = true
is_ready init = false
is_ready hold = false
is_ready term = false
is_ready runing = false
is_ready except = false

abbrev pub is_term : FiberState → Bool
is_term term = true
is_term init = false
is_term hold = false
is_term runing = false
is_term ready = false
is_term except = false

-- `state == TERM || state == EXCEPT`.
abbrev pub has_ended : FiberState → Bool
has_ended term = true
has_ended except = true
has_ended init = false
has_ended hold = false
has_ended runing = false
has_ended ready = false

-- `FiberAndThread`: `thread_id` is none where the source has -1.
pub record FiberAndThread : Type 0 where
  pub fiber : Option ℕ
  pub cb : Option ℕ
  pub thread_id : Option ℕ

abbrev pub of_fiber : Option ℕ → Option ℕ → FiberAndThread
of_fiber fiber thread_id = record { fiber = fiber; cb = none; thread_id = thread_id }

abbrev pub of_cb : Option ℕ → Option ℕ → FiberAndThread
of_cb cb thread_id = record { fiber = none; cb = cb; thread_id = thread_id }

pub record Scheduler : Type 0 where
  pub fibers : List FiberAndThread
  pub thread_count : ℕ
  -- The threads that `start` has made and `stop` has not taken away.
  pub threads : ℕ
  pub active : ℕ
  pub idle : ℕ
  pub stopping : Bool
  pub auto_stop : Bool

abbrev pub new_scheduler : ℕ → Scheduler
new_scheduler threads = record {
  fibers = [];
  thread_count = threads;
  threads = 0;
  active = 0;
  idle = 0;
  stopping = true;
  auto_stop = false;
}

abbrev pub is_empty : List FiberAndThread → Bool
is_empty [] = true
is_empty (t ∷ ts) = false

abbrev pub is_null : Option ℕ → Bool
is_null none = true
is_null (some n) = false

-- `scheduleNoLock`: the flag says that the queue was empty, and so that `tickle` is needed.
unfoldable pub schedule_no_lock : FiberAndThread → Scheduler → Bool × Scheduler
schedule_no_lock ft s = (
  is_empty s.fibers,
  if is_null ft.fiber && is_null ft.cb then s else record s { fibers = s.fibers ++ ft ∷ [] },
)

-- `schedule(begin, end)`.
unfoldable pub schedule_all : List FiberAndThread → Scheduler → Bool × Scheduler
schedule_all [] s = (false, s)
schedule_all (ft ∷ fts) s =
    let (first, s') = schedule_no_lock ft s in
    let (later, s'') = schedule_all fts s' in (first || later, s'')

unfoldable pub start : Scheduler → Scheduler
start s = if not s.stopping then s else record s { stopping = false; threads = s.thread_count }

-- `stop`, up to where it waits for the threads; the number says how often it calls `tickle`.
unfoldable pub stop : Scheduler → ℕ × Scheduler
stop s = (s.thread_count, record s { auto_stop = true; stopping = true; threads = 0 })

unfoldable pub is_stopping : Scheduler → Bool
is_stopping s = s.auto_stop && (s.stopping && (s.active == 0 && is_empty s.fibers))

abbrev pub has_idle_threads : Scheduler → Bool
has_idle_threads s = ltb 0 s.idle
