-- ===== src/Scheduler/Tests.antt =====
-- Runs of the scheduler (src/Scheduler.cc) on small inputs.
use muqiu.Common.{ℕ, ◌≡◌, refl, none, some, List, [], ◌∷◌}
use muqiu.Scheduler.Queue.{
  FiberState, hold, FiberAndThread, of_fiber, of_cb, schedule_no_lock, schedule_all, stop, start,
  new_scheduler,
}
use muqiu.Scheduler.Picking.{pick, PickOf, pick-PickOf}
use muqiu.Scheduler.Running.{polling, Thread, System, poll}
use muqiu.Scheduler.Counts.{IsCounted}
use muqiu.Scheduler.Steps.{
  Reach, here, next, scheduled, started, polled, new_system, Reach-IsCounted,
}

abbrev held : ℕ → FiberState
held f = hold

-- One task for another thread, one that any may take.
abbrev tasks : List FiberAndThread
tasks = of_fiber (some 4) (some 9) ∷ of_cb (some 5) none ∷ []

picked : (pick held 1 tasks).task ≡ some (of_cb (some 5) none)
unfolding pick
picked = refl

pick-PickOf_example : PickOf held 1 tasks (pick held 1 tasks)
pick-PickOf_example = pick-PickOf held 1 tasks

abbrev worker : Thread
worker = record { id = 1; idle_fiber = 2; cb_fiber = none; phase = polling }

abbrev at_work : System
at_work = record {
  scheduler = start (schedule_all tasks (new_scheduler 1)).1;
  states = held;
  threads = worker ∷ [];
}

at_work-Reach : Reach (new_system 1 held) at_work
unfolding schedule_all schedule_no_lock
at_work-Reach = next (next here (scheduled tasks)) (started (worker ∷ []) (refl, tt) refl)

Reach-IsCounted_example : IsCounted (poll 0 worker at_work)
Reach-IsCounted_example = Reach-IsCounted 1 held (next at_work-Reach (polled 0 worker refl refl))

-- A scheduler that is stopped before it has begun.
abbrev never_begun : System
never_begun = record (new_system 1 held) { scheduler = (stop (new_scheduler 1)).1 }
