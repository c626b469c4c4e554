-- ===== src/Scheduler/Running.antt =====
-- The loop of `run`, cut where other threads may run in between (src/Scheduler.cc, src/Fiber.cc).
use muqiu.Common.{ℕ, ◌+◌, ◌-◌, Option, none, some}
use muqiu.Common.{List, set, if◌then◌else◌, ◌==◌}
use muqiu.Scheduler.Queue.{
  FiberState, init, hold, runing, is_ready, is_term, has_ended, FiberAndThread, of_fiber, Scheduler,
  schedule_no_lock,
}
use muqiu.Scheduler.Picking.{take}

-- Where a thread stands: at the lock, behind it with a task, in a fiber of the queue, in the fiber
-- that runs functions, behind one of these once the thread is no longer counted as active, in the
-- idle fiber, or behind the loop.
pub data Phase : Type 0 where
  polling : Phase
  took : FiberAndThread → Phase
  in_fiber : ℕ → Phase
  in_cb : ℕ → Phase
  behind_fiber : ℕ → Phase
  behind_cb : ℕ → Phase
  idling : Phase
  done : Phase

-- What a thread has of its own in `run`.
pub record Thread : Type 0 where
  pub id : ℕ
  pub idle_fiber : ℕ
  pub cb_fiber : Option ℕ
  pub phase : Phase

pub record System : Type 0 where
  pub scheduler : Scheduler
  pub states : ℕ → FiberState
  pub threads : List Thread

abbrev pub set_state : ℕ → FiberState → (ℕ → FiberState) → ℕ → FiberState
set_state f v states g = if g == f then v else states g

abbrev pub put : ℕ → Thread → System → System
put i t w = record w { threads = set w.threads i t }

-- From the lock on, with the thread of number `i`. With no task it swaps to its idle fiber, unless
-- that has ended, where the loop ends.
unfoldable pub poll : ℕ → Thread → System → System
poll i t w =
    let (task, tickle_me, s) = take w.states t.id w.scheduler in
    elim task [
      | some ft ↦ put i (record t { phase = took ft }) (record w { scheduler = s })
      | none ↦
          if is_term (w.states t.idle_fiber)
          then put i (record t { phase = done }) (record w { scheduler = s })
          else (put i (record t { phase = idling })
              (record w {
                scheduler = record s { idle = s.idle + 1 };
                states = set_state t.idle_fiber runing w.states;
              }))
    ]

abbrev pub run_in : ℕ → Phase → ℕ → Thread → System → System
run_in f phase i t w =
    put i (record t { phase = phase }) (record w { states = set_state f runing w.states })

-- With a task: into its fiber, into the fiber for functions (`fresh` where there is none yet), or
-- back to the lock where the task is a fiber that has ended.
unfoldable pub begin : ℕ → ℕ → Thread → FiberAndThread → System → System
begin fresh i t ft w =
    let into_cb : ℕ = elim t.cb_fiber [ none ↦ fresh | some f ↦ f ] in
    let other : System = elim ft.cb [
      | some cb ↦ run_in into_cb (in_cb into_cb) i (record t { cb_fiber = some into_cb }) w
      | none ↦
          put i (record t { phase = polling })
            (record w { scheduler = record w.scheduler { active = w.scheduler.active - 1 } })
    ] in
    elim ft.fiber [
      | none ↦ other
      | some f ↦ if has_ended (w.states f) then other else run_in f (in_fiber f) i t w
    ]

-- Back from a fiber, which is now in the state `after`: the thread is no longer counted. This is an
-- atomic of its own, and other threads run between it and what follows.
abbrev pub count_out : FiberState → ℕ → Phase → ℕ → Thread → System → System
count_out after f phase i t w =
    put i (record t { phase = phase })
      (record w {
        scheduler = record w.scheduler { active = w.scheduler.active - 1 };
        states = set_state f after w.states;
      })

unfoldable pub end_fiber : FiberState → ℕ → ℕ → Thread → System → System
end_fiber after f i t w = count_out after f (behind_fiber f) i t w

unfoldable pub end_cb : FiberState → ℕ → ℕ → Thread → System → System
end_cb after f i t w = count_out after f (behind_cb f) i t w

-- Behind a fiber of the queue: it goes back to the queue if it is ready, and is held unless it has
-- ended.
unfoldable pub settle_fiber : ℕ → ℕ → Thread → System → System
settle_fiber f i t w =
    put i (record t { phase = polling })
      (if is_ready (w.states f)
        then (record w { scheduler = (schedule_no_lock (of_fiber (some f) none) w.scheduler).1 })
        else if has_ended (w.states f)
        then w
        else (record w { states = set_state f hold w.states }))

-- Behind the fiber for functions. One that has ended is kept for the next function.
unfoldable pub settle_cb : ℕ → ℕ → Thread → System → System
settle_cb f i t w =
    if is_ready (w.states f)
    then (put i (record t { phase = polling; cb_fiber = none })
        (record w { scheduler = (schedule_no_lock (of_fiber (some f) none) w.scheduler).1 }))
    else if has_ended (w.states f)
    then (put i (record t { phase = polling; cb_fiber = some f })
        (record w { states = set_state f init w.states }))
    else (put i (record t { phase = polling; cb_fiber = none })
        (record w { states = set_state f hold w.states }))

-- Back from the idle fiber.
unfoldable pub end_idle : FiberState → ℕ → Thread → System → System
end_idle after i t w =
    put i (record t { phase = polling })
      (record w {
        scheduler = record w.scheduler { idle = w.scheduler.idle - 1 };
        states = set_state t.idle_fiber (if has_ended after then after else hold) w.states;
      })
