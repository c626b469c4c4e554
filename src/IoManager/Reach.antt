-- ===== src/IoManager/Reach.antt =====
-- Sequences of operations on the event table (src/IoManager.cc).
use muqiu.Common.{ℕ, ◌≡◌, refl, sym, ◌∙◌, arith, Bool, false, Option, none, some, some_inj}
use muqiu.Common.{List, [], ◌∷◌, get_elem?}
use mathlib.Core.Path.{subst}
use muqiu.IoManager.Events.{
  Event, read, write, Events, has, EpollCtlOp, FdContext, get_context, IoManager, Task, run_cb,
  schedule_context, table_for, armed, trigger_event, add_event, del_event, cancel_event,
  new_manager,
}
use muqiu.IoManager.Cancel.{cancel_all, Reported, handle_reported}
use muqiu.IoManager.Counting.{IsValid, new_manager-IsValid}
use muqiu.IoManager.Validity.{add_event-IsValid, del_event-IsValid}
use muqiu.IoManager.Cleared.{
  IsClear, new_manager-Clear, add_event-Clear, del_event-Clear, cancel_event-IsClear,
  cancel_all-IsClear, handle_reported-IsClear,
}

module _ (fails : EpollCtlOp → ℕ → Events → Bool) where
  -- The operations, where they read no null scheduler and nothing past the table. An event is
  -- added only while it is not watched: `addEvent` logs the other case as an error, and goes on. A
  -- report may be of any event, also of one that has been taken back since epoll_wait gave it.
  pub data Step (m : IoManager) : IoManager → Type 0 where
    added :
        (scheduler this_fiber fd : ℕ) (event : Event) (cb : Option ℕ) (r : Bool × IoManager)
        → ((c : FdContext)
            → get_elem? (table_for fd m.contexts) fd ≡ some c
            → has event c.events ≡ false)
        → add_event fails scheduler this_fiber fd event cb m ≡ some r
        → Step m r.1
    deleted : (fd : ℕ) (event : Event) → Step m (del_event fails fd event m).1
    cancelled :
        (fd : ℕ) (event : Event) (r : Bool × IoManager)
        → cancel_event fails fd event m ≡ some r
        → Step m r.1
    all_cancelled : (fd : ℕ) (r : Bool × IoManager) → cancel_all fails fd m ≡ some r → Step m r.1
    handled :
        (fd : ℕ) (r : Reported) (m' : IoManager)
        → handle_reported fails fd r m ≡ some m'
        → Step m m'

  pub data Reach (m : IoManager) : IoManager → Type 0 where
    here : Reach m m
    next : {m' m'' : IoManager} → Reach m m' → Step m' m'' → Reach m m''

  same_result :
      {A : Type 0} (P : A → Type 0) {o : Option A} {b : A}
      → (a : A) × (o ≡ some a) × P a
      → o ≡ some b
      → P b
  same_result P (a, e, p) f = subst P (some_inj (sym e ∙ f)) p

  Step-IsClear : {m m' : IoManager} → Step m m' → IsClear m → IsClear m'
  Step-IsClear {m} (added scheduler this_fiber fd event cb r fresh e) k = record {
    valid =
        same_result (λ (x : Bool × IoManager). IsValid x.1)
          (add_event-IsValid fails scheduler this_fiber fd event cb m fresh k.valid) e;
    clear = add_event-Clear fails scheduler this_fiber fd event cb m r k.clear e;
  }
  Step-IsClear {m} (deleted fd event) k = record {
    valid = del_event-IsValid fails fd event m k.valid;
    clear = del_event-Clear fails fd event m k.clear;
  }
  Step-IsClear {m} (cancelled fd event r e) k = cancel_event-IsClear fails fd event m r k e
  Step-IsClear {m} (all_cancelled fd r e) k = cancel_all-IsClear fails fd m r k e
  Step-IsClear {m} (handled fd r m' e) k = handle_reported-IsClear fails fd r m m' k e

  Reach-IsClear : {m : IoManager} → Reach new_manager m → IsClear m
  Reach-IsClear here = record { valid = new_manager-IsValid; clear = new_manager-Clear }
  Reach-IsClear (next r st) = Step-IsClear st (Reach-IsClear r)

  -- After any sequence of calls on a new manager that adds no event twice, and of which none reads
  -- a null scheduler or a context past the table, the count of pending events is the number of
  -- events that are watched, and each of them has a scheduler. A report of epoll_wait that is handled
  -- in between may be of any events, also of ones that are watched no more.
  pub Reach-IsValid : {m : IoManager} → Reach new_manager m → IsValid m
  Reach-IsValid r = (Reach-IsClear r).valid

-- A trigger leaves the function of the context where it is.
trigger_event-keeps_cb :
    (event : Event) (c c' : FdContext) (tasks : List (ℕ × Task))
    → trigger_event event c ≡ some (c', tasks)
    → (get_context event c').cb ≡ (get_context event c).cb
unfolding trigger_event
trigger_event-keeps_cb read c c' tasks e = ground (arith, e)
trigger_event-keeps_cb write c c' tasks e = ground (arith, e)

trigger_event-armed :
    (scheduler this_fiber f : ℕ) (event : Event) (c : FdContext)
    → (get_context event c).cb ≡ some f
    → (c' : FdContext) × (trigger_event event (armed scheduler this_fiber event none c)
        ≡ some (c', (scheduler, run_cb f) ∷ []))
unfolding trigger_event armed
trigger_event-armed scheduler this_fiber f read c h = rw (h, schedule_context) (_, refl)
trigger_event-armed scheduler this_fiber f write c h = rw (h, schedule_context) (_, refl)

-- A context whose event has the function f, and whose event is triggered and then added again
-- without a function, schedules f at the next trigger, and not the fiber that added it.
pub trigger_event-stale :
    (scheduler this_fiber f : ℕ) (event : Event) (c c1 : FdContext) (tasks : List (ℕ × Task))
    → (get_context event c).cb ≡ some f
    → trigger_event event c ≡ some (c1, tasks)
    → (c' : FdContext) × (trigger_event event (armed scheduler this_fiber event none c1)
        ≡ some (c', (scheduler, run_cb f) ∷ []))
trigger_event-stale scheduler this_fiber f event c c1 tasks h e =
    trigger_event-armed scheduler this_fiber f event c1
      (trigger_event-keeps_cb event c c1 tasks e ∙ h)
