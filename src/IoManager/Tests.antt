-- ===== src/IoManager/Tests.antt =====
-- Runs of the event table (src/IoManager.cc) on small inputs.
use muqiu.Common.{
  ℕ, ◌≡◌, refl, arith, Bool, true, false, none, some, [], ◌∷◌, get_elem?, set, sym, some_inj,
}
use muqiu.IoManager.Events.{
  read, write, Events, no_events, has, is_none, EpollCtlOp, FdContext, empty_context, IoManager,
  add_event, del_event, armed, table_for, context_resize, new_context, new_manager,
}
use muqiu.IoManager.Cancel.{cancel_all, handle_reported}
use mathlib.Core.Path.{subst}
use muqiu.Common.{List, ◌≤◌, inl}
use muqiu.Common.Int.{pos, to_int}
use muqiu.Timer.Manager.{detect_rollover, get_next_timer, plain}
use muqiu.IoManager.Cancel.{Reported}
use muqiu.IoManager.Idle.{
  Report, wakeup, ready, events, System, Idle, wait, stopping, idle_round, cut_timeout,
}
use muqiu.IoManager.Round.{Patience, IsSound, RoundOf, idle_round-RoundOf, cut_timeout-bounds}
use muqiu.IoManager.Counting.{IsValid, Ready, new_context-Ready}
use muqiu.IoManager.Validity.{cancel_all-IsValid}
use muqiu.IoManager.Reach.{here, next, added, deleted, handled, Reach-IsValid}

-- A kernel that accepts every call.
abbrev never : EpollCtlOp → ℕ → Events → Bool
never op fd es = false

-- A descriptor that is watched for input, with function 7 on scheduler 1.
abbrev reading : FdContext
reading = record {
  read_context = record { scheduler = some 1; fiber = none; cb = some 7 };
  write_context = empty_context;
  fd = 0;
  events = record { reads = true; writes = false };
}

abbrev idle_context : FdContext
idle_context = record {
  read_context = empty_context;
  write_context = empty_context;
  fd = 1;
  events = no_events;
}

abbrev sample : IoManager
sample = record { contexts = reading ∷ idle_context ∷ []; pending = 1; scheduled = [] }

reading-Ready : Ready reading
reading-Ready read h e = ground (arith, e)
reading-Ready write h e = absurd (ground (arith, h))

sample-IsValid : IsValid sample
sample-IsValid = record {
  counted = refl;
  ready = (reading-Ready, (new_context-Ready 1, tt));
  large = omega arith;
}

cancel_all-IsValid_example :
    (r : Bool × IoManager) × (cancel_all never 0 sample ≡ some r)
    × IsValid r.1
    × (r.0 ≡ true → (c : FdContext) → get_elem? r.1.contexts 0 ≡ some c → is_none c.events ≡ true)
cancel_all-IsValid_example = cancel_all-IsValid never 0 sample sample-IsValid

input_fresh :
    (c : FdContext)
    → get_elem? (table_for 3 new_manager.contexts) 3 ≡ some c
    → has read c.events ≡ false
unfolding table_for context_resize
input_fresh c e = let same : c ≡ new_context 3 = sym (some_inj e) in rw same refl

-- A new manager that watches descriptor 3 for input.
abbrev watching : IoManager
watching = record new_manager {
  contexts = set (table_for 3 new_manager.contexts) 3 (armed 1 9 read (some 8) (new_context 3));
  pending = 1;
}

watching-added : add_event never 1 9 3 read (some 8) new_manager ≡ some (true, watching)
unfolding add_event table_for context_resize
watching-added = refl

abbrev input : Reported
input = record { input = true; output = false; failed = false }

-- A report of input that comes when the event has been taken back.
late_report :
    handle_reported never 3 input (del_event never 3 read watching).1
    ≡ some (del_event never 3 read watching).1
unfolding handle_reported del_event table_for context_resize armed
late_report = refl

Reach-IsValid_example : IsValid (del_event never 3 read watching).1
Reach-IsValid_example = Reach-IsValid never (
    next
      (next (next here (added 1 9 3 read (some 8) (true, watching) input_fresh watching-added))
        (deleted 3 read))
      (handled 3 input _ late_report))

-- A kernel that reports input of descriptor 0 and a wake-up, at time 12.
abbrev kernel : System ℕ
kernel = record {
  epoll_wait = λ t k. (events (ready 0 input ∷ wakeup ∷ []), k);
  epoll_ctl_fails = never;
  now = λ k. 12;
  address = 50;
  scheduler_stopping = false;
}

abbrev patient : Patience kernel
patient = record { patience = λ k. 0; falls = λ t k e. absurd (ground (arith, e)) }

-- A timer that is due at 10, and the table that watches descriptor 0 for input.
abbrev resting : Idle ℕ
resting = record {
  kernel = 0;
  timers = record {
    timers =
        record { address = 100; recurring = false; ms = 5; next = 10; cb = some (plain 1) } ∷ [];
    tickled = false;
    previous_time = 5;
  };
  io = sample;
  posted = [];
}

input_watched :
    (c : FdContext)
    → some reading ≡ some c
    → (true ≡ true → c.events.reads ≡ true) × (false ≡ true → c.events.writes ≡ true)
input_watched c e =
    let same : c ≡ reading = sym (some_inj e) in
    rw same (λ h. refl, λ h. absurd (ground (arith, h)))

resting-IsSound :
    (reports : List Report) (k : ℕ)
    → wait kernel 1 (stopping kernel resting).0 0 ≡ some (reports, k)
    → IsSound kernel resting k reports
unfolding wait detect_rollover stopping get_next_timer
resting-IsSound reports k e =
    subst (λ (x : List Report × ℕ). IsSound kernel resting x.1 x.0) (some_inj e)
      (record {
        in_order = (tt, tt);
        progress = ((omega arith, omega arith), tt);
        forward = refl;
        fitting = (omega arith, input_watched, λ m' f. tt);
      })

idle_round-RoundOf_example :
    (ends : Bool) × (s' : Idle ℕ) × (idle_round kernel 1 resting ≡ some (ends, s'))
    × (ends ≡ (stopping kernel resting).1)
    × (ends ≡ false → RoundOf kernel resting s')
idle_round-RoundOf_example =
    idle_round-RoundOf kernel patient 1 resting (omega arith) sample-IsValid resting-IsSound

cut_timeout-bounds_example : (m : ℕ) × (to_int (cut_timeout 5000) ≡ pos m) × (m ≤ 3000) × (m ≤ 5000)
cut_timeout-bounds_example = cut_timeout-bounds 5000 (inl (omega arith))
