-- ===== src/Timer/Steps.antt =====
-- Sequences of calls on the set of timers, and its order, which is that of the std::set
-- (src/timer.cc).
use muqiu.Common.{ℕ, ◌≡◌, refl, arith, Bool, not, ◌&&◌, Option, some, Bool-cases, inl, inr, ◌⊎◌}
use muqiu.Common.{List, [], ◌∷◌, ltb, ◌==◌}
use muqiu.Timer.Manager.{
  Timer, TimerManager, Callback, earlier, contains, erase, add_timer, add_new_timer, is_set, cancel,
  refresh, reset, new_manager, fire, list_expired, expire, list_expired_cb, get_next_timer,
  split_at, skip_due, detect_rollover, deadline_timer,
}
use muqiu.Timer.Order.{IsSorted, insert-IsSorted, erase-IsSorted}

-- The calls that change a manager, with any arguments.
pub data Step (m : TimerManager) : TimerManager → Type 0 where
  added :
      (address now ms : ℕ) (cb : Option Callback) (recurring : Bool)
      → Step m (add_new_timer address now ms cb recurring m).1
  cancelled :
      (done : Bool) (t t' : Timer) {m' : TimerManager}
      → cancel t m ≡ some (done, t', m')
      → Step m m'
  refreshed : (now : ℕ) (t : Timer) → Step m (refresh now t m).2
  was_reset :
      (ms : ℕ) (from_now : Bool) (now : ℕ) (t : Timer) → Step m (reset ms from_now now t m).2
  asked : (now : ℕ) → Step m (get_next_timer now m).1
  expired : (address now : ℕ) → Step m (list_expired_cb address now m).1

pub data Reach (m : TimerManager) : TimerManager → Type 0 where
  here : Reach m m
  next : {m' m'' : TimerManager} → Reach m m' → Step m' m'' → Reach m m''

fire-IsSorted :
    (now : ℕ) (ts timers : List Timer) → IsSorted timers → IsSorted (fire now ts timers).1
unfolding fire
fire-IsSorted now [] timers s = s
fire-IsSorted now (t ∷ ts) timers s = elim (Bool-cases t.recurring) [
  | inl e ↦ rw e (fire-IsSorted now ts _ (insert-IsSorted _ timers s))
  | inr e ↦ rw e (fire-IsSorted now ts timers s)
]

skip_due-IsSorted : (now : ℕ) (ts : List Timer) → IsSorted ts → IsSorted (skip_due now ts).1
unfolding skip_due
skip_due-IsSorted now [] s = s
skip_due-IsSorted now (t ∷ ts) s = elim (Bool-cases (t.next == now)) [
  | inl e ↦ rw e (skip_due-IsSorted now ts s.1)
  | inr e ↦ rw e s
]

split_at-IsSorted :
    (now : ℕ) (bound : Timer) (ts : List Timer) → IsSorted ts → IsSorted (split_at now bound ts).1
unfolding split_at
split_at-IsSorted now bound [] s = s
split_at-IsSorted now bound (t ∷ ts) s = elim (Bool-cases (earlier t bound)) [
  | inl e ↦ rw e (split_at-IsSorted now bound ts s.1)
  | inr e ↦ rw e (skip_due-IsSorted now (t ∷ ts) s)
]

expire-IsSorted :
    (parts : List Timer × List Timer) (now : ℕ) (m : TimerManager)
    → IsSorted parts.1
    → IsSorted (expire parts now m).1.timers
unfolding expire
expire-IsSorted (due, kept) now m s = fire-IsSorted now due kept s

pub detect_rollover-timers :
    (now : ℕ) (m : TimerManager) → (detect_rollover now m).1.timers ≡ m.timers
unfolding detect_rollover
detect_rollover-timers now m = refl

list_expired-IsSorted :
    (address now : ℕ) (m : TimerManager) (ts : List Timer)
    → IsSorted m.timers
    → IsSorted ts
    → IsSorted (list_expired address now m ts).1.timers
unfolding list_expired
list_expired-IsSorted address now m [] sm s = sm
list_expired-IsSorted address now m (t ∷ ts) sm s = elim (Bool-cases (detect_rollover now m).0) [
  | inl r ↦ rw r (expire-IsSorted (t ∷ ts, []) now (detect_rollover now m).1 tt)
  | inr r ↦ elim (Bool-cases (ltb now t.next)) [
    | inl e ↦ rw (r, e) (rw (detect_rollover-timers now m) sm)
    | inr e ↦
        rw (r, e)
          (expire-IsSorted (split_at now (deadline_timer address now) (t ∷ ts)) now
            (detect_rollover now m).1
            (split_at-IsSorted now (deadline_timer address now) (t ∷ ts) s))
  ]
]

add_timer-IsSorted :
    (t : Timer) (m : TimerManager) → IsSorted m.timers → IsSorted (add_timer t m).0.timers
unfolding add_timer
add_timer-IsSorted t m s = insert-IsSorted t m.timers s

-- Splits on the guards that the methods of a timer share.
cancel_cases :
    (t : Timer) (m : TimerManager) {r : Bool × Timer × TimerManager}
    → cancel t m ≡ some r
    → (r.2 ≡ m) ⊎ (r.2.timers ≡ erase t m.timers)
unfolding cancel
cancel_cases t m e = ground arith

refresh-IsSorted :
    (now : ℕ) (t : Timer) (m : TimerManager)
    → IsSorted m.timers
    → IsSorted (refresh now t m).2.timers
unfolding refresh
refresh-IsSorted now t m s = elim (Bool-cases (is_set t)) [
  | inr q ↦ rw q s
  | inl q ↦ elim (Bool-cases (contains t m.timers)) [
    | inl e ↦ rw (q, e) (insert-IsSorted _ (erase t m.timers) (erase-IsSorted t m.timers s))
    | inr e ↦ rw (q, e) s
  ]
]

reset-IsSorted :
    (ms : ℕ) (from_now : Bool) (now : ℕ) (t : Timer) (m : TimerManager)
    → IsSorted m.timers
    → IsSorted (reset ms from_now now t m).2.timers
unfolding reset
reset-IsSorted ms from_now now t m s = elim (Bool-cases (ms == t.ms && not from_now)) [
  | inl q ↦ rw q s
  | inr q ↦ elim (Bool-cases (is_set t)) [
    | inr p ↦ rw (q, p) s
    | inl p ↦ elim (Bool-cases (contains t m.timers)) [
      | inr e ↦ rw (q, p, e) s
      | inl e ↦
          rw (q, p, e)
            (add_timer-IsSorted _ (record m { timers = erase t m.timers })
              (erase-IsSorted t m.timers s))
    ]
  ]
]

Step-IsSorted : {m m' : TimerManager} → Step m m' → IsSorted m.timers → IsSorted m'.timers
Step-IsSorted {m} (added address now ms cb recurring) s =
    unfold add_new_timer in add_timer-IsSorted _ m s
Step-IsSorted {m} (cancelled done t t' e) s = elim (cancel_cases t m e) [
  | inl same ↦ rw same s
  | inr less ↦ rw less (erase-IsSorted t m.timers s)
]
Step-IsSorted {m} (refreshed now t) s = refresh-IsSorted now t m s
Step-IsSorted {m} (was_reset ms from_now now t) s = reset-IsSorted ms from_now now t m s
Step-IsSorted {m} (asked now) s = unfold get_next_timer in s
Step-IsSorted {m} (expired address now) s =
    unfold list_expired_cb in list_expired-IsSorted address now m m.timers s s

-- After any sequence of calls on a new manager the set is in strict order of the comparator.
pub Reach-IsSorted : (now : ℕ) {m : TimerManager} → Reach (new_manager now) m → IsSorted m.timers
unfolding new_manager
Reach-IsSorted now here = tt
Reach-IsSorted now (next r st) = Step-IsSorted st (Reach-IsSorted now r)
