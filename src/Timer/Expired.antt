-- ===== src/Timer/Expired.antt =====
-- Which timers `listExpiredCb` fires (src/timer.cc).
use muqiu.Common.{
  ℕ, suc, ◌+◌, ◌^◌, ◌≤◌, ◌<◌, ◌≡◌, refl, sym, ap, arith, Bool, true, false, Option, Bool-cases, inl,
  inr, ◌⊎◌,
}
use muqiu.Common.{List, [], ◌∷◌, ◌++◌, map, All, if◌then◌else◌, ltb, ◌==◌, ltb→lt}
use muqiu.Timer.Manager.{
  Timer, TimerManager, Callback, earlier, insert, fire, rearm, expire, list_expired,
  list_expired_cb, get_next_timer, split_at, skip_due, detect_rollover, deadline_timer,
}
use mathlib.Core.Path.{subst}
use muqiu.Timer.Steps.{detect_rollover-timers}
use muqiu.Timer.Order.{IsSorted, Before}

Before-All :
    (n : ℕ) (t : Timer) (ys : List Timer) → n ≤ t.next → Before t ys → All (λ y. n ≤ y.next) ys
Before-All n t [] h b = tt
Before-All n t (y ∷ ys) h b = (ground arith, Before-All n t ys h b.1)

-- The timers split by their deadline.
pub record IsSplit (now : ℕ) (ts due kept : List Timer) : Type 0 where
  pub whole : due ++ kept ≡ ts
  pub due_now : All (λ t. t.next ≤ now) due
  pub due_later : All (λ t. now < t.next) kept

skip_due-IsSplit :
    (now : ℕ) (ts : List Timer)
    → IsSorted ts
    → All (λ y. now ≤ y.next) ts
    → IsSplit now ts (skip_due now ts).0 (skip_due now ts).1
unfolding skip_due
skip_due-IsSplit now [] s h = record { whole = refl; due_now = tt; due_later = tt }
skip_due-IsSplit now (t ∷ ts) s h = elim (Bool-cases (t.next == now)) [
  | inl e ↦
      let r = skip_due-IsSplit now ts s.1 h.1 in
      rw e (record {
        whole = ap (λ u. t ∷ u) r.whole;
        due_now = (ground arith, r.due_now);
        due_later = r.due_later;
      })
  | inr e ↦
      let later : now < t.next = ground (arith, h.0) in
      rw e (record {
        whole = refl;
        due_now = tt;
        due_later = (later, Before-All (suc now) t ts later s.0);
      })
]

before_bound :
    (address now : ℕ) (t : Timer) → earlier t (deadline_timer address now) ≡ true → t.next ≤ now
unfolding deadline_timer
before_bound address now t e = ground arith

after_bound :
    (address now : ℕ) (t : Timer) → earlier t (deadline_timer address now) ≡ false → now ≤ t.next
unfolding deadline_timer
after_bound address now t e = ground arith

split_at-IsSplit :
    (address now : ℕ) (ts : List Timer)
    → IsSorted ts
    → let parts = split_at now (deadline_timer address now) ts in IsSplit now ts parts.0 parts.1
unfolding split_at
split_at-IsSplit address now [] s = record { whole = refl; due_now = tt; due_later = tt }
split_at-IsSplit address now (t ∷ ts) s =
    elim (Bool-cases (earlier t (deadline_timer address now))) [
      | inl e ↦
          let r = split_at-IsSplit address now ts s.1 in
          rw e (record {
            whole = ap (λ u. t ∷ u) r.whole;
            due_now = (before_bound address now t e, r.due_now);
            due_later = r.due_later;
          })
      | inr e ↦
          let from_now : now ≤ t.next = after_bound address now t e in
          rw e (skip_due-IsSplit now (t ∷ ts) s (from_now, Before-All now t ts from_now s.0))
    ]

fire-cbs :
    (now : ℕ) (ts timers : List Timer) → (fire now ts timers).0 ≡ map (λ (t : Timer). t.cb) ts
unfolding fire
fire-cbs now [] timers = refl
fire-cbs now (t ∷ ts) timers = ap (λ cbs. t.cb ∷ cbs) (fire-cbs now ts _)

-- A timer of this interval that starts again at `now` is due after `now`.
abbrev pub Progresses : ℕ → Timer → Type 0
Progresses now t = (0 < t.ms) × (now + t.ms < 2 ^ 64)

insert-later :
    (now : ℕ) (t : Timer) (xs : List Timer)
    → now < t.next
    → All (λ y. now < y.next) xs
    → All (λ y. now < y.next) (insert t xs)
unfolding insert
insert-later now t [] h hs = (h, tt)
insert-later now t (x ∷ xs) h hs = elim (Bool-cases (earlier t x)) [
  | inl e ↦ rw e (h, hs)
  | inr e ↦ elim (Bool-cases (earlier x t)) [
    | inl f ↦ rw (e, f) (hs.0, insert-later now t xs h hs.1)
    | inr f ↦ rw (e, f) hs
  ]
]

rearm-later :
    (now : ℕ) (t : Timer) → t.recurring ≡ true → Progresses now t → now < (rearm now t).next
rearm-later now t e p = ground arith

fire-later :
    (now : ℕ) (ts timers : List Timer)
    → All (Progresses now) ts
    → All (λ y. now < y.next) timers
    → All (λ y. now < y.next) (fire now ts timers).1
unfolding fire
fire-later now [] timers p h = h
fire-later now (t ∷ ts) timers p h = fire-later now ts _ p.1 (elim (Bool-cases t.recurring) [
  | inl e ↦
      subst Later (sym (ap (λ (b : Bool). if b then insert (rearm now t) timers else timers) e))
        (insert-later now (rearm now t) timers (rearm-later now t e p.0) h)
  | inr e ↦
      subst Later (sym (ap (λ (b : Bool). if b then insert (rearm now t) timers else timers) e)) h
])
  where
    Later : List Timer → Type 0
    Later xs = All (λ y. now < y.next) xs

-- What `listExpiredCb` has done: the callbacks of the first timers of the set, which are exactly
-- those that are due, and none that is due left in the set.
pub record Listed (now : ℕ) (before : List Timer) (cbs : List (Option Callback)) (left : List Timer)
    : Type 0 where
  pub due : List Timer
  pub kept : List Timer
  pub split : IsSplit now before due kept
  pub called : cbs ≡ map (λ (t : Timer). t.cb) due
  pub none_due : All (λ t. now < t.next) left

All-front : (P : Timer → Type 0) (xs ys : List Timer) → All P (xs ++ ys) → All P xs
All-front P [] ys h = tt
All-front P (x ∷ xs) ys h = (h.0, All-front P xs ys h.1)

module _ (address now : ℕ) where
  bound : Timer
  bound = deadline_timer address now

  fired :
      (m : TimerManager) (ts : List Timer)
      → IsSorted ts
      → All (Progresses now) ts
      → let r = expire (split_at now bound ts) now m in Listed now ts r.0 r.1.timers
  unfolding expire bound
  fired m ts s p =
      let due = (split_at now bound ts).0 in
      let kept = (split_at now bound ts).1 in
      let parts = split_at-IsSplit address now ts s in
      record {
        due = due;
        kept = kept;
        split = parts;
        called = fire-cbs now due kept;
        none_due =
            fire-later now due kept
              (All-front (Progresses now) due kept
                (subst (All (Progresses now)) (sym parts.whole) p))
              parts.due_later;
      }

  on_set :
      (m : TimerManager) (ts : List Timer)
      → (detect_rollover now m).0 ≡ false
      → m.timers ≡ ts
      → IsSorted ts
      → All (Progresses now) ts
      → let r = list_expired address now m ts in Listed now ts r.0 r.1.timers
  unfolding list_expired bound
  on_set m [] q same s p = record {
    due = [];
    kept = [];
    split = record { whole = refl; due_now = tt; due_later = tt };
    called = refl;
    none_due = rw same tt;
  }
  on_set m (t ∷ ts) q same s p = elim (Bool-cases (ltb now t.next)) [
    | inl e ↦
        let later : All (λ y. now < y.next) (t ∷ ts) =
          (ltb→lt now t.next e, Before-All (suc now) t ts (ltb→lt now t.next e) s.0) in
        rw (q, e)
          (record {
            due = [];
            kept = t ∷ ts;
            split = record { whole = refl; due_now = tt; due_later = later };
            called = refl;
            none_due = rw (detect_rollover-timers now m, same) later;
          })
    | inr e ↦ rw (q, e) (fired (detect_rollover now m).1 (t ∷ ts) s p)
  ]

  -- On a set in order and with no rollover of the clock, where every timer has a positive interval
  -- and now plus that interval stays below 2 ^ 64, `listExpiredCb` returns the callbacks of exactly
  -- the timers that are due, in the order of the set, and leaves none that is due.
  pub list_expired_cb-Listed :
      (m : TimerManager)
      → (detect_rollover now m).0 ≡ false
      → IsSorted m.timers
      → All (Progresses now) m.timers
      → let r = list_expired_cb address now m in Listed now m.timers r.0 r.1.timers
  unfolding list_expired_cb
  list_expired_cb-Listed m q s p = on_set m m.timers q refl s p

rolled :
    (address now : ℕ) (m : TimerManager) (ts : List Timer)
    → (detect_rollover now m).0 ≡ true
    → (list_expired address now m ts).0 ≡ map (λ (t : Timer). t.cb) ts
unfolding list_expired expire
rolled address now m [] q = refl
rolled address now m (t ∷ ts) q = rw q (fire-cbs now (t ∷ ts) [])

-- After a rollover of the clock `listExpiredCb` returns the callback of every timer of the set.
pub list_expired_cb-rollover :
    (address now : ℕ) (m : TimerManager)
    → (detect_rollover now m).0 ≡ true
    → (list_expired_cb address now m).0 ≡ map (λ (t : Timer). t.cb) m.timers
unfolding list_expired_cb
list_expired_cb-rollover address now m q = rolled address now m m.timers q

-- `getNextTimer` is the time that is left until the first deadline where that is not past.
-- Where it is past by d milliseconds it is 2 ^ 64 - d, and so later than any time to come.
pub get_next_timer-value :
    (now : ℕ) (t : Timer) (ts : List Timer) (m : TimerManager)
    → m.timers ≡ t ∷ ts
    → now < 2 ^ 64
    → t.next < 2 ^ 64
    → let wait = (get_next_timer now m).0 in
      (now + wait ≡ t.next) ⊎ ((t.next < now) × (wait + now ≡ t.next + 2 ^ 64))
unfolding get_next_timer
get_next_timer-value now t ts m e h k = rw e (ground arith)
