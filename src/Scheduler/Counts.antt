-- ===== src/Scheduler/Counts.antt =====
-- What the steps of a thread do to the counts of active and idle threads (src/Scheduler.cc).
use muqiu.Common.{
  ℕ, ◌+◌, ◌-◌, ◌≡◌, refl, arith, none, some, Bool-cases, Option-cases, inl, inr, ◌⊎◌,
}
use muqiu.Common.{get_elem?, total, total-set, if◌then◌else◌}
use muqiu.Scheduler.Queue.{
  FiberState, init, hold, runing, is_ready, is_term, has_ended, FiberAndThread, of_fiber, Scheduler,
  schedule_no_lock,
}
use muqiu.Scheduler.Picking.{pick, take}
use muqiu.Scheduler.Running.{
  polling, took, in_fiber, in_cb, idling, done, Thread, System, set_state, put, run_in, poll, begin,
  behind_fiber, behind_cb, end_fiber, end_cb, settle_fiber, settle_cb, end_idle,
}

-- 1 for a thread that has a task and is not behind its fiber yet, and for one that is in its idle fiber.
abbrev pub busy : Thread → ℕ
busy t = elim t.phase [
  | took ft ↦ 1
  | in_fiber f ↦ 1
  | in_cb f ↦ 1
  | behind_fiber f ↦ 0
  | behind_cb f ↦ 0
  | polling ↦ 0
  | idling ↦ 0
  | done ↦ 0
]

abbrev pub lazy : Thread → ℕ
lazy t = elim t.phase [
  | idling ↦ 1
  | took ft ↦ 0
  | in_fiber f ↦ 0
  | in_cb f ↦ 0
  | behind_fiber f ↦ 0
  | behind_cb f ↦ 0
  | polling ↦ 0
  | done ↦ 0
]

pub record IsCounted (w : System) : Type 0 where
  pub active : w.scheduler.active ≡ total busy w.threads
  pub idle : w.scheduler.idle ≡ total lazy w.threads

-- A thread is put back with other weights, and the counts change by as much.
pub put-IsCounted :
    (i : ℕ) (t t' : Thread) (w : System) (s : Scheduler) (states : ℕ → FiberState)
    → get_elem? w.threads i ≡ some t
    → s.active + busy t ≡ w.scheduler.active + busy t'
    → s.idle + lazy t ≡ w.scheduler.idle + lazy t'
    → IsCounted w
    → IsCounted (put i t' (record w { scheduler = s; states = states }))
put-IsCounted i t t' w s states e a l c = record {
  active = omega (arith, total-set busy w.threads i t t' e, a, c.active);
  idle = omega (arith, total-set lazy w.threads i t t' e, l, c.idle);
}

pub schedule_no_lock-counts :
    (ft : FiberAndThread) (s : Scheduler)
    → ((schedule_no_lock ft s).1.active ≡ s.active) × ((schedule_no_lock ft s).1.idle ≡ s.idle)
unfolding schedule_no_lock
schedule_no_lock-counts ft s = ground arith

-- What `take` counts.
take-counts :
    (states : ℕ → FiberState) (thread : ℕ) (s : Scheduler)
    → let r = take states thread s in
      ((r.0 ≡ none) × (r.2.active ≡ s.active) × (r.2.idle ≡ s.idle))
      ⊎ ((ft : FiberAndThread) × (r.0 ≡ some ft)
          × (r.2.active ≡ s.active + 1)
          × (r.2.idle ≡ s.idle))
unfolding take
take-counts states thread s = elim (Option-cases (pick states thread s.fibers).task) [
  | inl e ↦ inl (e, rw (e, take) refl, refl)
  | inr (ft, e) ↦ inr (ft, e, rw (e, take) refl, refl)
]

pub poll-IsCounted :
    (i : ℕ) (t : Thread) (w : System)
    → get_elem? w.threads i ≡ some t
    → t.phase ≡ polling
    → IsCounted w
    → IsCounted (poll i t w)
unfolding poll
poll-IsCounted i t w e p c = elim (take-counts w.states t.id w.scheduler) [
  | inr (ft, r, a, l) ↦
      rw (r, poll)
        (put-IsCounted i t (record t { phase = took ft }) w (take w.states t.id w.scheduler).2
          w.states e (rw p (omega (arith, a))) (rw p (omega (arith, l))) c)
  | inl (r, a, l) ↦ elim (Bool-cases (is_term (w.states t.idle_fiber))) [
    | inl q ↦
        rw (r, q, poll)
          (put-IsCounted i t (record t { phase = done }) w (take w.states t.id w.scheduler).2
            w.states e (rw p (omega (arith, a))) (rw p (omega (arith, l))) c)
    | inr q ↦
        let s = (take w.states t.id w.scheduler).2 in
        rw (r, q, poll)
          (put-IsCounted i t (record t { phase = idling }) w (record s { idle = s.idle + 1 })
            (set_state t.idle_fiber runing w.states) e (rw p (omega (arith, a)))
            (rw p (omega (arith, l))) c)
  ]
]

-- A thread that has a task gives it up.
freed :
    (i : ℕ) (t t' : Thread) (w : System) (s : Scheduler) (states : ℕ → FiberState)
    → get_elem? w.threads i ≡ some t
    → busy t ≡ 1
    → lazy t ≡ 0
    → busy t' ≡ 0
    → lazy t' ≡ 0
    → s.active ≡ w.scheduler.active - 1
    → s.idle ≡ w.scheduler.idle
    → IsCounted w
    → IsCounted (put i t' (record w { scheduler = s; states = states }))
freed i t t' w s states e b z b' z' a l c =
    put-IsCounted i t t' w s states e
      (omega (arith, b, b', a, c.active, total-set busy w.threads i t t' e))
      (omega (arith, z, z', l)) c

-- A thread that has a task keeps it.
kept :
    (i : ℕ) (t t' : Thread) (w : System) (states : ℕ → FiberState)
    → get_elem? w.threads i ≡ some t
    → busy t ≡ busy t'
    → lazy t ≡ lazy t'
    → IsCounted w
    → IsCounted (put i t' (record w { states = states }))
kept i t t' w states e b z c =
    put-IsCounted i t t' w w.scheduler states e (omega (arith, b)) (omega (arith, z)) c

pub begin-IsCounted :
    (fresh i : ℕ) (t : Thread) (ft : FiberAndThread) (w : System)
    → get_elem? w.threads i ≡ some t
    → t.phase ≡ took ft
    → IsCounted w
    → IsCounted (begin fresh i t ft w)
unfolding begin
begin-IsCounted fresh i t ft w e p c = elim (Option-cases ft.fiber) [
  | inl n ↦ rw (n, begin) (without_fiber)
  | inr (f, n) ↦ elim (Bool-cases (has_ended (w.states f))) [
    | inl q ↦ rw (n, q, begin) (without_fiber)
    | inr q ↦
        rw (n, q, begin)
          (kept i t (record t { phase = in_fiber f }) w (set_state f runing w.states) e (rw p refl)
            (rw p refl) c)
  ]
]
  where
    into_cb : ℕ
    into_cb = elim t.cb_fiber [ none ↦ fresh | some f ↦ f ]

    without_fiber : IsCounted (elim ft.cb [
      | some cb ↦ run_in into_cb (in_cb into_cb) i (record t { cb_fiber = some into_cb }) w
      | none ↦
          put i
            (record t { phase = polling })
            (record w { scheduler = record w.scheduler { active = w.scheduler.active - 1 } })
    ])
    without_fiber = elim (Option-cases ft.cb) [
      | inl n ↦ rw n (
          freed i t (record t { phase = polling }) w
            (record w.scheduler { active = w.scheduler.active - 1 }) w.states e (rw p refl)
            (rw p refl) refl refl refl refl c)
      | inr (cb, n) ↦ rw n (
          kept i t (record t { cb_fiber = some into_cb; phase = in_cb into_cb }) w
            (set_state into_cb runing w.states) e (rw p refl) (rw p refl) c)
    ]

pub end_fiber-IsCounted :
    (after : FiberState) (f i : ℕ) (t : Thread) (w : System)
    → get_elem? w.threads i ≡ some t
    → t.phase ≡ in_fiber f
    → IsCounted w
    → IsCounted (end_fiber after f i t w)
unfolding end_fiber
end_fiber-IsCounted after f i t w e p c =
    freed i t (record t { phase = behind_fiber f }) w
      (record w.scheduler { active = w.scheduler.active - 1 }) (set_state f after w.states) e
      (rw p refl) (rw p refl) refl refl refl refl c

pub end_cb-IsCounted :
    (after : FiberState) (f i : ℕ) (t : Thread) (w : System)
    → get_elem? w.threads i ≡ some t
    → t.phase ≡ in_cb f
    → IsCounted w
    → IsCounted (end_cb after f i t w)
unfolding end_cb
end_cb-IsCounted after f i t w e p c =
    freed i t (record t { phase = behind_cb f }) w
      (record w.scheduler { active = w.scheduler.active - 1 }) (set_state f after w.states) e
      (rw p refl) (rw p refl) refl refl refl refl c

-- A thread that is not counted stays so, and what it schedules changes no count.
uncounted :
    (i : ℕ) (t t' : Thread) (w : System) (s : Scheduler) (states : ℕ → FiberState)
    → get_elem? w.threads i ≡ some t
    → busy t ≡ busy t'
    → lazy t ≡ lazy t'
    → s.active ≡ w.scheduler.active
    → s.idle ≡ w.scheduler.idle
    → IsCounted w
    → IsCounted (put i t' (record w { scheduler = s; states = states }))
uncounted i t t' w s states e b z a l c =
    put-IsCounted i t t' w s states e (omega (arith, a, b)) (omega (arith, l, z)) c

pub settle_fiber-IsCounted :
    (f i : ℕ) (t : Thread) (w : System)
    → get_elem? w.threads i ≡ some t
    → t.phase ≡ behind_fiber f
    → IsCounted w
    → IsCounted (settle_fiber f i t w)
unfolding settle_fiber
settle_fiber-IsCounted f i t w e p c =
    let t' = record t { phase = polling } in
    let s = (schedule_no_lock (of_fiber (some f) none) w.scheduler).1 in
    let (a, l) = schedule_no_lock-counts (of_fiber (some f) none) w.scheduler in
    elim (Bool-cases (is_ready (w.states f))) [
      | inl q ↦ rw q (uncounted i t t' w s w.states e (rw p refl) (rw p refl) a l c)
      | inr q ↦ elim (Bool-cases (has_ended (w.states f))) [
        | inl h ↦ rw (q, h) (kept i t t' w w.states e (rw p refl) (rw p refl) c)
        | inr h ↦ rw (q, h) (kept i t t' w (set_state f hold w.states) e (rw p refl) (rw p refl) c)
      ]
    ]

pub settle_cb-IsCounted :
    (f i : ℕ) (t : Thread) (w : System)
    → get_elem? w.threads i ≡ some t
    → t.phase ≡ behind_cb f
    → IsCounted w
    → IsCounted (settle_cb f i t w)
unfolding settle_cb
settle_cb-IsCounted f i t w e p c =
    let alone = record t { phase = polling; cb_fiber = none } in
    let again = record t { phase = polling; cb_fiber = some f } in
    let s = (schedule_no_lock (of_fiber (some f) none) w.scheduler).1 in
    let (a, l) = schedule_no_lock-counts (of_fiber (some f) none) w.scheduler in
    elim (Bool-cases (is_ready (w.states f))) [
      | inl q ↦ rw q (uncounted i t alone w s w.states e (rw p refl) (rw p refl) a l c)
      | inr q ↦ elim (Bool-cases (has_ended (w.states f))) [
        | inl h ↦
            rw (q, h) (kept i t again w (set_state f init w.states) e (rw p refl) (rw p refl) c)
        | inr h ↦
            rw (q, h) (kept i t alone w (set_state f hold w.states) e (rw p refl) (rw p refl) c)
      ]
    ]

pub end_idle-IsCounted :
    (after : FiberState) (i : ℕ) (t : Thread) (w : System)
    → get_elem? w.threads i ≡ some t
    → t.phase ≡ idling
    → IsCounted w
    → IsCounted (end_idle after i t w)
unfolding end_idle
end_idle-IsCounted after i t w e p c =
    let t' = record t { phase = polling } in
    let one : lazy t ≡ 1 = rw p refl in
    put-IsCounted i t t' w (record w.scheduler { idle = w.scheduler.idle - 1 })
      (set_state t.idle_fiber (if has_ended after then after else hold) w.states) e (rw p refl)
      (omega (arith, one, c.idle, total-set lazy w.threads i t t' e)) c
