-- ===== src/Hook/Waiting.antt =====
-- What may happen while a hooked call waits, and that its timer stays in order (src/hook.cc).
use mathlib.Core.Path.{subst}
use muqiu.Common.{
  ℕ, ◌≤◌, ◌≡◌, refl, ap, arith, true, false, Option, none, some, some_inj, Bool-cases, Option-cases,
  ◌⊎◌, inl, inr,
}
use muqiu.Common.{get_elem?, ◌==◌}
use muqiu.Timer.Manager.{
  Timer, TimerManager, add_condition_timer, add_new_timer, add_timer, new_timer, guarded, is_set,
  contains, insert, erase, cancel,
}
use muqiu.Timer.Order.{contains-insert}
use muqiu.IoManager.Events.{Event, has, FdContext, IoManager, table_for}
use muqiu.IoManager.Counting.{IsValid}
use muqiu.IoManager.Validity.{cancel_event-IsValid}
use muqiu.Fd.Context.{no_timeout}
use muqiu.Hook.Io.{etimedout, World, Outside, on_timeout, add_timeout, cancel_timer}

-- The event is not waited for.
abbrev pub Free : ℕ → Event → IoManager → Type 0
Free fd event io =
    (c : FdContext) → get_elem? (table_for fd io.contexts) fd ≡ some c → has event c.events ≡ false

module _ {K : Type 0} where
  -- The timer of the last wait will not run.
  abbrev pub Quiet : World K → Type 0
  Quiet w = (t : Timer) → w.timer ≡ some t → is_set t ≡ false

  -- While the call waits: a timer that may still run is in the set, there is one only with a
  -- timeout, and only a timeout cancels.
  pub record IsHeld (to : ℕ) (w : World K) : Type 0 where
    pub safe :
        (t : Timer) → w.timer ≡ some t → (is_set t ≡ false) ⊎ (contains t w.timers.timers ≡ true)
    pub timed : (t : Timer) → w.timer ≡ some t → (to == no_timeout) ≡ false
    pub reason : (w.cancelled ≡ 0) ⊎ ((w.cancelled ≡ etimedout) × ((to == no_timeout) ≡ false))
    pub valid : IsValid w.io

module _ {K : Type 0} (o : Outside K) (fd : ℕ) (event : Event) (patience : K → ℕ) where
  -- What happens until the fiber runs again: others change what is theirs, but leave a timer that
  -- is not theirs in the set; and the timer may run out, which takes it off the set and runs its
  -- function.
  pub data Meanwhile : World K → World K → Type 0 where
    here : (w : World K) → Meanwhile w w
    others :
        (w w' : World K) (k : K) (e : ℕ) (io : IoManager) (timers : TimerManager)
        → patience k ≤ patience w.kernel
        → IsValid io
        → ((t : Timer)
            → w.timer ≡ some t
            → contains t w.timers.timers ≡ true
            → contains t timers.timers ≡ true)
        → Meanwhile (record w { kernel = k; errno = e; io = io; timers = timers }) w'
        → Meanwhile w w'
    fires :
        (w w1 w' : World K) (t : Timer)
        → w.timer ≡ some t
        → on_timeout o fd event (record w {
          timer = some (record t { cb = none });
          timers = record w.timers { timers = erase t w.timers.timers };
        })
          ≡ some w1
        → Meanwhile w1 w'
        → Meanwhile w w'

  module _ (to : ℕ) where
    on_timeout-IsHeld :
        (w w' : World K)
        → IsHeld to w
        → (to == no_timeout) ≡ false
        → on_timeout o fd event w ≡ some w'
        → IsHeld to w' × (w'.kernel ≡ w.kernel)
    unfolding on_timeout
    on_timeout-IsHeld w w' h t e = elim (Bool-cases (w.cancelled == 0)) [
      | inr q ↦
          let same : w ≡ w' = some_inj (rw (q, on_timeout) at e) in
          subst (λ (x : World K). IsHeld to x × (x.kernel ≡ w.kernel)) same (h, refl)
      | inl q ↦
          let (r, c, v) = cancel_event-IsValid o.epoll_ctl_fails fd event w.io h.valid in
          let same : record w { io = r.1; cancelled = etimedout } ≡ w' =
            some_inj (rw (q, c, on_timeout) at e) in
          subst (λ (x : World K). IsHeld to x × (x.kernel ≡ w.kernel)) same
            (record { safe = h.safe; timed = h.timed; reason = inr (refl, t); valid = v }, refl)
    ]

    pub Meanwhile-IsHeld :
        {w w' : World K}
        → Meanwhile w w'
        → IsHeld to w
        → IsHeld to w' × (patience w'.kernel ≤ patience w.kernel)
    unfolding is_set
    Meanwhile-IsHeld (here w) h = (h, omega arith)
    Meanwhile-IsHeld (others w w' k e io timers less v kept m) h =
        let safe = λ (t : Timer) (q : w.timer ≡ some t).
          elim (h.safe t q) as (λ z. (is_set t ≡ false) ⊎ (contains t timers.timers ≡ true)) [
            | inl s ↦ inl s
            | inr c ↦ inr (kept t q c)
          ] in
        let (h', p) =
          Meanwhile-IsHeld m
            (record { safe = safe; timed = h.timed; reason = h.reason; valid = v }) in
        (h', omega (arith, p, less))
    Meanwhile-IsHeld (fires w w1 w' t q c m) h =
        let timed = h.timed t q in
        let before : IsHeld to (record w {
          timer = some (record t { cb = none });
          timers = record w.timers { timers = erase t w.timers.timers };
        }) =
          record {
            safe = λ t' q'. inl (subst (λ (x : Timer). is_set x ≡ false) (some_inj q') refl);
            timed = λ t' q'. timed;
            reason = h.reason;
            valid = h.valid;
          } in
        let (h1, same) = on_timeout-IsHeld _ w1 before timed c in
        let (h', p) = Meanwhile-IsHeld m h1 in
        (h', subst (λ (k : K). patience w'.kernel ≤ patience k) same p)

  -- The timer of a wait is cancelled when the fiber runs again.
  pub cancel_timer-Quiet :
      (to : ℕ) (w : World K)
      → IsHeld to w
      → (w' : World K) × (cancel_timer o w ≡ some w')
        × Quiet w'
        × (w'.kernel ≡ w.kernel)
        × (w'.errno ≡ w.errno)
        × (w'.io ≡ w.io)
        × (w'.cancelled ≡ w.cancelled)
  unfolding cancel_timer cancel is_set
  cancel_timer-Quiet to w h = elim (Option-cases w.timer) [
    | inl q ↦ (
      w,
      rw (q, cancel_timer) (ap (λ (x : Option Timer). some (record w { timer = x })) q),
      λ t e. absurd (ground (arith, q, e)),
      refl,
      refl,
      refl,
      refl,
    )
    | inr (t, q) ↦ elim (Bool-cases (is_set t)) [
      | inr s ↦ (
        record w { timer = some t },
        rw (q, s, cancel_timer, cancel) refl,
        λ t' e. subst (λ (x : Timer). is_set x ≡ false) (some_inj e) s,
        refl,
        refl,
        refl,
        refl,
      )
      | inl s ↦
          let c : contains t w.timers.timers ≡ true = elim (h.safe t q) [
            | inl n ↦ absurd (ground (arith, n, s))
            | inr c ↦ c
          ] in
          (
            record w {
              timer = some (record t { cb = none });
              timers = record w.timers { timers = erase t w.timers.timers };
            },
            rw (q, s, c, cancel_timer, cancel) refl,
            λ t' e. subst (λ (x : Timer). is_set x ≡ false) (some_inj e) refl,
            refl,
            refl,
            refl,
            refl,
          )
    ]
  ]

  pub add_timeout-IsHeld :
      (to : ℕ) (w : World K)
      → w.cancelled ≡ 0
      → IsValid w.io
      → IsHeld to (add_timeout o to w)
        × ((add_timeout o to w).kernel ≡ w.kernel)
        × ((add_timeout o to w).io ≡ w.io)
        × ((add_timeout o to w).cancelled ≡ 0)
  unfolding add_timeout add_condition_timer add_new_timer add_timer
  add_timeout-IsHeld to w c v = elim (Bool-cases (to == no_timeout)) [
    | inl q ↦
        rw (q, add_timeout)
          (
            record {
              safe = λ t e. absurd (ground (arith, e));
              timed = λ t e. absurd (ground (arith, e));
              reason = inl c;
              valid = v;
            },
            refl,
            refl,
            c,
          )
    | inr q ↦
        let t =
          new_timer (o.new_address w.timers) (o.now w.kernel) to
            (some (guarded o.timer_info o.timeout_cb)) false in
        rw (q, add_timeout)
          (
            record {
              safe = λ t' e. inr (
                  subst (λ (x : Timer). contains x (insert t w.timers.timers) ≡ true) (some_inj e)
                    (contains-insert t w.timers.timers));
              timed = λ t' e. q;
              reason = inl c;
              valid = v;
            },
            refl,
            refl,
            c,
          )
  ]
