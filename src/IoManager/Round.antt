-- ===== src/IoManager/Round.antt =====
-- What one round of `idle` does (src/IoManager.cc).
use muqiu.Common.{
  ℕ, zero, suc, ◌^◌, ◌≤◌, ◌<◌, ◌≡◌, refl, sym, ap, arith, Bool, true, false, Bool-cases, inl, inr,
  ◌⊎◌,
}
use muqiu.Common.{Option, some, List, [], ◌∷◌, ◌++◌, All, length, get_elem?, ltb, ◌==◌}
use muqiu.Common.Int.{ℤ, pos, to_int, to_int-small}
use mathlib.Core.Path.{subst}
use muqiu.Timer.Manager.{
  Callback, Timer, no_timer, get_next_timer, list_expired_cb, detect_rollover,
}
use muqiu.Timer.Order.{IsSorted}
use muqiu.Timer.Expired.{Progresses, Listed, list_expired_cb-Listed}
use muqiu.IoManager.Events.{FdContext, IoManager}
use muqiu.IoManager.Cancel.{Reported, handle_reported}
use muqiu.IoManager.Counting.{IsValid}
use muqiu.IoManager.Validity.{handle_reported-IsValid}
use muqiu.IoManager.Idle.{
  Report, wakeup, ready, Answer, interrupted, failed, events, System, Idle, max_timeout,
  cut_timeout, present, wait, handle_all, stopping, idle_round,
}

-- Where the next timer is due in less than 2 ^ 31 ms, or there is none, epoll_wait gets a timeout
-- that is not negative, at most 3000 ms, and not beyond the next timer.
pub cut_timeout-bounds :
    (n : ℕ)
    → (n < 2 ^ 31) ⊎ (n ≡ no_timer)
    → (m : ℕ) × (to_int (cut_timeout n) ≡ pos m) × (m ≤ 3000) × (m ≤ n)
unfolding cut_timeout to_int
cut_timeout-bounds n (inr e) = rw e (3000, refl, omega arith, omega arith)
cut_timeout-bounds n (inl h) =
    let other : (n == no_timer) ≡ false = ground (arith, h) in
    let small = to_int-small n h in
    elim (Bool-cases (ltb max_timeout n)) [
      | inl e ↦
          let long : 3000 ≤ n = ground (arith, e) in
          rw (other, small, cut_timeout, e)
            (3000, to_int-small 3000 (omega arith), omega arith, long)
      | inr e ↦
          let short : n ≤ 3000 = ground (arith, e) in
          rw (other, small, cut_timeout, e) (n, small, short, omega arith)
    ]

Answer-cases :
    (a : Answer) → (a ≡ interrupted) ⊎ ((a ≡ failed) ⊎ ((rs : List Report) × (a ≡ events rs)))
Answer-cases interrupted = inl refl
Answer-cases failed = inr (inl refl)
Answer-cases (events rs) = inr (inr (rs, refl))

module _ {K : Type 0} (o : System K) where
  -- How often epoll_wait can be interrupted before it gives a result.
  pub record Patience : Type 0 where
    pub patience : K → ℕ
    pub falls :
        (t : ℤ) (k : K)
        → (o.epoll_wait t k).0 ≡ interrupted
        → patience (o.epoll_wait t k).1 < patience k

  answered :
      (timeout : ℕ) (k : K) (a : Answer)
      → let r = o.epoll_wait (to_int (cut_timeout timeout)) k in r.0 ≡ a → r ≡ (a, r.1)
  answered timeout k a e =
      ap (λ (x : Answer). (x, (o.epoll_wait (to_int (cut_timeout timeout)) k).1)) e

  -- What the events leave: each is handled, in their order, and the wake-up changes nothing.
  pub data HandledOf : IoManager → List Report → IoManager → Type 0 where
    nothing : {m : IoManager} → HandledOf m [] m
    woken : {rs : List Report} {m m' : IoManager} → HandledOf m rs m' → HandledOf m (wakeup ∷ rs) m'
    handled :
        (fd : ℕ) (r : Reported) {rs : List Report} {m m1 m' : IoManager}
        → handle_reported o.epoll_ctl_fails fd r m ≡ some m1
        → HandledOf m1 rs m'
        → HandledOf m (ready fd r ∷ rs) m'

  -- What the inner loop waits for: a call of epoll_wait that is not interrupted. It has given the
  -- events, or none where it has failed.
  pub data WaitOf : ℕ → K → List Report → K → Type 0 where
    once_more :
        {timeout : ℕ} {k k' after : K} {reports : List Report}
        → o.epoll_wait (to_int (cut_timeout timeout)) k ≡ (interrupted, k')
        → WaitOf (cut_timeout timeout) k' reports after
        → WaitOf timeout k reports after
    gave :
        {timeout : ℕ} {k after : K} {reports : List Report}
        → o.epoll_wait (to_int (cut_timeout timeout)) k ≡ (events reports, after)
        → WaitOf timeout k reports after
    gave_up :
        {timeout : ℕ} {k after : K}
        → o.epoll_wait (to_int (cut_timeout timeout)) k ≡ (failed, after)
        → WaitOf timeout k [] after

  wait-ends :
      (p : Patience) (fuel timeout : ℕ) (k : K)
      → p.patience k < fuel
      → (reports : List Report) × (k' : K) × (wait o fuel timeout k ≡ some (reports, k'))
        × WaitOf timeout k reports k'
  unfolding wait
  wait-ends p zero timeout k h = absurd (omega arith)
  wait-ends p (suc fuel) timeout k h =
      let t = cut_timeout timeout in
      let k' = (o.epoll_wait (to_int t) k).1 in
      elim (Answer-cases (o.epoll_wait (to_int t) k).0) [
        | inl e ↦
            let less = p.falls (to_int t) k e in
            let (rs, k'', q, w) = wait-ends p fuel t k' (omega (arith, less, h)) in
            let w' : WaitOf timeout k rs k'' = once_more (answered timeout k interrupted e) w in
            (rs, k'', rw (e, wait) q, w')
        | inr (inl e) ↦
            let w : WaitOf timeout k [] k' = gave_up (answered timeout k failed e) in
            ([], k', rw (e, wait) refl, w)
        | inr (inr (rs, e)) ↦
            let w : WaitOf timeout k rs k' = gave (answered timeout k (events rs) e) in
            (rs, k', rw (e, wait) refl, w)
      ]

  -- The events are for descriptors of the table, and input and output are reported only where they
  -- are watched.
  abbrev pub Fitting : List Report → IoManager → Type 0
  Fitting [] m = Unit
  Fitting (wakeup ∷ rs) m = Fitting rs m
  Fitting (ready fd r ∷ rs) m =
      (fd < length m.contexts)
      × ((c : FdContext)
          → get_elem? m.contexts fd ≡ some c
          → (r.input ≡ true → c.events.reads ≡ true) × (r.output ≡ true → c.events.writes ≡ true))
      × ((m' : IoManager) → handle_reported o.epoll_ctl_fails fd r m ≡ some m' → Fitting rs m')

  handle_all-IsValid :
      (rs : List Report) (m : IoManager)
      → Fitting rs m
      → IsValid m
      → (m' : IoManager) × (handle_all o rs m ≡ some m') × IsValid m' × HandledOf m rs m'
  unfolding handle_all
  handle_all-IsValid [] m f v = (m, refl, v, nothing)
  handle_all-IsValid (wakeup ∷ rs) m f v =
      let (m', e, v', w) = handle_all-IsValid rs m f v in (m', e, v', woken w)
  handle_all-IsValid (ready fd r ∷ rs) m (h, w, next) v =
      let (m1, e1, v1) = handle_reported-IsValid o.epoll_ctl_fails fd r m h w v in
      let (m2, e2, v2, w2) = handle_all-IsValid rs m1 (next m1 e1) v1 in
      (m2, rw (e1, handle_all) e2, v2, handled fd r e1 w2)

  -- What is relied on of a round: the set of timers is in order, every timer has a positive
  -- interval, the clock does not turn back while the round waits, and the events fit.
  pub record IsSound (s : Idle K) (k : K) (reports : List Report) : Type 0 where
    pub in_order : IsSorted s.timers.timers
    pub progress : All (Progresses (o.now k)) s.timers.timers
    pub forward : (detect_rollover (o.now k) (stopping o s).2).0 ≡ false
    pub fitting : Fitting reports s.io

  -- A round that does not end the loop. It has waited as `stopping` says for the next timer; the
  -- table is what the events that epoll_wait gave have left, each handled in order; and behind the
  -- functions posted before stand those of exactly the timers that are due, in order, and no due
  -- timer is left in the set.
  pub record RoundOf (s s' : Idle K) : Type 0 where
    pub reports : List Report
    pub waited : WaitOf (stopping o s).0 s.kernel reports s'.kernel
    pub left : HandledOf s.io reports s'.io
    pub valid : IsValid s'.io
    pub cbs : List (Option Callback)
    pub listed : Listed (o.now s'.kernel) s.timers.timers cbs s'.timers.timers
    pub posts : s'.posted ≡ s.posted ++ present cbs

  stopping-timers : (s : Idle K) → (stopping o s).2.timers ≡ s.timers.timers
  unfolding stopping get_next_timer
  stopping-timers s = refl

  -- A round of `idle` on a valid table returns, where the kernel interrupts epoll_wait less often
  -- than there is fuel and the round is sound: the set of timers is in order, they have positive
  -- intervals, the clock has not turned back, and each event is for a descriptor of the table that
  -- is watched for it when it is handled. It ends the loop where `stopping` says so. Otherwise it
  -- handles all events that epoll_wait has given, leaves a valid table and posts the functions of
  -- exactly the timers that are due.
  pub idle_round-RoundOf :
      (p : Patience) (fuel : ℕ) (s : Idle K)
      → p.patience s.kernel < fuel
      → IsValid s.io
      → ((reports : List Report) (k : K)
          → wait o fuel (stopping o s).0 s.kernel ≡ some (reports, k)
          → IsSound s k reports)
      → (ends : Bool) × (s' : Idle K) × (idle_round o fuel s ≡ some (ends, s'))
        × (ends ≡ (stopping o s).1)
        × (ends ≡ false → RoundOf s s')
  unfolding idle_round
  idle_round-RoundOf p fuel s h v sound =
      let (timeout, ends, timers) = stopping o s in
      let (reports, k, e, w) = wait-ends p fuel timeout s.kernel h in
      let fine = sound reports k e in
      let (io, f, v', left) = handle_all-IsValid reports s.io fine.fitting v in
      let same = stopping-timers s in
      let (cbs, timers') = list_expired_cb o.address (o.now k) timers in
      let listed =
        list_expired_cb-Listed o.address (o.now k) timers fine.forward
          (subst IsSorted (sym same) fine.in_order)
          (subst (All (Progresses (o.now k))) (sym same) fine.progress) in
      let s' : Idle K = record {
        kernel = k;
        timers = timers';
        io = io;
        posted = s.posted ++ present cbs;
      } in
      elim (Bool-cases ends) [
        | inl q ↦
            rw (q, idle_round)
              (true, record s { timers = timers }, refl, refl, λ x. absurd (ground (arith, x)))
        | inr q ↦
            rw (q, e, f, idle_round)
              (
                false,
                s',
                refl,
                refl,
                λ x. record {
                  valid = v';
                  cbs = cbs;
                  listed =
                      subst (λ (ts : List Timer). Listed (o.now k) ts cbs timers'.timers) same
                        listed;
                  posts = refl;
                  reports = reports;
                  waited = w;
                  left = left;
                },
              )
      ]
