-- ===== src/Hook/Retry.antt =====
-- What a hooked call answers (src/hook.cc).
use mathlib.Core.Path.{subst}
use muqiu.Common.{
  ℕ, zero, suc, ◌≤◌, ◌<◌, ◌≡◌, refl, sym, ap, ◌∙◌, arith, Bool, true, false, Option, none, some,
  Bool-cases, ◌⊎◌, inl, inr,
}
use muqiu.Common.{if◌then◌else◌, ◌==◌, ==_iff, get_elem?, some_inj, Option-cases}
use muqiu.Common.Int.{ℤ, negsuc}
use muqiu.IoManager.Events.{
  Event, Events, EpollCtlOp, with_event, add_event, IoManager, table_for, is_none, ctl_add, ctl_mod,
}
use muqiu.IoManager.Counting.{IsValid}
use muqiu.IoManager.Validity.{add_event-IsValid}
use muqiu.Fd.Context.{no_timeout}
use muqiu.Hook.Io.{
  eintr, eagain, etimedout, World, Outside, failed_with, call_fun, uninterrupted, add_timeout,
  Round, again, stop, resume, wait, io_loop,
}
use muqiu.Hook.Waiting.{
  Free, Quiet, IsHeld, Meanwhile, Meanwhile-IsHeld, cancel_timer-Quiet, add_timeout-IsHeld,
}

module _ {K : Type 0} (o : Outside K) (fd : ℕ) (event : Event) where
  -- What is relied on of the system and the other fibers: calls that are interrupted or would block
  -- use up the patience of the kernel, and a fiber that is swapped out runs again after what
  -- `Meanwhile` allows, with its event no longer waited for.
  pub record Contract : Type 0 where
    pub patience : K → ℕ
    pub calls :
        (w : World K)
        → (failed_with eintr (call_fun o w).0 (call_fun o w).1 ≡ true)
          ⊎ (failed_with eagain (call_fun o w).0 (call_fun o w).1 ≡ true)
        → patience (call_fun o w).1.kernel < patience w.kernel
    pub stays :
        (to : ℕ) (w : World K) → IsHeld to w → Meanwhile o fd event patience w (o.swap_out w)
    pub free : (w : World K) → Free fd event (o.swap_out w).io

  -- The state at `retry`.
  pub record Ready (w : World K) : Type 0 where
    pub quiet : Quiet w
    pub none_yet : w.cancelled ≡ 0
    pub valid : IsValid w.io
    pub free : Free fd event w.io

  -- What a call returns. Its timer, if it had one, will not run any more.
  pub data AnswerOf (to : ℕ) (r : Option (ℤ × World K)) : Type 0 where
    returned :
        (w : World K)
        → r ≡ some (call_fun o w)
        → failed_with eintr (call_fun o w).0 (call_fun o w).1 ≡ false
        → failed_with eagain (call_fun o w).0 (call_fun o w).1 ≡ false
        → Quiet (call_fun o w).1
        → AnswerOf to r
    timed_out :
        (w : World K)
        → r ≡ some (negsuc 0, w)
        → w.errno ≡ etimedout
        → (to == no_timeout) ≡ false
        → Quiet w
        → AnswerOf to r
    not_watched :
        (w : World K) (op : EpollCtlOp) (es : Events)
        → r ≡ some (negsuc 0, w)
        → w.errno ≡ o.epoll_errno
        → o.epoll_ctl_fails op fd es ≡ true
        → Quiet w
        → AnswerOf to r

  module _ (c : Contract) where
    -- The last of the calls that a signal did not interrupt.
    pub uninterrupted-ends :
        (fuel : ℕ) (w : World K)
        → Ready w
        → c.patience w.kernel < fuel
        → (w0 : World K) × (uninterrupted o fuel w ≡ some (call_fun o w0))
          × (failed_with eintr (call_fun o w0).0 (call_fun o w0).1 ≡ false)
          × (c.patience w0.kernel ≤ c.patience w.kernel)
          × Ready (call_fun o w0).1
    unfolding uninterrupted
    uninterrupted-ends zero w r h = absurd (omega arith)
    uninterrupted-ends (suc fuel) w r h =
        let w' = (call_fun o w).1 in
        let r' : Ready w' = record {
          quiet = r.quiet;
          none_yet = r.none_yet;
          valid = r.valid;
          free = r.free;
        } in
        elim (Bool-cases (failed_with eintr (call_fun o w).0 w')) [
          | inr q ↦ (w, rw (q, uninterrupted) refl, q, omega arith, r')
          | inl q ↦
              let less = c.calls w (inl q) in
              let (w0, e, f, p, r0) = uninterrupted-ends fuel w' r' (omega (arith, less, h)) in
              (w0, rw (q, uninterrupted) e, f, omega (arith, p, less), r0)
        ]

  -- How a fiber goes on that runs again: with another try, or after a timeout.
  data ResumeOf (to bound : ℕ) (patience : K → ℕ) (r : Option (Round K)) : Type 0 where
    retries :
        (w : World K)
        → r ≡ some (again w)
        → Ready w
        → patience w.kernel ≤ bound
        → ResumeOf to bound patience r
    times_out :
        (w : World K)
        → r ≡ some (stop (negsuc 0) w)
        → w.errno ≡ etimedout
        → (to == no_timeout) ≡ false
        → Quiet w
        → ResumeOf to bound patience r

  -- How a wait ends: so, or as the event cannot be watched.
  data WaitOf (to bound : ℕ) (patience : K → ℕ) (r : Option (Round K)) : Type 0 where
    resumed : ResumeOf to bound patience r → WaitOf to bound patience r
    unwatched :
        (w : World K) (op : EpollCtlOp) (es : Events)
        → r ≡ some (stop (negsuc 0) w)
        → w.errno ≡ o.epoll_errno
        → o.epoll_ctl_fails op fd es ≡ true
        → Quiet w
        → WaitOf to bound patience r

  resume-ResumeOf :
      (to bound : ℕ) (patience : K → ℕ) (w : World K)
      → IsHeld to w
      → Free fd event w.io
      → patience w.kernel ≤ bound
      → ResumeOf to bound patience (resume o w)
  unfolding resume
  resume-ResumeOf to bound patience w h free less =
      let (w', e, quiet, ke, ee, ie, ce) = cancel_timer-Quiet o fd event patience to w h in
      elim h.reason [
        | inl z ↦
            let q : (w'.cancelled == 0) ≡ true = (==_iff w'.cancelled 0).1 (ce ∙ z) in
            retries w' (rw (e, q, resume) refl)
              (record {
                quiet = quiet;
                none_yet = ce ∙ z;
                valid = subst (λ (x : IoManager). IsValid x) (sym ie) h.valid;
                free = subst (λ (x : IoManager). Free fd event x) (sym ie) free;
              })
              (subst (λ (k : K). patience k ≤ bound) (sym ke) less)
        | inr (z, t) ↦
            let c : w'.cancelled ≡ etimedout = ce ∙ z in
            let q : (w'.cancelled == 0) ≡ false = ground (arith, c) in
            times_out (record w' { errno = w'.cancelled }) (rw (e, q, resume) refl) c t quiet
      ]

  pub add_event-refused :
      (io : IoManager) (cb : Option ℕ) (io' : IoManager)
      → add_event o.epoll_ctl_fails o.scheduler o.this_fiber fd event cb io ≡ some (false, io')
      → (op : EpollCtlOp) × (es : Events) × (o.epoll_ctl_fails op fd es ≡ true)
  unfolding add_event
  add_event-refused io cb io' e = elim (Option-cases (get_elem? (table_for fd io.contexts) fd)) [
    | inl g ↦ absurd (ground (arith, rw (g, add_event) at e))
    | inr (c, g) ↦
        let op = if is_none c.events then ctl_add else ctl_mod in
        elim (Bool-cases (o.epoll_ctl_fails op fd (with_event event c.events))) [
          | inl f ↦ (op, with_event event c.events, f)
          | inr f ↦ absurd (
              ground
                (arith, ap (λ (b : Bool × IoManager). b.0) (some_inj (rw (g, f, add_event) at e))))
        ]
  ]

  module _ (c : Contract) where
    wait-WaitOf :
        (to : ℕ) (w : World K)
        → Ready w
        → WaitOf to (c.patience w.kernel) c.patience (wait o fd event to w)
    unfolding wait
    wait-WaitOf to w r =
        let (h1, k1, i1, c1) = add_timeout-IsHeld o fd event c.patience to w r.none_yet r.valid in
        let w1 = add_timeout o to w in
        let free1 = subst (λ (x : IoManager). Free fd event x) (sym i1) r.free in
        let (a, e, v) =
          add_event-IsValid o.epoll_ctl_fails o.scheduler o.this_fiber fd event none w1.io free1
            h1.valid in
        elim (Bool-cases a.0) [
          | inl q ↦
              let w2 = record w1 { io = a.1 } in
              let held : IsHeld to w2 = record {
                safe = h1.safe;
                timed = h1.timed;
                reason = h1.reason;
                valid = v;
              } in
              let (h2, p) = Meanwhile-IsHeld o fd event c.patience to (c.stays to w2 held) held in
              let p' : c.patience (o.swap_out w2).kernel ≤ c.patience w.kernel =
                subst (λ (k : K). c.patience (o.swap_out w2).kernel ≤ c.patience k) k1 p in
              rw (e ∙ ap (λ (b : Bool). some (b, a.1)) q, wait)
                (resumed (
                  resume-ResumeOf to (c.patience w.kernel) c.patience (o.swap_out w2) h2 (c.free w2)
                    p'))
          | inr q ↦
              let w2 = record w1 { io = a.1; errno = o.epoll_errno } in
              let held : IsHeld to w2 = record {
                safe = h1.safe;
                timed = h1.timed;
                reason = h1.reason;
                valid = v;
              } in
              let (w3, e3, quiet, ke, ee, ie, ce) =
                cancel_timer-Quiet o fd event c.patience to w2 held in
              let e' = e ∙ ap (λ (b : Bool). some (b, a.1)) q in
              let (op, es, f) = add_event-refused w1.io none a.1 e' in
              unwatched w3 op es (rw (e', e3, wait) refl) ee f quiet
        ]

    -- A hooked call on a socket returns, on fuel beyond the patience of the kernel, and what it
    -- returns is never an interruption or a call that would block: it is what the original function
    -- has returned, a timeout, where one is set, or that `epoll_ctl` has refused to watch the
    -- descriptor. No step of it is undefined, and its timer will not run afterwards.
    pub io_loop-AnswerOf :
        (fuel to : ℕ) (w : World K)
        → Ready w
        → c.patience w.kernel < fuel
        → AnswerOf to (io_loop o fuel fd event to w)
    unfolding io_loop
    io_loop-AnswerOf zero to w r h = absurd (omega arith)
    io_loop-AnswerOf (suc fuel) to w r h =
        let (w0, e, f, p, r0) = uninterrupted-ends c (suc fuel) w r h in
        elim (Bool-cases (failed_with eagain (call_fun o w0).0 (call_fun o w0).1)) [
          | inr q ↦ returned w0 (rw (e, q, io_loop) refl) f q r0.quiet
          | inl q ↦
              let less = c.calls w0 (inr q) in
              elim (wait-WaitOf to (call_fun o w0).1 r0) [
                | resumed (retries w2 e2 r2 p2) ↦
                    rw (e, q, e2, io_loop)
                      (io_loop-AnswerOf fuel to w2 r2 (omega (arith, p2, less, p, h)))
                | resumed (times_out w2 e2 er t quiet) ↦
                    timed_out w2 (rw (e, q, e2, io_loop) refl) er t quiet
                | unwatched w2 op es e2 er x quiet ↦
                    not_watched w2 op es (rw (e, q, e2, io_loop) refl) er x quiet
              ]
        ]
