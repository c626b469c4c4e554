-- ===== src/IoManager/Validity.antt =====
-- What the operations do to a valid event table (src/IoManager.cc).
use muqiu.Common.{
  ℕ, ◌-◌, ◌≤◌, ◌<◌, ◌≡◌, refl, sym, ap, ◌∙◌, arith, Bool, true, false, ◌&&◌, ◌||◌, Option, none,
  some, some_inj, Bool-cases, Option-cases, inl, inr,
}
use muqiu.Common.{length, get_elem?, set, length-set, All, if◌then◌else◌}
use muqiu.IoManager.Events.{
  Event, read, write, Events, has, with_event, without_event, is_none, EpollCtlOp, ctl_add, ctl_mod,
  ctl_del, no_events, FdContext, EventContext, empty_context, get_context, set_context, IoManager,
  table_for, armed, trigger_event, trigger_at, add_event, del_event, cancel_event, op_for,
}
use muqiu.IoManager.Cancel.{
  trigger_if, trigger_both, cancel_all, Reported, real_events, both, except, handle_reported,
}
use muqiu.IoManager.Counting.{
  IsValid, Ready, watched, watched-set, get_elem?-set, All-set, All-get, table_for-watched,
  table_for-Ready, length-table_for, found, dropped-weight, dropped-Ready, armed-weight,
  armed-Ready,
}

-- A context that drops a watched event leaves the table valid once the count goes down by one.
dropped :
    (m : IoManager) (fd : ℕ) (event : Event) (e : EventContext) (c : FdContext)
    → get_elem? m.contexts fd ≡ some c
    → has event c.events ≡ true
    → IsValid m
    → let c' = set_context event e (record c { events = without_event event c.events }) in
      (m.pending - 1 ≡ watched (set m.contexts fd c'))
      × All Ready (set m.contexts fd c')
      × (2 ≤ length (set m.contexts fd c'))
dropped m fd event e c g h v =
    let c' = set_context event e (record c { events = without_event event c.events }) in
    (
      omega (arith, v.counted, watched-set m.contexts fd c c' g, dropped-weight event e c h),
      All-set Ready m.contexts fd c'
          (dropped-Ready event e c (All-get Ready m.contexts fd c g v.ready)) v.ready,
      (let e = length-set m.contexts fd c' in let l = v.large in omega (arith, e, l)),
    )

-- A valid table whose context at `fd` waits for the events `left`.
pub record IsLeft (fd : ℕ) (left : Events) (m : IoManager) : Type 0 where
  pub context : FdContext
  pub at : get_elem? m.contexts fd ≡ some context
  pub waits : context.events ≡ left
  pub valid : IsValid m

context-events :
    (event : Event) (e : EventContext) (c : FdContext) → (set_context event e c).events ≡ c.events
context-events read e c = refl
context-events write e c = refl

-- A trigger of a watched event of a valid table does not fail.
pub trigger_at-IsLeft :
    (m : IoManager) (fd : ℕ) (event : Event) (c : FdContext)
    → get_elem? m.contexts fd ≡ some c
    → has event c.events ≡ true
    → IsValid m
    → (m' : IoManager) × (trigger_at fd event c m ≡ some m')
      × IsLeft fd (without_event event c.events) m'
unfolding trigger_at trigger_event
trigger_at-IsLeft m fd event c g h v = elim (Option-cases (get_context event c).scheduler) [
  | inl e ↦ absurd (All-get Ready m.contexts fd c g v.ready event h e)
  | inr (scheduler, e) ↦
      let context = record (get_context event c) { scheduler = none } in
      let less = record c { events = without_event event c.events } in
      let d = dropped m fd event context c g h v in
      rw (e, trigger_at, trigger_event)
        (
          _,
          refl,
          record {
            context = set_context event context less;
            at = get_elem?-set m.contexts fd c (set_context event context less) g;
            waits = context-events event context less;
            valid = record { counted = d.0; ready = d.1; large = d.2 };
          },
        )
]

trigger_if-IsLeft :
    (m : IoManager) (test : Bool) (fd : ℕ) (event : Event) (es : Events)
    → (test ≡ true → has event es ≡ true)
    → IsLeft fd es m
    → (m' : IoManager) × (trigger_if test fd event m ≡ some m')
      × IsLeft fd (if test then without_event event es else es) m'
unfolding trigger_if
trigger_if-IsLeft m true fd event es h v =
    let (m', e, l) =
      trigger_at-IsLeft m fd event v.context v.at (ap (has event) v.waits ∙ h refl) v.valid in
    rw (v.at, trigger_if, e)
      (
        m',
        refl,
        record {
          context = l.context;
          at = l.at;
          waits = l.waits ∙ ap (without_event event) v.waits;
          valid = l.valid;
        },
      )
trigger_if-IsLeft m false fd event es h v = rw (v.at, trigger_if) (m, refl, v)

-- What is left once each event of `real` is triggered.
abbrev pub triggered : Bool → Bool → Events → Events
triggered reads writes es =
    let es' = if reads then without_event read es else es in
    if writes then without_event write es' else es'

pub trigger_both-IsLeft :
    (m : IoManager) (reads writes : Bool) (fd : ℕ) (es : Events)
    → (reads ≡ true → es.reads ≡ true)
    → (writes ≡ true → es.writes ≡ true)
    → IsLeft fd es m
    → (m' : IoManager) × (trigger_both reads writes fd m ≡ some m')
      × IsLeft fd (triggered reads writes es) m'
unfolding trigger_both
trigger_both-IsLeft m reads writes fd es hr hw v =
    let (m1, e1, v1) = trigger_if-IsLeft m reads fd read es hr v in
    let es1 = if reads then without_event read es else es in
    let (m2, e2, v2) = trigger_if-IsLeft m1 writes fd write es1 (still reads) v1 in
    rw (e1, trigger_both) (m2, e2, v2)
  where
    still : (b : Bool) → writes ≡ true → has write (if b then without_event read es else es) ≡ true
    still true h = hw h
    still false h = hw h

triggered_all : (es : Events) → is_none (triggered es.reads es.writes es) ≡ true
triggered_all es = ground arith

reported :
    (flag failed watched : Bool)
    → (flag ≡ true → watched ≡ true)
    → (flag || (failed && watched)) ≡ true
    → watched ≡ true
reported flag failed watched h e = ground (arith, h, e)

module _ (fails : EpollCtlOp → ℕ → Events → Bool) where
  -- `addEvent` of an event that is not watched yet finds its context in a valid table, and
  -- leaves the table valid.
  pub add_event-IsValid :
      (scheduler this_fiber fd : ℕ) (event : Event) (cb : Option ℕ) (m : IoManager)
      → ((c : FdContext)
          → get_elem? (table_for fd m.contexts) fd ≡ some c
          → has event c.events ≡ false)
      → IsValid m
      → (r : Bool × IoManager) × (add_event fails scheduler this_fiber fd event cb m ≡ some r)
        × IsValid r.1
  unfolding add_event
  add_event-IsValid scheduler this_fiber fd event cb m fresh v =
      let cs = table_for fd m.contexts in
      let long = length-table_for fd m.contexts v.large in
      let ready = table_for-Ready fd m.contexts v.ready in
      let (c, g) = found cs fd long.0 in
      elim (Bool-cases
        (fails (if is_none c.events then ctl_add else ctl_mod) fd (with_event event c.events))) [
          | inl f ↦
              rw (g, f, add_event)
                (
                  (false, record m { contexts = cs }),
                  refl,
                  record {
                    counted = v.counted ∙ sym (table_for-watched fd m.contexts);
                    ready = ready;
                    large = long.1;
                  },
                )
          | inr f ↦
              let c' = armed scheduler this_fiber event cb c in
              let more = watched-set cs fd c c' g in
              let w = armed-weight scheduler this_fiber event cb c (fresh c g) in
              let same = table_for-watched fd m.contexts in
              let l = length-set cs fd c' in
              rw (g, f, add_event)
                (
                  _,
                  refl,
                  record {
                    counted = omega (arith, more, w, same, v.counted);
                    ready =
                        All-set Ready cs fd c'
                          (armed-Ready scheduler this_fiber event cb c
                            (All-get Ready cs fd c g ready))
                          ready;
                    large = omega (arith, l, long.1);
                  },
                )
        ]

  pub del_event-IsValid :
      (fd : ℕ) (event : Event) (m : IoManager) → IsValid m → IsValid (del_event fails fd event m).1
  unfolding del_event
  del_event-IsValid fd event m v = elim (Option-cases (get_elem? m.contexts fd)) [
    | inl g ↦ rw (g, del_event) v
    | inr (c, g) ↦ elim (Bool-cases (has event c.events)) [
      | inr h ↦ rw (g, h, del_event) v
      | inl h ↦
          elim (Bool-cases
            (fails (op_for (without_event event c.events)) fd (without_event event c.events))) [
              | inl f ↦ rw (g, h, f, del_event) v
              | inr f ↦
                  let d = dropped m fd event empty_context c g h v in
                  rw (g, h, f, del_event) (record { counted = d.0; ready = d.1; large = d.2 })
            ]
    ]
  ]

  -- `cancelEvent` on a valid table never reads a null scheduler, and leaves the table valid.
  pub cancel_event-IsValid :
      (fd : ℕ) (event : Event) (m : IoManager)
      → IsValid m
      → (r : Bool × IoManager) × (cancel_event fails fd event m ≡ some r) × IsValid r.1
  unfolding cancel_event
  cancel_event-IsValid fd event m v = elim (Option-cases (get_elem? m.contexts fd)) [
    | inl g ↦ rw (g, cancel_event) ((false, m), refl, v)
    | inr (c, g) ↦ elim (Bool-cases (has event c.events)) [
      | inr h ↦ rw (g, h, cancel_event) ((false, m), refl, v)
      | inl h ↦
          elim (Bool-cases
            (fails (op_for (without_event event c.events)) fd (without_event event c.events))) [
              | inl f ↦ rw (g, h, f, cancel_event) ((false, m), refl, v)
              | inr f ↦
                  let (m', e, l) = trigger_at-IsLeft m fd event c g h v in
                  rw (g, h, f, e, cancel_event) ((true, m'), refl, l.valid)
            ]
    ]
  ]

  -- `cancelAll` on a valid table never reads a null scheduler and leaves the table valid. Where
  -- it returns true no event is left, as its assertion says.
  pub cancel_all-IsValid :
      (fd : ℕ) (m : IoManager)
      → IsValid m
      → (r : Bool × IoManager) × (cancel_all fails fd m ≡ some r)
        × IsValid r.1
        × (r.0 ≡ true
            → (c : FdContext) → get_elem? r.1.contexts fd ≡ some c
            → is_none c.events ≡ true)
  unfolding cancel_all
  cancel_all-IsValid fd m v = elim (Option-cases (get_elem? m.contexts fd)) [
    | inl g ↦ rw (g, cancel_all) ((false, m), refl, v, λ e. absurd (ground (arith, e)))
    | inr (c, g) ↦ elim (Bool-cases (is_none c.events)) [
      | inl n ↦ rw (g, n, cancel_all) ((false, m), refl, v, λ e. absurd (ground (arith, e)))
      | inr n ↦ elim (Bool-cases (fails ctl_del fd no_events)) [
        | inl f ↦ rw (g, n, f, cancel_all) ((false, m), refl, v, λ e. absurd (ground (arith, e)))
        | inr f ↦
            let at_start : IsLeft fd c.events m = record {
              context = c;
              at = g;
              waits = refl;
              valid = v;
            } in
            let (m', e, l) =
              trigger_both-IsLeft m c.events.reads c.events.writes fd c.events (λ q. q) (λ q. q)
                at_start in
            rw (g, n, f, e, cancel_all)
              (
                (true, m'),
                refl,
                l.valid,
                λ q d k.
                    let same : d ≡ l.context = some_inj (sym k ∙ l.at) in
                    rw (same, l.waits) (triggered_all c.events),
              )
      ]
    ]
  ]

  -- What `idle` does with a reported event never reads a null scheduler and leaves the table
  -- valid, where input and output are reported only if they are watched.
  pub handle_reported-IsValid :
      (fd : ℕ) (r : Reported) (m : IoManager)
      → fd < length m.contexts
      → ((c : FdContext)
          → get_elem? m.contexts fd ≡ some c
          → (r.input ≡ true → c.events.reads ≡ true) × (r.output ≡ true → c.events.writes ≡ true))
      → IsValid m
      → (m' : IoManager) × (handle_reported fails fd r m ≡ some m') × IsValid m'
  unfolding handle_reported
  handle_reported-IsValid fd r m h w v =
      let (c, g) = found m.contexts fd h in
      let real = real_events r c.events in
      let left = except c.events real in
      elim (Bool-cases (is_none (both c.events real))) [
        | inl n ↦ rw (g, n, handle_reported) (m, refl, v)
        | inr n ↦ elim (Bool-cases (fails (op_for left) fd left)) [
          | inl f ↦ rw (g, n, f, handle_reported) (m, refl, v)
          | inr f ↦
              let (m', e, l) =
                trigger_both-IsLeft m real.reads real.writes fd c.events
                  (reported r.input r.failed c.events.reads (w c g).0)
                  (reported r.output r.failed c.events.writes (w c g).1)
                  (record { context = c; at = g; waits = refl; valid = v }) in
              rw (g, n, f, handle_reported, e) (m', refl, l.valid)
        ]
      ]
