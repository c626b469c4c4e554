-- ===== src/IoManager/Cleared.antt =====
-- Event tables where an event that is not watched has no scheduler (src/IoManager.cc).
use muqiu.Common.{
  ℕ, zero, suc, ◌+◌, ◌*◌, ◌/◌, ◌≡◌, refl, sym, ◌∙◌, arith, Bool, false, Option, none, some,
  some_inj, Bool-cases, Option-cases, inl, inr,
}
use muqiu.Common.{List, [], ◌∷◌, length, get_elem?, All, if◌then◌else◌, ltb}
use mathlib.Core.Path.{subst}
use muqiu.IoManager.Events.{
  Event, read, write, Events, has, with_event, without_event, is_none, EpollCtlOp, ctl_add, ctl_mod,
  ctl_del, no_events, FdContext, EventContext, empty_context, new_context, get_context, set_context,
  IoManager, context_resize, table_for, armed, trigger_event, trigger_at, add_event, del_event,
  cancel_event, op_for, new_manager,
}
use muqiu.IoManager.Cancel.{
  trigger_if, trigger_both, cancel_all, Reported, real_events, both, except, handle_reported,
}
use muqiu.IoManager.Counting.{IsValid, All-set, All-get}
use muqiu.IoManager.Validity.{trigger_at-IsLeft}

abbrev pub Clear : FdContext → Type 0
Clear c = (event : Event) → has event c.events ≡ false → (get_context event c).scheduler ≡ none

-- A valid table where an event that is not watched has no scheduler.
pub record IsClear (m : IoManager) : Type 0 where
  pub valid : IsValid m
  pub clear : All Clear m.contexts

new_context-Clear : (index : ℕ) → Clear (new_context index)
new_context-Clear index read e = refl
new_context-Clear index write e = refl

resize-Clear :
    (index n : ℕ) (cs : List FdContext) → All Clear cs → All Clear (context_resize index n cs)
unfolding context_resize
resize-Clear index zero cs h = tt
resize-Clear index (suc n) [] h = (new_context-Clear index, resize-Clear (index + 1) n [] tt)
resize-Clear index (suc n) (c ∷ cs) h = (h.0, resize-Clear (index + 1) n cs h.1)

table_for-Clear : (fd : ℕ) (cs : List FdContext) → All Clear cs → All Clear (table_for fd cs)
unfolding table_for
table_for-Clear fd cs h = elim (Bool-cases (ltb fd (length cs))) [
  | inl e ↦ rw e h
  | inr e ↦ rw e (resize-Clear 0 (3 * fd / 2) cs h)
]

pub new_manager-Clear : All Clear new_manager.contexts
new_manager-Clear = resize-Clear 0 32 [] tt

dropped-Clear :
    (event : Event) (e : EventContext) (c : FdContext)
    → e.scheduler ≡ none
    → Clear c
    → Clear (set_context event e (record c { events = without_event event c.events }))
dropped-Clear read e c n k read h = n
dropped-Clear read e c n k write h = k write h
dropped-Clear write e c n k read h = k read h
dropped-Clear write e c n k write h = n

armed-Clear :
    (scheduler this_fiber : ℕ) (event : Event) (cb : Option ℕ) (c : FdContext)
    → Clear c
    → Clear (armed scheduler this_fiber event cb c)
unfolding armed
armed-Clear scheduler this_fiber read cb c k read h = absurd (ground (arith, h))
armed-Clear scheduler this_fiber read cb c k write h = k write h
armed-Clear scheduler this_fiber write cb c k read h = k read h
armed-Clear scheduler this_fiber write cb c k write h = absurd (ground (arith, h))

-- A trigger that reads no null scheduler is that of a watched event, and keeps the table so.
trigger_at-IsClear :
    (fd : ℕ) (event : Event) (c : FdContext) (m m' : IoManager)
    → get_elem? m.contexts fd ≡ some c
    → IsClear m
    → trigger_at fd event c m ≡ some m'
    → IsClear m'
unfolding trigger_at trigger_event
trigger_at-IsClear fd event c m m' g k e = elim (Option-cases (get_context event c).scheduler) [
  | inl s ↦ absurd (ground (arith, rw (s, trigger_at, trigger_event) at e))
  | inr (scheduler, s) ↦ elim (Bool-cases (has event c.events)) [
    | inr h ↦ absurd (ground (arith, sym s ∙ All-get Clear m.contexts fd c g k.clear event h))
    | inl h ↦
        let (a, f, l) = trigger_at-IsLeft m fd event c g h k.valid in
        let off = record (get_context event c) { scheduler = none } in
        let c' = set_context event off (record c { events = without_event event c.events }) in
        record {
          valid = subst IsValid (some_inj (sym f ∙ e)) l.valid;
          clear =
              subst (λ (x : IoManager). All Clear x.contexts)
                (some_inj (rw (s, trigger_at, trigger_event) at e))
                (All-set Clear m.contexts fd c'
                  (dropped-Clear event off c refl (All-get Clear m.contexts fd c g k.clear))
                  k.clear);
        }
  ]
]

trigger_if-IsClear :
    (test : Bool) (fd : ℕ) (event : Event) (m m' : IoManager)
    → IsClear m
    → trigger_if test fd event m ≡ some m'
    → IsClear m'
unfolding trigger_if
trigger_if-IsClear test fd event m m' k e = elim (Option-cases (get_elem? m.contexts fd)) [
  | inl g ↦ subst IsClear (some_inj (rw (g, trigger_if) at e)) k
  | inr (c, g) ↦ elim (Bool-cases test) [
    | inl q ↦ trigger_at-IsClear fd event c m m' g k (rw (g, q, trigger_if) at e)
    | inr q ↦ subst IsClear (some_inj (rw (g, q, trigger_if) at e)) k
  ]
]

trigger_both-IsClear :
    (reads writes : Bool) (fd : ℕ) (m m' : IoManager)
    → IsClear m
    → trigger_both reads writes fd m ≡ some m'
    → IsClear m'
unfolding trigger_both
trigger_both-IsClear reads writes fd m m' k e = elim (Option-cases (trigger_if reads fd read m)) [
  | inl g ↦ absurd (ground (arith, rw (g, trigger_both) at e))
  | inr (m1, g) ↦
      trigger_if-IsClear writes fd write m1 m' (trigger_if-IsClear reads fd read m m1 k g)
        (rw (g, trigger_both) at e)
]

module _ (fails : EpollCtlOp → ℕ → Events → Bool) where
  -- What `idle` does with a report, where it reads no null scheduler, keeps the table valid and
  -- clear, whatever is reported.
  pub handle_reported-IsClear :
      (fd : ℕ) (r : Reported) (m m' : IoManager)
      → IsClear m
      → handle_reported fails fd r m ≡ some m'
      → IsClear m'
  unfolding handle_reported
  handle_reported-IsClear fd r m m' k e = elim (Option-cases (get_elem? m.contexts fd)) [
    | inl g ↦ absurd (ground (arith, rw (g, handle_reported) at e))
    | inr (c, g) ↦
        let real = real_events r c.events in
        let left = except c.events real in
        elim (Bool-cases (is_none (both c.events real))) [
          | inl n ↦ subst IsClear (some_inj (rw (g, n, handle_reported) at e)) k
          | inr n ↦ elim (Bool-cases (fails (op_for left) fd left)) [
            | inl f ↦ subst IsClear (some_inj (rw (g, n, f, handle_reported) at e)) k
            | inr f ↦
                trigger_both-IsClear real.reads real.writes fd m m' k
                  (rw (g, n, f, handle_reported) at e)
          ]
        ]
  ]

  pub cancel_event-IsClear :
      (fd : ℕ) (event : Event) (m : IoManager) (r : Bool × IoManager)
      → IsClear m
      → cancel_event fails fd event m ≡ some r
      → IsClear r.1
  unfolding cancel_event
  cancel_event-IsClear fd event m r k e = elim (Option-cases (get_elem? m.contexts fd)) [
    | inl g ↦ same (some_inj (rw (g, cancel_event) at e))
    | inr (c, g) ↦ elim (Bool-cases (has event c.events)) [
      | inr h ↦ same (some_inj (rw (g, h, cancel_event) at e))
      | inl h ↦
          let left = without_event event c.events in
          elim (Bool-cases (fails (op_for left) fd left)) [
            | inl f ↦ same (some_inj (rw (g, h, f, cancel_event) at e))
            | inr f ↦ elim (Option-cases (trigger_at fd event c m)) [
              | inl t ↦ absurd (ground (arith, rw (g, h, f, t, cancel_event) at e))
              | inr (a, t) ↦
                  subst (λ (x : Bool × IoManager). IsClear x.1)
                    (some_inj (rw (g, h, f, t, cancel_event) at e))
                    (trigger_at-IsClear fd event c m a g k t)
            ]
          ]
    ]
  ]
    where
      same : (false, m) ≡ r → IsClear r.1
      same q = subst (λ (x : Bool × IoManager). IsClear x.1) q k

  pub cancel_all-IsClear :
      (fd : ℕ) (m : IoManager) (r : Bool × IoManager)
      → IsClear m
      → cancel_all fails fd m ≡ some r
      → IsClear r.1
  unfolding cancel_all
  cancel_all-IsClear fd m r k e = elim (Option-cases (get_elem? m.contexts fd)) [
    | inl g ↦ same (some_inj (rw (g, cancel_all) at e))
    | inr (c, g) ↦ elim (Bool-cases (is_none c.events)) [
      | inl n ↦ same (some_inj (rw (g, n, cancel_all) at e))
      | inr n ↦ elim (Bool-cases (fails ctl_del fd no_events)) [
        | inl f ↦ same (some_inj (rw (g, n, f, cancel_all) at e))
        | inr f ↦ elim (Option-cases (trigger_both c.events.reads c.events.writes fd m)) [
          | inl t ↦ absurd (ground (arith, rw (g, n, f, t, cancel_all) at e))
          | inr (a, t) ↦
              subst (λ (x : Bool × IoManager). IsClear x.1)
                (some_inj (rw (g, n, f, t, cancel_all) at e))
                (trigger_both-IsClear c.events.reads c.events.writes fd m a k t)
        ]
      ]
    ]
  ]
    where
      same : (false, m) ≡ r → IsClear r.1
      same q = subst (λ (x : Bool × IoManager). IsClear x.1) q k

  pub del_event-Clear :
      (fd : ℕ) (event : Event) (m : IoManager)
      → All Clear m.contexts
      → All Clear (del_event fails fd event m).1.contexts
  unfolding del_event
  del_event-Clear fd event m k = elim (Option-cases (get_elem? m.contexts fd)) [
    | inl g ↦ rw (g, del_event) k
    | inr (c, g) ↦ elim (Bool-cases (has event c.events)) [
      | inr h ↦ rw (g, h, del_event) k
      | inl h ↦
          let left = without_event event c.events in
          elim (Bool-cases (fails (op_for left) fd left)) [
            | inl f ↦ rw (g, h, f, del_event) k
            | inr f ↦
                rw (g, h, f, del_event)
                  (All-set Clear m.contexts fd _
                    (dropped-Clear event empty_context c refl (All-get Clear m.contexts fd c g k))
                    k)
          ]
    ]
  ]

  pub add_event-Clear :
      (scheduler this_fiber fd : ℕ) (event : Event) (cb : Option ℕ) (m : IoManager)
      (r : Bool × IoManager)
      → All Clear m.contexts
      → add_event fails scheduler this_fiber fd event cb m ≡ some r
      → All Clear r.1.contexts
  unfolding add_event
  add_event-Clear scheduler this_fiber fd event cb m r k e =
      let cs = table_for fd m.contexts in
      let k' = table_for-Clear fd m.contexts k in
      elim (Option-cases (get_elem? cs fd)) [
        | inl g ↦ absurd (ground (arith, rw (g, add_event) at e))
        | inr (c, g) ↦
            elim (Bool-cases (
              fails (if is_none c.events then ctl_add else ctl_mod) fd
                (with_event event c.events))) [
                  | inl f ↦
                      subst (λ (x : Bool × IoManager). All Clear x.1.contexts)
                        (some_inj (rw (g, f, add_event) at e)) k'
                  | inr f ↦
                      subst (λ (x : Bool × IoManager). All Clear x.1.contexts)
                        (some_inj (rw (g, f, add_event) at e))
                        (All-set Clear cs fd _
                          (armed-Clear scheduler this_fiber event cb c (All-get Clear cs fd c g k'))
                          k')
                ]
      ]
