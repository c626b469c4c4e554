-- ===== src/IoManager/Counting.antt =====
-- `m_pendingEventCount` counts the events that are watched, and each of them has a scheduler
-- (src/IoManager.cc).
use muqiu.Common.{
  ℕ, zero, suc, ◌+◌, ◌*◌, ◌/◌, ◌≤◌, ◌<◌, ◌≡◌, ◌≢◌, refl, sym, ap, arith, Bool, true, false, Option,
  none, some, some_inj, Bool-cases, inl, inr,
}
use muqiu.Common.{List, [], ◌∷◌, length, get_elem?, set, All, if◌then◌else◌, ltb}
use muqiu.IoManager.Events.{
  Event, read, write, has, without_event, FdContext, EventContext, new_context, get_context,
  set_context, IoManager, context_resize, table_for, armed, new_manager,
}

abbrev pub bit : Bool → ℕ
bit b = if b then 1 else 0

-- The number of events that a context waits for, and all contexts.
abbrev pub weight : FdContext → ℕ
weight c = bit c.events.reads + bit c.events.writes

abbrev pub watched : List FdContext → ℕ
watched [] = 0
watched (c ∷ cs) = weight c + watched cs

-- An event that is waited for has a scheduler.
abbrev pub Ready : FdContext → Type 0
Ready c = (event : Event) → has event c.events ≡ true → (get_context event c).scheduler ≢ none

pub record IsValid (m : IoManager) : Type 0 where
  pub counted : m.pending ≡ watched m.contexts
  pub ready : All Ready m.contexts
  pub large : 2 ≤ length m.contexts

pub watched-set :
    (cs : List FdContext) (i : ℕ) (c c' : FdContext)
    → get_elem? cs i ≡ some c
    → watched (set cs i c') + weight c ≡ watched cs + weight c'
watched-set [] i c c' e = absurd (ground (arith, e))
watched-set (x ∷ cs) zero c c' e = let same : x ≡ c = some_inj e in rw same (omega arith)
watched-set (x ∷ cs) (suc i) c c' e = omega (arith, watched-set cs i c c' e)

pub get_elem?-set :
    (cs : List FdContext) (i : ℕ) (c c' : FdContext)
    → get_elem? cs i ≡ some c
    → get_elem? (set cs i c') i ≡ some c'
get_elem?-set [] i c c' e = absurd (ground (arith, e))
get_elem?-set (x ∷ cs) zero c c' e = refl
get_elem?-set (x ∷ cs) (suc i) c c' e = get_elem?-set cs i c c' e

module _ (P : FdContext → Type 0) where
  pub All-set : (cs : List FdContext) (i : ℕ) (c : FdContext) → P c → All P cs → All P (set cs i c)
  All-set [] i c p h = tt
  All-set (x ∷ cs) zero c p h = (p, h.1)
  All-set (x ∷ cs) (suc i) c p h = (h.0, All-set cs i c p h.1)

  pub All-get :
      (cs : List FdContext) (i : ℕ) (c : FdContext) → get_elem? cs i ≡ some c → All P cs → P c
  All-get [] i c e h = absurd (ground (arith, e))
  All-get (x ∷ cs) zero c e h = let same : c ≡ x = sym (some_inj e) in rw same h.0
  All-get (x ∷ cs) (suc i) c e h = All-get cs i c e h.1

pub new_context-Ready : (index : ℕ) → Ready (new_context index)
new_context-Ready index read e = absurd (ground (arith, e))
new_context-Ready index write e = absurd (ground (arith, e))

resize-watched :
    (index n : ℕ) (cs : List FdContext)
    → length cs ≤ n
    → watched (context_resize index n cs) ≡ watched cs
unfolding context_resize
resize-watched index zero [] h = refl
resize-watched index zero (c ∷ cs) h = absurd (omega arith)
resize-watched index (suc n) [] h = omega (arith, resize-watched (index + 1) n [] (omega arith))
resize-watched index (suc n) (c ∷ cs) h =
    ap (λ k. weight c + k) (resize-watched (index + 1) n cs (omega arith))

length-resize : (index n : ℕ) (cs : List FdContext) → length (context_resize index n cs) ≡ n
unfolding context_resize
length-resize index zero cs = refl
length-resize index (suc n) [] = ap suc (length-resize (index + 1) n [])
length-resize index (suc n) (c ∷ cs) = ap suc (length-resize (index + 1) n cs)

pub found :
    (cs : List FdContext) (i : ℕ) → i < length cs → (c : FdContext) × (get_elem? cs i ≡ some c)
found [] i h = absurd (omega arith)
found (c ∷ cs) zero h = (c, refl)
found (c ∷ cs) (suc i) h = found cs i (omega arith)

-- The table that `addEvent` looks in is long enough, and no shorter than before.
pub length-table_for :
    (fd : ℕ) (cs : List FdContext)
    → 2 ≤ length cs
    → (fd < length (table_for fd cs)) × (2 ≤ length (table_for fd cs))
unfolding table_for
length-table_for fd cs h = elim (Bool-cases (ltb fd (length cs))) [
  | inl e ↦ let l : fd < length cs = ground (arith, e) in rw e (l, h)
  | inr e ↦
      let l : length cs ≤ fd = ground (arith, e) in
      let k = length-resize 0 (3 * fd / 2) cs in rw e (omega (arith, k), omega (arith, k))
]

resize-Ready :
    (index n : ℕ) (cs : List FdContext) → All Ready cs → All Ready (context_resize index n cs)
unfolding context_resize
resize-Ready index zero cs h = tt
resize-Ready index (suc n) [] h = (new_context-Ready index, resize-Ready (index + 1) n [] tt)
resize-Ready index (suc n) (c ∷ cs) h = (h.0, resize-Ready (index + 1) n cs h.1)

pub table_for-watched : (fd : ℕ) (cs : List FdContext) → watched (table_for fd cs) ≡ watched cs
unfolding table_for
table_for-watched fd cs = elim (Bool-cases (ltb fd (length cs))) [
  | inl e ↦ rw e refl
  | inr e ↦ rw e (resize-watched 0 (3 * fd / 2) cs (ground (arith, e)))
]

pub table_for-Ready : (fd : ℕ) (cs : List FdContext) → All Ready cs → All Ready (table_for fd cs)
unfolding table_for
table_for-Ready fd cs h = elim (Bool-cases (ltb fd (length cs))) [
  | inl e ↦ rw e h
  | inr e ↦ rw e (resize-Ready 0 (3 * fd / 2) cs h)
]

pub new_manager-IsValid : IsValid new_manager
new_manager-IsValid = record {
  counted = sym (resize-watched 0 32 [] (omega arith));
  ready = resize-Ready 0 32 [] tt;
  large = let e = length-resize 0 32 [] in omega (arith, e);
}

-- A context that drops an event, whatever the context of that event becomes.
pub dropped-weight :
    (event : Event) (e : EventContext) (c : FdContext)
    → has event c.events ≡ true
    → weight (set_context event e (record c { events = without_event event c.events })) + 1
      ≡ weight c
dropped-weight read e c h = rw h (omega arith)
dropped-weight write e c h = rw h (omega arith)

pub dropped-Ready :
    (event : Event) (e : EventContext) (c : FdContext)
    → Ready c
    → Ready (set_context event e (record c { events = without_event event c.events }))
dropped-Ready read e c r read h = absurd (ground (arith, h))
dropped-Ready read e c r write h = r write h
dropped-Ready write e c r read h = r read h
dropped-Ready write e c r write h = absurd (ground (arith, h))

pub armed-weight :
    (scheduler this_fiber : ℕ) (event : Event) (cb : Option ℕ) (c : FdContext)
    → has event c.events ≡ false
    → weight (armed scheduler this_fiber event cb c) ≡ weight c + 1
unfolding armed
armed-weight scheduler this_fiber read cb c h = rw h (omega arith)
armed-weight scheduler this_fiber write cb c h = rw h (omega arith)

pub armed-Ready :
    (scheduler this_fiber : ℕ) (event : Event) (cb : Option ℕ) (c : FdContext)
    → Ready c
    → Ready (armed scheduler this_fiber event cb c)
unfolding armed
armed-Ready scheduler this_fiber read none c r read h = λ e. ground (arith, e)
armed-Ready scheduler this_fiber read (some f) c r read h = λ e. ground (arith, e)
armed-Ready scheduler this_fiber read cb c r write h = r write h
armed-Ready scheduler this_fiber write cb c r read h = r read h
armed-Ready scheduler this_fiber write none c r write h = λ e. ground (arith, e)
armed-Ready scheduler this_fiber write (some f) c r write h = λ e. ground (arith, e)
