-- ===== src/Scheduler/Picking.antt =====
-- Which task a thread takes from the queue (src/Scheduler.cc).
use muqiu.Common.{
  ℕ, ◌+◌, ◌≡◌, refl, ap, ◌∙◌, Bool, true, false, not, Option, none, some, Bool-cases, inl, inr, ◌⊎◌,
}
use muqiu.Common.{List, [], ◌∷◌, ◌++◌, All, if◌then◌else◌, ◌==◌}
use muqiu.Scheduler.Queue.{FiberState, is_runing, FiberAndThread, Scheduler, is_empty}

-- `it->thread_id != -1 && it->thread_id != GetThreadId()`.
abbrev pub is_elsewhere : ℕ → FiberAndThread → Bool
is_elsewhere thread t = elim t.thread_id [ none ↦ false | some id ↦ not (id == thread) ]

-- `it->fiber && it->fiber->getState() == RUNING`.
abbrev pub is_running : (ℕ → FiberState) → FiberAndThread → Bool
is_running states t = elim t.fiber [ none ↦ false | some f ↦ is_runing (states f) ]

-- What the loop of `run` over the queue finds: the task, what it leaves, and `tickle_me`.
pub record Picked : Type 0 where
  pub task : Option FiberAndThread
  pub left : List FiberAndThread
  pub tickle_me : Bool

module _ (states : ℕ → FiberState) (thread : ℕ) where
  unfoldable pub pick : List FiberAndThread → Picked
  pick [] = record { task = none; left = []; tickle_me = false }
  pick (t ∷ ts) =
      let rest = pick ts in
      if is_elsewhere thread t
      then record { task = rest.task; left = t ∷ rest.left; tickle_me = true }
      else if is_running states t
      then record { task = rest.task; left = t ∷ rest.left; tickle_me = rest.tickle_me }
      else record { task = some t; left = ts; tickle_me = not (is_empty ts) }

  -- The block of `run` under the lock.
  unfoldable pub take : Scheduler → Option FiberAndThread × Bool × Scheduler
  take s =
      let p = pick s.fibers in
      let active : ℕ = elim p.task [ none ↦ s.active | some t ↦ s.active + 1 ] in
      (p.task, p.tickle_me, record s { fibers = p.left; active = active })

  -- A task that the thread may not run now: it is for another thread, or its fiber runs.
  abbrev pub IsBlocked : FiberAndThread → Type 0
  IsBlocked t = (is_elsewhere thread t ≡ true) ⊎ (is_running states t ≡ true)

  abbrev pub IsFree : FiberAndThread → Type 0
  IsFree t = (is_elsewhere thread t ≡ false) × (is_running states t ≡ false)

  -- The task is the first that is free, and all others keep their places.
  pub data PickOf (ts : List FiberAndThread) (p : Picked) : Type 0 where
    nothing : p.task ≡ none → p.left ≡ ts → All IsBlocked ts → PickOf ts p
    found :
        (front back : List FiberAndThread) (t : FiberAndThread)
        → ts ≡ front ++ t ∷ back
        → All IsBlocked front
        → IsFree t
        → p.task ≡ some t
        → p.left ≡ front ++ back
        → PickOf ts p

  skipped :
      (t : FiberAndThread) (ts : List FiberAndThread) (p q : Picked)
      → IsBlocked t
      → q.task ≡ p.task
      → q.left ≡ t ∷ p.left
      → PickOf ts p
      → PickOf (t ∷ ts) q
  skipped t ts p q b e l (nothing n k h) = nothing (e ∙ n) (l ∙ ap (λ xs. t ∷ xs) k) (b, h)
  skipped t ts p q b e l (found front back u s h r n k) =
      found (t ∷ front) back u (ap (λ xs. t ∷ xs) s) (b, h) r (e ∙ n) (l ∙ ap (λ xs. t ∷ xs) k)

  -- A thread takes the first task of the queue that is neither for another thread nor a fiber that
  -- runs already, and leaves the others in their order; it takes none only if there is no such task.
  pub pick-PickOf : (ts : List FiberAndThread) → PickOf ts (pick ts)
  unfolding pick
  pick-PickOf [] = nothing refl refl tt
  pick-PickOf (t ∷ ts) = elim (Bool-cases (is_elsewhere thread t)) [
    | inl e ↦ rw e (skipped t ts (pick ts) _ (inl e) refl refl (pick-PickOf ts))
    | inr e ↦ elim (Bool-cases (is_running states t)) [
      | inl r ↦ rw (e, r) (skipped t ts (pick ts) _ (inr r) refl refl (pick-PickOf ts))
      | inr r ↦ rw (e, r) (found [] ts t refl tt (e, r) refl refl)
    ]
  ]
