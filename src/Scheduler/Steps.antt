-- ===== src/Scheduler/Steps.antt =====
-- The steps of a scheduler with its threads, and the test for their end (src/Scheduler.cc).
use muqiu.Common.{ℕ, ◌≡◌, refl, sym, ◌∙◌, arith, true, some}
use muqiu.Common.{List, [], ◌∷◌, ◌++◌, get_elem?, length, All, total, if◌then◌else◌}
use muqiu.Scheduler.Queue.{
  FiberState, FiberAndThread, Scheduler, new_scheduler, schedule_no_lock, schedule_all, start, stop,
}
use muqiu.Scheduler.Running.{
  polling, took, in_fiber, in_cb, idling, done, Phase, behind_fiber, behind_cb, Thread, System,
  poll, begin, end_fiber, end_cb, settle_fiber, settle_cb, end_idle,
}
use muqiu.Scheduler.Counts.{
  busy, lazy, IsCounted, schedule_no_lock-counts, poll-IsCounted, begin-IsCounted,
  end_fiber-IsCounted, end_cb-IsCounted, settle_fiber-IsCounted, settle_cb-IsCounted,
  end_idle-IsCounted,
}

-- The steps of the threads, and the calls that any code may make.
pub data Step (w : System) : System → Type 0 where
  polled :
      (i : ℕ) (t : Thread)
      → get_elem? w.threads i ≡ some t
      → t.phase ≡ polling
      → Step w (poll i t w)
  began :
      (fresh i : ℕ) (t : Thread) (ft : FiberAndThread)
      → get_elem? w.threads i ≡ some t
      → t.phase ≡ took ft
      → Step w (begin fresh i t ft w)
  left_fiber :
      (after : FiberState) (f i : ℕ) (t : Thread)
      → get_elem? w.threads i ≡ some t
      → t.phase ≡ in_fiber f
      → Step w (end_fiber after f i t w)
  left_cb :
      (after : FiberState) (f i : ℕ) (t : Thread)
      → get_elem? w.threads i ≡ some t
      → t.phase ≡ in_cb f
      → Step w (end_cb after f i t w)
  settled_fiber :
      (f i : ℕ) (t : Thread)
      → get_elem? w.threads i ≡ some t
      → t.phase ≡ behind_fiber f
      → Step w (settle_fiber f i t w)
  settled_cb :
      (f i : ℕ) (t : Thread)
      → get_elem? w.threads i ≡ some t
      → t.phase ≡ behind_cb f
      → Step w (settle_cb f i t w)
  left_idle :
      (after : FiberState) (i : ℕ) (t : Thread)
      → get_elem? w.threads i ≡ some t
      → t.phase ≡ idling
      → Step w (end_idle after i t w)
  scheduled :
      (fts : List FiberAndThread)
      → Step w (record w { scheduler = (schedule_all fts w.scheduler).1 })
  started :
      (ts : List Thread)
      → All (λ t. t.phase ≡ polling) ts
      → length ts ≡ (if w.scheduler.stopping then w.scheduler.thread_count else 0)
      → Step w (record w { scheduler = start w.scheduler; threads = w.threads ++ ts })
  stopped : Step w (record w { scheduler = (stop w.scheduler).1 })

pub data Reach (w : System) : System → Type 0 where
  here : Reach w w
  next : {w' w'' : System} → Reach w w' → Step w' w'' → Reach w w''

schedule_all-counts :
    (fts : List FiberAndThread) (s : Scheduler)
    → ((schedule_all fts s).1.active ≡ s.active) × ((schedule_all fts s).1.idle ≡ s.idle)
unfolding schedule_all
schedule_all-counts [] s = (refl, refl)
schedule_all-counts (ft ∷ fts) s =
    let first = schedule_no_lock-counts ft s in
    let later = schedule_all-counts fts (schedule_no_lock ft s).1 in
    (later.0 ∙ first.0, later.1 ∙ first.1)

new_threads :
    (ts us : List Thread)
    → All (λ t. t.phase ≡ polling) us
    → (total busy (ts ++ us) ≡ total busy ts) × (total lazy (ts ++ us) ≡ total lazy ts)
new_threads [] [] h = (refl, refl)
new_threads [] (u ∷ us) h =
    let (b, l) = new_threads [] us h.1 in
    let p = h.0 in (rw p (omega (arith, b)), rw p (omega (arith, l)))
new_threads (t ∷ ts) us h = let (b, l) = new_threads ts us h in (omega (arith, b), omega (arith, l))

start-counts : (s : Scheduler) → ((start s).active ≡ s.active) × ((start s).idle ≡ s.idle)
unfolding start
start-counts s = ground arith

Step-IsCounted : {w w' : System} → Step w w' → IsCounted w → IsCounted w'
Step-IsCounted {w} (polled i t e p) c = poll-IsCounted i t w e p c
Step-IsCounted {w} (began fresh i t ft e p) c = begin-IsCounted fresh i t ft w e p c
Step-IsCounted {w} (left_fiber after f i t e p) c = end_fiber-IsCounted after f i t w e p c
Step-IsCounted {w} (left_cb after f i t e p) c = end_cb-IsCounted after f i t w e p c
Step-IsCounted {w} (settled_fiber f i t e p) c = settle_fiber-IsCounted f i t w e p c
Step-IsCounted {w} (settled_cb f i t e p) c = settle_cb-IsCounted f i t w e p c
Step-IsCounted {w} (left_idle after i t e p) c = end_idle-IsCounted after i t w e p c
Step-IsCounted {w} (scheduled fts) c =
    let (a, l) = schedule_all-counts fts w.scheduler in
    record { active = a ∙ c.active; idle = l ∙ c.idle }
Step-IsCounted {w} (started ts h n) c =
    let (a, l) = start-counts w.scheduler in
    let (b, z) = new_threads w.threads ts h in
    record { active = a ∙ c.active ∙ sym b; idle = l ∙ c.idle ∙ sym z }
Step-IsCounted {w} stopped c = unfold stop in record { active = c.active; idle = c.idle }

-- A scheduler before `start`: no thread runs yet.
abbrev pub new_system : ℕ → (ℕ → FiberState) → System
new_system thread_count states = record {
  scheduler = new_scheduler thread_count;
  states = states;
  threads = [];
}

-- After any sequence of steps of the threads and of calls of `schedule`, `start` and `stop`, the
-- count of active threads is the number of threads that have a task or are in its fiber, but not
-- of those that are behind it already and have not yet put it back, and the count of idle threads
-- is the number of those in their idle fiber.
pub Reach-IsCounted :
    (thread_count : ℕ) (states : ℕ → FiberState) {w : System}
    → Reach (new_system thread_count states) w
    → IsCounted w
Reach-IsCounted thread_count states here = record { active = refl; idle = refl }
Reach-IsCounted thread_count states (next r st) =
    Step-IsCounted st (Reach-IsCounted thread_count states r)

-- A thread that is not counted as active: at the lock, in its idle fiber, behind the loop, or behind
-- a fiber that it may still have to put back into the queue.
pub data IsOut : Phase → Type 0 where
  at_lock : IsOut polling
  in_idle : IsOut idling
  ended : IsOut done
  behind_task : (f : ℕ) → IsOut (behind_fiber f)
  behind_function : (f : ℕ) → IsOut (behind_cb f)

-- What the test for the end promises: `stop` was called, no task waits, and no thread has one that
-- it has not run yet or is in a fiber of the queue. A thread may still hold a fiber that is ready
-- and that it has not yet put back.
pub record HasEnded (w : System) : Type 0 where
  pub asked : (w.scheduler.auto_stop ≡ true) × (w.scheduler.stopping ≡ true)
  pub no_task : w.scheduler.fibers ≡ []
  pub no_thread : All (λ t. IsOut t.phase) w.threads
