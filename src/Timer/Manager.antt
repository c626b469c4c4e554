-- ===== src/Timer/Manager.antt =====
-- `Timer` and `TimerManager` (src/timer.cc, include/timer.h).
--
-- A `Timer` object is a record; its address, by which the set tells two timers with one deadline
-- apart, is a number. A method of an object takes the fields that the object has at the call, and
-- returns them as it leaves them. `m_timers`, a `std::set` under `Comparator`, is the list of its
-- elements in order. Locks are left out: every operation holds `m_mutex` where it reads or writes
-- the set. What `GetCurrentMS` returns is an argument, `now`. A `uint64_t` wraps at 2 ^ 64.
use muqiu.Common.{ℕ, ◌+◌, ◌-◌, ◌*◌, ◌%◌, ◌^◌, Bool, true, false, not, ◌&&◌, Option, none, some}
use muqiu.Common.{List, [], ◌∷◌, if◌then◌else◌, ltb, ◌==◌}

-- A `std::function` by its name; `guarded` is what `std::bind(&onTimer, weak_cond, cb)` makes.
pub data Callback : Type 0 where
  plain : ℕ → Callback
  guarded : ℕ → ℕ → Callback

-- What running a callback calls: a guarded one calls `cb` only while its condition is alive.
unfoldable pub run_callback : (ℕ → Bool) → Callback → Option ℕ
run_callback alive (plain cb) = some cb
run_callback alive (guarded weak_cond cb) = if alive weak_cond then some cb else none

pub record Timer : Type 0 where
  pub address : ℕ
  pub recurring : Bool
  pub ms : ℕ
  pub next : ℕ
  pub cb : Option Callback

pub record TimerManager : Type 0 where
  pub timers : List Timer
  pub tickled : Bool
  pub previous_time : ℕ

abbrev pub u64 : ℕ → ℕ
u64 n = n % 2 ^ 64

abbrev pub sub_u64 : ℕ → ℕ → ℕ
sub_u64 a b = (a + 2 ^ 64 - b) % 2 ^ 64

-- `~0ull`.
abbrev pub no_timer : ℕ
no_timer = 2 ^ 64 - 1

unfoldable pub new_timer : ℕ → ℕ → ℕ → Option Callback → Bool → Timer
new_timer address now ms cb recurring = record {
  address = address;
  recurring = recurring;
  ms = ms;
  next = u64 (now + ms);
  cb = cb;
}

-- `Timer(uint64_t next)`, which only serves as a bound.
unfoldable pub deadline_timer : ℕ → ℕ → Timer
deadline_timer address next = record {
  address = address;
  recurring = false;
  ms = 0;
  next = next;
  cb = none;
}

-- `Comparator` on two pointers that are not null.
abbrev pub earlier : Timer → Timer → Bool
earlier lhs rhs =
    if ltb lhs.next rhs.next
    then true
    else if ltb rhs.next lhs.next
    then false
    else ltb lhs.address rhs.address

-- `Comparator`: a null pointer comes first.
unfoldable pub comparator : Option Timer → Option Timer → Bool
comparator none none = false
comparator none (some rhs) = true
comparator (some lhs) none = false
comparator (some lhs) (some rhs) = earlier lhs rhs

-- `find`, `insert` and `erase` of the set. Two elements are the same if neither comes first.
abbrev pub same_key : Timer → Timer → Bool
same_key a b = not (earlier a b) && not (earlier b a)

unfoldable pub contains : Timer → List Timer → Bool
contains t [] = false
contains t (x ∷ xs) = if same_key t x then true else contains t xs

unfoldable pub insert : Timer → List Timer → List Timer
insert t [] = t ∷ []
insert t (x ∷ xs) =
    if earlier t x then t ∷ x ∷ xs else if earlier x t then x ∷ insert t xs else x ∷ xs

unfoldable pub erase : Timer → List Timer → List Timer
erase t [] = []
erase t (x ∷ xs) = if same_key t x then xs else x ∷ erase t xs

-- Whether the iterator that `insert` returns is `begin()`.
unfoldable pub is_front : Timer → List Timer → Bool
is_front t [] = true
is_front t (x ∷ xs) = not (earlier x t)

unfoldable pub new_manager : ℕ → TimerManager
new_manager now = record { timers = []; tickled = false; previous_time = now }

-- `addTimer(val, lock)`: the result says whether `onTimerInsertAtFront` is called.
unfoldable pub add_timer : Timer → TimerManager → TimerManager × Bool
add_timer val m =
    let at_front = is_front val m.timers && not m.tickled in
    (
      record m { timers = insert val m.timers; tickled = if at_front then true else m.tickled },
      at_front,
    )

-- `addTimer(ms, cb, recurring)` with the address of the new object.
unfoldable pub add_new_timer :
    ℕ → ℕ → ℕ → Option Callback → Bool → TimerManager → Timer × TimerManager × Bool
add_new_timer address now ms cb recurring m =
    let timer = new_timer address now ms cb recurring in
    let (m', at_front) = add_timer timer m in (timer, m', at_front)

unfoldable pub add_condition_timer :
    ℕ → ℕ → ℕ → ℕ → ℕ → Bool → TimerManager → Timer × TimerManager × Bool
add_condition_timer address now ms cb weak_cond recurring m =
    add_new_timer address now ms (some (guarded weak_cond cb)) recurring m

-- `if (m_cb)`.
unfoldable pub is_set : Timer → Bool
is_set t = elim t.cb [ none ↦ false | some cb ↦ true ]

-- `cancel`; `none` is `erase(end())`, which is undefined.
unfoldable pub cancel : Timer → TimerManager → Option (Bool × Timer × TimerManager)
cancel t m =
    if not (is_set t)
    then some (false, t, m)
    else if contains t m.timers
    then some (true, record t { cb = none }, record m { timers = erase t m.timers })
    else none

unfoldable pub refresh : ℕ → Timer → TimerManager → Bool × Timer × TimerManager
refresh now t m =
    if not (is_set t)
    then (false, t, m)
    else if not (contains t m.timers)
    then (false, t, m)
    else (let t' = record t { next = u64 (now + t.ms) } in
        (true, t', record m { timers = insert t' (erase t m.timers) }))

-- `reset`; the last component says whether `onTimerInsertAtFront` is called.
unfoldable pub reset : ℕ → Bool → ℕ → Timer → TimerManager → Bool × Timer × TimerManager × Bool
reset ms from_now now t m =
    if ms == t.ms && not from_now
    then (true, t, m, false)
    else if not (is_set t)
    then (false, t, m, false)
    else if not (contains t m.timers)
    then (false, t, m, false)
    else (let start = if from_now then now else sub_u64 t.next t.ms in
        let t' = record t { ms = ms; next = u64 (start + ms) } in
        let (m', at_front) = add_timer t' (record m { timers = erase t m.timers }) in
        (true, t', m', at_front))

unfoldable pub get_next_timer : ℕ → TimerManager → ℕ × TimerManager
get_next_timer now m = (
  elim m.timers [ [] ↦ no_timer | t ∷ ts ↦ if now == t.next then 0 else sub_u64 t.next now ],
  record m { tickled = false },
)

unfoldable pub has_timer : TimerManager → Bool
has_timer m = elim m.timers [ [] ↦ false | t ∷ ts ↦ true ]

-- `detectColckRollover`.
unfoldable pub detect_rollover : ℕ → TimerManager → Bool × TimerManager
detect_rollover now m = (
  ltb now m.previous_time && ltb now (sub_u64 m.previous_time (60 * 60 * 1000)),
  record m { previous_time = now },
)

-- From `it` on, past the timers with the deadline `now`.
unfoldable pub skip_due : ℕ → List Timer → List Timer × List Timer
skip_due now [] = ([], [])
skip_due now (t ∷ ts) =
    let (due, later) = skip_due now ts in if t.next == now then (t ∷ due, later) else ([], t ∷ ts)

-- The timers before and from `it` on, where `it` starts at `lower_bound(now_timer)`.
unfoldable pub split_at : ℕ → Timer → List Timer → List Timer × List Timer
split_at now now_timer [] = ([], [])
split_at now now_timer (t ∷ ts) =
    let (due, later) = split_at now now_timer ts in
    if earlier t now_timer then (t ∷ due, later) else skip_due now (t ∷ ts)

-- What the loop over `expired` does to a timer: one that recurs gets its next deadline, another
-- loses its callback.
abbrev pub rearm : ℕ → Timer → Timer
rearm now t = if t.recurring then record t { next = u64 (now + t.ms) } else record t { cb = none }

-- The loop over `expired`: the callbacks, and the set with the recurring timers back in it.
unfoldable pub fire : ℕ → List Timer → List Timer → List (Option Callback) × List Timer
fire now [] timers = ([], timers)
fire now (t ∷ ts) timers =
    let timers' = if t.recurring then insert (rearm now t) timers else timers in
    let (cbs, rest) = fire now ts timers' in (t.cb ∷ cbs, rest)

-- The expired timers fire, and the others are kept.
unfoldable pub expire :
    List Timer × List Timer → ℕ → TimerManager → List (Option Callback) × TimerManager
expire (expired, kept) now m =
    let (cbs, timers) = fire now expired kept in (cbs, record m { timers = timers })

-- `listExpiredCb` on the elements of the set, with the address of `now_timer`. After a rollover of
-- the clock all timers count as expired.
unfoldable pub list_expired :
    ℕ → ℕ → TimerManager → List Timer → List (Option Callback) × TimerManager
unfolding expire
list_expired address now m [] = ([], m)
list_expired address now m (t ∷ ts) =
    let (rollover, m') = detect_rollover now m in
    if not rollover && ltb now t.next
    then ([], m')
    else if rollover
    then expire (t ∷ ts, []) now m'
    else expire (split_at now (deadline_timer address now) (t ∷ ts)) now m'

-- `listExpiredCb`: the callbacks and the new state.
unfoldable pub list_expired_cb : ℕ → ℕ → TimerManager → List (Option Callback) × TimerManager
list_expired_cb address now m = list_expired address now m m.timers
