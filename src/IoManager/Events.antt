-- ===== src/IoManager/Events.antt =====
-- The event table of `IOManager` (src/IoManager.cc, include/IoManager.h).
--
-- `epoll_ctl` is a parameter: it says whether the call fails. A descriptor is not negative. A
-- function, a fiber and a scheduler are known by a number. `none` as the result of an operation
-- stands for undefined behaviour: an index past the end of `m_fdContexts`, or a null scheduler.
-- Log lines and locks are left out.
use muqiu.Common.{
  ℕ, zero, suc, ◌+◌, ◌-◌, ◌*◌, ◌/◌, Bool, true, false, not, ◌||◌, Option, none, some,
}
use muqiu.Common.{List, [], ◌∷◌, ◌++◌, length, get_elem?, set, if◌then◌else◌, ltb}

-- `Event` as one flag; a set of flags is an `Events`.
pub data Event : Type 0 where
  read write : Event

pub record Events : Type 0 where
  pub reads : Bool
  pub writes : Bool

abbrev pub no_events : Events
no_events = record { reads = false; writes = false }

-- `events & event`, `events | event` and `events & ~event`.
abbrev pub has : Event → Events → Bool
has read es = es.reads
has write es = es.writes

abbrev pub with_event : Event → Events → Events
with_event read es = record es { reads = true }
with_event write es = record es { writes = true }

abbrev pub without_event : Event → Events → Events
without_event read es = record es { reads = false }
without_event write es = record es { writes = false }

abbrev pub is_none : Events → Bool
is_none es = not (es.reads || es.writes)

pub data EpollCtlOp : Type 0 where
  ctl_add ctl_mod ctl_del : EpollCtlOp

pub data Task : Type 0 where
  run_fiber : ℕ → Task
  run_cb : ℕ → Task

pub record EventContext : Type 0 where
  pub scheduler : Option ℕ
  pub fiber : Option ℕ
  pub cb : Option ℕ

abbrev pub empty_context : EventContext
empty_context = record { scheduler = none; fiber = none; cb = none }

pub record FdContext : Type 0 where
  pub read_context : EventContext
  pub write_context : EventContext
  pub fd : ℕ
  pub events : Events

abbrev pub new_context : ℕ → FdContext
new_context fd = record {
  read_context = empty_context;
  write_context = empty_context;
  fd = fd;
  events = no_events;
}

abbrev pub get_context : Event → FdContext → EventContext
get_context read c = c.read_context
get_context write c = c.write_context

abbrev pub set_context : Event → EventContext → FdContext → FdContext
set_context read e c = record c { read_context = e }
set_context write e c = record c { write_context = e }

-- `scheduled` lists the tasks handed to schedulers, in order, each with its scheduler.
pub record IoManager : Type 0 where
  pub contexts : List FdContext
  pub pending : ℕ
  pub scheduled : List (ℕ × Task)

-- `contextResize`: `index` is the first index of `cs`.
unfoldable pub context_resize : ℕ → ℕ → List FdContext → List FdContext
context_resize index zero cs = []
context_resize index (suc n) [] = new_context index ∷ context_resize (index + 1) n []
context_resize index (suc n) (c ∷ cs) = c ∷ context_resize (index + 1) n cs

abbrev pub new_manager : IoManager
new_manager = record { contexts = context_resize 0 32 []; pending = 0; scheduled = [] }

-- `scheduleNoLock` of a fiber queues nothing for a null pointer.
abbrev pub schedule_fiber : ℕ → Option ℕ → List (ℕ × Task)
schedule_fiber scheduler none = []
schedule_fiber scheduler (some f) = (scheduler, run_fiber f) ∷ []

abbrev pub schedule_context : ℕ → EventContext → List (ℕ × Task)
schedule_context scheduler e = elim e.cb [
  | none ↦ schedule_fiber scheduler e.fiber
  | some f ↦ (scheduler, run_cb f) ∷ []
]

-- `triggerEvent`: the context behind it, and what is scheduled. The function object is copied to
-- the scheduler, and stays in the context.
unfoldable pub trigger_event : Event → FdContext → Option (FdContext × List (ℕ × Task))
trigger_event event c =
    let e = get_context event c in
    elim e.scheduler [
      | none ↦ none
      | some scheduler ↦ some (
        set_context event (record e { scheduler = none })
            (record c { events = without_event event c.events }),
        schedule_context scheduler e,
      )
    ]

-- Where `addEvent` finds the context, after it has grown the table.
unfoldable pub table_for : ℕ → List FdContext → List FdContext
table_for fd cs = if ltb fd (length cs) then cs else context_resize 0 (3 * fd / 2) cs

-- What `addEvent` leaves in the context: `this_fiber` runs it on `scheduler`.
unfoldable pub armed : ℕ → ℕ → Event → Option ℕ → FdContext → FdContext
armed scheduler this_fiber event cb c =
    let e = record (get_context event c) { scheduler = some scheduler } in
    set_context event
      (elim cb [ none ↦ record e { fiber = some this_fiber } | some f ↦ record e { cb = some f } ])
      (record c { events = with_event event c.events })

-- `EPOLL_CTL_MOD` while some event is left.
abbrev pub op_for : Events → EpollCtlOp
op_for left = if is_none left then ctl_del else ctl_mod

-- A trigger of an event of the context at `fd`, with `--m_pendingEventCount`.
unfoldable pub trigger_at : ℕ → Event → FdContext → IoManager → Option IoManager
trigger_at fd event c m = elim (trigger_event event c) [
  | none ↦ none
  | some r ↦ some (record m {
    contexts = set m.contexts fd r.0;
    pending = m.pending - 1;
    scheduled = m.scheduled ++ r.1;
  })
]

module _ (epoll_ctl_fails : EpollCtlOp → ℕ → Events → Bool) where
  -- `addEvent`: the flag says whether it returns 0.
  unfoldable pub add_event : ℕ → ℕ → ℕ → Event → Option ℕ → IoManager → Option (Bool × IoManager)
  add_event scheduler this_fiber fd event cb m =
      let cs = table_for fd m.contexts in
      elim (get_elem? cs fd) [
        | none ↦ none
        | some c ↦ some (
            if epoll_ctl_fails (if is_none c.events then ctl_add else ctl_mod) fd
              (with_event event c.events)
            then (false, record m { contexts = cs })
            else (
              true,
              record m {
                contexts = set cs fd (armed scheduler this_fiber event cb c);
                pending = m.pending + 1;
              },
            ))
      ]

  unfoldable pub del_event : ℕ → Event → IoManager → Bool × IoManager
  del_event fd event m = elim (get_elem? m.contexts fd) [
    | none ↦ (false, m)
    | some c ↦
        let left = without_event event c.events in
        if not (has event c.events)
        then (false, m)
        else if epoll_ctl_fails (op_for left) fd left
        then (false, m)
        else (
          true,
          record m {
            contexts =
                set m.contexts fd (set_context event empty_context (record c { events = left }));
            pending = m.pending - 1;
          },
        )
  ]

  unfoldable pub cancel_event : ℕ → Event → IoManager → Option (Bool × IoManager)
  cancel_event fd event m = elim (get_elem? m.contexts fd) [
    | none ↦ some (false, m)
    | some c ↦
        let left = without_event event c.events in
        if not (has event c.events)
        then some (false, m)
        else if epoll_ctl_fails (op_for left) fd left
        then some (false, m)
        else elim (trigger_at fd event c m) [ none ↦ none | some m' ↦ some (true, m') ]
  ]
