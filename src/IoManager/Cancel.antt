-- ===== src/IoManager/Cancel.antt =====
-- `cancelAll`, and what `idle` does with one event that `epoll_wait` reports (src/IoManager.cc).
use muqiu.Common.{ℕ, Bool, true, false, not, ◌&&◌, ◌||◌, Option, none, some}
use muqiu.Common.{get_elem?, if◌then◌else◌}
use muqiu.IoManager.Events.{
  Event, read, write, Events, no_events, is_none, EpollCtlOp, ctl_del, IoManager, op_for,
  trigger_at,
}

-- The context at `fd`, triggered where the test holds: `triggerEvent` and the count.
unfoldable pub trigger_if : Bool → ℕ → Event → IoManager → Option IoManager
trigger_if test fd event m = elim (get_elem? m.contexts fd) [
  | none ↦ some m
  | some c ↦ if test then trigger_at fd event c m else some m
]

unfoldable pub trigger_both : Bool → Bool → ℕ → IoManager → Option IoManager
trigger_both reads writes fd m = elim (trigger_if reads fd read m) [
  | none ↦ none
  | some m' ↦ trigger_if writes fd write m'
]

-- What `epoll_wait` reports of a descriptor; `failed` is EPOLLERR or EPOLLHUP.
pub record Reported : Type 0 where
  pub input : Bool
  pub output : Bool
  pub failed : Bool

-- `real_events`: an error counts as each event that the context waits for.
abbrev pub real_events : Reported → Events → Events
real_events r es = record {
  reads = r.input || (r.failed && es.reads);
  writes = r.output || (r.failed && es.writes);
}

abbrev pub both : Events → Events → Events
both a b = record { reads = a.reads && b.reads; writes = a.writes && b.writes }

abbrev pub except : Events → Events → Events
except a b = record { reads = a.reads && not b.reads; writes = a.writes && not b.writes }

module _ (epoll_ctl_fails : EpollCtlOp → ℕ → Events → Bool) where
  unfoldable pub cancel_all : ℕ → IoManager → Option (Bool × IoManager)
  cancel_all fd m = elim (get_elem? m.contexts fd) [
    | none ↦ some (false, m)
    | some c ↦
        if is_none c.events
        then some (false, m)
        else if epoll_ctl_fails ctl_del fd no_events
        then some (false, m)
        else elim (trigger_both c.events.reads c.events.writes fd m) [
          | none ↦ none
          | some m' ↦ some (true, m')
        ]
  ]

  -- One pass of the loop over the reported events, for a descriptor of the table.
  unfoldable pub handle_reported : ℕ → Reported → IoManager → Option IoManager
  handle_reported fd r m = elim (get_elem? m.contexts fd) [
    | none ↦ none
    | some c ↦
        let real = real_events r c.events in
        let left = except c.events real in
        if is_none (both c.events real)
        then some m
        else if epoll_ctl_fails (op_for left) fd left
        then some m
        else trigger_both real.reads real.writes fd m
  ]
