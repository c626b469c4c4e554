-- ===== src/Timer/Tests.antt =====
-- Runs of the timers (src/timer.cc) on small inputs.
use muqiu.Common.{◌+◌, ◌^◌, ◌<◌, ◌≡◌, ◌⊎◌, refl, arith, true, false, some, [], ◌∷◌}
use muqiu.Timer.Manager.{
  Timer, TimerManager, plain, list_expired_cb, get_next_timer, detect_rollover,
}
use muqiu.Timer.Expired.{Listed, list_expired_cb-Listed, get_next_timer-value}

-- A recurring timer that is due at 10, and one that is due once at 30.
abbrev often : Timer
often = record { address = 100; recurring = true; ms = 5; next = 10; cb = some (plain 1) }

abbrev once : Timer
once = record { address = 101; recurring = false; ms = 20; next = 30; cb = some (plain 2) }

abbrev two_timers : TimerManager
two_timers = record { timers = often ∷ once ∷ []; tickled = false; previous_time = 5 }

list_expired_cb-Listed_example :
    Listed 12 two_timers.timers
      (list_expired_cb 50 12 two_timers).0
      (list_expired_cb 50 12 two_timers).1.timers
unfolding detect_rollover
list_expired_cb-Listed_example =
    list_expired_cb-Listed 50 12 two_timers refl ((refl, tt), (tt, tt))
      ((omega arith, omega arith), ((omega arith, omega arith), tt))

get_next_timer-value_example :
    (12 + (get_next_timer 12 two_timers).0 ≡ 10)
    ⊎ ((10 < 12) × ((get_next_timer 12 two_timers).0 + 12 ≡ 10 + 2 ^ 64))
get_next_timer-value_example =
    get_next_timer-value 12 often (once ∷ []) two_timers refl (omega arith) (omega arith)
