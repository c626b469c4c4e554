-- ===== src/Fd/Tests.antt =====
-- Runs of the table of descriptors (src/fdmanager.cc).
use muqiu.Common.{ℕ, ◌≡◌, refl, Bool, true, Option, some}
use muqiu.Common.Int.{pos}
use muqiu.Fd.Context.{FdCtx, new_fd_ctx}
use muqiu.Fd.Manager.{FdManager, new_fd_manager, get}
use muqiu.Fd.Lookup.{GetOf, get-GetOf, new_fd_manager-IsLong}

-- A system in which every descriptor is a blocking socket.
abbrev all_sockets : ℕ → Option Bool
all_sockets fd = some true

abbrev no_flags : ℕ → ℕ
no_flags fd = 0

-- A new context of a socket makes it non-blocking for the system, and not for the user.
new_fd_ctx_flags : (new_fd_ctx all_sockets no_flags 5).1 ≡ some 2048
unfolding new_fd_ctx
new_fd_ctx_flags = refl

get-GetOf_example :
    (r : Option FdCtx) × (m' : FdManager) × (get all_sockets no_flags (pos 70) true new_fd_manager
      ≡ some (r, m'))
    × GetOf all_sockets no_flags 70 true new_fd_manager r m'
get-GetOf_example = get-GetOf all_sockets no_flags 70 true new_fd_manager new_fd_manager-IsLong
