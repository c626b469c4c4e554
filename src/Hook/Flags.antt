-- ===== src/Hook/Flags.antt =====
-- The hooked fcntl, ioctl and setsockopt (src/hook.cc).
--
-- The kernel is a parameter: what fcntl(F_SETFL), fcntl(F_GETFL), ioctl(FIONBIO) and setsockopt do
-- to its state K. `none` stands for an index outside of the table of descriptors.
use muqiu.Common.{ℕ, ◌+◌, ◌*◌, ◌/◌, Bool, false, not, ◌&&◌, ◌||◌, Option, none, some}
use muqiu.Common.{if◌then◌else◌, ◌==◌}
use muqiu.Common.Int.{ℤ, pos}
use muqiu.Fd.Context.{
  FdCtx, has_nonblock, with_nonblock, without_nonblock, set_user_nonblock, set_timeout, so_rcvtimeo,
  so_sndtimeo,
}
use muqiu.Fd.Manager.{FdManager, get, store}

pub record Kernel (K : Type 0) : Type 0 where
  pub fcntl_setfl : ℕ → ℕ → K → ℤ × K
  pub fcntl_getfl : ℕ → K → ℕ
  pub ioctl_fionbio : ℕ → Bool → K → ℤ × K
  pub setsockopt : ℕ → ℕ → ℕ → ℕ × ℕ → K → ℤ × K

-- SOL_SOCKET of sys/socket.h.
abbrev pub sol_socket : ℕ
sol_socket = 1

-- `ctx && !ctx->isClose() && ctx->isSocket()`.
abbrev pub is_open_socket : FdCtx → Bool
is_open_socket ctx = not (ctx.is_closed || not ctx.is_socket)

module _ {K : Type 0} (fstat : ℕ → Option Bool) (getfl : ℕ → ℕ) (kernel : Kernel K) where
  -- fcntl(fd, F_SETFL, arg).
  unfoldable pub set_flags : ℕ → ℕ → FdManager → K → Option (ℤ × FdManager × K)
  set_flags fd arg fds k = elim (get fstat getfl (pos fd) false fds) [
    | none ↦ none
    | some (none, fds') ↦ (let (r, k') = kernel.fcntl_setfl fd arg k in some (r, fds', k'))
    | some (some ctx, fds') ↦
        let arg' = if ctx.sys_nonblock then with_nonblock arg else without_nonblock arg in
        let (plain, k1) = kernel.fcntl_setfl fd arg k in
        let (r, k') = kernel.fcntl_setfl fd arg' k in
        let hooked : Option (ℤ × FdManager × K) =
          elim (store fd (some (set_user_nonblock (has_nonblock arg) ctx)) fds') [
            | none ↦ none
            | some fds'' ↦ some (r, fds'', k')
          ] in
        if is_open_socket ctx then hooked else some (plain, fds', k1)
  ]

  -- fcntl(fd, F_GETFL) of an open descriptor.
  unfoldable pub get_flags : ℕ → FdManager → K → Option ℕ
  get_flags fd fds k =
      let arg = kernel.fcntl_getfl fd k in
      elim (get fstat getfl (pos fd) false fds) [
        | none ↦ none
        | some (none, fds') ↦ some arg
        | some (some ctx, fds') ↦ some (
            if not (is_open_socket ctx)
            then arg
            else if ctx.user_nonblock
            then with_nonblock arg
            else without_nonblock arg)
      ]

  -- ioctl(fd, FIONBIO, &user_nonblock).
  unfoldable pub ioctl_nonblock : ℕ → Bool → FdManager → K → Option (ℤ × FdManager × K)
  ioctl_nonblock fd user_nonblock fds k =
      let (r, k') = kernel.ioctl_fionbio fd user_nonblock k in
      elim (get fstat getfl (pos fd) false fds) [
        | none ↦ none
        | some (none, fds') ↦ some (r, fds', k')
        | some (some ctx, fds') ↦
            let hooked : Option (ℤ × FdManager × K) =
              elim (store fd (some (set_user_nonblock user_nonblock ctx)) fds') [
                | none ↦ none
                | some fds'' ↦ some (r, fds'', k')
              ] in
            if is_open_socket ctx then hooked else some (r, fds', k')
      ]

  -- setsockopt(fd, level, optname, v), where a timeout v has seconds and microseconds.
  unfoldable pub set_option : Bool → ℕ → ℕ → ℕ → ℕ × ℕ → FdManager → K → Option (ℤ × FdManager × K)
  set_option hook_enable fd level optname v fds k =
      let (r, k') = kernel.setsockopt fd level optname v k in
      let timed : Option (ℤ × FdManager × K) = elim (get fstat getfl (pos fd) false fds) [
        | none ↦ none
        | some (none, fds') ↦ some (r, fds', k')
        | some (some ctx, fds') ↦
            elim (store fd (some (set_timeout optname (v.0 * 1000 + v.1 / 1000) ctx)) fds') [
              | none ↦ none
              | some fds'' ↦ some (r, fds'', k')
            ]
      ] in
      if hook_enable && (level == sol_socket && (optname == so_rcvtimeo || optname == so_sndtimeo))
      then timed
      else some (r, fds, k')
