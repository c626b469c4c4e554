-- ===== src/Fd/Context.antt =====
-- `FdCtx` (src/fdmanager.cc, include/fdmanager.h).
--
-- What the system answers is an argument: `fstat` gives none where it fails, and else whether the
-- descriptor is a socket; `getfl` gives the flags of fcntl(F_GETFL), as a bit pattern.
use muqiu.Common.{ℕ, ◌+◌, ◌-◌, ◌/◌, ◌%◌, ◌^◌, Bool, true, false, Option, none, some}
use muqiu.Common.{if◌then◌else◌, ◌==◌}

-- `(uint64_t)-1`, which stands for no timeout.
abbrev pub no_timeout : ℕ
no_timeout = 2 ^ 64 - 1

-- SO_RCVTIMEO and SO_SNDTIMEO of sys/socket.h.
abbrev pub so_rcvtimeo : ℕ
so_rcvtimeo = 20

abbrev pub so_sndtimeo : ℕ
so_sndtimeo = 21

-- O_NONBLOCK is 2 ^ 11: `flags & O_NONBLOCK`, `flags | O_NONBLOCK` and `flags & ~O_NONBLOCK`.
abbrev pub has_nonblock : ℕ → Bool
has_nonblock flags = flags / 2048 % 2 == 1

abbrev pub with_nonblock : ℕ → ℕ
with_nonblock flags = if has_nonblock flags then flags else flags + 2048

abbrev pub without_nonblock : ℕ → ℕ
without_nonblock flags = if has_nonblock flags then flags - 2048 else flags

pub record FdCtx : Type 0 where
  pub is_init : Bool
  pub is_socket : Bool
  pub sys_nonblock : Bool
  pub user_nonblock : Bool
  pub is_closed : Bool
  pub fd : ℕ
  pub recv_timeout : ℕ
  pub send_timeout : ℕ

-- The result of `init`: the context, and the flags that it hands to fcntl(F_SETFL), if it does.
unfoldable pub init : (ℕ → Option Bool) → (ℕ → ℕ) → FdCtx → FdCtx × Option ℕ
init fstat getfl c =
    let answer = fstat c.fd in
    let is_socket : Bool = elim answer [ none ↦ false | some s ↦ s ] in
    let flags = getfl c.fd in
    if c.is_init then (c, none) else (
      record c {
        is_init = elim answer [ none ↦ false | some s ↦ true ];
        is_socket = is_socket;
        sys_nonblock = is_socket;
        user_nonblock = false;
        is_closed = false;
        recv_timeout = no_timeout;
        send_timeout = no_timeout;
      },
      if is_socket then (if has_nonblock flags then none else some (with_nonblock flags)) else none,
    )

-- The constructor `FdCtx(fd)`, which calls `init`.
unfoldable pub new_fd_ctx : (ℕ → Option Bool) → (ℕ → ℕ) → ℕ → FdCtx × Option ℕ
unfolding init
new_fd_ctx fstat getfl fd = init fstat getfl (record {
  is_init = false;
  is_socket = false;
  sys_nonblock = false;
  user_nonblock = false;
  is_closed = false;
  fd = fd;
  recv_timeout = no_timeout;
  send_timeout = no_timeout;
})

unfoldable pub set_timeout : ℕ → ℕ → FdCtx → FdCtx
set_timeout type v c =
    if type == so_rcvtimeo then record c { recv_timeout = v } else record c { send_timeout = v }

unfoldable pub get_timeout : ℕ → FdCtx → ℕ
get_timeout type c = if type == so_rcvtimeo then c.recv_timeout else c.send_timeout

abbrev pub set_user_nonblock : Bool → FdCtx → FdCtx
set_user_nonblock v c = record c { user_nonblock = v }
