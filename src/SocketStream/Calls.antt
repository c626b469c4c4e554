-- ===== src/SocketStream/Calls.antt =====
-- `read` and `write` of `SocketStream` (src/socket_stream.cc).
--
-- The socket is a parameter: what `recv` gives, and what `send` returns for the bytes it is shown.
-- With windows `recv` fills them in order, and `send` takes the bytes that they show in order. A
-- call with no window at all passes no memory, and so asks for nothing.
use muqiu.Common.{ℕ, zero, suc, ◌+◌, Bool}
use muqiu.Common.{List, ◌++◌, length, take, drop, if◌then◌else◌}
use muqiu.Common.Int.{ℤ, pos, negsuc}
use muqiu.ByteArray.State.{Bytes, ByteArray, Outcome, ok, ◌>>=◌, set_position}
use muqiu.ByteArray.Buffers.{Iovec, get_read_buffers, get_write_buffers, gather, fill}

-- What a `recv` gives: bytes, none at the end of the stream, or an error -(n + 1).
pub data Received : Type 0 where
  got : Bytes → Received
  error : ℕ → Received

-- The buffer once its windows hold the bytes that have come.
abbrev pub filled : List Iovec → Bytes → ByteArray → ByteArray
filled iovs bytes b =
    let nodes = fill (b.before ++ b.after) iovs bytes in
    record b { before = take (length b.before) nodes; after = drop (length b.before) nodes }

-- `if (rt > 0) setPosition(getPosition() + rt)`, and the result.
unfoldable pub advance : ℤ → ByteArray → Outcome (ℤ × ByteArray)
advance (pos zero) b = ok (pos 0, b)
advance (pos (suc n)) b = do b' ← set_position (b.position + suc n) b; ok (pos (suc n), b')
advance (negsuc n) b = ok (negsuc n, b)

unfoldable pub take_in : List Iovec → Received → ByteArray → Outcome (ℤ × ByteArray)
take_in iovs (got bytes) b = advance (pos (length bytes)) (filled iovs bytes b)
take_in iovs (error n) b = ok (negsuc n, b)

-- `read(ByteArray::ptr, size_t)`: `recv` is asked for as many bytes as the windows have room for.
unfoldable pub read_array : Bool → (ℕ → Received) → ℕ → ByteArray → Outcome (ℤ × ByteArray)
read_array connected recv len b =
    let received : Outcome (ℤ × ByteArray) = (do
      ((size, iovs), b') ← get_write_buffers len b
      take_in iovs (recv size) b') in
    if connected then received else ok (negsuc 0, b)

-- `write(ByteArray::ptr, size_t)`.
unfoldable pub write_array : Bool → (Bytes → ℤ) → ℕ → ByteArray → Outcome (ℤ × ByteArray)
write_array connected send len b =
    let sent : Outcome (ℤ × ByteArray) = (do
      (size, iovs) ← get_read_buffers len b
      advance (send (gather (b.before ++ b.after) iovs)) b) in
    if connected then sent else ok (negsuc 0, b)

-- `read(void *, size_t)` and `write(const void *, size_t)`.
unfoldable pub read : Bool → (ℕ → Received) → ℕ → Received
read connected recv len = if connected then recv len else error 0

unfoldable pub write : Bool → (Bytes → ℤ) → Bytes → ℤ
write connected send bytes = if connected then send bytes else negsuc 0
