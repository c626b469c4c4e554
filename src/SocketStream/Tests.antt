-- ===== src/SocketStream/Tests.antt =====
-- Runs of a socket's stream (src/socket_stream.cc) on small inputs.
use muqiu.Common.{ℕ, ◌≡◌, refl, arith, true, [], ◌∷◌}
use muqiu.Common.Int.{pos}
use muqiu.ByteArray.State.{ByteArray, ok, new}
use muqiu.ByteArray.Valid.{new-IsValid}
use muqiu.ByteArray.Write.{WriteOf}
use muqiu.SocketStream.Calls.{Received, got, read_array}
use muqiu.SocketStream.Receive.{read_array-WriteOf}

abbrev three_bytes : ℕ → Received
three_bytes size = got (7 ∷ 8 ∷ 9 ∷ [])

read_array-WriteOf_example :
    (b' : ByteArray) × (read_array true three_bytes 5 (new 2 0) ≡ ok (pos 3, b'))
    × WriteOf (7 ∷ 8 ∷ 9 ∷ []) (new 2 0) b'
read_array-WriteOf_example =
    read_array-WriteOf three_bytes 5 (7 ∷ 8 ∷ 9 ∷ []) (new 2 0) (new-IsValid 2 0 (omega arith)) refl
      (omega arith) (omega arith)
