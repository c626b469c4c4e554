-- ===== src/ByteArray/Varint.antt =====
-- Integers of variable length (src/bytearray.cc): seven bits to a byte, lowest group first, with
-- the top bit set on every byte but the last. Signed ones go through zigzag.
use Prim.Native.Nat.{bit_and, bit_or}
use muqiu.Common.{ℕ, zero, suc, ◌+◌, ◌*◌, ◌/◌, ◌%◌, ◌^◌}
use muqiu.Common.{true, false, ltb, Option, none, some}
use muqiu.Common.{[], ◌∷◌}
use muqiu.ByteArray.State.{Bytes, ByteArray, Outcome, ok, tmp_overrun, write, ◌>>=◌}
use muqiu.ByteArray.Fixed.{read_fuint8}
use muqiu.ByteArray.Zigzag.{encode_zigzag32, encode_zigzag64, decode_zigzag32, decode_zigzag64}

-- The loop that fills `tmp`, with `room` elements left in it: `none` is a write past its end.
unfoldable pub groups : ℕ → ℕ → Option Bytes
groups zero value = none
groups (suc room) value = elim (ltb value 0x80) [
  | true ↦ some (value ∷ [])
  | false ↦ elim (groups room (value / 2 ^ 7)) [
    | none ↦ none
    | some tmp ↦ some (bit_or (bit_and value 0x7f) 0x80 ∷ tmp)
  ]
]

write_groups : Option Bytes → ByteArray → Outcome ByteArray
write_groups none b = tmp_overrun
write_groups (some tmp) b = write tmp b

unfoldable pub write_uint32 : ℕ → ByteArray → Outcome ByteArray
unfolding write_groups
write_uint32 value b = write_groups (groups 5 value) b

unfoldable pub write_uint64 : ℕ → ByteArray → Outcome ByteArray
unfolding write_groups
write_uint64 value b = write_groups (groups 10 value) b

unfoldable pub write_int32 : ℕ → ByteArray → Outcome ByteArray
write_int32 value b = write_uint32 (encode_zigzag32 value) b

unfoldable pub write_int64 : ℕ → ByteArray → Outcome ByteArray
write_int64 value b = write_uint64 (encode_zigzag64 value) b

-- The loop of `readUint32` (w = 32, from 5 rounds on) and `readUint64` (w = 64, from 10 rounds on),
-- with `rounds` left until `i < w` fails.
unfoldable pub read_groups : ℕ → ℕ → ℕ → ℕ → ByteArray → Outcome (ℕ × ByteArray)
read_groups w zero i result b = ok (result, b)
read_groups w (suc rounds) i result b = read_fuint8 b >>= λ (x, b'). elim (ltb x 0x80) [
  | true ↦ ok (bit_or result (x * 2 ^ i % 2 ^ w), b')
  | false ↦ read_groups w rounds (i + 7) (bit_or result (bit_and x 0x7f * 2 ^ i % 2 ^ w)) b'
]

unfoldable pub read_uint32 : ByteArray → Outcome (ℕ × ByteArray)
read_uint32 b = read_groups 32 5 0 0 b

unfoldable pub read_uint64 : ByteArray → Outcome (ℕ × ByteArray)
read_uint64 b = read_groups 64 10 0 0 b

unfoldable pub read_int32 : ByteArray → Outcome (ℕ × ByteArray)
read_int32 b = do (v, b') ← read_uint32 b; ok (decode_zigzag32 v, b')

unfoldable pub read_int64 : ByteArray → Outcome (ℕ × ByteArray)
read_int64 b = do (v, b') ← read_uint64 b; ok (decode_zigzag64 v, b')
