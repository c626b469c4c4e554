-- ===== src/ByteArray/Strings.antt =====
-- Strings behind their length (src/bytearray.cc).
use muqiu.Common.{ℕ, ◌%◌, ◌^◌, ◌<◌, ◌≡◌, ◌∙◌, arith}
use muqiu.Common.{◌++◌, append_assoc, length}
use muqiu.ByteArray.State.{Bytes, ByteArray, Outcome, ok, write, read, set_position, ◌>>=◌}
use muqiu.ByteArray.Valid.{IsValid}
use muqiu.ByteArray.Write.{write-WriteOf}
use muqiu.ByteArray.Stream.{Holds, read-Holds, rewind-Holds, WriteOf-trans}
use muqiu.ByteArray.Fixed.{
  write_fuint16, write_fuint32, write_fuint64, read_fuint16, read_fuint32, read_fuint64, stored,
  read_fixed-Holds, stored_order,
}
use muqiu.ByteArray.Varint.{write_uint64, read_uint64}
use muqiu.ByteArray.VarintLaws.{write_uint64-Encodes, read_uint64-Holds}

-- The length goes to a parameter of 16 bits (32, 64), which keeps its low bits.
unfoldable pub write_string_f16 : Bytes → ByteArray → Outcome ByteArray
write_string_f16 value b = write_fuint16 (length value % 2 ^ 16) b >>= write value

unfoldable pub write_string_f32 : Bytes → ByteArray → Outcome ByteArray
write_string_f32 value b = write_fuint32 (length value % 2 ^ 32) b >>= write value

unfoldable pub write_string_f64 : Bytes → ByteArray → Outcome ByteArray
write_string_f64 value b = write_fuint64 (length value % 2 ^ 64) b >>= write value

unfoldable pub write_string_vint : Bytes → ByteArray → Outcome ByteArray
write_string_vint value b = write_uint64 (length value % 2 ^ 64) b >>= write value

unfoldable pub write_string_without_length : Bytes → ByteArray → Outcome ByteArray
write_string_without_length value b = write value b

unfoldable pub read_string_f16 : ByteArray → Outcome (Bytes × ByteArray)
read_string_f16 b = do (len, b') ← read_fuint16 b; read len b'

unfoldable pub read_string_f32 : ByteArray → Outcome (Bytes × ByteArray)
read_string_f32 b = do (len, b') ← read_fuint32 b; read len b'

unfoldable pub read_string_f64 : ByteArray → Outcome (Bytes × ByteArray)
read_string_f64 b = do (len, b') ← read_fuint64 b; read len b'

unfoldable pub read_string_vint : ByteArray → Outcome (Bytes × ByteArray)
read_string_vint b = do (len, b') ← read_uint64 b; read len b'

vint_then_bytes :
    (b c : ByteArray) (n m : ℕ) {got : Bytes × ByteArray}
    → read_uint64 b ≡ ok (n, c)
    → n ≡ m
    → read m c ≡ ok got
    → read_string_vint b ≡ ok got
unfolding read_string_vint
vint_then_bytes b c n m e same r = rw e (rw same r)

f16_then_bytes :
    (b c : ByteArray) (n m : ℕ) {got : Bytes × ByteArray}
    → read_fuint16 b ≡ ok (n, c)
    → n ≡ m
    → read m c ≡ ok got
    → read_string_f16 b ≡ ok got
unfolding read_string_f16
f16_then_bytes b c n m e same r = rw e (rw same r)

-- A non-empty string that `writeStringVint` stores is read back by `readStringVint`.
pub read-write_string_vint :
    (value : Bytes) (b : ByteArray)
    → IsValid b
    → 0 < length value
    → length value < 2 ^ 64
    → (b1 : ByteArray) × (b2 : ByteArray) × (b3 : ByteArray) × (write_string_vint value b ≡ ok b1)
      × (set_position b.position b1 ≡ ok b2)
      × (read_string_vint b2 ≡ ok (value, b3))
unfolding write_string_vint
read-write_string_vint value b valid some_bytes fits =
    let n : ℕ = length value % 2 ^ 64 in
    let same : n ≡ length value = omega arith in
    let (tmp, c1, e1, enc, w1) = write_uint64-Encodes n b (omega arith) valid in
    let (b1, e2, w2) = write-WriteOf value c1 w1.valid in
    let (rest, b2, e3, holds, _) =
      rewind-Holds (tmp ++ value) b b1 valid (WriteOf-trans tmp value valid w1 w2) in
    let before : Holds tmp (value ++ rest) b2 = record {
      valid = holds.valid;
      front = holds.front ∙ append_assoc tmp value rest;
    } in
    let (c2, e4, (v2, front, _)) =
      read_uint64-Holds n tmp (value ++ rest) b2 (omega arith) enc before in
    let (b3, e5, _, _, _) =
      read-Holds value rest c2 (record { valid = v2; front = front }) some_bytes in
    (b1, b2, b3, rw e1 e2, e3, vint_then_bytes b2 c2 n (length value) e4 same e5)

-- A non-empty string of fewer than 2 ^ 16 bytes that `writeStringF16` stores is read back by
-- `readStringF16`, in either byte order.
pub read-write_string_f16 :
    (value : Bytes) (b : ByteArray)
    → IsValid b
    → 0 < length value
    → length value < 2 ^ 16
    → (b1 : ByteArray) × (b2 : ByteArray) × (b3 : ByteArray) × (write_string_f16 value b ≡ ok b1)
      × (set_position b.position b1 ≡ ok b2)
      × (read_string_f16 b2 ≡ ok (value, b3))
unfolding write_string_f16 write_fuint16
read-write_string_f16 value b valid some_bytes fits =
    let n : ℕ = length value % 2 ^ 16 in
    let same : n ≡ length value = omega arith in
    let tmp : Bytes = stored 2 b n in
    let (c1, e1, w1) = write-WriteOf tmp b valid in
    let (b1, e2, w2) = write-WriteOf value c1 w1.valid in
    let (rest, b2, e3, holds, order) =
      rewind-Holds (tmp ++ value) b b1 valid (WriteOf-trans tmp value valid w1 w2) in
    let before : Holds (stored 2 b2 n) (value ++ rest) b2 =
      stored_order 2 n b b2 (value ++ rest) order
        (record { valid = holds.valid; front = holds.front ∙ append_assoc tmp value rest }) in
    let (c2, e4, v2, front, _) =
      read_fixed-Holds 2 n (value ++ rest) b2 (omega arith) (omega arith) before in
    let (b3, e5, _, _, _) =
      read-Holds value rest c2 (record { valid = v2; front = front }) some_bytes in
    (
      b1,
      b2,
      b3,
      rw e1 e2,
      e3,
      f16_then_bytes b2 c2 n (length value) (unfold read_fuint16 in e4) same e5,
    )
