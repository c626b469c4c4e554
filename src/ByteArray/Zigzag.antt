-- ===== src/ByteArray/Zigzag.antt =====
-- `EncodeZigzag` and `DecodeZigzag` (src/bytearray.cc). A signed integer is its bit pattern: the
-- numbers from 2 ^ 31 (2 ^ 63) on are the negative ones. The source computes `v * 2` and `-v` on the
-- signed type, where C++ leaves an overflow undefined: for `v * 2` from 2 ^ 30 (2 ^ 62) on, and for
-- `-v` of the least integer. The model assumes that these wrap, as they do with -fwrapv.
use Prim.Native.Nat.{bit_and, bit_xor}
use muqiu.Common.{ℕ, ◌+◌, ◌-◌, ◌*◌, ◌/◌, ◌%◌, ◌^◌, ◌<◌, ◌≡◌, arith, if◌then◌else◌, leb, ◌==◌}
use muqiu.Common.Bits.{bit_xor-ones, bit_xor-zero, bit_and_1}

-- `-v` of a w-bit integer, and `v * 2` and `- 1` on `uintw_t`.
abbrev negate : ℕ → ℕ → ℕ
negate m v = (m - v) % m

abbrev encode : ℕ → ℕ → ℕ
encode m v = if leb (m / 2) v then (negate m v * 2 % m + m - 1) % m else v * 2 % m

-- `(v >> 1) ^ -(v & 1)`.
abbrev decode : ℕ → ℕ → ℕ
decode m v = bit_xor (v / 2) (negate m (bit_and v 1))

unfoldable pub encode_zigzag32 : ℕ → ℕ
encode_zigzag32 v = encode (2 ^ 32) v

unfoldable pub encode_zigzag64 : ℕ → ℕ
encode_zigzag64 v = encode (2 ^ 64) v

unfoldable pub decode_zigzag32 : ℕ → ℕ
decode_zigzag32 v = decode (2 ^ 32) v

unfoldable pub decode_zigzag64 : ℕ → ℕ
decode_zigzag64 v = decode (2 ^ 64) v

-- The integer that a bit pattern stands for, by its distance from 0 and its sign.
abbrev zigzag : ℕ → ℕ → ℕ
zigzag m v = if leb (m / 2) v then 2 * (m - v) - 1 else 2 * v

encode32 : (v : ℕ) → v < 2 ^ 32 → encode_zigzag32 v ≡ zigzag (2 ^ 32) v
unfolding encode_zigzag32
encode32 v h = ground arith

encode64 : (v : ℕ) → v < 2 ^ 64 → encode_zigzag64 v ≡ zigzag (2 ^ 64) v
unfolding encode_zigzag64
encode64 v h = ground arith

-- What `decode` does to an even and to an odd number.
decode32 :
    (u : ℕ) → u < 2 ^ 32 → decode_zigzag32 u ≡ (if u % 2 == 0 then u / 2 else 2 ^ 32 - 1 - u / 2)
unfolding decode_zigzag32
decode32 u h =
    ground (arith, bit_and_1 u, bit_xor-zero (u / 2), bit_xor-ones 32 (u / 2) (omega arith))

decode64 :
    (u : ℕ) → u < 2 ^ 64 → decode_zigzag64 u ≡ (if u % 2 == 0 then u / 2 else 2 ^ 64 - 1 - u / 2)
unfolding decode_zigzag64
decode64 u h =
    ground (arith, bit_and_1 u, bit_xor-zero (u / 2), bit_xor-ones 64 (u / 2) (omega arith))

-- The encoding of every 32-bit integer n is a 32-bit number, 2n where n is not negative and
-- -2n - 1 where it is, and decodes to n.
pub decode-encode_zigzag32 :
    (v : ℕ)
    → v < 2 ^ 32
    → (encode_zigzag32 v < 2 ^ 32)
      × (encode_zigzag32 v ≡ (if leb (2 ^ 31) v then 2 * (2 ^ 32 - v) - 1 else 2 * v))
      × (decode_zigzag32 (encode_zigzag32 v) ≡ v)
decode-encode_zigzag32 v h = ground (arith, encode32 v h, decode32 (encode_zigzag32 v))

-- The encoding of every 64-bit integer n is a 64-bit number, 2n where n is not negative and
-- -2n - 1 where it is, and decodes to n.
pub decode-encode_zigzag64 :
    (v : ℕ)
    → v < 2 ^ 64
    → (encode_zigzag64 v < 2 ^ 64)
      × (encode_zigzag64 v ≡ (if leb (2 ^ 63) v then 2 * (2 ^ 64 - v) - 1 else 2 * v))
      × (decode_zigzag64 (encode_zigzag64 v) ≡ v)
decode-encode_zigzag64 v h = ground (arith, encode64 v h, decode64 (encode_zigzag64 v))
