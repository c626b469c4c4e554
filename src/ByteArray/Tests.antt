-- ===== src/ByteArray/Tests.antt =====
-- Runs of the buffer (src/bytearray.cc) on small inputs.
use muqiu.Common.{◌≡◌, refl, arith, [], ◌∷◌, length, take, drop, List}
use muqiu.ByteArray.Growing.{Grows, add_capacity-Grows}
use muqiu.ByteArray.State.{
  ok, out_of_range, null_deref, ◌>>=◌, Outcome, Bytes, ByteArray, big, new, write, read,
  set_position, seek, read_loop, read_from, write_loop, add_capacity, link_nodes, get_read_size,
}
use muqiu.ByteArray.Valid.{IsValid, flat}
use muqiu.ByteArray.Write.{WriteOf, write-WriteOf}
use muqiu.ByteArray.Read.{ReadOf, read-ReadOf, read_past, read_none_at_end}
use muqiu.ByteArray.Position.{
  SeekOf, set_position-SeekOf, set_position_past, read-set_position-write,
}
use muqiu.ByteArray.Fixed.{write_fixed, read_fixed, read_fixed-write_fixed}
use muqiu.ByteArray.Varint.{write_uint32, write_int64, read_int64}
use muqiu.ByteArray.VarintLaws.{Encodes, write_uint32-Encodes, read_int64-write_int64}
use muqiu.Common.{◌++◌, min}
use muqiu.ByteArray.Buffers.{Iovec, get_read_buffers, gather}
use muqiu.ByteArray.Windows.{get_read_buffers-gather}
use muqiu.ByteArray.Strings.{
  write_string_vint, read_string_vint, write_string_f16, read_string_f16, read-write_string_vint,
  read-write_string_f16,
}

abbrev session : Outcome Bytes
session = do
  a ← write (1 ∷ 2 ∷ 3 ∷ 4 ∷ 5 ∷ []) (new 2 0)
  b ← set_position 1 a
  (got, c) ← read 3 b
  ok got

session_ok : session ≡ ok (2 ∷ 3 ∷ 4 ∷ [])
unfolding new write write_loop add_capacity set_position seek read read_loop link_nodes read_from
session_ok = refl

-- Two nodes of two bytes, three of them written, and the cursor at the second byte.
abbrev sample : ByteArray
sample = record {
  base_size = 2;
  position = 1;
  capacity = 4;
  size = 3;
  endian = big;
  before = [];
  after = (1 ∷ 2 ∷ []) ∷ (3 ∷ 0 ∷ []) ∷ [];
  fresh = 0;
}

sample-IsValid : IsValid sample
sample-IsValid = record {
  base_pos = omega arith;
  cursor = record {
    low = omega arith;
    high = omega arith;
    before_sized = tt;
    after_sized = (refl, (refl, tt));
  };
  rooted = omega arith;
  linked = refl;
  position_le = omega arith;
  size_le = omega arith;
}

-- The same buffer when it is full, with the cursor behind its last node.
abbrev full : ByteArray
full = record sample {
  position = 4;
  size = 4;
  before = (1 ∷ 2 ∷ []) ∷ (3 ∷ 0 ∷ []) ∷ [];
  after = [];
}

full-IsValid : IsValid full
full-IsValid = record {
  base_pos = omega arith;
  cursor = record {
    low = omega arith;
    high = omega arith;
    before_sized = (refl, (refl, tt));
    after_sized = tt;
  };
  rooted = omega arith;
  linked = refl;
  position_le = omega arith;
  size_le = omega arith;
}

abbrev payload : Bytes
payload = 7 ∷ 8 ∷ 9 ∷ 10 ∷ []

add_capacity-Grows_example : (b' : ByteArray) × (add_capacity 9 full ≡ ok b') × Grows 9 full b'
add_capacity-Grows_example = add_capacity-Grows 9 full full-IsValid

write-WriteOf_example :
    (b' : ByteArray) × (write payload sample ≡ ok b') × WriteOf payload sample b'
write-WriteOf_example = write-WriteOf payload sample sample-IsValid

read-ReadOf_example :
    (b' : ByteArray) × (read 2 sample ≡ ok (take 2 (drop sample.position (flat sample)), b'))
    × ReadOf 2 sample b'
read-ReadOf_example = read-ReadOf 2 sample sample-IsValid (omega arith) (omega arith)

read_past_example : read 3 sample ≡ out_of_range
read_past_example = read_past 3 sample (omega arith)

read_none_at_end_example : read 0 full ≡ null_deref
read_none_at_end_example = read_none_at_end full full-IsValid refl

set_position-SeekOf_example :
    (b' : ByteArray) × (set_position 4 sample ≡ ok b') × SeekOf 4 sample b'
set_position-SeekOf_example = set_position-SeekOf 4 sample sample-IsValid (omega arith)

set_position_past_example : set_position 5 sample ≡ out_of_range
set_position_past_example = set_position_past 5 sample (omega arith)

read-set_position-write_example :
    (b1 : ByteArray) × (b2 : ByteArray) × (b3 : ByteArray) × (write payload sample ≡ ok b1)
    × (set_position sample.position b1 ≡ ok b2)
    × (read (length payload) b2 ≡ ok (payload, b3))
    × (b3.position ≡ b1.position)
read-set_position-write_example =
    read-set_position-write payload sample sample-IsValid (omega arith)

read_fixed-write_fixed_example :
    (b1 : ByteArray) × (b2 : ByteArray) × (b3 : ByteArray) × (write_fixed 4 305419896 sample
      ≡ ok b1)
    × (set_position sample.position b1 ≡ ok b2)
    × (read_fixed 4 b2 ≡ ok (305419896, b3))
read_fixed-write_fixed_example =
    read_fixed-write_fixed 4 305419896 sample sample-IsValid (omega arith) (omega arith)

write_uint32-Encodes_example :
    (tmp : Bytes) × (b' : ByteArray) × (write_uint32 300 sample ≡ ok b')
    × Encodes 5 300 tmp
    × WriteOf tmp sample b'
write_uint32-Encodes_example = write_uint32-Encodes 300 sample (omega arith) sample-IsValid

read_int64-write_int64_example :
    (b1 : ByteArray) × (b2 : ByteArray) × (b3 : ByteArray) × (write_int64 4294967295 sample ≡ ok b1)
    × (set_position sample.position b1 ≡ ok b2)
    × (read_int64 b2 ≡ ok (4294967295, b3))
read_int64-write_int64_example =
    read_int64-write_int64 4294967295 sample (omega arith) sample-IsValid

read-write_string_vint_example :
    (b1 : ByteArray) × (b2 : ByteArray) × (b3 : ByteArray) × (write_string_vint payload sample
      ≡ ok b1)
    × (set_position sample.position b1 ≡ ok b2)
    × (read_string_vint b2 ≡ ok (payload, b3))
read-write_string_vint_example =
    read-write_string_vint payload sample sample-IsValid (omega arith) (omega arith)

read-write_string_f16_example :
    (b1 : ByteArray) × (b2 : ByteArray) × (b3 : ByteArray) × (write_string_f16 payload sample
      ≡ ok b1)
    × (set_position sample.position b1 ≡ ok b2)
    × (read_string_f16 b2 ≡ ok (payload, b3))
read-write_string_f16_example =
    read-write_string_f16 payload sample sample-IsValid (omega arith) (omega arith)

get_read_buffers-gather_example :
    (iovs : List Iovec) × (get_read_buffers 9 sample ≡ ok (min 9 (get_read_size sample), iovs))
    × (gather (sample.before ++ sample.after) iovs
        ≡ take (min 9 (get_read_size sample)) (drop sample.position (flat sample)))
get_read_buffers-gather_example = get_read_buffers-gather 9 sample sample-IsValid
