-- ===== src/ByteArray/VarintLaws.antt =====
-- Variable-length integers are stored within `tmp` and read back (src/bytearray.cc).
use Prim.Native.Nat.{bit_and, bit_or}
use muqiu.Common.{
  ℕ, zero, suc, ◌+◌, ◌*◌, ◌/◌, ◌%◌, ◌^◌, ◌≤◌, ◌<◌, ◌≡◌, sym, ap, ◌∙◌, arith, inl, inr, ◌⊎◌,
}
use muqiu.Common.{lt→ltb, some, some_inj, le→ltb_false}
use muqiu.Common.{[], ◌∷◌, ◌++◌, length}
use muqiu.Common.Bits.{bit_or-shifted, bit_and_7f, bit_or_80}
use muqiu.ByteArray.State.{Bytes, ByteArray, ok, set_position, ◌>>=◌}
use muqiu.ByteArray.Valid.{IsValid, readable}
use muqiu.ByteArray.Write.{WriteOf, write-WriteOf}
use muqiu.ByteArray.Stream.{Holds, read-Holds, rewind-Holds}
use muqiu.ByteArray.Fixed.{read_fuint8}
use muqiu.ByteArray.Zigzag.{
  encode_zigzag32, encode_zigzag64, decode-encode_zigzag32, decode-encode_zigzag64,
}
use muqiu.ByteArray.Varint.{
  groups, write_uint32, write_uint64, write_int32, write_int64, read_groups, read_uint32,
  read_uint64, read_int32, read_int64,
}
use mathlib.Core.Path.{subst}
use native.Mathlib.Nat.{pow-suc, mod-eq_of_lt, div-add-mod}
use native.Mathlib.Numerals.{towards_suc}

abbrev group : ℕ → ℕ
group value = bit_or (bit_and value 0x7f) 0x80

group_value : (value : ℕ) → group value ≡ value % 128 + 128
group_value value = rw (bit_and_7f value) (bit_or_80 (value % 128) (omega arith))

last_group : (room value : ℕ) → value < 128 → groups (suc room) value ≡ some (value ∷ [])
unfolding groups
last_group room value h = rw (lt→ltb value 128 h, groups)

inner_group :
    (room value : ℕ) {tmp : Bytes}
    → 128 ≤ value
    → groups room (value / 128) ≡ some tmp
    → groups (suc room) value ≡ some (group value ∷ tmp)
unfolding groups
inner_group room value {tmp} h e = rw (le→ltb_false 128 value h, groups) (rw e)

small_or_large : (v : ℕ) → (v < 128) ⊎ (128 ≤ v)
small_or_large v = grind arith

-- With room for k + 1 groups every number below 128 ^ (k + 1) is stored, and in no more bytes.
groups_fit :
    (k value : ℕ)
    → value < 128 ^ suc k
    → (tmp : Bytes) × (groups (suc k) value ≡ some tmp) × (0 < length tmp) × (length tmp ≤ suc k)
groups_fit zero value h =
    (value ∷ [], last_group zero value (omega arith), omega arith, omega arith)
groups_fit (suc k) value h = elim (small_or_large value) [
  | inl e ↦ (value ∷ [], last_group (suc k) value e, omega arith, omega arith)
  | inr e ↦
      let (tmp, p, lo, hi) = groups_fit k (value / 128) (omega (arith, pow-suc 128 (suc k))) in
      (group value ∷ tmp, inner_group (suc k) value e p, omega arith, omega arith)
]

-- One byte from the front.
next_byte :
    (x : ℕ) (bs rest : Bytes) (b : ByteArray)
    → Holds (x ∷ bs) rest b
    → (b' : ByteArray) × (read_fuint8 b ≡ ok (x, b')) × Holds bs rest b' × (b'.endian ≡ b.endian)
unfolding read_fuint8
next_byte x bs rest b h =
    let one : Holds (x ∷ []) (bs ++ rest) b = record { valid = h.valid; front = h.front } in
    let (b', e, valid, left, same) = read-Holds (x ∷ []) (bs ++ rest) b one (omega arith) in
    (b', rw e (ap (λ t. ok (t, b')) (omega arith)), record { valid = valid; front = left }, same)

two_pow_seven : (i : ℕ) → 2 ^ (i + 7) ≡ 128 * 2 ^ i
two_pow_seven i = simp towards_suc (omega arith)

module _ (w i result : ℕ) (h : result < 2 ^ i) where
  -- `result |= group << i`.
  add_group :
      (x : ℕ) → result + x * 2 ^ i < 2 ^ w → bit_or result (x * 2 ^ i % 2 ^ w) ≡ result + x * 2 ^ i
  add_group x fits = ap (bit_or result) (mod-eq_of_lt (omega arith)) ∙ bit_or-shifted i result x h

-- What a read leaves of a buffer whose front it took.
abbrev pub Took : Bytes → ByteArray → ByteArray → Type 0
Took rest b b' = IsValid b' × (readable b' ≡ rest) × (b'.endian ≡ b.endian)

module _ (w rounds i result : ℕ) (b b' : ByteArray) (x : ℕ) (e : read_fuint8 b ≡ ok (x, b')) where
  read_last :
      x < 128 → read_groups w (suc rounds) i result b ≡ ok (bit_or result (x * 2 ^ i % 2 ^ w), b')
  unfolding read_groups
  read_last h = rw (e, ◌>>=◌) (rw (lt→ltb x 128 h))

  read_inner :
      128 ≤ x
      → read_groups w (suc rounds) i result b
        ≡ read_groups w rounds (i + 7) (bit_or result (bit_and x 0x7f * 2 ^ i % 2 ^ w)) b'
  unfolding read_groups
  read_inner h = rw (e, ◌>>=◌) (rw (le→ltb_false 128 x h))

-- The value is split into its lowest group and the others.
regroup :
    (result value i : ℕ)
    → result + value % 128 * 2 ^ i + value / 128 * 2 ^ (i + 7) ≡ result + value * 2 ^ i
regroup result value i = omega (
  arith,
  ap (λ (t : ℕ). value / 128 * t) (two_pow_seven i),
  ap (λ (t : ℕ). t * 2 ^ i) (div-add-mod value 128),
)

below : (i result value : ℕ) → result < 2 ^ i → result + value % 128 * 2 ^ i < 2 ^ (i + 7)
below i result value h =
    rw (two_pow_seven i) (grind (arith, ap (λ (t : ℕ). t * 2 ^ i) (div-add-mod value 128)))

one_group :
    (w k value i result : ℕ) (tmp rest : Bytes) (b : ByteArray)
    → value < 128
    → groups (suc k) value ≡ some tmp
    → result < 2 ^ i
    → result + value * 2 ^ i < 2 ^ w
    → Holds tmp rest b
    → (b' : ByteArray) × (read_groups w (suc k) i result b ≡ ok (result + value * 2 ^ i, b'))
      × Took rest b b'
one_group w k value i result tmp rest b bound e h fits holds =
    let same : tmp ≡ value ∷ [] = some_inj (sym e ∙ last_group k value bound) in
    let (b', r, left, order) = next_byte value [] rest b (subst (λ t. Holds t rest b) same holds) in
    (
      b',
      read_last w k i result b b' value r bound
          ∙ ap (λ t. ok (t, b')) (add_group w i result h value fits),
      (left.valid, left.front, order),
    )

-- After the groups of a number the loop has added it, shifted, to the result.
read_groups-groups :
    (w k value i result : ℕ) (tmp rest : Bytes) (b : ByteArray)
    → value < 128 ^ suc k
    → groups (suc k) value ≡ some tmp
    → result < 2 ^ i
    → result + value * 2 ^ i < 2 ^ w
    → Holds tmp rest b
    → (b' : ByteArray) × (read_groups w (suc k) i result b ≡ ok (result + value * 2 ^ i, b'))
      × Took rest b b'
read_groups-groups w zero value i result tmp rest b bound e h fits holds =
    one_group w zero value i result tmp rest b (omega arith) e h fits holds
read_groups-groups w (suc k) value i result tmp rest b bound e h fits holds =
    elim (small_or_large value) [
      | inl small ↦ one_group w (suc k) value i result tmp rest b small e h fits holds
      | inr large ↦
          let (tmp', p, _, _) = groups_fit k (value / 128) (omega (arith, pow-suc 128 (suc k))) in
          let same : tmp ≡ group value ∷ tmp' =
            some_inj (sym e ∙ inner_group (suc k) value large p) in
          let (b', r, left, order) =
            next_byte (group value) tmp' rest b (subst (λ t. Holds t rest b) same holds) in
          let x : group value ≡ value % 128 + 128 = group_value value in
          let low : bit_and (group value) 0x7f ≡ value % 128 =
            bit_and_7f (group value) ∙ omega (arith, x) in
          let next : ℕ = result + value % 128 * 2 ^ i in
          let (b2, r2, (valid, front, order2)) =
            read_groups-groups w k (value / 128) (i + 7) next tmp' rest b'
              (omega (arith, pow-suc 128 (suc k))) p (below i result value h)
              (omega (arith, regroup result value i)) left in
          (
            b2,
            read_inner w (suc k) i result b b' (group value) r (omega (arith, x))
                ∙ ap (λ t. read_groups w (suc k) (i + 7) t b')
                    (ap (λ t. bit_or result (t * 2 ^ i % 2 ^ w)) low
                      ∙ add_group w i result h (value % 128)
                          (omega (arith, regroup result value i)))
                ∙ r2
                ∙ ap (λ t. ok (t, b2)) (regroup result value i),
            (valid, front, order2 ∙ order),
          )
    ]

-- The bytes that a write of the value leaves: as many groups as it needs, at most 5 (10).
pub record Encodes (room : ℕ) (value : ℕ) (tmp : Bytes) : Type 0 where
  pub encoded : groups room value ≡ some tmp
  pub non_empty : 0 < length tmp
  pub in_room : length tmp ≤ room

pub read_uint32-Holds :
    (value : ℕ) (tmp rest : Bytes) (b : ByteArray)
    → value < 2 ^ 32
    → Encodes 5 value tmp
    → Holds tmp rest b
    → (b' : ByteArray) × (read_uint32 b ≡ ok (value, b')) × Took rest b b'
unfolding read_uint32
read_uint32-Holds value tmp rest b h enc holds =
    let (b', e, took) =
      read_groups-groups 32 4 value 0 0 tmp rest b (omega arith) enc.encoded (omega arith)
        (omega arith) holds in
    (b', e ∙ ap (λ t. ok (t, b')) (omega arith), took)

pub read_uint64-Holds :
    (value : ℕ) (tmp rest : Bytes) (b : ByteArray)
    → value < 2 ^ 64
    → Encodes 10 value tmp
    → Holds tmp rest b
    → (b' : ByteArray) × (read_uint64 b ≡ ok (value, b')) × Took rest b b'
unfolding read_uint64
read_uint64-Holds value tmp rest b h enc holds =
    let (b', e, took) =
      read_groups-groups 64 9 value 0 0 tmp rest b (omega arith) enc.encoded (omega arith)
        (omega arith) holds in
    (b', e ∙ ap (λ t. ok (t, b')) (omega arith), took)

-- `writeUint32` of a 32-bit number fills at most the 5 elements of `tmp` and writes those bytes.
pub write_uint32-Encodes :
    (value : ℕ) (b : ByteArray)
    → value < 2 ^ 32
    → IsValid b
    → (tmp : Bytes) × (b' : ByteArray) × (write_uint32 value b ≡ ok b')
      × Encodes 5 value tmp
      × WriteOf tmp b b'
unfolding write_uint32
write_uint32-Encodes value b h valid =
    let (tmp, p, lo, hi) = groups_fit 4 value (omega arith) in
    let (b', e, w) = write-WriteOf tmp b valid in
    (tmp, b', rw p e, record { encoded = p; non_empty = lo; in_room = hi }, w)

-- `writeUint64` of a 64-bit number fills at most the 10 elements of `tmp` and writes those bytes.
pub write_uint64-Encodes :
    (value : ℕ) (b : ByteArray)
    → value < 2 ^ 64
    → IsValid b
    → (tmp : Bytes) × (b' : ByteArray) × (write_uint64 value b ≡ ok b')
      × Encodes 10 value tmp
      × WriteOf tmp b b'
unfolding write_uint64
write_uint64-Encodes value b h valid =
    let (tmp, p, lo, hi) = groups_fit 9 value (omega arith) in
    let (b', e, w) = write-WriteOf tmp b valid in
    (tmp, b', rw p e, record { encoded = p; non_empty = lo; in_room = hi }, w)

-- A 32-bit integer, given by its bit pattern, that `writeInt32` stores is read by `readInt32`
-- after a return to where it was stored; all three calls return.
pub read_int32-write_int32 :
    (value : ℕ) (b : ByteArray)
    → value < 2 ^ 32
    → IsValid b
    → (b1 : ByteArray) × (b2 : ByteArray) × (b3 : ByteArray) × (write_int32 value b ≡ ok b1)
      × (set_position b.position b1 ≡ ok b2)
      × (read_int32 b2 ≡ ok (value, b3))
unfolding write_int32 read_int32
read_int32-write_int32 value b h valid =
    let (fits, _, back) = decode-encode_zigzag32 value h in
    let (tmp, b1, e1, enc, w) = write_uint32-Encodes (encode_zigzag32 value) b fits valid in
    let (rest, b2, e2, holds, _) = rewind-Holds tmp b b1 valid w in
    let (b3, e3, _) = read_uint32-Holds (encode_zigzag32 value) tmp rest b2 fits enc holds in
    (b1, b2, b3, e1, e2, rw e3 (ap (λ t. ok (t, b3)) back))

-- A 64-bit integer, given by its bit pattern, that `writeInt64` stores is read by `readInt64`
-- after a return to where it was stored; all three calls return.
pub read_int64-write_int64 :
    (value : ℕ) (b : ByteArray)
    → value < 2 ^ 64
    → IsValid b
    → (b1 : ByteArray) × (b2 : ByteArray) × (b3 : ByteArray) × (write_int64 value b ≡ ok b1)
      × (set_position b.position b1 ≡ ok b2)
      × (read_int64 b2 ≡ ok (value, b3))
unfolding write_int64 read_int64
read_int64-write_int64 value b h valid =
    let (fits, _, back) = decode-encode_zigzag64 value h in
    let (tmp, b1, e1, enc, w) = write_uint64-Encodes (encode_zigzag64 value) b fits valid in
    let (rest, b2, e2, holds, _) = rewind-Holds tmp b b1 valid w in
    let (b3, e3, _) = read_uint64-Holds (encode_zigzag64 value) tmp rest b2 fits enc holds in
    (b1, b2, b3, e1, e2, rw e3 (ap (λ t. ok (t, b3)) back))
