-- ===== src/ByteArray/Fixed.antt =====
-- Integers of fixed width in either byte order (src/bytearray.cc, include/ntmlgb.h).
--
-- A signed integer is its bit pattern, so `writeFint16` and `writeFuint16` are one function, and
-- so on. The host is little-endian: `SYLAR_BYTE_ORDER` is `SYLAR_LITTLE_ENDIAN`.
use muqiu.Common.{ℕ, zero, suc, ◌+◌, ◌*◌, ◌/◌, ◌%◌, ◌^◌, ◌<◌, ◌≡◌, refl, sym, ap, ◌∙◌, arith}
use muqiu.Common.{[], ◌∷◌, reverse, length, All, if◌then◌else◌, Bool, true, false}
use muqiu.ByteArray.State.{
  Bytes, ByteArray, Outcome, ok, read, write, set_position, is_little_endian, ◌>>=◌,
}
use muqiu.ByteArray.Valid.{IsValid, readable}
use muqiu.ByteArray.Write.{write-WriteOf}
use muqiu.ByteArray.Stream.{Holds, read-Holds, rewind-Holds}
use mathlib.Core.Path.{subst}
use mathlib.Core.List.{reverse-reverse, reverse_aux}
use native.Mathlib.Nat.{pow-suc}

abbrev pub IsByte : ℕ → Type 0
IsByte n = n < 256

-- The `k` bytes of an integer in memory, and the integer that bytes in memory stand for.
abbrev pub to_memory : ℕ → ℕ → Bytes
to_memory zero v = []
to_memory (suc k) v = (v % 256) ∷ to_memory k (v / 256)

abbrev pub from_memory : Bytes → ℕ
from_memory [] = 0
from_memory (x ∷ xs) = x + 256 * from_memory xs

-- `bswap_16`, `bswap_32` and `bswap_64` reverse the bytes.
unfoldable pub byteswap : ℕ → ℕ → ℕ
byteswap k v = from_memory (reverse (to_memory k v))

-- The bodies that the functions of one width share.
abbrev pub write_fixed : ℕ → ℕ → ByteArray → Outcome ByteArray
write_fixed k value b =
    write (to_memory k (if is_little_endian b then value else byteswap k value)) b

abbrev pub read_fixed : ℕ → ByteArray → Outcome (ℕ × ByteArray)
read_fixed k b = do
  (buf, b') ← read k b
  let v = from_memory buf
  ok (if is_little_endian b then v else byteswap k v, b')

unfoldable pub write_fint8 : ℕ → ByteArray → Outcome ByteArray
write_fint8 value b = write (to_memory 1 value) b

unfoldable pub write_fuint8 : ℕ → ByteArray → Outcome ByteArray
write_fuint8 value b = write (to_memory 1 value) b

unfoldable pub write_fint16 : ℕ → ByteArray → Outcome ByteArray
write_fint16 = write_fixed 2

unfoldable pub write_fuint16 : ℕ → ByteArray → Outcome ByteArray
write_fuint16 = write_fixed 2

unfoldable pub write_fint32 : ℕ → ByteArray → Outcome ByteArray
write_fint32 = write_fixed 4

unfoldable pub write_fuint32 : ℕ → ByteArray → Outcome ByteArray
write_fuint32 = write_fixed 4

unfoldable pub write_fint64 : ℕ → ByteArray → Outcome ByteArray
write_fint64 = write_fixed 8

unfoldable pub write_fuint64 : ℕ → ByteArray → Outcome ByteArray
write_fuint64 = write_fixed 8

unfoldable pub read_fint8 : ByteArray → Outcome (ℕ × ByteArray)
read_fint8 b = do (buf, b') ← read 1 b; ok (from_memory buf, b')

unfoldable pub read_fuint8 : ByteArray → Outcome (ℕ × ByteArray)
read_fuint8 b = do (buf, b') ← read 1 b; ok (from_memory buf, b')

unfoldable pub read_fint16 : ByteArray → Outcome (ℕ × ByteArray)
read_fint16 = read_fixed 2

unfoldable pub read_fuint16 : ByteArray → Outcome (ℕ × ByteArray)
read_fuint16 = read_fixed 2

unfoldable pub read_fint32 : ByteArray → Outcome (ℕ × ByteArray)
read_fint32 = read_fixed 4

unfoldable pub read_fuint32 : ByteArray → Outcome (ℕ × ByteArray)
read_fuint32 = read_fixed 4

unfoldable pub read_fint64 : ByteArray → Outcome (ℕ × ByteArray)
read_fint64 = read_fixed 8

unfoldable pub read_fuint64 : ByteArray → Outcome (ℕ × ByteArray)
read_fuint64 = read_fixed 8

pub length-to_memory : (k v : ℕ) → length (to_memory k v) ≡ k
length-to_memory zero v = refl
length-to_memory (suc k) v = ap suc (length-to_memory k (v / 256))

pub from_memory-to_memory : (k v : ℕ) → v < 256 ^ k → from_memory (to_memory k v) ≡ v
from_memory-to_memory zero v h = omega arith
from_memory-to_memory (suc k) v h =
    omega (arith, from_memory-to_memory k (v / 256) (omega (arith, pow-suc 256 k)))

to_memory-IsByte : (k v : ℕ) → All IsByte (to_memory k v)
to_memory-IsByte zero v = tt
to_memory-IsByte (suc k) v = (omega arith, to_memory-IsByte k (v / 256))

to_memory-from_memory : (bs : Bytes) → All IsByte bs → to_memory (length bs) (from_memory bs) ≡ bs
to_memory-from_memory [] h = refl
to_memory-from_memory (x ∷ xs) h =
    let low : (x + 256 * from_memory xs) % 256 ≡ x = omega arith in
    let high : (x + 256 * from_memory xs) / 256 ≡ from_memory xs = omega arith in
    rw (low, high, to_memory-from_memory xs h.1)

length-reverse_aux : (xs ys : Bytes) → length (reverse_aux xs ys) ≡ length xs + length ys
length-reverse_aux [] ys = omega arith
length-reverse_aux (x ∷ xs) ys = omega (arith, length-reverse_aux xs (x ∷ ys))

length-reverse : (xs : Bytes) → length (reverse xs) ≡ length xs
length-reverse xs = omega (arith, length-reverse_aux xs [])

All-reverse_aux : (xs ys : Bytes) → All IsByte xs → All IsByte ys → All IsByte (reverse_aux xs ys)
All-reverse_aux [] ys h k = k
All-reverse_aux (x ∷ xs) ys h k = All-reverse_aux xs (x ∷ ys) h.1 (h.0, k)

All-reverse : (xs : Bytes) → All IsByte xs → All IsByte (reverse xs)
All-reverse xs h = All-reverse_aux xs [] h tt

from_memory-lt : (bs : Bytes) → All IsByte bs → from_memory bs < 256 ^ length bs
from_memory-lt [] h = omega arith
from_memory-lt (x ∷ xs) h = omega (arith, from_memory-lt xs h.1, pow-suc 256 (length xs))

byteswap-lt : (k v : ℕ) → byteswap k v < 256 ^ k
unfolding byteswap
byteswap-lt k v =
    let m : Bytes = to_memory k v in
    let n : length (reverse m) ≡ k = length-reverse m ∙ length-to_memory k v in
    let h = from_memory-lt (reverse m) (All-reverse m (to_memory-IsByte k v)) in
    subst (λ j. from_memory (reverse m) < 256 ^ j) n h

-- Swapping twice gives the number back.
pub byteswap-byteswap : (k v : ℕ) → v < 256 ^ k → byteswap k (byteswap k v) ≡ v
unfolding byteswap
byteswap-byteswap k v h =
    let m : Bytes = to_memory k v in
    let n : length (reverse m) ≡ k = length-reverse m ∙ length-to_memory k v in
    let e : to_memory k (from_memory (reverse m)) ≡ reverse m =
      ap (λ j. to_memory j (from_memory (reverse m))) (sym n)
      ∙ to_memory-from_memory (reverse m) (All-reverse m (to_memory-IsByte k v)) in
    rw (e, reverse-reverse) (from_memory-to_memory k v h)

-- The bytes that a write of the value leaves in the buffer.
abbrev pub stored : ℕ → ByteArray → ℕ → Bytes
stored k b v = to_memory k (if is_little_endian b then v else byteswap k v)

same_order : (b b' : ByteArray) → b'.endian ≡ b.endian → is_little_endian b' ≡ is_little_endian b
unfolding is_little_endian
same_order b b' e = rw e

swap_back :
    (little : Bool) (k v : ℕ)
    → v < 256 ^ k
    → let w = from_memory (to_memory k (if little then v else byteswap k v)) in
      (if little then w else byteswap k w) ≡ v
swap_back true k v h = from_memory-to_memory k v h
swap_back false k v h =
    rw (from_memory-to_memory k (byteswap k v) (byteswap-lt k v)) (byteswap-byteswap k v h)

-- A fixed-width read of a buffer with a stored value in front of the cursor returns the value, in
-- either byte order, and leaves what follows.
pub read_fixed-Holds :
    (k v : ℕ) (rest : Bytes) (b : ByteArray)
    → 0 < k
    → v < 256 ^ k
    → Holds (stored k b v) rest b
    → (b' : ByteArray) × (read_fixed k b ≡ ok (v, b'))
      × IsValid b'
      × (readable b' ≡ rest)
      × (b'.endian ≡ b.endian)
read_fixed-Holds k v rest b hk hv h =
    let bs : Bytes = stored k b v in
    let n : length bs ≡ k = length-to_memory k (if is_little_endian b then v else byteswap k v) in
    let (b', e, valid, left, same) = read-Holds bs rest b h (omega arith) in
    let r : read k b ≡ ok (bs, b') = subst (λ (j : ℕ). read j b ≡ ok (bs, b')) n e in
    (b', rw r (ap (λ t. ok (t, b')) (swap_back (is_little_endian b) k v hv)), valid, left, same)

-- The stored bytes depend on the byte order alone.
pub stored_order :
    (k v : ℕ) (b b2 : ByteArray) (rest : Bytes)
    → b2.endian ≡ b.endian
    → Holds (stored k b v) rest b2
    → Holds (stored k b2 v) rest b2
stored_order k v b b2 rest same h =
    subst (λ (t : Bool). Holds (to_memory k (if t then v else byteswap k v)) rest b2)
      (sym (same_order b b2 same)) h

-- A value that is written in any width and byte order is read back after a return to its place.
pub read_fixed-write_fixed :
    (k v : ℕ) (b : ByteArray)
    → IsValid b
    → 0 < k
    → v < 256 ^ k
    → (b1 : ByteArray) × (b2 : ByteArray) × (b3 : ByteArray) × (write_fixed k v b ≡ ok b1)
      × (set_position b.position b1 ≡ ok b2)
      × (read_fixed k b2 ≡ ok (v, b3))
read_fixed-write_fixed k v b valid hk hv =
    let bs : Bytes = stored k b v in
    let (b1, e1, w) = write-WriteOf bs b valid in
    let (rest, b2, e2, h, same) = rewind-Holds bs b b1 valid w in
    let h2 = stored_order k v b b2 rest same h in
    let (b3, e3, _, _, _) = read_fixed-Holds k v rest b2 hk hv h2 in (b1, b2, b3, e1, e2, e3)
