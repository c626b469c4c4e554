-- ===== src/ByteArray/Buffers.antt =====
-- The windows on the memory of a ByteArray that `readv` and `writev` take: `getReadBuffers` and
-- `getWriteBuffers` (src/bytearray.cc).
use muqiu.Common.{ℕ, zero, suc, ◌+◌, ◌-◌, ◌/◌, ◌%◌}
use muqiu.Common.{List, [], ◌∷◌, ◌++◌, length, set, take, drop}
use muqiu.Common.{if◌then◌else◌, ltb, leb, ◌==◌}
use muqiu.ByteArray.State.{
  Bytes, ByteArray, Outcome, ok, null_deref, ◌>>=◌, overwrite, get_read_size, add_capacity,
}

-- An `iovec`: `iov_base` is an offset in the node of that number, counted from `m_root`.
pub record Iovec : Type 0 where
  pub node : ℕ
  pub offset : ℕ
  pub len : ℕ

-- The loop of all three, from the node of number `i` on. It reads the size of the next node before
-- it knows that there is one.
unfoldable pub windows : ℕ → List Bytes → ℕ → ℕ → Outcome (List Iovec)
windows i [] npos len = if len == 0 then ok [] else null_deref
windows i (c ∷ cs) npos len =
    let ncap = length c - npos in
    let over : Outcome (List Iovec) = (do
      rest ← windows (i + 1) cs 0 (len - ncap)
      ok (record { node = i; offset = npos; len = ncap } ∷ rest)) in
    if len == 0
    then ok []
    else if leb len ncap
    then ok (record { node = i; offset = npos; len = len } ∷ [])
    else over

unfoldable pub get_read_buffers : ℕ → ByteArray → Outcome (ℕ × List Iovec)
get_read_buffers len b =
    let size = if ltb (get_read_size b) len then get_read_size b else len in
    let found : Outcome (ℕ × List Iovec) = (do
      iovs ← windows (length b.before) b.after (b.position % b.base_size) size
      ok (size, iovs)) in
    if size == 0 then ok (0, []) else found

-- `getReadBuffers(buffers, len, position)`: the length is cut to what is readable at the cursor,
-- not to what there is behind `position`.
unfoldable pub get_read_buffers_at : ℕ → ℕ → ByteArray → Outcome (ℕ × List Iovec)
get_read_buffers_at len position b =
    let size = if ltb (get_read_size b) len then get_read_size b else len in
    let count = position / b.base_size in
    let found : Outcome (ℕ × List Iovec) = (do
      iovs ← windows count (drop count (b.before ++ b.after)) (position % b.base_size) size
      ok (size, iovs)) in
    if size == 0 then ok (0, []) else found

unfoldable pub get_write_buffers : ℕ → ByteArray → Outcome ((ℕ × List Iovec) × ByteArray)
get_write_buffers len b =
    let found : Outcome ((ℕ × List Iovec) × ByteArray) = (do
      b' ← add_capacity len b
      iovs ← windows (length b'.before) b'.after (b'.position % b'.base_size) len
      ok ((len, iovs), b')) in
    if len == 0 then ok ((0, []), b) else found

-- What the system does with windows. `writev` takes the bytes that they show, in order, and `readv`
-- fills them, in order, with the bytes that have come.
abbrev pub node_at : List Bytes → ℕ → Bytes
node_at [] i = []
node_at (c ∷ cs) zero = c
node_at (c ∷ cs) (suc i) = node_at cs i

abbrev pub gather : List Bytes → List Iovec → Bytes
gather nodes [] = []
gather nodes (v ∷ vs) = take v.len (drop v.offset (node_at nodes v.node)) ++ gather nodes vs

abbrev pub fill : List Bytes → List Iovec → Bytes → List Bytes
fill nodes [] bytes = nodes
fill nodes (v ∷ vs) bytes =
    fill (set nodes v.node (overwrite (node_at nodes v.node) v.offset (take v.len bytes))) vs
      (drop v.len bytes)
