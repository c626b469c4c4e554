-- ===== src/ByteArray/State.antt =====
-- The state of a ByteArray and the operations that move bytes and the cursor (src/bytearray.cc).
--
-- The linked list is cut at `m_cur`: `before` holds the nodes in front of it, `after` those from
-- it on. So `m_root` is the first node of `before ++ after`, and `m_cur` is null exactly when
-- `after` is empty. A node is its bytes; `m_cur->size` is their number. A `size_t` is a number
-- without a bound: the sizes of allocated memory stay far below 2 ^ 64.
use muqiu.Common.{ℕ, ◌+◌, ◌-◌, ◌*◌, ◌/◌, ◌%◌, ◌^◌, Bool, true, false}
use muqiu.Common.{List, [], ◌∷◌, ◌++◌, length, take, drop, replicate}
use muqiu.Common.{if◌then◌else◌, ltb, leb, ◌==◌}

-- A byte is a number below 256.
abbrev pub Bytes : Type 0
Bytes = List ℕ

-- What a call does: return, throw `std::out_of_range`, read through a null `m_cur`, or write past
-- the end of the local array `tmp` of `writeUint32` and `writeUint64`.
pub data Outcome {ℓ} (A : Type ℓ) : Type ℓ where
  ok : A → Outcome A
  out_of_range : Outcome A
  null_deref : Outcome A
  tmp_overrun : Outcome A

infixl 5 ◌>>=◌
abbrev pub ◌>>=◌ {ℓ κ} : {A : Type ℓ} {B : Type κ} → Outcome A → (A → Outcome B) → Outcome B
ok a >>= f = f a
out_of_range >>= f = out_of_range
null_deref >>= f = null_deref
tmp_overrun >>= f = tmp_overrun

-- SYLAR_LITTLE_ENDIAN and SYLAR_BIG_ENDIAN of include/ntmlgb.h.
pub data Endian : Type 0 where
  little big : Endian

pub record ByteArray : Type 0 where
  pub base_size : ℕ
  pub position : ℕ
  pub capacity : ℕ
  pub size : ℕ
  pub endian : Endian
  pub before : List Bytes
  pub after : List Bytes
  -- What fresh memory holds: C++ leaves it open, and no theorem fixes it.
  pub fresh : ℕ

-- `new Node(size)`.
abbrev pub new_node : ℕ → ℕ → Bytes
new_node size fresh = replicate size fresh

unfoldable pub new : ℕ → ℕ → ByteArray
new base_size fresh = record {
  base_size = base_size;
  position = 0;
  capacity = base_size;
  size = 0;
  endian = big;
  before = [];
  after = new_node base_size fresh ∷ [];
  fresh = fresh;
}

abbrev pub get_read_size : ByteArray → ℕ
get_read_size b = b.size - b.position

abbrev pub get_capacity : ByteArray → ℕ
get_capacity b = b.capacity - b.position

unfoldable pub is_little_endian : ByteArray → Bool
is_little_endian b = elim b.endian [ little ↦ true | big ↦ false ]

unfoldable pub set_is_little_endian : Bool → ByteArray → ByteArray
set_is_little_endian val b = record b { endian = if val then little else big }

-- The number of nodes that `addCapacity` links: `ceil(1.0 * size / m_baseSize)`.
abbrev pub nodes_for : ℕ → ℕ → ℕ
nodes_for size base_size = (size + base_size - 1) / base_size

-- Append `count` nodes at the end of the list. With no capacity left `m_cur` becomes the first of
-- them. A null `m_cur` stays null where some capacity is left; both callers of `addCapacity` read
-- `m_cur->size` next, so that case faults here.
unfoldable pub link_nodes : Bool → ℕ → ByteArray → List Bytes → Outcome ByteArray
link_nodes true count b after = ok (record b {
  capacity = b.capacity + count * b.base_size;
  before = b.before ++ after;
  after = replicate count (new_node b.base_size b.fresh);
})
link_nodes false count b [] = null_deref
link_nodes false count b (c ∷ cs) = ok (record b {
  capacity = b.capacity + count * b.base_size;
  after = (c ∷ cs) ++ replicate count (new_node b.base_size b.fresh);
})

unfoldable pub add_capacity : ℕ → ByteArray → Outcome ByteArray
add_capacity size b =
    let old_cap = get_capacity b in
    if size == 0
    then ok b
    else if leb size old_cap
    then ok b
    else link_nodes (old_cap == 0) (nodes_for (size - old_cap) b.base_size) b b.after

-- `memcpy(node->ptr + npos, bytes, …)`.
abbrev pub overwrite : Bytes → ℕ → Bytes → Bytes
overwrite node npos bytes = take npos node ++ (bytes ++ drop (npos + length bytes) node)

-- The loop of `write`: `bytes` is what is still to be copied.
unfoldable pub write_loop : List Bytes → List Bytes → ℕ → Bytes → Outcome (List Bytes × List Bytes)
write_loop before [] npos bytes = if length bytes == 0 then ok (before, []) else null_deref
write_loop before (c ∷ after) npos bytes =
    let ncap = length c - npos in
    let filled = overwrite c npos (take ncap bytes) in
    let rest = write_loop (before ++ filled ∷ []) after 0 (drop ncap bytes) in
    if length bytes == 0
    then ok (before, c ∷ after)
    else if leb (length bytes) ncap
    then ok (
        if length c == npos + length bytes
        then (before ++ overwrite c npos bytes ∷ [], after)
        else (before, overwrite c npos bytes ∷ after))
    else rest

unfoldable pub write_bytes : Bytes → ByteArray → Outcome ByteArray
write_bytes bytes b = do
  (before, after) ← write_loop b.before b.after (b.position % b.base_size) bytes
  let position = b.position + length bytes
  ok (record b {
    position = position;
    size = if ltb b.size position then position else b.size;
    before = before;
    after = after;
  })

unfoldable pub write : Bytes → ByteArray → Outcome ByteArray
unfolding write_bytes
write bytes b =
    if length bytes == 0 then ok b else (add_capacity (length bytes) b >>= write_bytes bytes)

-- The loop of `read`: `n` bytes are still to be copied, and `buf` is what has been.
unfoldable pub read_loop :
    List Bytes → List Bytes → ℕ → ℕ → Bytes → Outcome (Bytes × List Bytes × List Bytes)
read_loop before [] npos n buf = if n == 0 then ok (buf, before, []) else null_deref
read_loop before (c ∷ after) npos n buf =
    let ncap = length c - npos in
    let rest = read_loop (before ++ c ∷ []) after 0 (n - ncap) (buf ++ take ncap (drop npos c)) in
    if n == 0
    then ok (buf, before, c ∷ after)
    else if leb n ncap
    then (let got = buf ++ take n (drop npos c) in
        ok (
          if length c == npos + n
          then (got, before ++ c ∷ [], after)
          else (got, before, c ∷ after)))
    else rest

-- `m_cur->size` is read ahead of the loop, also for no bytes.
unfoldable pub read_from :
    List Bytes → ℕ → ℕ → List Bytes → Outcome (Bytes × List Bytes × List Bytes)
read_from before npos n [] = null_deref
read_from before npos n (c ∷ after) = read_loop before (c ∷ after) npos n []

-- `read(buf, size)`: the bytes read, and the state behind them.
unfoldable pub read : ℕ → ByteArray → Outcome (Bytes × ByteArray)
read n b =
    let copied = (do
      (buf, before, after) ← read_from b.before (b.position % b.base_size) n b.after
      ok (buf, record b { position = b.position + n; before = before; after = after })) in
    if ltb (get_read_size b) n then out_of_range else copied

-- `m_size - position` on size_t, which wraps where `position` lies behind the end.
abbrev pub size_from : ℕ → ByteArray → ℕ
size_from position b = if leb position b.size then b.size - position else b.size + 2 ^ 64 - position

-- `read(buf, size, position) const`: it starts in the node `m_cur`, whatever `position` is.
unfoldable pub read_at : ℕ → ℕ → ByteArray → Outcome Bytes
read_at n position b =
    let copied = (do
      (buf, before, after) ← read_from b.before (position % b.base_size) n b.after
      ok buf) in
    if ltb (size_from position b) n then out_of_range else copied

-- `toString`: the readable bytes, with the cursor left where it is.
unfoldable pub to_string : ByteArray → Outcome Bytes
to_string b = if get_read_size b == 0 then ok [] else read_at (get_read_size b) b.position b

-- The walk of `setPosition` from `m_root`.
unfoldable pub seek : List Bytes → List Bytes → ℕ → Outcome (List Bytes × List Bytes)
seek before [] v = null_deref
seek before (c ∷ after) v =
    let next = seek (before ++ c ∷ []) after (v - length c) in
    if ltb (length c) v
    then next
    else if v == length c
    then ok (before ++ c ∷ [], after)
    else ok (before, c ∷ after)

unfoldable pub set_position : ℕ → ByteArray → Outcome ByteArray
set_position v b =
    let moved = (do
      (before, after) ← seek [] (b.before ++ b.after) v
      ok (record b {
        position = v;
        size = if ltb b.size v then v else b.size;
        before = before;
        after = after;
      })) in
    if ltb b.capacity v then out_of_range else moved

-- `clear` keeps the first node, with what it holds.
unfoldable pub clear : ByteArray → ByteArray
clear b = record b {
  position = 0;
  size = 0;
  capacity = b.base_size;
  before = [];
  after = take 1 (b.before ++ b.after);
}
