-- ===== src/ByteArray/Read.antt =====
-- `read`, `toString` and `setPosition` on the flat bytes (src/bytearray.cc).
use muqiu.Common.{ℕ, ◌+◌, ◌-◌, ◌*◌, ◌%◌, ◌≤◌, ◌<◌, ◌≡◌, ◌≢◌, refl, sym, ap, ◌∙◌, arith, inl, inr}
use muqiu.Common.{Bool-cases, ◌==◌, ==_iff, lt→ltb, le→ltb_false}
use muqiu.Common.{List, [], ◌∷◌, ◌++◌, length, length-append, take, drop, drop-append_ge}
use muqiu.ByteArray.State.{
  Bytes, ByteArray, ok, out_of_range, null_deref, get_read_size, read_loop, read_from, read,
  size_from, read_at, to_string,
}
use muqiu.ByteArray.Overwrite.{contents, contents-append, length-contents}
use muqiu.ByteArray.Valid.{IsCursor-offset, IsValid, flat}
use muqiu.ByteArray.Growing.{cursor_node, null_cursor}
use muqiu.ByteArray.Reading.{Moved, read_loop-Moved}

-- What a call of `read` leaves: only the cursor has moved.
pub record ReadOf (n : ℕ) (b b' : ByteArray) : Type 0 where
  pub valid : IsValid b'
  pub same_bytes : flat b' ≡ flat b
  pub position : b'.position ≡ b.position + n
  pub size : b'.size ≡ b.size
  pub capacity : b'.capacity ≡ b.capacity
  pub base_size : b'.base_size ≡ b.base_size
  pub endian : b'.endian ≡ b.endian

read_from_node :
    (before after : List Bytes) (npos n : ℕ)
    → after ≢ []
    → read_from before npos n after ≡ read_loop before after npos n []
unfolding read_from
read_from_node before [] npos n h = absurd (h refl)
read_from_node before (c ∷ cs) npos n h = refl

pub same_count :
    (before after xs ys : List Bytes)
    → before ++ after ≡ xs ++ ys
    → length xs + length ys ≡ length before + length after
same_count before after xs ys e =
    omega (arith, ap length e, length-append before after, length-append xs ys)

module _ (n : ℕ) (b : ByteArray) (v : IsValid b) (enough : n ≤ get_read_size b) where
  pub in_nodes :
      (npos : ℕ)
      → b.position ≡ length b.before * b.base_size + npos
      → npos + n ≤ length (contents b.after)
  in_nodes npos e = omega (
    arith,
    length-contents b.base_size b.after v.cursor.after_sized,
    v.linked,
    v.position_le,
    v.size_le,
  )

  pub from_flat :
      (npos : ℕ)
      → b.position ≡ length b.before * b.base_size + npos
      → drop npos (contents b.after) ≡ drop b.position (flat b)
  from_flat npos e =
      let h : length (contents b.before) ≡ length b.before * b.base_size =
        length-contents b.base_size b.before v.cursor.before_sized in
      let d : b.position - length (contents b.before) ≡ npos = omega (arith, h) in
      sym (
        ap (drop b.position) (contents-append b.before b.after)
        ∙ drop-append_ge b.position (contents b.before) (contents b.after) (omega (arith, h))
        ∙ ap (λ t. drop t (contents b.after)) d)

  moved : List Bytes → List Bytes → ByteArray
  moved before after = record b { position = b.position + n; before = before; after = after }

  moved-ReadOf :
      (before after : List Bytes) (npos : ℕ)
      → b.position ≡ length b.before * b.base_size + npos
      → Moved b.base_size npos n b.before b.after before after
      → ReadOf n b (moved before after)
  unfolding moved
  moved-ReadOf before after npos e w = record {
    valid = record {
      base_pos = v.base_pos;
      cursor = record {
        low = omega (arith, w.cursor.low);
        high = omega (arith, w.cursor.high);
        before_sized = w.cursor.before_sized;
        after_sized = w.cursor.after_sized;
      };
      rooted = v.rooted;
      linked =
          v.linked
          ∙ ap (λ (t : ℕ). t * b.base_size) (same_count before after b.before b.after w.same_nodes);
      position_le = omega (arith, v.position_le);
      size_le = v.size_le;
    };
    same_bytes = ap contents w.same_nodes;
    position = refl;
    size = refl;
    capacity = refl;
    base_size = refl;
    endian = refl;
  }

  moved-eq :
      (before after : List Bytes) (npos : ℕ) (buf : Bytes)
      → b.after ≢ []
      → b.position % b.base_size ≡ npos
      → read_loop b.before b.after npos n [] ≡ ok (buf, before, after)
      → read n b ≡ ok (buf, moved before after)
  unfolding read moved
  moved-eq before after npos buf h m r =
      rw (le→ltb_false n (get_read_size b) enough, read_from_node b.before b.after _ n h, m, r)

  -- On a well-formed buffer that has a node at the cursor, `read` of no more than what is readable
  -- returns that slice of the flat bytes, moves the cursor by its length and changes nothing else.
  pub read-ReadOf :
      b.position < b.capacity
      → (b' : ByteArray) × (read n b ≡ ok (take n (drop b.position (flat b)), b')) × ReadOf n b b'
  read-ReadOf h =
      let (npos, e, lt, m) = IsCursor-offset v.cursor in
      let (before, after, r, w) =
        read_loop-Moved b.base_size npos n [] b.before b.after lt v.cursor.before_sized
          v.cursor.after_sized (in_nodes npos e) in
      (
        moved before after,
        moved-eq before after npos _ (cursor_node b v (omega arith)) m
            (r ∙ ap (λ t. ok (take n t, before, after)) (from_flat npos e)),
        moved-ReadOf before after npos e w,
      )

-- A `read` of more than what is readable throws, whatever the state.
pub read_past : (n : ℕ) (b : ByteArray) → get_read_size b < n → read n b ≡ out_of_range
unfolding read
read_past n b h = rw (lt→ltb _ _ h)

-- Where the buffer is full and the cursor at its end, a `read` of no bytes goes through a null node.
pub read_none_at_end : (b : ByteArray) → IsValid b → b.position ≡ b.capacity → read 0 b ≡ null_deref
unfolding read read_from
read_none_at_end b v h =
    rw (le→ltb_false 0 (get_read_size b) (omega arith), null_cursor b v (omega arith))

whole :
    (b : ByteArray) (n npos : ℕ) {buf : Bytes} {before after : List Bytes}
    → n ≤ get_read_size b
    → b.position ≤ b.size
    → b.after ≢ []
    → b.position % b.base_size ≡ npos
    → read_loop b.before b.after npos n [] ≡ ok (buf, before, after)
    → read_at n b.position b ≡ ok buf
unfolding read_at
whole b n npos enough inside h m r = rw (
  le→ltb_false n (size_from b.position b) (ground (arith, enough, inside)),
  read_from_node b.before b.after _ n h,
  m,
  r,
)

-- On a well-formed buffer `toString` returns exactly the readable bytes, also when there are none.
pub to_string-readable :
    (b : ByteArray)
    → IsValid b
    → to_string b ≡ ok (take (get_read_size b) (drop b.position (flat b)))
unfolding to_string
to_string-readable b v = elim (Bool-cases (get_read_size b == 0)) [
  | inl e ↦ rw e (rw ((==_iff _ 0).0 e))
  | inr e ↦
      let n : ℕ = get_read_size b in
      let (npos, p, lt, m) = IsCursor-offset v.cursor in
      let (before, after, r, w) =
        read_loop-Moved b.base_size npos n [] b.before b.after lt v.cursor.before_sized
          v.cursor.after_sized (in_nodes n b v (omega arith) npos p) in
      rw e (
        whole b n npos (omega arith) v.position_le (cursor_node b v (ground (arith, v.size_le))) m
          (r ∙ ap (λ t. ok (take n t, before, after)) (from_flat n b v (omega arith) npos p)))
]
