-- ===== src/ByteArray/Write.antt =====
-- `write` on the flat bytes (src/bytearray.cc).
use muqiu.Common.{ℕ, ◌+◌, ◌*◌, ◌%◌, ◌≤◌, ◌<◌, max, ◌≡◌, refl, sym, ap, ◌∙◌, arith}
use muqiu.Common.{ltb, if◌then◌else◌, pos→==_false}
use muqiu.Common.{List, [], ◌∷◌, ◌++◌, append-nil, append_assoc, length, length-append}
use muqiu.ByteArray.State.{
  Bytes, ByteArray, ok, get_capacity, overwrite, write_loop, write_bytes, write, add_capacity,
}
use muqiu.ByteArray.Overwrite.{
  contents, contents-append, length-contents, overwrite-append_right, overwrite-nil,
}
use muqiu.ByteArray.Valid.{IsCursor-offset, IsValid, flat, length-flat}
use muqiu.ByteArray.Writing.{Written, write_loop-Written}
use muqiu.ByteArray.Growing.{add_capacity-Grows, Grows}

-- What a call of `write` leaves: the bytes at the cursor, over the old ones and over what was added.
pub record WriteOf (bytes : Bytes) (b b' : ByteArray) : Type 0 where
  pub valid : IsValid b'
  pub extra : Bytes
  pub same_bytes : flat b' ≡ overwrite (flat b ++ extra) b.position bytes
  pub room : b.position + length bytes ≤ length (flat b ++ extra)
  pub position : b'.position ≡ b.position + length bytes
  pub size : b'.size ≡ max b.size (b.position + length bytes)
  pub base_size : b'.base_size ≡ b.base_size
  pub endian : b'.endian ≡ b.endian

flat_split : (b : ByteArray) → flat b ≡ contents b.before ++ contents b.after
flat_split b = contents-append b.before b.after

module _ (bytes : Bytes) (b : ByteArray) (v : IsValid b)
    (room : length bytes ≤ get_capacity b) where
  pub in_nodes :
      (npos : ℕ)
      → b.position ≡ length b.before * b.base_size + npos
      → npos + length bytes ≤ length (contents b.after)
  in_nodes npos e = omega (
    arith,
    length-contents b.base_size b.after v.cursor.after_sized,
    v.linked,
    v.position_le,
    v.size_le,
  )

  pub on_flat :
      (npos : ℕ)
      → b.position ≡ length b.before * b.base_size + npos
      → overwrite (flat b) b.position bytes
        ≡ contents b.before ++ overwrite (contents b.after) npos bytes
  on_flat npos e =
      let p : b.position ≡ length (contents b.before) + npos =
        omega (arith, length-contents b.base_size b.before v.cursor.before_sized) in
      ap (λ t. overwrite t b.position bytes) (flat_split b)
      ∙ ap (λ t. overwrite (contents b.before ++ contents b.after) t bytes) p
      ∙ overwrite-append_right (contents b.before) (contents b.after) npos bytes

  stored : List Bytes → List Bytes → ByteArray
  stored before after =
      let position = b.position + length bytes in
      record b {
        position = position;
        size = if ltb b.size position then position else b.size;
        before = before;
        after = after;
      }

  stored-eq :
      (before after : List Bytes) (npos : ℕ)
      → b.position % b.base_size ≡ npos
      → write_loop b.before b.after npos bytes ≡ ok (before, after)
      → write_bytes bytes b ≡ ok (stored before after)
  unfolding write_bytes stored
  stored-eq before after npos e h = rw (e, h)

  stored-WriteOf :
      (before after : List Bytes) (npos : ℕ)
      → b.position ≡ length b.before * b.base_size + npos
      → Written b.base_size npos bytes b.before b.after before after
      → WriteOf bytes b (stored before after)
  unfolding stored
  stored-WriteOf before after npos e w = record {
    valid = record {
      base_pos = v.base_pos;
      cursor = record {
        low = omega (arith, w.cursor.low);
        high = omega (arith, w.cursor.high);
        before_sized = w.cursor.before_sized;
        after_sized = w.cursor.after_sized;
      };
      rooted = v.rooted;
      linked = rw w.same_nodes v.linked;
      position_le = ground arith;
      size_le = ground (arith, v.size_le);
    };
    extra = [];
    same_bytes = rw append-nil (w.copied ∙ sym (on_flat npos e));
    room = rw append-nil (omega (arith, length-flat b v, v));
    position = refl;
    size = ground arith;
    base_size = refl;
    endian = refl;
  }

  write_bytes-WriteOf : (b' : ByteArray) × (write_bytes bytes b ≡ ok b') × WriteOf bytes b b'
  write_bytes-WriteOf =
      let (npos, e, lt, m) = IsCursor-offset v.cursor in
      let (before, after, h, w) =
        write_loop-Written b.base_size npos bytes b.before b.after lt v.cursor.before_sized
          v.cursor.after_sized (in_nodes npos e) in
      (stored before after, stored-eq before after npos m h, stored-WriteOf before after npos e w)

write_some :
    (bytes : Bytes) (b b1 : ByteArray)
    → 0 < length bytes
    → add_capacity (length bytes) b ≡ ok b1
    → write bytes b ≡ write_bytes bytes b1
unfolding write
write_some bytes b b1 h e = rw (pos→==_false (length bytes) h, e)

through :
    (bytes : Bytes) {b b1 b2 : ByteArray}
    → Grows (length bytes) b b1
    → WriteOf bytes b1 b2
    → WriteOf bytes b b2
through bytes {b} {b1} {b2} g w = record {
  valid = w.valid;
  extra = g.extends.extra ++ w.extra;
  same_bytes = w.same_bytes ∙ rw (g.extends.same_bytes, g.extends.position, append_assoc);
  room = omega (
    arith,
    w.room,
    g.extends.position,
    ap length g.extends.same_bytes,
    length-append (flat b1) w.extra,
    length-append (flat b) g.extends.extra,
    length-append (flat b) (g.extends.extra ++ w.extra),
    length-append g.extends.extra w.extra,
  );
  position = omega (arith, w.position, g.extends.position);
  size = omega (arith, w.size, g.extends.position, g.extends.size);
  base_size = w.base_size ∙ g.extends.base_size;
  endian = w.endian ∙ g.extends.endian;
}

write_nothing : (b : ByteArray) → IsValid b → WriteOf [] b b
write_nothing b v = record {
  valid = v;
  extra = [];
  same_bytes = rw (overwrite-nil (flat b ++ []) b.position, append-nil);
  room = rw append-nil (omega (arith, length-flat b v, v));
  position = omega arith;
  size = omega (arith, v.position_le);
  base_size = refl;
  endian = refl;
}

-- On a well-formed buffer `write` returns (it never runs through a null node), leaves a
-- well-formed buffer, and does to the flat bytes what one copy at the cursor does to an array that
-- grows on demand; the cursor moves behind the bytes, the size becomes at least that, and block
-- size and byte order stay.
pub write-WriteOf :
    (bytes : Bytes) (b : ByteArray)
    → IsValid b
    → (b' : ByteArray) × (write bytes b ≡ ok b') × WriteOf bytes b b'
write-WriteOf [] b v = (b, unfold write in refl, write_nothing b v)
write-WriteOf (x ∷ xs) b v =
    let bytes : Bytes = x ∷ xs in
    let (b1, e, g) = add_capacity-Grows (length bytes) b v in
    let (b2, e', w) = write_bytes-WriteOf bytes b1 g.valid g.room in
    (b2, write_some bytes b b1 (omega arith) e ∙ e', through bytes g w)
