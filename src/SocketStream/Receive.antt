-- ===== src/SocketStream/Receive.antt =====
-- Receiving into a ByteArray is writing to it (src/socket_stream.cc, src/bytearray.cc).
use muqiu.Common.{ℕ, zero, suc, ◌+◌, ◌*◌, ◌%◌, ◌≤◌, ◌<◌, ◌≡◌, refl, sym, ap, ◌∙◌, arith, true}
use muqiu.Common.{
  List, [], ◌∷◌, ◌++◌, map, length, length-append, length-take, length-drop, take, drop,
  take-append-drop, pos→==_false,
}
use muqiu.Common.Int.{pos}
use muqiu.ByteArray.State.{
  Bytes, ByteArray, ok, overwrite, get_capacity, add_capacity, set_position,
}
use muqiu.ByteArray.Overwrite.{contents, Sized, length-contents}
use muqiu.ByteArray.Valid.{IsValid, flat, length-flat, IsCursor-offset}
use muqiu.ByteArray.Growing.{Grows, add_capacity-Grows}
use muqiu.ByteArray.Write.{WriteOf, on_flat}
use muqiu.ByteArray.Position.{set_position-SeekOf}
use muqiu.ByteArray.Buffers.{Iovec, windows, get_write_buffers, fill}
use muqiu.ByteArray.Windows.{Shows, windows-Shows}
use muqiu.SocketStream.Calls.{Received, got, filled, advance, take_in, read_array}

-- Nodes of the same lengths.
SameLengths : List Bytes → List Bytes → Type 0
SameLengths xs ys = map length xs ≡ map length ys

head_lengths :
    (x y : Bytes) (xs ys : List Bytes)
    → map length (x ∷ xs) ≡ map length (y ∷ ys)
    → (length x ≡ length y) × (map length xs ≡ map length ys)
head_lengths x y xs ys e = (cc, cc)

same-Sized :
    (base : ℕ) (xs ys : List Bytes)
    → map length xs ≡ map length ys
    → Sized base ys
    → Sized base xs × (length xs ≡ length ys)
same-Sized base [] [] e s = (tt, refl)
same-Sized base [] (y ∷ ys) e s = absurd (ground (arith, e))
same-Sized base (x ∷ xs) [] e s = absurd (ground (arith, e))
same-Sized base (x ∷ xs) (y ∷ ys) e s =
    let (h, t) = head_lengths x y xs ys e in
    let (r, l) = same-Sized base xs ys t s.1 in ((h ∙ s.0, r), ap suc l)

Sized-cut :
    (base n : ℕ) (xs : List Bytes) → Sized base xs → Sized base (take n xs) × Sized base (drop n xs)
Sized-cut base zero xs s = (tt, s)
Sized-cut base (suc n) [] s = (tt, tt)
Sized-cut base (suc n) (x ∷ xs) s = let (l, r) = Sized-cut base n xs s.1 in ((s.0, l), r)

Sized-join : (base : ℕ) (xs ys : List Bytes) → Sized base xs → Sized base ys → Sized base (xs ++ ys)
Sized-join base [] ys s t = t
Sized-join base (x ∷ xs) ys s t = (s.0, Sized-join base xs ys s.1 t)

-- The windows of `getWriteBuffers` on a buffer with room.
pub record Opened (len : ℕ) (b : ByteArray) (vs : List Iovec) (b' : ByteArray) : Type 0 where
  pub grows : Grows len b b'
  pub npos : ℕ
  pub here : b'.position ≡ length b'.before * b'.base_size + npos
  pub shows : Shows b'.before b'.after npos len vs

get_write_buffers-Opened :
    (len : ℕ) (b : ByteArray)
    → IsValid b
    → 0 < len
    → (vs : List Iovec) × (b' : ByteArray) × (get_write_buffers len b ≡ ok ((len, vs), b'))
      × Opened len b vs b'
unfolding get_write_buffers
get_write_buffers-Opened len b v h =
    let (b', e, g) = add_capacity-Grows len b v in
    let (npos, p, hn, m) = IsCursor-offset g.valid.cursor in
    let v' = g.valid in
    let room : npos + len ≤ length (contents b'.after) = omega (
      arith,
      length-contents b'.base_size b'.after v'.cursor.after_sized,
      v'.linked,
      v'.position_le,
      v'.size_le,
      g.room,
      p,
    ) in
    let (vs, w, s) =
      windows-Shows b'.base_size b'.before b'.after npos len hn v'.cursor.after_sized room in
    (vs, b', opened_eq b' npos vs e m w, record { grows = g; npos = npos; here = p; shows = s })
  where
    opened_eq :
        (b' : ByteArray) (npos : ℕ) (vs : List Iovec)
        → add_capacity len b ≡ ok b'
        → b'.position % b'.base_size ≡ npos
        → windows (length b'.before) b'.after npos len ≡ ok vs
        → get_write_buffers len b ≡ ok ((len, vs), b')
    opened_eq b' npos vs e m w = rw (pos→==_false len h, e, m, w) refl

module _ (len : ℕ) (b b' : ByteArray) (vs : List Iovec) (bytes : Bytes) (o : Opened len b vs b')
    (fits : length bytes ≤ len) where
  some_room : length bytes ≤ get_capacity b'
  some_room = omega (arith, o.grows.room)

  filled-IsValid : IsValid (filled vs bytes b')
  filled-IsValid =
      let v = o.grows.valid in
      let all : List Bytes = b'.before ++ b'.after in
      let (sized, l) =
        same-Sized b'.base_size (fill all vs bytes) all (o.shows.same_lengths b'.before bytes refl)
          (Sized-join b'.base_size b'.before b'.after v.cursor.before_sized v.cursor.after_sized) in
      let (front, back) = Sized-cut b'.base_size (length b'.before) (fill all vs bytes) sized in
      let cut : length (take (length b'.before) (fill all vs bytes)) ≡ length b'.before = omega (
        arith,
        length-take (length b'.before) (fill all vs bytes),
        l,
        length-append b'.before b'.after,
      ) in
      let rest : length (drop (length b'.before) (fill all vs bytes)) ≡ length b'.after = omega (
        arith,
        length-drop (length b'.before) (fill all vs bytes),
        l,
        length-append b'.before b'.after,
      ) in
      record {
        base_pos = v.base_pos;
        cursor = record {
          low = rw cut v.cursor.low;
          high = rw cut v.cursor.high;
          before_sized = front;
          after_sized = back;
        };
        rooted = v.rooted;
        linked = rw (cut, rest) v.linked;
        position_le = v.position_le;
        size_le = v.size_le;
      }

  filled-flat : flat (filled vs bytes b') ≡ overwrite (flat b') b'.position bytes
  filled-flat =
      ap contents (take-append-drop (length b'.before) (fill (b'.before ++ b'.after) vs bytes))
      ∙ o.shows.filled b'.before bytes refl fits
      ∙ sym (on_flat bytes b' o.grows.valid some_room o.npos o.here)

  -- What `setPosition` makes of the filled buffer is what a `write` of the bytes would leave.
  advanced :
      (some_bytes : 0 < length bytes)
      → (b2 : ByteArray) × (set_position (b'.position + length bytes) (filled vs bytes b') ≡ ok b2)
        × WriteOf bytes b b2
  advanced some_bytes =
      let g = o.grows in
      let x = g.extends in
      let (b2, e, s) =
        set_position-SeekOf (b'.position + length bytes) (filled vs bytes b') filled-IsValid
          (omega (arith, g.room, some_bytes)) in
      (
        b2,
        e,
        record {
          valid = s.valid;
          extra = x.extra;
          same_bytes =
              s.same_bytes
              ∙ filled-flat
              ∙ ap (λ t. overwrite t b'.position bytes) x.same_bytes
              ∙ ap (λ (k : ℕ). overwrite (flat b ++ x.extra) k bytes) x.position;
          room = omega (
            arith,
            g.room,
            some_bytes,
            length-flat b' g.valid,
            ap length x.same_bytes,
            x.position,
          );
          position = omega (arith, s.position, x.position);
          size = omega (arith, s.size, x.size, x.position);
          base_size = s.base_size ∙ x.base_size;
          endian = s.endian ∙ x.endian;
        },
      )

advance-eq :
    (n : ℕ) (b b2 : ByteArray)
    → 0 < n
    → set_position (b.position + n) b ≡ ok b2
    → advance (pos n) b ≡ ok (pos n, b2)
unfolding advance
advance-eq zero b b2 h e = absurd (omega arith)
advance-eq (suc n) b b2 h e = rw e refl

-- On a connected socket and a well-formed buffer, `read` of some bytes from which `recv` gives at
-- least one and no more than were asked for returns their number, and does to the buffer exactly
-- what `write` of those bytes promises.
pub read_array-WriteOf :
    (recv : ℕ → Received) (len : ℕ) (bytes : Bytes) (b : ByteArray)
    → IsValid b
    → recv len ≡ got bytes
    → 0 < length bytes
    → length bytes ≤ len
    → (b' : ByteArray) × (read_array true recv len b ≡ ok (pos (length bytes), b'))
      × WriteOf bytes b b'
unfolding read_array take_in
read_array-WriteOf recv len bytes b v e some_bytes fits =
    let (vs, b1, w, o) = get_write_buffers-Opened len b v (omega arith) in
    let (b2, q, r) = advanced len b b1 vs bytes o fits some_bytes in
    (b2, received vs b1 b2 w (advance-eq (length bytes) (filled vs bytes b1) b2 some_bytes q), r)
  where
    received :
        (vs : List Iovec) (b1 b2 : ByteArray)
        → get_write_buffers len b ≡ ok ((len, vs), b1)
        → advance (pos (length bytes)) (filled vs bytes b1) ≡ ok (pos (length bytes), b2)
        → read_array true recv len b ≡ ok (pos (length bytes), b2)
    received vs b1 b2 w a = rw (w, e) a
