-- ===== src/ByteArray/Position.antt =====
-- `setPosition` and `clear`, and reading back what was written (src/bytearray.cc).
use muqiu.Common.{
  ℕ, ◌+◌, ◌-◌, ◌*◌, ◌≤◌, ◌<◌, max, ◌≡◌, ◌≢◌, refl, sym, ap, ◌∙◌, arith, inl, inr, ◌⊎◌,
}
use muqiu.Common.{ltb, if◌then◌else◌, lt→ltb, le→ltb_false}
use muqiu.Common.{List, [], ◌∷◌, ◌++◌, length, length-append, take, drop}
use muqiu.ByteArray.State.{
  Bytes, ByteArray, ok, out_of_range, seek, set_position, clear, write, read,
}
use muqiu.ByteArray.Overwrite.{contents, Sized, Sized-append, slice-overwrite}
use muqiu.ByteArray.Valid.{IsValid, flat, length-flat}
use muqiu.ByteArray.Reading.{Moved, stay, step_over, run_over}
use muqiu.ByteArray.Write.{write-WriteOf}
use muqiu.ByteArray.Read.{read-ReadOf, same_count}

module _ (before : List Bytes) (c : Bytes) (after : List Bytes) (v : ℕ) where
  seek_next :
      length c < v → seek before (c ∷ after) v ≡ seek (before ++ c ∷ []) after (v - length c)
  unfolding seek
  seek_next h = ground arith

  seek_end : length c ≡ v → seek before (c ∷ after) v ≡ ok (before ++ c ∷ [], after)
  unfolding seek
  seek_end h = ground arith

  seek_here : v < length c → seek before (c ∷ after) v ≡ ok (before, c ∷ after)
  unfolding seek
  seek_here h = ground arith

plain : (n : ℕ) → n - 0 ≡ n
plain n = omega arith

order : (a v : ℕ) → (a < v) ⊎ (a ≡ v) ⊎ (v < a)
order a v = grind arith

seek-Moved :
    (base v : ℕ) (before after : List Bytes)
    → 0 < base
    → Sized base before
    → Sized base after
    → after ≢ []
    → v ≤ length after * base
    → (before' : List Bytes) × (after' : List Bytes) × (seek before after v ≡ ok (before', after'))
      × Moved base 0 v before after before' after'
seek-Moved base v before [] hb sb sa ne room = absurd (ne refl)
seek-Moved base v before (c ∷ after) hb sb sa ne room = elim (order (length c) v) [
  | inl h ↦
      let (b', a', e, w) =
        seek-Moved base (v - (length c - 0)) (before ++ c ∷ []) after hb
          (Sized-append base before (c ∷ []) sb (sa.0, tt)) sa.1
          (λ e. absurd (omega (arith, sa.0, ap (λ (t : List Bytes). length t * base) e)))
          (omega (arith, sa.0)) in
      let back = ap (λ t. seek (before ++ c ∷ []) after (v - t)) (sym (plain (length c))) in
      (
        b',
        a',
        seek_next before c after v h ∙ back ∙ e,
        run_over base 0 v before sb c after sa.0 sa.1 b' a' hb (omega arith) w,
      )
  | inr (inl e) ↦ (
    before ++ c ∷ [],
    after,
    seek_end before c after v e,
    step_over base 0 v before sb c after sa.0 sa.1 hb (omega arith),
  )
  | inr (inr h) ↦ (
    before,
    c ∷ after,
    seek_here before c after v h,
    stay base 0 v before sb (c ∷ after) (omega (arith, sa.0)) sa,
  )
]

-- What a call of `setPosition` leaves.
pub record SeekOf (v : ℕ) (b b' : ByteArray) : Type 0 where
  pub valid : IsValid b'
  pub same_bytes : flat b' ≡ flat b
  pub position : b'.position ≡ v
  pub size : b'.size ≡ max b.size v
  pub capacity : b'.capacity ≡ b.capacity
  pub base_size : b'.base_size ≡ b.base_size
  pub endian : b'.endian ≡ b.endian

module _ (v : ℕ) (b : ByteArray) (valid : IsValid b) (inside : v ≤ b.capacity) where
  placed : List Bytes → List Bytes → ByteArray
  placed before after = record b {
    position = v;
    size = if ltb b.size v then v else b.size;
    before = before;
    after = after;
  }

  placed-eq :
      (before after : List Bytes)
      → seek [] (b.before ++ b.after) v ≡ ok (before, after)
      → set_position v b ≡ ok (placed before after)
  unfolding set_position placed
  placed-eq before after e = rw (le→ltb_false v b.capacity inside, e)

  placed-SeekOf :
      (before after : List Bytes)
      → Moved b.base_size 0 v [] (b.before ++ b.after) before after
      → SeekOf v b (placed before after)
  unfolding placed
  placed-SeekOf before after w = record {
    valid = record {
      base_pos = valid.base_pos;
      cursor = record {
        low = omega (arith, w.cursor.low);
        high = omega (arith, w.cursor.high);
        before_sized = w.cursor.before_sized;
        after_sized = w.cursor.after_sized;
      };
      rooted = valid.rooted;
      linked =
          valid.linked
          ∙ ap (λ (t : ℕ). t * b.base_size) (same_count before after b.before b.after w.same_nodes);
      position_le = ground arith;
      size_le = ground (arith, valid.size_le);
    };
    same_bytes = ap contents w.same_nodes;
    position = refl;
    size = ground arith;
    capacity = refl;
    base_size = refl;
    endian = refl;
  }

  has_nodes : v ≤ length (b.before ++ b.after) * b.base_size
  has_nodes = rw (length-append b.before b.after) (omega (arith, valid.linked))

  root : b.before ++ b.after ≢ []
  root e = absurd (
      omega (
        arith,
        valid.rooted,
        valid.linked,
        ap (λ (t : List Bytes). length t * b.base_size) e,
        length-append b.before b.after,
        ap (λ (t : ℕ). t * b.base_size) (length-append b.before b.after),
      ))

  -- On a well-formed buffer `setPosition` of a place within the capacity returns a well-formed
  -- buffer at that place, with the same bytes, and the size raised to it where it was less.
  pub set_position-SeekOf : (b' : ByteArray) × (set_position v b ≡ ok b') × SeekOf v b b'
  set_position-SeekOf =
      let (before, after, e, w) =
        seek-Moved b.base_size v [] (b.before ++ b.after) valid.base_pos tt
          (Sized-append b.base_size b.before b.after valid.cursor.before_sized
            valid.cursor.after_sized)
          root has_nodes in
      (placed before after, placed-eq before after e, placed-SeekOf before after w)

-- `setPosition` behind the capacity throws, whatever the state.
pub set_position_past : (v : ℕ) (b : ByteArray) → b.capacity < v → set_position v b ≡ out_of_range
unfolding set_position
set_position_past v b h = rw (lt→ltb _ _ h)

one_node : (n base : ℕ) → n ≡ 1 → base ≡ (0 + n) * base
one_node n base e = rw e (omega arith)

-- `clear` leaves a well-formed buffer of one node, with nothing in it and the cursor at its start.
pub clear-IsValid :
    (b : ByteArray)
    → IsValid b
    → IsValid (clear b) × ((clear b).size ≡ 0) × ((clear b).capacity ≡ b.base_size)
unfolding clear
clear-IsValid b v = (
  record {
    base_pos = v.base_pos;
    cursor = record {
      low = omega arith;
      high = omega (arith, v.base_pos);
      before_sized = tt;
      after_sized = (first (b.before ++ b.after) all).0;
    };
    rooted = v.base_pos;
    linked =
        one_node (length (take 1 (b.before ++ b.after))) b.base_size
          ((first (b.before ++ b.after) all).1 (root 0 b v (omega arith)));
    position_le = omega arith;
    size_le = omega arith;
  },
  refl,
  refl,
)
  where
    all : Sized b.base_size (b.before ++ b.after)
    all = Sized-append b.base_size b.before b.after v.cursor.before_sized v.cursor.after_sized

    first :
        (cs : List Bytes)
        → Sized b.base_size cs
        → Sized b.base_size (take 1 cs) × (cs ≢ [] → length (take 1 cs) ≡ 1)
    first [] s = (tt, λ h. absurd (h refl))
    first (c ∷ cs) s = ((s.0, tt), λ h. refl)

-- Bytes that are written to a well-formed buffer are read back after a return to where they were
-- written: each of the three calls returns.
pub read-set_position-write :
    (bytes : Bytes) (b : ByteArray)
    → IsValid b
    → 0 < length bytes
    → (b1 : ByteArray) × (b2 : ByteArray) × (b3 : ByteArray) × (write bytes b ≡ ok b1)
      × (set_position b.position b1 ≡ ok b2)
      × (read (length bytes) b2 ≡ ok (bytes, b3))
      × (b3.position ≡ b1.position)
read-set_position-write bytes b v h =
    let (b1, e1, w) = write-WriteOf bytes b v in
    let (b2, e2, s) =
      set_position-SeekOf b.position b1 w.valid (omega (arith, w.position, w.valid)) in
    let (b3, e3, r) =
      read-ReadOf (length bytes) b2 s.valid (omega (arith, s.size, s.position, w.size))
        (omega (arith, s.position, s.capacity, w.position, w.valid)) in
    let fits : b.position ≤ length (flat b ++ w.extra) =
      omega (arith, length-append (flat b) w.extra, length-flat b v, v) in
    let got : take (length bytes) (drop b2.position (flat b2)) ≡ bytes =
      rw (s.position, s.same_bytes, w.same_bytes)
        (slice-overwrite (flat b ++ w.extra) b.position bytes fits) in
    (
      b1,
      b2,
      b3,
      e1,
      e2,
      e3 ∙ ap (λ t. ok (t, b3)) got,
      omega (arith, r.position, s.position, w.position),
    )
