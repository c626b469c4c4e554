-- ===== src/ByteArray/Reading.antt =====
-- The loop of `read` copies a slice of the flat bytes.
use muqiu.Common.{ℕ, ◌+◌, ◌-◌, ◌*◌, ◌≤◌, ◌<◌, ◌≡◌, refl, ◌∙◌, arith, inl, inr, ◌⊎◌}
use muqiu.Common.{List, [], ◌∷◌, ◌++◌, append-nil, append_assoc, length, take, drop}
use muqiu.Common.{
  length-append, length-drop, take_all, take-append_le, take-append_ge, drop-append_le,
}
use muqiu.ByteArray.State.{Bytes, ok, read_loop}
use muqiu.ByteArray.Overwrite.{contents, Sized, Sized-append, length-snoc}
use muqiu.ByteArray.Valid.{IsCursor}

pub record Moved (base npos n : ℕ) (before after before' after' : List Bytes) : Type 0 where
  pub cursor : IsCursor base (length before * base + npos + n) before' after'
  pub same_nodes : before' ++ after' ≡ before ++ after

-- One round: the bytes wanted end in this node, at its end or before it, or run over.
module _ (npos n : ℕ) (buf : Bytes) (before : List Bytes) (c : Bytes) (after : List Bytes) where
  round_none : n ≡ 0 → read_loop before (c ∷ after) npos n buf ≡ ok (buf, before, c ∷ after)
  unfolding read_loop
  round_none h = ground arith

  round_full :
      0 < n
      → length c ≡ npos + n
      → read_loop before (c ∷ after) npos n buf
        ≡ ok (buf ++ take n (drop npos c), before ++ c ∷ [], after)
  unfolding read_loop
  round_full h e = ground arith

  round_part :
      0 < n
      → npos + n < length c
      → read_loop before (c ∷ after) npos n buf
        ≡ ok (buf ++ take n (drop npos c), before, c ∷ after)
  unfolding read_loop
  round_part h e = ground arith

  round_over :
      let ncap = length c - npos in
      ncap < n
      → read_loop before (c ∷ after) npos n buf
        ≡ read_loop (before ++ c ∷ []) after 0 (n - ncap) (buf ++ take ncap (drop npos c))
  unfolding read_loop
  round_over h = ground arith

pub slice_left :
    (c rest : Bytes) (npos n : ℕ)
    → npos + n ≤ length c
    → take n (drop npos (c ++ rest)) ≡ take n (drop npos c)
slice_left c rest npos n h =
    rw (drop-append_le npos c rest (omega arith))
      (take-append_le n (drop npos c) rest (omega (arith, length-drop npos c)))

pub slice_over :
    (c rest : Bytes) (npos n : ℕ)
    → npos ≤ length c
    → length c - npos ≤ n
    → let k = length c - npos in
      take n (drop npos (c ++ rest)) ≡ take k (drop npos c) ++ take (n - k) (drop 0 rest)
slice_over c rest npos n h hh =
    let k : ℕ = length c - npos in
    let e : length (drop npos c) ≡ k = length-drop npos c in
    rw (drop-append_le npos c rest h, take-append_ge n (drop npos c) rest (omega (arith, e)), e)
      (rw (take_all k (drop npos c) (omega (arith, e))))

cases :
    (c : Bytes) (npos n : ℕ)
    → (n ≡ 0)
      ⊎ ((0 < n) × (length c ≡ npos + n))
      ⊎ ((0 < n) × (npos + n < length c))
      ⊎ (length c - npos < n)
cases c npos n = grind arith

module _ (base npos n : ℕ) (before : List Bytes) (sb : Sized base before) where
  pub stay :
      (after : List Bytes)
      → npos + n < base
      → Sized base after
      → Moved base npos n before after before after
  stay after hn sa = record {
    cursor = record { low = omega arith; high = omega arith; before_sized = sb; after_sized = sa };
    same_nodes = refl;
  }

  module _ (c : Bytes) (after : List Bytes) (sc : length c ≡ base) (sa : Sized base after) where
    pub step_over :
        0 < base
        → length c ≡ npos + n
        → Moved base npos n before (c ∷ after) (before ++ c ∷ []) after
    step_over hb e = record {
      cursor = record {
        low = omega (arith, length-snoc before c base);
        high = omega (arith, length-snoc before c base);
        before_sized = Sized-append base before (c ∷ []) sb (sc, tt);
        after_sized = sa;
      };
      same_nodes = append_assoc before (c ∷ []) after;
    }

    pub run_over :
        (before' after' : List Bytes)
        → npos < base
        → length c - npos < n
        → Moved base 0 (n - (length c - npos)) (before ++ c ∷ []) after before' after'
        → Moved base npos n before (c ∷ after) before' after'
    run_over before' after' hn h w = record {
      cursor = record {
        low = omega (arith, w.cursor.low, length-snoc before c base);
        high = omega (arith, w.cursor.high, length-snoc before c base);
        before_sized = w.cursor.before_sized;
        after_sized = w.cursor.after_sized;
      };
      same_nodes = w.same_nodes ∙ append_assoc before (c ∷ []) after;
    }

no_node :
    (npos n : ℕ) (buf : Bytes) (before : List Bytes)
    → n ≡ 0
    → read_loop before [] npos n buf ≡ ok (buf ++ take n (drop npos []), before, [])
unfolding read_loop
no_node npos n buf before h = rw (h, append-nil)

pub read_loop-Moved :
    (base npos n : ℕ) (buf : Bytes) (before after : List Bytes)
    → npos < base
    → Sized base before
    → Sized base after
    → npos + n ≤ length (contents after)
    → (before' : List Bytes) × (after' : List Bytes) × (read_loop before after npos n buf
        ≡ ok (buf ++ take n (drop npos (contents after)), before', after'))
      × Moved base npos n before after before' after'
read_loop-Moved base npos n buf before [] hn sb sa room = (
  before,
  [],
  no_node npos n buf before (omega arith),
  stay base npos n before sb [] (omega arith) tt,
)
read_loop-Moved base npos n buf before (c ∷ after) hn sb sa room = elim (cases c npos n) [
  | inl e ↦ (
    before,
    c ∷ after,
    round_none npos n buf before c after e ∙ rw (e, append-nil),
    stay base npos n before sb (c ∷ after) (omega arith) sa,
  )
  | inr (inl (h, e)) ↦ (
    before ++ c ∷ [],
    after,
    round_full npos n buf before c after h e
        ∙ rw (slice_left c (contents after) npos n (omega arith)),
    step_over base npos n before sb c after sa.0 sa.1 (omega arith) e,
  )
  | inr (inr (inl (h, e))) ↦ (
    before,
    c ∷ after,
    round_part npos n buf before c after h e
        ∙ rw (slice_left c (contents after) npos n (omega arith)),
    stay base npos n before sb (c ∷ after) (omega (arith, sa.0)) sa,
  )
  | inr (inr (inr h)) ↦
      let k : ℕ = length c - npos in
      let (b', a', e, w) =
        read_loop-Moved base 0 (n - k) (buf ++ take k (drop npos c)) (before ++ c ∷ []) after
          (omega arith) (Sized-append base before (c ∷ []) sb (sa.0, tt)) sa.1
          (omega (arith, sa.0, length-append c (contents after))) in
      (
        b',
        a',
        round_over npos n buf before c after h
            ∙ e
            ∙ rw (
              slice_over c (contents after) npos n (omega (arith, sa.0)) (omega arith),
              append_assoc,
            ),
        run_over base npos n before sb c after sa.0 sa.1 b' a' hn h w,
      )
]
