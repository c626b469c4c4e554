-- ===== src/ByteArray/Writing.antt =====
-- The loop of `write` does to the nodes what one `memcpy` does to the flat bytes.
use muqiu.Common.{ℕ, ◌+◌, ◌-◌, ◌*◌, ◌≤◌, ◌<◌, ◌≡◌, refl, ap, ◌∙◌, arith, inl, inr, ◌⊎◌}
use muqiu.Common.{List, [], ◌∷◌, ◌++◌, append-nil, append_assoc, length, take, drop}
use muqiu.Common.{length-append, length-take, length-drop}
use muqiu.ByteArray.State.{Bytes, ok, overwrite, write_loop}
use muqiu.ByteArray.Overwrite.{contents, Sized, contents-append, Sized-append}
use muqiu.ByteArray.Overwrite.{
  length-snoc, contents-snoc, overwrite-nil, length-overwrite, overwrite-append_left,
  overwrite-append_split,
}
use muqiu.ByteArray.Valid.{IsCursor}

-- Where the loop stops: the nodes, the bytes in them and the node of the cursor.
pub record Written (base npos : ℕ) (bytes : Bytes) (before after before' after' : List Bytes)
    : Type 0 where
  pub cursor : IsCursor base (length before * base + npos + length bytes) before' after'
  pub same_nodes : length before' + length after' ≡ length before + length after
  pub copied :
      contents (before' ++ after') ≡ contents before ++ overwrite (contents after) npos bytes

-- One round of the loop: the bytes end in this node, at its end or before it, or run over.
module _ (npos : ℕ) (bytes : Bytes) (before : List Bytes) (c : Bytes) (after : List Bytes) where
  round_none : length bytes ≡ 0 → write_loop before (c ∷ after) npos bytes ≡ ok (before, c ∷ after)
  unfolding write_loop
  round_none h = ground arith

  round_full :
      0 < length bytes
      → length c ≡ npos + length bytes
      → write_loop before (c ∷ after) npos bytes ≡ ok (before ++ overwrite c npos bytes ∷ [], after)
  unfolding write_loop
  round_full h e = ground arith

  round_part :
      0 < length bytes
      → npos + length bytes < length c
      → write_loop before (c ∷ after) npos bytes ≡ ok (before, overwrite c npos bytes ∷ after)
  unfolding write_loop
  round_part h e = ground arith

  round_over :
      let ncap = length c - npos in
      ncap < length bytes
      → write_loop before (c ∷ after) npos bytes
        ≡ write_loop (before ++ overwrite c npos (take ncap bytes) ∷ []) after 0 (drop ncap bytes)
  unfolding write_loop
  round_over h = ground arith

overwrite_none : (xs : Bytes) (n : ℕ) (bytes : Bytes) → length bytes ≡ 0 → overwrite xs n bytes ≡ xs
overwrite_none xs n [] h = overwrite-nil xs n
overwrite_none xs n (b ∷ bs) h = absurd (omega arith)

module _ (base npos : ℕ) (bytes : Bytes) (before : List Bytes) (sb : Sized base before) where
  stay :
      (after : List Bytes)
      → npos < base
      → Sized base after
      → length bytes ≡ 0
      → Written base npos bytes before after before after
  stay after hn sa e = record {
    cursor = record { low = omega arith; high = omega arith; before_sized = sb; after_sized = sa };
    same_nodes = refl;
    copied = rw (overwrite_none (contents after) npos bytes e) (contents-append before after);
  }

  module _ (c : Bytes) (after : List Bytes) (sc : length c ≡ base) (sa : Sized base after) where
    end_full :
        npos < base
        → length c ≡ npos + length bytes
        → Written base npos bytes before (c ∷ after) (before ++ overwrite c npos bytes ∷ []) after
    end_full hn e =
        let f : Bytes = overwrite c npos bytes in
        let sf : length f ≡ base = omega (arith, length-overwrite c npos bytes (omega arith)) in
        record {
          cursor = record {
            low = omega (arith, length-snoc before f base);
            high = omega (arith, length-snoc before f base);
            before_sized = Sized-append base before (f ∷ []) sb (sf, tt);
            after_sized = sa;
          };
          same_nodes = omega (arith, length-snoc before f base);
          copied =
              rw (overwrite-append_left c (contents after) npos bytes (omega arith))
                (contents-snoc before f after);
        }

    end_part :
        npos + length bytes < length c
        → Written base npos bytes before (c ∷ after) before (overwrite c npos bytes ∷ after)
    end_part e =
        let f : Bytes = overwrite c npos bytes in
        let sf : length f ≡ base = omega (arith, length-overwrite c npos bytes (omega arith)) in
        record {
          cursor = record {
            low = omega arith;
            high = omega arith;
            before_sized = sb;
            after_sized = (sf, sa);
          };
          same_nodes = refl;
          copied =
              rw (overwrite-append_left c (contents after) npos bytes (omega arith))
                (contents-append before (f ∷ after));
        }

    run_over :
        let k = length c - npos in
        let f = overwrite c npos (take k bytes) in
        (before' after' : List Bytes)
        → npos < base
        → k < length bytes
        → Written base 0 (drop k bytes) (before ++ f ∷ []) after before' after'
        → Written base npos bytes before (c ∷ after) before' after'
    run_over before' after' hn h w =
        let k : ℕ = length c - npos in
        let f : Bytes = overwrite c npos (take k bytes) in
        record {
          cursor = record {
            low = omega (arith, w.cursor.low, length-snoc before f base, length-drop k bytes);
            high = omega (arith, w.cursor.high, length-snoc before f base, length-drop k bytes);
            before_sized = w.cursor.before_sized;
            after_sized = w.cursor.after_sized;
          };
          same_nodes = omega (arith, w.same_nodes, length-snoc before f base);
          copied =
              w.copied
              ∙ rw
                  (overwrite-append_split c (contents after) npos bytes (omega arith) (omega arith))
                  (ap (λ t. t ++ overwrite (contents after) 0 (drop k bytes))
                      (contents-append before (f ∷ [])
                        ∙ ap (λ t. contents before ++ t) (append-nil f))
                    ∙ append_assoc (contents before) f _);
        }

-- How the bytes lie against the end of the node.
cases :
    (bytes c : Bytes) (npos : ℕ)
    → (length bytes ≡ 0)
      ⊎ ((0 < length bytes) × (length c ≡ npos + length bytes))
      ⊎ ((0 < length bytes) × (npos + length bytes < length c))
      ⊎ (length c - npos < length bytes)
cases bytes c npos = grind arith

pub write_loop-Written :
    (base npos : ℕ) (bytes : Bytes) (before after : List Bytes)
    → npos < base
    → Sized base before
    → Sized base after
    → npos + length bytes ≤ length (contents after)
    → (before' : List Bytes) × (after' : List Bytes) × (write_loop before after npos bytes
        ≡ ok (before', after'))
      × Written base npos bytes before after before' after'
write_loop-Written base npos bytes before [] hn sb sa room = (
  before,
  [],
  unfold write_loop in ground arith,
  stay base npos bytes before sb [] hn tt (omega arith),
)
write_loop-Written base npos bytes before (c ∷ after) hn sb sa room = elim (cases bytes c npos) [
  | inl e ↦ (
    before,
    c ∷ after,
    round_none npos bytes before c after e,
    stay base npos bytes before sb (c ∷ after) hn sa e,
  )
  | inr (inl (h, e)) ↦ (
    _,
    _,
    round_full npos bytes before c after h e,
    end_full base npos bytes before sb c after sa.0 sa.1 hn e,
  )
  | inr (inr (inl (h, e))) ↦ (
    _,
    _,
    round_part npos bytes before c after h e,
    end_part base npos bytes before sb c after sa.0 sa.1 e,
  )
  | inr (inr (inr h)) ↦
      let k : ℕ = length c - npos in
      let f : Bytes = overwrite c npos (take k bytes) in
      let sf : length f ≡ base =
        omega (arith, sa.0, length-take k bytes, length-overwrite c npos (take k bytes)) in
      let (b', a', e, w) =
        write_loop-Written base 0 (drop k bytes) (before ++ f ∷ []) after (omega arith)
          (Sized-append base before (f ∷ []) sb (sf, tt)) sa.1
          (omega (arith, length-drop k bytes, length-append c (contents after))) in
      (
        b',
        a',
        round_over npos bytes before c after h ∙ e,
        run_over base npos bytes before sb c after sa.0 sa.1 b' a' hn h w,
      )
]
