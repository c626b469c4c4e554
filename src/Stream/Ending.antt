-- ===== src/Stream/Ending.antt =====
-- When the loops of `Stream` end, and what they have moved then (src/stream.cc).
use muqiu.Common.{
  ℕ, zero, suc, ◌+◌, ◌-◌, ◌≤◌, ◌<◌, ◌≡◌, refl, ap, arith, Option, none, some, Bool-cases, inl, inr,
  ◌⊎◌,
}
use muqiu.Common.{false, ◌==◌, pos→==_false}
use muqiu.Common.Int.{ℤ, pos, negsuc, ℤ-cases, to_int}
use mathlib.Core.Path.{subst}
use muqiu.Stream.FixSize.{read_loop, move_loop, read_fix_size, write_fix_size}

-- A length that says that nothing more will come: an error, or the end of the stream.
pub data Stops : ℤ → Type 0 where
  at_end : Stops (pos 0)
  failed : (n : ℕ) → Stops (negsuc n)

module _ {S : Type 0} (call : S → ℕ → ℕ → ℤ × S) where
  -- What a loop returns: the length, as an `int`, when all is moved; else what its last call has
  -- returned, an error or zero, with the state that this call has left. That call was made behind
  -- the first o bytes, for all that were left.
  pub data Returns (Moved : ℕ → S → Type 0) (length : ℕ) (r : ℤ) (s : S) : Type 0 where
    complete : r ≡ to_int length → Moved length s → Returns Moved length r s
    stopped :
        (o left : ℕ) (t : S)
        → Moved o t
        → 0 < left
        → o + left ≡ length
        → call t o left ≡ (r, s)
        → Stops r
        → Returns Moved length r s

  -- `Moved o s` says that the first o bytes are through. A call that returns n moves the next n,
  -- and no more than it was asked for.
  abbrev pub Moves : (ℕ → S → Type 0) → Type 0
  Moves Moved =
      (o left n : ℕ) (s : S)
      → Moved o s
      → (call s o left).0 ≡ pos n
      → (n ≤ left) × Moved (o + n) (call s o left).1

  module _ (Moved : ℕ → S → Type 0) (moves : Moves Moved) (length : ℕ) where
    finished :
        {r : Option (ℤ × S)} (o : ℕ) (s : S)
        → o ≡ length
        → Moved o s
        → r ≡ some (to_int length, s)
        → (z : ℤ) × (s' : S) × (r ≡ some (z, s')) × Returns Moved length z s'
    finished o s e m p = (to_int length, s, p, complete refl (subst (λ (k : ℕ). Moved k s) e m))

    ended :
        (z : ℤ) (o left : ℕ) (s : S)
        → (left == 0) ≡ false
        → o + left ≡ length
        → Moved o s
        → (call s o left).0 ≡ z
        → Stops z
        → Returns Moved length z (call s o left).1
    ended z o left s q e m k st =
        stopped o left s m (ground (arith, q)) e (ap (λ (x : ℤ). (x, (call s o left).1)) k) st

    pub move_loop-Returns :
        (fuel o left : ℕ) (s : S)
        → left < fuel
        → o + left ≡ length
        → Moved o s
        → (z : ℤ) × (s' : S) × (move_loop call fuel length o left s ≡ some (z, s'))
          × Returns Moved length z s'
    unfolding move_loop
    move_loop-Returns zero o left s h e m = absurd (omega arith)
    move_loop-Returns (suc fuel) o left s h e m = elim (Bool-cases (left == 0)) [
      | inl q ↦ finished o s (ground (arith, q)) m (rw (q, move_loop) refl)
      | inr q ↦ elim (ℤ-cases (call s o left).0) [
        | inl k ↦
            let r = ended (pos 0) o left s q e m k at_end in
            rw (q, k, move_loop) (pos 0, (call s o left).1, refl, r)
        | inr (inl (n, k)) ↦
            let (le, m') = moves o left (suc n) s m k in
            rw (q, k, move_loop)
              (move_loop-Returns fuel (o + suc n) (left - suc n) (call s o left).1 (omega arith)
                (omega arith) m')
        | inr (inr (n, k)) ↦
            let r = ended (negsuc n) o left s q e m k (failed n) in
            rw (q, k, move_loop) (negsuc n, (call s o left).1, refl, r)
      ]
    ]

    -- The same loop without the test for a length of zero ends too, unless a call returns zero
    -- while bytes are left.
    pub read_loop-Returns :
        (fuel o left : ℕ) (s : S)
        → left < fuel
        → o + left ≡ length
        → Moved o s
        → ((z : ℤ) × (s' : S) × (read_loop call fuel length o left s ≡ some (z, s'))
            × Returns Moved length z s')
          ⊎ ((o' : ℕ) × (left' : ℕ) × (t : S) × (0 < left')
              × (o' + left' ≡ length)
              × Moved o' t
              × ((call t o' left').0 ≡ pos 0))
    unfolding read_loop
    read_loop-Returns zero o left s h e m = absurd (omega arith)
    read_loop-Returns (suc fuel) o left s h e m = elim (Bool-cases (left == 0)) [
      | inl q ↦ inl (finished o s (ground (arith, q)) m (rw (q, read_loop) refl))
      | inr q ↦ elim (ℤ-cases (call s o left).0) [
        | inl k ↦ inr (o, left, s, ground (arith, q), e, m, k)
        | inr (inl (n, k)) ↦
            let (le, m') = moves o left (suc n) s m k in
            rw (q, k, read_loop)
              (read_loop-Returns fuel (o + suc n) (left - suc n) (call s o left).1 (omega arith)
                (omega arith) m')
        | inr (inr (n, k)) ↦
            let r = ended (negsuc n) o left s q e m k (failed n) in
            inl (rw (q, k, read_loop) (negsuc n, (call s o left).1, refl, r))
      ]
    ]

  -- `writeFixSize` ends after at most as many rounds as there are bytes, whatever the calls do
  -- within their contract. It returns the length as an `int` when all bytes are through; else it
  -- returns what its last call has returned, an error or zero, in the state that this call has
  -- left. That call was for all bytes that were left, behind those that were through.
  pub write_fix_size-Returns :
      (Moved : ℕ → S → Type 0)
      → Moves Moved
      → (length : ℕ) (s : S) → Moved 0 s
      → (z : ℤ) × (s' : S) × (write_fix_size call length s ≡ some (z, s'))
        × Returns Moved length z s'
  unfolding write_fix_size
  write_fix_size-Returns Moved moves length s m =
      move_loop-Returns Moved moves length (suc length) 0 length s (omega arith) (omega arith) m

  stuck :
      (fuel length o left : ℕ) (s : S)
      → 0 < left
      → ((s : S) (o left : ℕ) → (call s o left).0 ≡ pos 0)
      → read_loop call fuel length o left s ≡ none
  unfolding read_loop
  stuck zero length o left s h silent = refl
  stuck (suc fuel) length o left s h silent =
      rw (pos→==_false left h, silent s o left, read_loop)
        (stuck fuel length (o + 0) (left - 0) (call s o left).1 (omega arith) silent)

  -- `readFixSize` of some bytes into plain memory never returns once the stream is at its end, that
  -- is where every read gives zero: no number of rounds is enough.
  pub read_fix_size-never :
      (fuel length : ℕ) (s : S)
      → 0 < length
      → ((s : S) (o left : ℕ) → (call s o left).0 ≡ pos 0)
      → read_fix_size call fuel length s ≡ none
  unfolding read_fix_size
  read_fix_size-never fuel length s h silent = stuck fuel length 0 length s h silent
