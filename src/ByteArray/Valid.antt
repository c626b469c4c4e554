-- ===== src/ByteArray/Valid.antt =====
-- The well-formed states of a ByteArray, and the bytes that one stands for.
use muqiu.Common.{ℕ, ◌+◌, ◌-◌, ◌*◌, ◌%◌, ◌≤◌, ◌<◌, ◌≡◌, ap, arith}
use muqiu.Common.{List, ◌++◌, length, length-append, take, drop, length-replicate}
use muqiu.ByteArray.State.{Bytes, ByteArray, new}
use muqiu.ByteArray.Overwrite.{contents, Sized, length-contents, Sized-append}
use native.Mathlib.Nat.{mul-add-mod_self_right, mod-eq_of_lt}

-- `m_cur` is the node that holds the byte at `pos`.
pub record IsCursor (base pos : ℕ) (before after : List Bytes) : Type 0 where
  pub low : length before * base ≤ pos
  pub high : pos < length before * base + base
  pub before_sized : Sized base before
  pub after_sized : Sized base after

pub record IsValid (b : ByteArray) : Type 0 where
  pub base_pos : 0 < b.base_size
  pub cursor : IsCursor b.base_size b.position b.before b.after
  pub rooted : 0 < b.capacity
  pub linked : b.capacity ≡ (length b.before + length b.after) * b.base_size
  pub position_le : b.position ≤ b.size
  pub size_le : b.size ≤ b.capacity

-- All bytes of the buffer, in order: the flat array that the nodes stand for.
abbrev pub flat : ByteArray → Bytes
flat b = contents (b.before ++ b.after)

-- The bytes that are still to be read.
abbrev pub readable : ByteArray → Bytes
readable b = take (b.size - b.position) (drop b.position (flat b))

pub mod_offset : (base k npos pos : ℕ) → pos ≡ k * base + npos → npos < base → pos % base ≡ npos
mod_offset base k npos pos e h = rw (e, mul-add-mod_self_right) (mod-eq_of_lt h)

-- The offset in the node is what the code computes by `%`.
pub IsCursor-offset :
    {base pos : ℕ} {before after : List Bytes}
    → IsCursor base pos before after
    → (npos : ℕ) × (pos ≡ length before * base + npos) × (npos < base) × (pos % base ≡ npos)
IsCursor-offset {base} {pos} {before} c =
    let npos = pos - length before * base in
    let e : pos ≡ length before * base + npos = omega (arith, c.low) in
    (
      npos,
      e,
      omega (arith, c.low, c.high),
      mod_offset base (length before) npos pos e (omega (arith, c.low, c.high)),
    )

pub new-IsValid : (base_size fresh : ℕ) → 0 < base_size → IsValid (new base_size fresh)
unfolding new
new-IsValid base_size fresh h = record {
  base_pos = h;
  cursor = record {
    low = omega arith;
    high = omega (arith, h);
    before_sized = tt;
    after_sized = (length-replicate base_size fresh, tt);
  };
  rooted = h;
  linked = omega arith;
  position_le = omega arith;
  size_le = omega arith;
}

-- The flat array is as long as the capacity says.
pub length-flat : (b : ByteArray) → IsValid b → length (flat b) ≡ b.capacity
length-flat b v = omega (
  arith,
  length-contents b.base_size (b.before ++ b.after)
      (Sized-append b.base_size b.before b.after v.cursor.before_sized v.cursor.after_sized),
  ap (λ (t : ℕ). t * b.base_size) (length-append b.before b.after),
  v.linked,
)
