-- ===== src/ByteArray/Growing.antt =====
-- `addCapacity` links whole nodes at the end and moves no byte.
use muqiu.Common.{ℕ, zero, suc, ◌+◌, ◌-◌, ◌*◌, ◌≤◌, ◌<◌, ◌≡◌, refl, sym, ap, ◌∙◌, arith, inl, inr}
use muqiu.Common.{
  true, false, Bool-cases, leb, ◌==◌, leb→le, leb_false→lt, ==_iff, pos→==_false, lt→leb_false,
  le→leb, ◌≢◌,
}
use muqiu.Common.{List, [], ◌∷◌, ◌++◌, append-nil, append_assoc, length, replicate}
use muqiu.Common.{length-append, length-replicate}
use muqiu.ByteArray.State.{
  Bytes, ByteArray, ok, get_capacity, nodes_for, new_node, add_capacity, link_nodes,
}
use muqiu.ByteArray.Overwrite.{contents, Sized, contents-append, Sized-append}
use muqiu.ByteArray.Valid.{IsCursor, IsValid, flat}
use native.Mathlib.Nat.{lt-div-mul-add, add-mul}

pub record Extends (b b' : ByteArray) : Type 0 where
  pub base_size : b'.base_size ≡ b.base_size
  pub position : b'.position ≡ b.position
  pub size : b'.size ≡ b.size
  pub endian : b'.endian ≡ b.endian
  pub fresh : b'.fresh ≡ b.fresh
  pub extra : Bytes
  pub same_bytes : flat b' ≡ flat b ++ extra

same : (b : ByteArray) → Extends b b
same b = record {
  base_size = refl;
  position = refl;
  size = refl;
  endian = refl;
  fresh = refl;
  extra = [];
  same_bytes = sym (append-nil (flat b));
}

nodes_enough : (n base : ℕ) → 0 < base → n ≤ nodes_for n base * base
nodes_enough n base h = omega (arith, lt-div-mul-add {a = n + base - 1} {b = base} h)

Sized-replicate : (base count fresh : ℕ) → Sized base (replicate count (new_node base fresh))
Sized-replicate base zero fresh = tt
Sized-replicate base (suc count) fresh =
    (length-replicate base fresh, Sized-replicate base count fresh)

-- The list with `count` fresh nodes at its end, and the cursor where `addCapacity` leaves it.
grown : (count : ℕ) (b : ByteArray) (before after : List Bytes) → ByteArray
grown count b before after = record b {
  capacity = b.capacity + count * b.base_size;
  before = before;
  after = after ++ replicate count (new_node b.base_size b.fresh);
}

module _ (count : ℕ) (b : ByteArray) (v : IsValid b) where
  nodes : List Bytes
  nodes = replicate count (new_node b.base_size b.fresh)

  more_nodes :
      (before after : List Bytes)
      → before ++ after ≡ b.before ++ b.after
      → length before + length (after ++ nodes) ≡ length b.before + length b.after + count
  unfolding nodes
  more_nodes before after e = omega (
    arith,
    ap length e,
    length-append before after,
    length-append b.before b.after,
    length-append after nodes,
    length-replicate count (new_node b.base_size b.fresh),
  )

  grown-IsValid :
      (before after : List Bytes)
      → before ++ after ≡ b.before ++ b.after
      → IsCursor b.base_size b.position before after
      → IsValid (grown count b before after) × Extends b (grown count b before after)
  unfolding grown nodes
  grown-IsValid before after e c = (
    record {
      base_pos = v.base_pos;
      cursor = record {
        low = c.low;
        high = c.high;
        before_sized = c.before_sized;
        after_sized =
            Sized-append b.base_size after nodes c.after_sized
              (Sized-replicate b.base_size count b.fresh);
      };
      rooted = omega (arith, v.rooted);
      linked =
          rw (more_nodes before after e)
            (rw v.linked (sym (add-mul (length b.before + length b.after) count b.base_size)));
      position_le = v.position_le;
      size_le = omega (arith, v.size_le);
    },
    record {
      base_size = refl;
      position = refl;
      size = refl;
      endian = refl;
      fresh = refl;
      extra = contents nodes;
      same_bytes =
          rw (← append_assoc before after nodes, e) (contents-append (b.before ++ b.after) nodes);
    },
  )

-- With no capacity left the cursor is null.
pub null_cursor : (b : ByteArray) → IsValid b → get_capacity b ≡ 0 → b.after ≡ []
null_cursor b v h = go b.after (omega (arith, v.linked, v.cursor.high, v.position_le, v.size_le))
  where
    go :
        (after : List Bytes)
        → (length b.before + length after) * b.base_size
          < length b.before * b.base_size + b.base_size
        → after ≡ []
    go [] k = refl
    go (c ∷ cs) k = absurd (omega arith)

-- With some left it is not.
pub cursor_node : (b : ByteArray) → IsValid b → 0 < get_capacity b → b.after ≢ []
cursor_node b v h e = absurd (
    omega (
      arith,
      v.linked,
      v.cursor.low,
      ap (λ (t : List Bytes). (length b.before + length t) * b.base_size) e,
    ))

link_true :
    (count : ℕ) (b : ByteArray)
    → link_nodes true count b b.after ≡ ok (grown count b (b.before ++ b.after) [])
unfolding link_nodes grown
link_true count b = refl

link_false :
    (count : ℕ) (b : ByteArray) (after : List Bytes)
    → after ≢ []
    → link_nodes false count b after ≡ ok (grown count b b.before after)
unfolding link_nodes grown
link_false count b [] h = absurd (h refl)
link_false count b (c ∷ cs) h = refl

step_link :
    (n : ℕ) (b : ByteArray)
    → get_capacity b < n
    → add_capacity n b
      ≡ link_nodes (get_capacity b == 0) (nodes_for (n - get_capacity b) b.base_size) b b.after
unfolding add_capacity
step_link n b h = rw (pos→==_false n (omega arith), lt→leb_false n (get_capacity b) h)

step_keep : (n : ℕ) (b : ByteArray) → n ≤ get_capacity b → add_capacity n b ≡ ok b
unfolding add_capacity
step_keep n b h = elim (Bool-cases (n == 0)) [
  | inl e ↦ rw e
  | inr e ↦ rw (e, le→leb n (get_capacity b) h)
]

pub record Grows (n : ℕ) (b b' : ByteArray) : Type 0 where
  pub valid : IsValid b'
  pub extends : Extends b b'
  pub room : n ≤ get_capacity b'

grown-Grows :
    (n : ℕ) (b : ByteArray) (v : IsValid b) (before after : List Bytes)
    → get_capacity b < n
    → before ++ after ≡ b.before ++ b.after
    → IsCursor b.base_size b.position before after
    → Grows n b (grown (nodes_for (n - get_capacity b) b.base_size) b before after)
unfolding grown
grown-Grows n b v before after h e c =
    let (valid, extends) =
      grown-IsValid (nodes_for (n - get_capacity b) b.base_size) b v before after e c in
    record {
      valid = valid;
      extends = extends;
      room = omega (arith, nodes_enough (n - get_capacity b) b.base_size v.base_pos);
    }

-- With no capacity left the null cursor moves to the end of the list, which is where it stands.
at_end :
    (b : ByteArray)
    → IsValid b
    → get_capacity b ≡ 0
    → IsCursor b.base_size b.position (b.before ++ b.after) []
at_end b v h =
    let e : b.before ++ b.after ≡ b.before =
      ap (λ t. b.before ++ t) (null_cursor b v h) ∙ append-nil b.before in
    rw e (record {
      low = v.cursor.low;
      high = v.cursor.high;
      before_sized = v.cursor.before_sized;
      after_sized = tt;
    })

-- On a well-formed buffer `addCapacity` returns a well-formed one with room for the bytes asked
-- for: the old bytes first, and the cursor, size, block size and byte order as they were.
pub add_capacity-Grows :
    (n : ℕ) (b : ByteArray)
    → IsValid b
    → (b' : ByteArray) × (add_capacity n b ≡ ok b') × Grows n b b'
add_capacity-Grows n b v = elim (Bool-cases (leb n (get_capacity b))) [
  | inl fits ↦ (
    b,
    step_keep n b (leb→le n _ fits),
    record { valid = v; extends = same b; room = leb→le n _ fits },
  )
  | inr more ↦
      let count = nodes_for (n - get_capacity b) b.base_size in
      let h = leb_false→lt n _ more in
      elim (Bool-cases (get_capacity b == 0)) [
        | inl e ↦ (
          grown count b (b.before ++ b.after) [],
          step_link n b h ∙ rw e (link_true count b),
          grown-Grows n b v (b.before ++ b.after) [] h (append-nil _)
              (at_end b v ((==_iff _ 0).0 e)),
        )
        | inr e ↦ (
          grown count b b.before b.after,
          step_link n b h ∙ rw e (link_false count b b.after (cursor_node b v (ground arith))),
          grown-Grows n b v b.before b.after h refl v.cursor,
        )
      ]
]
