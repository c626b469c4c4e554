-- ===== src/ByteArray/Windows.antt =====
-- The windows on a ByteArray show, and take, the bytes from the cursor on (src/bytearray.cc).
use muqiu.Common.{
  ℕ, ◌+◌, ◌-◌, ◌*◌, ◌%◌, ◌≤◌, ◌<◌, ◌≡◌, refl, sym, ap, ◌∙◌, arith, min, Bool-cases, inl, inr, ◌⊎◌,
}
use muqiu.Common.{
  List, [], ◌∷◌, ◌++◌, map, append-nil, append_assoc, length, length-append, length-take,
  length-drop, set, take, drop, take_all, drop_all,
}
use muqiu.Common.{if◌then◌else◌, ltb, leb, ◌==◌, pos→==_false, lt→leb_false}
use muqiu.ByteArray.State.{Bytes, ByteArray, ok, overwrite, get_read_size}
use muqiu.ByteArray.Overwrite.{
  contents, contents-append, Sized, overwrite-nil, length-overwrite, overwrite-append_left,
  overwrite-append_split,
}
use muqiu.ByteArray.Valid.{IsValid, flat, IsCursor-offset}
use muqiu.ByteArray.Reading.{slice_left, slice_over}
use muqiu.ByteArray.Read.{in_nodes, from_flat}
use muqiu.ByteArray.Buffers.{Iovec, windows, get_read_buffers, node_at, gather, fill}

node_at-middle :
    (pre : List Bytes) (c : Bytes) (cs : List Bytes) → node_at (pre ++ c ∷ cs) (length pre) ≡ c
node_at-middle [] c cs = refl
node_at-middle (p ∷ pre) c cs = node_at-middle pre c cs

set-middle :
    (pre : List Bytes) (c d : Bytes) (cs : List Bytes)
    → set (pre ++ c ∷ cs) (length pre) d ≡ pre ++ d ∷ cs
set-middle [] c d cs = refl
set-middle (p ∷ pre) c d cs = ap (λ t. p ∷ t) (set-middle pre c d cs)

-- How one node meets the bytes that are still wanted.
windows_cases :
    (c : Bytes) (npos len : ℕ)
    → (len ≡ 0) ⊎ ((0 < len) × (len ≤ length c - npos)) ⊎ (length c - npos < len)
windows_cases c npos len = ground arith

module _ (i : ℕ) (c : Bytes) (cs : List Bytes) (npos len : ℕ) where
  windows_none : len ≡ 0 → windows i (c ∷ cs) npos len ≡ ok []
  unfolding windows
  windows_none h = ground arith

  windows_last :
      0 < len
      → len ≤ length c - npos
      → windows i (c ∷ cs) npos len ≡ ok (record { node = i; offset = npos; len = len } ∷ [])
  unfolding windows
  windows_last h k = ground arith

  windows_over :
      (vs : List Iovec)
      → length c - npos < len
      → windows (i + 1) cs 0 (len - (length c - npos)) ≡ ok vs
      → windows i (c ∷ cs) npos len
        ≡ ok (record { node = i; offset = npos; len = length c - npos } ∷ vs)
  unfolding windows
  windows_over vs h e =
      rw (pos→==_false len (omega arith), lt→leb_false len (length c - npos) h, windows, e) refl

-- The windows show a slice of the bytes of the nodes, and bytes that fill them overwrite it.
pub record Shows (pre cs : List Bytes) (npos len : ℕ) (vs : List Iovec) : Type 0 where
  pub shown : gather (pre ++ cs) vs ≡ take len (drop npos (contents cs))
  pub filled :
      (ds : List Bytes) (bytes : Bytes)
      → length ds ≡ length pre
      → length bytes ≤ len
      → contents (fill (ds ++ cs) vs bytes) ≡ contents ds ++ overwrite (contents cs) npos bytes
  pub same_lengths :
      (ds : List Bytes) (bytes : Bytes)
      → length ds ≡ length pre
      → map length (fill (ds ++ cs) vs bytes) ≡ map length (ds ++ cs)

empty_bytes : (bytes : Bytes) → length bytes ≤ 0 → bytes ≡ []
empty_bytes [] h = refl
empty_bytes (b ∷ bs) h = absurd (omega arith)

none-Shows : (pre cs : List Bytes) (npos len : ℕ) → len ≡ 0 → Shows pre cs npos len []
none-Shows pre cs npos len e = record {
  shown = rw e refl;
  filled = λ ds bytes l h.
      let nothing : bytes ≡ [] = empty_bytes bytes (omega arith) in
      rw (nothing, overwrite-nil (contents cs) npos) (contents-append ds cs);
  same_lengths = λ ds bytes l. refl;
}

same_middle :
    (ds : List Bytes) (d c : Bytes) (cs : List Bytes)
    → length d ≡ length c
    → map length (ds ++ d ∷ cs) ≡ map length (ds ++ c ∷ cs)
same_middle [] d c cs e = rw e refl
same_middle (x ∷ ds) d c cs e = ap (λ t. length x ∷ t) (same_middle ds d c cs e)

set-lengths :
    (ds : List Bytes) (c : Bytes) (cs : List Bytes) (npos len : ℕ) (bytes : Bytes) (i : ℕ)
    → length ds ≡ i
    → npos + len ≤ length c
    → map length (set (ds ++ c ∷ cs) i (overwrite (node_at (ds ++ c ∷ cs) i) npos (take len bytes)))
      ≡ map length (ds ++ c ∷ cs)
set-lengths ds c cs npos len bytes i l h =
    rw (sym l, node_at-middle ds c cs, set-middle ds c (overwrite c npos (take len bytes)) cs)
      (same_middle ds (overwrite c npos (take len bytes)) c cs
        (length-overwrite c npos (take len bytes) (omega (arith, length-take len bytes))))

last-Shows :
    (pre : List Bytes) (c : Bytes) (cs : List Bytes) (npos len : ℕ)
    → npos + len ≤ length c
    → Shows pre (c ∷ cs) npos len (record { node = length pre; offset = npos; len = len } ∷ [])
last-Shows pre c cs npos len h = record {
  shown =
      append-nil _
      ∙ ap (λ t. take len (drop npos t)) (node_at-middle pre c cs)
      ∙ sym (slice_left c (contents cs) npos len h);
  filled = λ ds bytes l k.
      rw
        (
          sym l,
          node_at-middle ds c cs,
          set-middle ds c (overwrite c npos (take len bytes)) cs,
          take_all len bytes k,
        )
        (contents-append ds (overwrite c npos bytes ∷ cs)
          ∙ ap (λ t. contents ds ++ t)
              (sym (overwrite-append_left c (contents cs) npos bytes (omega arith))));
  same_lengths = λ ds bytes l. set-lengths ds c cs npos len bytes (length pre) l h;
}

-- A copy into a node and what runs over into the bytes behind it.
spilled :
    (c rest : Bytes) (npos : ℕ) (bytes : Bytes)
    → npos ≤ length c
    → overwrite c npos (take (length c - npos) bytes)
        ++ overwrite rest 0 (drop (length c - npos) bytes)
      ≡ overwrite (c ++ rest) npos bytes
spilled c rest npos bytes hn = elim (Bool-cases (leb (length c) (npos + length bytes))) [
  | inl e ↦
      let over : length c ≤ npos + length bytes = ground (arith, e) in
      sym (overwrite-append_split c rest npos bytes hn over)
  | inr e ↦
      let inside : length bytes ≤ length c - npos = ground (arith, e) in
      rw
        (
          take_all (length c - npos) bytes inside,
          drop_all (length c - npos) bytes inside,
          overwrite-nil rest 0,
        )
        (sym (overwrite-append_left c rest npos bytes (omega arith)))
]

copied_over :
    (ds : List Bytes) (c rest : Bytes) (npos : ℕ) (bytes : Bytes)
    → npos ≤ length c
    → contents (ds ++ overwrite c npos (take (length c - npos) bytes) ∷ [])
        ++ overwrite rest 0 (drop (length c - npos) bytes)
      ≡ contents ds ++ overwrite (c ++ rest) npos bytes
copied_over ds c rest npos bytes hn =
    let d : Bytes = overwrite c npos (take (length c - npos) bytes) in
    let tail : Bytes = overwrite rest 0 (drop (length c - npos) bytes) in
    ap (λ t. t ++ tail) (contents-append ds (d ∷ []) ∙ ap (λ t. contents ds ++ t) (append-nil d))
    ∙ append_assoc (contents ds) d tail
    ∙ ap (λ t. contents ds ++ t) (spilled c rest npos bytes hn)

over-Shows :
    (pre : List Bytes) (c : Bytes) (cs : List Bytes) (npos len : ℕ) (vs : List Iovec)
    → npos ≤ length c
    → length c - npos < len
    → Shows (pre ++ c ∷ []) cs 0 (len - (length c - npos)) vs
    → Shows pre
        (c ∷ cs)
        npos
        len
        (record { node = length pre; offset = npos; len = length c - npos } ∷ vs)
over-Shows pre c cs npos len vs hn h s =
    let k : ℕ = length c - npos in
    record {
      shown = rw (node_at-middle pre c cs) (
          ap (λ t. take k (drop npos c) ++ gather t vs) (sym (append_assoc pre (c ∷ []) cs))
          ∙ ap (λ t. take k (drop npos c) ++ t) s.shown
          ∙ sym (slice_over c (contents cs) npos len hn (omega arith)));
      filled = λ ds bytes l q.
          let d : Bytes = overwrite c npos (take k bytes) in
          let longer : length (ds ++ d ∷ []) ≡ length (pre ++ c ∷ []) =
            omega (arith, length-append ds (d ∷ []), length-append pre (c ∷ []), l) in
          let rest =
            s.filled (ds ++ d ∷ []) (drop k bytes) longer (omega (arith, length-drop k bytes)) in
          rw (sym l, node_at-middle ds c cs, set-middle ds c d cs)
            (ap (λ t. contents (fill t vs (drop k bytes))) (sym (append_assoc ds (d ∷ []) cs))
              ∙ rest
              ∙ copied_over ds c (contents cs) npos bytes hn);
      same_lengths = λ ds bytes l.
          let d : Bytes = overwrite c npos (take k bytes) in
          let longer : length (ds ++ d ∷ []) ≡ length (pre ++ c ∷ []) =
            omega (arith, length-append ds (d ∷ []), length-append pre (c ∷ []), l) in
          let rest = s.same_lengths (ds ++ d ∷ []) (drop k bytes) longer in
          rw (sym l, node_at-middle ds c cs, set-middle ds c d cs)
            (ap (λ t. map length (fill t vs (drop k bytes))) (sym (append_assoc ds (d ∷ []) cs))
              ∙ rest
              ∙ ap (map length) (append_assoc ds (d ∷ []) cs)
              ∙ same_middle ds d c cs
                  (length-overwrite c npos (take k bytes) (omega (arith, length-take k bytes))));
    }

pub windows-Shows :
    (base : ℕ) (pre cs : List Bytes) (npos len : ℕ)
    → npos < base
    → Sized base cs
    → npos + len ≤ length (contents cs)
    → (vs : List Iovec) × (windows (length pre) cs npos len ≡ ok vs) × Shows pre cs npos len vs
unfolding windows
windows-Shows base pre [] npos len hn sc h =
    let e : len ≡ 0 = omega arith in ([], rw e refl, none-Shows pre [] npos len e)
windows-Shows base pre (c ∷ cs) npos len hn sc h = elim (windows_cases c npos len) [
  | inl e ↦ ([], windows_none (length pre) c cs npos len e, none-Shows pre (c ∷ cs) npos len e)
  | inr (inl (some_left, k)) ↦ (
    _,
    windows_last (length pre) c cs npos len some_left k,
    last-Shows pre c cs npos len (omega (arith, sc.0)),
  )
  | inr (inr k) ↦
      let (vs, e, s) =
        windows-Shows base (pre ++ c ∷ []) cs 0 (len - (length c - npos)) (omega arith) sc.1
          (omega (arith, sc.0, length-append c (contents cs))) in
      let i : length (pre ++ c ∷ []) ≡ length pre + 1 = omega (arith, length-append pre (c ∷ [])) in
      (
        _,
        windows_over (length pre) c cs npos len vs k
            (ap (λ t. windows t cs 0 (len - (length c - npos))) (sym i) ∙ e),
        over-Shows pre c cs npos len vs (omega (arith, sc.0)) k s,
      )
]

-- The windows that `getReadBuffers` returns, once its loop has.
read_windows :
    (len : ℕ) (b : ByteArray) (size npos : ℕ) (vs : List Iovec)
    → size ≡ min len (get_read_size b)
    → b.position % b.base_size ≡ npos
    → windows (length b.before) b.after npos size ≡ ok vs
    → get_read_buffers len b ≡ (if size == 0 then ok (0, []) else ok (size, vs))
unfolding get_read_buffers
read_windows len b size npos vs e m w =
    let clamp : (if ltb (get_read_size b) len then get_read_size b else len) ≡ size =
      ground (arith, e) in
    rw (clamp, m, w) refl

-- On a well-formed buffer `getReadBuffers` gives windows that show, in order, the first bytes that
-- are readable: as many as are asked for, or all.
pub get_read_buffers-gather :
    (len : ℕ) (b : ByteArray)
    → IsValid b
    → (iovs : List Iovec) × (get_read_buffers len b ≡ ok (min len (get_read_size b), iovs))
      × (gather (b.before ++ b.after) iovs
          ≡ take (min len (get_read_size b)) (drop b.position (flat b)))
get_read_buffers-gather len b v =
    let (npos, e, hn, m) = IsCursor-offset v.cursor in shown_at npos e hn m
  where
    shown_at :
        (npos : ℕ)
        → b.position ≡ length b.before * b.base_size + npos
        → npos < b.base_size
        → b.position % b.base_size ≡ npos
        → (iovs : List Iovec) × (get_read_buffers len b ≡ ok (min len (get_read_size b), iovs))
          × (gather (b.before ++ b.after) iovs
              ≡ take (min len (get_read_size b)) (drop b.position (flat b)))
    shown_at npos e hn m =
        let size : ℕ = min len (get_read_size b) in
        let (vs, w, s) =
          windows-Shows b.base_size b.before b.after npos size hn v.cursor.after_sized
            (in_nodes size b v (omega arith) npos e) in
        let slice = s.shown ∙ ap (take size) (from_flat size b v (omega arith) npos e) in
        let found = read_windows len b size npos vs refl m w in
        elim (Bool-cases (size == 0)) [
          | inl z ↦
              let nothing : size ≡ 0 = ground (arith, z) in
              ([], found ∙ rw z (rw nothing refl), rw nothing refl)
          | inr z ↦ (vs, found ∙ rw z refl, slice)
        ]
