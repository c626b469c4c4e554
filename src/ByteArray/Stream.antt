-- ===== src/ByteArray/Stream.antt =====
-- The buffer as a stream: a read takes the front of what is readable, writes in a row join.
use muqiu.Common.{ℕ, ◌+◌, ◌-◌, zero, suc, ◌≤◌, ◌<◌, ◌≡◌, refl, sym, ap, ◌∙◌, arith}
use muqiu.Common.{List, [], ◌∷◌, ◌++◌, append_assoc, length, length-append, take, drop}
use muqiu.Common.{
  length-take, take-take, length-drop, take-append, take-append_ge, drop-append, drop-drop,
}
use muqiu.ByteArray.State.{Bytes, ByteArray, ok, set_position, read, overwrite, get_read_size}
use muqiu.ByteArray.Overwrite.{overwrite-append_left, overwrite-append_right, length-overwrite}
use muqiu.ByteArray.Valid.{IsValid, flat, readable, length-flat}
use muqiu.ByteArray.Write.{WriteOf}
use muqiu.ByteArray.Read.{read-ReadOf}
use muqiu.ByteArray.Position.{set_position-SeekOf}

-- A well-formed buffer with the bytes `bs` in front of the cursor and `rest` behind them.
pub record Holds (bs rest : Bytes) (b : ByteArray) : Type 0 where
  pub valid : IsValid b
  pub front : readable b ≡ bs ++ rest

take-nil : {A : Type 0} (n : ℕ) → take {A = A} n [] ≡ []
take-nil zero = refl
take-nil (suc n) = refl

drop-take : {A : Type 0} (n m : ℕ) (xs : List A) → drop n (take m xs) ≡ take (m - n) (drop n xs)
drop-take zero m xs = ap (λ k. take k xs) (omega arith)
drop-take (suc n) zero xs = let e : 0 - suc n ≡ 0 = omega arith in rw e
drop-take (suc n) (suc m) [] = sym (take-nil (suc m - suc n))
drop-take (suc n) (suc m) (x ∷ xs) = drop-take n m xs ∙ ap (λ k. take k (drop n xs)) (omega arith)

length-readable : (b : ByteArray) → IsValid b → length (readable b) ≡ get_read_size b
length-readable b v = omega (
  arith,
  length-take (get_read_size b) (drop b.position (flat b)),
  length-drop b.position (flat b),
  length-flat b v,
  v,
)

away : (s p n : ℕ) → s - (p + n) ≡ s - p - n
away s p n = omega arith

-- A read of bytes that are in front of the cursor returns them and leaves the rest.
pub read-Holds :
    (bs rest : Bytes) (b : ByteArray)
    → Holds bs rest b
    → 0 < length bs
    → (b' : ByteArray) × (read (length bs) b ≡ ok (bs, b'))
      × IsValid b'
      × (readable b' ≡ rest)
      × (b'.endian ≡ b.endian)
read-Holds bs rest b h some_bytes =
    let v = h.valid in
    let room : length bs + length rest ≡ get_read_size b =
      omega (arith, length-readable b v, ap length h.front, length-append bs rest) in
    let (b', e, r) = read-ReadOf (length bs) b v (omega arith) (omega (arith, v)) in
    let got : take (length bs) (drop b.position (flat b)) ≡ bs =
      sym (take-take (length bs) (get_read_size b) (drop b.position (flat b)) (omega arith))
      ∙ ap (take (length bs)) h.front
      ∙ take-append bs rest in
    let left : readable b' ≡ rest =
      rw (r.position, r.size, r.same_bytes)
        (ap (λ k. take k (drop (b.position + length bs) (flat b)))
            (away b.size b.position (length bs))
          ∙ ap (take (get_read_size b - length bs))
              (sym (drop-drop b.position (length bs) (flat b)))
          ∙ sym (drop-take (length bs) (get_read_size b) (drop b.position (flat b)))
          ∙ ap (drop (length bs)) h.front
          ∙ drop-append bs rest) in
    (b', e ∙ ap (λ t. ok (t, b')) got, r.valid, left, r.endian)

-- Writes in a row are one write.
overwrite-overwrite :
    (xs : Bytes) (n : ℕ) (cs ds : Bytes)
    → n ≤ length xs
    → overwrite (overwrite xs n cs) (n + length cs) ds ≡ overwrite xs n (cs ++ ds)
overwrite-overwrite xs n cs ds h =
    let front : Bytes = take n xs in
    let back : Bytes = drop (n + length cs) xs in
    let e : n ≡ length front = omega (arith, length-take n xs) in
    let f : length cs ≡ length cs + 0 = omega arith in
    ap (λ k. overwrite (front ++ (cs ++ back)) (k + length cs) ds) e
    ∙ overwrite-append_right front (cs ++ back) (length cs) ds
    ∙ ap (λ k. front ++ overwrite (cs ++ back) k ds) f
    ∙ ap (λ t. front ++ t) (overwrite-append_right cs back 0 ds)
    ∙ ap (λ t. front ++ (cs ++ (ds ++ t)))
        (drop-drop (n + length cs) (0 + length ds) xs
          ∙ ap (λ k. drop k xs) (omega (arith, length-append cs ds)))
    ∙ ap (λ t. front ++ t) (sym (append_assoc cs ds _))

pub WriteOf-trans :
    (xs ys : Bytes) {b b1 b2 : ByteArray}
    → IsValid b
    → WriteOf xs b b1
    → WriteOf ys b1 b2
    → WriteOf (xs ++ ys) b b2
WriteOf-trans xs ys {b} {b1} {b2} v w1 w2 =
    let whole : Bytes = flat b ++ w1.extra in
    let fits : b.position ≤ length (whole ++ w2.extra) =
      omega (arith, w1.room, length-append whole w2.extra) in
    record {
      valid = w2.valid;
      extra = w1.extra ++ w2.extra;
      same_bytes =
          w2.same_bytes
          ∙ rw (w1.same_bytes, w1.position)
              (ap (λ t. overwrite t (b.position + length xs) ys)
                  (sym (overwrite-append_left whole w2.extra b.position xs w1.room))
                ∙ overwrite-overwrite (whole ++ w2.extra) b.position xs ys fits
                ∙ ap (λ t. overwrite t b.position (xs ++ ys))
                    (append_assoc (flat b) w1.extra w2.extra));
      room = omega (
        arith,
        w1.room,
        w2.room,
        w1.position,
        ap length w1.same_bytes,
        length-overwrite whole b.position xs w1.room,
        length-append xs ys,
        length-append (flat b1) w2.extra,
        length-append (flat b) w1.extra,
        length-append (flat b) (w1.extra ++ w2.extra),
        length-append w1.extra w2.extra,
      );
      position = omega (arith, w2.position, w1.position, length-append xs ys);
      size = omega (arith, w2.size, w1.size, w1.position, length-append xs ys);
      base_size = w2.base_size ∙ w1.base_size;
      endian = w2.endian ∙ w1.endian;
    }

-- After a return to where the bytes were written they are in front of the cursor.
pub rewind-Holds :
    (bytes : Bytes) (b b1 : ByteArray)
    → IsValid b
    → WriteOf bytes b b1
    → (rest : Bytes) × (b2 : ByteArray) × (set_position b.position b1 ≡ ok b2)
      × Holds bytes rest b2
      × (b2.endian ≡ b.endian)
rewind-Holds bytes b b1 v w =
    let whole : Bytes = flat b ++ w.extra in
    let back : Bytes = drop (b.position + length bytes) whole in
    let (b2, e, s) =
      set_position-SeekOf b.position b1 w.valid (omega (arith, w.position, w.valid)) in
    let n : ℕ = b1.size - b.position in
    let k : b2.size - b2.position ≡ n = omega (arith, s.size, s.position, w.position, w.valid) in
    let here : length (take b.position whole) ≡ b.position =
      omega (arith, length-take b.position whole, w.room) in
    let shown : readable b2 ≡ bytes ++ take (n - length bytes) back =
      rw (k, s.position, s.same_bytes, w.same_bytes)
        (ap (λ t. take n (drop t (take b.position whole ++ (bytes ++ back)))) (sym here)
          ∙ ap (take n) (drop-append (take b.position whole) (bytes ++ back))
          ∙ take-append_ge n bytes back (omega (arith, w.size))) in
    (
      take (n - length bytes) back,
      b2,
      e,
      record { valid = s.valid; front = shown },
      s.endian ∙ w.endian,
    )
