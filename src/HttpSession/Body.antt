-- ===== src/HttpSession/Body.antt =====
-- The body of a request is as long as its headers say (src/http_session.cc).
use muqiu.Common.{
  ℕ, suc, ◌+◌, ◌-◌, ◌^◌, ◌≤◌, ◌<◌, ◌≡◌, ◌≢◌, refl, sym, ap, ◌∙◌, arith, Option, none, some,
  Bool-cases, inl, inr,
}
use muqiu.Common.{
  [], ◌++◌, append-nil, length, length-append, length-take, take, take_all, if◌then◌else◌, ltb, leb,
  ltb→lt, leb→le, lt→ltb, le→leb, le→ltb_false,
}
use mathlib.Core.Path.{subst}
use muqiu.Common.Int.{ℤ, pos, negsuc, ℤ-cases, to_int}
use muqiu.ByteArray.State.{Bytes}
use muqiu.SocketStream.Calls.{got, error}
use muqiu.Stream.FixSize.{read_fix_size}
use muqiu.Stream.Ending.{complete, stopped, Stops, at_end, failed, read_loop-Returns}
use muqiu.HttpSession.Receive.{Parser, Peer, to_int64, read_body, recv_body}
use muqiu.HttpSession.Contract.{Contract}
use muqiu.HttpSession.Incoming.{
  number, to_int64-below, negsuc≢pos, Behind, read_body-zero, read_body-Stops, read_body-Moves,
}

first-take :
    (n : ℕ) (left : Bytes) → (if leb (length left) n then left else take n left) ≡ take n left
first-take n left = elim (Bool-cases (leb (length left) n)) [
  | inl q ↦ rw q (sym (take_all n left (leb→le (length left) n q)))
  | inr q ↦ rw q refl
]

-- The body of a request, from what is left in the buffer and what was read for it: as many of these
-- bytes as the headers say, and none beyond are read; or the one that the parser has.
pub data IsBody (parser : Parser) (p : parser.State) (left more body : Bytes) : Type 0 where
  none_said :
      ((n : ℕ) → to_int64 (parser.content_length p) ≢ pos (suc n))
      → more ≡ []
      → body ≡ (parser.get_data p).body
      → IsBody parser p left more body
  whole :
      (n : ℕ)
      → to_int64 (parser.content_length p) ≡ pos (suc n)
      → body ≡ take (suc n) (left ++ more)
      → length body ≡ suc n
      → length more ≡ suc n - length left
      → IsBody parser p left more body

module _ (parser : Parser) (peer : Peer) (contract : Contract peer) where
  -- The end of `recv_body`: a body; a read of the missing part that has failed; a missing part that
  -- was read in full, but whose length is no positive `int`; or a read that has given nothing while
  -- a part of the body was missing.
  pub data BodyOf (p : parser.State) (left : Bytes) (s : peer.Socket)
      (r : Option (Option Bytes × peer.Socket)) : Type 0 where
    done :
        (more body : Bytes) (t : peer.Socket)
        → r ≡ some (some body, t)
        → contract.taken t ≡ contract.taken s ++ more
        → IsBody parser p left more body
        → BodyOf p left s r
    broken :
        (n e : ℕ) (more : Bytes) (t closed : peer.Socket)
        → r ≡ some (none, peer.close closed)
        → to_int64 (parser.content_length p) ≡ pos (suc n)
        → contract.taken t ≡ contract.taken s ++ more
        → length (left ++ more) < suc n
        → peer.read (suc n - length (left ++ more)) t ≡ (error e, closed)
        → BodyOf p left s r
    wrapped :
        (n : ℕ) (more : Bytes) (t : peer.Socket)
        → r ≡ some (none, peer.close t)
        → to_int64 (parser.content_length p) ≡ pos (suc n)
        → contract.taken t ≡ contract.taken s ++ more
        → length (left ++ more) ≡ suc n
        → length left < suc n
        → Stops (to_int (suc n - length left))
        → BodyOf p left s r
    ended :
        (n : ℕ) (more : Bytes) (t : peer.Socket)
        → to_int64 (parser.content_length p) ≡ pos (suc n)
        → contract.taken t ≡ contract.taken s ++ more
        → length (left ++ more) < suc n
        → (peer.read (suc n - length (left ++ more)) t).0 ≡ got []
        → BodyOf p left s r

  -- What is missing of a body is read behind what is left, and its result decides.
  module _ (fuel n : ℕ) (p : parser.State) (left : Bytes) (s : peer.Socket) where
    abbrev run : Option (ℤ × (Bytes × peer.Socket))
    run = read_fix_size (read_body peer) fuel (suc n - length left) (left, s)

    module _ (e : to_int64 (parser.content_length p) ≡ pos (suc n))
        (short : length left < suc n) where
      complete-run :
          (k : ℕ) (have : Bytes) (t : peer.Socket)
          → run ≡ some (pos (suc k), (have, t))
          → recv_body parser peer fuel p left s ≡ some (some have, t)
      unfolding recv_body
      complete-run k have t q =
          rw
            (
              e,
              le→leb (length left) (suc n) (omega arith),
              lt→ltb 0 (suc n - length left) (omega arith),
              q,
              recv_body,
            )
            refl

      failed-run :
          (z : ℤ) (have : Bytes) (t : peer.Socket)
          → Stops z
          → run ≡ some (z, (have, t))
          → recv_body parser peer fuel p left s ≡ some (none, peer.close t)
      unfolding recv_body
      failed-run _ have t at_end q =
          rw
            (
              e,
              le→leb (length left) (suc n) (omega arith),
              lt→ltb 0 (suc n - length left) (omega arith),
              q,
              recv_body,
            )
            refl
      failed-run _ have t (failed k) q =
          rw
            (
              e,
              le→leb (length left) (suc n) (omega arith),
              lt→ltb 0 (suc n - length left) (omega arith),
              q,
              recv_body,
            )
            refl

      whole-run :
          (z : ℤ) (have : Bytes) (t : peer.Socket)
          → z ≡ to_int (suc n - length left)
          → Behind peer contract (contract.taken s) left (suc n - length left) (have, t)
          → run ≡ some (z, (have, t))
          → BodyOf p left s (recv_body parser peer fuel p left s)
      unfolding Behind
      whole-run z have t zr (more, h, l, tk) q =
          let size : length (left ++ more) ≡ suc n =
            omega (arith, length-append left more, l, short) in
          elim (ℤ-cases z) [
            | inl k ↦
                wrapped n more t
                  (failed-run (pos 0) have t at_end (q ∙ ap (λ y. some (y, (have, t))) k)) e tk size
                  short (subst Stops (sym k ∙ zr) at_end)
            | inr (inr (m, k)) ↦
                wrapped n more t
                  (failed-run (negsuc m) have t (failed m) (q ∙ ap (λ y. some (y, (have, t))) k)) e
                  tk size short (subst Stops (sym k ∙ zr) (failed m))
            | inr (inl (m, k)) ↦
                done more have t (complete-run m have t (q ∙ ap (λ y. some (y, (have, t))) k)) tk (
                  whole n e (h ∙ sym (take_all (suc n) (left ++ more) (omega (arith, size))))
                    (ap length h ∙ size) l)
          ]

      -- A call that has ended the reads early.
      last-run :
          (z : ℤ) (o m : ℕ) (have : Bytes) (t : peer.Socket) (have' : Bytes) (t' : peer.Socket)
          → Behind peer contract (contract.taken s) left o (have, t)
          → 0 < m
          → o + m ≡ suc n - length left
          → read_body peer (have, t) o m ≡ (z, (have', t'))
          → Stops z
          → run ≡ some (z, (have', t'))
          → BodyOf p left s (recv_body parser peer fuel p left s)
      unfolding Behind
      last-run z o m have t have' t' (more, h, l, tk) pm eo c st q =
          let size = length-append left more in
          let as_missing : m ≡ suc n - length (left ++ more) = omega (arith, size, l, eo, short) in
          let few : length (left ++ more) < suc n = omega (arith, size, l, eo, pm, short) in
          elim (read_body-Stops peer contract have t o m z have' t' c st) [
            | inl g ↦
                ended n more t e tk few (subst (λ (x : ℕ). (peer.read x t).0 ≡ got []) as_missing g)
            | inr (k, g) ↦
                broken n k more t t' (failed-run z have' t' st q) e tk few
                  (subst (λ (x : ℕ). peer.read x t ≡ (error k, t')) as_missing g)
          ]

      missing-BodyOf : 2 ^ 63 ≤ fuel → BodyOf p left s (recv_body parser peer fuel p left s)
      unfolding read_fix_size Behind
      missing-BodyOf big =
          let low = to_int64-below (parser.content_length p) n e in
          elim (read_loop-Returns (read_body peer) (Behind peer contract (contract.taken s) left)
            (read_body-Moves peer contract (contract.taken s) left) (suc n - length left) fuel 0
            (suc n - length left) (left, s) (omega (arith, low, big)) (omega arith)
            ([], sym (append-nil left), refl, sym (append-nil (contract.taken s)))) [
              | inl (z, (have, t), q, complete zr m) ↦ whole-run z have t zr m q
              | inl (z, (have', t'), q, stopped o m (have, t) b pm eo c st) ↦
                  last-run z o m have t have' t' b pm eo c st q
              | inr (o, m, (have, t), pm, eo, (more, h, l, tk), q) ↦
                  let size = length-append left more in
                  let as_missing : m ≡ suc n - length (left ++ more) =
                    omega (arith, size, l, eo, short) in
                  ended n more t e tk (omega (arith, size, l, eo, pm, short)) (
                    subst (λ (x : ℕ). (peer.read x t).0 ≡ got []) as_missing
                      (read_body-zero peer contract have t o m q))
            ]

  pub recv_body-BodyOf :
      (fuel : ℕ) (p : parser.State) (left : Bytes) (s : peer.Socket)
      → 2 ^ 63 ≤ fuel
      → BodyOf p left s (recv_body parser peer fuel p left s)
  unfolding recv_body
  recv_body-BodyOf fuel p left s big = elim (ℤ-cases (to_int64 (parser.content_length p))) [
    | inl e ↦
        done [] (parser.get_data p).body s (rw (e, recv_body) refl)
          (sym (append-nil (contract.taken s)))
          (none_said (λ n k. absurd (ground (arith, ap number (sym e ∙ k)))) refl refl)
    | inr (inr (n, e)) ↦
        done [] (parser.get_data p).body s (rw (e, recv_body) refl)
          (sym (append-nil (contract.taken s)))
          (none_said (λ m k. negsuc≢pos n (suc m) (sym e ∙ k)) refl refl)
    | inr (inl (n, e)) ↦ elim (Bool-cases (ltb (length left) (suc n))) [
      | inl q ↦ missing-BodyOf fuel n p left s e (ltb→lt (length left) (suc n) q) big
      | inr q ↦
          let le : suc n ≤ length left = ground (arith, q) in
          let size : length (take (suc n) left) ≡ suc n =
            omega (arith, length-take (suc n) left, le) in
          done [] (take (suc n) left) s
            (rw (e, le→ltb_false (suc n - length left) 0 (omega (arith, le)), recv_body)
              (ap (λ y. some (some y, s)) (first-take (suc n) left)))
            (sym (append-nil (contract.taken s)))
            (whole n e (ap (take (suc n)) (sym (append-nil left))) size (omega (arith, le)))
    ]
  ]
