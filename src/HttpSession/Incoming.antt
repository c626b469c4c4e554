-- ===== src/HttpSession/Incoming.antt =====
-- The reads of a body put its bytes one behind the other (src/http_session.cc).
use muqiu.Common.{
  ℕ, suc, ◌+◌, ◌-◌, ◌^◌, ◌≤◌, ◌<◌, ◌≡◌, ◌≢◌, refl, sym, ap, ◌∙◌, arith, Bool-cases, inl, inr, ◌⊎◌,
}
use muqiu.Common.{[], ◌∷◌, ◌++◌, append_assoc, length, length-append, ltb}
use muqiu.Common.Int.{ℤ, pos, negsuc}
use muqiu.ByteArray.State.{Bytes}
use muqiu.SocketStream.Calls.{got, error}
use muqiu.Stream.Ending.{Moves, Stops, at_end, failed}
use muqiu.HttpSession.Receive.{Peer, to_int64, read_body}
use muqiu.HttpSession.Contract.{Contract, Received-cases}

abbrev pub number : ℤ → ℕ
number (pos n) = n
number (negsuc n) = 0

pub to_int64-below : (v n : ℕ) → to_int64 v ≡ pos (suc n) → suc n < 2 ^ 63
unfolding to_int64
to_int64-below v n e = elim (Bool-cases (ltb v (2 ^ 63))) [
  | inl q ↦
      let k : to_int64 v ≡ pos v = rw (q, to_int64) refl in
      let same : suc n ≡ v = ap number (sym e ∙ k) in ground (arith, q, same)
  | inr q ↦
      let k : to_int64 v ≡ negsuc (2 ^ 64 - 1 - v) = rw (q, to_int64) refl in
      let same : suc n ≡ 0 = ap number (sym e ∙ k) in absurd (omega (arith, same))
]

pub negsuc≢pos : (m n : ℕ) → negsuc m ≢ pos n
negsuc≢pos m n e = absurd (ground (arith, e))

pub pair : {A B : Type 0} {x : A × B} {a : A} {b : B} → x.0 ≡ a → x.1 ≡ b → x ≡ (a, b)
pair p q = λ i. (p i, q i)

not_stopped : (n : ℕ) (z : ℤ) → pos (suc n) ≡ z → Stops z → ⊥
not_stopped n _ e at_end = ground (arith, e)
not_stopped n _ e (failed k) = ground (arith, e)

module _ (peer : Peer) (contract : Contract peer) where
  -- `o` bytes have come behind `first`, and they are the next of the stream.
  unfoldable pub Behind : Bytes → Bytes → ℕ → Bytes × peer.Socket → Type 0
  Behind base first o (have, s) =
      (more : Bytes) × (have ≡ first ++ more)
      × (length more ≡ o)
      × (contract.taken s ≡ base ++ more)

  read_body-got :
      (have : Bytes) (s : peer.Socket) (o left : ℕ) (bs : Bytes)
      → (peer.read left s).0 ≡ got bs
      → read_body peer (have, s) o left ≡ (pos (length bs), (have ++ bs, (peer.read left s).1))
  unfolding read_body
  read_body-got have s o left bs q = rw (q, read_body) refl

  read_body-error :
      (have : Bytes) (s : peer.Socket) (o left n : ℕ)
      → (peer.read left s).0 ≡ error n
      → read_body peer (have, s) o left ≡ (negsuc n, (have, (peer.read left s).1))
  unfolding read_body
  read_body-error have s o left n q = rw (q, read_body) refl

  pub read_body-zero :
      (have : Bytes) (s : peer.Socket) (o left : ℕ)
      → (read_body peer (have, s) o left).0 ≡ pos 0
      → (peer.read left s).0 ≡ got []
  read_body-zero have s o left e = elim (Received-cases (peer.read left s).0) [
    | inl q ↦ q
    | inr (inl (b, bs, q)) ↦
        let k : suc (length bs) ≡ 0 =
          ap number (sym (ap (λ r. r.0) (read_body-got have s o left (b ∷ bs) q)) ∙ e) in
        absurd (omega (arith, k))
    | inr (inr (n, q)) ↦
        absurd (negsuc≢pos n 0 (sym (ap (λ r. r.0) (read_body-error have s o left n q)) ∙ e))
  ]

  -- A read that gives nothing, or that fails, and what it leaves.
  pub read_body-Stops :
      (have : Bytes) (s : peer.Socket) (o left : ℕ) (z : ℤ) (have' : Bytes) (s' : peer.Socket)
      → read_body peer (have, s) o left ≡ (z, (have', s'))
      → Stops z
      → ((peer.read left s).0 ≡ got []) ⊎ ((n : ℕ) × (peer.read left s ≡ (error n, s')))
  read_body-Stops have s o left z have' s' e st = elim (Received-cases (peer.read left s).0) [
    | inl q ↦ inl q
    | inr (inl (b, bs, q)) ↦ absurd (
        not_stopped (length bs) z
          (sym (ap (λ r. r.0) (read_body-got have s o left (b ∷ bs) q)) ∙ ap (λ r. r.0) e) st)
    | inr (inr (n, q)) ↦
        let same : (peer.read left s).1 ≡ s' =
          sym (ap (λ r. r.1.1) (read_body-error have s o left n q)) ∙ ap (λ r. r.1.1) e in
        inr (n, pair q same)
  ]

  Behind-got :
      (base first have bs : Bytes) (o left n : ℕ) (s : peer.Socket)
      → Behind base first o (have, s)
      → (peer.read left s).0 ≡ got bs
      → (read_body peer (have, s) o left).0 ≡ pos n
      → (n ≤ left) × Behind base first (o + n) (read_body peer (have, s) o left).1
  unfolding Behind
  Behind-got base first have bs o left n s (more, h, l, t) q e =
      let (fits, next, fewer) = contract.reads left s bs q in
      let k : length bs ≡ n =
        ap number (sym (ap (λ r. r.0) (read_body-got have s o left bs q)) ∙ e) in
      rw (read_body-got have s o left bs q) (
        omega (arith, fits, k),
        (
          more ++ bs,
          ap (λ x. x ++ bs) h ∙ append_assoc first more bs,
          omega (arith, length-append more bs, l, k),
          next ∙ (ap (λ x. x ++ bs) t ∙ append_assoc base more bs),
        ),
      )

  pub read_body-Moves : (base first : Bytes) → Moves (read_body peer) (Behind base first)
  read_body-Moves base first o left n (have, s) m e = elim (Received-cases (peer.read left s).0) [
    | inl q ↦ Behind-got base first have [] o left n s m q e
    | inr (inl (b, bs, q)) ↦ Behind-got base first have (b ∷ bs) o left n s m q e
    | inr (inr (k, q)) ↦
        absurd (negsuc≢pos k n (sym (ap (λ r. r.0) (read_body-error have s o left k q)) ∙ e))
  ]
