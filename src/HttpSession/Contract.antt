-- ===== src/HttpSession/Contract.antt =====
-- What `recvRequest` relies on of the socket below (src/http_session.cc).
use muqiu.Common.{ℕ, ◌+◌, ◌≤◌, ◌≡◌, refl, ◌⊎◌, inl, inr}
use muqiu.Common.{[], ◌∷◌, ◌++◌, length}
use muqiu.ByteArray.State.{Bytes}
use muqiu.SocketStream.Calls.{Received, got, error}
use muqiu.HttpSession.Receive.{Peer}

-- To split on what a `recv` gives and keep the equation.
pub Received-cases :
    (r : Received)
    → (r ≡ got []) ⊎ (((b : ℕ) × (bs : Bytes) × (r ≡ got (b ∷ bs))) ⊎ ((n : ℕ) × (r ≡ error n)))
Received-cases (got []) = inl refl
Received-cases (got (b ∷ bs)) = inr (inl (b, bs, refl))
Received-cases (error n) = inr (inr (n, refl))

-- The contract of `recv`: no more bytes than were asked for, which are the next of the stream, and
-- those that are still to come get fewer.
pub record Contract (peer : Peer) : Type 0 where
  pub taken : peer.Socket → Bytes
  pub remaining : peer.Socket → ℕ
  pub reads :
      (n : ℕ) (s : peer.Socket) (bs : Bytes)
      → (peer.read n s).0 ≡ got bs
      → (length bs ≤ n)
        × (taken (peer.read n s).1 ≡ taken s ++ bs)
        × (length bs + remaining (peer.read n s).1 ≤ remaining s)
