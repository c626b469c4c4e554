-- ===== src/HttpSession/Answer.antt =====
-- What `recvRequest` answers, and that no byte of the stream is lost (src/http_session.cc).
use muqiu.Common.{ℕ, suc, ◌-◌, ◌≤◌, ◌<◌, ◌≡◌, Bool, true, false, Option, none, some}
use muqiu.Common.{[], ◌++◌, length, take}
use muqiu.Common.Int.{pos, to_int}
use muqiu.ByteArray.State.{Bytes}
use muqiu.SocketStream.Calls.{got, error}
use muqiu.HttpSession.Contract.{Contract}
use muqiu.HttpSession.Body.{IsBody, ended as short}
use muqiu.Stream.Ending.{Stops}
use muqiu.HttpSession.Receive.{HttpRequest, Parser, Peer, to_int64, init, set_body, execute}

module _ (parser : Parser) (buff_size : ℕ) where
  -- The runs of the parser: what it has taken so far, what lies in the buffer, its state. Before
  -- each run the buffer had room, and what was read into it has fitted.
  pub data Fed : Bytes → Bytes → parser.State → Type 0 where
    start : Fed [] [] parser.new
    feed :
        (consumed left : Bytes) (p : parser.State) (bs : Bytes)
        → Fed consumed left p
        → length left < buff_size
        → length (left ++ bs) ≤ buff_size
        → Fed
            (consumed ++ take (parser.http_parser_execute p (left ++ bs)).1 (left ++ bs))
            (execute parser p (left ++ bs)).1
            (execute parser p (left ++ bs)).0

module _ (parser : Parser) (peer : Peer) (buff_size : ℕ) (contract : Contract peer) where
  -- Why null is answered, from a stream of which `base` was taken to the socket that is closed: the
  -- next read of the head gave nothing or failed; the parser reported an error, or the buffer is
  -- full of bytes that it does not take; the next read of the body failed while a part was missing;
  -- or that part is all there, but its length is no positive `int`.
  pub data Refusal (base : Bytes) (closed : peer.Socket) : Type 0 where
    silent :
        (consumed left : Bytes) (p : parser.State) (s : peer.Socket)
        → Fed parser buff_size consumed left p
        → contract.taken s ≡ base ++ (consumed ++ left)
        → peer.read (buff_size - length left) s ≡ (got [], closed)
        → Refusal base closed
    failing :
        (consumed left : Bytes) (p : parser.State) (s : peer.Socket) (e : ℕ)
        → Fed parser buff_size consumed left p
        → contract.taken s ≡ base ++ (consumed ++ left)
        → peer.read (buff_size - length left) s ≡ (error e, closed)
        → Refusal base closed
    wrong :
        (consumed left : Bytes) (p : parser.State)
        → Fed parser buff_size consumed left p
        → contract.taken closed ≡ base ++ (consumed ++ left)
        → parser.has_error p ≡ true
        → Refusal base closed
    overfull :
        (consumed left : Bytes) (p : parser.State)
        → Fed parser buff_size consumed left p
        → contract.taken closed ≡ base ++ (consumed ++ left)
        → length left ≡ buff_size
        → Refusal base closed
    cut :
        (consumed left more : Bytes) (p : parser.State) (n e : ℕ) (s : peer.Socket)
        → Fed parser buff_size consumed left p
        → parser.is_finished p ≡ true
        → to_int64 (parser.content_length p) ≡ pos (suc n)
        → contract.taken s ≡ base ++ (consumed ++ (left ++ more))
        → length (left ++ more) < suc n
        → peer.read (suc n - length (left ++ more)) s ≡ (error e, closed)
        → Refusal base closed
    oversized :
        (consumed left more : Bytes) (p : parser.State) (n : ℕ)
        → Fed parser buff_size consumed left p
        → parser.is_finished p ≡ true
        → to_int64 (parser.content_length p) ≡ pos (suc n)
        → contract.taken closed ≡ base ++ (consumed ++ (left ++ more))
        → length (left ++ more) ≡ suc n
        → length left < suc n
        → Stops (to_int (suc n - length left))
        → Refusal base closed

  -- The end of the loop over the head, from a stream of which `base` was taken.
  data HeadOf (base : Bytes) (r : Option (Option (parser.State × Bytes) × peer.Socket))
      : Type 0 where
    null : (t : peer.Socket) → Refusal base t → r ≡ some (none, peer.close t) → HeadOf base r
    head :
        (consumed left : Bytes) (p : parser.State) (t : peer.Socket)
        → r ≡ some (some (p, left), t)
        → Fed parser buff_size consumed left p
        → parser.has_error p ≡ false
        → parser.is_finished p ≡ true
        → contract.taken t ≡ base ++ (consumed ++ left)
        → HeadOf base r

  -- What a call has answered: null, with the socket closed and a reason; or a request, whose headers a run of
  -- the parser over the first bytes has finished without an error, and whose body is the bytes
  -- after those, as many as the headers say; or, with a part
  -- of the body missing, the next read gives nothing.
  pub data AnswerOf (is_keep_alive : Bytes → Bool) (s : peer.Socket)
      (r : Option (Option HttpRequest × peer.Socket)) : Type 0 where
    refused :
        (t : peer.Socket)
        → Refusal (contract.taken s) t
        → r ≡ some (none, peer.close t)
        → AnswerOf is_keep_alive s r
    accepted :
        (consumed left more body : Bytes) (p : parser.State) (t : peer.Socket)
        → r ≡ some (some (init is_keep_alive (set_body body (parser.get_data p))), t)
        → Fed parser buff_size consumed left p
        → parser.has_error p ≡ false
        → parser.is_finished p ≡ true
        → contract.taken t ≡ contract.taken s ++ (consumed ++ (left ++ more))
        → IsBody parser p left more body
        → AnswerOf is_keep_alive s r
    starved :
        (consumed left more : Bytes) (p : parser.State) (n : ℕ) (t : peer.Socket)
        → Fed parser buff_size consumed left p
        → parser.is_finished p ≡ true
        → to_int64 (parser.content_length p) ≡ pos (suc n)
        → contract.taken t ≡ contract.taken s ++ (consumed ++ (left ++ more))
        → length (left ++ more) < suc n
        → (peer.read (suc n - length (left ++ more)) t).0 ≡ got []
        → AnswerOf is_keep_alive s r
