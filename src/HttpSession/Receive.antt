-- ===== src/HttpSession/Receive.antt =====
-- `HttpSession::recvRequest` (src/http_session.cc), `HttpRequestParser::execute`
-- (src/http_parser.cc) and `HttpRequest::init` (src/http.cc).
--
-- The generated parser and the socket are parameters. The buffer is the list of the bytes that it
-- holds from its start, `offset` is their number. Loops run on fuel, and `none` says that it has
-- run out.
use muqiu.Common.{ℕ, zero, suc, ◌-◌, ◌^◌, Bool, not, Option, none, some}
use muqiu.Common.{[], ◌∷◌, ◌++◌, length, take, drop, if◌then◌else◌, ◌==◌, ltb, leb}
use muqiu.Common.Int.{ℤ, pos, negsuc}
use muqiu.ByteArray.State.{Bytes}
use muqiu.SocketStream.Calls.{Received, got, error}
use muqiu.Stream.FixSize.{read_fix_size}

-- What `recvRequest` sets of a request, and the header that `init` reads.
pub record HttpRequest : Type 0 where
  pub connection : Bytes
  pub is_close : Bool
  pub body : Bytes

-- The parser: `http_parser_execute` gives how many bytes it has taken, `content_length` is that of
-- the headers, an unsigned number of 64 bits, and `get_data` the request so far.
pub record Parser : Type 1 where
  pub State : Type 0
  pub new : State
  pub http_parser_execute : State → Bytes → State × ℕ
  pub has_error : State → Bool
  pub is_finished : State → Bool
  pub content_length : State → ℕ
  pub get_data : State → HttpRequest

-- The stream below: `read(void *, size_t)` and `close`.
pub record Peer : Type 1 where
  pub Socket : Type 0
  pub read : ℕ → Socket → Received × Socket
  pub close : Socket → Socket

-- An unsigned number of 64 bits as a signed one.
unfoldable pub to_int64 : ℕ → ℤ
to_int64 v = if ltb v (2 ^ 63) then pos v else negsuc (2 ^ 64 - 1 - v)

abbrev is_empty : Bytes → Bool
is_empty [] = Bool.true
is_empty (b ∷ bs) = Bool.false

-- `strcasecmp` with "keep-alive" is the parameter.
unfoldable pub init : (Bytes → Bool) → HttpRequest → HttpRequest
init is_keep_alive r =
    if is_empty r.connection then r else record r { is_close = not (is_keep_alive r.connection) }

unfoldable pub set_body : Bytes → HttpRequest → HttpRequest
set_body bytes r = record r { body = bytes }

module _ (parser : Parser) where
  -- What the parser has not taken moves to the start of the buffer.
  unfoldable pub execute : parser.State → Bytes → parser.State × Bytes
  execute p bytes = let (p', n) = parser.http_parser_execute p bytes in (p', drop n bytes)

module _ (peer : Peer) where
  -- One read of a body: the bytes go behind those that are there.
  unfoldable pub read_body : Bytes × peer.Socket → ℕ → ℕ → ℤ × (Bytes × peer.Socket)
  read_body (have, s) offset left =
      let (r, s') = peer.read left s in
      elim r [
        | got bytes ↦ (pos (length bytes), (have ++ bytes, s'))
        | error n ↦ (negsuc n, (have, s'))
      ]

module _ (parser : Parser) (peer : Peer) (buff_size : ℕ) where
  -- The loop over reads and runs of the parser: the parser and the bytes left, or null.
  unfoldable pub recv_head :
      ℕ → parser.State → Bytes → peer.Socket → Option (Option (parser.State × Bytes) × peer.Socket)
  recv_head zero p kept s = none
  recv_head (suc fuel) p kept s =
      let (r, s') = peer.read (buff_size - length kept) s in
      elim r [
        | error n ↦ some (none, peer.close s')
        | got [] ↦ some (none, peer.close s')
        | got (b ∷ bytes) ↦
            let (p', left) = execute parser p (kept ++ b ∷ bytes) in
            let rest = recv_head fuel p' left s' in
            if parser.has_error p'
            then some (none, peer.close s')
            else if length left == buff_size
            then some (none, peer.close s')
            else if parser.is_finished p'
            then some (some (p', left), s')
            else rest
      ]

module _ (parser : Parser) (peer : Peer) where
  -- The end of a request whose headers are read: what is missing of its body is read as well.
  unfoldable pub recv_body :
      ℕ → parser.State → Bytes → peer.Socket → Option (Option Bytes × peer.Socket)
  recv_body fuel p left s = elim (to_int64 (parser.content_length p)) [
    | negsuc n ↦ some (some (parser.get_data p).body, s)
    | pos zero ↦ some (some (parser.get_data p).body, s)
    | pos (suc n) ↦
        let missing = suc n - length left in
        let first = if leb (length left) (suc n) then left else take (suc n) left in
        let more : Option (Option Bytes × peer.Socket) =
          elim (read_fix_size (read_body peer) fuel missing (first, s)) [
            | none ↦ none
            | some (negsuc e, (have, s')) ↦ some (none, peer.close s')
            | some (pos zero, (have, s')) ↦ some (none, peer.close s')
            | some (pos (suc k), (have, s')) ↦ some (some have, s')
          ] in
        if ltb 0 missing then more else some (some first, s)
  ]

module _ (parser : Parser) (peer : Peer) (buff_size : ℕ) where
  -- `recvRequest` on some fuel: a request or null.
  unfoldable pub recv_request :
      (Bytes → Bool) → ℕ → peer.Socket → Option (Option HttpRequest × peer.Socket)
  recv_request is_keep_alive fuel s = elim (recv_head parser peer buff_size fuel parser.new [] s) [
    | none ↦ none
    | some (none, s') ↦ some (none, s')
    | some (some (p, left), s') ↦ elim (recv_body parser peer fuel p left s') [
      | none ↦ none
      | some (none, t) ↦ some (none, t)
      | some (some body, t) ↦
          some (some (init is_keep_alive (set_body body (parser.get_data p))), t)
    ]
  ]
