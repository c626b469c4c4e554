-- ===== src/Socket/State.antt =====
-- `Socket` (src/socket.cc, include/socket.h).
--
-- The system is a parameter: its calls over the state K of the kernel, with whether they succeed.
-- A descriptor of -1 is none, and so is a null pointer to an address. What getsockname and
-- getpeername fill is an address of the family of the socket.
use muqiu.Common.{ℕ, ◌-◌, ◌^◌, Bool, true, false, not, Option, none, some}
use muqiu.Common.{List, [], ◌∷◌, if◌then◌else◌, ◌==◌}

pub record System (K Addr : Type 0) : Type 0 where
  pub socket : ℕ → ℕ → ℕ → K → Option ℕ × K
  pub set_option : ℕ → ℕ → K → Bool × K
  pub bind : ℕ → Addr → K → Bool × K
  pub connect : ℕ → Addr → K → Bool × K
  pub connect_with_timeout : ℕ → Addr → ℕ → K → Bool × K
  pub listen : ℕ → ℕ → K → Bool × K
  pub close : ℕ → K → K
  pub getsockname : ℕ → ℕ → K → Option Addr × K
  pub getpeername : ℕ → ℕ → K → Option Addr × K
  pub family_of : Addr → ℕ
  pub unknown : ℕ → Addr

-- The options SO_REUSEADDR and TCP_NODELAY, and the type SOCK_STREAM.
abbrev so_reuseaddr : ℕ
so_reuseaddr = 2

abbrev tcp_nodelay : ℕ
tcp_nodelay = 1

abbrev pub sock_stream : ℕ
sock_stream = 1

pub record Socket (Addr : Type 0) : Type 0 where
  pub sock : Option ℕ
  pub family : ℕ
  pub kind : ℕ
  pub protocol : ℕ
  pub is_connected : Bool
  pub local_address : Option Addr
  pub remote_address : Option Addr

-- The constructor.
unfoldable pub new_socket : {Addr : Type 0} → ℕ → ℕ → ℕ → Socket Addr
new_socket family kind protocol = record {
  sock = none;
  family = family;
  kind = kind;
  protocol = protocol;
  is_connected = false;
  local_address = none;
  remote_address = none;
}

abbrev pub is_none : {A : Type 0} → Option A → Bool
is_none none = true
is_none (some a) = false

-- An `uint64_t` of -1 says that there is no timeout.
abbrev pub no_timeout : ℕ
no_timeout = 2 ^ 64 - 1

module _ {K Addr : Type 0} (o : System K Addr) where
  -- The options of a new descriptor.
  unfoldable pub init_sock : ℕ → ℕ → K → K
  init_sock fd kind k =
      let (reused, k1) = o.set_option fd so_reuseaddr k in
      if kind == sock_stream then (o.set_option fd tcp_nodelay k1).1 else k1

  unfoldable pub sock_made : Option ℕ → Socket Addr → K → Socket Addr × K
  sock_made none s k = (record s { sock = none }, k)
  sock_made (some fd) s k = (record s { sock = some fd }, init_sock fd s.kind k)

  unfoldable pub new_sock : Socket Addr → K → Socket Addr × K
  new_sock s k = let (fd, k1) = o.socket s.family s.kind s.protocol k in sock_made fd s k1

  -- The address that is kept, or that the system gives, or an unknown one, which is not kept.
  unfoldable pub local_found : Option Addr → Socket Addr → K → Addr × Socket Addr × K
  local_found none s k = (o.unknown s.family, s, k)
  local_found (some a) s k = (a, record s { local_address = some a }, k)

  unfoldable pub local_or : Option Addr → ℕ → Socket Addr → K → Addr × Socket Addr × K
  local_or (some a) fd s k = (a, s, k)
  local_or none fd s k = let (found, k1) = o.getsockname fd s.family k in local_found found s k1

  abbrev pub get_local_address : ℕ → Socket Addr → K → Addr × Socket Addr × K
  get_local_address fd s k = local_or s.local_address fd s k

  unfoldable pub remote_found : Option Addr → Socket Addr → K → Addr × Socket Addr × K
  remote_found none s k = (o.unknown s.family, s, k)
  remote_found (some a) s k = (a, record s { remote_address = some a }, k)

  unfoldable pub remote_or : Option Addr → ℕ → Socket Addr → K → Addr × Socket Addr × K
  remote_or (some a) fd s k = (a, s, k)
  remote_or none fd s k = let (found, k1) = o.getpeername fd s.family k in remote_found found s k1

  abbrev pub get_remote_address : ℕ → Socket Addr → K → Addr × Socket Addr × K
  get_remote_address fd s k = remote_or s.remote_address fd s k

  unfoldable pub close_sock : Option ℕ → Socket Addr → K → Bool × Socket Addr × K
  close_sock none s k =
      if not s.is_connected then (true, s, k) else (false, record s { is_connected = false }, k)
  close_sock (some fd) s k = (false, record s { is_connected = false; sock = none }, o.close fd k)

  -- `close`, and so the destructor.
  abbrev pub close : Socket Addr → K → Bool × Socket Addr × K
  close s k = close_sock s.sock s k

  -- `if (!isValid()) newSock()`.
  unfoldable pub ensure_sock : Socket Addr → K → Socket Addr × K
  ensure_sock s k = if is_none s.sock then new_sock s k else (s, k)

  unfoldable pub bind_sock : Option ℕ → Addr → Socket Addr → K → Bool × Socket Addr × K
  bind_sock none addr s k = (false, s, k)
  bind_sock (some fd) addr s k =
      let (bound, k1) = o.bind fd addr k in
      let (kept, s2, k2) = get_local_address fd s k1 in
      if not (o.family_of addr == s.family)
      then (false, s, k)
      else if not bound
      then (false, s, k1)
      else (true, s2, k2)

  unfoldable pub bind : Addr → Socket Addr → K → Bool × Socket Addr × K
  bind addr s k = let (s1, k1) = ensure_sock s k in bind_sock s1.sock addr s1 k1

  -- The call of the system, with a timeout unless that is -1.
  unfoldable pub call_connect : ℕ → Addr → ℕ → K → Bool × K
  call_connect fd addr timeout_ms k =
      if timeout_ms == no_timeout
      then o.connect fd addr k
      else o.connect_with_timeout fd addr timeout_ms k

  unfoldable pub connected : ℕ → Socket Addr → K → Bool × Socket Addr × K
  connected fd s k =
      let (remote, s1, k1) = get_remote_address fd (record s { is_connected = true }) k in
      let (kept, s2, k2) = get_local_address fd s1 k1 in (true, s2, k2)

  unfoldable pub connect_sock : Option ℕ → Addr → ℕ → Socket Addr → K → Bool × Socket Addr × K
  connect_sock none addr timeout_ms s k = (false, s, k)
  connect_sock (some fd) addr timeout_ms s k =
      let (done, k1) = call_connect fd addr timeout_ms k in
      let (closed, s2, k2) = close s k1 in
      if not (o.family_of addr == s.family)
      then (false, s, k)
      else if not done
      then (false, s2, k2)
      else connected fd s k1

  unfoldable pub connect : Addr → ℕ → Socket Addr → K → Bool × Socket Addr × K
  connect addr timeout_ms s k =
      let (s1, k1) = ensure_sock (record s { remote_address = some addr }) k in
      connect_sock s1.sock addr timeout_ms s1 k1

  unfoldable pub reconnect_to : Option Addr → ℕ → Socket Addr → K → Bool × Socket Addr × K
  reconnect_to none timeout_ms s k = (false, s, k)
  reconnect_to (some addr) timeout_ms s k =
      connect addr timeout_ms (record s { local_address = none }) k

  abbrev pub reconnect : ℕ → Socket Addr → K → Bool × Socket Addr × K
  reconnect timeout_ms s k = reconnect_to s.remote_address timeout_ms s k

  unfoldable pub listen_sock : Option ℕ → ℕ → Socket Addr → K → Bool × Socket Addr × K
  listen_sock none backlog s k = (false, s, k)
  listen_sock (some fd) backlog s k = let (done, k1) = o.listen fd backlog k in (done, s, k1)

  abbrev pub listen : ℕ → Socket Addr → K → Bool × Socket Addr × K
  listen backlog s k = listen_sock s.sock backlog s k

  -- The operations on a socket, and a run of them.
  pub data Operation : Type 0 where
    bind_to : Addr → Operation
    connect_to : Addr → ℕ → Operation
    reconnect_within : ℕ → Operation
    listen_with : ℕ → Operation
    close_it : Operation

  unfoldable pub perform : Operation → Socket Addr → K → Bool × Socket Addr × K
  perform (bind_to addr) s k = bind addr s k
  perform (connect_to addr timeout_ms) s k = connect addr timeout_ms s k
  perform (reconnect_within timeout_ms) s k = reconnect timeout_ms s k
  perform (listen_with backlog) s k = listen backlog s k
  perform close_it s k = close s k

  unfoldable pub perform_all : List Operation → Socket Addr → K → Socket Addr × K
  perform_all [] s k = (s, k)
  perform_all (op ∷ ops) s k = let (r, s1, k1) = perform op s k in perform_all ops s1 k1
