-- ===== src/Socket/Tests.antt =====
-- Operations on a socket (src/socket.cc).
use muqiu.Common.{
  ℕ, ◌≡◌, refl, arith, Bool, true, false, not, ◌&&◌, ◌||◌, Option, none, some, some_inj, [], ◌∷◌,
  ◌==◌, if◌then◌else◌,
}
use mathlib.Core.Path.{subst}
use muqiu.Socket.State.{
  System, new_socket, listen_with, connect_to, reconnect_within, close, perform_all,
}
use muqiu.Socket.Owning.{Descriptors, close-perform_all}

-- The table of open descriptors.
abbrev Table : Type 0
Table = ℕ → Bool

abbrev adding : ℕ → Table → Table
adding fd k g = (g == fd) || k g

abbrev given : Bool → Option ℕ
given true = none
given false = some 5

-- A system where only descriptor 5 is given, and where no connection succeeds. An address is its
-- family.
abbrev system : System Table ℕ
system = record {
  socket = λ f t p k. (given (k 5), if k 5 then k else adding 5 k);
  set_option = λ fd n k. (true, k);
  bind = λ fd a k. (true, k);
  connect = λ fd a k. (false, k);
  connect_with_timeout = λ fd a t k. (false, k);
  listen = λ fd n k. (true, k);
  close = λ fd k g. not (g == fd) && k g;
  getsockname = λ fd f k. (some f, k);
  getpeername = λ fd f k. (none, k);
  family_of = λ a. a;
  unknown = λ f. f;
}

five :
    (b : Bool) (k : Table) (fd : ℕ)
    → k 5 ≡ b
    → given b ≡ some fd
    → (k fd ≡ false) × ((if b then k else adding 5 k) ≡ adding fd k)
five true k fd h e = ground (arith, e)
five false k fd h e =
    subst (λ (x : ℕ). (k x ≡ false) × (adding 5 k ≡ adding x k)) (some_inj e) (h, refl)

full_table : (b : Bool) (k : Table) → given b ≡ none → (if b then k else adding 5 k) ≡ k
full_table true k e = refl
full_table false k e = ground (arith, e)

abbrev descriptors : Descriptors system
descriptors = record {
  opened = λ k. k;
  socket_opens = λ f t p fd k e. five (k 5) k fd refl e;
  socket_fails = λ f t p k e. full_table (k 5) k e;
  closes = λ fd k. refl;
  set_option_keeps = λ fd n k. refl;
  bind_keeps = λ fd a k. refl;
  connect_keeps = λ fd a k. refl;
  connect_with_timeout_keeps = λ fd a t k. refl;
  listen_keeps = λ fd n k. refl;
  getsockname_keeps = λ fd f k. refl;
  getpeername_keeps = λ fd f k. refl;
}

abbrev standard : Table
standard k = k == 0

-- A connection that fails, twice, and a listen on the closed socket.
close-perform_all_example :
    let r =
      perform_all system
        (connect_to 2 100 ∷ reconnect_within 100 ∷ listen_with 1 ∷ [])
        (new_socket 2 1 0)
        standard in
    let c = close system r.0 r.1 in (c.1.sock ≡ none) × (c.2 ≡ standard)
close-perform_all_example =
    close-perform_all system descriptors 2 1 0
      (connect_to 2 100 ∷ reconnect_within 100 ∷ listen_with 1 ∷ []) standard
