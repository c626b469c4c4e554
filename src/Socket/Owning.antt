-- ===== src/Socket/Owning.antt =====
-- A socket owns its descriptor (src/socket.cc).
use muqiu.Common.{
  ℕ, ◌≡◌, refl, sym, ap, ◌∙◌, Bool, true, false, not, ◌&&◌, ◌||◌, Bool-cases, inl, inr,
  Option-cases, if◌then◌else◌,
}
use muqiu.Common.{==_iff, Option, none, some, List, [], ◌∷◌, ◌==◌}
use mathlib.Core.Path.{subst, fun_ext}
use muqiu.Socket.State.{
  System, Socket, new_socket, is_none, init_sock, sock_made, new_sock, local_found, local_or,
  remote_found, remote_or, close_sock, ensure_sock, bind_sock, bind, call_connect, connected,
  connect_sock, connect, reconnect_to, listen_sock, Operation, bind_to, connect_to,
  reconnect_within, listen_with, close_it, perform, perform_all, sock_stream, no_timeout, close,
}

-- What the calls of the system do to the table of open descriptors.
pub record Descriptors {K Addr : Type 0} (o : System K Addr) : Type 0 where
  pub opened : K → ℕ → Bool
  pub socket_opens :
      (f t p fd : ℕ) (k : K)
      → (o.socket f t p k).0 ≡ some fd
      → (opened k fd ≡ false) × (opened (o.socket f t p k).1 ≡ (λ g. (g == fd) || opened k g))
  pub socket_fails :
      (f t p : ℕ) (k : K) → (o.socket f t p k).0 ≡ none → opened (o.socket f t p k).1 ≡ opened k
  pub closes : (fd : ℕ) (k : K) → opened (o.close fd k) ≡ (λ g. not (g == fd) && opened k g)
  pub set_option_keeps : (fd n : ℕ) (k : K) → opened (o.set_option fd n k).1 ≡ opened k
  pub bind_keeps : (fd : ℕ) (a : Addr) (k : K) → opened (o.bind fd a k).1 ≡ opened k
  pub connect_keeps : (fd : ℕ) (a : Addr) (k : K) → opened (o.connect fd a k).1 ≡ opened k
  pub connect_with_timeout_keeps :
      (fd : ℕ) (a : Addr) (t : ℕ) (k : K) → opened (o.connect_with_timeout fd a t k).1 ≡ opened k
  pub listen_keeps : (fd n : ℕ) (k : K) → opened (o.listen fd n k).1 ≡ opened k
  pub getsockname_keeps : (fd f : ℕ) (k : K) → opened (o.getsockname fd f k).1 ≡ opened k
  pub getpeername_keeps : (fd f : ℕ) (k : K) → opened (o.getpeername fd f k).1 ≡ opened k

-- The open descriptors are those of `base`, and that of the socket, if it has one.
abbrev pub Owned : (ℕ → Bool) → Option ℕ → (ℕ → Bool) → Type 0
Owned base none now = now ≡ base
Owned base (some fd) now = (base fd ≡ false) × (now ≡ (λ g. (g == fd) || base g))

if-holds : {A : Type 0} (P : A → Type 0) (b : Bool) {x y : A} → P x → P y → P (if b then x else y)
if-holds P true p q = p
if-holds P false p q = q

module _ {K Addr : Type 0} (o : System K Addr) (d : Descriptors o) where
  abbrev Keeps : Socket Addr → K → Socket Addr → K → Type 0
  Keeps s k s' k' = (s'.sock ≡ s.sock) × (d.opened k' ≡ d.opened k)

  local_found-Keeps :
      (found : Option Addr) (s : Socket Addr) (k : K)
      → (let r = local_found o found s k in Keeps s k r.1 r.2)
  unfolding local_found
  local_found-Keeps none s k = (refl, refl)
  local_found-Keeps (some a) s k = (refl, refl)

  local_or-Keeps :
      (m : Option Addr) (fd : ℕ) (s : Socket Addr) (k : K)
      → (let r = local_or o m fd s k in Keeps s k r.1 r.2)
  unfolding local_or
  local_or-Keeps (some a) fd s k = (refl, refl)
  local_or-Keeps none fd s k =
      let (found, k1) = o.getsockname fd s.family k in
      let (p, q) = local_found-Keeps found s k1 in (p, q ∙ d.getsockname_keeps fd s.family k)

  remote_found-Keeps :
      (found : Option Addr) (s : Socket Addr) (k : K)
      → (let r = remote_found o found s k in Keeps s k r.1 r.2)
  unfolding remote_found
  remote_found-Keeps none s k = (refl, refl)
  remote_found-Keeps (some a) s k = (refl, refl)

  remote_or-Keeps :
      (m : Option Addr) (fd : ℕ) (s : Socket Addr) (k : K)
      → (let r = remote_or o m fd s k in Keeps s k r.1 r.2)
  unfolding remote_or
  remote_or-Keeps (some a) fd s k = (refl, refl)
  remote_or-Keeps none fd s k =
      let (found, k1) = o.getpeername fd s.family k in
      let (p, q) = remote_found-Keeps found s k1 in (p, q ∙ d.getpeername_keeps fd s.family k)

  init_sock-keeps : (fd kind : ℕ) (k : K) → d.opened (init_sock o fd kind k) ≡ d.opened k
  unfolding init_sock
  init_sock-keeps fd kind k = elim (Bool-cases (kind == sock_stream)) [
    | inl e ↦ rw e (d.set_option_keeps fd 1 (o.set_option fd 2 k).1 ∙ d.set_option_keeps fd 2 k)
    | inr e ↦ rw e (d.set_option_keeps fd 2 k)
  ]

  call_connect-keeps :
      (fd : ℕ) (a : Addr) (t : ℕ) (k : K) → d.opened (call_connect o fd a t k).1 ≡ d.opened k
  unfolding call_connect
  call_connect-keeps fd a t k =
      if-holds (λ (r : Bool × K). d.opened r.1 ≡ d.opened k) (t == no_timeout)
        (d.connect_keeps fd a k) (d.connect_with_timeout_keeps fd a t k)

  module _ (base : ℕ → Bool) where
    -- The socket owns its descriptor, and the rest is as it was.
    abbrev Owns : Socket Addr → K → Type 0
    Owns s k = Owned base s.sock (d.opened k)

    Keeps-Owns :
        (s : Socket Addr) (k : K) (s' : Socket Addr) (k' : K)
        → Keeps s k s' k'
        → Owns s k
        → Owns s' k'
    Keeps-Owns s k s' k' (p, q) h =
        subst (λ (m : Option ℕ). Owned base m (d.opened k')) (sym p)
          (subst (λ (t : ℕ → Bool). Owned base s.sock t) (sym q) h)

    sock_made-Owns :
        (m : Option ℕ) (s : Socket Addr) (k : K)
        → Owned base m (d.opened k)
        → (let r = sock_made o m s k in Owns r.0 r.1)
    unfolding sock_made
    sock_made-Owns none s k h = h
    sock_made-Owns (some fd) s k (h, e) = (h, init_sock-keeps fd s.kind k ∙ e)

    new_sock-Owns :
        (s : Socket Addr) (k : K) → d.opened k ≡ base → (let r = new_sock o s k in Owns r.0 r.1)
    unfolding new_sock
    new_sock-Owns s k h =
        let (fd, k1) = o.socket s.family s.kind s.protocol k in
        let owned : Owned base fd (d.opened k1) = elim (Option-cases fd) [
          | inl e ↦
              subst (λ (m : Option ℕ). Owned base m (d.opened k1)) (sym e)
                (d.socket_fails s.family s.kind s.protocol k e ∙ h)
          | inr (n, e) ↦
              let (new, all) = d.socket_opens s.family s.kind s.protocol n k e in
              subst (λ (m : Option ℕ). Owned base m (d.opened k1)) (sym e)
                (
                  subst (λ (t : ℕ → Bool). t n ≡ false) h new,
                  all ∙ ap {B = ℕ → Bool} (λ (t : ℕ → Bool) (g : ℕ). (g == n) || t g) h,
                )
        ] in
        sock_made-Owns fd s k1 owned

    ensured :
        (m : Option ℕ) (s : Socket Addr) (k : K)
        → s.sock ≡ m
        → Owned base m (d.opened k)
        → (let r = if is_none m then new_sock o s k else (s, k) in Owns r.0 r.1)
    ensured none s k e h = new_sock-Owns s k h
    ensured (some fd) s k e h = subst (λ (m : Option ℕ). Owned base m (d.opened k)) (sym e) h

    ensure_sock-Owns :
        (s : Socket Addr) (k : K) → Owns s k → (let r = ensure_sock o s k in Owns r.0 r.1)
    unfolding ensure_sock
    ensure_sock-Owns s k h = ensured s.sock s k refl h

    -- What is left when the descriptor is taken out again.
    without :
        (fd : ℕ) → base fd ≡ false → (λ (g : ℕ). not (g == fd) && ((g == fd) || base g)) ≡ base
    without fd h = fun_ext λ g. elim (Bool-cases (g == fd)) [
      | inl e ↦ rw e (sym (subst (λ (x : ℕ). base x ≡ false) (sym ((==_iff g fd).0 e)) h))
      | inr e ↦ rw e refl
    ]

    closed :
        (m : Option ℕ) (s : Socket Addr) (k : K)
        → s.sock ≡ m
        → Owned base m (d.opened k)
        → (let r = close_sock o m s k in (r.1.sock ≡ none) × (d.opened r.2 ≡ base))
    unfolding close_sock
    closed none s k e h = elim (Bool-cases s.is_connected) [
      | inl c ↦ rw c (e, h)
      | inr c ↦ rw c (e, h)
    ]
    closed (some fd) s k e (new, all) = (
      refl,
      d.closes fd k
          ∙ ap {B = ℕ → Bool} (λ (t : ℕ → Bool) (g : ℕ). not (g == fd) && t g) all
          ∙ without fd new,
    )

    close-Owns : (s : Socket Addr) (k : K) → Owns s k → (let r = close o s k in Owns r.1 r.2)
    close-Owns s k h =
        let (e, b) = closed s.sock s k refl h in
        let r = close o s k in subst (λ (m : Option ℕ). Owned base m (d.opened r.2)) (sym e) b

    moved : (s : Socket Addr) (k k' : K) → d.opened k' ≡ d.opened k → Owns s k → Owns s k'
    moved s k k' e h = Keeps-Owns s k s k' (refl, e) h

    bind_sock-Owns :
        (m : Option ℕ) (a : Addr) (s : Socket Addr) (k : K)
        → Owns s k
        → (let r = bind_sock o m a s k in Owns r.1 r.2)
    unfolding bind_sock
    bind_sock-Owns none a s k h = h
    bind_sock-Owns (some fd) a s k h =
        let (bound, k1) = o.bind fd a k in
        let (kept, s2, k2) = local_or o s.local_address fd s k1 in
        let h1 = moved s k k1 (d.bind_keeps fd a k) h in
        let h2 = Keeps-Owns s k1 s2 k2 (local_or-Keeps s.local_address fd s k1) h1 in
        if-holds (λ (r : Bool × Socket Addr × K). Owns r.1 r.2) (not (o.family_of a == s.family)) h
          (if-holds (λ (r : Bool × Socket Addr × K). Owns r.1 r.2) (not bound) h1 h2)

    connected-Owns :
        (fd : ℕ) (s : Socket Addr) (k : K) → Owns s k → (let r = connected o fd s k in Owns r.1 r.2)
    unfolding connected
    connected-Owns fd s k h =
        let s0 : Socket Addr = record s { is_connected = true } in
        let (remote, s1, k1) = remote_or o s.remote_address fd s0 k in
        let (kept, s2, k2) = local_or o s1.local_address fd s1 k1 in
        let h1 = Keeps-Owns s0 k s1 k1 (remote_or-Keeps s.remote_address fd s0 k) h in
        Keeps-Owns s1 k1 s2 k2 (local_or-Keeps s1.local_address fd s1 k1) h1

    connect_sock-Owns :
        (m : Option ℕ) (a : Addr) (t : ℕ) (s : Socket Addr) (k : K)
        → Owns s k
        → (let r = connect_sock o m a t s k in Owns r.1 r.2)
    unfolding connect_sock
    connect_sock-Owns none a t s k h = h
    connect_sock-Owns (some fd) a t s k h =
        let (done, k1) = call_connect o fd a t k in
        let h1 = moved s k k1 (call_connect-keeps fd a t k) h in
        if-holds (λ (r : Bool × Socket Addr × K). Owns r.1 r.2) (not (o.family_of a == s.family)) h
          (if-holds (λ (r : Bool × Socket Addr × K). Owns r.1 r.2) (not done) (close-Owns s k1 h1)
            (connected-Owns fd s k1 h1))

    connect-Owns :
        (a : Addr) (t : ℕ) (s : Socket Addr) (k : K)
        → Owns s k
        → (let r = connect o a t s k in Owns r.1 r.2)
    unfolding connect
    connect-Owns a t s k h =
        let s0 : Socket Addr = record s { remote_address = some a } in
        let (s1, k1) = ensure_sock o s0 k in
        connect_sock-Owns s1.sock a t s1 k1 (ensure_sock-Owns s0 k h)

    reconnect_to-Owns :
        (m : Option Addr) (t : ℕ) (s : Socket Addr) (k : K)
        → Owns s k
        → (let r = reconnect_to o m t s k in Owns r.1 r.2)
    unfolding reconnect_to
    reconnect_to-Owns none t s k h = h
    reconnect_to-Owns (some a) t s k h = connect-Owns a t (record s { local_address = none }) k h

    listen_sock-Owns :
        (m : Option ℕ) (n : ℕ) (s : Socket Addr) (k : K)
        → Owns s k
        → (let r = listen_sock o m n s k in Owns r.1 r.2)
    unfolding listen_sock
    listen_sock-Owns none n s k h = h
    listen_sock-Owns (some fd) n s k h = moved s k (o.listen fd n k).1 (d.listen_keeps fd n k) h

    perform-Owns :
        (op : Operation o) (s : Socket Addr) (k : K)
        → Owns s k
        → (let r = perform o op s k in Owns r.1 r.2)
    unfolding perform bind
    perform-Owns (bind_to a) s k h =
        let (s1, k1) = ensure_sock o s k in bind_sock-Owns s1.sock a s1 k1 (ensure_sock-Owns s k h)
    perform-Owns (connect_to a t) s k h = connect-Owns a t s k h
    perform-Owns (reconnect_within t) s k h = reconnect_to-Owns s.remote_address t s k h
    perform-Owns (listen_with n) s k h = listen_sock-Owns s.sock n s k h
    perform-Owns close_it s k h = close-Owns s k h

    perform_all-Owns :
        (ops : List (Operation o)) (s : Socket Addr) (k : K)
        → Owns s k
        → (let r = perform_all o ops s k in Owns r.0 r.1)
    unfolding perform_all
    perform_all-Owns [] s k h = h
    perform_all-Owns (op ∷ ops) s k h =
        let (r, s1, k1) = perform o op s k in perform_all-Owns ops s1 k1 (perform-Owns op s k h)

  -- After any operations on a new socket, in any order and whatever calls of the system fail, its
  -- destructor leaves open the descriptors that were open before and no other, and the socket
  -- without one.
  pub close-perform_all :
      (family kind protocol : ℕ) (ops : List (Operation o)) (k : K)
      → (let r = perform_all o ops (new_socket family kind protocol) k in
          let c = close o r.0 r.1 in (c.1.sock ≡ none) × (d.opened c.2 ≡ d.opened k))
  unfolding new_socket
  close-perform_all family kind protocol ops k =
      let s : Socket Addr = new_socket family kind protocol in
      let r = perform_all o ops s k in
      closed (d.opened k) r.0.sock r.0 r.1 refl (perform_all-Owns (d.opened k) ops s k refl)
