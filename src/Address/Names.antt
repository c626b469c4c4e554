-- ===== src/Address/Names.antt =====
-- The text of a host is split into node and service (src/address.cc).
use muqiu.Common.{ℕ, ◌≡◌, refl, false, Option, none, some, [], ◌∷◌, ◌++◌, append-nil, ◌==◌}
use muqiu.Url.Codec.{Bytes}
use muqiu.Url.Reserved.{Lacks}
use muqiu.Http.ParamLaws.{split-found, split-none}
use muqiu.Address.Lookup.{split_ipv6, split_ipv4, node_and_service}

-- A name or an address of IPv4, or an address of IPv6 in brackets, with a port or without.
pub data Endpoint : Type 0 where
  plain : ℕ → Bytes → Option Bytes → Endpoint
  bracketed : ℕ → Bytes → Option Bytes → Endpoint

abbrev pub port_text : Option Bytes → Bytes
port_text none = []
port_text (some port) = b':' ∷ port

abbrev pub print : Endpoint → Bytes
print (plain c node port) = c ∷ node ++ port_text port
print (bracketed c node port) = b'[' ∷ c ∷ node ++ (b']' ∷ port_text port)

abbrev pub node_of : Endpoint → Bytes × Option Bytes
node_of (plain c node port) = (c ∷ node, port)
node_of (bracketed c node port) = (c ∷ node, port)

abbrev PortLacks : ℕ → Option Bytes → Type 0
PortLacks c none = Unit
PortLacks c (some port) = Lacks c port

-- A plain name starts with no bracket, and neither it nor its port has a colon; an address in
-- brackets has no closing bracket.
abbrev pub IsEndpoint : Endpoint → Type 0
IsEndpoint (plain c node port) = ((c == b'[') ≡ false) × Lacks b':' (c ∷ node) × PortLacks b':' port
IsEndpoint (bracketed c node port) = Lacks b']' (c ∷ node)

split_ipv4-print :
    (c : ℕ) (node : Bytes) (port : Option Bytes)
    → Lacks b':' (c ∷ node)
    → PortLacks b':' port
    → split_ipv4 (c ∷ node ++ port_text port)
      ≡ elim port [ none ↦ ([], none) | some p ↦ (c ∷ node, some p) ]
unfolding split_ipv4
split_ipv4-print c node none h p =
    rw (append-nil node, split-none b':' (c ∷ node) h, split_ipv4) refl
split_ipv4-print c node (some port) h p =
    rw (split-found b':' (c ∷ node) port h, split-none b':' port p, split_ipv4) refl

-- The text of an endpoint is split into its node and its service, the port, if it has one.
pub node_and_service-print : (e : Endpoint) → IsEndpoint e → node_and_service (print e) ≡ node_of e
unfolding node_and_service split_ipv6 split_ipv4
node_and_service-print (plain c node none) (b, h, p) =
    rw (append-nil node, b, split-none b':' (c ∷ node) h, node_and_service, split_ipv4) refl
node_and_service-print (plain c node (some port)) (b, h, p) =
    rw (b, split_ipv4-print c node (some port) h p, node_and_service) refl
node_and_service-print (bracketed c node none) h =
    rw (split-found b']' (c ∷ node) [] h, node_and_service) refl
node_and_service-print (bracketed c node (some port)) h =
    rw (split-found b']' (c ∷ node) (b':' ∷ port) h, node_and_service) refl
