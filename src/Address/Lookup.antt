-- ===== src/Address/Lookup.antt =====
-- `Address::lookUp`, LookupAny and LookupAnyIPAddress (src/address.cc).
--
-- getaddrinfo is a parameter: from the node and the service it gives the addresses of its list, or
-- an error. A host is a text without NUL, so that `c_str` is all of it; a pointer into the text is
-- the text from there on, and `service` is none where the pointer is null.
use muqiu.Common.{Bool, true, false, Option, none, some}
use muqiu.Common.{List, [], ◌∷◌, ◌++◌, if◌then◌else◌, ◌==◌}
use muqiu.Url.Codec.{Bytes}
use muqiu.Http.Params.{split}

abbrev pub is_empty : Bytes → Bool
is_empty [] = true
is_empty (c ∷ s) = false

-- What stands behind the closing bracket, where it is a port.
abbrev pub port_behind : Bytes → Option Bytes
port_behind [] = none
port_behind (c ∷ s) = if c == b':' then some s else none

-- The part for "[address]:port"; the node is empty where it finds none.
unfoldable pub split_ipv6 : Bytes → Bytes × Option Bytes
split_ipv6 [] = ([], none)
split_ipv6 (c ∷ s) =
    if c == b'['
    then elim (split b']' s) [
      | none ↦ ([], none)
      | some (node, behind) ↦ (node, port_behind behind)
    ]
    else ([], none)

-- The part for "address:port": with a second colon the node stays empty, and the service does not.
unfoldable pub split_ipv4 : Bytes → Bytes × Option Bytes
split_ipv4 host = elim (split b':' host) [
  | none ↦ ([], none)
  | some (node, behind) ↦ elim (split b':' behind) [
    | none ↦ (node, some behind)
    | some twice ↦ ([], some (b':' ∷ behind))
  ]
]

-- The node and the service that are asked for.
unfoldable pub node_and_service : Bytes → Bytes × Option Bytes
node_and_service host =
    let first = split_ipv6 host in
    let second = if is_empty first.0 then split_ipv4 host else first in
    if is_empty second.0 then (host, second.1) else second

module _ {Addr : Type 0} (getaddrinfo : Bytes → Option Bytes → Option (List Addr)) where
  -- `lookUp`: what it appends to `result`, and whether that is then not empty.
  unfoldable pub look_up : List Addr → Bytes → Bool × List Addr
  look_up result host =
      let (node, service) = node_and_service host in
      elim (getaddrinfo node service) [
        | none ↦ (false, result)
        | some addresses ↦ elim (result ++ addresses) [
          | [] ↦ (false, [])
          | a ∷ all ↦ (true, a ∷ all)
        ]
      ]

  abbrev first_of : List Addr → Option Addr
  first_of [] = none
  first_of (a ∷ all) = some a

  unfoldable pub lookup_any : Bytes → Option Addr
  lookup_any host = let (found, result) = look_up [] host in if found then first_of result else none

  -- The first that `is_ip` says is one of IP.
  abbrev first_ip : (Addr → Bool) → List Addr → Option Addr
  first_ip is_ip [] = none
  first_ip is_ip (a ∷ all) = if is_ip a then some a else first_ip is_ip all

  unfoldable pub lookup_any_ip_address : (Addr → Bool) → Bytes → Option Addr
  lookup_any_ip_address is_ip host =
      let (found, result) = look_up [] host in if found then first_ip is_ip result else none
