-- ===== src/Address/Tests.antt =====
-- Hosts and masks (src/address.cc).
use muqiu.Common.{◌≤◌, ◌≡◌, refl, arith, some}
use muqiu.Url.Reserved.{lacks→Lacks}
use muqiu.Http.Method.{codes}
use muqiu.Http.Params.{split}
use muqiu.Address.Lookup.{split_ipv6, split_ipv4, node_and_service}
use muqiu.Address.Names.{Endpoint, bracketed, print, node_of, node_and_service-print}
use muqiu.Address.Prefix.{count_bytes, ones, count_bytes-ones}

-- "[::1]:80".
abbrev loopback : Endpoint
loopback = bracketed b':' (codes ":1") (some (codes "80"))

node_and_service-print_example : node_and_service (print loopback) ≡ node_of loopback
node_and_service-print_example =
    node_and_service-print loopback (lacks→Lacks b']' (codes "::1") refl)

-- Without brackets the service is the text from the first colon on.
bare_ipv6 : node_and_service (codes "::1") ≡ (codes "::1", some (codes "::1"))
unfolding node_and_service split_ipv6 split_ipv4 split
bare_ipv6 = refl

count_bytes-ones_example :
    (count_bytes 32 4294967040 ≡ some (ones 32 4294967040)) × (ones 32 4294967040 ≤ 32)
count_bytes-ones_example = count_bytes-ones 32 4294967040 (omega arith)
