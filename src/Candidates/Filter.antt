-- ===== src/Candidates/Filter.antt =====
-- The tests on addresses and times in src/candidates.rs: `dht_key`, `is_usable_peer_addr`,
-- `retained_known_connections`, `is_fresh_dht_timestamp` and `local_ipv6_candidate`.
use p2p_tunnler.Prelude.{
  ℕ, ◌-◌, Bool, false, not, ◌&&◌, ◌||◌, Option, none, some, List, ◌++◌, ltb, leb, if◌then◌else◌,
}
use p2p_tunnler.Net.{
  Bytes, IpAddr, SocketAddr, socket_addr, ip, port, is_ipv4, is_loopback, is_unspecified,
  is_multicast,
}
use p2p_tunnler.Collections.Sets.{retain}
use p2p_tunnler.Candidates.Types.{SystemTime, max_dht_message_age, max_dht_future_skew}

-- Over the bytes of two public keys.
unfoldable pub dht_key : Bytes → Bytes → Bytes
dht_key publisher subscriber = publisher ++ subscriber

unfoldable pub is_usable_peer_addr : SocketAddr → Bool
is_usable_peer_addr addr =
    not (is_loopback (ip addr))
    && not (is_unspecified (ip addr))
    && not (is_multicast (ip addr))
    && ltb 1024 (port addr)

unfoldable pub retained_known_connections : List SocketAddr → Bool → List SocketAddr
retained_known_connections known_connections only_ipv4 =
    retain (λ addr. not only_ipv4 || is_ipv4 (ip addr)) known_connections

-- `a.duration_since(b)`, which is an error if `a` is the earlier one.
abbrev pub duration_since : SystemTime → SystemTime → Option ℕ
duration_since a b = if leb b a then some (a - b) else none

abbrev pub is_ok_and_le : Option ℕ → ℕ → Bool
is_ok_and_le none bound = false
is_ok_and_le (some age) bound = leb age bound

abbrev pub fresh_skew : SystemTime → SystemTime → Option ℕ → Bool
fresh_skew timestamp now (some future_skew) = leb future_skew max_dht_future_skew
fresh_skew timestamp now none = is_ok_and_le (duration_since now timestamp) max_dht_message_age

unfoldable pub is_fresh_dht_timestamp : SystemTime → SystemTime → Bool
is_fresh_dht_timestamp timestamp now = fresh_skew timestamp now (duration_since timestamp now)

unfoldable pub local_ipv6_candidate : Option IpAddr → ℕ → Bool → Option SocketAddr
local_ipv6_candidate none local_port gather_ipv6 = none
local_ipv6_candidate (some address) local_port gather_ipv6 =
    if gather_ipv6 then some (socket_addr address local_port) else none
