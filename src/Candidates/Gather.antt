-- ===== src/Candidates/Gather.antt =====
-- One round of `lookup_public_address` in src/candidates.rs: which own addresses are handed to the
-- publisher. The resolver, the local address and the answer of STUN are parameters; the log is left out.
use p2p_tunnler.Prelude.{
  ℕ, ◌≡◌, refl, sym, ap, ◌∙◌, Bool, true, false, not, ◌&&◌, ◌||◌, Option, none, some, List, [], ◌∷◌,
  ◌++◌, if◌then◌else◌, arith, Result, ok, err, ◌>>=◌, >>=-eq-ok, ok-injective,
}
use p2p_tunnler.Net.{
  bytes_beq, IpAddr, SocketAddr, socket_addr, socket_addr_eq, ip, is_ipv4, is_unspecified,
  is_loopback,
}
use p2p_tunnler.Collections.Sets.{contains, contains-append}
use p2p_tunnler.Probe.Types.{from_secs}
use p2p_tunnler.Stun.Client.{Wait, Queued, StunError, lookup_public_address}
use p2p_tunnler.Candidates.Filter.{local_ipv6_candidate}

-- What the round reads of `nat::Mapping`.
pub record Mapping : Type 0 where
  pub external_addr : SocketAddr
  pub is_active : Bool

pub data GatherError : Type 0 where
  no_ipv4_server no_receivers : GatherError
  system : ℕ → GatherError

-- `iter().find(SocketAddr::is_ipv4)`.
abbrev pub find_ipv4 : List SocketAddr → Option SocketAddr
find_ipv4 [] = none
find_ipv4 (a ∷ rest) = let other = find_ipv4 rest in if is_ipv4 (ip a) then some a else other

abbrev pub ip_beq : IpAddr → IpAddr → Bool
ip_beq (IpAddr.v4 a) (IpAddr.v4 b) = bytes_beq a b
ip_beq (IpAddr.v6 a) (IpAddr.v6 b) = bytes_beq a b
ip_beq a b = false

abbrev pub to_list : Option SocketAddr → List SocketAddr
to_list none = []
to_list (some a) = a ∷ []

-- The mapping's address if it is active and has the public IP that STUN found.
abbrev pub mapped_candidate : Option Mapping → SocketAddr → List SocketAddr
mapped_candidate none address = []
mapped_candidate (some mapping) address =
    if not mapping.is_active
    then []
    else if ip_beq (ip mapping.external_addr) (ip address)
    then mapping.external_addr ∷ []
    else []

-- The addresses that are broadcast, and the delay until the next round.
abbrev pub gathered : List SocketAddr → Option Mapping → Option SocketAddr → List SocketAddr × ℕ
gathered addresses nat_mapping none = (addresses, from_secs 15)
gathered addresses nat_mapping (some address) =
    (addresses ++ mapped_candidate nat_mapping address ++ address ∷ [], from_secs 60)

-- What a round calls: the resolver, a UDP socket over IPv6 that is bound, connected to the IPv6 Internet
-- and asked for its address; and for the STUN request its transaction, what the queue answers, and what
-- comes before its time is up.
pub record Outside : Type 0 where
  pub lookup_host : Result GatherError (List SocketAddr)
  pub bind_udp : Result {0} GatherError Unit
  pub connects : Bool
  pub local_addr : Result GatherError SocketAddr
  pub transaction : ℕ
  pub queued : Queued
  pub received : List Wait

abbrev pub global_ip : IpAddr → Option IpAddr
global_ip address =
    if not (is_unspecified address) && not (is_loopback address) then some address else none

abbrev pub found_address : Option (Result StunError SocketAddr) → Option SocketAddr
found_address none = none
found_address (some (err e)) = none
found_address (some (ok address)) = some address

-- The lookup at a server, whose waits end with the timeout at the latest.
unfoldable pub stun_lookup : Outside → SocketAddr → Option SocketAddr
stun_lookup o server =
    found_address
      (lookup_public_address o.transaction server o.queued (o.received ++ Wait.timed_out ∷ []))

unfoldable pub get_local_ipv6_addr : Outside → Result GatherError (Option IpAddr)
get_local_ipv6_addr o = do
  _ ← o.bind_udp
  if o.connects then (do address ← o.local_addr; ok (global_ip (ip address))) else ok none

abbrev pub with_server :
    Outside
    → ℕ
    → Bool
    → Option Mapping
    → Option SocketAddr
    → Result GatherError (List SocketAddr × ℕ)
with_server o local_port gather_ipv6 nat_mapping none = err no_ipv4_server
with_server o local_port gather_ipv6 nat_mapping (some server) = do
  local_ipv6 ← if gather_ipv6 then get_local_ipv6_addr o else ok none
  ok (
      gathered (to_list (local_ipv6_candidate local_ipv6 local_port gather_ipv6)) nat_mapping
        (stun_lookup o server))

unfoldable pub gather_round :
    Outside → ℕ → Bool → Option Mapping → Result GatherError (List SocketAddr × ℕ)
gather_round o local_port gather_ipv6 nat_mapping = do
  server_addresses ← o.lookup_host
  with_server o local_port gather_ipv6 nat_mapping (find_ipv4 server_addresses)

-- A server that is found is one of the resolved addresses, and IPv4.
find_ipv4-some :
    (xs : List SocketAddr) (server : SocketAddr)
    → find_ipv4 xs ≡ some server
    → (is_ipv4 (ip server) ≡ true) × (contains xs server ≡ true)
find_ipv4-some [] server h = absurd cc
find_ipv4-some (a ∷ rest) server h =
    ground (arith, find_ipv4-some rest server, socket_addr_eq.beq_iff a server)

abbrev is_mapped : Option Mapping → SocketAddr → SocketAddr → Bool
is_mapped none address a = false
is_mapped (some m) address a =
    m.is_active && ip_beq (ip m.external_addr) (ip address) && socket_addr_eq.beq m.external_addr a

-- What a gathered address is: the local IPv6 one, the active router mapping at the IP that STUN found,
-- or what STUN found.
abbrev pub is_own : Option SocketAddr → Option Mapping → Option SocketAddr → SocketAddr → Bool
is_own local_ipv6 nat_mapping none a = contains (to_list local_ipv6) a
is_own local_ipv6 nat_mapping (some found) a =
    contains (to_list local_ipv6) a || is_mapped nat_mapping found a || socket_addr_eq.beq found a

mapped_contains :
    (m : Option Mapping) (address a : SocketAddr)
    → contains (mapped_candidate m address) a ≡ is_mapped m address a
mapped_contains none address a = refl
mapped_contains (some m) address a = ground arith

contains-gathered :
    (l : Option SocketAddr) (m : Option Mapping) (found : Option SocketAddr) (a : SocketAddr)
    → contains (gathered (to_list l) m found).0 a ≡ is_own l m found a
contains-gathered l m none a = refl
contains-gathered l m (some found) a = ground (
  arith,
  contains-append (to_list l) (mapped_candidate m found ++ found ∷ []) a,
  contains-append (mapped_candidate m found) (found ∷ []) a,
  mapped_contains m found a,
)

-- The local address of a round.
abbrev pub local_of : Bool → Option IpAddr → ℕ → Option SocketAddr
local_of true (some address) local_port = some (socket_addr address local_port)
local_of gather none local_port = none
local_of false (some address) local_port = none

local_of_eq :
    (gather : Bool) (l : Option IpAddr) (p : ℕ)
    → local_ipv6_candidate l p gather ≡ local_of gather l p
unfolding local_ipv6_candidate
local_of_eq true none p = refl
local_of_eq false none p = refl
local_of_eq true (some a) p = refl
local_of_eq false (some a) p = refl

abbrev pub is_found : Option SocketAddr → Bool
is_found none = false
is_found (some a) = true

with_server_ok :
    (o : Outside) (local_port : ℕ) (gather_ipv6 : Bool) (m : Option Mapping)
    (found : Option SocketAddr) (result : List SocketAddr × ℕ)
    → with_server o local_port gather_ipv6 m found ≡ ok result
    → (server : SocketAddr) × (found ≡ some server)
      × (with_server o local_port gather_ipv6 m (some server) ≡ ok result)
with_server_ok o local_port gather_ipv6 m none result h = absurd cc
with_server_ok o local_port gather_ipv6 m (some server) result h = (server, refl, h)

local_when :
    (gather : Bool) (l : Option IpAddr) (r : Result GatherError (Option IpAddr))
    → (if gather then r else ok none) ≡ ok l
    → gather ≡ true
    → r ≡ ok l
local_when true l r h e = h
local_when false l r h e = absurd cc

gathered_delay :
    (xs : List SocketAddr) (m : Option Mapping) (found : Option SocketAddr)
    → (gathered xs m found).1 ≡ (if is_found found then from_secs 60 else from_secs 15)
gathered_delay xs m none = refl
gathered_delay xs m (some a) = refl

-- A round that succeeds has asked an IPv4 address that the resolver gave, and hands on exactly the
-- local IPv6 address if one is gathered and there is one, what STUN found, and the router's mapping if
-- it is active and has the IP that STUN found; the next round is a minute later, or 15 seconds if STUN
-- found nothing.
pub gather_round-ok :
    (o : Outside) (local_port : ℕ) (gather_ipv6 : Bool) (nat_mapping : Option Mapping)
    (addresses : List SocketAddr) (delay : ℕ)
    → gather_round o local_port gather_ipv6 nat_mapping ≡ ok (addresses, delay)
    → (resolved : List SocketAddr) × (server : SocketAddr) × (local_ipv6 : Option IpAddr)
      × (o.lookup_host ≡ ok resolved)
      × (contains resolved server ≡ true)
      × (is_ipv4 (ip server) ≡ true)
      × ((gather_ipv6 ≡ true) → get_local_ipv6_addr o ≡ ok local_ipv6)
      × ((a : SocketAddr)
          → contains addresses a
            ≡ is_own
                (local_of gather_ipv6 local_ipv6 local_port)
                nat_mapping
                (stun_lookup o server)
                a)
      × (delay ≡ (if is_found (stun_lookup o server) then from_secs 60 else from_secs 15))
unfolding gather_round
gather_round-ok o local_port gather_ipv6 nat_mapping addresses delay h =
    let (resolved, e, h1) = >>=-eq-ok o.lookup_host _ h in
    let (server, found, h2) =
      with_server_ok o local_port gather_ipv6 nat_mapping (find_ipv4 resolved) (addresses, delay)
        h1 in
    let (l, gathered_l, h3) =
      >>=-eq-ok (if gather_ipv6 then get_local_ipv6_addr o else ok none) _ h2 in
    let (v4, inside) = find_ipv4-some resolved server found in
    let result : gathered (to_list (local_ipv6_candidate l local_port gather_ipv6)) nat_mapping
          (stun_lookup o server)
        ≡ (addresses, delay) =
      ok-injective h3 in
    let own =
      contains-gathered (local_ipv6_candidate l local_port gather_ipv6) nat_mapping
        (stun_lookup o server) in
    (
      resolved,
      server,
      l,
      e,
      inside,
      v4,
      local_when gather_ipv6 l (get_local_ipv6_addr o) gathered_l,
      λ a.
          ap (λ r. contains r.0 a) (sym result)
          ∙ own a
          ∙ ap (λ x. is_own x nat_mapping (stun_lookup o server) a)
              (local_of_eq gather_ipv6 l local_port),
      ap (λ r. r.1) (sym result) ∙ gathered_delay _ nat_mapping (stun_lookup o server),
    )
