-- ===== src/Nat/Protocols.antt =====
-- The two attempts at a mapping in src/nat.rs: `default_ipv4_gateway_and_client`, `try_pcp_natpmp`,
-- `try_upnp_igd`, and `map_udp_port` around the worker. The system and the crates for the router
-- protocols are parameters.
use p2p_tunnler.Prelude.{
  ℕ, ◌≡◌, ◌⊎◌, ap, sym, ◌∙◌, Option, none, some, List, ◌==◌, if◌then◌else◌, Result, ok, err, ◌>>=◌,
  >>=-eq-ok, ok_or,
}
use p2p_tunnler.Net.{Bytes, IpAddr, SocketAddr, socket_addr}
use p2p_tunnler.Nat.{
  Method, Mapping, Receipt, Turn, Worked, mapping_lifetime_seconds, mapping_worker,
}
use p2p_tunnler.Nat.Gateway.{parse_default_ipv4_gateway}

pub data NatError : Type 0 where
  port_zero no_gateway not_ipv4 unavailable : NatError
  system : ℕ → NatError

-- `PortMappingType` and `PortMapping` of the `crab_nat` crate, as far as they are read.
pub data PortMappingType : Type 0 where
  pcp : IpAddr → PortMappingType
  nat_pmp : PortMappingType

pub record PortMapping : Type 0 where
  pub mapping_type : PortMappingType
  pub external_port : ℕ
  pub lifetime : ℕ

-- The calls of the system and of the crates: the route table, the address of a socket that is connected
-- to the gateway, the start of a runtime, `PortMapping::new`, `natpmp::port_mapping` and
-- `natpmp::external_address`, `search_gateway` and `get_any_address` of UPnP.
pub record Outside (Gateway : Type 0) : Type 0 where
  pub route_table : Result NatError (List ℕ)
  pub local_ip : Bytes → Result NatError IpAddr
  pub build_runtime : Result {0} NatError Unit
  pub new_mapping : Bytes → Bytes → ℕ → Result NatError PortMapping
  pub natpmp_mapping : Bytes → ℕ → Result NatError PortMapping
  pub natpmp_address : Bytes → Result NatError Bytes
  pub search_gateway : Result NatError Gateway
  pub get_any_address : Gateway → SocketAddr → ℕ → Result NatError SocketAddr

-- `let IpAddr::V4(client) = ... else { bail!(...) }`.
abbrev pub ipv4_or_bail : IpAddr → Result NatError Bytes
ipv4_or_bail (IpAddr.v4 octets) = ok octets
ipv4_or_bail (IpAddr.v6 octets) = err not_ipv4

abbrev pub or_natpmp :
    Result NatError PortMapping → Result NatError PortMapping → Result NatError PortMapping
or_natpmp (ok mapping) natpmp = ok mapping
or_natpmp (err e) natpmp = natpmp

abbrev pub map_ip : Result NatError Bytes → Result NatError IpAddr
map_ip (ok octets) = ok (IpAddr.v4 octets)
map_ip (err e) = err e

-- The method of a mapping, and its external address.
abbrev pub method_of : PortMappingType → Method
method_of (pcp external_ip) = Method.pcp
method_of nat_pmp = Method.nat_pmp

abbrev pub external_ip_of : PortMappingType → Result NatError Bytes → Result NatError IpAddr
external_ip_of (pcp external_ip) asked = ok external_ip
external_ip_of nat_pmp asked = map_ip asked

abbrev pub ok_of {ℓ} : {A : Type ℓ} → Result NatError A → Option A
ok_of (ok a) = some a
ok_of (err e) = none

module _ {Gateway : Type 0} (outside : Outside Gateway) where
  unfoldable pub default_ipv4_gateway_and_client : Result NatError (Bytes × Bytes)
  default_ipv4_gateway_and_client = do
    route_table ← outside.route_table
    gateway ← ok_or (parse_default_ipv4_gateway route_table) no_gateway
    ip ← outside.local_ip gateway
    client ← ipv4_or_bail ip
    ok (gateway, client)

  -- The external address, the method, and the mapping that is renewed.
  unfoldable pub try_pcp_natpmp : ℕ → Result NatError (SocketAddr × Method × PortMapping)
  try_pcp_natpmp port = do
    (gateway, client) ← default_ipv4_gateway_and_client
    _ ← outside.build_runtime
    mapping ←
        or_natpmp (outside.new_mapping gateway client port) (outside.natpmp_mapping gateway port)
    external_ip ← external_ip_of mapping.mapping_type (outside.natpmp_address gateway)
    ok (socket_addr external_ip mapping.external_port, method_of mapping.mapping_type, mapping)

  unfoldable pub try_upnp_igd : ℕ → Result NatError (SocketAddr × Gateway × SocketAddr)
  try_upnp_igd port = do
    (_, client) ← default_ipv4_gateway_and_client
    gateway ← outside.search_gateway
    external_addr ←
        outside.get_any_address gateway (socket_addr (IpAddr.v4 client) port)
          mapping_lifetime_seconds
    ok (external_addr, gateway, socket_addr (IpAddr.v4 client) port)

  abbrev pub leased : Option (SocketAddr × Method × PortMapping) → Option (Mapping × ℕ)
  leased none = none
  leased (some (external_addr, method, mapping)) =
      some (record { external_addr = external_addr; method = method }, mapping.lifetime)

  abbrev pub address_of : Option (SocketAddr × Gateway × SocketAddr) → Option SocketAddr
  address_of none = none
  address_of (some (external_addr, gateway, local_addr)) = some external_addr

  -- The worker's thread, which asks UPnP only if the other protocols fail.
  unfoldable pub worker : ℕ → Receipt → List Turn → Worked
  worker port receipt turns =
      mapping_worker (leased (ok_of (try_pcp_natpmp port))) (address_of (ok_of (try_upnp_igd port)))
        receipt turns

  -- What the caller of `map_udp_port` gets while it waits for the worker.
  unfoldable pub map_udp_port : ℕ → List Turn → Result NatError Mapping
  map_udp_port port turns =
      if port == 0
      then err port_zero
      else ok_or (worker port Receipt.received turns).sent unavailable

  -- The gateway of the default route, and the own address towards it.
  pub record IsGateway (gateway client : Bytes) : Type 0 where
    pub table : List ℕ
    pub read : outside.route_table ≡ ok table
    pub default_route : parse_default_ipv4_gateway table ≡ some gateway
    pub towards : outside.local_ip gateway ≡ ok (IpAddr.v4 client)

  -- A mapping by PCP or NAT-PMP: NAT-PMP is asked only when the first attempt has failed, and the
  -- external address is the mapping's own or, under NAT-PMP, the one that the gateway is asked for.
  pub record IsLeased (port : ℕ) (m : Mapping) : Type 0 where
    pub gateway : Bytes
    pub client : Bytes
    pub is_gateway : IsGateway gateway client
    pub mapping : PortMapping
    pub mapped :
        (outside.new_mapping gateway client port ≡ ok mapping)
        ⊎ ((e : NatError) × (outside.new_mapping gateway client port ≡ err e)
            × (outside.natpmp_mapping gateway port ≡ ok mapping))
    pub external_ip : IpAddr
    pub external :
        ((mapping.mapping_type ≡ pcp external_ip) × (m.method ≡ Method.pcp))
        ⊎ ((octets : Bytes) × (mapping.mapping_type ≡ nat_pmp)
            × (outside.natpmp_address gateway ≡ ok octets)
            × (external_ip ≡ IpAddr.v4 octets)
            × (m.method ≡ Method.nat_pmp))
    pub address : m.external_addr ≡ socket_addr external_ip mapping.external_port

  -- A mapping by UPnP of the own port.
  pub record IsForwarded (port : ℕ) (m : Mapping) : Type 0 where
    pub gateway : Bytes
    pub client : Bytes
    pub is_gateway : IsGateway gateway client
    pub igd : Gateway
    pub searched : outside.search_gateway ≡ ok igd
    pub mapped :
        outside.get_any_address igd (SocketAddr.v4 client port) mapping_lifetime_seconds
        ≡ ok m.external_addr
    pub method : m.method ≡ Method.upnp_igd

  pub ok_or-some :
      {A : Type 0} (o : Option A) (e : NatError) (a : A) → ok_or o e ≡ ok a → o ≡ some a
  ok_or-some none e a h = absurd cc
  ok_or-some (some b) e a h = cc

  bailed : (ip : IpAddr) (client : Bytes) → ipv4_or_bail ip ≡ ok client → ip ≡ IpAddr.v4 client
  bailed (IpAddr.v4 octets) client h = cc
  bailed (IpAddr.v6 octets) client h = absurd cc

  pub found-IsGateway :
      (gateway client : Bytes)
      → default_ipv4_gateway_and_client ≡ ok (gateway, client)
      → IsGateway gateway client
  unfolding default_ipv4_gateway_and_client
  found-IsGateway gateway client h =
      let (table, read, h1) = >>=-eq-ok outside.route_table _ h in
      let (g, some_gateway, h2) =
        >>=-eq-ok (ok_or (parse_default_ipv4_gateway table) no_gateway) _ h1 in
      let (ip, local, h3) = >>=-eq-ok (outside.local_ip g) _ h2 in
      let (c, v4, h4) = >>=-eq-ok (ipv4_or_bail ip) _ h3 in
      let same_gateway : g ≡ gateway = cc in
      let same_client : c ≡ client = cc in
      record {
        table = table;
        read = read;
        default_route =
            ok_or-some (parse_default_ipv4_gateway table) no_gateway g some_gateway
            ∙ ap some same_gateway;
        towards =
            ap outside.local_ip (sym same_gateway)
            ∙ local
            ∙ ap ok (bailed ip c v4 ∙ ap IpAddr.v4 same_client);
      }
