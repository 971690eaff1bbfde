-- ===== src/Nat/Obtained.antt =====
-- What a caller of `map_udp_port` in src/nat.rs can rely on.
use p2p_tunnler.Prelude.{
  ℕ, ◌≡◌, ◌≢◌, ◌⊎◌, refl, ap, sym, subst, inl, inr, some, List, ◌==◌, arith, Result, ok, err,
  >>=-eq-ok, ok-injective, Bool-cases,
}
use p2p_tunnler.Net.{Bytes, IpAddr, SocketAddr}
use p2p_tunnler.Nat.{Method, Mapping, Receipt, Turn, mapping_lifetime_seconds, mapping_worker}
use p2p_tunnler.Nat.Protocols.{
  NatError, PortMappingType, PortMapping, Outside, or_natpmp, method_of, external_ip_of, ok_of,
  default_ipv4_gateway_and_client, try_pcp_natpmp, try_upnp_igd, leased, address_of, worker,
  map_udp_port, IsLeased, IsForwarded, found-IsGateway, ok_or-some,
}

asked :
    (first second : Result NatError PortMapping) (mapping : PortMapping)
    → or_natpmp first second ≡ ok mapping
    → (first ≡ ok mapping) ⊎ ((e : NatError) × (first ≡ err e) × (second ≡ ok mapping))
asked (ok m) second mapping h = inl h
asked (err e) second mapping h = inr (e, refl, h)

-- The external address by the type of the mapping.
external :
    (t : PortMappingType) (answer : Result NatError Bytes) (ip : IpAddr)
    → external_ip_of t answer ≡ ok ip
    → ((t ≡ PortMappingType.pcp ip) × (method_of t ≡ Method.pcp))
      ⊎ ((octets : Bytes) × (t ≡ PortMappingType.nat_pmp)
          × (answer ≡ ok octets)
          × (ip ≡ IpAddr.v4 octets)
          × (method_of t ≡ Method.nat_pmp))
external (PortMappingType.pcp external_ip) answer ip h =
    inl (ap PortMappingType.pcp (ok-injective h), refl)
external PortMappingType.nat_pmp (ok octets) ip h =
    inr (octets, refl, refl, sym (ok-injective h), refl)
external PortMappingType.nat_pmp (err e) ip h = absurd cc

module _ {Gateway : Type 0} (outside : Outside Gateway) where
  pcp-IsLeased :
      (port : ℕ) (addr : SocketAddr) (method : Method) (mapping : PortMapping)
      → try_pcp_natpmp outside port ≡ ok (addr, method, mapping)
      → IsLeased outside port (record { external_addr = addr; method = method })
  unfolding try_pcp_natpmp
  pcp-IsLeased port addr method mapping h =
      let ((gateway, client), found, h1) =
        >>=-eq-ok (default_ipv4_gateway_and_client outside) _ h in
      let (u, built, h2) = >>=-eq-ok outside.build_runtime _ h1 in
      let (m, mapped, h3) =
        >>=-eq-ok
          (or_natpmp (outside.new_mapping gateway client port)
            (outside.natpmp_mapping gateway port))
          _ h2 in
      let (ip, ip_found, h4) =
        >>=-eq-ok (external_ip_of m.mapping_type (outside.natpmp_address gateway)) _ h3 in
      subst
        (λ (r : SocketAddr × Method × PortMapping).
          IsLeased outside port (record { external_addr = r.0; method = r.1 }))
        (ok-injective h4)
        (record {
          gateway = gateway;
          client = client;
          is_gateway = found-IsGateway outside gateway client found;
          mapping = m;
          mapped = asked _ _ m mapped;
          external_ip = ip;
          external = external m.mapping_type (outside.natpmp_address gateway) ip ip_found;
          address = refl;
        })

  upnp-IsForwarded :
      (port : ℕ) (addr : SocketAddr) (igd : Gateway) (local_addr : SocketAddr)
      → try_upnp_igd outside port ≡ ok (addr, igd, local_addr)
      → IsForwarded outside port (record { external_addr = addr; method = Method.upnp_igd })
  unfolding try_upnp_igd
  upnp-IsForwarded port addr igd local_addr h =
      let ((gateway, client), found, h1) =
        >>=-eq-ok (default_ipv4_gateway_and_client outside) _ h in
      let (g, searched, h2) = >>=-eq-ok outside.search_gateway _ h1 in
      let (a, mapped, h3) = >>=-eq-ok (outside.get_any_address g _ mapping_lifetime_seconds) _ h2 in
      subst
        (λ (r : SocketAddr × Gateway × SocketAddr).
          IsForwarded outside port (record { external_addr = r.0; method = Method.upnp_igd }))
        (ok-injective h3)
        (record {
          gateway = gateway;
          client = client;
          is_gateway = found-IsGateway outside gateway client found;
          igd = g;
          searched = searched;
          mapped = mapped;
          method = refl;
        })

  worked :
      (port : ℕ) (turns : List Turn) (m : Mapping)
      (first : Result NatError (SocketAddr × Method × PortMapping))
      (second : Result NatError (SocketAddr × Gateway × SocketAddr))
      → try_pcp_natpmp outside port ≡ first
      → try_upnp_igd outside port ≡ second
      → (mapping_worker
          (leased outside (ok_of first))
          (address_of outside (ok_of second))
          Receipt.received
          turns).sent
        ≡ some m
      → IsLeased outside port m
        ⊎ ((e : NatError) × (try_pcp_natpmp outside port ≡ err e) × IsForwarded outside port m)
  unfolding mapping_worker
  worked port turns m (ok (addr, method, mapping)) second e1 e2 h =
      let same : ◌≡◌ {A = Mapping} (record { external_addr = addr; method = method }) m = cc in
      inl (subst (IsLeased outside port) same (pcp-IsLeased port addr method mapping e1))
  worked port turns m (err e) (ok (addr, igd, local_addr)) e1 e2 h =
      let same : ◌≡◌ {A = Mapping} (record { external_addr = addr; method = Method.upnp_igd }) m =
        cc in
      inr (
        e,
        e1,
        subst (IsForwarded outside port) same (upnp-IsForwarded port addr igd local_addr e2),
      )
  worked port turns m (err e) (err e') e1 e2 h = absurd cc

  -- A mapping that is handed out is for a port that is not 0, at the gateway of the default route. It is
  -- one of PCP or NAT-PMP, where NAT-PMP is tried only after an error, with the external address that
  -- goes with its type; or both have failed and it is what UPnP gives for the own port.
  pub map_udp_port-ok :
      (port : ℕ) (turns : List Turn) (m : Mapping)
      → map_udp_port outside port turns ≡ ok m
      → (port ≢ 0)
        × (IsLeased outside port m
            ⊎ ((e : NatError) × (try_pcp_natpmp outside port ≡ err e) × IsForwarded outside port m))
  unfolding map_udp_port worker
  map_udp_port-ok port turns m h = elim (Bool-cases (port == 0)) [
    | inl zero_ ↦ absurd (ground (arith, zero_))
    | inr other ↦ (
      λ e. ground (arith, other),
      worked port turns m (try_pcp_natpmp outside port) (try_upnp_igd outside port) refl refl (
          ok_or-some outside (worker outside port Receipt.received turns).sent NatError.unavailable
            m (ground (arith, other))),
    )
  ]
