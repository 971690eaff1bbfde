-- ===== src/Service/Peer/Opening.antt =====
-- How a probe opens a path through the tasks of one peer in src/service.rs.
use p2p_tunnler.Prelude.{
  ℕ, ◌≡◌, ◌≢◌, ◌<◌, refl, ap, ◌∙◌, true, false, Bool-cases, List, [], ◌∷◌, map, inl, inr, some, ok,
  arith, length,
}
use p2p_tunnler.Net.{Bytes, SocketAddr, socket_addr_eq, socket_addr_beq_iff}
use p2p_tunnler.Collections.Sets
use p2p_tunnler.Collections.Maps.{get, IsUnique}
use p2p_tunnler.Utils.Channel.{
  channel, udp_queue_capacity, IsBounded, after, try_send, try_send-after, after-IsBounded,
  after-after,
}
use p2p_tunnler.Transport.Candidates
use p2p_tunnler.Transport.Candidates.{
  CandidateSet, contains, addresses, add_peer_reflexive, max_peer_reflexive_candidates,
  add_peer_reflexive-IsValid,
}
use p2p_tunnler.Transport.Candidates.History.{add_peer_reflexive_lem, addresses-contains}
use p2p_tunnler.Transport.Routing.{InternetPacketKind, normalize_ipv4_mapped_source, route}
use p2p_tunnler.Transport.Forwarding.Delivery.{forward_outbound-queue}
use p2p_tunnler.Probe.Types.{Instant, State, PacketAction, max_reply_sources}
use p2p_tunnler.Probe.Frame.{parse_frame_iff, frame}
use p2p_tunnler.Probe.Controller.{packet_action, recent, is_recent}
use p2p_tunnler.Probe.Packets.{packet_action-echo}
use p2p_tunnler.Probe.Handler.{Shared, act, handle_packet}
use p2p_tunnler.Candidates.Listener.{Codecs, ConnectionFlags}
use p2p_tunnler.Service.Classify.{packet_kind}
use p2p_tunnler.Service.Kinds.{packet_kind_iff}
use p2p_tunnler.Service.Peer.{PeerState, Event, step, run, shared_of, tunnel_of}

-- The peer's tasks have caught up with what was received.
abbrev pub quiet : PeerState → PeerState
quiet p = record p {
  from_internet = channel udp_queue_capacity;
  router = record (p.router) { probes = channel udp_queue_capacity };
  from_loopback = channel udp_queue_capacity;
}

-- A probe is received and handled, and then a packet of WireGuard is.
abbrev pub opening : Bytes → SocketAddr → Instant → ℕ → Bytes → SocketAddr → List Event
opening probe from now percent packet wireguard_addr =
    Event.received probe from
    ∷ Event.routed
    ∷ Event.control now percent
    ∷ Event.written packet wireguard_addr
    ∷ Event.outbound
    ∷ []

-- The state after an echo.
abbrev pub admitted : PeerState → State → Bytes → SocketAddr → PeerState
admitted p s probe source = record p {
  controller = s;
  connections = (add_peer_reflexive p.connections source).0;
  to_internet = after p.to_internet ((probe, source) ∷ []);
}

echoed :
    (now : Instant) (percent : ℕ) (probe : Bytes) (source : SocketAddr) (g : Shared)
    → (packet_action now percent probe source g.controller).0 ≡ PacketAction.echo_and_admit
    → g.to_internet.closed ≡ false
    → IsBounded g.to_internet
    → handle_packet now percent probe source g
      ≡ ok (record {
        controller = (packet_action now percent probe source g.controller).1;
        connections = (add_peer_reflexive g.connections source).0;
        to_internet = after g.to_internet ((probe, source) ∷ []);
      })
unfolding handle_packet
echoed now percent probe source g echo running bounded =
    let (queued, sent) = try_send-after g.to_internet (probe, source) running bounded in
    let s = (packet_action now percent probe source g.controller).1 in
    let acted : act probe source (record g { controller = s }) PacketAction.echo_and_admit
        ≡ ok (record {
          controller = s;
          connections = (add_peer_reflexive g.connections source).0;
          to_internet = after g.to_internet ((probe, source) ∷ []);
        }) =
      rw sent refl in
    ap (act probe source (record g { controller = s })) echo ∙ acted

is_probe :
    (token : Bytes) → length token ≡ 16 → packet_kind (frame token) ≡ InternetPacketKind.probe
is_probe token full = (packet_kind_iff (frame token)).0.1 (token, full, refl)

module _ (codecs : Codecs) (flags : ConnectionFlags) where
  routed_probe :
      (p : PeerState) (token : Bytes) (from : SocketAddr) (rest : List Event)
      → length token ≡ 16
      → run codecs flags (Event.received (frame token) from ∷ Event.routed ∷ rest) (quiet p)
        ≡ run codecs flags rest (record (quiet p) {
          router = record (p.router) {
            probes = record (channel udp_queue_capacity) {
              queue = (frame token, normalize_ipv4_mapped_source from) ∷ [];
            };
          };
        })
  unfolding run step route try_send
  routed_probe p token from rest full = rw (is_probe token full) refl

  handled_probe :
      (p : PeerState) (probe : Bytes) (source : SocketAddr) (now : Instant) (percent : ℕ)
      (rest : List Event)
      → (packet_action now percent probe source p.controller).0 ≡ PacketAction.echo_and_admit
      → p.to_internet.closed ≡ false
      → IsBounded p.to_internet
      → run codecs flags (Event.control now percent ∷ rest) (record (quiet p) {
        router = record (p.router) {
          probes = record (channel udp_queue_capacity) { queue = (probe, source) ∷ [] };
        };
      })
        ≡ run codecs flags rest (
            admitted (quiet p) (packet_action now percent probe source p.controller).1 probe source)
  unfolding run step
  handled_probe p probe source now percent rest echo running bounded =
      rw (echoed now percent probe source (shared_of p) echo running bounded) refl

  pub forwarded :
      (p : PeerState) (packet : Bytes) (wireguard_addr : SocketAddr)
      → p.to_internet.closed ≡ false
      → IsBounded p.to_internet
      → run codecs flags
          (Event.written packet wireguard_addr ∷ Event.outbound ∷ [])
          (record p { from_loopback = channel udp_queue_capacity })
        ≡ ok (record p {
          from_loopback = channel udp_queue_capacity;
          local_peer = record (p.local_peer) { address = some wireguard_addr };
          to_internet = after p.to_internet (map (λ a. (packet, a)) (addresses p.connections));
        })
  unfolding run step try_send
  forwarded p packet wireguard_addr running bounded =
      rw (forward_outbound-queue packet wireguard_addr (tunnel_of p) running bounded) refl

  -- If a peer that has caught up receives the frame of its token, from a source that it has not entered
  -- within a second while there is room for it, and WireGuard then sends a packet, the source has become
  -- a candidate, and the echo and then the packet for each candidate wait for the Internet, as far as
  -- there is room.
  pub probe_opens_path :
      (p : PeerState) (from : SocketAddr) (now : Instant) (percent : ℕ) (packet : Bytes)
      (wireguard_addr : SocketAddr)
      → let token = p.controller.local_token in
        let source = normalize_ipv4_mapped_source from in
        length token ≡ 16
        → IsUnique p.controller.reply_sources
        → is_recent now (get p.controller.reply_sources source) ≡ false
        → length (recent now p.controller.reply_sources) < max_reply_sources
        → Candidates.IsValid p.connections
        → length p.connections.peer_reflexive ≢ max_peer_reflexive_candidates
        → p.to_internet.closed ≡ false
        → IsBounded p.to_internet
        → (p' : PeerState) × (run codecs flags
              (opening (frame token) from now percent packet wireguard_addr)
              (quiet p)
            ≡ ok p')
          × (Sets.contains (addresses p'.connections) source ≡ true)
          × (p'.to_internet
              ≡ after p.to_internet
                  ((frame token, source) ∷ map (λ a. (packet, a)) (addresses p'.connections)))
  probe_opens_path p from now percent packet wireguard_addr full unique new room valid space running
        bounded =
      let token = p.controller.local_token in
      let source = normalize_ipv4_mapped_source from in
      let s = (packet_action now percent (frame token) source p.controller).1 in
      let c : CandidateSet = (add_peer_reflexive p.connections source).0 in
      let parsed = (parse_frame_iff (frame token) token).1 (refl, full) in
      let echo =
        (packet_action-echo now percent (frame token) source p.controller unique).1
          (parsed, new, room) in
      let one : List (Bytes × SocketAddr) = (frame token, source) ∷ [] in
      (
        _,
        routed_probe p token from _ full
            ∙ handled_probe p (frame token) source now percent _ echo running bounded
            ∙ forwarded (admitted (quiet p) s (frame token) source) packet wireguard_addr running
                (after-IsBounded p.to_internet one),
        (addresses-contains c (add_peer_reflexive-IsValid p.connections source valid)).1 source
            ∙ inside p.connections source space,
        after-after p.to_internet one (map (λ a. (packet, a)) (addresses c)),
      )
    where
      inside :
          (c : CandidateSet) (source : SocketAddr)
          → length c.peer_reflexive ≢ max_peer_reflexive_candidates
          → contains (add_peer_reflexive c source).0 source ≡ true
      inside c source space =
          let (added, same, afterwards) = add_peer_reflexive_lem c source in
          elim (Bool-cases (contains c source)) [
            | inl old ↦ ground (arith, afterwards source, old)
            | inr fresh ↦
                let ok_ = added.1 (fresh, space) in
                ground (arith, afterwards source, ok_, socket_addr_beq_iff source source)
          ]
