-- ===== src/Service/Peer/Crossing.antt =====
-- How a packet of WireGuard goes through the tasks of the two peers in src/service.rs.
use p2p_tunnler.Prelude.{
  ℕ, ◌≡◌, ◌≢◌, ◌≤◌, ◌<◌, ◌+◌, refl, ap, sym, ◌∙◌, true, false, Bool-cases, List, [], ◌∷◌, ◌++◌, map,
  inl, inr, some, ok, arith, length, take, take-all, append_assoc, length-append, length-map, subst,
}
use p2p_tunnler.Net.{Bytes, SocketAddr, socket_addr_eq, socket_addr_beq_iff}
use p2p_tunnler.Collections.Sets
use p2p_tunnler.Wire.{to_be_bytes}
use p2p_tunnler.Stun.Codec.Decode.{cookie_word}
use p2p_tunnler.Utils.Channel.{
  channel, udp_queue_capacity, IsBounded, after, try_send, try_send-after,
}
use p2p_tunnler.Transport.Candidates.{contains, addresses}
use p2p_tunnler.Transport.Routing.{
  Datagram, InternetPacketKind, normalize_ipv4_mapped_source, route,
}
use p2p_tunnler.Transport.Forwarding.{Tunnel, forward_inbound}
use p2p_tunnler.Candidates.Listener.{Codecs, ConnectionFlags}
use p2p_tunnler.Service.Classify.{packet_kind}
use p2p_tunnler.Service.Kinds.{wireguard_is_data}
use p2p_tunnler.Service.Peer.{PeerState, Event, step, run, tunnel_of}
use p2p_tunnler.Service.Peer.Opening.{forwarded}

-- The tasks that a packet goes through have caught up: on the way out, and on the way in.
abbrev pub ready_out : PeerState → PeerState
ready_out p = record p { from_loopback = channel udp_queue_capacity }

abbrev pub ready_in : PeerState → PeerState
ready_in p = record p {
  from_internet = channel udp_queue_capacity;
  router = record (p.router) { packets = channel udp_queue_capacity };
}

abbrev pub leaving : Bytes → SocketAddr → List Event
leaving packet wireguard_addr = Event.written packet wireguard_addr ∷ Event.outbound ∷ []

abbrev pub arriving : Bytes → SocketAddr → List Event
arriving packet from = Event.received packet from ∷ Event.routed ∷ Event.inbound ∷ []

-- The messages that wait include this one.
pub IsAmong : Datagram → List Datagram → Type 0
IsAmong d queue = (front : List Datagram) × (back : List Datagram) × (queue ≡ front ++ d ∷ back)

mapped-IsAmong :
    (packet : Bytes) (xs : List SocketAddr) (a : SocketAddr)
    → Sets.contains xs a ≡ true
    → IsAmong (packet, a) (map (λ x. (packet, x)) xs)
unfolding IsAmong
mapped-IsAmong packet [] a h = absurd cc
mapped-IsAmong packet (x ∷ xs) a h = elim (Bool-cases (Sets.contains xs a)) [
  | inl e ↦
      let (front, back, eq) = mapped-IsAmong packet xs a e in
      ((packet, x) ∷ front, back, ap (◌∷◌ (packet, x)) eq)
  | inr e ↦
      let same : x ≡ a = ground (arith, socket_addr_beq_iff x a) in
      ([], map (λ x. (packet, x)) xs, ap (λ y. (packet, y) ∷ map (λ x. (packet, x)) xs) same)
]

behind-IsAmong :
    (d : Datagram) (queue sent : List Datagram) → IsAmong d sent → IsAmong d (queue ++ sent)
unfolding IsAmong
behind-IsAmong d queue sent (front, back, e) =
    (queue ++ front, back, ap (λ xs. queue ++ xs) e ∙ sym (append_assoc queue front (d ∷ back)))

delivered_one :
    (packet : Bytes) (source wireguard_addr : SocketAddr) (t : Tunnel)
    → contains t.connections source ≡ true
    → t.local_peer.address ≡ some wireguard_addr
    → t.local_peer.sender.closed ≡ false
    → IsBounded t.local_peer.sender
    → forward_inbound packet source t
      ≡ ok (record t {
        local_peer = record (t.local_peer) {
          sender = after t.local_peer.sender ((packet, wireguard_addr) ∷ []);
        };
      })
unfolding forward_inbound
delivered_one packet source wireguard_addr t known heard running bounded =
    let (queued, sent) =
      try_send-after t.local_peer.sender (packet, wireguard_addr) running bounded in
    rw (known, heard, sent) refl

module _ (codecs : Codecs) (flags : ConnectionFlags) where
  arrived :
      (p : PeerState) (packet : Bytes) (from wireguard_addr : SocketAddr)
      → packet_kind packet ≡ InternetPacketKind.data_packet
      → contains p.connections (normalize_ipv4_mapped_source from) ≡ true
      → p.local_peer.address ≡ some wireguard_addr
      → p.local_peer.sender.closed ≡ false
      → IsBounded p.local_peer.sender
      → run codecs flags (arriving packet from) (ready_in p)
        ≡ ok (record (ready_in p) {
          local_peer = record (p.local_peer) {
            sender = after p.local_peer.sender ((packet, wireguard_addr) ∷ []);
          };
        })
  unfolding run step route try_send
  arrived p packet from wireguard_addr kind known heard running bounded =
      let source = normalize_ipv4_mapped_source from in
      rw
        (kind, delivered_one packet source wireguard_addr (tunnel_of p) known heard running bounded)
        refl

-- If each peer has the other's address as a candidate, B has heard from its WireGuard, the tasks of A's
-- Internet socket and B's loopback socket run and there is room in their queues, then a message of A's
-- WireGuard without the cookie of STUN waits in A's Internet queue for B's address after two rounds of
-- A's tasks; and once B has received it, it waits for B's WireGuard, behind what did, after two more
-- rounds there.
pub packet_crosses :
    (codecs_a codecs_b : Codecs) (flags_a flags_b : ConnectionFlags) (a b : PeerState) (typ : ℕ)
    (rest : Bytes) (wireguard_a wireguard_b to from : SocketAddr)
    → let packet : Bytes = typ ∷ 0 ∷ 0 ∷ 0 ∷ rest in
      1 ≤ typ
      → typ ≤ 4
      → take 8 rest ≢ to_be_bytes 8 cookie_word
      → Sets.contains (addresses a.connections) to ≡ true
      → a.to_internet.closed ≡ false
      → length a.to_internet.queue + length (addresses a.connections) ≤ a.to_internet.capacity
      → contains b.connections (normalize_ipv4_mapped_source from) ≡ true
      → b.local_peer.address ≡ some wireguard_b
      → b.local_peer.sender.closed ≡ false
      → length b.local_peer.sender.queue < b.local_peer.sender.capacity
      → ((a' : PeerState) × (run codecs_a flags_a (leaving packet wireguard_a) (ready_out a)
            ≡ ok a')
          × IsAmong (packet, to) a'.to_internet.queue)
        × ((b' : PeerState) × (run codecs_b flags_b (arriving packet from) (ready_in b) ≡ ok b')
            × (b'.local_peer.sender.queue
                ≡ b.local_peer.sender.queue ++ (packet, wireguard_b) ∷ []))
packet_crosses codecs_a codecs_b flags_a flags_b a b typ rest wireguard_a wireguard_b to from lo hi
      other known running_a room_a known_b heard running_b room_b =
    let packet : Bytes = typ ∷ 0 ∷ 0 ∷ 0 ∷ rest in
    let sent : List Datagram = map (λ x. (packet, x)) (addresses a.connections) in
    let queue = a.to_internet.queue in
    let sender = b.local_peer.sender in
    let fits : take a.to_internet.capacity (queue ++ sent) ≡ queue ++ sent =
      take-all a.to_internet.capacity (queue ++ sent) (
        omega (
          arith,
          room_a,
          length-append queue sent,
          length-map {B = Datagram} (λ x. (packet, x)) (addresses a.connections),
        )) in
    (
      (
        _,
        forwarded codecs_a flags_a a packet wireguard_a running_a (omega (arith, room_a)),
        subst (IsAmong (packet, to)) (sym fits) (
            behind-IsAmong (packet, to) queue sent
              (mapped-IsAmong packet (addresses a.connections) to known)),
      ),
      (
        _,
        arrived codecs_b flags_b b packet from wireguard_b
            ((wireguard_is_data typ rest lo hi).2 other) known_b heard running_b
            (omega (arith, room_b)),
        take-all sender.capacity (sender.queue ++ (packet, wireguard_b) ∷ [])
            (omega (arith, room_b, length-append sender.queue ((packet, wireguard_b) ∷ []))),
      ),
    )
