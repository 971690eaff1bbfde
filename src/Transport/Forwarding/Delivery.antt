-- ===== src/Transport/Forwarding/Delivery.antt =====
-- What the forwarding tasks of src/transport.rs put on the two queues.
use p2p_tunnler.Prelude.{
  ◌≡◌, refl, sym, ap, ◌∙◌, false, Bool-cases, inl, inr, Option, none, some, List, [], ◌∷◌, map,
  if◌then◌else◌, arith, ok, ◌>>=◌,
}
use p2p_tunnler.Net.{Bytes, SocketAddr, socket_addr_beq_iff}
use p2p_tunnler.Utils.Channel.{
  IsBounded, after, after-nil, after-after, after-IsBounded, try_send-after, try_send_all-after,
}
use p2p_tunnler.Transport.Candidates.{CandidateSet, contains, addresses}
use p2p_tunnler.Transport.Forwarding.{
  LocalPeer, Tunnel, address_is, forward_outbound, deliver, forward_inbound,
  forward_inbound_traffic,
}

local_after :
    (p : LocalPeer) (a : SocketAddr)
    → (if address_is p.address a then p else record p { address = some a })
      ≡ record p { address = some a }
local_after p a = go p.address refl
  where
    go :
        (o : Option SocketAddr)
        → p.address ≡ o
        → (if address_is p.address a then p else record p { address = some a })
          ≡ record p { address = some a }
    go none e = ground (arith, e)
    go (some b) e = ground (arith, e, socket_addr_beq_iff b a)

-- While the Internet socket's task runs, a packet from WireGuard goes to the Internet queue once for
-- each candidate address, advertised ones first, as far as there is room, and its sender is where
-- inbound packets are delivered from then on.
pub forward_outbound-queue :
    (packet : Bytes) (wireguard_addr : SocketAddr) (t : Tunnel)
    → t.to_internet.closed ≡ false
    → IsBounded t.to_internet
    → forward_outbound packet wireguard_addr t
      ≡ ok (record t {
        local_peer = record (t.local_peer) { address = some wireguard_addr };
        to_internet = after t.to_internet (map (λ a. (packet, a)) (addresses t.connections));
      })
unfolding forward_outbound
forward_outbound-queue packet wireguard_addr t running bounded =
    rw
      (try_send_all-after t.to_internet (map (λ a. (packet, a)) (addresses t.connections)) running
        bounded)
      (ap
        (λ p. ok (record t {
          local_peer = p;
          to_internet = after t.to_internet (map (λ a. (packet, a)) (addresses t.connections));
        }))
        (local_after t.local_peer wireguard_addr))

-- The packets that come from candidate addresses, each for the given receiver.
abbrev pub admitted :
    CandidateSet → SocketAddr → List (Bytes × SocketAddr) → List (Bytes × SocketAddr)
admitted c receiver [] = []
admitted c receiver ((packet, source) ∷ rest) =
    let others = admitted c receiver rest in
    if contains c source then (packet, receiver) ∷ others else others

abbrev delivered : Tunnel → List (Bytes × SocketAddr) → Tunnel
delivered t packets = record t {
  local_peer = record (t.local_peer) { sender = after t.local_peer.sender packets };
}

-- While the loopback socket's task runs and WireGuard has been heard from, the packets from the Internet
-- that are delivered to it are exactly those from candidate addresses, in their order and as far as
-- there is room; every other one is dropped, and nothing else changes.
pub forward_inbound_traffic-delivers :
    (t : Tunnel) (wireguard_addr : SocketAddr) (packets : List (Bytes × SocketAddr))
    → t.local_peer.address ≡ some wireguard_addr
    → t.local_peer.sender.closed ≡ false
    → IsBounded t.local_peer.sender
    → forward_inbound_traffic packets t
      ≡ ok (record t {
        local_peer = record (t.local_peer) {
          sender = after t.local_peer.sender (admitted t.connections wireguard_addr packets);
        };
      })
unfolding forward_inbound_traffic forward_inbound
forward_inbound_traffic-delivers t receiver [] heard running bounded =
    ap (λ c. ok (record t { local_peer = record (t.local_peer) { sender = c } }))
      (sym (after-nil t.local_peer.sender bounded))
forward_inbound_traffic-delivers t receiver ((packet, source) ∷ rest) heard running bounded =
    elim (Bool-cases (contains t.connections source)) [
      | inr e ↦ rw e (forward_inbound_traffic-delivers t receiver rest heard running bounded)
      | inl e ↦
          let one : List (Bytes × SocketAddr) = (packet, receiver) ∷ [] in
          let (queued, sent) =
            try_send-after t.local_peer.sender (packet, receiver) running bounded in
          let step : deliver packet (some receiver) t ≡ ok (delivered t one) = rw sent refl in
          let first : deliver packet t.local_peer.address t ≡ ok (delivered t one) =
            ap (λ o. deliver packet o t) heard ∙ step in
          let others =
            forward_inbound_traffic-delivers
              (record t {
                local_peer = record (t.local_peer) {
                  sender = after t.local_peer.sender ((packet, receiver) ∷ []);
                };
              })
              receiver rest heard running (after-IsBounded t.local_peer.sender one) in
          rw e (
            ap (λ r. r >>= forward_inbound_traffic rest) first
            ∙ others
            ∙ ap (λ c. ok (record t { local_peer = record (t.local_peer) { sender = c } }))
                (after-after t.local_peer.sender one (admitted t.connections receiver rest)))
    ]

-- Until WireGuard has been heard from, nothing is delivered and nothing changes.
pub forward_inbound_traffic-unheard :
    (t : Tunnel) (packets : List (Bytes × SocketAddr))
    → t.local_peer.address ≡ none
    → forward_inbound_traffic packets t ≡ ok t
unfolding forward_inbound_traffic forward_inbound
forward_inbound_traffic-unheard t [] h = refl
forward_inbound_traffic-unheard t ((packet, source) ∷ rest) h =
    let next = forward_inbound_traffic-unheard t rest h in
    let skipped : deliver packet t.local_peer.address t ≡ ok t = ap (λ o. deliver packet o t) h in
    elim (Bool-cases (contains t.connections source)) [
      | inr e ↦ rw e next
      | inl e ↦ rw e (ap (λ r. r >>= forward_inbound_traffic rest) skipped ∙ next)
    ]
