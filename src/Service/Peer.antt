-- ===== src/Service/Peer.antt =====
-- What `setup_connection` of src/service.rs sets up for one peer: the objects that its tasks share, the
-- queues between them, and one round of each task as a step. The UDP receiver of src/utils.rs is here
-- too. Tasks take turns in any order; a round holds the locks that the code holds over it.
pub mod Trust
pub mod Opening
pub mod Learning
pub mod Crossing
use p2p_tunnler.Prelude.{ℕ, ◌≡◌, Option, none, some, List, [], ◌∷◌, Result, ok, ◌>>=◌, Bool}
use p2p_tunnler.Net.{Bytes, SocketAddr}
use p2p_tunnler.Utils.Channel.{Channel, channel, udp_queue_capacity, TaskError, try_send}
use p2p_tunnler.Transport.Candidates.{CandidateSet, default}
use p2p_tunnler.Transport.Routing.{Datagram, Router, new_router, route}
use p2p_tunnler.Transport.Forwarding.{LocalPeer, Tunnel, forward_inbound, forward_outbound}
use p2p_tunnler.Probe.Types.{Instant, State, new}
use p2p_tunnler.Probe.Handler.{Shared, handle_packet, schedule_tick}
use p2p_tunnler.Candidates.Types.{SystemTime}
use p2p_tunnler.Candidates.Listener.{Codecs, ConnectionFlags, Listener, Arrival, listen}
use p2p_tunnler.Service.Classify.{packet_kind}

pub record PeerState : Type 0 where
  pub from_internet : Channel Datagram
  pub router : Router
  pub controller : State
  pub connections : CandidateSet
  pub to_internet : Channel Datagram
  pub from_loopback : Channel Datagram
  pub local_peer : LocalPeer
  pub last_timestamp : Option SystemTime

-- The state when all is spawned and nothing has run, with the token that the controller has drawn.
abbrev pub new_peer : Bytes → PeerState
new_peer token = record {
  from_internet = channel udp_queue_capacity;
  router = new_router;
  controller = new token;
  connections = default;
  to_internet = channel udp_queue_capacity;
  from_loopback = channel udp_queue_capacity;
  local_peer = record { sender = channel udp_queue_capacity; address = none };
  last_timestamp = none;
}

-- A round of a task. The receivers bring a datagram of their socket; `stun_request` is a datagram that
-- the STUN client sends and `stun_response` takes one that it waits for; `sent` and `delivered` are the
-- senders of the two sockets.
pub data Event : Type 0 where
  received : Bytes → SocketAddr → Event
  routed : Event
  control : Instant → ℕ → Event
  scheduled : Instant → (SocketAddr → ℕ) → Event
  stun_request : Bytes → SocketAddr → Event
  stun_response : Event
  inbound : Event
  written : Bytes → SocketAddr → Event
  outbound : Event
  value : Arrival → Event
  sent : Event
  delivered : Event

-- A round of the UDP receiver, after `recv_from`.
abbrev pub receive : Channel Datagram → Datagram → Result TaskError (Channel Datagram)
receive c d = do (_, c') ← try_send c d; ok c'

-- `recv` on a channel: the oldest message and the channel without it. A task that finds none waits.
abbrev pub recv_from {ℓ} : {A : Type ℓ} → Channel A → List A → Option (A × Channel A)
recv_from c [] = none
recv_from c (message ∷ rest) = some (message, record c { queue = rest })

abbrev pub recv {ℓ} : {A : Type ℓ} → Channel A → Option (A × Channel A)
recv c = recv_from c c.queue

abbrev pub route_next :
    Option (Datagram × Channel Datagram) → PeerState → Result TaskError PeerState
route_next none p = ok p
route_next (some (d, c)) p = do
  router ← route packet_kind p.router d
  ok (record p { from_internet = c; router = router })

-- The controller, the candidates and the queue that `handle_packets` and `schedule_probes` share.
abbrev pub shared_of : PeerState → Shared
shared_of p = record {
  controller = p.controller;
  connections = p.connections;
  to_internet = p.to_internet;
}

abbrev pub with_shared : PeerState → Shared → PeerState
with_shared p g = record p {
  controller = g.controller;
  connections = g.connections;
  to_internet = g.to_internet;
}

abbrev pub control_next :
    Instant → ℕ → Option (Datagram × Channel Datagram) → PeerState → Result TaskError PeerState
control_next now percent none p = ok p
control_next now percent (some ((packet, source), c)) p = do
  g ← handle_packet now percent packet source (shared_of p)
  ok (with_shared (record p { router = record (p.router) { probes = c } }) g)

abbrev pub tunnel_of : PeerState → Tunnel
tunnel_of p = record {
  local_peer = p.local_peer;
  to_internet = p.to_internet;
  connections = p.connections;
}

-- The forwarding tasks read the candidates and do not change them.
abbrev pub with_tunnel : PeerState → Tunnel → PeerState
with_tunnel p t = record p { local_peer = t.local_peer; to_internet = t.to_internet }

abbrev pub inbound_next :
    Option (Datagram × Channel Datagram) → PeerState → Result TaskError PeerState
inbound_next none p = ok p
inbound_next (some ((packet, source), c)) p = do
  t ← forward_inbound packet source (tunnel_of p)
  ok (with_tunnel (record p { router = record (p.router) { packets = c } }) t)

abbrev pub outbound_next :
    Option (Datagram × Channel Datagram) → PeerState → Result TaskError PeerState
outbound_next none p = ok p
outbound_next (some ((packet, wireguard_addr), c)) p = do
  t ← forward_outbound packet wireguard_addr (tunnel_of p)
  ok (with_tunnel (record p { from_loopback = c }) t)

abbrev pub listener_of : PeerState → Listener
listener_of p = record {
  last_timestamp = p.last_timestamp;
  connections = p.connections;
  probes = p.controller;
}

abbrev pub with_listener : PeerState → Listener → PeerState
with_listener p l = record p {
  last_timestamp = l.last_timestamp;
  connections = l.connections;
  controller = l.probes;
}

abbrev pub without_oldest {ℓ} : {A : Type ℓ} → Option (A × Channel A) → Channel A → Channel A
without_oldest none c = c
without_oldest (some (message, c')) c = c'

module _ (codecs : Codecs) (flags : ConnectionFlags) where
  -- One round; an error ends the process.
  unfoldable pub step : Event → PeerState → Result TaskError PeerState
  step (Event.received packet source) p = do
    c ← receive p.from_internet (packet, source)
    ok (record p { from_internet = c })
  step Event.routed p = route_next (recv p.from_internet) p
  step (Event.control now percent) p = control_next now percent (recv p.router.probes) p
  step (Event.scheduled now percent) p = do
    g ← schedule_tick now percent (shared_of p)
    ok (with_shared p g)
  step (Event.stun_request packet server) p = do
    (_, c) ← try_send p.to_internet (packet, server)
    ok (record p { to_internet = c })
  step Event.stun_response p = ok (record p {
    router = record (p.router) { stuns = without_oldest (recv p.router.stuns) p.router.stuns };
  })
  step Event.inbound p = inbound_next (recv p.router.packets) p
  step (Event.written packet wireguard_addr) p = do
    c ← receive p.from_loopback (packet, wireguard_addr)
    ok (record p { from_loopback = c })
  step Event.outbound p = outbound_next (recv p.from_loopback) p
  step (Event.value arrival) p = ok (with_listener p (listen codecs flags arrival (listener_of p)))
  step Event.sent p =
      ok (record p { to_internet = without_oldest (recv p.to_internet) p.to_internet })
  step Event.delivered p = ok (record p {
    local_peer = record (p.local_peer) {
      sender = without_oldest (recv p.local_peer.sender) p.local_peer.sender;
    };
  })

  -- Rounds in the order of the list.
  unfoldable pub run : List Event → PeerState → Result TaskError PeerState
  run [] p = ok p
  run (event ∷ events) p = do p' ← step event p; run events p'

  -- The states that the tasks reach, with the rounds that led there, latest first.
  pub data Reaches (token : Bytes) : List Event → PeerState → Type 0 where
    start : Reaches token [] (new_peer token)
    next :
        {history : List Event} {p p' : PeerState} (event : Event)
        → Reaches token history p
        → step event p ≡ ok p'
        → Reaches token (event ∷ history) p'
