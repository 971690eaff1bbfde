-- ===== src/Examples/TunnelRuns.antt =====
-- Runs of the candidates, the router, the two forwarding tasks and the UDP sender.
use p2p_tunnler.Prelude.{
  ℕ, ◌≡◌, ◌↔◌, refl, ◌<◌, true, List, [], ◌∷◌, false, ◌||◌, some, ok, arith, length,
}
use p2p_tunnler.Net.{SocketAddr, socket_addr_eq}
use p2p_tunnler.Collections.Sets
use p2p_tunnler.Collections.Sets.{IsNodup}
use p2p_tunnler.Utils.Channel.{channel, after}
use p2p_tunnler.Utils.Sender.{Sent, SendError, send_queue, served, send_queue_iff}
use p2p_tunnler.Transport.Candidates.{
  CandidateSet, default, contains, addresses, add_peer_reflexive, replace_advertised,
  max_peer_reflexive_candidates,
}
use p2p_tunnler.Transport.Candidates
use p2p_tunnler.Transport.Candidates.History
use p2p_tunnler.Transport.Candidates.History.{
  Change, addresses-contains, add_peer_reflexive_lem, run-default-IsValid, admitted_stays,
}
use p2p_tunnler.Transport.Candidates.Reference.{reached, reached-exact}
use p2p_tunnler.Transport.Routing.{Datagram, new_router, route_all, InternetPacketKind}
use p2p_tunnler.Transport.Routing.Queues.{of_kind, route_all-queues}
use p2p_tunnler.Transport.Forwarding.{Tunnel, forward_inbound_traffic}
use p2p_tunnler.Transport.Forwarding.Delivery.{admitted, forward_inbound_traffic-delivers}
use p2p_tunnler.Probe.Frame.{frame}
use p2p_tunnler.Service.Classify.{packet_kind}
use p2p_tunnler.Examples.Data.{server, peer, peer6, answer, local_token}

abbrev candidates : CandidateSet
candidates = record { advertised = peer6 ∷ peer ∷ []; peer_reflexive = peer ∷ [] }

candidates-IsValid : Candidates.IsValid candidates
candidates-IsValid = record {
  advertised = (refl, (refl, tt));
  peer_reflexive = (refl, tt);
  bounded = omega arith;
}

abbrev changes : List Change
changes = Change.advertise (server ∷ server ∷ []) ∷ Change.admit peer6 ∷ []

abbrev datagrams : List Datagram
datagrams = (answer, server) ∷ (frame local_token, peer) ∷ (4 ∷ 0 ∷ 0 ∷ 0 ∷ [], peer6) ∷ []

route_all-queues_example :
    route_all packet_kind new_router datagrams
    ≡ ok (record {
      probes = after (channel 256) (of_kind packet_kind InternetPacketKind.probe datagrams);
      stuns = after (channel 256) (of_kind packet_kind InternetPacketKind.stun datagrams);
      packets = after (channel 256) (of_kind packet_kind InternetPacketKind.data_packet datagrams);
    })
route_all-queues_example = route_all-queues packet_kind new_router datagrams (record {
  probes = (refl, omega arith);
  stuns = (refl, omega arith);
  packets = (refl, omega arith);
})

abbrev tunnel : Tunnel
tunnel = record {
  local_peer = record { sender = channel 4; address = some server };
  to_internet = channel 4;
  connections = candidates;
}

abbrev inbound : List Datagram
inbound = (1 ∷ [], peer) ∷ (2 ∷ [], server) ∷ (3 ∷ [], peer6) ∷ []

forward_inbound_traffic-delivers_example :
    forward_inbound_traffic inbound tunnel
    ≡ ok (record tunnel {
      local_peer = record {
        sender = after (channel 4) (admitted candidates server inbound);
        address = some server;
      };
    })
forward_inbound_traffic-delivers_example =
    forward_inbound_traffic-delivers tunnel server inbound refl refl (omega arith)

-- The network is unreachable once before the first datagram.
abbrev outcomes : List Sent
outcomes = Sent.refused SendError.network_unreachable ∷ Sent.sent 5 ∷ Sent.sent 7 ∷ Sent.sent 9 ∷ []

send_queue_iff_example : (send_queue (5 ∷ 7 ∷ []) outcomes ≡ some (ok (Sent.sent 9 ∷ []))) ↔ (
    (tries : List ℕ) × (length tries ≡ 2)
    × (outcomes ≡ served (5 ∷ 7 ∷ []) tries (Sent.sent 9 ∷ [])))
send_queue_iff_example = send_queue_iff (5 ∷ 7 ∷ []) outcomes (Sent.sent 9 ∷ [])

-- Two records and a source between them, which the second record does not remove; the latest first.
abbrev history : List Change
history = Change.advertise (server ∷ []) ∷ Change.admit peer ∷ Change.advertise (peer6 ∷ []) ∷ []

reached_history :
    (contains (reached history) peer ≡ true) × (contains (reached history) peer6 ≡ false)
unfolding reached History.apply replace_advertised add_peer_reflexive contains
reached_history = (refl, refl)

reached-exact_example :
    ((a : SocketAddr)
      → contains (reached history) a
        ≡ (Sets.contains (server ∷ []) a || Sets.contains (peer ∷ []) a))
    × IsNodup (addresses (reached history))
    × ((a : SocketAddr)
        → Sets.contains (addresses (reached history)) a
          ≡ (Sets.contains (server ∷ []) a || Sets.contains (peer ∷ []) a))
    × ((source : SocketAddr)
        → ((add_peer_reflexive (reached history) source).1 ≡ true) ↔ (
            (Sets.contains (server ∷ []) source ≡ false)
            × (Sets.contains (peer ∷ []) source ≡ false)
            × (1 < 64)))
reached-exact_example = reached-exact history
