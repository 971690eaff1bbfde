-- ===== src/Examples/PeerRuns.antt =====
-- Runs of the tasks of one peer: a probe opens a path, and the peer's record is taken.
use p2p_tunnler.Prelude.{
  replicate, ◌≡◌, refl, List, [], ◌∷◌, map, true, false, none, some, ok, arith, All, Some, ◌++◌,
}
use p2p_tunnler.Net.{SocketAddr, socket_addr_eq}
use p2p_tunnler.Collections.Sets
use p2p_tunnler.Utils.Channel.{channel, after, try_send, try_send_all}
use p2p_tunnler.Transport.Candidates.{contains, addresses, add_peer_reflexive}
use p2p_tunnler.Transport.Routing.{normalize_ipv4_mapped_source, route}
use p2p_tunnler.Probe.Types.{from_secs, new}
use p2p_tunnler.Probe.Frame.{frame, classify, parse_frame}
use p2p_tunnler.Probe.Controller.{packet_action, reply_action, ack_action}
use p2p_tunnler.Probe.Handler.{handle_packet}
use p2p_tunnler.Service.Classify.{packet_kind}
use p2p_tunnler.Transport.Forwarding.{forward_outbound, forward_inbound}
use p2p_tunnler.Candidates.Listener.{Codecs, ConnectionFlags}
use p2p_tunnler.Service.Peer.{PeerState, new_peer, Event, step, run, Reaches}
use p2p_tunnler.Service.Peer.Trust.{IsTrusted, Vouches}
use p2p_tunnler.Service.Peer.Trust.Reached.{reached-IsTrusted}
use p2p_tunnler.Service.Peer.Opening.{quiet, opening, probe_opens_path}
use p2p_tunnler.Service.Peer.Crossing.{
  ready_out, ready_in, leaving, arriving, IsAmong, packet_crosses,
}
use p2p_tunnler.Service.Peer.Learning.{learning, is_new, record_starts_probes}
use p2p_tunnler.Collections.Sets.{IsNodup}
use p2p_tunnler.Candidates.Types.{Message}
use p2p_tunnler.Candidates.Listener.{Arrival, accept, updated_peers}
use p2p_tunnler.Candidates.Filter.{is_fresh_dht_timestamp}
use p2p_tunnler.Crypto.{decrypt}
use p2p_tunnler.Probe.Frame.{decode_token}
use p2p_tunnler.Examples.Data.{peer, local_token, remote_token}

-- A box that opens nothing.
abbrev shut : Codecs
shut = record {
  salsa = record { seal = λ nonce plaintext. none; unseal = λ nonce ciphertext. none };
  from_slice = λ bytes. none;
  base64_decode = λ text. none;
}

abbrev flags : ConnectionFlags
flags = record { filter_ipv6 = false; no_clear = false; out_port = 0; nat_map = false }

abbrev fresh : PeerState
fresh = new_peer local_token

abbrev wireguard : SocketAddr
wireguard = SocketAddr.v4 (127 ∷ 0 ∷ 0 ∷ 1 ∷ []) 51820

-- The peer's address as a dual-stack socket reports it.
abbrev mapped_peer : SocketAddr
mapped_peer =
    SocketAddr.v6 (0 ∷ 0 ∷ 0 ∷ 0 ∷ 0 ∷ 0 ∷ 0 ∷ 0 ∷ 0 ∷ 0 ∷ 0xff ∷ 0xff ∷ 192 ∷ 0 ∷ 2 ∷ 10 ∷ [])
      12345 0 0

probe_opens_path_example :
    (p' : PeerState) × (run shut flags
        (opening (frame local_token) mapped_peer (from_secs 5) 100 (4 ∷ 0 ∷ 0 ∷ 0 ∷ []) wireguard)
        (quiet fresh)
      ≡ ok p')
    × (Sets.contains (addresses p'.connections) (normalize_ipv4_mapped_source mapped_peer) ≡ true)
    × (p'.to_internet
        ≡ after fresh.to_internet (
            (frame local_token, normalize_ipv4_mapped_source mapped_peer)
            ∷ map (λ a. (4 ∷ 0 ∷ 0 ∷ 0 ∷ [], a)) (addresses p'.connections)))
probe_opens_path_example =
    probe_opens_path shut flags fresh mapped_peer (from_secs 5) 100 (4 ∷ 0 ∷ 0 ∷ 0 ∷ []) wireguard
      refl tt refl (omega arith)
      (record { advertised = tt; peer_reflexive = tt; bounded = omega arith }) (λ e. omega arith)
      refl (omega arith)

-- The path is opened, and then a packet of the peer goes through to WireGuard.
abbrev history : List Event
history =
    Event.inbound
    ∷ Event.routed
    ∷ Event.received (4 ∷ 1 ∷ 0 ∷ 0 ∷ []) mapped_peer
    ∷ Event.outbound
    ∷ Event.written (4 ∷ 0 ∷ 0 ∷ 0 ∷ []) wireguard
    ∷ Event.control (from_secs 5) 100
    ∷ Event.routed
    ∷ Event.received (frame local_token) mapped_peer
    ∷ []

abbrev reached : PeerState
reached = record fresh {
  controller = record (new local_token) { reply_sources = (peer, from_secs 5) ∷ [] };
  connections = record { advertised = []; peer_reflexive = peer ∷ [] };
  to_internet = record (channel 256) {
    queue = (frame local_token, peer) ∷ (4 ∷ 0 ∷ 0 ∷ 0 ∷ [], peer) ∷ [];
  };
  local_peer = record {
    sender = record (channel 256) { queue = (4 ∷ 1 ∷ 0 ∷ 0 ∷ [], wireguard) ∷ [] };
    address = some wireguard;
  };
}

history-reached : Reaches shut flags local_token history reached
unfolding step try_send try_send_all route packet_kind classify normalize_ipv4_mapped_source frame
    parse_frame handle_packet packet_action reply_action ack_action add_peer_reflexive contains
    addresses forward_outbound forward_inbound
history-reached =
    Reaches.next Event.inbound
      (Reaches.next Event.routed
        (Reaches.next (Event.received (4 ∷ 1 ∷ 0 ∷ 0 ∷ []) mapped_peer)
          (Reaches.next Event.outbound
            (Reaches.next (Event.written (4 ∷ 0 ∷ 0 ∷ 0 ∷ []) wireguard)
              (Reaches.next (Event.control (from_secs 5) 100)
                (Reaches.next Event.routed
                  (Reaches.next (Event.received (frame local_token) mapped_peer) Reaches.start refl)
                  refl)
                refl)
              refl)
            refl)
          refl)
        refl)
      refl

reached-IsTrusted_example :
    All (IsTrusted shut flags local_token history) reached.local_peer.sender.queue
    × ((a : SocketAddr)
        → contains reached.connections a ≡ true
        → Some (Vouches shut flags local_token a) history)
reached-IsTrusted_example = reached-IsTrusted shut flags local_token history reached history-reached

-- The same state stands for both peers, which have the same address for each other here.
packet_crosses_example :
    ((a' : PeerState) × (run shut flags
          (leaving (4 ∷ 0 ∷ 0 ∷ 0 ∷ 9 ∷ []) wireguard)
          (ready_out reached)
        ≡ ok a')
      × IsAmong (4 ∷ 0 ∷ 0 ∷ 0 ∷ 9 ∷ [], peer) a'.to_internet.queue)
    × ((b' : PeerState) × (run shut flags
            (arriving (4 ∷ 0 ∷ 0 ∷ 0 ∷ 9 ∷ []) mapped_peer)
            (ready_in reached)
          ≡ ok b')
        × (b'.local_peer.sender.queue
            ≡ reached.local_peer.sender.queue ++ (4 ∷ 0 ∷ 0 ∷ 0 ∷ 9 ∷ [], wireguard) ∷ []))
unfolding contains addresses normalize_ipv4_mapped_source
packet_crosses_example =
    packet_crosses shut shut flags flags reached reached 4 (9 ∷ []) wireguard wireguard peer
      mapped_peer (omega arith) (omega arith) (λ e. cc) refl refl (omega arith) refl refl refl
      (omega arith)

-- A codec by which every value holds one record with the peer's address.
abbrev record_of_peer : Message
record_of_peer = record {
  timestamp = from_secs 1000;
  ip_addr_list = peer ∷ [];
  control = some (record { probe_token = "token" });
}

abbrev open_codecs : Codecs
open_codecs = record {
  salsa = record { seal = λ nonce plaintext. none; unseal = λ nonce ciphertext. some ciphertext };
  from_slice = λ bytes. some record_of_peer;
  base64_decode = λ text. some remote_token;
}

abbrev arrival : Arrival
arrival = record { value = replicate 24 0; now = from_secs 1001; instant = from_secs 3 }

record_starts_probes_example :
    (p' : PeerState) × (destinations : List SocketAddr) × (run open_codecs flags
        (learning arrival (from_secs 4) (λ a. 100))
        fresh
      ≡ ok p')
    × (p'.to_internet ≡ after fresh.to_internet (map (λ a. (frame remote_token, a)) destinations))
    × IsNodup destinations
    × ((a : SocketAddr)
        → Sets.contains (updated_peers flags [] (peer ∷ [])) a ≡ true
        → (contains p'.connections a ≡ true)
          × (is_new remote_token a fresh.controller ≡ true → Sets.contains destinations a ≡ true))
unfolding accept decrypt is_fresh_dht_timestamp decode_token
record_starts_probes_example =
    record_starts_probes open_codecs flags fresh arrival record_of_peer remote_token (from_secs 4)
      (λ a. 100) refl refl tt tt refl (omega arith) (omega arith)
