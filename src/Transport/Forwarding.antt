-- ===== src/Transport/Forwarding.antt =====
-- The two forwarding tasks of src/transport.rs: the one that `bind_loopback_and_forward` spawns, and
-- `forward_inbound_traffic`. The log is left out.
pub mod Delivery
use p2p_tunnler.Prelude.{
  ℕ, Bool, true, false, Option, none, some, List, [], ◌∷◌, if◌then◌else◌, Result, ok, err, ◌>>=◌,
  map,
}
use p2p_tunnler.Net.{Bytes, SocketAddr, socket_addr_beq}
use p2p_tunnler.Utils.Channel.{Channel, TaskError, try_send, try_send_all}
use p2p_tunnler.Transport.Candidates.{CandidateSet, contains, addresses}

-- `LocalPeer`: the queue to the loopback socket, and where WireGuard was last heard from.
pub record LocalPeer : Type 0 where
  pub sender : Channel (Bytes × SocketAddr)
  pub address : Option SocketAddr

-- What the tasks of a peer share.
pub record Tunnel : Type 0 where
  pub local_peer : LocalPeer
  pub to_internet : Channel (Bytes × SocketAddr)
  pub connections : CandidateSet

abbrev pub address_is : Option SocketAddr → SocketAddr → Bool
address_is none a = false
address_is (some b) a = socket_addr_beq b a

-- One round of the loopback task.
unfoldable pub forward_outbound : Bytes → SocketAddr → Tunnel → Result TaskError Tunnel
forward_outbound packet wireguard_addr t =
    let peer : LocalPeer =
      if address_is t.local_peer.address wireguard_addr
      then t.local_peer
      else record (t.local_peer) { address = some wireguard_addr } in
    do
      to_internet ←
          try_send_all t.to_internet
            (map (λ remote_peer. (packet, remote_peer)) (addresses t.connections))
      ok (record t { local_peer = peer; to_internet = to_internet })

abbrev pub deliver : Bytes → Option SocketAddr → Tunnel → Result TaskError Tunnel
deliver packet none t = ok t
deliver packet (some wireguard_addr) t = do
  (_, c) ← try_send t.local_peer.sender (packet, wireguard_addr)
  ok (record t { local_peer = record (t.local_peer) { sender = c } })

-- One round of `forward_inbound_traffic`.
unfoldable pub forward_inbound : Bytes → SocketAddr → Tunnel → Result TaskError Tunnel
forward_inbound packet remote_peer t =
    if contains t.connections remote_peer then deliver packet t.local_peer.address t else ok t

unfoldable pub forward_inbound_traffic :
    List (Bytes × SocketAddr) → Tunnel → Result TaskError Tunnel
forward_inbound_traffic [] t = ok t
forward_inbound_traffic ((packet, remote_peer) ∷ rest) t = do
  t' ← forward_inbound packet remote_peer t
  forward_inbound_traffic rest t'
