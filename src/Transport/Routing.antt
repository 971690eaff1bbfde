-- ===== src/Transport/Routing.antt =====
-- The router of received datagrams: `InternetPacketKind` and `split_internet_receiver` of
-- src/transport.rs.
pub mod Queues
use p2p_tunnler.Prelude.{
  ℕ, ◌≤◌, ◌≡◌, refl, Bool, true, false, Option, none, some, List, [], ◌∷◌, ◌++◌, if◌then◌else◌,
  length, arith, Result, ok, err, ◌>>=◌,
}
use p2p_tunnler.Net.{Bytes, IpAddr, SocketAddr, socket_addr, to_ipv4_mapped}
use p2p_tunnler.Utils.Channel.{Channel, channel, udp_queue_capacity, TaskError, try_send, IsBounded}

pub data InternetPacketKind : Type 0 where
  probe stun data_packet drop : InternetPacketKind

abbrev pub Datagram : Type 0
Datagram = Bytes × SocketAddr

-- `normalize_ipv4_mapped_source`.
unfoldable pub normalize_ipv4_mapped_source : SocketAddr → SocketAddr
normalize_ipv4_mapped_source (SocketAddr.v4 octets port) = SocketAddr.v4 octets port
normalize_ipv4_mapped_source (SocketAddr.v6 octets port flowinfo scope_id) =
    elim (to_ipv4_mapped octets) [
      | none ↦ SocketAddr.v6 octets port flowinfo scope_id
      | some ipv4 ↦ socket_addr (IpAddr.v4 ipv4) port
    ]

-- The three queues behind the router.
pub record Router : Type 0 where
  pub probes : Channel Datagram
  pub stuns : Channel Datagram
  pub packets : Channel Datagram

abbrev pub new_router : Router
new_router = record {
  probes = channel udp_queue_capacity;
  stuns = channel udp_queue_capacity;
  packets = channel udp_queue_capacity;
}

abbrev pub route_as : InternetPacketKind → Router → Datagram → Result TaskError Router
route_as probe r d = do (_, c) ← try_send r.probes d; ok (record r { probes = c })
route_as stun r d = do (_, c) ← try_send r.stuns d; ok (record r { stuns = c })
route_as data_packet r d = do (_, c) ← try_send r.packets d; ok (record r { packets = c })
route_as drop r d = ok r

-- One round of the routing task.
unfoldable pub route : (Bytes → InternetPacketKind) → Router → Datagram → Result TaskError Router
route classify r (packet, source) =
    route_as (classify packet) r (packet, normalize_ipv4_mapped_source source)

-- The routing task over the datagrams that it receives; it ends when a receiver has stopped.
unfoldable pub route_all :
    (Bytes → InternetPacketKind) → Router → List Datagram → Result TaskError Router
route_all classify r [] = ok r
route_all classify r (d ∷ rest) = do r' ← route classify r d; route_all classify r' rest
