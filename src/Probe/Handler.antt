-- ===== src/Probe/Handler.antt =====
-- The tasks around the controller in src/probe.rs: `handle_packets` and a tick of `schedule_probes`.
-- The log is left out.
use p2p_tunnler.Prelude.{ℕ, List, [], ◌∷◌, Result, ok, ◌>>=◌}
use p2p_tunnler.Net.{Bytes, SocketAddr}
use p2p_tunnler.Utils.Channel.{Channel, TaskError, try_send, try_send_all}
use p2p_tunnler.Transport.Candidates.{CandidateSet, add_peer_reflexive}
use p2p_tunnler.Probe.Types.{Instant, State, PacketAction}
use p2p_tunnler.Probe.Controller.{packet_action}
use p2p_tunnler.Probe.Schedule.{due_frames}

-- What the tasks share: the controller's state, the candidates, and the queue to the internet.
pub record Shared : Type 0 where
  pub controller : State
  pub connections : CandidateSet
  pub to_internet : Channel (Bytes × SocketAddr)

abbrev pub act : Bytes → SocketAddr → Shared → PacketAction → Result TaskError Shared
act packet source g PacketAction.echo_and_admit = do
  (_, c) ← try_send g.to_internet (packet, source)
  ok (record g { connections = (add_peer_reflexive g.connections source).0; to_internet = c })
act packet source g PacketAction.acknowledged = ok g
act packet source g PacketAction.drop = ok g

-- One round of `handle_packets`, at an instant and with a percentage for `jitter`.
unfoldable pub handle_packet : Instant → ℕ → Bytes → SocketAddr → Shared → Result TaskError Shared
handle_packet now percent packet source g =
    let (action, s) = packet_action now percent packet source g.controller in
    act packet source (record g { controller = s }) action

-- A packet with its source, the instant at which it is handled, and the percentage.
pub record Received : Type 0 where
  pub now : Instant
  pub percent : ℕ
  pub packet : Bytes
  pub source : SocketAddr

unfoldable pub handle_packets : List Received → Shared → Result TaskError Shared
handle_packets [] g = ok g
handle_packets (r ∷ rest) g = do
  g' ← handle_packet r.now r.percent r.packet r.source g
  handle_packets rest g'

-- One tick of `schedule_probes`.
unfoldable pub schedule_tick : Instant → (SocketAddr → ℕ) → Shared → Result TaskError Shared
schedule_tick now percent g =
    let (datagrams, s) = due_frames now percent g.controller in
    do c ← try_send_all g.to_internet datagrams; ok (record g { controller = s; to_internet = c })
