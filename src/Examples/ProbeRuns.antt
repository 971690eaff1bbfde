-- ===== src/Examples/ProbeRuns.antt =====
-- Runs of the prober: the local token is learned by the peer, and the peer's by this side.
use p2p_tunnler.Prelude.{
  ◌+◌, ◌<◌, ◌≤◌, ◌≡◌, ◌≢◌, true, ◌↔◌, refl, List, [], ◌∷◌, length, map, false, some, arith,
}
use p2p_tunnler.Net.{SocketAddr, socket_addr_eq}
use p2p_tunnler.Collections.Sets.{IsNodup, contains}
use p2p_tunnler.Collections.Maps.{get}
use p2p_tunnler.Probe.Types.{State, PacketAction, new, from_secs, reply_interval, max_reply_sources}
use p2p_tunnler.Probe.Frame.{frame, parse_frame}
use p2p_tunnler.Probe.Controller.{
  update_remote, packet_action, reply_action, ack_action, recent, is_recent,
}
use p2p_tunnler.Probe.Schedule.{due_frames, due_paths, due_path}
use p2p_tunnler.Probe.Events.{Event, apply, run}
use p2p_tunnler.Probe.Invariant.{IsValid, run-new-IsValid}
use p2p_tunnler.Probe.Packets.{IsAcked, packet_action-acknowledged, packet_action-echo}
use p2p_tunnler.Probe.Replies.{echo_interval}
use p2p_tunnler.Probe.Paths.{is_due, due_frames-exact}
use p2p_tunnler.Probe.Spacing.{probe_interval}
use p2p_tunnler.Probe.Acknowledged.{acknowledged_once}
use p2p_tunnler.Probe.Track.{track_of, follow_all, run-follow_all}
use p2p_tunnler.Probe.Exchange.{probe_is_acknowledged}
use p2p_tunnler.Examples.Data.{peer, peer6, local_token, remote_token}

-- At second 10 the peer's record is taken; at second 11 both its addresses are probed.
abbrev learned : List Event
learned = Event.update (from_secs 10) (some remote_token) (peer ∷ peer6 ∷ []) ∷ []

abbrev start : State
start = new local_token

abbrev known : State
unfolding apply update_remote
known = run learned start

abbrev probed : State
unfolding due_frames due_paths due_path
probed = (due_frames (from_secs 11) (λ a. 100) known).1

run-new-IsValid_example : IsValid (run learned start)
run-new-IsValid_example = run-new-IsValid local_token learned

packet_action-acknowledged_example :
    ((packet_action (from_secs 12) 100 (frame remote_token) peer probed).0
      ≡ PacketAction.acknowledged)
    ↔ IsAcked probed (frame remote_token) peer
packet_action-acknowledged_example =
    packet_action-acknowledged (from_secs 12) 100 (frame remote_token) peer probed

packet_action-echo_example :
    ((packet_action (from_secs 12) 100 (frame local_token) peer probed).0
      ≡ PacketAction.echo_and_admit)
    ↔ ((parse_frame (frame local_token) ≡ some local_token)
        × (is_recent (from_secs 12) (get probed.reply_sources peer) ≡ false)
        × (length (recent (from_secs 12) probed.reply_sources) < max_reply_sources))
unfolding probed known
packet_action-echo_example =
    packet_action-echo (from_secs 12) 100 (frame local_token) peer probed tt

start-IsValid : IsValid start
start-IsValid = record {
  unique_paths = tt;
  bounded_paths = omega arith;
  unique_sources = tt;
  bounded_sources = omega arith;
  disabled = λ h. refl;
}

echo_interval_example : from_secs 11 + reply_interval ≤ from_secs 13
unfolding packet_action parse_frame frame reply_action ack_action apply
echo_interval_example =
    echo_interval start (from_secs 11) (from_secs 13) 100 100 (frame local_token)
      (frame local_token) peer (Event.packet (from_secs 12) 100 (frame local_token) peer6 ∷ [])
      start-IsValid refl (omega arith, omega arith) refl

due_frames-exact_example :
    (destinations : List SocketAddr) × ((due_frames (from_secs 11) (λ a. 100) known).0
      ≡ map (λ address. (frame remote_token, address)) destinations)
    × IsNodup destinations
    × ((a : SocketAddr) → contains destinations a ≡ is_due (from_secs 11) (get known.paths a))
unfolding known
due_frames-exact_example =
    due_frames-exact (from_secs 11) (λ a. 100) known remote_token refl (refl, (refl, tt))

probe_interval_example : from_secs 11 + from_secs 1 ≤ from_secs 13
unfolding apply update_remote due_frames due_paths due_path packet_action parse_frame frame
    ack_action reply_action
probe_interval_example =
    probe_interval known remote_token (from_secs 11) (from_secs 13) (λ a. 100) peer
      (Event.packet (from_secs 12) 100 (frame remote_token) peer6 ∷ []) refl (λ b. omega arith) refl
      (omega arith, omega arith) (omega arith, tt) refl

acknowledged_once_example :
    (packet_action (from_secs 13) 100 (frame remote_token) peer (
      run
        (Event.packet (from_secs 12) 100 (frame local_token) peer ∷ [])
        (packet_action (from_secs 12) 100 (frame remote_token) peer probed).1)).0
    ≢ PacketAction.acknowledged
unfolding apply update_remote due_frames due_paths due_path packet_action parse_frame frame
    ack_action reply_action
acknowledged_once_example =
    acknowledged_once probed (from_secs 12) (from_secs 13) 100 100 (frame remote_token)
      (frame remote_token) peer (Event.packet (from_secs 12) 100 (frame local_token) peer ∷ []) refl
      tt

-- The other side, and one round of this side at second 11.
abbrev other_side : State
other_side = new remote_token

probe_is_acknowledged_example :
    let (sent, us') = due_frames (from_secs 11) (λ a. 100) known in
    let probe = frame remote_token in
    ((destinations : List SocketAddr) × (sent ≡ map (λ address. (probe, address)) destinations)
      × (contains destinations peer ≡ true))
    × ((packet_action (from_secs 12) 100 probe peer6 other_side).0 ≡ PacketAction.echo_and_admit)
    × ((packet_action (from_secs 13) 100 probe peer us').0 ≡ PacketAction.acknowledged)
unfolding known
probe_is_acknowledged_example =
    probe_is_acknowledged known other_side (from_secs 11) (from_secs 12) (from_secs 13) (λ a. 100)
      100 100 peer6 peer refl tokens_differ refl (refl, (refl, tt)) tt refl refl (omega arith)
  where
    tokens_differ : remote_token ≢ local_token
    tokens_differ e = cc

-- A record, a round, an acknowledgement, and a record that leaves the peer out.
abbrev history : List Event
history =
    Event.update (from_secs 10) (some remote_token) (peer ∷ peer6 ∷ [])
    ∷ Event.tick (from_secs 11) (λ a. 100)
    ∷ Event.packet (from_secs 12) 100 (frame remote_token) peer
    ∷ Event.update (from_secs 13) (some remote_token) (peer6 ∷ [])
    ∷ []

run-follow_all_example :
    track_of peer (run history start) ≡ follow_all local_token peer history (track_of peer start)
run-follow_all_example = run-follow_all peer history start (omega arith, (omega arith, tt))
