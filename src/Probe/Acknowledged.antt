-- ===== src/Probe/Acknowledged.antt =====
-- Acknowledgements of one probe in src/probe.rs, over histories of packets.
use p2p_tunnler.Prelude.{
  ℕ, ◌≡◌, ◌≢◌, refl, Option, none, some, List, [], ◌∷◌, arith, if◌then◌else◌, if-elim,
}
use p2p_tunnler.Net.{Bytes, SocketAddr, socket_addr_eq}
use p2p_tunnler.Collections.Maps.{get, get-insert}
use p2p_tunnler.Probe.Types.{Instant, ProbePath, State, PacketAction}
use p2p_tunnler.Probe.Frame.{parse_frame}
use p2p_tunnler.Probe.Controller.{
  packet_action, token_action, reply_action, ack_action, ack_path, ack_outstanding, acknowledge,
  recent, remote_eq, token_eq,
}
use p2p_tunnler.Probe.Events.{Event, apply, run}
use p2p_tunnler.Probe.Packets.{packet_action-acknowledged, reply_action-acknowledged}

-- The path at an address waits for no acknowledgement.
record IsIdle (a : SocketAddr) (s : State) : Type 0 where
  path : ProbePath
  found : get s.paths a ≡ some path
  idle : path.outstanding ≡ none

IsIdle-after_outstanding :
    (now : Instant) (percent : ℕ) (a other : SocketAddr) (s : State) (path : ProbePath)
    (o : Option Instant)
    → IsIdle a s
    → IsIdle a (ack_outstanding now percent other s path o).1
IsIdle-after_outstanding now percent a other s path none i = i
IsIdle-after_outstanding now percent a other s path (some sent) i = record {
  path = if socket_addr_eq.beq other a then acknowledge now percent path else i.path;
  found = ground (arith, get-insert other a (acknowledge now percent path) s.paths, i.found);
  idle = ground (arith, i.idle);
}

IsIdle-after_path :
    (now : Instant) (percent : ℕ) (a other : SocketAddr) (s : State) (found : Option ProbePath)
    → IsIdle a s
    → IsIdle a (ack_path now percent other s found).1
IsIdle-after_path now percent a other s none i = i
IsIdle-after_path now percent a other s (some path) i =
    IsIdle-after_outstanding now percent a other s path path.outstanding i

IsIdle-after_token :
    (now : Instant) (percent : ℕ) (a other : SocketAddr) (s : State) (parsed : Option Bytes)
    → IsIdle a s
    → IsIdle a (token_action now percent other s parsed).1
unfolding ack_action reply_action
IsIdle-after_token now percent a other s none i = i
IsIdle-after_token now percent a other s (some token) i =
    let swept : State = record s { reply_sources = recent now s.reply_sources } in
    let i' : IsIdle a swept = record { path = i.path; found = i.found; idle = i.idle } in
    if-elim (λ (r : PacketAction × State). IsIdle a r.1) (token_eq token s.local_token) _ _
      (record { path = i.path; found = ground (arith, i.found); idle = i.idle })
      (if-elim (λ (r : PacketAction × State). IsIdle a r.1) (remote_eq s.remote_token (some token))
        _ _ (IsIdle-after_path now percent a other swept (get s.paths other) i') i')

IsIdle-after_ack_outstanding :
    (now : Instant) (percent : ℕ) (a : SocketAddr) (s : State) (path : ProbePath)
    (o : Option Instant)
    → (ack_outstanding now percent a s path o).0 ≡ PacketAction.acknowledged
    → IsIdle a (ack_outstanding now percent a s path o).1
IsIdle-after_ack_outstanding now percent a s path none h = absurd cc
IsIdle-after_ack_outstanding now percent a s path (some sent) h = record {
  path = acknowledge now percent path;
  found =
      ground
        (arith, get-insert a a (acknowledge now percent path) s.paths, socket_addr_eq.beq_iff a a);
  idle = refl;
}

IsIdle-after_ack_path :
    (now : Instant) (percent : ℕ) (a : SocketAddr) (s : State) (found : Option ProbePath)
    → (ack_path now percent a s found).0 ≡ PacketAction.acknowledged
    → IsIdle a (ack_path now percent a s found).1
IsIdle-after_ack_path now percent a s none h = absurd cc
IsIdle-after_ack_path now percent a s (some path) h =
    IsIdle-after_ack_outstanding now percent a s path path.outstanding h

IsIdle-after_ack :
    (now : Instant) (percent : ℕ) (a : SocketAddr) (s : State) (parsed : Option Bytes)
    → (token_action now percent a s parsed).0 ≡ PacketAction.acknowledged
    → IsIdle a (token_action now percent a s parsed).1
unfolding ack_action
IsIdle-after_ack now percent a s none h = absurd cc
IsIdle-after_ack now percent a s (some token) h =
    let swept : State = record s { reply_sources = recent now s.reply_sources } in
    let P : PacketAction × State → Type 0 = λ r. r.0 ≡ PacketAction.acknowledged → IsIdle a r.1 in
    if-elim P (token_eq token s.local_token) _ _
      (λ e. absurd (reply_action-acknowledged now a swept e))
      (if-elim P (remote_eq s.remote_token (some token)) _ _
        (IsIdle-after_ack_path now percent a swept (get s.paths a)) (λ e. absurd cc))
      h

-- The events are packets, of any content and source.
abbrev pub ArePackets : List Event → Type 0
ArePackets [] = Unit
ArePackets (Event.packet now percent bytes source ∷ events) = ArePackets events
ArePackets (Event.update now token candidates ∷ events) = ⊥
ArePackets (Event.tick now percent ∷ events) = ⊥

IsIdle-after_run :
    (a : SocketAddr) (events : List Event) (s : State)
    → ArePackets events
    → IsIdle a s
    → IsIdle a (run events s)
unfolding apply packet_action
IsIdle-after_run a [] s h i = i
IsIdle-after_run a (Event.packet now percent bytes source ∷ events) s h i =
    IsIdle-after_run a events _ h (IsIdle-after_token now percent a source s (parse_frame bytes) i)
IsIdle-after_run a (Event.update now token candidates ∷ events) s h i = absurd h
IsIdle-after_run a (Event.tick now percent ∷ events) s h i = absurd h

-- After an acknowledgement from an address, no packet from it is one, whatever packets arrive between
-- the two, until the scheduler has run or a record is taken.
pub acknowledged_once :
    (s : State) (now now' : Instant) (percent percent' : ℕ) (packet packet' : Bytes)
    (source : SocketAddr) (events : List Event)
    → (packet_action now percent packet source s).0 ≡ PacketAction.acknowledged
    → ArePackets events
    → (packet_action now' percent' packet' source
        (run events (packet_action now percent packet source s).1)).0
      ≢ PacketAction.acknowledged
unfolding packet_action
acknowledged_once s now now' percent percent' packet packet' source events first h second =
    let s' = run events (packet_action now percent packet source s).1 in
    let i =
      IsIdle-after_run source events _ h
        (IsIdle-after_ack now percent source s (parse_frame packet) first) in
    let acked = (packet_action-acknowledged now' percent' packet' source s').0 second in
    ground (arith, i.found, i.idle, acked.found, acked.waiting)
