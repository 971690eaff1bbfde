-- ===== src/Probe/Exchange.antt =====
-- A probe of one controller of src/probe.rs, its echo by another, and the acknowledgement.
use p2p_tunnler.Prelude.{
  ℕ, ◌<◌, ◌≡◌, ◌≢◌, refl, sym, subst, ◌∙◌, true, false, Option, none, some, List, length, map,
  arith,
}
use p2p_tunnler.Net.{Bytes, SocketAddr, socket_addr_eq, bytes_eq}
use p2p_tunnler.Collections.Sets.{contains}
use p2p_tunnler.Collections.Maps.{get, IsUnique}
use p2p_tunnler.Probe.Types.{Instant, ProbePath, State, PacketAction, max_reply_sources}
use p2p_tunnler.Probe.Frame.{frame, parse_frame, parse_frame_iff}
use p2p_tunnler.Probe.Controller.{packet_action, recent, is_recent}
use p2p_tunnler.Probe.Schedule.{due_frames, frames_for, due_path}
use p2p_tunnler.Probe.Packets.{packet_action-acknowledged, packet_action-echo}
use p2p_tunnler.Probe.Paths.{is_due, due_frames-exact, due_path-sends, get-due_paths}

-- A probe that goes out is outstanding.
due_outstanding :
    (now : Instant) (percent : ℕ) (p : ProbePath)
    → is_due now (some p) ≡ true
    → (due_path now percent p).0.outstanding ≡ some now
unfolding due_path
due_outstanding now percent p h = ground (arith, due_path-sends now percent p)

-- The path of an address that was due, after the round.
record IsWaiting (now : Instant) (a : SocketAddr) (s : State) : Type 0 where
  path : ProbePath
  found : get s.paths a ≡ some path
  waiting : path.outstanding ≡ some now

waits_after :
    (now : Instant) (percent : SocketAddr → ℕ) (a : SocketAddr) (s : State) (token : Bytes)
    (found : Option ProbePath)
    → get s.paths a ≡ found
    → is_due now found ≡ true
    → IsWaiting now a (frames_for now percent s (some token)).1
waits_after now percent a s token none e due = absurd (ground arith)
waits_after now percent a s token (some p) e due = record {
  path = (due_path now (percent a) p).0;
  found = rw (get-due_paths now percent s.paths a, e) refl;
  waiting = due_outstanding now (percent a) p due;
}

-- If this side has the peer's token, which is not its own, and the peer's address is due, then a round
-- sends the frame of the token there; the peer echoes it, unless it has entered this address within a
-- second or has no room; and this side takes the echo from that address for the acknowledgement.
pub probe_is_acknowledged :
    (us them : State) (sent_at echoed_at acked_at : Instant) (percent : SocketAddr → ℕ) (p p' : ℕ)
    (our_address their_address : SocketAddr)
    → us.remote_token ≡ some them.local_token
    → them.local_token ≢ us.local_token
    → length them.local_token ≡ 16
    → IsUnique us.paths
    → IsUnique them.reply_sources
    → is_due sent_at (get us.paths their_address) ≡ true
    → is_recent echoed_at (get them.reply_sources our_address) ≡ false
    → length (recent echoed_at them.reply_sources) < max_reply_sources
    → let (sent, us') = due_frames sent_at percent us in
      let probe = frame them.local_token in
      ((destinations : List SocketAddr) × (sent ≡ map (λ address. (probe, address)) destinations)
        × (contains destinations their_address ≡ true))
      × ((packet_action echoed_at p probe our_address them).0 ≡ PacketAction.echo_and_admit)
      × ((packet_action acked_at p' probe their_address us').0 ≡ PacketAction.acknowledged)
unfolding due_frames
probe_is_acknowledged us them sent_at echoed_at acked_at percent p p' our_address their_address
      known foreign full unique unique' due fresh room =
    let (destinations, sent, once, exact) =
      due_frames-exact sent_at percent us them.local_token known unique in
    let parsed : parse_frame (frame them.local_token) ≡ some them.local_token =
      (parse_frame_iff (frame them.local_token) them.local_token).1 (refl, full) in
    let us' : State = (frames_for sent_at percent us us.remote_token).1 in
    let waiting : IsWaiting sent_at their_address us' =
      subst (λ t. IsWaiting sent_at their_address (frames_for sent_at percent us t).1) (sym known)
        (waits_after sent_at percent their_address us them.local_token (get us.paths their_address)
          refl due) in
    let kept : us'.remote_token ≡ some them.local_token =
      subst (λ t. (frames_for sent_at percent us t).1.remote_token ≡ some them.local_token)
        (sym known) known in
    let own : us'.local_token ≡ us.local_token =
      subst (λ t. (frames_for sent_at percent us t).1.local_token ≡ us.local_token) (sym known)
        refl in
    (
      (destinations, sent, exact their_address ∙ due),
      (packet_action-echo echoed_at p (frame them.local_token) our_address them unique').1
          (parsed, fresh, room),
      (packet_action-acknowledged acked_at p' (frame them.local_token) their_address us').1
          (record {
            token = them.local_token;
            parsed = parsed;
            foreign = λ e. foreign (e ∙ own);
            remote = kept;
            path = waiting.path;
            found = waiting.found;
            sent = sent_at;
            waiting = waiting.waiting;
          }),
    )
