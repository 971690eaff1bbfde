-- ===== src/Probe/Packets.antt =====
-- When `packet_action` of src/probe.rs echoes and when it acknowledges.
use p2p_tunnler.Prelude.{
  ℕ, ◌<◌, ◌≡◌, ◌≢◌, ◌↔◌, ◌⊎◌, refl, true, false, Option, none, some, List, [], ◌∷◌, arith,
  if◌then◌else◌, length, Option-cases, inl, inr,
}
use p2p_tunnler.Net.{Bytes, SocketAddr, socket_addr_eq, bytes_eq}
use p2p_tunnler.Collections.Maps.{
  get, contains_key, IsUnique, contains_key-get, get_none-contains_key,
}
use p2p_tunnler.Probe.Types.{Instant, ProbePath, State, PacketAction, max_reply_sources}
use p2p_tunnler.Probe.Frame.{parse_frame}
use p2p_tunnler.Probe.Controller.{
  packet_action, token_action, reply_action, ack_action, ack_path, recent, is_recent, remote_eq,
  token_eq,
}

pub remote_eq-some : (r : Option Bytes) (t : Bytes) → (remote_eq r (some t) ≡ true) ↔ (r ≡ some t)
remote_eq-some none t = (λ h. cc, λ h. cc)
remote_eq-some (some r) t = ground (arith, bytes_eq.beq_iff r t)

-- After the sweep a source is found exactly if its entry is recent.
pub get-recent :
    (now : Instant) (m : List (SocketAddr × Instant)) (source : SocketAddr)
    → IsUnique m
    → get (recent now m) source ≡ (if is_recent now (get m source) then get m source else none)
get-recent now [] source u = refl
get-recent now ((k, v) ∷ m) source u =
    ground (
      arith,
      get-recent now m source u.1,
      socket_addr_eq.beq_iff k source,
      contains_key-get m source,
    )

-- The state at which an acknowledgement is due.
pub record IsAcked (s : State) (packet : Bytes) (source : SocketAddr) : Type 0 where
  pub token : Bytes
  pub parsed : parse_frame packet ≡ some token
  pub foreign : token ≢ s.local_token
  pub remote : s.remote_token ≡ some token
  pub path : ProbePath
  pub found : get s.paths source ≡ some path
  pub sent : Instant
  pub waiting : path.outstanding ≡ some sent

pub reply_action-acknowledged :
    (now : Instant) (source : SocketAddr) (s : State)
    → (reply_action now source s).0 ≢ PacketAction.acknowledged
unfolding reply_action
reply_action-acknowledged now source s h = ground arith

ack_path-acknowledged :
    (now : Instant) (percent : ℕ) (source : SocketAddr) (s : State) (found : Option ProbePath)
    → (ack_path now percent source s found).0 ≡ PacketAction.acknowledged
    → (path : ProbePath) × (sent : Instant) × (found ≡ some path) × (path.outstanding ≡ some sent)
ack_path-acknowledged now percent source s none h = cc
ack_path-acknowledged now percent source s (some path) h = elim (Option-cases path.outstanding) [
  | inl e ↦ absurd (ground arith)
  | inr (sent, e) ↦ (path, sent, refl, e)
]

ack_path-swept :
    (now : Instant) (percent : ℕ) (source : SocketAddr) (s s' : State) (found : Option ProbePath)
    → (ack_path now percent source s found).0 ≡ (ack_path now percent source s' found).0
ack_path-swept now percent source s s' none = refl
ack_path-swept now percent source s s' (some path) = ground arith

token_action-acknowledged :
    (now : Instant) (percent : ℕ) (source : SocketAddr) (s : State) (token : Bytes)
    → ((token_action now percent source s (some token)).0 ≡ PacketAction.acknowledged) ↔ (
        (token_eq token s.local_token ≡ false)
        × (remote_eq s.remote_token (some token) ≡ true)
        × ((ack_path now percent source s (get s.paths source)).0 ≡ PacketAction.acknowledged))
unfolding ack_action
token_action-acknowledged now percent source s token =
    let swept : State = record s { reply_sources = recent now s.reply_sources } in
    ground (
      arith,
      reply_action-acknowledged now source swept,
      ack_path-swept now percent source s swept (get s.paths source),
    )

acked :
    (now : Instant) (percent : ℕ) (packet : Bytes) (source : SocketAddr) (s : State)
    (parsed : Option Bytes)
    → parse_frame packet ≡ parsed
    → (token_action now percent source s parsed).0 ≡ PacketAction.acknowledged
    → IsAcked s packet source
acked now percent packet source s none e h = cc
acked now percent packet source s (some token) e h =
    let (foreign, remote, ack) = (token_action-acknowledged now percent source s token).0 h in
    let (path, sent, found, waiting) =
      ack_path-acknowledged now percent source s (get s.paths source) ack in
    record {
      token = token;
      parsed = e;
      foreign = ground (arith, bytes_eq.beq_iff token s.local_token);
      remote = (remote_eq-some s.remote_token token).0 remote;
      path = path;
      found = found;
      sent = sent;
      waiting = waiting;
    }

acks :
    (now : Instant) (percent : ℕ) (packet : Bytes) (source : SocketAddr) (s : State)
    → IsAcked s packet source
    → (token_action now percent source s (parse_frame packet)).0 ≡ PacketAction.acknowledged
acks now percent packet source s a = rw (a.parsed) (
    (token_action-acknowledged now percent source s a.token).1 (
      ground (arith, bytes_eq.beq_iff a.token s.local_token, a.foreign),
      (remote_eq-some s.remote_token a.token).1 a.remote,
      rw (a.found, a.waiting) refl,
    ))

-- A packet is acknowledged exactly if it is a frame with a token that is not the local one but is the
-- remote one of the last record, and it comes from the address of a path on which a probe is
-- outstanding.
pub packet_action-acknowledged :
    (now : Instant) (percent : ℕ) (packet : Bytes) (source : SocketAddr) (s : State)
    → ((packet_action now percent packet source s).0 ≡ PacketAction.acknowledged)
      ↔ IsAcked s packet source
unfolding packet_action
packet_action-acknowledged now percent packet source s = (
  λ h. acked now percent packet source s (parse_frame packet) refl h,
  λ a. acks now percent packet source s a,
)

reply_action-echo :
    (now : Instant) (source : SocketAddr) (s : State)
    → ((reply_action now source s).0 ≡ PacketAction.echo_and_admit) ↔ (
        (is_recent now (get s.reply_sources source) ≡ false)
        × ((length s.reply_sources < max_reply_sources)
            ⊎ (contains_key s.reply_sources source ≡ true)))
unfolding reply_action
reply_action-echo now source s = ground arith

pub ack_path-echo :
    (now : Instant) (percent : ℕ) (source : SocketAddr) (s : State) (found : Option ProbePath)
    → (ack_path now percent source s found).0 ≢ PacketAction.echo_and_admit
ack_path-echo now percent source s none h = cc
ack_path-echo now percent source s (some path) h = ground arith

token_action-echo :
    (now : Instant) (percent : ℕ) (source : SocketAddr) (s : State) (parsed : Option Bytes)
    → IsUnique s.reply_sources
    → ((token_action now percent source s parsed).0 ≡ PacketAction.echo_and_admit) ↔ (
        (parsed ≡ some s.local_token)
        × (is_recent now (get s.reply_sources source) ≡ false)
        × (length (recent now s.reply_sources) < max_reply_sources))
unfolding ack_action
token_action-echo now percent source s none u = (λ h. cc, λ h. cc)
token_action-echo now percent source s (some token) u =
    let swept : State = record s { reply_sources = recent now s.reply_sources } in
    ground (
      arith,
      reply_action-echo now source swept,
      ack_path-echo now percent source swept (get s.paths source),
      get-recent now s.reply_sources source u,
      get_none-contains_key (recent now s.reply_sources) source,
      bytes_eq.beq_iff token s.local_token,
    )

-- If no source has two reply entries, a packet is echoed, and its source admitted, exactly if it is
-- the frame of the local token, no probe of that source was entered within the last second, and fewer
-- than 256 sources were.
pub packet_action-echo :
    (now : Instant) (percent : ℕ) (packet : Bytes) (source : SocketAddr) (s : State)
    → IsUnique s.reply_sources
    → ((packet_action now percent packet source s).0 ≡ PacketAction.echo_and_admit) ↔ (
        (parse_frame packet ≡ some s.local_token)
        × (is_recent now (get s.reply_sources source) ≡ false)
        × (length (recent now s.reply_sources) < max_reply_sources))
unfolding packet_action
packet_action-echo now percent packet source s u =
    token_action-echo now percent source s (parse_frame packet) u
