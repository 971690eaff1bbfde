-- ===== src/Probe/Replies.antt =====
-- The rate limit on echoes in src/probe.rs over histories.
use p2p_tunnler.Prelude.{
  ℕ, ◌+◌, ◌-◌, ◌≤◌, ◌≡◌, ◌⊎◌, refl, not, ◌&&◌, Option, none, some, List, [], ◌∷◌, ltb, leb, arith,
  if◌then◌else◌, length, inl, inr, if-elim, dec_le,
}
use p2p_tunnler.Net.{Bytes, SocketAddr, socket_addr_eq, bytes_eq}
use p2p_tunnler.Collections.Maps.{get, contains_key, get-insert, get-retain-some}
use p2p_tunnler.Probe.Types.{
  Instant, ProbePath, State, PacketAction, max_reply_sources, reply_interval,
}
use p2p_tunnler.Probe.Frame.{parse_frame}
use p2p_tunnler.Probe.Controller.{
  update_remote, packet_action, token_action, reply_action, ack_action, ack_path, recent, remote_eq,
  token_eq,
}
use p2p_tunnler.Probe.Schedule.{due_frames, frames_for}
use p2p_tunnler.Probe.Events.{Event, at, apply, run, IsOrdered}
use p2p_tunnler.Probe.Invariant.{IsValid, apply-IsValid, run-IsValid}
use p2p_tunnler.Probe.Packets.{packet_action-echo, ack_path-echo}

-- At `now`, the interval since `start` is over or the source has an entry from then or later.
record IsHeld (start now : Instant) (source : SocketAddr) (s : State) : Type 0 where
  held :
      (start + reply_interval ≤ now)
      ⊎ ((last : Instant) × (get s.reply_sources source ≡ some last) × (start ≤ last))

later :
    (start now now' : Instant) (source : SocketAddr) (s : State)
    → now ≤ now'
    → IsHeld start now source s
    → IsHeld start now' source s
later start now now' source s h i = record {
  held = elim i.held [ inl e ↦ inl (omega arith) | inr r ↦ inr r ];
}

IsHeld-recent :
    (start now : Instant) (source : SocketAddr) (s : State)
    → IsHeld start now source s
    → IsHeld start now source (record s { reply_sources = recent now s.reply_sources })
IsHeld-recent start now source s i = elim i.held [
  | inl e ↦ record { held = inl e }
  | inr (last, found, h) ↦ elim (dec_le (start + reply_interval) now) [
    | yes e ↦ record { held = inl e }
    | no e ↦ record {
      held = inr (
        last,
        get-retain-some (λ (source, last). ltb (now - last) reply_interval) s.reply_sources source
            last found (ground arith),
        h,
      );
    }
  ]
]

IsHeld-reply_action :
    (start now : Instant) (source other : SocketAddr) (s : State)
    → start ≤ now
    → IsHeld start now source s
    → IsHeld start now source (reply_action now other s).1
unfolding reply_action
IsHeld-reply_action start now source other s h i =
    if-elim (λ (r : PacketAction × State). IsHeld start now source r.1)
      (leb max_reply_sources (length s.reply_sources) && not (contains_key s.reply_sources other)) _
      _ i
      (elim i.held [
        | inl e ↦ record { held = inl e }
        | inr (last, found, h') ↦ record {
          held = inr (
            (if socket_addr_eq.beq other source then now else last),
            ground (arith, get-insert other source now s.reply_sources),
            ground arith,
          );
        }
      ])

ack_path-sources :
    (now : Instant) (percent : ℕ) (source : SocketAddr) (s : State) (found : Option ProbePath)
    → (ack_path now percent source s found).1.reply_sources ≡ s.reply_sources
ack_path-sources now percent source s none = refl
ack_path-sources now percent source s (some path) = ground arith

IsHeld-packet :
    (start now : Instant) (percent : ℕ) (source other : SocketAddr) (s : State)
    (parsed : Option Bytes)
    → start ≤ now
    → IsHeld start now source s
    → IsHeld start now source (token_action now percent other s parsed).1
unfolding ack_action
IsHeld-packet start now percent source other s none h i = i
IsHeld-packet start now percent source other s (some token) h i =
    let swept : State = record s { reply_sources = recent now s.reply_sources } in
    let j : IsHeld start now source swept = IsHeld-recent start now source s i in
    if-elim (λ (r : PacketAction × State). IsHeld start now source r.1)
      (token_eq token s.local_token) _ _ (IsHeld-reply_action start now source other swept h j)
      (if-elim (λ (r : PacketAction × State). IsHeld start now source r.1)
        (remote_eq s.remote_token (some token)) _ _
        (record { held = rw (ack_path-sources now percent other swept (get s.paths other)) j.held })
        j)

update_remote-sources :
    (now : Instant) (token : Option Bytes) (candidates : List SocketAddr) (s : State)
    → (update_remote now token candidates s).reply_sources ≡ s.reply_sources
unfolding update_remote
update_remote-sources now none candidates s = refl
update_remote-sources now (some token) candidates s = refl

frames_for-sources :
    (now : Instant) (percent : SocketAddr → ℕ) (s : State) (token : Option Bytes)
    → (frames_for now percent s token).1.reply_sources ≡ s.reply_sources
frames_for-sources now percent s none = refl
frames_for-sources now percent s (some token) = refl

IsHeld-apply :
    (start : Instant) (source : SocketAddr) (event : Event) (s : State)
    → start ≤ at event
    → IsHeld start (at event) source s
    → IsHeld start (at event) source (apply event s)
unfolding apply packet_action due_frames
IsHeld-apply start source (Event.update now token candidates) s h i = record {
  held = rw (update_remote-sources now token candidates s) i.held;
}
IsHeld-apply start source (Event.packet now percent packet other) s h i =
    IsHeld-packet start now percent source other s (parse_frame packet) h i
IsHeld-apply start source (Event.tick now percent) s h i = record {
  held = rw (frames_for-sources now percent s s.remote_token) i.held;
}

IsHeld-run :
    (start now end : Instant) (source : SocketAddr) (events : List Event) (s : State)
    → start ≤ now
    → IsOrdered now events end
    → IsHeld start now source s
    → IsHeld start end source (run events s)
IsHeld-run start now end source [] s h o i = later start now end source s o i
IsHeld-run start now end source (event ∷ events) s h o i =
    IsHeld-run start (at event) end source events (apply event s) (omega (arith, h, o.0)) o.1 (
      IsHeld-apply start source event s (omega (arith, h, o.0))
        (later start now (at event) source s o.0 i))

get-reply_action :
    (now : Instant) (source : SocketAddr) (s : State)
    → (reply_action now source s).0 ≡ PacketAction.echo_and_admit
    → get (reply_action now source s).1.reply_sources source ≡ some now
unfolding reply_action
get-reply_action now source s h =
    ground
      (arith, get-insert source source now s.reply_sources, socket_addr_eq.beq_iff source source)

get-token_action :
    (now : Instant) (percent : ℕ) (source : SocketAddr) (s : State) (parsed : Option Bytes)
    → (token_action now percent source s parsed).0 ≡ PacketAction.echo_and_admit
    → get (token_action now percent source s parsed).1.reply_sources source ≡ some now
unfolding ack_action
get-token_action now percent source s none h = cc
get-token_action now percent source s (some token) h =
    let swept : State = record s { reply_sources = recent now s.reply_sources } in
    ground (
      arith,
      get-reply_action now source swept,
      ack_path-echo now percent source swept (get s.paths source),
    )

-- Two probes from one address are not both echoed within a second, whatever else the prober does
-- between them: records with the same or another token, packets of any kind, rounds of the scheduler.
pub echo_interval :
    (s : State) (start end : Instant) (percent percent' : ℕ) (packet packet' : Bytes)
    (source : SocketAddr) (events : List Event)
    → IsValid s
    → (packet_action start percent packet source s).0 ≡ PacketAction.echo_and_admit
    → IsOrdered start events end
    → (packet_action end percent' packet' source
        (run events (packet_action start percent packet source s).1)).0
      ≡ PacketAction.echo_and_admit
    → start + reply_interval ≤ end
unfolding packet_action apply
echo_interval s start end percent percent' packet packet' source events v first o second =
    let s' = (packet_action start percent packet source s).1 in
    let v' = run-IsValid events s' (apply-IsValid (Event.packet start percent packet source) s v) in
    let held : IsHeld start start source s' = record {
      held =
          inr (
            start,
            get-token_action start percent source s (parse_frame packet) first,
            omega arith,
          );
    } in
    let (parsed, stale, room) =
      (packet_action-echo end percent' packet' source (run events s') v'.unique_sources).0 second in
    elim (IsHeld-run start start end source events s' (omega arith) o held).held [
      | inl e ↦ e
      | inr (last, found, h) ↦ ground (arith, stale, found)
    ]
