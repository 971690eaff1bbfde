-- ===== src/Probe/Spacing.antt =====
-- How far apart the probes of src/probe.rs to one address are, over histories.
use p2p_tunnler.Prelude.{
  ℕ, ◌+◌, ◌≤◌, ◌≡◌, refl, sym, ap, subst, ◌∙◌, Bool, true, ◌&&◌, Option, none, some, List, [], ◌∷◌,
  ltb, arith, if◌then◌else◌, if-elim, if-elim_with,
}
use p2p_tunnler.Net.{Bytes, SocketAddr, socket_addr_eq, bytes_eq}
use p2p_tunnler.Collections.Maps.{get, get-insert}
use p2p_tunnler.Probe.Types.{Instant, ProbePath, State, PacketAction, from_secs, jitter}
use p2p_tunnler.Probe.Frame.{parse_frame}
use p2p_tunnler.Probe.Controller.{
  packet_action, token_action, reply_action, ack_action, ack_path, ack_outstanding, acknowledge,
  recent, remote_eq, token_eq,
}
use p2p_tunnler.Probe.Schedule.{
  is_overdue, expire, fast_delay, send_on, due_path, due_frames, frames_for,
}
use p2p_tunnler.Probe.Events.{Event, at, apply, run, IsOrdered}
use p2p_tunnler.Probe.Paths.{is_due, due_path-sends, get-due_paths}

-- A path that has nothing to send before a second after `start`.
record IsQuiet (start : Instant) (p : ProbePath) : Type 0 where
  next : start + from_secs 1 ≤ p.next_probe
  sent : (t : Instant) → p.outstanding ≡ some t → start ≤ t

fast_delay-ge : (percent stage : ℕ) → 90 ≤ percent → from_secs 1 ≤ fast_delay percent stage
fast_delay-ge percent stage h =
    let five : from_secs 1 ≤ jitter percent (from_secs 5) = omega arith in ground arith

IsQuiet-send_on :
    (start now : Instant) (percent : ℕ) (p : ProbePath)
    → start ≤ now
    → 90 ≤ percent
    → IsQuiet start (send_on now percent p)
IsQuiet-send_on start now percent p h d =
    let long : from_secs 1 ≤ jitter percent (from_secs 15) = omega arith in
    let short = fast_delay-ge percent p.fast_stage d in
    if-elim (IsQuiet start) p.verified _ _
      (record { next = omega arith; sent = λ t e. ground arith })
      (record { next = omega (arith, short, h); sent = λ t e. ground arith })

IsQuiet-expire :
    (start now : Instant) (p : ProbePath)
    → IsQuiet start p
    → ltb now (expire now p).next_probe ≡ true
    → IsQuiet start (expire now p)
IsQuiet-expire start now p q =
    if-elim_with (λ (r : ProbePath). ltb now r.next_probe ≡ true → IsQuiet start r)
      (p.verified && is_overdue now p.outstanding) _ _ (λ e h. absurd (ground arith)) (λ e h. q)

IsQuiet-due_path :
    (start now : Instant) (percent : ℕ) (p : ProbePath)
    → start ≤ now
    → 90 ≤ percent
    → IsQuiet start p
    → IsQuiet start (due_path now percent p).0
unfolding due_path
IsQuiet-due_path start now percent p h d q =
    if-elim_with (λ (r : ProbePath × Bool). IsQuiet start r.0) (ltb now (expire now p).next_probe) _
      _ (IsQuiet-expire start now p q) (λ e. IsQuiet-send_on start now percent (expire now p) h d)

-- A round that sends leaves the path quiet.
IsQuiet-sent :
    (now : Instant) (percent : ℕ) (p : ProbePath)
    → 90 ≤ percent
    → is_due now (some p) ≡ true
    → IsQuiet now (due_path now percent p).0
unfolding due_path
IsQuiet-sent now percent p d due =
    let sends = due_path-sends now percent p in
    if-elim_with (λ (r : ProbePath × Bool). IsQuiet now r.0) (ltb now (expire now p).next_probe) _ _
      (λ e. absurd (ground (arith, e, due)))
      (λ e. IsQuiet-send_on now now percent (expire now p) (omega arith) d)

IsQuiet-acknowledge :
    (start now : Instant) (percent : ℕ) (p : ProbePath)
    → start ≤ now
    → 90 ≤ percent
    → IsQuiet start (acknowledge now percent p)
IsQuiet-acknowledge start now percent p h d = record { next = omega arith; sent = λ t e. absurd cc }

-- The same of the path at an address.
record IsQuietAt (start : Instant) (a : SocketAddr) (s : State) : Type 0 where
  path : ProbePath
  found : get s.paths a ≡ some path
  quiet : IsQuiet start path

quiet_after_frames :
    (start now : Instant) (percent : SocketAddr → ℕ) (a : SocketAddr) (s : State)
    (token : Option Bytes)
    → start ≤ now
    → ((b : SocketAddr) → 90 ≤ percent b)
    → IsQuietAt start a s
    → IsQuietAt start a (frames_for now percent s token).1
quiet_after_frames start now percent a s none h d q = q
quiet_after_frames start now percent a s (some token) h d q = record {
  path = (due_path now (percent a) q.path).0;
  found = rw (get-due_paths now percent s.paths a, q.found) refl;
  quiet = IsQuiet-due_path start now (percent a) q.path h (d a) q.quiet;
}

quiet_after_ack :
    (start now : Instant) (percent : ℕ) (a other : SocketAddr) (s : State) (path : ProbePath)
    (o : Option Instant)
    → start ≤ now
    → 90 ≤ percent
    → IsQuietAt start a s
    → IsQuietAt start a (ack_outstanding now percent other s path o).1
quiet_after_ack start now percent a other s path none h d q = q
quiet_after_ack start now percent a other s path (some sent) h d q = record {
  path = if socket_addr_eq.beq other a then acknowledge now percent path else q.path;
  found = ground (arith, get-insert other a (acknowledge now percent path) s.paths, q.found);
  quiet =
      if-elim (IsQuiet start) (socket_addr_eq.beq other a) _ _
        (IsQuiet-acknowledge start now percent path h d) q.quiet;
}

quiet_after_ack_path :
    (start now : Instant) (percent : ℕ) (a other : SocketAddr) (s : State)
    (found : Option ProbePath)
    → start ≤ now
    → 90 ≤ percent
    → IsQuietAt start a s
    → IsQuietAt start a (ack_path now percent other s found).1
quiet_after_ack_path start now percent a other s none h d q = q
quiet_after_ack_path start now percent a other s (some path) h d q =
    quiet_after_ack start now percent a other s path path.outstanding h d q

quiet_after_packet :
    (start now : Instant) (percent : ℕ) (a other : SocketAddr) (s : State) (parsed : Option Bytes)
    → start ≤ now
    → 90 ≤ percent
    → IsQuietAt start a s
    → IsQuietAt start a (token_action now percent other s parsed).1
unfolding ack_action reply_action
quiet_after_packet start now percent a other s none h d q = q
quiet_after_packet start now percent a other s (some token) h d q =
    let swept : State = record s { reply_sources = recent now s.reply_sources } in
    let q' : IsQuietAt start a swept = record { path = q.path; found = q.found; quiet = q.quiet } in
    if-elim (λ (r : PacketAction × State). IsQuietAt start a r.1) (token_eq token s.local_token) _ _
      (record { path = q.path; found = ground (arith, q.found); quiet = q.quiet })
      (if-elim (λ (r : PacketAction × State). IsQuietAt start a r.1)
        (remote_eq s.remote_token (some token)) _ _
        (quiet_after_ack_path start now percent a other swept (get s.paths other) h d q') q')

-- No record is taken, and `jitter` draws as documented.
abbrev pub IsSteady : Event → Type 0
IsSteady (Event.update now token candidates) = ⊥
IsSteady (Event.packet now percent bytes source) = 90 ≤ percent
IsSteady (Event.tick now percent) = (b : SocketAddr) → 90 ≤ percent b

abbrev pub AreSteady : List Event → Type 0
AreSteady [] = Unit
AreSteady (event ∷ events) = IsSteady event × AreSteady events

quiet_after_event :
    (start : Instant) (a : SocketAddr) (event : Event) (s : State)
    → start ≤ at event
    → IsSteady event
    → IsQuietAt start a s
    → IsQuietAt start a (apply event s)
unfolding apply packet_action due_frames
quiet_after_event start a (Event.update now token candidates) s h d q = absurd d
quiet_after_event start a (Event.packet now percent packet other) s h d q =
    quiet_after_packet start now percent a other s (parse_frame packet) h d q
quiet_after_event start a (Event.tick now percent) s h d q =
    quiet_after_frames start now percent a s s.remote_token h d q

quiet_after_run :
    (start now end : Instant) (a : SocketAddr) (events : List Event) (s : State)
    → start ≤ now
    → IsOrdered now events end
    → AreSteady events
    → IsQuietAt start a s
    → IsQuietAt start a (run events s)
quiet_after_run start now end a [] s h o d q = q
quiet_after_run start now end a (event ∷ events) s h o d q =
    quiet_after_run start (at event) end a events (apply event s) (omega (arith, h, o.0)) o.1 d.1
      (quiet_after_event start a event s (omega (arith, h, o.0)) d.0 q)

sent_at :
    (now : Instant) (percent : SocketAddr → ℕ) (a : SocketAddr) (s : State) (token : Bytes)
    (found : Option ProbePath)
    → get s.paths a ≡ found
    → ((b : SocketAddr) → 90 ≤ percent b)
    → is_due now found ≡ true
    → IsQuietAt now a (frames_for now percent s (some token)).1
sent_at now percent a s token none e d due = absurd (ground arith)
sent_at now percent a s token (some p) e d due = record {
  path = (due_path now (percent a) p).0;
  found = rw (get-due_paths now percent s.paths a, e) refl;
  quiet = IsQuiet-sent now (percent a) p (d a) due;
}

overdue_after :
    (start now : Instant) (o : Option Instant)
    → ((t : Instant) → o ≡ some t → start ≤ t)
    → is_overdue now o ≡ true
    → start + from_secs 1 ≤ now
overdue_after start now none sent h = absurd (ground arith)
overdue_after start now (some t) sent h = let late = sent t refl in ground arith

quiet_not_due :
    (start now : Instant) (p : ProbePath)
    → IsQuiet start p
    → is_due now (some p) ≡ true
    → start + from_secs 1 ≤ now
quiet_not_due start now p q h =
    let next = q.next in let late = overdue_after start now p.outstanding q.sent in ground arith

-- With a remote token, a path that is due in one round, and so is sent a probe, is not due in another
-- before a second has passed, whatever packets arrive and rounds run between the two, as long as no
-- record is taken and the jitter is no less than 90 percent.
pub probe_interval :
    (s : State) (token : Bytes) (start end : Instant) (percent : SocketAddr → ℕ) (a : SocketAddr)
    (events : List Event)
    → s.remote_token ≡ some token
    → ((b : SocketAddr) → 90 ≤ percent b)
    → is_due start (get s.paths a) ≡ true
    → IsOrdered start events end
    → AreSteady events
    → is_due end (get (run events (due_frames start percent s).1).paths a) ≡ true
    → start + from_secs 1 ≤ end
unfolding due_frames
probe_interval s token start end percent a events e d due o steady again =
    let sent : IsQuietAt start a (frames_for start percent s s.remote_token).1 =
      subst (λ t. IsQuietAt start a (frames_for start percent s t).1) (sym e)
        (sent_at start percent a s token (get s.paths a) refl d due) in
    let later = quiet_after_run start start end a events _ (omega arith) o steady sent in
    quiet_not_due start end later.path later.quiet (ap (is_due end) (sym later.found) ∙ again)
