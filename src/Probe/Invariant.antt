-- ===== src/Probe/Invariant.antt =====
-- What holds of the state of src/probe.rs at all times.
use p2p_tunnler.Prelude.{
  ℕ, suc, ◌-◌, ◌≤◌, ◌≡◌, refl, ap, ◌∙◌, Option, none, some, List, [], ◌∷◌, ltb, arith,
  if◌then◌else◌, length, if-elim,
}
use p2p_tunnler.Net.{Bytes, SocketAddr, socket_addr_eq}
use p2p_tunnler.Collections.Sets.{length-retain-le}
use p2p_tunnler.Collections.Maps.{
  get, contains_key, IsUnique, IsUnique-retain, IsUnique-insert, length-insert,
  get-some-contains_key,
}
use p2p_tunnler.Probe.Types.{
  Instant, ProbePath, State, PacketAction, max_probe_paths, max_reply_sources, reply_interval, new,
}
use p2p_tunnler.Probe.Frame.{parse_frame}
use p2p_tunnler.Probe.Controller.{
  update_remote, packet_action, token_action, reply_action, ack_action, ack_path, ack_outstanding,
  token_eq, acknowledge, recent, remote_eq,
}
use p2p_tunnler.Probe.Schedule.{due_paths, frames_for, due_frames}
use p2p_tunnler.Probe.Update.{IsUnique-update_paths, length-update_paths}
use p2p_tunnler.Probe.Events.{Event, apply, run}

-- Unique keys in both maps, each within its limit, and no path without a remote token.
pub record IsValid (s : State) : Type 0 where
  pub unique_paths : IsUnique s.paths
  pub bounded_paths : length s.paths ≤ max_probe_paths
  pub unique_sources : IsUnique s.reply_sources
  pub bounded_sources : length s.reply_sources ≤ max_reply_sources
  pub disabled : s.remote_token ≡ none → s.paths ≡ []

update_remote-IsValid :
    (now : Instant) (token : Option Bytes) (candidates : List SocketAddr) (s : State)
    → IsValid s
    → IsValid (update_remote now token candidates s)
unfolding update_remote
update_remote-IsValid now none candidates s v = record {
  unique_paths = tt;
  bounded_paths = omega arith;
  unique_sources = v.unique_sources;
  bounded_sources = v.bounded_sources;
  disabled = λ h. refl;
}
update_remote-IsValid now (some token) candidates s v =
    let before : List (SocketAddr × ProbePath) =
      if remote_eq s.remote_token (some token) then s.paths else [] in
    let unique : IsUnique before = ground (arith, v.unique_paths) in
    record {
      unique_paths = IsUnique-update_paths now candidates before unique;
      bounded_paths = length-update_paths now candidates before unique;
      unique_sources = v.unique_sources;
      bounded_sources = v.bounded_sources;
      disabled = λ h. cc;
    }

-- The map of sources after a sweep and an insertion that the guard lets through.
reply_action-IsValid :
    (now : Instant) (source : SocketAddr) (s : State)
    → IsValid s
    → IsValid (reply_action now source s).1
unfolding reply_action
reply_action-IsValid now source s v =
    let unique = IsUnique-insert source now s.reply_sources v.unique_sources in
    let long = length-insert source now s.reply_sources in ground (arith, v)

ack_outstanding-IsValid :
    (now : Instant) (percent : ℕ) (source : SocketAddr) (s : State) (path : ProbePath)
    (o : Option Instant)
    → get s.paths source ≡ some path
    → IsValid s
    → IsValid (ack_outstanding now percent source s path o).1
ack_outstanding-IsValid now percent source s path none h v = v
ack_outstanding-IsValid now percent source s path (some sent) h v =
    let found = get-some-contains_key s.paths source path h in
    let next = acknowledge now percent path in
    let long = length-insert source next s.paths in
    record {
      unique_paths = IsUnique-insert source next s.paths v.unique_paths;
      bounded_paths = ground (arith, v.bounded_paths);
      unique_sources = v.unique_sources;
      bounded_sources = v.bounded_sources;
      disabled = λ e. absurd (ground (arith, v.disabled e));
    }

ack_path-IsValid :
    (now : Instant) (percent : ℕ) (source : SocketAddr) (s : State) (found : Option ProbePath)
    → get s.paths source ≡ found
    → IsValid s
    → IsValid (ack_path now percent source s found).1
ack_path-IsValid now percent source s none h v = v
ack_path-IsValid now percent source s (some path) h v =
    ack_outstanding-IsValid now percent source s path path.outstanding h v

ack_action-IsValid :
    (now : Instant) (percent : ℕ) (token : Bytes) (source : SocketAddr) (s : State)
    → IsValid s
    → IsValid (ack_action now percent token source s).1
unfolding ack_action
ack_action-IsValid now percent token source s v =
    if-elim (λ (r : PacketAction × State). IsValid r.1) (remote_eq s.remote_token (some token)) _ _
      (ack_path-IsValid now percent source s (get s.paths source) refl v) v

recent-IsValid :
    (now : Instant) (s : State)
    → IsValid s
    → IsValid (record s { reply_sources = recent now s.reply_sources })
recent-IsValid now s v = record {
  unique_paths = v.unique_paths;
  bounded_paths = v.bounded_paths;
  unique_sources =
      IsUnique-retain (λ (source, last). ltb (now - last) reply_interval) s.reply_sources
        v.unique_sources;
  bounded_sources = ground (
    arith,
    v.bounded_sources,
    length-retain-le (λ (source, last). ltb (now - last) reply_interval) s.reply_sources,
  );
  disabled = v.disabled;
}

token_action-IsValid :
    (now : Instant) (percent : ℕ) (source : SocketAddr) (s : State) (token : Option Bytes)
    → IsValid s
    → IsValid (token_action now percent source s token).1
token_action-IsValid now percent source s none v = v
token_action-IsValid now percent source s (some token) v =
    if-elim (λ (r : PacketAction × State). IsValid r.1) (token_eq token s.local_token) _ _
      (reply_action-IsValid now source _ (recent-IsValid now s v))
      (ack_action-IsValid now percent token source _ (recent-IsValid now s v))

packet_action-IsValid :
    (now : Instant) (percent : ℕ) (packet : Bytes) (source : SocketAddr) (s : State)
    → IsValid s
    → IsValid (packet_action now percent packet source s).1
unfolding packet_action
packet_action-IsValid now percent packet source s v =
    token_action-IsValid now percent source s (parse_frame packet) v

pub contains_key-due_paths :
    (now : Instant) (percent : SocketAddr → ℕ) (m : List (SocketAddr × ProbePath)) (a : SocketAddr)
    → contains_key (due_paths now percent m).0 a ≡ contains_key m a
unfolding due_paths
contains_key-due_paths now percent [] a = refl
contains_key-due_paths now percent ((k, p) ∷ m) a =
    ground (arith, contains_key-due_paths now percent m a)

IsUnique-due_paths :
    (now : Instant) (percent : SocketAddr → ℕ) (m : List (SocketAddr × ProbePath))
    → IsUnique m
    → IsUnique (due_paths now percent m).0
unfolding due_paths
IsUnique-due_paths now percent [] h = tt
IsUnique-due_paths now percent ((k, p) ∷ m) h =
    (contains_key-due_paths now percent m k ∙ h.0, IsUnique-due_paths now percent m h.1)

length-due_paths :
    (now : Instant) (percent : SocketAddr → ℕ) (m : List (SocketAddr × ProbePath))
    → length (due_paths now percent m).0 ≡ length m
unfolding due_paths
length-due_paths now percent [] = refl
length-due_paths now percent ((k, p) ∷ m) = ap suc (length-due_paths now percent m)

frames_for-IsValid :
    (now : Instant) (percent : SocketAddr → ℕ) (s : State) (token : Option Bytes)
    → s.remote_token ≡ token
    → IsValid s
    → IsValid (frames_for now percent s token).1
frames_for-IsValid now percent s none h v = v
frames_for-IsValid now percent s (some token) h v = record {
  unique_paths = IsUnique-due_paths now percent s.paths v.unique_paths;
  bounded_paths = ground (arith, length-due_paths now percent s.paths, v.bounded_paths);
  unique_sources = v.unique_sources;
  bounded_sources = v.bounded_sources;
  disabled = λ e. absurd (cc (h, e));
}

due_frames-IsValid :
    (now : Instant) (percent : SocketAddr → ℕ) (s : State)
    → IsValid s
    → IsValid (due_frames now percent s).1
unfolding due_frames
due_frames-IsValid now percent s v = frames_for-IsValid now percent s s.remote_token refl v

pub apply-IsValid : (event : Event) (s : State) → IsValid s → IsValid (apply event s)
unfolding apply
apply-IsValid (Event.update now token candidates) s v =
    update_remote-IsValid now token candidates s v
apply-IsValid (Event.packet now percent packet source) s v =
    packet_action-IsValid now percent packet source s v
apply-IsValid (Event.tick now percent) s v = due_frames-IsValid now percent s v

pub run-IsValid : (events : List Event) (s : State) → IsValid s → IsValid (run events s)
run-IsValid [] s v = v
run-IsValid (event ∷ events) s v = run-IsValid events (apply event s) (apply-IsValid event s v)

-- Whatever the peer's records, the received packets, the clock and the jitter are, from the start on no
-- address has two paths or two reply entries, there are at most 64 paths and at most 256 reply entries,
-- and without a remote token there is no path.
pub run-new-IsValid :
    (local_token : Bytes) (events : List Event) → IsValid (run events (new local_token))
run-new-IsValid local_token events = run-IsValid events (new local_token) record {
  unique_paths = tt;
  bounded_paths = omega arith;
  unique_sources = tt;
  bounded_sources = omega arith;
  disabled = λ h. refl;
}
