-- ===== src/Probe/Track.antt =====
-- The prober of src/probe.rs as it looks from one address: the remote token and the path there, without
-- the map of all paths.
use p2p_tunnler.Prelude.{
  ℕ, ◌≤◌, ◌≡◌, refl, ap, ◌∙◌, not, ◌&&◌, Option, none, some, List, [], ◌∷◌, if◌then◌else◌, length,
  arith,
}
use p2p_tunnler.Net.{Bytes, SocketAddr, socket_addr_eq, socket_addr_beq, socket_addr_beq_iff}
use p2p_tunnler.Collections.Sets.{contains}
use p2p_tunnler.Collections.Maps.{get, get-insert}
use p2p_tunnler.Probe.Types.{Instant, ProbePath, State, max_probe_paths}
use p2p_tunnler.Probe.Frame.{parse_frame}
use p2p_tunnler.Probe.Controller.{
  token_eq, remote_eq, update_remote, packet_action, token_action, reply_action, ack_action,
  ack_path, ack_outstanding, acknowledge, recent, new_path,
}
use p2p_tunnler.Probe.Schedule.{due_frames, frames_for}
use p2p_tunnler.Probe.Paths.{due_found, get-due_paths}
use p2p_tunnler.Probe.Update.{update_remote-paths}
use p2p_tunnler.Probe.Events.{Event, apply, run}
use p2p_tunnler.Probe.Admission.{local-token_action}

pub record Track : Type 0 where
  pub remote : Option Bytes
  pub path : Option ProbePath

abbrev pub track_of : SocketAddr → State → Track
track_of a s = record { remote = s.remote_token; path = get s.paths a }

abbrev pub or_new : Instant → Option ProbePath → ProbePath
or_new now none = new_path now
or_new now (some path) = path

-- A record: a listed path is kept under the same token and new under another, and any other goes.
abbrev pub retrack : SocketAddr → Instant → Option Bytes → List SocketAddr → Track → Track
retrack a now none candidates t = record { remote = none; path = none }
retrack a now (some token) candidates t = record {
  remote = some token;
  path =
      if contains candidates a
      then some (or_new now (if remote_eq t.remote (some token) then t.path else none))
      else none;
}

abbrev acked_when : Instant → ℕ → ProbePath → Option Instant → ProbePath
acked_when now percent path none = path
acked_when now percent path (some sent) = acknowledge now percent path

abbrev acked : Instant → ℕ → Option ProbePath → Option ProbePath
acked now percent none = none
acked now percent (some path) = some (acked_when now percent path path.outstanding)

-- A packet: the remote token from this address acknowledges what is outstanding.
pub heard : Bytes → SocketAddr → Instant → ℕ → SocketAddr → Option Bytes → Track → Track
heard local a now percent source none t = t
heard local a now percent source (some token) t =
    if not (token_eq token local) && remote_eq t.remote (some token) && socket_addr_beq source a
    then record t { path = acked now percent t.path }
    else t

abbrev due_when : Instant → ℕ → Option Bytes → Option ProbePath → Option ProbePath
due_when now percent none path = path
due_when now percent (some token) path = due_found now percent path

-- One event, seen from the address.
pub follow : Bytes → SocketAddr → Event → Track → Track
follow local a (Event.update now token candidates) t = retrack a now token candidates t
follow local a (Event.packet now percent bytes source) t =
    heard local a now percent source (parse_frame bytes) t
follow local a (Event.tick now percent) t = record t {
  path = due_when now (percent a) t.remote t.path;
}

pub follow_all : Bytes → SocketAddr → List Event → Track → Track
follow_all local a [] t = t
follow_all local a (event ∷ events) t = follow_all local a events (follow local a event t)

-- Each record lists no more addresses than there can be paths, as the listener sees to.
abbrev pub AreShort : List Event → Type 0
AreShort [] = Unit
AreShort (Event.update now token candidates ∷ events) =
    (length candidates ≤ max_probe_paths) × AreShort events
AreShort (event ∷ events) = AreShort events

retracked :
    (a : SocketAddr) (now : Instant) (token : Option Bytes) (candidates : List SocketAddr)
    (s : State)
    → length candidates ≤ max_probe_paths
    → track_of a (update_remote now token candidates s)
      ≡ retrack a now token candidates (track_of a s)
unfolding update_remote
retracked a now none candidates s short = refl
retracked a now (some token) candidates s short =
    ap (λ path. record { remote = some token; path = path })
      (update_remote-paths now token candidates s a short
        ∙ ap (λ p. if contains candidates a then some p else none)
            (kept (if remote_eq s.remote_token (some token) then get s.paths a else none)))
  where
    kept : (o : Option ProbePath) → elim o [ none ↦ new_path now | some p ↦ p ] ≡ or_new now o
    kept none = refl
    kept (some p) = refl

ack_found :
    (a : SocketAddr) (now : Instant) (percent : ℕ) (source : SocketAddr) (s : State)
    → track_of a (ack_path now percent source s (get s.paths source)).1 ≡ (
        if socket_addr_beq source a
        then record { remote = s.remote_token; path = acked now percent (get s.paths a) }
        else track_of a s)
ack_found a now percent source s = found (get s.paths source) refl
  where
    Goal : Option ProbePath → Type 0
    Goal o = track_of a (ack_path now percent source s o).1 ≡ (
        if socket_addr_beq source a
        then record { remote = s.remote_token; path = acked now percent (get s.paths a) }
        else track_of a s)

    sent :
        (path : ProbePath) (o : Option Instant)
        → get s.paths source ≡ some path
        → path.outstanding ≡ o
        → track_of a (ack_outstanding now percent source s path o).1 ≡ (
            if socket_addr_beq source a
            then record { remote = s.remote_token; path = acked now percent (get s.paths a) }
            else track_of a s)
    sent path none e e' = ground (arith, e, e', socket_addr_beq_iff source a)
    sent path (some at) e e' = ground (
      arith,
      e,
      e',
      get-insert source a (acknowledge now percent path) s.paths,
      socket_addr_beq_iff source a,
    )

    found : (o : Option ProbePath) → get s.paths source ≡ o → Goal o
    found none e = ground (arith, e, socket_addr_beq_iff source a)
    found (some path) e = sent path path.outstanding e refl

heard-packet :
    (a : SocketAddr) (now : Instant) (percent : ℕ) (source : SocketAddr) (parsed : Option Bytes)
    (s : State)
    → track_of a (token_action now percent source s parsed).1
      ≡ heard s.local_token a now percent source parsed (track_of a s)
unfolding ack_action reply_action heard
heard-packet a now percent source none s = refl
heard-packet a now percent source (some token) s =
    let swept : State = record s { reply_sources = recent now s.reply_sources } in
    ground (arith, ack_found a now percent source swept)

local-apply : (event : Event) (s : State) → (apply event s).local_token ≡ s.local_token
unfolding apply update_remote due_frames packet_action
local-apply (Event.update now none candidates) s = refl
local-apply (Event.update now (some token) candidates) s = refl
local-apply (Event.packet now percent bytes source) s =
    local-token_action now percent source s (parse_frame bytes)
local-apply (Event.tick now percent) s = ticked s.remote_token
  where
    ticked : (o : Option Bytes) → (frames_for now percent s o).1.local_token ≡ s.local_token
    ticked none = refl
    ticked (some token) = refl

ticked :
    (a : SocketAddr) (now : Instant) (percent : SocketAddr → ℕ) (s : State)
    → track_of a (due_frames now percent s).1 ≡ record {
      remote = s.remote_token;
      path = due_when now (percent a) s.remote_token (get s.paths a);
    }
unfolding due_frames
ticked a now percent s = go s.remote_token
  where
    go :
        (o : Option Bytes)
        → track_of a (frames_for now percent s o).1
          ≡ record { remote = s.remote_token; path = due_when now (percent a) o (get s.paths a) }
    go none = refl
    go (some token) =
        ap (λ path. record { remote = s.remote_token; path = path })
          (get-due_paths now percent s.paths a)

apply-follow :
    (a : SocketAddr) (event : Event) (s : State)
    → AreShort (event ∷ [])
    → track_of a (apply event s) ≡ follow s.local_token a event (track_of a s)
unfolding apply packet_action follow
apply-follow a (Event.update now token candidates) s short =
    retracked a now token candidates s short.0
apply-follow a (Event.packet now percent bytes source) s short =
    heard-packet a now percent source (parse_frame bytes) s
apply-follow a (Event.tick now percent) s short = ticked a now percent s

-- Whatever records of at most 64 addresses, packets and rounds of the scheduler come, the remote token
-- and the path at an address go through exactly what `follow` describes for that address alone: neither
-- other addresses nor the order in which paths and candidates are kept has an effect on them.
pub run-follow_all :
    (a : SocketAddr) (events : List Event) (s : State)
    → AreShort events
    → track_of a (run events s) ≡ follow_all s.local_token a events (track_of a s)
unfolding follow_all
run-follow_all a [] s short = refl
run-follow_all a (event ∷ events) s short =
    run-follow_all a events (apply event s) (later event short)
    ∙ ap (λ local. follow_all local a events (track_of a (apply event s))) (local-apply event s)
    ∙ ap (follow_all s.local_token a events) (apply-follow a event s (first event short))
  where
    first : (event : Event) → AreShort (event ∷ events) → AreShort (event ∷ [])
    first (Event.update now token candidates) h = (h.0, tt)
    first (Event.packet now percent bytes source) h = tt
    first (Event.tick now percent) h = tt

    later : (event : Event) → AreShort (event ∷ events) → AreShort events
    later (Event.update now token candidates) h = h.1
    later (Event.packet now percent bytes source) h = h
    later (Event.tick now percent) h = h
