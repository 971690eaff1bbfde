-- ===== src/Probe/Controller.antt =====
-- The operations of `ProbeController` in src/probe.rs: `update_remote`, `packet_action` and
-- `due_frames`. The clock and the percentage that `jitter` draws are parameters.
use p2p_tunnler.Prelude.{
  ℕ, ◌+◌, ◌-◌, Bool, true, false, not, ◌&&◌, Option, none, some, List, [], ◌∷◌, ◌==◌, ltb, leb,
  if◌then◌else◌, length,
}
use p2p_tunnler.Net.{Bytes, SocketAddr, bytes_eq, socket_addr_eq}
use p2p_tunnler.Collections.Sets.{contains, retain}
use p2p_tunnler.Collections.Sets
use p2p_tunnler.Collections.Maps.{get, contains_key, insert, or_insert}
use p2p_tunnler.Probe.Types.{
  Instant, ProbePath, State, PacketAction, from_secs, max_probe_paths, max_reply_sources,
  reply_interval, jitter,
}
use p2p_tunnler.Probe.Frame.{parse_frame}

-- `==` on `[u8; 16]`, and on an option of it.
abbrev pub token_eq : Bytes → Bytes → Bool
token_eq a b = bytes_eq.beq a b

abbrev pub remote_eq : Option Bytes → Option Bytes → Bool
remote_eq none none = true
remote_eq none (some b) = false
remote_eq (some a) none = false
remote_eq (some a) (some b) = token_eq a b

-- The loop of `update_remote` that stops at the limit.
abbrev pub select : List SocketAddr → List SocketAddr → List SocketAddr
select selected [] = selected
select selected (candidate ∷ candidates) =
    if length selected == max_probe_paths
    then selected
    else select (Sets.insert candidate selected) candidates

abbrev pub new_path : Instant → ProbePath
new_path now = record {
  next_probe = now;
  outstanding = none;
  verified = false;
  fast_stage = 0;
  last_control_response = none;
}

-- The loop of `update_remote` that adds what is missing.
abbrev pub add_paths :
    Instant → List SocketAddr → List (SocketAddr × ProbePath) → List (SocketAddr × ProbePath)
add_paths now [] paths = paths
add_paths now (address ∷ selected) paths =
    add_paths now selected (or_insert address (new_path now) paths)

abbrev pub retain_paths :
    List SocketAddr → List (SocketAddr × ProbePath) → List (SocketAddr × ProbePath)
retain_paths selected paths = retain (λ (address, path). contains selected address) paths

abbrev pub update_paths :
    Instant → List SocketAddr → List (SocketAddr × ProbePath) → List (SocketAddr × ProbePath)
update_paths now candidates paths =
    let selected = select [] candidates in add_paths now selected (retain_paths selected paths)

unfoldable pub update_remote : Instant → Option Bytes → List SocketAddr → State → State
update_remote now token candidates s =
    let paths = if remote_eq s.remote_token token then s.paths else [] in
    elim token [
      | none ↦ record s { remote_token = none; paths = [] }
      | some t ↦ record s { remote_token = some t; paths = update_paths now candidates paths }
    ]

-- `retain(|_, last| now.duration_since(*last) < REPLY_INTERVAL)`; `duration_since` stops at 0.
abbrev pub recent : Instant → List (SocketAddr × Instant) → List (SocketAddr × Instant)
recent now sources = retain (λ (source, last). ltb (now - last) reply_interval) sources

abbrev pub is_recent : Instant → Option Instant → Bool
is_recent now none = false
is_recent now (some last) = ltb (now - last) reply_interval

-- A probe that carries the local token.
unfoldable pub reply_action : Instant → SocketAddr → State → PacketAction × State
reply_action now source s =
    if leb max_reply_sources (length s.reply_sources) && not (contains_key s.reply_sources source)
    then (PacketAction.drop, s)
    else (
      (if is_recent now (get s.reply_sources source)
          then PacketAction.drop
          else PacketAction.echo_and_admit),
      record s { reply_sources = insert source now s.reply_sources },
    )

abbrev pub acknowledge : Instant → ℕ → ProbePath → ProbePath
acknowledge now percent path = record {
  next_probe = now + jitter percent (from_secs 15);
  outstanding = none;
  verified = true;
  fast_stage = 0;
  last_control_response = some now;
}

abbrev pub ack_outstanding :
    Instant → ℕ → SocketAddr → State → ProbePath → Option Instant → PacketAction × State
ack_outstanding now percent source s path none = (PacketAction.drop, s)
ack_outstanding now percent source s path (some sent) = (
  PacketAction.acknowledged,
  record s { paths = insert source (acknowledge now percent path) s.paths },
)

abbrev pub ack_path : Instant → ℕ → SocketAddr → State → Option ProbePath → PacketAction × State
ack_path now percent source s none = (PacketAction.drop, s)
ack_path now percent source s (some path) =
    ack_outstanding now percent source s path path.outstanding

-- A probe that carries another token.
unfoldable pub ack_action : Instant → ℕ → Bytes → SocketAddr → State → PacketAction × State
ack_action now percent token source s =
    if remote_eq s.remote_token (some token)
    then ack_path now percent source s (get s.paths source)
    else (PacketAction.drop, s)

abbrev pub token_action : Instant → ℕ → SocketAddr → State → Option Bytes → PacketAction × State
token_action now percent source s none = (PacketAction.drop, s)
token_action now percent source s (some token) =
    let swept : State = record s { reply_sources = recent now s.reply_sources } in
    if token_eq token s.local_token
    then reply_action now source swept
    else ack_action now percent token source swept

unfoldable pub packet_action : Instant → ℕ → Bytes → SocketAddr → State → PacketAction × State
packet_action now percent packet source s = token_action now percent source s (parse_frame packet)
