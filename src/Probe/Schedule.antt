-- ===== src/Probe/Schedule.antt =====
-- `ProbeController::due_frames` of src/probe.rs: the probes that are due.
use p2p_tunnler.Prelude.{
  ℕ, ◌+◌, ◌-◌, min, Bool, true, false, ◌&&◌, Option, none, some, List, [], ◌∷◌, ltb, leb, ◌==◌,
  if◌then◌else◌, map,
}
use p2p_tunnler.Net.{Bytes, SocketAddr}
use p2p_tunnler.Probe.Types.{Instant, ProbePath, State, from_secs, ack_timeout, jitter}
use p2p_tunnler.Probe.Frame.{frame}

abbrev pub is_overdue : Instant → Option Instant → Bool
is_overdue now none = false
is_overdue now (some sent) = leb ack_timeout (now - sent)

-- A verified path whose probe was not acknowledged in time starts again.
abbrev pub expire : Instant → ProbePath → ProbePath
expire now path =
    if path.verified && is_overdue now path.outstanding
    then record path { verified = false; fast_stage = 0; outstanding = none; next_probe = now }
    else path

-- The delay after a probe on a path that is not verified.
abbrev pub fast_delay : ℕ → ℕ → ℕ
fast_delay percent stage =
    if stage == 0
    then from_secs 1
    else if stage == 1
    then from_secs 2
    else jitter percent (from_secs 5)

-- `u8::saturating_add(1)`.
abbrev pub next_stage : ℕ → ℕ
next_stage stage = min 255 (stage + 1)

abbrev pub send_on : Instant → ℕ → ProbePath → ProbePath
send_on now percent path =
    if path.verified
    then record path { outstanding = some now; next_probe = now + jitter percent (from_secs 15) }
    else record path {
      outstanding = some now;
      fast_stage = next_stage path.fast_stage;
      next_probe = now + fast_delay percent path.fast_stage;
    }

-- One round of the loop: the path afterwards, and whether a probe goes out.
unfoldable pub due_path : Instant → ℕ → ProbePath → ProbePath × Bool
due_path now percent path =
    let p = expire now path in
    if ltb now p.next_probe then (p, false) else (send_on now percent p, true)

-- The loop, with the percentage that each address would draw.
unfoldable pub due_paths :
    Instant
    → (SocketAddr → ℕ)
    → List (SocketAddr × ProbePath)
    → List (SocketAddr × ProbePath) × List SocketAddr
due_paths now percent [] = ([], [])
due_paths now percent ((address, path) ∷ paths) =
    let (p, sent) = due_path now (percent address) path in
    let (ps, destinations) = due_paths now percent paths in
    ((address, p) ∷ ps, if sent then address ∷ destinations else destinations)

abbrev pub frames_for :
    Instant → (SocketAddr → ℕ) → State → Option Bytes → List (Bytes × SocketAddr) × State
frames_for now percent s none = ([], s)
frames_for now percent s (some remote_token) =
    let (paths, destinations) = due_paths now percent s.paths in
    (map (λ address. (frame remote_token, address)) destinations, record s { paths = paths })

unfoldable pub due_frames : Instant → (SocketAddr → ℕ) → State → List (Bytes × SocketAddr) × State
due_frames now percent s = frames_for now percent s s.remote_token
