-- ===== src/Probe/Paths.antt =====
-- When `due_frames` of src/probe.rs sends a probe.
use p2p_tunnler.Prelude.{
  ℕ, ◌≡◌, refl, ap, Bool, false, ◌&&◌, ◌||◌, Option, none, some, List, [], ◌∷◌, leb, arith, map,
}
use p2p_tunnler.Net.{Bytes, SocketAddr, socket_addr_eq, bytes_eq}
use p2p_tunnler.Collections.Sets.{contains, IsNodup}
use p2p_tunnler.Collections.Maps.{get, contains_key, IsUnique}
use p2p_tunnler.Probe.Types.{Instant, ProbePath, State}
use p2p_tunnler.Probe.Frame.{frame}
use p2p_tunnler.Probe.Schedule.{is_overdue, due_path, due_paths, due_frames, frames_for}

-- What should be sent to: a path whose time has come, or a verified one without acknowledgement.
abbrev pub is_due : Instant → Option ProbePath → Bool
is_due now none = false
is_due now (some p) = leb p.next_probe now || (p.verified && is_overdue now p.outstanding)

pub due_path-sends :
    (now : Instant) (percent : ℕ) (p : ProbePath) → (due_path now percent p).1 ≡ is_due now (some p)
unfolding due_path
due_path-sends now percent p = ground arith

destinations-keys :
    (now : Instant) (percent : SocketAddr → ℕ) (m : List (SocketAddr × ProbePath)) (a : SocketAddr)
    → contains_key m a ≡ false
    → contains (due_paths now percent m).1 a ≡ false
unfolding due_paths
destinations-keys now percent [] a h = refl
destinations-keys now percent ((k, p) ∷ m) a h = ground (arith, destinations-keys now percent m a)

destinations-due :
    (now : Instant) (percent : SocketAddr → ℕ) (m : List (SocketAddr × ProbePath)) (a : SocketAddr)
    → IsUnique m
    → contains (due_paths now percent m).1 a ≡ is_due now (get m a)
unfolding due_paths
destinations-due now percent [] a u = refl
destinations-due now percent ((k, p) ∷ m) a u = ground (
  arith,
  destinations-due now percent m a u.1,
  destinations-keys now percent m k u.0,
  due_path-sends now (percent k) p,
  socket_addr_eq.beq_iff k a,
)

destinations-IsNodup :
    (now : Instant) (percent : SocketAddr → ℕ) (m : List (SocketAddr × ProbePath))
    → IsUnique m
    → IsNodup (due_paths now percent m).1
unfolding due_paths
destinations-IsNodup now percent [] u = tt
destinations-IsNodup now percent ((k, p) ∷ m) u =
    ground (arith, destinations-IsNodup now percent m u.1, destinations-keys now percent m k u.0)

-- With a remote token and no address with two paths, a round sends the frame of that token once to
-- each address whose path is due, which is one whose time has come or whose verified path has waited
-- three seconds for an acknowledgement, and nothing else.
pub due_frames-exact :
    (now : Instant) (percent : SocketAddr → ℕ) (s : State) (token : Bytes)
    → s.remote_token ≡ some token
    → IsUnique s.paths
    → (destinations : List SocketAddr) × ((due_frames now percent s).0
        ≡ map (λ address. (frame token, address)) destinations)
      × IsNodup destinations
      × ((a : SocketAddr) → contains destinations a ≡ is_due now (get s.paths a))
unfolding due_frames
due_frames-exact now percent s token e u = (
  (due_paths now percent s.paths).1,
  ap (λ t. (frames_for now percent s t).0) e,
  destinations-IsNodup now percent s.paths u,
  λ a. destinations-due now percent s.paths a u,
)

-- The path at an address after a round.
abbrev pub due_found : Instant → ℕ → Option ProbePath → Option ProbePath
due_found now percent none = none
due_found now percent (some p) = some (due_path now percent p).0

pub get-due_paths :
    (now : Instant) (percent : SocketAddr → ℕ) (m : List (SocketAddr × ProbePath)) (a : SocketAddr)
    → get (due_paths now percent m).0 a ≡ due_found now (percent a) (get m a)
unfolding due_paths
get-due_paths now percent [] a = refl
get-due_paths now percent ((k, p) ∷ m) a =
    ground (arith, get-due_paths now percent m a, socket_addr_eq.beq_iff k a)
