-- ===== src/Probe/Events.antt =====
-- Histories of the prober of src/probe.rs: any order of its three operations, each under the lock.
use p2p_tunnler.Prelude.{ℕ, ◌≤◌, Option, List, [], ◌∷◌}
use p2p_tunnler.Net.{Bytes, SocketAddr}
use p2p_tunnler.Probe.Types.{Instant, State}
use p2p_tunnler.Probe.Controller.{update_remote, packet_action}
use p2p_tunnler.Probe.Schedule.{due_frames}

pub data Event : Type 0 where
  update : Instant → Option Bytes → List SocketAddr → Event
  packet : Instant → ℕ → Bytes → SocketAddr → Event
  tick : Instant → (SocketAddr → ℕ) → Event

abbrev pub at : Event → Instant
at (Event.update now token candidates) = now
at (Event.packet now percent bytes source) = now
at (Event.tick now percent) = now

unfoldable pub apply : Event → State → State
apply (Event.update now token candidates) s = update_remote now token candidates s
apply (Event.packet now percent bytes source) s = (packet_action now percent bytes source s).1
apply (Event.tick now percent) s = (due_frames now percent s).1

abbrev pub run : List Event → State → State
run [] s = s
run (event ∷ events) s = run events (apply event s)

-- The clock does not run backwards: the events lie between two instants, in order.
abbrev pub IsOrdered : Instant → List Event → Instant → Type 0
IsOrdered start [] end = start ≤ end
IsOrdered start (event ∷ events) end = (start ≤ at event) × IsOrdered (at event) events end
