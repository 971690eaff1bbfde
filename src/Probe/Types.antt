-- ===== src/Probe/Types.antt =====
-- The state of the prober: `State`, `Path` (here `ProbePath`), `PacketAction`, the constants and `ProbeController::new` of
-- src/probe.rs. An `Instant` and a `Duration` are a number of nanoseconds.
use p2p_tunnler.Prelude.{ℕ, ◌*◌, ◌/◌, Bool, Option, none, List, []}
use p2p_tunnler.Net.{Bytes, SocketAddr}

abbrev pub Instant : Type 0
Instant = ℕ

abbrev pub from_secs : ℕ → ℕ
from_secs n = n * 1000000000

abbrev pub max_probe_paths : ℕ
max_probe_paths = 64

abbrev pub max_reply_sources : ℕ
max_reply_sources = 256

abbrev pub reply_interval : ℕ
reply_interval = from_secs 1

abbrev pub ack_timeout : ℕ
ack_timeout = from_secs 3

pub record ProbePath : Type 0 where
  pub next_probe : Instant
  pub outstanding : Option Instant
  pub verified : Bool
  pub fast_stage : ℕ
  pub last_control_response : Option Instant

pub record State : Type 0 where
  pub local_token : Bytes
  pub remote_token : Option Bytes
  pub paths : List (SocketAddr × ProbePath)
  pub reply_sources : List (SocketAddr × Instant)

pub data PacketAction : Type 0 where
  echo_and_admit acknowledged drop : PacketAction

-- `ProbeController::new` with the random token as a parameter.
abbrev pub new : Bytes → State
new token = record { local_token = token; remote_token = none; paths = []; reply_sources = [] }

-- The percentage that `jitter` draws is a parameter, from 90 to 110.
abbrev pub jitter : ℕ → ℕ → ℕ
jitter percent interval = (interval * percent) / 100
