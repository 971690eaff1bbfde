-- ===== src/Candidates/Types.antt =====
-- `Message` and `Control` of src/message.rs, and the constants of src/candidates.rs. A `SystemTime` is a
-- number of nanoseconds since an instant before all that occur.
use p2p_tunnler.Prelude.{ℕ, ◌*◌, Option, List}
use Prim.Native.String.{String}
use p2p_tunnler.Net.{SocketAddr}
use p2p_tunnler.Probe.Types.{from_secs}

abbrev pub SystemTime : Type 0
SystemTime = ℕ

pub record Control : Type 0 where
  pub probe_token : String

pub record Message : Type 0 where
  pub timestamp : SystemTime
  pub ip_addr_list : List SocketAddr
  pub control : Option Control

abbrev pub max_dht_message_age : ℕ
max_dht_message_age = from_secs (10 * 60)

abbrev pub max_dht_future_skew : ℕ
max_dht_future_skew = from_secs (5 * 60)

abbrev pub max_remote_candidates : ℕ
max_remote_candidates = 64
