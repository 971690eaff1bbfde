-- ===== src/Examples/ServiceRuns.antt =====
-- Runs of the checks at the start of the service, of the mapping worker, and of the key files.
use p2p_tunnler.Prelude.{
  ℕ, ◌≤◌, ◌<◌, ◌≡◌, ◌≢◌, ◌↔◌, ◌⊎◌, List, [], ◌∷◌, replicate, Option, none, some, ok, true, false,
  refl, ◌++◌,
}
use Prim.Native.String.{String}
use p2p_tunnler.Net.{Bytes}
use p2p_tunnler.Keygen.{
  GenFlags, System, Effect, owner_only, private_options, output_options, open_private_key_file,
  open_output_file, open_key_files,
}
use p2p_tunnler.Keygen.Safety.{AreSafe, private_effects, open_key_files-safety}
use p2p_tunnler.Nat.{Mapping, Method, Receipt, Turn, renew_pcp_natpmp, mapping_worker}
use p2p_tunnler.Probe.Types.{from_secs}
use p2p_tunnler.Nat.Lease.{obtained, IsEnding, mapping_worker-IsEnding, renew_pcp_natpmp-in_time}
use p2p_tunnler.Examples.Data.{peer}
use p2p_tunnler.Service.Startup.{P2PConnection, check_run, AreKeys, peer_count, check_run_iff}

-- A decoder by which every text is a key.
abbrev base64_decode : String → Option Bytes
base64_decode text = some (replicate 32 1)

abbrev connections : List P2PConnection
connections =
    record {
      secret_key = "own";
      peers = record { local_port = 10001; public_key = "theirs"; name = none } ∷ [];
    }
    ∷ []

abbrev out_port : ℕ
out_port = 4000

check_run_iff_example : (check_run base64_decode connections out_port ≡ ok tt) ↔ (
    AreKeys base64_decode connections
    × (peer_count connections ≢ 0)
    × ((out_port ≡ 0) ⊎ (peer_count connections ≤ 1)))
check_run_iff_example = check_run_iff base64_decode connections out_port

-- A mapping by PCP for two hours, renewed once, whose owner then goes.
abbrev lease : Option (Mapping × ℕ)
lease = some (record { external_addr = peer; method = Method.pcp }, 7200)

abbrev turns : List Turn
turns = Turn.renewed 7200 ∷ Turn.shut_down true ∷ []

mapping_worker-IsEnding_example :
    ((mapping_worker lease none Receipt.received turns).sent ≡ obtained lease none)
    × IsEnding
        (obtained lease none)
        Receipt.received
        turns
        (mapping_worker lease none Receipt.received turns).ending
mapping_worker-IsEnding_example = mapping_worker-IsEnding lease none Receipt.received turns

abbrev key_flags : GenFlags
key_flags = record {
  path = some "key";
  pub_path = none;
  insecure_priv = false;
  override_files = true;
}

-- A system that refuses nothing.
abbrev willing : System
willing = record { opens = λ path options. true; changes_mode = λ path mode. true }

abbrev key_effects : List Effect
key_effects =
    private_effects key_flags (some "key") ++ Effect.opened "key.pub" (output_options true) ∷ []

open_key_files-safety_example :
    AreSafe true key_effects
    × ((private_options key_flags).mode ≡ some owner_only)
    × ((rest : List Effect) × (key_effects ≡ private_effects key_flags (some "key") ++ rest))
unfolding open_key_files open_private_key_file open_output_file
open_key_files-safety_example = open_key_files-safety willing key_flags key_effects refl

-- A router that gives a mapping for 45 seconds only.
abbrev short_lifetime : ℕ
short_lifetime = 45

renew_pcp_natpmp-in_time_example :
    (wait : ℕ) × (later : List ℕ) × ((renew_pcp_natpmp short_lifetime turns).0 ≡ wait ∷ later)
    × (from_secs 60 ≤ wait)
    × ((wait < from_secs short_lifetime) ↔ (60 < short_lifetime))
renew_pcp_natpmp-in_time_example = renew_pcp_natpmp-in_time short_lifetime turns
