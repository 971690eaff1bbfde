-- ===== src/App.antt =====
-- src/app.rs with the two calls of src/dht.rs that it makes: the commands of the program, over the models
-- of their parts. The parser of the command line and the system are parameters; the log is left out, but
-- for what the diagnostic commands are there to show.
pub mod Diagnostic
use p2p_tunnler.Prelude.{
  ℕ, true, Bool, Option, none, some, List, [], ◌∷◌, ◌++◌, if◌then◌else◌, Result, ok, err, ◌>>=◌,
  length,
}
use Prim.Native.String.{String}
use p2p_tunnler.Net.{Bytes, SocketAddr}
use p2p_tunnler.Utils.Monitor.{Ending}
use p2p_tunnler.Candidates.Gather.{GatherError, Outside}
use p2p_tunnler.Candidates.Source.{
  Watch, Round, Broadcast, Lookups, StunSetup, start_stun_candidates,
}
use p2p_tunnler.Keygen.{System}
use p2p_tunnler.Keygen.Generate.{Source, GenerateError, Generated, generate}
use p2p_tunnler.Config.{StunFlags, DhtFlags, RunCommand, Command, CliConfig}
use p2p_tunnler.Config.Files.{ConfigError, Reader, new}
use p2p_tunnler.Service.Setup.{RunError, Host, udp_tasks, open_internet_socket, start_dht}
use p2p_tunnler.Service.Setup as Setup

pub data AppError : Type 0 where
  config_error : ConfigError → AppError
  generate_error : GenerateError → AppError
  service_error : RunError → AppError
  put_failed : AppError

-- The node of the `opendht` crate: whether it takes a value for a key, and the values that it streams for a
-- key until the stream ends.
pub record OpenDht : Type 0 where
  pub put_value : Bytes → Bytes → Bool
  pub get_values : Bytes → List Bytes

unfoldable pub get : OpenDht → Bytes → List Bytes
get dht key = dht.get_values key

unfoldable pub put : OpenDht → Bytes → Bytes → Result {0} AppError Unit
put dht key value = if dht.put_value key value then ok tt else err put_failed

-- What a command shows at its end: the files and texts of new keys, what the STUN diagnostic received, and
-- the sizes of the values that the DHT diagnostic stored and received.
pub data Shown : Type 0 where
  generated : Generated → Shown
  public_address : Option (List SocketAddr) → Shown
  value_sizes : ℕ → List ℕ → Shown
  nothing_shown : Shown

-- What the commands meet.
pub record World : Type 0 where
  pub reader : Reader
  pub system : System
  pub source : Source
  pub host : Host
  -- The round of the STUN lookup at a server.
  pub outside : String → Outside
  pub watch : Watch
  pub dht : OpenDht
  -- The tasks of the service that end.
  pub first_ended : String × Ending
  pub others : List (String × Ending)

abbrev pub in_service : {A : Type 0} → Result RunError A → Result AppError A
in_service (ok a) = ok a
in_service (err e) = err (service_error e)

abbrev pub config_read : Result ConfigError CliConfig → Result AppError CliConfig
config_read (ok config) = ok config
config_read (err e) = err (config_error e)

abbrev pub generated_keys : Result GenerateError Generated → Result AppError Shown
generated_keys (ok g) = ok (generated g)
generated_keys (err e) = err (generate_error e)

-- `candidates.recv()` when the lookup has ended: what the channel holds, or that it is closed.
abbrev pub received : Result GatherError Lookups → Option (List SocketAddr)
received (ok l) = l.candidates.held
received (err e) = none

abbrev pub lengths : List Bytes → List ℕ
lengths [] = []
lengths (value ∷ values) = length value ∷ lengths values

module _ (world : World) where
  abbrev pub stun_round : StunFlags → Round
  stun_round flags = record {
    outside = world.outside flags.stun_addr;
    nat_mapping = none;
    watch = world.watch;
  }

  unfoldable pub run_stun : StunFlags → Result AppError Shown
  run_stun flags = do
    local_port ← in_service (open_internet_socket world.host 0 0)
    ok (
        public_address (
          received (
            start_stun_candidates
              (record { local_port = local_port; gather_ipv6 = true; run_once = true })
              (stun_round flags ∷ []))))

  unfoldable pub run_dht_diagnostic : DhtFlags → Result AppError Shown
  run_dht_diagnostic flags = do
    _ ← in_service (start_dht world.host flags)
    let key = 9 ∷ 9 ∷ 9 ∷ []
    let value = 1 ∷ 1 ∷ 1 ∷ 2 ∷ []
    _ ← put world.dht key value
    ok (value_sizes (length value) (lengths (get world.dht key)))

  abbrev pub run_service : Result {0} RunError Unit → Result AppError Shown
  run_service (ok u) = ok nothing_shown
  run_service (err e) = err (service_error e)

  abbrev pub dispatch : Command → Result AppError Shown
  dispatch (Command.generate flags) = generated_keys (generate world.system world.source flags)
  dispatch (Command.stun flags) = run_stun flags
  dispatch (Command.dht flags) = run_dht_diagnostic flags
  dispatch (Command.run command) =
      run_service (Setup.run world.host command world.first_ended world.others)

  -- `run` of src/app.rs on what the command line parses to.
  unfoldable pub run : CliConfig → Result AppError Shown
  run cli = do config ← config_read (new world.reader cli); dispatch config.command
