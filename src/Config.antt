-- ===== src/Config.antt =====
-- src/config.rs: the command line and the files that it names. The parser of the command line, `clap`, the
-- reader of YAML files and the file system are parameters.
pub mod Ports
pub mod Files
pub mod Loaded
use p2p_tunnler.Prelude.{
  ℕ, Bool, true, false, Option, none, some, List, [], ◌∷◌, ◌++◌, ◌==◌, if◌then◌else◌, Result, ok,
  err, ◌>>=◌,
}
use Prim.Native.String.{String}
use p2p_tunnler.Keygen.{GenFlags}
use p2p_tunnler.Candidates.Listener.{ConnectionFlags}
use p2p_tunnler.Service.Startup.{P2PConnection}

pub record StunFlags : Type 0 where
  pub stun_addr : String

pub record DhtFlags : Type 0 where
  pub bootstrap_addr : String
  pub opendht_port : ℕ

-- `std::path::PathBuf`: what comes before the file name, and the file name, which a path that ends in
-- `..` or is a root does not have.
pub record PathBuf : Type 0 where
  pub directory : List ℕ
  pub file_name : Option (List ℕ)

pub record RunCommand : Type 0 where
  pub stun_flags : StunFlags
  pub dht_flags : DhtFlags
  pub connection_flags : ConnectionFlags
  pub tunnels : List PathBuf
  pub connections : List P2PConnection

pub data Command : Type 0 where
  generate : GenFlags → Command
  stun : StunFlags → Command
  dht : DhtFlags → Command
  run : RunCommand → Command

pub record CliConfig : Type 0 where
  pub verbose : Bool
  pub command : Command
