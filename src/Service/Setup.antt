-- ===== src/Service/Setup.antt =====
-- The start of the service in src/service.rs: `setup_connection` with the tasks that it spawns,
-- `request_nat_mapping`, `start_dht`, and `run` up to its end; with `open_internet_socket` and the wiring
-- of `bind_loopback_and_forward`, `split_internet_receiver` (src/transport.rs), `split_udp_socket`
-- (src/utils.rs) and `start_stun_candidates` (src/candidates.rs). System calls are parameters; the log is
-- left out.
pub mod Ends
use p2p_tunnler.Prelude.{
  ℕ, suc, ◌+◌, Bool, true, false, not, Option, none, some, List, [], ◌∷◌, ◌++◌, if◌then◌else◌,
  Result, ok, err, ◌>>=◌,
}
use Prim.Native.String.{String}
use p2p_tunnler.Net.{Bytes}
use p2p_tunnler.Crypto.{CryptoError, decode_base64_key}
use p2p_tunnler.Utils.Monitor.{TaskFailure, TaskMonitor, Ending, new_monitor, all_ended}
use p2p_tunnler.Nat.{Mapping}
use p2p_tunnler.Nat.Protocols.{NatError, Outside, map_udp_port}
use p2p_tunnler.Candidates.Listener.{ConnectionFlags}
use p2p_tunnler.Config.{DhtFlags, RunCommand}
use p2p_tunnler.Service.Startup.{Peer, P2PConnection, StartupError, parse_peer_key, check_run}

pub data RunError : Type 0 where
  startup : StartupError → RunError
  own_key : CryptoError → RunError
  system : ℕ → RunError
  task_stopped : TaskFailure → RunError

-- The system calls that the start makes. Those for a peer are numbered by the peer.
pub record Host : Type 0 where
  pub base64_decode : String → Option Bytes
  -- `opendht::OpenDht::new`, the resolution of the bootstrap server, and `bootstrap`.
  pub new_dht : ℕ → Result {0} RunError Unit
  pub lookup_host : String → Result {0} RunError Unit
  pub bootstrap : String → Result {0} RunError Unit
  -- `Socket::new`, `set_only_v6`, `bind` to a port, `set_nonblocking` and `from_std`, `local_addr`.
  pub new_socket : Result {0} RunError Unit
  pub set_dual_stack : Result {0} RunError Unit
  pub bind_internet : ℕ → Result {0} RunError Unit
  pub into_tokio : Result {0} RunError Unit
  pub local_port : ℕ → Result RunError ℕ
  -- `UdpSocket::bind(("127.0.0.1", port))` with `local_addr`.
  pub bind_loopback : ℕ → Result {0} RunError Unit
  -- The router protocols, with numbers for the gateways that UPnP finds.
  pub router : Outside ℕ

abbrev pub started : Result StartupError Bytes → Result RunError Bytes
started (ok key) = ok key
started (err e) = err (startup e)

abbrev pub checked : Result {0} StartupError Unit → Result {0} RunError Unit
checked (ok u) = ok u
checked (err e) = err (startup e)

abbrev pub own_key_of : Result CryptoError Bytes → Result RunError Bytes
own_key_of (ok key) = ok key
own_key_of (err e) = err (own_key e)

-- An error is logged and the service goes on without a mapping.
abbrev pub ok_mapping : Result NatError Mapping → Option Mapping
ok_mapping (ok mapping) = some mapping
ok_mapping (err e) = none

-- The tasks of a UDP socket that is split.
abbrev pub udp_tasks : List String
udp_tasks = "UDP socket receiver" ∷ "UDP socket sender" ∷ []

abbrev pub internet_tasks : List String
internet_tasks = udp_tasks ++ "internet UDP receive routing" ∷ []

abbrev pub loopback_tasks : List String
loopback_tasks = udp_tasks ++ "loopback UDP forwarding" ∷ []

-- All that is spawned for a peer, with what its loopback socket needs.
abbrev pub peer_tasks : List String → List String
peer_tasks loopback =
    internet_tasks
    ++ "STUN candidate gathering" ∷ loopback
    ++ "control UDP handler" ∷ "control probe scheduler" ∷ "inbound UDP forwarding"
      ∷ "DHT address publishing" ∷ "DHT address listening" ∷ []

-- What is set up for one peer: its key, the port of its socket, the router's mapping, whether IPv6
-- candidates are gathered, and the tasks in the order in which they are spawned.
pub record PeerSetup : Type 0 where
  pub remote_key : Bytes
  pub local_port : ℕ
  pub nat_mapping : Option Mapping
  pub gather_ipv6 : Bool
  pub tasks : List String

module _ (host : Host) where
  -- `OpenDht::new` of src/dht.rs: the task that it spawns.
  unfoldable pub open_dht : ℕ → String → Result RunError (List String)
  open_dht listen_port bootstrap_servers = do
    _ ← host.new_dht listen_port
    _ ← host.lookup_host bootstrap_servers
    _ ← host.bootstrap bootstrap_servers
    ok ("OpenDHT tick loop" ∷ [])

  unfoldable pub start_dht : DhtFlags → Result RunError (List String)
  start_dht flags = open_dht flags.opendht_port flags.bootstrap_addr

  unfoldable pub open_internet_socket : ℕ → ℕ → Result RunError ℕ
  open_internet_socket peer requested_port = do
    _ ← host.new_socket
    _ ← host.set_dual_stack
    _ ← host.bind_internet requested_port
    _ ← host.into_tokio
    host.local_port peer

  abbrev pub request_nat_mapping : ℕ → Option Mapping
  request_nat_mapping local_port = ok_mapping (map_udp_port host.router local_port [])

  unfoldable pub bind_loopback_and_forward : ℕ → Result RunError (List String)
  bind_loopback_and_forward local_port = do _ ← host.bind_loopback local_port; ok loopback_tasks

  -- One round of the loop over the peers.
  unfoldable pub setup_peer : ConnectionFlags → ℕ → Peer → Result RunError PeerSetup
  setup_peer flags peer_index peer = do
    remote_key ← started (parse_peer_key host.base64_decode peer peer_index)
    local_port ← open_internet_socket peer_index flags.out_port
    let nat_mapping = if flags.nat_map then request_nat_mapping local_port else none
    loopback ← bind_loopback_and_forward peer.local_port
    ok (record {
      remote_key = remote_key;
      local_port = local_port;
      nat_mapping = nat_mapping;
      gather_ipv6 = not flags.filter_ipv6;
      tasks = peer_tasks loopback;
    })

  abbrev pub setup_peers : ConnectionFlags → ℕ → List Peer → Result RunError (List PeerSetup)
  setup_peers flags peer_index [] = ok []
  setup_peers flags peer_index (peer ∷ peers) = do
    setup ← setup_peer flags peer_index peer
    setups ← setup_peers flags (suc peer_index) peers
    ok (setup ∷ setups)

  unfoldable pub setup_connection :
      ConnectionFlags → P2PConnection → Result RunError (List PeerSetup)
  setup_connection flags connection = do
    _ ← own_key_of (decode_base64_key host.base64_decode connection.secret_key)
    setup_peers flags 0 connection.peers

  -- `join_all` with `collect`: all are set up, and the first error in their order is the result.
  abbrev pub join_all :
      ConnectionFlags → List P2PConnection → Result RunError (List (List PeerSetup))
  join_all flags [] = ok []
  join_all flags (connection ∷ connections) = do
    setups ← setup_connection flags connection
    others ← join_all flags connections
    ok (setups ∷ others)

  abbrev pub failure_or_unknown : Option TaskFailure → TaskFailure
  failure_or_unknown none = record {
    task = "unknown task";
    error = "failure notification did not include a reason";
  }
  failure_or_unknown (some failure) = failure

  -- `run`, with the tasks that end after the start: it waits for the first of them.
  unfoldable pub run :
      RunCommand → (String × Ending) → List (String × Ending) → Result {0} RunError Unit
  run command first_ended others = do
    _ ← checked (check_run host.base64_decode command.connections command.connection_flags.out_port)
    _ ← start_dht command.dht_flags
    _ ← join_all command.connection_flags command.connections
    err (task_stopped (failure_or_unknown (all_ended (first_ended ∷ others) new_monitor).failure))
