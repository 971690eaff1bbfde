-- ===== src/Service/Setup/Ends.antt =====
-- How `run` of src/service.rs ends.
use p2p_tunnler.Prelude.{
  ℕ, suc, ◌≡◌, ◌⊎◌, refl, ap, sym, subst, ◌∙◌, inl, inr, not, none, some, List, [], ◌∷◌, length,
  if◌then◌else◌, Result, ok, err, ◌>>=◌, >>=-eq-ok, >>=-eq-err, ok-injective, Result-cases,
}
use Prim.Native.String.{String}
use p2p_tunnler.Net.{Bytes}
use p2p_tunnler.Crypto.{decode_base64_key_iff}
use p2p_tunnler.Utils.Monitor.{
  TaskMonitor, Ending, error_of, new_monitor, all_ended, all_ended-first,
}
use p2p_tunnler.Candidates.Listener.{ConnectionFlags}
use p2p_tunnler.Config.{DhtFlags, RunCommand}
use p2p_tunnler.Service.Startup.{
  Peer, P2PConnection, StartupError, parse_peer_key, check_run, check_run_iff, IsKey, ArePeerKeys,
  AreKeys,
}
use p2p_tunnler.Service.Setup.{
  RunError, Host, started, checked, loopback_tasks, peer_tasks, request_nat_mapping, PeerSetup,
  start_dht, open_dht, open_internet_socket, bind_loopback_and_forward, setup_peer, setup_peers,
  setup_connection, join_all, failure_or_unknown, run,
}

started_ok : (r : Result StartupError Bytes) (key : Bytes) → started r ≡ ok key → r ≡ ok key
started_ok (ok k) key h = ap ok (ok-injective h)
started_ok (err e) key h = absurd cc

module _ (host : Host) where
  -- The call of the start of the DHT node that fails.
  pub IsDhtFailure : DhtFlags → RunError → Type 0
  IsDhtFailure flags e =
      (host.new_dht flags.opendht_port ≡ err e)
      ⊎ ((host.lookup_host flags.bootstrap_addr ≡ err e)
          ⊎ (host.bootstrap flags.bootstrap_addr ≡ err e))

  -- The call for the sockets of a peer that fails.
  pub IsSocketFailure : ConnectionFlags → RunError → Type 0
  IsSocketFailure flags e =
      (host.new_socket ≡ err e)
      ⊎ ((host.set_dual_stack ≡ err e)
          ⊎ ((host.bind_internet flags.out_port ≡ err e)
              ⊎ ((host.into_tokio ≡ err e)
                  ⊎ (((peer : ℕ) × (host.local_port peer ≡ err e))
                      ⊎ ((port : ℕ) × (host.bind_loopback port ≡ err e))))))

  dht_failed :
      (flags : DhtFlags) (e : RunError) → start_dht host flags ≡ err e → IsDhtFailure flags e
  unfolding start_dht open_dht IsDhtFailure
  dht_failed flags e h = elim (>>=-eq-err (host.new_dht flags.opendht_port) _ h) [
    | inl failed ↦ inl failed
    | inr (u, _, h1) ↦ elim (>>=-eq-err (host.lookup_host flags.bootstrap_addr) _ h1) [
      | inl failed ↦ inr (inl failed)
      | inr (v, _, h2) ↦ elim (>>=-eq-err (host.bootstrap flags.bootstrap_addr) _ h2) [
        | inl failed ↦ inr (inr failed)
        | inr (w, _, h3) ↦ absurd cc
      ]
    ]
  ]

  socket_failed :
      (flags : ConnectionFlags) (peer : ℕ) (e : RunError)
      → open_internet_socket host peer flags.out_port ≡ err e
      → IsSocketFailure flags e
  unfolding open_internet_socket IsSocketFailure
  socket_failed flags peer e h = elim (>>=-eq-err host.new_socket _ h) [
    | inl failed ↦ inl failed
    | inr (u, _, h1) ↦ elim (>>=-eq-err host.set_dual_stack _ h1) [
      | inl failed ↦ inr (inl failed)
      | inr (v, _, h2) ↦ elim (>>=-eq-err (host.bind_internet flags.out_port) _ h2) [
        | inl failed ↦ inr (inr (inl failed))
        | inr (w, _, h3) ↦ elim (>>=-eq-err host.into_tokio _ h3) [
          | inl failed ↦ inr (inr (inr (inl failed)))
          | inr (x, _, h4) ↦ inr (inr (inr (inr (inl (peer, h4)))))
        ]
      ]
    ]
  ]

  loopback_failed :
      (flags : ConnectionFlags) (port : ℕ) (e : RunError)
      → bind_loopback_and_forward host port ≡ err e
      → IsSocketFailure flags e
  unfolding bind_loopback_and_forward IsSocketFailure
  loopback_failed flags port e h = elim (>>=-eq-err (host.bind_loopback port) _ h) [
    | inl failed ↦ inr (inr (inr (inr (inr (port, failed)))))
    | inr (u, _, h1) ↦ absurd cc
  ]

  loopback_ok :
      (port : ℕ) (tasks : List String)
      → bind_loopback_and_forward host port ≡ ok tasks
      → tasks ≡ loopback_tasks
  unfolding bind_loopback_and_forward
  loopback_ok port tasks h =
      let (u, _, h1) = >>=-eq-ok (host.bind_loopback port) _ h in sym (ok-injective h1)

  -- What the setup of a peer has to do with the configuration.
  pub record IsSetUp (flags : ConnectionFlags) (index : ℕ) (peer : Peer) (setup : PeerSetup)
      : Type 0 where
    pub key : host.base64_decode peer.public_key ≡ some setup.remote_key
    pub socket : open_internet_socket host index flags.out_port ≡ ok setup.local_port
    pub loopback : bind_loopback_and_forward host peer.local_port ≡ ok loopback_tasks
    pub mapping :
        setup.nat_mapping
        ≡ (if flags.nat_map then request_nat_mapping host setup.local_port else none)
    pub ipv6 : setup.gather_ipv6 ≡ not flags.filter_ipv6
    pub twelve : length setup.tasks ≡ 12

  pub AreSetUp : ConnectionFlags → ℕ → List Peer → List PeerSetup → Type 0
  AreSetUp flags index [] [] = Unit
  AreSetUp flags index [] (s ∷ setups) = ⊥
  AreSetUp flags index (p ∷ peers) [] = ⊥
  AreSetUp flags index (p ∷ peers) (s ∷ setups) =
      IsSetUp flags index p s × AreSetUp flags (suc index) peers setups

  pub AreAllSetUp : ConnectionFlags → List P2PConnection → List (List PeerSetup) → Type 0
  AreAllSetUp flags [] [] = Unit
  AreAllSetUp flags [] (s ∷ setups) = ⊥
  AreAllSetUp flags (c ∷ connections) [] = ⊥
  AreAllSetUp flags (c ∷ connections) (s ∷ setups) =
      AreSetUp flags 0 c.peers s × AreAllSetUp flags connections setups

  peer_ok :
      (flags : ConnectionFlags) (index : ℕ) (peer : Peer) (key : Bytes) (setup : PeerSetup)
      → host.base64_decode peer.public_key ≡ some key
      → length key ≡ 32
      → setup_peer host flags index peer ≡ ok setup
      → IsSetUp flags index peer setup
  unfolding setup_peer parse_peer_key
  peer_ok flags index peer key setup found full h =
      let parsed = (decode_base64_key_iff host.base64_decode peer.public_key key).1 (found, full) in
      let (k, e, h1) = >>=-eq-ok (started (parse_peer_key host.base64_decode peer index)) _ h in
      let (port, opened, h2) = >>=-eq-ok (open_internet_socket host index flags.out_port) _ h1 in
      let (loopback, bound, h3) = >>=-eq-ok (bind_loopback_and_forward host peer.local_port) _ h2 in
      let same : key ≡ k = ok-injective (sym (rw parsed refl) ∙ e) in
      let tasks = loopback_ok peer.local_port loopback bound in
      subst (IsSetUp flags index peer) (ok-injective h3) (record {
        key = found ∙ ap some same;
        socket = opened;
        loopback = bound ∙ ap ok tasks;
        mapping = refl;
        ipv6 = refl;
        twelve = ap (λ ts. length (peer_tasks ts)) tasks;
      })

  peer_failed :
      (flags : ConnectionFlags) (index : ℕ) (peer : Peer) (e : RunError)
      → IsKey host.base64_decode peer.public_key
      → setup_peer host flags index peer ≡ err e
      → IsSocketFailure flags e
  unfolding setup_peer parse_peer_key
  peer_failed flags index peer e (key, found, full) h =
      let parsed = (decode_base64_key_iff host.base64_decode peer.public_key key).1 (found, full) in
      let start : started (parse_peer_key host.base64_decode peer index) ≡ ok key =
        rw parsed refl in
      elim (>>=-eq-err (started (parse_peer_key host.base64_decode peer index)) _ h) [
        | inl failed ↦ absurd (ok_is_not_err (sym start ∙ failed))
        | inr (k, _, h1) ↦ elim (>>=-eq-err (open_internet_socket host index flags.out_port) _ h1) [
          | inl failed ↦ socket_failed flags index e failed
          | inr (port, _, h2) ↦
              elim (>>=-eq-err (bind_loopback_and_forward host peer.local_port) _ h2) [
                | inl failed ↦ loopback_failed flags peer.local_port e failed
                | inr (tasks, _, h3) ↦ absurd cc
              ]
        ]
      ]
    where
      ok_is_not_err :
          {key : Bytes} {e : RunError} → ◌≡◌ {A = Result RunError Bytes} (ok key) (err e) → ⊥
      ok_is_not_err h = cc

  -- The peers are all set up, or a call for their sockets fails and its error is the result.
  pub Setting : ConnectionFlags → ℕ → List Peer → Result RunError (List PeerSetup) → Type 0
  Setting flags index peers (ok setups) = AreSetUp flags index peers setups
  Setting flags index peers (err e) = IsSocketFailure flags e

  peers_set :
      (flags : ConnectionFlags) (index : ℕ) (peers : List Peer)
      → ArePeerKeys host.base64_decode peers
      → Setting flags index peers (setup_peers host flags index peers)
  unfolding Setting AreSetUp
  peers_set flags index [] keys = tt
  peers_set flags index (peer ∷ peers) ((key, found, full), keys) =
      elim (Result-cases (setup_peer host flags index peer)) [
        | inr (e, failed) ↦
            subst (Setting flags index (peer ∷ peers)) (ap (λ r. r >>= more) (sym failed))
              (peer_failed flags index peer e (key, found, full) failed)
        | inl (setup, set) ↦
            subst (Setting flags index (peer ∷ peers)) (ap (λ r. r >>= more) (sym set)) (
              rest setup (peer_ok flags index peer key setup found full set)
                (setup_peers host flags (suc index) peers) (peers_set flags (suc index) peers keys))
      ]
    where
      more : PeerSetup → Result RunError (List PeerSetup)
      more setup = setup_peers host flags (suc index) peers >>= λ setups. ok (setup ∷ setups)

      rest :
          (setup : PeerSetup)
          → IsSetUp flags index peer setup
          → (r : Result RunError (List PeerSetup)) → Setting flags (suc index) peers r
          → Setting flags index (peer ∷ peers) (r >>= λ setups. ok (setup ∷ setups))
      rest setup set (ok setups) sets = (set, sets)
      rest setup set (err e) failed = failed

  -- The same for all connections.
  pub AllSetting :
      ConnectionFlags → List P2PConnection → Result RunError (List (List PeerSetup)) → Type 0
  AllSetting flags connections (ok setups) = AreAllSetUp flags connections setups
  AllSetting flags connections (err e) = IsSocketFailure flags e

  connection_set :
      (flags : ConnectionFlags) (c : P2PConnection) (key : Bytes)
      → host.base64_decode c.secret_key ≡ some key
      → length key ≡ 32
      → setup_connection host flags c ≡ setup_peers host flags 0 c.peers
  unfolding setup_connection
  connection_set flags c key found full =
      rw ((decode_base64_key_iff host.base64_decode c.secret_key key).1 (found, full)) refl

  all_set :
      (flags : ConnectionFlags) (connections : List P2PConnection)
      → AreKeys host.base64_decode connections
      → AllSetting flags connections (join_all host flags connections)
  unfolding AllSetting AreAllSetUp Setting
  all_set flags [] keys = tt
  all_set flags (c ∷ connections) ((key, found, full), peer_keys, keys) =
      subst (AllSetting flags (c ∷ connections))
        (ap (λ r. r >>= more) (sym (connection_set flags c key found full)))
        (rest (setup_peers host flags 0 c.peers) (peers_set flags 0 c.peers peer_keys)
          (join_all host flags connections) (all_set flags connections keys))
    where
      more : List PeerSetup → Result RunError (List (List PeerSetup))
      more setups = join_all host flags connections >>= λ others. ok (setups ∷ others)

      rest :
          (first : Result RunError (List PeerSetup))
          → Setting flags 0 c.peers first
          → (others : Result RunError (List (List PeerSetup))) → AllSetting flags connections others
          → AllSetting flags
              (c ∷ connections)
              (first >>= λ setups. others >>= λ all. ok (setups ∷ all))
      rest (ok setups) set (ok others) sets = (set, sets)
      rest (ok setups) set (err e) failed = failed
      rest (err e) failed others sets = failed

  -- How `run` ends, by the first stage that fails, or else with the failure of a task.
  pub data Ends (command : RunCommand) (task : String) (ending : Ending) : RunError → Type 0 where
    refused :
        (e : StartupError)
        → check_run host.base64_decode command.connections command.connection_flags.out_port ≡ err e
        → Ends command task ending (RunError.startup e)
    no_dht :
        (e : RunError)
        → check_run host.base64_decode command.connections command.connection_flags.out_port ≡ ok tt
        → IsDhtFailure command.dht_flags e
        → Ends command task ending e
    no_socket :
        (e : RunError)
        → check_run host.base64_decode command.connections command.connection_flags.out_port ≡ ok tt
        → start_dht host command.dht_flags ≡ ok ("OpenDHT tick loop" ∷ [])
        → IsSocketFailure command.connection_flags e
        → Ends command task ending e
    stopped :
        (setups : List (List PeerSetup))
        → check_run host.base64_decode command.connections command.connection_flags.out_port ≡ ok tt
        → start_dht host command.dht_flags ≡ ok ("OpenDHT tick loop" ∷ [])
        → join_all host command.connection_flags command.connections ≡ ok setups
        → AreAllSetUp command.connection_flags command.connections setups
        → Ends command task ending
            (RunError.task_stopped (record { task = task; error = error_of ending }))

  dht_ok :
      (flags : DhtFlags) (tasks : List String)
      → start_dht host flags ≡ ok tasks
      → start_dht host flags ≡ ok ("OpenDHT tick loop" ∷ [])
  unfolding start_dht open_dht
  dht_ok flags tasks h =
      let (u, a, h1) = >>=-eq-ok (host.new_dht flags.opendht_port) _ h in
      let (v, b, h2) = >>=-eq-ok (host.lookup_host flags.bootstrap_addr) _ h1 in
      let (w, c, h3) = >>=-eq-ok (host.bootstrap flags.bootstrap_addr) _ h2 in h ∙ sym h3

  module _ (command : RunCommand) (task : String) (ending : Ending)
      (others : List (String × Ending)) where
    abbrev checking : Result {0} StartupError Unit
    checking = check_run host.base64_decode command.connections command.connection_flags.out_port

    -- The end of `run`, when a task has ended.
    abbrev stop : Result {0} RunError Unit
    stop = err (
        RunError.task_stopped
          (failure_or_unknown host (all_ended ((task, ending) ∷ others) new_monitor).failure))

    abbrev Answer : Result {0} RunError Unit → Type 0
    Answer r = (e : RunError) × (r ≡ err e) × Ends command task ending e

    stop_error :
        stop ≡ err (RunError.task_stopped (record { task = task; error = error_of ending }))
    stop_error =
        ap (λ (m : TaskMonitor). err (RunError.task_stopped (failure_or_unknown host m.failure)))
          (all_ended-first task ending others)

    setup_stage :
        (r : Result RunError (List (List PeerSetup)))
        → join_all host command.connection_flags command.connections ≡ r
        → checking ≡ ok tt
        → start_dht host command.dht_flags ≡ ok ("OpenDHT tick loop" ∷ [])
        → AllSetting command.connection_flags command.connections r
        → Answer (r >>= λ setups. stop)
    unfolding AllSetting
    setup_stage (ok setups) joined checks dht set =
        (_, stop_error, Ends.stopped setups checks dht joined set)
    setup_stage (err e) joined checks dht failed = (e, refl, Ends.no_socket e checks dht failed)

    dht_stage :
        (r : Result RunError (List String))
        → start_dht host command.dht_flags ≡ r
        → checking ≡ ok tt
        → Answer (
            r >>= λ tasks.
            join_all host command.connection_flags command.connections >>= λ setups. stop)
    dht_stage (ok tasks) dht checks =
        let keys =
          (check_run_iff host.base64_decode command.connections command.connection_flags.out_port).0
            checks in
        setup_stage (join_all host command.connection_flags command.connections) refl checks
          (dht_ok command.dht_flags tasks dht)
          (all_set command.connection_flags command.connections keys.0)
    dht_stage (err e) dht checks =
        (e, refl, Ends.no_dht e checks (dht_failed command.dht_flags e dht))

    check_stage :
        (r : Result {0} StartupError Unit)
        → checking ≡ r
        → Answer (
            checked r >>= λ u. start_dht host command.dht_flags >>= λ tasks.
            join_all host command.connection_flags command.connections >>= λ setups. stop)
    check_stage (ok tt) checks = dht_stage (start_dht host command.dht_flags) refl checks
    check_stage (err e) checks = (RunError.startup e, refl, Ends.refused e checks)

  -- Given the tasks that end, in their order, the service never ends with success. It is refused by the
  -- checks; or they pass and a call fails that starts the DHT node; or the node has started and a call for
  -- the sockets of a peer fails, and never the reading of a key; or every peer is set up with its key, its
  -- socket, twelve tasks, IPv6 candidates unless they are filtered, and the router's mapping of its port
  -- only if the flag asks for one, and the error is that of the first task that ends, whatever ends later.
  pub run-Ends :
      (command : RunCommand) (task : String) (ending : Ending) (others : List (String × Ending))
      → (e : RunError) × (run host command (task, ending) others ≡ err e)
        × Ends command task ending e
  unfolding run
  run-Ends command task ending others = check_stage command task ending others _ refl
