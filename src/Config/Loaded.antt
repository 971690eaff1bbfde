-- ===== src/Config/Loaded.antt =====
-- What `CliConfig::new` of src/config.rs loads.
use p2p_tunnler.Prelude.{
  ℕ, ◌≡◌, ◌≢◌, ◌↔◌, ◌⊎◌, refl, ap, sym, subst, ◌∙◌, inl, inr, Bool, true, false, not, Bool-cases,
  Option, none, some, List, [], ◌∷◌, ◌++◌, if◌then◌else◌, ok, >>=-eq-ok, ok-injective, append_assoc,
  append-nil, Option-cases,
}
use Prim.Native.String.{String, ◌++◌ as append}
use p2p_tunnler.Net.{bytes_beq_iff}
use p2p_tunnler.Text.Split.{strip_prefix, strip_prefix_iff}
use p2p_tunnler.Service.Startup.{Peer, P2PConnection}
use p2p_tunnler.Config.{PathBuf, RunCommand, Command, CliConfig}
use p2p_tunnler.Config.Files.{
  ConfigError, Reader, yaml, cut_before, rsplit_at_dot, behind_dot, extension, add_extension,
  is_yaml, yaml_path, ok_or_file, read_stripped, transform_file_to_string, transform_peers,
  load_tunnel, load_tunnels, new_command, new,
}

-- The last dot of a name with an extension behind it.
rsplit-yaml : (name : List ℕ) → rsplit_at_dot (name ++ b'.' ∷ yaml) ≡ some (name, yaml)
rsplit-yaml [] = refl
rsplit-yaml (c ∷ cs) = ap (cut_before c (cs ++ b'.' ∷ yaml)) (rsplit-yaml cs)

yaml_is : (o : Option (List ℕ)) → is_yaml o ≡ true → o ≡ some yaml
yaml_is none h = absurd cc
yaml_is (some e) h = ap some ((bytes_beq_iff e yaml).0 h)

added :
    (directory name : List ℕ)
    → name ≢ []
    → extension (add_extension (record { directory = directory; file_name = some name }) yaml)
      ≡ some yaml
unfolding extension add_extension
added directory [] h = absurd (h refl)
added directory (c ∷ cs) h = ap behind_dot (rsplit-yaml (c ∷ cs))

-- The file that is read for a tunnel with a name has the extension `yaml`, and is the given one if that
-- has it already.
pub yaml_path-extension :
    (directory name : List ℕ)
    → name ≢ []
    → let tun : PathBuf = record { directory = directory; file_name = some name } in
      (extension (yaml_path tun) ≡ some yaml) × ((extension tun ≡ some yaml) → yaml_path tun ≡ tun)
unfolding yaml_path
yaml_path-extension directory name h =
    let tun : PathBuf = record { directory = directory; file_name = some name } in
    elim (Bool-cases (is_yaml (extension tun))) [
      | inl has ↦ (
        ap (λ b. extension (if not b then add_extension tun yaml else tun)) has
            ∙ yaml_is (extension tun) has,
        λ e. ap (λ b. if not b then add_extension tun yaml else tun) has,
      )
      | inr lacks ↦ (
        ap (λ b. extension (if not b then add_extension tun yaml else tun)) lacks
            ∙ added directory name h,
        λ e. absurd (true_is_not_false (sym (ap is_yaml e) ∙ lacks)),
      )
    ]
  where
    true_is_not_false : true ≡ false → ⊥
    true_is_not_false e = cc

module _ (reader : Reader) where
  -- A key as it stands, or what the file holds that `file:` names.
  pub IsResolved : String → String → Type 0
  IsResolved data_ key =
      ((strip_prefix "file:" data_ ≡ none) × (key ≡ data_))
      ⊎ ((path : String) × (data_ ≡ append "file:" path) × (reader.read_to_string path ≡ some key))

  -- The same peers in the same order, their keys resolved.
  pub AreResolved : List Peer → List Peer → Type 0
  AreResolved [] [] = Unit
  AreResolved [] (q ∷ qs) = ⊥
  AreResolved (p ∷ ps) [] = ⊥
  AreResolved (p ∷ ps) (q ∷ qs) =
      (q.local_port ≡ p.local_port)
      × (q.name ≡ p.name)
      × IsResolved p.public_key q.public_key
      × AreResolved ps qs

  -- A connection as the file of a tunnel gives it.
  pub record IsLoaded (tun : PathBuf) (connection : P2PConnection) : Type 0 where
    pub stored : P2PConnection
    pub loads : reader.load (yaml_path tun) ≡ some stored
    pub secret_key : IsResolved stored.secret_key connection.secret_key
    pub peers : AreResolved stored.peers connection.peers

  pub AreLoaded : List PathBuf → List P2PConnection → Type 0
  AreLoaded [] [] = Unit
  AreLoaded [] (c ∷ cs) = ⊥
  AreLoaded (t ∷ ts) [] = ⊥
  AreLoaded (t ∷ ts) (c ∷ cs) = IsLoaded t c × AreLoaded ts cs

  file_ok :
      {A : Type 0} (o : Option A) (e : ConfigError) (a : A) → (ok_or_file o e ≡ ok a) ↔ (o ≡ some a)
  file_ok none e a = (λ h. absurd cc, λ h. absurd cc)
  file_ok (some b) e a = (λ h. cc, λ h. cc)

  IsResolved-iff :
      (data_ key : String) → (transform_file_to_string reader data_ ≡ ok key) ↔ IsResolved data_ key
  unfolding transform_file_to_string IsResolved
  IsResolved-iff data_ key = elim (Option-cases (strip_prefix "file:" data_)) [
    | inl e ↦ (
      λ h. inl (e, sym (ok-injective (ap (read_stripped reader data_) (sym e) ∙ h))),
      λ r. elim r [
        | inl (e', same) ↦ ap (read_stripped reader data_) e ∙ ap ok (sym same)
        | inr (path, prefixed, read) ↦
            absurd (none_is_not_some (sym e ∙ (strip_prefix_iff "file:" data_ path).1 prefixed))
      ],
    )
    | inr (path, e) ↦ (
      λ h. inr (
        path,
        (strip_prefix_iff "file:" data_ path).0 e,
        (file_ok (reader.read_to_string path) (ConfigError.key_file path) key).0
            (ap (read_stripped reader data_) (sym e) ∙ h),
      ),
      λ r. elim r [
        | inl (e', same) ↦ absurd (none_is_not_some (sym e' ∙ e))
        | inr (path', prefixed, read) ↦
            ap (read_stripped reader data_) ((strip_prefix_iff "file:" data_ path').1 prefixed)
            ∙ (file_ok (reader.read_to_string path') (ConfigError.key_file path') key).1 read
      ],
    )
  ]
    where
      none_is_not_some : {s : String} → ◌≡◌ {A = Option String} none (some s) → ⊥
      none_is_not_some e = cc

  peers_resolved : (ps qs : List Peer) → transform_peers reader ps ≡ ok qs → AreResolved ps qs
  unfolding AreResolved transform_file_to_string
  peers_resolved [] qs h = subst (AreResolved []) (ok-injective h) tt
  peers_resolved (p ∷ ps) qs h =
      let (key, read, h1) = >>=-eq-ok (transform_file_to_string reader p.public_key) _ h in
      let (others, rest, h2) = >>=-eq-ok (transform_peers reader ps) _ h1 in
      subst (AreResolved (p ∷ ps)) (ok-injective h2)
        (refl, refl, (IsResolved-iff p.public_key key).0 read, peers_resolved ps others rest)

  resolved_peers : (ps qs : List Peer) → AreResolved ps qs → transform_peers reader ps ≡ ok qs
  unfolding AreResolved transform_file_to_string
  resolved_peers [] [] h = refl
  resolved_peers [] (q ∷ qs) h = absurd h
  resolved_peers (p ∷ ps) [] h = absurd h
  resolved_peers (p ∷ ps) (q ∷ qs) (port, name, key, rest) =
      rw ((IsResolved-iff p.public_key q.public_key).1 key, resolved_peers ps qs rest)
        (ap (λ (x : Peer). ok (x ∷ qs)) (peer_eq q port name))
    where
      peer_eq :
          (q : Peer)
          → q.local_port ≡ p.local_port
          → q.name ≡ p.name
          → ◌≡◌ {A = Peer} (record p { public_key = q.public_key }) q
      peer_eq q e1 e2 = cc

  IsLoaded-iff :
      (tun : PathBuf) (c : P2PConnection) → (load_tunnel reader tun ≡ ok c) ↔ IsLoaded tun c
  unfolding load_tunnel transform_file_to_string
  IsLoaded-iff tun c = (
    λ h.
        let (stored, loads, h1) =
          >>=-eq-ok
            (ok_or_file (reader.load (yaml_path tun)) (ConfigError.config_file (yaml_path tun))) _
            h in
        let (key, read, h2) = >>=-eq-ok (transform_file_to_string reader stored.secret_key) _ h1 in
        let (peers, rest, h3) = >>=-eq-ok (transform_peers reader stored.peers) _ h2 in
        subst (IsLoaded tun) (ok-injective h3) (record {
          stored = stored;
          loads =
              (file_ok (reader.load (yaml_path tun)) (ConfigError.config_file (yaml_path tun))
                  stored).0
                loads;
          secret_key = (IsResolved-iff stored.secret_key key).0 read;
          peers = peers_resolved stored.peers peers rest;
        }),
    λ l.
        rw
          (
            (file_ok (reader.load (yaml_path tun)) (ConfigError.config_file (yaml_path tun))
                  l.stored).1
                l.loads,
            (IsResolved-iff l.stored.secret_key c.secret_key).1 l.secret_key,
            resolved_peers l.stored.peers c.peers l.peers,
          )
          refl,
  )

  tunnels_loaded :
      (tunnels : List PathBuf) (before all : List P2PConnection)
      → load_tunnels reader tunnels before ≡ ok all
      → (new : List P2PConnection) × (all ≡ before ++ new) × AreLoaded tunnels new
  unfolding AreLoaded
  tunnels_loaded [] before all h = ([], sym (append-nil before ∙ ok-injective h), tt)
  tunnels_loaded (t ∷ ts) before all h =
      let (c, loads, h1) = >>=-eq-ok (load_tunnel reader t) _ h in
      let (new, e, rest) = tunnels_loaded ts (before ++ c ∷ []) all h1 in
      (c ∷ new, e ∙ append_assoc before (c ∷ []) new, ((IsLoaded-iff t c).0 loads, rest))

  loaded_tunnels :
      (tunnels : List PathBuf) (before new : List P2PConnection)
      → AreLoaded tunnels new
      → load_tunnels reader tunnels before ≡ ok (before ++ new)
  unfolding AreLoaded
  loaded_tunnels [] before [] h = ap ok (sym (append-nil before))
  loaded_tunnels [] before (c ∷ cs) h = absurd h
  loaded_tunnels (t ∷ ts) before [] h = absurd h
  loaded_tunnels (t ∷ ts) before (c ∷ cs) (one, rest) =
      rw ((IsLoaded-iff t c).1 one)
        (loaded_tunnels ts (before ++ c ∷ []) cs rest ∙ ap ok (append_assoc before (c ∷ []) cs))

  -- The configuration of the run command is read exactly if every tunnel's file gives a connection, with
  -- the keys that `file:` refers to read from their files; the connections are then those of the files,
  -- in the order of the tunnels, and nothing else of the configuration changes.
  pub new_iff :
      (verbose : Bool) (command : RunCommand) (cli : CliConfig)
      → command.connections ≡ []
      → (new reader (record { verbose = verbose; command = Command.run command }) ≡ ok cli) ↔ (
          (connections : List P2PConnection) × AreLoaded command.tunnels connections
          × (cli ≡ record {
            verbose = verbose;
            command = Command.run (record command { connections = connections });
          }))
  unfolding new
  new_iff verbose command cli none_yet = (
    λ h.
        let (c, loads, h1) = >>=-eq-ok (new_command reader (Command.run command)) _ h in
        let (connections, read, h2) =
          >>=-eq-ok (load_tunnels reader command.tunnels command.connections) _ loads in
        let (new, e, are) = tunnels_loaded command.tunnels command.connections connections read in
        (
          connections,
          subst (AreLoaded command.tunnels) (sym (e ∙ ap (λ xs. xs ++ new) none_yet)) are,
          sym (ok-injective h1)
              ∙ ap (λ x. record { verbose = verbose; command = x }) (sym (ok-injective h2)),
        ),
    λ (connections, are, e).
        rw
          (ap (load_tunnels reader command.tunnels) none_yet
            ∙ loaded_tunnels command.tunnels [] connections are)
          (ap ok (sym e)),
  )
