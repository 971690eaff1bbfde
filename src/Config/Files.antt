-- ===== src/Config/Files.antt =====
-- The files that `CliConfig::new` of src/config.rs reads: `transform_file_to_string` and the loop over the
-- tunnels.
use p2p_tunnler.Prelude.{
  ℕ, Bool, false, not, Option, none, some, List, [], ◌∷◌, ◌++◌, ◌==◌, if◌then◌else◌, Result, ok,
  err, ◌>>=◌,
}
use Prim.Native.String.{String}
use p2p_tunnler.Net.{bytes_beq}
use p2p_tunnler.Text.Split.{strip_prefix}
use p2p_tunnler.Service.Startup.{Peer, P2PConnection}
use p2p_tunnler.Config.{PathBuf, Command, CliConfig}

pub data ConfigError : Type 0 where
  key_file : String → ConfigError
  config_file : PathBuf → ConfigError

-- The two calls that read files: `fs::read_to_string`, and the YAML reader with the conversion to a
-- `P2PConnection`.
pub record Reader : Type 0 where
  pub read_to_string : String → Option String
  pub load : PathBuf → Option P2PConnection

-- `yaml`.
abbrev pub yaml : List ℕ
yaml = b'y' ∷ b'a' ∷ b'm' ∷ b'l' ∷ []

abbrev pub cut_before : ℕ → List ℕ → Option (List ℕ × List ℕ) → Option (List ℕ × List ℕ)
cut_before c cs (some (before, after)) = some (c ∷ before, after)
cut_before c cs none = if c == b'.' then some ([], cs) else none

-- A name before and behind its last dot.
abbrev pub rsplit_at_dot : List ℕ → Option (List ℕ × List ℕ)
rsplit_at_dot [] = none
rsplit_at_dot (c ∷ cs) = cut_before c cs (rsplit_at_dot cs)

-- A name that begins with its only dot has no extension.
abbrev pub behind_dot : Option (List ℕ × List ℕ) → Option (List ℕ)
behind_dot none = none
behind_dot (some ([], after)) = none
behind_dot (some (c ∷ before, after)) = some after

abbrev pub extension_of_name : Option (List ℕ) → Option (List ℕ)
extension_of_name none = none
extension_of_name (some name) = behind_dot (rsplit_at_dot name)

-- `Path::extension` and `PathBuf::add_extension`.
unfoldable pub extension : PathBuf → Option (List ℕ)
extension path = extension_of_name path.file_name

abbrev pub add_to_name : Option (List ℕ) → List ℕ → Option (List ℕ)
add_to_name none extension = none
add_to_name (some name) extension = some (name ++ b'.' ∷ extension)

unfoldable pub add_extension : PathBuf → List ℕ → PathBuf
add_extension path extension = record path { file_name = add_to_name path.file_name extension }

abbrev pub is_yaml : Option (List ℕ) → Bool
is_yaml none = false
is_yaml (some extension) = bytes_beq extension yaml

unfoldable pub yaml_path : PathBuf → PathBuf
yaml_path tun = if not (is_yaml (extension tun)) then add_extension tun yaml else tun

abbrev pub ok_or_file : {A : Type 0} → Option A → ConfigError → Result ConfigError A
ok_or_file none e = err e
ok_or_file (some a) e = ok a

module _ (reader : Reader) where
  abbrev pub read_stripped : String → Option String → Result ConfigError String
  read_stripped text none = ok text
  read_stripped text (some path) = ok_or_file (reader.read_to_string path) (key_file path)

  unfoldable pub transform_file_to_string : String → Result ConfigError String
  transform_file_to_string text = read_stripped text (strip_prefix "file:" text)

  abbrev pub transform_peers : List Peer → Result ConfigError (List Peer)
  unfolding transform_file_to_string
  transform_peers [] = ok []
  transform_peers (peer ∷ peers) = do
    public_key ← transform_file_to_string peer.public_key
    others ← transform_peers peers
    ok (record peer { public_key = public_key } ∷ others)

  -- One round of the loop.
  unfoldable pub load_tunnel : PathBuf → Result ConfigError P2PConnection
  load_tunnel tun = do
    connection ← ok_or_file (reader.load (yaml_path tun)) (config_file (yaml_path tun))
    secret_key ← transform_file_to_string connection.secret_key
    peers ← transform_peers connection.peers
    ok (record { secret_key = secret_key; peers = peers })

  abbrev pub load_tunnels :
      List PathBuf → List P2PConnection → Result ConfigError (List P2PConnection)
  load_tunnels [] connections = ok connections
  load_tunnels (tun ∷ tunnels) connections = do
    connection ← load_tunnel tun
    load_tunnels tunnels (connections ++ connection ∷ [])

  abbrev pub new_command : Command → Result ConfigError Command
  new_command (Command.run command) = do
    connections ← load_tunnels command.tunnels command.connections
    ok (Command.run (record command { connections = connections }))
  new_command command = ok command

  -- `CliConfig::new` on what the command line parses to.
  unfoldable pub new : CliConfig → Result ConfigError CliConfig
  new cli = do command ← new_command cli.command; ok (record cli { command = command })
