-- ===== src/Service/Startup.antt =====
-- What src/service.rs checks before anything is started: `parse_peer_key`, `validate_connections` and
-- the guards of `run`. The Base64 decoder is a parameter.
use p2p_tunnler.Prelude.{
  ℕ, suc, ◌+◌, ◌≤◌, ◌≡◌, ◌≢◌, ◌↔◌, ◌⊎◌, refl, ap, not, ◌&&◌, Option, some, List, [], ◌∷◌, ◌==◌, ltb,
  if◌then◌else◌, length, arith, Result, ok, err, ◌>>=◌, >>=-eq-ok,
}
use Prim.Native.String.{String}
use p2p_tunnler.Net.{Bytes}
use p2p_tunnler.Crypto.{CryptoError, decode_base64_key, decode_base64_key_iff}

-- `Peer` and `P2PConnection` of src/config.rs.
pub record Peer : Type 0 where
  pub local_port : ℕ
  pub public_key : String
  pub name : Option String

pub record P2PConnection : Type 0 where
  pub secret_key : String
  pub peers : List Peer

pub data StartupError : Type 0 where
  secret_key_invalid : ℕ → CryptoError → StartupError
  peer_key_invalid : ℕ → Option String → CryptoError → StartupError
  no_peers out_port_with_many_peers : StartupError

abbrev pub map_err :
    (CryptoError → StartupError) → Result CryptoError Bytes → Result StartupError Bytes
map_err f (ok bytes) = ok bytes
map_err f (err e) = err (f e)

abbrev pub peer_count : List P2PConnection → ℕ
peer_count [] = 0
peer_count (connection ∷ connections) = length connection.peers + peer_count connections

abbrev pub guard_peers : ℕ → ℕ → Result {0} StartupError Unit
guard_peers peers out_port =
    if peers == 0
    then err no_peers
    else if not (out_port == 0) && ltb 1 peers
    then err out_port_with_many_peers
    else ok tt

guarded :
    (n out_port : ℕ) → (guard_peers n out_port ≡ ok tt) ↔ ((n ≢ 0) × ((out_port ≡ 0) ⊎ (n ≤ 1)))
guarded n out_port = ground arith

module _ (base64_decode : String → Option Bytes) where
  unfoldable pub parse_peer_key : Peer → ℕ → Result StartupError Bytes
  parse_peer_key peer peer_index =
      map_err (peer_key_invalid peer_index peer.name)
        (decode_base64_key base64_decode peer.public_key)

  abbrev pub validate_peers : ℕ → List Peer → Result {0} StartupError Unit
  unfolding parse_peer_key
  validate_peers peer_index [] = ok tt
  validate_peers peer_index (peer ∷ peers) = do
    _ ← parse_peer_key peer peer_index
    validate_peers (suc peer_index) peers

  abbrev pub validate_from : ℕ → List P2PConnection → Result {0} StartupError Unit
  validate_from connection_index [] = ok tt
  validate_from connection_index (connection ∷ connections) = do
    _ ←
        map_err (secret_key_invalid connection_index)
          (decode_base64_key base64_decode connection.secret_key)
    _ ← validate_peers 0 connection.peers
    validate_from (suc connection_index) connections

  unfoldable pub validate_connections : List P2PConnection → Result {0} StartupError Unit
  validate_connections connections = validate_from 0 connections

  -- The guards of `run`, which come before the start of any task.
  unfoldable pub check_run : List P2PConnection → ℕ → Result {0} StartupError Unit
  check_run connections out_port = do
    _ ← validate_connections connections
    guard_peers (peer_count connections) out_port

  -- A key that decodes to 32 bytes.
  abbrev pub IsKey : String → Type 0
  IsKey key = (bytes : Bytes) × (base64_decode key ≡ some bytes) × (length bytes ≡ 32)

  abbrev pub ArePeerKeys : List Peer → Type 0
  ArePeerKeys [] = Unit
  ArePeerKeys (peer ∷ peers) = IsKey peer.public_key × ArePeerKeys peers

  abbrev pub AreKeys : List P2PConnection → Type 0
  AreKeys [] = Unit
  AreKeys (connection ∷ connections) =
      IsKey connection.secret_key × ArePeerKeys connection.peers × AreKeys connections

  map_err_ok :
      (f : CryptoError → StartupError) (r : Result CryptoError Bytes) (bytes : Bytes)
      → map_err f r ≡ ok bytes
      → r ≡ ok bytes
  map_err_ok f (ok b) bytes h = cc
  map_err_ok f (err e) bytes h = absurd cc

  decoded :
      (f : CryptoError → StartupError) (key : String) (bytes : Bytes)
      → map_err f (decode_base64_key base64_decode key) ≡ ok bytes
      → IsKey key
  decoded f key bytes h =
      let (found, n) =
        (decode_base64_key_iff base64_decode key bytes).0
          (map_err_ok f (decode_base64_key base64_decode key) bytes h) in
      (bytes, found, n)

  decodes :
      (f : CryptoError → StartupError) (key : String) (k : IsKey key)
      → map_err f (decode_base64_key base64_decode key) ≡ ok k.0
  decodes f key (bytes, found, n) =
      ap (map_err f) ((decode_base64_key_iff base64_decode key bytes).1 (found, n))

  peers_valid : (i : ℕ) (peers : List Peer) → validate_peers i peers ≡ ok tt → ArePeerKeys peers
  unfolding parse_peer_key
  peers_valid i [] h = tt
  peers_valid i (peer ∷ peers) h =
      let (bytes, key, rest) =
        >>=-eq-ok
          (map_err (peer_key_invalid i peer.name) (decode_base64_key base64_decode peer.public_key))
          _ h in
      (
        decoded (peer_key_invalid i peer.name) peer.public_key bytes key,
        peers_valid (suc i) peers rest,
      )

  valid_peers : (i : ℕ) (peers : List Peer) → ArePeerKeys peers → validate_peers i peers ≡ ok tt
  unfolding parse_peer_key
  valid_peers i [] h = refl
  valid_peers i (peer ∷ peers) h =
      rw (decodes (peer_key_invalid i peer.name) peer.public_key h.0)
        (valid_peers (suc i) peers h.1)

  valid_from :
      (i : ℕ) (connections : List P2PConnection)
      → (validate_from i connections ≡ ok tt) ↔ AreKeys connections
  valid_from i [] = (λ h. tt, λ h. refl)
  valid_from i (c ∷ cs) = (
    λ h.
        let (bytes, key, rest) =
          >>=-eq-ok (map_err (secret_key_invalid i) (decode_base64_key base64_decode c.secret_key))
            _ h in
        let (u, peers, others) = >>=-eq-ok (validate_peers 0 c.peers) _ rest in
        (
          decoded (secret_key_invalid i) c.secret_key bytes key,
          peers_valid 0 c.peers peers,
          (valid_from (suc i) cs).0 others,
        ),
    λ h.
        rw (decodes (secret_key_invalid i) c.secret_key h.0, valid_peers 0 c.peers h.1)
          ((valid_from (suc i) cs).1 h.2),
  )

  -- The service starts exactly if every secret and public key of the configuration is the Base64 of 32
  -- bytes, there is a peer, and there is only one if a port is asked for.
  pub check_run_iff :
      (connections : List P2PConnection) (out_port : ℕ)
      → (check_run connections out_port ≡ ok tt) ↔ (
          AreKeys connections
          × (peer_count connections ≢ 0)
          × ((out_port ≡ 0) ⊎ (peer_count connections ≤ 1)))
  unfolding check_run validate_connections
  check_run_iff connections out_port = (
    λ h.
        let (u, keys, guards) = >>=-eq-ok (validate_from 0 connections) _ h in
        let (some_peer, one) = (guarded (peer_count connections) out_port).0 guards in
        ((valid_from 0 connections).0 keys, some_peer, one),
    λ (keys, some_peer, one).
        rw ((valid_from 0 connections).1 keys)
          ((guarded (peer_count connections) out_port).1 (some_peer, one)),
  )
