-- ===== src/Candidates/Publisher.antt =====
-- `publish_candidates` of src/candidates.rs: the record that goes to the DHT, and its way to the peer.
use p2p_tunnler.Prelude.{
  ℕ, ◌≡◌, refl, true, false, Option, none, some, List, length, map, Result, ok, err,
}
use Prim.Native.String.{String}
use p2p_tunnler.Net.{Bytes, SocketAddr, socket_addr_eq}
use p2p_tunnler.Crypto.{
  SalsaBox, CryptoError, encrypt, encrypt_with_nonce, nonce_bytes, decrypt-encrypt_with_nonce,
}
use p2p_tunnler.Probe.Types.{Instant}
use p2p_tunnler.Candidates.Types.{SystemTime, Message}
use p2p_tunnler.Candidates.Filter.{is_fresh_dht_timestamp}
use p2p_tunnler.Candidates.Listener.{
  Codecs, ConnectionFlags, Listener, accept, is_replay, apply_message, listen,
}

-- What `candidates.recv()` under its timeout of a minute gives.
pub data Received : Type 0 where
  timed_out : Received
  new_addresses : List SocketAddr → Received
  closed : Received
  overflowed : ℕ → Received

pub data PublishError : Type 0 where
  json : PublishError
  crypto : CryptoError → PublishError
  dht_put : PublishError
  source_stopped : PublishError

-- The message of one round.
abbrev pub published_message : SystemTime → List SocketAddr → String → Message
published_message now addresses token = record {
  timestamp = now;
  ip_addr_list = addresses;
  control = some (record { probe_token = token });
}

abbrev pub encrypted : Result CryptoError Bytes → Result PublishError Bytes
encrypted (ok value) = ok value
encrypted (err e) = err (crypto e)

abbrev pub sealed_message : SalsaBox → Bytes → Option Bytes → Result PublishError Bytes
sealed_message salsa nonce none = err json
sealed_message salsa nonce (some plaintext) = encrypted (encrypt salsa nonce plaintext)

-- The value that one round puts, over `serde_json::to_vec` and the nonce that the cipher draws.
unfoldable pub publish_value :
    (Message → Option Bytes)
    → SalsaBox
    → Bytes
    → SystemTime
    → List SocketAddr
    → String
    → Result PublishError Bytes
publish_value to_vec salsa nonce now addresses token =
    sealed_message salsa nonce (to_vec (published_message now addresses token))

-- The addresses of the next round.
unfoldable pub next_addresses : List SocketAddr → Received → Result PublishError (List SocketAddr)
next_addresses addresses timed_out = ok addresses
next_addresses addresses (new_addresses new) = ok new
next_addresses addresses closed = err source_stopped
next_addresses addresses (overflowed n) = ok addresses

-- What the text of an address keeps of it: `Display` writes no flow label, and parsing gives the label 0.
abbrev pub without_flowinfo : SocketAddr → SocketAddr
without_flowinfo (SocketAddr.v4 octets port) = SocketAddr.v4 octets port
without_flowinfo (SocketAddr.v6 octets port flowinfo scope_id) =
    SocketAddr.v6 octets port 0 scope_id

-- A message as it is read back from its JSON.
abbrev pub reread : Message → Message
reread m = record m { ip_addr_list = map without_flowinfo m.ip_addr_list }

sealed_ok :
    (salsa : SalsaBox) (nonce value : Bytes) (plaintext : Option Bytes)
    → sealed_message salsa nonce plaintext ≡ ok value
    → (p : Bytes) × (plaintext ≡ some p) × (encrypt_with_nonce salsa p nonce ≡ ok value)
sealed_ok salsa nonce value none h = absurd cc
sealed_ok salsa nonce value (some p) h =
    (p, refl, encrypted_ok (encrypt_with_nonce salsa p nonce) value h)
  where
    encrypted_ok :
        (r : Result CryptoError Bytes) (value : Bytes) → encrypted r ≡ ok value → r ≡ ok value
    encrypted_ok (ok v) value h = cc
    encrypted_ok (err e) value h = absurd cc

-- What one side publishes, the other takes over: if the peer's cipher undoes this side's, its parser reads
-- back what was printed but for the flow labels of addresses, the record is fresh when it arrives and
-- newer than the last one that was accepted, then the peer's listener applies exactly the message that
-- was published, with its token and its addresses without flow labels.
pub listen-publish_value :
    (to_vec : Message → Option Bytes) (ours : SalsaBox) (theirs : Codecs) (flags : ConnectionFlags)
    (l : Listener) (nonce value : Bytes) (now : SystemTime) (addresses : List SocketAddr)
    (token : String) (arrival : SystemTime) (instant : Instant)
    → ((n p c : Bytes) → ours.seal n p ≡ some c → theirs.salsa.unseal n c ≡ some p)
    → ((m : Message) (p : Bytes) → to_vec m ≡ some p → theirs.from_slice p ≡ some (reread m))
    → length nonce ≡ nonce_bytes
    → publish_value to_vec ours nonce now addresses token ≡ ok value
    → is_fresh_dht_timestamp now arrival ≡ true
    → is_replay l.last_timestamp now ≡ false
    → listen theirs flags (record { value = value; now = arrival; instant = instant }) l
      ≡ apply_message theirs flags instant (reread (published_message now addresses token)) l
unfolding publish_value listen accept
listen-publish_value to_vec ours theirs flags l nonce value now addresses token arrival instant
      opens parses n h fresh newer =
    let (p, printed, sealed) =
      sealed_ok ours nonce value (to_vec (published_message now addresses token)) h in
    let opened = decrypt-encrypt_with_nonce ours theirs.salsa p nonce value opens n sealed in
    rw (opened, parses (published_message now addresses token) p printed, fresh, newer) refl
