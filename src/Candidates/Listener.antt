-- ===== src/Candidates/Listener.antt =====
-- `listen_for_peer_candidates` of src/candidates.rs: what one value from the DHT does. The cipher, the
-- JSON parser and the Base64 decoder are parameters; the log is left out.
use p2p_tunnler.Prelude.{
  ℕ, Bool, false, not, ◌||◌, Option, none, some, List, [], ◌∷◌, ◌==◌, leb, if◌then◌else◌, length,
  take,
}
use Prim.Native.String.{String}
use p2p_tunnler.Net.{Bytes, SocketAddr, socket_addr_eq, ip, is_ipv4}
use p2p_tunnler.Collections.Sets
use p2p_tunnler.Collections.Sets.{retain, collect, set_eq}
use p2p_tunnler.Crypto.{SalsaBox, decrypt}
use p2p_tunnler.Transport.Candidates.{CandidateSet, replace_advertised}
use p2p_tunnler.Probe.Types.{Instant, State}
use p2p_tunnler.Probe.Frame.{decode_token}
use p2p_tunnler.Probe.Controller.{update_remote}
use p2p_tunnler.Candidates.Types.{SystemTime, Control, Message, max_remote_candidates}
use p2p_tunnler.Candidates.Filter.{
  is_usable_peer_addr, retained_known_connections, is_fresh_dht_timestamp,
}

-- The code that the listener calls outside the repository, at the keys of one peer.
pub record Codecs : Type 0 where
  pub salsa : SalsaBox
  pub from_slice : Bytes → Option Message
  pub base64_decode : String → Option Bytes

pub record ConnectionFlags : Type 0 where
  pub filter_ipv6 : Bool
  pub no_clear : Bool
  pub out_port : ℕ
  pub nat_map : Bool

-- The loop's local variable and the two objects that it shares with other tasks.
pub record Listener : Type 0 where
  pub last_timestamp : Option SystemTime
  pub connections : CandidateSet
  pub probes : State

abbrev pub is_replay : Option SystemTime → SystemTime → Bool
is_replay none timestamp = false
is_replay (some last) timestamp = leb timestamp last

abbrev pub decrypted : Codecs → Option Bytes → Option Message
decrypted codecs none = none
decrypted codecs (some plaintext) = codecs.from_slice plaintext

abbrev pub checked : SystemTime → Option SystemTime → Option Message → Option Message
checked now last none = none
checked now last (some message) =
    if not (is_fresh_dht_timestamp message.timestamp now)
    then none
    else if is_replay last message.timestamp
    then none
    else some message

-- The message of a value that none of the four guards of the loop skips.
unfoldable pub accept : Codecs → SystemTime → Option SystemTime → Bytes → Option Message
accept codecs now last value = checked now last (decrypted codecs (decrypt codecs.salsa value))

abbrev pub control_token : Codecs → Option Control → Option Bytes
control_token codecs none = none
control_token codecs (some control) = decode_token codecs.base64_decode control.probe_token

-- The chain of filters over the addresses of a message.
unfoldable pub listed_peers : ConnectionFlags → List SocketAddr → List SocketAddr
listed_peers flags ip_addr_list = collect (
    take max_remote_candidates (
      retain is_usable_peer_addr
        (retain (λ addr. not flags.filter_ipv6 || is_ipv4 (ip addr)) ip_addr_list)))

-- The loop under `no_clear`.
abbrev pub keep_known : List SocketAddr → List SocketAddr → List SocketAddr
keep_known updated [] = updated
keep_known updated (peer ∷ peers) =
    if length updated == max_remote_candidates
    then updated
    else keep_known (Sets.insert peer updated) peers

unfoldable pub updated_peers : ConnectionFlags → List SocketAddr → List SocketAddr → List SocketAddr
updated_peers flags known ip_addr_list =
    if flags.no_clear
    then keep_known (listed_peers flags ip_addr_list)
        (retained_known_connections known flags.filter_ipv6)
    else listed_peers flags ip_addr_list

abbrev pub replace_if_changed : CandidateSet → List SocketAddr → CandidateSet
replace_if_changed c updated =
    if not (set_eq c.advertised updated) then replace_advertised c updated else c

unfoldable pub apply_message : Codecs → ConnectionFlags → Instant → Message → Listener → Listener
apply_message codecs flags instant message l =
    let updated = updated_peers flags l.connections.advertised message.ip_addr_list in
    record {
      last_timestamp = some message.timestamp;
      connections = replace_if_changed l.connections updated;
      probes = update_remote instant (control_token codecs message.control) updated l.probes;
    }

abbrev pub apply_accepted :
    Codecs → ConnectionFlags → Instant → Option Message → Listener → Listener
apply_accepted codecs flags instant none l = l
apply_accepted codecs flags instant (some message) l = apply_message codecs flags instant message l

-- A value from the DHT with the two clocks at which it is handled.
pub record Arrival : Type 0 where
  pub value : Bytes
  pub now : SystemTime
  pub instant : Instant

unfoldable pub listen : Codecs → ConnectionFlags → Arrival → Listener → Listener
listen codecs flags a l =
    apply_accepted codecs flags a.instant (accept codecs a.now l.last_timestamp a.value) l

abbrev pub listen_all : Codecs → ConnectionFlags → List Arrival → Listener → Listener
listen_all codecs flags [] l = l
listen_all codecs flags (a ∷ rest) l = listen_all codecs flags rest (listen codecs flags a l)
