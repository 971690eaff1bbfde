-- ===== src/Examples/RecordRuns.antt =====
-- Runs of the exchange of records: a cipher that only marks its input, and a printer of one message.
use p2p_tunnler.Prelude.{
  ℕ, Result, ap, ◌≡◌, refl, sym, ap, List, [], ◌∷◌, replicate, ◌++◌, true, false, ◌&&◌, ◌||◌,
  Option, none, some, ok, arith, if◌then◌else◌, ◌==◌,
}
use Prim.Native.String.{String}
use p2p_tunnler.Net.{Bytes, SocketAddr, IpAddr, ip, is_ipv4, socket_addr_eq}
use p2p_tunnler.Collections.Sets.{contains}
use p2p_tunnler.Crypto.{SalsaBox, encrypt_with_nonce, decrypt}
use p2p_tunnler.Transport.Candidates.{default}
use p2p_tunnler.Probe.Types.{new, from_secs}
use p2p_tunnler.Candidates.Types.{Message, Control, SystemTime}
use p2p_tunnler.Candidates.Filter.{
  is_usable_peer_addr, is_fresh_dht_timestamp, retained_known_connections, local_ipv6_candidate,
}
use p2p_tunnler.Candidates.Listener.{
  Codecs, ConnectionFlags, Listener, Arrival, accept, listen, listen_all, updated_peers,
  listed_peers,
}
use p2p_tunnler.Candidates.Selection.{family_ok, updated_peers-exact}
use p2p_tunnler.Candidates.Replay.{no_replay}
use p2p_tunnler.Candidates.Advertised.{IsFiltered, listen_all-IsFiltered}
use p2p_tunnler.Candidates.Publisher.{
  Received, reread, published_message, publish_value, next_addresses,
}
use p2p_tunnler.Candidates.Publishing.{
  Turn, Clocks, publish_from, publish_candidates, arrivals, apply_all, AreTimely,
  publish_candidates-listen_all,
}
use p2p_tunnler.Candidates.Gather.{
  Mapping, Outside, stun_lookup, get_local_ipv6_addr, gather_round, gathered, GatherError,
  gather_round-ok, is_own, local_of, is_found,
}
use p2p_tunnler.Examples.Data.{server, peer, peer6, local_token, answer}
use p2p_tunnler.Stun.Client
use p2p_tunnler.Stun.Client.{
  Wait, Queued, send_request, await_response, is_expected_stun_source, normalize_ipv4_mapped_source,
}
use p2p_tunnler.Wire.{read_uint}
use p2p_tunnler.Stun.Codec.Encode.{
  encode, request_body, encode_bind, encode_change, encode_change_request, encode_response_address,
  encode_username, encode_attribute, write_message,
}
use p2p_tunnler.Stun.Codec.Decode.{
  decode_const, read_header, check_header, read_body, read_binding_response, read_attributes,
  read_attribute, read_value, note_attribute, read_address, read_padded, read_xor_address,
}

abbrev open_mark : Bytes → Option Bytes
open_mark [] = none
open_mark (mark ∷ plaintext) = if mark == 77 then some plaintext else none

abbrev marking : SalsaBox
marking = record {
  seal = λ nonce plaintext. some (77 ∷ plaintext);
  unseal = λ nonce ciphertext. open_mark ciphertext;
}

-- A printer of messages with at most one IPv4 address and an empty token, and its parser.
print_token : SystemTime → Bytes → String → Option Bytes
print_token timestamp rest String.[] = some (timestamp ∷ rest)
print_token timestamp rest (String.◌∷◌ c s) = none

print_parts : SystemTime → List SocketAddr → Option Control → Option Bytes
unfolding print_token
print_parts timestamp [] (some control) = print_token timestamp [] control.probe_token
print_parts timestamp (SocketAddr.v4 octets port ∷ []) (some control) =
    print_token timestamp (port ∷ octets) control.probe_token
print_parts timestamp addresses control = none

abbrev to_vec : Message → Option Bytes
unfolding print_parts
to_vec m = print_parts m.timestamp m.ip_addr_list m.control

abbrev parsed_addresses : Bytes → List SocketAddr
parsed_addresses [] = []
parsed_addresses (port ∷ octets) = SocketAddr.v4 octets port ∷ []

abbrev from_slice : Bytes → Option Message
from_slice (timestamp ∷ rest) = some (published_message timestamp (parsed_addresses rest) String.[])
from_slice bytes = none

abbrev published : Message
published = published_message (from_secs 1000) (peer ∷ []) String.[]

abbrev codecs : Codecs
codecs = record {
  salsa = marking;
  from_slice = from_slice;
  base64_decode = λ text. some local_token;
}

abbrev flags : ConnectionFlags
flags = record { filter_ipv6 = true; no_clear = false; out_port = 0; nat_map = false }

abbrev listener : Listener
listener = record { last_timestamp = none; connections = default; probes = new local_token }

abbrev nonce : Bytes
nonce = replicate 24 5

abbrev value : Bytes
value = nonce ++ 77 ∷ from_secs 1000 ∷ 12345 ∷ 192 ∷ 0 ∷ 2 ∷ 10 ∷ []

abbrev arrival : Arrival
arrival = record { value = value; now = from_secs 1010; instant = from_secs 3 }

marking_opens : (n p c : Bytes) → marking.seal n p ≡ some c → marking.unseal n c ≡ some p
marking_opens n p c h = ground (arith, h)

updated_peers-exact_example :
    contains (updated_peers flags (server ∷ []) (peer ∷ peer6 ∷ [])) peer ≡ (
      family_ok true peer
      && ((contains (peer ∷ peer6 ∷ []) peer && is_usable_peer_addr peer)
          || (false && contains (server ∷ []) peer)))
unfolding listed_peers retained_known_connections is_usable_peer_addr
updated_peers-exact_example =
    updated_peers-exact flags (server ∷ []) (peer ∷ peer6 ∷ []) peer (omega arith)
      (λ e. omega arith)

no_replay_example :
    let l' = listen_all codecs flags [] (listen codecs flags arrival listener) in
    (accept codecs (from_secs 1010) l'.last_timestamp value ≡ none)
    × (listen codecs flags arrival l' ≡ l')
unfolding accept decrypt is_fresh_dht_timestamp
no_replay_example =
    no_replay codecs flags listener arrival arrival [] published published refl refl (omega arith)

listen_all-IsFiltered_example :
    IsFiltered true (listen_all codecs flags (arrival ∷ []) listener).connections.advertised
listen_all-IsFiltered_example =
    listen_all-IsFiltered codecs flags (arrival ∷ []) listener
      (record { few = omega arith; distinct = tt; usable = λ a h. absurd cc })

parses_token :
    (timestamp : SystemTime) (rest : Bytes) (token : String) (p : Bytes)
    → print_token timestamp rest token ≡ some p
    → from_slice p ≡ some (published_message timestamp (parsed_addresses rest) token)
unfolding print_token
parses_token timestamp rest String.[] p h = ap from_slice (sym e)
  where
    e : timestamp ∷ rest ≡ p
    e = cc
parses_token timestamp rest (String.◌∷◌ c s) p h = absurd cc

parses_parts :
    (timestamp : SystemTime) (addresses : List SocketAddr) (control : Option Control) (p : Bytes)
    → print_parts timestamp addresses control ≡ some p
    → from_slice p
      ≡ some
          (reread (record { timestamp = timestamp; ip_addr_list = addresses; control = control }))
unfolding print_parts
parses_parts timestamp [] none p h = absurd cc
parses_parts timestamp [] (some control) p h = parses_token timestamp [] control.probe_token p h
parses_parts timestamp (SocketAddr.v6 o port f s ∷ rest) control p h = absurd cc
parses_parts timestamp (SocketAddr.v4 o port ∷ []) none p h = absurd cc
parses_parts timestamp (SocketAddr.v4 o port ∷ a ∷ rest) control p h = absurd cc
parses_parts timestamp (SocketAddr.v4 o port ∷ []) (some control) p h =
    parses_token timestamp (port ∷ o) control.probe_token p h

-- A minute after the first record the source of own candidates has given the peer's address.
abbrev turns : List Turn
turns =
    record {
      now = from_secs 1000;
      nonce = nonce;
      put = true;
      received = Received.new_addresses (peer ∷ []);
    }
    ∷ record { now = from_secs 1060; nonce = nonce; put = true; received = Received.timed_out }
    ∷ []

abbrev clocks : List Clocks
clocks =
    record { arrival = from_secs 1001; instant = from_secs 3 }
    ∷ record { arrival = from_secs 1061; instant = from_secs 63 }
    ∷ []

abbrev put_values : List Bytes
put_values =
    (nonce ++ 77 ∷ from_secs 1000 ∷ [])
    ∷ (nonce ++ 77 ∷ from_secs 1060 ∷ 12345 ∷ 192 ∷ 0 ∷ 2 ∷ 10 ∷ [])
    ∷ []

publish_candidates-listen_all_example :
    listen_all codecs flags (arrivals clocks put_values) listener
    ≡ apply_all codecs flags String.[] [] turns clocks listener
unfolding publish_candidates publish_from publish_value encrypt_with_nonce is_fresh_dht_timestamp
    next_addresses AreTimely to_vec print_parts print_token
publish_candidates-listen_all_example =
    publish_candidates-listen_all to_vec marking codecs flags marking_opens
      (λ m p h. parses_parts m.timestamp m.ip_addr_list m.control p h) String.[] turns clocks
      put_values listener refl (refl, refl, refl, (refl, refl, refl, tt))

abbrev pub outside : Outside
outside = record {
  lookup_host = ok (peer6 ∷ server ∷ []);
  bind_udp = ok tt;
  connects = true;
  local_addr = ok (SocketAddr.v6 (0x20 ∷ 1 ∷ 0x0d ∷ 0xb8 ∷ replicate 12 1) 40000 0 0);
  transaction = 7;
  queued = Queued.sent;
  received = Wait.received answer server ∷ [];
}

abbrev mapping : Mapping
mapping = record { external_addr = SocketAddr.v4 (192 ∷ 0 ∷ 2 ∷ 10 ∷ []) 4000; is_active = true }

abbrev dual : List SocketAddr
dual = SocketAddr.v6 (0x20 ∷ 1 ∷ 0x0d ∷ 0xb8 ∷ replicate 12 1) 5000 0 0 ∷ []

abbrev own : List SocketAddr
own =
    SocketAddr.v6 (0x20 ∷ 1 ∷ 0x0d ∷ 0xb8 ∷ replicate 12 1) 5000 0 0
    ∷ mapping.external_addr
    ∷ peer
    ∷ []

found-peer : stun_lookup outside server ≡ some peer
unfolding stun_lookup Client.lookup_public_address send_request encode request_body encode_bind
    await_response is_expected_stun_source decode_const read_header read_uint check_header read_body
    read_binding_response read_attributes read_attribute read_value normalize_ipv4_mapped_source
    note_attribute read_address read_padded read_xor_address encode_change encode_change_request
    encode_response_address encode_username encode_attribute write_message
found-peer = refl

-- What a round broadcasts when the lookup finds an address.
abbrev broadcast_of : Mapping → Option SocketAddr → Result GatherError (List SocketAddr × ℕ)
broadcast_of m found = ok (gathered dual (some m) found)

gathered-own : gather_round outside 5000 true (some mapping) ≡ ok (own, from_secs 60)
unfolding gather_round local_ipv6_candidate get_local_ipv6_addr
gathered-own = ap (broadcast_of mapping) found-peer

gather_round-ok_example :
    (resolved : List SocketAddr) × (server : SocketAddr) × (local_ipv6 : Option IpAddr)
    × (outside.lookup_host ≡ ok resolved)
    × (contains resolved server ≡ true)
    × (is_ipv4 (ip server) ≡ true)
    × ((true ≡ true) → get_local_ipv6_addr outside ≡ ok local_ipv6)
    × ((a : SocketAddr)
        → contains own a
          ≡ is_own (local_of true local_ipv6 5000) (some mapping) (stun_lookup outside server) a)
    × (from_secs 60
        ≡ (if is_found (stun_lookup outside server) then from_secs 60 else from_secs 15))
gather_round-ok_example =
    gather_round-ok outside 5000 true (some mapping) own (from_secs 60) gathered-own
