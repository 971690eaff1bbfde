-- ===== src/Examples/Data.antt =====
-- The addresses, tokens and messages of the examples.
use p2p_tunnler.Prelude.{[], ◌∷◌, replicate, none, some}
use p2p_tunnler.Net.{Bytes, SocketAddr}
use p2p_tunnler.Stun.Codec.Types.{ChangeRequest, BindRequest, BindResponse}

-- 192.0.2.1:3478, 192.0.2.10:12345 and [2001:db8::10]:12345.
abbrev pub server : SocketAddr
server = SocketAddr.v4 (192 ∷ 0 ∷ 2 ∷ 1 ∷ []) 3478

abbrev pub peer : SocketAddr
peer = SocketAddr.v4 (192 ∷ 0 ∷ 2 ∷ 10 ∷ []) 12345

abbrev pub peer6 : SocketAddr
peer6 =
    SocketAddr.v6
      (0x20 ∷ 0x01 ∷ 0x0d ∷ 0xb8 ∷ 0 ∷ 0 ∷ 0 ∷ 0 ∷ 0 ∷ 0 ∷ 0 ∷ 0 ∷ 0 ∷ 0 ∷ 0 ∷ 0x10 ∷ []) 12345 0 0

abbrev pub local_token : Bytes
local_token = replicate 16 7

abbrev pub remote_token : Bytes
remote_token = replicate 16 9

-- The answer of a server to transaction 7 with the address of the peer, masked.
abbrev pub answer : Bytes
answer =
    1 ∷ 1 ∷ 0 ∷ 12 ∷ 0x21 ∷ 0x12 ∷ 0xA4 ∷ 0x42 ∷ 0 ∷ 0 ∷ 0 ∷ 0 ∷ 0 ∷ 0 ∷ 0 ∷ 0 ∷ 0 ∷ 0 ∷ 0 ∷ 7 ∷ 0
    ∷ 0x20 ∷ 0 ∷ 8 ∷ 0 ∷ 1 ∷ 0x11 ∷ 0x2B ∷ 0xE1 ∷ 0x12 ∷ 0xA6 ∷ 0x48 ∷ []

abbrev pub answered : BindResponse
answered = record {
  mapped_address = peer;
  source_address = none;
  changed_address = none;
  reflected_from = none;
}

abbrev pub request : BindRequest
request = record {
  response_address = some peer;
  change_request = ChangeRequest.ip;
  username = some (1 ∷ 2 ∷ 3 ∷ 4 ∷ 5 ∷ []);
}
