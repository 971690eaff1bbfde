-- ===== src/Stun/Client.antt =====
-- src/stun/mod.rs: one request to the STUN server. The random transaction, what the send queue
-- answers and the outcome of each timed `recv` are arguments; logging is left out.
pub mod Answers
pub mod Source
use p2p_tunnler.Prelude.{
  ℕ, ◌-◌, ◌*◌, ◌^◌, Bool, true, false, Option, none, some, List, [], ◌∷◌, if◌then◌else◌, not,
  Result, ok, err, ◌>>=◌, ◌==◌,
}
use p2p_tunnler.Net.{Bytes, IpAddr, SocketAddr, socket_addr, socket_addr_beq, to_ipv4_mapped}
use p2p_tunnler.Wire.{ErrorKind, IoResult}
use p2p_tunnler.Stun.Codec.Types.{ChangeRequest, BindRequest, BindResponse, Request, Response}
use p2p_tunnler.Stun.Codec.Encode.{encode}
use p2p_tunnler.Stun.Codec.Decode.{decode_const}

-- What an outcome of a timed `recv` can be: the timeout, the closed channel, a datagram.
pub data Wait : Type 0 where
  timed_out : Wait
  closed : Wait
  received : Bytes → SocketAddr → Wait

-- What `try_send` answers: queued, dropped because the queue is full, or the task has stopped.
pub data Queued : Type 0 where
  sent dropped stopped : Queued

pub data StunError : Type 0 where
  encode_failed : ErrorKind → StunError
  decode_failed : ErrorKind → StunError
  queue_full task_stopped no_response : StunError

-- `normalize_ipv4_mapped_source`.
unfoldable pub normalize_ipv4_mapped_source : SocketAddr → SocketAddr
normalize_ipv4_mapped_source (SocketAddr.v4 octets port) = SocketAddr.v4 octets port
normalize_ipv4_mapped_source (SocketAddr.v6 octets port flowinfo scope_id) =
    elim (to_ipv4_mapped octets) [
      | none ↦ SocketAddr.v6 octets port flowinfo scope_id
      | some ipv4 ↦ socket_addr (IpAddr.v4 ipv4) port
    ]

unfoldable pub is_expected_stun_source : SocketAddr → SocketAddr → Bool
unfolding normalize_ipv4_mapped_source
is_expected_stun_source source stun_server =
    socket_addr_beq (normalize_ipv4_mapped_source source) stun_server

-- The loop of `send_request`, over the outcomes of its waits. `none`: it still waits.
unfoldable pub await_response : ℕ → SocketAddr → List Wait → Option (Result StunError Response)
await_response id stun_server [] = none
await_response id stun_server (timed_out ∷ rest) = some (err no_response)
await_response id stun_server (closed ∷ rest) = some (err no_response)
await_response id stun_server (received buf source ∷ rest) =
    let next = await_response id stun_server rest in
    if not (is_expected_stun_source source stun_server) then next else elim (decode_const id buf) [
      | none ↦ none
      | some (err e) ↦ some (err (decode_failed e))
      | some (ok (some response)) ↦ some (ok response)
      | some (ok none) ↦ next
    ]

-- `send_request`: nothing is waited for unless the request was queued.
unfoldable pub send_request :
    ℕ → SocketAddr → Request → Queued → List Wait → Option (Result StunError Response)
send_request id stun_server req queued waits = elim (encode (id, req) []).0 [
  | err e ↦ some (err (encode_failed e))
  | ok _ ↦ elim queued [
    | stopped ↦ some (err task_stopped)
    | dropped ↦ some (err queue_full)
    | sent ↦ await_response id stun_server waits
  ]
]

-- The default binding request.
abbrev pub plain_request : Request
plain_request =
    Request.bind
      (record { response_address = none; change_request = ChangeRequest.none; username = none })

abbrev pub mapped_address_of : Response → SocketAddr
mapped_address_of (Response.bind r) = r.mapped_address

abbrev pub map_address : Option (Result StunError Response) → Option (Result StunError SocketAddr)
map_address none = none
map_address (some r) = some (do response ← r; ok (mapped_address_of response))

-- `Stun::lookup_public_address`.
unfoldable pub lookup_public_address :
    ℕ → SocketAddr → Queued → List Wait → Option (Result StunError SocketAddr)
lookup_public_address id stun_server queued waits =
    map_address (send_request id stun_server plain_request queued waits)
