-- ===== src/Stun/Codec/Types.antt =====
-- The messages, attributes and constants of src/stun/codec.rs.
use p2p_tunnler.Prelude.{ℕ, Option}
use p2p_tunnler.Net.{Bytes, SocketAddr}

abbrev pub magic_cookie : ℕ
magic_cookie = 0x2112A442

pub data ChangeRequest : Type 0 where
  none ip port ip_and_port : ChangeRequest

pub record BindRequest : Type 0 where
  pub response_address : Option SocketAddr
  pub change_request : ChangeRequest
  pub username : Option Bytes

pub data Request : Type 0 where
  bind : BindRequest → Request
  shared_secret : Request

pub record BindResponse : Type 0 where
  pub mapped_address : SocketAddr
  pub source_address : Option SocketAddr
  pub changed_address : Option SocketAddr
  pub reflected_from : Option SocketAddr

pub data Response : Type 0 where
  bind : BindResponse → Response

pub data Attribute : Type 0 where
  mapped_address : SocketAddr → Attribute
  response_address : SocketAddr → Attribute
  changed_address : SocketAddr → Attribute
  source_address : SocketAddr → Attribute
  reflected_from : SocketAddr → Attribute
  change_request : ChangeRequest → Attribute
  message_integrity : Bytes → Attribute
  username : Bytes → Attribute
  unknown_optional : Attribute

-- Message types.
abbrev pub binding_request : ℕ
binding_request = 0x0001

abbrev pub binding_response : ℕ
binding_response = 0x0101

abbrev pub binding_error : ℕ
binding_error = 0x0111

abbrev pub shared_secret_response : ℕ
shared_secret_response = 0x0102

abbrev pub shared_secret_error : ℕ
shared_secret_error = 0x0112

-- Attribute types.
abbrev pub mapped_address_type : ℕ
mapped_address_type = 0x0001

abbrev pub response_address_type : ℕ
response_address_type = 0x0002

abbrev pub change_request_type : ℕ
change_request_type = 0x0003

abbrev pub source_address_type : ℕ
source_address_type = 0x0004

abbrev pub changed_address_type : ℕ
changed_address_type = 0x0005

abbrev pub username_type : ℕ
username_type = 0x0006

abbrev pub message_integrity_type : ℕ
message_integrity_type = 0x0008

abbrev pub reflected_from_type : ℕ
reflected_from_type = 0x000b

abbrev pub xor_mapped_address_type : ℕ
xor_mapped_address_type = 0x0020

abbrev pub change_request_ip : ℕ
change_request_ip = 0x20

abbrev pub change_request_port : ℕ
change_request_port = 0x40

abbrev pub change_request_ip_and_port : ℕ
change_request_ip_and_port = 0x60
