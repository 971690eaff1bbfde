-- ===== src/Examples/CodecRuns.antt =====
-- Runs of the STUN codec.
use p2p_tunnler.Prelude.{◌≡◌, ◌↔◌, [], ◌∷◌, ◌++◌, length, Option, none, some, ok, arith, refl}
use p2p_tunnler.Net.{Bytes, IsBytes}
use p2p_tunnler.Wire.{IoResult}
use p2p_tunnler.Stun.Codec.Types.{Request, Response, Attribute}
use p2p_tunnler.Stun.Codec.Encode.{encode, encode_attribute, request_body, encode_bind, opaque}
use p2p_tunnler.Stun.Codec.Decode.{decode_const, read_attribute}
use p2p_tunnler.Stun.Codec.Response.{Answers, decode_const_iff}
use p2p_tunnler.Stun.Codec.Total.{decode_const-total}
use p2p_tunnler.Stun.Codec.Xor.{xor_response, decode_const-xor_response}
use p2p_tunnler.Stun.Codec.RoundTrip.{read_attribute-encode_attribute}
use p2p_tunnler.Stun.Codec.Message.{IsEncoding, encode_request_iff}
use p2p_tunnler.Examples.Data.{peer, peer6, answer, answered, request}

answer-IsBytes : IsBytes answer
answer-IsBytes = ground arith

decode_const_iff_example :
    (decode_const 7 answer ≡ some (ok (some (Response.bind answered)))) ↔ Answers 7 answer answered
decode_const_iff_example = decode_const_iff 7 answer answered answer-IsBytes (omega arith)

decode_const-total_example : (r : IoResult (Option Response)) × (decode_const 8 answer ≡ some r)
decode_const-total_example = decode_const-total 8 answer answer-IsBytes

decode_const-xor_response_example :
    decode_const 7 (xor_response 7 peer6)
    ≡ some (
        ok (
          some (
            Response.bind (record {
              mapped_address = peer6;
              source_address = none;
              changed_address = none;
              reflected_from = none;
            }))))
decode_const-xor_response_example =
    decode_const-xor_response 7 peer6 (omega arith) (ground arith) (ground arith)

read_attribute-encode_attribute_example :
    (buf : Bytes) × (encode_attribute (Attribute.source_address peer) (1 ∷ 2 ∷ []) ≡ ok buf)
    × (read_attribute (record { get_ref = buf ++ 3 ∷ []; position = 2 }) []
        ≡ ok (
          Attribute.source_address peer,
          record { get_ref = buf ++ 3 ∷ []; position = length buf },
        ))
read_attribute-encode_attribute_example =
    read_attribute-encode_attribute [] (Attribute.source_address peer) (1 ∷ 2 ∷ []) (3 ∷ [])
      (ground arith) (omega arith)

abbrev request_message : Bytes
request_message =
    0 ∷ 1 ∷ 0 ∷ 32 ∷ 0x21 ∷ 0x12 ∷ 0xa4 ∷ 0x42 ∷ 0 ∷ 0 ∷ 0 ∷ 0 ∷ 0 ∷ 0 ∷ 0 ∷ 0 ∷ 0 ∷ 0 ∷ 0 ∷ 7 ∷ 0
    ∷ 2 ∷ 0 ∷ 8 ∷ 0 ∷ 1 ∷ 0x30 ∷ 0x39 ∷ 192 ∷ 0 ∷ 2 ∷ 10 ∷ 0 ∷ 3 ∷ 0 ∷ 4 ∷ 0 ∷ 0 ∷ 0 ∷ 0x20 ∷ 0 ∷ 6
    ∷ 0 ∷ 8 ∷ 1 ∷ 2 ∷ 3 ∷ 4 ∷ 5 ∷ 0 ∷ 0 ∷ 0 ∷ []

-- Both sides of the equivalence hold here.
encode_request : encode (7, Request.bind request) (5 ∷ []) ≡ (ok tt, 5 ∷ request_message)
unfolding encode request_body encode_bind encode_attribute opaque
encode_request = refl

encode_request_iff_example :
    (encode (7, Request.bind request) (5 ∷ []) ≡ (ok tt, 5 ∷ request_message))
    ↔ ((bytes : Bytes) × IsEncoding 7 request bytes × (5 ∷ request_message ≡ 5 ∷ bytes))
encode_request_iff_example = encode_request_iff 7 request (5 ∷ []) (5 ∷ request_message) refl
