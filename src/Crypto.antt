-- ===== src/Crypto.antt =====
-- src/crypto.rs: the frame around a sealed message, and the keys in Base64. The cipher, the Base64
-- codec and the key derivation are the crates' and parameters.
pub mod Keys
use p2p_tunnler.Prelude.{
  ℕ, ◌≡◌, ◌↔◌, refl, Option, none, some, ◌++◌, ◌==◌, ltb, if◌then◌else◌, length, take, drop,
  take-append, drop-append, length-append, arith, Result, ok, err,
}
use Prim.Native.String.{String}
use p2p_tunnler.Net.{Bytes}

abbrev pub nonce_bytes : ℕ
nonce_bytes = 24

-- `SalsaBox` of the `crypto_box` crate at one pair of keys, by nonce; an error of it is `none`.
pub record SalsaBox : Type 0 where
  pub seal : Bytes → Bytes → Option Bytes
  pub unseal : Bytes → Bytes → Option Bytes

pub data CryptoError : Type 0 where
  encryption_failed : CryptoError
  decode_failed : CryptoError
  invalid_length : ℕ → CryptoError

unfoldable pub encrypt_with_nonce : SalsaBox → Bytes → Bytes → Result CryptoError Bytes
encrypt_with_nonce salsa plaintext nonce = elim (salsa.seal nonce plaintext) [
  | none ↦ err encryption_failed
  | some ciphertext ↦ ok (nonce ++ ciphertext)
]

-- `encrypt`, with the nonce that it draws.
abbrev pub encrypt : SalsaBox → Bytes → Bytes → Result CryptoError Bytes
encrypt salsa nonce plaintext = encrypt_with_nonce salsa plaintext nonce

unfoldable pub decrypt : SalsaBox → Bytes → Option Bytes
decrypt salsa encrypted_value =
    if ltb (length encrypted_value) nonce_bytes
    then none
    else salsa.unseal (take nonce_bytes encrypted_value) (drop nonce_bytes encrypted_value)

-- `try_into` to 32 bytes.
abbrev pub key_of : Option Bytes → Result CryptoError Bytes
key_of none = err CryptoError.decode_failed
key_of (some bytes) = if length bytes == 32 then ok bytes else err (invalid_length (length bytes))

unfoldable pub decode_base64_key : (String → Option Bytes) → String → Result CryptoError Bytes
decode_base64_key base64_decode value = key_of (base64_decode value)

key_of_iff :
    (o : Option Bytes) (bytes : Bytes)
    → (key_of o ≡ ok bytes) ↔ ((o ≡ some bytes) × (length bytes ≡ 32))
key_of_iff none bytes = (λ h. absurd cc, λ h. absurd cc)
key_of_iff (some found) bytes = ground arith

-- A key is read exactly if its Base64 decodes to 32 bytes, which it then is.
pub decode_base64_key_iff :
    (base64_decode : String → Option Bytes) (value : String) (bytes : Bytes)
    → (decode_base64_key base64_decode value ≡ ok bytes)
      ↔ ((base64_decode value ≡ some bytes) × (length bytes ≡ 32))
unfolding decode_base64_key
decode_base64_key_iff base64_decode value bytes = key_of_iff (base64_decode value) bytes

seal_some :
    (salsa : SalsaBox) (plaintext nonce value : Bytes) (sealed : Option Bytes)
    → salsa.seal nonce plaintext ≡ sealed
    → elim sealed as (λ x. Result CryptoError Bytes) [
      | none ↦ err encryption_failed
      | some c ↦ ok (nonce ++ c)
    ]
      ≡ ok value
    → (c : Bytes) × (salsa.seal nonce plaintext ≡ some c) × (value ≡ nonce ++ c)
seal_some salsa plaintext nonce value none e h = absurd cc
seal_some salsa plaintext nonce value (some c) e h = (c, e, cc)

-- If the peer's box opens what ours seals under the same nonce, then what is encrypted with a nonce of
-- 24 bytes is decrypted by the peer to the plaintext.
pub decrypt-encrypt_with_nonce :
    (ours theirs : SalsaBox) (plaintext nonce value : Bytes)
    → ((n p c : Bytes) → ours.seal n p ≡ some c → theirs.unseal n c ≡ some p)
    → length nonce ≡ nonce_bytes
    → encrypt_with_nonce ours plaintext nonce ≡ ok value
    → decrypt theirs value ≡ some plaintext
unfolding encrypt_with_nonce decrypt
decrypt-encrypt_with_nonce ours theirs plaintext nonce value opens n h =
    let (c, sealed, e) = seal_some ours plaintext nonce value (ours.seal nonce plaintext) refl h in
    rw
      (
        e,
        take-append nonce_bytes nonce c n,
        drop-append nonce_bytes nonce c n,
        opens nonce plaintext c sealed,
      )
      (ground (arith, length-append nonce c))
