-- ===== src/Crypto/Keys.antt =====
-- The keys of src/crypto.rs and their texts. The key derivation, the random bytes of a new key and the
-- Base64 codec are the crates' and parameters.
use p2p_tunnler.Prelude.{◌≡◌, refl, Option, some, length, Result, ok, ◌>>=◌}
use Prim.Native.String.{String}
use p2p_tunnler.Net.{Bytes}
use p2p_tunnler.Crypto.{CryptoError, decode_base64_key, decode_base64_key_iff}

pub record PublicKey : Type 0 where
  pub bytes : Bytes

pub record SecretKey : Type 0 where
  pub bytes : Bytes

-- What the crates do: the bytes of the public key to a secret one, and the Base64 codec.
pub record KeyCrates : Type 0 where
  pub public_key_of : Bytes → Bytes
  pub encode : Bytes → String
  pub decode : String → Option Bytes

pub record GeneratedKeys : Type 0 where
  pub secret_key : SecretKey
  pub encoded_secret_key : String
  pub public_key : PublicKey

module _ (crates : KeyCrates) where
  -- `SecretKey::public_key`.
  unfoldable pub public_key : SecretKey → PublicKey
  public_key secret_key = record { bytes = crates.public_key_of secret_key.bytes }

  -- `Display` of a public key.
  unfoldable pub to_string : PublicKey → String
  to_string key = crates.encode key.bytes

  -- `TryFrom<&str>` of the two kinds of keys.
  unfoldable pub public_key_from : String → Result CryptoError PublicKey
  public_key_from value = do
    bytes ← decode_base64_key crates.decode value
    ok (record { bytes = bytes })

  unfoldable pub secret_key_from : String → Result CryptoError SecretKey
  secret_key_from value = do
    bytes ← decode_base64_key crates.decode value
    ok (record { bytes = bytes })

  -- The new keys, from the bytes that are drawn.
  unfoldable pub generate_secret_key_base64 : Bytes → GeneratedKeys
  generate_secret_key_base64 drawn = record {
    secret_key = record { bytes = drawn };
    encoded_secret_key = crates.encode drawn;
    public_key = record { bytes = crates.public_key_of drawn };
  }

  -- A public key of 32 bytes is read back from its text, if Base64 decodes what it encodes.
  pub public_key_from-to_string :
      (key : PublicKey)
      → crates.decode (crates.encode key.bytes) ≡ some key.bytes
      → length key.bytes ≡ 32
      → public_key_from (to_string key) ≡ ok key
  unfolding public_key_from to_string
  public_key_from-to_string key codec full =
      rw ((decode_base64_key_iff crates.decode (crates.encode key.bytes) key.bytes).1 (codec, full))
        refl
