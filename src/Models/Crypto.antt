-- ===== src/Models/Crypto.antt =====
-- Hashing and keys. The hash functions, the signature schemes and borsh are third-party crates, so
-- they are parameters; what the program does around them is here.
use taple_core.Prelude.{
  Option, Bool, true, false, not, if◌then◌else◌, String, Result, ok, err, ok_or, ◌>>=◌, Fault,
  raise, panic,
}
use taple_core.Identifier.{
  Bytes, DigestDerivator, blake3_256, sha2_256, KeyDerivator, ed25519, secp256k1,
}
use taple_core.Identifier.Digests.{DigestIdentifier}
use taple_core.Identifier.Keys.{KeyIdentifier}

-- `borsh_serialization_failed` of `commons::errors::Error`, the one error of the hashing below.
pub data HashError : Type 0 where
  borsh_serialization_failed : HashError

-- `BorshSerialize::try_to_vec`
pub record Borsh (A : Type 0) : Type 0 where
  pub try_to_vec : A → Option Bytes

-- commons/crypto/mod.rs: a key pair, by its scheme and its two keys.
pub record KeyPair : Type 0 where
  pub derivator : KeyDerivator
  pub public_key : Bytes
  pub secret_key : Bytes

-- derive/signature.rs
pub data SignatureDerivator : Type 0 where
  ed25519_sha512 ecdsa_secp256k1 : SignatureDerivator

unfoldable pub signature_derivator_beq : SignatureDerivator → SignatureDerivator → Bool
signature_derivator_beq ed25519_sha512 ed25519_sha512 = true
signature_derivator_beq ecdsa_secp256k1 ecdsa_secp256k1 = true
signature_derivator_beq _ _ = false

-- signature_identifier.rs
pub record SignatureIdentifier : Type 0 where
  pub derivator : SignatureDerivator
  pub signature : Bytes

-- The hash of each derivator, signing with a key pair, which bytes parse as a public key and as a
-- signature of a scheme, and checking a parsed signature of a message by a parsed public key.
pub record Crypto : Type 0 where
  pub digest : DigestDerivator → Bytes → Bytes
  pub sign : KeyPair → Bytes → Option Bytes
  pub is_public_key : KeyDerivator → Bytes → Bool
  pub is_signature : KeyDerivator → Bytes → Bool
  pub verify : KeyDerivator → Bytes → Bytes → Bytes → Bool

module _ (crypto : Crypto) {A : Type 0} ⦃borsh : Borsh A⦄ where
  -- `DigestIdentifier::from_serializable_borsh`
  unfoldable pub from_serializable_borsh : A → DigestDerivator → Result DigestIdentifier HashError
  from_serializable_borsh a d = do
    bytes ← ok_or (borsh.try_to_vec a) borsh_serialization_failed
    ok (record { derivator = d; digest = crypto.digest d bytes })

  -- `DigestIdentifier::generate_with_blake3`
  unfoldable pub generate_with_blake3 : A → Result DigestIdentifier HashError
  generate_with_blake3 a = do
    bytes ← ok_or (borsh.try_to_vec a) borsh_serialization_failed
    ok (record { derivator = blake3_256; digest = crypto.digest blake3_256 bytes })

-- `KeyIdentifier::to_signature_derivator`
unfoldable pub to_signature_derivator : KeyIdentifier → SignatureDerivator
to_signature_derivator id = elim id.derivator [
  | ed25519 ↦ ed25519_sha512
  | secp256k1 ↦ ecdsa_secp256k1
]

-- The variants of identifier/error.rs that checking a signature gives.
pub data KeyError : Type 0 where
  sign_error verification_error : String → KeyError

module _ (crypto : Crypto) where
  -- `verify` of `Ed25519KeyPair`, whose public key is parsed already.
  unfoldable pub ed25519_verify : Bytes → Bytes → Bytes → Result Unit (Fault KeyError)
  ed25519_verify public_key message signature =
      if not (crypto.is_signature ed25519 signature)
      then err (raise (sign_error "Invalid signature data"))
      else if crypto.verify ed25519 public_key message signature
      then ok tt
      else err (raise (sign_error "Signature verify failed"))

  -- `verify` of `Secp256k1KeyPair`, whose public key is parsed already: the message is hashed, and a
  -- signature that does not parse is a panic.
  unfoldable pub secp256k1_verify : Bytes → Bytes → Bytes → Result Unit (Fault KeyError)
  secp256k1_verify public_key message signature =
      if not (crypto.is_signature secp256k1 signature)
      then err panic
      else if crypto.verify secp256k1 public_key (crypto.digest sha2_256 message) signature
      then ok tt
      else err (raise (sign_error "Signature verify failed"))

  -- `KeyIdentifier::verify`: `from_public_key` panics on bytes that are no public key of the scheme,
  -- ahead of the match on the scheme of the signature.
  unfoldable pub verify_key :
      KeyIdentifier → Bytes → SignatureIdentifier → Result Unit (Fault KeyError)
  unfolding ed25519_verify secp256k1_verify
  verify_key id message s =
      if not (crypto.is_public_key id.derivator id.public_key)
      then err panic
      else elim id.derivator [
        | ed25519 ↦ elim s.derivator [
          | ed25519_sha512 ↦ ed25519_verify id.public_key message s.signature
          | ecdsa_secp256k1 ↦ err (raise (verification_error "Wrong signature type"))
        ]
        | secp256k1 ↦ elim s.derivator [
          | ecdsa_secp256k1 ↦ secp256k1_verify id.public_key message s.signature
          | ed25519_sha512 ↦ err (raise (verification_error "Wrong signature type"))
        ]
      ]
