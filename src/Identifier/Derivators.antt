-- ===== src/Identifier/Derivators.antt =====
-- derive/digest.rs and derive/key.rs: the codes that a text form begins with, and the errors of
-- parsing. `panic` is the panic of a slice that leaves the text or splits a character.
use taple_core.Prelude.{
  ℕ, ◌+◌, ◌≡◌, ◌↔◌, Bool, true, false, ◌&&◌, List, [], ◌∷◌, arith, Option, Str, text, Eq, eqb, leb,
  if◌then◌else◌, Result, ok, err,
}

abbrev pub Bytes : Type 0
Bytes = List ℕ

-- The variants of identifier/error.rs that `from_str` gives, without what they carry; `panic` stands
-- for a slice that panics.
pub data IdError : Type 0 where
  deserialization_error semantic_error base64_decoding_error panic : IdError

-- The functions of the base64 crate that the identifiers call: `encode_config` with
-- `URL_SAFE_NO_PAD`, and `decode_config` with `URL_SAFE`.
pub record Base64 : Type 0 where
  pub encode : Bytes → Str
  pub decode : Str → Option Bytes

pub data DigestDerivator : Type 0 where
  blake3_256 blake3_512 sha2_256 sha2_512 sha3_256 sha3_512 : DigestDerivator

unfoldable pub digest_derivator_beq : DigestDerivator → DigestDerivator → Bool
digest_derivator_beq blake3_256 blake3_256 = true
digest_derivator_beq blake3_512 blake3_512 = true
digest_derivator_beq sha2_256 sha2_256 = true
digest_derivator_beq sha2_512 sha2_512 = true
digest_derivator_beq sha3_256 sha3_256 = true
digest_derivator_beq sha3_512 sha3_512 = true
digest_derivator_beq _ _ = false

pub digest_derivator_beq_iff : (a b : DigestDerivator) → (digest_derivator_beq a b ≡ true) ↔ (a ≡ b)
unfolding digest_derivator_beq
digest_derivator_beq_iff a b = (λ h. ground arith, λ h. ground arith)

instance abbrev pub digest_derivator_eq : Eq DigestDerivator
digest_derivator_eq = record { test = digest_derivator_beq; test_iff = digest_derivator_beq_iff }

pub data KeyDerivator : Type 0 where
  ed25519 secp256k1 : KeyDerivator

unfoldable pub key_derivator_beq : KeyDerivator → KeyDerivator → Bool
key_derivator_beq ed25519 ed25519 = true
key_derivator_beq secp256k1 secp256k1 = true
key_derivator_beq _ _ = false

pub key_derivator_beq_iff : (a b : KeyDerivator) → (key_derivator_beq a b ≡ true) ↔ (a ≡ b)
unfolding key_derivator_beq
key_derivator_beq_iff a b = (λ h. ground arith, λ h. ground arith)

instance abbrev pub key_derivator_eq : Eq KeyDerivator
key_derivator_eq = record { test = key_derivator_beq; test_iff = key_derivator_beq_iff }

-- `Derivator::to_str` of a digest derivator.
unfoldable pub digest_code : DigestDerivator → Str
digest_code blake3_256 = text "J"
digest_code blake3_512 = text "0J"
digest_code sha2_256 = text "L"
digest_code sha2_512 = text "0L"
digest_code sha3_256 = text "M"
digest_code sha3_512 = text "0M"

-- `Derivator::code_len`
unfoldable pub digest_code_len : DigestDerivator → ℕ
digest_code_len blake3_256 = 1
digest_code_len sha2_256 = 1
digest_code_len sha3_256 = 1
digest_code_len _ = 2

-- `Derivator::derivative_len`
unfoldable pub digest_derivative_len : DigestDerivator → ℕ
digest_derivative_len blake3_256 = 43
digest_derivative_len sha2_256 = 43
digest_derivative_len sha3_256 = 43
digest_derivative_len _ = 86

-- `Derivator::material_len`
unfoldable pub digest_material_len : DigestDerivator → ℕ
unfolding digest_code_len digest_derivative_len
digest_material_len d = digest_code_len d + digest_derivative_len d

-- Whether a text may be cut in front of what is left of it: no continuation byte comes next.
abbrev pub is_boundary : Str → Bool
is_boundary [] = true
is_boundary (c ∷ rest) = if leb 0x80 c && leb c 0xBF then false else true

-- The inner match, on `&s[1..2]`.
abbrev digest_code_512 : Str → Result DigestDerivator IdError
digest_code_512 [] = err panic
digest_code_512 (c ∷ rest) =
    if is_boundary rest
    then if eqb c b'J'
      then ok blake3_512
      else if eqb c b'L'
      then ok sha2_512
      else if eqb c b'M'
      then ok sha3_512
      else err deserialization_error
    else err panic

-- `DigestDerivator::from_str`
unfoldable pub digest_derivator_of : Str → Result DigestDerivator IdError
digest_derivator_of [] = err panic
digest_derivator_of (c ∷ rest) =
    if is_boundary rest
    then if eqb c b'J'
      then ok blake3_256
      else if eqb c b'L'
      then ok sha2_256
      else if eqb c b'M'
      then ok sha3_256
      else if eqb c b'0'
      then digest_code_512 rest
      else err deserialization_error
    else err panic

-- `Derivator::to_str` of a key derivator.
unfoldable pub key_code : KeyDerivator → Str
key_code ed25519 = text "E"
key_code secp256k1 = text "S"

-- `Derivator::code_len` and `Derivator::derivative_len` of a key derivator.
unfoldable pub key_code_len : KeyDerivator → ℕ
key_code_len ed25519 = 1
key_code_len secp256k1 = 1

unfoldable pub key_derivative_len : KeyDerivator → ℕ
key_derivative_len ed25519 = 43
key_derivative_len secp256k1 = 87

unfoldable pub key_material_len : KeyDerivator → ℕ
unfolding key_code_len key_derivative_len
key_material_len d = key_code_len d + key_derivative_len d

-- `KeyDerivator::from_str`, which tests for the empty text first.
unfoldable pub key_derivator_of : Str → Result KeyDerivator IdError
key_derivator_of [] = err deserialization_error
key_derivator_of (c ∷ rest) =
    if is_boundary rest
    then if eqb c b'E'
      then ok ed25519
      else if eqb c b'S'
      then ok secp256k1
      else err deserialization_error
    else err panic
