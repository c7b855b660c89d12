-- ===== src/Models/Signatures/Validity.antt =====
-- When `Signature::verify` accepts a signature, and when it panics.
use taple_core.Prelude.{
  ◌≡◌, ◌↔◌, ◌⊎◌, inl, inr, refl, true, false, some, Option-cases, arith, Result, ok, err, Fault,
  raise, panic, map_raise, map_raise-eq-ok, none, sym, ap, ◌∙◌,
}
use taple_core.Identifier.{Bytes, KeyDerivator, sha2_256, ed25519, secp256k1}
use taple_core.Models.Errors.{signature_creation_fails, signature_verify_fails}
use taple_core.Models.Crypto.{
  Borsh, Crypto, KeyError, SignatureDerivator, ed25519_sha512, ecdsa_secp256k1,
  from_serializable_borsh, verify_key, ed25519_verify, secp256k1_verify,
}
use taple_core.Models.Signatures.{TimeStamp, Signature, verify}

-- The scheme of a signature is that of a key.
abbrev pub SameScheme : KeyDerivator → SignatureDerivator → Type 0
SameScheme ed25519 d = d ≡ ed25519_sha512
SameScheme secp256k1 d = d ≡ ecdsa_secp256k1

module _ (crypto : Crypto) where
  -- What is signed under a scheme: the hash, which secp256k1 hashes again.
  abbrev pub signed_message : KeyDerivator → Bytes → Bytes
  signed_message ed25519 hash = hash
  signed_message secp256k1 hash = crypto.digest sha2_256 hash

  -- The bytes of a key and of a signature, of the same scheme, parse, and the signature is right.
  abbrev IsSigned : KeyDerivator → SignatureDerivator → Bytes → Bytes → Bytes → Type 0
  IsSigned d e public_key hash signature =
      (crypto.is_public_key d public_key ≡ true)
      × SameScheme d e
      × (crypto.is_signature d signature ≡ true)
      × (crypto.verify d public_key (signed_message d hash) signature ≡ true)

  -- The bytes of a key are no public key of its scheme or, under secp256k1, those of a signature are
  -- no signature.
  abbrev Malformed : KeyDerivator → SignatureDerivator → Bytes → Bytes → Type 0
  Malformed d e public_key signature =
      (crypto.is_public_key d public_key ≡ false)
      ⊎ ((d ≡ secp256k1)
          × (e ≡ ecdsa_secp256k1)
          × (crypto.is_signature secp256k1 signature ≡ false))

  module _ (public_key hash signature : Bytes) where
    -- `verify_key` of a key and a signature given by their parts.
    abbrev verified : KeyDerivator → SignatureDerivator → Result Unit (Fault KeyError)
    verified d e =
        verify_key crypto (record { public_key = public_key; derivator = d }) hash
          (record { derivator = e; signature = signature })

    verified_iff :
        (d : KeyDerivator) (e : SignatureDerivator)
        → (verified d e ≡ ok tt) ↔ IsSigned d e public_key hash signature
    unfolding verify_key ed25519_verify secp256k1_verify
    verified_iff ed25519 ed25519_sha512 = (λ h. ground (arith, h), λ h. ground (arith, h))
    verified_iff ed25519 ecdsa_secp256k1 = (λ h. ground (arith, h), λ h. ground (arith, h))
    verified_iff secp256k1 ed25519_sha512 = (λ h. ground (arith, h), λ h. ground (arith, h))
    verified_iff secp256k1 ecdsa_secp256k1 = (λ h. ground (arith, h), λ h. ground (arith, h))

    verified-panic_iff :
        (d : KeyDerivator) (e : SignatureDerivator)
        → (verified d e ≡ err panic) ↔ Malformed d e public_key signature
    unfolding verify_key ed25519_verify secp256k1_verify
    verified-panic_iff ed25519 ed25519_sha512 = (λ h. ground (arith, h), λ h. ground (arith, h))
    verified-panic_iff ed25519 ecdsa_secp256k1 = (λ h. ground (arith, h), λ h. ground (arith, h))
    verified-panic_iff secp256k1 ed25519_sha512 = (λ h. ground (arith, h), λ h. ground (arith, h))
    verified-panic_iff secp256k1 ecdsa_secp256k1 = (λ h. ground (arith, h), λ h. ground (arith, h))

map_raise-panic :
    {E F : Type 0} (f : E → F) (m : Result Unit (Fault E))
    → map_raise f m ≡ err panic
    → m ≡ err panic
map_raise-panic f (ok a) h = cc
map_raise-panic f (err (raise e)) h = absurd (ground (arith, h))
map_raise-panic f (err panic) h = refl

module _ (crypto : Crypto) {A : Type 0} ⦃borsh : Borsh (A × TimeStamp)⦄ where
  -- The signature is one of the hash of the content with the time, by its signer.
  abbrev pub IsValid : Signature → A → Type 0
  IsValid s content =
      (bytes : Bytes) × (borsh.try_to_vec (content, s.timestamp) ≡ some bytes)
      × IsSigned crypto s.signer.derivator s.value.derivator s.signer.public_key
          (crypto.digest s.content_hash.derivator bytes) s.value.signature

  -- The content can be written, and the signature or its signer's key is malformed.
  abbrev pub IsMalformed : Signature → A → Type 0
  IsMalformed s content =
      (bytes : Bytes) × (borsh.try_to_vec (content, s.timestamp) ≡ some bytes)
      × Malformed crypto s.signer.derivator s.value.derivator s.signer.public_key s.value.signature

  module _ (s : Signature) (content : A) where
    abbrev checked : Bytes → Result Unit (Fault KeyError)
    checked bytes =
        verified crypto s.signer.public_key (crypto.digest s.content_hash.derivator bytes)
          s.value.signature s.signer.derivator s.value.derivator

    verify-checked :
        (bytes : Bytes)
        → borsh.try_to_vec (content, s.timestamp) ≡ some bytes
        → verify crypto s content
          ≡ map_raise (λ _. signature_verify_fails "Signature verify fails") (checked bytes)
    unfolding verify from_serializable_borsh
    verify-checked bytes written = rw written refl

    -- What is not written is an error, and no panic.
    verify-written :
        (failed : borsh.try_to_vec (content, s.timestamp) ≡ none)
        → verify crypto s content ≡ err (raise (signature_creation_fails "Signature hash fails"))
    unfolding verify from_serializable_borsh
    verify-written failed = rw failed refl

    -- A signature is accepted exactly if the content and its time can be written, the bytes of the
    -- signer's key and of the signature parse under one scheme, and the signature is right for the
    -- hash of what is written, which under secp256k1 is hashed again.
    pub verify_iff : (verify crypto s content ≡ ok tt) ↔ IsValid s content
    verify_iff = (sound, complete)
      where
        sound : verify crypto s content ≡ ok tt → IsValid s content
        sound h = elim (Option-cases (borsh.try_to_vec (content, s.timestamp))) [
          | inl failed ↦ absurd (cc (verify-written failed, h))
          | inr (bytes, written) ↦ (
            bytes,
            written,
            (verified_iff crypto s.signer.public_key (crypto.digest s.content_hash.derivator bytes)
                  s.value.signature s.signer.derivator s.value.derivator).0
                (map_raise-eq-ok _ (checked bytes) (sym (verify-checked bytes written) ∙ h)),
          )
        ]

        complete : IsValid s content → verify crypto s content ≡ ok tt
        complete (bytes, written, signed) =
            verify-checked bytes written
            ∙ ap (map_raise (λ _. signature_verify_fails "Signature verify fails")) (
                (verified_iff crypto s.signer.public_key
                    (crypto.digest s.content_hash.derivator bytes) s.value.signature
                    s.signer.derivator s.value.derivator).1
                  signed)

    -- Checking a signature panics exactly if the content and its time can be written, and the bytes
    -- of the signer's key are no public key of its scheme or, where both are of secp256k1, those of
    -- the signature are no signature.
    pub verify-panic_iff : (verify crypto s content ≡ err panic) ↔ IsMalformed s content
    verify-panic_iff = (sound, complete)
      where
        sound : verify crypto s content ≡ err panic → IsMalformed s content
        sound h = elim (Option-cases (borsh.try_to_vec (content, s.timestamp))) [
          | inl failed ↦ absurd (ground (arith, verify-written failed, h))
          | inr (bytes, written) ↦ (
            bytes,
            written,
            (verified-panic_iff crypto s.signer.public_key
                  (crypto.digest s.content_hash.derivator bytes) s.value.signature
                  s.signer.derivator s.value.derivator).0
                (map_raise-panic _ (checked bytes) (sym (verify-checked bytes written) ∙ h)),
          )
        ]

        complete : IsMalformed s content → verify crypto s content ≡ err panic
        complete (bytes, written, malformed) =
            verify-checked bytes written
            ∙ ap (map_raise (λ _. signature_verify_fails "Signature verify fails")) (
                (verified-panic_iff crypto s.signer.public_key
                    (crypto.digest s.content_hash.derivator bytes) s.value.signature
                    s.signer.derivator s.value.derivator).1
                  malformed)
