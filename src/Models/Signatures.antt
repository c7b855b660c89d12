-- ===== src/Models/Signatures.antt =====
-- signature.rs
pub mod Validity
use taple_core.Prelude.{
  ℕ, ◌≡◌, ◌↔◌, Bool, true, ◌&&◌, Eq, eq_iff, nat_eq, list_eq, ◌==◌, arith, Result, ok, ok_or,
  map_err, ◌>>=◌, Fault, raise, map_raise,
}
use taple_core.Identifier.{DigestDerivator}
use taple_core.Identifier.Digests.{DigestIdentifier, digest_identifier_eq}
use taple_core.Identifier.Keys.{KeyIdentifier, key_identifier_eq}
use taple_core.Models.Errors.{SubjectError, signature_creation_fails, signature_verify_fails}
use taple_core.Models.Crypto.{
  Borsh, Crypto, KeyPair, SignatureIdentifier, from_serializable_borsh, verify_key,
  to_signature_derivator, signature_derivator_beq,
}

-- timestamp.rs: nanoseconds.
abbrev pub TimeStamp : Type 0
TimeStamp = ℕ

pub record Signature : Type 0 where
  pub signer : KeyIdentifier
  pub timestamp : TimeStamp
  pub content_hash : DigestIdentifier
  pub value : SignatureIdentifier

-- The derived `PartialEq`.
unfoldable pub signature_beq : Signature → Signature → Bool
signature_beq a b =
    a.signer == b.signer
    && (a.timestamp == b.timestamp
        && (a.content_hash == b.content_hash
            && (signature_derivator_beq a.value.derivator b.value.derivator
                && a.value.signature == b.value.signature)))

pub signature_beq_iff : (a b : Signature) → (signature_beq a b ≡ true) ↔ (a ≡ b)
unfolding signature_beq signature_derivator_beq
signature_beq_iff a b = (
  λ h. ground (
    arith,
    eq_iff a.signer b.signer,
    eq_iff a.content_hash b.content_hash,
    eq_iff a.value.signature b.value.signature,
  ),
  λ h. ground (
    arith,
    h,
    eq_iff a.signer b.signer,
    eq_iff a.content_hash b.content_hash,
    eq_iff a.value.signature b.value.signature,
  ),
)

instance abbrev pub signature_eq : Eq Signature
signature_eq = record { test = signature_beq; test_iff = signature_beq_iff }

pub record Signed (A : Type 0) : Type 0 where
  pub content : A
  pub signature : Signature

module _ (crypto : Crypto) {A : Type 0} ⦃borsh : Borsh (A × TimeStamp)⦄ where
  -- `Signature::new`, at the time `now`.
  unfoldable pub new_signature :
      TimeStamp → A → KeyPair → DigestDerivator → Result Signature SubjectError
  unfolding from_serializable_borsh to_signature_derivator
  new_signature now content keys d =
      let signer : KeyIdentifier = record {
        public_key = keys.public_key;
        derivator = keys.derivator;
      } in
      do
        hash ←
            map_err (λ _. signature_creation_fails "Signature hash fails")
              (from_serializable_borsh crypto {A = A × TimeStamp} (content, now) d)
        value ← ok_or (crypto.sign keys hash.digest) (signature_creation_fails "Keys sign fails")
        ok (record {
          signer = signer;
          timestamp = now;
          content_hash = hash;
          value = record { derivator = to_signature_derivator signer; signature = value };
        })

  -- `Signature::verify`: the signed hash is made anew from the content; the hash that the
  -- signature carries gives only its derivator. A malformed key or signature may panic.
  unfoldable pub verify : Signature → A → Result Unit (Fault SubjectError)
  unfolding from_serializable_borsh verify_key
  verify s content = do
    hash ←
        map_err (λ _. raise (signature_creation_fails "Signature hash fails"))
          (from_serializable_borsh crypto {A = A × TimeStamp} (content, s.timestamp)
            s.content_hash.derivator)
    map_raise (λ _. signature_verify_fails "Signature verify fails")
        (verify_key crypto s.signer hash.digest s.value)
