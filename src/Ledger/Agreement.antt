-- ===== src/Ledger/Agreement.antt =====
-- What `check_validation_proof` of ledger/ledger.rs lets pass.
use taple_core.Prelude.{◌≡◌, ◌↔◌, arith, eq_iff, list_eq, nat_eq, ok, >>=-eq-ok}
use taple_core.Identifier.{Base64}
use taple_core.Identifier.Digests.{DigestIdentifier, digest_identifier_eq}
use taple_core.Identifier.Keys.{KeyIdentifier, key_identifier_eq}
use taple_core.Models.Crypto.{Borsh, Crypto}
use taple_core.Models.Subjects.{Subject}
use taple_core.Models.Events.{Event}
use taple_core.Models.Proofs.{ValidationProof}
use taple_core.Validation.Checks.{next_sn}
use taple_core.Database.Collections.{DatabaseCollection}
use taple_core.Database.Layers.{LayerCodecs, get_event}
use taple_core.Ledger.Checks.{check_fields, last_event_hash, check_validation_proof}

-- The proof is the one of the subject's next event.
abbrev pub IsNextProof :
    ValidationProof → Subject → DigestIdentifier → DigestIdentifier → KeyIdentifier → Type 0
IsNextProof p subject hash_prev_event event_hash public_key =
    (subject.governance_id ≡ p.governance_id)
    × (p.subject_id ≡ subject.subject_id)
    × (p.sn ≡ next_sn subject.sn)
    × (p.schema_id ≡ subject.schema_id)
    × (p.namespace ≡ subject.namespace)
    × (p.prev_event_hash ≡ hash_prev_event)
    × (p.event_hash ≡ event_hash)
    × (p.subject_public_key ≡ public_key)
    × (p.name ≡ subject.name)
    × (p.genesis_governance_version ≡ subject.genesis_gov_version)

check_fields_iff :
    (p : ValidationProof) (subject : Subject) (hash_prev_event event_hash : DigestIdentifier)
    (public_key : KeyIdentifier)
    → (check_fields p subject hash_prev_event event_hash public_key ≡ ok tt)
      ↔ IsNextProof p subject hash_prev_event event_hash public_key
unfolding check_fields
check_fields_iff p subject hash_prev_event event_hash public_key = (
  λ h. ground (
    arith,
    h,
    eq_iff subject.governance_id p.governance_id,
    eq_iff p.subject_id subject.subject_id,
    eq_iff p.schema_id subject.schema_id,
    eq_iff p.namespace subject.namespace,
    eq_iff p.prev_event_hash hash_prev_event,
    eq_iff p.event_hash event_hash,
    eq_iff p.subject_public_key public_key,
    eq_iff p.name subject.name,
  ),
  λ h. ground (
    arith,
    h,
    eq_iff subject.governance_id p.governance_id,
    eq_iff p.subject_id subject.subject_id,
    eq_iff p.schema_id subject.schema_id,
    eq_iff p.namespace subject.namespace,
    eq_iff p.prev_event_hash hash_prev_event,
    eq_iff p.event_hash event_hash,
    eq_iff p.subject_public_key public_key,
    eq_iff p.name subject.name,
  ),
)

module _ {S : Type 0} (c : DatabaseCollection S) (base64 : Base64) (codecs : LayerCodecs)
    (crypto : Crypto) ⦃event_borsh : Borsh Event⦄ where
  -- A proof passes just where the hash of the subject's last event can be made, and the proof is the
  -- one of the subject's next event: with that hash, the given hash of the event and the given key,
  -- and the subject's own names, versions and next number.
  pub check_validation_proof_iff :
      (p : ValidationProof) (subject : Subject) (event_hash : DigestIdentifier)
      (public_key : KeyIdentifier) (store : S)
      → (check_validation_proof c base64 codecs crypto p subject event_hash public_key store
          ≡ ok tt)
        ↔ ((hash : DigestIdentifier) × (last_event_hash c base64 codecs crypto
                (get_event c base64 codecs subject.subject_id subject.sn store)
                subject
                p
              ≡ ok hash)
            × IsNextProof p subject hash event_hash public_key)
  unfolding check_validation_proof
  check_validation_proof_iff p subject event_hash public_key store = (
    λ h.
        let (hash, made, checked) =
          >>=-eq-ok
            (last_event_hash c base64 codecs crypto
              (get_event c base64 codecs subject.subject_id subject.sn store) subject p)
            _ h in
        (hash, made, (check_fields_iff p subject hash event_hash public_key).0 checked),
    λ (hash, made, next). rw made ((check_fields_iff p subject hash event_hash public_key).1 next),
  )
