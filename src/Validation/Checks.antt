-- ===== src/Validation/Checks.antt =====
-- `check_proofs` and `validate_previous_proof` of validation/validation.rs.
use taple_core.Prelude.{
  ℕ, ◌+◌, ◌%◌, ◌^◌, Bool, ◌&&◌, not, Option, none, some, List, [], ◌∷◌, insert, is_subset, length,
  nat_eq, list_eq, ◌==◌, eqb, ltb, if◌then◌else◌, Result, ok, err, map_err, ◌>>=◌, Fault, raise,
  map_raise,
}
use taple_core.Identifier.{Base64}
use taple_core.Identifier.Digests.{DigestIdentifier, digest_identifier_eq}
use taple_core.Identifier.Digests
use taple_core.Identifier.Keys.{KeyIdentifier, key_identifier_eq}
use taple_core.Models.Crypto.{Borsh, Crypto}
use taple_core.Models.Signatures.{TimeStamp, Signature, verify}
use taple_core.Models.Proofs.{ValidationProof, get_metadata, is_similar, proof_beq}
use taple_core.Governance.Stages.{validate}
use taple_core.Governance.Interface.{GovernanceApi}
use taple_core.Validation.Defs.{
  ValidationError, governance_error, event_sn_lower_than_last_signed, different_proof_for_event,
  previous_proof_left, invalid_signature, invalid_signer, quorum_not_reached,
  genesis_gov_versions_does_not_match,
}

-- `sn + 1` on a `u64`, which wraps in a release build.
abbrev pub next_sn : ℕ → ℕ
next_sn sn = (sn + 1) % 2 ^ 64

-- The tests of `validate_previous_proof` ahead of the signatures: the new proof follows the
-- previous one in the chain of the same subject.
unfoldable pub follows : ValidationProof → ValidationProof → Bool
follows previous p =
    previous.event_hash == p.prev_event_hash
    && (next_sn previous.sn == p.sn
        && (previous.genesis_governance_version == p.genesis_governance_version
            && (previous.namespace == p.namespace
                && (previous.name == p.name
                    && (previous.subject_id == p.subject_id
                        && (previous.schema_id == p.schema_id
                            && previous.governance_id == p.governance_id))))))

module _ (crypto : Crypto) ⦃borsh : Borsh (ValidationProof × TimeStamp)⦄ where
  -- The set of the signers, if every signature is valid.
  unfoldable pub actual_signers :
      ValidationProof → List Signature → Result (List KeyIdentifier) (Fault ValidationError)
  actual_signers p [] = ok []
  actual_signers p (s ∷ ss) =
      let rest = actual_signers p ss in
      do
        _ ← map_raise (λ _. invalid_signature) (verify crypto s p)
        signers ← rest
        ok (insert s.signer signers)

  -- The part of `validate_previous_proof` on the signatures.
  unfoldable pub check_signatures :
      GovernanceApi → ValidationProof → List Signature → Result Unit (Fault ValidationError)
  check_signatures gov_api previous signatures = do
    actual ← actual_signers previous signatures
    signers ←
        map_err (λ e. raise (governance_error e))
          (gov_api.get_signers (get_metadata previous) validate)
    quorum_size ←
        map_err (λ e. raise (governance_error e))
          (gov_api.get_quorum (get_metadata previous) validate)
    if not (is_subset actual signers)
        then err (raise invalid_signer)
        else if ltb (length actual) quorum_size
        then err (raise quorum_not_reached)
        else ok tt

  -- The `match` on the signatures.
  abbrev check_signatures? :
      GovernanceApi
      → ValidationProof
      → Option (List Signature)
      → Result Unit (Fault ValidationError)
  check_signatures? gov_api previous none = ok tt
  check_signatures? gov_api previous (some signatures) =
      check_signatures gov_api previous signatures

  unfoldable pub validate_previous_proof :
      GovernanceApi
      → ValidationProof
      → ValidationProof
      → Option (List Signature)
      → Result KeyIdentifier (Fault ValidationError)
  validate_previous_proof gov_api p previous signatures =
      if not (follows previous p)
      then err (raise different_proof_for_event)
      else do _ ← check_signatures? gov_api previous signatures; ok previous.subject_public_key

  module _ (gov_api : GovernanceApi) where
    -- Where the message must bring the previous proof, with its signatures.
    unfoldable pub check_previous :
        ValidationProof
        → Option ValidationProof
        → List Signature
        → Result KeyIdentifier (Fault ValidationError)
    check_previous p none signatures = err (raise previous_proof_left)
    check_previous p (some previous) signatures =
        validate_previous_proof gov_api p previous (some signatures)

    -- Where the register holds the proof of the previous event.
    unfoldable pub check_next :
        ValidationProof
        → Option ValidationProof
        → ValidationProof
        → Result KeyIdentifier (Fault ValidationError)
    check_next p none last = err (raise previous_proof_left)
    check_next p (some previous) last =
        if not (is_similar last previous)
        then err (raise different_proof_for_event)
        else validate_previous_proof gov_api p last none

  module _ (base64 : Base64) (gov_api : GovernanceApi) where
    -- `check_proofs`
    unfoldable pub check_proofs :
        ValidationProof
        → Option ValidationProof
        → List Signature
        → Option ValidationProof
        → Result KeyIdentifier (Fault ValidationError)
    check_proofs p previous signatures (some last) =
        if ltb p.sn last.sn
        then err (raise event_sn_lower_than_last_signed)
        else if eqb last.sn p.sn && not (eqb last.sn 0)
        then (if not (is_similar last p)
            then err (raise different_proof_for_event)
            else ok last.subject_public_key)
        else if eqb (next_sn last.sn) p.sn
        then check_next gov_api p previous last
        else if eqb p.sn 0
        then (if not (proof_beq last p)
            then err (raise different_proof_for_event)
            else ok p.subject_public_key)
        else check_previous gov_api p previous signatures
    check_proofs p previous signatures none =
        if not (eqb p.sn 0)
        then check_previous gov_api p previous signatures
        else if not (eqb p.governance_version p.genesis_governance_version)
        then err (raise (genesis_gov_versions_does_not_match (Digests.to_str base64 p.subject_id)))
        else ok p.subject_public_key
