-- ===== src/Validation/Process.antt =====
-- `validation_event` of validation/validation.rs, and a run of calls.
use taple_core.Prelude.{
  ℕ, Bool, true, false, ◌&&◌, not, Option, none, some, List, [], ◌∷◌, nat_eq, list_eq, ◌==◌, eqb,
  ltb, text, if◌then◌else◌, Result, ok, err, map_err, ◌>>=◌, Fault, raise, map_raise,
}
use taple_core.Identifier.{Base64}
use taple_core.Identifier.Keys.{KeyIdentifier, key_identifier_eq}
use taple_core.Models.Errors.{DbError, ChannelErrors}
use taple_core.Models.Crypto.{Borsh, Crypto}
use taple_core.Models.Signatures.{TimeStamp, new_signature, verify}
use taple_core.Models.Proofs.{ValidationProof}
use taple_core.Governance.Errors.{RequestError}
use taple_core.Governance.Interface.{GovernanceApi}
use taple_core.Validation.Defs.{
  signature_error, ValidationError, governance_not_found, gov_api_unexpected_response,
  governance_version_too_high, governance_version_too_low, protocol_errors, database_error,
  subject_signature_not_valid, ValidationEvent, ValidationEventResponse, Message,
  higher_governance_expected, validator_response, Registers, State, Config, Surroundings,
}
use taple_core.Validation.Checks.{check_proofs}

-- The inner match on an error of the governance.
unfoldable pub version_error : RequestError → ValidationError
version_error (RequestError.governance_not_found _) = governance_not_found
version_error RequestError.subject_not_found = governance_not_found
version_error RequestError.invalid_governance_id = governance_not_found
version_error RequestError.channel_closed =
    ValidationError.channel_error ChannelErrors.channel_closed
version_error _ = gov_api_unexpected_response

-- The version of the governance that the validator knows; a governance that starts has none yet.
unfoldable pub actual_gov_version :
    GovernanceApi → ValidationProof → Result ℕ (Fault ValidationError)
unfolding version_error
actual_gov_version gov_api p =
    if p.schema_id == text "governance" && eqb p.sn 0
    then ok 0
    else map_err (λ e. raise (version_error e))
        (gov_api.get_governance_version p.governance_id p.subject_id)

module _ {S : Type 0} where
  -- `message_channel.tell`
  abbrev pub tell :
      {A : Type 0}
      → Bool
      → Message
      → Result A (Fault ValidationError)
      → State S
      → Result A (Fault ValidationError) × State S
  tell true m r s = (r, record s { sent = m ∷ s.sent })
  tell false m r s = (err (raise (ValidationError.channel_error ChannelErrors.channel_closed)), s)

  -- The register of a subject, if there is one.
  unfoldable pub last_proof :
      Registers S → S → ValidationProof → Result (Option ValidationProof) (Fault ValidationError)
  last_proof registers store p = elim (registers.get_validation_register store p.subject_id) [
    | ok last ↦ ok (some last)
    | err DbError.entry_not_found ↦ ok none
    | err _ ↦ err (raise database_error)
  ]

module _ (crypto : Crypto) ⦃borsh : Borsh (ValidationProof × TimeStamp)⦄ (base64 : Base64)
    {S : Type 0} (registers : Registers S) where
  -- From reading the register to the last test ahead of the write.
  unfoldable pub check_event :
      GovernanceApi → S → ValidationEvent → Result Unit (Fault ValidationError)
  check_event gov_api store e = do
    last ← last_proof registers store e.proof
    _ ← map_raise (λ _. subject_signature_not_valid) (verify crypto e.subject_signature e.proof)
    subject_pk ←
        check_proofs crypto base64 gov_api e.proof e.previous_proof
          e.prev_event_validation_signatures last
    if not (e.subject_signature.signer == subject_pk)
        then err (raise subject_signature_not_valid)
        else ok tt

  -- The last steps: sign the proof, and tell the sender.
  unfoldable pub answer :
      Config
      → Surroundings
      → ℕ
      → ValidationEvent
      → KeyIdentifier
      → State S
      → Result ValidationEventResponse (Fault ValidationError) × State S
  answer config around version e sender s =
      elim (new_signature crypto around.now e.proof config.keys config.derivator) [
        | err _ ↦ (err (raise (protocol_errors signature_error)), s)
        | ok signature ↦
            tell around.channel_open
              (validator_response e.proof.event_hash signature version sender)
              (ok (record { validation_signature = signature; gov_version_validation = version })) s
      ]

  -- The write of the register.
  unfoldable pub register :
      Config
      → Surroundings
      → ℕ
      → ValidationEvent
      → KeyIdentifier
      → State S
      → Result ValidationEventResponse (Fault ValidationError) × State S
  register config around version e sender s =
      elim (registers.set_validation_register s.store e.proof.subject_id e.proof) [
        | err _ ↦ (err (raise database_error), s)
        | ok store ↦ answer config around version e sender (record s { store = store })
      ]

  -- What follows once the versions agree.
  unfoldable pub sign_event :
      Config
      → Surroundings
      → ℕ
      → ValidationEvent
      → KeyIdentifier
      → State S
      → Result ValidationEventResponse (Fault ValidationError) × State S
  sign_event config around version e sender s = elim (check_event around.gov_api s.store e) [
    | err failure ↦ (err failure, s)
    | ok _ ↦ register config around version e sender s
  ]

  -- `validation_event`
  unfoldable pub validation_event :
      Config
      → Surroundings
      → ValidationEvent
      → KeyIdentifier
      → State S
      → Result ValidationEventResponse (Fault ValidationError) × State S
  validation_event config around e sender s = elim (actual_gov_version around.gov_api e.proof) [
    | err failure ↦ (err failure, s)
    | ok version ↦
        if ltb version e.proof.governance_version
        then (err (raise governance_version_too_high), s)
        else if ltb e.proof.governance_version version
        then tell around.channel_open
            (higher_governance_expected e.proof.governance_id config.identifier sender)
            (err (raise governance_version_too_low)) s
        else sign_event config around version e sender s
  ]

  -- A call of a run: what it meets, what it is given and by whom.
  abbrev pub Call : Type 0
  Call = Surroundings × ValidationEvent × KeyIdentifier

  -- The proof that a call has signed, if it has.
  abbrev pub signed_by :
      Call
      → Result ValidationEventResponse (Fault ValidationError)
      → List ValidationProof
      → List ValidationProof
  signed_by call (ok _) signed = call.1.proof ∷ signed
  signed_by call (err _) signed = signed

  -- The state after a run of calls, and the proofs that were signed, the last first.
  unfoldable pub run :
      Config → State S → List ValidationProof → List Call → State S × List ValidationProof
  run config s signed [] = (s, signed)
  run config s signed (call ∷ calls) =
      let (r, s') = validation_event config call.0 call.1 call.2 s in
      run config s' (signed_by call r signed) calls
