-- ===== src/Validation/Defs.antt =====
-- The messages, errors and state of the validator (validation/mod.rs, errors.rs, validation.rs).
use taple_core.Prelude.{
  ℕ, Bool, List, Option, Result, Str, ◌≡◌, ok, ◌==◌, if◌then◌else◌, nat_eq, list_eq,
}
use taple_core.Identifier.{DigestDerivator}
use taple_core.Identifier.Digests.{DigestIdentifier}
use taple_core.Identifier.Keys.{KeyIdentifier}
use taple_core.Models.Errors.{ChannelErrors, DbError}
use taple_core.Models.Crypto.{KeyPair}
use taple_core.Models.Signatures.{TimeStamp, Signature}
use taple_core.Models.Proofs.{ValidationProof}
use taple_core.Governance.Errors.{RequestError}
use taple_core.Governance.Interface.{GovernanceApi}

-- `ProtocolErrors` of commons/errors.rs; its case of an impossible error is left out.
pub data ProtocolErrors : Type 0 where
  signature_error : ProtocolErrors
  channel_error : ChannelErrors → ProtocolErrors
  oneshot_unavailable unexpected_ledger_response not_validator : ProtocolErrors
  governance_error : RequestError → ProtocolErrors

pub data ValidationError : Type 0 where
  protocol_errors : ProtocolErrors → ValidationError
  channel_error : ChannelErrors → ValidationError
  governance_error : RequestError → ValidationError
  input_channel_error owner_subject_not_known governance_not_found : ValidationError
  gov_api_unexpected_response governance_version_too_high : ValidationError
  governance_version_too_low event_sn_lower_than_last_signed : ValidationError
  different_proof_for_event serializing_error database_error previous_proof_left : ValidationError
  invalid_signature invalid_signer quorum_not_reached subject_signature_not_valid : ValidationError
  genesis_gov_versions_does_not_match : Str → ValidationError

pub record ValidationEvent : Type 0 where
  pub proof : ValidationProof
  pub subject_signature : Signature
  pub previous_proof : Option ValidationProof
  pub prev_event_validation_signatures : List Signature

pub record ValidationEventResponse : Type 0 where
  pub validation_signature : Signature
  pub gov_version_validation : ℕ

-- What the validator tells another node, with the node.
pub data Message : Type 0 where
  higher_governance_expected : DigestIdentifier → KeyIdentifier → KeyIdentifier → Message
  validator_response : DigestIdentifier → Signature → ℕ → KeyIdentifier → Message

-- The registers of the database that the validator uses: the last proof for each subject. `key` is
-- the text by which a subject is filed.
pub record Registers (S : Type 0) : Type 0 where
  pub key : DigestIdentifier → Str
  pub get_validation_register : S → DigestIdentifier → Result ValidationProof DbError
  pub set_validation_register : S → DigestIdentifier → ValidationProof → Result S DbError

-- A register is read by the text of its subject; a proof that is set is the one that is read, and
-- no other subject's proof changes.
pub record IsRegisters {S : Type 0} (r : Registers S) : Type 0 where
  pub get-key :
      (s : S) (i j : DigestIdentifier)
      → r.key i ≡ r.key j
      → r.get_validation_register s i ≡ r.get_validation_register s j
  pub get-set :
      (s t : S) (i j : DigestIdentifier) (p : ValidationProof)
      → r.set_validation_register s i p ≡ ok t
      → r.get_validation_register t j
        ≡ (if r.key i == r.key j then ok p else r.get_validation_register s j)

-- The validator between two calls: its database and what it has told others, the last first.
pub record State (S : Type 0) : Type 0 where
  pub store : S
  pub sent : List Message

-- The fixed parts of a validator: its keys and its derivator.
pub record Config : Type 0 where
  pub keys : KeyPair
  pub identifier : KeyIdentifier
  pub derivator : DigestDerivator

-- What a call meets outside: the answers of the governance, whether the message channel is open,
-- and the clock.
pub record Surroundings : Type 0 where
  pub gov_api : GovernanceApi
  pub channel_open : Bool
  pub now : TimeStamp
