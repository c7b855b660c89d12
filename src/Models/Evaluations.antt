-- ===== src/Models/Evaluations.antt =====
-- evaluation.rs
use taple_core.Prelude.{ℕ, Bool, Str, Result, map_err}
use taple_core.Identifier.{DigestDerivator}
use taple_core.Identifier.Digests.{DigestIdentifier}
use taple_core.Models.Values.{Value}
use taple_core.Models.Errors.{SubjectError, signature_creation_fails}
use taple_core.Models.Crypto.{Borsh, Crypto, from_serializable_borsh}
use taple_core.Models.Signatures.{Signed}
use taple_core.Models.Requests.{EventRequest}

pub record SubjectContext : Type 0 where
  pub governance_id : DigestIdentifier
  pub schema_id : Str
  pub is_owner : Bool
  pub state : Value
  pub namespace : Str

pub record EvaluationRequest : Type 0 where
  pub event_request : Signed EventRequest
  pub context : SubjectContext
  pub sn : ℕ
  pub gov_version : ℕ

pub record EvaluationResponse : Type 0 where
  pub patch : Value
  pub eval_req_hash : DigestIdentifier
  pub state_hash : DigestIdentifier
  pub eval_success : Bool
  pub appr_required : Bool

-- `hash_id` of `EvaluationRequest`
unfoldable pub hash_id :
    (crypto : Crypto) ⦃borsh : Borsh EvaluationRequest⦄
    → EvaluationRequest
    → DigestDerivator
    → Result DigestIdentifier SubjectError
unfolding from_serializable_borsh
hash_id crypto r d =
    map_err (λ _. signature_creation_fails "HashId for EvaluationRequest Fails")
      (from_serializable_borsh crypto r d)
