-- ===== src/Models/Approvals.antt =====
-- approval.rs
use taple_core.Prelude.{ℕ, ◌≡◌, ◌↔◌, Bool, true, false, arith, Option, Eq, Result, map_err}
use taple_core.Identifier.{DigestDerivator}
use taple_core.Identifier.Digests.{DigestIdentifier}
use taple_core.Identifier.Keys.{KeyIdentifier}
use taple_core.Models.Values.{Value}
use taple_core.Models.Errors.{SubjectError, signature_creation_fails}
use taple_core.Models.Crypto.{Borsh, Crypto, from_serializable_borsh}
use taple_core.Models.Signatures.{Signed}
use taple_core.Models.Requests.{EventRequest}

pub record ApprovalRequest : Type 0 where
  pub event_request : Signed EventRequest
  pub sn : ℕ
  pub gov_version : ℕ
  pub patch : Value
  pub state_hash : DigestIdentifier
  pub hash_prev_event : DigestIdentifier
  pub gov_id : DigestIdentifier

pub record ApprovalResponse : Type 0 where
  pub appr_req_hash : DigestIdentifier
  pub approved : Bool

pub data ApprovalState : Type 0 where
  pending responded_accepted responded_rejected obsolete : ApprovalState

abbrev pub approval_state_beq : ApprovalState → ApprovalState → Bool
approval_state_beq pending pending = true
approval_state_beq responded_accepted responded_accepted = true
approval_state_beq responded_rejected responded_rejected = true
approval_state_beq obsolete obsolete = true
approval_state_beq _ _ = false

pub approval_state_beq_iff : (a b : ApprovalState) → (approval_state_beq a b ≡ true) ↔ (a ≡ b)
approval_state_beq_iff a b = (λ h. ground arith, λ h. ground arith)

instance abbrev pub approval_state_eq : Eq ApprovalState
approval_state_eq = record { test = approval_state_beq; test_iff = approval_state_beq_iff }

pub record ApprovalEntity : Type 0 where
  pub id : DigestIdentifier
  pub request : Signed ApprovalRequest
  pub response : Option (Signed ApprovalResponse)
  pub state : ApprovalState
  pub sender : KeyIdentifier

-- `hash_id` of `ApprovalRequest`
unfoldable pub hash_id :
    (crypto : Crypto) ⦃borsh : Borsh ApprovalRequest⦄
    → ApprovalRequest
    → DigestDerivator
    → Result DigestIdentifier SubjectError
unfolding from_serializable_borsh
hash_id crypto r d =
    map_err (λ _. signature_creation_fails "HashId for ApprovalRequest Fails")
      (from_serializable_borsh crypto r d)
