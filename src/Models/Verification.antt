-- ===== src/Models/Verification.antt =====
-- `verify_signatures` and `verify_eval_appr` of `Signed<Event>` in event.rs: whether the evaluators
-- and the approvers that an event carries suffice.
pub mod Quorums
pub mod Outcomes
use taple_core.Prelude.{
  ℕ, Bool, true, false, ◌&&◌, not, List, [], ◌∷◌, contains, is_subset, length, ltb, if◌then◌else◌,
  String, Result, ok, err, map_err, ◌>>=◌, Fault, raise,
}
use taple_core.Identifier.{blake3_256}
use taple_core.Identifier.Digests.{DigestIdentifier}
use taple_core.Identifier.Keys.{KeyIdentifier, key_identifier_eq}
use taple_core.Models.Errors.{SubjectError, repeated_signature, signers_error}
use taple_core.Models.Crypto.{Borsh, Crypto}
use taple_core.Models.Signatures.{TimeStamp, Signature, Signed, verify}
use taple_core.Models.Requests.{EventRequest, requires_eval_appr}
use taple_core.Models.Evaluations.{SubjectContext, EvaluationRequest, EvaluationResponse}
use taple_core.Models.Evaluations
use taple_core.Models.Approvals.{ApprovalRequest, ApprovalResponse}
use taple_core.Models.Approvals
use taple_core.Models.Events.{Event}

-- Who may sign, the quorum of an accepted event, and that of a refused one.
abbrev pub SignInfo : Type 0
SignInfo = List KeyIdentifier × ℕ × ℕ

module _ (crypto : Crypto) {A : Type 0} ⦃borsh : Borsh (A × TimeStamp)⦄ where
  -- The loop over a set of signatures of `content`, from the signers `seen` so far: it fails at the
  -- first repeated signer or wrong signature.
  unfoldable pub collect_signers :
      String
      → A
      → List KeyIdentifier
      → List Signature
      → Result (List KeyIdentifier) (Fault SubjectError)
  collect_signers repeated content seen [] = ok seen
  collect_signers repeated content seen (s ∷ ss) =
      let rest = collect_signers repeated content (s.signer ∷ seen) ss in
      if contains seen s.signer
      then err (raise (repeated_signature repeated))
      else (verify crypto s content >>= λ _. rest)

-- The tests on the set of signers behind each of the two loops.
unfoldable pub check_signers :
    String → String → List KeyIdentifier → ℕ → List KeyIdentifier → Result Unit (Fault SubjectError)
check_signers incorrect not_enough allowed quorum signers =
    if not (is_subset signers allowed)
    then err (raise (signers_error incorrect))
    else if ltb (length signers) quorum
    then err (raise (signers_error not_enough))
    else ok tt

module _ (crypto : Crypto) ⦃event_borsh : Borsh (Event × TimeStamp)⦄
    ⦃request_borsh : Borsh (EventRequest × TimeStamp)⦄ where
  -- `Signed<Event>::verify_signatures`
  unfoldable pub verify_signatures : Signed Event → Result Unit (Fault SubjectError)
  verify_signatures e = do
    _ ← verify crypto e.signature e.content
    verify crypto e.content.event_request.signature e.content.event_request.content

-- The request and the response that the evaluators of an event have signed.
unfoldable pub eval_request : Event → SubjectContext → EvaluationRequest
eval_request e context = record {
  event_request = e.event_request;
  context = context;
  sn = e.sn;
  gov_version = e.gov_version;
}

unfoldable pub eval_response : Event → DigestIdentifier → EvaluationResponse
eval_response e hash = record {
  patch = e.patch;
  eval_req_hash = hash;
  state_hash = e.state_hash;
  eval_success = e.eval_success;
  appr_required = e.appr_required;
}

-- The request and the response that the approvers of an event have signed.
unfoldable pub appr_request : Event → DigestIdentifier → ApprovalRequest
appr_request e gov_id = record {
  event_request = e.event_request;
  sn = e.sn;
  gov_version = e.gov_version;
  patch = e.patch;
  state_hash = e.state_hash;
  hash_prev_event = e.hash_prev_event;
  gov_id = gov_id;
}

unfoldable pub appr_response : Event → DigestIdentifier → ApprovalResponse
appr_response e hash = record { appr_req_hash = hash; approved = e.approved }

-- The first test: what needs neither evaluation nor approval.
unfoldable pub is_exempt : Event → Bool
unfolding requires_eval_appr
is_exempt e =
    not (requires_eval_appr e.event_request.content)
    && (e.eval_success && (e.approved && not e.appr_required))

module _ (crypto : Crypto) ⦃eval_request_borsh : Borsh EvaluationRequest⦄
    ⦃eval_response_borsh : Borsh (EvaluationResponse × TimeStamp)⦄
    ⦃appr_request_borsh : Borsh ApprovalRequest⦄
    ⦃appr_response_borsh : Borsh (ApprovalResponse × TimeStamp)⦄ where
  -- The part on the evaluators.
  unfoldable pub verify_evaluators :
      Event → SubjectContext → SignInfo → Result Unit (Fault SubjectError)
  verify_evaluators e context info = do
    hash ← map_err raise (Evaluations.hash_id crypto (eval_request e context) blake3_256)
    evaluators ←
        collect_signers crypto "Repeated Signer in Evaluators" (eval_response e hash) []
          e.evaluators
    check_signers "Incorrect Evaluators signed" "Not enough Evaluators signed" info.0
        (if e.eval_success then info.1 else info.2) evaluators

  -- The part on the approvers.
  unfoldable pub verify_approvers :
      Event → DigestIdentifier → SignInfo → Result Unit (Fault SubjectError)
  verify_approvers e gov_id info = do
    hash ← map_err raise (Approvals.hash_id crypto (appr_request e gov_id) blake3_256)
    approvers ←
        collect_signers crypto "Repeated Signer in Approvers" (appr_response e hash) [] e.approvers
    check_signers "Incorrect Approvers signed" "Not enough Approvers signed" info.0
        (if e.approved then info.1 else info.2) approvers

  -- `Signed<Event>::verify_eval_appr`
  unfoldable pub verify_eval_appr :
      Event → SubjectContext → SignInfo → SignInfo → Result Unit (Fault SubjectError)
  verify_eval_appr e context eval_info appr_info = if is_exempt e then ok tt else do
    _ ← verify_evaluators e context eval_info
    if e.approved && not e.appr_required
        then ok tt
        else verify_approvers e context.governance_id appr_info
