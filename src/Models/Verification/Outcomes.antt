-- ===== src/Models/Verification/Outcomes.antt =====
-- When an event passes `verify_eval_appr`.
use taple_core.Prelude.{
  ◌≡◌, true, false, ok, ◌↔◌, ◌⊎◌, inl, inr, Bool-cases, Result-cases, not, ◌&&◌, if◌then◌else◌,
  >>=-eq-ok,
}
use taple_core.Identifier.{blake3_256}
use taple_core.Identifier.Digests.{DigestIdentifier}
use taple_core.Identifier.Keys.{key_identifier_eq}
use taple_core.Models.Crypto.{Borsh, Crypto}
use taple_core.Models.Signatures.{TimeStamp}
use taple_core.Models.Evaluations.{SubjectContext, EvaluationRequest, EvaluationResponse}
use taple_core.Models.Evaluations
use taple_core.Models.Approvals.{ApprovalRequest, ApprovalResponse}
use taple_core.Models.Approvals
use taple_core.Models.Events.{Event}
use taple_core.Models.Verification.Quorums.{IsQuorum, checked-IsQuorum, IsQuorum-checked}
use taple_core.Models.Verification.{
  SignInfo, eval_request, eval_response, appr_request, appr_response, is_exempt, verify_evaluators,
  verify_approvers, verify_eval_appr,
}

-- What is left of `verify_eval_appr` for an event that is not exempt.
abbrev pub NeedsVote : Event → Type 0
NeedsVote e = (e.approved && not e.appr_required) ≡ false

module _ (crypto : Crypto) ⦃eval_request_borsh : Borsh EvaluationRequest⦄
    ⦃eval_response_borsh : Borsh (EvaluationResponse × TimeStamp)⦄
    ⦃appr_request_borsh : Borsh ApprovalRequest⦄
    ⦃appr_response_borsh : Borsh (ApprovalResponse × TimeStamp)⦄ where
  -- The evaluators of an event are a quorum for the response that the event shows, to the request
  -- that it answers.
  abbrev pub IsEvaluated : Event → SubjectContext → SignInfo → Type 0
  IsEvaluated e context info =
      (hash : DigestIdentifier) × (Evaluations.hash_id crypto (eval_request e context) blake3_256
        ≡ ok hash)
      × IsQuorum crypto (eval_response e hash) info.0 (if e.eval_success then info.1 else info.2)
          e.evaluators

  -- The approvers of an event are a quorum for the vote that the event shows.
  abbrev pub IsVoted : Event → DigestIdentifier → SignInfo → Type 0
  IsVoted e gov_id info =
      (hash : DigestIdentifier) × (Approvals.hash_id crypto (appr_request e gov_id) blake3_256
        ≡ ok hash)
      × IsQuorum crypto (appr_response e hash) info.0 (if e.approved then info.1 else info.2)
          e.approvers

  verify_evaluators_sound :
      (e : Event) (context : SubjectContext) (info : SignInfo)
      → verify_evaluators crypto e context info ≡ ok tt
      → IsEvaluated e context info
  unfolding verify_evaluators
  verify_evaluators_sound e context info h =
      elim (Result-cases (Evaluations.hash_id crypto (eval_request e context) blake3_256)) [
        | inl (hash, p) ↦ (
          hash,
          p,
          checked-IsQuorum crypto "Repeated Signer in Evaluators" "Incorrect Evaluators signed"
              "Not enough Evaluators signed" (eval_response e hash) info.0
              (if e.eval_success then info.1 else info.2) e.evaluators (rw p at h),
        )
        | inr (failure, p) ↦ cc (p, h)
      ]

  verify_evaluators_complete :
      (e : Event) (context : SubjectContext) (info : SignInfo)
      → IsEvaluated e context info
      → verify_evaluators crypto e context info ≡ ok tt
  unfolding verify_evaluators
  verify_evaluators_complete e context info (hash, p, q) = rw p (
      IsQuorum-checked crypto "Repeated Signer in Evaluators" "Incorrect Evaluators signed"
        "Not enough Evaluators signed" (eval_response e hash) info.0
        (if e.eval_success then info.1 else info.2) e.evaluators q)

  verify_approvers_sound :
      (e : Event) (gov_id : DigestIdentifier) (info : SignInfo)
      → verify_approvers crypto e gov_id info ≡ ok tt
      → IsVoted e gov_id info
  unfolding verify_approvers
  verify_approvers_sound e gov_id info h =
      elim (Result-cases (Approvals.hash_id crypto (appr_request e gov_id) blake3_256)) [
        | inl (hash, p) ↦ (
          hash,
          p,
          checked-IsQuorum crypto "Repeated Signer in Approvers" "Incorrect Approvers signed"
              "Not enough Approvers signed" (appr_response e hash) info.0
              (if e.approved then info.1 else info.2) e.approvers (rw p at h),
        )
        | inr (failure, p) ↦ cc (p, h)
      ]

  verify_approvers_complete :
      (e : Event) (gov_id : DigestIdentifier) (info : SignInfo)
      → IsVoted e gov_id info
      → verify_approvers crypto e gov_id info ≡ ok tt
  unfolding verify_approvers
  verify_approvers_complete e gov_id info (hash, p, q) = rw p (
      IsQuorum-checked crypto "Repeated Signer in Approvers" "Incorrect Approvers signed"
        "Not enough Approvers signed" (appr_response e hash) info.0
        (if e.approved then info.1 else info.2) e.approvers q)

  -- An event passes `verify_eval_appr` exactly if it is exempt, or its evaluators are a quorum and,
  -- unless it counts as approved with no approval required, its approvers are a quorum too.
  pub verify_eval_appr_iff :
      (e : Event) (context : SubjectContext) (eval_info appr_info : SignInfo)
      → (verify_eval_appr crypto e context eval_info appr_info ≡ ok tt) ↔ (
          (is_exempt e ≡ true)
          ⊎ (IsEvaluated e context eval_info
              × (NeedsVote e → IsVoted e context.governance_id appr_info)))
  unfolding verify_eval_appr
  verify_eval_appr_iff e context eval_info appr_info = (sound, complete)
    where
      sound :
          verify_eval_appr crypto e context eval_info appr_info ≡ ok tt
          → (is_exempt e ≡ true)
            ⊎ (IsEvaluated e context eval_info
                × (NeedsVote e → IsVoted e context.governance_id appr_info))
      sound h = elim (Bool-cases (is_exempt e)) [
        | inl exempt ↦ inl exempt
        | inr not_exempt ↦
            let (_, evaluated, rest) =
              >>=-eq-ok (verify_evaluators crypto e context eval_info) _ (rw not_exempt at h) in
            inr (
              verify_evaluators_sound e context eval_info evaluated,
              λ needs. verify_approvers_sound e context.governance_id appr_info (rw needs at rest),
            )
      ]

      complete :
          (is_exempt e ≡ true)
            ⊎ (IsEvaluated e context eval_info
                × (NeedsVote e → IsVoted e context.governance_id appr_info))
          → verify_eval_appr crypto e context eval_info appr_info ≡ ok tt
      complete (inl exempt) = rw exempt
      complete (inr (evaluated, voted)) = elim (Bool-cases (is_exempt e)) [
        | inl exempt ↦ rw exempt
        | inr not_exempt ↦
            rw (not_exempt, verify_evaluators_complete e context eval_info evaluated)
              (elim (Bool-cases (e.approved && not e.appr_required)) [
                | inl settled ↦ rw settled
                | inr needs ↦ rw (
                  needs,
                  verify_approvers_complete e context.governance_id appr_info (voted needs),
                )
              ])
      ]
