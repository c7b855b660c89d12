-- ===== src/Tests/Models.antt =====
-- Events and proofs at the sample keys.
use taple_core.Prelude.{
  ℕ, suc, ◌≡◌, ◌↔◌, ◌⊎◌, refl, inl, inr, Bool, true, false, [], ◌∷◌, ok, text, some, if◌then◌else◌,
  eqb, ◌==◌,
}
use taple_core.Identifier.{Bytes, blake3_256, ed25519}
use taple_core.Models.Values.{null}
use taple_core.Models.Crypto.{Borsh, ed25519_sha512}
use taple_core.Models.Signatures.{TimeStamp, Signature, Signed}
use taple_core.Models.Requests.{fact}
use taple_core.Models.Evaluations.{SubjectContext, EvaluationRequest, EvaluationResponse}
use taple_core.Models.Approvals.{ApprovalRequest, ApprovalResponse}
use taple_core.Models.Events.{Event}
use taple_core.Models.Proofs.{ValidationProof, is_similar, is_similar_iff}
use taple_core.Models.Verification.{SignInfo, is_exempt, verify_eval_appr}
use taple_core.Models.Verification.Outcomes.{IsEvaluated, IsVoted, NeedsVote, verify_eval_appr_iff}
use taple_core.Tests.Samples.{crypto_sample, key_of, digest_of}

abbrev of_bool : Bool → ℕ
of_bool true = 1
of_bool false = 0

instance abbrev eval_request_borsh : Borsh EvaluationRequest
eval_request_borsh = record { try_to_vec = λ r. some (r.sn ∷ r.gov_version ∷ []) }

instance abbrev eval_response_borsh : Borsh (EvaluationResponse × TimeStamp)
eval_response_borsh = record {
  try_to_vec = λ r. some (r.1 ∷ of_bool r.0.eval_success ∷ r.0.eval_req_hash.digest);
}

instance abbrev appr_request_borsh : Borsh ApprovalRequest
appr_request_borsh = record { try_to_vec = λ r. some (r.sn ∷ r.gov_version ∷ []) }

instance abbrev appr_response_borsh : Borsh (ApprovalResponse × TimeStamp)
appr_response_borsh = record {
  try_to_vec = λ r. some (r.1 ∷ of_bool r.0.approved ∷ r.0.appr_req_hash.digest);
}

-- A signature at time 5 by key `n` of the bytes `bytes`.
abbrev pub signed_at : ℕ → Bytes → Signature
signed_at n bytes = record {
  signer = key_of n;
  timestamp = 5;
  content_hash = digest_of 0;
  value = record { derivator = ed25519_sha512; signature = n ∷ bytes };
}

-- A fact that two evaluators and one approver have signed.
abbrev pub event_sample : Event
event_sample = record {
  subject_id = digest_of 1;
  event_request = record {
    content = fact (record { subject_id = digest_of 1; payload = null });
    signature = signed_at 1 [];
  };
  sn = 4;
  gov_version = 2;
  patch = null;
  state_hash = digest_of 2;
  eval_success = true;
  appr_required = true;
  approved = true;
  hash_prev_event = digest_of 3;
  evaluators = signed_at 21 (5 ∷ 1 ∷ 4 ∷ 2 ∷ []) ∷ signed_at 22 (5 ∷ 1 ∷ 4 ∷ 2 ∷ []) ∷ [];
  approvers = signed_at 31 (5 ∷ 1 ∷ 4 ∷ 2 ∷ []) ∷ [];
}

abbrev context_sample : SubjectContext
context_sample = record {
  governance_id = digest_of 9;
  schema_id = text "s";
  is_owner = true;
  state = null;
  namespace = [];
}

-- Three evaluators with a quorum of two, and one approver.
abbrev eval_info_sample : SignInfo
eval_info_sample = (key_of 21 ∷ key_of 22 ∷ key_of 23 ∷ [], 2, 2)

abbrev appr_info_sample : SignInfo
appr_info_sample = (key_of 31 ∷ [], 1, 1)

verify_eval_appr_sample :
    verify_eval_appr crypto_sample event_sample context_sample eval_info_sample appr_info_sample
    ≡ ok tt
unfolding verify_eval_appr is_exempt taple_core.Models.Verification.verify_evaluators
    taple_core.Models.Evaluations.hash_id taple_core.Models.Verification.collect_signers
    taple_core.Models.Signatures.verify taple_core.Prelude.list_beq
    taple_core.Models.Verification.eval_response taple_core.Models.Verification.eval_request
    taple_core.Identifier.Keys.key_identifier_beq taple_core.Models.Verification.check_signers
    taple_core.Identifier.Derivators.key_derivator_beq
    taple_core.Models.Verification.verify_approvers taple_core.Models.Approvals.hash_id
    taple_core.Models.Verification.appr_response taple_core.Models.Verification.appr_request
verify_eval_appr_sample = refl

verify_eval_appr_iff_example :
    (verify_eval_appr crypto_sample event_sample context_sample eval_info_sample appr_info_sample
      ≡ ok tt)
    ↔ ((is_exempt event_sample ≡ true)
        ⊎ (IsEvaluated crypto_sample event_sample context_sample eval_info_sample
            × (NeedsVote event_sample
                → IsVoted crypto_sample event_sample context_sample.governance_id
                    appr_info_sample)))
verify_eval_appr_iff_example =
    verify_eval_appr_iff crypto_sample event_sample context_sample eval_info_sample appr_info_sample

-- The proof of event `n` in a chain, under version 2 of the governance.
abbrev pub proof_sample : ℕ → ValidationProof
proof_sample n = record {
  subject_id = digest_of 1;
  schema_id = text "s";
  namespace = [];
  name = text "subject";
  subject_public_key = key_of 11;
  governance_id = digest_of 9;
  genesis_governance_version = 2;
  sn = n;
  prev_event_hash = digest_of n;
  event_hash = digest_of (suc n);
  governance_version = 2;
}

is_similar_iff_example :
    (is_similar (proof_sample 3) (record (proof_sample 3) { governance_version = 7 }) ≡ true) ↔ (
      record (proof_sample 3) { governance_version = 7 }
      ≡ record (proof_sample 3) { governance_version = 7 })
is_similar_iff_example =
    is_similar_iff (proof_sample 3) (record (proof_sample 3) { governance_version = 7 })
