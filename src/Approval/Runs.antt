-- ===== src/Approval/Runs.antt =====
-- Runs of the manager of approval/inner_manager.rs: its operations in any order.
use taple_core.Prelude.{◌≡◌, Bool, true, false, List, [], ◌∷◌, ok}
use taple_core.Prelude.Actions.{Outcome, Ensures-weaker, Ensures-state}
use taple_core.Identifier.{Base64}
use taple_core.Identifier.Digests.{DigestIdentifier}
use taple_core.Identifier.Keys.{KeyIdentifier}
use taple_core.Models.Crypto.{Borsh, Crypto}
use taple_core.Models.Signatures.{TimeStamp, Signature, Signed}
use taple_core.Models.Subjects.{IdContents}
use taple_core.Models.Approvals.{ApprovalRequest, ApprovalResponse, ApprovalEntity}
use taple_core.Database.Collections.{DatabaseCollection, IsCollection, IsCodec}
use taple_core.Database.Approvals.{Codecs, get_approval}
use taple_core.Approval.Defs.{ApprovalManagerError, failed, State, Config, Surroundings}
use taple_core.Approval.Manager.{
  is_responded, voted, generate_vote, new_governance_version, process_approval_request,
}
use taple_core.Approval.Lifecycle.{
  Lifecycle, unchanged, Lifecycle-trans, Lifecycle-responded, Lifecycle-IsConsistent,
}
use taple_core.Approval.Evolution.Writes.{Evolves, AreConsistent}
use taple_core.Approval.Evolution.Votes.{
  generate_vote-Ensures, generate_vote-IsVote, new_governance_version-Ensures,
}
use taple_core.Approval.Evolution.Requests.{process_approval_request-Ensures}

-- A call of the manager: the requests of others, the votes of the user, and the news that a
-- governance has a new version.
pub data Call : Type 0 where
  request : Surroundings → Signed ApprovalRequest → KeyIdentifier → Call
  vote : Surroundings → DigestIdentifier → Bool → Call
  governance_updated : DigestIdentifier → Call

module _ {S : Type 0} (c : DatabaseCollection S) (base64 : Base64) (codecs : Codecs)
    (crypto : Crypto) ⦃id_borsh : Borsh IdContents⦄
    ⦃response_borsh : Borsh (ApprovalResponse × TimeStamp)⦄ ⦃request_borsh : Borsh ApprovalRequest⦄
    (config : Config) where
  unfoldable pub step : Call → State S → State S
  step (request around r sender) s =
      (process_approval_request c base64 codecs crypto config around r sender s).1
  step (vote around id acceptance) s =
      (generate_vote c base64 codecs crypto config around id acceptance s).1
  step (governance_updated id) s = (new_governance_version c base64 codecs crypto config id s).1

  unfoldable pub run : List Call → State S → State S
  unfolding step
  run [] s = s
  run (call ∷ calls) s = run calls (step call s)

  module _ (laws : IsCollection c) (codec_laws : IsCodec codecs.approval) where
    step-Evolves :
        (call : Call) (s : State S) → Evolves c laws base64 codecs s.store (step call s).store
    unfolding step
    step-Evolves (request around r sender) s =
        Ensures-state
          (Ensures-weaker (λ _ t h. h) (λ _ t h. h.0)
            (process_approval_request-Ensures c laws base64 codecs codec_laws crypto s.store config
              around r sender))
          s (λ j. unchanged)
    step-Evolves (vote around id acceptance) s =
        Ensures-state
          (Ensures-weaker (λ _ t h. h) (λ _ t h. h.0)
            (generate_vote-Ensures c laws base64 codecs codec_laws crypto s.store config around id
              acceptance))
          s (λ j. unchanged)
    step-Evolves (governance_updated id) s =
        Ensures-state
          (Ensures-weaker (λ _ t h. h) (λ _ t h. h.0)
            (new_governance_version-Ensures c laws base64 codecs codec_laws crypto s.store config
              id))
          s (λ j. unchanged)

    -- Over a run of the manager's calls, whether they succeed or fail, every request goes through its
    -- lifecycle: it is received without a response, it gets one response, for itself, and it is
    -- dropped only while it is pending. The collection is one, and reading an approval undoes writing
    -- it.
    pub run-Lifecycle :
        (calls : List Call) (s : State S) (j : DigestIdentifier)
        → Lifecycle base64 j
            (get_approval c base64 codecs j s.store)
            (get_approval c base64 codecs j (run calls s).store)
    unfolding run
    run-Lifecycle [] s j = unchanged
    run-Lifecycle (call ∷ calls) s j =
        Lifecycle-trans base64 j (step-Evolves call s j) (run-Lifecycle calls (step call s) j)

    -- Votes are final: a request that has a response in the database is there with the same response
    -- after every run of calls.
    pub run-responded :
        (calls : List Call) (s : State S) (j : DigestIdentifier) (e : ApprovalEntity)
        → get_approval c base64 codecs j s.store ≡ ok e
        → is_responded e.state ≡ true
        → get_approval c base64 codecs j (run calls s).store ≡ ok e
    run-responded calls s j e h responded =
        Lifecycle-responded base64 j e h responded (run-Lifecycle calls s j)

    -- Every request of the database stands under its own identifier, and has the response that its
    -- state says: none if it is pending, an approval or a rejection of this request otherwise. A run
    -- of calls keeps that.
    pub run-AreConsistent :
        (calls : List Call) (s : State S)
        → AreConsistent c laws base64 codecs s.store
        → AreConsistent c laws base64 codecs (run calls s).store
    run-AreConsistent calls s consistent j e h =
        Lifecycle-IsConsistent base64 j (consistent j) (run-Lifecycle calls s j) e h

    -- For a request that the database has without a response, `generate_vote` either ends with an
    -- error of the manager, or gives the request with a signed response to it, as the user has voted,
    -- and that is then what the database has.
    pub generate_vote_lem :
        (around : Surroundings) (id : DigestIdentifier) (acceptance : Bool) (s : State S)
        (e : ApprovalEntity)
        → get_approval c base64 codecs id s.store ≡ ok e
        → is_responded e.state ≡ false
        → Outcome
            (λ out t.
              (signature : Signature) × (out.0
                ≡ voted
                    (record {
                      content = record { appr_req_hash = id; approved = acceptance };
                      signature = signature;
                    })
                    e)
              × (out.1 ≡ e.sender)
              × (get_approval c base64 codecs id t.store ≡ ok out.0))
            (λ failure t. (m : ApprovalManagerError) × (failure ≡ failed m))
            (generate_vote c base64 codecs crypto config around id acceptance s)
    generate_vote_lem around id acceptance s e h waiting =
        (Ensures-weaker (λ out t p. p.1) (λ f t p. p.1)
            (generate_vote-IsVote c laws base64 codecs codec_laws crypto s.store config around id
              acceptance e waiting)).outcome
          s ((λ j. unchanged), h)
