-- ===== src/Approval/Manager.antt =====
-- The operations of `InnerApprovalManager` (approval/inner_manager.rs).
use taple_core.Prelude.{
  ℕ, Bool, true, false, Option, none, some, List, [], ◌∷◌, ltb, leb, is_empty, if◌then◌else◌,
  Result, ok, err, map_err, ok_or,
}
use taple_core.Prelude.Actions.{Action, pure, fail, read, for_each, ◌>>=◌}
use taple_core.Identifier.{Base64, DigestDerivator}
use taple_core.Identifier.Digests.{DigestIdentifier}
use taple_core.Identifier.Digests
use taple_core.Identifier.Keys.{KeyIdentifier}
use taple_core.Models.Crypto.{Borsh, Crypto, generate_with_blake3}
use taple_core.Models.Signatures.{TimeStamp, Signed, new_signature}
use taple_core.Models.Requests.{EventRequest, create, fact}
use taple_core.Models.Subjects.{IdContents, created_subject_id}
use taple_core.Models.Approvals.{
  ApprovalRequest, ApprovalResponse, ApprovalState, ApprovalEntity, pending, responded_accepted,
  responded_rejected, obsolete,
}
use taple_core.Governance.Errors.{RequestError}
use taple_core.Governance.Interface.{GovernanceApi}
use taple_core.Database.Collections.{DatabaseCollection}
use taple_core.Database.Approvals.{
  Codecs, get_approval, set_approval, del_approval, set_subject_approval_index,
  del_subject_approval_index, set_governance_approval_index, del_governance_approval_index,
  get_approvals_by_governance, get_approvals_by_subject,
}
use taple_core.Approval.Defs.{
  unexpected_error, unexpected_request_type, sign_process_failed, governance_channel_failed,
  more_request_than_max_allowed, ApprovalErrorResponse, approval_request_not_found,
  request_not_found, request_already_responded, request_already_known, previous_event_detected,
  our_gov_is_lower, our_gov_is_higher, error_hashing, invalid_governance_id, Failure, answered,
  failed, panic, VotationType, normal, always_accept, always_reject, request_reached,
  request_obsolete, State, Config, Surroundings, on_database, notify, expect,
}

-- `get_governance_version`
unfoldable pub version_failure : RequestError → Failure
version_failure (RequestError.governance_not_found _) =
    answered ApprovalErrorResponse.governance_not_found
version_failure RequestError.invalid_governance_id = answered invalid_governance_id
version_failure RequestError.channel_closed = failed governance_channel_failed
version_failure _ = failed unexpected_error

unfoldable pub get_governance_version :
    GovernanceApi → DigestIdentifier → DigestIdentifier → Result ℕ Failure
unfolding version_failure
get_governance_version gov_api governance_id subject_id =
    map_err version_failure (gov_api.get_governance_version governance_id subject_id)

module _ (crypto : Crypto) ⦃id_borsh : Borsh IdContents⦄ (base64 : Base64) where
  -- `subject_id_by_request`, and the same match in `new_governance_version`.
  unfoldable pub subject_id_by_request :
      EventRequest → ℕ → DigestDerivator → Result DigestIdentifier Failure
  subject_id_by_request (fact r) gov_version derivator = ok r.subject_id
  subject_id_by_request (create r) gov_version derivator =
      map_err (λ _. failed unexpected_error)
        (created_subject_id crypto base64 r gov_version derivator)
  subject_id_by_request _ gov_version derivator = err (failed unexpected_request_type)

-- The comparison of the version of the request with the manager's own.
unfoldable pub check_version : Config → KeyIdentifier → ApprovalRequest → ℕ → Result Unit Failure
check_version config sender r version =
    if ltb r.gov_version version
    then err (answered (our_gov_is_higher config.own_identifier sender r.gov_id))
    else if ltb version r.gov_version
    then err (answered (our_gov_is_lower config.own_identifier sender r.gov_id))
    else ok tt

-- What is answered to a request that is known.
unfoldable pub answer_known :
    ApprovalEntity → Result (Option (Signed ApprovalResponse × KeyIdentifier)) Failure
answer_known e = elim e.state [
  | pending ↦ err (answered request_already_known)
  | obsolete ↦ err (answered request_already_known)
  | responded_accepted ↦ elim e.response [
    | none ↦ err panic
    | some response ↦ ok (some (response, e.sender))
  ]
  | responded_rejected ↦ elim e.response [
    | none ↦ err panic
    | some response ↦ ok (some (response, e.sender))
  ]
]

-- The states in which a request has been responded.
abbrev pub is_responded : ApprovalState → Bool
is_responded responded_accepted = true
is_responded responded_rejected = true
is_responded _ = false

-- The request with the vote of the response.
abbrev pub voted : Signed ApprovalResponse → ApprovalEntity → ApprovalEntity
voted response e = record e {
  state = if response.content.approved then responded_accepted else responded_rejected;
  response = some response;
}

module _ {S : Type 0} (c : DatabaseCollection S) (base64 : Base64) (codecs : Codecs) where
  unfoldable pub get_single_request :
      DigestIdentifier → S → Result ApprovalEntity ApprovalErrorResponse
  get_single_request request_id store =
      map_err (λ _. approval_request_not_found) (get_approval c base64 codecs request_id store)

  -- The test of the request that is already approved for the subject.
  unfoldable pub check_queue : ApprovalRequest → List DigestIdentifier → S → Result Unit Failure
  unfolding get_single_request
  check_queue r [] store = ok tt
  check_queue r (id ∷ []) store = elim (get_single_request id store) [
    | err _ ↦ err panic
    | ok queued ↦
        if leb r.sn queued.request.content.sn then err (answered previous_event_detected) else ok tt
  ]
  check_queue r (_ ∷ _ ∷ _) store = err (failed more_request_than_max_allowed)

  module _ (crypto : Crypto) ⦃id_borsh : Borsh IdContents⦄ where
    -- The body of the loop of `new_governance_version`.
    unfoldable pub delete_request :
        Config → DigestIdentifier → DigestIdentifier → Action (State S) Failure Unit
    delete_request config governance_id request = do
      e ← on_database (read (get_approval c base64 codecs request))
      subject_id ← read (λ _.
          subject_id_by_request crypto base64 e.request.content.event_request.content
            e.request.content.gov_version config.derivator)
      _ ← notify (
          request_obsolete (Digests.to_str base64 e.id) (Digests.to_str base64 subject_id)
            e.request.content.sn)
      _ ← on_database (del_approval c base64 codecs request)
      _ ← on_database (del_governance_approval_index c base64 codecs governance_id request)
      on_database (del_subject_approval_index c base64 codecs subject_id request)

    unfoldable pub new_governance_version :
        Config → DigestIdentifier → Action (State S) Failure Unit
    unfolding delete_request
    new_governance_version config governance_id = do
      affected ← on_database (get_approvals_by_governance c base64 codecs governance_id)
      for_each (delete_request config governance_id) affected

    module _ ⦃response_borsh : Borsh (ApprovalResponse × TimeStamp)⦄ where
      -- What `generate_vote` makes of the request it has found.
      unfoldable pub respond :
          Config
          → Surroundings
          → DigestIdentifier
          → Bool
          → ApprovalEntity
          → Action (State S) Failure (ApprovalEntity × KeyIdentifier)
      respond config around request_id acceptance e = do
        let response : ApprovalResponse = record {
          appr_req_hash = request_id;
          approved = acceptance;
        }
        subject_id ← read (λ _.
            subject_id_by_request crypto base64 e.request.content.event_request.content
              e.request.content.gov_version config.derivator)
        signature ← read (λ _.
            map_err (λ _. failed sign_process_failed)
              (new_signature crypto around.now response config.keys config.derivator))
        let vote : ApprovalEntity = voted (record { content = response; signature = signature }) e
        _ ← on_database (set_approval c base64 codecs request_id vote)
        _ ← on_database (del_subject_approval_index c base64 codecs subject_id request_id)
        _ ←
            on_database
              (del_governance_approval_index c base64 codecs e.request.content.gov_id request_id)
        pure (vote, e.sender)

      unfoldable pub generate_vote :
          Config
          → Surroundings
          → DigestIdentifier
          → Bool
          → Action (State S) Failure (ApprovalEntity × KeyIdentifier)
      unfolding get_single_request respond
      generate_vote config around request_id acceptance = do
        e ←
            read (λ s.
              map_err (λ _. answered request_not_found) (get_single_request request_id s.store))
        if is_responded e.state
            then fail (answered request_already_responded)
            else respond config around request_id acceptance e

      -- The write of a new request, and the note of it.
      unfoldable pub save_request :
          DigestIdentifier
          → DigestIdentifier
          → Signed ApprovalRequest
          → KeyIdentifier
          → Action (State S) Failure Unit
      save_request id subject_id r sender = do
        let gov_id : DigestIdentifier = r.content.gov_id
        _ ← on_database (set_subject_approval_index c base64 codecs subject_id id)
        _ ←
            if is_empty gov_id.digest
            then pure tt
            else on_database (set_governance_approval_index c base64 codecs gov_id id)
        _ ← on_database (
            set_approval c base64 codecs id
              (record { id = id; request = r; response = none; state = pending; sender = sender }))
        notify (
            request_reached (Digests.to_str base64 id) (Digests.to_str base64 subject_id)
              r.content.sn)

      -- A vote that the manager casts by itself.
      unfoldable pub cast :
          Config
          → Surroundings
          → DigestIdentifier
          → Bool
          → Action (State S) Failure (Option (Signed ApprovalResponse × KeyIdentifier))
      unfolding generate_vote
      cast config around id acceptance = do
        (vote, sender) ← expect (generate_vote config around id acceptance)
        response ← read (λ _. ok_or vote.response panic)
        pure (some (response, sender))

      -- The last match of `process_approval_request`.
      unfoldable pub vote_on :
          VotationType
          → Config
          → Surroundings
          → DigestIdentifier
          → Action (State S) Failure (Option (Signed ApprovalResponse × KeyIdentifier))
      unfolding cast
      vote_on normal config around id = pure none
      vote_on always_accept config around id = cast config around id true
      vote_on always_reject config around id = cast config around id false

      -- `process_approval_request` for a request that is not known.
      unfoldable pub process_new :
          Config
          → Surroundings
          → DigestIdentifier
          → Signed ApprovalRequest
          → KeyIdentifier
          → Action (State S) Failure (Option (Signed ApprovalResponse × KeyIdentifier))
      unfolding save_request vote_on
      process_new config around id r sender = do
        subject_id ← read (λ _.
            subject_id_by_request crypto base64 r.content.event_request.content
              r.content.gov_version config.derivator)
        queue ← on_database (get_approvals_by_subject c base64 codecs subject_id)
        _ ← read (λ s. check_queue r.content queue s.store)
        version ← read (λ _. get_governance_version around.gov_api r.content.gov_id subject_id)
        _ ← read (λ _. check_version config sender r.content version)
        _ ← save_request id subject_id r sender
        vote_on config.pass_votation config around id

      module _ ⦃request_borsh : Borsh ApprovalRequest⦄ where
        unfoldable pub process_approval_request :
            Config
            → Surroundings
            → Signed ApprovalRequest
            → KeyIdentifier
            → Action (State S) Failure (Option (Signed ApprovalResponse × KeyIdentifier))
        unfolding get_single_request process_new
        process_approval_request config around r sender = do
          id ←
              read
                (λ _. map_err (λ _. answered error_hashing) (generate_with_blake3 crypto r.content))
          known ← read (λ s. ok (get_single_request id s.store))
          elim known [
            | ok e ↦ read (λ _. answer_known e)
            | err _ ↦ process_new config around id r sender
          ]
