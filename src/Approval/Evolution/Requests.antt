-- ===== src/Approval/Evolution/Requests.antt =====
-- `process_approval_request` of approval/inner_manager.rs and the lifecycle of requests.
use taple_core.Prelude.{
  ℕ, ◌≡◌, refl, sym, ap, ◌∙◌, Bool, true, false, inl, inr, List, [], ◌∷◌, none, some, arith, All,
  is_empty, if◌then◌else◌, Result, ok, err, ok_or, map_err, Result-cases, map_err-eq-ok,
}
use taple_core.Prelude.Actions.{
  read, pure, Ensures, Ensures-from, Ensures-weaker, Ensures-read, Ensures->>=, Ensures-pure,
}
use taple_core.Identifier.{Base64}
use taple_core.Identifier.Digests.{DigestIdentifier}
use taple_core.Identifier.Keys.{KeyIdentifier}
use taple_core.Models.Errors.{DbError}
use taple_core.Models.Crypto.{Borsh, Crypto}
use taple_core.Models.Signatures.{TimeStamp, Signed}
use taple_core.Models.Subjects.{IdContents}
use taple_core.Models.Approvals.{
  ApprovalRequest, ApprovalResponse, ApprovalState, ApprovalEntity, pending, responded_accepted,
  responded_rejected, obsolete,
}
use taple_core.Governance.Errors.{RequestError}
use taple_core.Governance.Interface.{GovernanceApi}
use taple_core.Database.Collections.{DatabaseCollection, IsCollection, IsCodec}
use taple_core.Database.Approvals.{
  Codecs, get_approval, get_approvals_by_subject, set_governance_approval_index,
}
use taple_core.Database.Approvals.Frames.{
  SameApprovals, IsPendingIn, set_subject_approval_index-OnIndexes,
  set_governance_approval_index-OnIndexes, get_approvals_by_subject-IsPendingIn,
}
use taple_core.Approval.Defs.{
  ApprovalErrorResponse, Failure, answered, panic, error_hashing, VotationType, normal,
  always_accept, always_reject, State, Config, Surroundings, on_database, Ensures-on_database,
  Ensures-expect,
}
use taple_core.Approval.Manager.{
  is_responded, version_failure, get_governance_version, check_version, answer_known,
  get_single_request, check_queue, save_request, cast, vote_on, process_new,
  process_approval_request,
}
use taple_core.Approval.Lifecycle.{ResponseMatches, Lifecycle-IsConsistent}
use taple_core.Approval.Evolution.Writes.{
  Evolves, Evolves-same, AreConsistent, Ensures-OnIndexes, set_approval-received,
}
use taple_core.Approval.Evolution.Votes.{
  IsFailed, is_panic, IsVote, subject_id_by_request-IsFailed, generate_vote-IsVote,
}

version_failure-panic : (e : RequestError) → is_panic (version_failure e) ≡ false
unfolding version_failure
version_failure-panic e = ground arith

get_governance_version-panic :
    (gov_api : GovernanceApi) (i j : DigestIdentifier) {failure : Failure}
    → get_governance_version gov_api i j ≡ err failure
    → is_panic failure ≡ false
unfolding get_governance_version
get_governance_version-panic gov_api i j {failure} h =
    elim (Result-cases (gov_api.get_governance_version i j)) [
      | inl (v, e) ↦ absurd (ground (arith, h, e))
      | inr (f, e) ↦
          let same : version_failure f ≡ failure = ground (arith, h, e) in
          sym (ap is_panic same) ∙ version_failure-panic f
    ]

check_version-panic :
    (config : Config) (sender : KeyIdentifier) (r : ApprovalRequest) (v : ℕ) {failure : Failure}
    → check_version config sender r v ≡ err failure
    → is_panic failure ≡ false
unfolding check_version
check_version-panic config sender r v h = ground (arith, h)

-- A request whose response is the one that its state says is answered.
pub answer_known-panic :
    (base64 : Base64) (j : DigestIdentifier) (e : ApprovalEntity) (state : ApprovalState)
    {failure : Failure}
    → e.state ≡ state
    → ResponseMatches base64 j state e.response
    → answer_known e ≡ err failure
    → is_panic failure ≡ false
unfolding answer_known
answer_known-panic base64 j e pending s m h = ground (arith, s, h)
answer_known-panic base64 j e obsolete s m h = absurd m
answer_known-panic base64 j e responded_accepted s (v, some_v, _, _) h =
    absurd (ground (arith, s, some_v, h))
answer_known-panic base64 j e responded_rejected s (v, some_v, _, _) h =
    absurd (ground (arith, s, some_v, h))

module _ {S : Type 0} (c : DatabaseCollection S) (laws : IsCollection c) (base64 : Base64)
    (codecs : Codecs) (codec_laws : IsCodec codecs.approval) (crypto : Crypto)
    ⦃id_borsh : Borsh IdContents⦄ ⦃response_borsh : Borsh (ApprovalResponse × TimeStamp)⦄
    (old : S) where
  -- How a call may fail: behind steps of the lifecycle, and without a panic if the requests of the
  -- first store are consistent.
  abbrev pub FailsWell : Failure → State S → Type 0
  FailsWell failure t =
      Evolves c laws base64 codecs old t.store
      × (AreConsistent c laws base64 codecs old → is_panic failure ≡ false)

  failed_well :
      (failure : Failure) (t : State S)
      → Evolves c laws base64 codecs old t.store
      → IsFailed failure
      → FailsWell failure t
  failed_well failure t p (m, h) = (p, λ _. ap is_panic h)

  -- The store without the request.
  abbrev IsNew : DigestIdentifier → DbError → S → Type 0
  IsNew id failure s =
      Evolves c laws base64 codecs old s × (get_approval c base64 codecs id s ≡ err failure)

  IsNew-same :
      (id : DigestIdentifier) (failure : DbError) (s t : S)
      → IsNew id failure s
      → SameApprovals c laws base64 codecs s t
      → IsNew id failure t
  IsNew-same id failure s t p same =
      (Evolves-same c laws base64 codecs old s t p.0 same, same id ∙ p.1)

  -- The store with the request, without a response.
  abbrev IsWaiting : DigestIdentifier → State S → Type 0
  IsWaiting id t =
      (e : ApprovalEntity) × Evolves c laws base64 codecs old t.store
      × (get_approval c base64 codecs id t.store ≡ ok e)
      × (is_responded e.state ≡ false)

  save_request-IsWaiting :
      (id subject_id : DigestIdentifier) (r : Signed ApprovalRequest) (sender : KeyIdentifier)
      (failure : DbError)
      → Ensures
          (λ s. IsNew id failure s.store)
          (save_request c base64 codecs crypto id subject_id r sender)
          (λ _. IsWaiting id)
          FailsWell
  unfolding save_request
  save_request-IsWaiting id subject_id r sender failure =
      let e : ApprovalEntity = record {
        id = id;
        request = r;
        response = none;
        state = pending;
        sender = sender;
      } in
      Ensures->>= {R = λ _ s. IsNew id failure s.store}
        (Ensures-on_database (λ _ t h. (h.0, λ _. refl))
          (Ensures-OnIndexes c laws base64 codecs (IsNew id failure) (IsNew-same id failure)
            (set_subject_approval_index-OnIndexes c laws base64 codecs subject_id id)))
        (λ _.
          Ensures->>= {R = λ _ s. IsNew id failure s.store}
            (index_governance (is_empty r.content.gov_id.digest))
            (λ _.
              Ensures->>=
                {R = λ _ s.
                  Evolves c laws base64 codecs old s.store
                  × (get_approval c base64 codecs id s.store ≡ ok e)}
                (Ensures-on_database (λ _ t h. (h, λ _. refl))
                  (set_approval-received c laws base64 codecs codec_laws old e failure refl refl))
                (λ _. record { outcome = λ s p. (e, p.0, p.1, refl) })))
    where
      index_governance :
          (b : Bool)
          → Ensures
              (λ s. IsNew id failure s.store)
              (if b
                then pure tt
                else on_database
                    (set_governance_approval_index c base64 codecs r.content.gov_id id))
              (λ _ s. IsNew id failure s.store)
              FailsWell
      index_governance true = Ensures-pure tt (λ s p. p)
      index_governance false =
          Ensures-on_database (λ _ t h. (h.0, λ _. refl))
            (Ensures-OnIndexes c laws base64 codecs (IsNew id failure) (IsNew-same id failure)
              (set_governance_approval_index-OnIndexes c laws base64 codecs r.content.gov_id id))

  cast-Ensures :
      (config : Config) (around : Surroundings) (id : DigestIdentifier) (acceptance : Bool)
      → Ensures
          (IsWaiting id)
          (cast c base64 codecs crypto config around id acceptance)
          (λ _ t. Evolves c laws base64 codecs old t.store)
          FailsWell
  unfolding cast
  cast-Ensures config around id acceptance = record {
    outcome = λ s (e, p, read_e, new).
        (Ensures->>=
            {R = λ out t.
              Evolves c laws base64 codecs old t.store
              × IsVote c laws base64 codecs codec_laws crypto old id acceptance e out t}
            (Ensures-expect (
              Ensures-weaker (λ out t q. q) (λ failure t q. (q.1, failed_well failure t q.0 q.1))
                (generate_vote-IsVote c laws base64 codecs codec_laws crypto old config around id
                  acceptance e new)))
            (λ out.
              Ensures->>= {R = λ _ t. Evolves c laws base64 codecs old t.store}
                (Ensures-read (λ _. ok_or out.0.response panic) (λ t q _ _. q.0)
                  (λ t q failure h. absurd (ground (arith, h, ap (λ x. x.response) q.1.1))))
                (λ response. Ensures-pure (some (response, out.1)) (λ t q. q)))).outcome
          s (p, read_e);
  }

  vote_on-Ensures :
      (v : VotationType) (config : Config) (around : Surroundings) (id : DigestIdentifier)
      → Ensures
          (IsWaiting id)
          (vote_on c base64 codecs crypto v config around id)
          (λ _ t. Evolves c laws base64 codecs old t.store)
          FailsWell
  unfolding vote_on
  vote_on-Ensures normal config around id = Ensures-pure none (λ s p. p.1)
  vote_on-Ensures always_accept config around id = cast-Ensures config around id true
  vote_on-Ensures always_reject config around id = cast-Ensures config around id false

  -- What the queue of the subject holds is in the store.
  check_queue-panic :
      (r : ApprovalRequest) (first t : S) (queue : List DigestIdentifier) {failure : Failure}
      → SameApprovals c laws base64 codecs first t
      → All (IsPendingIn c laws base64 codecs first) queue
      → check_queue c base64 codecs r queue t ≡ err failure
      → is_panic failure ≡ false
  unfolding check_queue get_single_request
  check_queue-panic r first t [] same h k = absurd (ground (arith, k))
  check_queue-panic r first t (id ∷ []) same h k = ground (arith, k, same id ∙ h.0.1)
  check_queue-panic r first t (_ ∷ _ ∷ _) same h k = ground (arith, k)

  process_new-Ensures :
      (config : Config) (around : Surroundings) (id : DigestIdentifier) (r : Signed ApprovalRequest)
      (sender : KeyIdentifier) (failure : DbError)
      → Ensures
          (λ s. IsNew id failure s.store)
          (process_new c base64 codecs crypto config around id r sender)
          (λ _ t. Evolves c laws base64 codecs old t.store)
          FailsWell
  unfolding process_new
  process_new-Ensures config around id r sender failure =
      Ensures->>= {R = λ _ s. IsNew id failure s.store}
        (Ensures-read _ (λ s p _ _. p)
          (λ s p f h.
            failed_well f s p.0
              (subject_id_by_request-IsFailed crypto base64 _ _ config.derivator h)))
        (λ subject_id.
          Ensures->>=
            {R = λ queue s.
              IsNew id failure s.store
              × ((first : S) × SameApprovals c laws base64 codecs first s.store
                  × All (IsPendingIn c laws base64 codecs first) queue)}
            (queue_of subject_id)
            (λ queue.
              Ensures->>= {R = λ _ s. IsNew id failure s.store}
                (Ensures-read _ (λ s p _ _. p.0)
                  (λ s p f h.
                    (p.0.0, λ _. check_queue-panic r.content p.1.0 s.store queue p.1.1 p.1.2 h)))
                (λ _.
                  Ensures->>= {R = λ _ s. IsNew id failure s.store}
                    (Ensures-read _ (λ s p _ _. p)
                      (λ s p f h. (p.0, λ _. get_governance_version-panic around.gov_api _ _ h)))
                    (λ version.
                      Ensures->>= {R = λ _ s. IsNew id failure s.store}
                        (Ensures-read _ (λ s p _ _. p)
                          (λ s p f h.
                            (p.0, λ _. check_version-panic config sender r.content version h)))
                        (λ _.
                          Ensures->>= {R = λ _. IsWaiting id}
                            (save_request-IsWaiting id subject_id r sender failure)
                            (λ _. vote_on-Ensures config.pass_votation config around id))))))
    where
      -- The queue, with the store in which its requests were pending.
      queue_of :
          (subject_id : DigestIdentifier)
          → Ensures
              (λ s. IsNew id failure s.store)
              (on_database (get_approvals_by_subject c base64 codecs subject_id))
              (λ queue t.
                IsNew id failure t.store
                × ((first : S) × SameApprovals c laws base64 codecs first t.store
                    × All (IsPendingIn c laws base64 codecs first) queue))
              FailsWell
      queue_of subject_id =
          Ensures-from {R = λ s t. SameApprovals c laws base64 codecs s.store t.store} (λ s j. refl)
            (λ s p.
              Ensures-weaker
                (λ queue t q. (IsNew-same id failure s.store t.store p q.0, (s.store, q.0, q.1)))
                (λ _ t q. q)
                (Ensures-on_database
                  (λ _ t same.
                    (Evolves-same c laws base64 codecs old s.store t.store p.0 same, λ _. refl))
                  (get_approvals_by_subject-IsPendingIn c laws base64 codecs subject_id s.store)))

  -- A call for a request.
  pub process_approval_request-Ensures :
      ⦃request_borsh : Borsh ApprovalRequest⦄ (config : Config) (around : Surroundings)
      (r : Signed ApprovalRequest) (sender : KeyIdentifier)
      → Ensures
          (λ s. Evolves c laws base64 codecs old s.store)
          (process_approval_request c base64 codecs crypto config around r sender)
          (λ _ t. Evolves c laws base64 codecs old t.store)
          FailsWell
  unfolding process_approval_request get_single_request
  process_approval_request-Ensures config around r sender =
      Ensures->>= {R = λ _ s. Evolves c laws base64 codecs old s.store}
        (Ensures-read _ (λ s p _ _. p) (λ s p f h. (p, λ _. hashing_panic _ h)))
        (λ id.
          Ensures->>=
            {R = λ known s.
              Evolves c laws base64 codecs old s.store
              × (get_single_request c base64 codecs id s.store ≡ known)}
            (Ensures-read _ (λ s p known h. (p, cc h)) (λ s p f h. absurd (ground (arith, h))))
            (answer id))
    where
      answer :
          (id : DigestIdentifier) (known : Result ApprovalEntity ApprovalErrorResponse)
          → Ensures
              (λ s.
                Evolves c laws base64 codecs old s.store
                × (get_single_request c base64 codecs id s.store ≡ known))
              (elim known [
                | ok e ↦ read (λ _. answer_known e)
                | err _ ↦ process_new c base64 codecs crypto config around id r sender
              ])
              (λ _ t. Evolves c laws base64 codecs old t.store)
              FailsWell
      answer id (ok e) =
          Ensures-read (λ _. answer_known e) (λ s p _ _. p.0)
            (λ s p f h. (
              p.0,
              λ consistent.
                  let read_e : get_approval c base64 codecs id s.store ≡ ok e =
                    map_err-eq-ok _ _ p.1 in
                  answer_known-panic base64 id e e.state refl
                    (Lifecycle-IsConsistent base64 id (λ d. consistent id d) (p.0 id) e read_e).1 h,
            ))
      answer id (err _) = record {
        outcome = λ s p. elim (Result-cases (get_approval c base64 codecs id s.store)) [
          | inl (e, h) ↦ absurd (ground (arith, h, p.1))
          | inr (f, h) ↦ (process_new-Ensures config around id r sender f).outcome s (p.0, h)
        ];
      }

      hashing_panic :
          {A E : Type 0} (m : Result A E) {failure : Failure}
          → map_err (λ _. answered error_hashing) m ≡ err failure
          → is_panic failure ≡ false
      hashing_panic (ok a) h = absurd (ground (arith, h))
      hashing_panic (err e) h = ground (arith, h)
