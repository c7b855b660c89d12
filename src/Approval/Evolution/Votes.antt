-- ===== src/Approval/Evolution/Votes.antt =====
-- `generate_vote` and `new_governance_version` of approval/inner_manager.rs and the lifecycle of
-- requests.
use taple_core.Prelude.{
  ℕ, ◌≡◌, refl, sym, ap, ◌∙◌, Bool, true, false, Bool-cases, inl, inr, List, [], ◌∷◌, arith, eq_iff,
  All, if◌then◌else◌, Result, ok, err, map_err, map_err-eq-ok,
}
use taple_core.Prelude.Actions.{
  ◌>>=◌, read, fail, Ensures, Ensures-from, Ensures-weaker, Ensures-stronger, Ensures-read,
  Ensures-fail, Ensures->>=, Ensures-pure, Ensures-for_each,
}
use taple_core.Identifier.{Base64, DigestDerivator}
use taple_core.Identifier.Digests.{DigestIdentifier}
use taple_core.Identifier.Keys.{KeyIdentifier}
use taple_core.Models.Crypto.{Borsh, Crypto}
use taple_core.Models.Signatures.{TimeStamp, Signature, Signed}
use taple_core.Models.Requests.{EventRequest, create, fact, transfer, eol}
use taple_core.Models.Subjects.{IdContents, created_subject_id}
use taple_core.Models.Approvals.{ApprovalResponse, ApprovalEntity, pending, approval_state_eq}
use taple_core.Database.Collections.{DatabaseCollection, IsCollection, IsCodec}
use taple_core.Database.Approvals.{Codecs, get_approval}
use taple_core.Database.Approvals.Frames.{
  SameApprovals, IsPendingIn, del_subject_approval_index-OnIndexes,
  del_governance_approval_index-OnIndexes, get_approvals_by_governance-IsPendingIn,
}
use taple_core.Approval.Defs.{
  ApprovalManagerError, unexpected_request_type, sign_process_failed, unexpected_error, Failure,
  answered, failed, panic, request_not_found, request_already_responded, State, Config,
  Surroundings, Ensures-on_database,
}
use taple_core.Approval.Manager.{
  is_responded, voted, subject_id_by_request, get_single_request, respond, generate_vote,
  delete_request, new_governance_version,
}
use taple_core.Approval.Evolution.Writes.{
  Evolves, Evolves-same, Ensures-OnIndexes, HoldsOnly, set_approval-responded, del_approval-dropped,
}

-- The failure is the manager's: neither an answer nor a panic.
abbrev pub IsFailed : Failure → Type 0
IsFailed failure = (m : ApprovalManagerError) × (failure ≡ failed m)

abbrev pub is_panic : Failure → Bool
is_panic panic = true
is_panic _ = false

map_err-IsFailed :
    {A E : Type 0} (m : ApprovalManagerError) (r : Result A E) {failure : Failure}
    → map_err (λ _. failed m) r ≡ err failure
    → IsFailed failure
map_err-IsFailed m (ok a) h = absurd (ground (arith, h))
map_err-IsFailed m (err e) h = (m, cc h)

module _ (crypto : Crypto) ⦃id_borsh : Borsh IdContents⦄ (base64 : Base64) where
  pub subject_id_by_request-IsFailed :
      (r : EventRequest) (v : ℕ) (d : DigestDerivator) {failure : Failure}
      → subject_id_by_request crypto base64 r v d ≡ err failure
      → IsFailed failure
  unfolding subject_id_by_request
  subject_id_by_request-IsFailed (create r) v d h =
      map_err-IsFailed unexpected_error (created_subject_id crypto base64 r v d) h
  subject_id_by_request-IsFailed (fact r) v d h = absurd (ground (arith, h))
  subject_id_by_request-IsFailed (transfer r) v d h = (unexpected_request_type, cc h)
  subject_id_by_request-IsFailed (eol r) v d h = (unexpected_request_type, cc h)

module _ {S : Type 0} (c : DatabaseCollection S) (laws : IsCollection c) (base64 : Base64)
    (codecs : Codecs) (codec_laws : IsCodec codecs.approval) (crypto : Crypto)
    ⦃id_borsh : Borsh IdContents⦄ ⦃response_borsh : Borsh (ApprovalResponse × TimeStamp)⦄
    (old : S) where
  -- The result of a vote: the request with a response to it, which the database now holds.
  abbrev pub IsVote :
      DigestIdentifier → Bool → ApprovalEntity → ApprovalEntity × KeyIdentifier → State S → Type 0
  IsVote id acceptance e out t =
      (signature : Signature) × (out.0
        ≡ voted
            (record {
              content = record { appr_req_hash = id; approved = acceptance };
              signature = signature;
            })
            e)
      × (out.1 ≡ e.sender)
      × (get_approval c base64 codecs id t.store ≡ ok out.0)

  pub respond-IsVote :
      (config : Config) (around : Surroundings) (id : DigestIdentifier) (acceptance : Bool)
      (e : ApprovalEntity)
      → is_responded e.state ≡ false
      → Ensures
          (λ s.
            Evolves c laws base64 codecs old s.store
            × (get_approval c base64 codecs id s.store ≡ ok e))
          (respond c base64 codecs crypto config around id acceptance e)
          (λ out t. Evolves c laws base64 codecs old t.store × IsVote id acceptance e out t)
          (λ failure t. Evolves c laws base64 codecs old t.store × IsFailed failure)
  unfolding respond
  respond-IsVote config around id acceptance e unanswered =
      let Before : State S → Type 0 = λ s.
        Evolves c laws base64 codecs old s.store
        × (get_approval c base64 codecs id s.store ≡ ok e) in
      let Voted : ApprovalEntity → S → Type 0 =
        λ v s. Evolves c laws base64 codecs old s × (get_approval c base64 codecs id s ≡ ok v) in
      let keeps : (v : ApprovalEntity) (s t : S)
          → Voted v s
          → SameApprovals c laws base64 codecs s t
          → Voted v t =
        λ v s t p same. (Evolves-same c laws base64 codecs old s t p.0 same, same id ∙ p.1) in
      Ensures->>= {R = λ _. Before}
        (Ensures-read _ (λ s p _ _. p)
          (λ s p _ h. (p.0, subject_id_by_request-IsFailed crypto base64 _ _ config.derivator h)))
        (λ subject_id.
          Ensures->>= {R = λ _. Before}
            (Ensures-read _ (λ s p _ _. p)
              (λ s p _ h. (p.0, map_err-IsFailed sign_process_failed _ h)))
            (λ signature.
              let response : Signed ApprovalResponse = record {
                content = record { appr_req_hash = id; approved = acceptance };
                signature = signature;
              } in
              let v : ApprovalEntity = voted response e in
              Ensures->>= {R = λ _ t. Voted v t.store}
                (Ensures-on_database (λ _ t h. (h, (_, refl)))
                  (set_approval-responded c laws base64 codecs codec_laws old e response
                    unanswered))
                (λ _.
                  Ensures->>= {R = λ _ t. Voted v t.store}
                    (Ensures-on_database (λ _ t h. (h.0, (_, refl)))
                      (Ensures-OnIndexes c laws base64 codecs (Voted v) (keeps v)
                        (del_subject_approval_index-OnIndexes c laws base64 codecs subject_id id)))
                    (λ _.
                      Ensures->>= {R = λ _ t. Voted v t.store}
                        (Ensures-on_database (λ _ t h. (h.0, (_, refl)))
                          (Ensures-OnIndexes c laws base64 codecs (Voted v) (keeps v) (
                            del_governance_approval_index-OnIndexes c laws base64 codecs
                              e.request.content.gov_id id)))
                        (λ _.
                          Ensures-pure (v, e.sender)
                            (λ s p. (p.0, (signature, refl, refl, p.1))))))))

  -- A vote is for a request that the database had without a response, unless it is refused.
  pub generate_vote-Ensures :
      (config : Config) (around : Surroundings) (id : DigestIdentifier) (acceptance : Bool)
      → Ensures
          (λ s. Evolves c laws base64 codecs old s.store)
          (generate_vote c base64 codecs crypto config around id acceptance)
          (λ out t. Evolves c laws base64 codecs old t.store)
          (λ failure t. Evolves c laws base64 codecs old t.store × (is_panic failure ≡ false))
  unfolding generate_vote get_single_request
  generate_vote-Ensures config around id acceptance =
      Ensures->>=
        {R = λ e s.
          Evolves c laws base64 codecs old s.store
          × (get_approval c base64 codecs id s.store ≡ ok e)}
        (Ensures-read _ (λ s p e h. (p, map_err-eq-ok _ _ (map_err-eq-ok _ _ h)))
          (λ s p failure h. (p, not_found _ h)))
        answer
    where
      answer :
          (e : ApprovalEntity)
          → Ensures
              (λ s.
                Evolves c laws base64 codecs old s.store
                × (get_approval c base64 codecs id s.store ≡ ok e))
              (if is_responded e.state
                then fail (answered request_already_responded)
                else respond c base64 codecs crypto config around id acceptance e)
              (λ out t. Evolves c laws base64 codecs old t.store)
              (λ failure t. Evolves c laws base64 codecs old t.store × (is_panic failure ≡ false))
      answer e = elim (Bool-cases (is_responded e.state)) [
        | inl done ↦
            rw done (Ensures-fail (answered request_already_responded) (λ s p. (p.0, refl)))
        | inr new ↦ rw new (
            Ensures-weaker (λ out t p. p.0) (λ failure t p. (p.0, ap is_panic p.1.1))
              (respond-IsVote config around id acceptance e new))
      ]

      not_found :
          {A E : Type 0} (r : Result A E) {failure : Failure}
          → map_err (λ _. answered request_not_found) r ≡ err failure
          → is_panic failure ≡ false
      not_found (ok a) h = absurd (ground (arith, h))
      not_found (err e) {failure} h =
          let same : failure ≡ answered request_not_found = cc h in ap is_panic same

  -- For a request that the database has without a response.
  pub generate_vote-IsVote :
      (config : Config) (around : Surroundings) (id : DigestIdentifier) (acceptance : Bool)
      (e : ApprovalEntity)
      → is_responded e.state ≡ false
      → Ensures
          (λ s.
            Evolves c laws base64 codecs old s.store
            × (get_approval c base64 codecs id s.store ≡ ok e))
          (generate_vote c base64 codecs crypto config around id acceptance)
          (λ out t. Evolves c laws base64 codecs old t.store × IsVote id acceptance e out t)
          (λ failure t. Evolves c laws base64 codecs old t.store × IsFailed failure)
  unfolding generate_vote get_single_request ◌>>=◌ read
  generate_vote-IsVote config around id acceptance e new = record {
    outcome = λ s p. rw (p.1, new) ((respond-IsVote config around id acceptance e new).outcome s p);
  }

  delete_request-HoldsOnly :
      (config : Config) (governance_id id : DigestIdentifier) (first : S)
      → IsPendingIn c laws base64 codecs first id
      → Ensures
          (λ s.
            Evolves c laws base64 codecs old s.store × HoldsOnly c laws base64 codecs first s.store)
          (delete_request c base64 codecs crypto config governance_id id)
          (λ _ t.
            Evolves c laws base64 codecs old t.store × HoldsOnly c laws base64 codecs first t.store)
          (λ failure t. Evolves c laws base64 codecs old t.store × IsFailed failure)
  unfolding delete_request
  delete_request-HoldsOnly config governance_id id first (e, held, waiting) =
      let Kept : S → Type 0 =
        λ s. Evolves c laws base64 codecs old s × HoldsOnly c laws base64 codecs first s in
      let keeps : (s t : S) → Kept s → SameApprovals c laws base64 codecs s t → Kept t =
        λ s t p same. (
          Evolves-same c laws base64 codecs old s t p.0 same,
          λ j d read. p.1 j d (sym (same j) ∙ read),
        ) in
      Ensures->>=
        {R = λ d s. Kept s.store × (d ≡ e) × (get_approval c base64 codecs id s.store ≡ ok e)}
        (Ensures-on_database {P = Kept}
          {Q = λ d s. Kept s × (d ≡ e) × (get_approval c base64 codecs id s ≡ ok e)} {F = λ _. Kept}
          (λ _ t h. (h.0, (_, refl)))
          (Ensures-read _
            (λ s p d h.
              let same : ok d ≡ ok e = sym (p.1 id d h) ∙ held in
              let equal : d ≡ e = cc same in (p, equal, h ∙ same))
            (λ s p _ _. p)))
        (λ d.
          Ensures->>= {R = λ _ s. Kept s.store × (get_approval c base64 codecs id s.store ≡ ok e)}
            (Ensures-read _ (λ s p _ _. (p.0, p.2))
              (λ s p _ h.
                (p.0.0, subject_id_by_request-IsFailed crypto base64 _ _ config.derivator h)))
            (λ subject_id.
              Ensures->>=
                {R = λ _ s. Kept s.store × (get_approval c base64 codecs id s.store ≡ ok e)}
                (record { outcome = λ s p. p })
                (λ _.
                  Ensures->>= {R = λ _ s. Kept s.store}
                    (Ensures-on_database
                      {P = λ s. Kept s × (get_approval c base64 codecs id s ≡ ok e)}
                      (λ _ t h. (h, (_, refl)))
                      (Ensures-stronger (λ s p. (p.0.0, p.0.1, p.1))
                        (del_approval-dropped c laws base64 codecs old first id e
                          ((eq_iff e.state pending).0 waiting))))
                    (λ _.
                      Ensures->>= {R = λ _ s. Kept s.store}
                        (Ensures-on_database (λ _ t h. (h.0, (_, refl)))
                          (Ensures-OnIndexes c laws base64 codecs Kept keeps (
                            del_governance_approval_index-OnIndexes c laws base64 codecs
                              governance_id id)))
                        (λ _.
                          Ensures-on_database (λ _ t h. (h.0, (_, refl)))
                            (Ensures-OnIndexes c laws base64 codecs Kept keeps (
                              del_subject_approval_index-OnIndexes c laws base64 codecs subject_id
                                id)))))))

  delete_each :
      (config : Config) (governance_id : DigestIdentifier) (first : S) (ids : List DigestIdentifier)
      → All (IsPendingIn c laws base64 codecs first) ids
      → All
          (λ id.
            Ensures
              (λ s.
                Evolves c laws base64 codecs old s.store
                × HoldsOnly c laws base64 codecs first s.store)
              (delete_request c base64 codecs crypto config governance_id id)
              (λ _ t.
                Evolves c laws base64 codecs old t.store
                × HoldsOnly c laws base64 codecs first t.store)
              (λ failure t. Evolves c laws base64 codecs old t.store × IsFailed failure))
          ids
  delete_each config governance_id first [] h = tt
  delete_each config governance_id first (id ∷ ids) h = (
    delete_request-HoldsOnly config governance_id id first h.0,
    delete_each config governance_id first ids h.1,
  )

  pub new_governance_version-Ensures :
      (config : Config) (governance_id : DigestIdentifier)
      → Ensures
          (λ s. Evolves c laws base64 codecs old s.store)
          (new_governance_version c base64 codecs crypto config governance_id)
          (λ _ t. Evolves c laws base64 codecs old t.store)
          (λ failure t. Evolves c laws base64 codecs old t.store × IsFailed failure)
  unfolding new_governance_version
  new_governance_version-Ensures config governance_id =
      Ensures-from {R = λ s t. SameApprovals c laws base64 codecs s.store t.store} (λ s j. refl)
        (λ s p.
          Ensures->>=
            {R = λ ids t.
              SameApprovals c laws base64 codecs s.store t.store
              × All (IsPendingIn c laws base64 codecs s.store) ids}
            (Ensures-on_database
              (λ _ t same.
                (Evolves-same c laws base64 codecs old s.store t.store p same, (_, refl)))
              (get_approvals_by_governance-IsPendingIn c laws base64 codecs governance_id s.store))
            (λ ids.
              Ensures-from {R = λ t u. SameApprovals c laws base64 codecs t.store u.store}
                (λ t j. refl)
                (λ t q.
                  Ensures-weaker (λ _ u k. k.0) (λ _ u k. k)
                    (Ensures-stronger
                      (λ u same. (
                        Evolves-same c laws base64 codecs old s.store u.store p
                            (λ j. same j ∙ q.0 j),
                        λ j e read. sym (same j ∙ q.0 j) ∙ read,
                      ))
                      (Ensures-for_each (delete_request c base64 codecs crypto config governance_id)
                        ids (delete_each config governance_id s.store ids q.1))))))
