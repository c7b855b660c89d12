-- ===== src/Ledger/Chain.antt =====
-- What the event sourcing of ledger/ledger.rs leaves in the database.
pub mod Links
use mathlib.Core.Path.{subst}
use taple_core.Prelude.{
  ℕ, ◌≡◌, refl, sym, ap, ◌∙◌, Bool, true, false, Bool-cases, inl, inr, not, List, [], ◌∷◌, Option,
  none, some, arith, eq_iff, eq_refl, ◌==◌, nat_eq, list_eq, if◌then◌else◌, eqb, Result, ok, err,
  map_err, map_err-eq-ok, ok_or, >>=-eq-ok,
}
use taple_core.Prelude.Actions.{
  pure, read, Outcome, Ensures, Ensures-pure, Ensures-fail, Ensures-read, Ensures->>=,
}
use taple_core.Identifier.{Base64}
use taple_core.Identifier.Digests.{DigestIdentifier, digest_identifier_eq}
use taple_core.Identifier.Keys.{KeyIdentifier, key_identifier_eq}
use taple_core.Models.Values.{Json}
use taple_core.Models.Errors.{error_parsing_json_string, error_applying_patch}
use taple_core.Models.Crypto.{Borsh, Crypto, from_serializable_borsh}
use taple_core.Models.Signatures.{Signed}
use taple_core.Models.Requests.{EventRequest, EolRequest, create, fact, transfer, eol}
use taple_core.Models.Subjects.{Subject, update_subject, transfer_subject, eol_event}
use taple_core.Models.Events.{Event}
use taple_core.Database.Keys.{join}
use taple_core.Database.Collections.{DatabaseCollection, IsCollection, IsCodec}
use taple_core.Database.Collections.Frames.{get_at-set_at, get_at-set_at_other, get_at-del_at_other}
use taple_core.Database.Layers.{LayerCodecs, get_subject, set_subject, get_event, del_keys}
use taple_core.Ledger.Defs.{State, on_store, Ensures-on_store}
use taple_core.Ledger.Checks.{previous_sn, find_event, check_previous_hash}
use taple_core.Ledger.Sourcing.{
  end_life, transfer_by, event_sourcing_eol, source_approved, event_sourcing_transfer,
  event_sourcing_rejected_event, event_sourcing_state, event_sourcing,
}
use taple_core.Ledger.Chain.Links.{
  SameEvents, Holds, set_subject-Holds, del_keys-Holds, IsLinked, Sourced, IsAt, check-IsLinked,
  save-Sourced,
}

-- The subject that an approved request is about; `subject_id` is that of the event.
abbrev pub request_target : EventRequest → DigestIdentifier → DigestIdentifier
request_target (create r) subject_id = subject_id
request_target (fact r) subject_id = r.subject_id
request_target (transfer r) subject_id = r.subject_id
request_target (eol r) subject_id = r.subject_id

-- The subject whose record an event changes.
abbrev pub sourced_id : Event → DigestIdentifier
sourced_id e =
    if e.approved then request_target e.event_request.content e.subject_id else e.subject_id

-- What the subject is to be behind an approved request: at the number of the event, or at its end.
abbrev pub FollowsRequest : EventRequest → ℕ → Subject → Type 0
FollowsRequest (eol r) sn subject = subject.active ≡ false
FollowsRequest _ sn subject = subject.sn ≡ sn

-- The same behind an event that is approved or not.
abbrev pub FollowsVote : Bool → EventRequest → ℕ → Subject → Type 0
FollowsVote true r sn subject = FollowsRequest r sn subject
FollowsVote false r sn subject = subject.sn ≡ sn

abbrev pub Follows : Event → Subject → Type 0
Follows e subject = FollowsVote e.approved e.event_request.content e.sn subject

-- A subject that is updated is at the number of the event.
pub update_subject-sn :
    {Patch : Type 0} (json : Json Patch) (subject next : Subject) (event : Event)
    → update_subject json subject event.patch event.sn ≡ ok next
    → next.sn ≡ event.sn
unfolding update_subject
update_subject-sn json subject next event h =
    let (patch, _, h₁) =
      >>=-eq-ok
        (ok_or (json.patch_of event.patch)
          (error_parsing_json_string "Json Patch conversion fails"))
        _ h in
    let (properties, _, h₂) =
      >>=-eq-ok
        (ok_or (json.patch subject.properties patch) (error_applying_patch "Error Applying Patch"))
        _ h₁ in
    let same : record subject { properties = properties; sn = event.sn } ≡ next = cc h₂ in
    sym (ap (λ x. x.sn) same)

module _ {S : Type 0} (c : DatabaseCollection S) (laws : IsCollection c) (base64 : Base64)
    (codecs : LayerCodecs) (subject_laws : IsCodec codecs.subject) where
  module _ (crypto : Crypto) ⦃event_borsh : Borsh Event⦄ where
    end_life-Sourced :
        (r : EolRequest) (e : Event) (old : S)
        → Ensures
            (IsAt c laws base64 codecs subject_laws crypto old)
            (end_life c base64 codecs crypto (eol r) e)
            (Sourced c laws base64 codecs subject_laws crypto old r.subject_id e.sn
              e.hash_prev_event
              (λ subject. subject.active ≡ false))
            (λ _ _. Unit)
    unfolding end_life eol_event
    end_life-Sourced r e old =
        Ensures->>=
          (check-IsLinked c laws base64 codecs subject_laws crypto old r.subject_id e.sn
            e.hash_prev_event)
          (λ _.
            Ensures->>=
              {R = λ _ s.
                IsAt c laws base64 codecs subject_laws crypto old s
                × IsLinked c laws base64 codecs subject_laws crypto r.subject_id e.sn
                    e.hash_prev_event old}
              (Ensures-read _ (λ s p _ _. p) (λ _ _ _ _. tt))
              (λ subject.
                Ensures->>=
                  (save-Sourced c laws base64 codecs subject_laws crypto old r.subject_id e.sn
                    e.hash_prev_event (λ d. d.active ≡ false) (eol_event subject) refl)
                  (λ _. Ensures-pure (eol_event subject) (λ s p. p))))

    event_sourcing_rejected_event-Sourced :
        (event : Signed Event) (old : S)
        → Ensures
            (IsAt c laws base64 codecs subject_laws crypto old)
            (event_sourcing_rejected_event c base64 codecs crypto event)
            (Sourced c laws base64 codecs subject_laws crypto old event.content.subject_id
              event.content.sn event.content.hash_prev_event
              (λ subject. subject.sn ≡ event.content.sn))
            (λ _ _. Unit)
    unfolding event_sourcing_rejected_event
    event_sourcing_rejected_event-Sourced event old =
        let Ready : State S → Type 0 = λ s.
          (s.store ≡ old)
          × IsLinked c laws base64 codecs subject_laws crypto event.content.subject_id
              event.content.sn event.content.hash_prev_event old in
        Ensures->>=
          (check-IsLinked c laws base64 codecs subject_laws crypto old event.content.subject_id
            event.content.sn event.content.hash_prev_event)
          (λ _.
            Ensures->>= {R = λ _. Ready} (Ensures-read _ (λ s p _ _. p) (λ _ _ _ _. tt)) (λ subject.
              Ensures->>= {R = λ _. Ready} (Ensures-read _ (λ s p _ _. p) (λ _ _ _ _. tt)) (λ _.
                Ensures->>= {R = λ _. Ready} (record { outcome = λ s p. p })
                  (λ _.
                    Ensures->>=
                      (save-Sourced c laws base64 codecs subject_laws crypto old
                        event.content.subject_id event.content.sn event.content.hash_prev_event
                        (λ d. d.sn ≡ event.content.sn) (record subject { sn = event.content.sn })
                        refl)
                      (λ _. Ensures-pure _ (λ s p. p))))))

    event_sourcing_state-Sourced :
        {Patch : Type 0} (json : Json Patch) (id : DigestIdentifier) (event : Signed Event)
        (old : S)
        → Ensures
            (IsAt c laws base64 codecs subject_laws crypto old)
            (event_sourcing_state c base64 codecs crypto json id event)
            (Sourced c laws base64 codecs subject_laws crypto old id event.content.sn
              event.content.hash_prev_event
              (λ subject. subject.sn ≡ event.content.sn))
            (λ _ _. Unit)
    unfolding event_sourcing_state
    event_sourcing_state-Sourced json id event old =
        let Ready : State S → Type 0 = λ s.
          (s.store ≡ old)
          × IsLinked c laws base64 codecs subject_laws crypto id event.content.sn
              event.content.hash_prev_event old in
        Ensures->>=
          (check-IsLinked c laws base64 codecs subject_laws crypto old id event.content.sn
            event.content.hash_prev_event)
          (λ _.
            Ensures->>= {R = λ _. Ready} (Ensures-read _ (λ s p _ _. p) (λ _ _ _ _. tt)) (λ subject.
              Ensures->>= {R = λ next s. Ready s × (next.sn ≡ event.content.sn)}
                (Ensures-read _
                  (λ s p next h.
                    (p, update_subject-sn json subject next event.content (map_err-eq-ok _ _ h)))
                  (λ _ _ _ _. tt))
                (λ next.
                  Ensures->>= {R = λ _ s. Ready s × (next.sn ≡ event.content.sn)}
                    (record { outcome = λ s p. p })
                    (λ _. record {
                      outcome = λ s p.
                          (Ensures->>=
                              (save-Sourced c laws base64 codecs subject_laws crypto old id
                                event.content.sn event.content.hash_prev_event
                                (λ d. d.sn ≡ event.content.sn) next p.1)
                              (λ _. Ensures-pure next (λ t q. q))).outcome
                            s p.0;
                    }))))

    transfer_by-Sourced :
        (our_id : KeyIdentifier) (id : DigestIdentifier) (owner public_key : KeyIdentifier)
        (e : Event) (old : S)
        → Ensures
            (IsAt c laws base64 codecs subject_laws crypto old)
            (transfer_by c base64 codecs crypto our_id id e.sn owner public_key e)
            (Sourced c laws base64 codecs subject_laws crypto old id e.sn e.hash_prev_event
              (λ subject. subject.sn ≡ e.sn))
            (λ _ _. Unit)
    unfolding transfer_by transfer_subject
    transfer_by-Sourced our_id id owner public_key e old =
        let Ready : State S → Type 0 = λ s.
          IsAt c laws base64 codecs subject_laws crypto old s
          × IsLinked c laws base64 codecs subject_laws crypto id e.sn e.hash_prev_event old in
        Ensures->>=
          (check-IsLinked c laws base64 codecs subject_laws crypto old id e.sn e.hash_prev_event)
          (λ _.
            Ensures->>= {R = λ _. Ready} (Ensures-read _ (λ s p _ _. p) (λ _ _ _ _. tt)) (λ subject.
              Ensures->>= {R = λ _. Ready} (Ensures-read _ (λ s p _ _. p) (λ _ _ _ _. tt))
                (λ keypair.
                  Ensures->>=
                    (save-Sourced c laws base64 codecs subject_laws crypto old id e.sn
                      e.hash_prev_event (λ d. d.sn ≡ e.sn)
                      (transfer_subject subject owner public_key keypair e.sn) refl)
                    (λ _.
                      Ensures->>=
                        (delete_keys (e.event_request.signature.signer == our_id)
                          (transfer_subject subject owner public_key keypair e.sn))
                        (λ _. Ensures-pure _ (λ s p. p))))))
      where
        delete_keys :
            (b : Bool) (next : Subject)
            → Ensures
                (Sourced c laws base64 codecs subject_laws crypto old id e.sn e.hash_prev_event
                  (λ subject. subject.sn ≡ e.sn)
                  next)
                (if b then on_store (del_keys c base64 codecs public_key) else pure tt)
                (λ _.
                  Sourced c laws base64 codecs subject_laws crypto old id e.sn e.hash_prev_event
                    (λ subject. subject.sn ≡ e.sn)
                    next)
                (λ _ _. Unit)
        delete_keys true next =
            Ensures-on_store (del_keys c base64 codecs public_key)
              (λ s t p h. (
                p.0,
                del_keys-Holds c laws base64 codecs subject_laws id next public_key old s.store t
                    p.1 h,
                p.2,
              ))
              (λ s _ _. tt)
        delete_keys false next = Ensures-pure tt (λ s p. p)

    event_sourcing_transfer-Sourced :
        (our_id : KeyIdentifier) (id : DigestIdentifier) (owner public_key : KeyIdentifier)
        (event : Signed Event) (old : S)
        → get_event c base64 codecs id event.content.sn old ≡ ok event
        → Ensures
            (IsAt c laws base64 codecs subject_laws crypto old)
            (event_sourcing_transfer c base64 codecs crypto our_id id event.content.sn owner
              public_key)
            (Sourced c laws base64 codecs subject_laws crypto old id event.content.sn
              event.content.hash_prev_event
              (λ subject. subject.sn ≡ event.content.sn))
            (λ _ _. Unit)
    unfolding event_sourcing_transfer find_event
    event_sourcing_transfer-Sourced our_id id owner public_key event old held =
        Ensures->>= {R = λ e s. IsAt c laws base64 codecs subject_laws crypto old s × (event ≡ e)}
          (Ensures-read _ (λ s p e h. (p, read_event e s p h)) (λ _ _ _ _. tt))
          (λ e. record {
            outcome = λ s p.
                subst
                  (λ x.
                    Outcome
                      (Sourced c laws base64 codecs subject_laws crypto old id event.content.sn
                        event.content.hash_prev_event (λ subject. subject.sn ≡ event.content.sn))
                      (λ _ _. Unit)
                      (transfer_by c base64 codecs crypto our_id id event.content.sn owner
                        public_key x.content s))
                  p.1
                  ((transfer_by-Sourced our_id id owner public_key event.content old).outcome s
                    p.0);
          })
      where
        read_event :
            (e : Signed Event) (s : State S)
            → IsAt c laws base64 codecs subject_laws crypto old s
            → find_event c base64 codecs id event.content.sn s.store ≡ ok e
            → event ≡ e
        read_event e s p h =
            let found : get_event c base64 codecs id event.content.sn old ≡ ok e =
              map_err-eq-ok _ _ (rw p at h) in
            let same : ok event ≡ ok e = sym held ∙ found in cc same

    source_approved-Sourced :
        {Patch : Type 0} (json : Json Patch) (our_id : KeyIdentifier) (event : Signed Event)
        (r : EventRequest) (old : S)
        → get_event c base64 codecs (request_target r event.content.subject_id) event.content.sn old
          ≡ ok event
        → event.content.event_request.content ≡ r
        → Ensures
            (IsAt c laws base64 codecs subject_laws crypto old)
            (source_approved c base64 codecs crypto json our_id event r)
            (Sourced c laws base64 codecs subject_laws crypto old
              (request_target r event.content.subject_id)
              event.content.sn
              event.content.hash_prev_event
              (FollowsRequest r event.content.sn))
            (λ _ _. Unit)
    unfolding source_approved event_sourcing_eol
    source_approved-Sourced json our_id event (transfer r) old held h =
        event_sourcing_transfer-Sourced our_id r.subject_id _ r.public_key event old held
    source_approved-Sourced json our_id event (create r) old held h = Ensures-fail _ (λ s p. tt)
    source_approved-Sourced json our_id event (fact r) old held h =
        event_sourcing_state-Sourced json r.subject_id event old
    source_approved-Sourced json our_id event (eol r) old held h =
        rw h (end_life-Sourced r event.content old)

    -- An event that stands in the database under the subject that it changes, and that is sourced, is
    -- linked to the event ahead of it by that one's hash. The subject that is given is then the one of
    -- the database, with the number of the event, or no longer active behind an approved end of life;
    -- and the events of the database are what they were. The collection is one, and reading a subject
    -- undoes writing it.
    pub event_sourcing_lem :
        {Patch : Type 0} (json : Json Patch) (our_id : KeyIdentifier) (event : Signed Event)
        (s : State S)
        → get_event c base64 codecs (sourced_id event.content) event.content.sn s.store ≡ ok event
        → Outcome
            (λ subject t.
              IsLinked c laws base64 codecs subject_laws crypto
                (sourced_id event.content)
                event.content.sn
                event.content.hash_prev_event
                s.store
              × Holds c laws base64 codecs subject_laws s.store
                  (sourced_id event.content)
                  subject
                  t.store
              × Follows event.content subject)
            (λ _ _. Unit)
            (event_sourcing c base64 codecs crypto json our_id event s)
    unfolding event_sourcing
    event_sourcing_lem json our_id event s held =
        (by_vote event.content.approved refl held).outcome s refl
      where
        by_vote :
            (b : Bool)
            → event.content.approved ≡ b
            → get_event c base64 codecs
                (if b
                  then request_target event.content.event_request.content event.content.subject_id
                  else event.content.subject_id)
                event.content.sn
                s.store
              ≡ ok event
            → Ensures
                (IsAt c laws base64 codecs subject_laws crypto s.store)
                (if not b
                  then event_sourcing_rejected_event c base64 codecs crypto event
                  else source_approved c base64 codecs crypto json our_id event
                      event.content.event_request.content)
                (Sourced c laws base64 codecs subject_laws crypto s.store
                  (if b
                    then request_target event.content.event_request.content event.content.subject_id
                    else event.content.subject_id)
                  event.content.sn
                  event.content.hash_prev_event
                  (FollowsVote b event.content.event_request.content event.content.sn))
                (λ _ _. Unit)
        by_vote true h found =
            source_approved-Sourced json our_id event event.content.event_request.content s.store
              found refl
        by_vote false h found = event_sourcing_rejected_event-Sourced event s.store
