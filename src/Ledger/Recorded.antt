-- ===== src/Ledger/Recorded.antt =====
-- What `event_validated` of ledger/ledger.rs leaves in the database.
pub mod Keeping
use taple_core.Prelude.{
  ℕ, ◌≡◌, refl, ◌∙◌, Bool, true, false, Bool-cases, inl, inr, ◌&&◌, Option, none, some, List, [],
  ◌∷◌, ◌++◌, char_max, arith, eq_iff, eq_refl, sym, ap, eqb_iff, ◌==◌, nat_eq, list_eq, eqb, not,
  if◌then◌else◌, Result, ok, err, map_err, map_err-eq-ok, Result-cases, Fault,
}
use taple_core.Prelude.Actions.{
  pure, read, ◌>>=◌, Outcome, Ensures, Ensures-pure, Ensures-fail, Ensures-read, Ensures->>=,
}
use taple_core.Identifier.{Base64}
use taple_core.Identifier.Digests.{DigestIdentifier}
use taple_core.Identifier.Digests
use taple_core.Identifier.Keys.{KeyIdentifier}
use taple_core.Models.Values.{Json}
use taple_core.Models.Crypto.{Borsh, Crypto}
use taple_core.Models.Signatures.{Signed}
use taple_core.Models.Requests.{EventRequest, create, fact, transfer, eol, TapleRequest}
use taple_core.Models.Subjects.{Subject, update_subject, eol_event}
use taple_core.Models.Events.{Event}
use taple_core.Database.Keys.{join, get_u64_as_hexadecimal}
use taple_core.Database.Collections.{DatabaseCollection, IsCollection, IsCodec}
use taple_core.Database.Collections.Frames.{get_at-set_at, get_at-set_at_other, get_at-del_at_other}
use taple_core.Database.Layers.{
  LayerCodecs, get_subject, set_subject, get_event, set_event, del_signatures, set_request,
}
use taple_core.Ledger.Defs.{
  governance_error, subject_error, State, Surroundings, on_store, Ensures-on_store,
}
use taple_core.Ledger.Checks.{previous_sn}
use taple_core.Ledger.Chain.Links.{Holds, set_subject-Holds}
use taple_core.Ledger.Chain.{request_target, update_subject-sn}
use taple_core.Ledger.Recorded.Keeping.{
  HasBoth, set_request-HasBoth, set_finished_request-keeps, keep_event-HasBoth,
}
use taple_core.Ledger.Validated.{
  Validation, find_known, is_gov, after_event, after_fact, set_finished_request, keep_event,
  apply_validated, record_validated, Ensures-faulty, distribute, upgrade, event_validated,
}

-- The number of the subject is the one ahead of a fact.
abbrev pub NumberFits : EventRequest → ℕ → ℕ → Type 0
NumberFits (fact r) before sn = before ≡ previous_sn sn
NumberFits _ before sn = Unit

module _ {S : Type 0} (c : DatabaseCollection S) (laws : IsCollection c) (base64 : Base64)
    (codecs : LayerCodecs) (subject_laws : IsCodec codecs.subject)
    (event_laws : IsCodec codecs.event) where
  module _ (crypto : Crypto) ⦃request_borsh : Borsh (Signed EventRequest)⦄ where
    module _ {Patch : Type 0} (json : Json Patch) (our_id : KeyIdentifier) where
      -- What a call has done to the subject: it was known, with the number ahead of a fact, and it is
      -- now at the number of the event, which is there too.
      abbrev pub IsRecorded : EventRequest → DigestIdentifier → Signed Event → S → S → Type 0
      IsRecorded r id event old new =
          (before : Subject) × (after : Subject) × (get_subject c base64 codecs id old ≡ ok before)
          × NumberFits r before.sn event.content.sn
          × HasBoth c laws base64 codecs subject_laws event_laws id event after new
          × (after.sn ≡ event.content.sn)

      -- The subject that is found.
      find_known-IsAt :
          (id : DigestIdentifier) (old : S)
          → Ensures
              (λ s. s.store ≡ old)
              (read (λ (s : State S). find_known c base64 codecs id s.store))
              (λ d _. get_subject c base64 codecs id old ≡ ok d)
              (λ _ _. Unit)
      unfolding find_known
      find_known-IsAt id old =
          Ensures-read _ (λ s p d h. map_err-eq-ok _ _ (rw p at h)) (λ _ _ _ _. tt)

      after_fact-sn :
          (id : DigestIdentifier) (e : Event) (before after : Subject)
          → after_fact c base64 codecs json id e before ≡ ok after
          → (before.sn ≡ previous_sn e.sn) × (after.sn ≡ e.sn)
      unfolding after_fact
      after_fact-sn id e before after h = elim (Bool-cases (eqb before.sn (previous_sn e.sn))) [
        | inr other ↦ absurd (ground (arith, h, other))
        | inl fits ↦ elim (Bool-cases e.approved) [
          | inl approved ↦
              let made : map_err subject_error (update_subject json before e.patch e.sn)
                  ≡ ok after =
                ground (arith, h, fits, approved) in
              (
                (eqb_iff before.sn (previous_sn e.sn)).0 fits,
                update_subject-sn json before after e (map_err-eq-ok _ _ made),
              )
          | inr rejected ↦
              let same : record before { sn = e.sn } ≡ after = ground (arith, h, fits, rejected) in
              ((eqb_iff before.sn (previous_sn e.sn)).0 fits, sym (ap (λ x. x.sn) same))
        ]
      ]

      keep_event-IsRecorded :
          (around : Surroundings) (announces : Bool) (request_id id : DigestIdentifier)
          (event : Signed Event) (r : EventRequest) (old : S) (before after : Subject)
          → NumberFits r before.sn event.content.sn
          → after.sn ≡ event.content.sn
          → Ensures
              (λ _. get_subject c base64 codecs id old ≡ ok before)
              (keep_event c base64 codecs crypto around announces request_id id event after >>= λ _.
                pure id)
              (λ i t. (i ≡ id) × IsRecorded r id event old t.store)
              (λ _ _. Unit)
      keep_event-IsRecorded around announces request_id id event r old before after fits now =
          record {
            outcome = λ s p.
                (Ensures->>=
                    {R = λ _ t.
                      HasBoth c laws base64 codecs subject_laws event_laws id event after t.store}
                    (keep_event-HasBoth c laws base64 codecs subject_laws event_laws crypto around
                      announces request_id id event after (λ _. Unit))
                    (λ _.
                      Ensures-pure id (λ t q. (refl, (before, after, p, fits, q, now))))).outcome
                  s tt;
          }

      apply_validated-IsRecorded :
          (around : Surroundings) (request_id : DigestIdentifier) (event : Signed Event)
          (validation : Validation) (r : EventRequest) (old : S)
          → Ensures
              (λ s. s.store ≡ old)
              (apply_validated c base64 codecs crypto json our_id around request_id event validation
                r)
              (λ id t.
                (id ≡ request_target r event.content.subject_id)
                × IsRecorded r (request_target r event.content.subject_id) event old t.store)
              (λ _ _. Unit)
      unfolding apply_validated eol_event
      apply_validated-IsRecorded around request_id event (signatures, proof) (fact r) old =
          let Known : Subject → State S → Type 0 =
            λ d _. get_subject c base64 codecs r.subject_id old ≡ ok d in
          Ensures->>= {R = Known} (find_known-IsAt r.subject_id old) (λ before.
            Ensures->>= {R = λ _. Known before} (Ensures-on_store _ (λ s t p _. p) (λ s _ _. tt))
              (λ _.
                Ensures->>=
                  {R = λ after s.
                    Known before s
                    × (before.sn ≡ previous_sn event.content.sn)
                    × (after.sn ≡ event.content.sn)}
                  (Ensures-read _
                    (λ s p after h.
                      let (fits, now) = after_fact-sn r.subject_id event.content before after h in
                      (p, fits, now))
                    (λ _ _ _ _. tt))
                  (λ after.
                    Ensures->>=
                      {R = λ _ s.
                        Known before s
                        × (before.sn ≡ previous_sn event.content.sn)
                        × (after.sn ≡ event.content.sn)}
                      (record { outcome = λ s p. p })
                      (λ _. record {
                        outcome = λ s p.
                            (keep_event-IsRecorded around true request_id r.subject_id event
                                (fact r) old before after p.1 p.2).outcome
                              s p.0;
                      }))))
      apply_validated-IsRecorded around request_id event validation (create r) old =
          Ensures-fail _ (λ _ _. tt)
      apply_validated-IsRecorded around request_id event (signatures, proof) (transfer r) old =
          let Known : Subject → State S → Type 0 =
            λ d _. get_subject c base64 codecs r.subject_id old ≡ ok d in
          Ensures->>= {R = Known} (find_known-IsAt r.subject_id old) (λ before.
            Ensures->>= {R = λ _. Known before} (Ensures-read _ (λ s p _ _. p) (λ _ _ _ _. tt))
              (λ next.
                Ensures->>= {R = λ _. Known before}
                  (Ensures-on_store _ (λ s t p _. p) (λ s _ _. tt))
                  (λ _.
                    keep_event-IsRecorded around false request_id r.subject_id event (transfer r)
                      old before (record next { sn = event.content.sn }) tt refl)))
      apply_validated-IsRecorded around request_id event (signatures, proof) (eol r) old =
          let Known : Subject → State S → Type 0 =
            λ d _. get_subject c base64 codecs r.subject_id old ≡ ok d in
          Ensures->>= {R = Known} (find_known-IsAt r.subject_id old) (λ before.
            Ensures->>= {R = λ _. Known before} (Ensures-on_store _ (λ s t p _. p) (λ s _ _. tt))
              (λ _.
                keep_event-IsRecorded around true request_id r.subject_id event (eol r) old before
                  (eol_event (record before { sn = event.content.sn })) tt refl))

      -- The request of the event, and the subject that it is about.
      abbrev request_of : Signed Event → EventRequest
      request_of event = event.content.event_request.content

      record_validated-IsRecorded :
          (around : Surroundings) (event : Signed Event) (validation : Validation) (old : S)
          → Ensures
              (λ s. s.store ≡ old)
              (record_validated c base64 codecs crypto json our_id around event validation)
              (λ _ t.
                IsRecorded
                  (request_of event)
                  (request_target (request_of event) event.content.subject_id)
                  event
                  old
                  t.store)
              (λ _ _. Unit)
      unfolding record_validated
      record_validated-IsRecorded around event validation old =
          let target : DigestIdentifier =
            request_target (request_of event) event.content.subject_id in
          Ensures->>= {R = λ _ s. s.store ≡ old} (Ensures-read _ (λ s p _ _. p) (λ _ _ _ _. tt))
            (λ request_id.
              Ensures->>=
                (apply_validated-IsRecorded around request_id event validation (request_of event)
                  old)
                (λ id.
                  Ensures->>= {R = λ _ t. IsRecorded (request_of event) target event old t.store}
                    (record {
                      outcome = λ s p.
                          (set_finished_request-keeps c laws base64 codecs subject_laws event_laws
                              crypto (IsRecorded (request_of event) target event old) request_id
                              event.content.event_request event.content.sn id
                              (event.content.eval_success && event.content.approved)
                              (λ q t u (before, after, known, fits, both, now) h. (
                                before,
                                after,
                                known,
                                fits,
                                set_request-HasBoth c laws base64 codecs subject_laws event_laws
                                    target request_id event after q t u both h,
                                now,
                              ))).outcome
                            s p.1;
                    })
                    (λ _. Ensures-pure id (λ t p. p))))

      upgrade-keeps :
          (P : S → Type 0) (around : Surroundings) (id : DigestIdentifier) (sn : ℕ)
          → Ensures
              (λ (s : State S). P s.store)
              (upgrade around id sn)
              (λ _ s. P s.store)
              (λ _ _. Unit)
      unfolding upgrade distribute
      upgrade-keeps P around id sn =
          Ensures->>= {R = λ _ s. P s.store} (Ensures-read _ (λ s p _ _. p) (λ _ _ _ _. tt))
            (λ next.
              Ensures->>= {R = λ _ s. P s.store} (record { outcome = λ s p. p })
                (λ _. sent around.distribution_open refl))
        where
          sent :
              (b : Bool)
              → around.distribution_open ≡ b
              → Ensures
                  (λ (s : State S). P s.store)
                  (distribute around id sn)
                  (λ _ s. P s.store)
                  (λ _ _. Unit)
          sent true h = record { outcome = λ s p. rw h p }
          sent false h = record { outcome = λ s p. rw h tt }

      -- If `event_validated` succeeds, the subject of the event was known, for a fact with the number
      -- ahead of the event's; and the database then has the event, and the subject with its number.
      -- The collection is one, and reading subjects and events undoes writing them.
      pub event_validated-IsRecorded :
          (around : Surroundings) (event : Signed Event) (validation : Validation) (s : State S)
          → Outcome
              (λ _ t.
                IsRecorded event.content.event_request.content
                  (request_target event.content.event_request.content event.content.subject_id)
                  event
                  s.store
                  t.store)
              (λ _ _. Unit)
              (event_validated c base64 codecs crypto json our_id around event validation s)
      unfolding event_validated
      event_validated-IsRecorded around event validation s =
          (Ensures->>= {P = λ t. t.store ≡ s.store}
              (Ensures-faulty (record_validated-IsRecorded around event validation s.store))
              (λ id.
                upgrade-keeps
                  (IsRecorded (request_of event)
                    (request_target (request_of event) event.content.subject_id) event s.store)
                  around id event.content.sn)).outcome
            s refl
