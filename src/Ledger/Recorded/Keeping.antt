-- ===== src/Ledger/Recorded/Keeping.antt =====
-- The writes of `event_validated` of ledger/ledger.rs: what they keep of an event and its subject.
use taple_core.Prelude.{
  ℕ, ◌≡◌, refl, ◌∙◌, Bool, true, false, Bool-cases, inl, inr, ◌&&◌, Option, none, some, List, [],
  ◌∷◌, ◌++◌, char_max, arith, eq_iff, eq_refl, sym, ap, eqb_iff, ◌==◌, nat_eq, list_eq, eqb, not,
  if◌then◌else◌, Result, ok, err, map_err, map_err-eq-ok, Result-cases, Fault,
}
use taple_core.Prelude.Actions.{pure, read, Ensures, Ensures-pure, Ensures-read, Ensures->>=}
use taple_core.Identifier.{Base64}
use taple_core.Identifier.Digests.{DigestIdentifier}
use taple_core.Identifier.Digests
use taple_core.Models.Crypto.{Borsh, Crypto}
use taple_core.Models.Signatures.{Signed}
use taple_core.Models.Requests.{EventRequest, TapleRequest}
use taple_core.Models.Subjects.{Subject}
use taple_core.Models.Events.{Event}
use taple_core.Database.Keys.{join, get_u64_as_hexadecimal}
use taple_core.Database.Collections.{DatabaseCollection, IsCollection, IsCodec}
use taple_core.Database.Collections.Frames.{get_at-set_at, get_at-set_at_other, get_at-del_at_other}
use taple_core.Database.Layers.{
  LayerCodecs, get_subject, set_subject, get_event, set_event, del_signatures, set_request,
}
use taple_core.Ledger.Defs.{governance_error, State, Surroundings, on_store, Ensures-on_store}
use taple_core.Ledger.Checks.{previous_sn}
use taple_core.Ledger.Chain.Links.{Holds, set_subject-Holds}
use taple_core.Ledger.Validated.{is_gov, after_event, set_finished_request, keep_event}

module _ {S : Type 0} (c : DatabaseCollection S) (laws : IsCollection c) (base64 : Base64)
    (codecs : LayerCodecs) (subject_laws : IsCodec codecs.subject)
    (event_laws : IsCodec codecs.event) where
  -- The event is in the store, under the subject.
  abbrev pub HasEvent : DigestIdentifier → Signed Event → S → Type 0
  HasEvent id event store = get_event c base64 codecs id event.content.sn store ≡ ok event

  -- The subject is there too.
  abbrev pub HasBoth : DigestIdentifier → Signed Event → Subject → S → Type 0
  HasBoth id event subject store =
      HasEvent id event store × (get_subject c base64 codecs id store ≡ ok subject)

  set_event-HasEvent :
      (id : DigestIdentifier) (event : Signed Event) (s t : S)
      → set_event c base64 codecs id event s ≡ ok t
      → HasEvent id event t
  unfolding set_event get_event join taple_core.Prelude.list_beq
  set_event-HasEvent id event s t h =
      get_at-set_at c laws codecs.event event_laws _ _ _ _ event s t
        (eq_refl (Digests.to_str base64 id ++ char_max ++ get_u64_as_hexadecimal event.content.sn))
        h

  set_request-HasEvent :
      (id request_id : DigestIdentifier) (event : Signed Event) (q : TapleRequest) (s t : S)
      → HasEvent id event s
      → set_request c base64 codecs request_id q s ≡ ok t
      → HasEvent id event t
  unfolding set_request get_event join taple_core.Prelude.list_beq
  set_request-HasEvent id request_id event q s t p h =
      get_at-set_at_other c laws codecs.request codecs.event _ _ _ _ q s t refl h ∙ p

  pub set_request-HasBoth :
      (id request_id : DigestIdentifier) (event : Signed Event) (d : Subject) (q : TapleRequest)
      (s t : S)
      → HasBoth id event d s
      → set_request c base64 codecs request_id q s ≡ ok t
      → HasBoth id event d t
  unfolding set_request get_subject join taple_core.Prelude.list_beq
  set_request-HasBoth id request_id event d q s t p h = (
    set_request-HasEvent id request_id event q s t p.0 h,
    get_at-set_at_other c laws codecs.request codecs.subject _ _ _ _ q s t refl h ∙ p.1,
  )

  del_signatures-HasBoth :
      (id : DigestIdentifier) (n : ℕ) (event : Signed Event) (d : Subject) (s t : S)
      → HasBoth id event d s
      → del_signatures c base64 codecs id n s ≡ ok t
      → HasBoth id event d t
  unfolding del_signatures get_event get_subject join taple_core.Prelude.list_beq
  del_signatures-HasBoth id n event d s t p h = (
    get_at-del_at_other c laws codecs.event _ _ _ _ s t refl h ∙ p.0,
    get_at-del_at_other c laws codecs.subject _ _ _ _ s t refl h ∙ p.1,
  )

  after_event-HasBoth :
      (around : Surroundings) (announces : Bool) (id : DigestIdentifier) (event : Signed Event)
      (d : Subject)
      → Ensures
          (λ s. HasBoth id event d s.store)
          (after_event c base64 codecs around announces id event.content.sn)
          (λ _ s. HasBoth id event d s.store)
          (λ _ _. Unit)
  unfolding after_event is_gov
  after_event-HasBoth around announces id event d =
      Ensures->>= {R = λ _ s. HasBoth id event d s.store}
        (Ensures-read _ (λ s p _ _. p) (λ _ _ _ _. tt))
        (λ known.
          Ensures->>= {R = λ _ s. HasBoth id event d s.store} (kept_by known)
            (λ gov. answer gov announces))
    where
      kept_by :
          (known : Option Bool)
          → Ensures
              (λ s. HasBoth id event d s.store)
              (is_gov c base64 codecs around id known)
              (λ _ s. HasBoth id event d s.store)
              (λ _ _. Unit)
      kept_by (some b) = Ensures-pure b (λ s p. p)
      kept_by none =
          Ensures->>= {R = λ _ s. HasBoth id event d s.store}
            (Ensures-read _ (λ s p _ _. p) (λ _ _ _ _. tt))
            (λ b.
              Ensures->>= {R = λ _ s. HasBoth id event d s.store} (record { outcome = λ s p. p })
                (λ _. Ensures-pure b (λ s p. p)))

      answer :
          (gov announced : Bool)
          → Ensures
              (λ s. HasBoth id event d s.store)
              (if gov
                then if announced
                  then read (λ _.
                    map_err governance_error (around.governance_updated id event.content.sn))
                  else pure tt
                else on_store (del_signatures c base64 codecs id (previous_sn event.content.sn)))
              (λ _ s. HasBoth id event d s.store)
              (λ _ _. Unit)
      answer true true = Ensures-read _ (λ s p _ _. p) (λ _ _ _ _. tt)
      answer true false = Ensures-pure tt (λ s p. p)
      answer false announced =
          Ensures-on_store (del_signatures c base64 codecs id (previous_sn event.content.sn))
            (λ s t p h.
              del_signatures-HasBoth id (previous_sn event.content.sn) event d s.store t p h)
            (λ s _ _. tt)

  module _ (crypto : Crypto) ⦃request_borsh : Borsh (Signed EventRequest)⦄ where
    pub set_finished_request-keeps :
        (P : S → Type 0) (request_id : DigestIdentifier) (r : Signed EventRequest) (sn : ℕ)
        (id : DigestIdentifier) (success : Bool)
        → ((q : TapleRequest) (s t : S)
            → P s
            → set_request c base64 codecs request_id q s ≡ ok t
            → P t)
        → Ensures
            (λ s. P s.store)
            (set_finished_request c base64 codecs crypto request_id r sn id success)
            (λ _ s. P s.store)
            (λ _ _. Unit)
    unfolding set_finished_request
    set_finished_request-keeps P request_id r sn id success keeps =
        Ensures->>= {R = λ _ s. P s.store} (Ensures-read _ (λ s p _ _. p) (λ _ _ _ _. tt))
          (λ q. Ensures-on_store _ (λ s t p h. keeps _ s.store t p h) (λ s _ _. tt))

    pub keep_event-HasBoth :
        (around : Surroundings) (announces : Bool) (request_id id : DigestIdentifier)
        (event : Signed Event) (next : Subject) (P : State S → Type 0)
        → Ensures P
            (keep_event c base64 codecs crypto around announces request_id id event next)
            (λ _ s. HasBoth id event next s.store)
            (λ _ _. Unit)
    unfolding keep_event
    keep_event-HasBoth around announces request_id id event next P =
        Ensures->>= {R = λ _ s. HasEvent id event s.store}
          (Ensures-on_store (set_event c base64 codecs id event)
            (λ s t p h. set_event-HasEvent id event s.store t h) (λ s _ _. tt))
          (λ _.
            Ensures->>= {R = λ _ s. HasEvent id event s.store}
              (set_finished_request-keeps (HasEvent id event) request_id event.content.event_request
                event.content.sn id true (λ q s t. set_request-HasEvent id request_id event q s t))
              (λ _.
                Ensures->>= {R = λ _ s. HasEvent id event s.store} (record { outcome = λ s p. p })
                  (λ _.
                    Ensures->>= {R = λ _ s. HasBoth id event next s.store}
                      (Ensures-on_store (set_subject c base64 codecs id next)
                        (λ s t p h.
                          let holds : Holds c laws base64 codecs subject_laws s.store id next t =
                            set_subject-Holds c laws base64 codecs subject_laws id next s.store t
                              h in
                          (holds.1 id event.content.sn ∙ p, holds.0))
                        (λ s _ _. tt))
                      (λ _. after_event-HasBoth around announces id event next))))
