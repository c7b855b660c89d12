-- ===== src/Ledger/Validated.antt =====
-- `event_validated` of ledger/ledger.rs: an event of ours that the validators have signed.
use taple_core.Prelude.{
  ℕ, Bool, true, false, ◌&&◌, not, Option, none, some, List, ◌∷◌, ◌==◌, eqb, if◌then◌else◌, text,
  Result, ok, err, map_err, Fault, raise, panic,
}
use taple_core.Prelude.Actions.{Action, pure, fail, read, ◌>>=◌, Ensures, Outcome}
use taple_core.Identifier.{Base64}
use taple_core.Identifier.Digests.{DigestIdentifier}
use taple_core.Identifier.Digests
use taple_core.Identifier.Keys.{KeyIdentifier, key_identifier_eq}
use taple_core.Models.Values.{Json}
use taple_core.Models.Errors.{DbError, entry_not_found, channel_closed}
use taple_core.Models.Crypto.{Borsh, Crypto, generate_with_blake3}
use taple_core.Models.Signatures.{Signature, Signed}
use taple_core.Models.Requests.{
  EventRequest, create, fact, transfer, eol, TapleRequest, finished, try_from,
}
use taple_core.Models.Subjects.{Subject, update_subject, eol_event}
use taple_core.Models.Events.{Event}
use taple_core.Models.Proofs.{ValidationProof}
use taple_core.Validation.Checks.{next_sn}
use taple_core.Database.Collections.{DatabaseCollection}
use taple_core.Database.Layers.{
  LayerCodecs, get_subject, set_subject, set_event, get_keys, set_signatures, del_signatures,
  set_request,
}
use taple_core.Ledger.Defs.{
  LedgerError, database_error, subject_error, crypto_error, governance_error, channel_error,
  subject_not_found, wrong_sn_in_subject, state_in_genesis, state_updated, new_event, LedgerState,
  State, Surroundings, entry, notify, on_store,
}
use taple_core.Ledger.Checks.{previous_sn}

-- What the validators have signed of an event.
abbrev pub Validation : Type 0
Validation = List Signature × ValidationProof

module _ {S : Type 0} (c : DatabaseCollection S) (base64 : Base64) (codecs : LayerCodecs) where
  unfoldable pub subject_failure : DigestIdentifier → DbError → LedgerError
  subject_failure id entry_not_found = subject_not_found (Digests.to_str base64 id)
  subject_failure id e = database_error e

  unfoldable pub find_known : DigestIdentifier → S → Result Subject LedgerError
  unfolding subject_failure
  find_known id store = map_err (subject_failure id) (get_subject c base64 codecs id store)

  -- Whether the subject is a governance, by the map, or else by the governance, which the map then
  -- keeps.
  unfoldable pub is_gov :
      Surroundings → DigestIdentifier → Option Bool → Action (State S) LedgerError Bool
  is_gov around id (some b) = pure b
  is_gov around id none = do
    b ← read (λ _. map_err governance_error (around.is_governance id))
    _ ← λ s. (ok tt, record s { subject_is_gov = (id, b) ∷ s.subject_is_gov })
    pure b

  -- The match on `is_gov`: a governance hears of the event, if `announces`; the signatures of the
  -- event before are deleted for any other subject.
  unfoldable pub after_event :
      Surroundings → Bool → DigestIdentifier → ℕ → Action (State S) LedgerError Unit
  unfolding is_gov
  after_event around announces id sn = do
    known ← read (λ s. ok (entry s.subject_is_gov id))
    gov ← is_gov around id known
    if gov
        then if announces
          then read (λ _. map_err governance_error (around.governance_updated id sn))
          else pure tt
        else on_store (del_signatures c base64 codecs id (previous_sn sn))

  -- `subject.owner == self.our_id`: the keys of a subject that is ours come from the database.
  unfoldable pub with_owner :
      KeyIdentifier → Subject → KeyIdentifier → KeyIdentifier → S → Result Subject LedgerError
  with_owner our_id subject owner public_key store =
      if owner == our_id
      then elim (get_keys c base64 codecs public_key store) [
        | err e ↦ err (database_error e)
        | ok keys ↦ ok (record subject { public_key = public_key; owner = owner; keys = some keys })
      ]
      else ok (record subject { public_key = public_key; owner = owner; keys = none })

  -- The subject behind a fact.
  unfoldable pub after_fact :
      {Patch : Type 0}
      → Json Patch
      → DigestIdentifier
      → Event
      → Subject
      → Result Subject LedgerError
  after_fact json id e subject =
      if not (eqb subject.sn (previous_sn e.sn))
      then err (wrong_sn_in_subject (Digests.to_str base64 id))
      else if e.approved
      then map_err subject_error (update_subject json subject e.patch e.sn)
      else ok (record subject { sn = e.sn })

  module _ (crypto : Crypto) ⦃request_borsh : Borsh (Signed EventRequest)⦄ where
    -- `set_finished_request`
    unfoldable pub set_finished_request :
        DigestIdentifier
        → Signed EventRequest
        → ℕ
        → DigestIdentifier
        → Bool
        → Action (State S) LedgerError Unit
    set_finished_request request_id r sn subject_id success = do
      request ← read (λ _. map_err subject_error (try_from crypto r))
      let done : TapleRequest = record request {
        sn = some sn;
        subject_id = some subject_id;
        state = finished;
        success = some success;
      }
      on_store (set_request c base64 codecs request_id done)

    -- What the three kinds of events do once the subject is made.
    unfoldable pub keep_event :
        Surroundings
        → Bool
        → DigestIdentifier
        → DigestIdentifier
        → Signed Event
        → Subject
        → Action (State S) LedgerError Unit
    unfolding set_finished_request after_event
    keep_event around announces request_id id event next = do
      _ ← on_store (set_event c base64 codecs id event)
      _ ← set_finished_request request_id event.content.event_request event.content.sn id true
      _ ← notify (new_event event.content.sn (Digests.to_str base64 id))
      _ ← on_store (set_subject c base64 codecs id next)
      after_event around announces id event.content.sn

    module _ {Patch : Type 0} (json : Json Patch) (our_id : KeyIdentifier) where
      -- The match on the request: the subject it is about.
      unfoldable pub apply_validated :
          Surroundings
          → DigestIdentifier
          → Signed Event
          → Validation
          → EventRequest
          → Action (State S) LedgerError DigestIdentifier
      unfolding keep_event
      apply_validated around request_id event (signatures, proof) (fact r) = do
        subject ← read (λ s. find_known r.subject_id s.store)
        _ ← on_store (set_signatures c base64 codecs r.subject_id event.content.sn signatures proof)
        next ← read (λ _. after_fact json r.subject_id event.content subject)
        _ ← notify (state_updated event.content.sn (Digests.to_str base64 next.subject_id))
        _ ← keep_event around true request_id r.subject_id event next
        pure r.subject_id
      apply_validated around request_id event validation (create r) = fail state_in_genesis
      apply_validated around request_id event (signatures, proof) (transfer r) = do
        subject ← read (λ s. find_known r.subject_id s.store)
        next ← read (λ s.
            with_owner our_id subject event.content.event_request.signature.signer r.public_key
              s.store)
        _ ← on_store (set_signatures c base64 codecs r.subject_id event.content.sn signatures proof)
        _ ←
            keep_event around false request_id r.subject_id event
              (record next { sn = event.content.sn })
        pure r.subject_id
      apply_validated around request_id event (signatures, proof) (eol r) = do
        subject ← read (λ s. find_known r.subject_id s.store)
        _ ← on_store (set_signatures c base64 codecs r.subject_id event.content.sn signatures proof)
        _ ←
            keep_event around true request_id r.subject_id event
              (eol_event (record subject { sn = event.content.sn }))
        pure r.subject_id

      -- Up to the upgrade of the ledger's state.
      unfoldable pub record_validated :
          Surroundings → Signed Event → Validation → Action (State S) LedgerError DigestIdentifier
      unfolding apply_validated
      record_validated around event validation = do
        request_id ← read (λ _.
            map_err (λ _. crypto_error (text "Error generating request hash"))
              (generate_with_blake3 crypto event.content.event_request))
        id ← apply_validated around request_id event validation event.content.event_request.content
        _ ←
            set_finished_request request_id event.content.event_request event.content.sn id
              (event.content.eval_success && event.content.approved)
        pure id

-- The entry of the ledger's state behind an event; an entry without a number is a panic.
unfoldable pub upgraded : Option LedgerState → Result LedgerState (Fault LedgerError)
upgraded none = ok (record { current_sn = some 0; head = none })
upgraded (some old) = elim old.current_sn [
  | none ↦ err panic
  | some sn ↦ ok (record old { current_sn = some (next_sn sn) })
]

module _ {S : Type 0} where
  abbrev faults :
      {A : Type 0} → Result A LedgerError × State S → Result A (Fault LedgerError) × State S
  faults (ok a, s) = (ok a, s)
  faults (err e, s) = (err (raise e), s)

  -- An error that is returned, among those that may be panics.
  abbrev pub faulty :
      {A : Type 0} → Action (State S) LedgerError A → Action (State S) (Fault LedgerError) A
  faulty action s = faults (action s)

  faults-Outcome :
      {A : Type 0} (Q : A → State S → Type 0) (r : Result A LedgerError × State S)
      → Outcome Q (λ _ _. Unit) r
      → Outcome Q (λ _ _. Unit) (faults r)
  faults-Outcome Q (ok a, t) h = h
  faults-Outcome Q (err e, t) h = tt

  pub Ensures-faulty :
      {A : Type 0} {P : State S → Type 0} {Q : A → State S → Type 0}
      {action : Action (State S) LedgerError A}
      → Ensures P action Q (λ _ _. Unit)
      → Ensures P (faulty action) Q (λ _ _. Unit)
  Ensures-faulty {Q} {action} ensures = record {
    outcome = λ s p. faults-Outcome Q (action s) (ensures.outcome s p);
  }

  -- The channel of the distribution.
  unfoldable pub distribute :
      Surroundings → DigestIdentifier → ℕ → Action (State S) (Fault LedgerError) Unit
  distribute around id sn s =
      if around.distribution_open
      then (ok tt, record s { distributed = (id, sn) ∷ s.distributed })
      else (err (raise (channel_error channel_closed)), s)

  -- The upgrade of the ledger's state, and the news for the distribution.
  unfoldable pub upgrade :
      Surroundings → DigestIdentifier → ℕ → Action (State S) (Fault LedgerError) Unit
  unfolding upgraded distribute
  upgrade around id sn = do
    next ← read (λ s. upgraded (entry s.ledger_state id))
    _ ← λ s. (ok tt, record s { ledger_state = (id, next) ∷ s.ledger_state })
    distribute around id sn

module _ {S : Type 0} (c : DatabaseCollection S) (base64 : Base64) (codecs : LayerCodecs)
    (crypto : Crypto) ⦃request_borsh : Borsh (Signed EventRequest)⦄ {Patch : Type 0}
    (json : Json Patch) (our_id : KeyIdentifier) where
  unfoldable pub event_validated :
      Surroundings → Signed Event → Validation → Action (State S) (Fault LedgerError) Unit
  unfolding record_validated upgrade
  event_validated around event validation = do
    id ← faulty (record_validated c base64 codecs crypto json our_id around event validation)
    upgrade around id event.content.sn
