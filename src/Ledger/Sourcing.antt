-- ===== src/Ledger/Sourcing.antt =====
-- The event sourcing of ledger/ledger.rs: what an event does to the subject in the database.
use taple_core.Prelude.{ℕ, Bool, not, ◌==◌, eqb, if◌then◌else◌, ok, err, map_err}
use taple_core.Prelude.Actions.{Action, pure, fail, read, ◌>>=◌}
use taple_core.Identifier.{Base64}
use taple_core.Identifier.Digests.{DigestIdentifier}
use taple_core.Identifier.Digests
use taple_core.Identifier.Keys.{KeyIdentifier, key_identifier_eq}
use taple_core.Models.Values.{Json}
use taple_core.Models.Crypto.{Borsh, Crypto}
use taple_core.Models.Signatures.{Signed}
use taple_core.Models.Requests.{EventRequest, create, fact, transfer, eol}
use taple_core.Models.Subjects.{Subject, update_subject, transfer_subject, eol_event}
use taple_core.Models.Events.{Event}
use taple_core.Database.Collections.{DatabaseCollection}
use taple_core.Database.Layers.{LayerCodecs, set_subject, del_keys}
use taple_core.Validation.Checks.{next_sn}
use taple_core.Ledger.Checks.{find_event, find_subject, transferred_keys, check_previous_hash}
use taple_core.Ledger.Defs.{
  LedgerError, subject_error, event_not_next, event_does_not_fit_hash, unexpected_create_event,
  state_updated, State, notify, on_store,
}

module _ {S : Type 0} (c : DatabaseCollection S) (base64 : Base64) (codecs : LayerCodecs) where
  module _ (crypto : Crypto) ⦃event_borsh : Borsh Event⦄ where
    -- `event_sourcing_eol`, by the request of the event.
    unfoldable pub end_life : EventRequest → Event → Action (State S) LedgerError Subject
    end_life (eol r) e = do
      _ ← read (λ s.
          check_previous_hash c base64 codecs crypto r.subject_id e.sn e.hash_prev_event s.store)
      subject ← read (λ s. find_subject c base64 codecs r.subject_id s.store)
      _ ← on_store (set_subject c base64 codecs r.subject_id (eol_event subject))
      pure (eol_event subject)
    end_life _ e = fail event_does_not_fit_hash

    unfoldable pub event_sourcing_eol : Signed Event → Action (State S) LedgerError Subject
    unfolding end_life
    event_sourcing_eol event = end_life event.content.event_request.content event.content

    -- A transfer by an event of the database.
    unfoldable pub transfer_by :
        KeyIdentifier
        → DigestIdentifier
        → ℕ
        → KeyIdentifier
        → KeyIdentifier
        → Event
        → Action (State S) LedgerError Subject
    transfer_by our_id subject_id sn owner public_key e = do
      _ ←
          read (λ s.
            check_previous_hash c base64 codecs crypto subject_id sn e.hash_prev_event s.store)
      subject ← read (λ s. find_subject c base64 codecs subject_id s.store)
      let to_us : Bool = e.event_request.signature.signer == our_id
      keypair ← read (λ s. transferred_keys c base64 codecs to_us public_key s.store)
      let next : Subject = transfer_subject subject owner public_key keypair e.sn
      _ ← on_store (set_subject c base64 codecs subject_id next)
      _ ← if to_us then on_store (del_keys c base64 codecs public_key) else pure tt
      pure next

    -- The event is read anew, by its number.
    unfoldable pub event_sourcing_transfer :
        KeyIdentifier
        → DigestIdentifier
        → ℕ
        → KeyIdentifier
        → KeyIdentifier
        → Action (State S) LedgerError Subject
    unfolding transfer_by
    event_sourcing_transfer our_id subject_id sn owner public_key = do
      event ← read (λ s. find_event c base64 codecs subject_id sn s.store)
      transfer_by our_id subject_id sn owner public_key event.content

    unfoldable pub event_sourcing_rejected_event :
        Signed Event → Action (State S) LedgerError Subject
    event_sourcing_rejected_event event = do
      _ ← read (λ s.
          check_previous_hash c base64 codecs crypto event.content.subject_id event.content.sn
            event.content.hash_prev_event s.store)
      subject ← read (λ s. find_subject c base64 codecs event.content.subject_id s.store)
      let next : Subject = record subject { sn = event.content.sn }
      _ ←
          read
            (λ _. if eqb event.content.sn (next_sn subject.sn) then ok tt else err event_not_next)
      _ ← notify (state_updated event.content.sn (Digests.to_str base64 subject.subject_id))
      _ ← on_store (set_subject c base64 codecs event.content.subject_id next)
      pure next

    module _ {Patch : Type 0} (json : Json Patch) where
      unfoldable pub event_sourcing_state :
          DigestIdentifier → Signed Event → Action (State S) LedgerError Subject
      event_sourcing_state subject_id event = do
        _ ← read (λ s.
            check_previous_hash c base64 codecs crypto subject_id event.content.sn
              event.content.hash_prev_event s.store)
        subject ← read (λ s. find_subject c base64 codecs subject_id s.store)
        next ← read (λ _.
            map_err subject_error
              (update_subject json subject event.content.patch event.content.sn))
        _ ← notify (state_updated event.content.sn (Digests.to_str base64 next.subject_id))
        _ ← on_store (set_subject c base64 codecs subject_id next)
        pure next

      -- The match on an approved event.
      unfoldable pub source_approved :
          KeyIdentifier → Signed Event → EventRequest → Action (State S) LedgerError Subject
      unfolding event_sourcing_state
      source_approved our_id event (transfer r) =
          event_sourcing_transfer our_id r.subject_id event.content.sn
            event.content.event_request.signature.signer r.public_key
      source_approved our_id event (create r) = fail unexpected_create_event
      source_approved our_id event (fact r) = event_sourcing_state r.subject_id event
      source_approved our_id event (eol r) = event_sourcing_eol event

      unfoldable pub event_sourcing :
          KeyIdentifier → Signed Event → Action (State S) LedgerError Subject
      unfolding source_approved
      event_sourcing our_id event =
          if not event.content.approved
          then event_sourcing_rejected_event event
          else source_approved our_id event event.content.event_request.content
