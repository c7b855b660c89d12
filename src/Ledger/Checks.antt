-- ===== src/Ledger/Checks.antt =====
-- What ledger/ledger.rs reads and tests ahead of a change.
use taple_core.Prelude.{
  ℕ, ◌+◌, ◌%◌, ◌-◌, ◌^◌, Bool, true, false, not, ◌||◌, Option, none, some, ◌==◌, nat_eq, list_eq,
  eqb, if◌then◌else◌, text, Result, ok, err, map_err, ◌>>=◌,
}
use taple_core.Identifier.{Base64}
use taple_core.Identifier.Digests.{DigestIdentifier, digest_identifier_eq, default}
use taple_core.Identifier.Keys.{KeyIdentifier, key_identifier_eq}
use taple_core.Models.Errors.{DbError, entry_not_found}
use taple_core.Models.Crypto.{Borsh, Crypto, KeyPair, from_serializable_borsh}
use taple_core.Models.Signatures.{Signed}
use taple_core.Models.Values.{Value, array, nil}
use taple_core.Models.Subjects.{Subject}
use taple_core.Models.Events.{Event}
use taple_core.Models.Proofs.{ValidationProof}
use taple_core.Validation.Checks.{next_sn}
use taple_core.Database.Collections.{DatabaseCollection}
use taple_core.Database.Layers.{LayerCodecs, get_subject, get_event, get_keys}
use taple_core.Ledger.Defs.{
  LedgerError, database_error, crypto_error, validation_proof_error, unexpected_transfer,
  unexpect_event_missing_in_event_sourcing, event_does_not_fit_hash, evaluation_in_transfer_event,
  approval_in_transfer_event,
}

-- `sn - 1` on a `u64` without overflow checks.
abbrev pub previous_sn : ℕ → ℕ
previous_sn sn = (sn + (2 ^ 64 - 1)) % 2 ^ 64

-- An event that is missing is unexpected.
unfoldable pub event_failure : DbError → LedgerError
event_failure entry_not_found = unexpect_event_missing_in_event_sourcing
event_failure e = database_error e

-- Keys that are missing are those of a transfer that nobody prepared.
unfoldable pub keys_failure : DbError → LedgerError
keys_failure entry_not_found = unexpected_transfer
keys_failure e = database_error e

-- `check_transfer_event`: the patch is `[]`.
unfoldable pub is_empty_array : Value → Bool
is_empty_array (array nil) = true
is_empty_array _ = false

unfoldable pub check_transfer_event : Event → Result Unit LedgerError
unfolding is_empty_array
check_transfer_event e =
    if not e.eval_success || not (is_empty_array e.patch)
    then err evaluation_in_transfer_event
    else if e.appr_required || not e.approved
    then err approval_in_transfer_event
    else ok tt

-- The tests of `check_validation_proof`, in the order of the source.
unfoldable pub check_fields :
    ValidationProof
    → Subject
    → DigestIdentifier
    → DigestIdentifier
    → KeyIdentifier
    → Result Unit LedgerError
check_fields p subject hash_prev_event event_hash public_key =
    if not (subject.governance_id == p.governance_id)
    then err (validation_proof_error (text "Governance ID does not match"))
    else if not (p.subject_id == subject.subject_id)
    then err (validation_proof_error (text "Subject ID does not match"))
    else if not (eqb p.sn (next_sn subject.sn))
    then err (validation_proof_error (text "Subject SN does not match"))
    else if not (p.schema_id == subject.schema_id)
    then err (validation_proof_error (text "Schema ID does not match"))
    else if not (p.namespace == subject.namespace)
    then err (validation_proof_error (text "Namespace does not match"))
    else if not (p.prev_event_hash == hash_prev_event)
    then err (validation_proof_error (text "Hash Prev Event does not match"))
    else if not (p.event_hash == event_hash)
    then err (validation_proof_error (text "Hash Event does not match"))
    else if not (p.subject_public_key == public_key)
    then err (validation_proof_error (text "Subject Public Key does not match"))
    else if not (p.name == subject.name)
    then err (validation_proof_error (text "Subject Name does not match"))
    else if not (eqb p.genesis_governance_version subject.genesis_gov_version)
    then err (validation_proof_error (text "Genesis gov versiob does not match"))
    else ok tt

module _ {S : Type 0} (c : DatabaseCollection S) (base64 : Base64) (codecs : LayerCodecs) where
  unfoldable pub find_event : DigestIdentifier → ℕ → S → Result (Signed Event) LedgerError
  unfolding event_failure
  find_event id sn store = map_err event_failure (get_event c base64 codecs id sn store)

  -- The subject of the database.
  unfoldable pub find_subject : DigestIdentifier → S → Result Subject LedgerError
  find_subject id store = map_err database_error (get_subject c base64 codecs id store)

  -- The keys of a subject that is transferred to us.
  unfoldable pub transferred_keys : Bool → KeyIdentifier → S → Result (Option KeyPair) LedgerError
  unfolding keys_failure
  transferred_keys true public_key store = do
    keys ← map_err keys_failure (get_keys c base64 codecs public_key store)
    ok (some keys)
  transferred_keys false public_key store = ok none

  module _ (crypto : Crypto) ⦃event_borsh : Borsh Event⦄ where
    -- That the hash of the event ahead of `sn` is the one that is given.
    unfoldable pub check_previous_hash :
        DigestIdentifier → ℕ → DigestIdentifier → S → Result Unit LedgerError
    unfolding find_event
    check_previous_hash id sn hash_prev_event store = do
      previous ← find_event id (previous_sn sn) store
      hash ←
          map_err (λ _. crypto_error (text "Error generating hash"))
            (from_serializable_borsh crypto previous.content hash_prev_event.derivator)
      if hash_prev_event == hash then ok tt else err event_does_not_fit_hash

    -- The hash of the last event of a subject, by the derivator of the proof.
    unfoldable pub last_event_hash :
        Result (Signed Event) DbError
        → Subject
        → ValidationProof
        → Result DigestIdentifier LedgerError
    last_event_hash (ok event) subject p =
        map_err (λ _. validation_proof_error (text "Error parsing prev event content"))
          (from_serializable_borsh crypto event.content p.prev_event_hash.derivator)
    last_event_hash (err entry_not_found) subject p =
        if eqb subject.sn 0 then ok default else err (database_error entry_not_found)
    last_event_hash (err e) subject p = err (database_error e)

    -- `check_validation_proof`
    unfoldable pub check_validation_proof :
        ValidationProof → Subject → DigestIdentifier → KeyIdentifier → S → Result Unit LedgerError
    unfolding last_event_hash check_fields
    check_validation_proof p subject event_hash public_key store = do
      hash ←
          last_event_hash (get_event c base64 codecs subject.subject_id subject.sn store) subject p
      check_fields p subject hash event_hash public_key
