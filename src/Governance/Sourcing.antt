-- ===== src/Governance/Sourcing.antt =====
-- `governance_event_sourcing` of governance/inner_governance.rs, and the initial state of
-- schema_handler/initial_state.rs.
pub mod Versions
pub mod Patches
use taple_core.Prelude.{
  ℕ, zero, suc, [], none, Str, text, eqb, ltb, if◌then◌else◌, Result, ok, err, map_err, ◌>>=◌,
}
use taple_core.Identifier.{Base64}
use taple_core.Identifier.Digests.{DigestIdentifier, to_str}
use taple_core.Models.Values.{Value, string, array, object, nil, cons, end, entry, Json}
use taple_core.Models.Errors.{DbError}
use taple_core.Models.Crypto.{Borsh, Crypto}
use taple_core.Models.Signatures.{Signed}
use taple_core.Models.Events.{Event}
use taple_core.Models.Subjects.{Subject, IdContents, from_genesis_event, update_subject}
use taple_core.Governance.Errors.{
  RequestError, subject_error, governance_not_found, governance_version_too_high,
}

-- What the governance reads from the database at one moment: the subjects, and the events of each.
pub record Repository : Type 0 where
  pub get_subject : DigestIdentifier → Result Subject DbError
  pub get_event : DigestIdentifier → ℕ → Result (Signed Event) DbError

abbrev majority_quorum : Value
majority_quorum = object (entry (text "quorum") (string (text "MAJORITY")) end)

-- `get_governance_initial_state`
unfoldable pub get_governance_initial_state : Value
get_governance_initial_state = object (
    entry (text "members") (array nil) (
      entry (text "roles")
        (array (
          cons
            (object (
              entry (text "namespace") (string []) (
                entry (text "role") (string (text "WITNESS")) (
                  entry (text "schema")
                    (object (entry (text "ID") (string (text "governance")) end))
                    (entry (text "who") (string (text "MEMBERS")) end)))))
            nil))
        (entry (text "schemas") (array nil) (
          entry (text "policies")
            (array (
              cons
                (object (
                  entry (text "id") (string (text "governance")) (
                    entry (text "approve") majority_quorum (
                      entry (text "evaluate") majority_quorum
                        (entry (text "validate") majority_quorum end)))))
                nil))
            end))))

module _ (crypto : Crypto) ⦃borsh : Borsh IdContents⦄ (base64 : Base64) {Patch : Type 0}
    (json : Json Patch) (repo : Repository) where
  -- One round of the loop: event `i` applied to the governance.
  unfoldable pub apply_event : DigestIdentifier → ℕ → Subject → Result Subject RequestError
  apply_event governance_id i s = do
    event ← map_err RequestError.database_error (repo.get_event governance_id i)
    map_err subject_error (update_subject json s event.content.patch i)

  -- `for i in 1..=n`, where the last round is the last to be applied.
  unfoldable pub replay : DigestIdentifier → Subject → ℕ → Result Subject RequestError
  replay governance_id s zero = ok s
  replay governance_id s (suc n) = do
    s' ← replay governance_id s n
    apply_event governance_id (suc n) s'

  -- The governance as its first event makes it.
  unfoldable pub genesis : DigestIdentifier → Result Subject RequestError
  unfolding get_governance_initial_state
  genesis governance_id = do
    event ← map_err RequestError.database_error (repo.get_event governance_id 0)
    map_err subject_error (
        from_genesis_event crypto base64 event get_governance_initial_state none
          governance_id.derivator)

  -- The middle branch: the governance at an earlier version, from its events.
  unfoldable pub rebuild : DigestIdentifier → ℕ → Result Subject RequestError
  rebuild governance_id version = do s ← genesis governance_id; replay governance_id s version

  -- The inner match on an error of `get_subject`.
  unfoldable pub subject_read_error : DigestIdentifier → DbError → RequestError
  subject_read_error governance_id DbError.entry_not_found =
      governance_not_found (to_str base64 governance_id)
  subject_read_error governance_id e = RequestError.database_error e

  -- `governance_event_sourcing`
  unfoldable pub governance_event_sourcing : DigestIdentifier → ℕ → Result Subject RequestError
  governance_event_sourcing governance_id version = do
    current ← map_err (subject_read_error governance_id) (repo.get_subject governance_id)
    if eqb current.sn version
        then ok current
        else if ltb version current.sn
        then rebuild governance_id version
        else err (governance_version_too_high (to_str base64 governance_id) version)
