-- ===== src/Ledger/Defs.antt =====
-- The errors of ledger/errors.rs, and the state of the ledger of ledger/ledger.rs.
use taple_core.Prelude.{
  ◌≡◌, refl, ℕ, Bool, Option, none, some, List, [], ◌∷◌, Str, ◌==◌, if◌then◌else◌, Result, ok, err,
}
use taple_core.Identifier.Digests.{DigestIdentifier, digest_identifier_eq}
use taple_core.Prelude.Actions.{Action, Ensures, Outcome}
use taple_core.Models.Errors.{DbError, SubjectError, ChannelErrors}
use taple_core.Governance.Errors.{RequestError}

pub data LedgerError : Type 0 where
  channel_closed unexpected_response : LedgerError
  subject_not_found : Str → LedgerError
  unexpected_transfer : LedgerError
  error_parsing_json_string error_applying_patch : Str → LedgerError
  state_in_genesis : LedgerError
  channel_error : ChannelErrors → LedgerError
  subject_error : SubjectError → LedgerError
  crypto_error subject_already_exists : Str → LedgerError
  governance_error : RequestError → LedgerError
  database_error : DbError → LedgerError
  event_already_exists : LedgerError
  unauthorized not_enough_signatures zero_events_subject wrong_sn_in_subject : Str → LedgerError
  lce_bigger_sn unsigned_unknow_event unexpect_event_missing_in_event_sourcing : LedgerError
  event_not_next event_does_not_fit_hash : LedgerError
  we_are_not_witnesses invalid_lce_after_genesis governance_not_preauthorized : Str → LedgerError
  governance_lce : Str → LedgerError
  evaluation_in_transfer_event approval_in_transfer_event : LedgerError
  state_event_with_zero_sn_detected unexpected_create_event : LedgerError
  validation_proof_error eol_when_active_lce intermediate_eol subject_life_end : Str → LedgerError
  repeated_request_id : Str → LedgerError
  subject_id_error notification_channel_error : LedgerError

-- `Notification` of api/models and node.rs, as far as the ledger sends them.
pub data Notification : Type 0 where
  state_updated new_event : ℕ → Str → Notification
  new_subject : Str → Notification

-- `LedgerState`
pub record LedgerState : Type 0 where
  pub current_sn : Option ℕ
  pub head : Option ℕ

-- The database, the two maps of the ledger, and what was sent, the last first: notifications, whose
-- errors are ignored, and the events to distribute. A map is a list of its entries, the last first.
pub record State (S : Type 0) : Type 0 where
  pub store : S
  pub subject_is_gov : List (DigestIdentifier × Bool)
  pub ledger_state : List (DigestIdentifier × LedgerState)
  pub notified : List Notification
  pub distributed : List (DigestIdentifier × ℕ)

-- What a call meets outside: the answers of the governance, and whether the channel of the
-- distribution is open.
pub record Surroundings : Type 0 where
  pub is_governance : DigestIdentifier → Result Bool RequestError
  pub governance_updated : DigestIdentifier → ℕ → Result Unit RequestError
  pub distribution_open : Bool

-- The entry of a key.
abbrev pub entry : {A : Type 0} → List (DigestIdentifier × A) → DigestIdentifier → Option A
entry [] id = none
entry ((k, a) ∷ entries) id = if k == id then some a else entry entries id

module _ {S : Type 0} where
  abbrev pub notify : Notification → Action (State S) LedgerError Unit
  notify x s = (ok tt, record s { notified = x ∷ s.notified })

  abbrev stored : State S → Result S DbError → Result Unit LedgerError × State S
  stored s (ok store) = (ok tt, record s { store = store })
  stored s (err e) = (err (database_error e), s)

  -- A write of the database.
  abbrev pub on_store : (S → Result S DbError) → Action (State S) LedgerError Unit
  on_store f s = stored s (f s.store)

  stored-Outcome :
      (Q : Unit → State S → Type 0) (G : LedgerError → State S → Type 0) (s : State S)
      (r : Result S DbError)
      → ((store : S) → r ≡ ok store → Q tt (record s { store = store }))
      → ((e : LedgerError) → G e s)
      → Outcome Q G (stored s r)
  stored-Outcome Q G s (ok store) h k = h store refl
  stored-Outcome Q G s (err e) h k = k (database_error e)

  pub Ensures-on_store :
      {P : State S → Type 0} {Q : Unit → State S → Type 0} {G : LedgerError → State S → Type 0}
      (f : S → Result S DbError)
      → ((s : State S) (store : S) → P s → f s.store ≡ ok store → Q tt (record s { store = store }))
      → ((s : State S) (e : LedgerError) → P s → G e s)
      → Ensures P (on_store f) Q G
  Ensures-on_store {Q} {G} f h k = record {
    outcome = λ s p. stored-Outcome Q G s (f s.store) (λ store. h s store p) (λ e. k s e p);
  }
