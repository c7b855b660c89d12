-- ===== src/Approval/Defs.antt =====
-- The errors of approval/error.rs, and the state of the manager of approval/inner_manager.rs.
use taple_core.Prelude.{◌≡◌, arith, ℕ, List, ◌∷◌, Str, Result, ok, err}
use taple_core.Prelude.Actions.{Action, Ensures, Outcome}
use taple_core.Identifier.{DigestDerivator}
use taple_core.Identifier.Digests.{DigestIdentifier}
use taple_core.Identifier.Keys.{KeyIdentifier}
use taple_core.Models.Errors.{DbError}
use taple_core.Models.Crypto.{KeyPair}
use taple_core.Models.Signatures.{TimeStamp}
use taple_core.Governance.Interface.{GovernanceApi}

pub data ApprovalManagerError : Type 0 where
  ask_no_allowed governance_channel_failed message_channel_failed : ApprovalManagerError
  unexpected_error database_error hash_generation_failed : ApprovalManagerError
  sign_process_failed response_channel_closed : ApprovalManagerError
  invalid_request_type_found unexpected_request_type : ApprovalManagerError
  more_request_than_max_allowed event_apply_failed : ApprovalManagerError

pub data ApprovalErrorResponse : Type 0 where
  not_evaluation_in_request api_channel_not_available : ApprovalErrorResponse
  request_already_known no_fact_event previous_event_detected : ApprovalErrorResponse
  governance_not_found invalid_governance_id invalid_governance_version : ApprovalErrorResponse
  our_gov_is_lower our_gov_is_higher :
      KeyIdentifier → KeyIdentifier → DigestIdentifier → ApprovalErrorResponse
  subject_not_found governance_no_correlation subject_not_synchronized : ApprovalErrorResponse
  signature_signer_is_not_subject invalid_subject_signature : ApprovalErrorResponse
  node_is_not_approver invalid_evaluator invalid_evaluator_signature : ApprovalErrorResponse
  invalid_invokator invalid_invokator_permission no_quorum_reached : ApprovalErrorResponse
  approval_request_not_found no_hash_correlation invalid_acceptance : ApprovalErrorResponse
  error_hashing invalid_state_hash_after_apply request_not_found : ApprovalErrorResponse
  not_pending_request request_already_responded : ApprovalErrorResponse

-- How an operation ends without a result: `Ok(Err(response))`, `Err(error)`, or a panic.
pub data Failure : Type 0 where
  answered : ApprovalErrorResponse → Failure
  failed : ApprovalManagerError → Failure
  panic : Failure

-- `VotationType` of commons/settings.rs
pub data VotationType : Type 0 where
  normal always_accept always_reject : VotationType

-- The calls of the notifier, with the texts of the request and of the subject.
pub data Notification : Type 0 where
  request_reached request_obsolete : Str → Str → ℕ → Notification

-- What the manager changes: its database, and what it has told the notifier, the last first.
pub record State (S : Type 0) : Type 0 where
  pub store : S
  pub notified : List Notification

-- The fields that stay as they are, with the keys of the signature manager.
pub record Config : Type 0 where
  pub keys : KeyPair
  pub own_identifier : KeyIdentifier
  pub pass_votation : VotationType
  pub derivator : DigestDerivator

-- What a call meets outside: the answers of the governance, and the clock.
pub record Surroundings : Type 0 where
  pub gov_api : GovernanceApi
  pub now : TimeStamp

module _ {S : Type 0} where
  -- An action of the database; each of its errors is the manager's one of the database.
  abbrev database_result :
      {A : Type 0} → State S → Result A DbError × S → Result A Failure × State S
  database_result s (ok a, store) = (ok a, record s { store = store })
  database_result s (err _, store) = (err (failed database_error), record s { store = store })

  abbrev pub on_database : {A : Type 0} → Action S DbError A → Action (State S) Failure A
  on_database action s = database_result s (action s.store)

  abbrev pub notify : Notification → Action (State S) Failure Unit
  notify n s = (ok tt, record s { notified = n ∷ s.notified })

  -- `expect` on an answer.
  abbrev expect_answer : {A : Type 0} → Result A Failure × State S → Result A Failure × State S
  expect_answer (ok a, s) = (ok a, s)
  expect_answer (err (answered _), s) = (err panic, s)
  expect_answer (err failure, s) = (err failure, s)

  abbrev pub expect : {A : Type 0} → Action (State S) Failure A → Action (State S) Failure A
  expect action s = expect_answer (action s)

  on_database-Outcome :
      {A : Type 0} (Q : A → S → Type 0) (F : DbError → S → Type 0) (G : Failure → State S → Type 0)
      (s : State S) (r : Result A DbError × S)
      → ((e : DbError) (store : S)
          → F e store
          → G (failed database_error) (record s { store = store }))
      → Outcome Q F r
      → Outcome (λ a t. Q a t.store) G (database_result s r)
  on_database-Outcome Q F G s (ok a, store) h q = q
  on_database-Outcome Q F G s (err e, store) h q = h e store q

  -- What the database ensures of its store, the manager ensures of it too.
  pub Ensures-on_database :
      {A : Type 0} {P : S → Type 0} {Q : A → S → Type 0} {F : DbError → S → Type 0}
      {G : Failure → State S → Type 0} {action : Action S DbError A}
      → ((e : DbError) (t : State S) → F e t.store → G (failed database_error) t)
      → Ensures P action Q F
      → Ensures (λ s. P s.store) (on_database action) (λ a t. Q a t.store) G
  Ensures-on_database {Q} {F} {G} {action} h ensures = record {
    outcome = λ s p.
        on_database-Outcome Q F G s (action s.store) (λ e store. h e (record s { store = store }))
          (ensures.outcome s.store p);
  }

  expect_answer-Outcome :
      {A : Type 0} (Q : A → State S → Type 0) (F : Failure → State S → Type 0)
      (r : Result A Failure × State S)
      → Outcome Q (λ failure t. ((m : ApprovalManagerError) × (failure ≡ failed m)) × F failure t) r
      → Outcome Q F (expect_answer r)
  expect_answer-Outcome Q F (ok a, t) h = h
  expect_answer-Outcome Q F (err (answered e), t) h = absurd (ground (arith, h.0.1))
  expect_answer-Outcome Q F (err (failed e), t) h = h.1
  expect_answer-Outcome Q F (err panic, t) h = h.1

  -- What answers or ends with an error of the manager may be expected to answer.
  pub Ensures-expect :
      {A : Type 0} {P : State S → Type 0} {Q : A → State S → Type 0}
      {F : Failure → State S → Type 0} {action : Action (State S) Failure A}
      → Ensures P action Q
          (λ failure t. ((m : ApprovalManagerError) × (failure ≡ failed m)) × F failure t)
      → Ensures P (expect action) Q F
  Ensures-expect {Q} {F} {action} ensures = record {
    outcome = λ s p. expect_answer-Outcome Q F (action s) (ensures.outcome s p);
  }
