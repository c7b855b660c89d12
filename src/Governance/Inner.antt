-- ===== src/Governance/Inner.antt =====
-- The operations of `InnerGovernance` (governance/inner_governance.rs).
pub mod Signatories
pub mod Quorums
use taple_core.Prelude.{
  ℕ, ◌+◌, ◌/◌, ◌%◌, ◌^◌, Bool, true, false, ◌&&◌, not, Option, none, some, List, [], ◌∷◌, Str, text,
  nat_eq, list_eq, ◌==◌, is_empty, length, if◌then◌else◌, Result, ok, err, map_err, ok_or, ◌>>=◌,
  Fault, raise, panic, unwrap,
}
use taple_core.Identifier.{Base64, Bytes}
use taple_core.Identifier.Digests.{DigestIdentifier, to_str}
use taple_core.Identifier.Keys.{KeyIdentifier}
use taple_core.Models.Values.{Value, Json}
use taple_core.Models.Errors.{DbError, ChannelErrors}
use taple_core.Models.Crypto.{Borsh, Crypto}
use taple_core.Models.Events.{Metadata}
use taple_core.Models.Subjects.{Subject, IdContents}
use taple_core.Governance.Stages.{ValidationStage, stage_eq, witness, create, invoke}
use taple_core.Governance.Stages
use taple_core.Governance.Errors.{
  RequestError, InternalError, subject_not_found, schema_not_found, governance_not_found,
  invalid_governance_id, searching_signers_quorum_in_wrong_stage,
  searching_invoke_info_in_wrong_stage, deserialization_error, invalid_governance_payload,
  base64_decoding_error,
}
use taple_core.Governance.Policies.{Quorum, majority, fixed, percentage, Role}
use taple_core.Governance.Roles.{Members, get_signers_aux, issue_create_info}
use taple_core.Governance.Payload.{
  get_as_str, get_as_array, get_schema_from_policies, get_members_from_governance,
}
use taple_core.Governance.Payload
use taple_core.Governance.Answers.{
  Answer, Decoders, with_governance, answer, governance_of, and_then, or_owner, with_owner,
}
use taple_core.Governance.Sourcing.{
  Repository, get_governance_initial_state, governance_event_sourcing,
}

module _ (crypto : Crypto) ⦃borsh : Borsh IdContents⦄ (base64 : Base64) {Patch : Type 0}
    (json : Json Patch) {F : Type 0} (decoders : Decoders F) (repo : Repository) where
  -- The loop over the schemas: the field of the first with the identifier.
  unfoldable pub find_schema : List Value → Str → Str → Answer Value
  find_schema [] schema_id field = ok (err (schema_not_found schema_id))
  find_schema (schema ∷ schemas) schema_id field =
      let rest = find_schema schemas schema_id field in
      do
        id ← get_as_str json schema (text "id")
        if id == schema_id then (do value ← unwrap (json.get schema field); ok (ok value)) else rest

  -- What `get_init_state` and `get_schema` share.
  unfoldable pub schema_field : DigestIdentifier → Str → ℕ → Str → Answer Value
  schema_field governance_id schema_id version field =
      with_governance (governance_event_sourcing crypto base64 json repo governance_id version)
        λ governance. do
          schemas ← get_as_array json governance.properties (text "schemas")
          find_schema schemas schema_id field

  -- `get_init_state`
  unfoldable pub get_init_state : DigestIdentifier → Str → ℕ → Answer Value
  get_init_state governance_id schema_id version =
      if is_empty governance_id.digest
      then ok (ok get_governance_initial_state)
      else schema_field governance_id schema_id version (text "initial_value")

  -- `get_schema`, where `governance_schema` is the schema of governances.
  unfoldable pub get_schema : Value → DigestIdentifier → Str → ℕ → Answer Value
  get_schema governance_schema governance_id schema_id version =
      if schema_id == text "governance"
      then ok (ok governance_schema)
      else schema_field governance_id schema_id version (text "schema")

  -- The version that `get_signers` reads the governance at: for witnesses the current one.
  unfoldable pub signers_version : Metadata → ValidationStage → Answer ℕ
  signers_version metadata witness =
      elim (repo.get_subject (governance_of metadata.governance_id metadata.subject_id)) [
        | ok s ↦ ok (ok s.sn)
        | err DbError.entry_not_found ↦ ok (err subject_not_found)
        | err e ↦ err (raise (InternalError.database_error e))
      ]
  signers_version metadata _ = ok (ok metadata.governance_version)

  -- The roles and the members of a governance.
  unfoldable pub read_roles : Subject → Result (List Role × Members) (Fault InternalError)
  read_roles governance = do
    field ← unwrap (json.get governance.properties (text "roles"))
    roles ← ok_or (decoders.roles_of field) (raise deserialization_error)
    members ← get_members_from_governance json base64 governance.properties
    ok (roles, members)

  -- The search for the signers, once the governance is known.
  unfoldable pub signers_in : Metadata → ValidationStage → Subject → Answer (List KeyIdentifier)
  signers_in metadata stage governance = do
    found ← read_roles governance
    signers ← answer (
        get_signers_aux base64 metadata.schema_id metadata.namespace stage
          (is_empty metadata.governance_id.digest) found.1 found.0 [])
    with_owner governance.owner signers

  -- `get_signers`
  unfoldable pub get_signers : Metadata → ValidationStage → Answer (List KeyIdentifier)
  get_signers metadata stage = do
    version ← signers_version metadata stage
    and_then version λ v.
        with_governance
          (governance_event_sourcing crypto base64 json repo
            (governance_of metadata.governance_id metadata.subject_id) v)
          (signers_in metadata stage)

  -- The match on the quorum, for a number of signers; their count is cast to `u32`.
  unfoldable pub quorum_size : Quorum F → ℕ → ℕ
  quorum_size majority n = (n % 2 ^ 32) / 2 + 1
  quorum_size (fixed k) n = k
  quorum_size (percentage p) n = decoders.ceil_part n p

  -- The quorum, once the policy of the schema is found.
  unfoldable pub quorum_in : Metadata → ValidationStage → Value → Answer ℕ
  quorum_in metadata stage policy = do
    quorum ← Payload.get_quorum json decoders.quorum_of policy (Stages.to_str stage)
    signers ← get_signers metadata stage
    and_then signers λ ks. ok (ok (quorum_size quorum (length ks)))

  -- `get_quorum`
  unfoldable pub get_quorum : Metadata → ValidationStage → Answer ℕ
  get_quorum metadata stage =
      if stage == witness
      then ok (err (searching_signers_quorum_in_wrong_stage (Stages.to_str stage)))
      else with_governance
          (governance_event_sourcing crypto base64 json repo
            (governance_of metadata.governance_id metadata.subject_id) metadata.governance_version)
          λ governance. do
            policies ← get_as_array json governance.properties (text "policies")
            policy ← get_schema_from_policies json policies metadata.schema_id
            and_then policy (quorum_in metadata stage)

  -- `get_issue_create_info`
  unfoldable pub get_issue_create_info : Metadata → ValidationStage → KeyIdentifier → Answer Bool
  get_issue_create_info metadata stage invoker =
      if not (stage == create) && not (stage == invoke)
      then ok (err (searching_invoke_info_in_wrong_stage (Stages.to_str stage)))
      else with_governance
          (governance_event_sourcing crypto base64 json repo
            (governance_of metadata.governance_id metadata.subject_id) metadata.governance_version)
          λ governance. do
            found ← read_roles governance
            answer (
                issue_create_info base64 metadata.schema_id metadata.namespace stage
                  (is_empty metadata.governance_id.digest) found.1 invoker found.0)

  -- One round of the loop of `get_contracts`.
  unfoldable pub read_contract : Value → Result (Str × Str) (Fault InternalError)
  read_contract schema = do
    schema_id ← unwrap (json.as_str (json.index schema (text "id")))
    raw ←
        ok_or (decoders.raw_of (json.index schema (text "contract")))
          (raise (invalid_governance_payload "5"))
    bytes ← ok_or (decoders.decode raw) (raise base64_decoding_error)
    decoded ← ok_or (decoders.from_utf8 bytes) (raise base64_decoding_error)
    ok (decoded, schema_id)

  unfoldable pub read_contracts : List Value → Result (List (Str × Str)) (Fault InternalError)
  read_contracts [] = ok []
  read_contracts (schema ∷ schemas) =
      let rest = read_contracts schemas in
      do contract ← read_contract schema; contracts ← rest; ok (contract ∷ contracts)

  -- `get_contracts`: the text of each contract with the identifier of its schema.
  unfoldable pub get_contracts : DigestIdentifier → ℕ → Answer (List (Str × Str))
  get_contracts governance_id version =
      with_governance (governance_event_sourcing crypto base64 json repo governance_id version)
        λ governance. do
          schemas ← get_as_array json governance.properties (text "schemas")
          contracts ← read_contracts schemas
          ok (ok contracts)

  -- `get_governance_version`
  unfoldable pub get_governance_version : DigestIdentifier → DigestIdentifier → Answer ℕ
  get_governance_version subject_id governance_id =
      let id : DigestIdentifier = governance_of governance_id subject_id in
      elim (repo.get_subject id) [
        | ok governance ↦
            if not (is_empty (to_str base64 governance.governance_id))
            then ok (err invalid_governance_id)
            else ok (ok governance.sn)
        | err DbError.entry_not_found ↦ ok (err (governance_not_found (to_str base64 id)))
        | err e ↦ err (raise (InternalError.database_error e))
      ]

  -- `is_governance`
  unfoldable pub is_governance : DigestIdentifier → Answer Bool
  is_governance subject_id = elim (repo.get_subject subject_id) [
    | ok subject ↦ ok (ok (is_empty subject.governance_id.digest))
    | err DbError.entry_not_found ↦ ok (err subject_not_found)
    | err e ↦ err (raise (InternalError.database_error e))
  ]
