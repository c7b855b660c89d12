-- ===== src/Governance/Roles.antt =====
-- `get_signers_aux` and `issue_create_info` of governance/inner_governance.rs.
pub mod Signers
pub mod Issuers
use taple_core.Prelude.{
  ℕ, ◌≡◌, Bool, true, false, ◌&&◌, ◌||◌, not, Option, none, some, List, [], ◌∷◌, ◌++◌, Str, text,
  nat_eq, list_eq, ◌==◌, contains, insert, if◌then◌else◌, Result, ok, err, Fault, raise, panic,
}
use taple_core.Identifier.{Base64}
use taple_core.Identifier
use taple_core.Identifier.Keys.{KeyIdentifier, key_identifier_eq}
use taple_core.Identifier.Keys
use taple_core.Governance.Stages.{ValidationStage, stage_eq, to_role, create, invoke}
use taple_core.Governance.Errors.{
  RequestError, invalid_key_identifier, invalid_name, searching_signers_quorum_in_wrong_stage,
}
use taple_core.Governance.Policies.{Who, SchemaEnum, Role}
use taple_core.Governance.Namespaces.{namespace_contiene}

-- The members of a governance: the set of their keys, and the map from their names.
abbrev pub Members : Type 0
Members = List KeyIdentifier × List (Str × KeyIdentifier)

-- `HashMap::get`
abbrev pub lookup : Str → List (Str × KeyIdentifier) → Option KeyIdentifier
lookup k [] = none
lookup k ((j, v) ∷ m) = if j == k then some v else lookup k m

-- The match on `role.schema`.
abbrev pub schema_applies : SchemaEnum → Str → Bool → Bool
schema_applies (SchemaEnum.id i) schema_id is_gov = i == schema_id
schema_applies SchemaEnum.not_governance schema_id is_gov = not is_gov
schema_applies SchemaEnum.all schema_id is_gov = true

-- The tests that let a role through to the match on `role.who`.
unfoldable pub role_applies : Role → Str → Str → ValidationStage → Bool → Bool
role_applies role schema_id namespace stage is_gov =
    role.role == to_role stage
    && (schema_applies role.schema schema_id is_gov && namespace_contiene role.namespace namespace)

-- What one role does to the set of signers.
pub data Step : Type 0 where
  skip all_members : Step
  add : KeyIdentifier → Step

-- The stages in which no signers are sought.
abbrev pub is_wrong_stage : ValidationStage → Bool
is_wrong_stage create = true
is_wrong_stage invoke = true
is_wrong_stage _ = false

invalid_name_of : Str → RequestError
invalid_name_of n = invalid_name (text "Invalid Name in roles: " ++ n)

module _ (base64 : Base64) (schema_id namespace : Str) (stage : ValidationStage) (is_gov : Bool)
    (members : Members) where
  -- The arm of `Who::ID`.
  unfoldable pub member_of_id : Str → Result Step (Fault RequestError)
  member_of_id i = elim (Keys.from_str base64 i) [
    | ok k ↦ ok (if contains members.0 k then add k else skip)
    | err Identifier.IdError.panic ↦ err panic
    | err _ ↦ err (raise (invalid_key_identifier i))
  ]

  -- The arm of `Who::NAME`.
  unfoldable pub member_of_name : Str → Result Step (Fault RequestError)
  unfolding invalid_name_of
  member_of_name n = elim (lookup n members.1) [
    | none ↦ err (raise (invalid_name_of n))
    | some k ↦ ok (add k)
  ]

  -- The match on `role.who`.
  unfoldable pub who_step : Who → Result Step (Fault RequestError)
  unfolding member_of_id member_of_name
  who_step (Who.id i) = member_of_id i
  who_step (Who.name n) = member_of_name n
  who_step Who.members = ok all_members
  who_step Who.all = ok all_members
  who_step Who.not_members = ok skip

  -- One round of the loop of `get_signers_aux`.
  unfoldable pub signers_step : Role → Result Step (Fault RequestError)
  signers_step role =
      if is_wrong_stage stage
      then err (raise (searching_signers_quorum_in_wrong_stage (to_role stage)))
      else if role_applies role schema_id namespace stage is_gov
      then who_step role.who
      else ok skip

  -- The loop, from the signers found so far.
  unfoldable pub get_signers_aux :
      List Role → List KeyIdentifier → Result (List KeyIdentifier) (Fault RequestError)
  get_signers_aux [] signers = ok signers
  get_signers_aux (role ∷ roles) signers = elim (signers_step role) [
    | err failure ↦ err failure
    | ok skip ↦ get_signers_aux roles signers
    | ok all_members ↦ ok members.0
    | ok (add k) ↦ get_signers_aux roles (insert k signers)
  ]

  module _ (invoker : KeyIdentifier) where
    -- The match on `role.who` in `issue_create_info`: whether the role lets the invoker through.
    unfoldable pub who_issues : Who → Result Bool (Fault RequestError)
    unfolding invalid_name_of
    who_issues (Who.id i) = ok (contains members.0 invoker && i == Keys.to_str base64 invoker)
    who_issues (Who.name n) = elim (lookup n members.1) [
      | none ↦ err (raise (invalid_name_of n))
      | some k ↦
          ok (contains members.0 invoker && Keys.to_str base64 k == Keys.to_str base64 invoker)
    ]
    who_issues Who.members = ok (contains members.0 invoker)
    who_issues Who.all = ok true
    who_issues Who.not_members = ok (not (contains members.0 invoker))

    -- One round of the loop of `issue_create_info`.
    unfoldable pub issue_step : Role → Result Bool (Fault RequestError)
    issue_step role =
        if role_applies role schema_id namespace stage is_gov then who_issues role.who else ok false

    -- `issue_create_info`
    unfoldable pub issue_create_info : List Role → Result Bool (Fault RequestError)
    issue_create_info [] = ok false
    issue_create_info (role ∷ roles) = elim (issue_step role) [
      | err failure ↦ err failure
      | ok true ↦ ok true
      | ok false ↦ issue_create_info roles
    ]
