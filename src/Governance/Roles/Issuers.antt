-- ===== src/Governance/Roles/Issuers.antt =====
-- Who may issue an event or create a subject, described without the order of the roles.
use taple_core.Prelude.{
  ◌≡◌, Bool, true, false, ◌&&◌, ◌||◌, not, none, some, List, [], ◌∷◌, Str, arith, nat_eq, list_eq,
  ◌==◌, contains, Option-cases, Result-cases, ok, inl, inr,
}
use taple_core.Identifier.{Base64}
use taple_core.Identifier.Keys.{KeyIdentifier, key_identifier_eq}
use taple_core.Identifier.Keys
use taple_core.Governance.Stages.{ValidationStage}
use taple_core.Governance.Policies.{Who, Role}
use taple_core.Governance.Roles.{
  Members, lookup, role_applies, who_issues, issue_step, issue_create_info,
}

module _ (base64 : Base64) (schema_id namespace : Str) (stage : ValidationStage) (is_gov : Bool)
    (members : Members) (invoker : KeyIdentifier) where
  -- Whether a `who` lets the invoker through: a member by its key or its name, any member, anyone,
  -- or anyone who is no member.
  abbrev pub lets_through : Who → Bool
  lets_through (Who.id i) = contains members.0 invoker && i == Keys.to_str base64 invoker
  lets_through (Who.name n) = elim (lookup n members.1) [
    | some k ↦ contains members.0 invoker && Keys.to_str base64 k == Keys.to_str base64 invoker
    | none ↦ false
  ]
  lets_through Who.members = contains members.0 invoker
  lets_through Who.all = true
  lets_through Who.not_members = not (contains members.0 invoker)

  abbrev pub some_role_lets_through : List Role → Bool
  some_role_lets_through [] = false
  some_role_lets_through (role ∷ roles) =
      (role_applies role schema_id namespace stage is_gov && lets_through role.who)
      || some_role_lets_through roles

  who_issues-lets_through :
      (who : Who) (b : Bool)
      → who_issues base64 schema_id namespace stage is_gov members invoker who ≡ ok b
      → b ≡ lets_through who
  unfolding who_issues
  who_issues-lets_through (Who.name n) b h = elim (Option-cases (lookup n members.1)) [
    | inl e ↦ ground (arith, e)
    | inr (k, e) ↦ ground (arith, e)
  ]
  who_issues-lets_through _ b h = ground arith

  issue_step-lets_through :
      (role : Role) (b : Bool)
      → issue_step base64 schema_id namespace stage is_gov members invoker role ≡ ok b
      → b ≡ (role_applies role schema_id namespace stage is_gov && lets_through role.who)
  unfolding issue_step
  issue_step-lets_through role b h = ground (arith, who_issues-lets_through role.who b)

  -- Where `issue_create_info` answers, the answer is whether some role that applies lets the
  -- invoker through, in whatever order the roles stand.
  pub issue_create_info_lem :
      (roles : List Role) (b : Bool)
      → issue_create_info base64 schema_id namespace stage is_gov members invoker roles ≡ ok b
      → b ≡ some_role_lets_through roles
  unfolding issue_create_info
  issue_create_info_lem [] b h = ground arith
  issue_create_info_lem (role ∷ roles) b h =
      elim (Result-cases
        (issue_step base64 schema_id namespace stage is_gov members invoker role)) [
          | inl (true, e) ↦ ground (arith, e, h, issue_step-lets_through role true e)
          | inl (false, e) ↦ ground (
            arith,
            issue_step-lets_through role false e,
            issue_create_info_lem roles b (rw (e, issue_create_info) at h),
          )
          | inr (failure, e) ↦ absurd (ground (arith, e, h))
        ]
