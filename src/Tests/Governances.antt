-- ===== src/Tests/Governances.antt =====
-- A governance with two members, whose approvers and issuers are the members.
use taple_core.Prelude.{
  ℕ, zero, suc, ◌+◌, ◌*◌, ◌^◌, ◌<◌, ◌≤◌, ◌≡◌, ◌↔◌, ◌⊎◌, ◌||◌, ◌>>=◌, refl, inl, inr, Bool, true,
  false, Option, none, some, List, [], ◌∷◌, ◌++◌, arith, Str, text, contains, length, nat_eq,
  list_eq, ◌==◌, Result, ok, err, if◌then◌else◌, eqb,
}
use taple_core.Identifier.{Bytes, blake3_256, ed25519}
use taple_core.Identifier.Keys.{KeyIdentifier, key_identifier_eq}
use taple_core.Models.Values.{
  Value, Values, Entries, null, string, array, object, nil, cons, end, entry, Json,
}
use taple_core.Governance.Stages.{ValidationStage, approve, validate, invoke, witness, stage_eq}
use taple_core.Governance.Namespaces.{namespace_contiene, IsBelow, namespace_contiene_iff}
use taple_core.Governance.Policies.{Who, SchemaEnum, Role}
use taple_core.Governance.Roles.{Members, lookup, get_signers_aux, issue_create_info}
use taple_core.Governance.Roles.Signers.{NamesAreMembers, some_role_designates, get_signers_aux_lem}
use taple_core.Governance.Roles.Issuers.{some_role_lets_through, issue_create_info_lem}
use taple_core.Governance.Payload.{get_members_from_governance}
use taple_core.Governance.Payload.Reading.{AreMembers, get_members_from_governance-AreMembers}
use taple_core.Tests.Samples.{base64_sample, encode}

-- JSON as the models keep it; a patch is the new value.
abbrev list_of : Values → List Value
list_of nil = []
list_of (cons v vs) = v ∷ list_of vs

abbrev get_entry : Entries → Str → Option Value
get_entry end k = none
get_entry (entry j v rest) k = if j == k then some v else get_entry rest k

abbrev get_field : Value → Str → Option Value
get_field (object fields) k = get_entry fields k
get_field _ k = none

abbrev or_null : Option Value → Value
or_null none = null
or_null (some v) = v

abbrev as_str : Value → Option Str
as_str (string s) = some s
as_str _ = none

abbrev as_array : Value → Option (List Value)
as_array (array vs) = some (list_of vs)
as_array _ = none

abbrev pub json_sample : Json Value
json_sample = record {
  get = get_field;
  index = λ v k. or_null (get_field v k);
  as_str = as_str;
  as_array = as_array;
  patch_of = λ v. some v;
  patch = λ v p. some p;
}

abbrev repeat : ℕ → ℕ → Bytes
repeat b zero = []
repeat b (suc n) = b ∷ repeat b n

abbrev pub member : ℕ → KeyIdentifier
member b = record { public_key = repeat b 32; derivator = ed25519 }

abbrev member_entry : ℕ → Str → Value
member_entry b name = object (
    entry (text "id") (string (b'E' ∷ encode (repeat b 32)))
      (entry (text "name") (string name) end))

abbrev pub properties_sample : Value
properties_sample = object (
    entry (text "members")
      (array (cons (member_entry 1 (text "alice")) (cons (member_entry 2 (text "bob")) nil)))
      (entry (text "roles") (array nil) (
        entry (text "policies")
          (array (
            cons
              (object (
                entry (text "id") (string (text "s")) (
                  entry (text "approve")
                    (object (entry (text "quorum") (string (text "MAJORITY")) end)) end)))
              nil))
          end)))

abbrev members_sample : Members
members_sample = (member 2 ∷ member 1 ∷ [], (text "bob", member 2) ∷ (text "alice", member 1) ∷ [])

members_read :
    get_members_from_governance json_sample base64_sample properties_sample ≡ ok members_sample
unfolding get_members_from_governance taple_core.Prelude.list_beq
    taple_core.Governance.Payload.read_members taple_core.Governance.Payload.read_member
    taple_core.Identifier.Keys.from_str taple_core.Governance.Payload.add_member
    taple_core.Identifier.Keys.key_identifier_beq
members_read = refl

get_members_from_governance-AreMembers_example : AreMembers members_sample
get_members_from_governance-AreMembers_example =
    get_members_from_governance-AreMembers json_sample base64_sample properties_sample
      members_sample members_read

-- One approver by its name, and the members as issuers, below the namespace `a`.
abbrev pub roles_sample : List Role
roles_sample =
    record {
      who = Who.name (text "bob");
      namespace = text "a";
      role = text "APPROVER";
      schema = SchemaEnum.all;
    }
    ∷ record {
      who = Who.members;
      namespace = text "a";
      role = text "ISSUER";
      schema = SchemaEnum.id (text "s");
    }
    ∷ []

signers_read :
    get_signers_aux base64_sample
      (text "s")
      (text "a.b")
      approve
      false
      members_sample
      roles_sample
      []
    ≡ ok (member 2 ∷ [])
unfolding get_signers_aux taple_core.Governance.Roles.signers_step
    taple_core.Governance.Roles.role_applies taple_core.Prelude.list_beq
    taple_core.Governance.Stages.to_role namespace_contiene taple_core.Governance.Roles.who_step
signers_read = refl

names_sample : NamesAreMembers members_sample
names_sample =
    (get_members_from_governance-AreMembers json_sample base64_sample properties_sample
      members_sample members_read).1

get_signers_aux_lem_example :
    contains (member 2 ∷ []) (member 2)
    ≡ some_role_designates base64_sample
        (text "s")
        (text "a.b")
        approve
        false
        members_sample
        roles_sample
        (member 2)
get_signers_aux_lem_example =
    get_signers_aux_lem base64_sample (text "s") (text "a.b") approve false members_sample
      names_sample (member 2) roles_sample (member 2 ∷ []) signers_read

issuer_read :
    issue_create_info base64_sample
      (text "s")
      (text "a.b")
      invoke
      false
      members_sample
      (member 1)
      roles_sample
    ≡ ok true
unfolding issue_create_info taple_core.Governance.Roles.issue_step
    taple_core.Governance.Roles.role_applies taple_core.Prelude.list_beq
    taple_core.Governance.Stages.to_role namespace_contiene taple_core.Governance.Roles.who_issues
    taple_core.Identifier.Keys.key_identifier_beq taple_core.Identifier.Derivators.key_derivator_beq
issuer_read = refl

issue_create_info_lem_example :
    true
    ≡ some_role_lets_through base64_sample
        (text "s")
        (text "a.b")
        invoke
        false
        members_sample
        (member 1)
        roles_sample
issue_create_info_lem_example =
    issue_create_info_lem base64_sample (text "s") (text "a.b") invoke false members_sample
      (member 1) roles_sample true issuer_read

namespace_contiene_iff_example :
    (namespace_contiene (text "a.b") (text "a.b.c") ≡ true)
    ↔ ((text "a.b" ≡ []) ⊎ ((text "a.b" ≡ text "a.b.c") ⊎ IsBelow (text "a.b") (text "a.b.c")))
namespace_contiene_iff_example = namespace_contiene_iff (text "a.b") (text "a.b.c")
