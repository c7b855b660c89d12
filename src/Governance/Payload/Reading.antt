-- ===== src/Governance/Payload/Reading.antt =====
-- What the reader of the members of a governance guarantees.
use taple_core.Prelude.{
  ◌≡◌, List, [], ◌∷◌, Str, arith, text, nat_eq, list_eq, ◌==◌, eq_iff, contains, IsDistinct,
  Bool-cases, Option-cases, ok, unwrap, >>=-eq-ok, inl, inr,
}
use mathlib.Core.Path.{subst}
use taple_core.Identifier.{Base64}
use taple_core.Identifier.Keys.{KeyIdentifier, key_identifier_eq}
use taple_core.Models.Values.{Value, Json}
use taple_core.Governance.Roles.{Members, lookup}
use taple_core.Governance.Roles.Signers.{NamesAreMembers}
use taple_core.Governance.Payload.{
  member_key, add_member, read_member, read_members, get_members_from_governance,
}

-- Each key stands once among the members, and each name stands for a member.
abbrev pub AreMembers : Members → Type 0
AreMembers m = IsDistinct m.0 × NamesAreMembers m

module _ {Patch : Type 0} (json : Json Patch) (base64 : Base64) where
  add_member-NamesAreMembers :
      (keys : List KeyIdentifier) (names : List (Str × KeyIdentifier)) (name : Str)
      (k : KeyIdentifier)
      → NamesAreMembers (keys, names)
      → NamesAreMembers (k ∷ keys, (name, k) ∷ names)
  add_member-NamesAreMembers keys names name k before n j found = elim (Bool-cases (name == n)) [
    | inl same ↦ ground (arith, same, found, eq_iff k j)
    | inr other ↦ ground (arith, before n j (rw other at found))
  ]

  add_member-AreMembers :
      (m m' : Members) (name : Str) (k : KeyIdentifier)
      → AreMembers m
      → add_member json base64 m name k ≡ ok m'
      → AreMembers m'
  unfolding add_member
  add_member-AreMembers m m' name k (distinct, names) h = elim (Bool-cases (contains m.0 k)) [
    | inl old ↦ absurd (ground (arith, old, h))
    | inr new ↦ elim (Option-cases (lookup name m.1)) [
      | inr (j, e) ↦ absurd (ground (arith, new, e, h))
      | inl e ↦
          let added : (k ∷ m.0, (name, k) ∷ m.1) ≡ m' = ground (arith, new, e, h) in
          subst AreMembers added ((new, distinct), add_member-NamesAreMembers m.0 m.1 name k names)
    ]
  ]

  read_member-AreMembers :
      (m m' : Members) (member : Value)
      → AreMembers m
      → read_member json base64 m member ≡ ok m'
      → AreMembers m'
  unfolding read_member
  read_member-AreMembers m m' member before h =
      let (_, _, h₁) = >>=-eq-ok (unwrap (json.get member (text "id"))) _ h in
      let (_, _, h₂) = >>=-eq-ok (unwrap (json.as_str _)) _ h₁ in
      let (_, _, h₃) = >>=-eq-ok (unwrap (json.get member (text "name"))) _ h₂ in
      let (name, _, h₄) = >>=-eq-ok (unwrap (json.as_str _)) _ h₃ in
      let (k, _, h₅) = >>=-eq-ok (member_key json base64 _) _ h₄ in
      add_member-AreMembers m m' name k before h₅

  read_members-AreMembers :
      (values : List Value) (m m' : Members)
      → AreMembers m
      → read_members json base64 m values ≡ ok m'
      → AreMembers m'
  unfolding read_members
  read_members-AreMembers [] m m' before h = subst AreMembers (ground (arith, h)) before
  read_members-AreMembers (v ∷ values) m m' before h =
      let (m₁, read, rest) = >>=-eq-ok (read_member json base64 m v) _ h in
      read_members-AreMembers values m₁ m' (read_member-AreMembers m m₁ v before read) rest

  -- The members that are read from a governance are different keys, and every name stands for one
  -- of them.
  pub get_members_from_governance-AreMembers :
      (properties : Value) (m : Members)
      → get_members_from_governance json base64 properties ≡ ok m
      → AreMembers m
  unfolding get_members_from_governance
  get_members_from_governance-AreMembers properties m h =
      let (_, _, h₁) = >>=-eq-ok (unwrap (json.get properties (text "members"))) _ h in
      let (members, _, h₂) = >>=-eq-ok (unwrap (json.as_array _)) _ h₁ in
      read_members-AreMembers members ([], []) m (tt, λ n k e. absurd (ground (arith, e))) h₂
