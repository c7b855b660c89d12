-- ===== src/Governance/Roles/Signers.antt =====
-- Who may sign at a stage, described without the order of the roles.
use taple_core.Prelude.{
  ◌≡◌, sym, ◌∙◌, inl, inr, Bool, true, false, ◌&&◌, ◌||◌, none, some, List, [], ◌∷◌, Str, arith,
  nat_eq, list_eq, ◌==◌, eq_iff, contains, insert, Bool-cases, Option-cases, Result-cases, ok, err,
}
use taple_core.Identifier.{Base64}
use taple_core.Identifier.Keys.{KeyIdentifier, key_identifier_eq}
use taple_core.Identifier.Keys
use taple_core.Governance.Stages.{ValidationStage}
use taple_core.Governance.Policies.{Who, Role}
use taple_core.Governance.Roles.{
  Members, lookup, role_applies, Step, skip, all_members, add, who_step, signers_step,
  get_signers_aux,
}

-- The names of a governance stand for members.
abbrev pub NamesAreMembers : Members → Type 0
NamesAreMembers m = (n : Str) (k : KeyIdentifier) → lookup n m.1 ≡ some k → contains m.0 k ≡ true

contains-insert :
    (j k : KeyIdentifier) (xs : List KeyIdentifier)
    → contains (insert j xs) k ≡ ((j == k) || contains xs k)
contains-insert j k xs = elim (Bool-cases (contains xs j)) [
  | inl old ↦ ground (arith, old, eq_iff j k)
  | inr new ↦ ground (arith, new)
]

module _ (base64 : Base64) (schema_id namespace : Str) (stage : ValidationStage) (is_gov : Bool)
    (members : Members) where
  -- Whether a `who` designates a key as a signer.
  abbrev pub designates : Who → KeyIdentifier → Bool
  designates (Who.id i) k = elim (Keys.from_str base64 i) [
    | ok j ↦ contains members.0 j && j == k
    | err _ ↦ false
  ]
  designates (Who.name n) k = elim (lookup n members.1) [ some j ↦ j == k | none ↦ false ]
  designates Who.members k = contains members.0 k
  designates Who.all k = contains members.0 k
  designates Who.not_members k = false

  -- Whether some role that applies designates a key.
  abbrev pub some_role_designates : List Role → KeyIdentifier → Bool
  some_role_designates [] k = false
  some_role_designates (role ∷ roles) k =
      (role_applies role schema_id namespace stage is_gov && designates role.who k)
      || some_role_designates roles k

  -- What a step of the loop says of a key.
  abbrev says : KeyIdentifier → Step → Bool
  says k skip = false
  says k all_members = contains members.0 k
  says k (add j) = j == k

  who_step-says :
      (who : Who) (k : KeyIdentifier) (step : Step)
      → who_step base64 schema_id namespace stage is_gov members who ≡ ok step
      → says k step ≡ designates who k
  unfolding who_step
  who_step-says (Who.id i) k step h = elim (Result-cases (Keys.from_str base64 i)) [
    | inl (j, e) ↦ ground (arith, e, eq_iff j k)
    | inr (failure, e) ↦ ground (arith, e)
  ]
  who_step-says (Who.name n) k step h = ground arith
  who_step-says _ k step h = ground arith

  signers_step-says :
      (role : Role) (k : KeyIdentifier) (step : Step)
      → signers_step base64 schema_id namespace stage is_gov members role ≡ ok step
      → says k step ≡ (role_applies role schema_id namespace stage is_gov && designates role.who k)
  unfolding signers_step
  signers_step-says role k step h = ground (arith, who_step-says role.who k step)

  module _ (names : NamesAreMembers members) (k : KeyIdentifier) where
    designates-member : (who : Who) → designates who k ≡ true → contains members.0 k ≡ true
    designates-member (Who.id i) h = elim (Result-cases (Keys.from_str base64 i)) [
      | inl (j, e) ↦ ground (arith, e, eq_iff j k)
      | inr (failure, e) ↦ ground (arith, e)
    ]
    designates-member (Who.name n) h = elim (Option-cases (lookup n members.1)) [
      | inl e ↦ ground (arith, e)
      | inr (j, e) ↦ ground (arith, e, names n j e, eq_iff j k)
    ]
    designates-member _ h = ground arith

    some_role_designates-member :
        (roles : List Role) → some_role_designates roles k ≡ true → contains members.0 k ≡ true
    some_role_designates-member [] h = cc
    some_role_designates-member (role ∷ roles) h =
        ground (arith, designates-member role.who, some_role_designates-member roles)

    get_signers_aux-designates :
        (roles : List Role) (signers out : List KeyIdentifier)
        → get_signers_aux base64 schema_id namespace stage is_gov members roles signers ≡ ok out
        → (contains signers k ≡ true → contains members.0 k ≡ true)
        → contains out k ≡ (contains signers k || some_role_designates roles k)
    unfolding get_signers_aux
    get_signers_aux-designates [] signers out h inv = ground arith
    get_signers_aux-designates (role ∷ roles) signers out h inv =
        elim (Result-cases (signers_step base64 schema_id namespace stage is_gov members role)) [
          | inl (skip, e) ↦ ground (
            arith,
            signers_step-says role k skip e,
            get_signers_aux-designates roles signers out (rw (e, get_signers_aux) at h) inv,
          )
          | inl (all_members, e) ↦ ground (
            arith,
            e,
            signers_step-says role k all_members e,
            some_role_designates-member roles,
            inv,
          )
          | inl (add j, e) ↦ ground (
            arith,
            signers_step-says role k (add j) e,
            get_signers_aux-designates roles (insert j signers) out (rw (e, get_signers_aux) at h),
            designates-member role.who,
            contains-insert j k signers,
          )
          | inr (failure, e) ↦ absurd (ground (arith, e, h))
        ]

    -- Where `get_signers_aux` finds signers, they are exactly the keys that some role that applies
    -- designates, in whatever order the roles stand, if the names of the governance stand for
    -- members.
    pub get_signers_aux_lem :
        (roles : List Role) (out : List KeyIdentifier)
        → get_signers_aux base64 schema_id namespace stage is_gov members roles [] ≡ ok out
        → contains out k ≡ some_role_designates roles k
    get_signers_aux_lem roles out h = get_signers_aux-designates roles [] out h (λ e. cc)

    -- So every signer is a member.
    pub get_signers_aux-members :
        (roles : List Role) (out : List KeyIdentifier)
        → get_signers_aux base64 schema_id namespace stage is_gov members roles [] ≡ ok out
        → contains out k ≡ true
        → contains members.0 k ≡ true
    get_signers_aux-members roles out h m =
        some_role_designates-member roles (sym (get_signers_aux_lem roles out h) ∙ m)
