-- ===== src/Governance/Inner/Signatories.antt =====
-- What `get_signers` and `get_quorum` answer.
use taple_core.Prelude.{
  ℕ, ◌*◌, ◌^◌, ◌<◌, ◌≤◌, ◌≡◌, refl, ◌⊎◌, false, List, [], ◌∷◌, arith, contains, is_empty,
  IsDistinct, Result, ok, err,
}
use taple_core.Identifier.{Base64}
use taple_core.Identifier.Keys.{KeyIdentifier, key_identifier_eq}
use taple_core.Models.Values.{Json}
use taple_core.Models.Crypto.{Borsh, Crypto}
use taple_core.Models.Events.{Metadata}
use taple_core.Models.Subjects.{Subject, IdContents}
use taple_core.Governance.Stages.{ValidationStage, stage_eq}
use taple_core.Governance.Errors.{RequestError}
use taple_core.Governance.Policies.{Role, majority}
use taple_core.Governance.Roles.{Members}
use taple_core.Governance.Roles.Signers.{some_role_designates}
use taple_core.Governance.Payload.Reading.{AreMembers}
use taple_core.Governance.Sourcing.{Repository}
use taple_core.Governance.Answers.{Answer, Decoders, with_governance, and_then}
use taple_core.Governance.Inner.{read_roles, quorum_size}

pub with_governance-eq-ok :
    {A : Type 0} (r : Result Subject RequestError) (f : Subject → Answer A) {a : A}
    → with_governance r f ≡ ok (ok a)
    → (governance : Subject) × (r ≡ ok governance) × (f governance ≡ ok (ok a))
with_governance-eq-ok (ok governance) f h = (governance, refl, h)
with_governance-eq-ok (err (RequestError.database_error e)) f h = absurd (ground (arith, h))
with_governance-eq-ok (err _) f h = absurd (ground (arith, h))

pub and_then-eq-ok :
    {A B : Type 0} (r : Result A RequestError) (f : A → Answer B) {b : B}
    → and_then r f ≡ ok (ok b)
    → (a : A) × (r ≡ ok a) × (f a ≡ ok (ok b))
and_then-eq-ok (ok a) f h = (a, refl, h)
and_then-eq-ok (err e) f h = absurd (ground (arith, h))

module _ (crypto : Crypto) ⦃borsh : Borsh IdContents⦄ (base64 : Base64) {Patch : Type 0}
    (json : Json Patch) {F : Type 0} (decoders : Decoders F) (repo : Repository) where
  -- The signers that a governance names for a subject at a stage: different keys, namely the
  -- members that some role that applies designates or, where no role designates any, the owner.
  pub record AreSigners (metadata : Metadata) (stage : ValidationStage) (governance : Subject)
      (keys : List KeyIdentifier) : Type 0 where
    pub roles : List Role
    pub members : Members
    pub roles_read : read_roles crypto base64 json decoders repo governance ≡ ok (roles, members)
    pub members_read : AreMembers members
    pub distinct : IsDistinct keys
    pub designated :
        ((k : KeyIdentifier)
          → contains keys k
            ≡ some_role_designates base64 metadata.schema_id metadata.namespace stage
                (is_empty metadata.governance_id.digest)
                members
                roles
                k)
        ⊎ ((keys ≡ governance.owner ∷ [])
            × ((k : KeyIdentifier)
                → some_role_designates base64 metadata.schema_id metadata.namespace stage
                    (is_empty metadata.governance_id.digest)
                    members
                    roles
                    k
                  ≡ false))

  -- A majority of a number of signers below 2^32 is more than half of them and, of at least one,
  -- no more than all.
  pub quorum_size-majority :
      (n : ℕ)
      → 0 < n
      → n < 2 ^ 32
      → (n < 2 * quorum_size crypto base64 json decoders repo majority n)
        × (quorum_size crypto base64 json decoders repo majority n ≤ n)
  unfolding quorum_size
  quorum_size-majority n some small = (omega arith, omega arith)
