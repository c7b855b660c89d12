-- ===== src/Governance/Inner/Quorums.antt =====
-- What `get_quorum` answers.
use taple_core.Prelude.{
  ℕ, ◌+◌, ◌*◌, ◌^◌, ◌<◌, ◌≤◌, ◌≡◌, refl, ap, ◌∙◌, inl, inr, false, List, arith, length, Bool-cases,
  Result, ok, text, >>=-eq-ok, ◌==◌,
}
use mathlib.Core.Path.{subst}
use taple_core.Identifier.{Base64}
use taple_core.Identifier.Keys.{KeyIdentifier, key_identifier_eq}
use taple_core.Models.Values.{Value, Json}
use taple_core.Models.Crypto.{Borsh, Crypto}
use taple_core.Models.Events.{Metadata}
use taple_core.Models.Subjects.{Subject, IdContents}
use taple_core.Governance.Stages.{ValidationStage, witness, stage_eq}
use taple_core.Governance.Errors.{RequestError}
use taple_core.Governance.Policies.{Quorum, majority, fixed, percentage}
use taple_core.Governance.Payload.{
  get_members_from_governance, get_as_array, get_schema_from_policies,
}
use taple_core.Governance.Payload
use taple_core.Governance.Stages
use taple_core.Governance.Sourcing.{Repository, governance_event_sourcing}
use taple_core.Governance.Answers.{Decoders, governance_of}
use taple_core.Governance.Inner.{get_signers, quorum_size, quorum_in, get_quorum}
use taple_core.Governance.Inner.Signatories.{with_governance-eq-ok, and_then-eq-ok}

module _ (crypto : Crypto) ⦃borsh : Borsh IdContents⦄ (base64 : Base64) {Patch : Type 0}
    (json : Json Patch) {F : Type 0} (decoders : Decoders F) (repo : Repository) where
  -- What a size is for a kind of quorum and a number of keys: of a majority (of less than 2^32 keys)
  -- the least number that is more than half; of a fixed quorum its number; of a percentage the
  -- ceiling of that part of the keys.
  abbrev pub IsSizeOf : Quorum F → ℕ → ℕ → Type 0
  IsSizeOf majority n size = n < 2 ^ 32 → (n < 2 * size) × (2 * size ≤ n + 2)
  IsSizeOf (fixed k) n size = size ≡ k
  IsSizeOf (percentage p) n size = size ≡ decoders.ceil_part n p

  quorum_size-IsSizeOf :
      (quorum : Quorum F) (n : ℕ)
      → IsSizeOf quorum n (quorum_size crypto base64 json decoders repo quorum n)
  unfolding quorum_size
  quorum_size-IsSizeOf majority n = λ small. (omega arith, omega arith)
  quorum_size-IsSizeOf (fixed k) n = refl
  quorum_size-IsSizeOf (percentage p) n = refl

  -- The quorum that a governance has for a subject at a stage: the one that the policy of the
  -- subject's schema, among the policies of the governance, gives under the name of the stage.
  pub record IsQuorumOf (metadata : Metadata) (stage : ValidationStage) (governance : Subject)
      (quorum : Quorum F) : Type 0 where
    pub policies : List Value
    pub policy : Value
    pub policies_read : get_as_array json governance.properties (text "policies") ≡ ok policies
    pub policy_found : get_schema_from_policies json policies metadata.schema_id ≡ ok (ok policy)
    pub quorum_read :
        Payload.get_quorum json decoders.quorum_of policy (Stages.to_str stage) ≡ ok quorum

  -- Where `get_quorum` answers, the stage is not that of witnesses. The answer is the size, for the
  -- number of keys that `get_signers` answers, of the quorum that the policy of the subject's schema
  -- gives for the stage, in the governance at the version of the metadata.
  pub get_quorum-IsSizeOf :
      (metadata : Metadata) (stage : ValidationStage) (size : ℕ)
      → get_quorum crypto base64 json decoders repo metadata stage ≡ ok (ok size)
      → ((stage == witness) ≡ false)
        × (governance : Subject) × (quorum : Quorum F) × (keys : List KeyIdentifier)
        × (governance_event_sourcing crypto base64 json repo
              (governance_of metadata.governance_id metadata.subject_id)
              metadata.governance_version
            ≡ ok governance)
        × IsQuorumOf metadata stage governance quorum
        × (get_signers crypto base64 json decoders repo metadata stage ≡ ok (ok keys))
        × IsSizeOf quorum (length keys) size
  unfolding get_quorum quorum_in
  get_quorum-IsSizeOf metadata stage size h = elim (Bool-cases (stage == witness)) [
    | inl wrong ↦ absurd (ground (arith, wrong, h))
    | inr right ↦
        let (governance, sourced, h₁) =
          with_governance-eq-ok
            (governance_event_sourcing crypto base64 json repo
              (governance_of metadata.governance_id metadata.subject_id)
              metadata.governance_version)
            _ (rw right at h) in
        let (policies, policies_read, h₂) =
          >>=-eq-ok (get_as_array json governance.properties (text "policies")) _ h₁ in
        let (found, searched, h₃) =
          >>=-eq-ok (get_schema_from_policies json policies metadata.schema_id) _ h₂ in
        let (policy, is_policy, h₄) = and_then-eq-ok found _ h₃ in
        let (quorum, quorum_read, h₅) =
          >>=-eq-ok (Payload.get_quorum json decoders.quorum_of policy (Stages.to_str stage)) _
            h₄ in
        let (answered, asked, h₆) =
          >>=-eq-ok (get_signers crypto base64 json decoders repo metadata stage) _ h₅ in
        let (keys, are, sized) = and_then-eq-ok answered _ h₆ in
        (
          right,
          governance,
          quorum,
          keys,
          sourced,
          record {
            policies = policies;
            policy = policy;
            policies_read = policies_read;
            policy_found = searched ∙ ap (λ (x : Result Value RequestError). ok x) is_policy;
            quorum_read = quorum_read;
          },
          asked ∙ ap (λ (x : Result (List KeyIdentifier) RequestError). ok x) are,
          subst (IsSizeOf quorum (length keys)) (ground (arith, sized))
              (quorum_size-IsSizeOf quorum (length keys)),
        )
  ]
