-- ===== src/Validation/Endorsed.antt =====
-- When a validator has no register to go on from, it accepts a proof only behind a previous proof
-- that a quorum of validators has signed.
use taple_core.Prelude.{
  ℕ, ◌≤◌, ◌≡◌, ◌↔◌, refl, true, not, Option, none, some, List, [], ◌∷◌, All, contains, insert,
  is_subset, is_subset-contains, IsDistinct, length, arith, ltb, Bool-cases, ok, err, Result-cases,
  >>=-eq-ok, map_err, map_err-eq-ok, if◌then◌else◌, inl, inr, raise,
}
use mathlib.Core.Path.{subst}
use taple_core.Identifier.Keys.{KeyIdentifier, key_identifier_eq}
use taple_core.Models.Crypto.{Borsh, Crypto}
use taple_core.Models.Signatures.{TimeStamp, Signature, verify}
use taple_core.Models.Proofs.{ValidationProof, get_metadata}
use taple_core.Governance.Stages.{validate}
use taple_core.Governance.Interface.{GovernanceApi}
use taple_core.Validation.Defs.{governance_error, invalid_signer, quorum_not_reached}
use taple_core.Validation.Checks.{
  follows, actual_signers, check_signatures, validate_previous_proof, check_previous,
}

-- The set of those who signed, each once.
abbrev pub signer_set : List Signature → List KeyIdentifier
signer_set [] = []
signer_set (s ∷ ss) = insert s.signer (signer_set ss)

-- Signing twice does not count twice.
pub signer_set-IsDistinct : (ss : List Signature) → IsDistinct (signer_set ss)
signer_set-IsDistinct [] = tt
signer_set-IsDistinct (s ∷ ss) = ground (arith, signer_set-IsDistinct ss)

contains-signer_set :
    (allowed : List KeyIdentifier) (xs : List KeyIdentifier) (a : KeyIdentifier)
    → is_subset (insert a xs) allowed ≡ true
    → (contains allowed a ≡ true) × (is_subset xs allowed ≡ true)
contains-signer_set allowed xs a h = elim (Bool-cases (contains xs a)) [
  | inl old ↦ ground (arith, old, is_subset-contains xs allowed a)
  | inr new ↦ ground (arith, new)
]

signer_set-permitted :
    (allowed : List KeyIdentifier) (ss : List Signature)
    → is_subset (signer_set ss) allowed ≡ true
    → All (λ s. contains allowed s.signer ≡ true) ss
signer_set-permitted allowed [] h = tt
signer_set-permitted allowed (s ∷ ss) h =
    let (here, rest) = contains-signer_set allowed (signer_set ss) s.signer h in
    (here, signer_set-permitted allowed ss rest)

pub permitted-signer_set :
    (allowed : List KeyIdentifier) (ss : List Signature)
    → All (λ s. contains allowed s.signer ≡ true) ss
    → is_subset (signer_set ss) allowed ≡ true
permitted-signer_set allowed [] h = refl
permitted-signer_set allowed (s ∷ ss) h = ground (arith, permitted-signer_set allowed ss h.1, h.0)

-- The last two tests of `check_signatures`.
tests_sound :
    (actual signers : List KeyIdentifier) (quorum : ℕ)
    → (if not (is_subset actual signers)
        then err (raise invalid_signer)
        else if ltb (length actual) quorum
        then err (raise quorum_not_reached)
        else ok tt)
      ≡ ok tt
    → (is_subset actual signers ≡ true) × (quorum ≤ length actual)
tests_sound actual signers quorum h = (ground arith, ground arith)

module _ (crypto : Crypto) ⦃borsh : Borsh (ValidationProof × TimeStamp)⦄ where
  actual_signers_sound :
      (p : ValidationProof) (ss : List Signature) (out : List KeyIdentifier)
      → actual_signers crypto p ss ≡ ok out
      → All (λ s. verify crypto s p ≡ ok tt) ss × (out ≡ signer_set ss)
  unfolding actual_signers
  actual_signers_sound p [] out h = (tt, ground arith)
  actual_signers_sound p (s ∷ ss) out h = elim (Result-cases (actual_signers crypto p ss)) [
    | inl (rest, e) ↦
        let (valid, set) = actual_signers_sound p ss rest e in
        ((ground (arith, e), valid), ground (arith, e, set))
    | inr (failure, e) ↦ absurd (ground (arith, e))
  ]

  actual_signers_complete :
      (p : ValidationProof) (ss : List Signature)
      → All (λ s. verify crypto s p ≡ ok tt) ss
      → actual_signers crypto p ss ≡ ok (signer_set ss)
  unfolding actual_signers
  actual_signers_complete p [] h = refl
  actual_signers_complete p (s ∷ ss) h = rw (h.0, actual_signers_complete p ss h.1)

  -- The signatures of the previous proof are valid, by validators of its governance only, and the
  -- signers are as many as the quorum.
  pub record IsEndorsed (gov_api : GovernanceApi) (previous : ValidationProof) (ss : List Signature)
      : Type 0 where
    pub signers : List KeyIdentifier
    pub quorum : ℕ
    pub signers_known : gov_api.get_signers (get_metadata previous) validate ≡ ok signers
    pub quorum_known : gov_api.get_quorum (get_metadata previous) validate ≡ ok quorum
    pub valid : All (λ s. verify crypto s previous ≡ ok tt) ss
    pub permitted : All (λ s. contains signers s.signer ≡ true) ss
    pub enough : quorum ≤ length (signer_set ss)

  check_signatures_sound :
      (gov_api : GovernanceApi) (previous : ValidationProof) (ss : List Signature)
      → check_signatures crypto gov_api previous ss ≡ ok tt
      → IsEndorsed gov_api previous ss
  unfolding check_signatures
  check_signatures_sound gov_api previous ss h =
      let (out, actual, h₁) = >>=-eq-ok (actual_signers crypto previous ss) _ h in
      let (signers, known, h₂) =
        >>=-eq-ok
          (map_err (λ e. raise (governance_error e))
            (gov_api.get_signers (get_metadata previous) validate))
          _ h₁ in
      let (quorum, wanted, h₃) =
        >>=-eq-ok
          (map_err (λ e. raise (governance_error e))
            (gov_api.get_quorum (get_metadata previous) validate))
          _ h₂ in
      let (valid, set) = actual_signers_sound previous ss out actual in
      let (subset, enough) = tests_sound out signers quorum h₃ in
      record {
        signers = signers;
        quorum = quorum;
        signers_known = map_err-eq-ok _ _ known;
        quorum_known = map_err-eq-ok _ _ wanted;
        valid = valid;
        permitted =
            signer_set-permitted signers ss
              (subst (λ out'. is_subset out' signers ≡ true) set subset);
        enough = subst (λ out'. quorum ≤ length out') set enough;
      }

  check_signatures_complete :
      (gov_api : GovernanceApi) (previous : ValidationProof) (ss : List Signature)
      → IsEndorsed gov_api previous ss
      → check_signatures crypto gov_api previous ss ≡ ok tt
  unfolding check_signatures
  check_signatures_complete gov_api previous ss q =
      rw
        (
          actual_signers_complete previous ss q.valid,
          q.signers_known,
          q.quorum_known,
          permitted-signer_set q.signers ss q.permitted,
        )
        (ground (arith, q.enough))

  pub check_previous_iff :
      (gov_api : GovernanceApi) (p : ValidationProof) (previous : Option ValidationProof)
      (ss : List Signature) (pk : KeyIdentifier)
      → (check_previous crypto gov_api p previous ss ≡ ok pk) ↔ (
          (q : ValidationProof) × (previous ≡ some q)
          × (follows q p ≡ true)
          × IsEndorsed gov_api q ss
          × (q.subject_public_key ≡ pk))
  unfolding check_previous validate_previous_proof
  check_previous_iff gov_api p previous ss pk = (sound previous, complete)
    where
      sound :
          (previous : Option ValidationProof)
          → check_previous crypto gov_api p previous ss ≡ ok pk
          → (q : ValidationProof) × (previous ≡ some q)
            × (follows q p ≡ true)
            × IsEndorsed gov_api q ss
            × (q.subject_public_key ≡ pk)
      sound none h = absurd (ground (arith, h))
      sound (some q) h = elim (Bool-cases (follows q p)) [
        | inl f ↦
            let (_, endorsed, key) =
              >>=-eq-ok (check_signatures crypto gov_api q ss) _ (rw f at h) in
            (q, refl, f, check_signatures_sound gov_api q ss endorsed, ground (arith, key))
        | inr other ↦ absurd (ground (arith, other, h))
      ]

      complete :
          (q : ValidationProof) × (previous ≡ some q)
            × (follows q p ≡ true)
            × IsEndorsed gov_api q ss
            × (q.subject_public_key ≡ pk)
          → check_previous crypto gov_api p previous ss ≡ ok pk
      complete (q, e, f, endorsed, key) =
          rw e (rw (f, check_signatures_complete gov_api q ss endorsed) (ground (arith, key)))
