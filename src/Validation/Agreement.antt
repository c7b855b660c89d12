-- ===== src/Validation/Agreement.antt =====
-- Two proofs of the same subject that pass behind a majority of validators have a validator in
-- common that has signed both.
use taple_core.Prelude.{
  ℕ, ◌*◌, ◌<◌, ◌≡◌, ap, ◌∙◌, true, false, some, List, [], ◌∷◌, All, contains, insert, is_subset,
  is_subset-contains, length, overlap, arith, ◌==◌, eq_iff, Bool-cases, Result, ok, inl, inr,
  nat_eq, list_eq,
}
use mathlib.Core.Path.{subst}
use taple_core.Identifier.Keys.{KeyIdentifier, key_identifier_eq}
use taple_core.Models.Crypto.{Borsh, Crypto}
use taple_core.Models.Signatures.{TimeStamp, Signature, verify}
use taple_core.Models.Proofs.{ValidationProof, get_metadata}
use taple_core.Governance.Stages.{validate}
use taple_core.Governance.Interface.{GovernanceApi}
use taple_core.Validation.Checks.{check_previous}
use taple_core.Validation.Endorsed.{
  signer_set, signer_set-IsDistinct, permitted-signer_set, IsEndorsed, check_previous_iff,
}

contains-insert-cases :
    (a k : KeyIdentifier) (xs : List KeyIdentifier)
    → contains (insert a xs) k ≡ true
    → (a == k) ≡ false
    → contains xs k ≡ true
contains-insert-cases a k xs h other = elim (Bool-cases (contains xs a)) [
  | inl old ↦ ground (arith, old)
  | inr new ↦ ground (arith, new)
]

same_answer : {A E : Type 0} {a b : A} (r : Result A E) → r ≡ ok a → r ≡ ok b → a ≡ b
same_answer r h k = cc

module _ (crypto : Crypto) ⦃borsh : Borsh (ValidationProof × TimeStamp)⦄ where
  -- There is a valid signature of the proof by the key.
  abbrev pub IsSignedBy : ValidationProof → KeyIdentifier → Type 0
  IsSignedBy p k = (s : Signature) × (s.signer ≡ k) × (verify crypto s p ≡ ok tt)

  signer_set-IsSignedBy :
      (p : ValidationProof) (ss : List Signature) (k : KeyIdentifier)
      → All (λ s. verify crypto s p ≡ ok tt) ss
      → contains (signer_set ss) k ≡ true
      → IsSignedBy p k
  signer_set-IsSignedBy p [] k v h = absurd (ground (arith, h))
  signer_set-IsSignedBy p (s ∷ ss) k v h = elim (Bool-cases (s.signer == k)) [
    | inl same ↦ (s, (eq_iff s.signer k).0 same, v.0)
    | inr other ↦
        signer_set-IsSignedBy p ss k v.1 (contains-insert-cases s.signer k (signer_set ss) h other)
  ]

  -- Two endorsed proofs, where the quorums are more than half of the same validators.
  IsEndorsed-overlap :
      (gov_api : GovernanceApi) (p q : ValidationProof) (ss ts : List Signature)
      (signers : List KeyIdentifier) (quorum : ℕ) (a : IsEndorsed crypto gov_api p ss)
      (b : IsEndorsed crypto gov_api q ts)
      → a.signers ≡ signers
      → b.signers ≡ signers
      → a.quorum ≡ quorum
      → b.quorum ≡ quorum
      → length signers < 2 * quorum
      → (k : KeyIdentifier) × (contains signers k ≡ true) × IsSignedBy p k × IsSignedBy q k
  IsEndorsed-overlap gov_api p q ss ts signers quorum a b sa sb qa qb majority =
      let pa : is_subset (signer_set ss) signers ≡ true =
        subst (λ l. is_subset (signer_set ss) l ≡ true) sa
          (permitted-signer_set a.signers ss a.permitted) in
      let pb : is_subset (signer_set ts) signers ≡ true =
        subst (λ l. is_subset (signer_set ts) l ≡ true) sb
          (permitted-signer_set b.signers ts b.permitted) in
      let (k, ka, kb) =
        overlap (signer_set ss) (signer_set ts) signers (signer_set-IsDistinct ss)
          (signer_set-IsDistinct ts) pa pb (omega (arith, a.enough, b.enough, qa, qb, majority)) in
      (
        k,
        is_subset-contains (signer_set ss) signers k pa ka,
        signer_set-IsSignedBy p ss k a.valid ka,
        signer_set-IsSignedBy q ts k b.valid kb,
      )

  check_previous-IsEndorsed :
      (gov_api : GovernanceApi) (p q : ValidationProof) (ss : List Signature) (pk : KeyIdentifier)
      → check_previous crypto gov_api p (some q) ss ≡ ok pk
      → IsEndorsed crypto gov_api q ss
  check_previous-IsEndorsed gov_api p q ss pk h =
      let (r, same, _, endorsed, _) = (check_previous_iff crypto gov_api p (some q) ss pk).0 h in
      let back : r ≡ q = cc same in
      subst (λ (x : ValidationProof). IsEndorsed crypto gov_api x ss) back endorsed

  -- If two proofs with the same metadata each let another proof pass without a register, and the
  -- quorum is more than half of the validators, then some validator has signed both.
  pub check_previous-overlap :
      (gov_api : GovernanceApi) (p p' q q' : ValidationProof) (ss ts : List Signature)
      (pk pk' : KeyIdentifier) (signers : List KeyIdentifier) (quorum : ℕ)
      → check_previous crypto gov_api p (some q) ss ≡ ok pk
      → check_previous crypto gov_api p' (some q') ts ≡ ok pk'
      → get_metadata q' ≡ get_metadata q
      → gov_api.get_signers (get_metadata q) validate ≡ ok signers
      → gov_api.get_quorum (get_metadata q) validate ≡ ok quorum
      → length signers < 2 * quorum
      → (k : KeyIdentifier) × (contains signers k ≡ true) × IsSignedBy q k × IsSignedBy q' k
  check_previous-overlap gov_api p p' q q' ss ts pk pk' signers quorum h h' same known wanted
        majority =
      let a = check_previous-IsEndorsed gov_api p q ss pk h in
      let b = check_previous-IsEndorsed gov_api p' q' ts pk' h' in
      IsEndorsed-overlap gov_api q q' ss ts signers quorum a b (same_answer _ a.signers_known known)
        (same_answer _ b.signers_known (ap (λ m. gov_api.get_signers m validate) same ∙ known))
        (same_answer _ a.quorum_known wanted)
        (same_answer _ b.quorum_known (ap (λ m. gov_api.get_quorum m validate) same ∙ wanted))
        majority
