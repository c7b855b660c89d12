-- ===== src/Validation/Order.antt =====
-- What a proof that passes `check_proofs` has to do with the proof in the register.
use taple_core.Prelude.{◌<◌, ◌≡◌, ◌⊎◌, inl, inr, true, Option, some, List, arith, ok, nat_eq}
use taple_core.Identifier.{Base64}
use taple_core.Identifier.Keys.{KeyIdentifier}
use taple_core.Models.Crypto.{Borsh, Crypto}
use taple_core.Models.Signatures.{TimeStamp, Signature}
use taple_core.Models.Proofs.{
  ValidationProof, is_similar, is_similar_trans, is_similar-sn, proof_beq,
}
use taple_core.Governance.Interface.{GovernanceApi}
use taple_core.Validation.Checks.{check_proofs}

-- The second proof is similar to the first, or its number is higher.
abbrev pub Precedes : ValidationProof → ValidationProof → Type 0
Precedes p q = (is_similar p q ≡ true) ⊎ (p.sn < q.sn)

pub Precedes-trans : (p q r : ValidationProof) → Precedes p q → Precedes q r → Precedes p r
Precedes-trans p q r (inl h) (inl k) = inl (is_similar_trans p q r h k)
Precedes-trans p q r (inl h) (inr k) = inr (omega (arith, is_similar-sn p q h))
Precedes-trans p q r (inr h) (inl k) = inr (omega (arith, is_similar-sn q r k))
Precedes-trans p q r (inr h) (inr k) = inr (omega arith)

module _ (crypto : Crypto) ⦃borsh : Borsh (ValidationProof × TimeStamp)⦄ (base64 : Base64)
    (gov_api : GovernanceApi) (p : ValidationProof) (previous : Option ValidationProof)
    (signatures : List Signature) (last : ValidationProof) {pk : KeyIdentifier}
    (passed : check_proofs crypto base64 gov_api p previous signatures (some last) ≡ ok pk) where
  -- A proof that passes `check_proofs` against the proof in the register is similar to that one, or
  -- has a higher number.
  pub check_proofs-order : Precedes last p
  unfolding check_proofs proof_beq
  check_proofs-order = ground arith
