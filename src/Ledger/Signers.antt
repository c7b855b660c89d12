-- ===== src/Ledger/Signers.antt =====
-- `verify_signatures` of ledger/ledger.rs: whether enough permitted signers have signed a proof.
use taple_core.Prelude.{
  ℕ, ◌≤◌, ◌≡◌, ◌↔◌, refl, Bool, true, false, ◌&&◌, ◌||◌, List, [], ◌∷◌, All, contains, insert,
  is_subset, is_subset_refl, IsDistinct, length, length-is_subset, arith, eq_iff, ltb, ◌==◌,
  if◌then◌else◌, text, Result, ok, err, is_ok, ◌>>=◌, >>=-eq-ok, Result-cases, inl, inr, ap, ◌∙◌,
  sym, Fault, raise, panic, is_panic,
}
use mathlib.Core.Path.{subst}
use taple_core.Identifier.Keys.{KeyIdentifier, key_identifier_eq}
use taple_core.Models.Crypto.{Borsh, Crypto}
use taple_core.Models.Signatures.{TimeStamp, Signature, verify}
use taple_core.Models.Proofs.{ValidationProof}
use taple_core.Ledger.Defs.{LedgerError, not_enough_signatures}

module _ (crypto : Crypto) ⦃borsh : Borsh (ValidationProof × TimeStamp)⦄
    (signers : List KeyIdentifier) (proof : ValidationProof) where
  -- One turn of the loop: a wrong signature and a signer who is not permitted are passed over; a
  -- signature that makes `verify` panic ends it.
  unfoldable pub add_signer :
      List KeyIdentifier → Signature → Result (List KeyIdentifier) (Fault LedgerError)
  add_signer actual s = elim (verify crypto s proof) [
    | ok _ ↦ ok (if contains signers s.signer then insert s.signer actual else actual)
    | err (raise _) ↦ ok actual
    | err panic ↦ err panic
  ]

  unfoldable pub actual_signers :
      List KeyIdentifier → List Signature → Result (List KeyIdentifier) (Fault LedgerError)
  unfolding add_signer
  actual_signers actual [] = ok actual
  actual_signers actual (s ∷ ss) = add_signer actual s >>= λ next. actual_signers next ss

  -- `verify_signatures`
  unfoldable pub verify_signatures : List Signature → ℕ → Result Unit (Fault LedgerError)
  unfolding actual_signers
  verify_signatures signatures quorum_size = do
    actual ← actual_signers [] signatures
    if ltb (length actual) quorum_size
        then err (raise (not_enough_signatures (text "buenas tardes")))
        else ok tt

  -- The signers that the loop counts, where nothing panics.
  counted : List KeyIdentifier → Signature → List KeyIdentifier
  counted actual s =
      if is_ok (verify crypto s proof) && contains signers s.signer
      then insert s.signer actual
      else actual

  all_counted : List KeyIdentifier → List Signature → List KeyIdentifier
  unfolding counted
  all_counted actual [] = actual
  all_counted actual (s ∷ ss) = all_counted (counted actual s) ss

  -- No signature makes `verify` panic.
  abbrev pub Answered : List Signature → Type 0
  Answered = All (λ s. is_panic (verify crypto s proof) ≡ false)

  add_signer-counted :
      (actual out : List KeyIdentifier) (s : Signature)
      → add_signer actual s ≡ ok out
      → (is_panic (verify crypto s proof) ≡ false) × (counted actual s ≡ out)
  unfolding add_signer counted
  add_signer-counted actual out s h = elim (Result-cases (verify crypto s proof)) [
    | inl (_, e) ↦ ground (arith, e, h)
    | inr (raise failure, e) ↦ ground (arith, e, h)
    | inr (panic, e) ↦ absurd (ground (arith, e, h))
  ]

  counted-add_signer :
      (actual : List KeyIdentifier) (s : Signature)
      → is_panic (verify crypto s proof) ≡ false
      → add_signer actual s ≡ ok (counted actual s)
  unfolding add_signer counted
  counted-add_signer actual s h = elim (Result-cases (verify crypto s proof)) [
    | inl (_, e) ↦ ground (arith, e, h)
    | inr (raise failure, e) ↦ ground (arith, e, h)
    | inr (panic, e) ↦ absurd (ground (arith, e, h))
  ]

  actual_signers-all_counted :
      (actual out : List KeyIdentifier) (ss : List Signature)
      → actual_signers actual ss ≡ ok out
      → Answered ss × (all_counted actual ss ≡ out)
  unfolding actual_signers all_counted
  actual_signers-all_counted actual out [] h = (tt, ground (arith, h))
  actual_signers-all_counted actual out (s ∷ ss) h =
      let (next, added, rest) = >>=-eq-ok (add_signer actual s) _ h in
      let (answers, same) = add_signer-counted actual next s added in
      let (others, end) = actual_signers-all_counted next out ss rest in
      ((answers, others), ap (λ (x : List KeyIdentifier). all_counted x ss) same ∙ end)

  all_counted-actual_signers :
      (actual : List KeyIdentifier) (ss : List Signature)
      → Answered ss
      → actual_signers actual ss ≡ ok (all_counted actual ss)
  unfolding actual_signers all_counted
  all_counted-actual_signers actual [] h = refl
  all_counted-actual_signers actual (s ∷ ss) h =
      rw (counted-add_signer actual s h.0, all_counted-actual_signers (counted actual s) ss h.1)
        refl

  -- Whether one of the signatures is the key's, and right.
  abbrev pub has_signed : List Signature → KeyIdentifier → Bool
  has_signed [] k = false
  has_signed (s ∷ ss) k = (is_ok (verify crypto s proof) && s.signer == k) || has_signed ss k

  contains-counted :
      (actual : List KeyIdentifier) (s : Signature) (k : KeyIdentifier)
      → contains (counted actual s) k ≡ (
          contains actual k
          || (contains signers k && (is_ok (verify crypto s proof) && s.signer == k)))
  unfolding counted
  contains-counted actual s k = ground (arith, eq_iff s.signer k)

  contains-all_counted :
      (actual : List KeyIdentifier) (ss : List Signature) (k : KeyIdentifier)
      → contains (all_counted actual ss) k
        ≡ (contains actual k || (contains signers k && has_signed ss k))
  unfolding all_counted
  contains-all_counted actual [] k = ground arith
  contains-all_counted actual (s ∷ ss) k =
      ground (arith, contains-all_counted (counted actual s) ss k, contains-counted actual s k)

  all_counted-IsDistinct :
      (actual : List KeyIdentifier) (ss : List Signature)
      → IsDistinct actual
      → IsDistinct (all_counted actual ss)
  unfolding all_counted counted
  all_counted-IsDistinct actual [] d = d
  all_counted-IsDistinct actual (s ∷ ss) d = all_counted-IsDistinct (counted actual s) ss (
      added (is_ok (verify crypto s proof) && contains signers s.signer) (contains actual s.signer)
        refl)
    where
      added :
          (b c : Bool)
          → contains actual s.signer ≡ c
          → IsDistinct (if b then (if c then actual else s.signer ∷ actual) else actual)
      added true true h = d
      added true false h = (h, d)
      added false c h = d

  -- Who may sign and has signed.
  abbrev pub IsVoter : List Signature → KeyIdentifier → Type 0
  IsVoter ss k = (contains signers k && has_signed ss k) ≡ true

  All-contained :
      (P : KeyIdentifier → Type 0) (xs ys : List KeyIdentifier)
      → ((k : KeyIdentifier) → contains xs k ≡ true → P k)
      → is_subset ys xs ≡ true
      → All P ys
  All-contained P xs [] h sub = tt
  All-contained P xs (y ∷ ys) h sub =
      (h y (ground (arith, sub)), All-contained P xs ys h (ground (arith, sub)))

  is_subset-All :
      (ss : List Signature) (voters : List KeyIdentifier)
      → All (IsVoter ss) voters
      → is_subset voters (all_counted [] ss) ≡ true
  is_subset-All ss [] h = refl
  is_subset-All ss (k ∷ ks) h =
      ground (arith, contains-all_counted [] ss k, h.0, is_subset-All ss ks h.1)

  -- The signatures pass just where none of them makes `verify` panic, and as many different permitted
  -- signers as the quorum says have signed the proof; wrong and superfluous signatures that do not
  -- panic do no harm.
  pub verify_signatures_iff :
      (ss : List Signature) (quorum : ℕ)
      → (verify_signatures ss quorum ≡ ok tt) ↔ (
          Answered ss
          × (voters : List KeyIdentifier) × IsDistinct voters
          × All (IsVoter ss) voters
          × (quorum ≤ length voters))
  unfolding verify_signatures
  verify_signatures_iff ss quorum = (
    λ h.
        let (out, gathered, enough) = >>=-eq-ok (actual_signers [] ss) _ h in
        let (answered, same) = actual_signers-all_counted [] out ss gathered in
        (
          answered,
          all_counted [] ss,
          all_counted-IsDistinct [] ss tt,
          All-contained (IsVoter ss) (all_counted [] ss) (all_counted [] ss)
              (λ k m. ground (arith, contains-all_counted [] ss k, m))
              (is_subset_refl (all_counted [] ss)),
          subst (λ (x : List KeyIdentifier). quorum ≤ length x) (sym same) (ground (arith, enough)),
        ),
    λ (answered, voters, distinct, voted, enough).
        let fits : length voters ≤ length (all_counted [] ss) =
          length-is_subset voters (all_counted [] ss) distinct (is_subset-All ss voters voted) in
        rw (all_counted-actual_signers [] ss answered) (ground (arith, fits, enough)),
  )
