-- ===== src/Validation/Forks.antt =====
-- A validator signs no fork: the proofs that it signs for a subject form one chain.
use taple_core.Prelude.{
  ◌≡◌, sym, ◌∙◌, inl, inr, List, [], ◌∷◌, All, All-map, eq_refl, ◌==◌, eq_iff, nat_eq, list_eq,
  Bool-cases, Result, ok, err, Fault,
}
use mathlib.Core.Path.{subst}
use taple_core.Identifier.{Base64}
use taple_core.Models.Crypto.{Borsh, Crypto}
use taple_core.Models.Signatures.{TimeStamp}
use taple_core.Models.Proofs.{ValidationProof, is_similar_refl}
use taple_core.Governance.Interface.{GovernanceApi}
use taple_core.Validation.Defs.{
  ValidationError, ValidationEvent, ValidationEventResponse, Registers, IsRegisters, State, Config,
}
use taple_core.Validation.Order.{Precedes, Precedes-trans}
use taple_core.Validation.Process.{check_event, validation_event, Call, signed_by, run}
use taple_core.Validation.Steps.{Outcome, check_event-Precedes, validation_event-Outcome}

module _ {S : Type 0} (registers : Registers S) where
  -- The register of the subject of `p` holds a proof that `p` precedes.
  abbrev pub IsCovered : S → ValidationProof → Type 0
  IsCovered store p =
      (last : ValidationProof) × (registers.get_validation_register store p.subject_id ≡ ok last)
      × Precedes p last

  -- Each proof is preceded by all that were signed before it for the same subject. The list has
  -- the last proof first.
  abbrev pub IsChain : List ValidationProof → Type 0
  IsChain [] = Unit
  IsChain (p ∷ signed) =
      All (λ q. registers.key q.subject_id ≡ registers.key p.subject_id → Precedes q p) signed
      × IsChain signed

module _ (crypto : Crypto) ⦃borsh : Borsh (ValidationProof × TimeStamp)⦄ (base64 : Base64)
    {S : Type 0} (registers : Registers S) (laws : IsRegisters registers) where
  -- A proof that passes the checks is preceded by what is covered under its key.
  covered-Precedes :
      (gov_api : GovernanceApi) (store : S) (e : ValidationEvent) (q : ValidationProof)
      → check_event crypto base64 registers gov_api store e ≡ ok tt
      → IsCovered registers store q
      → registers.key q.subject_id ≡ registers.key e.proof.subject_id
      → Precedes q e.proof
  covered-Precedes gov_api store e q passed (last, found, before) same =
      Precedes-trans q last e.proof before (
        check_event-Precedes crypto base64 registers gov_api store e last passed
          (sym (laws.get-key store q.subject_id e.proof.subject_id same) ∙ found))

  -- Writing it keeps what was covered.
  set-IsCovered :
      (gov_api : GovernanceApi) (store t : S) (e : ValidationEvent) (q : ValidationProof)
      → check_event crypto base64 registers gov_api store e ≡ ok tt
      → registers.set_validation_register store e.proof.subject_id e.proof ≡ ok t
      → IsCovered registers store q
      → IsCovered registers t q
  set-IsCovered gov_api store t e q passed set (last, found, before) =
      elim (Bool-cases (registers.key e.proof.subject_id == registers.key q.subject_id)) [
        | inl same ↦ (
          e.proof,
          laws.get-set store t e.proof.subject_id q.subject_id e.proof set ∙ rw same,
          covered-Precedes gov_api store e q passed (last, found, before)
              (sym
                ((eq_iff (registers.key e.proof.subject_id) (registers.key q.subject_id)).0 same)),
        )
        | inr other ↦ (
          last,
          laws.get-set store t e.proof.subject_id q.subject_id e.proof set ∙ rw other found,
          before,
        )
      ]

  -- The proofs signed so far are covered by the registers, and form chains.
  abbrev IsSafe : S → List ValidationProof → Type 0
  IsSafe store signed = All (IsCovered registers store) signed × IsChain registers signed

  set-IsSafe :
      (gov_api : GovernanceApi) (store t : S) (e : ValidationEvent) (signed : List ValidationProof)
      → check_event crypto base64 registers gov_api store e ≡ ok tt
      → registers.set_validation_register store e.proof.subject_id e.proof ≡ ok t
      → IsSafe store signed
      → IsSafe t signed × IsSafe t (e.proof ∷ signed)
  set-IsSafe gov_api store t e signed passed set (covered, chain) =
      let kept = All-map (λ q. set-IsCovered gov_api store t e q passed set) signed covered in
      (
        (kept, chain),
        (
          (
            (
              e.proof,
              laws.get-set store t e.proof.subject_id e.proof.subject_id e.proof set
                  ∙ rw (eq_refl (registers.key e.proof.subject_id)),
              inl (is_similar_refl e.proof),
            ),
            kept,
          ),
          (All-map (λ q. covered-Precedes gov_api store e q passed) signed covered, chain),
        ),
      )

  Outcome-IsSafe :
      (call : Call crypto base64 registers) (s : State S) (signed : List ValidationProof)
      (out : Result ValidationEventResponse (Fault ValidationError) × State S)
      → Outcome crypto base64 registers call.0.gov_api call.1 s out
      → IsSafe s.store signed
      → IsSafe out.1.store (signed_by crypto base64 registers call out.0 signed)
  Outcome-IsSafe call s signed (ok r, s') (inl (failed, same)) safe = cc
  Outcome-IsSafe call s signed (err e, s') (inl (failed, same)) safe =
      subst (λ store. IsSafe store signed) (sym same) safe
  Outcome-IsSafe call s signed (ok r, s') (inr (agreed, passed, set)) safe =
      (set-IsSafe call.0.gov_api s.store s'.store call.1 signed passed set safe).1
  Outcome-IsSafe call s signed (err e, s') (inr (agreed, passed, set)) safe =
      (set-IsSafe call.0.gov_api s.store s'.store call.1 signed passed set safe).0

  run-IsSafe :
      (config : Config) (s : State S) (signed : List ValidationProof)
      (calls : List (Call crypto base64 registers))
      → IsSafe s.store signed
      → let (s', signed') = run crypto base64 registers config s signed calls in
        IsSafe s'.store signed'
  unfolding run
  run-IsSafe config s signed [] safe = safe
  run-IsSafe config s signed (call ∷ calls) safe =
      let out = validation_event crypto base64 registers config call.0 call.1 call.2 s in
      run-IsSafe config out.1 (signed_by crypto base64 registers call out.0 signed) calls (
        Outcome-IsSafe call s signed out
          (validation_event-Outcome crypto base64 registers config call.0 call.1 call.2 s) safe)

  -- Whatever calls reach a validator, and however its governance, its channel and its clock behave
  -- in each, the proofs that it signs for a subject form one chain: a proof is similar to each
  -- proof that was signed before it for that subject, or has a higher number. It signs no two
  -- proofs of one number that differ in more than the version of the governance.
  pub run-IsChain :
      (config : Config) (s : State S) (calls : List (Call crypto base64 registers))
      → IsChain registers (run crypto base64 registers config s [] calls).1
  run-IsChain config s calls = (run-IsSafe config s [] calls (tt, tt)).1
