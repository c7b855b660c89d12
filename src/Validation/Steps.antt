-- ===== src/Validation/Steps.antt =====
-- What one call of `validation_event` does to the registers.
use taple_core.Prelude.{
  ℕ, ◌≡◌, ◌⊎◌, inl, inr, false, some, arith, Result, ok, is_ok, Result-cases, Bool-cases, ltb, ◌∙◌,
  ap, >>=-eq-ok, map_raise, Fault,
}
use taple_core.Identifier.{Base64}
use taple_core.Identifier.Keys.{KeyIdentifier, key_identifier_eq}
use taple_core.Models.Crypto.{Borsh, Crypto}
use taple_core.Models.Signatures.{TimeStamp, verify}
use taple_core.Models.Proofs.{ValidationProof}
use taple_core.Governance.Interface.{GovernanceApi}
use taple_core.Validation.Defs.{
  ValidationError, ValidationEvent, ValidationEventResponse, Registers, State, Config, Surroundings,
}
use taple_core.Validation.Checks.{check_proofs}
use taple_core.Validation.Order.{Precedes, check_proofs-order}
use taple_core.Validation.Process.{
  actual_gov_version, last_proof, check_event, answer, register, sign_event, validation_event,
}

module _ (crypto : Crypto) ⦃borsh : Borsh (ValidationProof × TimeStamp)⦄ (base64 : Base64)
    {S : Type 0} (registers : Registers S) where
  -- An event that passes its checks goes on from the proof in the register.
  pub check_event-Precedes :
      (gov_api : GovernanceApi) (store : S) (e : ValidationEvent) (last : ValidationProof)
      → check_event crypto base64 registers gov_api store e ≡ ok tt
      → registers.get_validation_register store e.proof.subject_id ≡ ok last
      → Precedes last e.proof
  unfolding check_event
  check_event-Precedes gov_api store e last h found =
      let (_, _, h₁) =
        >>=-eq-ok (map_raise _ (verify crypto e.subject_signature e.proof)) _
          (rw (last_proof-found) at h) in
      let (pk, passed, _) =
        >>=-eq-ok
          (check_proofs crypto base64 gov_api e.proof e.previous_proof
            e.prev_event_validation_signatures (some last))
          _ h₁ in
      check_proofs-order crypto base64 gov_api e.proof e.previous_proof
        e.prev_event_validation_signatures last passed
    where
      last_proof-found : last_proof registers store e.proof ≡ ok (some last)
      last_proof-found = unfold last_proof in rw (found, last_proof)

  -- How a call ends for the registers: as they were, and with an error; or with the proof written,
  -- where its version of the governance is the one that the validator knows, and its signatures and
  -- its place behind the previous proof have been checked.
  abbrev pub Outcome :
      GovernanceApi
      → ValidationEvent
      → State S
      → Result ValidationEventResponse (Fault ValidationError) × State S
      → Type 0
  Outcome gov_api e s out =
      ((is_ok out.0 ≡ false) × (out.1.store ≡ s.store))
      ⊎ ((actual_gov_version gov_api e.proof ≡ ok e.proof.governance_version)
          × (check_event crypto base64 registers gov_api s.store e ≡ ok tt)
          × (registers.set_validation_register s.store e.proof.subject_id e.proof ≡ ok out.1.store))

  store-answer :
      (config : Config) (around : Surroundings) (version : ℕ) (e : ValidationEvent)
      (sender : KeyIdentifier) (s : State S)
      → (answer crypto base64 registers config around version e sender s).1.store ≡ s.store
  unfolding answer
  store-answer config around version e sender s = ground arith

  module _ (config : Config) (around : Surroundings) (e : ValidationEvent) (sender : KeyIdentifier)
      (s : State S) where
    sign_event-Outcome :
        (version : ℕ)
        → actual_gov_version around.gov_api e.proof ≡ ok e.proof.governance_version
        → Outcome around.gov_api e s
            (sign_event crypto base64 registers config around version e sender s)
    unfolding sign_event register
    sign_event-Outcome version agreed =
        elim (Result-cases (check_event crypto base64 registers around.gov_api s.store e)) [
          | inr (failure, p) ↦ ground (arith, p)
          | inl (_, p) ↦
              elim (Result-cases
                (registers.set_validation_register s.store e.proof.subject_id e.proof)) [
                  | inr (failure, q) ↦ ground (arith, p, q)
                  | inl (t, q) ↦ ground (
                    arith,
                    agreed,
                    p,
                    q,
                    store-answer config around version e sender (record s { store = t }),
                  )
                ]
        ]

    -- A call of `validation_event` either ends in an error and leaves the registers as they were, or
    -- the proof has the version of the governance that the validator knows, has passed `check_event`,
    -- and is written to the register of its subject.
    pub validation_event-Outcome :
        Outcome around.gov_api e s
          (validation_event crypto base64 registers config around e sender s)
    unfolding validation_event
    validation_event-Outcome = elim (Result-cases (actual_gov_version around.gov_api e.proof)) [
      | inr (failure, p) ↦ ground (arith, p)
      | inl (version, p) ↦ elim (Bool-cases (ltb version e.proof.governance_version)) [
        | inl low ↦ ground (arith, p, low)
        | inr not_low ↦ elim (Bool-cases (ltb e.proof.governance_version version)) [
          | inl high ↦ ground (arith, p, not_low, high)
          | inr not_high ↦
              let same : version ≡ e.proof.governance_version = ground arith in
              let agreed : actual_gov_version around.gov_api e.proof
                  ≡ ok e.proof.governance_version =
                p ∙ ap (λ (v : ℕ). ok v) same in
              ground (arith, p, not_low, not_high, sign_event-Outcome version agreed)
        ]
      ]
    ]
