-- ===== src/Tests/Validators.antt =====
-- A validator at the sample registers, which is asked for the first two events of a chain.
use taple_core.Prelude.{
  ℕ, suc, ◌<◌, ◌*◌, ◌≡◌, ◌↔◌, arith, contains, refl, Bool, true, false, Option, none, some, List,
  [], ◌∷◌, Result, ok, err, text, length, panic,
}
use taple_core.Identifier.{blake3_256, ed25519, secp256k1}
use taple_core.Identifier.Digests.{DigestIdentifier}
use taple_core.Identifier.Keys.{KeyIdentifier, key_identifier_eq}
use taple_core.Models.Errors.{DbError}
use taple_core.Models.Crypto.{Borsh, ecdsa_secp256k1}
use taple_core.Models.Signatures.{TimeStamp, Signature, verify}
use taple_core.Models.Signatures.Validity.{IsValid, IsMalformed, verify_iff, verify-panic_iff}
use taple_core.Models.Proofs.{ValidationProof, is_similar}
use taple_core.Governance.Interface.{GovernanceApi}
use taple_core.Validation.Defs.{ValidationEvent, Config, State, Surroundings}
use taple_core.Validation.Checks.{follows, check_proofs, check_previous}
use taple_core.Validation.Successors.{IsSuccessor, follows_iff}
use taple_core.Validation.Process.{Call, run, validation_event}
use taple_core.Validation.Order.{Precedes, check_proofs-order}
use taple_core.Validation.Steps.{Outcome, validation_event-Outcome}
use taple_core.Validation.Agreement.{IsSignedBy, check_previous-overlap}
use taple_core.Validation.Forks.{IsChain, run-IsChain}
use taple_core.Tests.Samples.{
  crypto_sample, base64_sample, Store, registers_sample, registers_sample-IsRegisters, key_of,
}
use taple_core.Tests.Models.{signed_at, proof_sample}

instance abbrev proof_borsh : Borsh (ValidationProof × TimeStamp)
proof_borsh = record { try_to_vec = λ p. some (p.1 ∷ p.0.sn ∷ p.0.event_hash.digest) }

-- The governance is at version 2, and has two validators, both of whom must sign.
abbrev gov_api_sample : GovernanceApi
gov_api_sample = record {
  get_governance_version = λ governance_id subject_id. ok 2;
  get_signers = λ metadata stage. ok (key_of 21 ∷ key_of 22 ∷ []);
  get_quorum = λ metadata stage. ok 2;
}

abbrev around_sample : Surroundings
around_sample = record { gov_api = gov_api_sample; channel_open = true; now = 7 }

abbrev config_sample : Config
config_sample = record {
  keys = record { derivator = ed25519; public_key = 21 ∷ []; secret_key = [] };
  identifier = key_of 21;
  derivator = blake3_256;
}

-- Event 0, and event 1 with the proof of event 0, each signed by the key of the subject.
abbrev event_at : ℕ → Option ValidationProof → ValidationEvent
event_at n previous = record {
  proof = proof_sample n;
  subject_signature = signed_at 11 (5 ∷ n ∷ suc n ∷ []);
  previous_proof = previous;
  prev_event_validation_signatures = [];
}

abbrev call_sample : ℕ → Option ValidationProof → Call crypto_sample base64_sample registers_sample
call_sample n previous = (around_sample, event_at n previous, key_of 1)

abbrev calls_sample : List (Call crypto_sample base64_sample registers_sample)
calls_sample = call_sample 0 none ∷ call_sample 1 (some (proof_sample 0)) ∷ []

abbrev start_sample : State Store
start_sample = record { store = λ k. err DbError.entry_not_found; sent = [] }

-- Both proofs are signed.
run_sample :
    length
      (run crypto_sample base64_sample registers_sample config_sample start_sample []
        calls_sample).1
    ≡ 2
unfolding run validation_event taple_core.Validation.Process.actual_gov_version
    taple_core.Prelude.list_beq taple_core.Validation.Process.sign_event
    taple_core.Validation.Process.check_event taple_core.Validation.Process.last_proof
    taple_core.Models.Signatures.verify check_proofs taple_core.Identifier.Keys.key_identifier_beq
    taple_core.Identifier.Derivators.key_derivator_beq taple_core.Validation.Process.register
    taple_core.Validation.Process.answer taple_core.Models.Signatures.new_signature
    taple_core.Validation.Checks.check_next is_similar
    taple_core.Identifier.Digests.digest_identifier_beq
    taple_core.Identifier.Derivators.digest_derivator_beq follows
    taple_core.Validation.Checks.validate_previous_proof
run_sample = refl

run-IsChain_example :
    IsChain registers_sample
      (run crypto_sample base64_sample registers_sample config_sample start_sample []
        calls_sample).1
run-IsChain_example =
    run-IsChain crypto_sample base64_sample registers_sample registers_sample-IsRegisters
      config_sample start_sample calls_sample

validation_event-Outcome_example :
    Outcome crypto_sample base64_sample registers_sample gov_api_sample
      (event_at 0 none)
      start_sample
      (validation_event crypto_sample base64_sample registers_sample config_sample around_sample
        (event_at 0 none)
        (key_of 1)
        start_sample)
validation_event-Outcome_example =
    validation_event-Outcome crypto_sample base64_sample registers_sample config_sample
      around_sample (event_at 0 none) (key_of 1) start_sample

-- Event 4 goes on from event 3 in the register.
check_proofs_sample :
    check_proofs crypto_sample base64_sample gov_api_sample
      (proof_sample 4)
      (some (proof_sample 3))
      []
      (some (proof_sample 3))
    ≡ ok (key_of 11)
unfolding check_proofs taple_core.Validation.Checks.check_next is_similar
    taple_core.Identifier.Digests.digest_identifier_beq
    taple_core.Identifier.Derivators.digest_derivator_beq taple_core.Prelude.list_beq
    taple_core.Identifier.Keys.key_identifier_beq taple_core.Identifier.Derivators.key_derivator_beq
    taple_core.Validation.Checks.validate_previous_proof follows
check_proofs_sample = refl

check_proofs-order_example : Precedes (proof_sample 3) (proof_sample 4)
check_proofs-order_example =
    check_proofs-order crypto_sample base64_sample gov_api_sample (proof_sample 4)
      (some (proof_sample 3)) [] (proof_sample 3) check_proofs_sample

-- Event 4 behind the proof of event 3, which both validators have signed.
abbrev signatures_sample : List Signature
signatures_sample =
    signed_at 21 (5 ∷ 3 ∷ 4 ∷ [])
    ∷ signed_at 22 (5 ∷ 3 ∷ 4 ∷ [])
    ∷ signed_at 21 (5 ∷ 3 ∷ 4 ∷ [])
    ∷ []

check_previous_sample :
    check_previous crypto_sample gov_api_sample
      (proof_sample 4)
      (some (proof_sample 3))
      signatures_sample
    ≡ ok (key_of 11)
unfolding check_previous taple_core.Validation.Checks.validate_previous_proof follows
    taple_core.Identifier.Digests.digest_identifier_beq
    taple_core.Identifier.Derivators.digest_derivator_beq taple_core.Prelude.list_beq
    taple_core.Validation.Checks.check_signatures taple_core.Validation.Checks.actual_signers
    taple_core.Models.Signatures.verify taple_core.Identifier.Keys.key_identifier_beq
    taple_core.Identifier.Derivators.key_derivator_beq
check_previous_sample = refl

-- A signature of proof 3 by validator 21.
verify_iff_example :
    (verify crypto_sample (signed_at 21 (5 ∷ 3 ∷ 4 ∷ [])) (proof_sample 3) ≡ ok tt)
    ↔ IsValid crypto_sample (signed_at 21 (5 ∷ 3 ∷ 4 ∷ [])) (proof_sample 3)
verify_iff_example = verify_iff crypto_sample (signed_at 21 (5 ∷ 3 ∷ 4 ∷ [])) (proof_sample 3)

-- A signature with the bytes of no secp256k1 signature.
abbrev malformed_sample : Signature
malformed_sample = record (signed_at 21 []) {
  signer = record { public_key = 21 ∷ []; derivator = secp256k1 };
  value = record { derivator = ecdsa_secp256k1; signature = [] };
}

malformed_panics : verify crypto_sample malformed_sample (proof_sample 3) ≡ err panic
unfolding verify
malformed_panics = refl

verify-panic_iff_example :
    (verify crypto_sample malformed_sample (proof_sample 3) ≡ err panic)
    ↔ IsMalformed crypto_sample malformed_sample (proof_sample 3)
verify-panic_iff_example = verify-panic_iff crypto_sample malformed_sample (proof_sample 3)

follows_iff_example :
    (follows (proof_sample 3) (proof_sample 4) ≡ true)
    ↔ IsSuccessor (proof_sample 3) (proof_sample 4)
follows_iff_example = follows_iff (proof_sample 3) (proof_sample 4)

check_previous-overlap_example :
    (k : KeyIdentifier) × (contains (key_of 21 ∷ key_of 22 ∷ []) k ≡ true)
    × IsSignedBy crypto_sample (proof_sample 3) k
    × IsSignedBy crypto_sample (proof_sample 3) k
check_previous-overlap_example =
    check_previous-overlap crypto_sample gov_api_sample (proof_sample 4) (proof_sample 4)
      (proof_sample 3) (proof_sample 3) signatures_sample signatures_sample (key_of 11) (key_of 11)
      (key_of 21 ∷ key_of 22 ∷ []) 2 check_previous_sample check_previous_sample refl refl refl
      (omega arith)
