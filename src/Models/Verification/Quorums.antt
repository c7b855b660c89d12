-- ===== src/Models/Verification/Quorums.antt =====
-- What it means that an event passes `verify_eval_appr`.
use taple_core.Prelude.{
  ℕ, ◌≤◌, ◌≡◌, refl, true, false, List, [], ◌∷◌, All, contains, eq_iff, is_subset, IsDistinct,
  length, arith, String, Result, ok, inl, inr, Result-cases, ap, ◌+◌, ◌>>=◌, Fault,
}
use taple_core.Identifier.Keys.{KeyIdentifier, key_identifier_eq}
use taple_core.Models.Errors.{SubjectError}
use taple_core.Models.Crypto.{Borsh, Crypto}
use taple_core.Models.Signatures.{TimeStamp, Signature, verify}
use taple_core.Models.Verification.{collect_signers, check_signers}

-- The signers of a set of signatures, in the order of the set.
abbrev pub signers_of : List Signature → List KeyIdentifier
signers_of [] = []
signers_of (s ∷ ss) = s.signer ∷ signers_of ss

-- What the loop has collected behind `seen`.
gather : List KeyIdentifier → List Signature → List KeyIdentifier
gather seen [] = seen
gather seen (s ∷ ss) = gather (s.signer ∷ seen) ss

-- No signature is by one of `seen`.
abbrev Fresh : List KeyIdentifier → List Signature → Type 0
Fresh seen = All (λ s. contains seen s.signer ≡ false)

Fresh-tail :
    (k : KeyIdentifier) (seen : List KeyIdentifier) (ss : List Signature)
    → Fresh (k ∷ seen) ss
    → Fresh seen ss
Fresh-tail k seen [] h = tt
Fresh-tail k seen (s ∷ ss) h = (ground arith, Fresh-tail k seen ss h.1)

Fresh-head :
    (k : KeyIdentifier) (seen : List KeyIdentifier) (ss : List Signature)
    → Fresh (k ∷ seen) ss
    → contains (signers_of ss) k ≡ false
Fresh-head k seen [] h = refl
Fresh-head k seen (s ∷ ss) h =
    ground (arith, eq_iff k s.signer, eq_iff s.signer k, Fresh-head k seen ss h.1)

Fresh-cons :
    (k : KeyIdentifier) (seen : List KeyIdentifier) (ss : List Signature)
    → Fresh seen ss
    → contains (signers_of ss) k ≡ false
    → Fresh (k ∷ seen) ss
Fresh-cons k seen [] h n = tt
Fresh-cons k seen (s ∷ ss) h n =
    (ground (arith, eq_iff k s.signer, eq_iff s.signer k), Fresh-cons k seen ss h.1 (ground arith))

Fresh-nil : (ss : List Signature) → Fresh [] ss
Fresh-nil [] = tt
Fresh-nil (s ∷ ss) = (refl, Fresh-nil ss)

length-gather :
    (seen : List KeyIdentifier) (ss : List Signature)
    → length (gather seen ss) ≡ length seen + length ss
unfolding gather
length-gather seen [] = omega arith
length-gather seen (s ∷ ss) = omega (arith, length-gather (s.signer ∷ seen) ss)

abbrev Permitted : List KeyIdentifier → List Signature → Type 0
Permitted allowed = All (λ s. contains allowed s.signer ≡ true)

gather-Permitted :
    (allowed seen : List KeyIdentifier) (ss : List Signature)
    → is_subset (gather seen ss) allowed ≡ true
    → (is_subset seen allowed ≡ true) × Permitted allowed ss
unfolding gather
gather-Permitted allowed seen [] h = (h, tt)
gather-Permitted allowed seen (s ∷ ss) h =
    let ih = gather-Permitted allowed (s.signer ∷ seen) ss h in
    (ground (arith, ih.0), (ground (arith, ih.0), ih.1))

is_subset-gather :
    (allowed seen : List KeyIdentifier) (ss : List Signature)
    → is_subset seen allowed ≡ true
    → Permitted allowed ss
    → is_subset (gather seen ss) allowed ≡ true
unfolding gather
is_subset-gather allowed seen [] h p = h
is_subset-gather allowed seen (s ∷ ss) h p =
    is_subset-gather allowed (s.signer ∷ seen) ss (ground arith) p.1

check_signers_sound :
    (incorrect not_enough : String) (allowed : List KeyIdentifier) (quorum : ℕ)
    (out : List KeyIdentifier)
    → check_signers incorrect not_enough allowed quorum out ≡ ok tt
    → (is_subset out allowed ≡ true) × (quorum ≤ length out)
unfolding check_signers
check_signers_sound incorrect not_enough allowed quorum out h = (ground arith, ground arith)

module _ (crypto : Crypto) {A : Type 0} ⦃borsh : Borsh (A × TimeStamp)⦄ where
  -- The signatures of a content by pairwise different signers, all of whom may sign it, at least
  -- as many as the quorum, each of them a valid signature of that content.
  pub record IsQuorum (content : A) (allowed : List KeyIdentifier) (quorum : ℕ)
      (signatures : List Signature) : Type 0 where
    pub valid : All (λ s. verify crypto s content ≡ ok tt) signatures
    pub distinct : IsDistinct (signers_of signatures)
    pub permitted : All (λ s. contains allowed s.signer ≡ true) signatures
    pub enough : quorum ≤ length signatures

  -- One round of the loop.
  collect_signers-cons :
      (repeated : String) (content : A) (seen out : List KeyIdentifier) (s : Signature)
      (ss : List Signature)
      → collect_signers crypto repeated content seen (s ∷ ss) ≡ ok out
      → (contains seen s.signer ≡ false)
        × (verify crypto s content ≡ ok tt)
        × (collect_signers crypto repeated content (s.signer ∷ seen) ss ≡ ok out)
  unfolding collect_signers
  collect_signers-cons repeated content seen out s ss h = ground arith

  -- What the loop has found out when it ends well.
  collect_signers_sound :
      (repeated : String) (content : A) (seen out : List KeyIdentifier) (ss : List Signature)
      → collect_signers crypto repeated content seen ss ≡ ok out
      → All (λ s. verify crypto s content ≡ ok tt) ss
        × Fresh seen ss
        × IsDistinct (signers_of ss)
        × (out ≡ gather seen ss)
  unfolding gather collect_signers
  collect_signers_sound repeated content seen out [] h = (tt, tt, tt, ground arith)
  collect_signers_sound repeated content seen out (s ∷ ss) h =
      let (fresh, valid, rest) = collect_signers-cons repeated content seen out s ss h in
      let (v, f, d, e) = collect_signers_sound repeated content (s.signer ∷ seen) out ss rest in
      ((valid, v), (fresh, Fresh-tail s.signer seen ss f), (Fresh-head s.signer seen ss f, d), e)

  collect_signers_complete :
      (repeated : String) (content : A) (seen : List KeyIdentifier) (ss : List Signature)
      → All (λ s. verify crypto s content ≡ ok tt) ss
      → Fresh seen ss
      → IsDistinct (signers_of ss)
      → collect_signers crypto repeated content seen ss ≡ ok (gather seen ss)
  unfolding collect_signers gather
  collect_signers_complete repeated content seen [] v f d = refl
  collect_signers_complete repeated content seen (s ∷ ss) v f d =
      rw (f.0, v.0)
        (collect_signers_complete repeated content (s.signer ∷ seen) ss v.1
          (Fresh-cons s.signer seen ss f.1 d.0) d.1)

  module _ (repeated incorrect not_enough : String) (content : A) where
    -- The loop and the tests behind it.
    abbrev pub checked : List KeyIdentifier → ℕ → List Signature → Result Unit (Fault SubjectError)
    checked allowed quorum ss =
        collect_signers crypto repeated content [] ss
        >>= check_signers incorrect not_enough allowed quorum

    pub checked-IsQuorum :
        (allowed : List KeyIdentifier) (quorum : ℕ) (ss : List Signature)
        → checked allowed quorum ss ≡ ok tt
        → IsQuorum content allowed quorum ss
    checked-IsQuorum allowed quorum ss h =
        elim (Result-cases (collect_signers crypto repeated content [] ss)) [
          | inl (out, e) ↦
              let (v, f, d, g) = collect_signers_sound repeated content [] out ss e in
              let (subset, enough) =
                check_signers_sound incorrect not_enough allowed quorum out (rw e at h) in
              record {
                valid = v;
                distinct = d;
                permitted = (gather-Permitted allowed [] ss (rw g at subset)).1;
                enough =
                    omega (arith, enough, ap (length {A = KeyIdentifier}) g, length-gather [] ss);
              }
          | inr (e, failed) ↦ cc (failed, h)
        ]

    pub IsQuorum-checked :
        (allowed : List KeyIdentifier) (quorum : ℕ) (ss : List Signature)
        → IsQuorum content allowed quorum ss
        → checked allowed quorum ss ≡ ok tt
    unfolding check_signers
    IsQuorum-checked allowed quorum ss q =
        rw
          (
            collect_signers_complete repeated content [] ss q.valid (Fresh-nil ss) q.distinct,
            is_subset-gather allowed [] ss refl q.permitted,
          )
          (ground (arith, q.enough, length-gather [] ss))
