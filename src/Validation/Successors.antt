-- ===== src/Validation/Successors.antt =====
-- When a proof follows another, of the tests that `validate_previous_proof` begins with.
use taple_core.Prelude.{◌≡◌, ◌↔◌, true, arith, eq_iff, list_eq, nat_eq}
use taple_core.Identifier.Digests.{digest_identifier_eq}
use taple_core.Models.Proofs.{ValidationProof}
use taple_core.Validation.Checks.{next_sn, follows}

-- The second proof is the one of the event behind that of the first, of the same subject.
abbrev pub IsSuccessor : ValidationProof → ValidationProof → Type 0
IsSuccessor previous p =
    (p.prev_event_hash ≡ previous.event_hash)
    × (p.sn ≡ next_sn previous.sn)
    × (p.genesis_governance_version ≡ previous.genesis_governance_version)
    × (p.namespace ≡ previous.namespace)
    × (p.name ≡ previous.name)
    × (p.subject_id ≡ previous.subject_id)
    × (p.schema_id ≡ previous.schema_id)
    × (p.governance_id ≡ previous.governance_id)

-- A proof follows a previous one exactly if its event is linked to that one's by its hash and has
-- the next number, and the identifier, the names, the schema and the governance of the subject, with
-- the version that it began at, are the same.
pub follows_iff :
    (previous p : ValidationProof) → (follows previous p ≡ true) ↔ IsSuccessor previous p
unfolding follows
follows_iff previous p = (
  λ h. ground (
    arith,
    h,
    eq_iff previous.event_hash p.prev_event_hash,
    eq_iff previous.namespace p.namespace,
    eq_iff previous.name p.name,
    eq_iff previous.subject_id p.subject_id,
    eq_iff previous.schema_id p.schema_id,
    eq_iff previous.governance_id p.governance_id,
  ),
  λ h. ground (
    arith,
    h,
    eq_iff previous.event_hash p.prev_event_hash,
    eq_iff previous.namespace p.namespace,
    eq_iff previous.name p.name,
    eq_iff previous.subject_id p.subject_id,
    eq_iff previous.schema_id p.schema_id,
    eq_iff previous.governance_id p.governance_id,
  ),
)
