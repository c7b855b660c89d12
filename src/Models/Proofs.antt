-- ===== src/Models/Proofs.antt =====
-- validation.rs of the models: what a validator signs for an event.
use taple_core.Prelude.{
  refl, ap, sym, ◌∙◌, ℕ, ◌≡◌, ◌↔◌, Bool, true, ◌&&◌, arith, Str, nat_eq, list_eq, ◌==◌, eq_iff,
  eq_refl,
}
use mathlib.Core.Path.{subst}
use taple_core.Identifier.Digests.{DigestIdentifier, digest_identifier_eq, default}
use taple_core.Identifier.Keys.{KeyIdentifier, key_identifier_eq}
use taple_core.Models.Requests.{StartRequest}
use taple_core.Models.Events.{Metadata}
use taple_core.Models.Subjects.{Subject}

pub record ValidationProof : Type 0 where
  pub subject_id : DigestIdentifier
  pub schema_id : Str
  pub namespace : Str
  pub name : Str
  pub subject_public_key : KeyIdentifier
  pub governance_id : DigestIdentifier
  pub genesis_governance_version : ℕ
  pub sn : ℕ
  pub prev_event_hash : DigestIdentifier
  pub event_hash : DigestIdentifier
  pub governance_version : ℕ

-- `ValidationProof::new_from_genesis_event`
unfoldable pub new_from_genesis_event :
    StartRequest → DigestIdentifier → ℕ → DigestIdentifier → ValidationProof
new_from_genesis_event r event_hash governance_version subject_id = record {
  subject_id = subject_id;
  schema_id = r.schema_id;
  namespace = r.namespace;
  name = r.name;
  subject_public_key = r.public_key;
  governance_id = r.governance_id;
  genesis_governance_version = governance_version;
  sn = 0;
  prev_event_hash = default;
  event_hash = event_hash;
  governance_version = governance_version;
}

-- `ValidationProof::new_from_transfer_event`
unfoldable pub new_from_transfer_event :
    Subject → ℕ → DigestIdentifier → DigestIdentifier → ℕ → KeyIdentifier → ValidationProof
new_from_transfer_event s sn prev_event_hash event_hash governance_version public_key = record {
  subject_id = s.subject_id;
  schema_id = s.schema_id;
  namespace = s.namespace;
  name = s.name;
  subject_public_key = public_key;
  governance_id = s.governance_id;
  genesis_governance_version = s.genesis_gov_version;
  sn = sn;
  prev_event_hash = prev_event_hash;
  event_hash = event_hash;
  governance_version = governance_version;
}

-- `ValidationProof::new`
unfoldable pub new : Subject → ℕ → DigestIdentifier → DigestIdentifier → ℕ → ValidationProof
new s sn prev_event_hash event_hash governance_version = record {
  subject_id = s.subject_id;
  schema_id = s.schema_id;
  namespace = s.namespace;
  name = s.name;
  subject_public_key = s.public_key;
  governance_id = s.governance_id;
  genesis_governance_version = s.genesis_gov_version;
  sn = sn;
  prev_event_hash = prev_event_hash;
  event_hash = event_hash;
  governance_version = governance_version;
}

-- `ValidationProof::get_metadata`
unfoldable pub get_metadata : ValidationProof → Metadata
get_metadata p = record {
  namespace = p.namespace;
  subject_id = p.subject_id;
  governance_id = p.governance_id;
  governance_version = p.governance_version;
  schema_id = p.schema_id;
}

-- `ValidationProof::is_similar`: all but the version of the governance.
unfoldable pub is_similar : ValidationProof → ValidationProof → Bool
is_similar p q =
    p.governance_id == q.governance_id
    && (p.subject_id == q.subject_id
        && (p.sn == q.sn
            && (p.schema_id == q.schema_id
                && (p.namespace == q.namespace
                    && (p.prev_event_hash == q.prev_event_hash
                        && (p.event_hash == q.event_hash
                            && (p.subject_public_key == q.subject_public_key
                                && (p.genesis_governance_version == q.genesis_governance_version
                                    && p.name == q.name))))))))

-- The derived `PartialEq`.
unfoldable pub proof_beq : ValidationProof → ValidationProof → Bool
proof_beq p q = is_similar p q && p.governance_version == q.governance_version

is_similar-version :
    (p : ValidationProof) (v : ℕ) → is_similar p (record p { governance_version = v }) ≡ true
unfolding is_similar
is_similar-version p v = simp eq_refl

-- Similar proofs differ in the version of the governance alone.
pub is_similar_iff :
    (p q : ValidationProof)
    → (is_similar p q ≡ true) ↔ (record p { governance_version = q.governance_version } ≡ q)
unfolding is_similar
is_similar_iff p q = (
  λ h. ground (
    arith,
    eq_iff p.governance_id q.governance_id,
    eq_iff p.subject_id q.subject_id,
    eq_iff p.sn q.sn,
    eq_iff p.schema_id q.schema_id,
    eq_iff p.namespace q.namespace,
    eq_iff p.prev_event_hash q.prev_event_hash,
    eq_iff p.event_hash q.event_hash,
    eq_iff p.subject_public_key q.subject_public_key,
    eq_iff p.genesis_governance_version q.genesis_governance_version,
    eq_iff p.name q.name,
  ),
  λ h. subst (λ x. is_similar p x ≡ true) h (is_similar-version p q.governance_version),
)

-- Similarity is an equivalence.
pub is_similar_refl : (p : ValidationProof) → is_similar p p ≡ true
is_similar_refl p = (is_similar_iff p p).1 refl

pub is_similar_sym : (p q : ValidationProof) → is_similar p q ≡ true → is_similar q p ≡ true
is_similar_sym p q h = (is_similar_iff q p).1 (
    ap (λ (x : ValidationProof). record x { governance_version = p.governance_version })
      (sym ((is_similar_iff p q).0 h)))

pub is_similar_trans :
    (p q r : ValidationProof)
    → is_similar p q ≡ true
    → is_similar q r ≡ true
    → is_similar p r ≡ true
is_similar_trans p q r h k = (is_similar_iff p r).1 (
    ap (λ (x : ValidationProof). record x { governance_version = r.governance_version })
      ((is_similar_iff p q).0 h)
    ∙ (is_similar_iff q r).0 k)

-- Similar proofs have the same number and the same subject.
pub is_similar-sn : (p q : ValidationProof) → is_similar p q ≡ true → p.sn ≡ q.sn
is_similar-sn p q h = ap (λ (x : ValidationProof). x.sn) ((is_similar_iff p q).0 h)

pub is_similar-subject_id :
    (p q : ValidationProof) → is_similar p q ≡ true → p.subject_id ≡ q.subject_id
is_similar-subject_id p q h = ap (λ (x : ValidationProof). x.subject_id) ((is_similar_iff p q).0 h)

pub proof_beq→eq : (p q : ValidationProof) → proof_beq p q ≡ true → p ≡ q
unfolding proof_beq
proof_beq→eq p q h =
    ground (arith, (is_similar_iff p q).0, eq_iff p.governance_version q.governance_version)
