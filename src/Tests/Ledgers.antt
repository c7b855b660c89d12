-- ===== src/Tests/Ledgers.antt =====
-- The ledger at two events of a subject, over a store that is a function.
use taple_core.Prelude.{
  ℕ, ◌≡◌, refl, sym, ap, ◌∙◌, ◌↔◌, ◌≤◌, Bool, true, false, not, ◌&&◌, Option, none, some, List, [],
  ◌∷◌, All, IsDistinct, arith, nat_eq, list_eq, ◌==◌, eq_iff, Bool-cases, inl, inr, if◌then◌else◌,
  text, Str, Result, ok, err, length, panic,
}
use taple_core.Prelude.Actions.{Outcome}
use taple_core.Identifier.{Bytes, blake3_256}
use taple_core.Identifier.Digests.{DigestIdentifier, digest_identifier_eq}
use taple_core.Identifier.Keys.{KeyIdentifier, key_identifier_eq}
use taple_core.Models.Errors.{DbError, entry_not_found}
use taple_core.Models.Values.{Value, null, Json}
use taple_core.Models.Crypto.{Borsh}
use taple_core.Models.Signatures.{TimeStamp, Signature, signature_eq, Signed}
use taple_core.Models.Requests.{EventRequest, fact}
use taple_core.Models.Subjects.{Subject}
use taple_core.Models.Events.{Event}
use taple_core.Models.Proofs.{ValidationProof}
use taple_core.Database.Keys.{join, s, n}
use taple_core.Database.Collections.{DatabaseCollection, IsCollection, Codec, IsCodec}
use taple_core.Database.Layers.{LayerCodecs, get_event, get_subject}
use taple_core.Ledger.Defs.{State, Surroundings}
use taple_core.Ledger.Validated.{event_validated}
use taple_core.Ledger.Recorded.{IsRecorded, event_validated-IsRecorded}
use taple_core.Ledger.Signers.{Answered, IsVoter, verify_signatures, verify_signatures_iff}
use taple_core.Ledger.Sourcing.{event_sourcing}
use taple_core.Ledger.Chain.{Follows, event_sourcing_lem}
use taple_core.Ledger.Chain.Links.{Holds, IsLinked}
use taple_core.Ledger.Checks.{last_event_hash, check_validation_proof}
use taple_core.Ledger.Agreement.{IsNextProof, check_validation_proof_iff}
use taple_core.Tests.Samples.{base64_sample, crypto_sample, key_of, digest_of}
use taple_core.Tests.Models.{event_sample, proof_sample, signed_at}

abbrev Entries : Type 0
Entries = Str → Result Bytes DbError

abbrev function_collection : DatabaseCollection Entries
function_collection = record {
  get = λ store k. store k;
  put = λ store k bytes. ok (λ j. if k == j then ok bytes else store j);
  del = λ store k. ok (λ j. if k == j then err entry_not_found else store j);
  iter = λ store reversed prefix. [];
}

abbrev written : Result Entries DbError → Entries → Entries
written (ok store) other = store
written (err e) other = other

function_collection-IsCollection : IsCollection function_collection
function_collection-IsCollection = record {
  get-put = λ store t k j bytes h. ap (λ r. written r t j) (sym h);
  get-del = λ store t k j h. ap (λ r. written r t j) (sym h);
}

instance abbrev event_borsh : Borsh Event
event_borsh = record { try_to_vec = λ e. some (e.sn ∷ []) }

instance abbrev proof_borsh : Borsh (ValidationProof × TimeStamp)
proof_borsh = record { try_to_vec = λ (p, t). some (t ∷ p.sn ∷ []) }

abbrev signed_event : Event → Signed Event
signed_event e = record { content = e; signature = signed_at 1 [] }

-- The first event, and a second one that the approvers have refused.
abbrev first_event : Signed Event
first_event = signed_event (record event_sample { sn = 1 })

abbrev second_event : Signed Event
second_event =
    signed_event (record event_sample { sn = 2; approved = false; hash_prev_event = digest_of 1 })

abbrev subject_sample : ℕ → Subject
subject_sample m = record {
  keys = none;
  subject_id = digest_of 1;
  governance_id = digest_of 9;
  sn = m;
  genesis_gov_version = 2;
  public_key = key_of 11;
  namespace = [];
  name = text "subject";
  schema_id = text "s";
  owner = key_of 1;
  creator = key_of 1;
  properties = null;
  active = true;
}

abbrev is_plain : Value → Bool
is_plain null = true
is_plain _ = false

is_plain→eq : (v : Value) → is_plain v ≡ true → v ≡ null
is_plain→eq v h = ground (arith, h)

-- Whether a subject is the sample, but for its number.
abbrev is_sample : Subject → Bool
is_sample d =
    (elim d.keys [ none ↦ true | some k ↦ false ])
    && (d.subject_id == digest_of 1
        && (d.governance_id == digest_of 9
            && (d.genesis_gov_version == 2
                && (d.public_key == key_of 11
                    && (d.namespace == []
                        && (d.name == text "subject"
                            && (d.schema_id == text "s"
                                && (d.owner == key_of 1
                                    && (d.creator == key_of 1
                                        && (is_plain d.properties && d.active))))))))))

is_sample→eq : (d : Subject) → is_sample d ≡ true → d ≡ subject_sample d.sn
is_sample→eq d h = ground (
  arith,
  h,
  eq_iff d.subject_id (digest_of 1),
  eq_iff d.governance_id (digest_of 9),
  eq_iff d.public_key (key_of 11),
  eq_iff d.namespace [],
  eq_iff d.name (text "subject"),
  eq_iff d.schema_id (text "s"),
  eq_iff d.owner (key_of 1),
  eq_iff d.creator (key_of 1),
  is_plain→eq d.properties,
)

abbrev read_subject : Bytes → Option Subject
read_subject (m ∷ []) = some (subject_sample m)
read_subject _ = none

abbrev read_event : Bytes → Option (Signed Event)
read_event (m ∷ []) = if m == 1 then some first_event else some second_event
read_event _ = none

abbrev is_plain_fact : EventRequest → Bool
is_plain_fact (fact r) = r.subject_id == digest_of 1 && is_plain r.payload
is_plain_fact _ = false

is_plain_fact→eq :
    (r : EventRequest) → is_plain_fact r ≡ true → r ≡ second_event.content.event_request.content
is_plain_fact→eq (fact r) h =
    ground (arith, h, eq_iff r.subject_id (digest_of 1), is_plain→eq r.payload)
is_plain_fact→eq _ h = absurd (ground (arith, h))

-- Whether a request and an event are those of the second event.
abbrev is_request : Signed EventRequest → Bool
is_request r = is_plain_fact r.content && r.signature == signed_at 1 []

is_request→eq :
    (r : Signed EventRequest) → is_request r ≡ true → r ≡ second_event.content.event_request
is_request→eq r h =
    ground (arith, h, is_plain_fact→eq r.content, eq_iff r.signature (signed_at 1 []))

abbrev is_second : Signed Event → Bool
is_second e =
    e.content.subject_id == digest_of 1
    && (is_request e.content.event_request
        && (e.content.sn == 2
            && (e.content.gov_version == 2
                && (is_plain e.content.patch
                    && (e.content.state_hash == digest_of 2
                        && (e.content.eval_success
                            && (e.content.appr_required
                                && (not e.content.approved
                                    && (e.content.hash_prev_event == digest_of 1
                                        && (e.content.evaluators == second_event.content.evaluators
                                            && (e.content.approvers
                                                  == second_event.content.approvers
                                                && e.signature == signed_at 1 [])))))))))))

is_second→eq : (e : Signed Event) → is_second e ≡ true → e ≡ second_event
is_second→eq e h = ground (
  arith,
  h,
  eq_iff e.content.subject_id (digest_of 1),
  is_request→eq e.content.event_request,
  is_plain→eq e.content.patch,
  eq_iff e.content.state_hash (digest_of 2),
  eq_iff e.content.hash_prev_event (digest_of 1),
  eq_iff e.content.evaluators second_event.content.evaluators,
  eq_iff e.content.approvers second_event.content.approvers,
  eq_iff e.signature (signed_at 1 []),
)

abbrev ledger_codecs : LayerCodecs
ledger_codecs = record {
  subject = record {
    serialize = λ d. if is_sample d then some (d.sn ∷ []) else none;
    deserialize = read_subject;
  };
  event = record {
    serialize = λ e. if is_second e then some (2 ∷ []) else none;
    deserialize = read_event;
  };
  keys = record { serialize = λ _. none; deserialize = λ _. none };
  signatures = record { serialize = λ _. some []; deserialize = λ _. none };
  request = record { serialize = λ _. some []; deserialize = λ _. none };
}

subject_codec-IsCodec : IsCodec ledger_codecs.subject
subject_codec-IsCodec = record {
  deserialize-serialize = λ d bytes h. elim (Bool-cases (is_sample d)) [
    | inl same ↦
        let one : some (d.sn ∷ []) ≡ some bytes = ground (arith, h, same) in
        let code : d.sn ∷ [] ≡ bytes = cc one in
        ap read_subject (sym code) ∙ ap some (sym (is_sample→eq d same))
    | inr other ↦ absurd (ground (arith, h, other))
  ];
}

abbrev json_sample : Json Unit
json_sample = record {
  get = λ _ _. none;
  index = λ v _. v;
  as_str = λ _. none;
  as_array = λ _. none;
  patch_of = λ _. some tt;
  patch = λ v _. some v;
}

-- The two events, and the subject at the first one.
abbrev old_state : State Entries
old_state = record {
  store = λ k.
      if k
        == join (s (text "event"))
            (s (taple_core.Identifier.Digests.to_str base64_sample (digest_of 1)) ∷ n 1 ∷ [])
      then ok (1 ∷ [])
      else if k
          == join (s (text "event"))
              (s (taple_core.Identifier.Digests.to_str base64_sample (digest_of 1)) ∷ n 2 ∷ [])
      then ok (2 ∷ [])
      else if k
          == join (s (text "subject"))
              (s (taple_core.Identifier.Digests.to_str base64_sample (digest_of 1)) ∷ [])
      then ok (1 ∷ [])
      else err entry_not_found;
  subject_is_gov = [];
  ledger_state = [];
  notified = [];
  distributed = [];
}

second_event-get_event :
    get_event function_collection base64_sample ledger_codecs (digest_of 1) 2 old_state.store
    ≡ ok second_event
unfolding get_event taple_core.Database.Collections.get_at taple_core.Database.Keys.get_key
    taple_core.Prelude.list_beq taple_core.Identifier.Digests.to_str
    taple_core.Database.Keys.get_u64_as_hexadecimal
second_event-get_event = refl

sourced :
    (event_sourcing function_collection base64_sample ledger_codecs crypto_sample json_sample
      (key_of 5)
      second_event
      old_state).0
    ≡ ok (subject_sample 2)
unfolding event_sourcing taple_core.Ledger.Sourcing.event_sourcing_rejected_event
    taple_core.Prelude.Actions.◌>>=◌ taple_core.Prelude.Actions.read taple_core.Prelude.Actions.pure
    taple_core.Ledger.Checks.check_previous_hash taple_core.Ledger.Checks.find_event get_event
    taple_core.Database.Collections.get_at taple_core.Database.Collections.set_at
    taple_core.Database.Keys.get_key taple_core.Prelude.list_beq
    taple_core.Identifier.Digests.to_str taple_core.Database.Keys.get_u64_as_hexadecimal
    taple_core.Models.Crypto.from_serializable_borsh
    taple_core.Identifier.Digests.digest_identifier_beq
    taple_core.Identifier.Derivators.digest_derivator_beq taple_core.Ledger.Checks.find_subject
    get_subject taple_core.Database.Layers.set_subject taple_core.Identifier.Keys.key_identifier_beq
    taple_core.Identifier.Derivators.key_derivator_beq
sourced = refl

event_sourcing_lem_example :
    Outcome
      (λ subject t.
        IsLinked function_collection function_collection-IsCollection base64_sample ledger_codecs
          subject_codec-IsCodec crypto_sample
          (digest_of 1)
          2
          (digest_of 1)
          old_state.store
        × Holds function_collection function_collection-IsCollection base64_sample ledger_codecs
            subject_codec-IsCodec old_state.store
            (digest_of 1)
            subject
            t.store
        × Follows second_event.content subject)
      (λ _ _. Unit)
      (event_sourcing function_collection base64_sample ledger_codecs crypto_sample json_sample
        (key_of 5)
        second_event
        old_state)
event_sourcing_lem_example =
    event_sourcing_lem function_collection function_collection-IsCollection base64_sample
      ledger_codecs subject_codec-IsCodec crypto_sample json_sample (key_of 5) second_event
      old_state second_event-get_event

-- Of four signatures one is wrong and one is nobody's.
abbrev signatures_sample : List Signature
signatures_sample =
    signed_at 21 (5 ∷ 2 ∷ [])
    ∷ signed_at 22 []
    ∷ signed_at 41 (5 ∷ 2 ∷ [])
    ∷ signed_at 23 (5 ∷ 2 ∷ [])
    ∷ []

abbrev signers_sample : List KeyIdentifier
signers_sample = key_of 21 ∷ key_of 22 ∷ key_of 23 ∷ []

two_suffice :
    verify_signatures crypto_sample signers_sample (proof_sample 2) signatures_sample 2 ≡ ok tt
unfolding verify_signatures taple_core.Models.Signatures.verify taple_core.Prelude.list_beq
    taple_core.Identifier.Keys.key_identifier_beq taple_core.Identifier.Derivators.key_derivator_beq
two_suffice = refl

-- A signature with an empty key, which is no public key, ends the loop.
one_panics :
    verify_signatures crypto_sample signers_sample
      (proof_sample 2)
      (record (signed_at 21 (5 ∷ 2 ∷ [])) { signer = record (key_of 21) { public_key = [] } }
        ∷ signatures_sample)
      2
    ≡ err panic
unfolding verify_signatures taple_core.Models.Signatures.verify
one_panics = refl

verify_signatures_iff_example :
    (verify_signatures crypto_sample signers_sample (proof_sample 2) signatures_sample 2 ≡ ok tt)
    ↔ (Answered crypto_sample signers_sample (proof_sample 2) signatures_sample
        × (voters : List KeyIdentifier) × IsDistinct voters
        × All (IsVoter crypto_sample signers_sample (proof_sample 2) signatures_sample) voters
        × (2 ≤ length voters))
verify_signatures_iff_example =
    verify_signatures_iff crypto_sample signers_sample (proof_sample 2) signatures_sample 2

check_validation_proof_iff_example :
    (check_validation_proof function_collection base64_sample ledger_codecs crypto_sample
        (record (proof_sample 2) { prev_event_hash = digest_of 1 })
        (subject_sample 1)
        (digest_of 3)
        (key_of 11)
        old_state.store
      ≡ ok tt)
    ↔ ((hash : DigestIdentifier) × (last_event_hash function_collection base64_sample ledger_codecs
            crypto_sample
            (get_event function_collection base64_sample ledger_codecs
              (digest_of 1)
              1
              old_state.store)
            (subject_sample 1)
            (record (proof_sample 2) { prev_event_hash = digest_of 1 })
          ≡ ok hash)
        × IsNextProof
            (record (proof_sample 2) { prev_event_hash = digest_of 1 })
            (subject_sample 1)
            hash
            (digest_of 3)
            (key_of 11))
check_validation_proof_iff_example =
    check_validation_proof_iff function_collection base64_sample ledger_codecs crypto_sample
      (record (proof_sample 2) { prev_event_hash = digest_of 1 }) (subject_sample 1) (digest_of 3)
      (key_of 11) old_state.store

event_codec-IsCodec : IsCodec ledger_codecs.event
event_codec-IsCodec = record {
  deserialize-serialize = λ e bytes h. elim (Bool-cases (is_second e)) [
    | inl same ↦
        let one : some (2 ∷ []) ≡ some bytes = ground (arith, h, same) in
        let code : 2 ∷ [] ≡ bytes = cc one in
        ap read_event (sym code) ∙ ap some (sym (is_second→eq e same))
    | inr other ↦ absurd (ground (arith, h, other))
  ];
}

instance abbrev signed_borsh : Borsh (Signed EventRequest)
signed_borsh = record { try_to_vec = λ _. some (9 ∷ []) }

-- A governance, with the channel of the distribution open.
abbrev around_sample : Surroundings
around_sample = record {
  is_governance = λ _. ok true;
  governance_updated = λ _ _. ok tt;
  distribution_open = true;
}

validated :
    (event_validated function_collection base64_sample ledger_codecs crypto_sample json_sample
      (key_of 5)
      around_sample
      second_event
      (signatures_sample, proof_sample 2)
      old_state).0
    ≡ ok tt
unfolding event_validated taple_core.Prelude.Actions.◌>>=◌ taple_core.Prelude.Actions.read
    taple_core.Prelude.Actions.pure get_event taple_core.Database.Collections.get_at
    taple_core.Database.Collections.set_at taple_core.Database.Keys.get_key
    taple_core.Prelude.list_beq taple_core.Identifier.Digests.to_str
    taple_core.Database.Keys.get_u64_as_hexadecimal taple_core.Models.Crypto.from_serializable_borsh
    taple_core.Identifier.Digests.digest_identifier_beq
    taple_core.Identifier.Derivators.digest_derivator_beq get_subject
    taple_core.Database.Layers.set_subject taple_core.Identifier.Keys.key_identifier_beq
    taple_core.Identifier.Derivators.key_derivator_beq taple_core.Ledger.Validated.find_known
    taple_core.Ledger.Validated.is_gov taple_core.Ledger.Validated.after_event
    taple_core.Ledger.Validated.after_fact taple_core.Ledger.Validated.set_finished_request
    taple_core.Ledger.Validated.keep_event taple_core.Ledger.Validated.apply_validated
    taple_core.Ledger.Validated.record_validated taple_core.Ledger.Validated.upgraded
    taple_core.Ledger.Validated.distribute taple_core.Ledger.Validated.upgrade
    taple_core.Database.Layers.set_signatures taple_core.Database.Layers.total_signatures
    taple_core.Database.Layers.set_request taple_core.Database.Layers.set_event
    taple_core.Models.Requests.try_from taple_core.Models.Crypto.generate_with_blake3
    taple_core.Models.Signatures.signature_beq taple_core.Models.Crypto.signature_derivator_beq
validated = refl

event_validated-IsRecorded_example :
    Outcome
      (λ _ t.
        IsRecorded function_collection function_collection-IsCollection base64_sample ledger_codecs
          subject_codec-IsCodec event_codec-IsCodec crypto_sample json_sample
          (key_of 5)
          second_event.content.event_request.content
          (digest_of 1)
          second_event
          old_state.store
          t.store)
      (λ _ _. Unit)
      (event_validated function_collection base64_sample ledger_codecs crypto_sample json_sample
        (key_of 5)
        around_sample
        second_event
        (signatures_sample, proof_sample 2)
        old_state)
event_validated-IsRecorded_example =
    event_validated-IsRecorded function_collection function_collection-IsCollection base64_sample
      ledger_codecs subject_codec-IsCodec event_codec-IsCodec crypto_sample json_sample (key_of 5)
      around_sample second_event (signatures_sample, proof_sample 2) old_state
