-- ===== src/Tests/Approvals.antt =====
-- The manager of approvals at a request, a vote, and the in-memory store.
use taple_core.Prelude.{
  ℕ, ◌≡◌, refl, Bool, true, false, ◌&&◌, Option, none, some, List, [], ◌∷◌, arith, nat_eq, list_eq,
  ◌==◌, eqb, eq_iff, Bool-cases, inl, inr, if◌then◌else◌, Result, ok,
}
use taple_core.Prelude.Actions.{Outcome}
use taple_core.Identifier.{Bytes, ed25519, blake3_256}
use taple_core.Identifier.Digests.{DigestIdentifier, digest_identifier_eq}
use taple_core.Identifier.Keys.{KeyIdentifier, key_identifier_eq}
use taple_core.Models.Values.{Value, null}
use taple_core.Models.Crypto.{Borsh, Crypto, ed25519_sha512}
use taple_core.Models.Signatures.{TimeStamp, Signature, signature_eq, Signed}
use taple_core.Models.Requests.{EventRequest, fact}
use taple_core.Models.Subjects.{IdContents}
use taple_core.Models.Approvals.{
  ApprovalRequest, ApprovalResponse, ApprovalState, pending, responded_accepted, ApprovalEntity,
  approval_state_eq,
}
use taple_core.Database.Collections.{Codec, IsCodec}
use taple_core.Database.Collections.InMemory.{
  SortedStore, memory_collection, memory_collection-IsCollection,
}
use taple_core.Database.Approvals.{Codecs, get_approval}
use taple_core.Approval.Defs.{ApprovalManagerError, failed, normal, State, Config, Surroundings}
use taple_core.Approval.Manager.{is_responded, voted, generate_vote, process_approval_request}
use taple_core.Approval.Lifecycle.{Lifecycle}
use taple_core.Approval.Runs.{
  Call, request, vote, governance_updated, run, run-Lifecycle, run-responded, run-AreConsistent,
  generate_vote_lem,
}
use taple_core.Approval.Evolution.Writes.{AreConsistent}
use taple_core.Tests.Samples.{base64_sample, crypto_sample, key_of, digest_of}

-- Signatures by the key of a number.
abbrev signature_of : ℕ → Signature
signature_of n = record {
  signer = key_of n;
  timestamp = 0;
  content_hash = digest_of 1;
  value = record { derivator = ed25519_sha512; signature = n ∷ 1 ∷ [] };
}

abbrev request_sample : Signed ApprovalRequest
request_sample = record {
  content = record {
    event_request = record {
      content = fact (record { subject_id = digest_of 4; payload = null });
      signature = signature_of 6;
    };
    sn = 1;
    gov_version = 0;
    patch = null;
    state_hash = digest_of 2;
    hash_prev_event = digest_of 3;
    gov_id = digest_of 9;
  };
  signature = signature_of 6;
}

abbrev response_sample : Signed ApprovalResponse
response_sample = record {
  content = record { appr_req_hash = digest_of 7; approved = true };
  signature = signature_of 5;
}

abbrev entity_sample : ApprovalEntity
entity_sample = record {
  id = digest_of 7;
  request = request_sample;
  response = none;
  state = pending;
  sender = key_of 6;
}

abbrev is_null : Value → Bool
is_null null = true
is_null _ = false

is_null→eq : (v : Value) → is_null v ≡ true → v ≡ null
is_null→eq v h = ground (arith, h)

abbrev is_fact_sample : EventRequest → Bool
is_fact_sample (fact r) = r.subject_id == digest_of 4 && is_null r.payload
is_fact_sample _ = false

is_fact_sample→eq :
    (r : EventRequest) → is_fact_sample r ≡ true → r ≡ request_sample.content.event_request.content
is_fact_sample→eq (fact r) h =
    ground (arith, h, eq_iff r.subject_id (digest_of 4), is_null→eq r.payload)
is_fact_sample→eq _ h = absurd (ground (arith, h))

abbrev is_request_sample : Signed ApprovalRequest → Bool
is_request_sample r =
    is_fact_sample r.content.event_request.content
    && (r.content.event_request.signature == signature_of 6
        && (eqb r.content.sn 1
            && (eqb r.content.gov_version 0
                && (is_null r.content.patch
                    && (r.content.state_hash == digest_of 2
                        && (r.content.hash_prev_event == digest_of 3
                            && (r.content.gov_id == digest_of 9
                                && r.signature == signature_of 6)))))))

is_request_sample→eq :
    (r : Signed ApprovalRequest) → is_request_sample r ≡ true → r ≡ request_sample
is_request_sample→eq r h = ground (
  arith,
  h,
  is_fact_sample→eq r.content.event_request.content,
  eq_iff r.content.event_request.signature (signature_of 6),
  is_null→eq r.content.patch,
  eq_iff r.content.state_hash (digest_of 2),
  eq_iff r.content.hash_prev_event (digest_of 3),
  eq_iff r.content.gov_id (digest_of 9),
  eq_iff r.signature (signature_of 6),
)

abbrev is_response_sample : Option (Signed ApprovalResponse) → Bool
is_response_sample (some v) =
    v.content.appr_req_hash == digest_of 7 && (v.content.approved && v.signature == signature_of 5)
is_response_sample none = false

is_response_sample→eq :
    (v : Option (Signed ApprovalResponse)) → is_response_sample v ≡ true → v ≡ some response_sample
is_response_sample→eq (some v) h =
    ground
      (arith, h, eq_iff v.content.appr_req_hash (digest_of 7), eq_iff v.signature (signature_of 5))
is_response_sample→eq none h = absurd (ground (arith, h))

-- A codec that writes the request, pending or with the response.
abbrev code : ApprovalState → Option (Signed ApprovalResponse) → Option Bytes
code pending none = some (1 ∷ [])
code responded_accepted v = if is_response_sample v then some (2 ∷ []) else none
code _ _ = none

abbrev approval_codec : Codec ApprovalEntity
approval_codec = record {
  serialize = λ e.
      if e.id == digest_of 7 && (is_request_sample e.request && e.sender == key_of 6)
      then code e.state e.response
      else none;
  deserialize = λ bytes.
      if bytes == (1 ∷ [])
      then some entity_sample
      else if bytes == (2 ∷ [])
      then some (voted response_sample entity_sample)
      else none;
}

approval_codec-code :
    (e : ApprovalEntity) (state : ApprovalState) (v : Option (Signed ApprovalResponse))
    (bytes : Bytes)
    → e ≡ record entity_sample { state = state; response = v }
    → code state v ≡ some bytes
    → approval_codec.deserialize bytes ≡ some e
unfolding taple_core.Prelude.list_beq
approval_codec-code e pending none bytes h k = ground (arith, h, k)
approval_codec-code e pending (some v) bytes h k = absurd (ground (arith, k))
approval_codec-code e responded_accepted v bytes h k = elim (Bool-cases (is_response_sample v)) [
  | inl same ↦ ground (arith, h, k, is_response_sample→eq v same, same)
  | inr other ↦ absurd (ground (arith, k, other))
]
approval_codec-code e _ v bytes h k = absurd (ground (arith, k))

approval_codec-IsCodec : IsCodec approval_codec
approval_codec-IsCodec = record {
  deserialize-serialize = λ e bytes h.
      elim (Bool-cases
        (e.id == digest_of 7 && (is_request_sample e.request && e.sender == key_of 6))) [
          | inl same ↦
              let parts : (e.id ≡ digest_of 7)
                  × (e.request ≡ request_sample)
                  × (e.sender ≡ key_of 6) =
                ground (
                  arith,
                  same,
                  eq_iff e.id (digest_of 7),
                  is_request_sample→eq e.request,
                  eq_iff e.sender (key_of 6),
                ) in
              let same_entity : e
                  ≡ record entity_sample { state = e.state; response = e.response } =
                rw (parts.0, parts.1, parts.2) refl in
              approval_codec-code e e.state e.response bytes same_entity (ground (arith, h, same))
          | inr other ↦ absurd (ground (arith, h, other))
        ];
}

abbrev codecs_sample : Codecs
codecs_sample = record {
  approval = approval_codec;
  digest = record {
    serialize = λ id. some id.digest;
    deserialize = λ bytes. some (record { derivator = blake3_256; digest = bytes });
  };
}

instance abbrev id_borsh : Borsh IdContents
id_borsh = record { try_to_vec = λ _. none }

instance abbrev response_borsh : Borsh (ApprovalResponse × TimeStamp)
response_borsh = record { try_to_vec = λ _. some (1 ∷ []) }

instance abbrev request_borsh : Borsh ApprovalRequest
request_borsh = record { try_to_vec = λ _. some (7 ∷ []) }

abbrev config_sample : Config
config_sample = record {
  keys = record { derivator = ed25519; public_key = 5 ∷ []; secret_key = [] };
  own_identifier = key_of 5;
  pass_votation = normal;
  derivator = blake3_256;
}

abbrev around_sample : Surroundings
around_sample = record {
  gov_api = record {
    get_governance_version = λ _ _. ok 0;
    get_signers = λ _ _. ok [];
    get_quorum = λ _ _. ok 0;
  };
  now = 0;
}

abbrev empty_state : State SortedStore
empty_state = record { store = ([], tt); notified = [] }

abbrev pending_state : State SortedStore
pending_state =
    run memory_collection base64_sample codecs_sample crypto_sample config_sample
      (request around_sample request_sample (key_of 6) ∷ []) empty_state

abbrev voted_state : State SortedStore
voted_state =
    run memory_collection base64_sample codecs_sample crypto_sample config_sample
      (vote around_sample (digest_of 7) true ∷ []) pending_state

pending_state-get_approval :
    get_approval memory_collection base64_sample codecs_sample (digest_of 7) pending_state.store
    ≡ ok entity_sample
unfolding run get_approval taple_core.Database.Collections.get_at taple_core.Database.Keys.get_key
    taple_core.Database.Memory.get taple_core.Approval.Manager.process_approval_request
    taple_core.Prelude.Actions.◌>>=◌ taple_core.Prelude.Actions.read
    taple_core.Models.Crypto.generate_with_blake3 taple_core.Approval.Manager.subject_id_by_request
    taple_core.Database.Approvals.get_approvals_by_subject taple_core.Database.Iterators.items
    taple_core.Prelude.Actions.pure taple_core.Prelude.Actions.for_each
    taple_core.Approval.Manager.check_queue taple_core.Approval.Manager.get_governance_version
    taple_core.Approval.Manager.check_version
    taple_core.Database.Approvals.set_subject_approval_index
    taple_core.Approval.Manager.answer_known taple_core.Approval.Manager.cast
    taple_core.Approval.Manager.get_single_request taple_core.Approval.Manager.process_new
    taple_core.Approval.Manager.respond taple_core.Approval.Manager.save_request
    taple_core.Approval.Manager.vote_on taple_core.Approval.Runs.step
    taple_core.Database.Approvals.classify taple_core.Database.Approvals.del_subject_approval_index
    taple_core.Database.Approvals.del_governance_approval_index
    taple_core.Database.Approvals.set_approval
    taple_core.Database.Approvals.set_governance_approval_index
    taple_core.Database.Approvals.set_pending taple_core.Database.Approvals.sift
    taple_core.Database.Collections.del_at taple_core.Database.Collections.set_at
    taple_core.Database.Keys.join taple_core.Identifier.Digests.to_str
    taple_core.Models.Signatures.new_signature taple_core.Prelude.Actions.write
    taple_core.Prelude.list_beq taple_core.Identifier.Digests.digest_identifier_beq
    taple_core.Identifier.Derivators.digest_derivator_beq taple_core.Models.Signatures.signature_beq
    taple_core.Identifier.Keys.key_identifier_beq taple_core.Identifier.Derivators.key_derivator_beq
    taple_core.Models.Crypto.signature_derivator_beq taple_core.Database.Memory.put
pending_state-get_approval = refl

voted_state-get_approval :
    get_approval memory_collection base64_sample codecs_sample (digest_of 7) voted_state.store
    ≡ ok (voted response_sample entity_sample)
unfolding run get_approval generate_vote taple_core.Database.Collections.get_at
    taple_core.Database.Keys.get_key taple_core.Database.Memory.get
    taple_core.Approval.Manager.process_approval_request taple_core.Prelude.Actions.◌>>=◌
    taple_core.Prelude.Actions.read taple_core.Models.Crypto.generate_with_blake3
    taple_core.Approval.Manager.subject_id_by_request
    taple_core.Database.Approvals.get_approvals_by_subject taple_core.Database.Iterators.items
    taple_core.Prelude.Actions.pure taple_core.Prelude.Actions.for_each
    taple_core.Approval.Manager.check_queue taple_core.Approval.Manager.get_governance_version
    taple_core.Approval.Manager.check_version
    taple_core.Database.Approvals.set_subject_approval_index
    taple_core.Approval.Manager.answer_known taple_core.Approval.Manager.cast
    taple_core.Approval.Manager.get_single_request taple_core.Approval.Manager.process_new
    taple_core.Approval.Manager.respond taple_core.Approval.Manager.save_request
    taple_core.Approval.Manager.vote_on taple_core.Approval.Runs.step
    taple_core.Database.Approvals.classify taple_core.Database.Approvals.del_subject_approval_index
    taple_core.Database.Approvals.del_governance_approval_index
    taple_core.Database.Approvals.set_approval
    taple_core.Database.Approvals.set_governance_approval_index
    taple_core.Database.Approvals.set_pending taple_core.Database.Approvals.sift
    taple_core.Database.Collections.del_at taple_core.Database.Collections.set_at
    taple_core.Database.Keys.join taple_core.Identifier.Digests.to_str
    taple_core.Models.Signatures.new_signature taple_core.Prelude.Actions.write
    taple_core.Prelude.list_beq taple_core.Identifier.Digests.digest_identifier_beq
    taple_core.Identifier.Derivators.digest_derivator_beq taple_core.Models.Signatures.signature_beq
    taple_core.Identifier.Keys.key_identifier_beq taple_core.Identifier.Derivators.key_derivator_beq
    taple_core.Models.Crypto.signature_derivator_beq taple_core.Database.Memory.put
    taple_core.Database.Memory.del
voted_state-get_approval = refl

abbrev calls_sample : List Call
calls_sample =
    vote around_sample (digest_of 7) true
    ∷ governance_updated (digest_of 9)
    ∷ vote around_sample (digest_of 7) false
    ∷ []

run-Lifecycle_example :
    Lifecycle base64_sample
      (digest_of 7)
      (get_approval memory_collection base64_sample codecs_sample (digest_of 7) pending_state.store)
      (get_approval memory_collection base64_sample codecs_sample
        (digest_of 7)
        (run memory_collection base64_sample codecs_sample crypto_sample config_sample calls_sample
          pending_state).store)
run-Lifecycle_example =
    run-Lifecycle memory_collection base64_sample codecs_sample crypto_sample config_sample
      memory_collection-IsCollection approval_codec-IsCodec calls_sample pending_state (digest_of 7)

run-responded_example :
    get_approval memory_collection base64_sample codecs_sample
      (digest_of 7)
      (run memory_collection base64_sample codecs_sample crypto_sample config_sample calls_sample
        voted_state).store
    ≡ ok (voted response_sample entity_sample)
run-responded_example =
    run-responded memory_collection base64_sample codecs_sample crypto_sample config_sample
      memory_collection-IsCollection approval_codec-IsCodec calls_sample voted_state (digest_of 7)
      (voted response_sample entity_sample) voted_state-get_approval refl

empty_state-AreConsistent :
    AreConsistent memory_collection memory_collection-IsCollection base64_sample codecs_sample
      empty_state.store
unfolding get_approval taple_core.Database.Collections.get_at taple_core.Database.Keys.get_key
    taple_core.Database.Memory.get
empty_state-AreConsistent j e h = absurd (ground (arith, h))

run-AreConsistent_example :
    AreConsistent memory_collection memory_collection-IsCollection base64_sample codecs_sample
      (run memory_collection base64_sample codecs_sample crypto_sample config_sample
        (request around_sample request_sample (key_of 6) ∷ calls_sample)
        empty_state).store
run-AreConsistent_example =
    run-AreConsistent memory_collection base64_sample codecs_sample crypto_sample config_sample
      memory_collection-IsCollection approval_codec-IsCodec
      (request around_sample request_sample (key_of 6) ∷ calls_sample) empty_state
      empty_state-AreConsistent

generate_vote_lem_example :
    Outcome
      (λ out t.
        (signature : Signature) × (out.0
          ≡ voted
              (record {
                content = record { appr_req_hash = digest_of 7; approved = true };
                signature = signature;
              })
              entity_sample)
        × (out.1 ≡ key_of 6)
        × (get_approval memory_collection base64_sample codecs_sample (digest_of 7) t.store
            ≡ ok out.0))
      (λ failure t. (m : ApprovalManagerError) × (failure ≡ failed m))
      (generate_vote memory_collection base64_sample codecs_sample crypto_sample config_sample
        around_sample
        (digest_of 7)
        true
        pending_state)
generate_vote_lem_example =
    generate_vote_lem memory_collection base64_sample codecs_sample crypto_sample config_sample
      memory_collection-IsCollection approval_codec-IsCodec around_sample (digest_of 7) true
      pending_state entity_sample pending_state-get_approval refl
