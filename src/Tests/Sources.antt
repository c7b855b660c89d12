-- ===== src/Tests/Sources.antt =====
-- A governance whose events are in the database, at version 3.
use taple_core.Prelude.{
  ℕ, zero, suc, ◌*◌, ◌^◌, ◌<◌, ◌≤◌, ◌≡◌, ◌↔◌, refl, Bool, true, false, Option, none, some, List, [],
  ◌∷◌, arith, Str, text, length, ◌==◌, Result, ok, err, leb, if◌then◌else◌,
}
use taple_core.Identifier.{Bytes, blake3_256}
use taple_core.Identifier.Digests.{DigestIdentifier, default}
use taple_core.Identifier.Keys.{KeyIdentifier}
use taple_core.Models.Values.{null}
use taple_core.Models.Errors.{DbError}
use taple_core.Models.Crypto.{Borsh}
use taple_core.Models.Signatures.{Signed}
use taple_core.Models.Requests.{EventRequest, create, fact}
use taple_core.Models.Events.{Event, Metadata}
use taple_core.Models.Subjects.{Subject, IdContents}
use taple_core.Governance.Stages.{ValidationStage, approve, witness, stage_eq}
use taple_core.Governance.Policies.{Quorum, majority}
use taple_core.Governance.Sourcing.{Repository, apply_event, governance_event_sourcing}
use taple_core.Governance.Sourcing.Versions.{sn-governance_event_sourcing}
use taple_core.Governance.Sourcing.Patches.{IsVersion, governance_event_sourcing_iff}
use taple_core.Governance.Answers.{Decoders, governance_of}
use taple_core.Governance.Inner.{signers_version, get_signers, quorum_size, get_quorum}
use taple_core.Governance.Inner.Signatories.{quorum_size-majority}
use taple_core.Governance.Inner.Quorums.{IsSizeOf, IsQuorumOf, get_quorum-IsSizeOf}
use taple_core.Tests.Samples.{crypto_sample, base64_sample, digest_of, key_of}
use taple_core.Tests.Models.{signed_at}
use taple_core.Tests.Governances.{json_sample, properties_sample, roles_sample}

instance abbrev id_borsh : Borsh IdContents
id_borsh = record { try_to_vec = λ c. some (c.4 ∷ c.0) }

abbrev governance_sample : Subject
governance_sample = record {
  keys = none;
  subject_id = digest_of 9;
  governance_id = default;
  sn = 3;
  genesis_gov_version = 0;
  public_key = key_of 9;
  namespace = [];
  name = text "gov";
  schema_id = text "governance";
  owner = key_of 9;
  creator = key_of 9;
  properties = properties_sample;
  active = true;
}

abbrev request_at : ℕ → EventRequest
request_at zero = create (record {
  governance_id = default;
  schema_id = text "governance";
  namespace = [];
  name = text "gov";
  public_key = key_of 9;
})
request_at (suc n) = fact (record { subject_id = digest_of 9; payload = null })

abbrev event_at : ℕ → Signed Event
event_at n = record {
  content = record {
    subject_id = digest_of 9;
    event_request = record { content = request_at n; signature = signed_at 9 [] };
    sn = n;
    gov_version = 0;
    patch = properties_sample;
    state_hash = digest_of 0;
    eval_success = true;
    appr_required = false;
    approved = true;
    hash_prev_event = digest_of 0;
    evaluators = [];
    approvers = [];
  };
  signature = signed_at 9 [];
}

abbrev repository_sample : Repository
repository_sample = record {
  get_subject = λ id. ok governance_sample;
  get_event = λ id n. if leb n 3 then ok (event_at n) else err DbError.entry_not_found;
}

-- The governance at version 2 is rebuilt from its events.
abbrev at_version : ℕ → Subject → Result Subject DbError
at_version n s = ok (record s { sn = n })

abbrev sourced_sample : Subject
sourced_sample = record {
  keys = none;
  subject_id = record { derivator = blake3_256; digest = 0 ∷ [] };
  governance_id = default;
  sn = 2;
  genesis_gov_version = 0;
  public_key = key_of 9;
  namespace = [];
  name = text "gov";
  schema_id = text "governance";
  owner = key_of 9;
  creator = key_of 9;
  properties = properties_sample;
  active = true;
}

sourced :
    governance_event_sourcing crypto_sample base64_sample json_sample repository_sample
      (digest_of 9)
      2
    ≡ ok sourced_sample
unfolding governance_event_sourcing taple_core.Governance.Sourcing.rebuild
    taple_core.Governance.Sourcing.genesis taple_core.Models.Subjects.from_genesis_event
    taple_core.Models.Subjects.created_subject_id taple_core.Governance.Sourcing.replay apply_event
    taple_core.Models.Subjects.update_subject
sourced = refl

sn-governance_event_sourcing_example : sourced_sample.sn ≡ 2
sn-governance_event_sourcing_example =
    sn-governance_event_sourcing crypto_sample base64_sample json_sample repository_sample
      (digest_of 9) 2 sourced_sample sourced

governance_event_sourcing_iff_example :
    (governance_event_sourcing crypto_sample base64_sample json_sample repository_sample
        (digest_of 9)
        2
      ≡ ok sourced_sample)
    ↔ IsVersion crypto_sample base64_sample json_sample repository_sample
        (digest_of 9)
        2
        sourced_sample
governance_event_sourcing_iff_example =
    governance_event_sourcing_iff crypto_sample base64_sample json_sample repository_sample
      (digest_of 9) 2 sourced_sample

abbrev decoders_sample : Decoders ℕ
decoders_sample = record {
  roles_of = λ v. some roles_sample;
  quorum_of = λ v. some majority;
  raw_of = λ v. none;
  decode = λ s. none;
  from_utf8 = λ b. none;
  ceil_part = λ n p. n;
}

-- A subject of that governance.
abbrev metadata_sample : Metadata
metadata_sample = record {
  namespace = text "a.b";
  subject_id = digest_of 1;
  governance_id = digest_of 9;
  governance_version = 2;
  schema_id = text "s";
}

quorum_size-majority_example :
    (5
      < 2
        * quorum_size crypto_sample base64_sample json_sample decoders_sample repository_sample
            majority 5)
    × (quorum_size crypto_sample base64_sample json_sample decoders_sample repository_sample
          majority 5
        ≤ 5)
quorum_size-majority_example =
    quorum_size-majority crypto_sample base64_sample json_sample decoders_sample repository_sample 5
      (omega arith) (omega arith)

quorum_answer :
    get_quorum crypto_sample base64_sample json_sample decoders_sample repository_sample
      metadata_sample approve
    ≡ ok (ok 1)
unfolding get_quorum governance_event_sourcing taple_core.Governance.Sourcing.rebuild
    taple_core.Governance.Sourcing.genesis taple_core.Models.Subjects.from_genesis_event
    taple_core.Models.Subjects.created_subject_id taple_core.Governance.Sourcing.replay apply_event
    taple_core.Models.Subjects.update_subject taple_core.Governance.Payload.get_as_array
    taple_core.Prelude.list_beq taple_core.Governance.Payload.get_schema_from_policies
    taple_core.Governance.Inner.quorum_in taple_core.Governance.Payload.get_quorum
    taple_core.Governance.Stages.to_str get_signers signers_version
    taple_core.Governance.Inner.signers_in governance_of quorum_size
    taple_core.Governance.Inner.read_roles taple_core.Governance.Namespaces.namespace_contiene
    taple_core.Governance.Payload.add_member
    taple_core.Governance.Payload.get_members_from_governance
    taple_core.Governance.Payload.read_member taple_core.Governance.Payload.read_members
    taple_core.Governance.Roles.get_signers_aux taple_core.Governance.Roles.member_of_id
    taple_core.Governance.Roles.member_of_name taple_core.Governance.Roles.role_applies
    taple_core.Governance.Roles.signers_step taple_core.Governance.Roles.who_step
    taple_core.Governance.Sourcing.get_governance_initial_state
    taple_core.Governance.Sourcing.subject_read_error taple_core.Governance.Stages.to_role
    taple_core.Identifier.Derivators.digest_code taple_core.Identifier.Derivators.key_code
    taple_core.Identifier.Derivators.key_code_len
    taple_core.Identifier.Derivators.key_derivative_len
    taple_core.Identifier.Derivators.key_derivator_beq
    taple_core.Identifier.Derivators.key_derivator_of
    taple_core.Identifier.Derivators.key_material_len taple_core.Identifier.Digests.to_str
    taple_core.Identifier.Keys.from_str taple_core.Identifier.Keys.key_identifier_beq
    taple_core.Identifier.Keys.to_str taple_core.Models.Crypto.from_serializable_borsh
    taple_core.Models.Subjects.generate_subject_id
quorum_answer = refl

get_quorum-IsSizeOf_example :
    ((approve == witness) ≡ false)
    × (governance : Subject) × (quorum : Quorum ℕ) × (keys : List KeyIdentifier)
    × (governance_event_sourcing crypto_sample base64_sample json_sample repository_sample
          (governance_of (digest_of 9) (digest_of 1))
          2
        ≡ ok governance)
    × IsQuorumOf crypto_sample base64_sample json_sample decoders_sample repository_sample
        metadata_sample approve governance quorum
    × (get_signers crypto_sample base64_sample json_sample decoders_sample repository_sample
          metadata_sample approve
        ≡ ok (ok keys))
    × IsSizeOf crypto_sample base64_sample json_sample decoders_sample repository_sample quorum
        (length keys)
        1
get_quorum-IsSizeOf_example =
    get_quorum-IsSizeOf crypto_sample base64_sample json_sample decoders_sample repository_sample
      metadata_sample approve 1 quorum_answer
