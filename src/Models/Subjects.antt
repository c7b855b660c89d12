-- ===== src/Models/Subjects.antt =====
-- state.rs: a subject, and how events change it. A method that mutates `&mut self` returns the new
-- subject; where it returns an error the subject is as it was.
use taple_core.Prelude.{
  ℕ, Bool, true, false, Option, Str, ◌==◌, Result, ok, err, ok_or, map_err, ◌>>=◌,
}
use taple_core.Identifier.{DigestDerivator, Base64}
use taple_core.Identifier.Digests.{DigestIdentifier}
use taple_core.Identifier.Digests
use taple_core.Identifier.Keys.{KeyIdentifier, key_identifier_eq}
use taple_core.Identifier.Keys
use taple_core.Models.Values.{Value, Json}
use taple_core.Models.Errors.{
  SubjectError, not_create_event, error_parsing_json_string, error_applying_patch, crypto_error,
  error_creating_subject_id,
}
use taple_core.Models.Crypto.{Borsh, Crypto, KeyPair, from_serializable_borsh}
use taple_core.Models.Signatures.{Signed}
use taple_core.Models.Requests.{StartRequest, create, fact, transfer, eol}
use taple_core.Models.Evaluations.{SubjectContext}
use taple_core.Models.Events.{Event}

pub record Subject : Type 0 where
  pub keys : Option KeyPair
  pub subject_id : DigestIdentifier
  pub governance_id : DigestIdentifier
  pub sn : ℕ
  pub genesis_gov_version : ℕ
  pub public_key : KeyIdentifier
  pub namespace : Str
  pub name : Str
  pub schema_id : Str
  pub owner : KeyIdentifier
  pub creator : KeyIdentifier
  pub properties : Value
  pub active : Bool

-- `Subject::get_subject_context`
unfoldable pub get_subject_context : Subject → KeyIdentifier → SubjectContext
get_subject_context s invoker = record {
  governance_id = s.governance_id;
  schema_id = s.schema_id;
  is_owner = invoker == s.owner;
  state = s.properties;
  namespace = s.namespace;
}

-- What the identifier of a subject is the hash of.
abbrev pub IdContents : Type 0
IdContents = Str × Str × Str × Str × ℕ

module _ (crypto : Crypto) ⦃borsh : Borsh IdContents⦄ where
  -- `generate_subject_id`
  unfoldable pub generate_subject_id :
      Str → Str → Str → Str → ℕ → DigestDerivator → Result DigestIdentifier SubjectError
  unfolding from_serializable_borsh
  generate_subject_id namespace schema_id public_key governance_id governance_version d =
      map_err (λ _. error_creating_subject_id)
        (from_serializable_borsh crypto {A = IdContents}
          (namespace, schema_id, public_key, governance_id, governance_version) d)

  -- The identifier that a create request gives to its subject.
  unfoldable pub created_subject_id :
      Base64 → StartRequest → ℕ → DigestDerivator → Result DigestIdentifier SubjectError
  unfolding generate_subject_id
  created_subject_id base64 r gov_version d =
      generate_subject_id r.namespace r.schema_id (Keys.to_str base64 r.public_key)
        (Digests.to_str base64 r.governance_id) gov_version d

  -- The body of `from_genesis_event` behind its let-else.
  subject_of_create :
      Base64
      → StartRequest
      → Signed Event
      → Value
      → Option KeyPair
      → DigestDerivator
      → Result Subject SubjectError
  subject_of_create base64 r event init_state keys d = do
    subject_id ← created_subject_id base64 r event.content.gov_version d
    ok (record {
      keys = keys;
      subject_id = subject_id;
      governance_id = r.governance_id;
      sn = 0;
      genesis_gov_version = event.content.gov_version;
      public_key = r.public_key;
      namespace = r.namespace;
      name = r.name;
      schema_id = r.schema_id;
      owner = event.content.event_request.signature.signer;
      creator = event.content.event_request.signature.signer;
      properties = init_state;
      active = true;
    })

  -- `Subject::from_genesis_event`
  unfoldable pub from_genesis_event :
      Base64 → Signed Event → Value → Option KeyPair → DigestDerivator → Result Subject SubjectError
  unfolding subject_of_create
  from_genesis_event base64 event init_state keys d = elim event.content.event_request.content [
    | create r ↦ subject_of_create base64 r event init_state keys d
    | fact r ↦ err not_create_event
    | transfer r ↦ err not_create_event
    | eol r ↦ err not_create_event
  ]

module _ {Patch : Type 0} (json : Json Patch) where
  -- `Subject::update_subject`
  unfoldable pub update_subject : Subject → Value → ℕ → Result Subject SubjectError
  update_subject s json_patch new_sn = do
    patch ←
        ok_or (json.patch_of json_patch) (error_parsing_json_string "Json Patch conversion fails")
    properties ← ok_or (json.patch s.properties patch) (error_applying_patch "Error Applying Patch")
    ok (record s { properties = properties; sn = new_sn })

  -- `Subject::state_hash_after_apply`
  unfoldable pub state_hash_after_apply :
      (crypto : Crypto) ⦃borsh : Borsh Value⦄
      → Subject
      → Value
      → DigestDerivator
      → Result DigestIdentifier SubjectError
  unfolding from_serializable_borsh
  state_hash_after_apply crypto s json_patch d = do
    patch ← ok_or (json.patch_of json_patch) (crypto_error "Error parsing the json patch")
    properties ←
        ok_or (json.patch s.properties patch) (crypto_error "Error applying the json patch")
    map_err (λ _. crypto_error "Error calculating the hash of the state")
        (from_serializable_borsh crypto properties d)

-- `Subject::get_state_hash`
unfoldable pub get_state_hash :
    (crypto : Crypto) ⦃borsh : Borsh Value⦄
    → Subject
    → DigestDerivator
    → Result DigestIdentifier SubjectError
unfolding from_serializable_borsh
get_state_hash crypto s d =
    map_err (λ _. crypto_error "Error calculating the hash of the state")
      (from_serializable_borsh crypto s.properties d)

-- `Subject::transfer_subject`
unfoldable pub transfer_subject :
    Subject → KeyIdentifier → KeyIdentifier → Option KeyPair → ℕ → Subject
transfer_subject s owner public_key keys sn = record s {
  owner = owner;
  public_key = public_key;
  keys = keys;
  sn = sn;
}

-- `Subject::eol_event`
unfoldable pub eol_event : Subject → Subject
eol_event s = record s { active = false }
