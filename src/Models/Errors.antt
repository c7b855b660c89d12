-- ===== src/Models/Errors.antt =====
-- `SubjectError` and `ChannelErrors` of core/src/commons/errors.rs, and database/error.rs.
use taple_core.Prelude.{ℕ, String, Str}

pub data SubjectError : Type 0 where
  not_create_event not_state_event event_already_processing : SubjectError
  event_already_applied_not_found sn_not0 : SubjectError
  event_sourcing_not_in_order : ℕ → ℕ → SubjectError
  event_sourcing_hash_not_equal apply_in_empty_subject subject_not_found : SubjectError
  not_owner_of_subject event_content_serialization_failed : SubjectError
  subject_signature_failed subject_has_no_data delete_signatures_failed : SubjectError
  schema_validation_failed schema_does_not_compile : SubjectError
  crypto_error invalid_payload error_parsing_json_string : String → SubjectError
  error_applying_patch : String → SubjectError
  duplicated_schema_or_member policies_missing invalid_policies_id : SubjectError
  invalid_member_in_policies : SubjectError
  invalid_member_identifier : String → SubjectError
  invalid_use_of_json_patch approvers_are_not_validators : SubjectError
  error_creating_subject_id : SubjectError
  signature_creation_fails signature_verify_fails : String → SubjectError
  repeated_signature signers_error : String → SubjectError

pub data ChannelErrors : Type 0 where
  channel_closed full_queue : ChannelErrors

pub data DbError : Type 0 where
  entry_not_found serialize_error deserialize_error subject_apply_failed : DbError
  no_digest_identifier key_elements_error : DbError
  custom_error : Str → DbError
  non_existent_status : DbError
