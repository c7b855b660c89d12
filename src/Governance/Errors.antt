-- ===== src/Governance/Errors.antt =====
-- governance/error.rs
use taple_core.Prelude.{ℕ, String, Str}
use taple_core.Models.Errors.{SubjectError, ChannelErrors, DbError}

pub data RequestError : Type 0 where
  database_error : DbError → RequestError
  subject_error : SubjectError → RequestError
  governance_not_found : Str → RequestError
  subject_not_found : RequestError
  schema_not_found : Str → RequestError
  json_compile_error : RequestError
  error_parsing_json_string invalid_key_identifier invalid_name : Str → RequestError
  unexpected_response channel_closed : RequestError
  governance_version_too_high : Str → ℕ → RequestError
  invalid_request_type schema_not_found_in_policies invalid_governance_id : RequestError
  unexpected_payload_type : RequestError
  searching_signers_quorum_in_wrong_stage searching_invoke_info_in_wrong_stage : Str → RequestError

pub data InternalError : Type 0 where
  channel_error : ChannelErrors → InternalError
  oneshot_closed deserialization_error : InternalError
  invalid_governance_payload : String → InternalError
  database_error : DbError → InternalError
  base64_decoding_error : InternalError
