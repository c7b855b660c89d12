-- ===== src/Models/Events.antt =====
-- `Event` and `Metadata` of event.rs. A `HashSet` of signatures is a list, in the order in which it
-- is iterated.
use taple_core.Prelude.{ℕ, Bool, List, Str}
use taple_core.Identifier.Digests.{DigestIdentifier}
use taple_core.Models.Values.{Value}
use taple_core.Models.Signatures.{Signature, Signed}
use taple_core.Models.Requests.{EventRequest}

pub record Event : Type 0 where
  pub subject_id : DigestIdentifier
  pub event_request : Signed EventRequest
  pub sn : ℕ
  pub gov_version : ℕ
  pub patch : Value
  pub state_hash : DigestIdentifier
  pub eval_success : Bool
  pub appr_required : Bool
  pub approved : Bool
  pub hash_prev_event : DigestIdentifier
  pub evaluators : List Signature
  pub approvers : List Signature

pub record Metadata : Type 0 where
  pub namespace : Str
  pub subject_id : DigestIdentifier
  pub governance_id : DigestIdentifier
  pub governance_version : ℕ
  pub schema_id : Str
