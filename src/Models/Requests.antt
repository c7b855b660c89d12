-- ===== src/Models/Requests.antt =====
-- request.rs
use taple_core.Prelude.{ℕ, Bool, true, false, Option, none, some, Str, Result, ok, map_err, ◌>>=◌}
use taple_core.Identifier.Digests.{DigestIdentifier}
use taple_core.Identifier.Keys.{KeyIdentifier}
use taple_core.Models.Values.{Value}
use taple_core.Models.Errors.{SubjectError, crypto_error}
use taple_core.Models.Crypto.{Borsh, Crypto, generate_with_blake3}
use taple_core.Models.Signatures.{Signed}

pub record StartRequest : Type 0 where
  pub governance_id : DigestIdentifier
  pub schema_id : Str
  pub namespace : Str
  pub name : Str
  pub public_key : KeyIdentifier

pub record FactRequest : Type 0 where
  pub subject_id : DigestIdentifier
  pub payload : Value

pub record TransferRequest : Type 0 where
  pub subject_id : DigestIdentifier
  pub public_key : KeyIdentifier

pub record EolRequest : Type 0 where
  pub subject_id : DigestIdentifier

pub data EventRequest : Type 0 where
  create : StartRequest → EventRequest
  fact : FactRequest → EventRequest
  transfer : TransferRequest → EventRequest
  eol : EolRequest → EventRequest

unfoldable pub requires_eval_appr : EventRequest → Bool
requires_eval_appr (fact r) = true
requires_eval_appr (create r) = false
requires_eval_appr (transfer r) = false
requires_eval_appr (eol r) = false

pub data RequestState : Type 0 where
  finished error processing : RequestState

pub record TapleRequest : Type 0 where
  pub id : DigestIdentifier
  pub subject_id : Option DigestIdentifier
  pub sn : Option ℕ
  pub event_request : Signed EventRequest
  pub state : RequestState
  pub success : Option Bool

-- The subject that a request names.
unfoldable pub request_subject : EventRequest → Option DigestIdentifier
request_subject (create r) = none
request_subject (fact r) = some r.subject_id
request_subject (transfer r) = some r.subject_id
request_subject (eol r) = some r.subject_id

-- `TryFrom<Signed<EventRequest>>` for `TapleRequest`
unfoldable pub try_from :
    (crypto : Crypto) ⦃borsh : Borsh (Signed EventRequest)⦄
    → Signed EventRequest
    → Result TapleRequest SubjectError
unfolding generate_with_blake3 request_subject
try_from crypto r = do
  id ← map_err (λ _. crypto_error "Error generation request hash") (generate_with_blake3 crypto r)
  ok (record {
    id = id;
    subject_id = request_subject r.content;
    sn = none;
    event_request = r;
    state = processing;
    success = none;
  })
