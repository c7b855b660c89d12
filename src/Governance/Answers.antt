-- ===== src/Governance/Answers.antt =====
-- The answers of `InnerGovernance` (governance/inner_governance.rs), and the matches that its
-- operations make on results. The outer error of an answer is one that stops the component, or a
-- panic; the inner one goes to who asked.
use taple_core.Prelude.{
  ℕ, Option, List, [], ◌∷◌, Str, nat_eq, list_eq, is_empty, if◌then◌else◌, Result, ok, err, Fault,
  raise, panic,
}
use taple_core.Identifier.{Bytes}
use taple_core.Identifier.Digests.{DigestIdentifier}
use taple_core.Identifier.Keys.{KeyIdentifier}
use taple_core.Models.Values.{Value}
use taple_core.Models.Subjects.{Subject}
use taple_core.Governance.Stages.{stage_eq}
use taple_core.Governance.Errors.{RequestError, InternalError}
use taple_core.Governance.Policies.{Quorum, Role}

abbrev pub Answer : Type 0 → Type 0
Answer A = Result (Result A RequestError) (Fault InternalError)

-- What the operations call of serde, of base64 and of floats: reading roles, a quorum and the text
-- of a contract from JSON, decoding base64 and UTF-8, and the ceiling of a part of a number, as a
-- `u32`.
pub record Decoders (F : Type 0) : Type 0 where
  pub roles_of : Value → Option (List Role)
  pub quorum_of : Value → Option (Quorum F)
  pub raw_of : Value → Option Str
  pub decode : Str → Option Bytes
  pub from_utf8 : Bytes → Option Str
  pub ceil_part : ℕ → F → ℕ

-- The match that each operation makes on the result of event sourcing.
abbrev pub with_governance :
    {A : Type 0} → Result Subject RequestError → (Subject → Answer A) → Answer A
with_governance (ok governance) f = f governance
with_governance (err (RequestError.database_error e)) f =
    err (raise (InternalError.database_error e))
with_governance (err e) f = ok (err e)

-- A result of the role loops as an answer.
abbrev pub answer : {A : Type 0} → Result A (Fault RequestError) → Answer A
answer (ok a) = ok (ok a)
answer (err (raise e)) = ok (err e)
answer (err panic) = err panic

-- The governance of a subject: its own identifier, where the subject is a governance.
unfoldable pub governance_of : DigestIdentifier → DigestIdentifier → DigestIdentifier
governance_of governance_id subject_id =
    if is_empty governance_id.digest then subject_id else governance_id

-- The match on an inner result, whose error is handed on.
abbrev pub and_then : {A B : Type 0} → Result A RequestError → (A → Answer B) → Answer B
and_then (ok a) f = f a
and_then (err e) f = ok (err e)

-- The owner stands in where no role names a signer.
abbrev pub or_owner : KeyIdentifier → List KeyIdentifier → List KeyIdentifier
or_owner owner [] = owner ∷ []
or_owner owner (k ∷ ks) = k ∷ ks

-- The match on the result of the search.
abbrev pub with_owner :
    KeyIdentifier → Result (List KeyIdentifier) RequestError → Answer (List KeyIdentifier)
with_owner owner (ok ks) = ok (ok (or_owner owner ks))
with_owner owner (err e) = ok (err e)
