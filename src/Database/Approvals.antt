-- ===== src/Database/Approvals.antt =====
-- database/layers/approvals.rs: the approvals, the index of those that are pending, and the indexes
-- of the approvals by subject and by governance.
pub mod Frames
use taple_core.Prelude.{
  Bool, true, false, List, [], ◌∷◌, ◌++◌, Str, text, nat_eq, list_eq, ◌==◌, if◌then◌else◌, Result,
  ok, err, ok_or,
}
use taple_core.Prelude.Actions.{Action, pure, fail, read, write, for_each, ◌>>=◌}
use taple_core.Identifier.{Base64, Bytes}
use taple_core.Identifier.Digests.{DigestIdentifier}
use taple_core.Identifier.Digests
use taple_core.Models.Errors.{DbError, serialize_error, entry_not_found}
use taple_core.Models.Approvals.{ApprovalState, pending, approval_state_eq, ApprovalEntity}
use taple_core.Database.Keys.{Element, s, get_key}
use taple_core.Database.Collections.{DatabaseCollection, Codec, del_at, get_at, set_at}

-- What the layer writes: approvals, and their identifiers in the indexes.
pub record Codecs : Type 0 where
  pub approval : Codec ApprovalEntity
  pub digest : Codec DigestIdentifier

module _ {S : Type 0} (c : DatabaseCollection S) (base64 : Base64) (codecs : Codecs) where
  -- The elements of the keys: of an approval, and of an entry of each index.
  abbrev pub approval_key : DigestIdentifier → List Element
  approval_key id = s (text "approvals") ∷ s (Digests.to_str base64 id) ∷ []

  abbrev pub pending_key : DigestIdentifier → List Element
  pending_key id = s (text "pending-approval-index") ∷ s (Digests.to_str base64 id) ∷ []

  abbrev pub subject_key : DigestIdentifier → DigestIdentifier → List Element
  subject_key subject_id id =
      s (text "subjindex-approval-index")
      ∷ s (Digests.to_str base64 subject_id)
      ∷ s (Digests.to_str base64 id)
      ∷ []

  abbrev pub governance_key : DigestIdentifier → DigestIdentifier → List Element
  governance_key governance_id id =
      s (text "governance-approval-index")
      ∷ s (Digests.to_str base64 governance_id)
      ∷ s (Digests.to_str base64 id)
      ∷ []

  unfoldable pub set_subject_approval_index :
      DigestIdentifier → DigestIdentifier → Action S DbError Unit
  set_subject_approval_index subject_id request_id =
      write (set_at c codecs.digest (subject_key subject_id request_id) request_id)

  unfoldable pub del_subject_approval_index :
      DigestIdentifier → DigestIdentifier → Action S DbError Unit
  del_subject_approval_index subject_id request_id =
      write (del_at c (subject_key subject_id request_id))

  unfoldable pub set_governance_approval_index :
      DigestIdentifier → DigestIdentifier → Action S DbError Unit
  set_governance_approval_index governance_id request_id =
      write (set_at c codecs.digest (governance_key governance_id request_id) request_id)

  unfoldable pub del_governance_approval_index :
      DigestIdentifier → DigestIdentifier → Action S DbError Unit
  del_governance_approval_index governance_id request_id =
      write (del_at c (governance_key governance_id request_id))

  unfoldable pub get_approval : DigestIdentifier → S → Result ApprovalEntity DbError
  get_approval request_id = get_at c codecs.approval (approval_key request_id)

  unfoldable pub del_approval : DigestIdentifier → Action S DbError Unit
  del_approval request_id = write (del_at c (approval_key request_id))

  -- The index of the pending approvals, ahead of the write of an approval.
  unfoldable pub set_pending : DigestIdentifier → ApprovalEntity → Action S DbError Unit
  set_pending request_id approval =
      if approval.state == pending
      then write (set_at c codecs.digest (pending_key request_id) request_id)
      else write (del_at c (pending_key request_id))

  -- The approval is serialized first, so that an error of that leaves the index alone.
  unfoldable pub set_approval : DigestIdentifier → ApprovalEntity → Action S DbError Unit
  set_approval request_id approval = do
    _ ← read (λ _. ok_or (codecs.approval.serialize approval) serialize_error)
    _ ← set_pending request_id approval
    write (set_at c codecs.approval (approval_key request_id) approval)

  -- What a loop over an index finds for an entry: a pending approval to return, or an entry to
  -- delete.
  unfoldable pub classify :
      Result ApprovalEntity DbError
      → DigestIdentifier
      → List DigestIdentifier × List DigestIdentifier
      → Result (List DigestIdentifier × List DigestIdentifier) DbError
  classify (ok approval) id (result, to_delete) = ok (
      if approval.state == pending
      then (result ++ id ∷ [], to_delete)
      else (result, to_delete ++ id ∷ []))
  classify (err entry_not_found) id (result, to_delete) = ok (result, to_delete ++ id ∷ [])
  classify (err e) id lists = err e

  -- The first loop of `get_approvals_by_governance` and of `get_approvals_by_subject`.
  unfoldable pub sift :
      List (Str × Bytes)
      → List DigestIdentifier × List DigestIdentifier
      → Action S DbError (List DigestIdentifier × List DigestIdentifier)
  unfolding get_approval classify
  sift [] lists = pure lists
  sift ((_, bytes) ∷ items) lists = do
    request_id ← read (λ _. ok_or (codecs.digest.deserialize bytes) serialize_error)
    next ← read (λ store. classify (get_approval request_id store) request_id lists)
    sift items next

  -- Both functions, by the elements of the index: the entries whose approval is pending; the others
  -- are deleted.
  unfoldable pub get_indexed :
      List Element → (DigestIdentifier → List Element) → Action S DbError (List DigestIdentifier)
  unfolding sift
  get_indexed elements entry = do
    key ← read (λ _. get_key elements)
    items ← read (λ store. ok (c.iter store false key))
    (result, to_delete) ← sift items ([], [])
    _ ← for_each (λ id. write (del_at c (entry id))) to_delete
    pure result

  unfoldable pub get_approvals_by_governance :
      DigestIdentifier → Action S DbError (List DigestIdentifier)
  unfolding get_indexed
  get_approvals_by_governance governance_id =
      get_indexed
        (s (text "governance-approval-index") ∷ s (Digests.to_str base64 governance_id) ∷ [])
        (governance_key governance_id)

  unfoldable pub get_approvals_by_subject :
      DigestIdentifier → Action S DbError (List DigestIdentifier)
  unfolding get_indexed
  get_approvals_by_subject subject_id =
      get_indexed (s (text "subjindex-approval-index") ∷ s (Digests.to_str base64 subject_id) ∷ [])
        (subject_key subject_id)
