-- ===== src/Approval/Lifecycle.antt =====
-- What may become of a request for an approval: a specification of the manager's database
-- (approval/inner_manager.rs), for one request at a time.
use taple_core.Prelude.{
  if◌then◌else◌, ◌≡◌, refl, Bool, true, false, Option, none, some, arith, Result, ok, err,
}
use mathlib.Core.Path.{subst}
use taple_core.Identifier.{Base64}
use taple_core.Identifier.Digests.{DigestIdentifier}
use taple_core.Models.Errors.{DbError, entry_not_found}
use taple_core.Models.Signatures.{Signed}
use taple_core.Models.Approvals.{
  ApprovalResponse, ApprovalState, ApprovalEntity, pending, responded_accepted, responded_rejected,
  obsolete,
}
use taple_core.Database.Approvals.Frames.{same_text}
use taple_core.Approval.Manager.{is_responded, voted}

-- What reading the request `j` gives, from `r` on. A request that is not there is received without
-- a response; one without a response gets one, for itself; and one that is pending is dropped.
pub data Lifecycle (base64 : Base64) (j : DigestIdentifier) (r : Result ApprovalEntity DbError)
    : Result ApprovalEntity DbError → Type 0 where
  unchanged : Lifecycle base64 j r r
  received :
      {failure : DbError} {e : ApprovalEntity}
      → Lifecycle base64 j r (err failure)
      → same_text base64 e.id j ≡ true
      → e.state ≡ pending
      → e.response ≡ none
      → Lifecycle base64 j r (ok e)
  responded :
      {e : ApprovalEntity} (response : Signed ApprovalResponse)
      → Lifecycle base64 j r (ok e)
      → is_responded e.state ≡ false
      → same_text base64 response.content.appr_req_hash j ≡ true
      → Lifecycle base64 j r (ok (voted response e))
  dropped :
      {e : ApprovalEntity}
      → Lifecycle base64 j r (ok e)
      → e.state ≡ pending
      → Lifecycle base64 j r (err entry_not_found)

-- What a state says of the response: none of a pending request; of one with a response, the vote
-- that the state names, for this request. No request is obsolete.
abbrev pub ResponseMatches :
    Base64 → DigestIdentifier → ApprovalState → Option (Signed ApprovalResponse) → Type 0
ResponseMatches base64 j pending response = response ≡ none
ResponseMatches base64 j responded_accepted response =
    (v : Signed ApprovalResponse) × (response ≡ some v)
    × (v.content.approved ≡ true)
    × (same_text base64 v.content.appr_req_hash j ≡ true)
ResponseMatches base64 j responded_rejected response =
    (v : Signed ApprovalResponse) × (response ≡ some v)
    × (v.content.approved ≡ false)
    × (same_text base64 v.content.appr_req_hash j ≡ true)
ResponseMatches base64 j obsolete response = ⊥

-- The entry stands under its own identifier, and its response is the one that its state says.
abbrev pub IsConsistent : Base64 → DigestIdentifier → ApprovalEntity → Type 0
IsConsistent base64 j e =
    (same_text base64 e.id j ≡ true) × ResponseMatches base64 j e.state e.response

vote-ResponseMatches :
    (base64 : Base64) (j : DigestIdentifier) (v : Signed ApprovalResponse) (b : Bool)
    → v.content.approved ≡ b
    → same_text base64 v.content.appr_req_hash j ≡ true
    → ResponseMatches base64 j (if b then responded_accepted else responded_rejected) (some v)
vote-ResponseMatches base64 j v true h k = (v, refl, h, k)
vote-ResponseMatches base64 j v false h k = (v, refl, h, k)

module _ (base64 : Base64) (j : DigestIdentifier) {r : Result ApprovalEntity DbError} where
  pub Lifecycle-trans :
      {q p : Result ApprovalEntity DbError}
      → Lifecycle base64 j r q
      → Lifecycle base64 j q p
      → Lifecycle base64 j r p
  Lifecycle-trans l unchanged = l
  Lifecycle-trans l (received m i h k) = received (Lifecycle-trans l m) i h k
  Lifecycle-trans l (responded v m h k) = responded v (Lifecycle-trans l m) h k
  Lifecycle-trans l (dropped m h) = dropped (Lifecycle-trans l m) h

  -- A request with a response stays as it is.
  pub Lifecycle-responded :
      (e : ApprovalEntity) {q : Result ApprovalEntity DbError}
      → r ≡ ok e
      → is_responded e.state ≡ true
      → Lifecycle base64 j r q
      → q ≡ ok e
  Lifecycle-responded e start h unchanged = start
  Lifecycle-responded e start h (received m _ _ _) =
      absurd (ground (arith, Lifecycle-responded e start h m))
  Lifecycle-responded e start h (responded v m k _) =
      absurd (ground (arith, Lifecycle-responded e start h m, h, k))
  Lifecycle-responded e start h (dropped m k) =
      absurd (ground (arith, Lifecycle-responded e start h m, h, k))

  pub Lifecycle-IsConsistent :
      {q : Result ApprovalEntity DbError}
      → ((e : ApprovalEntity) → r ≡ ok e → IsConsistent base64 j e)
      → Lifecycle base64 j r q
      → (e : ApprovalEntity) → q ≡ ok e
      → IsConsistent base64 j e
  Lifecycle-IsConsistent start unchanged e h = start e h
  Lifecycle-IsConsistent start (received {e = new} m i h k) e read =
      let same : new ≡ e = cc read in subst (λ x. IsConsistent base64 j x) same (i, rw h k)
  Lifecycle-IsConsistent start (responded {e = old} v m h k) e read =
      let same : voted v old ≡ e = cc read in
      subst (λ x. IsConsistent base64 j x) same
        (
          (Lifecycle-IsConsistent start m old refl).0,
          vote-ResponseMatches base64 j v v.content.approved refl k,
        )
  Lifecycle-IsConsistent start (dropped m h) e read = absurd (ground (arith, read))
