-- ===== src/Approval/Evolution/Writes.antt =====
-- The writes of approval/inner_manager.rs as steps of the lifecycle of requests.
use mathlib.Core.Path.{subst}
use taple_core.Prelude.{
  ◌≡◌, refl, sym, ◌∙◌, true, false, Bool-cases, inl, inr, none, arith, eq_iff, nat_eq, list_eq,
  Result, ok, err,
}
use taple_core.Prelude.Actions.{Action, Ensures, Ensures-from, Ensures-weaker}
use taple_core.Identifier.{Base64}
use taple_core.Identifier.Digests.{DigestIdentifier}
use taple_core.Identifier.Digests
use taple_core.Models.Errors.{DbError, entry_not_found}
use taple_core.Models.Signatures.{Signed}
use taple_core.Models.Approvals.{ApprovalResponse, ApprovalEntity, pending}
use taple_core.Database.Collections.{DatabaseCollection, IsCollection, IsCodec}
use taple_core.Database.Approvals.{Codecs, get_approval, set_approval, del_approval}
use taple_core.Database.Approvals.Frames.{
  same_text, SameApprovals, OnIndexes, set_approval-Ensures, del_approval-Ensures,
}
use taple_core.Approval.Manager.{is_responded, voted}
use taple_core.Approval.Lifecycle.{
  Lifecycle, unchanged, received, responded, dropped, Lifecycle-trans, IsConsistent,
}

module _ {S : Type 0} (c : DatabaseCollection S) (laws : IsCollection c) (base64 : Base64)
    (codecs : Codecs) where
  -- Every request has gone through its lifecycle from the first store to the second.
  abbrev pub Evolves : S → S → Type 0
  Evolves old new =
      (j : DigestIdentifier)
      → Lifecycle base64 j (get_approval c base64 codecs j old) (get_approval c base64 codecs j new)

  -- Every request of the store is consistent.
  abbrev pub AreConsistent : S → Type 0
  AreConsistent s =
      (j : DigestIdentifier) (e : ApprovalEntity)
      → get_approval c base64 codecs j s ≡ ok e
      → IsConsistent base64 j e

  pub Evolves-same :
      (old s t : S) → Evolves old s → SameApprovals c laws base64 codecs s t → Evolves old t
  Evolves-same old s t h same j =
      subst (λ r. Lifecycle base64 j (get_approval c base64 codecs j old) r) (sym (same j)) (h j)

  pub same_text-get_approval :
      (i j : DigestIdentifier) (store : S)
      → same_text base64 i j ≡ true
      → get_approval c base64 codecs j store ≡ get_approval c base64 codecs i store
  unfolding get_approval
  same_text-get_approval i j store h =
      let texts : Digests.to_str base64 j ≡ Digests.to_str base64 i =
        sym ((eq_iff (Digests.to_str base64 i) (Digests.to_str base64 j)).0 h) in
      rw texts refl

  -- An action on the indexes, from a store that has evolved.
  pub Ensures-OnIndexes :
      {A : Type 0} {action : Action S DbError A} (P : S → Type 0)
      → ((s t : S) → P s → SameApprovals c laws base64 codecs s t → P t)
      → OnIndexes c laws base64 codecs action
      → Ensures P action (λ _. P) (λ _. P)
  Ensures-OnIndexes P keeps h =
      Ensures-from {R = SameApprovals c laws base64 codecs} (λ s j. refl)
        (λ s p. Ensures-weaker (λ _ t. keeps s t p) (λ _ t. keeps s t p) (h s))

  -- The store holds no request but those of the first one.
  abbrev pub HoldsOnly : S → S → Type 0
  HoldsOnly s t =
      (j : DigestIdentifier) (e : ApprovalEntity)
      → get_approval c base64 codecs j t ≡ ok e
      → get_approval c base64 codecs j s ≡ ok e

  module _ (old : S) where
    -- A pending request is dropped.
    pub del_approval-dropped :
        (first : S) (i : DigestIdentifier) (e : ApprovalEntity)
        → e.state ≡ pending
        → Ensures
            (λ s. Evolves old s × HoldsOnly first s × (get_approval c base64 codecs i s ≡ ok e))
            (del_approval c base64 codecs i)
            (λ _ t. Evolves old t × HoldsOnly first t)
            (λ _. Evolves old)
    del_approval-dropped first i e h =
        Ensures-from {R = SameApprovals c laws base64 codecs} (λ s j. refl)
          (λ s p.
            Ensures-weaker
              (λ _ t k. (
                λ j. elim (Bool-cases (same_text base64 i j)) [
                  | inl one ↦
                      let read : get_approval c base64 codecs j t ≡ err entry_not_found =
                        ground (arith, k j, one) in
                      let start : get_approval c base64 codecs j s ≡ ok e =
                        same_text-get_approval i j s one ∙ p.2 in
                      rw read (
                        dropped
                          (subst (λ r. Lifecycle base64 j (get_approval c base64 codecs j old) r)
                            start (p.0 j))
                          h)
                  | inr other ↦
                      let read : get_approval c base64 codecs j t
                          ≡ get_approval c base64 codecs j s =
                        ground (arith, k j, other) in
                      rw read (p.0 j)
                ],
                λ j held read. elim (Bool-cases (same_text base64 i j)) [
                  | inl one ↦ absurd (ground (arith, k j, one, read))
                  | inr other ↦ p.1 j held (ground (arith, k j, other, read))
                ],
              ))
              (λ _ t. Evolves-same old s t p.0) (del_approval-Ensures c laws base64 codecs i s))

  module _ (codec_laws : IsCodec codecs.approval) (old : S) where
    -- An approval that takes the place of `before`, as the lifecycle allows, under every identifier
    -- with the same text.
    set_approval-Evolves :
        (i : DigestIdentifier) (e : ApprovalEntity) (before : Result ApprovalEntity DbError)
        → ((j : DigestIdentifier) → same_text base64 i j ≡ true → Lifecycle base64 j before (ok e))
        → Ensures
            (λ s. Evolves old s × (get_approval c base64 codecs i s ≡ before))
            (set_approval c base64 codecs i e)
            (λ _ t. Evolves old t × (get_approval c base64 codecs i t ≡ ok e))
            (λ _. Evolves old)
    set_approval-Evolves i e before next =
        Ensures-from {R = SameApprovals c laws base64 codecs} (λ s j. refl)
          (λ s p.
            Ensures-weaker
              (λ _ t h. (
                λ j. elim (Bool-cases (same_text base64 i j)) [
                  | inl one ↦
                      let read : get_approval c base64 codecs j t ≡ ok e =
                        ground (arith, h j, one) in
                      let start : get_approval c base64 codecs j s ≡ before =
                        same_text-get_approval i j s one ∙ p.1 in
                      rw read (
                        Lifecycle-trans base64 j
                          (subst (λ r. Lifecycle base64 j (get_approval c base64 codecs j old) r)
                            start (p.0 j))
                          (next j one))
                  | inr other ↦
                      let read : get_approval c base64 codecs j t
                          ≡ get_approval c base64 codecs j s =
                        ground (arith, h j, other) in
                      rw read (p.0 j)
                ],
                ground (arith, h i, eq_iff (Digests.to_str base64 i) (Digests.to_str base64 i)),
              ))
              (λ _ t. Evolves-same old s t p.0)
              (set_approval-Ensures c laws base64 codecs codec_laws i e s))

    pub set_approval-received :
        (e : ApprovalEntity) (failure : DbError)
        → e.state ≡ pending
        → e.response ≡ none
        → Ensures
            (λ s. Evolves old s × (get_approval c base64 codecs e.id s ≡ err failure))
            (set_approval c base64 codecs e.id e)
            (λ _ t. Evolves old t × (get_approval c base64 codecs e.id t ≡ ok e))
            (λ _. Evolves old)
    set_approval-received e failure h k =
        set_approval-Evolves e.id e (err failure) (λ j same. received unchanged same h k)

    pub set_approval-responded :
        (e : ApprovalEntity) (v : Signed ApprovalResponse)
        → is_responded e.state ≡ false
        → Ensures
            (λ s. Evolves old s × (get_approval c base64 codecs v.content.appr_req_hash s ≡ ok e))
            (set_approval c base64 codecs v.content.appr_req_hash (voted v e))
            (λ _ t.
              Evolves old t
              × (get_approval c base64 codecs v.content.appr_req_hash t ≡ ok (voted v e)))
            (λ _. Evolves old)
    set_approval-responded e v h =
        set_approval-Evolves v.content.appr_req_hash (voted v e) (ok e)
          (λ j. responded v unchanged h)
