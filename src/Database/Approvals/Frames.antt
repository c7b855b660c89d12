-- ===== src/Database/Approvals/Frames.antt =====
-- What the operations of the layer of approvals do to the approvals that `get_approval` gives.
use taple_core.Prelude.{
  ◌≡◌, refl, sym, ◌∙◌, Bool, true, false, Bool-cases, inl, inr, List, [], ◌∷◌, ◌++◌, Str, text,
  arith, nat_eq, list_eq, ◌==◌, All, if◌then◌else◌, Result, ok, err, ok_or,
}
use mathlib.Core.Path.{subst}
use taple_core.Prelude.Actions.{
  Action, write, read, for_each, Ensures, Ensures-write, Ensures-read, Ensures->>=, Ensures-pure,
  Ensures-weaker, Ensures-for_each,
}
use taple_core.Identifier.{Base64, Bytes}
use taple_core.Identifier.Digests.{DigestIdentifier}
use taple_core.Identifier.Digests
use taple_core.Models.Errors.{DbError, entry_not_found, serialize_error}
use taple_core.Models.Approvals.{ApprovalEntity, pending, approval_state_eq}
use taple_core.Database.Keys.{Element, join, get_key}
use taple_core.Database.Collections.{
  DatabaseCollection, IsCollection, Codec, IsCodec, set_at, del_at,
}
use taple_core.Database.Collections.Frames.{
  get_at-set_at, get_at-set_at_other, get_at-del_at_same, get_at-del_at_other,
}
use taple_core.Database.Approvals.{
  Codecs, approval_key, subject_key, governance_key, set_subject_approval_index,
  del_subject_approval_index, set_governance_approval_index, del_governance_approval_index,
  get_approval, set_pending, set_approval, del_approval, classify, sift, get_indexed,
  get_approvals_by_governance, get_approvals_by_subject,
}

-- Whether two identifiers are filed under one text.
abbrev pub same_text : Base64 → DigestIdentifier → DigestIdentifier → Bool
same_text base64 i j = Digests.to_str base64 i == Digests.to_str base64 j

module _ {S : Type 0} (c : DatabaseCollection S) (laws : IsCollection c) (base64 : Base64)
    (codecs : Codecs) where
  -- Both states hold the same approvals.
  abbrev pub SameApprovals : S → S → Type 0
  SameApprovals s t =
      (j : DigestIdentifier) → get_approval c base64 codecs j t ≡ get_approval c base64 codecs j s

  -- An action on the indexes.
  abbrev pub OnIndexes : {A : Type 0} → Action S DbError A → Type 0
  OnIndexes action =
      (s : S) → Ensures (SameApprovals s) action (λ _. SameApprovals s) (λ _. SameApprovals s)

  set_at-OnIndexes :
      {A : Type 0} (codec : Codec A) (e : Element) (es : List Element) (a : A)
      → ((j : DigestIdentifier)
          → (elim (approval_key c base64 codecs j) [ [] ↦ true | f ∷ fs ↦ join e es == join f fs ])
            ≡ false)
      → OnIndexes (write (set_at c codec (e ∷ es) a))
  unfolding get_approval
  set_at-OnIndexes codec e es a other s =
      Ensures-write (set_at c codec (e ∷ es) a)
        (λ t u same h j.
          get_at-set_at_other c laws codec codecs.approval e _ es _ a t u (other j) h ∙ same j)
        (λ t same _ _. same)

  del_at-OnIndexes :
      (e : Element) (es : List Element)
      → ((j : DigestIdentifier)
          → (elim (approval_key c base64 codecs j) [ [] ↦ true | f ∷ fs ↦ join e es == join f fs ])
            ≡ false)
      → OnIndexes (write (del_at c (e ∷ es)))
  unfolding get_approval
  del_at-OnIndexes e es other s =
      Ensures-write (del_at c (e ∷ es))
        (λ t u same h j.
          get_at-del_at_other c laws codecs.approval e _ es _ t u (other j) h ∙ same j)
        (λ t same _ _. same)

  pub set_subject_approval_index-OnIndexes :
      (i id : DigestIdentifier) → OnIndexes (set_subject_approval_index c base64 codecs i id)
  unfolding set_subject_approval_index taple_core.Prelude.list_beq join
  set_subject_approval_index-OnIndexes i id = set_at-OnIndexes codecs.digest _ _ id (λ j. refl)

  pub del_subject_approval_index-OnIndexes :
      (i id : DigestIdentifier) → OnIndexes (del_subject_approval_index c base64 codecs i id)
  unfolding del_subject_approval_index taple_core.Prelude.list_beq join
  del_subject_approval_index-OnIndexes i id = del_at-OnIndexes _ _ (λ j. refl)

  pub set_governance_approval_index-OnIndexes :
      (i id : DigestIdentifier) → OnIndexes (set_governance_approval_index c base64 codecs i id)
  unfolding set_governance_approval_index taple_core.Prelude.list_beq join
  set_governance_approval_index-OnIndexes i id = set_at-OnIndexes codecs.digest _ _ id (λ j. refl)

  pub del_governance_approval_index-OnIndexes :
      (i id : DigestIdentifier) → OnIndexes (del_governance_approval_index c base64 codecs i id)
  unfolding del_governance_approval_index taple_core.Prelude.list_beq join
  del_governance_approval_index-OnIndexes i id = del_at-OnIndexes _ _ (λ j. refl)

  pub set_pending-OnIndexes :
      (id : DigestIdentifier) (e : ApprovalEntity) → OnIndexes (set_pending c base64 codecs id e)
  unfolding set_pending taple_core.Prelude.list_beq join
  set_pending-OnIndexes id e = elim (Bool-cases (e.state == pending)) [
    | inl h ↦ rw h (set_at-OnIndexes codecs.digest _ _ id (λ j. refl))
    | inr h ↦ rw h (del_at-OnIndexes _ _ (λ j. refl))
  ]

  -- The identifier of an approval that is pending in the state.
  abbrev pub IsPendingIn : S → DigestIdentifier → Type 0
  IsPendingIn s id =
      (e : ApprovalEntity) × (get_approval c base64 codecs id s ≡ ok e)
      × ((e.state == pending) ≡ true)

  All-snoc :
      (P : DigestIdentifier → Type 0) (xs : List DigestIdentifier) (x : DigestIdentifier)
      → All P xs
      → P x
      → All P (xs ++ x ∷ [])
  All-snoc P [] x h p = (p, tt)
  All-snoc P (y ∷ xs) x h p = (h.0, All-snoc P xs x h.1 p)

  classify-IsPendingIn :
      (s : S) (id : DigestIdentifier) (lists next : List DigestIdentifier × List DigestIdentifier)
      (r : Result ApprovalEntity DbError)
      → r ≡ get_approval c base64 codecs id s
      → All (IsPendingIn s) lists.0
      → classify c base64 codecs r id lists ≡ ok next
      → All (IsPendingIn s) next.0
  unfolding classify
  classify-IsPendingIn s id (result, to_delete) next (ok e) read h k =
      elim (Bool-cases (e.state == pending)) [
        | inl same ↦
            let to_next : next.0 ≡ result ++ id ∷ [] = ground (arith, same, k) in
            subst (λ l. All (IsPendingIn s) l) (sym to_next)
              (All-snoc (IsPendingIn s) result id h (e, sym read, same))
        | inr other ↦
            let to_next : next.0 ≡ result = ground (arith, other, k) in
            subst (λ l. All (IsPendingIn s) l) (sym to_next) h
      ]
  classify-IsPendingIn s id (result, to_delete) next (err entry_not_found) read h k =
      let to_next : next.0 ≡ result = ground (arith, k) in
      subst (λ l. All (IsPendingIn s) l) (sym to_next) h
  classify-IsPendingIn s id (result, to_delete) next (err _) read h k = absurd (ground (arith, k))

  sift-IsPendingIn :
      (s : S) (items : List (Str × Bytes)) (lists : List DigestIdentifier × List DigestIdentifier)
      → All (IsPendingIn s) lists.0
      → Ensures
          (SameApprovals s)
          (sift c base64 codecs items lists)
          (λ out t. SameApprovals s t × All (IsPendingIn s) out.0)
          (λ _. SameApprovals s)
  unfolding sift
  sift-IsPendingIn s [] lists h = Ensures-pure lists (λ t same. (same, h))
  sift-IsPendingIn s ((_, bytes) ∷ items) lists h =
      Ensures->>= {R = λ id. SameApprovals s}
        (Ensures-read (λ _. ok_or (codecs.digest.deserialize bytes) serialize_error)
          (λ t same id _. same) (λ t same _ _. same))
        (λ id.
          Ensures->>= {R = λ next t. SameApprovals s t × All (IsPendingIn s) next.0}
            (Ensures-read
              (λ store. classify c base64 codecs (get_approval c base64 codecs id store) id lists)
              (λ t same next k. (same, classify-IsPendingIn s id lists next _ (same id) h k))
              (λ t same _ _. same))
            (λ next. record { outcome = λ t p. (sift-IsPendingIn s items next p.1).outcome t p.0 }))

  get_indexed-IsPendingIn :
      (elements : List Element) (entry : DigestIdentifier → List Element)
      → ((id : DigestIdentifier) → OnIndexes (write (del_at c (entry id))))
      → (s : S)
      → Ensures
          (SameApprovals s)
          (get_indexed c base64 codecs elements entry)
          (λ ids t. SameApprovals s t × All (IsPendingIn s) ids)
          (λ _. SameApprovals s)
  unfolding get_indexed
  get_indexed-IsPendingIn elements entry deletes s =
      Ensures->>= {R = λ _. SameApprovals s}
        (Ensures-read (λ _. get_key elements) (λ t same _ _. same) (λ t same _ _. same))
        (λ key.
          Ensures->>= {R = λ _. SameApprovals s}
            (Ensures-read (λ store. ok (c.iter store false key)) (λ t same _ _. same)
              (λ t same _ _. same))
            (λ items. Ensures->>= (sift-IsPendingIn s items ([], []) tt) (λ out.
              Ensures->>= {R = λ _ t. SameApprovals s t × All (IsPendingIn s) out.0}
                (delete_all out) (λ _. Ensures-pure out.0 (λ t p. p)))))
    where
      delete_each :
          (ids : List DigestIdentifier)
          → All
              (λ id.
                Ensures
                  (SameApprovals s)
                  (write (del_at c (entry id)))
                  (λ _. SameApprovals s)
                  (λ _. SameApprovals s))
              ids
      delete_each [] = tt
      delete_each (id ∷ ids) = (deletes id s, delete_each ids)

      delete_all :
          (out : List DigestIdentifier × List DigestIdentifier)
          → Ensures
              (λ t. SameApprovals s t × All (IsPendingIn s) out.0)
              (for_each (λ id. write (del_at c (entry id))) out.1)
              (λ _ t. SameApprovals s t × All (IsPendingIn s) out.0)
              (λ _. SameApprovals s)
      delete_all out = record {
        outcome = λ t p.
            (Ensures-weaker {R = λ _ u. SameApprovals s u × All (IsPendingIn s) out.0}
                (λ _ u same. (same, p.1)) (λ _ u same. same)
                (Ensures-for_each (λ id. write (del_at c (entry id))) out.1
                  (delete_each out.1))).outcome
              t p.0;
      }

  -- The approvals that an index names are pending, and stay as they are.
  pub get_approvals_by_governance-IsPendingIn :
      (i : DigestIdentifier) (s : S)
      → Ensures
          (SameApprovals s)
          (get_approvals_by_governance c base64 codecs i)
          (λ ids t. SameApprovals s t × All (IsPendingIn s) ids)
          (λ _. SameApprovals s)
  unfolding get_approvals_by_governance taple_core.Prelude.list_beq join
  get_approvals_by_governance-IsPendingIn i s =
      get_indexed-IsPendingIn _ (governance_key c base64 codecs i)
        (λ id. del_at-OnIndexes _ _ (λ j. refl)) s

  pub get_approvals_by_subject-IsPendingIn :
      (i : DigestIdentifier) (s : S)
      → Ensures
          (SameApprovals s)
          (get_approvals_by_subject c base64 codecs i)
          (λ ids t. SameApprovals s t × All (IsPendingIn s) ids)
          (λ _. SameApprovals s)
  unfolding get_approvals_by_subject taple_core.Prelude.list_beq join
  get_approvals_by_subject-IsPendingIn i s =
      get_indexed-IsPendingIn _ (subject_key c base64 codecs i)
        (λ id. del_at-OnIndexes _ _ (λ j. refl)) s

  same_text-join :
      (i j : DigestIdentifier)
      → (elim (approval_key c base64 codecs i) [
        | [] ↦ true
        | e ∷ es ↦ elim (approval_key c base64 codecs j) [
          | [] ↦ true
          | f ∷ fs ↦ join e es == join f fs
        ]
      ])
        ≡ same_text base64 i j
  unfolding taple_core.Prelude.list_beq join
  same_text-join i j = refl

  -- A deleted approval is not found, and no other one changes.
  pub del_approval-Ensures :
      (id : DigestIdentifier) (s : S)
      → Ensures
          (SameApprovals s)
          (del_approval c base64 codecs id)
          (λ _ t.
            (j : DigestIdentifier)
            → get_approval c base64 codecs j t ≡ (
                if same_text base64 id j
                then err entry_not_found
                else get_approval c base64 codecs j s))
          (λ _. SameApprovals s)
  unfolding del_approval get_approval
  del_approval-Ensures id s =
      Ensures-write (del_at c (approval_key c base64 codecs id))
        (λ t u same h j. elim (Bool-cases (same_text base64 id j)) [
          | inl one ↦
              rw one (
                get_at-del_at_same c laws codecs.approval _ _ _ _ t u (same_text-join id j ∙ one) h)
          | inr other ↦ rw other (
              get_at-del_at_other c laws codecs.approval _ _ _ _ t u (same_text-join id j ∙ other) h
              ∙ same j)
        ])
        (λ t same _ _. same)

  module _ (codec_laws : IsCodec codecs.approval) where
    -- An approval that is set is the one that is given, and no other one changes.
    pub set_approval-Ensures :
        (id : DigestIdentifier) (e : ApprovalEntity) (s : S)
        → Ensures
            (SameApprovals s)
            (set_approval c base64 codecs id e)
            (λ _ t.
              (j : DigestIdentifier)
              → get_approval c base64 codecs j t
                ≡ (if same_text base64 id j then ok e else get_approval c base64 codecs j s))
            (λ _. SameApprovals s)
    unfolding set_approval get_approval
    set_approval-Ensures id e s =
        Ensures->>= {R = λ _. SameApprovals s}
          (Ensures-read (λ _. ok_or (codecs.approval.serialize e) serialize_error)
            (λ t same _ _. same) (λ t same _ _. same))
          (λ _. Ensures->>= (set_pending-OnIndexes id e s) (λ _.
            Ensures-write (set_at c codecs.approval (approval_key c base64 codecs id) e)
              (λ t u same h j. elim (Bool-cases (same_text base64 id j)) [
                | inl one ↦ rw one (
                    get_at-set_at c laws codecs.approval codec_laws _ _ _ _ e t u
                      (same_text-join id j ∙ one) h)
                | inr other ↦ rw other (
                    get_at-set_at_other c laws codecs.approval codecs.approval _ _ _ _ e t u
                      (same_text-join id j ∙ other) h
                    ∙ same j)
              ])
              (λ t same _ _. same)))
