-- ===== src/Ledger/Chain/Links.antt =====
-- The writes and the test of hashes of the event sourcing of ledger/ledger.rs.
use taple_core.Prelude.{
  ℕ, ◌≡◌, refl, sym, ap, ◌∙◌, Bool, true, false, Bool-cases, inl, inr, not, List, [], ◌∷◌, Option,
  none, some, arith, eq_iff, eq_refl, ◌==◌, nat_eq, list_eq, if◌then◌else◌, eqb, Result, ok, err,
  map_err, map_err-eq-ok, ok_or, >>=-eq-ok,
}
use taple_core.Prelude.Actions.{read, Ensures, Ensures-read}
use taple_core.Identifier.{Base64}
use taple_core.Identifier.Digests.{DigestIdentifier, digest_identifier_eq}
use taple_core.Identifier.Keys.{KeyIdentifier, key_identifier_eq}
use taple_core.Models.Crypto.{Borsh, Crypto, from_serializable_borsh}
use taple_core.Models.Signatures.{Signed}
use taple_core.Models.Subjects.{Subject}
use taple_core.Models.Events.{Event}
use taple_core.Database.Keys.{join}
use taple_core.Database.Collections.{DatabaseCollection, IsCollection, IsCodec}
use taple_core.Database.Collections.Frames.{get_at-set_at, get_at-set_at_other, get_at-del_at_other}
use taple_core.Database.Layers.{LayerCodecs, get_subject, set_subject, get_event, del_keys}
use taple_core.Ledger.Defs.{State, on_store, Ensures-on_store}
use taple_core.Ledger.Checks.{previous_sn, find_event, check_previous_hash}

module _ {S : Type 0} (c : DatabaseCollection S) (laws : IsCollection c) (base64 : Base64)
    (codecs : LayerCodecs) (subject_laws : IsCodec codecs.subject) where
  -- Both stores hold the same events.
  abbrev pub SameEvents : S → S → Type 0
  SameEvents s t =
      (j : DigestIdentifier) (k : ℕ)
      → get_event c base64 codecs j k t ≡ get_event c base64 codecs j k s

  -- The subject is what the store holds, and the events are those of the first store.
  abbrev pub Holds : S → DigestIdentifier → Subject → S → Type 0
  Holds old id subject t = (get_subject c base64 codecs id t ≡ ok subject) × SameEvents old t

  pub set_subject-Holds :
      (id : DigestIdentifier) (subject : Subject) (s t : S)
      → set_subject c base64 codecs id subject s ≡ ok t
      → Holds s id subject t
  unfolding set_subject get_subject get_event join taple_core.Prelude.list_beq
  set_subject-Holds id subject s t h = (
    get_at-set_at c laws codecs.subject subject_laws _ _ _ _ subject s t
        (ground (arith, eq_refl (taple_core.Identifier.Digests.to_str base64 id))) h,
    λ j k. get_at-set_at_other c laws codecs.subject codecs.event _ _ _ _ subject s t refl h,
  )

  pub del_keys-Holds :
      (id : DigestIdentifier) (subject : Subject) (public_key : KeyIdentifier) (old s t : S)
      → Holds old id subject s
      → del_keys c base64 codecs public_key s ≡ ok t
      → Holds old id subject t
  unfolding del_keys get_subject get_event join taple_core.Prelude.list_beq
  del_keys-Holds id subject public_key old s t p h = (
    get_at-del_at_other c laws codecs.subject _ _ _ _ s t refl h ∙ p.0,
    λ j k. get_at-del_at_other c laws codecs.event _ _ _ _ s t refl h ∙ p.1 j k,
  )

  module _ (crypto : Crypto) ⦃event_borsh : Borsh Event⦄ where
    -- The event ahead of `sn` is in the store, and its hash is the one that is given.
    abbrev pub IsLinked : DigestIdentifier → ℕ → DigestIdentifier → S → Type 0
    IsLinked id sn hash s =
        (previous : Signed Event) × (get_event c base64 codecs id (previous_sn sn) s ≡ ok previous)
        × (from_serializable_borsh crypto previous.content hash.derivator ≡ ok hash)

    pub check_previous_hash-IsLinked :
        (id : DigestIdentifier) (sn : ℕ) (hash : DigestIdentifier) (s : S)
        → check_previous_hash c base64 codecs crypto id sn hash s ≡ ok tt
        → IsLinked id sn hash s
    unfolding check_previous_hash find_event
    check_previous_hash-IsLinked id sn hash s h =
        let (previous, found, h₁) =
          >>=-eq-ok (find_event c base64 codecs id (previous_sn sn) s) _ h in
        let (made, hashed, h₂) =
          >>=-eq-ok (map_err _ (from_serializable_borsh crypto previous.content hash.derivator)) _
            h₁ in
        let same : hash ≡ made = ground (arith, h₂, eq_iff hash made) in
        (previous, map_err-eq-ok _ _ found, map_err-eq-ok _ _ hashed ∙ ap ok (sym same))

    -- What a step ensures of the subject that it gives, from the store `old`.
    abbrev pub Sourced :
        S
        → DigestIdentifier
        → ℕ
        → DigestIdentifier
        → (Subject → Type 0)
        → Subject
        → State S
        → Type 0
    Sourced old id sn hash P subject t =
        IsLinked id sn hash old × Holds old id subject t.store × P subject

    abbrev pub IsAt : S → State S → Type 0
    IsAt old s = s.store ≡ old

    pub check-IsLinked :
        (old : S) (id : DigestIdentifier) (sn : ℕ) (hash : DigestIdentifier)
        → Ensures
            (IsAt old)
            (read (λ s. check_previous_hash c base64 codecs crypto id sn hash s.store))
            (λ _ s. IsAt old s × IsLinked id sn hash old)
            (λ _ _. Unit)
    check-IsLinked old id sn hash =
        Ensures-read (λ s. check_previous_hash c base64 codecs crypto id sn hash s.store)
          (λ s p _ h. (p, check_previous_hash-IsLinked id sn hash old (rw p at h))) (λ s p _ _. tt)

    pub save-Sourced :
        (old : S) (id : DigestIdentifier) (sn : ℕ) (hash : DigestIdentifier) (P : Subject → Type 0)
        (next : Subject)
        → P next
        → Ensures
            (λ s. IsAt old s × IsLinked id sn hash old)
            (on_store (set_subject c base64 codecs id next))
            (λ _. Sourced old id sn hash P next)
            (λ _ _. Unit)
    save-Sourced old id sn hash P next fact_of =
        Ensures-on_store (set_subject c base64 codecs id next)
          (λ s t p h. (p.1, set_subject-Holds id next old t (rw p.0 at h), fact_of)) (λ s _ _. tt)
