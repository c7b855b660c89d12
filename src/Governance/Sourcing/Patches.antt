-- ===== src/Governance/Sourcing/Patches.antt =====
-- What event sourcing gives, told by the events of the database: the first one makes the governance,
-- and each one after it applies its patch and sets its number.
use taple_core.Prelude.{
  ℕ, zero, suc, ◌<◌, ◌≡◌, ◌↔◌, ◌⊎◌, inl, inr, refl, Bool-cases, Option-cases, arith, eqb, ltb, some,
  none, ok, map_err, map_err-eq-ok, >>=-eq-ok,
}
use mathlib.Core.Path.{subst}
use taple_core.Identifier.{Base64}
use taple_core.Identifier.Digests.{DigestIdentifier}
use taple_core.Models.Values.{Value, Json}
use taple_core.Models.Crypto.{Borsh, Crypto}
use taple_core.Models.Signatures.{Signed}
use taple_core.Models.Events.{Event}
use taple_core.Models.Subjects.{Subject, IdContents, from_genesis_event, update_subject}
use taple_core.Governance.Errors.{subject_error}
use taple_core.Governance.Sourcing.{
  Repository, get_governance_initial_state, apply_event, replay, genesis, rebuild,
  subject_read_error, governance_event_sourcing,
}

module _ (crypto : Crypto) ⦃borsh : Borsh IdContents⦄ (base64 : Base64) {Patch : Type 0}
    (json : Json Patch) (repo : Repository) where
  -- The governance that the events 0 to `n` make.
  pub data Sourced (id : DigestIdentifier) : ℕ → Subject → Type 0 where
    created :
        {s : Subject} (event : Signed Event)
        → repo.get_event id 0 ≡ ok event
        → from_genesis_event crypto base64 event get_governance_initial_state none id.derivator
          ≡ ok s
        → Sourced id 0 s
    patched :
        {n : ℕ} {s : Subject} (event : Signed Event) (patch : Patch) (properties : Value)
        → Sourced id n s
        → repo.get_event id (suc n) ≡ ok event
        → json.patch_of event.content.patch ≡ some patch
        → json.patch s.properties patch ≡ some properties
        → Sourced id (suc n) (record s { properties = properties; sn = suc n })

  -- The governance of a version: the one of the database, or an earlier one that its events make.
  abbrev pub IsVersion : DigestIdentifier → ℕ → Subject → Type 0
  IsVersion id version s =
      (current : Subject) × (repo.get_subject id ≡ ok current)
      × (((current.sn ≡ version) × (s ≡ current)) ⊎ ((version < current.sn) × Sourced id version s))

  update_subject-eq-ok :
      (s s' : Subject) (v : Value) (n : ℕ)
      → update_subject json s v n ≡ ok s'
      → (patch : Patch) × (properties : Value) × (json.patch_of v ≡ some patch)
        × (json.patch s.properties patch ≡ some properties)
        × (record s { properties = properties; sn = n } ≡ s')
  unfolding update_subject
  update_subject-eq-ok s s' v n h = elim (Option-cases (json.patch_of v)) [
    | inl none_made ↦ absurd (ground (arith, none_made, h))
    | inr (patch, made) ↦ elim (Option-cases (json.patch s.properties patch)) [
      | inl failed ↦ absurd (ground (arith, made, failed, h))
      | inr (properties, applied) ↦
          (patch, properties, made, applied, ground (arith, made, applied, h))
    ]
  ]

  genesis-Sourced :
      (id : DigestIdentifier) (s : Subject)
      → genesis crypto base64 json repo id ≡ ok s
      → Sourced id 0 s
  unfolding genesis
  genesis-Sourced id s h =
      let (event, read, made) = >>=-eq-ok (map_err _ (repo.get_event id 0)) _ h in
      created event (map_err-eq-ok _ (repo.get_event id 0) read)
        (map_err-eq-ok subject_error _ made)

  apply_event-Sourced :
      (id : DigestIdentifier) (n : ℕ) (s s' : Subject)
      → Sourced id n s
      → apply_event crypto base64 json repo id (suc n) s ≡ ok s'
      → Sourced id (suc n) s'
  unfolding apply_event
  apply_event-Sourced id n s s' before h =
      let (event, read, applied) = >>=-eq-ok (map_err _ (repo.get_event id (suc n))) _ h in
      let (patch, properties, made, done, same) =
        update_subject-eq-ok s s' event.content.patch (suc n)
          (map_err-eq-ok subject_error _ applied) in
      subst (Sourced id (suc n)) same (
        patched event patch properties before (map_err-eq-ok _ (repo.get_event id (suc n)) read)
          made done)

  replay-Sourced :
      (id : DigestIdentifier) (first : Subject) (n : ℕ) (s : Subject)
      → Sourced id 0 first
      → replay crypto base64 json repo id first n ≡ ok s
      → Sourced id n s
  unfolding replay
  replay-Sourced id first zero s start h = subst (Sourced id 0) (ground (arith, h)) start
  replay-Sourced id first (suc n) s start h =
      let (before, replayed, applied) = >>=-eq-ok (replay crypto base64 json repo id first n) _ h in
      apply_event-Sourced id n before s (replay-Sourced id first n before start replayed) applied

  rebuild-Sourced :
      (id : DigestIdentifier) (n : ℕ) (s : Subject)
      → rebuild crypto base64 json repo id n ≡ ok s
      → Sourced id n s
  unfolding rebuild
  rebuild-Sourced id n s h =
      let (first, made, replayed) = >>=-eq-ok (genesis crypto base64 json repo id) _ h in
      replay-Sourced id first n s (genesis-Sourced id first made) replayed

  Sourced-rebuild :
      (id : DigestIdentifier) {n : ℕ} {s : Subject}
      → Sourced id n s
      → rebuild crypto base64 json repo id n ≡ ok s
  unfolding rebuild replay genesis apply_event update_subject
  Sourced-rebuild id (created event read made) = rw (read, made) refl
  Sourced-rebuild id (patched {n} {s} event patch properties before read made done) =
      let (first, begun, replayed) =
        >>=-eq-ok (genesis crypto base64 json repo id) _ (Sourced-rebuild id before) in
      rw (begun, replayed, read, made, done) refl

  -- Event sourcing answers a governance exactly if the database has it at the version that is asked
  -- for, or has it at a higher version and its events make it: the first event the initial one, and
  -- each event up to the version in turn the next one, by its patch and with its number.
  pub governance_event_sourcing_iff :
      (id : DigestIdentifier) (version : ℕ) (s : Subject)
      → (governance_event_sourcing crypto base64 json repo id version ≡ ok s)
        ↔ IsVersion id version s
  unfolding governance_event_sourcing
  governance_event_sourcing_iff id version s = (
    λ h.
        let (current, read, rest) =
          >>=-eq-ok (map_err (subject_read_error crypto base64 json repo id) (repo.get_subject id))
            _ h in
        (
          current,
          map_err-eq-ok _ (repo.get_subject id) read,
          elim (Bool-cases (eqb current.sn version)) [
            | inl same ↦ inl (ground arith, ground (arith, rest, same))
            | inr other ↦ elim (Bool-cases (ltb version current.sn)) [
              | inl lower ↦
                  inr (ground arith, rebuild-Sourced id version s (rw (other, lower) at rest))
              | inr higher ↦ absurd (ground (arith, rest, other, higher))
            ]
          ],
        ),
    λ (current, read, found). elim found [
      | inl (same, is) ↦ ground (arith, read, same, is)
      | inr (lower, made) ↦ ground (arith, read, lower, Sourced-rebuild id made)
    ],
  )
