-- ===== src/Governance/Sourcing/Versions.antt =====
-- Event sourcing gives the governance at the version that is asked for.
use taple_core.Prelude.{ℕ, zero, suc, ◌≡◌, arith, ok, map_err, map_err-eq-ok, >>=-eq-ok}
use taple_core.Identifier.{Base64}
use taple_core.Identifier.Digests.{DigestIdentifier}
use taple_core.Models.Values.{Value, Json}
use taple_core.Models.Crypto.{Borsh, Crypto}
use taple_core.Models.Subjects.{Subject, IdContents, from_genesis_event, update_subject}
use taple_core.Governance.Errors.{subject_error}
use taple_core.Governance.Sourcing.{
  Repository, apply_event, replay, genesis, rebuild, subject_read_error, governance_event_sourcing,
}

module _ (crypto : Crypto) ⦃borsh : Borsh IdContents⦄ (base64 : Base64) {Patch : Type 0}
    (json : Json Patch) (repo : Repository) where
  sn-update_subject :
      (s s' : Subject) (patch : Value) (n : ℕ) → update_subject json s patch n ≡ ok s' → s'.sn ≡ n
  unfolding update_subject
  sn-update_subject s s' patch n h = ground (arith, h)

  sn-genesis :
      (id : DigestIdentifier) (s : Subject) → genesis crypto base64 json repo id ≡ ok s → s.sn ≡ 0
  unfolding genesis from_genesis_event
  sn-genesis id s h = ground (arith, h)

  sn-apply_event :
      (id : DigestIdentifier) (n : ℕ) (s s' : Subject)
      → apply_event crypto base64 json repo id n s ≡ ok s'
      → s'.sn ≡ n
  unfolding apply_event
  sn-apply_event id n s s' h =
      let (event, read, applied) = >>=-eq-ok (map_err _ (repo.get_event id n)) _ h in
      sn-update_subject s s' event.content.patch n (map_err-eq-ok subject_error _ applied)

  sn-replay :
      (id : DigestIdentifier) (s : Subject) (n : ℕ) (s' : Subject)
      → s.sn ≡ 0
      → replay crypto base64 json repo id s n ≡ ok s'
      → s'.sn ≡ n
  unfolding replay
  sn-replay id s zero s' start h = ground (arith, h, start)
  sn-replay id s (suc n) s' start h =
      let (before, _, applied) = >>=-eq-ok (replay crypto base64 json repo id s n) _ h in
      sn-apply_event id (suc n) before s' applied

  sn-rebuild :
      (id : DigestIdentifier) (n : ℕ) (s : Subject)
      → rebuild crypto base64 json repo id n ≡ ok s
      → s.sn ≡ n
  unfolding rebuild
  sn-rebuild id n s h =
      let (first, made, replayed) = >>=-eq-ok (genesis crypto base64 json repo id) _ h in
      sn-replay id first n s (sn-genesis id first made) replayed

  -- Event sourcing gives the governance at exactly the version that is asked for, from the database
  -- as it is or from the events up to that version.
  pub sn-governance_event_sourcing :
      (id : DigestIdentifier) (version : ℕ) (s : Subject)
      → governance_event_sourcing crypto base64 json repo id version ≡ ok s
      → s.sn ≡ version
  unfolding governance_event_sourcing
  sn-governance_event_sourcing id version s h =
      let (current, read, rest) =
        >>=-eq-ok (map_err (subject_read_error crypto base64 json repo id) (repo.get_subject id)) _
          h in
      ground (arith, rest, sn-rebuild id version s)
