-- ===== src/Database/Registers.antt =====
-- database/layers/validation.rs: the registers of the validator over the in-memory store.
use taple_core.Prelude.{
  ℕ, ◌≡◌, refl, sym, ap, ◌∙◌, Bool, true, false, Option, none, some, List, [], ◌∷◌, ◌++◌, Str, text,
  char_max, arith, nat_eq, list_eq, ◌==◌, eq_iff, if◌then◌else◌, Bool-cases, Option-cases, Result,
  ok, err, ok_or, ◌>>=◌, >>=-eq-ok, inl, inr, drop, drop-append, length,
}
use taple_core.Identifier.{Base64, Bytes}
use taple_core.Identifier.Digests.{DigestIdentifier}
use taple_core.Identifier.Digests
use taple_core.Models.Errors.{DbError, serialize_error, deserialize_error}
use taple_core.Models.Proofs.{ValidationProof}
use taple_core.Database.Memory.{DataStore, get, put, get-put}
use taple_core.Database.Collections.{Codec, IsCodec, serialized}
use taple_core.Database.Keys.{s, join, get_key}
use taple_core.Validation.Defs.{Registers, IsRegisters}

module _ (base64 : Base64) (codec : Codec ValidationProof) where
  -- The two elements of a register's key.
  unfoldable pub register_key : DigestIdentifier → Result Str DbError
  register_key id = get_key (s (text "validation") ∷ s (Digests.to_str base64 id) ∷ [])

  -- `ValidationDb::get_validation_register`
  unfoldable pub get_validation_register :
      DataStore → DigestIdentifier → Result ValidationProof DbError
  unfolding register_key
  get_validation_register store id = do
    key ← register_key id
    bytes ← get store key
    ok_or (codec.deserialize bytes) deserialize_error

  -- `ValidationDb::set_validation_register`
  unfoldable pub set_validation_register :
      DataStore → DigestIdentifier → ValidationProof → Result DataStore DbError
  unfolding register_key
  set_validation_register store id p = do
    key ← register_key id
    bytes ← ok_or (codec.serialize p) serialize_error
    ok (put store key bytes)

  -- The layer as the validator uses it.
  abbrev pub memory_registers : Registers DataStore
  memory_registers = record {
    key = Digests.to_str base64;
    get_validation_register = get_validation_register;
    set_validation_register = set_validation_register;
  }

  -- The text of a key, in front of that of the subject.
  abbrev prefixed : Str → Str
  prefixed t = (text "validation" ++ char_max) ++ t

  register_key-text :
      (id : DigestIdentifier) → register_key id ≡ ok (prefixed (Digests.to_str base64 id))
  unfolding register_key get_key join
  register_key-text id = refl

  prefixed-eq : (t u : Str) → (prefixed t == prefixed u) ≡ (t == u)
  unfolding taple_core.Prelude.list_beq
  prefixed-eq t u = refl

  -- Reading from the store, by the text of the key.
  get_validation_register-text :
      (store : DataStore) (j : DigestIdentifier)
      → get_validation_register store j ≡ (
          get store (prefixed (Digests.to_str base64 j)) >>= λ bytes.
          ok_or (codec.deserialize bytes) deserialize_error)
  unfolding get_validation_register
  get_validation_register-text store j = rw (register_key-text j) refl

  -- Reading behind a write.
  get-put-register :
      (store : DataStore) (t u : Str) (bytes : Bytes) (p : ValidationProof)
      → codec.deserialize bytes ≡ some p
      → (get (put store (prefixed t) bytes) (prefixed u) >>= λ b.
          ok_or (codec.deserialize b) deserialize_error)
        ≡ (if t == u
            then ok p
            else (get store (prefixed u) >>= λ b. ok_or (codec.deserialize b) deserialize_error))
  get-put-register store t u bytes p h = elim (Bool-cases (t == u)) [
    | inl same ↦ rw (get-put store (prefixed t) (prefixed u) bytes, prefixed-eq t u, same, h) refl
    | inr other ↦ rw (get-put store (prefixed t) (prefixed u) bytes, prefixed-eq t u, other) refl
  ]

  get-key-memory :
      (store : DataStore) (i j : DigestIdentifier)
      → Digests.to_str base64 i ≡ Digests.to_str base64 j
      → get_validation_register store i ≡ get_validation_register store j
  get-key-memory store i j h =
      get_validation_register-text store i
      ∙ (ap
            (λ (t : Str).
              get store (prefixed t) >>= λ bytes. ok_or (codec.deserialize bytes) deserialize_error)
            h
          ∙ sym (get_validation_register-text store j))

  module _ (laws : IsCodec codec) where
    get-set-memory :
        (store t : DataStore) (i j : DigestIdentifier) (p : ValidationProof)
        → set_validation_register store i p ≡ ok t
        → get_validation_register t j ≡ (
            if Digests.to_str base64 i == Digests.to_str base64 j
            then ok p
            else get_validation_register store j)
    unfolding set_validation_register get_validation_register
    get-set-memory store t i j p h =
        let (bytes, written, h₁) =
          >>=-eq-ok (ok_or (codec.serialize p) serialize_error) _ (rw (register_key-text i) at h) in
        let stored : put store (prefixed (Digests.to_str base64 i)) bytes ≡ t = cc h₁ in
        let read : codec.deserialize bytes ≡ some p =
          laws.deserialize-serialize p bytes (serialized (codec.serialize p) written) in
        ap (λ (m : DataStore). get_validation_register m j) (sym stored)
        ∙ (get_validation_register-text _ j
            ∙ (get-put-register store (Digests.to_str base64 i) (Digests.to_str base64 j) bytes p
                  read
                ∙ ap (λ x. if Digests.to_str base64 i == Digests.to_str base64 j then ok p else x)
                    (sym (get_validation_register-text store j))))

    -- Over the in-memory store the registers are what the validator needs: a proof that is set is the
    -- one that is read under the text of its subject, and no other proof changes, if reading undoes
    -- writing.
    pub memory_registers-IsRegisters : IsRegisters memory_registers
    memory_registers-IsRegisters = record {
      get-key = λ store i j h. get-key-memory store i j h;
      get-set = get-set-memory;
    }
