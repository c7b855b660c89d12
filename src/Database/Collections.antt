-- ===== src/Database/Collections.antt =====
-- The trait of collections (database/mod.rs), and what every layer over one does: read, write and
-- delete an entry by the elements of its key.
pub mod Frames
pub mod InMemory
use taple_core.Prelude.{
  ◌≡◌, Bool, true, false, Option, none, some, List, [], ◌∷◌, Str, arith, nat_eq, list_eq, ◌==◌,
  if◌then◌else◌, Result, ok, err, ok_or, ◌>>=◌,
}
use taple_core.Identifier.{Bytes}
use taple_core.Models.Errors.{DbError, serialize_error, deserialize_error}
use taple_core.Database.Keys.{Element, get_key}

-- `DatabaseCollection`, where all collections of one database share a store `S`, as those of the
-- in-memory database do: their keys begin with the name of the collection. `iter` gives the items of
-- a loop.
pub record DatabaseCollection (S : Type 0) : Type 0 where
  pub get : S → Str → Result Bytes DbError
  pub put : S → Str → Bytes → Result S DbError
  pub del : S → Str → Result S DbError
  pub iter : S → Bool → Str → List (Str × Bytes)

-- What the comments on the trait promise: an entry is read as it was put, and not after it has been
-- deleted; no other entry changes.
pub record IsCollection {S : Type 0} (c : DatabaseCollection S) : Type 0 where
  pub get-put :
      (s t : S) (k j : Str) (bytes : Bytes)
      → c.put s k bytes ≡ ok t
      → c.get t j ≡ (if k == j then ok bytes else c.get s j)
  pub get-del :
      (s t : S) (k j : Str)
      → c.del s k ≡ ok t
      → c.get t j ≡ (if k == j then err DbError.entry_not_found else c.get s j)

-- `serialize` and `deserialize` of utils/mod.rs, which are those of borsh.
pub record Codec (A : Type 0) : Type 0 where
  pub serialize : A → Option Bytes
  pub deserialize : Bytes → Option A

-- What borsh documents: reading undoes writing.
pub record IsCodec {A : Type 0} (codec : Codec A) : Type 0 where
  pub deserialize-serialize :
      (a : A) (bytes : Bytes) → codec.serialize a ≡ some bytes → codec.deserialize bytes ≡ some a

pub serialized :
    (o : Option Bytes) {bytes : Bytes} → ok_or o serialize_error ≡ ok bytes → o ≡ some bytes
serialized none h = absurd (ground (arith, h))
serialized (some bytes) h = ground (arith, h)

module _ {S : Type 0} (c : DatabaseCollection S) where
  unfoldable pub del_at : List Element → S → Result S DbError
  del_at elements store = do key ← get_key elements; c.del store key

  module _ {A : Type 0} (codec : Codec A) where
    unfoldable pub get_at : List Element → S → Result A DbError
    get_at elements store = do
      key ← get_key elements
      bytes ← c.get store key
      ok_or (codec.deserialize bytes) deserialize_error

    unfoldable pub set_at : List Element → A → S → Result S DbError
    set_at elements a store = do
      key ← get_key elements
      bytes ← ok_or (codec.serialize a) serialize_error
      c.put store key bytes
