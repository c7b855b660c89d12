-- ===== src/Database/Memory.antt =====
-- database/memory.rs: the map behind every collection, a list of entries in the order of their
-- keys.
pub mod Sorted
use taple_core.Prelude.{
  ◌≡◌, Bool, true, false, Option, none, some, List, [], ◌∷◌, Str, str_ltb, arith, nat_eq, list_eq,
  ◌==◌, eq_iff, eq_refl, if◌then◌else◌, Bool-cases, Result, ok, err, inl, inr,
}
use taple_core.Identifier.{Bytes}
use taple_core.Models.Errors.{DbError}

-- `BTreeMap<String, Vec<u8>>`
abbrev pub DataStore : Type 0
DataStore = List (Str × Bytes)

-- `BTreeMap::get`
unfoldable pub find : DataStore → Str → Option Bytes
find [] k = none
find ((j, bytes) ∷ m) k = if j == k then some bytes else find m k

-- `DatabaseCollection::get`
unfoldable pub get : DataStore → Str → Result Bytes DbError
unfolding find
get m k = elim (find m k) [ none ↦ err DbError.entry_not_found | some bytes ↦ ok bytes ]

-- `DatabaseCollection::put`: `insert` of std's `BTreeMap`, which replaces what stands under the key.
unfoldable pub put : DataStore → Str → Bytes → DataStore
put [] k bytes = (k, bytes) ∷ []
put ((j, old) ∷ m) k bytes =
    if j == k
    then (k, bytes) ∷ m
    else if str_ltb k j
    then (k, bytes) ∷ (j, old) ∷ m
    else (j, old) ∷ put m k bytes

-- `DatabaseCollection::del`
unfoldable pub del : DataStore → Str → DataStore
del [] k = []
del ((j, bytes) ∷ m) k = if j == k then m else (j, bytes) ∷ del m k

find-put :
    (m : DataStore) (k j : Str) (bytes : Bytes)
    → find (put m k bytes) j ≡ (if k == j then some bytes else find m j)
unfolding find put
find-put [] k j bytes = ground arith
find-put ((i, old) ∷ m) k j bytes =
    ground (arith, find-put m k j bytes, eq_iff i k, eq_iff i j, eq_iff k j)

-- What is put is read under its key, and nothing else changes.
pub get-put :
    (m : DataStore) (k j : Str) (bytes : Bytes)
    → get (put m k bytes) j ≡ (if k == j then ok bytes else get m j)
unfolding get
get-put m k j bytes = ground (arith, find-put m k j bytes)
