-- ===== src/Database/Collections/InMemory.antt =====
-- The in-memory store as a collection.
use taple_core.Prelude.{sym, ap, ◌∙◌, if◌then◌else◌, Result, ok, err, nat_eq, list_eq}
use mathlib.Core.List.{reverse}
use taple_core.Models.Errors.{DbError}
use taple_core.Database.Memory.{DataStore, get, put, del, get-put}
use taple_core.Database.Memory.Sorted.{IsSorted, put-IsSorted, del-IsSorted, get-del}
use taple_core.Database.Iterators.{items}
use taple_core.Database.Collections.{DatabaseCollection, IsCollection}

-- A store in the order of its keys, as a `BTreeMap` is.
abbrev pub SortedStore : Type 0
SortedStore = (m : DataStore) × IsSorted m

-- `MemoryCollection`
abbrev pub memory_collection : DatabaseCollection SortedStore
memory_collection = record {
  get = λ s k. get s.0 k;
  put = λ s k bytes. ok (put s.0 k bytes, put-IsSorted s.0 k bytes s.1);
  del = λ s k. ok (del s.0 k, del-IsSorted s.0 k s.1);
  iter = λ s reversed prefix. items prefix (if reversed then reverse s.0 else s.0);
}

abbrev stored : Result SortedStore DbError → DataStore → DataStore
stored (ok s) m = s.0
stored (err e) m = m

-- The in-memory store keeps what the trait of collections promises.
pub memory_collection-IsCollection : IsCollection memory_collection
memory_collection-IsCollection = record {
  get-put = λ s t k j bytes h. ap (λ r. get (stored r t.0) j) (sym h) ∙ get-put s.0 k j bytes;
  get-del = λ s t k j h. ap (λ r. get (stored r t.0) j) (sym h) ∙ get-del s.0 k j s.1;
}
