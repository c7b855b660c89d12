-- ===== src/Database/Memory/Sorted.antt =====
-- The entries of the store stay in the order of their keys, so no key stands twice.
use taple_core.Prelude.{
  ℕ, ◌≡◌, ◌⊎◌, inl, inr, Bool, true, false, List, [], ◌∷◌, Str, str_ltb, arith, nat_eq, list_eq,
  ◌==◌, eq_iff, ltb, if◌then◌else◌, Bool-cases, none, some, Result, ok, err,
}
use taple_core.Identifier.{Bytes}
use taple_core.Models.Errors.{DbError}
use taple_core.Database.Memory.{DataStore, find, get, put, del}

str_ltb_total : (a b : Str) → str_ltb a b ≡ false → (a == b) ≡ false → str_ltb b a ≡ true
unfolding taple_core.Prelude.list_beq
str_ltb_total [] [] h n = absurd (ground arith)
str_ltb_total [] (y ∷ b) h n = absurd (ground arith)
str_ltb_total (x ∷ a) [] h n = ground arith
str_ltb_total (x ∷ a) (y ∷ b) h n = ground (arith, str_ltb_total a b)

str_ltb_trans : (a b c : Str) → str_ltb a b ≡ true → str_ltb b c ≡ true → str_ltb a c ≡ true
str_ltb_trans a [] c h k = absurd (ground arith)
str_ltb_trans a (y ∷ b) [] h k = absurd (ground arith)
str_ltb_trans [] (y ∷ b) (z ∷ c) h k = ground arith
str_ltb_trans (x ∷ a) (y ∷ b) (z ∷ c) h k = ground (arith, str_ltb_trans a b c)

-- The key comes before all keys of the store.
abbrev pub IsBelow : Str → DataStore → Type 0
IsBelow k [] = Unit
IsBelow k ((j, bytes) ∷ m) = (str_ltb k j ≡ true) × IsBelow k m

-- The keys are in strictly rising order.
abbrev pub IsSorted : DataStore → Type 0
IsSorted [] = Unit
IsSorted ((j, bytes) ∷ m) = IsBelow j m × IsSorted m

IsBelow-trans : (j k : Str) (m : DataStore) → str_ltb j k ≡ true → IsBelow k m → IsBelow j m
IsBelow-trans j k [] h b = tt
IsBelow-trans j k ((i, bytes) ∷ m) h b = (str_ltb_trans j k i h b.0, IsBelow-trans j k m h b.1)

put-IsBelow :
    (m : DataStore) (j k : Str) (bytes : Bytes)
    → str_ltb j k ≡ true
    → IsBelow j m
    → IsBelow j (put m k bytes)
unfolding put
put-IsBelow [] j k bytes h b = (h, tt)
put-IsBelow ((i, old) ∷ m) j k bytes h b = ground (arith, put-IsBelow m j k bytes)

-- Putting an entry keeps a store in the order of its keys, if it was.
pub put-IsSorted : (m : DataStore) (k : Str) (bytes : Bytes) → IsSorted m → IsSorted (put m k bytes)
unfolding put
put-IsSorted [] k bytes s = (tt, tt)
put-IsSorted ((i, old) ∷ m) k bytes s = ground (
  arith,
  eq_iff i k,
  put-IsSorted m k bytes,
  put-IsBelow m i k bytes,
  str_ltb_total k i,
  IsBelow-trans k i m,
  eq_iff k i,
)

del-IsBelow : (m : DataStore) (j k : Str) → IsBelow j m → IsBelow j (del m k)
unfolding del
del-IsBelow [] j k b = tt
del-IsBelow ((i, old) ∷ m) j k b = ground (arith, del-IsBelow m j k)

-- Deleting an entry keeps a store in the order of its keys, if it was.
pub del-IsSorted : (m : DataStore) (k : Str) → IsSorted m → IsSorted (del m k)
unfolding del
del-IsSorted [] k s = tt
del-IsSorted ((i, old) ∷ m) k s = ground (arith, del-IsBelow m i k, del-IsSorted m k)

str_ltb_irrefl : (a : Str) → str_ltb a a ≡ false
str_ltb_irrefl [] = ground arith
str_ltb_irrefl (x ∷ a) = ground (arith, str_ltb_irrefl a)

find-IsBelow : (m : DataStore) (k : Str) → IsBelow k m → find m k ≡ none
unfolding find
find-IsBelow [] k b = ground arith
find-IsBelow ((i, old) ∷ m) k b = ground (arith, eq_iff i k, str_ltb_irrefl k, find-IsBelow m k)

find-del :
    (m : DataStore) (k j : Str)
    → IsSorted m
    → find (del m k) j ≡ (if k == j then none else find m j)
unfolding find del
find-del [] k j s = ground arith
find-del ((i, old) ∷ m) k j s =
    ground (arith, find-del m k j, eq_iff i k, eq_iff i j, eq_iff k j, find-IsBelow m j)

-- In a store in the order of its keys, what is deleted is not found any more, and nothing else
-- changes.
pub get-del :
    (m : DataStore) (k j : Str)
    → IsSorted m
    → get (del m k) j ≡ (if k == j then err DbError.entry_not_found else get m j)
unfolding get
get-del m k j s = ground (arith, find-del m k j s)
