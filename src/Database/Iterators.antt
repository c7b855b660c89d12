-- ===== src/Database/Iterators.antt =====
-- The iterators of database/memory.rs. An iterator is what is left of the map; it ends a loop when
-- it gives nothing, which it does at the first key without its prefix.
use taple_core.Prelude.{
  ℕ, zero, suc, ◌-◌, ◌≡◌, ◌↔◌, ◌⊎◌, inl, inr, Bool, true, false, Option, none, some, List, [], ◌∷◌,
  Str, str_ltb, arith, nat_eq, list_eq, eq_iff, is_empty, length, starts_with, if◌then◌else◌,
  Bool-cases,
}
use taple_core.Identifier.{Bytes}
use taple_core.Database.Memory.{DataStore}
use taple_core.Database.Memory.Sorted.{IsBelow, IsSorted}

-- `str::replace(p, "")`, where `skip` bytes belong to the last match.
unfoldable pub remove_matches : Str → ℕ → Str → Str
remove_matches p skip [] = []
remove_matches p (suc skip) (c ∷ cs) = remove_matches p skip cs
remove_matches p zero (c ∷ cs) =
    if starts_with (c ∷ cs) p
    then remove_matches p (length p - 1) cs
    else c ∷ remove_matches p zero cs

unfoldable pub replace : Str → Str → Str
unfolding remove_matches
replace p k = if is_empty p then k else remove_matches p 0 k

-- `MemoryIterator::next`: the item, and what is left.
unfoldable pub next : Str → DataStore → Option (Str × Bytes) × DataStore
unfolding replace
next p [] = (none, [])
next p ((k, bytes) ∷ rest) = (if starts_with k p then some (replace p k, bytes) else none, rest)

-- The items of a loop over the iterator, which calls `next` until it gives nothing.
unfoldable pub items : Str → DataStore → List (Str × Bytes)
unfolding next
items p [] = []
items p (e ∷ rest) = elim (next p (e ∷ rest)).0 [ none ↦ [] | some item ↦ item ∷ items p rest ]

-- What the map holds under the prefix.
unfoldable pub matching : Str → DataStore → List (Str × Bytes)
unfolding replace
matching p [] = []
matching p ((k, bytes) ∷ rest) =
    if starts_with k p then (replace p k, bytes) ∷ matching p rest else matching p rest

-- Whether the first key has the prefix.
abbrev pub first_matches : Str → DataStore → Bool
first_matches p [] = false
first_matches p ((k, bytes) ∷ rest) = starts_with k p

-- Keys with a prefix stand together.
prefix_between :
    (p a b c : Str)
    → str_ltb a b ≡ true
    → str_ltb b c ≡ true
    → starts_with a p ≡ true
    → starts_with c p ≡ true
    → starts_with b p ≡ true
prefix_between [] a b c h k x y = ground arith
prefix_between (q ∷ p) [] b c h k x y = absurd (ground arith)
prefix_between (q ∷ p) a b [] h k x y = absurd (ground arith)
prefix_between (q ∷ p) (i ∷ a) [] (l ∷ c) h k x y = absurd (ground arith)
prefix_between (q ∷ p) (i ∷ a) (j ∷ b) (l ∷ c) h k x y =
    ground (arith, prefix_between p a b c, eq_iff q i, eq_iff q j, eq_iff q l)

-- Behind a key without the prefix that stands behind one with it, no key has it.
matching-IsBelow :
    (p a k : Str) (m : DataStore)
    → starts_with a p ≡ true
    → starts_with k p ≡ false
    → str_ltb a k ≡ true
    → IsBelow k m
    → matching p m ≡ []
unfolding matching
matching-IsBelow p a k [] x n h b = ground arith
matching-IsBelow p a k ((j, bytes) ∷ m) x n h b =
    ground (arith, prefix_between p a k j h b.0 x, matching-IsBelow p a k m x n h b.1)

items-IsBelow :
    (p a : Str) (m : DataStore)
    → starts_with a p ≡ true
    → IsBelow a m
    → IsSorted m
    → items p m ≡ matching p m
unfolding items matching
items-IsBelow p a [] x b s = ground arith
items-IsBelow p a ((j, bytes) ∷ m) x b s =
    ground (arith, items-IsBelow p a m x b.1 s.1, matching-IsBelow p a j m x)

-- A loop over a prefix sees all entries under it exactly if there are none, or the first key of the
-- whole map, which all collections share, has the prefix; the map is in the order of its keys.
pub items-matching_iff :
    (p : Str) (m : DataStore)
    → IsSorted m
    → (items p m ≡ matching p m) ↔ ((matching p m ≡ []) ⊎ (first_matches p m ≡ true))
unfolding items matching
items-matching_iff p [] s = (λ h. inl (ground arith), λ h. ground arith)
items-matching_iff p ((k, bytes) ∷ m) s = elim (Bool-cases (starts_with k p)) [
  | inl has ↦ (λ h. inr has, λ h. ground (arith, has, items-IsBelow p k m has s.0 s.1))
  | inr lacks ↦ (λ h. inl (ground (arith, lacks, h)), λ h. ground (arith, lacks, h))
]
