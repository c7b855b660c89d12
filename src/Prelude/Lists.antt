-- ===== src/Prelude/Lists.antt =====
-- Lists over the native numbers: Rust's `Vec` and, without its order, `HashSet`.
use Prim.Native.Nat.{ℕ, zero, suc, ◌+◌}
use mathlib.Core.Path.{◌≡◌, refl, ap}
use mathlib.Core.Bool.{Bool, true, false, ◌&&◌, ◌||◌}
use mathlib.Core.Option.{Option, none, some}
use mathlib.Core.List.{List, [], ◌∷◌, ◌++◌}
use native.Mathlib.Omega.{arith}
use taple_core.Prelude.Tests.{if◌then◌else◌}
use taple_core.Prelude.Classes.{Eq, ◌==◌, eq_iff, eq_refl}

module _ {ℓ} {A : Type ℓ} where
  abbrev pub length : List A → ℕ
  length [] = 0
  length (x ∷ xs) = suc (length xs)

  abbrev pub get_elem? : List A → ℕ → Option A
  get_elem? [] i = none
  get_elem? (x ∷ xs) zero = some x
  get_elem? (x ∷ xs) (suc i) = get_elem? xs i

  abbrev pub take : ℕ → List A → List A
  take zero xs = []
  take (suc n) [] = []
  take (suc n) (x ∷ xs) = x ∷ take n xs

  abbrev pub drop : ℕ → List A → List A
  drop zero xs = xs
  drop (suc n) [] = []
  drop (suc n) (x ∷ xs) = drop n xs

  abbrev pub is_empty : List A → Bool
  is_empty [] = true
  is_empty (x ∷ xs) = false

  -- A predicate that holds of every element, as a tuple that the tactics read.
  abbrev pub All {κ} : (A → Type κ) → List A → Type κ
  All P [] = Unit
  All P (x ∷ xs) = P x × All P xs

  pub All-map {κ υ} :
      {P : A → Type κ} {Q : A → Type υ} (f : (x : A) → P x → Q x) (xs : List A)
      → All P xs
      → All Q xs
  All-map f [] h = tt
  All-map f (x ∷ xs) h = (f x h.0, All-map f xs h.1)

  pub length-append : (xs ys : List A) → length (xs ++ ys) ≡ length xs + length ys
  length-append [] ys = omega arith
  length-append (x ∷ xs) ys = omega (arith, length-append xs ys)

  pub take-append : (xs ys : List A) → take (length xs) (xs ++ ys) ≡ xs
  take-append [] ys = refl
  take-append (x ∷ xs) ys = ap (λ l. x ∷ l) (take-append xs ys)

  pub take_all : (n : ℕ) (xs : List A) → length xs ≡ n → take n xs ≡ xs
  take_all zero [] h = refl
  take_all zero (x ∷ xs) h = absurd (omega arith)
  take_all (suc n) [] h = refl
  take_all (suc n) (x ∷ xs) h = ap (λ l. x ∷ l) (take_all n xs (omega arith))

  pub drop-append : (xs ys : List A) → drop (length xs) (xs ++ ys) ≡ ys
  drop-append [] ys = refl
  drop-append (x ∷ xs) ys = drop-append xs ys

module _ {ℓ} {A : Type ℓ} ⦃e : Eq A⦄ where
  -- `HashSet::contains`
  abbrev pub contains : List A → A → Bool
  contains [] a = false
  contains (x ∷ xs) a = x == a || contains xs a

  -- `HashSet::insert`
  abbrev pub insert : A → List A → List A
  insert a xs = if contains xs a then xs else a ∷ xs

  -- `HashSet::is_subset`
  abbrev pub is_subset : List A → List A → Bool
  is_subset [] ys = true
  is_subset (x ∷ xs) ys = contains ys x && is_subset xs ys

  -- `HashSet::union`
  abbrev pub union : List A → List A → List A
  union xs [] = xs
  union xs (y ∷ ys) = if contains xs y then union xs ys else y ∷ union xs ys

  -- No element occurs twice: the lists that stand for a `HashSet`.
  abbrev pub IsDistinct : List A → Type 0
  IsDistinct [] = Unit
  IsDistinct (x ∷ xs) = (contains xs x ≡ false) × IsDistinct xs

  abbrev pub starts_with : List A → List A → Bool
  starts_with xs [] = true
  starts_with [] (p ∷ ps) = false
  starts_with (x ∷ xs) (p ∷ ps) = p == x && starts_with xs ps

  pub starts_with-append : (p xs : List A) → starts_with (p ++ xs) p ≡ true
  starts_with-append [] xs = refl
  starts_with-append (a ∷ p) xs = ground (arith, eq_refl a, starts_with-append p xs)

  -- A list with a prefix is the prefix and what is left behind it.
  pub append-drop_of_starts_with :
      (xs p : List A) → starts_with xs p ≡ true → p ++ drop (length p) xs ≡ xs
  append-drop_of_starts_with xs [] h = refl
  append-drop_of_starts_with [] (a ∷ p) h = ground arith
  append-drop_of_starts_with (x ∷ xs) (a ∷ p) h =
      ground (arith, eq_iff a x, append-drop_of_starts_with xs p)

  pub is_subset-contains :
      (xs ys : List A) (a : A)
      → is_subset xs ys ≡ true
      → contains xs a ≡ true
      → contains ys a ≡ true
  is_subset-contains [] ys a h m = ground arith
  is_subset-contains (x ∷ xs) ys a h m = ground (arith, eq_iff x a, is_subset-contains xs ys a)

  is_subset_cons : (xs ys : List A) (a : A) → is_subset xs ys ≡ true → is_subset xs (a ∷ ys) ≡ true
  is_subset_cons [] ys a h = refl
  is_subset_cons (x ∷ xs) ys a h = ground (arith, h, is_subset_cons xs ys a)

  pub is_subset_refl : (xs : List A) → is_subset xs xs ≡ true
  is_subset_refl [] = refl
  is_subset_refl (x ∷ xs) = ground (arith, eq_refl x, is_subset_cons xs xs x (is_subset_refl xs))
