-- ===== src/Prelude/Overlaps.antt =====
-- Sets as lists without repetition: a subset is no longer, and two large subsets overlap.
use Prim.Native.Nat.{suc, ◌+◌, ◌≤◌, ◌<◌}
use mathlib.Core.Path.{◌≡◌, refl}
use mathlib.Core.Bool.{true, false}
use mathlib.Core.Logic.{inl, inr}
use mathlib.Core.List.{List, [], ◌∷◌}
use native.Mathlib.Omega.{arith}
use taple_core.Prelude.Tests.{if◌then◌else◌, Bool-cases}
use taple_core.Prelude.Classes.{Eq, ◌==◌, eq_iff, eq_refl}
use taple_core.Prelude.Lists.{length, contains, is_subset, IsDistinct}

module _ {ℓ} {A : Type ℓ} ⦃e : Eq A⦄ where
  -- A list without the first element that is equal to `a`.
  abbrev pub remove : A → List A → List A
  remove a [] = []
  remove a (z ∷ zs) = if z == a then zs else z ∷ remove a zs

  length-remove :
      (a : A) (zs : List A) → contains zs a ≡ true → length zs ≡ suc (length (remove a zs))
  length-remove a [] h = absurd (ground (arith, h))
  length-remove a (z ∷ zs) h = ground (arith, length-remove a zs)

  contains-remove :
      (a b : A) (zs : List A)
      → (a == b) ≡ false
      → contains zs b ≡ true
      → contains (remove a zs) b ≡ true
  contains-remove a b [] n h = h
  contains-remove a b (z ∷ zs) n h =
      ground (arith, eq_iff z a, eq_iff z b, eq_iff a b, contains-remove a b zs n)

  is_subset-remove :
      (a : A) (xs zs : List A)
      → contains xs a ≡ false
      → is_subset xs zs ≡ true
      → is_subset xs (remove a zs) ≡ true
  is_subset-remove a [] zs n h = refl
  is_subset-remove a (x ∷ xs) zs n h =
      ground (arith, eq_iff x a, eq_iff a x, contains-remove a x zs, is_subset-remove a xs zs)

  pub length-is_subset :
      (xs zs : List A) → IsDistinct xs → is_subset xs zs ≡ true → length xs ≤ length zs
  length-is_subset [] zs d h = omega arith
  length-is_subset (x ∷ xs) zs d h = ground (
    arith,
    length-remove x zs,
    length-is_subset xs (remove x zs) d.1 (is_subset-remove x xs zs d.0 (ground (arith, h))),
  )

  -- Two sets within a set that is smaller than the two together have an element in common.
  pub overlap :
      (xs ys zs : List A)
      → IsDistinct xs
      → IsDistinct ys
      → is_subset xs zs ≡ true
      → is_subset ys zs ≡ true
      → length zs < length xs + length ys
      → (a : A) × (contains xs a ≡ true) × (contains ys a ≡ true)
  overlap [] ys zs dx dy hx hy n = absurd (omega (arith, n, length-is_subset ys zs dy hy))
  overlap (x ∷ xs) ys zs dx dy hx hy n = elim (Bool-cases (contains ys x)) [
    | inl here ↦ (x, ground (arith, eq_refl x), here)
    | inr none ↦
        let (a, inx, iny) =
          overlap xs (x ∷ ys) zs dx.1 (none, dy) (ground arith) (ground arith) (omega (arith, n)) in
        (a, ground (arith, inx), ground (arith, inx, iny, dx.0, eq_iff x a))
  ]
