-- ===== src/Governance/Namespaces.antt =====
-- `namespace_contiene` of governance/inner_governance.rs: a namespace contains itself and what it
-- is a parent of; the empty one contains all.
use taple_core.Prelude.{
  ◌≡◌, ◌↔◌, ◌⊎◌, inl, inr, refl, Bool, true, false, not, [], ◌∷◌, ◌++◌, arith, Str, nat_eq, list_eq,
  ◌==◌, eq_iff, is_empty, length, drop, drop-append, starts_with, starts_with-append,
  append-drop_of_starts_with, Bool-cases, if◌then◌else◌,
}

-- `strip_prefix` and the test for a dot behind it.
abbrev dot_behind : Str → Str → Bool
dot_behind parent child =
    if starts_with child parent then starts_with (drop (length parent) child) (b'.' ∷ []) else false

unfoldable pub namespace_contiene : Str → Str → Bool
namespace_contiene parent child =
    if is_empty parent
    then true
    else if parent == child
    then true
    else if not (starts_with child parent)
    then false
    else dot_behind parent child

-- The child is the parent with something behind it that begins with a dot.
abbrev pub IsBelow : Str → Str → Type 0
IsBelow parent child = (rest : Str) × (child ≡ parent ++ b'.' ∷ rest)

dot_first : (xs : Str) → starts_with xs (b'.' ∷ []) ≡ true → (rest : Str) × (xs ≡ b'.' ∷ rest)
dot_first [] h = absurd (ground arith)
dot_first (c ∷ xs) h = (xs, ground arith)

-- A namespace contains another exactly if it is empty, is the same, or is a parent of it.
pub namespace_contiene_iff :
    (parent child : Str)
    → (namespace_contiene parent child ≡ true)
      ↔ ((parent ≡ []) ⊎ ((parent ≡ child) ⊎ IsBelow parent child))
unfolding namespace_contiene
namespace_contiene_iff [] child = (λ h. inl refl, λ h. refl)
namespace_contiene_iff (c ∷ parent) child = (sound, complete)
  where
    sound :
        namespace_contiene (c ∷ parent) child ≡ true
        → ((c ∷ parent) ≡ []) ⊎ (((c ∷ parent) ≡ child) ⊎ IsBelow (c ∷ parent) child)
    sound h = elim (Bool-cases ((c ∷ parent) == child)) [
      | inl same ↦ inr (inl ((eq_iff (c ∷ parent) child).0 same))
      | inr other ↦ elim (Bool-cases (starts_with child (c ∷ parent))) [
        | inr no_prefix ↦ absurd (ground (arith, other, no_prefix, h))
        | inl is_prefix ↦
            let (rest, e) =
              dot_first (drop (length (c ∷ parent)) child) (ground (arith, other, is_prefix, h)) in
            inr (inr (rest, cc (append-drop_of_starts_with child (c ∷ parent) is_prefix, e)))
      ]
    ]

    complete :
        ((c ∷ parent) ≡ []) ⊎ (((c ∷ parent) ≡ child) ⊎ IsBelow (c ∷ parent) child)
        → namespace_contiene (c ∷ parent) child ≡ true
    complete (inl e) = absurd (ground (arith, e))
    complete (inr (inl e)) = rw ((eq_iff (c ∷ parent) child).1 e)
    complete (inr (inr (rest, e))) = rw e (
        ground (
          arith,
          starts_with-append (c ∷ parent) (b'.' ∷ rest),
          drop-append (c ∷ parent) (b'.' ∷ rest),
        ))
