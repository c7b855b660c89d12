-- ===== src/Prelude/Results.antt =====
-- Rust's `Result<A, E>`, with `?` as bind.
use mathlib.Core.Path.{◌≡◌, refl}
use mathlib.Core.Option.{Option, none, some}
use mathlib.Core.Bool.{Bool, true, false}
use native.Mathlib.Omega.{arith}
use mathlib.Core.Logic.{◌⊎◌, inl, inr}

pub data Result (A E : Type 0) : Type 0 where
  ok : A → Result A E
  err : E → Result A E

module _ {A E : Type 0} where
  -- `Option::ok_or`
  abbrev pub ok_or : Option A → E → Result A E
  ok_or none e = err e
  ok_or (some a) e = ok a

  abbrev pub is_ok : Result A E → Bool
  is_ok (ok a) = true
  is_ok (err e) = false

  pub Result-cases : (r : Result A E) → ((a : A) × (r ≡ ok a)) ⊎ ((e : E) × (r ≡ err e))
  Result-cases (ok a) = inl (a, refl)
  Result-cases (err e) = inr (e, refl)

-- `Result::map_err`
abbrev pub map_err : {A E F : Type 0} → (E → F) → Result A E → Result A F
map_err f (ok a) = ok a
map_err f (err e) = err (f e)

-- `?` hands an error on, whatever the call behind it would have done.
infixl 5 ◌>>=◌
abbrev pub ◌>>=◌ : {A B E : Type 0} → Result A E → (next : A → Result B E) → Result B E
err failure >>= next = err failure
ok value >>= next = next value

-- A chain that succeeds has succeeded at its first call.
pub >>=-eq-ok :
    {A B E : Type 0} (r : Result A E) (next : A → Result B E) {out : B}
    → (r >>= next) ≡ ok out
    → (value : A) × (r ≡ ok value) × (next value ≡ ok out)
>>=-eq-ok (err failure) next h = absurd (ground (arith, h))
>>=-eq-ok (ok value) next h = (value, refl, h)

pub map_err-eq-ok :
    {A E F : Type 0} (f : E → F) (m : Result A E) {a : A} → map_err f m ≡ ok a → m ≡ ok a
map_err-eq-ok f (ok a) h = cc
map_err-eq-ok f (err e) h = cc

-- An error that is returned, or a Rust panic (`unwrap`, `expect`, an index out of range).
pub data Fault (E : Type 0) : Type 0 where
  raise : E → Fault E
  panic : Fault E

-- `Option::unwrap`
abbrev pub unwrap : {A E : Type 0} → Option A → Result A (Fault E)
unwrap none = err panic
unwrap (some a) = ok a

abbrev pub is_panic : {A E : Type 0} → Result A (Fault E) → Bool
is_panic (err panic) = true
is_panic _ = false

-- `map_err`, which a panic does not reach.
abbrev pub map_raise : {A E F : Type 0} → (E → F) → Result A (Fault E) → Result A (Fault F)
map_raise f (ok a) = ok a
map_raise f (err (raise e)) = err (raise (f e))
map_raise f (err panic) = err panic

pub map_raise-eq-ok :
    {A E F : Type 0} (f : E → F) (m : Result A (Fault E)) {a : A} → map_raise f m ≡ ok a → m ≡ ok a
map_raise-eq-ok f (ok a) h = cc
map_raise-eq-ok f (err (raise e)) h = cc
map_raise-eq-ok f (err panic) h = cc
