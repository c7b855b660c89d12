-- ===== src/Prelude/Actions.antt =====
-- Actions on a state that answer or fail, and keep what they have done to the state when they fail:
-- a Rust function of `&mut self` that uses `?`.
use mathlib.Core.Path.{◌≡◌, refl, subst}
use native.Mathlib.Omega.{arith}
use mathlib.Core.List.{List, [], ◌∷◌}
use taple_core.Prelude.Lists.{All}
use taple_core.Prelude.Results.{Result, ok, err}

abbrev pub Action : (S E A : Type 0) → Type 0
Action S E A = S → Result A E × S

module _ {S E : Type 0} where
  unfoldable pub pure : {A : Type 0} → A → Action S E A
  pure a s = (ok a, s)

  unfoldable pub fail : {A : Type 0} → E → Action S E A
  fail e s = (err e, s)

  -- An action that only reads.
  unfoldable pub read : {A : Type 0} → (S → Result A E) → Action S E A
  read f s = (f s, s)

  -- What a write has left: the state as it was, if the write has failed.
  abbrev written : S → Result S E → Result Unit E × S
  written s (ok t) = (ok tt, t)
  written s (err e) = (err e, s)

  -- An action that writes all of it or nothing.
  unfoldable pub write : (S → Result S E) → Action S E Unit
  write f s = written s (f s)

  abbrev after : {A B : Type 0} → (A → Action S E B) → Result A E × S → Result B E × S
  after next (ok a, t) = next a t
  after next (err e, t) = (err e, t)

  infixl 5 ◌>>=◌
  unfoldable pub ◌>>=◌ : {A B : Type 0} → Action S E A → (A → Action S E B) → Action S E B
  (action >>= next) s = after next (action s)

  -- The loop `for x in xs { body(x)?; }`.
  unfoldable pub for_each : {A : Type 0} → (A → Action S E Unit) → List A → Action S E Unit
  unfolding pure ◌>>=◌
  for_each body [] = pure tt
  for_each body (x ∷ xs) = body x >>= λ _. for_each body xs

-- The first condition of what an action has answered, or the second of the error it has given.
abbrev pub Outcome :
    {S E A : Type 0} → (A → S → Type 0) → (E → S → Type 0) → Result A E × S → Type 0
Outcome Q F (ok a, t) = Q a t
Outcome Q F (err e, t) = F e t

-- From a state with the precondition the action comes to a result and a state with the
-- postcondition, or to an error and a state with that of errors.
pub record Ensures {S E A : Type 0} (P : S → Type 0) (action : Action S E A) (Q : A → S → Type 0)
    (F : E → S → Type 0) : Type 0 where
  pub outcome : (s : S) → P s → Outcome Q F (action s)

after_all :
    {S E A : Type 0} (R : S → Type 0) (r : Result A E × S) → Outcome (λ _. R) (λ _. R) r → R r.1
after_all R (ok a, t) h = h
after_all R (err e, t) h = h

after_error :
    {S E A : Type 0} (Q : A → S → Type 0) (F : E → Type 0) (r : Result A E × S) (e : E)
    → Outcome Q (λ f _. F f) r
    → r.0 ≡ err e
    → F e
after_error Q F (ok a, t) e h k = absurd (ground (arith, k))
after_error Q F (err f, t) e h k = subst F (cc k) h

-- A condition of the state that an action ensures, however it ends.
pub Ensures-state :
    {S E A : Type 0} {P R : S → Type 0} {action : Action S E A}
    → Ensures P action (λ _. R) (λ _. R)
    → (s : S) → P s
    → R (action s).1
Ensures-state {R} {action} ensures s p = after_all R (action s) (ensures.outcome s p)

-- A condition of the error with which an action ends.
pub Ensures-error :
    {S E A : Type 0} {P : S → Type 0} {Q : A → S → Type 0} {F : E → Type 0} {action : Action S E A}
    → Ensures P action Q (λ f _. F f)
    → (s : S) (e : E) → P s
    → (action s).0 ≡ err e
    → F e
Ensures-error {Q} {F} {action} ensures s e p h =
    after_error Q F (action s) e (ensures.outcome s p) h

module _ {S E A : Type 0} (Q : A → S → Type 0) (F : E → S → Type 0) where
  read-Outcome :
      (s : S) (r : Result A E)
      → ((a : A) → r ≡ ok a → Q a s)
      → ((e : E) → r ≡ err e → F e s)
      → Outcome Q F (r, s)
  read-Outcome s (ok a) h k = h a refl
  read-Outcome s (err e) h k = k e refl

  after-Outcome :
      {B : Type 0} (R : B → S → Type 0) (next : B → Action S E A)
      → ((b : B) → Ensures (R b) (next b) Q F)
      → (r : Result B E × S) → Outcome R F r
      → Outcome Q F (after next r)
  after-Outcome R next k (ok b, t) h = (k b).outcome t h
  after-Outcome R next k (err e, t) h = h

  weaker-Outcome :
      (R : A → S → Type 0) (G : E → S → Type 0)
      → ((a : A) (t : S) → Q a t → R a t)
      → ((e : E) (t : S) → F e t → G e t)
      → (r : Result A E × S) → Outcome Q F r
      → Outcome R G r
  weaker-Outcome R G h k (ok a, t) = h a t
  weaker-Outcome R G h k (err e, t) = k e t

written-Outcome :
    {S E : Type 0} (Q : Unit → S → Type 0) (F : E → S → Type 0) (s : S) (r : Result S E)
    → ((t : S) → r ≡ ok t → Q tt t)
    → ((e : E) → r ≡ err e → F e s)
    → Outcome Q F (written s r)
written-Outcome Q F s (ok t) h k = h t refl
written-Outcome Q F s (err e) h k = k e refl

module _ {S E A : Type 0} {P : S → Type 0} {Q : A → S → Type 0} {F : E → S → Type 0} where
  pub Ensures-pure : (a : A) → ((s : S) → P s → Q a s) → Ensures P (pure a) Q F
  unfolding pure
  Ensures-pure a h = record { outcome = h }

  pub Ensures-fail : (e : E) → ((s : S) → P s → F e s) → Ensures P (fail e) Q F
  unfolding fail
  Ensures-fail e h = record { outcome = h }

  pub Ensures-read :
      (f : S → Result A E)
      → ((s : S) → P s → (a : A) → f s ≡ ok a → Q a s)
      → ((s : S) → P s → (e : E) → f s ≡ err e → F e s)
      → Ensures P (read f) Q F
  unfolding read
  Ensures-read f h k = record { outcome = λ s p. read-Outcome Q F s (f s) (h s p) (k s p) }

  pub Ensures->>= :
      {B : Type 0} {R : B → S → Type 0} {action : Action S E B} {next : B → Action S E A}
      → Ensures P action R F
      → ((b : B) → Ensures (R b) (next b) Q F)
      → Ensures P (action >>= next) Q F
  unfolding ◌>>=◌
  Ensures->>= {R} {action} {next} h k = record {
    outcome = λ s p. after-Outcome Q F R next k (action s) (h.outcome s p);
  }

  -- A stronger precondition.
  pub Ensures-stronger :
      {O : S → Type 0} {action : Action S E A}
      → ((s : S) → O s → P s)
      → Ensures P action Q F
      → Ensures O action Q F
  Ensures-stronger h ensures = record { outcome = λ s o. ensures.outcome s (h s o) }

  -- A postcondition that speaks of the state before.
  pub Ensures-from :
      {R : S → S → Type 0} {action : Action S E A}
      → ((s : S) → R s s)
      → ((s : S) → P s → Ensures (R s) action Q F)
      → Ensures P action Q F
  Ensures-from h ensures = record { outcome = λ s p. (ensures s p).outcome s (h s) }

  -- Weaker postconditions.
  pub Ensures-weaker :
      {R : A → S → Type 0} {G : E → S → Type 0} {action : Action S E A}
      → ((a : A) (t : S) → Q a t → R a t)
      → ((e : E) (t : S) → F e t → G e t)
      → Ensures P action Q F
      → Ensures P action R G
  Ensures-weaker {R} {G} {action} h k ensures = record {
    outcome = λ s p. weaker-Outcome Q F R G h k (action s) (ensures.outcome s p);
  }

pub Ensures-write :
    {S E : Type 0} {P : S → Type 0} {Q : Unit → S → Type 0} {F : E → S → Type 0}
    (f : S → Result S E)
    → ((s t : S) → P s → f s ≡ ok t → Q tt t)
    → ((s : S) → P s → (e : E) → f s ≡ err e → F e s)
    → Ensures P (write f) Q F
unfolding write
Ensures-write {Q} {F} f h k = record {
  outcome = λ s p. written-Outcome Q F s (f s) (λ t. h s t p) (k s p);
}

-- A loop whose body keeps a condition.
pub Ensures-for_each :
    {S E A : Type 0} {P : S → Type 0} {F : E → S → Type 0} (body : A → Action S E Unit)
    (xs : List A)
    → All (λ x. Ensures P (body x) (λ _ t. P t) F) xs
    → Ensures P (for_each body xs) (λ _ t. P t) F
unfolding for_each
Ensures-for_each body [] h = Ensures-pure tt (λ s p. p)
Ensures-for_each body (x ∷ xs) h = Ensures->>= h.0 (λ _. Ensures-for_each body xs h.1)
