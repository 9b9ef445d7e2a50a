-- ===== src/Prelude/Outcome/Rules.antt =====
-- What holds after an operation, one rule for each kind of step: a step that may throw, and that
-- leaves the state as it is, needs the rest of the operation only where it succeeds.
use mathlib.Core.Path.{◌≡◌, refl}
use mathlib.Core.Logic.{◌⊎◌, inl, inr}
use mathlib.Core.Bool.{Bool, true, false}
use jumpgate_bridge.Prelude.Outcome.{Error, Result, ok, err, Action, continue, require, ◌>>=◌}

module _ {ℓ} {S A B : Type ℓ} (P : Result B × S → Type ℓ) where
  pub after_result :
      (r : Result A) (f : A → Action S B) (s : S)
      → ((e : Error) → r ≡ err e → P (err e, s))
      → ((a : A) → r ≡ ok a → P (f a s))
      → P (continue r f s)
  after_result (ok a) f s fails works = works a refl
  after_result (err e) f s fails works = fails e refl

module _ {ℓ} {S B : Type ℓ} (P : Result B × S → Type ℓ) where
  pub after_require :
      (b : Bool) (e : Error) (f : Unit {ℓ} → Action S B) (s : S)
      → (b ≡ false → P (err e, s))
      → (b ≡ true → P (f tt s))
      → P ((require b e >>= f) s)
  after_require true e f s fails works = works refl
  after_require false e f s fails works = fails refl

module _ {ℓ} {S A B : Type ℓ} (Q : S → Type ℓ) (P : Result B × S → Type ℓ) where
  -- A step that may change the state, and of which only `Q` is known.
  pub after_action :
      (m : Action S A) (f : A → Action S B) (s : S)
      → Q (m s).1
      → ((e : Error) (t : S) → Q t → P (err e, t))
      → ((a : A) (t : S) → Q t → P (f a t))
      → P ((m >>= f) s)
  after_action m f s q fails works =
      after_result P (m s).0 f (m s).1 (λ e _. fails e (m s).1 q) (λ a _. works a (m s).1 q)

pub Result-cases {ℓ} :
    {A : Type ℓ} (r : Result A) → ((a : A) × (r ≡ ok a)) ⊎ ((e : Error) × (r ≡ err e))
Result-cases (ok a) = inl (a, refl)
Result-cases (err e) = inr (e, refl)
