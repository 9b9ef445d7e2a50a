-- ===== src/Prelude/Equality.antt =====
-- `===` on the types that the program compares.
use Prim.Native.Nat.{ℕ}
use mathlib.Core.Path.{◌≡◌}
use mathlib.Core.Logic.{◌↔◌}
use mathlib.Core.Bool.{Bool, true, false, ◌&&◌}
use mathlib.Core.Option.{Option, none, some}
use mathlib.Core.List.{List, [], ◌∷◌}
use native.Mathlib.Omega.{arith}
use jumpgate_bridge.Prelude.Tests.{◌==◌ as nat_beq, ==_iff}

-- An interface that decides whether two values are the same.
pub record Eq {ℓ} (A : Type ℓ) : Type ℓ where
  pub equals : A → A → Bool
  pub equals_iff : (x y : A) → (equals x y ≡ true) ↔ (x ≡ y)

module _ {ℓ} {A : Type ℓ} ⦃same : Eq A⦄ where
  infix 50 ◌==◌
  abbrev pub ◌==◌ : A → A → Bool
  x == y = same.equals x y

module _ {ℓ} {A : Type ℓ} ⦃e : Eq A⦄ where
  unfoldable pub list_beq : List A → List A → Bool
  list_beq [] [] = true
  list_beq (x ∷ xs) (y ∷ ys) = e.equals x y && list_beq xs ys
  list_beq _ _ = false

  pub list_beq_iff : (xs ys : List A) → (list_beq xs ys ≡ true) ↔ (xs ≡ ys)
  unfolding list_beq
  list_beq_iff [] [] = ground arith
  list_beq_iff [] (y ∷ ys) = ground arith
  list_beq_iff (x ∷ xs) [] = ground arith
  list_beq_iff (x ∷ xs) (y ∷ ys) = ground (arith, e.equals_iff x y, list_beq_iff xs ys)

  instance abbrev pub list_eq : Eq (List A)
  list_eq = record { equals = list_beq; equals_iff = list_beq_iff }

  unfoldable pub option_beq : Option A → Option A → Bool
  option_beq none none = true
  option_beq (some a) (some b) = e.equals a b
  option_beq _ _ = false

  pub option_beq_iff : (a b : Option A) → (option_beq a b ≡ true) ↔ (a ≡ b)
  unfolding option_beq
  option_beq_iff none none = ground arith
  option_beq_iff none (some b) = ground arith
  option_beq_iff (some a) none = ground arith
  option_beq_iff (some a) (some b) = ground (arith, e.equals_iff a b)

  instance abbrev pub option_eq : Eq (Option A)
  option_eq = record { equals = option_beq; equals_iff = option_beq_iff }

instance abbrev pub nat_eq : Eq ℕ
nat_eq = record { equals = nat_beq; equals_iff = ==_iff }
