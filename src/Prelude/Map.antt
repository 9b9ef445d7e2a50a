-- ===== src/Prelude/Map.antt =====
-- The JavaScript `Map` in insertion order: `set` on a present key keeps the key's place.
pub mod Keys
use Prim.Native.Nat.{ℕ}
use mathlib.Core.Path.{◌≡◌, refl}
use mathlib.Core.Logic.{◌⊎◌, inl, inr}
use mathlib.Core.Bool.{Bool, true, false, not}
use mathlib.Core.Option
use mathlib.Core.Option.{Option, none, some}
use mathlib.Core.List.{List, [], ◌∷◌}
use native.Mathlib.Omega.{arith}
use jumpgate_bridge.Prelude.Tests.{if◌then◌else◌}
use jumpgate_bridge.Prelude.Lists.{length}
use jumpgate_bridge.Prelude.Equality.{Eq, ◌==◌}

abbrev pub Map {ℓ κ} : Type ℓ → Type κ → Type (ℓ ⊔ κ)
Map K V = List (K × V)

module _ {ℓ κ} {K : Type ℓ} {V : Type κ} where
  -- A loop over the values that changes them in place.
  unfoldable pub map_values : (V → V) → Map K V → Map K V
  map_values f [] = []
  map_values f ((j, w) ∷ m) = (j, f w) ∷ map_values f m

  -- A loop over the entries that deletes those that fail the test.
  unfoldable pub retain : (K → V → Bool) → Map K V → Map K V
  retain p [] = []
  retain p ((j, w) ∷ m) = let rest = retain p m in if p j w then (j, w) ∷ rest else rest

  unfoldable pub values : Map K V → List V
  values [] = []
  values ((j, w) ∷ m) = w ∷ values m

module _ {ℓ κ} {K : Type ℓ} {V : Type κ} ⦃e : Eq K⦄ where
  unfoldable pub get : Map K V → K → Option V
  get [] k = none
  get ((j, v) ∷ m) k = if j == k then some v else get m k

  unfoldable pub has : Map K V → K → Bool
  has [] k = false
  has ((j, v) ∷ m) k = if j == k then true else has m k

  unfoldable pub set : Map K V → K → V → Map K V
  set [] k v = (k, v) ∷ []
  set ((j, w) ∷ m) k v = if j == k then (j, v) ∷ m else (j, w) ∷ set m k v

  unfoldable pub delete : Map K V → K → Map K V
  delete [] k = []
  delete ((j, w) ∷ m) k = let rest = delete m k in if j == k then rest else (j, w) ∷ rest

  -- No key occurs twice.
  abbrev pub Unique : Map K V → Type 0
  Unique [] = Unit
  Unique ((j, w) ∷ m) = (has m j ≡ false) × Unique m

  pub get-set :
      (m : Map K V) (k j : K) (v : V) → get (set m k v) j ≡ (if k == j then some v else get m j)
  unfolding get set
  get-set [] k j v = refl
  get-set ((i, w) ∷ m) k j v =
      ground (arith, e.equals_iff i k, e.equals_iff i j, e.equals_iff k j, get-set m k j v)

  pub get-delete : (m : Map K V) (k j : K) → get (delete m k) j ≡ (if k == j then none else get m j)
  unfolding get delete
  get-delete [] k j = ground arith
  get-delete ((i, w) ∷ m) k j =
      ground (arith, e.equals_iff i k, e.equals_iff i j, e.equals_iff k j, get-delete m k j)

  pub has-get : (m : Map K V) (k : K) → has m k ≡ elim (get m k) [ none ↦ false | some _ ↦ true ]
  unfolding has get
  has-get [] k = refl
  has-get ((i, w) ∷ m) k = ground (arith, has-get m k)

  pub get-map_values :
      (f : V → V) (m : Map K V) (k : K) → get (map_values f m) k ≡ Option.map f (get m k)
  unfolding get map_values
  get-map_values f [] k = refl
  get-map_values f ((i, w) ∷ m) k = ground (arith, get-map_values f m k)

  -- Where a value under a key of the mapped map comes from.
  pub map_values_inv :
      (f : V → V) (m : Map K V) (k : K) (w : V)
      → get (map_values f m) k ≡ some w
      → (v : V) × (get m k ≡ some v) × (w ≡ f v)
  map_values_inv f m k w h = from (get m k) refl (rw (← get-map_values f m k) h)
    where
      from :
          (o : Option V)
          → get m k ≡ o
          → Option.map f o ≡ some w
          → (v : V) × (get m k ≡ some v) × (w ≡ f v)
      from none e p = cc
      from (some v) e p = (v, e, cc)
