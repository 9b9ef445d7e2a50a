-- ===== src/Prelude/Map/Keys.antt =====
-- Which keys a map holds, and that no operation makes a key occur twice.
use mathlib.Core.Path.{◌≡◌, refl, ap, ◌∙◌}
use mathlib.Core.Logic.{◌≢◌, ◌⊎◌, inl, inr}
use mathlib.Core.Bool.{Bool, true, false}
use mathlib.Core.Option.{Option, none, some}
use mathlib.Core.List.{[], ◌∷◌}
use native.Mathlib.Omega.{arith}
use jumpgate_bridge.Prelude.Tests.{if◌then◌else◌, Bool-cases}
use jumpgate_bridge.Prelude.Equality.{Eq, ◌==◌}
use jumpgate_bridge.Prelude.Map.{
  Map, get, has, set, delete, map_values, retain, Unique, has-get, get-set,
}

module _ {ℓ κ} {K : Type ℓ} {V : Type κ} ⦃e : Eq K⦄ where
  pub has-set :
      (m : Map K V) (k j : K) (v : V) → has (set m k v) j ≡ (if k == j then true else has m j)
  unfolding has set
  has-set [] k j v = refl
  has-set ((i, w) ∷ m) k j v =
      ground (arith, e.equals_iff i k, e.equals_iff i j, e.equals_iff k j, has-set m k j v)

  pub has-delete :
      (m : Map K V) (k j : K) → has (delete m k) j ≡ (if k == j then false else has m j)
  unfolding has delete
  has-delete [] k j = ground arith
  has-delete ((i, w) ∷ m) k j =
      ground (arith, e.equals_iff i k, e.equals_iff i j, e.equals_iff k j, has-delete m k j)

  has-map_values : (f : V → V) (m : Map K V) (k : K) → has (map_values f m) k ≡ has m k
  unfolding has map_values
  has-map_values f [] k = refl
  has-map_values f ((i, w) ∷ m) k = ground (arith, has-map_values f m k)

  pub has-retain :
      (p : K → V → Bool) (m : Map K V) (k : K) → has m k ≡ false → has (retain p m) k ≡ false
  unfolding has retain
  has-retain p [] k h = refl
  has-retain p ((i, w) ∷ m) k h = ground (arith, has-retain p m k)

  pub set-Unique : (m : Map K V) (k : K) (v : V) → Unique m → Unique (set m k v)
  unfolding set has
  set-Unique [] k v u = (refl, tt)
  set-Unique ((i, w) ∷ m) k v u =
      ground (arith, e.equals_iff i k, e.equals_iff k i, has-set m k i v, set-Unique m k v u.1)

  pub delete-Unique : (m : Map K V) (k : K) → Unique m → Unique (delete m k)
  unfolding delete
  delete-Unique [] k u = tt
  delete-Unique ((i, w) ∷ m) k u = ground (arith, has-delete m k i, delete-Unique m k u.1)

  pub map_values-Unique : (f : V → V) (m : Map K V) → Unique m → Unique (map_values f m)
  unfolding map_values
  map_values-Unique f [] u = tt
  map_values-Unique f ((i, w) ∷ m) u = (rw (has-map_values f m i) u.0, map_values-Unique f m u.1)

  pub retain-Unique : (p : K → V → Bool) (m : Map K V) → Unique m → Unique (retain p m)
  unfolding retain
  retain-Unique p [] u = tt
  retain-Unique p ((i, w) ∷ m) u = ground (arith, has-retain p m i, retain-Unique p m u.1)

  pub get_absent : (m : Map K V) (k : K) → has m k ≡ false → get m k ≡ none
  get_absent m k h = ground (arith, has-get m k)

  -- In a map without repeated keys a filter keeps the entries that pass, and no others.
  pub get-retain :
      (p : K → V → Bool) (m : Map K V) (k : K)
      → Unique m
      → get (retain p m) k
        ≡ elim (get m k) [ none ↦ none | some v ↦ if p k v then some v else none ]
  unfolding get retain
  get-retain p [] k u = refl
  get-retain p ((i, w) ∷ m) k u =
      ground (arith, e.equals_iff i k, get-retain p m k u.1, get_absent m i u.0)

  -- An entry of a map after `set` is the new one or an old one under another key.
  pub set_inv :
      (m : Map K V) (k j : K) (v w : V)
      → get (set m k v) j ≡ some w
      → ((k ≡ j) × (v ≡ w)) ⊎ ((k ≢ j) × (get m j ≡ some w))
  set_inv m k j v w h = elim (Bool-cases (k == j)) [
    | inl same ↦ inl ((e.equals_iff k j).0 same, ground (arith, get-set m k j v))
    | inr differ ↦ inr (λ p. cc ((e.equals_iff k j).1 p), ground (arith, get-set m k j v))
  ]

  -- An entry of a filtered map is an entry of the map, and passes the test.
  pub retain_inv :
      (p : K → V → Bool) (m : Map K V) (k : K) (w : V)
      → Unique m
      → get (retain p m) k ≡ some w
      → (get m k ≡ some w) × (p k w ≡ true)
  retain_inv p m k w u h = from (get m k) refl (rw (← get-retain p m k u) h)
    where
      from :
          (o : Option V)
          → get m k ≡ o
          → elim o [ none ↦ none | some v ↦ if p k v then some v else none ] ≡ some w
          → (get m k ≡ some w) × (p k w ≡ true)
      from none e q = cc
      from (some v) e q = elim (Bool-cases (p k v)) [
        | inl yes_p ↦ let eq : v ≡ w = ground arith in (e ∙ ap some eq, rw (← eq) yes_p)
        | inr no_p ↦ absurd (ground arith)
      ]

  pub set-set : (m : Map K V) (k : K) (v w : V) → set (set m k v) k w ≡ set m k w
  unfolding set
  set-set [] k v w = ground (arith, e.equals_iff k k)
  set-set ((i, x) ∷ m) k v w = ground (arith, set-set m k v w)
