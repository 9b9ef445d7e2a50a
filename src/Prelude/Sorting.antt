-- ===== src/Prelude/Sorting.antt =====
-- Array.prototype.sort with a comparator, slice from the start, and what a sorted slice leaves out.
use Prim.Native.Nat.{ℕ, zero, suc, ◌≤◌}
use mathlib.Core.Path.{◌≡◌, refl, ap}
use mathlib.Core.Logic.{◌⊎◌, inl, inr}
use mathlib.Core.Bool.{Bool, true, false}
use mathlib.Core.List.{List, [], ◌∷◌, Memᴰ}
use native.Mathlib.Omega.{arith}
use jumpgate_bridge.Prelude.Tests.{if◌then◌else◌, Bool-cases}
use jumpgate_bridge.Prelude.Lists.{length}

module _ {ℓ} {A : Type ℓ} where
  -- Array.prototype.filter
  unfoldable pub filter : (A → Bool) → List A → List A
  filter p [] = []
  filter p (x ∷ xs) = let rest = filter p xs in if p x then x ∷ rest else rest

  -- slice(0, n)
  unfoldable pub take : ℕ → List A → List A
  take zero xs = []
  take (suc n) [] = []
  take (suc n) (x ∷ xs) = x ∷ take n xs

  -- `before x y`: the comparator puts x strictly before y. Equals keep their order.
  unfoldable pub insert : (A → A → Bool) → A → List A → List A
  insert before x [] = x ∷ []
  insert before x (y ∷ ys) =
      let rest = insert before x ys in if before y x then y ∷ rest else x ∷ y ∷ ys

  unfoldable pub sort : (A → A → Bool) → List A → List A
  unfolding insert
  sort before [] = []
  sort before (x ∷ xs) = insert before x (sort before xs)

  pub Memᴰ-cases : {x y : A} {ys : List A} → Memᴰ x (y ∷ ys) → (x ≡ y) ⊎ Memᴰ x ys
  Memᴰ-cases (Memᴰ.head e) = inl e
  Memᴰ-cases (Memᴰ.tail h) = inr h

  pub filter_inv :
      (p : A → Bool) (xs : List A) (x : A) → Memᴰ x (filter p xs) → Memᴰ x xs × (p x ≡ true)
  unfolding filter
  filter_inv p [] x = λ h. elim h [ ]
  filter_inv p (y ∷ ys) x = elim (Bool-cases (p y)) [
    | inr e ↦ rw e (λ h. let (m, t) = filter_inv p ys x h in (Memᴰ.tail m, t))
    | inl e ↦ rw e (λ h. elim (Memᴰ-cases h) [
      | inl same ↦ (Memᴰ.head same, rw (same, e) refl)
      | inr h' ↦ let (m, t) = filter_inv p ys x h' in (Memᴰ.tail m, t)
    ])
  ]

  pub filter-Memᴰ :
      (p : A → Bool) (xs : List A) (x : A) → Memᴰ x xs → p x ≡ true → Memᴰ x (filter p xs)
  unfolding filter
  filter-Memᴰ p [] x h e = elim h [ ]
  filter-Memᴰ p (y ∷ ys) x (Memᴰ.head same) e = rw (← same, e) (Memᴰ.head refl)
  filter-Memᴰ p (y ∷ ys) x (Memᴰ.tail h) e = elim (Bool-cases (p y)) [
    | inl e' ↦ rw e' (Memᴰ.tail (filter-Memᴰ p ys x h e))
    | inr e' ↦ rw e' (filter-Memᴰ p ys x h e)
  ]

  pub take_inv : (n : ℕ) (xs : List A) (x : A) → Memᴰ x (take n xs) → Memᴰ x xs
  unfolding take
  take_inv zero xs x h = elim h [ ]
  take_inv (suc n) [] x h = elim h [ ]
  take_inv (suc n) (y ∷ ys) x (Memᴰ.head e) = Memᴰ.head e
  take_inv (suc n) (y ∷ ys) x (Memᴰ.tail h) = Memᴰ.tail (take_inv n ys x h)

  pub length-take : (n : ℕ) (xs : List A) → length (take n xs) ≤ n
  unfolding take
  length-take zero xs = omega arith
  length-take (suc n) [] = omega arith
  length-take (suc n) (x ∷ xs) = omega (arith, length-take n xs)

  module _ (before : A → A → Bool) where
    insert_inv : (x : A) (xs : List A) (y : A) → Memᴰ y (insert before x xs) → Memᴰ y (x ∷ xs)
    unfolding insert
    insert_inv x [] y = λ h. h
    insert_inv x (z ∷ zs) y = elim (Bool-cases (before z x)) [
      | inr e ↦ rw e (λ h. h)
      | inl e ↦ rw e (λ h. elim (Memᴰ-cases h) [
        | inl same ↦ Memᴰ.tail (Memᴰ.head same)
        | inr h' ↦ elim (Memᴰ-cases (insert_inv x zs y h')) [
          | inl same ↦ Memᴰ.head same
          | inr h'' ↦ Memᴰ.tail (Memᴰ.tail h'')
        ]
      ])
    ]

    insert-Memᴰ : (x : A) (xs : List A) (y : A) → Memᴰ y (x ∷ xs) → Memᴰ y (insert before x xs)
    unfolding insert
    insert-Memᴰ x [] y h = h
    insert-Memᴰ x (z ∷ zs) y h = elim (Bool-cases (before z x)) [
      | inr e ↦ rw e h
      | inl e ↦ rw e (elim (Memᴰ-cases h) [
        | inl same ↦ Memᴰ.tail (insert-Memᴰ x zs y (Memᴰ.head same))
        | inr h' ↦ elim (Memᴰ-cases h') [
          | inl same ↦ Memᴰ.head same
          | inr h'' ↦ Memᴰ.tail (insert-Memᴰ x zs y (Memᴰ.tail h''))
        ]
      ])
    ]

    pub sort_inv : (xs : List A) (y : A) → Memᴰ y (sort before xs) → Memᴰ y xs
    unfolding sort
    sort_inv [] y h = h
    sort_inv (x ∷ xs) y h = elim (insert_inv x (sort before xs) y h) [
      | Memᴰ.head e ↦ Memᴰ.head e
      | Memᴰ.tail h' ↦ Memᴰ.tail (sort_inv xs y h')
    ]

    pub sort-Memᴰ : (xs : List A) (y : A) → Memᴰ y xs → Memᴰ y (sort before xs)
    unfolding sort
    sort-Memᴰ [] y h = elim h [ ]
    sort-Memᴰ (x ∷ xs) y (Memᴰ.head e) = insert-Memᴰ x (sort before xs) y (Memᴰ.head e)
    sort-Memᴰ (x ∷ xs) y (Memᴰ.tail h) =
        insert-Memᴰ x (sort before xs) y (Memᴰ.tail (sort-Memᴰ xs y h))

    -- The comparator looks at a number first.
    module _ (key : A → ℕ) (earlier : (x y : A) → before x y ≡ true → key x ≤ key y)
        (later : (x y : A) → before x y ≡ false → key y ≤ key x) where
      Ascending : List A → Type ℓ
      Ascending [] = Unit
      Ascending (x ∷ xs) = ((y : A) → Memᴰ y xs → key x ≤ key y) × Ascending xs

      insert-Ascending : (x : A) (xs : List A) → Ascending xs → Ascending (insert before x xs)
      unfolding insert Ascending
      insert-Ascending x [] a = (λ y h. elim h [ ], tt)
      insert-Ascending x (z ∷ zs) (least, a) = elim (Bool-cases (before z x)) [
        | inl e ↦
            rw e (λ y h. first (earlier z x e) y (insert_inv x zs y h), insert-Ascending x zs a)
        | inr e ↦ rw e (λ y h. second (later z x e) y h, (least, a))
      ]
        where
          first : key z ≤ key x → (y : A) → Memᴰ y (x ∷ zs) → key z ≤ key y
          first le y (Memᴰ.head same) = rw same le
          first le y (Memᴰ.tail h) = least y h

          second : key x ≤ key z → (y : A) → Memᴰ y (z ∷ zs) → key x ≤ key y
          second le y (Memᴰ.head same) = rw same le
          second le y (Memᴰ.tail h) = omega (arith, le, least y h)

      sort-Ascending : (xs : List A) → Ascending (sort before xs)
      unfolding sort Ascending
      sort-Ascending [] = tt
      sort-Ascending (x ∷ xs) = insert-Ascending x (sort before xs) (sort-Ascending xs)

      -- What a slice leaves out comes later, and only a full slice leaves anything out.
      take-Ascending :
          (n : ℕ) (xs : List A) (y : A)
          → Ascending xs
          → Memᴰ y xs
          → (Memᴰ y (take n xs) → ⊥)
          → (length (take n xs) ≡ n) × ((x : A) → Memᴰ x (take n xs) → key x ≤ key y)
      unfolding take Ascending
      take-Ascending zero xs y a h out = (refl, λ x m. elim m [ ])
      take-Ascending (suc n) [] y a h out = elim h [ ]
      take-Ascending (suc n) (x ∷ xs) y (least, a) (Memᴰ.head e) out = absurd (out (Memᴰ.head e))
      take-Ascending (suc n) (x ∷ xs) y (least, a) (Memᴰ.tail h) out =
          let (full, all) = take-Ascending n xs y a h (λ m. out (Memᴰ.tail m)) in
          (ap suc full, from all)
        where
          from :
              ((z : A) → Memᴰ z (take n xs) → key z ≤ key y)
              → (z : A) → Memᴰ z (x ∷ take n xs)
              → key z ≤ key y
          from all z (Memᴰ.head e) = rw e (least y h)
          from all z (Memᴰ.tail m) = all z m

      -- The first `n` in the comparator's order of those that pass a test.
      pub first_of-left_out :
          (p : A → Bool) (n : ℕ) (xs : List A) (y : A)
          → Memᴰ y xs
          → p y ≡ true
          → (Memᴰ y (take n (sort before (filter p xs))) → ⊥)
          → (length (take n (sort before (filter p xs))) ≡ n)
            × ((x : A) → Memᴰ x (take n (sort before (filter p xs))) → key x ≤ key y)
      first_of-left_out p n xs y h e out =
          take-Ascending n (sort before (filter p xs)) y (sort-Ascending (filter p xs))
            (sort-Memᴰ (filter p xs) y (filter-Memᴰ p xs y h e)) out

    pub first_of_inv :
        (p : A → Bool) (n : ℕ) (xs : List A) (x : A)
        → Memᴰ x (take n (sort before (filter p xs)))
        → Memᴰ x xs × (p x ≡ true)
    first_of_inv p n xs x h =
        filter_inv p xs x (sort_inv (filter p xs) x (take_inv n (sort before (filter p xs)) x h))
