-- ===== src/Providers/Fencing.antt =====
-- A fence never goes back, and a fence that is allocated is above all that are in use.
use jumpgate_bridge.Prelude.{
  ℕ, ◌≤◌, ◌<◌, ◌==◌, list_eq, nat_eq, ◌≡◌, refl, sym, ap, ◌∙◌, inl, inr, true, false, some, arith,
  Bool-cases, Option-cases,
}
use jumpgate_bridge.Prelude.Text.{Text, text_iff}
use jumpgate_bridge.Prelude.Map.{get, set, get-set}
use jumpgate_bridge.Prelude.Map.Keys.{set_inv}
use jumpgate_bridge.Prelude.Outcome.{ok}
use jumpgate_bridge.Value.{Value, string, undefined, null, other, boolean, number, array, object}
use jumpgate_bridge.RepositoryUtils.Fences.{assert_mutation_fence, is_mutation_fence, big_int}
use jumpgate_bridge.RepositoryUtils.Fences.Order.{compare_numbers, compare_mutation_fences_numeric}
use jumpgate_bridge.Providers.{
  Collection, Providers, zero_fence, collection_of, is_before, is_after, rebase,
}

module _ (a b : Text) (ha : is_mutation_fence a ≡ true) (hb : is_mutation_fence b ≡ true) where
  pub is_after-big_int : is_after a b ≡ false → big_int a ≤ big_int b
  unfolding is_after compare_numbers
  is_after-big_int h = ground (arith, compare_mutation_fences_numeric a b ha hb)

  pub is_after-lt : is_after a b ≡ true → big_int b < big_int a
  unfolding is_after compare_numbers
  is_after-lt h = ground (arith, compare_mutation_fences_numeric a b ha hb)

  pub is_before-big_int : is_before a b ≡ false → big_int b ≤ big_int a
  unfolding is_before compare_numbers
  is_before-big_int h = ground (arith, compare_mutation_fences_numeric a b ha hb)

pub canonical :
    (v : Value) (fence : Text) → assert_mutation_fence v ≡ ok fence → is_mutation_fence fence ≡ true
unfolding assert_mutation_fence
canonical (string s) fence = elim (Bool-cases (is_mutation_fence s)) [
  | inr e ↦ rw e (λ h. cc)
  | inl e ↦ rw e (λ h. same_fence s h e)
]
  where
    same_fence :
        (t : Text) → ok t ≡ ok fence → is_mutation_fence t ≡ true → is_mutation_fence fence ≡ true
    same_fence t h e = cc
canonical undefined fence = λ h. cc
canonical null fence = λ h. cc
canonical other fence = λ h. cc
canonical (boolean b) fence = λ h. cc
canonical (number n) fence = λ h. cc
canonical (array vs) fence = λ h. cc
canonical (object fs) fence = λ h. cc

pub zero_canonical : is_mutation_fence zero_fence ≡ true
unfolding is_mutation_fence
zero_canonical = refl

-- Every fence in use is at most the counter, and that of the profile `id` is at least `low`.
pub record IsFenced (id : Text) (low : ℕ) (s : Providers) : Type 0 where
  pub counter : is_mutation_fence s.mutation_fence_counter ≡ true
  pub covered :
      (k : Text) (c : Collection)
      → get s.collections k ≡ some c
      → (is_mutation_fence c.mutation_fence ≡ true)
        × (big_int c.mutation_fence ≤ big_int s.mutation_fence_counter)
  pub floor : low ≤ big_int (collection_of (get s.collections id)).mutation_fence

module _ (id : Text) (low : ℕ) where
  -- The counter follows a fence that is stored.
  pub stored-IsFenced :
      (k fence : Text) (c : Collection) (s : Providers)
      → c.mutation_fence ≡ fence
      → is_mutation_fence fence ≡ true
      → big_int (collection_of (get s.collections k)).mutation_fence ≤ big_int fence
      → IsFenced id low s
      → IsFenced id low (rebase fence (record s { collections = set s.collections k c }))
  unfolding rebase collection_of
  stored-IsFenced k fence c s here can higher w =
      elim (Bool-cases (is_after fence s.mutation_fence_counter)) [
        | inl e ↦ rw e (record {
          counter = can;
          covered = λ k' c' h. elim (set_inv s.collections k k' c c' h) [
            | inl (e', f) ↦ (
              ap is_mutation_fence (sym (ap (λ x. x.mutation_fence) f) ∙ here) ∙ can,
              omega (arith, ap big_int (sym (ap (λ x. x.mutation_fence) f) ∙ here)),
            )
            | inr (ne, at) ↦
                let (can', le) = w.covered k' c' at in
                (
                  can',
                  omega (arith, le, is_after-lt fence s.mutation_fence_counter can w.counter e),
                )
          ];
          floor = floor';
        })
        | inr e ↦ rw e (record {
          counter = w.counter;
          covered = λ k' c' h. elim (set_inv s.collections k k' c c' h) [
            | inl (e', f) ↦ (
              ap is_mutation_fence (sym (ap (λ x. x.mutation_fence) f) ∙ here) ∙ can,
              omega (
                arith,
                ap big_int (sym (ap (λ x. x.mutation_fence) f) ∙ here),
                is_after-big_int fence s.mutation_fence_counter can w.counter e,
              ),
            )
            | inr (ne, at) ↦ w.covered k' c' at
          ];
          floor = floor';
        })
      ]
    where
      floor_here : k ≡ id → low ≤ big_int c.mutation_fence
      floor_here e = omega (
        arith,
        higher,
        ap big_int here,
        ap (λ j. big_int (collection_of (get s.collections j)).mutation_fence) e,
        w.floor,
      )

      floor' : low ≤ big_int (collection_of (get (set s.collections k c) id)).mutation_fence
      floor' = rw get-set (elim (Bool-cases (k == id)) [
        | inr e ↦ rw e w.floor
        | inl e ↦ rw e (floor_here ((text_iff k id).0 e))
      ])

  pub rebase-IsFenced :
      (fence : Text) (s : Providers)
      → is_mutation_fence fence ≡ true
      → IsFenced id low s
      → IsFenced id low (rebase fence s)
  unfolding rebase
  rebase-IsFenced fence s can w = elim (Bool-cases (is_after fence s.mutation_fence_counter)) [
    | inr e ↦ rw e w
    | inl e ↦ rw e (record {
      counter = can;
      covered = λ k c h.
          let (can', le) = w.covered k c h in
          (can', omega (arith, le, is_after-lt fence s.mutation_fence_counter can w.counter e));
      floor = w.floor;
    })
  ]

  -- What the stored fence of any profile is.
  pub stored_canonical :
      (k : Text) (s : Providers)
      → IsFenced id low s
      → is_mutation_fence (collection_of (get s.collections k)).mutation_fence ≡ true
  unfolding collection_of
  stored_canonical k s w = elim (Option-cases (get s.collections k)) [
    | inl e ↦ rw e zero_canonical
    | inr (c, e) ↦ rw e (w.covered k c e).0
  ]
