-- ===== src/Providers/Steps.antt =====
-- Every operation keeps the fences below the counter, and those of a profile above its floor.
use jumpgate_bridge.Prelude.{
  ℕ, ◌≤◌, ◌==◌, list_eq, nat_eq, ◌≡◌, ◌≢◌, refl, sym, ap, ◌∙◌, inl, inr, true, false, not, Option,
  none, some, [], arith, Bool-cases,
}
use jumpgate_bridge.Prelude.Text.{Text, text, text_iff}
use jumpgate_bridge.Prelude.Map.{get, get-delete}
use jumpgate_bridge.Prelude.Map.Keys.{set-set}
use jumpgate_bridge.Prelude.Outcome.{Result, ok}
use jumpgate_bridge.Prelude.Outcome.Rules.{after_result, after_require}
use jumpgate_bridge.Value.{
  Value, Number, string, undefined, null, other, boolean, number, array, object, property,
}
use jumpgate_bridge.RepositoryUtils.{assert_identifier, read_clock}
use jumpgate_bridge.RepositoryUtils.Fences.{
  assert_mutation_fence, is_mutation_fence, next_mutation_fence, big_int,
}
use jumpgate_bridge.RepositoryUtils.Fences.Successor.{next_mutation_fence-big_int}
use jumpgate_bridge.Providers.{
  Collection, Providers, no_collection, zero_fence, collection_of, is_before, is_after, rebase,
  allocate_mutation_fence,
}
use jumpgate_bridge.Prelude.Outcome.{
  write, ◌>>◌, pure, provider_snapshot_stale_fence, revision_conflict,
}
use jumpgate_bridge.Value.{Items}
use jumpgate_bridge.Providers.{
  advance_stored, advance_found, advanced, mutation_fence_option, fence_or_zero, only_fence,
  erase_profile, other_ids,
}
use jumpgate_bridge.Providers.Replacing.{make_providers, store_collection, replace_checked}
use jumpgate_bridge.Providers.Fencing.{
  IsFenced, stored-IsFenced, rebase-IsFenced, stored_canonical, canonical, zero_canonical,
  is_before-big_int,
}

fence_or_zero_canonical :
    (v : Value) (fence : Text) → fence_or_zero v ≡ ok fence → is_mutation_fence fence ≡ true
unfolding fence_or_zero
fence_or_zero_canonical undefined fence = λ h. given h
  where
    given : ok zero_fence ≡ ok fence → is_mutation_fence fence ≡ true
    given h = let same : zero_fence ≡ fence = cc in ap is_mutation_fence (sym same) ∙ zero_canonical
fence_or_zero_canonical null fence = canonical null fence
fence_or_zero_canonical other fence = canonical other fence
fence_or_zero_canonical (boolean b) fence = canonical (boolean b) fence
fence_or_zero_canonical (number n) fence = canonical (number n) fence
fence_or_zero_canonical (string s) fence = canonical (string s) fence
fence_or_zero_canonical (array vs) fence = canonical (array vs) fence
fence_or_zero_canonical (object fs) fence = canonical (object fs) fence

pub option_canonical :
    (v : Value) (fence : Text) → mutation_fence_option v ≡ ok fence → is_mutation_fence fence ≡ true
unfolding mutation_fence_option
option_canonical undefined fence = fence_or_zero_canonical undefined fence
option_canonical (object fs) fence = elim (Bool-cases (only_fence fs)) [
  | inr e ↦ rw e (λ h. cc)
  | inl e ↦ rw e (fence_or_zero_canonical (property fs (text "mutationFence")) fence)
]
option_canonical null fence = λ h. cc
option_canonical other fence = λ h. cc
option_canonical (boolean b) fence = λ h. cc
option_canonical (number n) fence = λ h. cc
option_canonical (string s) fence = λ h. cc
option_canonical (array vs) fence = λ h. cc

assert_same : (t u : Text) → assert_mutation_fence (string t) ≡ ok u → t ≡ u
unfolding assert_mutation_fence
assert_same t u = elim (Bool-cases (is_mutation_fence t)) [
  | inr e ↦ rw e (λ h. cc)
  | inl e ↦ rw e (λ h. cc)
]

module _ (id : Text) (low : ℕ) where
  abbrev pub Keeps : {A : Type 0} → Result A × Providers → Type 0
  Keeps out = IsFenced id low out.1

  pub allocate-IsFenced :
      (profile_id : Value) (s : Providers)
      → IsFenced id low s
      → Keeps (allocate_mutation_fence profile_id s)
  unfolding allocate_mutation_fence
  allocate-IsFenced profile_id s w =
      after_result Keeps (assert_identifier profile_id) _ s (λ e _. w)
        (λ p _.
          after_result Keeps (next_mutation_fence s.mutation_fence_counter) _ s (λ e _. w)
            (λ next h.
              let (can, up) = next_mutation_fence-big_int s.mutation_fence_counter next h in
              record {
                counter = can;
                covered =
                    λ k c at. let (can', le) = w.covered k c at in (can', omega (arith, le, up));
                floor = w.floor;
              }))

  pub erase-IsFenced :
      (profile_id : Value) (s : Providers)
      → assert_identifier profile_id ≢ ok id
      → IsFenced id low s
      → Keeps (erase_profile profile_id s)
  unfolding erase_profile
  erase-IsFenced profile_id s spared w =
      after_result Keeps (assert_identifier profile_id) _ s (λ e _. w)
        (λ k h.
          let apart : (k == id) ≡ false = differs k h in
          record {
            counter = w.counter;
            covered = λ j c at. w.covered j c (ground (arith, get-delete s.collections k j));
            floor = rw (get-delete, apart) w.floor;
          })
    where
      differs : (k : Text) → assert_identifier profile_id ≡ ok k → (k == id) ≡ false
      differs k h = elim (Bool-cases (k == id)) [
        | inr e ↦ e
        | inl e ↦ absurd (spared (h ∙ ap ok ((text_iff k id).0 e)))
      ]

  pub not_stale :
      (k fence current : Text) (s : Providers)
      → is_mutation_fence fence ≡ true
      → IsFenced id low s
      → assert_mutation_fence (string (collection_of (get s.collections k)).mutation_fence)
        ≡ ok current
      → is_before fence current ≡ false
      → big_int (collection_of (get s.collections k)).mutation_fence ≤ big_int fence
  not_stale k fence current s can w h fresh =
      let same_fence = assert_same (collection_of (get s.collections k)).mutation_fence current h in
      omega (
        arith,
        ap big_int same_fence,
        is_before-big_int fence current can
            (ap is_mutation_fence (sym same_fence) ∙ stored_canonical id low k s w) fresh,
      )

  pub replace-IsFenced :
      (hmac : Text → Text) (json_bytes : Value → ℕ) (encrypt : Value → Text → Result Value)
      (purpose_of : Text → Text) (reading : Number) (fresh_ids : ℕ → Text) (k : Text)
      (descriptors : Items) (expected : ℕ) (fence : Text) (s : Providers)
      → is_mutation_fence fence ≡ true
      → IsFenced id low s
      → Keeps (
          replace_checked hmac json_bytes encrypt purpose_of reading fresh_ids k descriptors
            expected fence
            (get s.collections k)
            s)
  unfolding replace_checked store_collection
  replace-IsFenced hmac json_bytes encrypt purpose_of reading fresh_ids k descriptors expected fence
        s can w =
      let c = collection_of (get s.collections k) in
      after_result Keeps (assert_mutation_fence (string c.mutation_fence)) _ s (λ e _. w)
        (λ current h.
          after_require Keeps (not (is_before fence current)) provider_snapshot_stale_fence _ s
            (λ _. w)
            (λ fresh.
              after_require Keeps (c.revision == expected) revision_conflict _ s (λ _. w)
                (λ _.
                  after_result Keeps
                    (make_providers hmac json_bytes encrypt purpose_of k fresh_ids 0 []
                      (other_ids k s.collections) descriptors)
                    _ s (λ e _. w)
                    (λ records _.
                      after_result Keeps (read_clock reading) _ s (λ e _. w)
                        (λ now _.
                          stored-IsFenced id low k fence _ s refl can
                            (not_stale k fence current s can w h (ground arith)) w)))))

  pub advance-IsFenced :
      (reading : Number) (now : ℕ) (k fence : Text) (s : Providers)
      → read_clock reading ≡ ok now
      → is_mutation_fence fence ≡ true
      → IsFenced id low s
      → Keeps (advance_found reading k fence (get s.collections k) s)
  unfolding advance_found advanced
  advance-IsFenced reading now k fence s clock can w =
      after_result Keeps
        (assert_mutation_fence (string (collection_of (get s.collections k)).mutation_fence)) _ s
        (λ e _. w)
        (λ current h.
          after_require Keeps (not (is_before fence current)) provider_snapshot_stale_fence _ s
            (λ _. w)
            (λ fresh.
              stored (get s.collections k) refl
                (not_stale k fence current s can w h (ground arith))))
    where
      stored :
          (found : Option Collection)
          → get s.collections k ≡ found
          → big_int (collection_of (get s.collections k)).mutation_fence ≤ big_int fence
          → Keeps (
              (advance_stored reading k fence found
                  >> (write (rebase fence) >> pure (collection_of found).revision))
                s)
      stored none e higher =
          rw clock
            (stored-IsFenced id low k fence (advanced fence now no_collection) s refl can higher w)
      stored (some c) e higher = elim (Bool-cases (is_after fence c.mutation_fence)) [
        | inr f ↦ rw f (rebase-IsFenced id low fence s can w)
        | inl f ↦
            rw (f, clock, set-set)
              (stored-IsFenced id low k fence (advanced fence now c) s refl can higher w)
      ]
