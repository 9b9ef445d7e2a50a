-- ===== src/Providers/Stale.antt =====
-- Writes under a stale fence are refused, however the calls come.
use jumpgate_bridge.Prelude.{
  ℕ, ◌≤◌, ◌<◌, list_eq, nat_eq, ◌≡◌, ◌≢◌, sym, ap, ◌∙◌, inl, inr, not, some, List, [], ◌∷◌, arith,
  Bool-cases,
}
use jumpgate_bridge.Prelude.Text.{Text}
use jumpgate_bridge.Prelude.Map.{get}
use jumpgate_bridge.Prelude.Outcome.{Error, Result, ok, err}
use jumpgate_bridge.Prelude.Outcome.Rules.{after_result, after_require}
use jumpgate_bridge.Value.{
  Value, Number, string, undefined, null, other, boolean, number, array, object,
}
use jumpgate_bridge.RepositoryUtils.{
  assert_identifier, is_identifier, assert_non_negative_integer, read_clock,
}
use jumpgate_bridge.RepositoryUtils.Fences.{assert_mutation_fence, next_mutation_fence, big_int}
use jumpgate_bridge.RepositoryUtils.Fences.Successor.{next_mutation_fence-big_int}
use jumpgate_bridge.Providers.{
  Collection, Providers, zero_fence, collection_of, is_before, allocate_mutation_fence,
}
use jumpgate_bridge.Prelude.Outcome.{provider_snapshot_stale_fence}
use jumpgate_bridge.Providers.{advance_mutation_fence, mutation_fence_option, erase_profile}
use jumpgate_bridge.Providers.Replacing.{
  replace_checked, replace_all, assert_descriptors, assert_sizes,
}
use jumpgate_bridge.Providers.Fencing.{IsFenced, canonical, zero_canonical}
use jumpgate_bridge.Providers.Steps.{
  option_canonical, allocate-IsFenced, erase-IsFenced, not_stale, replace-IsFenced,
  advance-IsFenced, Keeps,
}

-- The calls that change the store; the clock of an advance is in range.
pub data Call : Type 0 where
  allocates : Value → Call
  replaces : Number → (ℕ → Text) → Value → Value → Value → Value → Call
  advances : (reading : Number) (now : ℕ) → Value → Value → read_clock reading ≡ ok now → Call
  erases : Value → Call

-- No call erases the profile.
abbrev pub Spares : Text → List Call → Type 0
Spares id [] = Unit
Spares id (erases v ∷ calls) = (assert_identifier v ≢ ok id) × Spares id calls
Spares id (_ ∷ calls) = Spares id calls

abbrev pub empty_providers : Providers
empty_providers = record { collections = []; mutation_fence_counter = zero_fence }

-- The empty text is no identifier, so nothing erases it.
never_empty : (v : Value) → assert_identifier v ≢ ok []
unfolding assert_identifier is_identifier
never_empty (string []) = λ h. cc
never_empty (string (c ∷ s)) = elim (Bool-cases (is_identifier (c ∷ s))) [
  | inl e ↦ rw e (λ h. cc)
  | inr e ↦ rw e (λ h. cc)
]
never_empty undefined = λ h. cc
never_empty null = λ h. cc
never_empty other = λ h. cc
never_empty (boolean b) = λ h. cc
never_empty (number n) = λ h. cc
never_empty (array vs) = λ h. cc
never_empty (object fs) = λ h. cc

Spares-empty : (calls : List Call) → Spares [] calls
Spares-empty [] = tt
Spares-empty (allocates v ∷ calls) = Spares-empty calls
Spares-empty (replaces reading fresh_ids v descriptors revision options ∷ calls) =
    Spares-empty calls
Spares-empty (advances reading now v fence clock ∷ calls) = Spares-empty calls
Spares-empty (erases v ∷ calls) = (never_empty v, Spares-empty calls)

empty-IsFenced : IsFenced [] 0 empty_providers
unfolding get
empty-IsFenced = record { counter = zero_canonical; covered = λ k c h. cc; floor = omega arith }

abbrev Fails : ℕ × ℕ → Result (ℕ × ℕ) × Providers → Type 0
Fails answer out = out.0 ≢ ok answer

err≢ok : (e : Error) (answer : ℕ × ℕ) → err e ≢ ok answer
err≢ok e answer h = cc

same_text : (t u : Text) → ok t ≡ ok u → t ≡ u
same_text t u h = cc

module _ (hmac : Text → Text) (json_bytes : Value → ℕ) (encrypt : Value → Text → Result Value)
    (purpose_of : Text → Text) where
  unfoldable pub step : Providers → Call → Providers
  step s (allocates v) = (allocate_mutation_fence v s).1
  step s (replaces reading fresh_ids v descriptors revision options) =
      (replace_all hmac json_bytes encrypt purpose_of reading fresh_ids v descriptors revision
        options s).1
  step s (advances reading now v fence _) = (advance_mutation_fence reading v fence s).1
  step s (erases v) = (erase_profile v s).1

  unfoldable pub run : Providers → List Call → Providers
  unfolding step
  run s [] = s
  run s (call ∷ calls) = run (step s call) calls

  replace_all-IsFenced :
      (id : Text) (low : ℕ) (reading : Number) (fresh_ids : ℕ → Text)
      (v descriptors revision options : Value) (s : Providers)
      → IsFenced id low s
      → Keeps id low (
          replace_all hmac json_bytes encrypt purpose_of reading fresh_ids v descriptors revision
            options s)
  unfolding replace_all
  replace_all-IsFenced id low reading fresh_ids v descriptors revision options s w =
      after_result (Keeps id low) (assert_identifier v) _ s (λ e _. w)
        (λ k _.
          after_result (Keeps id low) (assert_descriptors descriptors) _ s (λ e _. w)
            (λ safe _.
              after_result (Keeps id low) (assert_sizes hmac json_bytes encrypt purpose_of safe) _ s
                (λ e _. w)
                (λ bounded _.
                  after_result (Keeps id low) (assert_non_negative_integer revision) _ s (λ e _. w)
                    (λ expected _.
                      after_result (Keeps id low) (mutation_fence_option options) _ s (λ e _. w)
                        (λ fence h.
                          replace-IsFenced id low hmac json_bytes encrypt purpose_of reading
                            fresh_ids k safe expected fence s (option_canonical options fence h)
                            w)))))

  advance_all-IsFenced :
      (id : Text) (low : ℕ) (reading : Number) (now : ℕ) (v mutation_fence : Value) (s : Providers)
      → read_clock reading ≡ ok now
      → IsFenced id low s
      → Keeps id low (advance_mutation_fence reading v mutation_fence s)
  unfolding advance_mutation_fence
  advance_all-IsFenced id low reading now v mutation_fence s clock w =
      after_result (Keeps id low) (assert_identifier v) _ s (λ e _. w)
        (λ k _.
          after_result (Keeps id low) (assert_mutation_fence mutation_fence) _ s (λ e _. w)
            (λ fence h.
              advance-IsFenced id low reading now k fence s clock (canonical mutation_fence fence h)
                w))

  run-IsFenced :
      (id : Text) (low : ℕ) (s : Providers) (calls : List Call)
      → Spares id calls
      → IsFenced id low s
      → IsFenced id low (run s calls)
  unfolding run step
  run-IsFenced id low s [] spared w = w
  run-IsFenced id low s (allocates v ∷ calls) spared w =
      run-IsFenced id low (step s (allocates v)) calls spared (allocate-IsFenced id low v s w)
  run-IsFenced id low s (replaces reading fresh_ids v descriptors revision options ∷ calls) spared
        w =
      run-IsFenced id low (step s (replaces reading fresh_ids v descriptors revision options)) calls
        spared (replace_all-IsFenced id low reading fresh_ids v descriptors revision options s w)
  run-IsFenced id low s (advances reading now v fence clock ∷ calls) spared w =
      run-IsFenced id low (step s (advances reading now v fence clock)) calls spared
        (advance_all-IsFenced id low reading now v fence s clock w)
  run-IsFenced id low s (erases v ∷ calls) spared w =
      run-IsFenced id low (step s (erases v)) calls spared.1 (erase-IsFenced id low v s spared.0 w)

  sound : (calls : List Call) → IsFenced [] 0 (run empty_providers calls)
  sound calls = run-IsFenced [] 0 empty_providers calls (Spares-empty calls) empty-IsFenced

  -- After any calls, a fence that is allocated is above every fence that a profile has; the clock of
  -- an advance is in range.
  pub allocated-above :
      (calls : List Call) (v : Value) (fence k : Text) (c : Collection)
      → (allocate_mutation_fence v (run empty_providers calls)).0 ≡ ok fence
      → get (run empty_providers calls).collections k ≡ some c
      → big_int c.mutation_fence < big_int fence
  unfolding allocate_mutation_fence
  allocated-above calls v fence k c h at =
      let s = run empty_providers calls in
      let w = sound calls in
      after_result (λ out. out.0 ≡ ok fence → big_int c.mutation_fence < big_int fence)
        (assert_identifier v) _ s (λ e _ h. cc)
        (λ p _.
          after_result (λ out. out.0 ≡ ok fence → big_int c.mutation_fence < big_int fence)
            (next_mutation_fence s.mutation_fence_counter) _ s (λ e _ h. cc)
            (λ next e h.
              let (can, up) = next_mutation_fence-big_int s.mutation_fence_counter next e in
              let same_fence : next ≡ fence = cc in
              omega (arith, up, (w.covered k c at).1, ap big_int same_fence)))
        h

  stale-Fails :
      (t : Providers) (id fence : Text) (low : ℕ) (reading : Number) (fresh_ids : ℕ → Text)
      (v descriptors revision options : Value) (answer : ℕ × ℕ)
      → assert_identifier v ≡ ok id
      → mutation_fence_option options ≡ ok fence
      → big_int fence < low
      → IsFenced id low t
      → Fails answer (
          replace_all hmac json_bytes encrypt purpose_of reading fresh_ids v descriptors revision
            options t)
  unfolding replace_all replace_checked
  stale-Fails t id fence low reading fresh_ids v descriptors revision options answer named fenced
        lower w =
      after_result (Fails answer) (assert_identifier v) _ t (λ e _. err≢ok e answer)
        (λ k hk.
          after_result (Fails answer) (assert_descriptors descriptors) _ t (λ e _. err≢ok e answer)
            (λ safe _.
              after_result (Fails answer) (assert_sizes hmac json_bytes encrypt purpose_of safe) _ t
                (λ e _. err≢ok e answer)
                (λ bounded _.
                  after_result (Fails answer) (assert_non_negative_integer revision) _ t
                    (λ e _. err≢ok e answer)
                    (λ expected _.
                      after_result (Fails answer) (mutation_fence_option options) _ t
                        (λ e _. err≢ok e answer)
                        (λ f hf.
                          after_result (Fails answer)
                            (assert_mutation_fence
                              (string (collection_of (get t.collections k)).mutation_fence))
                            _ t (λ e _. err≢ok e answer)
                            (λ current h.
                              after_require (Fails answer) (not (is_before f current))
                                provider_snapshot_stale_fence _ t
                                (λ _. err≢ok provider_snapshot_stale_fence answer)
                                (λ fresh.
                                  let same_id : k ≡ id = same_text k id (sym hk ∙ named) in
                                  let same_fence : f ≡ fence =
                                    same_text f fence (sym hf ∙ fenced) in
                                  let above =
                                    not_stale id low k f current t (option_canonical options f hf) w
                                      h (ground arith) in
                                  absurd (
                                    omega (
                                      arith,
                                      lower,
                                      w.floor,
                                      above,
                                      ap big_int same_fence,
                                      ap
                                          (λ j.
                                            big_int
                                              (collection_of (get t.collections j)).mutation_fence)
                                          same_id,
                                    )))))))))

  -- Once a profile has been written under a fence, then after any further calls that do not erase the
  -- profile no replacement under a lower fence succeeds; the clock of an advance is in range.
  pub stale-refused :
      (calls later_calls : List Call) (id fence : Text) (c : Collection) (reading : Number)
      (fresh_ids : ℕ → Text) (v descriptors revision options : Value) (answer : ℕ × ℕ)
      → get (run empty_providers calls).collections id ≡ some c
      → Spares id later_calls
      → assert_identifier v ≡ ok id
      → mutation_fence_option options ≡ ok fence
      → big_int fence < big_int c.mutation_fence
      → (replace_all hmac json_bytes encrypt purpose_of reading fresh_ids v descriptors revision
          options
          (run (run empty_providers calls) later_calls)).0
        ≢ ok answer
  unfolding collection_of
  stale-refused calls later_calls id fence c reading fresh_ids v descriptors revision options answer
        at spared named fenced lower =
      stale-Fails (run (run empty_providers calls) later_calls) id fence (big_int c.mutation_fence)
        reading fresh_ids v descriptors revision options answer named fenced lower
        (run-IsFenced id (big_int c.mutation_fence) (run empty_providers calls) later_calls spared
          (record {
            counter = (sound calls).counter;
            covered = (sound calls).covered;
            floor = rw at (floor_of);
          }))
    where
      floor_of : big_int c.mutation_fence ≤ big_int c.mutation_fence
      floor_of = omega arith
