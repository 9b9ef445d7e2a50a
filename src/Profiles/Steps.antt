-- ===== src/Profiles/Steps.antt =====
-- The changes that leave a profile active keep what lasts, whether they succeed or throw.
use jumpgate_bridge.Prelude.{
  ℕ, ◌+◌, ◌==◌, list_eq, nat_eq, ◌≡◌, refl, inl, inr, not, ◌||◌, some, ltb, arith, Bool-cases,
  Option-cases,
}
use jumpgate_bridge.Prelude.Text.{Text, text_iff}
use jumpgate_bridge.Prelude.Map.{Map, get, has, set, delete, get-set}
use jumpgate_bridge.Prelude.Outcome.{
  Result, Action, ◌>>=◌, plain_error, revision_conflict, history_generation_changed,
  history_generation_exhausted,
}
use jumpgate_bridge.Prelude.Outcome.Rules.{after_result, after_action, after_require}
use jumpgate_bridge.Value.{Number, max_safe_integer}
use jumpgate_bridge.RepositoryUtils.{read_clock}
use jumpgate_bridge.Profiles.{Profile, Store, Patch}
use jumpgate_bridge.Profiles.Records.{
  put, unindex, index, patched, rotated, deferred, is_pending, invalidate_playback, issue_install,
}
use jumpgate_bridge.Profiles.Operations.{advance_found, rotate_found, update_found}
use jumpgate_bridge.Profiles.Erasure.{defer_found}
use jumpgate_bridge.Profiles.Lifetime.{Grown, Lasts, put-Holds, retoken-Holds, index-Holds}
use jumpgate_bridge.Profiles.Growth.{
  touched, advanced, patched-Grown, rotated-Grown, deferred-Grown,
}

module _ {M : Type 0} where
  -- A step that leaves the profiles and the index as they are.
  abbrev pub Quiet : {A : Type 0} → Action (Store M) A → Type 0
  Quiet m =
      (s : Store M) → ((m s).1.profiles ≡ s.profiles) × ((m s).1.install_index ≡ s.install_index)

  module _ {A B : Type 0} (old : Map Text Profile) where
    pub after-Quiet :
        (m : Action (Store M) A) (f : A → Action (Store M) B) (s : Store M)
        → Quiet m
        → Lasts old s
        → ((a : A) (t : Store M)
            → t.profiles ≡ s.profiles
            → t.install_index ≡ s.install_index
            → Lasts old t
            → Lasts old (f a t).1)
        → Lasts old ((m >>= f) s).1
    after-Quiet m f s quiet w next =
        let (p, i) = quiet s in
        after_action (λ t. (t.profiles ≡ s.profiles) × (t.install_index ≡ s.install_index))
          (λ out. Lasts old out.1) m f s (p, i) (λ e t q. moved t q.0 q.1)
          (λ a t q. next a t q.0 q.1 (moved t q.0 q.1))
      where
        moved :
            (t : Store M)
            → t.profiles ≡ s.profiles
            → t.install_index ≡ s.install_index
            → Lasts old t
        moved t p i = rw (p, i) w

  pub invalidate_playback-Quiet :
      (reading : Number) (id : Text) (revision : ℕ)
      → Quiet (invalidate_playback {M = M} reading id revision)
  unfolding invalidate_playback
  invalidate_playback-Quiet reading id revision s = elim (Option-cases s.playback) [
    | inl e ↦ rw (e, invalidate_playback) (refl, refl)
    | inr (p, e) ↦ rw (e, invalidate_playback) (refl, refl)
  ]

  -- What is proved of a step: the store that it leaves.
  abbrev pub Ends : {A : Type 0} → Map Text Profile → Result A × Store M → Type 0
  Ends old out = Lasts old out.1

  module _ (old : Map Text Profile) (id : Text) (r : Profile) (s : Store M)
      (found : get s.profiles id ≡ some r) (w : Lasts old s) where
    -- Two writes of the record, with a reading of the clock in between that may throw.
    rewritten :
        (one two : Profile)
        → Grown r one
        → Grown one two
        → one.install_token_hash ≡ r.install_token_hash
        → two.install_token_hash ≡ one.install_token_hash
        → Lasts old (record s { profiles = set (set s.profiles id one) id two })
    rewritten one two g g' h h' =
        put-Holds old (set s.profiles id one) s.install_index id one two
          (ground (arith, get-set s.profiles id id one, text_iff id id)) g'
          (put-Holds old s.profiles s.install_index id r one found g w h) h'

    pub advance_found-Lasts :
        (reading : Number) (expected : ℕ) → Ends old (advance_found reading id expected (some r) s)
    unfolding advance_found put
    advance_found-Lasts reading expected =
        after_require (Ends old) (r.history_generation == expected) history_generation_changed _ s
          (λ _. w)
          (λ _.
            after_require (Ends old) (ltb r.history_generation max_safe_integer)
              history_generation_exhausted _ s (λ _. w)
              (λ _.
                let one = record r { history_generation = r.history_generation + 1 } in
                after_result (Ends old) (read_clock reading) _
                  (record s { profiles = set s.profiles id one })
                  (λ e _.
                    put-Holds old s.profiles s.install_index id r one found (advanced r) w refl)
                  (λ now _.
                    rewritten one (record one { updated_at = now }) (advanced r) (touched one now)
                      refl refl)))

    pub defer_found-Lasts :
        (reading : Number) (expected at : ℕ)
        → Ends old (defer_found reading id expected at (some r) s)
    unfolding defer_found put deferred
    defer_found-Lasts reading expected at =
        elim (Bool-cases
          (not (is_pending r.deletion_state) || not (r.erasure_attempt_count == expected))) [
            | inl e ↦ rw (e, defer_found) w
            | inr e ↦
                rw (e, defer_found)
                  (let one = deferred at r in
                    after_result (Ends old) (read_clock reading) _
                      (record s { profiles = set s.profiles id one })
                      (λ e _.
                        put-Holds old s.profiles s.install_index id r one found
                          (deferred-Grown at r) w refl)
                      (λ now _.
                        rewritten one (record one { updated_at = now }) (deferred-Grown at r)
                          (touched one now) refl refl))
          ]

    pub update_found-Lasts :
        (reading playback_reading : Number) (patch : Patch) (expected : ℕ)
        → Ends old (update_found reading playback_reading id patch expected (some r) s)
    unfolding update_found put patched
    update_found-Lasts reading playback_reading patch expected =
        after_require (Ends old) (r.revision == expected) revision_conflict _ s (λ _. w)
          (λ _.
            after_result (Ends old) (read_clock reading) _ s (λ e _. w)
              (λ now _.
                after-Quiet old (invalidate_playback playback_reading id (r.revision + 1)) _
                  (record s { profiles = set s.profiles id (patched patch now r) })
                  (invalidate_playback-Quiet playback_reading id (r.revision + 1))
                  (put-Holds old s.profiles s.install_index id r (patched patch now r) found
                    (patched-Grown patch now r) w refl)
                  (λ a t p i v. v)))

    pub rotate_found-Lasts :
        (hmac : Text → Text) (reading playback_reading : Number) (random : Text) (expected : ℕ)
        → Ends old (rotate_found hmac reading playback_reading random id expected (some r) s)
    unfolding rotate_found put unindex index rotated
    rotate_found-Lasts hmac reading playback_reading random expected =
        after_require (Ends old) (r.revision == expected) revision_conflict _ s (λ _. w)
          (λ _.
            after_result (Ends old) (issue_install hmac random) _ s (λ e _. w)
              (λ issued _.
                after_require (Ends old) (not (has s.install_index issued.token_hash)) plain_error _
                  s (λ _. w)
                  (λ _.
                    after_result (Ends old) (read_clock reading) _ s (λ e _. w)
                      (λ now _.
                        let q = rotated issued.token_hash now r in
                        after-Quiet old (invalidate_playback playback_reading id (r.revision + 1)) _
                          (record s {
                            profiles = set s.profiles id q;
                            install_index =
                                set (delete s.install_index r.install_token_hash) issued.token_hash
                                  id;
                          })
                          (invalidate_playback-Quiet playback_reading id (r.revision + 1))
                          (index-Holds old (set s.profiles id q)
                            (delete s.install_index r.install_token_hash)
                            (retoken-Holds old s.profiles s.install_index id r q found
                              (rotated-Grown issued.token_hash now r) w)
                            issued.token_hash id q
                            (ground (arith, get-set s.profiles id id q, text_iff id id)) refl)
                          (λ a t p i v. v)))))
