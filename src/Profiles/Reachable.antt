-- ===== src/Profiles/Reachable.antt =====
-- What holds of the profiles after any calls.
use jumpgate_bridge.Prelude.{
  ℕ, ◌==◌, list_eq, nat_eq, ◌≡◌, refl, ◌⊎◌, inl, inr, Bool, not, Option, none, some, List, [], ◌∷◌,
  arith, Bool-cases, Option-cases,
}
use jumpgate_bridge.Prelude.Text.{Text, text_iff}
use jumpgate_bridge.Prelude.Map.{Map, get, has, set, get-set}
use jumpgate_bridge.Prelude.Outcome.{Result, Action, plain_error, revision_conflict}
use jumpgate_bridge.Prelude.Outcome.Rules.{after_result, after_require}
use jumpgate_bridge.Value.{Value, Number, string}
use jumpgate_bridge.RepositoryUtils.{assert_identifier, assert_non_negative_integer, read_clock}
use jumpgate_bridge.Profiles.{
  Deletion, not_deleted, pending, deleted, Profile, Store, is_active, read_profile_input,
  read_patch,
}
use jumpgate_bridge.Profiles.Records.{
  put, index, new_profile, issue_install, active_profile, or_empty, assert_some_revision,
}
use jumpgate_bridge.Profiles.Operations.{
  advance_found, advance_history_generation, rotate_found, rotate_install_token, create_checked,
  create, update_found, update,
}
use jumpgate_bridge.Profiles.Erasure.{
  defer_found, defer_erasure, revoke_found, revoke, begin_found, begin_erasure, erase_found, erase,
  is_deleting,
}
use jumpgate_bridge.Profiles.Lifetime.{Lasts, index-Holds, create-Holds}
use jumpgate_bridge.Profiles.Growth.{active_profile-found}
use jumpgate_bridge.Profiles.Steps.{
  Ends, advance_found-Lasts, defer_found-Lasts, update_found-Lasts, rotate_found-Lasts,
}
use jumpgate_bridge.Profiles.Endings.{
  erase_pending-Lasts, revoke_again-Lasts, erase_again-Lasts, revoke_active-Lasts,
  begin_active-Lasts,
}

Deletion-cases : (d : Deletion) → (d ≡ deleted) ⊎ ((d ≡ not_deleted) ⊎ (d ≡ pending))
Deletion-cases deleted = inl refl
Deletion-cases not_deleted = inr (inl refl)
Deletion-cases pending = inr (inr refl)

-- The calls that change the store, with the readings of the clocks, the random token, the fresh id
-- and the outcome of the eraser.
pub data Call : Type 0 where
  creates : Number → Text → Text → Value → Call
  advances_history : Number → Value → Value → Call
  updates : Number → Number → Value → Value → Value → Call
  rotates : Number → Number → Text → Value → Value → Call
  revokes : Number → Number → Number → Value → Value → Call
  begins_erasure : Number → Number → Number → Value → Value → Call
  erases : Number → Text → Result (Unit {0}) → Value → Call
  defers_erasure : Number → Value → Value → Value → Call

module _ {M : Type 0} (hmac : Text → Text) (json_bytes : Value → ℕ)
    (validate_envelope : Value → Bool) (request_profile_deletion : Text → Text → M → M)
    (has_profile : Text → M → Bool) (sha256 : Text → Text) (date_parse : Text → Number) where
  unfoldable pub step : Store M → Call → Store M
  step s (creates reading random id input) =
      (create hmac json_bytes validate_envelope reading random id input s).1
  step s (advances_history reading id generation) =
      (advance_history_generation reading id generation s).1
  step s (updates reading playback id patch revision) =
      (update json_bytes validate_envelope reading playback id patch revision s).1
  step s (rotates reading playback random id revision) =
      (rotate_install_token hmac reading playback random id revision s).1
  step s (revokes reading queue playback id revision) =
      (revoke request_profile_deletion sha256 date_parse reading queue playback id revision s).1
  step s (begins_erasure reading queue playback id revision) =
      (begin_erasure request_profile_deletion sha256 date_parse reading queue playback id revision
        s).1
  step s (erases reading random eraser id) = (erase hmac has_profile reading random eraser id s).1
  step s (defers_erasure reading id attempts at) = (defer_erasure reading id attempts at s).1

  unfoldable pub run : Store M → List Call → Store M
  unfolding step
  run s [] = s
  run s (call ∷ calls) = run (step s call) calls

  -- A method on a profile that is looked up first.
  found-Lasts :
      {A : Type 0} (old : Map Text Profile) (id : Text) (s : Store M)
      (m : Option Profile → Action (Store M) A)
      → Lasts old s
      → Lasts old (m none s).1
      → ((r : Profile) → get s.profiles id ≡ some r → Lasts old (m (some r) s).1)
      → Lasts old (m (get s.profiles id) s).1
  found-Lasts old id s m w none_case some_case = elim (Option-cases (get s.profiles id)) [
    | inl e ↦ rw e none_case
    | inr (r, e) ↦ rw e (some_case r e)
  ]

  active-Lasts :
      {A : Type 0} (old : Map Text Profile) (id : Text) (s : Store M)
      (m : Option Profile → Action (Store M) A)
      → Lasts old s
      → Lasts old (m none s).1
      → ((r : Profile) → get s.profiles id ≡ some r → Lasts old (m (some r) s).1)
      → Lasts old (m (active_profile (get s.profiles id)) s).1
  active-Lasts old id s m w none_case some_case =
      elim (Option-cases (active_profile (get s.profiles id))) [
        | inl e ↦ rw e none_case
        | inr (r, e) ↦ rw e (some_case r (active_profile-found (get s.profiles id) r e).0)
      ]

  module _ (old : Map Text Profile) (s : Store M) (w : Lasts old s) where
    create-Lasts :
        (reading : Number) (random fresh_id : Text) (input : Value)
        → Ends old (create hmac json_bytes validate_envelope reading random fresh_id input s)
    unfolding create create_checked put index new_profile
    create-Lasts reading random fresh_id input =
        after_result (Ends old) (read_profile_input json_bytes validate_envelope (or_empty input)) _
          s (λ e _. w)
          (λ safe _.
            after_result (Ends old) (read_clock reading) _ s (λ e _. w)
              (λ now _.
                after_result (Ends old) (assert_identifier (string fresh_id)) _ s (λ e _. w)
                  (λ id _.
                    after_require (Ends old) (not (has s.profiles id)) plain_error _ s (λ _. w)
                      (λ new.
                        after_result (Ends old) (issue_install hmac random) _ s (λ e _. w)
                          (λ issued _.
                            after_require (Ends old) (not (has s.install_index issued.token_hash))
                              plain_error _ s (λ _. w)
                              (λ _.
                                let q = new_profile id issued.token_hash safe now in
                                index-Holds old (set s.profiles id q) s.install_index
                                  (create-Holds old s.profiles s.install_index w id q
                                    (ground (arith, new)) refl)
                                  issued.token_hash id q
                                  (ground (arith, get-set s.profiles id id q, text_iff id id))
                                  refl))))))

    update-Lasts :
        (reading playback_reading : Number) (profile_id patch revision : Value)
        → Ends old (
            update json_bytes validate_envelope reading playback_reading profile_id patch revision
              s)
    unfolding update
    update-Lasts reading playback_reading profile_id patch revision =
        after_result (Ends old) (assert_identifier profile_id) _ s (λ e _. w)
          (λ id _.
            after_result (Ends old) (read_patch json_bytes validate_envelope (or_empty patch)) _ s
              (λ e _. w)
              (λ safe _.
                after_result (Ends old) (assert_some_revision revision) _ s (λ e _. w)
                  (λ expected _.
                    active-Lasts old id s (update_found reading playback_reading id safe expected) w
                      w
                      (λ r e.
                        update_found-Lasts old id r s e w reading playback_reading safe expected))))

    rotate-Lasts :
        (reading playback_reading : Number) (random : Text) (profile_id revision : Value)
        → Ends old (rotate_install_token hmac reading playback_reading random profile_id revision s)
    unfolding rotate_install_token
    rotate-Lasts reading playback_reading random profile_id revision =
        after_result (Ends old) (assert_identifier profile_id) _ s (λ e _. w)
          (λ id _.
            after_result (Ends old) (assert_some_revision revision) _ s (λ e _. w)
              (λ expected _.
                active-Lasts old id s
                  (rotate_found hmac reading playback_reading random id expected) w w
                  (λ r e.
                    rotate_found-Lasts old id r s e w hmac reading playback_reading random
                      expected)))

    advance-Lasts :
        (reading : Number) (profile_id generation : Value)
        → Ends old (advance_history_generation reading profile_id generation s)
    unfolding advance_history_generation
    advance-Lasts reading profile_id generation =
        after_result (Ends old) (assert_identifier profile_id) _ s (λ e _. w)
          (λ id _.
            after_result (Ends old) (assert_some_revision generation) _ s (λ e _. w)
              (λ expected _.
                active-Lasts old id s (advance_found reading id expected) w w
                  (λ r e. advance_found-Lasts old id r s e w reading expected)))

    defer-Lasts :
        (reading : Number) (profile_id attempts at : Value)
        → Ends old (defer_erasure reading profile_id attempts at s)
    unfolding defer_erasure
    defer-Lasts reading profile_id attempts at =
        after_result (Ends old) (assert_identifier profile_id) _ s (λ e _. w)
          (λ id _.
            after_result (Ends old) (assert_non_negative_integer attempts) _ s (λ e _. w)
              (λ expected _.
                after_result (Ends old) (assert_non_negative_integer at) _ s (λ e _. w)
                  (λ next _.
                    found-Lasts old id s (defer_found reading id expected next) w w
                      (λ r e. defer_found-Lasts old id r s e w reading expected next))))

    revoke-Lasts :
        (reading queue_reading playback_reading : Number) (profile_id revision : Value)
        → Ends old (
            revoke request_profile_deletion sha256 date_parse reading queue_reading playback_reading
              profile_id revision s)
    unfolding revoke revoke_found
    revoke-Lasts reading queue_reading playback_reading profile_id revision =
        after_result (Ends old) (assert_identifier profile_id) _ s (λ e _. w)
          (λ id _.
            after_result (Ends old) (assert_some_revision revision) _ s (λ e _. w)
              (λ expected _.
                found-Lasts old id s
                  (revoke_found request_profile_deletion sha256 date_parse reading queue_reading
                    playback_reading id expected)
                  w w
                  (λ r e.
                    after_require (Ends old) (r.revision == expected) revision_conflict _ s (λ _. w)
                      (λ _. elim (Bool-cases (is_active r.status)) [
                        | inl on ↦ rw on (
                            revoke_active-Lasts old id r s e w request_profile_deletion sha256
                              date_parse reading queue_reading playback_reading)
                        | inr off ↦ rw off (
                            revoke_again-Lasts old id r s e w request_profile_deletion
                              playback_reading)
                      ]))))

    begin-Lasts :
        (reading queue_reading playback_reading : Number) (profile_id revision : Value)
        → Ends old (
            begin_erasure request_profile_deletion sha256 date_parse reading queue_reading
              playback_reading profile_id revision s)
    unfolding begin_erasure begin_found
    begin-Lasts reading queue_reading playback_reading profile_id revision =
        after_result (Ends old) (assert_identifier profile_id) _ s (λ e _. w)
          (λ id _.
            after_result (Ends old) (assert_some_revision revision) _ s (λ e _. w)
              (λ expected _.
                found-Lasts old id s
                  (begin_found request_profile_deletion sha256 date_parse reading queue_reading
                    playback_reading id expected)
                  w w
                  (λ r e. elim (Bool-cases (is_deleting r.deletion_state)) [
                    | inl going ↦
                        rw (going, begin_found)
                          (erase_again-Lasts old id r s e w request_profile_deletion)
                    | inr first ↦ elim (Bool-cases (not (is_active r.status))) [
                      | inl off ↦ rw (first, off, begin_found) w
                      | inr on ↦
                          rw (first, on, begin_found)
                            (after_require (Ends old) (r.revision == expected) revision_conflict _ s
                              (λ _. w)
                              (λ _.
                                begin_active-Lasts old id r s e w request_profile_deletion sha256
                                  date_parse reading queue_reading playback_reading first))
                    ]
                  ])))

    erase-Lasts :
        (reading : Number) (random : Text) (eraser : Result (Unit {0})) (profile_id : Value)
        → Ends old (erase hmac has_profile reading random eraser profile_id s)
    unfolding erase
    erase-Lasts reading random eraser profile_id =
        after_result (Ends old) (assert_identifier profile_id) _ s (λ e _. w)
          (λ id _.
            found-Lasts old id s (erase_found hmac has_profile reading random eraser id) w w
              (from id))
      where
        from :
            (id : Text) (r : Profile)
            → get s.profiles id ≡ some r
            → Lasts old (erase_found hmac has_profile reading random eraser id (some r) s).1
        from id r e = elim (Deletion-cases r.deletion_state) [
          | inl d ↦ rw (d, erase_found) w
          | inr (inl d) ↦ rw (d, erase_found) w
          | inr (inr d) ↦
              rw (d, erase_found)
                (erase_pending-Lasts old id r s e w hmac has_profile reading random eraser d)
        ]

  step-Lasts :
      (old : Map Text Profile) (s : Store M) (call : Call) → Lasts old s → Lasts old (step s call)
  unfolding step
  step-Lasts old s (creates reading random id input) w =
      create-Lasts old s w reading random id input
  step-Lasts old s (advances_history reading id generation) w =
      advance-Lasts old s w reading id generation
  step-Lasts old s (updates reading playback id patch revision) w =
      update-Lasts old s w reading playback id patch revision
  step-Lasts old s (rotates reading playback random id revision) w =
      rotate-Lasts old s w reading playback random id revision
  step-Lasts old s (revokes reading queue playback id revision) w =
      revoke-Lasts old s w reading queue playback id revision
  step-Lasts old s (begins_erasure reading queue playback id revision) w =
      begin-Lasts old s w reading queue playback id revision
  step-Lasts old s (erases reading random eraser id) w =
      erase-Lasts old s w reading random eraser id
  step-Lasts old s (defers_erasure reading id attempts at) w =
      defer-Lasts old s w reading id attempts at

  pub run-Lasts :
      (old : Map Text Profile) (s : Store M) (calls : List Call)
      → Lasts old s
      → Lasts old (run s calls)
  unfolding run
  run-Lasts old s [] w = w
  run-Lasts old s (call ∷ calls) w = run-Lasts old (step s call) calls (step-Lasts old s call w)
