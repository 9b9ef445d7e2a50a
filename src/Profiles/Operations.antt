-- ===== src/Profiles/Operations.antt =====
-- The methods of MemoryProfileRepository. A clock that is read is an argument: `reading` its own,
-- `queue_reading` that of the invalidations, `playback_reading` that of the playback sessions.
use jumpgate_bridge.Prelude.{ℕ, ◌+◌, ◌==◌, list_eq, nat_eq, Bool, not, Option, none, some, ltb}
use jumpgate_bridge.Prelude.Text.{Text, text}
use jumpgate_bridge.Prelude.Map.{get, has}
use jumpgate_bridge.Prelude.Outcome.{
  Result, ok, err, Action, pure, throw, lift, read, require, ◌>>=◌, ◌>>◌, plain_error,
  profile_inactive, revision_conflict, history_generation_changed, history_generation_exhausted,
}
use jumpgate_bridge.Value.{Value, string, Number, max_safe_integer}
use jumpgate_bridge.RepositoryUtils.{assert_identifier, read_clock}
use jumpgate_bridge.TokenService.{hash_token}
use jumpgate_bridge.Profiles.{
  Profile, PublicProfile, public_view, Store, ProfileInput, Patch, read_profile_input, read_patch,
}
use jumpgate_bridge.Profiles.Records.{
  Issued, active_profile, assert_some_revision, index, invalidate_playback, issue_install,
  new_profile, or_empty, patched, put, rotated, unindex,
}

module _ {M : Type 0} where
  unfoldable pub get_by_id : Value → Store M → Result (Option PublicProfile)
  get_by_id profile_id s = elim (assert_identifier profile_id) [
    | err e ↦ err e
    | ok id ↦ elim (get s.profiles id) [ none ↦ ok none | some r ↦ ok (some (public_view r)) ]
  ]

  unfoldable pub get_history_generation : Value → Store M → Result (Option ℕ)
  unfolding active_profile
  get_history_generation profile_id s = elim (assert_identifier profile_id) [
    | err e ↦ err e
    | ok id ↦ elim (active_profile (get s.profiles id)) [
      | none ↦ ok none
      | some r ↦ ok (some r.history_generation)
    ]
  ]

  unfoldable pub advance_found : Number → Text → ℕ → Option Profile → Action (Store M) ℕ
  unfolding put
  advance_found reading id expected none = throw profile_inactive
  advance_found reading id expected (some r) = do
    require (r.history_generation == expected) history_generation_changed
    require (ltb r.history_generation max_safe_integer) history_generation_exhausted
    put id (record r { history_generation = r.history_generation + 1 })
    now ← lift (read_clock reading)
    put id (record r { history_generation = r.history_generation + 1; updated_at = now })
    pure (r.history_generation + 1)

  unfoldable pub advance_history_generation : Number → Value → Value → Action (Store M) ℕ
  unfolding advance_found active_profile
  advance_history_generation reading profile_id expected_generation = do
    id ← lift (assert_identifier profile_id)
    expected ← lift (assert_some_revision expected_generation)
    found ← read (λ s. active_profile (get s.profiles id))
    advance_found reading id expected found

  unfoldable pub update_found :
      Number → Number → Text → Patch → ℕ → Option Profile → Action (Store M) (Option PublicProfile)
  unfolding put patched invalidate_playback
  update_found reading playback_reading id patch expected none = pure none
  update_found reading playback_reading id patch expected (some r) = do
    require (r.revision == expected) revision_conflict
    now ← lift (read_clock reading)
    put id (patched patch now r)
    invalidate_playback playback_reading id (r.revision + 1)
    pure (some (public_view (patched patch now r)))

  module _ (json_bytes : Value → ℕ) (validate_envelope : Value → Bool) where
    unfoldable pub update :
        Number → Number → Value → Value → Value → Action (Store M) (Option PublicProfile)
    unfolding update_found active_profile
    update reading playback_reading profile_id patch expected_revision = do
      id ← lift (assert_identifier profile_id)
      safe_patch ← lift (read_patch json_bytes validate_envelope (or_empty patch))
      expected ← lift (assert_some_revision expected_revision)
      found ← read (λ s. active_profile (get s.profiles id))
      update_found reading playback_reading id safe_patch expected found

  module _ (hmac : Text → Text) where
    unfoldable pub get_by_install_token : Value → Store M → Option PublicProfile
    unfolding active_profile hash_token
    get_by_install_token token s = elim (hash_token hmac (text "install") token) [
      | err e ↦ none
      | ok token_hash ↦ elim (get s.install_index token_hash) [
        | none ↦ none
        | some id ↦ elim (active_profile (get s.profiles id)) [
          | none ↦ none
          | some r ↦ some (public_view r)
        ]
      ]
    ]

    unfoldable pub rotate_found :
        Number → Number → Text → Text → ℕ → Option Profile → Action (Store M) (Option Issued)
    unfolding put unindex index rotated invalidate_playback issue_install
    rotate_found reading playback_reading random id expected none = pure none
    rotate_found reading playback_reading random id expected (some r) = do
      require (r.revision == expected) revision_conflict
      issued ← lift (issue_install hmac random)
      taken ← read (λ s. has s.install_index issued.token_hash)
      require (not taken) plain_error
      now ← lift (read_clock reading)
      unindex r.install_token_hash
      put id (rotated issued.token_hash now r)
      index issued.token_hash id
      invalidate_playback playback_reading id (r.revision + 1)
      pure (
          some (record {
            profile = public_view (rotated issued.token_hash now r);
            install_token = issued.token;
          }))

    unfoldable pub rotate_install_token :
        Number → Number → Text → Value → Value → Action (Store M) (Option Issued)
    unfolding rotate_found active_profile
    rotate_install_token reading playback_reading random profile_id expected_revision = do
      id ← lift (assert_identifier profile_id)
      expected ← lift (assert_some_revision expected_revision)
      found ← read (λ s. active_profile (get s.profiles id))
      rotate_found reading playback_reading random id expected found

    unfoldable pub create_checked : Number → Text → Text → ProfileInput → Action (Store M) Issued
    unfolding put index new_profile issue_install
    create_checked reading random id input = do
      now ← lift (read_clock reading)
      profile_id ← lift (assert_identifier (string id))
      taken ← read (λ s. has s.profiles profile_id)
      require (not taken) plain_error
      issued ← lift (issue_install hmac random)
      indexed ← read (λ s. has s.install_index issued.token_hash)
      require (not indexed) plain_error
      put profile_id (new_profile profile_id issued.token_hash input now)
      index issued.token_hash profile_id
      pure (record {
        profile = public_view (new_profile profile_id issued.token_hash input now);
        install_token = issued.token;
      })

    module _ (json_bytes : Value → ℕ) (validate_envelope : Value → Bool) where
      -- `fresh_id` is what the id factory answers, `random` the token that is drawn.
      unfoldable pub create : Number → Text → Text → Value → Action (Store M) Issued
      unfolding create_checked
      create reading random fresh_id input = do
        safe_input ← lift (read_profile_input json_bytes validate_envelope (or_empty input))
        create_checked reading random fresh_id safe_input
