-- ===== src/Profiles/Erasure.antt =====
-- revoke, beginErasure, erase and deferErasure, and what is told of erasures.
use jumpgate_bridge.Prelude.{
  ℕ, ◌+◌, ◌==◌, list_eq, nat_eq, Bool, true, false, ◌||◌, not, Option, none, some, List, map,
  if◌then◌else◌,
}
use jumpgate_bridge.Prelude.Text.{Text, text}
use jumpgate_bridge.Prelude.Map.{get, has, values}
use jumpgate_bridge.Prelude.Sorting.{filter, take, sort}
use jumpgate_bridge.Prelude.Outcome.{
  Result, ok, err, Action, pure, lift, read, write, require, ◌>>=◌, ◌>>◌, plain_error,
  revision_conflict, profile_erasure_pending,
}
use jumpgate_bridge.Value.{Value, string, number, natural, Number}
use jumpgate_bridge.RepositoryUtils.{
  assert_identifier, assert_non_negative_integer, assert_positive_integer, read_clock,
}
use jumpgate_bridge.RepositoryUtils.Fences.{Comparison}
use jumpgate_bridge.Lifecycle.Invalidations.{enqueue_profile}
use jumpgate_bridge.Profiles.{
  Deletion, not_deleted, pending, deleted, Profile, PublicProfile, public_view, Store, is_active,
}
use jumpgate_bridge.Profiles.Records.{
  ErasureStatus, assert_some_revision, default_limit, deferred, erased, erasing, erasure_before,
  erasure_due, erasure_status, invalidate_playback, is_pending, issue_install, put, revoked_profile,
  unindex,
}

unfoldable pub is_deleting : Deletion → Bool
is_deleting not_deleted = false
is_deleting _ = true

module _ {M : Type 0} where
  unfoldable pub get_erasure_status : Value → Store M → Result (Option ErasureStatus)
  unfolding erasure_status
  get_erasure_status profile_id s = elim (assert_identifier profile_id) [
    | err e ↦ err e
    | ok id ↦ elim (get s.profiles id) [
      | none ↦ ok none
      | some r ↦ elim r.deletion_state [ not_deleted ↦ ok none | _ ↦ ok (some (erasure_status r)) ]
    ]
  ]

  unfoldable pub defer_found : Number → Text → ℕ → ℕ → Option Profile → Action (Store M) Bool
  unfolding put deferred is_pending
  defer_found reading id expected next_attempt_at none = pure false
  defer_found reading id expected next_attempt_at (some r) =
      if not (is_pending r.deletion_state) || not (r.erasure_attempt_count == expected)
      then pure false
      else (do
        put id (deferred next_attempt_at r)
        now ← lift (read_clock reading)
        put id (record (deferred next_attempt_at r) { updated_at = now })
        pure true)

  unfoldable pub defer_erasure : Number → Value → Value → Value → Action (Store M) Bool
  unfolding defer_found
  defer_erasure reading profile_id expected_attempt_count next_attempt_at = do
    id ← lift (assert_identifier profile_id)
    expected ← lift (assert_non_negative_integer expected_attempt_count)
    at ← lift (assert_non_negative_integer next_attempt_at)
    found ← read (λ s. get s.profiles id)
    defer_found reading id expected at found

  unfoldable pub due_erasures : (Text → Text → Comparison) → ℕ → ℕ → Store M → List Profile
  unfolding erasure_before erasure_due take sort filter values
  due_erasures locale_compare limit now s =
      take limit
        (sort (erasure_before locale_compare) (filter (erasure_due now) (values s.profiles)))

  unfoldable pub list_pending_erasures :
      (Text → Text → Comparison) → Number → Value → Store M → Result (List ErasureStatus)
  unfolding due_erasures erasure_status
  list_pending_erasures locale_compare reading limit s =
      elim (assert_positive_integer (default_limit limit) 256) [
        | err e ↦ err e
        | ok n ↦ elim (read_clock reading) [
          | err e ↦ err e
          | ok now ↦ ok (map erasure_status (due_erasures locale_compare n now s))
        ]
      ]

  -- if (this._subtitleManifests) this._subtitleManifests.requestProfileDeletionNow(id, reason)
  module _ (request_profile_deletion : Text → Text → M → M) where
    unfoldable pub request_deletion : Text → Text → Action (Store M) (Unit {0})
    request_deletion id reason = write (λ s. record s {
      manifests = elim s.manifests [
        | none ↦ none
        | some m ↦ some (request_profile_deletion id reason m)
      ];
    })

    unfoldable pub revoke_again : Number → Text → Profile → Action (Store M) Bool
    unfolding invalidate_playback request_deletion
    revoke_again playback_reading id r = do
      invalidate_playback playback_reading id r.revision
      request_deletion id (text "profile_revoked")
      pure true

    unfoldable pub erase_again : Text → Profile → Action (Store M) (Option PublicProfile)
    unfolding request_deletion is_pending
    erase_again id r = do
      if is_pending r.deletion_state then request_deletion id (text "profile_erasure") else pure tt
      pure (some (public_view r))

    module _ (sha256 : Text → Text) (date_parse : Text → Number) where
      -- this._lifecycleInvalidations.enqueueProfile(id, revision)
      unfoldable pub queue_invalidation : Number → Text → ℕ → Action (Store M) (Unit {0})
      queue_invalidation reading id revision s =
          let out =
            enqueue_profile sha256 date_parse reading (string id) (number (natural revision))
              s.invalidations in
          (elim out.0 [ err e ↦ err e | ok r ↦ ok tt ], record s { invalidations = out.1 })

      unfoldable pub revoke_active :
          Number → Number → Number → Text → Profile → Action (Store M) Bool
      unfolding put unindex revoked_profile invalidate_playback request_deletion queue_invalidation
      revoke_active reading queue_reading playback_reading id r = do
        now ← lift (read_clock reading)
        queue_invalidation queue_reading id (r.revision + 1)
        put id (revoked_profile now r)
        invalidate_playback playback_reading id (r.revision + 1)
        request_deletion id (text "profile_revoked")
        unindex r.install_token_hash
        pure true

      unfoldable pub revoke_found :
          Number → Number → Number → Text → ℕ → Option Profile → Action (Store M) Bool
      unfolding revoke_again revoke_active is_active
      revoke_found reading queue_reading playback_reading id expected none = pure false
      revoke_found reading queue_reading playback_reading id expected (some r) = do
        require (r.revision == expected) revision_conflict
        (if is_active r.status
            then revoke_active reading queue_reading playback_reading id r
            else revoke_again playback_reading id r)

      unfoldable pub revoke : Number → Number → Number → Value → Value → Action (Store M) Bool
      unfolding revoke_found
      revoke reading queue_reading playback_reading profile_id expected_revision = do
        id ← lift (assert_identifier profile_id)
        expected ← lift (assert_some_revision expected_revision)
        found ← read (λ s. get s.profiles id)
        revoke_found reading queue_reading playback_reading id expected found

      unfoldable pub begin_active :
          Number → Number → Number → Text → Profile → Action (Store M) (Option PublicProfile)
      unfolding put unindex erasing invalidate_playback request_deletion queue_invalidation
      begin_active reading queue_reading playback_reading id r = do
        now ← lift (read_clock reading)
        queue_invalidation queue_reading id (r.revision + 1)
        put id (erasing now r)
        invalidate_playback playback_reading id (r.revision + 1)
        request_deletion id (text "profile_erasure")
        unindex r.install_token_hash
        pure (some (public_view (erasing now r)))

      unfoldable pub begin_found :
          Number
          → Number
          → Number
          → Text
          → ℕ
          → Option Profile
          → Action (Store M) (Option PublicProfile)
      unfolding erase_again begin_active is_active is_deleting
      begin_found reading queue_reading playback_reading id expected none = pure none
      begin_found reading queue_reading playback_reading id expected (some r) =
          if is_deleting r.deletion_state
          then erase_again id r
          else if not (is_active r.status)
          then pure none
          else (do
            require (r.revision == expected) revision_conflict
            begin_active reading queue_reading playback_reading id r)

      unfoldable pub begin_erasure :
          Number → Number → Number → Value → Value → Action (Store M) (Option PublicProfile)
      unfolding begin_found
      begin_erasure reading queue_reading playback_reading profile_id expected_revision = do
        id ← lift (assert_identifier profile_id)
        expected ← lift (assert_some_revision expected_revision)
        found ← read (λ s. get s.profiles id)
        begin_found reading queue_reading playback_reading id expected found

  module _ (hmac : Text → Text) (has_profile : Text → M → Bool) where
    unfoldable pub has_manifests : Text → Store M → Bool
    has_manifests id s = elim s.manifests [ none ↦ false | some m ↦ has_profile id m ]

    unfoldable pub erase_pending :
        Number → Text → Result (Unit {0}) → Text → Profile → Action (Store M) Bool
    unfolding put unindex erased has_manifests issue_install
    erase_pending reading random eraser id r = do
      waiting ← read (has_manifests id)
      require (not waiting) profile_erasure_pending
      done ← lift eraser
      replacement ← lift (issue_install hmac random)
      taken ← read (λ s. has s.install_index replacement.token_hash)
      require (not taken) plain_error
      now ← lift (read_clock reading)
      unindex r.install_token_hash
      put id (erased replacement.token_hash now r)
      pure true

    unfoldable pub erase_found :
        Number → Text → Result (Unit {0}) → Text → Option Profile → Action (Store M) Bool
    unfolding erase_pending
    erase_found reading random eraser id none = pure false
    erase_found reading random eraser id (some r) = elim r.deletion_state [
      | deleted ↦ pure true
      | not_deleted ↦ pure false
      | pending ↦ erase_pending reading random eraser id r
    ]

    -- erase; `eraser` is what the erasure of the other stores comes to, and it leaves this one as
    -- it is.
    unfoldable pub erase : Number → Text → Result (Unit {0}) → Value → Action (Store M) Bool
    unfolding erase_found
    erase reading random eraser profile_id = do
      id ← lift (assert_identifier profile_id)
      found ← read (λ s. get s.profiles id)
      erase_found reading random eraser id found
