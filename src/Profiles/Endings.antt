-- ===== src/Profiles/Endings.antt =====
-- Revocation and erasure keep what lasts, whether they succeed or throw.
use jumpgate_bridge.Prelude.{
  ℕ, ◌+◌, list_eq, nat_eq, ◌≡◌, refl, inl, inr, Bool, true, false, not, some, Bool-cases,
}
use jumpgate_bridge.Prelude.Text.{Text, text}
use jumpgate_bridge.Prelude.Map.{Map, get, has, set}
use jumpgate_bridge.Prelude.Outcome.{Result, ◌>>◌, pure, plain_error, profile_erasure_pending}
use jumpgate_bridge.Prelude.Outcome.Rules.{after_result, after_require}
use jumpgate_bridge.Value.{Number}
use jumpgate_bridge.RepositoryUtils.{read_clock}
use jumpgate_bridge.Profiles.{pending, Profile, Store, public_view}
use jumpgate_bridge.Profiles.Records.{
  put, unindex, revoked_profile, erasing, erased, is_pending, invalidate_playback, issue_install,
}
use jumpgate_bridge.Profiles.Erasure.{
  request_deletion, queue_invalidation, revoke_again, revoke_active, erase_again, begin_active,
  has_manifests, erase_pending, is_deleting,
}
use jumpgate_bridge.Profiles.Lifetime.{Grown, Lasts, put-Holds, retoken-Holds, delete-Holds}
use jumpgate_bridge.Profiles.Growth.{revoked-Grown, erasing-Grown, erased-Grown}
use jumpgate_bridge.Profiles.Steps.{Quiet, after-Quiet, invalidate_playback-Quiet, Ends}

module _ {M : Type 0} where
  module _ (old : Map Text Profile) (id : Text) (r : Profile) (s : Store M)
      (found : get s.profiles id ≡ some r) (w : Lasts old s) where
    pub erase_pending-Lasts :
        (hmac : Text → Text) (has_profile : Text → M → Bool) (reading : Number) (random : Text)
        (eraser : Result (Unit {0}))
        → r.deletion_state ≡ pending
        → Ends old (erase_pending hmac has_profile reading random eraser id r s)
    unfolding erase_pending put unindex
    erase_pending-Lasts hmac has_profile reading random eraser p =
        after_require (Ends old) (not (has_manifests hmac has_profile id s)) profile_erasure_pending
          _ s (λ _. w)
          (λ _.
            after_result (Ends old) eraser _ s (λ e _. w)
              (λ done _.
                after_result (Ends old) (issue_install hmac random) _ s (λ e _. w)
                  (λ issued _.
                    after_require (Ends old) (not (has s.install_index issued.token_hash))
                      plain_error _ s (λ _. w)
                      (λ _.
                        after_result (Ends old) (read_clock reading) _ s (λ e _. w)
                          (λ now _.
                            retoken-Holds old s.profiles s.install_index id r
                              (erased issued.token_hash now r) found
                              (erased-Grown issued.token_hash now r p) w)))))

  pub request_deletion-Quiet :
      (request_profile_deletion : Text → Text → M → M) (id reason : Text)
      → Quiet (request_deletion request_profile_deletion id reason)
  unfolding request_deletion
  request_deletion-Quiet request_profile_deletion id reason s = (refl, refl)

  pub queue_invalidation-Quiet :
      (request_profile_deletion : Text → Text → M → M) (sha256 : Text → Text)
      (date_parse : Text → Number) (reading : Number) (id : Text) (revision : ℕ)
      → Quiet (queue_invalidation request_profile_deletion sha256 date_parse reading id revision)
  unfolding queue_invalidation
  queue_invalidation-Quiet request_profile_deletion sha256 date_parse reading id revision s =
      (refl, refl)

  module _ (old : Map Text Profile) (id : Text) (r : Profile) (s : Store M)
      (found : get s.profiles id ≡ some r) (w : Lasts old s)
      (request_profile_deletion : Text → Text → M → M) where
    pub revoke_again-Lasts :
        (playback_reading : Number)
        → Ends old (revoke_again request_profile_deletion playback_reading id r s)
    unfolding revoke_again request_deletion
    revoke_again-Lasts playback_reading =
        after-Quiet old (invalidate_playback playback_reading id r.revision) _ s
          (invalidate_playback-Quiet playback_reading id r.revision) w (λ a t p i v. v)

    pub erase_again-Lasts : Ends old (erase_again request_profile_deletion id r s)
    unfolding erase_again request_deletion
    erase_again-Lasts = elim (Bool-cases (is_pending r.deletion_state)) [
      | inl e ↦ rw (e, erase_again) w
      | inr e ↦ rw (e, erase_again) w
    ]

    module _ (sha256 : Text → Text) (date_parse : Text → Number)
        (reading queue_reading playback_reading : Number) where
      -- From the queued invalidation on, with the new record of a profile whose token stays.
      ended :
          (q : Profile) (reason : Text) {A : Type 0} (result : A)
          → Grown r q
          → q.install_token_hash ≡ r.install_token_hash
          → Ends old (
              (queue_invalidation request_profile_deletion sha256 date_parse queue_reading id
                    (r.revision + 1)
                  >> (do
                    put id q
                    invalidate_playback playback_reading id (r.revision + 1)
                    request_deletion request_profile_deletion id reason
                    unindex r.install_token_hash
                    pure result))
                s)
      unfolding put request_deletion unindex
      ended q reason result g same =
          after-Quiet old
            (queue_invalidation request_profile_deletion sha256 date_parse queue_reading id
              (r.revision + 1))
            _ s
            (queue_invalidation-Quiet request_profile_deletion sha256 date_parse queue_reading id
              (r.revision + 1))
            w
            (λ a t p i v.
              after-Quiet old (invalidate_playback playback_reading id (r.revision + 1)) _
                (record t { profiles = set t.profiles id q })
                (invalidate_playback-Quiet playback_reading id (r.revision + 1))
                (put-Holds old t.profiles t.install_index id r q (rw p found) g v same)
                (λ a u p i v'. delete-Holds old u.profiles u.install_index v' r.install_token_hash))

      pub revoke_active-Lasts : Ends old (
          revoke_active request_profile_deletion sha256 date_parse reading queue_reading
            playback_reading id r s)
      unfolding revoke_active
      revoke_active-Lasts =
          after_result (Ends old) (read_clock reading) _ s (λ e _. w)
            (λ now _.
              ended (revoked_profile now r) (text "profile_revoked") true (revoked-Grown now r)
                refl)

      pub begin_active-Lasts :
          is_deleting r.deletion_state ≡ false
          → Ends old (
              begin_active request_profile_deletion sha256 date_parse reading queue_reading
                playback_reading id r s)
      unfolding begin_active
      begin_active-Lasts first =
          after_result (Ends old) (read_clock reading) _ s (λ e _. w)
            (λ now _.
              ended (erasing now r) (text "profile_erasure") (some (public_view (erasing now r)))
                (erasing-Grown now r first) refl)
