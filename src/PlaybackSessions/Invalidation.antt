-- ===== src/PlaybackSessions/Invalidation.antt =====
-- invalidateProfile, invalidateDevice, invalidateSession, invalidateSourceClaim and
-- invalidateHistoryNow: each releases sessions, and with them revokes their dispatches.
use jumpgate_bridge.Prelude.{
  ℕ, ◌==◌, list_eq, nat_eq, Bool, true, false, ◌&&◌, ltb, leb, if◌then◌else◌,
}
use jumpgate_bridge.Prelude.Text.{Text}
use jumpgate_bridge.Prelude.Map.{get, has, set, map_values, values}
use jumpgate_bridge.Prelude.Outcome.{ok, Action, pure, lift, read, write, ◌>>=◌, ◌>>◌}
use jumpgate_bridge.Value.{Value, Number, max_safe_integer}
use jumpgate_bridge.RepositoryUtils.{read_clock, assert_identifier, assert_positive_integer}
use jumpgate_bridge.PlaybackSession.{released, state_beq, is_active, Session, Dispatch}
use jumpgate_bridge.PlaybackSession.Inputs.{
  SessionInvalidation, normalize_session_invalidation, SourceInvalidation,
  normalize_source_invalidation,
}
use jumpgate_bridge.PlaybackSessions.State.{
  Repository, session_key, device_key, source_key, get_or_zero, revoke_dispatch, assert_session,
  release_matching, count_released, release_session,
}

-- _releaseMatching
unfoldable pub release_all : (Session → Bool) → Number → Action Repository ℕ
release_all matches reading = do
  now ← lift (read_clock reading)
  count ← read (λ s. count_released matches (values s.sessions))
  write (release_matching matches now)
  pure count

abbrev pub older_profile : Text → ℕ → Session → Bool
older_profile id revision r = r.binding.profile_id == id && ltb r.binding.profile_revision revision

-- invalidateProfileNow; invalidateProfile is the same under the profile's lock.
unfoldable pub invalidate_profile : Number → Text → ℕ → Action Repository ℕ
unfolding release_all
invalidate_profile reading id revision s =
    if leb revision (get_or_zero s.profile_invalidations id)
    then (ok 0, s)
    else (do
      write (λ t. record t { profile_invalidations = set t.profile_invalidations id revision })
      release_all (older_profile id revision) reading)
        s

unfoldable pub invalidate_profile_input : Number → Value → Value → Action Repository ℕ
invalidate_profile_input reading profile_id profile_revision = do
  id ← lift (assert_identifier profile_id)
  revision ← lift (assert_positive_integer profile_revision max_safe_integer)
  invalidate_profile reading id revision

abbrev pub older_device : Text → Text → ℕ → Session → Bool
older_device profile_id device_id generation r =
    r.binding.profile_id == profile_id
    && r.binding.device_id == device_id
    && ltb r.binding.device_generation generation

-- invalidateDeviceNow
unfoldable pub invalidate_device : Number → Text → Text → ℕ → Action Repository ℕ
unfolding release_all
invalidate_device reading profile_id device_id generation s =
    if leb generation (get_or_zero s.device_invalidations (device_key profile_id device_id))
    then (ok 0, s)
    else (do
      write (λ t. record t {
        device_invalidations =
            set t.device_invalidations (device_key profile_id device_id) generation;
      })
      release_all (older_device profile_id device_id generation) reading)
        s

unfoldable pub invalidate_device_input : Number → Value → Value → Value → Action Repository ℕ
invalidate_device_input reading profile_id device_id device_generation = do
  profile ← lift (assert_identifier profile_id)
  device ← lift (assert_identifier device_id)
  generation ← lift (assert_positive_integer device_generation max_safe_integer)
  invalidate_device reading profile device generation

unfoldable pub release_unless_released : Session → Number → Action Repository Bool
release_unless_released r reading = if state_beq r.state released then pure false else (do
  now ← lift (read_clock reading)
  write (release_session (session_key r.binding.profile_id r.binding.session_id) r now)
  pure true)

-- invalidateSession, on an input that has been normalised.
unfoldable pub invalidate_session : Number → SessionInvalidation → Action Repository Bool
unfolding release_unless_released
invalidate_session reading c = do
  found ← read (λ s. get s.sessions (session_key c.binding.profile_id c.binding.session_id))
  r ← lift (assert_session found c.binding c.expected_revision)
  release_unless_released r reading

unfoldable pub invalidate_session_input : Number → Value → Action Repository Bool
invalidate_session_input reading input = do
  c ← lift (normalize_session_invalidation input)
  invalidate_session reading c

abbrev pub of_source : SourceInvalidation → Session → Bool
of_source c r =
    r.binding.profile_id == c.profile_id
    && r.binding.context_id == c.context_id
    && r.binding.playback_generation == c.playback_generation
    && r.binding.context_revision == c.context_revision

abbrev pub claim_key : SourceInvalidation → Text
claim_key c = source_key c.profile_id c.context_id c.playback_generation c.context_revision

-- invalidateSourceClaim, on an input that has been normalised.
unfoldable pub invalidate_source_claim : Number → SourceInvalidation → Action Repository ℕ
unfolding release_all
invalidate_source_claim reading c s =
    if has s.source_revocations (claim_key c)
    then (ok 0, s)
    else (do
      write (λ t. record t { source_revocations = set t.source_revocations (claim_key c) tt })
      release_all (of_source c) reading)
        s

unfoldable pub invalidate_source_claim_input : Number → Value → Action Repository ℕ
invalidate_source_claim_input reading input = do
  c ← lift (normalize_source_invalidation input)
  invalidate_source_claim reading c

abbrev pub of_history : Text → ℕ → Dispatch → Bool
of_history id generation d =
    d.binding.profile_id == id && d.history_generation == generation && is_active d.status

-- invalidateHistoryNow
unfoldable pub invalidate_history : Number → Number → Text → ℕ → Action Repository ℕ
unfolding release_all
invalidate_history reading later id generation = do
  now ← lift (read_clock reading)
  write (λ s. record s {
    dispatches =
        map_values (λ d. if of_history id generation d then revoke_dispatch now d else d)
          s.dispatches;
  })
  release_all (λ r. r.binding.profile_id == id) later

unfoldable pub invalidate_history_input : Number → Number → Value → Value → Action Repository ℕ
invalidate_history_input reading later profile_id history_generation = do
  id ← lift (assert_identifier profile_id)
  generation ← lift (assert_positive_integer history_generation max_safe_integer)
  invalidate_history reading later id generation
