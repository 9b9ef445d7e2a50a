-- ===== src/PlaybackSessions/Invariant/Invalidation.antt =====
-- The invalidations keep the repository consistent. That of a source claim depends on the keys:
-- a session that is left alone has another claim, so another source key.
use jumpgate_bridge.Prelude.{
  ℕ, ◌==◌, ◌≡◌, refl, ap, ◌∙◌, list_eq, nat_eq, Bool, false, some, arith, leb, Bool-cases, inl, inr,
}
use jumpgate_bridge.Prelude.Text.{Text, text_iff, NulFree}
use jumpgate_bridge.Prelude.Map.{Map, get, has, set}
use jumpgate_bridge.Prelude.Map.Keys.{has-set, set-Unique}
use jumpgate_bridge.Prelude.Outcome.{Result, ok}
use jumpgate_bridge.Prelude.Outcome.Rules.{after_result}
use jumpgate_bridge.Value.{Number}
use jumpgate_bridge.RepositoryUtils.{read_clock}
use jumpgate_bridge.PlaybackSession.{Session, released, state_beq}
use jumpgate_bridge.PlaybackSession.Inputs.{SessionInvalidation, SourceInvalidation}
use jumpgate_bridge.PlaybackSessions.State.{
  Repository, session_key, source_key_of, device_key, get_or_zero, release_session, release_record,
  assert_session,
}
use jumpgate_bridge.PlaybackSessions.Invalidation.{
  invalidate_profile, invalidate_device, invalidate_session, invalidate_source_claim,
  invalidate_history, release_all, release_unless_released, of_source, of_history, claim_key,
}
use jumpgate_bridge.PlaybackSessions.Invariant.{IsConsistent, IsSeparable}
use jumpgate_bridge.PlaybackSessions.Invariant.Keys.{source_key_injective}
use jumpgate_bridge.PlaybackSessions.Invariant.Moves.{replace_session, revoke_some}
use jumpgate_bridge.PlaybackSessions.Invariant.Releases.{
  release_matching-IsConsistent, release-binding, release-released,
}
use jumpgate_bridge.PlaybackSessions.Invariant.Sessions.{assert_session_sound}

-- What the four parts of a claim's key must satisfy, as normalizeSourceInvalidation ensures.
pub record IsSeparableClaim (c : SourceInvalidation) : Type 0 where
  pub profile : NulFree c.profile_id
  pub context : NulFree c.context_id
  pub generation : NulFree c.playback_generation

-- A session that the claim does not name has another source key.
other_source :
    (c : SourceInvalidation) (r : Session)
    → IsSeparableClaim c
    → IsSeparable r.binding
    → of_source c r ≡ false
    → (claim_key c == source_key_of r.binding) ≡ false
unfolding source_key_of
other_source c r hc hr no_match = elim (Bool-cases (claim_key c == source_key_of r.binding)) [
  | inr e ↦ e
  | inl e ↦
      let (p, x, g, m) =
        source_key_injective c.profile_id r.binding.profile_id c.context_id r.binding.context_id
          c.playback_generation r.binding.playback_generation c.context_revision
          r.binding.context_revision hc.profile hr.profile hc.context hr.context hc.generation
          hr.generation ((text_iff (claim_key c) (source_key_of r.binding)).0 e) in
      ground (
        arith,
        text_iff r.binding.profile_id c.profile_id,
        text_iff r.binding.context_id c.context_id,
        text_iff r.binding.playback_generation c.playback_generation,
        text_iff r.binding.context_revision c.context_revision,
      )
]

abbrev Holds : {A : Type 0} → Result A × Repository → Type 0
Holds x = IsConsistent x.1

release_all-IsConsistent :
    (matches : Session → Bool) (reading : Number) (s : Repository)
    → IsConsistent s
    → IsConsistent (release_all matches reading s).1
unfolding release_all
release_all-IsConsistent matches reading s v =
    after_result Holds (read_clock reading) _ s (λ e _. v)
      λ now _.
        release_matching-IsConsistent matches now s s.source_revocations v (λ k r _ _ h. h)
          v.unique_sources

-- The generations that have been recorded play no part in the invariant.
record_profile :
    (s : Repository) (m : Map Text ℕ)
    → IsConsistent s
    → IsConsistent (record s { profile_invalidations = m })
record_profile s m v = record {
  unique_sessions = v.unique_sessions;
  unique_dispatches = v.unique_dispatches;
  unique_sources = v.unique_sources;
  unique_devices = v.unique_devices;
  session_at = v.session_at;
  dispatch_at = v.dispatch_at;
}

record_device :
    (s : Repository) (k : Text) (generation : ℕ)
    → IsConsistent s
    → IsConsistent (record s { device_invalidations = set s.device_invalidations k generation })
record_device s k generation v = record {
  unique_sessions = v.unique_sessions;
  unique_dispatches = v.unique_dispatches;
  unique_sources = v.unique_sources;
  unique_devices = set-Unique s.device_invalidations k generation v.unique_devices;
  session_at = v.session_at;
  dispatch_at = v.dispatch_at;
}

pub invalidate_profile-IsConsistent :
    (reading : Number) (id : Text) (revision : ℕ) (s : Repository)
    → IsConsistent s
    → IsConsistent (invalidate_profile reading id revision s).1
unfolding invalidate_profile
invalidate_profile-IsConsistent reading id revision s v =
    elim (Bool-cases (leb revision (get_or_zero s.profile_invalidations id))) [
      | inl old ↦ rw old v
      | inr new ↦ rw new (release_all-IsConsistent _ reading _ (record_profile s _ v))
    ]

pub invalidate_device-IsConsistent :
    (reading : Number) (profile_id device_id : Text) (generation : ℕ) (s : Repository)
    → IsConsistent s
    → IsConsistent (invalidate_device reading profile_id device_id generation s).1
unfolding invalidate_device
invalidate_device-IsConsistent reading profile_id device_id generation s v =
    elim (Bool-cases
      (leb generation (get_or_zero s.device_invalidations (device_key profile_id device_id)))) [
        | inl old ↦ rw old v
        | inr new ↦ rw new (release_all-IsConsistent _ reading _ (record_device s _ generation v))
      ]

pub invalidate_source_claim-IsConsistent :
    (reading : Number) (now : ℕ) (c : SourceInvalidation) (s : Repository)
    → read_clock reading ≡ ok now
    → IsSeparableClaim c
    → IsConsistent s
    → IsConsistent (invalidate_source_claim reading c s).1
unfolding invalidate_source_claim release_all
invalidate_source_claim-IsConsistent reading now c s clock apart v =
    elim (Bool-cases (has s.source_revocations (claim_key c))) [
      | inl old ↦ rw old v
      | inr new ↦
          rw (new, clock)
            (release_matching-IsConsistent (of_source c) now s
              (set s.source_revocations (claim_key c) tt) v kept
              (set-Unique s.source_revocations (claim_key c) tt v.unique_sources))
    ]
  where
    kept :
        (k : Text) (r : Session)
        → get s.sessions k ≡ some r
        → of_source c r ≡ false
        → has s.source_revocations (source_key_of r.binding) ≡ false
        → has (set s.source_revocations (claim_key c) tt) (source_key_of r.binding) ≡ false
    kept k r at other standing =
        rw (has-set, other_source c r apart (v.session_at k r at).separable other) standing

pub invalidate_history-IsConsistent :
    (reading later : Number) (id : Text) (generation : ℕ) (s : Repository)
    → IsConsistent s
    → IsConsistent (invalidate_history reading later id generation s).1
unfolding invalidate_history
invalidate_history-IsConsistent reading later id generation s v =
    after_result Holds (read_clock reading) _ s (λ e _. v)
      λ now _. release_all-IsConsistent _ later _ (revoke_some s (of_history id generation) now v)

release_session-IsConsistent :
    (r : Session) (now : ℕ) (s : Repository)
    → IsConsistent s
    → get s.sessions (session_key r.binding.profile_id r.binding.session_id) ≡ some r
    → IsConsistent (release_session (session_key r.binding.profile_id r.binding.session_id) r now s)
unfolding release_session
release_session-IsConsistent r now s v found =
    replace_session s r.binding.profile_id r.binding.session_id now r (release_record now r) v found
      (release-binding now r) refl (λ live. cc (release-released now r))

pub invalidate_session-IsConsistent :
    (reading : Number) (c : SessionInvalidation) (s : Repository)
    → IsConsistent s
    → IsConsistent (invalidate_session reading c s).1
unfolding invalidate_session release_unless_released
invalidate_session-IsConsistent reading c s v =
    after_result Holds
      (assert_session (get s.sessions (session_key c.binding.profile_id c.binding.session_id))
        c.binding c.expected_revision)
      _ s (λ e _. v)
      λ r bound. last r (assert_session_sound _ c.binding c.expected_revision r bound)
  where
    last :
        (r : Session)
        → (get s.sessions (session_key c.binding.profile_id c.binding.session_id) ≡ some r)
          × (r.binding ≡ c.binding)
        → IsConsistent (release_unless_released r reading s).1
    last r (found, same) = elim (Bool-cases (state_beq r.state released)) [
      | inl e ↦ rw e v
      | inr e ↦ rw e (
          after_result Holds (read_clock reading) _ s (λ e _. v)
            λ now _.
              release_session-IsConsistent r now s v
                (ap (λ b. get s.sessions (session_key b.profile_id b.session_id)) same ∙ found))
    ]
