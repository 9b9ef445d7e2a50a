-- ===== src/PlaybackSessions/State.antt =====
-- The fields of MemoryPlaybackSessionRepository, its keys and its private helpers. The methods
-- run under the lifecycle coordinator, one at a time for each profile, so each is one step.
use jumpgate_bridge.Prelude.{
  ℕ, ◌+◌, ◌==◌, list_eq, nat_eq, Bool, true, false, ◌&&◌, ◌||◌, not, Option, none, some, List, [],
  ◌∷◌, ◌++◌, ltb, if◌then◌else◌,
}
use jumpgate_bridge.Prelude.Text.{Text, text}
use jumpgate_bridge.Prelude.Map.{Map, get, has, set, map_values, values}
use jumpgate_bridge.Prelude.Outcome.{
  Result, ok, err, playback_session_stale, playback_profile_stale, playback_device_stale,
  history_generation_changed,
}
use jumpgate_bridge.Value.{Value, number, natural}
use jumpgate_bridge.PlaybackSession.{
  released, state_beq, revoked, is_active, Binding, same_binding, Session, Dispatch,
}

-- What `getProfileBinding` answers.
pub record ProfileBinding : Type 0 where
  pub status : Text
  pub revision : ℕ
  pub history_generation : Value

-- The two callbacks given to the constructor, as they answer during one operation. Either may
-- reject.
pub record Authority : Type 0 where
  pub get_profile_binding : Text → Result (Option ProfileBinding)
  pub is_device_binding_active : Text → Text → ℕ → Result Bool

pub record Repository : Type 0 where
  pub sessions : Map Text Session
  pub dispatches : Map Text Dispatch
  pub source_revocations : Map Text (Unit {0})
  pub profile_invalidations : Map Text ℕ
  pub device_invalidations : Map Text ℕ

-- The key of a session in its profile, of a dispatch in its profile, of a device in its profile.
unfoldable pub session_key : Text → Text → Text
session_key profile_id session_id = profile_id ++ (0 ∷ session_id)

unfoldable pub dispatch_key : Text → Text → Text
dispatch_key profile_id dispatch_id = profile_id ++ (0 ∷ dispatch_id)

unfoldable pub device_key : Text → Text → Text
device_key profile_id device_id = profile_id ++ (0 ∷ device_id)

unfoldable pub source_key : Text → Text → Text → Text → Text
source_key profile_id context_id playback_generation context_revision =
    profile_id ++ (0 ∷ (context_id ++ (0 ∷ (playback_generation ++ (0 ∷ context_revision)))))

-- this._sourceKey(value)
unfoldable pub source_key_of : Binding → Text
source_key_of b = source_key b.profile_id b.context_id b.playback_generation b.context_revision

-- map.get(key) || 0
unfoldable pub get_or_zero : Map Text ℕ → Text → ℕ
get_or_zero m k = elim (get m k) [ none ↦ 0 | some n ↦ n ]

unfoldable pub clear_lease : Dispatch → Dispatch
clear_lease d = record {
  shown = record (d.shown) { lease_owner = none; lease_expires_at = none };
  lease_token_hash = none;
}

unfoldable pub revoke_dispatch : ℕ → Dispatch → Dispatch
unfolding clear_lease
revoke_dispatch now d =
    if is_active d.status
    then clear_lease (record {
      shown = record (d.shown) { status = revoked; revoked_at = some now; updated_at = now };
      lease_token_hash = d.lease_token_hash;
    })
    else d

-- Does a dispatch name this session?
unfoldable pub of_session : Text → Text → Dispatch → Bool
of_session profile_id session_id d =
    d.binding.profile_id == profile_id && d.binding.session_id == session_id

unfoldable pub revoke_session_dispatches : Text → Text → ℕ → Map Text Dispatch → Map Text Dispatch
revoke_session_dispatches profile_id session_id now =
    map_values (λ d. if of_session profile_id session_id d then revoke_dispatch now d else d)

-- The session part of _releaseSession.
unfoldable pub release_record : ℕ → Session → Session
release_record now r = if state_beq r.state released then r else record r {
  state = released;
  revision = r.revision + 1;
  updated_at = now;
  invalidated_at = some now;
}

-- The loop of _releaseMatching over the sessions: their new records, the dispatches that the
-- releases revoke, and the count of sessions that were not released yet.
unfoldable pub release_sessions : (Session → Bool) → ℕ → Map Text Session → Map Text Session
release_sessions matches now = map_values (λ r. if matches r then release_record now r else r)

unfoldable pub revoke_released :
    (Session → Bool) → ℕ → List Session → Map Text Dispatch → Map Text Dispatch
revoke_released matches now [] ds = ds
revoke_released matches now (r ∷ rs) ds = revoke_released matches now rs (
    if matches r
    then revoke_session_dispatches r.binding.profile_id r.binding.session_id now ds
    else ds)

unfoldable pub count_released : (Session → Bool) → List Session → ℕ
count_released matches [] = 0
count_released matches (r ∷ rs) =
    (if matches r && not (state_beq r.state released) then 1 else 0) + count_released matches rs

unfoldable pub release_matching : (Session → Bool) → ℕ → Repository → Repository
release_matching matches now s = record s {
  sessions = release_sessions matches now s.sessions;
  dispatches = revoke_released matches now (values s.sessions) s.dispatches;
}

-- _releaseSession on the record under `key`.
unfoldable pub release_session : Text → Session → ℕ → Repository → Repository
release_session key r now s = record s {
  sessions = set s.sessions key (release_record now r);
  dispatches = revoke_session_dispatches r.binding.profile_id r.binding.session_id now s.dispatches;
}

-- value === n
strict_equals : Value → ℕ → Bool
strict_equals (number (natural m)) n = m == n
strict_equals _ n = false

-- The profile's part of _assertDurableBinding: a live profile at the bound revision.
current_profile : Repository → Binding → Option ProfileBinding → Result ProfileBinding
current_profile s b none = err playback_profile_stale
current_profile s b (some p) =
    if ltb b.profile_revision (get_or_zero s.profile_invalidations b.profile_id)
      || not (p.status == text "active")
      || not (p.revision == b.profile_revision)
    then err playback_profile_stale
    else ok p

same_history : ProfileBinding → Option ℕ → Bool
unfolding strict_equals
same_history p none = true
same_history p (some generation) = strict_equals p.history_generation generation

-- _assertDurableBinding. The callback about the device is asked only if no newer generation of
-- the device has been recorded. `history` is the generation of a dispatch; a session has none.
unfoldable pub assert_durable_binding :
    Authority → Binding → Option ℕ → Repository → Result ProfileBinding
unfolding current_profile same_history
assert_durable_binding authority b history s = elim (authority.get_profile_binding b.profile_id) [
  | err e ↦ err e
  | ok answer ↦ elim (current_profile s b answer) [
    | err e ↦ err e
    | ok profile ↦
        if ltb b.device_generation
          (get_or_zero s.device_invalidations (device_key b.profile_id b.device_id))
        then err playback_device_stale
        else elim (authority.is_device_binding_active b.profile_id b.device_id
            b.device_generation) [
              | err e ↦ err e
              | ok false ↦ err playback_device_stale
              | ok true ↦
                  if same_history profile history
                  then ok profile
                  else err history_generation_changed
            ]
  ]
]

-- _assertSession
unfoldable pub assert_session : Option Session → Binding → ℕ → Result Session
assert_session none b expected_revision = err playback_session_stale
assert_session (some r) b expected_revision =
    if same_binding r.binding b && r.revision == expected_revision
    then ok r
    else err playback_session_stale

-- _isDispatchAuthoritative: any error of the durable check counts as "no".
unfoldable pub is_dispatch_authoritative : Authority → Repository → Dispatch → Bool
unfolding assert_durable_binding state_beq
is_dispatch_authoritative authority s d =
    elim (get s.sessions (session_key d.binding.profile_id d.binding.session_id)) [
      | none ↦ false
      | some r ↦
          if not (same_binding r.binding d.binding)
            || not (r.revision == d.session_revision)
            || not (state_beq r.state d.input.required_state)
            || has s.source_revocations (source_key_of d.binding)
          then false
          else elim (assert_durable_binding authority d.binding (some d.history_generation) s) [
            | ok p ↦ true
            | err e ↦ false
          ]
    ]
