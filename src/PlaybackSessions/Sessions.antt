-- ===== src/PlaybackSessions/Sessions.antt =====
-- openSession, getSession, transition, transitionAndEnqueue and listDispatches.
use jumpgate_bridge.Prelude.{
  ℕ, ◌+◌, ◌==◌, list_eq, nat_eq, Bool, ◌&&◌, ◌||◌, not, Option, none, some, ltb, if◌then◌else◌,
}
use jumpgate_bridge.Prelude.Text.{Text}
use jumpgate_bridge.Prelude.Map.{get, has, set}
use jumpgate_bridge.Prelude.Outcome.{
  Result, ok, err, Action, pure, lift, read, check, write, require, ◌>>=◌, ◌>>◌,
  playback_source_revoked, playback_session_released, playback_session_stale,
  playback_session_revision_exhausted, scrobble_dispatch_conflict,
}
use jumpgate_bridge.Value.{Value, Number, max_safe_integer}
use jumpgate_bridge.RepositoryUtils.{read_clock, assert_identifier, assert_positive_integer}
use jumpgate_bridge.PlaybackSession.{
  PlaybackState, released, state_beq, queued, Binding, same_binding, Session, Dispatch,
  PublicDispatch, DispatchInput, same_dispatch,
}
use jumpgate_bridge.PlaybackSession.Inputs.{
  OpenInput, normalize_open_input, TransitionInput, normalize_transition_input,
  normalize_transition_and_dispatch_input,
}
use jumpgate_bridge.PlaybackSessions.State.{
  Authority, Repository, session_key, dispatch_key, source_key_of, revoke_session_dispatches,
  assert_durable_binding, assert_session,
}

abbrev pub source_revoked : Repository → Binding → Bool
source_revoked s b = has s.source_revocations (source_key_of b)

abbrev pub key_of : Binding → Text
key_of b = session_key b.profile_id b.session_id

-- A session that is open already is returned if nothing about it has changed.
unfoldable pub reopen : Session → OpenInput → Result Session
reopen r c =
    if state_beq r.state released
    then err playback_session_released
    else if not (same_binding r.binding c.binding) || not (state_beq r.state c.state)
    then err playback_session_stale
    else ok r

unfoldable pub new_session : OpenInput → ℕ → Session
new_session c now = record {
  binding = c.binding;
  state = c.state;
  revision = 1;
  created_at = now;
  updated_at = now;
  invalidated_at = none;
}

open_new : OpenInput → Number → Action Repository Session
unfolding new_session
open_new c reading = do
  now ← lift (read_clock reading)
  write (λ s. record s { sessions = set s.sessions (key_of c.binding) (new_session c now) })
  pure (new_session c now)

open_found : OpenInput → Number → Option Session → Action Repository Session
unfolding reopen open_new
open_found c reading none = open_new c reading
open_found c reading (some r) = lift (reopen r c)

-- openSession, on an input that has been normalised.
unfoldable pub open_candidate : Authority → Number → OpenInput → Action Repository Session
unfolding open_found state_beq
open_candidate authority reading c = do
  profile ← check (assert_durable_binding authority c.binding none)
  is_revoked ← read (λ s. source_revoked s c.binding)
  require (not is_revoked) playback_source_revoked
  existing ← read (λ s. get s.sessions (key_of c.binding))
  open_found c reading existing

unfoldable pub open_session : Authority → Number → Value → Action Repository Session
open_session authority reading input = do
  candidate ← lift (normalize_open_input input)
  open_candidate authority reading candidate

unfoldable pub get_session : Value → Value → Action Repository (Option Session)
get_session profile_id session_id = do
  profile ← lift (assert_identifier profile_id)
  session ← lift (assert_identifier session_id)
  read (λ s. get s.sessions (session_key profile session))

-- The end of _transitionNow, for a record whose state changes.
unfoldable pub moved : Session → PlaybackState → Session
moved r state = record r { state = state; revision = r.revision + 1 }

unfoldable pub stamped : Session → ℕ → Session
stamped r now = record r {
  updated_at = now;
  invalidated_at = if state_beq r.state released then some now else r.invalidated_at;
}

unfoldable pub change_state : Session → PlaybackState → Number → Action Repository Session
unfolding moved stamped
change_state r state reading = do
  require (ltb r.revision max_safe_integer) playback_session_revision_exhausted
  write (λ s. record s { sessions = set s.sessions (key_of r.binding) (moved r state) })
  now ← lift (read_clock reading)
  write (λ s. record s {
    sessions = set s.sessions (key_of r.binding) (stamped (moved r state) now);
    dispatches =
        revoke_session_dispatches r.binding.profile_id r.binding.session_id now s.dispatches;
  })
  pure (stamped (moved r state) now)

-- _transitionNow
unfoldable pub transition_now : Authority → Number → TransitionInput → Action Repository Session
unfolding change_state state_beq
transition_now authority reading c = do
  found ← read (λ s. get s.sessions (key_of c.binding))
  r ← lift (assert_session found c.binding c.expected_revision)
  require (not (state_beq r.state released) || state_beq c.state released) playback_session_released
  profile ← check (assert_durable_binding authority c.binding none)
  is_revoked ← read (λ s. source_revoked s c.binding)
  require (not is_revoked) playback_source_revoked
  if state_beq r.state c.state then pure r else change_state r c.state reading

unfoldable pub transition : Authority → Number → Value → Action Repository Session
transition authority reading input = do
  candidate ← lift (normalize_transition_input input)
  transition_now authority reading candidate

unfoldable pub new_dispatch : TransitionInput → DispatchInput → ℕ → ℕ → ℕ → Dispatch
new_dispatch c input history_generation session_revision now = record {
  shown = record {
    binding = c.binding;
    input = input;
    history_generation = history_generation;
    session_revision = session_revision;
    status = queued;
    attempt_count = 0;
    next_attempt_at = now;
    lease_owner = none;
    lease_expires_at = none;
    created_at = now;
    updated_at = now;
    delivered_at = none;
    revoked_at = none;
  };
  lease_token_hash = none;
}

-- isDeepStrictEqual and `===` on numbers.
module _ (deep_equal : Value → Value → Bool) (same_progress : Number → Number → Bool) where
  -- A dispatch under the id already: the same request again is answered as before.
  unfoldable pub replay :
      TransitionInput
      → DispatchInput
      → ℕ
      → Dispatch
      → Option Session
      → Result (Session × PublicDispatch)
  replay c input history_generation d none = err scrobble_dispatch_conflict
  replay c input history_generation d (some r) =
      if same_binding r.binding c.binding
        && same_binding d.binding c.binding
        && d.history_generation == history_generation
        && d.session_revision == r.revision
        && same_dispatch deep_equal same_progress d.input input
      then ok (r, d.shown)
      else err scrobble_dispatch_conflict

  unfoldable pub enqueue :
      Authority
      → Number
      → Number
      → TransitionInput
      → DispatchInput
      → ℕ
      → Action Repository (Session × PublicDispatch)
  unfolding new_dispatch
  enqueue authority reading later c input history_generation = do
    r ← transition_now authority reading c
    now ← lift (read_clock later)
    write (λ s. record s {
      dispatches =
          set s.dispatches (dispatch_key c.binding.profile_id input.id)
            (new_dispatch c input history_generation r.revision now);
    })
    pure (r, (new_dispatch c input history_generation r.revision now).shown)

  -- transitionAndEnqueue, on an input that has been normalised.
  unfoldable pub transition_and_enqueue_candidate :
      Authority
      → Number
      → Number
      → TransitionInput
      → DispatchInput
      → Action Repository (Session × PublicDispatch)
  unfolding replay enqueue
  transition_and_enqueue_candidate authority reading later c input = do
    profile ← check (assert_durable_binding authority c.binding none)
    history_generation ← lift (assert_positive_integer profile.history_generation max_safe_integer)
    existing ← read (λ s. get s.dispatches (dispatch_key c.binding.profile_id input.id))
    session ← read (λ s. get s.sessions (key_of c.binding))
    elim existing [
      | some d ↦ lift (replay c input history_generation d session)
      | none ↦ enqueue authority reading later c input history_generation
    ]

  unfoldable pub transition_and_enqueue :
      (Value → ℕ)
      → Authority
      → Number
      → Number
      → Value
      → Action Repository (Session × PublicDispatch)
  transition_and_enqueue json_bytes authority reading later input = do
    candidate ← lift (normalize_transition_and_dispatch_input json_bytes input)
    transition_and_enqueue_candidate authority reading later candidate.0 candidate.1
