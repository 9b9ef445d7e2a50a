-- ===== src/PlaybackSession.antt =====
-- lib/storage/playback-session.js: the records of playback sessions and of scrobble dispatches,
-- and the checks on the input of the repository's operations.
pub mod Inputs
use jumpgate_bridge.Prelude.{
  ℕ, ◌==◌, list_eq, nat_eq, Bool, true, false, ◌&&◌, ◌||◌, not, Option, none, some, List, [], ◌∷◌,
  if◌then◌else◌,
}
use jumpgate_bridge.Prelude.Text.{Text, text}
use jumpgate_bridge.Prelude.Outcome.{Result, ok, err, type_error, scrobble_dispatch_state_invalid}
use jumpgate_bridge.Value.{Value, Number}

-- PLAYBACK_STATES
pub data PlaybackState : Type 0 where
  playing paused backgrounded released : PlaybackState

unfoldable pub state_beq : PlaybackState → PlaybackState → Bool
state_beq playing playing = true
state_beq paused paused = true
state_beq backgrounded backgrounded = true
state_beq released released = true
state_beq _ _ = false

-- DISPATCH_EVENTS
pub data DispatchEvent : Type 0 where
  start resume pause stop completion : DispatchEvent

unfoldable pub event_beq : DispatchEvent → DispatchEvent → Bool
event_beq start start = true
event_beq resume resume = true
event_beq pause pause = true
event_beq stop stop = true
event_beq completion completion = true
event_beq _ _ = false

-- ACTIVE_DISPATCH_STATES are the first two.
pub data DispatchStatus : Type 0 where
  queued leased delivered revoked : DispatchStatus

unfoldable pub is_active : DispatchStatus → Bool
is_active queued = true
is_active leased = true
is_active _ = false

unfoldable pub required_state_for_event : DispatchEvent → PlaybackState → Result PlaybackState
required_state_for_event start playing = ok playing
required_state_for_event resume playing = ok playing
required_state_for_event pause paused = ok paused
required_state_for_event pause backgrounded = ok backgrounded
required_state_for_event stop released = ok released
required_state_for_event completion released = ok released
required_state_for_event event state = err scrobble_dispatch_state_invalid

-- BINDING_FIELDS
pub record Binding : Type 0 where
  pub profile_id : Text
  pub profile_revision : ℕ
  pub device_id : Text
  pub device_generation : ℕ
  pub session_id : Text
  pub context_id : Text
  pub playback_generation : Text
  pub context_revision : Text

unfoldable pub same_binding : Binding → Binding → Bool
same_binding left right =
    left.profile_id == right.profile_id
    && left.profile_revision == right.profile_revision
    && left.device_id == right.device_id
    && left.device_generation == right.device_generation
    && left.session_id == right.session_id
    && left.context_id == right.context_id
    && left.playback_generation == right.playback_generation
    && left.context_revision == right.context_revision

-- A session as stored, which is what `publicSession` shows.
pub record Session : Type 0 where
  pub binding : Binding
  pub state : PlaybackState
  pub revision : ℕ
  pub created_at : ℕ
  pub updated_at : ℕ
  pub invalidated_at : Option ℕ

-- The `dispatch` part of an accepted input.
pub record DispatchInput : Type 0 where
  pub id : Text
  pub event : DispatchEvent
  pub progress : Number
  pub payload : Value
  pub required_state : PlaybackState

-- What `publicDispatch` shows of a dispatch.
pub record PublicDispatch : Type 0 where
  pub binding : Binding
  pub input : DispatchInput
  pub history_generation : ℕ
  pub session_revision : ℕ
  pub status : DispatchStatus
  pub attempt_count : ℕ
  pub next_attempt_at : ℕ
  pub lease_owner : Option Text
  pub lease_expires_at : Option ℕ
  pub created_at : ℕ
  pub updated_at : ℕ
  pub delivered_at : Option ℕ
  pub revoked_at : Option ℕ

-- A dispatch as stored: the hash of the lease token is never shown.
pub record Dispatch : Type 0 where
  pub shown : PublicDispatch
  pub open shown use *
  pub lease_token_hash : Option Text

-- isDeepStrictEqual on payloads and `===` on the progress are passed in.
module _ (deep_equal : Value → Value → Bool) (same_progress : Number → Number → Bool) where
  unfoldable pub same_dispatch : DispatchInput → DispatchInput → Bool
  unfolding event_beq state_beq
  same_dispatch left right =
      left.id == right.id
      && event_beq left.event right.event
      && same_progress left.progress right.progress
      && state_beq left.required_state right.required_state
      && deep_equal left.payload right.payload
