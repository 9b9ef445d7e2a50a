-- ===== src/PlaybackSession/Inputs.antt =====
-- The normalisation of inputs in lib/storage/playback-session.js. An input is a JavaScript value;
-- what passes is a record.
use jumpgate_bridge.Prelude.{
  ℕ, ◌*◌, ◌==◌, list_eq, nat_eq, Bool, true, false, ◌&&◌, ◌||◌, Option, none, some, List, [], ◌∷◌,
  ◌++◌, leb, ltb, if◌then◌else◌, length, every,
}
use jumpgate_bridge.Prelude.Text.{Text, text}
use jumpgate_bridge.Prelude.Outcome.{Result, ok, err, type_error}
use jumpgate_bridge.Value.{
  Value, number, string, object, Number, natural, fraction, Fields, empty, field, property,
  max_safe_integer,
}
use jumpgate_bridge.RepositoryUtils.{
  is_word, assert_identifier, assert_positive_integer, parse_timestamp,
}
use jumpgate_bridge.RepositoryUtils.Fences.{assert_mutation_fence}
use jumpgate_bridge.JsonDomain.{assert_json_value}
use jumpgate_bridge.PlaybackSession.{
  PlaybackState, playing, paused, backgrounded, released, DispatchEvent, start, resume, pause, stop,
  completion, Binding, DispatchInput, required_state_for_event,
}

infixl 5 ◌>>=◌ ◌>>◌
abbrev ◌>>=◌ {ℓ κ} : {A : Type ℓ} {B : Type κ} → Result A → (A → Result B) → Result B
ok a >>= f = f a
err e >>= f = err e

abbrev ◌>>◌ {ℓ κ} : {A : Type ℓ} {B : Type κ} → Result A → Result B → Result B
m >> k = m >>= λ _. k

unfoldable pub includes : List Text → Text → Bool
includes [] j = false
includes (i ∷ is) j = i == j || includes is j

known_fields : Fields → List Text → Bool
unfolding includes
known_fields empty allowed = true
known_fields (field k v fs) allowed = includes allowed k && known_fields fs allowed

-- strictObject
unfoldable pub strict_object : Value → List Text → Result Fields
unfolding known_fields
strict_object (object fs) allowed = if known_fields fs allowed then ok fs else err type_error
strict_object _ allowed = err type_error

-- /^g1:[A-Za-z0-9_-]{1,128}$/
unfoldable pub is_playback_generation : Text → Bool
unfolding is_word every
is_playback_generation (g ∷ one ∷ colon ∷ s) =
    g == b'g'
    && one == b'1'
    && colon == b':'
    && leb 1 (length s)
    && leb (length s) 128
    && every is_word s
is_playback_generation _ = false

unfoldable pub assert_playback_generation : Value → Result Text
unfolding is_playback_generation
assert_playback_generation (string s) = if is_playback_generation s then ok s else err type_error
assert_playback_generation _ = err type_error

-- PLAYBACK_STATES.has
parse_state : Text → Option PlaybackState
parse_state s =
    if s == text "playing"
    then some playing
    else if s == text "paused"
    then some paused
    else if s == text "backgrounded"
    then some backgrounded
    else if s == text "released"
    then some released
    else none

accept_state : Bool → Option PlaybackState → Result PlaybackState
accept_state opening none = err type_error
accept_state true (some released) = err type_error
accept_state opening (some state) = ok state

unfoldable pub assert_playback_state : Value → Bool → Result PlaybackState
unfolding parse_state accept_state
assert_playback_state (string s) opening = accept_state opening (parse_state s)
assert_playback_state _ opening = err type_error

parse_event : Text → Option DispatchEvent
parse_event s =
    if s == text "start"
    then some start
    else if s == text "resume"
    then some resume
    else if s == text "pause"
    then some pause
    else if s == text "stop"
    then some stop
    else if s == text "completion"
    then some completion
    else none

unfoldable pub assert_dispatch_event : Value → Result DispatchEvent
unfolding parse_event
assert_dispatch_event (string s) = elim (parse_event s) [
  | none ↦ err type_error
  | some event ↦ ok event
]
assert_dispatch_event _ = err type_error

abbrev pub binding_fields : List Text
binding_fields =
    text "profileId"
    ∷ text "profileRevision"
    ∷ text "deviceId"
    ∷ text "deviceGeneration"
    ∷ text "sessionId"
    ∷ text "contextId"
    ∷ text "playbackGeneration"
    ∷ text "contextRevision"
    ∷ []

-- The body of normalizeBinding, on the eight fields of an object that has passed strictObject.
unfoldable pub normalize_binding : Fields → Result Binding
normalize_binding value = do
  profile_id ← assert_identifier (property value (text "profileId"))
  profile_revision ←
      assert_positive_integer (property value (text "profileRevision")) max_safe_integer
  device_id ← assert_identifier (property value (text "deviceId"))
  device_generation ←
      assert_positive_integer (property value (text "deviceGeneration")) max_safe_integer
  session_id ← assert_identifier (property value (text "sessionId"))
  context_id ← assert_identifier (property value (text "contextId"))
  playback_generation ← assert_playback_generation (property value (text "playbackGeneration"))
  context_revision ← assert_mutation_fence (property value (text "contextRevision"))
  ok (record {
    profile_id = profile_id;
    profile_revision = profile_revision;
    device_id = device_id;
    device_generation = device_generation;
    session_id = session_id;
    context_id = context_id;
    playback_generation = playback_generation;
    context_revision = context_revision;
  })

pub record OpenInput : Type 0 where
  pub binding : Binding
  pub state : PlaybackState

unfoldable pub normalize_open_input : Value → Result OpenInput
normalize_open_input value = do
  fields ← strict_object value (binding_fields ++ (text "state" ∷ []))
  binding ← normalize_binding fields
  state ← assert_playback_state (property fields (text "state")) true
  ok (record { binding = binding; state = state })

pub record TransitionInput : Type 0 where
  pub binding : Binding
  pub expected_revision : ℕ
  pub state : PlaybackState

transition_of_fields : Fields → Result TransitionInput
transition_of_fields fields = do
  binding ← normalize_binding fields
  expected_revision ←
      assert_positive_integer (property fields (text "expectedRevision")) max_safe_integer
  state ← assert_playback_state (property fields (text "state")) false
  ok (record { binding = binding; expected_revision = expected_revision; state = state })

unfoldable pub normalize_transition_input : Value → Result TransitionInput
unfolding transition_of_fields
normalize_transition_input value = do
  fields ← strict_object value (binding_fields ++ (text "expectedRevision" ∷ text "state" ∷ []))
  transition_of_fields fields

-- typeof progress === "number" && Number.isFinite(progress) && 0 <= progress <= 100
unfoldable pub assert_progress : Value → Result Number
assert_progress (number (natural n)) = if leb n 100 then ok (natural n) else err type_error
assert_progress (number (fraction w f)) = if ltb w 100 then ok (fraction w f) else err type_error
assert_progress _ = err type_error

assert_object : Value → Result Value
assert_object (object fs) = ok (object fs)
assert_object _ = err type_error

abbrev max_dispatch_payload_bytes : ℕ
max_dispatch_payload_bytes = 64 * 1024

-- `json_bytes` is the length of JSON.stringify, `date_parse` is Date.parse.
module _ (json_bytes : Value → ℕ) where
  unfoldable pub normalize_dispatch_input : Value → PlaybackState → Result DispatchInput
  unfolding assert_object
  normalize_dispatch_input value state = do
    fields ← strict_object value (text "id" ∷ text "event" ∷ text "progress" ∷ text "payload" ∷ [])
    progress ← assert_progress (property fields (text "progress"))
    json ←
        assert_json_value json_bytes (property fields (text "payload")) max_dispatch_payload_bytes
    payload ← assert_object json
    event ← assert_dispatch_event (property fields (text "event"))
    id ← assert_identifier (property fields (text "id"))
    required_state ← required_state_for_event event state
    ok (record {
      id = id;
      event = event;
      progress = progress;
      payload = payload;
      required_state = required_state;
    })

  unfoldable pub normalize_transition_and_dispatch_input :
      Value → Result (TransitionInput × DispatchInput)
  unfolding transition_of_fields
  normalize_transition_and_dispatch_input value = do
    fields ←
        strict_object value
          (binding_fields ++ (text "expectedRevision" ∷ text "state" ∷ text "dispatch" ∷ []))
    transition ← transition_of_fields fields
    dispatch ← normalize_dispatch_input (property fields (text "dispatch")) transition.state
    ok (transition, dispatch)

abbrev max_dispatch_lease_ms : ℕ
max_dispatch_lease_ms = 10 * 60 * 1000

pub record ClaimInput : Type 0 where
  pub worker_id : Text
  pub lease_ms : ℕ

unfoldable pub normalize_claim_input : Value → Result ClaimInput
normalize_claim_input value = do
  fields ← strict_object value (text "workerId" ∷ text "leaseMs" ∷ [])
  worker_id ← assert_identifier (property fields (text "workerId"))
  lease_ms ← assert_positive_integer (property fields (text "leaseMs")) max_dispatch_lease_ms
  ok (record { worker_id = worker_id; lease_ms = lease_ms })

pub record AdmissionInput : Type 0 where
  pub profile_id : Text
  pub dispatch_id : Text
  pub lease_token : Text

assert_lease_token : Value → Result Text
assert_lease_token (string s) =
    if ltb (length s) 16 || ltb 1024 (length s) then err type_error else ok s
assert_lease_token _ = err type_error

admission_of_fields : Fields → Result AdmissionInput
unfolding assert_lease_token
admission_of_fields fields = do
  lease_token ← assert_lease_token (property fields (text "leaseToken"))
  profile_id ← assert_identifier (property fields (text "profileId"))
  dispatch_id ← assert_identifier (property fields (text "dispatchId"))
  ok (record { profile_id = profile_id; dispatch_id = dispatch_id; lease_token = lease_token })

abbrev admission_fields : List Text
admission_fields = text "profileId" ∷ text "dispatchId" ∷ text "leaseToken" ∷ []

unfoldable pub normalize_admission_input : Value → Result AdmissionInput
unfolding admission_of_fields
normalize_admission_input value = do
  fields ← strict_object value admission_fields
  admission_of_fields fields

pub record RetryInput : Type 0 where
  pub admission : AdmissionInput
  pub next_attempt_at : ℕ

unfoldable pub normalize_retry_input : (Text → Number) → Value → Result RetryInput
unfolding admission_of_fields
normalize_retry_input date_parse value = do
  fields ← strict_object value (admission_fields ++ (text "nextAttemptAt" ∷ []))
  admission ← admission_of_fields fields
  next_attempt_at ← parse_timestamp date_parse (property fields (text "nextAttemptAt"))
  ok (record { admission = admission; next_attempt_at = next_attempt_at })

pub record SessionInvalidation : Type 0 where
  pub binding : Binding
  pub expected_revision : ℕ

unfoldable pub normalize_session_invalidation : Value → Result SessionInvalidation
normalize_session_invalidation value = do
  fields ← strict_object value (binding_fields ++ (text "expectedRevision" ∷ []))
  binding ← normalize_binding fields
  expected_revision ←
      assert_positive_integer (property fields (text "expectedRevision")) max_safe_integer
  ok (record { binding = binding; expected_revision = expected_revision })

pub record SourceInvalidation : Type 0 where
  pub profile_id : Text
  pub context_id : Text
  pub playback_generation : Text
  pub context_revision : Text

unfoldable pub normalize_source_invalidation : Value → Result SourceInvalidation
normalize_source_invalidation value = do
  fields ← strict_object value (
      text "profileId" ∷ text "contextId" ∷ text "playbackGeneration" ∷ text "contextRevision" ∷ [])
  profile_id ← assert_identifier (property fields (text "profileId"))
  context_id ← assert_identifier (property fields (text "contextId"))
  playback_generation ← assert_playback_generation (property fields (text "playbackGeneration"))
  context_revision ← assert_mutation_fence (property fields (text "contextRevision"))
  ok (record {
    profile_id = profile_id;
    context_id = context_id;
    playback_generation = playback_generation;
    context_revision = context_revision;
  })
