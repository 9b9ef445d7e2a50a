-- ===== src/TtlRepositories/Pairings/Activation.antt =====
-- assertActivationRetryToken and canonicalJsonClone of lib/storage/pairing-replay.js, and activate,
-- recoverActivation and _activationResult of MemoryPairingRepository.
use jumpgate_bridge.Prelude.{
  ℕ, ◌+◌, ◌-◌, ◌*◌, ◌%◌, ◌==◌, list_eq, nat_eq, option_eq, Bool, true, false, ◌&&◌, not, Option,
  none, some, [], ◌∷◌, ◌++◌, leb, ltb, if◌then◌else◌, length, every,
}
use jumpgate_bridge.Prelude.Text.{Text, text}
use jumpgate_bridge.Prelude.Map.{get, set, delete}
use jumpgate_bridge.Prelude.Outcome.{
  Result, ok, err, Action, pure, lift, read, check, write, ◌>>=◌, ◌>>◌, type_error, range_error,
  pairing_conflict,
}
use jumpgate_bridge.Value.{
  Value, undefined, null, boolean, number, string, Number, natural, not_a_number, Fields, empty,
  field, property,
}
use jumpgate_bridge.RepositoryUtils.{is_word, assert_plain_object, read_clock, add_duration}
use jumpgate_bridge.TokenService
use jumpgate_bridge.TokenService.{is_hash, hash_token, hash_opaque}
use jumpgate_bridge.PlaybackSession.Inputs.{strict_object}
use jumpgate_bridge.TtlRepositories.Pairings.Codes.{normalize_pair_code}
use jumpgate_bridge.TtlRepositories.Pairings.Store.{
  PairingState, pending, activating, Pairing, Pairings, at_address, update, remove_retry, expire,
  prune, or_empty,
}

-- The value of a base64url digit.
unfoldable pub sextet : ℕ → ℕ
sextet c =
    if leb b'A' c && leb c b'Z'
    then c - b'A'
    else if leb b'a' c && leb c b'z'
    then 26 + (c - b'a')
    else if leb b'0' c && leb c b'9'
    then 52 + (c - b'0')
    else if c == b'-'
    then 62
    else 63

last_unit : Text → ℕ
last_unit [] = 0
last_unit (c ∷ []) = c
last_unit (c ∷ d ∷ s) = last_unit (d ∷ s)

-- 43 digits are 32 bytes and two spare bits; encoding the bytes again gives the text back just when
-- the spare bits are zero.
unfoldable pub assert_activation_retry_token : Value → Result Text
unfolding is_word every sextet last_unit
assert_activation_retry_token (string s) =
    if length s == 43 && every is_word s && sextet (last_unit s) % 4 == 0
    then ok s
    else err type_error
assert_activation_retry_token _ = err type_error

-- delete object[key]
unfoldable pub without : Fields → Text → Fields
without empty k = empty
without (field j v fs) k = let rest = without fs k in if j == k then rest else field j v rest

-- object[key] = value
unfoldable pub with_property : Fields → Text → Value → Fields
with_property empty k v = field k v empty
with_property (field j w fs) k v =
    let rest = with_property fs k v in if j == k then field j v fs else field j w rest

unfoldable pub truthy : Value → Bool
truthy undefined = false
truthy null = false
truthy (boolean b) = b
truthy (number (natural n)) = not (n == 0)
truthy (number not_a_number) = false
truthy (string s) = not (s == [])
truthy _ = true

-- value === text
unfoldable pub is_text : Value → Text → Bool
is_text (string s) t = s == t
is_text _ t = false

-- What `status: "activating"` and `status: "activated"` come with.
pub record ActivationView : Type 0 where
  pub status : PairingState
  pub pairing_id : Text
  pub device_id : Text
  pub activation_digest : Text
  pub activation : Fields
  pub expires_at : ℕ
  pub activation_retry_expires_at : Option ℕ

pub data Activated : Type 0 where
  not_found expired : Activated
  view : ActivationView → Activated

-- The address of the record under an id, and the record: _records.get, or _activationRecords.get.
unfoldable pub record_of : Text → Pairings → Option (ℕ × Pairing)
unfolding at_address
record_of id s = at_address s (get s.records id)

-- activationState || state
unfoldable pub current_state : Pairing → PairingState
current_state r = elim r.activation_state [ none ↦ r.state | some state ↦ state ]

abbrev pub is_pending : PairingState → Bool
is_pending pending = true
is_pending _ = false

abbrev pub max_activation_bytes : ℕ
max_activation_bytes = 64 * 1024

-- _purpose; `stable_scope` is stableScope("pairing", id).
unfoldable pub purpose : (Text → Text) → Text → Text
purpose stable_scope pairing_id = text "pair-activation:" ++ stable_scope pairing_id

-- The record that a user code names.
unfoldable pub user_record : Text → Pairings → Option (ℕ × Pairing)
unfolding record_of
user_record user_code_hash s = elim (get s.user_index user_code_hash) [
  | none ↦ none
  | some id ↦ record_of id s
]

-- HMAC; stableScope("pairing", id); String.prototype.toUpperCase; the envelope's cipher, which may
-- refuse; the object that JSON.parse gives back for JSON.stringify with the check on numbers, or
-- the error; the text and the size of JSON.stringify; isDeepStrictEqual.
module _ (hmac : Text → Text) (stable_scope : Text → Text) (to_upper : Text → Text)
    (encrypt_json : Fields → Text → Value) (decrypt_json : Value → Text → Result Fields)
    (json_clone : Fields → Result Fields) (json_text : Fields → Text) (json_bytes : Fields → ℕ)
    (deep_equal : Fields → Fields → Bool) where
  -- assertJsonSize
  unfoldable pub assert_json_size : Fields → ℕ → Result Fields
  assert_json_size fs maximum = if ltb maximum (json_bytes fs) then err range_error else ok fs

  unfoldable pub canonical_json_clone : Value → Result Fields
  unfolding assert_json_size
  canonical_json_clone v = elim (assert_plain_object v) [
    | err e ↦ err e
    | ok fs ↦ elim (json_clone fs) [
      | err e ↦ err e
      | ok cloned ↦ assert_json_size cloned max_activation_bytes
    ]
  ]

  -- Without deviceToken and profileId.
  unfoldable pub stable_part : Fields → Fields
  unfolding without
  stable_part fs = without (without fs (text "deviceToken")) (text "profileId")

  -- _stableActivationPayload
  unfoldable pub stable_activation_payload : Value → Result Fields
  unfolding canonical_json_clone stable_part
  stable_activation_payload activation = elim (canonical_json_clone activation) [
    | err e ↦ err e
    | ok fs ↦ ok (stable_part fs)
  ]

  unfoldable pub shown_activation : Pairing → Text → Fields → Result Activated
  unfolding current_state
  shown_activation r digest current =
      if is_pending (current_state r)
      then ok not_found
      else ok (
          view (record {
            status = current_state r;
            pairing_id = r.pairing_id;
            device_id = r.device_id;
            activation_digest = digest;
            activation = current;
            expires_at = r.expires_at;
            activation_retry_expires_at = r.activation_retry_expires_at;
          }))

  unfoldable pub matching_activation :
      Pairing → Fields → Option Value → Option Text → Result Activated
  unfolding shown_activation stable_part purpose
  matching_activation r payload (some envelope) (some digest) =
      elim (decrypt_json envelope (purpose stable_scope r.pairing_id)) [
        | err e ↦ err e
        | ok current ↦
            if deep_equal (stable_part current) payload
            then shown_activation r digest current
            else err pairing_conflict
      ]
  matching_activation r payload _ _ = ok not_found

  -- _activationResult
  unfoldable pub activation_result : ℕ → Pairing → Text → Fields → ℕ → Action Pairings Activated
  unfolding matching_activation remove_retry
  activation_result a r retry_hash payload now s =
      if not (r.activation_retry_hash == some retry_hash)
      then (ok not_found, s)
      else elim r.activation_retry_expires_at [
        | none ↦ (ok not_found, s)
        | some t ↦
            if leb t now
            then (ok expired, remove_retry a r s)
            else (matching_activation r payload r.activation_envelope r.activation_digest, s)
      ]

  -- What is assigned to the record before its retry deadline is known.
  unfoldable pub assign_envelope : ℕ → Pairing → Text → Fields → Text → Pairings → Pairings
  unfolding purpose update
  assign_envelope a r retry_hash stored digest = update a (λ p. record p {
    activation_envelope = some (encrypt_json stored (purpose stable_scope r.pairing_id));
    activation_digest = some digest;
    activation_retry_hash = some retry_hash;
  })

  -- What is assigned after, and the indexes.
  unfoldable pub bind_retry : ℕ → Pairing → Text → ℕ → ℕ → Pairings → Pairings
  unfolding update
  bind_retry a r retry_hash now deadline s =
      let t =
        update a
          (λ p. record p {
            activation_retry_expires_at = some deadline;
            activation_state = some activating;
            state = activating;
            activation_started_at = some now;
          })
          s in
      record t {
        user_index = delete t.user_index r.user_code_hash;
        retry_index = set t.retry_index retry_hash a;
        activation_records = set t.activation_records r.pairing_id a;
      }

  unfoldable pub set_deadline : ℕ → Pairing → Text → Fields → Text → ℕ → Action Pairings Activated
  unfolding bind_retry
  set_deadline a r retry_hash stored digest now = do
    deadline ← check (λ s. add_duration now s.activation_retry_ttl_ms)
    write (bind_retry a r retry_hash now deadline)
    pure (
        view (record {
          status = activating;
          pairing_id = r.pairing_id;
          device_id = r.device_id;
          activation_digest = digest;
          activation = stored;
          expires_at = r.expires_at;
          activation_retry_expires_at = some deadline;
        }))

  -- The part of activate that binds a pending record to a retry token. What is assigned before the
  -- deadline turns out to be too late stays assigned.
  unfoldable pub begin_activation :
      Text → ℕ → Pairing → Text → Fields → ℕ → Action Pairings Activated
  unfolding assert_json_size assign_envelope set_deadline
  begin_activation random a r retry_hash payload now = do
    issued ← lift (TokenService.issue hmac (text "device") random)
    stored ← lift (
        assert_json_size (with_property payload (text "deviceToken") (string issued.token))
          max_activation_bytes)
    digest ← lift (
        hash_opaque hmac (text "pair-activation") (string (json_text payload)) max_activation_bytes)
    write (assign_envelope a r retry_hash stored digest)
    set_deadline a r retry_hash stored digest now

  unfoldable pub activate_found :
      Text → Text → Fields → ℕ → Option (ℕ × Pairing) → Action Pairings Activated
  unfolding expire begin_activation
  activate_found random retry_hash payload now none = pure not_found
  activate_found random retry_hash payload now (some (a, r)) =
      if leb r.expires_at now then (do expire r now; pure expired) else elim r.activation_envelope [
        | some _ ↦ pure not_found
        | none ↦ begin_activation random a r retry_hash payload now
      ]

  -- activate, from its checked arguments on.
  unfoldable pub activate_code : Text → Text → Text → Fields → ℕ → Action Pairings Activated
  unfolding activation_result activate_found prune user_record at_address
  activate_code random code retry_hash payload now = do
    prune now
    retried ← read (λ s. at_address s (get s.retry_index retry_hash))
    elim retried [
      | some (a, r) ↦ activation_result a r retry_hash payload now
      | none ↦ do
        user_code_hash ← lift (hash_opaque hmac (text "pair-user") (string code) 8)
        found ← read (user_record user_code_hash)
        activate_found random retry_hash payload now found
    ]

  unfoldable pub activate : Text → Number → Value → Value → Value → Action Pairings Activated
  unfolding activate_code stable_activation_payload normalize_pair_code or_empty
      assert_activation_retry_token
  activate random reading user_code activation options = do
    code ← lift (normalize_pair_code to_upper user_code)
    supplied ← lift (strict_object (or_empty options) (text "activationRetryToken" ∷ []))
    retry_token ←
        lift (assert_activation_retry_token (property supplied (text "activationRetryToken")))
    retry_hash ← lift (hash_token hmac (text "pair-activation-retry") (string retry_token))
    payload ← lift (stable_activation_payload activation)
    now ← lift (read_clock reading)
    activate_code random code retry_hash payload now

  unfoldable pub recover_activation : Number → Value → Value → Action Pairings Activated
  unfolding activation_result stable_activation_payload prune at_address
      assert_activation_retry_token
  recover_activation reading activation_retry_token activation = do
    retry_token ← lift (assert_activation_retry_token activation_retry_token)
    retry_hash ← lift (hash_token hmac (text "pair-activation-retry") (string retry_token))
    payload ← lift (stable_activation_payload activation)
    now ← lift (read_clock reading)
    prune now
    found ← read (λ s. at_address s (get s.retry_index retry_hash))
    elim found [
      | none ↦ pure not_found
      | some (a, r) ↦ activation_result a r retry_hash payload now
    ]
