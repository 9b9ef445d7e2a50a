-- ===== src/TtlRepositories/Pairings/Store.antt =====
-- The fields of MemoryPairingRepository, _expire, _remove, _removeRetry, _prune and issue. A record
-- is an object that several maps share and compare by identity: the maps hold its address.
use jumpgate_bridge.Prelude.{
  ℕ, zero, suc, ◌+◌, ◌==◌, list_eq, nat_eq, option_eq, Bool, true, false, ◌&&◌, ◌||◌, not, Option,
  none, some, List, [], ◌∷◌, leb, ltb, if◌then◌else◌, length, every,
}
use jumpgate_bridge.Prelude.Text.{Text, text}
use jumpgate_bridge.Prelude.Map.{Map, get, has, set, delete, retain, values}
use jumpgate_bridge.Prelude.Outcome.{
  Result, ok, err, Action, pure, lift, read, check, write, require, ◌>>=◌, ◌>>◌, pairing_capacity,
  pairing_id_collision, pairing_code_collision,
}
use jumpgate_bridge.Value.{Value, undefined, string, object, Number, empty, property}
use jumpgate_bridge.RepositoryUtils.{
  StringOptions, assert_identifier, assert_positive_integer, assert_bounded_string, read_clock,
  add_duration,
}
use jumpgate_bridge.TokenService
use jumpgate_bridge.TokenService.{Token, hash_opaque}
use jumpgate_bridge.PlaybackSession.Inputs.{strict_object}
use jumpgate_bridge.TtlRepositories.Pairings.Codes.{issue_user_code, format_pair_code}

pub data PairingState : Type 0 where
  pending activating activated : PairingState

-- `validation_scenario` is empty where the source has no such property.
pub record Pairing : Type 0 where
  pub pairing_id : Text
  pub device_id : Text
  pub device_name : Text
  pub user_code_hash : Text
  pub device_code_hash : Text
  pub state : PairingState
  pub activation_envelope : Option Value
  pub activation_digest : Option Text
  pub activation_retry_hash : Option Text
  pub activation_retry_expires_at : Option ℕ
  pub activation_state : Option PairingState
  pub created_at : ℕ
  pub activation_started_at : Option ℕ
  pub activated_at : Option ℕ
  pub expires_at : ℕ
  pub validation_scenario : Text
  pub validation_rate_limit_claimed : Bool

-- `was_redeemed` has the pairing id, the device id and the activation's envelope.
pub data TombstoneStatus : Type 0 where
  was_redeemed : Text → Text → Value → TombstoneStatus
  was_cancelled was_expired : TombstoneStatus

pub record Tombstone : Type 0 where
  pub status : TombstoneStatus
  pub expires_at : ℕ

pub record Pairings : Type 0 where
  pub ttl_ms : ℕ
  pub activation_retry_ttl_ms : ℕ
  pub tombstone_ttl_ms : ℕ
  pub max_pairings : ℕ
  pub heap : Map ℕ Pairing
  pub next_address : ℕ
  pub records : Map Text ℕ
  pub user_index : Map Text Text
  pub device_index : Map Text Text
  pub retry_index : Map Text ℕ
  pub activation_records : Map Text ℕ
  pub device_tombstones : Map Text Tombstone

-- An object by its address, and `map.get(key)` for a map of objects.
unfoldable pub at_address : Pairings → Option ℕ → Option (ℕ × Pairing)
at_address s none = none
at_address s (some a) = elim (get s.heap a) [ none ↦ none | some r ↦ some (a, r) ]

-- record.field = value
unfoldable pub update : ℕ → (Pairing → Pairing) → Pairings → Pairings
update a f s = elim (get s.heap a) [ none ↦ s | some r ↦ record s { heap = set s.heap a (f r) } ]

-- _removeRetry
unfoldable pub remove_retry : ℕ → Pairing → Pairings → Pairings
remove_retry a r s = record s {
  retry_index = elim r.activation_retry_hash [
    | none ↦ s.retry_index
    | some h ↦ if get s.retry_index h == some a then delete s.retry_index h else s.retry_index
  ];
  activation_records =
      if get s.activation_records r.pairing_id == some a
      then delete s.activation_records r.pairing_id
      else s.activation_records;
}

-- _remove, without dropRetry.
unfoldable pub remove : Pairing → Pairings → Pairings
remove r s = record s {
  records = delete s.records r.pairing_id;
  user_index = delete s.user_index r.user_code_hash;
  device_index = delete s.device_index r.device_code_hash;
}

-- A tombstone for the rest of its term.
unfoldable pub bury : Text → TombstoneStatus → ℕ → Action Pairings (Unit {0})
bury device_code_hash status now = do
  expires_at ← check (λ s. add_duration now s.tombstone_ttl_ms)
  write (λ s. record s {
    device_tombstones =
        set s.device_tombstones device_code_hash
          (record { status = status; expires_at = expires_at });
  })

-- _expire
unfoldable pub expire : Pairing → ℕ → Action Pairings (Unit {0})
unfolding remove bury
expire r now = do write (remove r); bury r.device_code_hash was_expired now

-- The first loop of _prune, on the addresses of the records that stood when it began.
unfoldable pub expire_found : ℕ → Option (ℕ × Pairing) → Action Pairings (Unit {0})
unfolding expire
expire_found now none = pure tt
expire_found now (some (_, r)) = if leb r.expires_at now then expire r now else pure tt

unfoldable pub expire_all : ℕ → List ℕ → Action Pairings (Unit {0})
unfolding expire_found at_address
expire_all now [] = pure tt
expire_all now (a ∷ addresses) = do
  found ← read (λ s. at_address s (some a))
  expire_found now found
  expire_all now addresses

-- record.activationRetryExpiresAt <= now, where null counts as 0.
unfoldable pub retry_over : Pairing → ℕ → Bool
retry_over r now = elim r.activation_retry_expires_at [ none ↦ true | some t ↦ leb t now ]

-- The last loop of _prune. The set drops repeated records, for which a second turn does nothing.
unfoldable pub drop_retry : ℕ → ℕ → Option (ℕ × Pairing) → Pairings → Pairings
unfolding retry_over remove_retry
drop_retry now a none s = s
drop_retry now a (some (_, r)) s = if retry_over r now then remove_retry a r s else s

unfoldable pub drop_retries : ℕ → List ℕ → Pairings → Pairings
unfolding at_address drop_retry
drop_retries now [] s = s
drop_retries now (a ∷ addresses) s =
    drop_retries now addresses (drop_retry now a (at_address s (some a)) s)

-- The last two loops.
unfoldable pub sweep : ℕ → Pairings → Pairings
unfolding drop_retries
sweep now s = drop_retries now (values s.retry_index) (record s {
  device_tombstones = retain (λ k t. not (leb t.expires_at now)) s.device_tombstones;
})

-- _prune
unfoldable pub prune : ℕ → Action Pairings (Unit {0})
unfolding expire_all sweep
prune now = do addresses ← read (λ s. values s.records); expire_all now addresses; write (sweep now)

pub record IssuedPairing : Type 0 where
  pub pairing_id : Text
  pub device_id : Text
  pub user_code : Text
  pub device_code : Text
  pub expires_at : ℕ

-- [a-z] and [a-z-]
is_lower : ℕ → Bool
is_lower c = leb b'a' c && leb c b'z'

-- /^[a-z][a-z-]+$/
unfoldable pub is_scenario : Text → Bool
unfolding is_lower every
is_scenario [] = false
is_scenario (c ∷ s) = is_lower c && leb 1 (length s) && every (λ d. is_lower d || d == b'-') s

abbrev scenario_options : StringOptions
scenario_options = record { minimum_length = 1; trimmed = true; pattern_test = is_scenario }

abbrev device_name_options : StringOptions
device_name_options = record { minimum_length = 0; trimmed = true; pattern_test = λ _. true }

optional_text : Value → ℕ → StringOptions → Result Text
optional_text undefined maximum o = ok []
optional_text v maximum o = assert_bounded_string v maximum o

pairing_ttl : Value → ℕ → Result ℕ
pairing_ttl undefined ttl_ms = ok ttl_ms
pairing_ttl v ttl_ms = assert_positive_integer v ttl_ms

-- details.deviceId, or a fresh id.
or_fresh : Value → Value → Value
or_fresh undefined fresh = fresh
or_fresh v fresh = v

-- A parameter with the default {}.
unfoldable pub or_empty : Value → Value
or_empty undefined = object empty
or_empty v = v

module _ (hmac : Text → Text) where
  -- _issueDeviceCode, with the attempts that are left and the texts that they draw.
  unfoldable pub issue_device_code : ℕ → (ℕ → Text) → Pairings → Result Token
  issue_device_code zero randoms s = err pairing_code_collision
  issue_device_code (suc attempts) randoms s =
      elim (TokenService.issue hmac (text "pair-device") (randoms attempts)) [
        | err e ↦ err e
        | ok issued ↦
            elim (has s.device_index issued.token_hash
              || has s.device_tombstones issued.token_hash) [
                | true ↦ issue_device_code attempts randoms s
                | false ↦ ok issued
              ]
      ]

  -- The record is stored under its id and indexed by the hashes of its two codes.
  unfoldable pub store : Pairing → Pairings → Pairings
  store r s = record s {
    heap = set s.heap s.next_address r;
    next_address = s.next_address + 1;
    records = set s.records r.pairing_id s.next_address;
    user_index = set s.user_index r.user_code_hash r.pairing_id;
    device_index = set s.device_index r.device_code_hash r.pairing_id;
  }

  -- `fresh_pairing` and `fresh_device` are what the id factory answers.
  unfoldable pub issue :
      (ℕ → List ℕ) → (ℕ → Text) → Value → Value → Number → Value → Action Pairings IssuedPairing
  unfolding prune issue_device_code store optional_text pairing_ttl or_fresh or_empty
  issue random_bytes randoms fresh_pairing fresh_device reading input = do
    details ← lift (
        strict_object (or_empty input)
          (text "deviceId" ∷ text "deviceName" ∷ text "ttlMs" ∷ text "validationScenario" ∷ []))
    now ← lift (read_clock reading)
    prune now
    room ← read (λ s. ltb (length s.records) s.max_pairings)
    require room pairing_capacity
    pairing_id ← lift (assert_identifier fresh_pairing)
    taken ← read (λ s. has s.records pairing_id)
    require (not taken) pairing_id_collision
    device_id ←
        lift (assert_identifier (or_fresh (property details (text "deviceId")) fresh_device))
    user_code ← check (λ s. issue_user_code hmac 8 random_bytes s.user_index)
    device_code ← check (issue_device_code 8 randoms)
    ttl_ms ← check (λ s. pairing_ttl (property details (text "ttlMs")) s.ttl_ms)
    scenario ←
        lift (optional_text (property details (text "validationScenario")) 32 scenario_options)
    expires_at ← lift (add_duration now ttl_ms)
    device_name ←
        lift (optional_text (property details (text "deviceName")) 128 device_name_options)
    user_code_hash ← lift (hash_opaque hmac (text "pair-user") (string user_code) 8)
    write (
        store (record {
          pairing_id = pairing_id;
          device_id = device_id;
          device_name = device_name;
          user_code_hash = user_code_hash;
          device_code_hash = device_code.token_hash;
          state = pending;
          activation_envelope = none;
          activation_digest = none;
          activation_retry_hash = none;
          activation_retry_expires_at = none;
          activation_state = none;
          created_at = now;
          activation_started_at = none;
          activated_at = none;
          expires_at = expires_at;
          validation_scenario = scenario;
          validation_rate_limit_claimed = false;
        }))
    pure (record {
      pairing_id = pairing_id;
      device_id = device_id;
      user_code = format_pair_code user_code;
      device_code = device_code.token;
      expires_at = expires_at;
    })
