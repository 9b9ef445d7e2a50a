-- ===== src/TtlRepositories/Pairings/Redemption.antt =====
-- completeActivation, redeem, cancel and claimValidation of MemoryPairingRepository.
use jumpgate_bridge.Prelude.{
  ℕ, ◌==◌, list_eq, nat_eq, option_eq, Bool, true, false, ◌&&◌, ◌||◌, not, Option, none, some, [],
  ◌∷◌, leb, if◌then◌else◌,
}
use jumpgate_bridge.Prelude.Text.{Text, text}
use jumpgate_bridge.Prelude.Map.{get, has}
use jumpgate_bridge.Prelude.Outcome.{
  Result, ok, err, Action, pure, throw, lift, read, write, require, ◌>>=◌, ◌>>◌, pairing_conflict,
  pairing_state,
}
use jumpgate_bridge.Value.{Value, undefined, string, Number, Fields, property}
use jumpgate_bridge.RepositoryUtils.{
  StringOptions, assert_identifier, assert_bounded_string, read_clock,
}
use jumpgate_bridge.TokenService.{is_hash, hash_token}
use jumpgate_bridge.PlaybackSession.Inputs.{strict_object}
use jumpgate_bridge.TtlRepositories.Pairings.Store.{
  PairingState, pending, activating, activated, Pairing, was_redeemed, was_cancelled, was_expired,
  Tombstone, Pairings, at_address, update, remove_retry, remove, bury, prune, or_empty,
}
use jumpgate_bridge.TtlRepositories.Pairings.Activation.{
  with_property, truthy, is_text, record_of, current_state, purpose,
}

pub data Completed : Type 0 where
  not_found expired : Completed
  completed : Text → Fields → ℕ → Option ℕ → Completed

-- _records.get(id) || _activationRecords.get(id)
unfoldable pub activation_record_of : Text → Pairings → Option (ℕ × Pairing)
unfolding at_address record_of
activation_record_of id s = elim (record_of id s) [
  | some r ↦ some r
  | none ↦ at_address s (get s.activation_records id)
]

-- activationRetryExpiresAt || expiresAt
unfoldable pub activation_deadline : Pairing → ℕ
activation_deadline r = elim r.activation_retry_expires_at [
  | none ↦ r.expires_at
  | some t ↦ if t == 0 then r.expires_at else t
]

abbrev pub digest_options : StringOptions
unfolding is_hash
digest_options = record { minimum_length = 1; trimmed = true; pattern_test = is_hash }

optional_identifier : Value → Result (Option Text)
optional_identifier undefined = ok none
optional_identifier v = elim (assert_identifier v) [ err e ↦ err e | ok id ↦ ok (some id) ]

-- The profile id that is given against the one that is stored.
unfoldable pub profile_conflict : Option Text → Fields → Bool
unfolding truthy is_text
profile_conflict none activation = false
profile_conflict (some id) activation =
    truthy (property activation (text "profileId"))
    && not (is_text (property activation (text "profileId")) id)

-- The activation with the profile id that is given, if it has none.
unfoldable pub with_profile : Option Text → Fields → Option Fields
unfolding truthy with_property
with_profile none activation = none
with_profile (some id) activation =
    if truthy (property activation (text "profileId"))
    then none
    else some (with_property activation (text "profileId") (string id))

-- record.activationState = "activated"; record.state too, while the record stands under its id.
unfoldable pub finish : Bool → ℕ → Pairing → Pairing
finish stands now p = record p {
  activation_state = some activated;
  state = if stands then activated else p.state;
  activated_at = some now;
}

-- `activationState` of a pending answer.
pub data Awaiting : Type 0 where
  in_state : PairingState → Awaiting
  awaiting_profile_finalization : Awaiting

pub data Redeemed : Type 0 where
  unknown was_cancelled_before was_expired_before : Redeemed
  redeemed : Text → Text → Fields → Redeemed
  still_pending : Awaiting → Text → ℕ → Redeemed

pub record Validation : Type 0 where
  pub scenario : Text
  pub rate_limit_now : Bool
  pub expires_at : ℕ

-- The record that a device code names.
unfoldable pub device_record : Text → Pairings → Option (ℕ × Pairing)
unfolding record_of
device_record device_code_hash s = elim (get s.device_index device_code_hash) [
  | none ↦ none
  | some id ↦ record_of id s
]

module _ (hmac : Text → Text) (stable_scope : Text → Text) (encrypt_json : Fields → Text → Value)
    (decrypt_json : Value → Text → Result Fields) where
  unfoldable pub save_profile : ℕ → Pairing → Option Text → Fields → Action Pairings Fields
  unfolding with_profile update purpose
  save_profile a r profile_id activation = elim (with_profile profile_id activation) [
    | none ↦ pure activation
    | some finalized ↦ do
      write (
          update a (λ p. record p {
            activation_envelope = some (encrypt_json finalized (purpose stable_scope r.pairing_id));
          }))
      pure finalized
  ]

  unfoldable pub complete_state :
      Text → PairingState → ℕ → Pairing → Option Text → Fields → ℕ → Action Pairings Completed
  unfolding save_profile finish update
  complete_state id pending a r profile_id activation now = throw pairing_state
  complete_state id activated a r profile_id activation now = do
    saved ← save_profile a r profile_id activation
    pure (completed id saved r.expires_at r.activation_retry_expires_at)
  complete_state id activating a r profile_id activation now = do
    saved ← save_profile a r profile_id activation
    stands ← read (λ s. has s.records id)
    write (update a (finish stands now))
    pure (completed id saved r.expires_at r.activation_retry_expires_at)

  -- The envelope of a record that has the digest.
  unfoldable pub matching_envelope : Pairing → Text → Result Value
  matching_envelope r digest = elim r.activation_envelope [
    | none ↦ err pairing_conflict
    | some envelope ↦
        if r.activation_digest == some digest then ok envelope else err pairing_conflict
  ]

  unfoldable pub complete_found :
      Text → Text → Option Text → ℕ → ℕ → Pairing → Action Pairings Completed
  unfolding activation_deadline matching_envelope profile_conflict complete_state current_state
      remove_retry purpose
  complete_found id digest profile_id now a r =
      if leb (activation_deadline r) now then (do write (remove_retry a r); pure expired) else (do
        envelope ← lift (matching_envelope r digest)
        activation ← lift (decrypt_json envelope (purpose stable_scope r.pairing_id))
        require (not (profile_conflict profile_id activation)) pairing_conflict
        complete_state id (current_state r) a r profile_id activation now)

  unfoldable pub complete_activation : Number → Value → Value → Value → Action Pairings Completed
  unfolding complete_found activation_record_of optional_identifier or_empty
  complete_activation reading pairing_id activation_digest finalization = do
    id ← lift (assert_identifier pairing_id)
    digest ← lift (assert_bounded_string activation_digest 64 digest_options)
    final_fields ← lift (strict_object (or_empty finalization) (text "profileId" ∷ []))
    profile_id ← lift (optional_identifier (property final_fields (text "profileId")))
    now ← lift (read_clock reading)
    found ← read (activation_record_of id)
    elim found [ none ↦ pure not_found | some (a, r) ↦ complete_found id digest profile_id now a r ]

  -- What is left of a device code: the answer of an earlier redemption, again.
  unfoldable pub redeem_tombstone : Option Tombstone → Result Redeemed
  unfolding purpose
  redeem_tombstone none = ok unknown
  redeem_tombstone (some t) = elim t.status [
    | was_cancelled ↦ ok was_cancelled_before
    | was_expired ↦ ok was_expired_before
    | was_redeemed pairing_id device_id envelope ↦
        elim (decrypt_json envelope (purpose stable_scope pairing_id)) [
          | err e ↦ err e
          | ok activation ↦ ok (redeemed pairing_id device_id activation)
        ]
  ]

  -- The record is activated and its envelope has been opened.
  unfoldable pub redeem_activation : Text → ℕ → Pairing → Value → Fields → Action Pairings Redeemed
  unfolding truthy remove bury
  redeem_activation device_code_hash now r envelope activation =
      if not (truthy (property activation (text "profileId")))
      then pure (still_pending awaiting_profile_finalization r.pairing_id r.expires_at)
      else (do
        write (remove r)
        bury device_code_hash (was_redeemed r.pairing_id r.device_id envelope) now
        pure (redeemed r.pairing_id r.device_id activation))

  unfoldable pub redeem_record :
      Text → ℕ → Pairing → PairingState → Option Value → Action Pairings Redeemed
  unfolding redeem_activation purpose
  redeem_record device_code_hash now r activated (some envelope) = do
    activation ← lift (decrypt_json envelope (purpose stable_scope r.pairing_id))
    redeem_activation device_code_hash now r envelope activation
  redeem_record device_code_hash now r state envelope =
      pure (still_pending (in_state state) r.pairing_id r.expires_at)

  unfoldable pub redeem_hashed : Text → ℕ → Action Pairings Redeemed
  unfolding device_record redeem_tombstone redeem_record
  redeem_hashed device_code_hash now = do
    found ← read (device_record device_code_hash)
    elim found [
      | some (_, r) ↦ redeem_record device_code_hash now r r.state r.activation_envelope
      | none ↦ do
        tombstone ← read (λ s. get s.device_tombstones device_code_hash)
        lift (redeem_tombstone tombstone)
    ]

  unfoldable pub redeem : Number → Value → Action Pairings Redeemed
  unfolding redeem_hashed prune
  redeem reading device_code = do
    now ← lift (read_clock reading)
    prune now
    elim (hash_token hmac (text "pair-device") device_code) [
      | err e ↦ pure unknown
      | ok device_code_hash ↦ redeem_hashed device_code_hash now
    ]

  unfoldable pub cancel_hashed : Text → ℕ → Action Pairings Bool
  unfolding device_record remove remove_retry bury
  cancel_hashed device_code_hash now = do
    found ← read (device_record device_code_hash)
    elim found [
      | none ↦ pure false
      | some (a, r) ↦ do
        write (λ s. remove_retry a r (remove r s))
        bury device_code_hash was_cancelled now
        pure true
    ]

  unfoldable pub cancel : Number → Value → Action Pairings Bool
  unfolding cancel_hashed prune
  cancel reading device_code = do
    now ← lift (read_clock reading)
    prune now
    elim (hash_token hmac (text "pair-device") device_code) [
      | err e ↦ pure false
      | ok device_code_hash ↦ cancel_hashed device_code_hash now
    ]

  -- Is this the one time that the scenario answers with a rate limit?
  unfoldable pub limits_rate : Pairing → Bool
  limits_rate r = r.validation_scenario == text "rate-limit" && not r.validation_rate_limit_claimed

  unfoldable pub claim_hashed : Text → Action Pairings (Option Validation)
  unfolding device_record limits_rate update
  claim_hashed device_code_hash = do
    found ← read (device_record device_code_hash)
    elim found [
      | none ↦ pure none
      | some (a, r) ↦ if r.validation_scenario == [] then pure none else (do
        write (
            update a (λ p. record p {
              validation_rate_limit_claimed = limits_rate r || p.validation_rate_limit_claimed;
            }))
        pure (
            some (record {
              scenario = r.validation_scenario;
              rate_limit_now = limits_rate r;
              expires_at = r.expires_at;
            })))
    ]

  unfoldable pub claim_validation : Number → Value → Action Pairings (Option Validation)
  unfolding claim_hashed prune
  claim_validation reading device_code = do
    now ← lift (read_clock reading)
    prune now
    elim (hash_token hmac (text "pair-device") device_code) [
      | err e ↦ pure none
      | ok device_code_hash ↦ claim_hashed device_code_hash
    ]
