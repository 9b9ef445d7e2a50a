-- ===== src/Profiles.antt =====
-- MemoryProfileRepository of lib/storage/memory-profile-provider-repositories.js: its records, its
-- fields and the checks on its input. The methods that change a profile run under the profile's
-- lock (Lifecycle.Coordinator), one at a time, so each is one step.
pub mod Records
pub mod Operations
pub mod Erasure
pub mod Lifetime
pub mod Growth
pub mod Steps
pub mod Endings
pub mod Reachable
pub mod Tokens
pub mod Tests
use jumpgate_bridge.Prelude.{
  ℕ, ◌*◌, ◌==◌, list_eq, nat_eq, Bool, true, false, ◌&&◌, ◌||◌, Option, none, some, List, [], ◌∷◌,
  if◌then◌else◌,
}
use jumpgate_bridge.Prelude.Text.{Text, text}
use jumpgate_bridge.Prelude.Map.{Map, get}
use jumpgate_bridge.Prelude.Outcome.{Result, ok, err, type_error}
use jumpgate_bridge.Value.{Value, undefined, null, string, object, Fields, empty, field, property}
use jumpgate_bridge.RepositoryUtils.{assert_display_name}
use jumpgate_bridge.JsonDomain.{assert_json_value}
use jumpgate_bridge.TokenService.{is_hash}
use jumpgate_bridge.Lifecycle.Invalidations.{Invalidations}
use jumpgate_bridge.PlaybackSessions.State.{Repository}

pub data Status : Type 0 where
  active revoked : Status

pub data Deletion : Type 0 where
  not_deleted pending deleted : Deletion

-- `null` is none. schemaVersion is the constant 1.
pub record Profile : Type 0 where
  pub id : Text
  pub install_token_hash : Text
  pub display_name : Text
  pub settings_envelope : Option Value
  pub legacy_config_hash : Option Text
  pub status : Status
  pub revision : ℕ
  pub created_at : ℕ
  pub updated_at : ℕ
  pub revoked_at : Option ℕ
  pub history_generation : ℕ
  pub deletion_state : Deletion
  pub deletion_started_at : Option ℕ
  pub durable_erased_at : Option ℕ
  pub erasure_attempt_count : ℕ
  pub erasure_next_attempt_at : Option ℕ

-- _public: a copy without the hash.
pub record PublicProfile : Type 0 where
  pub id : Text
  pub display_name : Text
  pub settings_envelope : Option Value
  pub legacy_config_hash : Option Text
  pub status : Status
  pub revision : ℕ
  pub created_at : ℕ
  pub updated_at : ℕ
  pub revoked_at : Option ℕ
  pub history_generation : ℕ
  pub deletion_state : Deletion
  pub deletion_started_at : Option ℕ
  pub durable_erased_at : Option ℕ
  pub erasure_attempt_count : ℕ
  pub erasure_next_attempt_at : Option ℕ

abbrev pub public_view : Profile → PublicProfile
public_view r = record {
  id = r.id;
  display_name = r.display_name;
  settings_envelope = r.settings_envelope;
  legacy_config_hash = r.legacy_config_hash;
  status = r.status;
  revision = r.revision;
  created_at = r.created_at;
  updated_at = r.updated_at;
  revoked_at = r.revoked_at;
  history_generation = r.history_generation;
  deletion_state = r.deletion_state;
  deletion_started_at = r.deletion_started_at;
  durable_erased_at = r.durable_erased_at;
  erasure_attempt_count = r.erasure_attempt_count;
  erasure_next_attempt_at = r.erasure_next_attempt_at;
}

-- The fields, with the repositories that the methods call. `M` is the state of the subtitle
-- manifests; those and the playback sessions are optional.
pub record Store (M : Type 0) : Type 0 where
  pub profiles : Map Text Profile
  pub install_index : Map Text Text
  pub invalidations : Invalidations
  pub playback : Option Repository
  pub manifests : Option M

unfoldable pub is_active : Status → Bool
is_active active = true
is_active revoked = false

-- assertOptionalHash
unfoldable pub assert_optional_hash : Value → Result (Option Text)
unfolding is_hash
assert_optional_hash undefined = ok none
assert_optional_hash null = ok none
assert_optional_hash (string s) = if is_hash s then ok (some s) else err type_error
assert_optional_hash _ = err type_error

is_known : List Text → Text → Bool
is_known [] k = false
is_known (j ∷ js) k = j == k || is_known js k

all_known : List Text → Fields → Bool
unfolding is_known
all_known allowed empty = true
all_known allowed (field k v fs) = is_known allowed k && all_known allowed fs

-- assertDataObject
unfoldable pub assert_data_object : Value → List Text → Result Fields
unfolding all_known
assert_data_object (object fs) allowed = if all_known allowed fs then ok fs else err type_error
assert_data_object _ allowed = err type_error

-- Object.prototype.hasOwnProperty.call(fields, key)
unfoldable pub has_property : Fields → Text → Bool
has_property empty k = false
has_property (field j v fs) k = j == k || has_property fs k

abbrev max_profile_settings_bytes : ℕ
max_profile_settings_bytes = 1024 * 1024

pub record ProfileInput : Type 0 where
  pub display_name : Text
  pub settings_envelope : Option Value
  pub legacy_config_hash : Option Text

-- What a patch sets; an absent field is none.
pub record Patch : Type 0 where
  pub display_name : Option Text
  pub settings_envelope : Option (Option Value)

-- `json_bytes` is the length of JSON.stringify in UTF-8, and `validate_envelope` whether the
-- cipher's own check (lib/storage/envelope-crypto.js) accepts the value.
module _ (json_bytes : Value → ℕ) (validate_envelope : Value → Bool) where
  -- assertOptionalEnvelope
  unfoldable pub assert_optional_envelope : Value → Result (Option Value)
  assert_optional_envelope null = ok none
  assert_optional_envelope v = elim (assert_json_value json_bytes v max_profile_settings_bytes) [
    | err e ↦ err e
    | ok canonical ↦ if validate_envelope canonical then ok (some canonical) else err type_error
  ]

  envelope_or_null : Fields → Result (Option Value)
  unfolding has_property assert_optional_envelope
  envelope_or_null fs =
      if has_property fs (text "settingsEnvelope")
      then assert_optional_envelope (property fs (text "settingsEnvelope"))
      else ok none

  -- The checks of `create` on its input.
  unfoldable pub read_profile_input : Value → Result ProfileInput
  unfolding assert_data_object envelope_or_null
  read_profile_input v =
      elim (assert_data_object v
        (text "displayName" ∷ text "settingsEnvelope" ∷ text "legacyConfigHash" ∷ [])) [
          | err e ↦ err e
          | ok fs ↦ elim (assert_display_name (property fs (text "displayName"))) [
            | err e ↦ err e
            | ok display_name ↦ elim (envelope_or_null fs) [
              | err e ↦ err e
              | ok envelope ↦ elim (assert_optional_hash (property fs (text "legacyConfigHash"))) [
                | err e ↦ err e
                | ok legacy ↦ ok (record {
                  display_name = display_name;
                  settings_envelope = envelope;
                  legacy_config_hash = legacy;
                })
              ]
            ]
          ]
        ]

  patched_name : Fields → Result (Option Text)
  patched_name fs =
      if has_property fs (text "displayName")
      then elim (assert_display_name (property fs (text "displayName"))) [
        | err e ↦ err e
        | ok n ↦ ok (some n)
      ]
      else ok none

  patched_envelope : Fields → Result (Option (Option Value))
  patched_envelope fs =
      if has_property fs (text "settingsEnvelope")
      then elim (assert_optional_envelope (property fs (text "settingsEnvelope"))) [
        | err e ↦ err e
        | ok envelope ↦ ok (some envelope)
      ]
      else ok none

  -- The checks of `update` on its patch.
  unfoldable pub read_patch : Value → Result Patch
  unfolding assert_data_object patched_name patched_envelope
  read_patch v = elim (assert_data_object v (text "displayName" ∷ text "settingsEnvelope" ∷ [])) [
    | err e ↦ err e
    | ok fs ↦ elim (patched_name fs) [
      | err e ↦ err e
      | ok display_name ↦ elim (patched_envelope fs) [
        | err e ↦ err e
        | ok envelope ↦ ok (record { display_name = display_name; settings_envelope = envelope })
      ]
    ]
  ]
