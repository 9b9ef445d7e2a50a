-- ===== src/Profiles/Tests.antt =====
-- The theorems on the profiles at concrete inputs.
use jumpgate_bridge.Prelude.{
  ℕ, ◌≡◌, ◌≢◌, refl, list_eq, nat_eq, list_beq, Bool, true, false, none, some, List, [], ◌∷◌, ◌++◌,
  every,
}
use jumpgate_bridge.Prelude.Text.{Text, text}
use jumpgate_bridge.Prelude.Map.{get, has, set, delete}
use jumpgate_bridge.Value.{Value, string, object, empty, number, natural, Number, not_a_number}
use jumpgate_bridge.Value.{property, safe_natural}
use jumpgate_bridge.RepositoryUtils.{
  assert_identifier, is_identifier, is_word, assert_non_negative_integer, assert_positive_integer,
  assert_display_name, read_clock, parse_timestamp, trim, trim_start, trim_end, is_space,
  is_control,
}
use jumpgate_bridge.RepositoryUtils.Fences.{decimal, decimal_acc}
use jumpgate_bridge.TokenService
use jumpgate_bridge.TokenService.{hash_token, assert_opaque_value, is_token, hash}
use jumpgate_bridge.Lifecycle.Invalidations.{
  enqueue_profile, enqueue, create_invalidation_record, device_part, device_id_of,
  device_generation_of, lifecycle_invalidation_id, join_nul, id_parts, kind_text, store_new,
}
use jumpgate_bridge.Profiles.{
  read_profile_input, assert_data_object, has_property, assert_optional_hash, is_active,
}
use jumpgate_bridge.Profiles.Records.{
  put, index, unindex, invalidate_playback, issue_install, active_profile, assert_some_revision,
}
use jumpgate_bridge.Profiles.Operations.{create, create_checked}
use jumpgate_bridge.Profiles.Erasure.{
  revoke, revoke_found, revoke_active, request_deletion, queue_invalidation,
}
use jumpgate_bridge.Profiles.{Profile, public_view, Store, revoked}
use jumpgate_bridge.Profiles.Lifetime.{Grown}
use jumpgate_bridge.Profiles.Reachable.{Call, creates, revokes, run, step}
use jumpgate_bridge.Profiles.Operations.{get_by_install_token}
use jumpgate_bridge.Profiles.Records.{new_profile, revoked_profile}
use jumpgate_bridge.Profiles.Tokens.{
  empty_store, IsFound, token-current, profiles-Grown, revoked-not-found,
}

-- Digests are the messages themselves here, and there are no sessions and no manifests.
abbrev same_text : Text → Text
same_text m = m

abbrev json_bytes : Value → ℕ
json_bytes v = 2

abbrev accepts : Value → Bool
accepts v = true

abbrev no_deletion : Text → Text → Unit {0} → Unit {0}
no_deletion id reason m = m

abbrev no_manifests : Text → Unit {0} → Bool
no_manifests id m = false

abbrev no_date : Text → Number
no_date t = not_a_number

abbrev clock : Number
clock = natural 5

abbrev first_id : Text
first_id = text "profile1"

abbrev second_id : Text
second_id = text "profile2"

abbrev first_token : Text
first_token = text "aaaaaaaaaaaaaaaa"

abbrev second_token : Text
second_token = text "bbbbbbbbbbbbbbbb"

-- Two profiles, the first of which is then revoked.
abbrev calls : List Call
calls =
    creates clock first_token first_id (object empty)
    ∷ creates clock second_token second_id (object empty)
    ∷ revokes clock clock clock (string first_id) (number (natural 1))
    ∷ []

abbrev store : Store (Unit {0})
store =
    run same_text json_bytes accepts no_deletion no_manifests same_text no_date
      (empty_store none none) calls

abbrev token_hash_of : Text → Text
token_hash_of random = text "jumpgate-token:v1" ++ (0 ∷ (text "install" ++ (0 ∷ random)))

abbrev named : Text → Text → Profile
named id random =
    new_profile id (token_hash_of random)
      (record { display_name = []; settings_envelope = none; legacy_config_hash = none }) 5

second_found :
    get_by_install_token same_text (string second_token) store
    ≡ some (public_view (named second_id second_token))
unfolding run step get_by_install_token new_profile list_beq get has set delete revoke revoke_found
    revoke_active put index unindex invalidate_playback request_deletion queue_invalidation
    revoked_profile assert_identifier is_identifier is_word every assert_some_revision
    assert_non_negative_integer safe_natural create create_checked read_profile_input
    assert_data_object assert_display_name property has_property assert_optional_hash read_clock
    parse_timestamp issue_install TokenService.issue hash_token assert_opaque_value is_token hash
    trim trim_start trim_end is_space is_control enqueue_profile enqueue create_invalidation_record
    device_part device_id_of device_generation_of lifecycle_invalidation_id join_nul id_parts
    kind_text decimal decimal_acc store_new assert_positive_integer active_profile is_active
second_found = refl

token-current_example :
    IsFound same_text (string second_token) store (public_view (named second_id second_token))
token-current_example =
    token-current same_text json_bytes accepts no_deletion no_manifests same_text no_date none none
      calls (string second_token) (public_view (named second_id second_token)) second_found

first_revoked : get store.profiles first_id ≡ some (revoked_profile 5 (named first_id first_token))
unfolding run step get_by_install_token new_profile list_beq get has set delete revoke revoke_found
    revoke_active put index unindex invalidate_playback request_deletion queue_invalidation
    revoked_profile assert_identifier is_identifier is_word every assert_some_revision
    assert_non_negative_integer safe_natural create create_checked read_profile_input
    assert_data_object assert_display_name property has_property assert_optional_hash read_clock
    parse_timestamp issue_install TokenService.issue hash_token assert_opaque_value is_token hash
    trim trim_start trim_end is_space is_control enqueue_profile enqueue create_invalidation_record
    device_part device_id_of device_generation_of lifecycle_invalidation_id join_nul id_parts
    kind_text decimal decimal_acc store_new assert_positive_integer active_profile is_active
first_revoked = refl

is_revoked : (revoked_profile 5 (named first_id first_token)).status ≡ revoked
unfolding revoked_profile
is_revoked = refl

revoked-not-found_example : second_id ≢ first_id
unfolding run new_profile
revoked-not-found_example =
    revoked-not-found same_text json_bytes accepts no_deletion no_manifests same_text no_date none
      none calls [] first_id (revoked_profile 5 (named first_id first_token)) (string second_token)
      (public_view (named second_id second_token)) first_revoked is_revoked second_found

profiles-Grown_example :
    (r' : Profile) × (get store.profiles first_id ≡ some r')
    × Grown (revoked_profile 5 (named first_id first_token)) r'
unfolding run
profiles-Grown_example =
    profiles-Grown same_text json_bytes accepts no_deletion no_manifests same_text no_date none none
      calls [] first_id (revoked_profile 5 (named first_id first_token)) first_revoked
