-- ===== src/Profiles/Records.antt =====
-- The changes that the methods make to a record, and to the fields of the store.
use jumpgate_bridge.Prelude.{
  ℕ, ◌+◌, list_eq, nat_eq, Bool, true, false, ◌&&◌, Option, none, some, [], leb, if◌then◌else◌,
}
use jumpgate_bridge.Prelude.Text.{Text, text}
use jumpgate_bridge.Prelude.Map.{set, delete}
use jumpgate_bridge.Prelude.Outcome.{Result, ok, err, Action, write}
use jumpgate_bridge.Value.{Value, undefined, string, number, natural, object, empty, Number}
use jumpgate_bridge.RepositoryUtils.{assert_non_negative_integer}
use jumpgate_bridge.RepositoryUtils.Fences.{Comparison, less}
use jumpgate_bridge.TokenService
use jumpgate_bridge.TokenService.{Token, hash_token}
use jumpgate_bridge.Lifecycle.Invalidations.{by_number}
use jumpgate_bridge.PlaybackSessions.Invalidation.{invalidate_profile_input}
use jumpgate_bridge.Profiles.{
  active, revoked, Deletion, not_deleted, pending, deleted, Profile, PublicProfile, Store,
  is_active, ProfileInput, Patch,
}

-- A profile with the token that it is installed by.
pub record Issued : Type 0 where
  pub profile : PublicProfile
  pub install_token : Text

-- What getErasureStatus and listPendingErasures tell.
pub record ErasureStatus : Type 0 where
  pub profile_id : Text
  pub status : Deletion
  pub started_at : Option ℕ
  pub durable_erased_at : Option ℕ
  pub attempt_count : ℕ
  pub next_attempt_at : Option ℕ

-- A default parameter `= {}`.
abbrev pub or_empty : Value → Value
or_empty undefined = object empty
or_empty v = v

abbrev pub default_limit : Value → Value
default_limit undefined = number (natural 32)
default_limit v = v

unfoldable pub new_profile : Text → Text → ProfileInput → ℕ → Profile
new_profile id token_hash input now = record {
  id = id;
  install_token_hash = token_hash;
  display_name = input.display_name;
  settings_envelope = input.settings_envelope;
  legacy_config_hash = input.legacy_config_hash;
  status = active;
  revision = 1;
  created_at = now;
  updated_at = now;
  revoked_at = none;
  history_generation = 1;
  deletion_state = not_deleted;
  deletion_started_at = none;
  durable_erased_at = none;
  erasure_attempt_count = 0;
  erasure_next_attempt_at = none;
}

unfoldable pub patched : Patch → ℕ → Profile → Profile
patched patch now r = record r {
  display_name = elim patch.display_name [ none ↦ r.display_name | some n ↦ n ];
  settings_envelope = elim patch.settings_envelope [ none ↦ r.settings_envelope | some e ↦ e ];
  revision = r.revision + 1;
  updated_at = now;
}

unfoldable pub rotated : Text → ℕ → Profile → Profile
rotated token_hash now r = record r {
  install_token_hash = token_hash;
  revision = r.revision + 1;
  updated_at = now;
}

unfoldable pub revoked_profile : ℕ → Profile → Profile
revoked_profile now r = record r {
  status = revoked;
  revoked_at = some now;
  updated_at = now;
  revision = r.revision + 1;
}

unfoldable pub erasing : ℕ → Profile → Profile
erasing now r = record r {
  status = revoked;
  revoked_at = some now;
  updated_at = now;
  deletion_state = pending;
  deletion_started_at = some now;
  erasure_attempt_count = 0;
  erasure_next_attempt_at = some now;
  revision = r.revision + 1;
}

unfoldable pub erased : Text → ℕ → Profile → Profile
erased token_hash now r = record r {
  install_token_hash = token_hash;
  display_name = [];
  settings_envelope = none;
  status = revoked;
  deletion_state = deleted;
  durable_erased_at = some now;
  updated_at = now;
  revision = r.revision + 1;
}

unfoldable pub deferred : ℕ → Profile → Profile
deferred next_attempt_at r = record r {
  erasure_attempt_count = r.erasure_attempt_count + 1;
  erasure_next_attempt_at = some next_attempt_at;
}

unfoldable pub erasure_status : Profile → ErasureStatus
erasure_status r = record {
  profile_id = r.id;
  status = r.deletion_state;
  started_at = r.deletion_started_at;
  durable_erased_at = r.durable_erased_at;
  attempt_count = r.erasure_attempt_count;
  next_attempt_at = r.erasure_next_attempt_at;
}

unfoldable pub is_pending : Deletion → Bool
is_pending pending = true
is_pending _ = false

-- `null` in an order by subtraction counts as 0.
unfoldable pub or_zero : Option ℕ → ℕ
or_zero none = 0
or_zero (some n) = n

unfoldable pub is_less : Comparison → Bool
is_less less = true
is_less _ = false

-- assertRevision(value, false)
unfoldable pub assert_some_revision : Value → Result ℕ
assert_some_revision v = assert_non_negative_integer v

unfoldable pub active_profile : Option Profile → Option Profile
unfolding is_active
active_profile none = none
active_profile (some r) = if is_active r.status then some r else none

-- The comparator and the test of listPendingErasures.
unfoldable pub erasure_before : (Text → Text → Comparison) → Profile → Profile → Bool
unfolding by_number or_zero is_less
erasure_before locale_compare left right =
    by_number (or_zero left.erasure_next_attempt_at) (or_zero right.erasure_next_attempt_at) (
      by_number (or_zero left.deletion_started_at) (or_zero right.deletion_started_at)
        (is_less (locale_compare left.id right.id)))

unfoldable pub erasure_due : ℕ → Profile → Bool
unfolding is_pending or_zero
erasure_due now r = is_pending r.deletion_state && leb (or_zero r.erasure_next_attempt_at) now

unfoldable pub issue_install : (Text → Text) → Text → Result Token
issue_install hmac random = TokenService.issue hmac (text "install") random

module _ {M : Type 0} where
  -- A write to the record of a profile.
  unfoldable pub put : Text → Profile → Action (Store M) (Unit {0})
  put id r = write (λ s. record s { profiles = set s.profiles id r })

  unfoldable pub unindex : Text → Action (Store M) (Unit {0})
  unindex token_hash = write (λ s. record s { install_index = delete s.install_index token_hash })

  unfoldable pub index : Text → Text → Action (Store M) (Unit {0})
  index token_hash id = write (λ s. record s { install_index = set s.install_index token_hash id })

  -- if (this._playbackSessions) this._playbackSessions.invalidateProfileNow(id, revision)
  unfoldable pub invalidate_playback : Number → Text → ℕ → Action (Store M) (Unit {0})
  invalidate_playback reading id revision s = elim s.playback [
    | none ↦ (ok tt, s)
    | some p ↦
        let out = invalidate_profile_input reading (string id) (number (natural revision)) p in
        (elim out.0 [ err e ↦ err e | ok n ↦ ok tt ], record s { playback = some out.1 })
  ]
