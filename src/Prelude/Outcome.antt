-- ===== src/Prelude/Outcome.antt =====
-- Operations that read and change a state and may throw. What was written before a throw stays
-- written, so the state comes back beside the error too.
pub mod Rules
use mathlib.Core.Path.{◌≡◌, refl}
use mathlib.Core.Bool.{Bool, true, false}

-- A thrown error: its class, or the `code` that `codedError` puts on it. Messages are left out.
pub data Error : Type 0 where
  type_error range_error plain_error abort_error : Error
  playback_source_revoked playback_session_released playback_session_stale : Error
  playback_session_revision_exhausted playback_profile_stale playback_device_stale : Error
  history_generation_changed scrobble_dispatch_conflict scrobble_dispatch_state_invalid : Error
  scrobble_dispatch_lease_lost scrobble_dispatch_revoked : Error
  lease_capacity lease_token_collision : Error
  rate_limit_capacity rate_limit_policy_mismatch : Error
  profile_inactive oauth_state_capacity oauth_state_collision : Error
  pairing_capacity pairing_id_collision pairing_code_collision pairing_conflict pairing_state :
      Error
  provider_mutation_fence_exhausted provider_snapshot_stale_fence revision_conflict : Error
  history_generation_exhausted profile_erasure_pending : Error

pub data Result {ℓ} (A : Type ℓ) : Type ℓ where
  ok : A → Result A
  err : Error → Result A

abbrev pub Action {ℓ} : Type ℓ → Type ℓ → Type ℓ
Action S A = S → Result A × S

module _ {ℓ} {S A : Type ℓ} where
  abbrev pub pure : A → Action S A
  pure a s = (ok a, s)

  abbrev pub throw : Error → Action S A
  throw e s = (err e, s)

  -- A check or a computation that does not touch the state.
  abbrev pub lift : Result A → Action S A
  lift r s = (r, s)

  -- A check against the state.
  abbrev pub check : (S → Result A) → Action S A
  check f s = (f s, s)

  abbrev pub read : (S → A) → Action S A
  read f s = (ok (f s), s)

abbrev pub write {ℓ} : {S : Type ℓ} → (S → S) → Action S (Unit {ℓ})
write f s = (ok tt, f s)

abbrev pub require {ℓ} : {S : Type ℓ} → Bool → Error → Action S (Unit {ℓ})
require true e s = (ok tt, s)
require false e s = (err e, s)

module _ {ℓ} {S A B : Type ℓ} where
  abbrev pub continue : Result A → (A → Action S B) → Action S B
  continue (ok a) f s = f a s
  continue (err e) f s = (err e, s)

  infixl 10 ◌>>=◌
  abbrev pub ◌>>=◌ : Action S A → (A → Action S B) → Action S B
  ◌>>=◌ m f s = let (r, t) = m s in continue r f t

infixl 10 ◌>>◌
abbrev pub ◌>>◌ {ℓ} : {S B : Type ℓ} → Action S (Unit {ℓ}) → Action S B → Action S B
m >> n = m >>= λ _. n
