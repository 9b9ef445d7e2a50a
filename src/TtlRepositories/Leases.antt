-- ===== src/TtlRepositories/Leases.antt =====
-- MemoryLeaseRepository: at most one holder of each key, until its term ends.
pub mod Exclusion
use jumpgate_bridge.Prelude.{
  ℕ, zero, suc, ◌*◌, ◌==◌, list_eq, nat_eq, Bool, true, false, ◌&&◌, ◌||◌, not, Option, none, some,
  List, [], ◌∷◌, leb, ltb, if◌then◌else◌, length,
}
use jumpgate_bridge.Prelude.Text.{Text, text}
use jumpgate_bridge.Prelude.Map.{Map, get, set, delete, retain, values}
use jumpgate_bridge.Prelude.Outcome.{
  Result, ok, err, Action, pure, throw, lift, read, check, write, require, ◌>>=◌, ◌>>◌,
  lease_capacity, lease_token_collision,
}
use jumpgate_bridge.Value.{Value, string, Number}
use jumpgate_bridge.RepositoryUtils.{
  assert_bounded_string, default_string_options, assert_positive_integer, assert_identifier,
  read_clock, add_duration,
}
use jumpgate_bridge.TokenService
use jumpgate_bridge.TokenService.{Token, hash_opaque, matches_token}

pub record Lease : Type 0 where
  pub owner : Text
  pub lease_token_hash : Text
  pub created_at : ℕ
  pub expires_at : ℕ

pub record Leases : Type 0 where
  pub max_leases : ℕ
  pub leases : Map Text Lease

-- `{ acquired: false, expiresAt }`, or the token and the term of a new lease.
pub data Acquired : Type 0 where
  held : ℕ → Acquired
  acquired : Text → ℕ → Acquired

-- _prune
unfoldable pub prune : ℕ → Leases → Leases
prune now s = record s { leases = retain (λ k l. not (leb l.expires_at now)) s.leases }

token_taken : Text → List Lease → Bool
token_taken h [] = false
token_taken h (l ∷ ls) = l.lease_token_hash == h || token_taken h ls

abbrev max_lease_ms : ℕ
max_lease_ms = 5 * 60 * 1000

-- `json_pair` is JSON.stringify([scope, key]); `randoms` are the texts of the tokens that the
-- attempts draw, the last attempt first.
module _ (hmac : Text → Text) (json_pair : Text → Text → Text) where
  unfoldable pub key_hash : Text → Text → Result Text
  key_hash scope key = hash_opaque hmac (text "lease-key") (string (json_pair scope key)) 1024

  -- _issueLeaseToken, with the attempts that are left.
  unfoldable pub issue_lease_token : ℕ → (ℕ → Text) → Leases → Result Token
  unfolding token_taken
  issue_lease_token zero randoms s = err lease_token_collision
  issue_lease_token (suc attempts) randoms s =
      elim (TokenService.issue hmac (text "lease") (randoms attempts)) [
        | err e ↦ err e
        | ok issued ↦ elim (token_taken issued.token_hash (values s.leases)) [
          | true ↦ issue_lease_token attempts randoms s
          | false ↦ ok issued
        ]
      ]

  unfoldable pub acquire_hashed :
      (ℕ → Text) → ℕ → Text → Text → ℕ → Option Lease → Action Leases Acquired
  acquire_hashed randoms now hashed owner duration (some l) = pure (held l.expires_at)
  acquire_hashed randoms now hashed owner duration none = do
    room ← read (λ s. ltb (length s.leases) s.max_leases)
    require room lease_capacity
    issued ← check (issue_lease_token 8 randoms)
    expires_at ← lift (add_duration now duration)
    write (λ s. record s {
      leases = set s.leases hashed (record {
        owner = owner;
        lease_token_hash = issued.token_hash;
        created_at = now;
        expires_at = expires_at;
      });
    })
    pure (acquired issued.token expires_at)

  unfoldable pub acquire :
      (ℕ → Text) → Number → Value → Value → Value → Value → Action Leases Acquired
  unfolding key_hash prune acquire_hashed
  acquire randoms reading scope key owner ttl_ms = do
    scoped_scope ← lift (assert_bounded_string scope 128 default_string_options)
    scoped_key ← lift (assert_bounded_string key 512 default_string_options)
    scoped_owner ← lift (assert_identifier owner)
    duration ← lift (assert_positive_integer ttl_ms max_lease_ms)
    now ← lift (read_clock reading)
    write (prune now)
    hashed ← lift (key_hash scoped_scope scoped_key)
    existing ← read (λ s. get s.leases hashed)
    acquire_hashed randoms now hashed scoped_owner duration existing

  -- Is the token that of the lease?
  unfoldable pub holds : Value → Option Lease → Bool
  holds lease_token none = false
  holds lease_token (some l) = matches_token hmac (text "lease") lease_token l.lease_token_hash

  unfoldable pub release_hashed : Text → Value → Action Leases Bool
  unfolding holds
  release_hashed hashed lease_token s =
      if holds lease_token (get s.leases hashed)
      then (ok true, record s { leases = delete s.leases hashed })
      else (ok false, s)

  unfoldable pub release : Number → Value → Value → Value → Action Leases Bool
  unfolding key_hash prune release_hashed
  release reading scope key lease_token = do
    scoped_scope ← lift (assert_bounded_string scope 128 default_string_options)
    scoped_key ← lift (assert_bounded_string key 512 default_string_options)
    now ← lift (read_clock reading)
    write (prune now)
    hashed ← lift (key_hash scoped_scope scoped_key)
    release_hashed hashed lease_token

  extend : Text → ℕ → Lease → Action Leases (Option ℕ)
  extend hashed expires_at l = do
    write (λ s. record s { leases = set s.leases hashed (record l { expires_at = expires_at }) })
    pure (some expires_at)

  -- `{ renewed: false }` is `none`.
  unfoldable pub renew_found : ℕ → Text → Value → ℕ → Option Lease → Action Leases (Option ℕ)
  unfolding holds extend
  renew_found now hashed lease_token duration none = pure none
  renew_found now hashed lease_token duration (some l) =
      if holds lease_token (some l)
      then (do expires_at ← lift (add_duration now duration); extend hashed expires_at l)
      else pure none

  unfoldable pub renew : Number → Value → Value → Value → Value → Action Leases (Option ℕ)
  unfolding key_hash prune renew_found
  renew reading scope key lease_token ttl_ms = do
    scoped_scope ← lift (assert_bounded_string scope 128 default_string_options)
    scoped_key ← lift (assert_bounded_string key 512 default_string_options)
    duration ← lift (assert_positive_integer ttl_ms max_lease_ms)
    now ← lift (read_clock reading)
    write (prune now)
    hashed ← lift (key_hash scoped_scope scoped_key)
    found ← read (λ s. get s.leases hashed)
    renew_found now hashed lease_token duration found
