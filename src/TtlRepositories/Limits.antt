-- ===== src/TtlRepositories/Limits.antt =====
-- MemoryRateLimitRepository: a fixed window of requests for each key.
pub mod Window
use jumpgate_bridge.Prelude.{
  ℕ, ◌+◌, ◌-◌, ◌*◌, ◌==◌, list_eq, nat_eq, Bool, true, false, ◌&&◌, ◌||◌, not, Option, none, some,
  List, [], ◌∷◌, leb, ltb, min, if◌then◌else◌, length,
}
use jumpgate_bridge.Prelude.Text.{Text, text}
use jumpgate_bridge.Prelude.Map.{Map, get, has, set, delete, retain}
use jumpgate_bridge.Prelude.Outcome.{
  Result, ok, err, Action, pure, throw, lift, read, check, write, require, ◌>>=◌, ◌>>◌,
  rate_limit_capacity, rate_limit_policy_mismatch,
}
use jumpgate_bridge.Value.{Value, undefined, string, number, Number, natural, max_safe_integer}
use jumpgate_bridge.RepositoryUtils.{
  assert_bounded_string, default_string_options, assert_positive_integer, read_clock, add_duration,
}
use jumpgate_bridge.TokenService.{hash_opaque}

pub record Entry : Type 0 where
  pub count : ℕ
  pub limit : ℕ
  pub window_ms : ℕ
  pub reset_at : ℕ

pub record Limiter : Type 0 where
  pub max_entries : ℕ
  pub entries : Map Text Entry

pub record Verdict : Type 0 where
  pub allowed : Bool
  pub remaining : ℕ
  pub reset_at : ℕ

-- _prune
unfoldable pub prune : ℕ → Limiter → Limiter
prune now s = record s { entries = retain (λ k e. not (leb e.reset_at now)) s.entries }

-- The record of the window that is open, or of a new one.
unfoldable pub open_window : Text → ℕ → ℕ → ℕ → Option Entry → Action Limiter Entry
open_window key_hash limit window_ms now (some e) =
    if not (e.limit == limit) || not (e.window_ms == window_ms)
    then throw rate_limit_policy_mismatch
    else pure e
open_window key_hash limit window_ms now none = do
  size ← read (λ s. length s.entries)
  room ← read (λ s. ltb size s.max_entries)
  require room rate_limit_capacity
  reset_at ← lift (add_duration now window_ms)
  pure (record { count = 0; limit = limit; window_ms = window_ms; reset_at = reset_at })

unfoldable pub charge : Entry → ℕ → Entry
charge e cost = record e { count = min max_safe_integer (e.count + cost) }

unfoldable pub verdict : Entry → Verdict
verdict e = record {
  allowed = leb e.count e.limit;
  remaining = e.limit - e.count;
  reset_at = e.reset_at;
}

-- The body of consume, on checked arguments and the hash of the key.
unfoldable pub consume_hashed : ℕ → Text → ℕ → ℕ → ℕ → Action Limiter Verdict
unfolding prune open_window charge verdict
consume_hashed now key_hash limit window_ms cost = do
  found ← read (λ s. get s.entries key_hash)
  e ← open_window key_hash limit window_ms now found
  write (λ s. record s { entries = set s.entries key_hash (charge e cost) })
  pure (verdict (charge e cost))

abbrev max_limit : ℕ
max_limit = 1000000

abbrev max_window : ℕ
max_window = 24 * 60 * 60 * 1000

-- cost = 1
abbrev default_cost : Value → Value
default_cost undefined = number (natural 1)
default_cost v = v

-- `json_pair` is JSON.stringify([scope, key]).
module _ (hmac : Text → Text) (json_pair : Text → Text → Text) where
  unfoldable pub key_hash : Text → Text → Result Text
  key_hash scope key = hash_opaque hmac (text "rate-limit-key") (string (json_pair scope key)) 1024

  unfoldable pub consume : Number → Value → Value → Value → Value → Value → Action Limiter Verdict
  unfolding key_hash
  consume reading scope key limit window_ms cost = do
    scoped_scope ← lift (assert_bounded_string scope 128 default_string_options)
    scoped_key ← lift (assert_bounded_string key 512 default_string_options)
    bounded_limit ← lift (assert_positive_integer limit max_limit)
    bounded_window ← lift (assert_positive_integer window_ms max_window)
    bounded_cost ← lift (assert_positive_integer (default_cost cost) bounded_limit)
    now ← lift (read_clock reading)
    write (prune now)
    hashed ← lift (key_hash scoped_scope scoped_key)
    consume_hashed now hashed bounded_limit bounded_window bounded_cost

  unfoldable pub reset : Value → Value → Action Limiter Bool
  unfolding key_hash
  reset scope key = do
    scoped_scope ← lift (assert_bounded_string scope 128 default_string_options)
    scoped_key ← lift (assert_bounded_string key 512 default_string_options)
    hashed ← lift (key_hash scoped_scope scoped_key)
    present ← read (λ s. has s.entries hashed)
    write (λ s. record s { entries = delete s.entries hashed })
    pure present
