-- ===== src/TtlRepositories/OauthStates.antt =====
-- MemoryOAuthStateRepository: one-time states of the OAuth flow, each bound to a browser and to the
-- generation of the profile's management access.
pub mod Absent
pub mod Once
use jumpgate_bridge.Prelude.{
  ℕ, ◌*◌, ◌==◌, list_eq, nat_eq, Bool, true, false, ◌&&◌, ◌||◌, not, Option, none, some, List, [],
  ◌∷◌, ◌++◌, leb, ltb, if◌then◌else◌, length,
}
use jumpgate_bridge.Prelude.Text.{Text, text}
use jumpgate_bridge.Prelude.Map.{Map, get, has, set, delete, retain}
use jumpgate_bridge.Prelude.Outcome.{
  Result, ok, err, Action, pure, throw, lift, read, check, write, require, ◌>>=◌, ◌>>◌, type_error,
  profile_inactive, oauth_state_capacity, oauth_state_collision,
}
use jumpgate_bridge.Value.{Value, undefined, object, Number, safe_natural}
use jumpgate_bridge.RepositoryUtils.{
  assert_identifier, assert_plain_object, read_clock, add_duration,
}
use jumpgate_bridge.TokenService
use jumpgate_bridge.TokenService.{Token, hash_token, matches_token}
use jumpgate_bridge.Generations.{Generations, Generation, current, is_current}

pub record OauthState : Type 0 where
  pub profile_id : Text
  pub management_generation : ℕ
  pub binding_hash : Text
  pub payload_envelope : Value
  pub created_at : ℕ
  pub expires_at : ℕ

pub record States : Type 0 where
  pub ttl_ms : ℕ
  pub max_states : ℕ
  pub states : Map Text OauthState
  pub generations : Generations

pub record Issued : Type 0 where
  pub state_token : Text
  pub browser_binding_token : Text
  pub expires_at : ℕ

pub record Consumed : Type 0 where
  pub profile_id : Text
  pub payload : Value
  pub created_at : ℕ
  pub expires_at : ℕ

-- _prune
unfoldable pub prune : ℕ → States → States
prune now s = record s { states = retain (λ k r. not (leb r.expires_at now)) s.states }

-- _purpose
unfoldable pub purpose : Text → Text
purpose state_hash = text "oauth-state:" ++ state_hash

-- The generation that the caller names, or the current one.
unfoldable pub wanted_generation : Value → ℕ → Result ℕ
wanted_generation undefined generation = ok generation
wanted_generation v generation = elim (safe_natural v) [ none ↦ err type_error | some n ↦ ok n ]

-- HMAC, the envelope's cipher under a purpose (it may refuse), and normalizeRedisCompatibleJson.
module _ (hmac : Text → Text) (encrypt_json : Value → Text → Value)
    (decrypt_json : Value → Text → Result Value) (normalize_json : Value → Result Value) where
  unfoldable pub store : Text → Text → ℕ → Text → ℕ → Value → Action States Issued
  store random_state random_binding now id generation value = do
    full ← read (λ s. leb s.max_states (length s.states))
    require (not full) oauth_state_capacity
    state ← lift (TokenService.issue hmac (text "oauth-state") random_state)
    binding ← lift (TokenService.issue hmac (text "oauth-binding") random_binding)
    taken ← read (λ s. has s.states state.token_hash)
    require (not taken) oauth_state_collision
    expires_at ← check (λ s. add_duration now s.ttl_ms)
    write (λ s. record s {
      states = set s.states state.token_hash (record {
        profile_id = id;
        management_generation = generation;
        binding_hash = binding.token_hash;
        payload_envelope = encrypt_json value (purpose state.token_hash);
        created_at = now;
        expires_at = expires_at;
      });
    })
    pure (record {
      state_token = state.token;
      browser_binding_token = binding.token;
      expires_at = expires_at;
    })

  -- `generation` is options.managementGeneration.
  unfoldable pub issue : Text → Text → Number → Value → Value → Value → Action States Issued
  unfolding wanted_generation store prune
  issue random_state random_binding reading profile_id payload generation = do
    id ← lift (assert_identifier profile_id)
    authority ← read (λ s. current s.generations id)
    wanted ← lift (wanted_generation generation authority.generation)
    require (not authority.is_revoked && authority.generation == wanted) profile_inactive
    fields ← lift (assert_plain_object payload)
    value ← lift (normalize_json (object fields))
    now ← lift (read_clock reading)
    write (prune now)
    store random_state random_binding now id wanted value

  unfoldable pub drop_state : {A : Type 0} → Text → A → Action States A
  drop_state state_hash result s = (ok result, record s { states = delete s.states state_hash })

  unfoldable pub open_payload : Text → OauthState → Result Value
  open_payload state_hash r = elim (decrypt_json r.payload_envelope (purpose state_hash)) [
    | err e ↦ err e
    | ok value ↦ elim (assert_plain_object value) [
      | err e ↦ err e
      | ok fields ↦ normalize_json (object fields)
    ]
  ]

  -- A state that is found and bound to the browser. The second look at the generation finds what
  -- the first found, since nothing runs in between.
  unfoldable pub consume_bound : Text → OauthState → Action States (Option Consumed)
  unfolding drop_state open_payload
  consume_bound state_hash r s =
      if is_current s.generations r.profile_id r.management_generation
      then (do
        payload ← lift (open_payload state_hash r)
        drop_state state_hash (
            some (record {
              profile_id = r.profile_id;
              payload = payload;
              created_at = r.created_at;
              expires_at = r.expires_at;
            })))
          s
      else drop_state state_hash none s

  unfoldable pub consume_found : Text → Value → Option OauthState → Action States (Option Consumed)
  unfolding consume_bound
  consume_found state_hash browser_binding_token none = pure none
  consume_found state_hash browser_binding_token (some r) =
      if matches_token hmac (text "oauth-binding") browser_binding_token r.binding_hash
      then consume_bound state_hash r
      else pure none

  unfoldable pub consume : Number → Value → Value → Action States (Option Consumed)
  unfolding consume_found prune
  consume reading state_token browser_binding_token = do
    now ← lift (read_clock reading)
    write (prune now)
    elim (hash_token hmac (text "oauth-state") state_token) [
      | err e ↦ pure none
      | ok state_hash ↦ do
        found ← read (λ s. get s.states state_hash)
        consume_found state_hash browser_binding_token found
    ]

  unfoldable pub cancel : Value → Action States Bool
  cancel state_token s = elim (hash_token hmac (text "oauth-state") state_token) [
    | err e ↦ (ok false, s)
    | ok state_hash ↦
        (ok (has s.states state_hash), record s { states = delete s.states state_hash })
  ]
