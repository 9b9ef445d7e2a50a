-- ===== src/TtlRepositories/OauthStates/Absent.antt =====
-- Under which hashes the operations on OAuth states leave nothing.
use jumpgate_bridge.Prelude.{
  ℕ, ◌&&◌, ◌==◌, leb, length, ◌≡◌, ◌≢◌, list_eq, nat_eq, false, not, Option, none, some, arith,
  Bool-cases, inl, inr,
}
use jumpgate_bridge.Prelude.Text.{Text, text, text_iff}
use jumpgate_bridge.Prelude.Map.{Map, has, delete}
use jumpgate_bridge.Prelude.Map.Keys.{has-delete, has-retain, has-set}
use jumpgate_bridge.Prelude.Outcome.{Result, ok}
use jumpgate_bridge.Prelude.Outcome.Rules.{after_result, after_require, Result-cases}
use jumpgate_bridge.Value.{Value, object, Number}
use jumpgate_bridge.RepositoryUtils.{
  assert_identifier, assert_plain_object, read_clock, add_duration,
}
use jumpgate_bridge.TokenService
use jumpgate_bridge.TokenService.{Token, matches_token, hash_token}
use jumpgate_bridge.Generations.{current, is_current}
use jumpgate_bridge.TtlRepositories.OauthStates.{
  OauthState, States, prune, consume_found, consume_bound, drop_state, open_payload, consume,
  cancel, store, issue, Issued, wanted_generation,
}

delete_absent :
    (k j : Text) (m : Map Text OauthState) → has m k ≡ false → has (delete m j) k ≡ false
delete_absent k j m absent = rw has-delete (ground arith)

module _ (hmac : Text → Text) (encrypt_json : Value → Text → Value)
    (decrypt_json : Value → Text → Result Value) (normalize_json : Value → Result Value) where
  -- No state is stored under the hash.
  abbrev Lacks : {A : Type 0} → Text → A × States → Type 0
  Lacks k x = has x.1.states k ≡ false

  bound-Lacks :
      (k j : Text) (r : OauthState) (s : States)
      → has s.states k ≡ false
      → Lacks k (consume_bound hmac encrypt_json decrypt_json normalize_json j r s)
  unfolding consume_bound drop_state
  bound-Lacks k j r s absent =
      elim (Bool-cases (is_current s.generations r.profile_id r.management_generation)) [
        | inr stale ↦ rw stale (delete_absent k j s.states absent)
        | inl current ↦ rw current (
            after_result (Lacks k) (open_payload hmac encrypt_json decrypt_json normalize_json j r)
              _ s (λ e _. absent) λ p _. delete_absent k j s.states absent)
      ]

  found-Lacks :
      (k j : Text) (b : Value) (o : Option OauthState) (s : States)
      → has s.states k ≡ false
      → Lacks k (consume_found hmac encrypt_json decrypt_json normalize_json j b o s)
  unfolding consume_found
  found-Lacks k j b none s absent = absent
  found-Lacks k j b (some r) s absent =
      elim (Bool-cases (matches_token hmac (text "oauth-binding") b r.binding_hash)) [
        | inl own ↦ rw own (bound-Lacks k j r s absent)
        | inr foreign ↦ rw foreign absent
      ]

  prune-Lacks :
      (k : Text) (now : ℕ) (s : States)
      → has s.states k ≡ false
      → has (prune now s).states k ≡ false
  unfolding prune
  prune-Lacks k now s absent = has-retain _ s.states k absent

  pub consume-Lacks :
      (k : Text) (reading : Number) (token b : Value) (s : States)
      → has s.states k ≡ false
      → Lacks k (consume hmac encrypt_json decrypt_json normalize_json reading token b s)
  unfolding consume
  consume-Lacks k reading token b s absent =
      after_result (Lacks k) (read_clock reading) _ s (λ e _. absent)
        λ now _.
          let pruned = prune-Lacks k now s absent in
          elim (Result-cases (hash_token hmac (text "oauth-state") token)) [
            | inr (e, refused) ↦ rw (refused, consume) pruned
            | inl (j, hashed) ↦ rw (hashed, consume) (found-Lacks k j b _ (prune now s) pruned)
          ]

  pub cancel-Lacks :
      (k : Text) (token : Value) (s : States)
      → has s.states k ≡ false
      → Lacks k (cancel hmac encrypt_json decrypt_json normalize_json token s)
  unfolding cancel
  cancel-Lacks k token s absent = elim (Result-cases (hash_token hmac (text "oauth-state") token)) [
    | inr (e, refused) ↦ rw (refused, cancel) absent
    | inl (j, hashed) ↦ rw (hashed, cancel) (delete_absent k j s.states absent)
  ]

  -- The random text does not make a token with this hash.
  abbrev IsFresh : Text → Text → Type 0
  IsFresh k random =
      (drawn : Token)
      → TokenService.issue hmac (text "oauth-state") random ≡ ok drawn
      → drawn.token_hash ≢ k

  store-Lacks :
      (k random random_binding : Text) (now : ℕ) (id : Text) (generation : ℕ) (value : Value)
      (s : States)
      → IsFresh k random
      → has s.states k ≡ false
      → Lacks k (
          store hmac encrypt_json decrypt_json normalize_json random random_binding now id
            generation value s)
  unfolding store
  store-Lacks k random random_binding now id generation value s fresh absent =
      after_require (Lacks k) (not (leb s.max_states (length s.states))) _ _ s (λ _. absent)
        λ _.
          after_result (Lacks k) (TokenService.issue hmac (text "oauth-state") random) _ s
            (λ e _. absent)
            λ state drawn.
              after_result (Lacks k) (TokenService.issue hmac (text "oauth-binding") random_binding)
                _ s (λ e _. absent)
                λ binding _.
                  after_require (Lacks k) (not (has s.states state.token_hash)) _ _ s (λ _. absent)
                    λ _.
                      after_result (Lacks k) (add_duration now s.ttl_ms) _ s (λ e _. absent)
                        λ expires_at _.
                          rw (has-set, absent)
                            (ground (arith, text_iff state.token_hash k, fresh state drawn))

  pub issue-Lacks :
      (k random random_binding : Text) (reading : Number) (id payload generation : Value)
      (s : States)
      → IsFresh k random
      → has s.states k ≡ false
      → Lacks k (
          issue hmac encrypt_json decrypt_json normalize_json random random_binding reading id
            payload generation s)
  unfolding issue
  issue-Lacks k random random_binding reading id payload generation s fresh absent =
      let P = λ (x : Result Issued × States). Lacks k x in
      after_result P (assert_identifier id) _ s (λ e _. absent)
        λ i _.
          after_result P (wanted_generation generation (current s.generations i).generation) _ s
            (λ e _. absent)
            λ wanted _.
              after_require P
                (not (current s.generations i).is_revoked
                  && (current s.generations i).generation == wanted)
                _ _ s (λ _. absent)
                λ _.
                  after_result P (assert_plain_object payload) _ s (λ e _. absent)
                    λ fields _.
                      after_result P (normalize_json (object fields)) _ s (λ e _. absent)
                        λ value _.
                          after_result P (read_clock reading) _ s (λ e _. absent)
                            λ now _.
                              store-Lacks k random random_binding now i wanted value (prune now s)
                                fresh (prune-Lacks k now s absent)
