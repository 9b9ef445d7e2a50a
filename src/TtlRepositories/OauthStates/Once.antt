-- ===== src/TtlRepositories/OauthStates/Once.antt =====
-- An OAuth state is good for one use, by the browser that it was bound to.
use jumpgate_bridge.Prelude.{
  ◌≡◌, ◌≢◌, ap, sym, ◌∙◌, subst, list_eq, nat_eq, false, Option, none, some, List, [], ◌∷◌, arith,
  Bool-cases, inl, inr,
}
use jumpgate_bridge.Prelude.Text.{Text, text, text_iff}
use jumpgate_bridge.Prelude.Map.{get, has}
use jumpgate_bridge.Prelude.Map.Keys.{has-delete, has-retain, get_absent}
use jumpgate_bridge.Prelude.Outcome.{Error, Result, ok, err}
use jumpgate_bridge.Prelude.Outcome.Rules.{after_result, Result-cases}
use jumpgate_bridge.Value.{Value, Number}
use jumpgate_bridge.RepositoryUtils.{read_clock}
use jumpgate_bridge.TokenService
use jumpgate_bridge.TokenService.{Token, matches_token, hash_token}
use jumpgate_bridge.Generations.{is_current}
use jumpgate_bridge.TtlRepositories.OauthStates.{
  OauthState, States, Consumed, prune, consume_found, consume_bound, drop_state, open_payload,
  consume, cancel, issue,
}
use jumpgate_bridge.TtlRepositories.OauthStates.Absent.{issue-Lacks, consume-Lacks, cancel-Lacks}

-- A call of the repository: issue, with the random texts of its two tokens; consume; or cancel.
pub data Call : Type 0 where
  issues : Text → Text → Number → Value → Value → Value → Call
  consumes : Number → Value → Value → Call
  cancels : Value → Call

module _ (hmac : Text → Text) where
  -- The call issues a state whose token has the hash of this token.
  abbrev pub Redraws : Value → Call → Type 0
  Redraws token (issues random random_binding reading id payload generation) =
      (drawn : Token) × (TokenService.issue hmac (text "oauth-state") random ≡ ok drawn)
      × (hash_token hmac (text "oauth-state") token ≡ ok drawn.token_hash)
  Redraws token _ = ⊥

  abbrev pub NoneRedraws : Value → List Call → Type 0
  NoneRedraws token [] = Unit
  NoneRedraws token (call ∷ calls) = (¬ Redraws token call) × NoneRedraws token calls

module _ (hmac : Text → Text) (encrypt_json : Value → Text → Value)
    (decrypt_json : Value → Text → Result Value) (normalize_json : Value → Result Value) where
  -- A success takes the state away.
  abbrev Spent : Text → Result (Option Consumed) × States → Type 0
  Spent k (ok (some c), t) = has t.states k ≡ false
  Spent k _ = Unit

  bound-Spent :
      (k : Text) (r : OauthState) (s : States)
      → Spent k (consume_bound hmac encrypt_json decrypt_json normalize_json k r s)
  unfolding consume_bound drop_state
  bound-Spent k r s =
      elim (Bool-cases (is_current s.generations r.profile_id r.management_generation)) [
        | inr stale ↦ rw stale tt
        | inl current ↦ rw current (
            after_result (Spent k) (open_payload hmac encrypt_json decrypt_json normalize_json k r)
              _ s (λ e _. tt) λ p _. rw has-delete (ground (arith, text_iff k k)))
      ]

  found-Spent :
      (k : Text) (b : Value) (o : Option OauthState) (s : States)
      → Spent k (consume_found hmac encrypt_json decrypt_json normalize_json k b o s)
  unfolding consume_found
  found-Spent k b none s = tt
  found-Spent k b (some r) s =
      elim (Bool-cases (matches_token hmac (text "oauth-binding") b r.binding_hash)) [
        | inl own ↦ rw own (bound-Spent k r s)
        | inr foreign ↦ rw foreign tt
      ]

  consume-Spent :
      (reading : Number) (token b : Value) (k : Text) (s : States)
      → hash_token hmac (text "oauth-state") token ≡ ok k
      → Spent k (consume hmac encrypt_json decrypt_json normalize_json reading token b s)
  unfolding consume
  consume-Spent reading token b k s hashed =
      after_result (Spent k) (read_clock reading) _ s (λ e _. tt)
        λ now _. rw (hashed, consume) (found-Spent k b _ (prune now s))

  -- A token that the repository does not know gets nothing, at any time.
  consume_unknown :
      (reading : Number) (token b : Value) (k : Text) (c : Consumed) (s : States)
      → hash_token hmac (text "oauth-state") token ≡ ok k
      → has s.states k ≡ false
      → (consume hmac encrypt_json decrypt_json normalize_json reading token b s).0 ≢ ok (some c)
  unfolding consume consume_found
  consume_unknown reading token b k c s hashed absent =
      after_result (λ x. x.0 ≢ ok (some c)) (read_clock reading) _ s (λ e _ h. cc)
        λ now _.
          let gone : get (prune now s).states k ≡ none =
            get_absent _ k (unfold prune in has-retain _ s.states k absent) in
          rw (hashed, gone, consume, consume_found) (λ h. cc)

  consume_malformed :
      (reading : Number) (token b : Value) (e : Error) (c : Consumed) (s : States)
      → hash_token hmac (text "oauth-state") token ≡ err e
      → (consume hmac encrypt_json decrypt_json normalize_json reading token b s).0 ≢ ok (some c)
  unfolding consume
  consume_malformed reading token b e c s refused =
      after_result (λ x. x.0 ≢ ok (some c)) (read_clock reading) _ s (λ x _ h. cc)
        λ now _. rw (refused, consume) (λ h. cc)

  unfoldable pub run : List Call → States → States
  run [] s = s
  run (issues random random_binding reading id payload generation ∷ calls) s =
      run calls
        (issue hmac encrypt_json decrypt_json normalize_json random random_binding reading id
          payload generation s).1
  run (consumes reading token b ∷ calls) s =
      run calls (consume hmac encrypt_json decrypt_json normalize_json reading token b s).1
  run (cancels token ∷ calls) s =
      run calls (cancel hmac encrypt_json decrypt_json normalize_json token s).1

  run-Lacks :
      (token : Value) (k : Text) (calls : List Call) (s : States)
      → hash_token hmac (text "oauth-state") token ≡ ok k
      → NoneRedraws hmac token calls
      → has s.states k ≡ false
      → has (run calls s).states k ≡ false
  unfolding run
  run-Lacks token k [] s hashed fresh absent = absent
  run-Lacks token k (issues random random_binding reading id payload generation ∷ calls) s hashed
        fresh absent =
      run-Lacks token k calls _ hashed fresh.1 (
        issue-Lacks hmac encrypt_json decrypt_json normalize_json k random random_binding reading id
          payload generation s (λ drawn at same. fresh.0 (drawn, at, hashed ∙ ap ok (sym same)))
          absent)
  run-Lacks token k (consumes reading foreign b ∷ calls) s hashed fresh absent =
      run-Lacks token k calls _ hashed fresh.1
        (consume-Lacks hmac encrypt_json decrypt_json normalize_json k reading foreign b s absent)
  run-Lacks token k (cancels foreign ∷ calls) s hashed fresh absent =
      run-Lacks token k calls _ hashed fresh.1
        (cancel-Lacks hmac encrypt_json decrypt_json normalize_json k foreign s absent)

  -- After a state token has been consumed, and after any further calls of issue, consume and cancel
  -- of which none issues a token with the same hash, the repository refuses the token, at every
  -- reading of the clock and to whatever browser.
  pub consume_once :
      (reading later : Number) (token b b' : Value) (c c' : Consumed) (calls : List Call)
      (s t : States)
      → consume hmac encrypt_json decrypt_json normalize_json reading token b s ≡ (ok (some c), t)
      → NoneRedraws hmac token calls
      → (consume hmac encrypt_json decrypt_json normalize_json later token b' (run calls t)).0
        ≢ ok (some c')
  consume_once reading later token b b' c c' calls s t h none_redraws =
      elim (Result-cases (hash_token hmac (text "oauth-state") token)) [
        | inl (k, hashed) ↦ consume_unknown later token b' k c' (run calls t) hashed (
            run-Lacks token k calls t hashed none_redraws
              (subst (Spent k) h (consume-Spent reading token b k s hashed)))
        | inr (e, refused) ↦ consume_malformed later token b' e c' (run calls t) refused
      ]
