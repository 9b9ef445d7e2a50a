-- ===== src/TtlRepositories/Tests.antt =====
-- The theorems on the short-lived records at concrete inputs.
use jumpgate_bridge.Prelude.{
  ℕ, ◌≡◌, ◌≤◌, ◌≢◌, refl, ap, list_eq, nat_eq, true, Option, none, some, List, [], ◌∷◌, ◌++◌, every,
  list_beq, arith, leb, length, if◌then◌else◌,
}
use jumpgate_bridge.Prelude.Text.{Text, text}
use jumpgate_bridge.Prelude.Map.{get, has, set, delete, retain, values}
use jumpgate_bridge.Prelude.Outcome.{Result, ok, err}
use jumpgate_bridge.Value.{Value, undefined, string, object, empty, Number, natural}
use jumpgate_bridge.RepositoryUtils.{add_duration, read_clock, assert_plain_object}
use jumpgate_bridge.TokenService
use jumpgate_bridge.TokenService.{Token, is_hash, hash_token, matches_token}
use jumpgate_bridge.Generations.{is_current}
use jumpgate_bridge.TtlRepositories.Limits.{Entry, Limiter}
use jumpgate_bridge.TtlRepositories.Limits.Window.{Request, serve, serve-within-limit}
use jumpgate_bridge.TtlRepositories.Leases.{
  Lease, Leases, acquired, release_hashed, issue_lease_token,
}
use jumpgate_bridge.TtlRepositories.Leases.Exclusion.{
  Attempt, wins, wins-leased, attempt, attempt-release,
}
use jumpgate_bridge.TtlRepositories.OauthStates.{States, OauthState, Consumed, consume}
use jumpgate_bridge.TtlRepositories.OauthStates.Once.{
  Call, issues, consumes, cancels, NoneRedraws, run, consume_once,
}

-- Two requests of three are still free in this window.
abbrev window : Entry
window = record { count = 1; limit = 3; window_ms = 100; reset_at = 100 }

abbrev limiter : Limiter
limiter = record { max_entries = 10; entries = (text "k", window) ∷ [] }

abbrev request_of : ℕ → ℕ → Request
request_of now cost = record { now = now; key = text "k"; limit = 3; window_ms = 100; cost = cost }

abbrev requests : List Request
requests = request_of 10 1 ∷ request_of 20 2 ∷ request_of 30 1 ∷ []

serve-within-limit_example : serve (text "k") requests limiter ≤ 2
unfolding has get list_beq
serve-within-limit_example =
    serve-within-limit (text "k") window requests limiter (omega arith)
      (record { unique = (refl, tt); found = refl }) (omega arith)

-- Every message has the same digest here: 64 times the digit a.
abbrev digest : Text
digest = text "aaaaaaaaaaaaaaaaaaaaaaaaaaaaaaaaaaaaaaaaaaaaaaaaaaaaaaaaaaaaaaaa"

abbrev constant_hmac : Text → Text
constant_hmac m = digest

abbrev join : Text → Text → Text
join a b = a ++ b

abbrev held_lease : Lease
held_lease = record {
  owner = text "worker-1";
  lease_token_hash = digest;
  created_at = 0;
  expires_at = 50;
}

abbrev leases : Leases
leases = record { max_leases = 10; leases = (text "k", held_lease) ∷ [] }

abbrev try_at : ℕ → Attempt
try_at now = record {
  now = now;
  key = text "k";
  owner = text "worker-2";
  duration = 30;
  randoms = λ n. text "tokentokentokentoken";
}

wins-leased_example : wins constant_hmac join (text "k") (try_at 10 ∷ try_at 49 ∷ []) leases ≡ 0
unfolding has get list_beq
wins-leased_example =
    wins-leased constant_hmac join (text "k") held_lease (try_at 10 ∷ try_at 49 ∷ []) leases
      (record { unique = (refl, tt); found = refl }) (omega arith)

abbrev new_lease : Lease
new_lease = record {
  owner = text "worker-2";
  lease_token_hash = digest;
  created_at = 60;
  expires_at = 90;
}

abbrev leased_again : Leases
leased_again = record { max_leases = 10; leases = (text "k", new_lease) ∷ [] }

digest_hash : (m : Text) → is_hash (constant_hmac m) ≡ true
unfolding is_hash every
digest_hash m = refl

taken_again :
    attempt constant_hmac join (try_at 60) leases
    ≡ (ok (acquired (text "tokentokentokentoken") 90), leased_again)
unfolding attempt get retain issue_lease_token TokenService.issue list_beq values add_duration set
taken_again = refl

attempt-release_example :
    (release_hashed constant_hmac join
        (text "k")
        (string (text "tokentokentokentoken"))
        leased_again
      ≡ (ok true, record leased_again { leases = delete leased_again.leases (text "k") }))
    × (get (delete leased_again.leases (text "k")) (text "k") ≡ none)
attempt-release_example =
    attempt-release constant_hmac join (try_at 60) leases leased_again (text "tokentokentokentoken")
      90 digest_hash taken_again

abbrev oauth_state : OauthState
oauth_state = record {
  profile_id = text "profile1";
  management_generation = 0;
  binding_hash = digest;
  payload_envelope = object empty;
  created_at = 0;
  expires_at = 500;
}

abbrev oauth_states : States
oauth_states = record {
  ttl_ms = 500;
  max_states = 10;
  states = (digest, oauth_state) ∷ [];
  generations = [];
}

abbrev no_states : States
no_states = record oauth_states { states = [] }

abbrev payload_back : Consumed
payload_back = record {
  profile_id = text "profile1";
  payload = object empty;
  created_at = 0;
  expires_at = 500;
}

abbrev state_token : Value
state_token = string (text "statetokenstatetoken")

-- The digest of a message that is longer than those with the token above.
abbrev long_digest : Text
long_digest = text "bbbbbbbbbbbbbbbbbbbbbbbbbbbbbbbbbbbbbbbbbbbbbbbbbbbbbbbbbbbbbbbb"

abbrev sized_hmac : Text → Text
sized_hmac m = if leb (length m) 53 then digest else long_digest

abbrev consume_at : Number → States → Result (Option Consumed) × States
consume_at reading =
    consume sized_hmac (λ v p. v) (λ v p. ok v) (λ v. ok v) reading state_token state_token

consumed : consume_at (natural 10) oauth_states ≡ (ok (some payload_back), no_states)
unfolding consume read_clock hash_token list_beq get retain matches_token is_current
    assert_plain_object delete
consumed = refl

-- Another state is issued, and the first token is tried again and cancelled.
abbrev calls : List Call
calls =
    issues (text "longtokenlongtokenlongtoken") (text "bindtokenbindtoken") (natural 12)
      (string (text "profile1")) (object empty) undefined
    ∷ consumes (natural 15) state_token state_token
    ∷ cancels state_token
    ∷ []

abbrev first_of : Text → ℕ
first_of [] = 0
first_of (c ∷ cs) = c

-- The first character of a hash that is there.
abbrev first_of_token : Result Token → ℕ
first_of_token (ok drawn) = first_of drawn.token_hash
first_of_token (err e) = 0

abbrev first_of_hash : Result Text → ℕ
first_of_hash (ok h) = first_of h
first_of_hash (err e) = 0

long_digest_differs :
    (drawn : Token)
    → TokenService.issue sized_hmac (text "oauth-state") (text "longtokenlongtokenlongtoken")
      ≡ ok drawn
    → hash_token sized_hmac (text "oauth-state") state_token ≡ ok drawn.token_hash
    → ⊥
unfolding hash_token TokenService.issue list_beq
long_digest_differs drawn at same =
    let hash : 98 ≡ first_of drawn.token_hash = ap first_of_token at in
    let short : 97 ≡ first_of drawn.token_hash = ap first_of_hash same in
    absurd (omega (arith, hash, short))

calls-NoneRedraws : NoneRedraws sized_hmac state_token calls
unfolding hash_token TokenService.issue
calls-NoneRedraws =
    (λ redrawn. long_digest_differs redrawn.0 redrawn.1 redrawn.2, (λ r. r, (λ r. r, tt)))

abbrev after_calls : States
after_calls = run sized_hmac (λ v p. v) (λ v p. ok v) (λ v. ok v) calls no_states

consume_once_example : (consume_at (natural 20) after_calls).0 ≢ ok (some payload_back)
consume_once_example =
    consume_once sized_hmac (λ v p. v) (λ v p. ok v) (λ v. ok v) (natural 10) (natural 20)
      state_token state_token state_token payload_back payload_back calls oauth_states no_states
      consumed calls-NoneRedraws
