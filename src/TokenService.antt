-- ===== src/TokenService.antt =====
-- lib/storage/token-service.js: opaque tokens and their keyed hashes. `hmac` is HMAC-SHA256 under
-- the service's pepper, in hexadecimal, of node:crypto; a fresh token is the base64url text of
-- random bytes, an argument of `issue`.
use jumpgate_bridge.Prelude.{
  ℕ, ◌==◌, list_eq, nat_eq, Bool, false, ◌&&◌, ◌||◌, not, ◌∷◌, ◌++◌, leb, ltb, if◌then◌else◌,
  length, every,
}
use jumpgate_bridge.Prelude.Text.{Text, text}
use jumpgate_bridge.Prelude.Outcome.{Result, ok, err, type_error}
use jumpgate_bridge.Value.{Value, string}
use jumpgate_bridge.RepositoryUtils.{is_word, is_control, trim}

-- /^[A-Za-z0-9_-]{16,512}$/
unfoldable pub is_token : Text → Bool
unfolding is_word every
is_token s = leb 16 (length s) && leb (length s) 512 && every is_word s

unfoldable pub assert_opaque_value : Value → ℕ → Result Text
unfolding trim is_control every
assert_opaque_value (string s) maximum =
    if length s == 0
      || ltb maximum (length s)
      || not (trim s == s)
      || not (every (λ d. not (is_control d)) s)
    then err type_error
    else ok s
assert_opaque_value _ maximum = err type_error

-- /^[a-f0-9]{64}$/
unfoldable pub is_hash : Text → Bool
unfolding every
is_hash s =
    length s == 64 && every (λ c. (leb b'a' c && leb c b'f') || (leb b'0' c && leb c b'9')) s

pub record Token : Type 0 where
  pub token : Text
  pub token_hash : Text

module _ (hmac : Text → Text) where
  -- _hash. The purposes are literals of the program that satisfy assertPurpose.
  unfoldable pub hash : Text → Text → Text
  hash purpose value = hmac (text "jumpgate-token:v1" ++ (0 ∷ (purpose ++ (0 ∷ value))))

  unfoldable pub hash_token : Text → Value → Result Text
  unfolding assert_opaque_value is_token hash
  hash_token purpose token = elim (assert_opaque_value token 512) [
    | err e ↦ err e
    | ok value ↦ if is_token value then ok (hash purpose value) else err type_error
  ]

  unfoldable pub hash_opaque : Text → Value → ℕ → Result Text
  unfolding assert_opaque_value hash
  hash_opaque purpose value maximum = elim (assert_opaque_value value maximum) [
    | err e ↦ err e
    | ok accepted ↦ ok (hash purpose accepted)
  ]

  unfoldable pub issue : Text → Text → Result Token
  unfolding hash_token
  issue purpose random = elim (hash_token purpose (string random)) [
    | err e ↦ err e
    | ok h ↦ ok (record { token = random; token_hash = h })
  ]

  unfoldable pub matches_token : Text → Value → Text → Bool
  unfolding hash_token is_hash
  matches_token purpose token expected_hash =
      if is_hash expected_hash
      then elim (hash_token purpose token) [ err e ↦ false | ok actual ↦ actual == expected_hash ]
      else false
