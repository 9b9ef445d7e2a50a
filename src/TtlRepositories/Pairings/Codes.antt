-- ===== src/TtlRepositories/Pairings/Codes.antt =====
-- PAIR_CODE_ALPHABET, normalizePairCode, formatPairCode and _issueUserCode. `to_upper` is
-- String.prototype.toUpperCase.
pub mod RoundTrip
use jumpgate_bridge.Prelude.{
  ℕ, zero, suc, ◌%◌, ◌==◌, nat_eq, Bool, false, true, ◌&&◌, ◌||◌, not, List, [], ◌∷◌, ◌++◌, leb,
  if◌then◌else◌, length, every,
}
use jumpgate_bridge.Prelude.Text.{Text, text}
use jumpgate_bridge.Prelude.Map.{Map, has}
use jumpgate_bridge.Prelude.Outcome.{Result, ok, err, type_error, pairing_code_collision}
use jumpgate_bridge.Prelude.{list_eq}
use jumpgate_bridge.Value.{Value, string}
use jumpgate_bridge.RepositoryUtils.{is_space}
use jumpgate_bridge.TokenService.{hash_opaque}

abbrev pub pair_code_alphabet : Text
pair_code_alphabet = text "ABCDEFGHJKLMNPQRSTUVWXYZ23456789"

-- PAIR_CODE_ALPHABET.includes(char)
unfoldable pub in_alphabet : Text → ℕ → Bool
in_alphabet [] c = false
in_alphabet (d ∷ s) c = d == c || in_alphabet s c

-- replace(/[\u2010-\u2015]/g, "-")
unfoldable pub plain_dash : Text → Text
plain_dash [] = []
plain_dash (c ∷ s) = (if leb 0x2010 c && leb c 0x2015 then b'-' else c) ∷ plain_dash s

-- replace(/[\s-]/g, "")
unfoldable pub strip : Text → Text
unfolding is_space
strip [] = []
strip (c ∷ s) = let rest = strip s in if is_space c || c == b'-' then rest else c ∷ rest

unfoldable pub is_pair_code : Text → Bool
unfolding every in_alphabet
is_pair_code s = length s == 8 && every (in_alphabet pair_code_alphabet) s

unfoldable pub normalize_pair_code : (Text → Text) → Value → Result Text
unfolding strip plain_dash is_pair_code
normalize_pair_code to_upper (string s) =
    if is_pair_code (strip (plain_dash (to_upper s)))
    then ok (strip (plain_dash (to_upper s)))
    else err type_error
normalize_pair_code to_upper _ = err type_error

-- value.slice(0, 4) + "-" + value.slice(4), on any text.
unfoldable pub format_pair_code : Text → Text
format_pair_code (a ∷ b ∷ c ∷ d ∷ s) = a ∷ b ∷ c ∷ d ∷ b'-' ∷ s
format_pair_code s = s ++ text "-"

-- PAIR_CODE_ALPHABET[n]; `n` is below 32 where it is used.
unfoldable pub letter_at : Text → ℕ → ℕ
letter_at [] n = 0
letter_at (c ∷ s) zero = c
letter_at (c ∷ s) (suc n) = letter_at s n

-- The code of eight random bytes; `byte & 31` is the remainder by 32.
unfoldable pub code_of_bytes : List ℕ → Text
unfolding letter_at
code_of_bytes [] = []
code_of_bytes (byte ∷ bytes) = letter_at pair_code_alphabet (byte % 32) ∷ code_of_bytes bytes

-- _issueUserCode, with the attempts that are left and the bytes that they draw, the last attempt
-- first.
unfoldable pub issue_user_code : (Text → Text) → ℕ → (ℕ → List ℕ) → Map Text Text → Result Text
unfolding code_of_bytes
issue_user_code hmac zero random_bytes user_index = err pairing_code_collision
issue_user_code hmac (suc attempts) random_bytes user_index =
    if not (length (random_bytes attempts) == 8)
    then err type_error
    else elim (hash_opaque hmac (text "pair-user") (string (code_of_bytes (random_bytes attempts)))
        8) [
          | err e ↦ err e
          | ok h ↦ elim (has user_index h) [
            | true ↦ issue_user_code hmac attempts random_bytes user_index
            | false ↦ ok (code_of_bytes (random_bytes attempts))
          ]
        ]
