-- ===== src/TtlRepositories/Pairings/Tests.antt =====
-- The theorems on pairings at concrete inputs.
use jumpgate_bridge.Prelude.{ℕ, list_eq, nat_eq, ◌≡◌, refl, List, [], ◌∷◌, list_beq}
use jumpgate_bridge.Prelude.Text.{Text, text}
use jumpgate_bridge.Prelude.Map.{has}
use jumpgate_bridge.Prelude.Outcome.{ok}
use jumpgate_bridge.Value.{string}
use jumpgate_bridge.TokenService.{hash_opaque}
use jumpgate_bridge.TtlRepositories.Pairings.Codes.{
  issue_user_code, normalize_pair_code, format_pair_code,
}
use jumpgate_bridge.TtlRepositories.Pairings.Codes.RoundTrip.{normalize_pair_code-issue_user_code}

-- Every message has the same digest here: 64 times the digit a.
abbrev digest : Text
digest = text "aaaaaaaaaaaaaaaaaaaaaaaaaaaaaaaaaaaaaaaaaaaaaaaaaaaaaaaaaaaaaaaa"

abbrev constant_hmac : Text → Text
constant_hmac m = digest

abbrev bytes : ℕ → List ℕ
bytes n = 0 ∷ 1 ∷ 33 ∷ 2 ∷ 30 ∷ 31 ∷ 255 ∷ 7 ∷ []

abbrev code : Text
code = text "ABBC899H"

issued : issue_user_code constant_hmac 8 bytes [] ≡ ok code
unfolding issue_user_code hash_opaque has list_beq
issued = refl

normalize_pair_code-issue_user_code_example :
    normalize_pair_code (λ s. s) (string (format_pair_code code)) ≡ ok code
normalize_pair_code-issue_user_code_example =
    normalize_pair_code-issue_user_code constant_hmac (λ s. s) 8 bytes [] code (λ s h. refl) issued
