-- ===== src/RepositoryUtils/Fences.antt =====
-- The mutation fences of lib/storage/repository-utils.js: canonical decimal numerals of at most
-- 128 digits, compared as texts and counted up through BigInt.
pub mod Order
pub mod Successor
use jumpgate_bridge.Prelude.{
  ℕ, zero, suc, ◌+◌, ◌*◌, ◌-◌, ◌/◌, ◌%◌, ◌==◌, list_eq, nat_eq, Bool, true, false, ◌&&◌, ◌||◌, List,
  [], ◌∷◌, ◌++◌, leb, ltb, if◌then◌else◌, length, every,
}
use jumpgate_bridge.Prelude.Text.{Text, text}
use jumpgate_bridge.Prelude.Outcome.{Result, ok, err, type_error, provider_mutation_fence_exhausted}
use jumpgate_bridge.Value.{Value, string, undefined, object, Fields, empty, field}

unfoldable pub is_digit : ℕ → Bool
is_digit c = leb b'0' c && leb c b'9'

-- /^(?:0|[1-9][0-9]{0,127})$/
unfoldable pub is_mutation_fence : Text → Bool
unfolding is_digit every
is_mutation_fence [] = false
is_mutation_fence (c ∷ []) = is_digit c
is_mutation_fence (c ∷ s) = leb b'1' c && leb c b'9' && every is_digit s && leb (length s) 127

unfoldable pub assert_mutation_fence : Value → Result Text
unfolding is_mutation_fence
assert_mutation_fence (string s) = if is_mutation_fence s then ok s else err type_error
assert_mutation_fence _ = err type_error

-- `<` on texts: lexicographic by code units.
unfoldable pub text_lt : Text → Text → Bool
text_lt [] [] = false
text_lt [] (d ∷ t) = true
text_lt (c ∷ s) [] = false
text_lt (c ∷ s) (d ∷ t) = let rest = text_lt s t in if c == d then rest else ltb c d

-- The three results -1, 0 and 1.
pub data Comparison : Type 0 where
  less same greater : Comparison

unfoldable pub compare_mutation_fences : Text → Text → Comparison
unfolding text_lt
compare_mutation_fences left right =
    if length left == length right
    then (if left == right then same else if text_lt left right then less else greater)
    else if ltb (length left) (length right)
    then less
    else greater

-- BigInt(text) on a numeral.
unfoldable pub big_int_acc : ℕ → Text → ℕ
big_int_acc n [] = n
big_int_acc n (c ∷ s) = big_int_acc (n * 10 + (c - b'0')) s

unfoldable pub big_int : Text → ℕ
unfolding big_int_acc
big_int s = big_int_acc 0 s

-- value.toString(10), last digit first; the fuel is the number of digits at most.
unfoldable pub decimal_acc : ℕ → ℕ → Text → Text
decimal_acc zero n acc = acc
decimal_acc (suc fuel) n acc =
    let rest = decimal_acc fuel (n / 10) ((n % 10 + b'0') ∷ acc) in
    if ltb n 10 then (n + b'0') ∷ acc else rest

-- A number below 10 ^ 130 has at most 130 digits.
unfoldable pub decimal : ℕ → Text
unfolding decimal_acc
decimal n = decimal_acc 130 n []

-- MAX_MUTATION_FENCE
unfoldable pub nines : ℕ → Text
nines zero = []
nines (suc n) = b'9' ∷ nines n

unfoldable pub max_mutation_fence : Text
unfolding nines
max_mutation_fence = nines 128

unfoldable pub next_mutation_fence : Text → Result Text
unfolding is_mutation_fence decimal big_int max_mutation_fence
next_mutation_fence value =
    if is_mutation_fence value
    then (if value == max_mutation_fence
        then err provider_mutation_fence_exhausted
        else ok (decimal (big_int value + 1)))
    else err type_error
