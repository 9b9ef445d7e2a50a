-- ===== src/RepositoryUtils.antt =====
-- lib/storage/repository-utils.js: the checks on the arguments of the repositories. A check
-- returns the accepted value, or the error that it throws.
pub mod Fences
pub mod Tests
use jumpgate_bridge.Prelude.{
  ℕ, zero, suc, ◌+◌, ◌-◌, ◌==◌, list_eq, nat_eq, Bool, true, false, ◌&&◌, ◌||◌, not, Option, none,
  some, List, [], ◌∷◌, ◌++◌, leb, ltb, if◌then◌else◌, length, every, ◌≡◌, refl, ◌≤◌, ◌<◌, arith,
}
use jumpgate_bridge.Prelude.Text.{Text, text, NulFree}
use jumpgate_bridge.Prelude.Outcome.{Result, ok, err, type_error, range_error}
use jumpgate_bridge.Value.{
  Value, undefined, null, other, boolean, number, string, array, object, Number, natural, Fields,
  empty, field, max_safe_integer, safe_natural,
}

-- MAX_DATE_MS
abbrev pub max_date_ms : ℕ
max_date_ms = 8640000000000000

-- [A-Za-z0-9_-]
unfoldable pub is_word : ℕ → Bool
is_word c =
    (leb b'A' c && leb c b'Z')
    || (leb b'a' c && leb c b'z')
    || (leb b'0' c && leb c b'9')
    || c == b'_'
    || c == b'-'

-- /^[A-Za-z0-9_-]{8,128}$/
unfoldable pub is_identifier : Text → Bool
is_identifier s = leb 8 (length s) && leb (length s) 128 && every is_word s

unfoldable pub assert_identifier : Value → Result Text
assert_identifier (string s) = if is_identifier s then ok s else err type_error
assert_identifier _ = err type_error

unfoldable pub assert_plain_object : Value → Result Fields
assert_plain_object (object fs) = ok fs
assert_plain_object _ = err type_error

-- [\u0000-\u001f\u007f]
unfoldable pub is_control : ℕ → Bool
is_control c = leb c 0x1f || c == 0x7f

-- The white space and line terminators that String.prototype.trim removes.
unfoldable pub is_space : ℕ → Bool
is_space c =
    (leb 9 c && leb c 13)
    || c == 32
    || c == 0xa0
    || c == 0x1680
    || (leb 0x2000 c && leb c 0x200a)
    || c == 0x2028
    || c == 0x2029
    || c == 0x202f
    || c == 0x205f
    || c == 0x3000
    || c == 0xfeff

-- String.prototype.trimEnd: what is left of a text whose rest is trimmed already.
trim_cons : ℕ → Text → Text
trim_cons c [] = if is_space c then [] else c ∷ []
trim_cons c (d ∷ s) = c ∷ d ∷ s

unfoldable pub trim_end : Text → Text
unfolding trim_cons is_space
trim_end [] = []
trim_end (c ∷ s) = trim_cons c (trim_end s)

unfoldable pub trim_start : Text → Text
unfolding is_space
trim_start [] = []
trim_start (c ∷ s) = let rest = trim_start s in if is_space c then rest else c ∷ s

unfoldable pub trim : Text → Text
unfolding trim_start trim_end
trim s = trim_start (trim_end s)

-- The options of assertBoundedString; a program that passes no pattern accepts every text.
pub record StringOptions : Type 0 where
  pub minimum_length : ℕ
  pub trimmed : Bool
  pub pattern_test : Text → Bool

abbrev pub default_string_options : StringOptions
default_string_options = record { minimum_length = 1; trimmed = true; pattern_test = λ _. true }

unfoldable pub assert_bounded_string : Value → ℕ → StringOptions → Result Text
unfolding every trim is_control
assert_bounded_string (string s) maximum o =
    if ltb (length s) o.minimum_length
      || ltb maximum (length s)
      || (o.trimmed && not (trim s == s))
      || not (every (λ c. not (is_control c)) s)
    then err type_error
    else if not (o.pattern_test s)
    then err type_error
    else ok s
assert_bounded_string _ maximum o = err type_error

unfoldable pub assert_display_name : Value → Result Text
unfolding every trim is_control
assert_display_name undefined = ok []
assert_display_name (string s) =
    if ltb 128 (length s) || not (every (λ c. not (is_control c)) s)
    then err type_error
    else ok (trim s)
assert_display_name _ = err type_error

unfoldable pub assert_revision : Value → Bool → Result (Option ℕ)
unfolding safe_natural
assert_revision undefined true = ok none
assert_revision v allow_undefined = elim (safe_natural v) [
  | none ↦ err type_error
  | some n ↦ ok (some n)
]

unfoldable pub assert_non_negative_integer : Value → Result ℕ
unfolding safe_natural
assert_non_negative_integer v = elim (safe_natural v) [ none ↦ err type_error | some n ↦ ok n ]

unfoldable pub assert_positive_integer : Value → ℕ → Result ℕ
unfolding safe_natural
assert_positive_integer v maximum = elim (safe_natural v) [
  | none ↦ err type_error
  | some n ↦ if ltb n 1 || ltb maximum n then err type_error else ok n
]

-- The number that a text or a number stands for; `date_parse` is Date.parse.
numeric : (Text → Number) → Value → Value
numeric date_parse (string s) = number (date_parse s)
numeric date_parse v = v

unfoldable pub parse_timestamp : (Text → Number) → Value → Result ℕ
unfolding safe_natural numeric
parse_timestamp date_parse v = elim (safe_natural (numeric date_parse v)) [
  | none ↦ err type_error
  | some n ↦ if ltb max_date_ms n then err type_error else ok n
]

-- A reading of the clock is a number already.
unfoldable pub read_clock : Number → Result ℕ
unfolding parse_timestamp
read_clock reading = parse_timestamp (λ s. reading) (number reading)

-- Both arguments are safe integers where the repositories call it.
unfoldable pub add_duration : ℕ → ℕ → Result ℕ
add_duration start duration =
    if ltb max_date_ms start || ltb duration 1 || ltb max_date_ms (start + duration)
    then err type_error
    else ok (start + duration)
