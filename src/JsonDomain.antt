-- ===== src/JsonDomain.antt =====
-- lib/storage/json-domain.js: which values are JSON. Values here are trees, so the test for cycles
-- has nothing to find, and the exit frames of the loop, which serve that test, are left out.
use jumpgate_bridge.Prelude.{
  ℕ, ◌==◌, nat_eq, Bool, true, false, ◌&&◌, not, [], ◌∷◌, leb, ltb, if◌then◌else◌,
}
use jumpgate_bridge.Prelude.Text.{Text}
use jumpgate_bridge.Prelude.Outcome.{Result, ok, err, type_error, range_error}
use jumpgate_bridge.Value.{
  Value, undefined, null, other, boolean, number, string, array, object, Number, natural, fraction,
  negative, infinite, not_a_number, Items, end, item, Fields, empty, field, max_safe_integer,
}

abbrev is_high_surrogate : ℕ → Bool
is_high_surrogate c = leb 0xd800 c && leb c 0xdbff

abbrev is_low_surrogate : ℕ → Bool
is_low_surrogate c = leb 0xdc00 c && leb c 0xdfff

-- assertJsonString: no NUL, and surrogates in pairs.
unfoldable pub is_json_string : Text → Bool
is_json_string [] = true
is_json_string (c ∷ []) = not (c == 0) && not (is_high_surrogate c) && not (is_low_surrogate c)
is_json_string (c ∷ d ∷ s) =
    let after_pair = is_json_string s in
    let after_unit = is_json_string (d ∷ s) in
    if c == 0
    then false
    else if is_high_surrogate c
    then (if is_low_surrogate d then after_pair else false)
    else if is_low_surrogate c
    then false
    else after_unit

-- `negative` stands for numbers below zero that are no unsafe integers.
unfoldable pub is_json_number : Number → Bool
is_json_number (natural n) = leb n max_safe_integer
is_json_number (fraction w f) = true
is_json_number negative = true
is_json_number infinite = false
is_json_number not_a_number = false

-- validateJsonGraph
unfoldable mutual
  unfolding is_json_string is_json_number

  pub is_json : Value → Bool
  is_json undefined = false
  is_json null = true
  is_json other = false
  is_json (boolean b) = true
  is_json (number n) = is_json_number n
  is_json (string s) = is_json_string s
  is_json (array xs) = are_json xs
  is_json (object fs) = fields_are_json fs

  pub are_json : Items → Bool
  are_json end = true
  are_json (item v xs) = is_json v && are_json xs

  pub fields_are_json : Fields → Bool
  fields_are_json empty = true
  fields_are_json (field k v fs) = is_json_string k && is_json v && fields_are_json fs

-- assertJsonValue, whose result is the parse of the value's own text, so the value itself.
-- `json_bytes` is the UTF-8 length of JSON.stringify.
unfoldable pub assert_json_value : (Value → ℕ) → Value → ℕ → Result Value
unfolding is_json
assert_json_value json_bytes v maximum_bytes =
    if is_json v
    then (if ltb maximum_bytes (json_bytes v) then err range_error else ok v)
    else err type_error
