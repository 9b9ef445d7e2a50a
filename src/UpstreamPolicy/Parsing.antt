-- ===== src/UpstreamPolicy/Parsing.antt =====
-- stripIpv6Brackets, parseIpv4Bytes, parseIpv6Words, parseIpv6Bytes, parseIpAddress and
-- isGlobalUnicastAddress. `is_ipv4` and `is_ipv6` are net.isIPv4 and net.isIPv6 of Node, and
-- `to_lower` is String.prototype.toLowerCase.
use jumpgate_bridge.Prelude.{
  ℕ, zero, suc, ◌+◌, ◌*◌, ◌-◌, ◌/◌, ◌%◌, ◌==◌, list_eq, nat_eq, Bool, false, ◌&&◌, ◌||◌, Option,
  none, some, List, [], ◌∷◌, ◌++◌, leb, ltb, if◌then◌else◌, length, every,
}
use jumpgate_bridge.Prelude.Text.{Text}
use jumpgate_bridge.UpstreamPolicy.Addresses.{Parsed, ipv4, ipv6, byte_at, is_global_parsed_address}

-- String.prototype.split on one code unit.
prepend : ℕ → List Text → List Text
prepend c [] = (c ∷ []) ∷ []
prepend c (p ∷ ps) = (c ∷ p) ∷ ps

unfoldable pub split : ℕ → Text → List Text
unfolding prepend
split sep [] = [] ∷ []
split sep (c ∷ s) = let rest = split sep s in if c == sep then [] ∷ rest else prepend c rest

-- String.prototype.includes, for one code unit.
unfoldable pub includes : ℕ → Text → Bool
includes c [] = false
includes c (d ∷ s) = d == c || includes c s

-- The text before a final "]".
before_bracket : Text → Option Text
before_bracket [] = none
before_bracket (c ∷ []) = if c == b']' then some [] else none
before_bracket (c ∷ d ∷ s) = elim (before_bracket (d ∷ s)) [ none ↦ none | some t ↦ some (c ∷ t) ]

unfoldable pub strip_ipv6_brackets : Text → Text
unfolding before_bracket
strip_ipv6_brackets [] = []
strip_ipv6_brackets (c ∷ s) =
    if c == b'[' then elim (before_bracket s) [ none ↦ c ∷ s | some t ↦ t ] else c ∷ s

-- Number(part) on decimal digits.
decimal_acc : ℕ → Text → ℕ
decimal_acc n [] = n
decimal_acc n (c ∷ s) = decimal_acc (n * 10 + (c - b'0')) s

-- Uint8Array.from
bytes_of : List Text → List ℕ
unfolding decimal_acc
bytes_of [] = []
bytes_of (p ∷ ps) = (decimal_acc 0 p % 256) ∷ bytes_of ps

is_hex_digit : ℕ → Bool
is_hex_digit c =
    (leb b'0' c && leb c b'9') || (leb b'a' c && leb c b'f') || (leb b'A' c && leb c b'F')

hex_value : ℕ → ℕ
hex_value c = if leb c b'9' then c - b'0' else if leb c b'F' then c - b'A' + 10 else c - b'a' + 10

hex_acc : ℕ → Text → ℕ
unfolding hex_value
hex_acc n [] = n
hex_acc n (c ∷ s) = hex_acc (n * 16 + hex_value c) s

-- /^[a-f0-9]{1,4}$/i
unfoldable pub is_hex_word : Text → Bool
unfolding is_hex_digit every
is_hex_word s = leb 1 (length s) && leb (length s) 4 && every is_hex_digit s

zeros : ℕ → List ℕ
zeros zero = []
zeros (suc n) = 0 ∷ zeros n

-- The two bytes of each word.
unfoldable pub bytes_of_words : List ℕ → List ℕ
bytes_of_words [] = []
bytes_of_words (w ∷ ws) = (w / 256 % 256) ∷ (w % 256) ∷ bytes_of_words ws

-- The texts before and after the first "::".
unfoldable pub compression : Text → Option (Text × Text)
compression [] = none
compression (c ∷ []) = none
compression (c ∷ d ∷ s) =
    let rest = compression (d ∷ s) in
    if c == b':' && d == b':'
    then some ([], s)
    else elim rest [ none ↦ none | some (left, right) ↦ some (c ∷ left, right) ]

module _ (is_ipv4 is_ipv6 : Text → Bool) where
  unfoldable pub parse_ipv4_bytes : Text → Option (List ℕ)
  unfolding bytes_of split
  parse_ipv4_bytes address = if is_ipv4 address then some (bytes_of (split b'.' address)) else none

  word_of_part : Text → Option (List ℕ)
  unfolding parse_ipv4_bytes is_hex_word hex_acc byte_at includes
  word_of_part part =
      if includes b'.' part
      then elim (parse_ipv4_bytes part) [
        | none ↦ none
        | some bs ↦
            some ((byte_at bs 0 * 256 + byte_at bs 1) ∷ (byte_at bs 2 * 256 + byte_at bs 3) ∷ [])
      ]
      else if is_hex_word part
      then some (hex_acc 0 part ∷ [])
      else none

  words_of_parts : List Text → Option (List ℕ)
  unfolding word_of_part
  words_of_parts [] = some []
  words_of_parts (p ∷ ps) = elim (word_of_part p) [
    | none ↦ none
    | some ws ↦ elim (words_of_parts ps) [ none ↦ none | some vs ↦ some (ws ++ vs) ]
  ]

  unfoldable pub parse_ipv6_words : Text → Option (List ℕ)
  unfolding words_of_parts split
  parse_ipv6_words [] = some []
  parse_ipv6_words (c ∷ s) = words_of_parts (split b':' (c ∷ s))

  fill_words : List ℕ → List ℕ → Option (List ℕ)
  unfolding zeros
  fill_words left right =
      if ltb (length left + length right) 8
      then some (left ++ (zeros (8 - length left - length right) ++ right))
      else none

  ipv6_words : Text → Option (List ℕ)
  unfolding parse_ipv6_words fill_words compression
  ipv6_words address = elim (compression address) [
    | none ↦ elim (parse_ipv6_words address) [
      | none ↦ none
      | some ws ↦ if length ws == 8 then some ws else none
    ]
    | some (left, right) ↦ elim (parse_ipv6_words left) [
      | none ↦ none
      | some ls ↦ elim (parse_ipv6_words right) [ none ↦ none | some rs ↦ fill_words ls rs ]
    ]
  ]

  unfoldable pub parse_ipv6_bytes : Text → Option (List ℕ)
  unfolding ipv6_words bytes_of_words
  parse_ipv6_bytes address =
      if is_ipv6 address
      then elim (ipv6_words address) [ none ↦ none | some ws ↦ some (bytes_of_words ws) ]
      else none

  -- parseIpAddress, on a text that has been stripped and lowered.
  unfoldable pub parse_normalized : Text → Option Parsed
  unfolding parse_ipv4_bytes parse_ipv6_bytes includes
  parse_normalized address =
      if address == [] || includes b'%' address then none else elim (parse_ipv4_bytes address) [
        | some bs ↦ some (record { family = ipv4; bytes = bs })
        | none ↦ elim (parse_ipv6_bytes address) [
          | some bs ↦ some (record { family = ipv6; bytes = bs })
          | none ↦ none
        ]
      ]

  unfoldable pub parse_ip_address : (Text → Text) → Text → Option Parsed
  unfolding strip_ipv6_brackets parse_normalized
  parse_ip_address to_lower address = parse_normalized (to_lower (strip_ipv6_brackets address))

  unfoldable pub is_global_unicast_address : (Text → Text) → Text → Bool
  unfolding parse_ip_address is_global_parsed_address
  is_global_unicast_address to_lower address = elim (parse_ip_address to_lower address) [
    | none ↦ false
    | some p ↦ is_global_parsed_address p
  ]
