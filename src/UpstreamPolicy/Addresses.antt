-- ===== src/UpstreamPolicy/Addresses.antt =====
-- Addresses as bytes, and the ranges that are not publicly reachable. `is_ipv4` and `is_ipv6` are
-- net.isIPv4 and net.isIPv6 of Node, and `to_lower` is String.prototype.toLowerCase.
pub mod Ranges
use Prim.Native.Nat.{bit_and}
use jumpgate_bridge.Prelude.{
  ℕ, zero, suc, ◌+◌, ◌*◌, ◌-◌, ◌/◌, ◌%◌, ◌^◌, ◌==◌, list_eq, nat_eq, Bool, true, false, ◌&&◌, ◌||◌,
  not, Option, none, some, List, [], ◌∷◌, ◌++◌, leb, ltb, if◌then◌else◌, length, every,
}
use jumpgate_bridge.Prelude.Text.{Text, text, starts_with}

-- A prefix of an address: the bytes of its first address, and the number of its bits.
pub record Range : Type 0 where
  pub bytes : List ℕ
  pub bits : ℕ

pub data Family : Type 0 where
  ipv4 ipv6 : Family

pub record Parsed : Type 0 where
  pub family : Family
  pub bytes : List ℕ

-- bytes[index], where a missing byte counts as 0 under `&`.
unfoldable pub byte_at : List ℕ → ℕ → ℕ
byte_at [] i = 0
byte_at (b ∷ bs) zero = b
byte_at (b ∷ bs) (suc i) = byte_at bs i

-- Do the first `n` bytes agree?
unfoldable pub same_bytes : ℕ → List ℕ → List ℕ → Bool
unfolding byte_at
same_bytes zero bs cs = true
same_bytes (suc n) (b ∷ bs) (c ∷ cs) = b == c && same_bytes n bs cs
same_bytes (suc n) bs cs = false

-- matchesBinaryPrefix
unfoldable pub matches_binary_prefix : List ℕ → Range → Bool
unfolding same_bytes byte_at
matches_binary_prefix bytes range =
    length bytes == length range.bytes
    && same_bytes (range.bits / 8) bytes range.bytes
    && (range.bits % 8 == 0
        || bit_and (byte_at bytes (range.bits / 8)) (255 * 2 ^ (8 - range.bits % 8) % 256)
          == bit_and (byte_at range.bytes (range.bits / 8)) (255 * 2 ^ (8 - range.bits % 8) % 256))

-- Array.prototype.some
unfoldable pub some_range : (Range → Bool) → List Range → Bool
some_range p [] = false
some_range p (r ∷ rs) = p r || some_range p rs

abbrev v4 : ℕ → ℕ → ℕ → ℕ → ℕ → Range
v4 a b c d bits = record { bytes = a ∷ b ∷ c ∷ d ∷ []; bits = bits }

-- IPV4_NON_GLOBAL_RANGES
unfoldable pub ipv4_non_global_ranges : List Range
ipv4_non_global_ranges =
    v4 0 0 0 0 8
    ∷ v4 10 0 0 0 8
    ∷ v4 100 64 0 0 10
    ∷ v4 127 0 0 0 8
    ∷ v4 169 254 0 0 16
    ∷ v4 172 16 0 0 12
    ∷ v4 192 0 0 0 24
    ∷ v4 192 0 2 0 24
    ∷ v4 192 88 99 0 24
    ∷ v4 192 168 0 0 16
    ∷ v4 198 18 0 0 15
    ∷ v4 198 51 100 0 24
    ∷ v4 203 0 113 0 24
    ∷ v4 224 0 0 0 4
    ∷ v4 240 0 0 0 4
    ∷ []

-- The bytes of eight words.
words : ℕ → ℕ → ℕ → ℕ → ℕ → ℕ → ℕ → ℕ → List ℕ
words a b c d e f g h =
    a / 256
    ∷ a % 256
    ∷ b / 256
    ∷ b % 256
    ∷ c / 256
    ∷ c % 256
    ∷ d / 256
    ∷ d % 256
    ∷ e / 256
    ∷ e % 256
    ∷ f / 256
    ∷ f % 256
    ∷ g / 256
    ∷ g % 256
    ∷ h / 256
    ∷ h % 256
    ∷ []

v6 : ℕ → ℕ → ℕ → ℕ → ℕ → ℕ → ℕ → ℕ → ℕ → Range
unfolding words
v6 a b c d e f g h bits = record { bytes = words a b c d e f g h; bits = bits }

-- IPV4_MAPPED_IPV6_RANGE
unfoldable pub ipv4_mapped_ipv6_range : Range
unfolding v6
ipv4_mapped_ipv6_range = v6 0 0 0 0 0 0xffff 0 0 96

-- IPV6_GLOBAL_UNICAST_RANGE
unfoldable pub ipv6_global_unicast_range : Range
unfolding v6
ipv6_global_unicast_range = v6 0x2000 0 0 0 0 0 0 0 3

-- IPV6_NON_GLOBAL_RANGES
unfoldable pub ipv6_non_global_ranges : List Range
unfolding v6
ipv6_non_global_ranges =
    v6 0 0 0 0 0 0 0 0 96
    ∷ v6 0 0 0 0 0xffff 0 0 0 96
    ∷ v6 0x64 0xff9b 0 0 0 0 0 0 96
    ∷ v6 0x64 0xff9b 1 0 0 0 0 0 48
    ∷ v6 0x100 0 0 0 0 0 0 0 64
    ∷ v6 0x100 0 0 1 0 0 0 0 64
    ∷ v6 0x2001 0 0 0 0 0 0 0 23
    ∷ v6 0x2001 0xdb8 0 0 0 0 0 0 32
    ∷ v6 0x2002 0 0 0 0 0 0 0 16
    ∷ v6 0x2d00 0 0 0 0 0 0 0 8
    ∷ v6 0x2e00 0 0 0 0 0 0 0 7
    ∷ v6 0x3000 0 0 0 0 0 0 0 4
    ∷ v6 0x3ffe 0 0 0 0 0 0 0 16
    ∷ v6 0x3fff 0 0 0 0 0 0 0 20
    ∷ v6 0x5f00 0 0 0 0 0 0 0 16
    ∷ v6 0xfc00 0 0 0 0 0 0 0 7
    ∷ v6 0xfe80 0 0 0 0 0 0 0 10
    ∷ v6 0xfec0 0 0 0 0 0 0 0 10
    ∷ v6 0xff00 0 0 0 0 0 0 0 8
    ∷ []

unfoldable pub is_global_ipv4_bytes : List ℕ → Bool
unfolding some_range matches_binary_prefix ipv4_non_global_ranges
is_global_ipv4_bytes bytes = not (some_range (matches_binary_prefix bytes) ipv4_non_global_ranges)

-- bytes.subarray(n)
unfoldable pub drop : ℕ → List ℕ → List ℕ
drop zero bs = bs
drop (suc n) [] = []
drop (suc n) (b ∷ bs) = drop n bs

is_global_ipv6_bytes : List ℕ → Bool
unfolding is_global_ipv4_bytes matches_binary_prefix ipv4_mapped_ipv6_range
    ipv6_global_unicast_range ipv6_non_global_ranges some_range drop
is_global_ipv6_bytes bytes =
    if matches_binary_prefix bytes ipv4_mapped_ipv6_range
    then is_global_ipv4_bytes (drop 12 bytes)
    else matches_binary_prefix bytes ipv6_global_unicast_range
      && not (some_range (matches_binary_prefix bytes) ipv6_non_global_ranges)

unfoldable pub is_global_parsed_address : Parsed → Bool
unfolding is_global_ipv4_bytes is_global_ipv6_bytes
is_global_parsed_address p = elim p.family [
  | ipv4 ↦ is_global_ipv4_bytes p.bytes
  | ipv6 ↦ is_global_ipv6_bytes p.bytes
]
