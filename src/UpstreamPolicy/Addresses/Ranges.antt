-- ===== src/UpstreamPolicy/Addresses/Ranges.antt =====
-- The ranges as conditions on the four numbers of an address.
use Prim.Native.Nat.{bit_and}
use jumpgate_bridge.Prelude.{
  ℕ, zero, suc, ◌<◌, ◌==◌, nat_eq, ◌≡◌, refl, Bool, true, false, ◌&&◌, ◌||◌, not, List, [], ◌∷◌,
  leb, arith,
}
use jumpgate_bridge.UpstreamPolicy.Addresses.{
  is_global_ipv4_bytes, is_global_parsed_address, drop, ipv4, ipv6,
}

-- Over a small range, every value can be tried.
all_below : ℕ → (ℕ → Bool) → Bool
all_below zero p = true
all_below (suc n) p = p n && all_below n p

all_below_lem : (n : ℕ) (p : ℕ → Bool) (x : ℕ) → all_below n p ≡ true → x < n → p x ≡ true
unfolding all_below
all_below_lem zero p x h lt = elim lt [ ]
all_below_lem (suc n) p x h lt = ground (arith, all_below_lem n p x)

same_bool : Bool → Bool → Bool
same_bool true b = b
same_bool false b = not b

same_bool_eq : (a b : Bool) → same_bool a b ≡ true → a ≡ b
unfolding same_bool
same_bool_eq true true h = refl
same_bool_eq true false h = cc
same_bool_eq false true h = cc
same_bool_eq false false h = refl

-- The masks that the ranges use, over a byte.
module _ (x : ℕ) (byte : x < 256) where
  mask_shared : (bit_and x 192 == 64) ≡ (leb 64 x && leb x 127)
  unfolding all_below same_bool
  mask_shared =
      same_bool_eq _ _ (
        all_below_lem 256 (λ y. same_bool (bit_and y 192 == 64) (leb 64 y && leb y 127)) x refl
          byte)

  mask_private : (bit_and x 240 == 16) ≡ (leb 16 x && leb x 31)
  unfolding all_below same_bool
  mask_private =
      same_bool_eq _ _ (
        all_below_lem 256 (λ y. same_bool (bit_and y 240 == 16) (leb 16 y && leb y 31)) x refl byte)

  mask_benchmark : (bit_and x 254 == 18) ≡ (leb 18 x && leb x 19)
  unfolding all_below same_bool
  mask_benchmark =
      same_bool_eq _ _ (
        all_below_lem 256 (λ y. same_bool (bit_and y 254 == 18) (leb 18 y && leb y 19)) x refl byte)

  mask_multicast : (bit_and x 240 == 224) ≡ (leb 224 x && leb x 239)
  unfolding all_below same_bool
  mask_multicast = same_bool_eq _ _ (
      all_below_lem 256 (λ y. same_bool (bit_and y 240 == 224) (leb 224 y && leb y 239)) x refl
        byte)

  mask_reserved : (bit_and x 240 == 240) ≡ (leb 240 x)
  unfolding all_below same_bool
  mask_reserved =
      same_bool_eq _ _
        (all_below_lem 256 (λ y. same_bool (bit_and y 240 == 240) (leb 240 y)) x refl byte)

-- The addresses of the Internet that may be contacted, in words.
abbrev pub is_public : ℕ → ℕ → ℕ → ℕ → Bool
is_public a b c d = not (
    a == 0
    || a == 10
    || (a == 100 && leb 64 b && leb b 127)
    || a == 127
    || (a == 169 && b == 254)
    || (a == 172 && leb 16 b && leb b 31)
    || (a == 192 && b == 0 && (c == 0 || c == 2))
    || (a == 192 && b == 88 && c == 99)
    || (a == 192 && b == 168)
    || (a == 198 && leb 18 b && leb b 19)
    || (a == 198 && b == 51 && c == 100)
    || (a == 203 && b == 0 && c == 113)
    || leb 224 a)

-- The test by binary prefixes on the four bytes of an address.
is_global_ipv4_bytes-is_public :
    (a b c d : ℕ)
    → a < 256
    → b < 256
    → is_global_ipv4_bytes (a ∷ b ∷ c ∷ d ∷ []) ≡ is_public a b c d
unfolding is_global_ipv4_bytes
is_global_ipv4_bytes-is_public a b c d ha hb =
    rw
      (
        mask_shared b hb,
        mask_private b hb,
        mask_benchmark b hb,
        mask_multicast a ha,
        mask_reserved a ha,
      )
      (ground arith)

abbrev mapped : ℕ → ℕ → ℕ → ℕ → List ℕ
mapped a b c d = 0 ∷ 0 ∷ 0 ∷ 0 ∷ 0 ∷ 0 ∷ 0 ∷ 0 ∷ 0 ∷ 0 ∷ 255 ∷ 255 ∷ a ∷ b ∷ c ∷ d ∷ []

-- An IPv4 address passes exactly if it lies outside the special ranges, named by the numbers in its
-- first three places; and it passes in the form that IPv6 maps it to exactly if it passes itself.
pub is_global_parsed_address-is_public :
    (a b c d : ℕ)
    → a < 256
    → b < 256
    → (is_global_parsed_address (record { family = ipv4; bytes = a ∷ b ∷ c ∷ d ∷ [] })
        ≡ is_public a b c d)
      × (is_global_parsed_address (record { family = ipv6; bytes = mapped a b c d })
          ≡ is_public a b c d)
unfolding is_global_parsed_address drop
is_global_parsed_address-is_public a b c d ha hb =
    (is_global_ipv4_bytes-is_public a b c d ha hb, is_global_ipv4_bytes-is_public a b c d ha hb)
