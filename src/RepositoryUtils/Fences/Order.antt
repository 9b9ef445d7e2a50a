-- ===== src/RepositoryUtils/Fences/Order.antt =====
-- Fences compare as the numbers that they write.
use jumpgate_bridge.Prelude.{
  ℕ, zero, suc, ◌+◌, ◌*◌, ◌-◌, ◌≤◌, ◌<◌, ◌≡◌, ◌≢◌, refl, ap, sym, inl, inr, ◌==◌, list_eq, nat_eq,
  Bool, true, false, [], ◌∷◌, ltb, length, every, arith, if◌then◌else◌, Bool-cases,
}
use jumpgate_bridge.Prelude.Text.{Text, text_iff}
use jumpgate_bridge.RepositoryUtils.Fences.{
  is_digit, is_mutation_fence, text_lt, Comparison, less, same, greater, compare_mutation_fences,
  big_int_acc, big_int,
}

unfoldable pub pow10 : ℕ → ℕ
pow10 zero = 1
pow10 (suc n) = 10 * pow10 n

-- The number of a numeral by the weight of each place.
pub place_value : Text → ℕ
place_value [] = 0
place_value (c ∷ s) = (c - b'0') * pow10 (length s) + place_value s

big_int_acc_lem : (n : ℕ) (s : Text) → big_int_acc n s ≡ n * pow10 (length s) + place_value s
unfolding big_int_acc pow10 place_value
big_int_acc_lem n [] = omega arith
big_int_acc_lem n (c ∷ s) = omega (arith, big_int_acc_lem (n * 10 + (c - b'0')) s)

pub big_int_lem : (s : Text) → big_int s ≡ place_value s
unfolding big_int
big_int_lem s = omega (arith, big_int_acc_lem 0 s)

pub pow10_pos : (n : ℕ) → 0 < pow10 n
unfolding pow10
pow10_pos zero = omega arith
pow10_pos (suc n) = omega (arith, pow10_pos n)

digit_range : (c : ℕ) → is_digit c ≡ true → (b'0' ≤ c) × (c ≤ b'9')
unfolding is_digit
digit_range c h = ground arith

every_head : (c : ℕ) (s : Text) → every is_digit (c ∷ s) ≡ true → is_digit c ≡ true
unfolding every
every_head c s h = ground arith

every_tail : (c : ℕ) (s : Text) → every is_digit (c ∷ s) ≡ true → every is_digit s ≡ true
unfolding every
every_tail c s h = ground arith

mul_lt : (k m p : ℕ) → k < m → k * p + p ≤ m * p
mul_lt k m p h = grind arith

pub place_value-lt : (s : Text) → every is_digit s ≡ true → place_value s < pow10 (length s)
unfolding pow10 place_value every
place_value-lt [] h = omega arith
place_value-lt (c ∷ s) h = grind (
  arith,
  digit_range c (every_head c s h),
  place_value-lt s (every_tail c s h),
  mul_lt (c - b'0') 10 (pow10 (length s)),
)

length-pow10 : (s t : Text) → length s ≡ length t → pow10 (length s) ≡ pow10 (length t)
length-pow10 s t h = ap pow10 h

-- Between numerals of one length the order of texts is that of numbers.
text_lt_sound :
    (s t : Text)
    → every is_digit s ≡ true
    → every is_digit t ≡ true
    → length s ≡ length t
    → text_lt s t ≡ true
    → place_value s < place_value t
unfolding text_lt place_value
text_lt_sound [] [] hs ht n h = cc
text_lt_sound [] (d ∷ t) hs ht n h = absurd (omega arith)
text_lt_sound (c ∷ s) [] hs ht n h = absurd (omega arith)
text_lt_sound (c ∷ s) (d ∷ t) hs ht n h =
    let same_length : length s ≡ length t = omega arith in
    let weight = ap pow10 same_length in
    let hc = digit_range c (every_head c s hs) in
    let hd = digit_range d (every_head d t ht) in
    let below = place_value-lt s (every_tail c s hs) in
    elim (Bool-cases (c == d)) [
      | inl e ↦
          let ih =
            text_lt_sound s t (every_tail c s hs) (every_tail d t ht) same_length (ground arith) in
          let same_digit : c ≡ d = ground arith in
          let term : (c - b'0') * pow10 (length s) ≡ (d - b'0') * pow10 (length t) =
            rw (same_digit, weight) in
          omega arith
      | inr e ↦
          let c-lt : c < d = ground arith in
          let gap = mul_lt (c - b'0') (d - b'0') (pow10 (length t)) (omega arith) in
          let term : (c - b'0') * pow10 (length s) ≡ (c - b'0') * pow10 (length t) = rw weight in
          omega arith
    ]

text_lt_total :
    (s t : Text) → length s ≡ length t → s ≢ t → text_lt s t ≡ false → text_lt t s ≡ true
unfolding text_lt
text_lt_total [] [] n ne h = absurd (ne refl)
text_lt_total [] (d ∷ t) n ne h = absurd (omega arith)
text_lt_total (c ∷ s) [] n ne h = absurd (omega arith)
text_lt_total (c ∷ s) (d ∷ t) n ne h = elim (Bool-cases (c == d)) [
  | inl e ↦
      let same_digit : c ≡ d = ground arith in
      let rest = text_lt_total s t (omega arith) (λ p. ne (cc)) (ground arith) in ground arith
  | inr e ↦ ground arith
]

pub fence_digits : (s : Text) → is_mutation_fence s ≡ true → every is_digit s ≡ true
unfolding is_mutation_fence every is_digit
fence_digits [] h = refl
fence_digits (c ∷ []) h = ground arith
fence_digits (c ∷ d ∷ s) h = ground arith

-- A fence of several digits starts with no zero, so it is at least the weight of its first place.
fence_weight :
    (c : ℕ) (s : Text)
    → is_mutation_fence (c ∷ s) ≡ true
    → 0 < length s
    → pow10 (length s) ≤ place_value (c ∷ s)
unfolding is_mutation_fence place_value
fence_weight c [] h n = absurd (omega arith)
fence_weight c (d ∷ s) h n =
    let first : b'1' ≤ c = ground arith in
    let gap = mul_lt 0 (c - b'0') (pow10 (length (d ∷ s))) (omega arith) in omega arith

pub pow10_mono : (m n : ℕ) → m ≤ n → pow10 m ≤ pow10 n
unfolding pow10
pow10_mono zero n h = pow10_pos n
pow10_mono (suc m) zero h = absurd (omega arith)
pow10_mono (suc m) (suc n) h = omega (arith, pow10_mono m n (omega arith))

-- The shorter fence is the smaller number.
shorter_lt :
    (s t : Text)
    → is_mutation_fence s ≡ true
    → is_mutation_fence t ≡ true
    → length s < length t
    → place_value s < place_value t
unfolding is_mutation_fence
shorter_lt s [] hs ht n = absurd (omega arith)
shorter_lt [] (d ∷ t) hs ht n = cc
shorter_lt (c ∷ s) (d ∷ t) hs ht n =
    let below = place_value-lt (c ∷ s) (fence_digits (c ∷ s) hs) in
    let mono = pow10_mono (length (c ∷ s)) (length t) (omega arith) in
    let above = fence_weight d t ht (omega arith) in omega arith

-- The order of two numbers as the three results of the comparison.
unfoldable pub compare_numbers : ℕ → ℕ → Comparison
compare_numbers m n = if m == n then same else if ltb m n then less else greater

compare_numbers_lt : (m n : ℕ) → m < n → compare_numbers m n ≡ less
unfolding compare_numbers
compare_numbers_lt m n h = ground arith

compare_numbers_gt : (m n : ℕ) → n < m → compare_numbers m n ≡ greater
unfolding compare_numbers
compare_numbers_gt m n h = ground arith

pub compare_numbers_refl : (n : ℕ) → compare_numbers n n ≡ same
unfolding compare_numbers
compare_numbers_refl n = ground arith

compare_same_length :
    (s t : Text)
    → is_mutation_fence s ≡ true
    → is_mutation_fence t ≡ true
    → length s ≡ length t
    → (if s == t then same else if text_lt s t then less else greater)
      ≡ compare_numbers (place_value s) (place_value t)
compare_same_length s t hs ht n = elim (Bool-cases (s == t)) [
  | inl e ↦ rw (e, (text_iff s t).0 e, compare_numbers_refl)
  | inr e ↦ rw e (elim (Bool-cases (text_lt s t)) [
    | inl l ↦
        rw (
          l,
          compare_numbers_lt _ _ (text_lt_sound s t (fence_digits s hs) (fence_digits t ht) n l),
        )
    | inr l ↦
        let ne : s ≢ t = λ p. true≢false ((text_iff s t).1 p) e in
        let swapped = text_lt_total s t n ne l in
        rw (
          l,
          compare_numbers_gt _ _
              (text_lt_sound t s (fence_digits t ht) (fence_digits s hs) (sym n) swapped),
        )
  ])
]
  where
    true≢false : {b : Bool} → b ≡ true → b ≡ false → ⊥
    true≢false p q = cc

-- Two fences compare as the numbers that they write: the length is compared first, then the text,
-- and the result is that of the numbers.
pub compare_mutation_fences_numeric :
    (left right : Text)
    → is_mutation_fence left ≡ true
    → is_mutation_fence right ≡ true
    → compare_mutation_fences left right ≡ compare_numbers (big_int left) (big_int right)
unfolding compare_mutation_fences compare_numbers
compare_mutation_fences_numeric left right hl hr =
    rw (big_int_lem left, big_int_lem right)
      (elim (Bool-cases (length left == length right)) [
        | inl e ↦ rw e (compare_same_length left right hl hr (ground arith))
        | inr e ↦ rw e (elim (Bool-cases (ltb (length left) (length right))) [
          | inl l ↦ rw (l, compare_numbers_lt _ _ (shorter_lt left right hl hr (ground arith)))
          | inr l ↦ rw (l, compare_numbers_gt _ _ (shorter_lt right left hr hl (ground arith)))
        ])
      ])
