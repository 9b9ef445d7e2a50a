-- ===== src/RepositoryUtils/Fences/Successor.antt =====
-- The next fence is the next number.
use jumpgate_bridge.Prelude.{
  ℕ, zero, suc, ◌+◌, ◌/◌, ◌%◌, ◌≤◌, ◌<◌, ◌≡◌, ◌≢◌, refl, ap, sym, subst, ◌∙◌, inl, inr, ◌==◌,
  list_eq, nat_eq, Bool, true, false, [], ◌∷◌, ltb, length, every, arith, Bool-cases,
}
use jumpgate_bridge.Prelude.Text.{Text}
use jumpgate_bridge.Prelude.Outcome.{ok}
use jumpgate_bridge.RepositoryUtils.Fences.{
  is_digit, is_mutation_fence, big_int_acc, big_int, decimal_acc, decimal, max_mutation_fence,
  next_mutation_fence, nines, same, compare_mutation_fences,
}
use jumpgate_bridge.RepositoryUtils.Fences.Order.{
  pow10, pow10_mono, pow10_pos, place_value-lt, fence_digits, big_int_lem, compare_numbers,
  compare_numbers_refl, compare_mutation_fences_numeric,
}

-- A printed number is read as that number, given a digit of fuel for each of its digits.
big_int_acc-decimal_acc :
    (fuel n : ℕ) (acc : Text)
    → n < pow10 fuel
    → big_int_acc 0 (decimal_acc fuel n acc) ≡ big_int_acc n acc
unfolding big_int_acc decimal_acc pow10
big_int_acc-decimal_acc zero n acc lt = ap (λ m. big_int_acc m acc) (omega (arith, lt))
big_int_acc-decimal_acc (suc fuel) n acc lt = elim (Bool-cases (ltb n 10)) [
  | inl small ↦ rw small (ap (λ m. big_int_acc m acc) (omega arith))
  | inr big ↦ rw big (
      big_int_acc-decimal_acc fuel (n / 10) ((n % 10 + b'0') ∷ acc) (omega (arith, lt))
      ∙ ap (λ m. big_int_acc m acc) (omega arith))
]

fence_length : (s : Text) → is_mutation_fence s ≡ true → length s ≤ 128
unfolding is_mutation_fence
fence_length [] h = omega arith
fence_length (c ∷ []) h = omega arith
fence_length (c ∷ d ∷ s) h = ground arith

big_int-lt : (s : Text) → is_mutation_fence s ≡ true → big_int s < pow10 128
big_int-lt s h =
    let below = place_value-lt s (fence_digits s h) in
    let mono = pow10_mono (length s) 128 (fence_length s h) in
    omega (arith, below, mono, big_int_lem s)

more_room : (n k : ℕ) → n < pow10 k → n + 1 < pow10 (suc (suc k))
unfolding pow10
more_room n k lt = omega (arith, lt, pow10_pos k)

-- A printed number above 0 is canonical, and has no more digits than its power of ten allows.
record IsPrinted (room : ℕ) (s : Text) : Type 0 where
  leading : ℕ
  rest : Text
  split : s ≡ leading ∷ rest
  nonzero : b'1' ≤ leading
  digit : leading ≤ b'9'
  digits : every is_digit rest ≡ true
  short : length rest + 1 ≤ room

every-cons :
    (c : ℕ) (s : Text) → is_digit c ≡ true → every is_digit s ≡ true → every is_digit (c ∷ s) ≡ true
unfolding every
every-cons c s h t = ground arith

last_digit : (n : ℕ) → is_digit (n % 10 + b'0') ≡ true
unfolding is_digit
last_digit n = let below : n % 10 < 10 = omega arith in ground arith

decimal_acc-IsPrinted :
    (fuel k n : ℕ) (acc : Text)
    → 0 < n
    → n < pow10 k
    → k ≤ fuel
    → every is_digit acc ≡ true
    → IsPrinted (k + length acc) (decimal_acc fuel n acc)
unfolding decimal_acc pow10
decimal_acc-IsPrinted zero k n acc pos lt le h = absurd (none_left k n pos lt le)
  where
    none_left : (k n : ℕ) → 0 < n → n < pow10 k → k ≤ 0 → ⊥
    none_left zero n pos lt le = omega (arith, pos, lt)
    none_left (suc k) n pos lt le = omega (arith, le)
decimal_acc-IsPrinted (suc fuel) zero n acc pos lt le h = absurd (omega (arith, pos, lt))
decimal_acc-IsPrinted (suc fuel) (suc k) n acc pos lt le h = elim (Bool-cases (ltb n 10)) [
  | inl small ↦ rw small (record {
    leading = n + b'0';
    rest = acc;
    split = refl;
    nonzero = omega (arith, pos);
    digit = ground arith;
    digits = h;
    short = omega arith;
  })
  | inr big ↦ rw big (
      let digit : is_digit (n % 10 + b'0') ≡ true = last_digit n in
      let p =
        decimal_acc-IsPrinted fuel k (n / 10) ((n % 10 + b'0') ∷ acc) (ground arith)
          (omega (arith, lt)) (omega (arith, le)) (every-cons (n % 10 + b'0') acc digit h) in
      record {
        leading = p.leading;
        rest = p.rest;
        split = p.split;
        nonzero = p.nonzero;
        digit = p.digit;
        digits = p.digits;
        short = omega (arith, p.short);
      })
]

IsPrinted-fence : (s : Text) → IsPrinted 128 s → is_mutation_fence s ≡ true
unfolding is_mutation_fence is_digit
IsPrinted-fence s p = rw p.split (from p.leading p.rest p.nonzero p.digit p.digits p.short)
  where
    from :
        (c : ℕ) (r : Text)
        → b'1' ≤ c
        → c ≤ b'9'
        → every is_digit r ≡ true
        → length r + 1 ≤ 128
        → is_mutation_fence (c ∷ r) ≡ true
    from c [] low high h short = ground arith
    from c (d ∷ r) low high h short = ground arith

-- Of the fences only the greatest has the greatest number.
compare-same :
    (left right : Text) → compare_mutation_fences left right ≡ same → (left == right) ≡ true
unfolding compare_mutation_fences
compare-same left right h = ground arith

max_canonical : is_mutation_fence max_mutation_fence ≡ true
unfolding is_mutation_fence max_mutation_fence nines is_digit every
max_canonical = refl

max_number : big_int max_mutation_fence + 1 ≡ pow10 128
unfolding big_int big_int_acc max_mutation_fence nines pow10
max_number = refl

true≢false : {b : Bool} → b ≡ true → b ≡ false → ⊥
true≢false p q = cc

below_max :
    (value : Text)
    → is_mutation_fence value ≡ true
    → (value == max_mutation_fence) ≡ false
    → big_int value + 1 < pow10 128
below_max value h other = let below = big_int-lt value h in omega (arith, below, max_number, apart)
  where
    apart : big_int value ≢ big_int max_mutation_fence
    apart e =
        true≢false
          (compare-same value max_mutation_fence (
            compare_mutation_fences_numeric value max_mutation_fence h max_canonical
            ∙ ap (compare_numbers (big_int value)) (sym e)
            ∙ compare_numbers_refl (big_int value)))
          other

no_digits : every is_digit [] ≡ true
unfolding every
no_digits = refl

-- The successor of a fence is a fence, and its number is the next one.
pub next_mutation_fence-big_int :
    (value next : Text)
    → next_mutation_fence value ≡ ok next
    → (is_mutation_fence next ≡ true) × (big_int next ≡ big_int value + 1)
unfolding next_mutation_fence
next_mutation_fence-big_int value next = elim (Bool-cases (is_mutation_fence value)) [
  | inr e ↦ rw e (λ h. cc)
  | inl e ↦ elim (Bool-cases (value == max_mutation_fence)) [
    | inl f ↦ rw (e, f) (λ h. cc)
    | inr f ↦
        rw (e, f)
          (λ h.
            subst (λ t. (is_mutation_fence t ≡ true) × (big_int t ≡ big_int value + 1))
              (same_text (decimal (big_int value + 1)) h)
              (
                printed_fence (big_int value) (below_max value e f),
                printed (big_int value) (big_int-lt value e),
              ))
  ]
]
  where
    same_text : (t : Text) → ok t ≡ ok next → t ≡ next
    same_text t h = cc

    printed : (n : ℕ) → n < pow10 128 → big_int (decimal (n + 1)) ≡ n + 1
    printed n lt = big_int_acc-decimal_acc 130 (n + 1) [] (more_room n 128 lt)

    printed_fence : (n : ℕ) → n + 1 < pow10 128 → is_mutation_fence (decimal (n + 1)) ≡ true
    printed_fence n lt =
        IsPrinted-fence (decimal (n + 1))
          (decimal_acc-IsPrinted 130 128 (n + 1) [] (omega arith) lt (omega arith) no_digits)
