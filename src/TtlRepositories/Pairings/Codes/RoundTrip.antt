-- ===== src/TtlRepositories/Pairings/Codes/RoundTrip.antt =====
-- The user code that a device shows is read back as the code that was issued.
use jumpgate_bridge.Prelude.{
  ℕ, zero, suc, ◌<◌, ◌%◌, ◌==◌, list_eq, nat_eq, ◌≡◌, refl, ap, ◌∙◌, Bool, true, false, ◌&&◌, ◌||◌,
  List, [], ◌∷◌, leb, length, every, arith, Bool-cases, inl, inr,
}
use jumpgate_bridge.Prelude.Text.{Text, text}
use jumpgate_bridge.Prelude.Map.{Map, has}
use jumpgate_bridge.Prelude.Outcome.{ok}
use jumpgate_bridge.Prelude.Outcome.Rules.{Result-cases}
use jumpgate_bridge.Value.{string}
use jumpgate_bridge.RepositoryUtils.{is_space}
use jumpgate_bridge.TokenService.{hash_opaque}
use jumpgate_bridge.TtlRepositories.Pairings.Codes.{
  pair_code_alphabet, in_alphabet, plain_dash, strip, is_pair_code, normalize_pair_code,
  format_pair_code, letter_at, code_of_bytes, issue_user_code,
}

-- Capital letters, digits and the hyphen, which have no other upper case.
abbrev pub is_upper : ℕ → Bool
is_upper c = (leb b'A' c && leb c b'Z') || (leb b'0' c && leb c b'9') || c == b'-'

-- A capital letter or a digit.
abbrev is_capital : ℕ → Bool
is_capital c = (leb b'A' c && leb c b'Z') || (leb b'0' c && leb c b'9')

in_alphabet-every :
    (p : ℕ → Bool) (s : Text) (c : ℕ) → every p s ≡ true → in_alphabet s c ≡ true → p c ≡ true
unfolding every in_alphabet
in_alphabet-every p [] c h i = absurd (cc)
in_alphabet-every p (d ∷ s) c h i = elim (Bool-cases (d == c)) [
  | inl same ↦ let e : d ≡ c = ground arith in rw (← e) (ground arith)
  | inr differ ↦ in_alphabet-every p s c (ground arith) (ground arith)
]

in_alphabet-is_capital : (c : ℕ) → in_alphabet pair_code_alphabet c ≡ true → is_capital c ≡ true
in_alphabet-is_capital c h =
    in_alphabet-every is_capital pair_code_alphabet c (unfold every in refl) h

letter_at-in_alphabet : (s : Text) (n : ℕ) → n < length s → in_alphabet s (letter_at s n) ≡ true
unfolding in_alphabet letter_at
letter_at-in_alphabet [] n h = absurd (omega (arith, h))
letter_at-in_alphabet (c ∷ s) zero h = ground arith
letter_at-in_alphabet (c ∷ s) (suc n) h = ground (arith, letter_at-in_alphabet s n)

every-code_of_bytes :
    (bytes : List ℕ) → every (in_alphabet pair_code_alphabet) (code_of_bytes bytes) ≡ true
unfolding every code_of_bytes
every-code_of_bytes [] = refl
every-code_of_bytes (b ∷ bytes) =
    rw (letter_at-in_alphabet pair_code_alphabet (b % 32) (omega arith), every-code_of_bytes bytes)
      refl

length-code_of_bytes : (bytes : List ℕ) → length (code_of_bytes bytes) ≡ length bytes
unfolding code_of_bytes
length-code_of_bytes [] = refl
length-code_of_bytes (b ∷ bytes) = omega (arith, length-code_of_bytes bytes)

-- What normalizePairCode does to a capital letter or a digit is nothing.
strip_cons :
    (c : ℕ) (s : Text) → is_capital c ≡ true → strip (plain_dash (c ∷ s)) ≡ c ∷ strip (plain_dash s)
unfolding strip plain_dash is_space
strip_cons c s h =
    let low : (leb 0x2010 c && leb c 0x2015) ≡ false = ground arith in
    let solid : (is_space c || c == b'-') ≡ false = ground arith in rw low (rw solid refl)

strip_hyphen : (s : Text) → strip (plain_dash (b'-' ∷ s)) ≡ strip (plain_dash s)
unfolding strip plain_dash is_space
strip_hyphen s = refl

strip_capital : (s : Text) → every is_capital s ≡ true → strip (plain_dash s) ≡ s
unfolding every strip plain_dash
strip_capital [] h = refl
strip_capital (c ∷ s) h =
    strip_cons c s (ground arith) ∙ ap (λ t. c ∷ t) (strip_capital s (ground arith))

strip_format :
    (s : Text)
    → every is_capital s ≡ true
    → length s ≡ 8
    → strip (plain_dash (format_pair_code s)) ≡ s
unfolding every format_pair_code
strip_format (a ∷ b ∷ c ∷ d ∷ s) h l =
    strip_cons a _ (ground arith)
    ∙ ap (λ t. a ∷ t)
        (strip_cons b _ (ground arith)
          ∙ ap (λ t. b ∷ t)
              (strip_cons c _ (ground arith)
                ∙ ap (λ t. c ∷ t)
                    (strip_cons d _ (ground arith)
                      ∙ ap (λ t. d ∷ t) (strip_hyphen s ∙ strip_capital s (ground arith)))))
strip_format [] h l = absurd (omega (arith, l))
strip_format (a ∷ []) h l = absurd (omega (arith, l))
strip_format (a ∷ b ∷ []) h l = absurd (omega (arith, l))
strip_format (a ∷ b ∷ c ∷ []) h l = absurd (omega (arith, l))

upper_capital : (s : Text) → every is_capital s ≡ true → every is_upper s ≡ true
unfolding every
upper_capital [] h = refl
upper_capital (c ∷ s) h = ground (arith, upper_capital s)

upper_format : (s : Text) → every is_capital s ≡ true → every is_upper (format_pair_code s) ≡ true
unfolding every format_pair_code
upper_format (a ∷ b ∷ c ∷ d ∷ s) h = ground (arith, upper_capital s)
upper_format [] h = refl
upper_format (a ∷ []) h = ground arith
upper_format (a ∷ b ∷ []) h = ground arith
upper_format (a ∷ b ∷ c ∷ []) h = ground arith

every_capital :
    (s : Text) → every (in_alphabet pair_code_alphabet) s ≡ true → every is_capital s ≡ true
unfolding every
every_capital [] h = refl
every_capital (c ∷ s) h =
    let (i, rest) = both (in_alphabet pair_code_alphabet c) _ h in
    rw (in_alphabet-is_capital c i) (every_capital s rest)
  where
    both : (x y : Bool) → (x && y) ≡ true → (x ≡ true) × (y ≡ true)
    both x y e = ground arith

-- An issued code is the code of eight bytes.
issued_code :
    (hmac : Text → Text) (attempts : ℕ) (random_bytes : ℕ → List ℕ) (user_index : Map Text Text)
    (code : Text)
    → issue_user_code hmac attempts random_bytes user_index ≡ ok code
    → (bytes : List ℕ) × (length bytes ≡ 8) × (code_of_bytes bytes ≡ code)
unfolding issue_user_code
issued_code hmac zero random_bytes user_index code = λ h. cc
issued_code hmac (suc n) random_bytes user_index code =
    elim (Bool-cases (length (random_bytes n) == 8)) [
      | inr short ↦ rw short (λ h. cc)
      | inl full ↦
          elim (Result-cases
            (hash_opaque hmac (text "pair-user") (string (code_of_bytes (random_bytes n))) 8)) [
              | inr (e, failed) ↦ rw (full, failed) (λ h. cc)
              | inl (k, hashed) ↦ elim (Bool-cases (has user_index k)) [
                | inl taken ↦
                    rw (full, hashed, taken) (issued_code hmac n random_bytes user_index code)
                | inr free ↦ rw (full, hashed, free) (λ h. (random_bytes n, ground arith, cc))
              ]
            ]
    ]

-- A code that has been issued, shown with its hyphen and typed in, is normalised to the code that
-- was issued; upper-casing changes no capital letter, digit or hyphen.
pub normalize_pair_code-issue_user_code :
    (hmac to_upper : Text → Text) (attempts : ℕ) (random_bytes : ℕ → List ℕ)
    (user_index : Map Text Text) (code : Text)
    → ((s : Text) → every is_upper s ≡ true → to_upper s ≡ s)
    → issue_user_code hmac attempts random_bytes user_index ≡ ok code
    → normalize_pair_code to_upper (string (format_pair_code code)) ≡ ok code
unfolding normalize_pair_code is_pair_code
normalize_pair_code-issue_user_code hmac to_upper attempts random_bytes user_index code fixed h =
    let (bytes, eight, made) = issued_code hmac attempts random_bytes user_index code h in
    let letters : every (in_alphabet pair_code_alphabet) code ≡ true =
      rw (← made) (every-code_of_bytes bytes) in
    let long : length code ≡ 8 = rw (← made) (length-code_of_bytes bytes ∙ eight) in
    rw
      (
        fixed _ (upper_format code (every_capital code letters)),
        strip_format code (every_capital code letters) long,
        letters,
        long,
      )
      refl
