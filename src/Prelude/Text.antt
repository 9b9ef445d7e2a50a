-- ===== src/Prelude/Text.antt =====
-- JavaScript strings: sequences of UTF-16 code units.
use Prim.Native.Nat.{ℕ}
use Prim.Native.Char.{code}
use Prim.Native.String.{String}
use mathlib.Core.Path.{◌≡◌, refl}
use mathlib.Core.Logic.{◌↔◌, ◌≢◌}
use mathlib.Core.Bool.{Bool, true, false, ◌&&◌}
use mathlib.Core.List.{List, [], ◌∷◌, ◌++◌}
use native.Mathlib.Omega.{arith}
use jumpgate_bridge.Prelude.Equality.{◌==◌, nat_eq, list_eq, list_beq, list_beq_iff}

abbrev pub Text : Type 0
Text = List ℕ

-- A literal. The program's literals are ASCII, so code points are code units.
abbrev pub text : String → Text
text String.[] = []
text (String.◌∷◌ c s) = code c ∷ text s

pub text_iff : (s t : Text) → ((s == t) ≡ true) ↔ (s ≡ t)
text_iff = list_beq_iff

-- String.prototype.startsWith
unfoldable pub starts_with : Text → Text → Bool
starts_with [] s = true
starts_with (c ∷ p) [] = false
starts_with (c ∷ p) (d ∷ s) = c == d && starts_with p s

-- No code unit is NUL, the separator of composite keys.
abbrev pub NulFree : Text → Type 0
NulFree [] = Unit
NulFree (c ∷ s) = (c ≢ 0) × NulFree s

-- Two texts joined by NUL determine their parts, where the first parts have no NUL.
pub join_injective :
    (p q : Text) {s t : Text} → NulFree p → NulFree q → p ++ 0 ∷ s ≡ q ++ 0 ∷ t → (p ≡ q) × (s ≡ t)
join_injective [] [] hp hq e = (refl, cc)
join_injective [] (d ∷ q) hp hq e = absurd (hq.0 (cc))
join_injective (c ∷ p) [] hp hq e = absurd (hp.0 (cc))
join_injective (c ∷ p) (d ∷ q) {s} {t} hp hq e =
    let (a, b) = join_injective p q {s = s} {t = t} hp.1 hq.1 (cc) in (cc, b)

pub starts_with-join :
    (p q s : Text) → NulFree p → NulFree q → starts_with (p ++ 0 ∷ []) (q ++ 0 ∷ s) ≡ (p == q)
unfolding starts_with list_beq
starts_with-join [] [] s hp hq = refl
starts_with-join [] (d ∷ q) s hp hq = ground (arith, hq.0)
starts_with-join (c ∷ p) [] s hp hq = ground (arith, hp.0)
starts_with-join (c ∷ p) (d ∷ q) s hp hq = ground (arith, starts_with-join p q s hp.1 hq.1)
