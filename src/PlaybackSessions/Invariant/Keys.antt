-- ===== src/PlaybackSessions/Invariant/Keys.antt =====
-- Composite keys determine their parts where the parts hold no NUL.
use jumpgate_bridge.Prelude.{◌≡◌, [], ◌∷◌, true, every, arith}
use jumpgate_bridge.Prelude.Text.{Text, NulFree, join_injective}
use jumpgate_bridge.RepositoryUtils.{is_word, is_identifier}
use jumpgate_bridge.PlaybackSession.Inputs.{is_playback_generation}
use jumpgate_bridge.PlaybackSessions.State.{session_key, dispatch_key, source_key}

words-NulFree : (s : Text) → every is_word s ≡ true → NulFree s
unfolding every is_word
words-NulFree [] h = tt
words-NulFree (c ∷ s) h = (λ e. ground arith, words-NulFree s (ground arith))

pub identifier-NulFree : (s : Text) → is_identifier s ≡ true → NulFree s
unfolding is_identifier
identifier-NulFree s h = words-NulFree s (ground arith)

pub playback_generation-NulFree : (s : Text) → is_playback_generation s ≡ true → NulFree s
unfolding is_playback_generation
playback_generation-NulFree [] h = tt
playback_generation-NulFree (a ∷ []) h = cc
playback_generation-NulFree (a ∷ b ∷ []) h = cc
playback_generation-NulFree (a ∷ b ∷ c ∷ s) h =
    (λ e. ground arith, (λ e. ground arith, (λ e. ground arith, words-NulFree s (ground arith))))

pub session_key_injective :
    (p q s t : Text) → NulFree p → NulFree q → session_key p s ≡ session_key q t → (p ≡ q) × (s ≡ t)
unfolding session_key
session_key_injective p q s t hp hq e = join_injective p q hp hq e

pub dispatch_key_injective :
    (p q s t : Text)
    → NulFree p
    → NulFree q
    → dispatch_key p s ≡ dispatch_key q t
    → (p ≡ q) × (s ≡ t)
unfolding dispatch_key
dispatch_key_injective p q s t hp hq e = join_injective p q hp hq e

-- Two source keys are equal only for the same profile, context, generation and revision.
pub source_key_injective :
    (p q c d g h m n : Text)
    → NulFree p
    → NulFree q
    → NulFree c
    → NulFree d
    → NulFree g
    → NulFree h
    → source_key p c g m ≡ source_key q d h n
    → (p ≡ q) × (c ≡ d) × (g ≡ h) × (m ≡ n)
unfolding source_key
source_key_injective p q c d g h m n hp hq hc hd hg hh e =
    let (a, r) = join_injective p q hp hq e in
    let (b, r') = join_injective c d hc hd r in
    let (x, y) = join_injective g h hg hh r' in (a, b, x, y)
