-- ===== src/PlaybackSessions/Selection.antt =====
-- claimDispatch takes a dispatch that has waited longest.
use jumpgate_bridge.Prelude.{
  ℕ, ◌≤◌, ◌≡◌, refl, Bool, true, false, ◌||◌, not, Option, none, some, List, [], ◌∷◌, leb,
  if◌then◌else◌, every, arith, Bool-cases, inl, inr,
}
use mathlib.Core.List.{Memᴰ}
use jumpgate_bridge.Prelude.Text.{Text}
use jumpgate_bridge.PlaybackSession.{Dispatch}
use jumpgate_bridge.PlaybackSessions.Dispatches.{
  claimable, claimed_before, earliest, select_candidate,
}

-- A dispatch is not due, or its time is `start` or later.
abbrev waits : ℕ → ℕ → Dispatch → Bool
waits now start d = not (claimable d now) || leb start d.next_attempt_at

-- What a selection promises of the dispatches that it is made from.
abbrev pub IsEarliest : List Dispatch → ℕ → Option Dispatch → Type 0
IsEarliest ds now none = every (λ d. not (claimable d now)) ds ≡ true
IsEarliest ds now (some best) =
    Memᴰ best ds
    × (claimable best now ≡ true)
    × (every (λ d. not (claimable d now) || leb best.next_attempt_at d.next_attempt_at) ds ≡ true)

every-waits :
    (now start start' : ℕ) (ds : List Dispatch)
    → start' ≤ start
    → every (waits now start) ds ≡ true
    → every (waits now start') ds ≡ true
unfolding every
every-waits now start start' [] earlier h = refl
every-waits now start start' (d ∷ ds) earlier h =
    ground (arith, every-waits now start start' ds earlier)

every_idle :
    (now start : ℕ) (ds : List Dispatch)
    → every (λ d. not (claimable d now)) ds ≡ true
    → every (waits now start) ds ≡ true
unfolding every
every_idle now start [] h = refl
every_idle now start (d ∷ ds) h = ground (arith, every_idle now start ds)

every-cons :
    (p : Dispatch → Bool) (d : Dispatch) (ds : List Dispatch)
    → p d ≡ true
    → every p ds ≡ true
    → every p (d ∷ ds) ≡ true
unfolding every
every-cons p d ds h t = ground arith

module _ (locale_before : Text → Text → Bool) where
  claimed_before-next :
      (b d : Dispatch)
      → claimed_before locale_before b d ≡ true
      → b.next_attempt_at ≤ d.next_attempt_at
  unfolding claimed_before
  claimed_before-next b d h = ground arith

  claimed_after-next :
      (b d : Dispatch)
      → claimed_before locale_before b d ≡ false
      → d.next_attempt_at ≤ b.next_attempt_at
  unfolding claimed_before
  claimed_after-next b d h = ground arith

  extend_earliest :
      (d : Dispatch) (ds : List Dispatch) (now : ℕ) (rest : Option Dispatch)
      → IsEarliest ds now rest
      → IsEarliest
          (d ∷ ds)
          now
          (if claimable d now then some (earliest locale_before d rest) else rest)
  unfolding earliest
  extend_earliest d ds now none h = elim (Bool-cases (claimable d now)) [
    | inr idle ↦ rw idle (every-cons (λ e. not (claimable e now)) d ds (rw idle refl) h)
    | inl due ↦ rw due (
      Memᴰ.head refl,
      due,
      every-cons (waits now d.next_attempt_at) d ds (rw due (ground arith))
          (every_idle now d.next_attempt_at ds h),
    )
  ]
  extend_earliest d ds now (some b) h = elim (Bool-cases (claimable d now)) [
    | inr idle ↦
        rw idle
          (Memᴰ.tail h.0, h.1, every-cons (waits now b.next_attempt_at) d ds (rw idle refl) h.2)
    | inl due ↦ rw due (elim (Bool-cases (claimed_before locale_before b d)) [
      | inl before ↦ rw before (
        Memᴰ.tail h.0,
        h.1,
        every-cons (waits now b.next_attempt_at) d ds
            (rw due (ground (arith, claimed_before-next b d before))) h.2,
      )
      | inr after ↦ rw after (
        Memᴰ.head refl,
        due,
        every-cons (waits now d.next_attempt_at) d ds (rw due (ground arith)) (
            every-waits now b.next_attempt_at d.next_attempt_at ds (claimed_after-next b d after)
              h.2),
      )
    ])
  ]

  -- The dispatch selected is one of those given, may be claimed now, and no other that may be
  -- claimed now has an earlier time of its next attempt; where none is selected, none may be
  -- claimed.
  pub select_candidate-IsEarliest :
      (ds : List Dispatch) (now : ℕ) → IsEarliest ds now (select_candidate locale_before ds now)
  unfolding select_candidate every
  select_candidate-IsEarliest [] now = refl
  select_candidate-IsEarliest (d ∷ ds) now =
      extend_earliest d ds now (select_candidate locale_before ds now)
        (select_candidate-IsEarliest ds now)
