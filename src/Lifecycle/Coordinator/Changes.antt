-- ===== src/Lifecycle/Coordinator/Changes.antt =====
-- How a change of one call's stage, or a further call, bears on what the other calls wait for.
use jumpgate_bridge.Prelude.{
  ℕ, ◌≤◌, ◌<◌, ◌==◌, list_eq, nat_eq, ◌≡◌, refl, sym, ap, ◌∙◌, subst, ◌⊎◌, inl, inr, true, false,
  Option, none, some, arith, Bool-cases,
}
use jumpgate_bridge.Prelude.Text.{Text}
use jumpgate_bridge.Prelude.Map.{Map, get, set, get-set}
use jumpgate_bridge.Prelude.Map.Keys.{set_inv}
use jumpgate_bridge.Lifecycle.Coordinator.{Stage, waiting, finished, Run}

-- Every call `k` of the profile before `n` has ended.
abbrev pub EndedBefore : Map ℕ Run → Text → ℕ → Type 0
EndedBefore runs p n =
    (k : ℕ) (q : Run) → get runs k ≡ some q → q.profile ≡ p → k < n → q.stage ≡ finished

-- What a call waits for: the last call on its profile before it, and there is one unless all
-- have ended.
pub data Waits (runs : Map ℕ Run) (p : Text) (n : ℕ) : Option ℕ → Type 0 where
  nobody : EndedBefore runs p n → Waits runs p n none
  call :
      (m : ℕ) (q : Run)
      → get runs m ≡ some q
      → q.profile ≡ p
      → m < n
      → ((k : ℕ) (q' : Run) → get runs k ≡ some q' → q'.profile ≡ p → k < n → k ≤ m)
      → Waits runs p n (some m)

-- A change of the stage of one call, which has not ended before.
module _ (runs : Map ℕ Run) (n : ℕ) (r : Run) (stage : Stage) (found : get runs n ≡ some r)
    (unended : r.stage ≡ finished → stage ≡ finished) where
  abbrev pub changed : Map ℕ Run
  changed = set runs n (record r { stage = stage })

  -- Where a call of the new map comes from.
  pub record Before (k : ℕ) (q' : Run) : Type 0 where
    pub run : Run
    pub at : get runs k ≡ some run
    pub profile : run.profile ≡ q'.profile
    pub previous : run.previous ≡ q'.previous
    pub ended : run.stage ≡ finished → q'.stage ≡ finished
    pub own : (n == k) ≡ true → r.profile ≡ q'.profile
    pub same : (n == k) ≡ false → run ≡ q'

  before : (k : ℕ) (q' : Run) → get changed k ≡ some q' → Before k q'
  before k q' h = elim (Bool-cases (n == k)) [
    | inl e ↦
        let own : record r { stage = stage } ≡ q' =
          ground (arith, get-set runs n k (record r { stage = stage })) in
        record {
          run = r;
          at = ground arith;
          profile = ap (λ q. q.profile) own;
          previous = ap (λ q. q.previous) own;
          ended = λ f. sym (ap (λ q. q.stage) own) ∙ unended f;
          own = λ d. ap (λ q. q.profile) own;
          same = λ d. absurd cc;
        }
    | inr e ↦ record {
      run = q';
      at = ground (arith, get-set runs n k (record r { stage = stage }));
      profile = refl;
      previous = refl;
      ended = λ f. f;
      own = λ d. absurd cc;
      same = λ d. refl;
    }
  ]

  -- Where a call of the old map goes to.
  pub moved :
      (k : ℕ) (q : Run)
      → get runs k ≡ some q
      → (q' : Run) × (get changed k ≡ some q') × (q'.profile ≡ q.profile)
  moved k q h = elim (Bool-cases (n == k)) [
    | inl e ↦ (
      record r { stage = stage },
      ground (arith, get-set runs n k (record r { stage = stage })),
      ground arith,
    )
    | inr e ↦ (q, ground (arith, get-set runs n k (record r { stage = stage })), refl)
  ]

  pub EndedBefore-changed : (p : Text) (m : ℕ) → EndedBefore runs p m → EndedBefore changed p m
  EndedBefore-changed p m ended k q' h same lt =
      let b = before k q' h in b.ended (ended k b.run b.at (b.profile ∙ same) lt)

  pub Waits-changed : (p : Text) (m : ℕ) {o : Option ℕ} → Waits runs p m o → Waits changed p m o
  Waits-changed p m (nobody ended) = nobody (EndedBefore-changed p m ended)
  Waits-changed p m (call i q at same lt last) =
      let (q', at', same') = moved i q at in
      call i q' at' (same' ∙ same) lt
        (λ k q'' h e l. let b = before k q'' h in last k b.run b.at (b.profile ∙ e) l)

  pub waits-changed :
      ((k : ℕ) (q : Run) → get runs k ≡ some q → Waits runs q.profile k q.previous)
      → (k : ℕ) (q' : Run) → get changed k ≡ some q'
      → Waits changed q'.profile k q'.previous
  waits-changed waits k q' h =
      let b = before k q' h in
      Waits-changed q'.profile k (
        subst (λ p. Waits runs p k q'.previous) b.profile
          (subst (Waits runs b.run.profile k) b.previous (waits k b.run b.at)))

  pub fresh-changed :
      (next : ℕ)
      → ((k : ℕ) (q : Run) → get runs k ≡ some q → k < next)
      → (k : ℕ) (q' : Run) → get changed k ≡ some q'
      → k < next
  fresh-changed next fresh k q' h = let b = before k q' h in fresh k b.run b.at

  pub turn-changed :
      EndedBefore runs r.profile n
      → ((k : ℕ) (q : Run)
          → get runs k ≡ some q
          → (q.stage ≡ waiting) ⊎ EndedBefore runs q.profile k)
      → (k : ℕ) (q' : Run) → get changed k ≡ some q'
      → (q'.stage ≡ waiting) ⊎ EndedBefore changed q'.profile k
  turn-changed own turn k q' h =
      let b = before k q' h in
      elim (Bool-cases (n == k)) [
        | inl e ↦
            let at : n ≡ k = ground arith in
            inr (
              subst (EndedBefore changed q'.profile) at
                (EndedBefore-changed q'.profile n (rw (← b.own e) own)))
        | inr e ↦ elim (turn k b.run b.at) [
          | inl w ↦ inl (rw (← b.same e) w)
          | inr ended ↦ inr (EndedBefore-changed q'.profile k (rw (← b.profile) ended))
        ]
      ]

-- A call that is added after all the others.
module _ (runs : Map ℕ Run) (next : ℕ) (new : Run)
    (fresh : (k : ℕ) (q : Run) → get runs k ≡ some q → k < next) where
  EndedBefore-grown :
      (p : Text) (m m' : ℕ)
      → EndedBefore runs p m
      → ((k : ℕ) → k < next → k < m' → k < m)
      → (new.profile ≡ p → next < m' → ⊥)
      → EndedBefore (set runs next new) p m'
  EndedBefore-grown p m m' ended old apart k q h same lt = elim (set_inv runs next k new q h) [
    | inl (e, f) ↦ absurd (apart (ap (λ r. r.profile) f ∙ same) (rw e lt))
    | inr (ne, at) ↦ ended k q at same (old k (fresh k q at) lt)
  ]

  kept : (k : ℕ) (q : Run) → get runs k ≡ some q → get (set runs next new) k ≡ some q
  kept k q at = ground (arith, get-set runs next k new, fresh k q at)

  pub Waits-grown :
      (p : Text) (m m' : ℕ) {o : Option ℕ}
      → Waits runs p m o
      → ((k : ℕ) → k < next → k < m' → k < m)
      → m ≤ m'
      → (new.profile ≡ p → next < m' → ⊥)
      → Waits (set runs next new) p m' o
  Waits-grown p m m' (nobody ended) old le apart = nobody (EndedBefore-grown p m m' ended old apart)
  Waits-grown p m m' (call i q at same lt last) old le apart =
      call i q (kept i q at) same (omega (arith, lt, le)) (λ k q' h e l.
        elim (set_inv runs next k new q' h) [
          | inl (e', f) ↦ absurd (apart (ap (λ r. r.profile) f ∙ e) (rw e' l))
          | inr (ne, at') ↦ last k q' at' e (old k (fresh k q' at') l)
        ])

  pub turn-grown :
      new.stage ≡ waiting
      → ((k : ℕ) (q : Run)
          → get runs k ≡ some q
          → (q.stage ≡ waiting) ⊎ EndedBefore runs q.profile k)
      → (k : ℕ) (q : Run) → get (set runs next new) k ≡ some q
      → (q.stage ≡ waiting) ⊎ EndedBefore (set runs next new) q.profile k
  turn-grown w turn k q h = elim (set_inv runs next k new q h) [
    | inl (e, f) ↦ inl (ap (λ r. r.stage) (sym f) ∙ w)
    | inr (ne, at) ↦ elim (turn k q at) [
      | inl w' ↦ inl w'
      | inr ended ↦ inr (
          EndedBefore-grown q.profile k k ended (λ j a b. b)
            (λ a l. absurd (omega (arith, l, fresh k q at))))
    ]
  ]
