-- ===== src/Lifecycle/Coordinator/Exclusion.antt =====
-- At most one operation on a profile runs, and one always may go on.
use jumpgate_bridge.Prelude.{
  ℕ, zero, suc, ◌<◌, list_eq, nat_eq, ◌≡◌, ◌≢◌, refl, sym, ◌∙◌, ◌⊎◌, inl, inr, Option, ltb, some,
  arith, Bool-cases,
}
use jumpgate_bridge.Prelude.Text.{Text}
use jumpgate_bridge.Prelude.Map.{get}
use jumpgate_bridge.Lifecycle.Coordinator.{
  Stage, waiting, running, finished, Run, Coordinator, empty_coordinator, IsSettled, first, later,
  MayEnter, Event, starts, enters, finishes, step, IsReachable, start, after,
}
use jumpgate_bridge.Lifecycle.Coordinator.Changes.{Waits, nobody, call}
use jumpgate_bridge.Lifecycle.Coordinator.Order.{
  IsOrdered, start-IsOrdered, enter-IsOrdered, finish-IsOrdered, waiting≢finished, waiting≢running,
}

step-IsOrdered : (s : Coordinator) (event : Event s) → IsOrdered s → IsOrdered (step s event)
unfolding step
step-IsOrdered s (starts id) v = start-IsOrdered id s v
step-IsOrdered s (enters n r found waits may) v = enter-IsOrdered n r s found waits may v
step-IsOrdered s (finishes n r found runs) v = finish-IsOrdered n r s found runs v

empty-IsOrdered : IsOrdered empty_coordinator
unfolding empty_coordinator get
empty-IsOrdered = record {
  fresh = λ k q h. cc;
  tail = λ p. nobody (λ k q h same lt. cc);
  waits = λ n r h. cc;
  turn = λ n r h. cc;
}

IsReachable-IsOrdered : {s : Coordinator} → IsReachable s → IsOrdered s
IsReachable-IsOrdered start = empty-IsOrdered
IsReachable-IsOrdered (after {s} r event) = step-IsOrdered s event (IsReachable-IsOrdered r)

before_running :
    (s : Coordinator) (m n : ℕ) (q r : Run)
    → IsOrdered s
    → get s.runs m ≡ some q
    → get s.runs n ≡ some r
    → q.profile ≡ r.profile
    → q.stage ≡ running
    → r.stage ≡ running
    → m < n
    → ⊥
before_running s m n q r v atq atr same runs runs' lt = elim (v.turn n r atr) [
  | inl w ↦ waiting≢running (sym w ∙ runs')
  | inr ended ↦ running≢finished (sym runs ∙ ended m q atq same lt)
]
  where
    running≢finished : running ≢ finished
    running≢finished h = cc

-- In every interleaving of the calls, two operations that run at the same time on the same profile
-- are one and the same call.
pub IsReachable-exclusive :
    (s : Coordinator) (m n : ℕ) (q r : Run)
    → IsReachable s
    → get s.runs m ≡ some q
    → get s.runs n ≡ some r
    → q.profile ≡ r.profile
    → q.stage ≡ running
    → r.stage ≡ running
    → m ≡ n
IsReachable-exclusive s m n q r reachable atq atr same runs runs' =
    let v = IsReachable-IsOrdered reachable in
    elim (Bool-cases (ltb m n)) [
      | inl lt ↦ absurd (before_running s m n q r v atq atr same runs runs' (ground arith))
      | inr ge ↦ elim (Bool-cases (ltb n m)) [
        | inl lt ↦ absurd (before_running s n m r q v atr atq (sym same) runs' runs (ground arith))
        | inr ge' ↦ ground arith
      ]
    ]

-- A call that has ended, with all those before it, has its tail settled.
ended-IsSettled :
    (s : Coordinator) (bound n : ℕ) (r : Run)
    → IsOrdered s
    → n < bound
    → get s.runs n ≡ some r
    → r.stage ≡ finished
    → IsSettled s n
ended-IsSettled s zero n r v lt at ended = elim lt [ ]
ended-IsSettled s (suc bound) n r v lt at ended =
    from (λ m q l at' e. ended-IsSettled s bound m q v (omega (arith, lt, l)) at' e) refl
      (v.waits n r at)
  where
    from :
        ((m : ℕ) (q : Run) → m < n → get s.runs m ≡ some q → q.stage ≡ finished → IsSettled s m)
        → {o : Option ℕ} → r.previous ≡ o
        → Waits s.runs r.profile n o
        → IsSettled s n
    from earlier e (nobody all) = first n r at ended e
    from earlier e (call m q at' same before last) = later n m r at ended e (
        earlier m q before at' (elim (v.turn n r at) [
          | inl w ↦ absurd (waiting≢finished (sym w ∙ ended))
          | inr all ↦ all m q at' same before
        ]))

-- A call of the profile that is running, or that may run now.
pub data Progress (s : Coordinator) (p : Text) : Type 0 where
  runs :
      (n : ℕ) (r : Run) → get s.runs n ≡ some r → r.profile ≡ p → r.stage ≡ running → Progress s p
  may_run :
      (n : ℕ) (r : Run)
      → get s.runs n ≡ some r
      → r.profile ≡ p
      → r.stage ≡ waiting
      → MayEnter s r
      → Progress s p

Stage-cases : (a : Stage) → (a ≡ waiting) ⊎ ((a ≡ running) ⊎ (a ≡ finished))
Stage-cases waiting = inl refl
Stage-cases running = inr (inl refl)
Stage-cases finished = inr (inr refl)

unended-Progress :
    (s : Coordinator) (p : Text) (bound n : ℕ) (r : Run)
    → IsOrdered s
    → n < bound
    → get s.runs n ≡ some r
    → r.profile ≡ p
    → r.stage ≢ finished
    → Progress s p
unended-Progress s p zero n r v lt at same unended = elim lt [ ]
unended-Progress s p (suc bound) n r v lt at same unended = elim (Stage-cases r.stage) [
  | inr (inr ended) ↦ absurd (unended ended)
  | inr (inl going) ↦ runs n r at same going
  | inl w ↦
      from
        (λ m q l at' same' u. unended-Progress s p bound m q v (omega (arith, lt, l)) at' same' u) w
        refl (v.waits n r at)
]
  where
    from :
        ((m : ℕ) (q : Run)
          → m < n
          → get s.runs m ≡ some q
          → q.profile ≡ p
          → q.stage ≢ finished
          → Progress s p)
        → r.stage ≡ waiting
        → {o : Option ℕ} → r.previous ≡ o
        → Waits s.runs r.profile n o
        → Progress s p
    from earlier w e (nobody all) = may_run n r at same w (inl e)
    from earlier w e (call m q at' same' before last) = elim (Stage-cases q.stage) [
      | inr (inr ended) ↦
          may_run n r at same w
            (inr (m, e, ended-IsSettled s (suc m) m q v (omega arith) at' ended))
      | inl w' ↦ earlier m q before at' (same' ∙ same) (λ h. waiting≢finished (sym w' ∙ h))
      | inr (inl going) ↦ runs m q at' (same' ∙ same) going
    ]

-- In every interleaving of the calls, if a call on a profile has not ended, then one on the profile
-- is running, or waits for nothing any more: no call waits for ever while all the others do.
pub IsReachable-Progress :
    (s : Coordinator) (n : ℕ) (r : Run)
    → IsReachable s
    → get s.runs n ≡ some r
    → r.stage ≢ finished
    → Progress s r.profile
IsReachable-Progress s n r reachable at unended =
    unended-Progress s r.profile (suc n) n r (IsReachable-IsOrdered reachable) (omega arith) at refl
      unended
