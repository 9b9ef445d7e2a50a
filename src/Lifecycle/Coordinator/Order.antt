-- ===== src/Lifecycle/Coordinator/Order.antt =====
-- The calls on a profile take their turns in the order in which they started.
use jumpgate_bridge.Prelude.{
  ◌≢◌, ℕ, ◌+◌, ◌<◌, ◌==◌, list_eq, nat_eq, ◌≡◌, refl, sym, ap, ◌∙◌, subst, ◌⊎◌, inl, inr, true,
  Option, none, some, arith, Bool-cases,
}
use jumpgate_bridge.Prelude.Text.{Text, text_iff}
use jumpgate_bridge.Prelude.Map.{Map, get, set, delete, get-set, get-delete}
use jumpgate_bridge.Prelude.Map.Keys.{set_inv}
use jumpgate_bridge.Lifecycle.Coordinator.{
  waiting, running, finished, Run, Coordinator, start_run, enter_run, finish_run, is_tail,
  IsSettled, first, later, MayEnter,
}
use jumpgate_bridge.Lifecycle.Coordinator.Changes.{
  EndedBefore, Waits, nobody, call, Waits-changed, waits-changed, fresh-changed, turn-changed,
  Waits-grown, turn-grown,
}

pub record IsOrdered (s : Coordinator) : Type 0 where
  pub fresh : (k : ℕ) (q : Run) → get s.runs k ≡ some q → k < s.next
  pub tail : (p : Text) → Waits s.runs p s.next (get s.tails p)
  pub waits : (n : ℕ) (r : Run) → get s.runs n ≡ some r → Waits s.runs r.profile n r.previous
  pub turn :
      (n : ℕ) (r : Run)
      → get s.runs n ≡ some r
      → (r.stage ≡ waiting) ⊎ EndedBefore s.runs r.profile n

pub start-IsOrdered : (id : Text) (s : Coordinator) → IsOrdered s → IsOrdered (start_run id s)
unfolding start_run
start-IsOrdered id s v = record {
  fresh = λ k q h. elim (set_inv s.runs s.next k new q h) [
    | inl (e, f) ↦ omega (arith, e)
    | inr (ne, at) ↦ omega (arith, v.fresh k q at)
  ];
  tail = λ p. rw get-set (elim (Bool-cases (id == p)) [
    | inl e ↦ rw e (
        call s.next new (ground (arith, get-set s.runs s.next s.next new)) ((text_iff id p).0 e)
          (omega arith) (λ k q h same lt. omega (arith, lt)))
    | inr e ↦ rw e (
        Waits-grown s.runs s.next new v.fresh p s.next (s.next + 1) (v.tail p) (λ k lt l. lt)
          (omega arith) (λ same l. ground (arith, text_iff id p)))
  ]);
  waits = λ n r h. elim (set_inv s.runs s.next n new r h) [
    | inl (e, f) ↦
        subst (λ j. Waits (set s.runs s.next new) r.profile j r.previous) e
          (subst (λ q. Waits (set s.runs s.next new) q.profile s.next q.previous) f
            (Waits-grown s.runs s.next new v.fresh id s.next s.next (v.tail id) (λ k a b. b)
              (omega arith) (λ a l. absurd (omega (arith, l)))))
    | inr (ne, at) ↦
        Waits-grown s.runs s.next new v.fresh r.profile n n (v.waits n r at) (λ k a b. b)
          (omega arith) (λ a l. absurd (omega (arith, l, v.fresh n r at)))
  ];
  turn = turn-grown s.runs s.next new v.fresh refl v.turn;
}
  where
    new : Run
    new = record { profile = id; previous = get s.tails id; stage = waiting }

pub waiting≢finished : waiting ≢ finished
waiting≢finished h = cc

pub waiting≢running : waiting ≢ running
waiting≢running h = cc

same_call : (m i : ℕ) → some m ≡ some i → m ≡ i
same_call m i h = cc

same_run : {o : Option Run} (q r : Run) → o ≡ some q → o ≡ some r → q ≡ r
same_run q r h h' = cc

settled_ended :
    (s : Coordinator) (n : ℕ) (q : Run) → IsSettled s n → get s.runs n ≡ some q → q.stage ≡ finished
settled_ended s n q (first n' r at ended none_before) h =
    ap (λ x. x.stage) (same_run q r h at) ∙ ended
settled_ended s n q (later n' m r at ended before settled) h =
    ap (λ x. x.stage) (same_run q r h at) ∙ ended

-- A call that may enter has all the calls before it behind it.
may_enter-EndedBefore :
    (s : Coordinator) (p : Text) (n : ℕ) {o : Option ℕ}
    → IsOrdered s
    → Waits s.runs p n o
    → (o ≡ none) ⊎ ((m : ℕ) × (o ≡ some m) × IsSettled s m)
    → (k : ℕ) (q' : Run) → get s.runs k ≡ some q'
    → q'.profile ≡ p
    → k < n
    → q'.stage ≡ finished
may_enter-EndedBefore s p n v (nobody ended) may k q' at' same' lt' = ended k q' at' same' lt'
may_enter-EndedBefore s p n v (call i q at same lt last) (inl e) k q' at' same' lt' = absurd cc
may_enter-EndedBefore s p n v (call i q at same lt last) (inr (m, e, settled)) k q' at' same' lt' =
    let ended : q.stage ≡ finished =
      settled_ended s i q (subst (IsSettled s) (same_call m i (sym e)) settled) at in
    elim (Bool-cases (k == i)) [
      | inl here ↦
          let one : k ≡ i = ground arith in
          ap (λ x. x.stage) (same_run q' q (subst (λ j. get s.runs j ≡ some q') one at') at) ∙ ended
      | inr before ↦ elim (v.turn i q at) [
        | inl w ↦ absurd (waiting≢finished (sym w ∙ ended))
        | inr all ↦
            all k q' at' (same' ∙ sym same) (ground (arith, last k q' at' same' lt', before))
      ]
    ]

pub enter-IsOrdered :
    (n : ℕ) (r : Run) (s : Coordinator)
    → get s.runs n ≡ some r
    → r.stage ≡ waiting
    → MayEnter s r
    → IsOrdered s
    → IsOrdered (enter_run n r s)
unfolding enter_run
enter-IsOrdered n r s found w may v =
    let unended : r.stage ≡ finished → running ≡ finished =
      λ f. absurd (waiting≢finished (sym w ∙ f)) in
    record {
      fresh = fresh-changed s.runs n r running found unended s.next v.fresh;
      tail = λ p. Waits-changed s.runs n r running found unended p s.next (v.tail p);
      waits = waits-changed s.runs n r running found unended v.waits;
      turn =
          turn-changed s.runs n r running found unended
            (may_enter-EndedBefore s r.profile n v (v.waits n r found) may) v.turn;
    }

-- The call whose tail is the last one has no other behind it.
last_call :
    (runs : Map ℕ Run) (p : Text) (next n : ℕ) {o : Option ℕ}
    → Waits runs p next o
    → is_tail o n ≡ true
    → EndedBefore runs p n
    → (k : ℕ) (q : Run) → get runs k ≡ some q
    → q.profile ≡ p
    → k < next
    → n ≢ k
    → q.stage ≡ finished
unfolding is_tail
last_call runs p next n (nobody all) h ended k q at same lt apart = cc
last_call runs p next n (call i q' at' same' lt' last) h ended k q at same lt apart =
    ended k q at same (ground (arith, last k q at same lt, apart))

-- The tail of the profile is taken away only where all the calls on it have ended.
tail_deleted :
    (n : ℕ) (r : Run) (s : Coordinator) (p : Text)
    → get s.runs n ≡ some r
    → EndedBefore s.runs r.profile n
    → IsOrdered s
    → is_tail (get s.tails r.profile) n ≡ true
    → Waits
        (set s.runs n (record r { stage = finished }))
        p
        s.next
        (get (delete s.tails r.profile) p)
unfolding is_tail
tail_deleted n r s p found ended v e = rw get-delete (elim (Bool-cases (r.profile == p)) [
  | inl here ↦ rw here (
      nobody (λ k q' h same lt.
        let p_same : r.profile ≡ p = (text_iff r.profile p).0 here in
        elim (set_inv s.runs n k (record r { stage = finished }) q' h) [
          | inl (e', f) ↦ sym (ap (λ x. x.stage) f)
          | inr (apart, at) ↦
              last_call s.runs r.profile s.next n (v.tail r.profile) e ended k q' at
                (same ∙ sym p_same) lt apart
        ]))
  | inr else' ↦ rw else' (Waits-changed s.runs n r finished found (λ f. refl) p s.next (v.tail p))
])

pub finish-IsOrdered :
    (n : ℕ) (r : Run) (s : Coordinator)
    → get s.runs n ≡ some r
    → r.stage ≡ running
    → IsOrdered s
    → IsOrdered (finish_run n r s)
unfolding finish_run
finish-IsOrdered n r s found runs v =
    let ended : EndedBefore s.runs r.profile n = elim (v.turn n r found) [
      | inl w ↦ absurd (waiting≢running (sym w ∙ runs))
      | inr before ↦ before
    ] in
    record {
      fresh = fresh-changed s.runs n r finished found (λ f. refl) s.next v.fresh;
      tail = λ p. elim (Bool-cases (is_tail (get s.tails r.profile) n)) [
        | inl e ↦ rw e (tail_deleted n r s p found ended v e)
        | inr e ↦ rw e (Waits-changed s.runs n r finished found (λ f. refl) p s.next (v.tail p))
      ];
      waits = waits-changed s.runs n r finished found (λ f. refl) v.waits;
      turn = turn-changed s.runs n r finished found (λ f. refl) ended v.turn;
    }
