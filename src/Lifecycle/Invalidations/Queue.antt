-- ===== src/Lifecycle/Invalidations/Queue.antt =====
-- What the queue of invalidations promises to those who work it off.
use jumpgate_bridge.Prelude.{
  ℕ, ◌+◌, ◌≤◌, ◌==◌, list_eq, nat_eq, ◌≡◌, refl, ap, inl, inr, true, false, some, length, arith,
  Bool-cases, Option-cases,
}
use mathlib.Core.List.{Memᴰ}
use jumpgate_bridge.Prelude.Text.{Text, text_iff}
use jumpgate_bridge.Prelude.Map.{get, set, values, get-set}
use jumpgate_bridge.Prelude.Sorting.{first_of-left_out, first_of_inv}
use jumpgate_bridge.Prelude.Outcome.{ok}
use jumpgate_bridge.Prelude.Outcome.Rules.{Result-cases}
use jumpgate_bridge.Value.{
  Value, Number, number, natural, fraction, negative, infinite, not_a_number, max_safe_integer,
  safe_natural,
}
use jumpgate_bridge.RepositoryUtils.{
  assert_identifier, assert_positive_integer, assert_non_negative_integer, parse_timestamp,
  read_clock,
}
use jumpgate_bridge.RepositoryUtils.Fences.{Comparison}
use jumpgate_bridge.Lifecycle.Invalidations.{
  Invalidation, Invalidations, EnqueueInput, enqueue, create_invalidation_record, store_new,
  device_part, due_records, due_before, by_number, is_due, defer, defer_found, put_off,
  assert_invalidation_id,
}

module _ (locale_compare : Text → Text → Comparison) where
  due_before-earlier :
      (x y : Invalidation)
      → due_before locale_compare x y ≡ true
      → x.next_attempt_at ≤ y.next_attempt_at
  unfolding due_before by_number
  due_before-earlier x y h = ground arith

  due_before-later :
      (x y : Invalidation)
      → due_before locale_compare x y ≡ false
      → y.next_attempt_at ≤ x.next_attempt_at
  unfolding due_before by_number
  due_before-later x y h = ground arith

  -- A record that listPending names is in the queue and due. One that is due and that it does not
  -- name is left out only because the limit is reached, and is due no earlier than those named.
  pub due_records-first :
      (limit now : ℕ) (s : Invalidations)
      → ((r : Invalidation)
          → Memᴰ r (due_records locale_compare limit now s)
          → Memᴰ r (values s.records) × (r.next_attempt_at ≤ now))
        × ((r : Invalidation)
            → Memᴰ r (values s.records)
            → r.next_attempt_at ≤ now
            → (Memᴰ r (due_records locale_compare limit now s) → ⊥)
            → (length (due_records locale_compare limit now s) ≡ limit)
              × ((listed : Invalidation)
                  → Memᴰ listed (due_records locale_compare limit now s)
                  → listed.next_attempt_at ≤ r.next_attempt_at))
  unfolding due_records is_due
  due_records-first limit now s = (
    λ r h.
        let (m, due) =
          first_of_inv (due_before locale_compare) (is_due now) limit (values s.records) r h in
        (m, ground arith),
    λ r m due out.
        first_of-left_out (due_before locale_compare) (λ x. x.next_attempt_at) due_before-earlier
          due_before-later (is_due now) limit (values s.records) r m (ground arith) out,
  )

module _ (sha256 : Text → Text) (date_parse : Text → Number) where
  read_clock-parse :
      (reading : Number) (now : ℕ)
      → read_clock reading ≡ ok now
      → parse_timestamp date_parse (number (natural now)) ≡ ok now
  unfolding read_clock parse_timestamp safe_natural
  read_clock-parse (natural n) now h = ground arith
  read_clock-parse (fraction a b) now h = cc
  read_clock-parse negative now h = cc
  read_clock-parse infinite now h = cc
  read_clock-parse not_a_number now h = cc

  same_record : {a b : Invalidation} → ok a ≡ ok b → a ≡ b
  same_record h = cc

  -- The id does not depend on the time.
  created_again :
      (input : EnqueueInput) (now later : ℕ) (r : Invalidation)
      → parse_timestamp date_parse (number (natural later)) ≡ ok later
      → create_invalidation_record sha256 date_parse input now ≡ ok r
      → (r' : Invalidation) × (create_invalidation_record sha256 date_parse input later ≡ ok r')
        × (r'.id ≡ r.id)
  unfolding create_invalidation_record
  created_again input now later r timely =
      elim (Result-cases (assert_identifier input.profile_id)) [
        | inr (x, e) ↦ rw (e, create_invalidation_record) (λ h. cc)
        | inl (id, e) ↦
            elim (Result-cases (assert_positive_integer input.profile_revision max_safe_integer)) [
              | inr (x, e') ↦ rw (e, e', create_invalidation_record) (λ h. cc)
              | inl (revision, e') ↦
                  elim (Result-cases
                    (device_part input.kind input.device_id input.device_generation)) [
                      | inr (x, f) ↦ rw (e, e', f, create_invalidation_record) (λ h. cc)
                      | inl (d, f) ↦
                          elim (Result-cases (parse_timestamp date_parse (number (natural now)))) [
                            | inr (x, f') ↦ rw (e, e', f, f', create_invalidation_record) (λ h. cc)
                            | inl (at, f') ↦
                                rw (e, e', f, f', timely, create_invalidation_record)
                                  (λ h. (_, refl, ap (λ x. x.id) (same_record h)))
                          ]
                    ]
            ]
      ]

  stored :
      (r q : Invalidation) (t : Invalidations)
      → get t.records r.id ≡ some q
      → store_new r t ≡ (ok q, t)
  unfolding store_new
  stored r q t h = rw (h, store_new) refl

  store_new-get :
      (r q : Invalidation) (s : Invalidations)
      → (store_new r s).0 ≡ ok q
      → get (store_new r s).1.records r.id ≡ some q
  unfolding store_new
  store_new-get r q s = elim (Option-cases (get s.records r.id)) [
    | inl e ↦
        rw (e, store_new) (λ h. ground (arith, get-set s.records r.id r.id r, text_iff r.id r.id))
    | inr (old, e) ↦ rw (e, store_new) (λ h. ground arith)
  ]

  -- The same invalidation, enqueued again at whatever time, gives back the record that the first
  -- call gave, and changes nothing: neither its attempts nor its times start over.
  pub enqueue_twice :
      (reading later : Number) (now : ℕ) (input : EnqueueInput) (r : Invalidation)
      (s : Invalidations)
      → read_clock later ≡ ok now
      → (enqueue sha256 date_parse reading input s).0 ≡ ok r
      → enqueue sha256 date_parse later input (enqueue sha256 date_parse reading input s).1
        ≡ (ok r, (enqueue sha256 date_parse reading input s).1)
  unfolding enqueue
  enqueue_twice reading later now input r s timely = elim (Result-cases (read_clock reading)) [
    | inr (x, e) ↦ rw (e, enqueue) (λ h. cc)
    | inl (n, e) ↦ elim (Result-cases (create_invalidation_record sha256 date_parse input n)) [
      | inr (x, f) ↦ rw (e, f, enqueue) (λ h. cc)
      | inl (new, f) ↦
          let (new', f', same) =
            created_again input n now new (read_clock-parse later now timely) f in
          rw (e, f, timely, f', enqueue)
            (λ h. stored new' r (store_new new s).1 (rw same (store_new-get new r s h)))
    ]
  ]

-- What is left of defer for a record that was found, if it answers true.
put_off-count :
    (id : Text) (r : Invalidation) (at : ℕ) (reading : Number) (s : Invalidations)
    → (put_off id r at reading s).0 ≡ ok true
    → (q : Invalidation) × (get (put_off id r at reading s).1.records id ≡ some q)
      × (q.attempt_count ≡ r.attempt_count + 1)
unfolding put_off
put_off-count id r at reading s = elim (Result-cases (read_clock reading)) [
  | inr (x, e) ↦ rw (e, put_off) (λ h. cc)
  | inl (now, e) ↦
      rw (e, put_off)
        (λ h.
          let a = record r { attempt_count = r.attempt_count + 1; next_attempt_at = at } in
          let b = record a { updated_at = now } in
          (b, ground (arith, get-set (set s.records id a) id id b, text_iff id id), refl))
]

found_once :
    (id : Text) (count m n : ℕ) (reading later : Number) (s : Invalidations)
    → (defer_found id (get s.records id) count m reading s).0 ≡ ok true
    → (let t = (defer_found id (get s.records id) count m reading s).1 in
        defer_found id (get t.records id) count n later t ≡ (ok false, t))
unfolding defer_found
found_once id count m n reading later s = elim (Option-cases (get s.records id)) [
  | inl e ↦ rw (e, defer_found) (λ h. cc)
  | inr (r, e) ↦ elim (Bool-cases (r.attempt_count == count)) [
    | inr other ↦ rw (e, other, defer_found) (λ h. cc)
    | inl same ↦
        rw (e, same, defer_found)
          (λ h.
            let (q, at, more) = put_off-count id r m reading s h in
            let other : (q.attempt_count == count) ≡ false = ground (arith, more, same) in
            rw (at, defer_found) (rw (other, defer_found) refl))
  ]
]

-- A worker that has put a record off has taken its attempt: another that has read the same number
-- of attempts, at whatever time, gets the answer false and changes nothing.
pub defer_once :
    (date_parse : Text → Number) (reading later : Number) (id attempts at at' : Value) (n : ℕ)
    (s : Invalidations)
    → parse_timestamp date_parse at' ≡ ok n
    → (defer date_parse reading id attempts at s).0 ≡ ok true
    → defer date_parse later id attempts at' (defer date_parse reading id attempts at s).1
      ≡ (ok false, (defer date_parse reading id attempts at s).1)
unfolding defer
defer_once date_parse reading later id attempts at at' n s timely =
    elim (Result-cases (assert_invalidation_id id)) [
      | inr (x, e) ↦ rw (e, defer) (λ h. cc)
      | inl (i, e) ↦ elim (Result-cases (assert_non_negative_integer attempts)) [
        | inr (x, e') ↦ rw (e, e', defer) (λ h. cc)
        | inl (count, e') ↦ elim (Result-cases (parse_timestamp date_parse at)) [
          | inr (x, f) ↦ rw (e, e', f, defer) (λ h. cc)
          | inl (m, f) ↦
              rw (e, e', f, timely, defer) (λ h. found_once i count m n reading later s h)
        ]
      ]
    ]
