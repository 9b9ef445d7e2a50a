-- ===== src/UpstreamPolicy/Admission/Accounts.antt =====
-- The numbers of requests that run against the release handles that are still to be called.
use jumpgate_bridge.Prelude.{
  ℕ, zero, suc, ◌+◌, ◌-◌, ◌≤◌, ◌==◌, list_eq, nat_eq, ◌≡◌, refl, sym, ap, ◌∙◌, inl, inr, Bool, true,
  false, ◌&&◌, ◌||◌, Option, none, some, [], ◌∷◌, ◌++◌, length, leb, ltb, arith, Bool-cases,
  Option-cases,
}
use jumpgate_bridge.Prelude.Text.{Text, text_iff}
use jumpgate_bridge.Prelude.Map.{get, set, get-set}
use jumpgate_bridge.UpstreamPolicy.Admission.{
  Handle, Semaphore, put_group, grant, next_queued_entry, drain_slots, drain_queue,
}
use jumpgate_bridge.UpstreamPolicy.Admission.Operations.{
  acquire, abort, release, remove_entry, includes,
}
use jumpgate_bridge.UpstreamPolicy.Admission.Groups.{G, group_of-set}
use jumpgate_bridge.UpstreamPolicy.Admission.Handles.{
  is_open, is_open_under, open_handles, open_handles_of, count-set, count-set_new, IsQuiet,
  IsQuiet-trans, put_group-IsQuiet, enqueue_group-IsQuiet, remove_group_from_queue-IsQuiet,
  delete_group_if_idle-IsQuiet, next_queued_entry-IsQuiet,
}

-- The counters are the numbers of the handles to be called, and no handle has a number to come.
pub record IsAccounted (s : Semaphore) : Type 0 where
  pub total : open_handles s ≡ s.active
  pub each : (k : Text) → open_handles_of k s ≡ (G s k).active
  pub fresh : (n : ℕ) → s.next_handle ≤ n → get s.handles n ≡ none

IsQuiet-IsAccounted : {s t : Semaphore} → IsQuiet s t → IsAccounted s → IsAccounted t
IsQuiet-IsAccounted q a = record {
  total = rw (q.handles, q.total) a.total;
  each = λ k. rw (q.handles, q.each k) (a.each k);
  fresh = λ n. rw (q.handles, q.next) (a.fresh n);
}

grant-IsAccounted :
    (key : Text) (id : ℕ) (s : Semaphore) → IsAccounted s → IsAccounted (grant key id s)
unfolding grant put_group
grant-IsAccounted key id s a =
    let free : get s.handles s.next_handle ≡ none = a.fresh s.next_handle (omega arith) in
    record {
      total = rw (count-set_new is_open s.handles s.next_handle _ free) (omega (arith, a.total));
      each = λ k.
          rw (count-set_new (is_open_under k) s.handles s.next_handle _ free, group_of-set)
            (elim (Bool-cases (key == k)) [
              | inl e ↦ rw e (
                  let same : key ≡ k = (text_iff key k).0 e in
                  rw (← same) (omega (arith, a.each key)))
              | inr e ↦ rw e (omega (arith, a.each k))
            ]);
      fresh = λ n later. rw get-set (ground (arith, a.fresh n));
    }

module _ (aborted : ℕ → Bool) where
  drain_slots-IsAccounted :
      (n : ℕ) (s : Semaphore) → IsAccounted s → IsAccounted (drain_slots aborted n s)
  unfolding drain_slots
  drain_slots-IsAccounted zero s a = a
  drain_slots-IsAccounted (suc n) s a =
      from (next_queued_entry aborted (length s.queue_groups) s)
        (IsQuiet-IsAccounted (next_queued_entry-IsQuiet aborted (length s.queue_groups) s) a)
        (λ t. drain_slots-IsAccounted n t)
    where
      from :
          (r : Option (Text × ℕ) × Semaphore)
          → IsAccounted r.1
          → ((t : Semaphore) → IsAccounted t → IsAccounted (drain_slots aborted n t))
          → IsAccounted
              (elim r.0 [ none ↦ r.1 | some (key, id) ↦ drain_slots aborted n (grant key id r.1) ])
      from (none, t) b rest = b
      from (some (key, id), t) b rest = rest (grant key id t) (grant-IsAccounted key id t b)

  drain_queue-IsAccounted : (s : Semaphore) → IsAccounted s → IsAccounted (drain_queue aborted s)
  unfolding drain_queue
  drain_queue-IsAccounted s a = drain_slots-IsAccounted (s.max_concurrent - s.active) s a

  -- A request that has to wait.
  queued-IsAccounted :
      (key : Text) (id queued : ℕ) (s : Semaphore)
      → IsAccounted s
      → IsAccounted
          (record (put_group key (record (G s key) { entries = (G s key).entries ++ id ∷ [] }) s) {
            queued = queued;
          })
  unfolding put_group
  queued-IsAccounted key id queued s a =
      IsQuiet-IsAccounted
        (record {
          handles = refl;
          next = refl;
          total = refl;
          each = (put_group-IsQuiet key _ s refl).each;
        })
        a

  pub acquire-IsAccounted :
      (key : Text) (id : ℕ) (s : Semaphore)
      → IsAccounted s
      → IsAccounted (acquire aborted key id s).1
  unfolding acquire
  acquire-IsAccounted key id s a = elim (Bool-cases (aborted id)) [
    | inl gone ↦ rw gone a
    | inr here ↦
        rw here
          (elim (Bool-cases
            (ltb s.active s.max_concurrent && ltb (G s key).active s.max_concurrent_per_key)) [
              | inl free ↦ rw free (grant-IsAccounted key id s a)
              | inr busy ↦
                  rw busy
                    (elim (Bool-cases (
                      leb s.max_queued s.queued
                      || leb s.max_queued_per_key (length (G s key).entries))) [
                        | inl full ↦ rw full a
                        | inr short ↦ rw short (
                            drain_queue-IsAccounted _ (
                              IsQuiet-IsAccounted (enqueue_group-IsQuiet key _)
                                (queued-IsAccounted key id (s.queued + 1) s a)))
                      ])
            ])
  ]

  -- The state after a handle has been marked as called, and its request counted off.
  marked-IsAccounted :
      (handle : ℕ) (h : Handle) (s : Semaphore)
      → get s.handles handle ≡ some h
      → h.is_released ≡ false
      → IsAccounted s
      → IsAccounted
          (record (put_group h.key (record (G s h.key) { active = (G s h.key).active - 1 }) s) {
            active = s.active - 1;
            handles = set s.handles handle (record h { is_released = true });
          })
  unfolding put_group
  marked-IsAccounted handle h s at first a = record {
    total =
        let fewer = count-set is_open s.handles handle h (record h { is_released = true }) at in
        ground (arith, fewer, first, a.total);
    each = λ k.
        let fewer =
          count-set (is_open_under k) s.handles handle h (record h { is_released = true }) at in
        rw group_of-set (elim (Bool-cases (h.key == k)) [
          | inl e ↦
              let same : h.key ≡ k = (text_iff h.key k).0 e in
              let own : open_handles_of k s ≡ (G s h.key).active =
                a.each k ∙ ap (λ j. (G s j).active) (sym same) in
              rw e (ground (arith, fewer, first, e, own))
          | inr e ↦ rw e (ground (arith, fewer, first, e, a.each k))
        ]);
    fresh = λ n later. rw get-set (elim (Bool-cases (handle == n)) [
      | inl e ↦ absurd (taken n (ground arith) (a.fresh n later))
      | inr e ↦ rw e (a.fresh n later)
    ]);
  }
    where
      taken : (n : ℕ) → handle ≡ n → get s.handles n ≡ none → ⊥
      taken n same none_there = let there : get s.handles n ≡ some h = rw (← same) at in cc

  pub release-IsAccounted :
      (handle : ℕ) (s : Semaphore) → IsAccounted s → IsAccounted (release aborted handle s)
  unfolding release
  release-IsAccounted handle s a = elim (Option-cases (get s.handles handle)) [
    | inl e ↦ rw (e, release) a
    | inr (h, e) ↦
        rw (e, release)
          (elim (Bool-cases h.is_released) [
            | inl again ↦ rw again a
            | inr first ↦ rw first (
                drain_queue-IsAccounted _ (
                  IsQuiet-IsAccounted (delete_group_if_idle-IsQuiet h.key _)
                    (marked-IsAccounted handle h s e first a)))
          ])
  ]

-- The state after a request that waits has been taken out of its group.
abbrev withdrawn : Text → ℕ → Semaphore → Semaphore
unfolding put_group
withdrawn key id s =
    record (put_group key (record (G s key) { entries = remove_entry id (G s key).entries }) s) {
      queued = s.queued - 1;
      canceled = id ∷ s.canceled;
    }

withdrawn-IsQuiet : (key : Text) (id : ℕ) (s : Semaphore) → IsQuiet s (withdrawn key id s)
unfolding withdrawn put_group
withdrawn-IsQuiet key id s = record {
  handles = refl;
  next = refl;
  total = refl;
  each = (put_group-IsQuiet key _ s refl).each;
}

pub abort-IsAccounted :
    (key : Text) (id : ℕ) (s : Semaphore) → IsAccounted s → IsAccounted (abort key id s)
unfolding abort withdrawn
abort-IsAccounted key id s a =
    let t = withdrawn key id s in
    let out = withdrawn-IsQuiet key id s in
    elim (Bool-cases (includes id (G s key).entries)) [
      | inr absent ↦ rw absent a
      | inl queued ↦
          rw queued (elim (Bool-cases (length (remove_entry id (G s key).entries) == 0)) [
            | inl last ↦ rw last (
                let u = IsQuiet-trans out (remove_group_from_queue-IsQuiet key t) in
                IsQuiet-IsAccounted (IsQuiet-trans u (delete_group_if_idle-IsQuiet key _)) a)
            | inr more ↦
                rw more
                  (IsQuiet-IsAccounted (IsQuiet-trans out (delete_group_if_idle-IsQuiet key t)) a)
          ])
    ]
