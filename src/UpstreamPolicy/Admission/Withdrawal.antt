-- ===== src/UpstreamPolicy/Admission/Withdrawal.antt =====
-- A request that is given up while it waits.
use jumpgate_bridge.Prelude.{
  ℕ, ◌-◌, ◌≤◌, ◌==◌, list_eq, nat_eq, ◌≡◌, sym, subst, inl, inr, true, none, List, [], ◌∷◌, length,
  arith, Bool-cases,
}
use jumpgate_bridge.Prelude.Text.{Text, text_iff}
use jumpgate_bridge.UpstreamPolicy.Admission.{
  Semaphore, put_group, remove_group_from_queue, delete_group_if_idle,
}
use jumpgate_bridge.UpstreamPolicy.Admission.Operations.{abort, remove_entry, includes}
use jumpgate_bridge.UpstreamPolicy.Admission.Groups.{G, IsFair, set-Fits, found-Fits, group_of-set}
use jumpgate_bridge.UpstreamPolicy.Admission.Queue.{
  delete_group_if_idle-SameWorks, remove_group_from_queue-SameWorks, remove_group_from_queue-IsFair,
  delete_group_if_idle-IsFair,
}
use jumpgate_bridge.UpstreamPolicy.Admission.Capacity.{IsSettled}
use jumpgate_bridge.UpstreamPolicy.Admission.Search.{IsServed, SameWork-IsServed}

remove_entry-le : (id : ℕ) (ids : List ℕ) → length (remove_entry id ids) ≤ length ids
unfolding remove_entry
remove_entry-le id [] = omega arith
remove_entry-le id (i ∷ is) = ground (arith, remove_entry-le id is)

module _ (max cap short : ℕ) where
  -- The state after a request has been taken out of its group.
  abbrev withdrawn : Text → ℕ → Semaphore → Semaphore
  unfolding put_group
  withdrawn key id s =
      record (put_group key (record (G s key) { entries = remove_entry id (G s key).entries }) s) {
        queued = s.queued - 1;
        canceled = id ∷ s.canceled;
      }

  withdrawn-IsFair :
      (running : ℕ) (key : Text) (id : ℕ) (s : Semaphore)
      → IsFair max cap short running none s
      → IsFair max cap short running none (withdrawn key id s)
  unfolding withdrawn put_group
  withdrawn-IsFair running key id s f =
      let fewer = remove_entry-le id (G s key).entries in
      record {
        same_max = f.same_max;
        same_cap = f.same_cap;
        same_short = f.same_short;
        runs = f.runs;
        fits =
            set-Fits none none s.groups_by_key s.queue_groups s.queue_groups key _ f.fits
              (λ k e m. m) (λ k e h. h)
              (record {
                within = f.fits.within key;
                waits = omega (arith, fewer, f.fits.waits key);
                flagged = λ h. f.fits.flagged key (ground (arith, fewer));
                listed = f.fits.listed key;
              });
      }

  withdrawn-IsServed :
      (key : Text) (id : ℕ) (s : Semaphore) (k : Text)
      → IsServed cap (G s k)
      → IsServed cap (G (withdrawn key id s) k)
  unfolding withdrawn put_group
  withdrawn-IsServed key id s k served = rw group_of-set (elim (Bool-cases (key == k)) [
    | inr e ↦ rw e served
    | inl e ↦ rw e (
        let same : key ≡ k = (text_iff key k).0 e in
        elim (subst (λ j. IsServed cap (G s j)) (sym same) served) [
          | inl n ↦ inl (omega (arith, n, remove_entry-le id (G s key).entries))
          | inr full ↦ inr full
        ])
  ])

  -- A group with nothing that waits is taken off the queue.
  unqueued-IsFair :
      (running : ℕ) (key : Text) (t : Semaphore)
      → IsFair max cap short running none t
      → length (G t key).entries ≡ 0
      → IsFair max cap short running none (remove_group_from_queue key t)
  unqueued-IsFair running key t f empty =
      let r = remove_group_from_queue-IsFair max cap short running key t none (λ k e m. cc) f in
      let u = remove_group_from_queue key t in
      record {
        same_max = r.same_max;
        same_cap = r.same_cap;
        same_short = r.same_short;
        runs = r.runs;
        fits = found-Fits u.groups_by_key u.queue_groups key r.fits (λ h.
            absurd (ground (arith, empty, (remove_group_from_queue-SameWorks key t key).entries)));
      }

  -- What is left when the request is out: the group is dropped if it is idle.
  cleaned-IsSettled :
      (key : Text) (s t : Semaphore) (w : IsSettled max cap short s)
      → IsFair max cap short w.running none t
      → ((k : Text) → IsServed cap (G s k) → IsServed cap (G t k))
      → IsSettled max cap short (delete_group_if_idle key t)
  cleaned-IsSettled key s t w fair served = record {
    running = w.running;
    fair = delete_group_if_idle-IsFair max cap short w.running key t fair;
    room = w.room;
    busy = elim w.busy [
      | inl full ↦ inl full
      | inr all ↦
          inr (λ k. SameWork-IsServed (delete_group_if_idle-SameWorks key t k) (served k (all k)))
    ];
  }

  withdrawn_last :
      (key : Text) (id : ℕ) (s : Semaphore)
      → (length (remove_entry id (G s key).entries) == 0) ≡ true
      → length (G (withdrawn key id s) key).entries ≡ 0
  unfolding withdrawn put_group
  withdrawn_last key id s last = rw group_of-set (ground (arith, text_iff key key))

  pub abort-IsSettled :
      (key : Text) (id : ℕ) (s : Semaphore)
      → IsSettled max cap short s
      → IsSettled max cap short (abort key id s)
  unfolding abort withdrawn
  abort-IsSettled key id s w =
      let out = withdrawn key id s in
      let fair = withdrawn-IsFair w.running key id s w.fair in
      elim (Bool-cases (includes id (G s key).entries)) [
        | inr absent ↦ rw absent w
        | inl queued ↦
            rw queued (elim (Bool-cases (length (remove_entry id (G s key).entries) == 0)) [
              | inl last ↦ rw last (
                  cleaned-IsSettled key s (remove_group_from_queue key out) w
                    (unqueued-IsFair w.running key out fair (withdrawn_last key id s last))
                    (λ k served.
                      SameWork-IsServed (remove_group_from_queue-SameWorks key out k)
                        (withdrawn-IsServed key id s k served)))
              | inr more ↦
                  rw more (cleaned-IsSettled key s out w fair (withdrawn-IsServed key id s))
            ])
      ]
