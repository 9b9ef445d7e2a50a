-- ===== src/UpstreamPolicy/Admission/Capacity.antt =====
-- The semaphore stays within its bounds and leaves no capacity idle.
use jumpgate_bridge.Prelude.{
  ℕ, zero, suc, ◌+◌, ◌-◌, ◌≤◌, ◌<◌, ◌==◌, list_eq, nat_eq, ◌≡◌, refl, sym, ap, subst, ◌⊎◌, inl, inr,
  Bool, true, ◌&&◌, ◌||◌, Option, none, some, [], ◌∷◌, ◌++◌, length, length-append, leb, ltb, arith,
  Bool-cases, Option-cases,
}
use mathlib.Core.List.{append-nil}
use jumpgate_bridge.Prelude.Text.{Text}
use jumpgate_bridge.Prelude.Map.{Map, get}
use jumpgate_bridge.UpstreamPolicy.Admission.{
  Handle, Semaphore, put_group, enqueue_group, delete_group_if_idle, next_queued_entry, grant,
  drain_slots, drain_queue,
}
use jumpgate_bridge.UpstreamPolicy.Admission.Operations.{acquire, release}
use jumpgate_bridge.UpstreamPolicy.Admission.Groups.{
  G, IsFair, set-Fits, enqueue_group-IsFair, member, group_of-set,
}
use jumpgate_bridge.UpstreamPolicy.Admission.Queue.{delete_group_if_idle-IsFair}
use jumpgate_bridge.UpstreamPolicy.Admission.Search.{IsServed, Found, search}

-- Within the bounds; and if fewer than the maximum run, every key is served.
pub record IsSettled (max cap short : ℕ) (s : Semaphore) : Type 0 where
  pub running : ℕ
  pub fair : IsFair max cap short running none s
  pub room : running ≤ max
  pub busy : (max ≤ running) ⊎ ((k : Text) → IsServed cap (G s k))

nobody : (k : Text) → member k [] ≡ true → ⊥
unfolding member
nobody k h = cc

module _ (max cap short : ℕ) where
  grant-IsFair :
      (running : ℕ) (key : Text) (id : ℕ) (s : Semaphore)
      → IsFair max cap short running none s
      → (G s key).active < cap
      → IsFair max cap short (running + 1) none (grant key id s)
  unfolding grant put_group
  grant-IsFair running key id s f free = record {
    same_max = f.same_max;
    same_cap = f.same_cap;
    same_short = f.same_short;
    runs = ap (λ n. n + 1) f.runs;
    fits =
        set-Fits none none s.groups_by_key s.queue_groups s.queue_groups key
          (record (G s key) { active = (G s key).active + 1 }) f.fits (λ k e m. m) (λ k e h. h)
          (record {
            within = omega (arith, free);
            waits = f.fits.waits key;
            flagged = f.fits.flagged key;
            listed = f.fits.listed key;
          });
  }

  module _ (aborted : ℕ → Bool) where
    drain_slots-IsSettled :
        (n running : ℕ) (s : Semaphore)
        → IsFair max cap short running none s
        → running + n ≡ max
        → IsSettled max cap short (drain_slots aborted n s)
    unfolding drain_slots
    drain_slots-IsSettled zero running s f e = record {
      running = running;
      fair = f;
      room = omega (arith, e);
      busy = inl (omega (arith, e));
    }
    drain_slots-IsSettled (suc n) running s f e =
        from (next_queued_entry aborted (length s.queue_groups) s)
          (search max cap short running aborted (length s.queue_groups) s.queue_groups [] s f
            (sym (append-nil s.queue_groups)) refl (λ k m. absurd (nobody k m)))
          (λ key id t g free.
            drain_slots-IsSettled n (running + 1) (grant key id t)
              (grant-IsFair running key id t g free) (omega (arith, e)))
      where
        from :
            (r : Option (Text × ℕ) × Semaphore)
            → Found max cap short running aborted r
            → ((key : Text) (id : ℕ) (t : Semaphore)
                → IsFair max cap short running none t
                → (G t key).active < cap
                → IsSettled max cap short (drain_slots aborted n (grant key id t)))
            → IsSettled max cap short (elim r.0 [
              | none ↦ r.1
              | some (key, id) ↦ drain_slots aborted n (grant key id r.1)
            ])
        from (none, t) found next = record {
          running = running;
          fair = found.0;
          room = omega (arith, e);
          busy = inr found.1;
        }
        from (some (key, id), t) found next = next key id t found.0 found.1

    drain_queue-IsSettled :
        (running : ℕ) (s : Semaphore)
        → IsFair max cap short running none s
        → running ≤ max
        → IsSettled max cap short (drain_queue aborted s)
    unfolding drain_queue
    drain_queue-IsSettled running s f room =
        subst (λ n. IsSettled max cap short (drain_slots aborted n s))
          (omega (arith, f.same_max, f.runs))
          (drain_slots-IsSettled (max - running) running s f (omega (arith, room)))

    -- A request that runs at once takes room that nobody waits for.
    granted-IsSettled :
        (key : Text) (id : ℕ) (s : Semaphore)
        → IsSettled max cap short s
        → s.active < max
        → (G s key).active < cap
        → IsSettled max cap short (grant key id s)
    unfolding grant put_group
    granted-IsSettled key id s w room free = record {
      running = w.running + 1;
      fair = grant-IsFair w.running key id s w.fair free;
      room = omega (arith, room, w.fair.runs);
      busy = elim w.busy [
        | inl full ↦ absurd (omega (arith, full, room, w.fair.runs))
        | inr served ↦ inr (λ k. rw group_of-set (elim (Bool-cases (key == k)) [
          | inl e ↦ rw e (elim (served key) [
            | inl none_wait ↦ inl none_wait
            | inr full ↦ absurd (omega (arith, full, free))
          ])
          | inr e ↦ rw e (served k)
        ]))
      ];
    }

    -- A request that has to wait.
    waiting-IsSettled :
        (key : Text) (id queued : ℕ) (s : Semaphore)
        → IsSettled max cap short s
        → length (G s key).entries < short
        → IsSettled max cap short (
            drain_queue aborted (
              enqueue_group key
                (record (put_group key
                  (record (G s key) { entries = (G s key).entries ++ id ∷ [] })
                  s) { queued = queued })))
    unfolding put_group
    waiting-IsSettled key id queued s w free =
        drain_queue-IsSettled w.running _
          (enqueue_group-IsFair max cap short w.running key _ (record {
            same_max = w.fair.same_max;
            same_cap = w.fair.same_cap;
            same_short = w.fair.same_short;
            runs = w.fair.runs;
            fits =
                set-Fits none (some key) s.groups_by_key s.queue_groups s.queue_groups key
                  (record (G s key) { entries = (G s key).entries ++ id ∷ [] }) w.fair.fits
                  (λ k e m. cc) (λ k e h. h)
                  (record {
                    within = w.fair.fits.within key;
                    waits = omega (arith, length-append {0} (G s key).entries (id ∷ []), free);
                    flagged = λ h. inr refl;
                    listed = w.fair.fits.listed key;
                  });
          }))
          w.room

    pub acquire-IsSettled :
        (key : Text) (id : ℕ) (s : Semaphore)
        → IsSettled max cap short s
        → IsSettled max cap short (acquire aborted key id s).1
    unfolding acquire
    acquire-IsSettled key id s w = elim (Bool-cases (aborted id)) [
      | inl gone ↦ rw gone w
      | inr here ↦
          rw here
            (elim (Bool-cases
              (ltb s.active s.max_concurrent && ltb (G s key).active s.max_concurrent_per_key)) [
                | inl free ↦ rw free (
                    granted-IsSettled key id s w (ground (arith, w.fair.same_max))
                      (ground (arith, w.fair.same_cap)))
                | inr busy ↦
                    rw busy
                      (elim (Bool-cases (
                        leb s.max_queued s.queued
                        || leb s.max_queued_per_key (length (G s key).entries))) [
                          | inl full ↦ rw full w
                          | inr short' ↦ rw short' (
                              waiting-IsSettled key id (s.queued + 1) s w
                                (ground (arith, w.fair.same_short)))
                        ])
              ])
    ]

    -- A release handle that is called for the first time.
    released-IsSettled :
        (key : Text) (handles : Map ℕ Handle) (s : Semaphore)
        → IsSettled max cap short s
        → IsSettled max cap short (
            drain_queue aborted (
              delete_group_if_idle key
                (record (put_group key (record (G s key) { active = (G s key).active - 1 }) s) {
                  active = s.active - 1;
                  handles = handles;
                })))
    unfolding put_group
    released-IsSettled key handles s w =
        drain_queue-IsSettled (w.running - 1) _
          (delete_group_if_idle-IsFair max cap short (w.running - 1) key _ (record {
            same_max = w.fair.same_max;
            same_cap = w.fair.same_cap;
            same_short = w.fair.same_short;
            runs = ap (λ n. n - 1) w.fair.runs;
            fits =
                set-Fits none none s.groups_by_key s.queue_groups s.queue_groups key
                  (record (G s key) { active = (G s key).active - 1 }) w.fair.fits (λ k e m. m)
                  (λ k e h. h)
                  (record {
                    within = omega (arith, w.fair.fits.within key);
                    waits = w.fair.fits.waits key;
                    flagged = w.fair.fits.flagged key;
                    listed = w.fair.fits.listed key;
                  });
          }))
          (omega (arith, w.room))

    pub release-IsSettled :
        (handle : ℕ) (s : Semaphore)
        → IsSettled max cap short s
        → IsSettled max cap short (release aborted handle s)
    unfolding release
    release-IsSettled handle s w = elim (Option-cases (get s.handles handle)) [
      | inl e ↦ rw (e, release) w
      | inr (h, e) ↦
          rw (e, release)
            (elim (Bool-cases h.is_released) [
              | inl again ↦ rw again w
              | inr first ↦ rw first (released-IsSettled h.key _ s w)
            ])
    ]
