-- ===== src/UpstreamPolicy/Admission/Reachable.antt =====
-- What happens to a semaphore, and what holds of it then. A request runs from the time it is given
-- a release handle until the handle is called.
use jumpgate_bridge.Prelude.{
  ℕ, ◌≤◌, ◌<◌, list_eq, nat_eq, ◌≡◌, refl, subst, inl, inr, Bool, length, arith,
}
use jumpgate_bridge.Prelude.Text.{Text}
use jumpgate_bridge.Prelude.Map.{get}
use jumpgate_bridge.Prelude.Outcome.{Error, ok, err}
use jumpgate_bridge.Prelude.Outcome.Rules.{Result-cases}
use jumpgate_bridge.RepositoryUtils.{assert_positive_integer}
use jumpgate_bridge.Value.{Value}
use jumpgate_bridge.UpstreamPolicy.Admission.{Semaphore, group_of}
use jumpgate_bridge.UpstreamPolicy.Admission.Limits.{
  read_per_key_limit, create_semaphore, empty_semaphore,
}
use jumpgate_bridge.UpstreamPolicy.Admission.Operations.{acquire, abort, release}
use jumpgate_bridge.UpstreamPolicy.Admission.Groups.{G}
use jumpgate_bridge.UpstreamPolicy.Admission.Capacity.{
  IsSettled, acquire-IsSettled, release-IsSettled,
}
use jumpgate_bridge.UpstreamPolicy.Admission.Withdrawal.{abort-IsSettled}
use jumpgate_bridge.UpstreamPolicy.Admission.Handles.{count, open_handles, open_handles_of}
use jumpgate_bridge.UpstreamPolicy.Admission.Accounts.{
  IsAccounted, acquire-IsAccounted, abort-IsAccounted, release-IsAccounted,
}

-- What happens to a semaphore: a request comes, the signal of a request under a key fires, or a
-- release handle is called. `aborted` tells which signals have fired by then.
pub data Event : Type 0 where
  acquires : (aborted : ℕ → Bool) → Text → ℕ → Event
  aborts : Text → ℕ → Event
  releases : (aborted : ℕ → Bool) → ℕ → Event

unfoldable pub step : Semaphore → Event → Semaphore
step s (acquires aborted key id) = (acquire aborted key id s).1
step s (aborts key id) = abort key id s
step s (releases aborted handle) = release aborted handle s

-- The semaphores that come about after the constructor.
pub data IsReachable : Semaphore → Type 0 where
  start :
      (concurrent queued concurrent_per_key queued_per_key : Value) (s : Semaphore)
      → create_semaphore concurrent queued concurrent_per_key queued_per_key ≡ ok s
      → IsReachable s
  after : {s : Semaphore} → IsReachable s → (event : Event) → IsReachable (step s event)

abbrev Settled : Semaphore → Type 0
Settled s = (max : ℕ) × (cap : ℕ) × (short : ℕ) × IsSettled max cap short s × IsAccounted s

empty-Settled :
    (max queued cap short : ℕ) → IsSettled max cap short (empty_semaphore max queued cap short)
unfolding empty_semaphore group_of get
empty-Settled max queued cap short = record {
  running = 0;
  fair = record {
    same_max = refl;
    same_cap = refl;
    same_short = refl;
    runs = refl;
    fits = record {
      within = λ k. omega arith;
      waits = λ k. omega arith;
      flagged = λ k h. absurd cc;
      listed = λ k h. cc;
    };
  };
  room = omega arith;
  busy = inr (λ k. inl refl);
}

empty-IsAccounted : (max queued cap short : ℕ) → IsAccounted (empty_semaphore max queued cap short)
unfolding empty_semaphore group_of get count
empty-IsAccounted max queued cap short = record {
  total = refl;
  each = λ k. refl;
  fresh = λ n later. refl;
}

create_semaphore-Settled :
    (a b c d : Value) (s : Semaphore) → create_semaphore a b c d ≡ ok s → Settled s
unfolding create_semaphore
create_semaphore-Settled a b c d s = elim (Result-cases (assert_positive_integer a 1024)) [
  | inr (x, e) ↦ rw (e, create_semaphore) (λ h. absurd (no x h))
  | inl (max, e) ↦ elim (Result-cases (assert_positive_integer b 100000)) [
    | inr (x, e') ↦ rw (e, e', create_semaphore) (λ h. absurd (no x h))
    | inl (queued, e') ↦ elim (Result-cases (read_per_key_limit c max 4 1024)) [
      | inr (x, f) ↦ rw (e, e', f, create_semaphore) (λ h. absurd (no x h))
      | inl (most, f) ↦ elim (Result-cases (read_per_key_limit d queued 16 100000)) [
        | inr (x, f') ↦ rw (e, e', f, f', create_semaphore) (λ h. absurd (no x h))
        | inl (short, f') ↦
            rw (e, e', f, f', create_semaphore)
              (λ h. subst Settled (same _ h) (
                max,
                most,
                short,
                empty-Settled max queued most short,
                empty-IsAccounted max queued most short,
              ))
      ]
    ]
  ]
]
  where
    no : (x : Error) → err x ≡ ok s → ⊥
    no x h = cc

    same : (t : Semaphore) → ok t ≡ ok s → t ≡ s
    same t h = cc

IsReachable-Settled : {s : Semaphore} → IsReachable s → Settled s
unfolding step
IsReachable-Settled (start concurrent queued concurrent' queued' s h) =
    create_semaphore-Settled concurrent queued concurrent' queued' s h
IsReachable-Settled (after {s} r (acquires aborted key id)) =
    let (max, cap, short, w, a) = IsReachable-Settled r in
    (
      max,
      cap,
      short,
      acquire-IsSettled max cap short aborted key id s w,
      acquire-IsAccounted aborted key id s a,
    )
IsReachable-Settled (after {s} r (aborts key id)) =
    let (max, cap, short, w, a) = IsReachable-Settled r in
    (max, cap, short, abort-IsSettled max cap short key id s w, abort-IsAccounted key id s a)
IsReachable-Settled (after {s} r (releases aborted handle)) =
    let (max, cap, short, w, a) = IsReachable-Settled r in
    (
      max,
      cap,
      short,
      release-IsSettled max cap short aborted handle s w,
      release-IsAccounted aborted handle s a,
    )

-- Within the limits: the requests that run, in all and under each key, each with a release handle
-- that has not been called; and those that wait under each key.
pub record IsWithin (s : Semaphore) : Type 0 where
  pub total : open_handles s ≤ s.max_concurrent
  pub each_runs : (k : Text) → open_handles_of k s ≤ s.max_concurrent_per_key
  pub each_waits : (k : Text) → length (G s k).entries ≤ s.max_queued_per_key

-- However requests come, are given up and are released: no more release handles are still to be
-- called than requests may run, and under each key no more than may run, and no more requests wait
-- than may wait for a key.
pub IsReachable-IsWithin : (s : Semaphore) → IsReachable s → IsWithin s
IsReachable-IsWithin s r =
    let (max, cap, short, w, a) = IsReachable-Settled r in
    let f = w.fair in
    record {
      total = omega (arith, f.same_max, f.runs, w.room, a.total);
      each_runs = λ k. omega (arith, f.same_cap, f.fits.within k, a.each k);
      each_waits = λ k. omega (arith, f.same_short, f.fits.waits k);
    }

-- However requests come, are given up and are released: while fewer release handles are still to be
-- called than requests may run, a key with a request that waits has as many handles still to be
-- called as a key may have. So no request waits for room that is there.
pub IsReachable-none-idle :
    (s : Semaphore) (k : Text)
    → IsReachable s
    → open_handles s < s.max_concurrent
    → 0 < length (G s k).entries
    → open_handles_of k s ≡ s.max_concurrent_per_key
IsReachable-none-idle s k r room waits =
    let (max, cap, short, w, a) = IsReachable-Settled r in
    let f = w.fair in
    elim w.busy [
      | inl full ↦ absurd (omega (arith, full, room, f.runs, f.same_max, a.total))
      | inr served ↦ elim (served k) [
        | inl nobody ↦ absurd (omega (arith, nobody, waits))
        | inr full ↦ omega (arith, full, f.fits.within k, f.same_cap, a.each k)
      ]
    ]
