-- ===== src/Profiles/Growth.antt =====
-- How each change of a record lets it grow.
use jumpgate_bridge.Prelude.{
  ℕ, ◌+◌, ◌≤◌, list_eq, nat_eq, ◌≡◌, refl, inl, inr, true, false, Option, none, some, arith,
  Bool-cases,
}
use jumpgate_bridge.Prelude.Text.{Text}
use jumpgate_bridge.Profiles.{
  Status, active, revoked, Deletion, not_deleted, pending, deleted, Profile, Patch, is_active,
}
use jumpgate_bridge.Profiles.Records.{
  patched, rotated, revoked_profile, erasing, erased, deferred, active_profile,
}
use jumpgate_bridge.Profiles.Erasure.{is_deleting}
use jumpgate_bridge.Profiles.Lifetime.{progress, Grown}

pub is_active-active : (a : Status) → is_active a ≡ true → a ≡ active
unfolding is_active
is_active-active active h = refl
is_active-active revoked h = cc

-- Only a profile that is there is active.
pub active_profile-found :
    (o : Option Profile) (r : Profile)
    → active_profile o ≡ some r
    → (o ≡ some r) × (is_active r.status ≡ true)
unfolding active_profile
active_profile-found none r = λ h. cc
active_profile-found (some q) r = elim (Bool-cases (is_active q.status)) [
  | inr e ↦ rw e (λ h. cc)
  | inl e ↦ rw e (λ h. (h, same h e))
]
  where
    same : some q ≡ some r → is_active q.status ≡ true → is_active r.status ≡ true
    same h e = cc

-- A change that raises the revision or the history's generation, or touches neither.
pub touched : (r : Profile) (at : ℕ) → Grown r (record r { updated_at = at })
touched r at = record {
  id = refl;
  revision = omega arith;
  history = omega arith;
  revoked = λ h. h;
  deletion = omega arith;
}

pub advanced : (r : Profile) → Grown r (record r { history_generation = r.history_generation + 1 })
advanced r = record {
  id = refl;
  revision = omega arith;
  history = omega arith;
  revoked = λ h. h;
  deletion = omega arith;
}

pub patched-Grown : (patch : Patch) (now : ℕ) (r : Profile) → Grown r (patched patch now r)
unfolding patched
patched-Grown patch now r = record {
  id = refl;
  revision = omega arith;
  history = omega arith;
  revoked = λ h. h;
  deletion = omega arith;
}

pub rotated-Grown : (h : Text) (now : ℕ) (r : Profile) → Grown r (rotated h now r)
unfolding rotated
rotated-Grown h now r = record {
  id = refl;
  revision = omega arith;
  history = omega arith;
  revoked = λ h. h;
  deletion = omega arith;
}

pub revoked-Grown : (now : ℕ) (r : Profile) → Grown r (revoked_profile now r)
unfolding revoked_profile
revoked-Grown now r = record {
  id = refl;
  revision = omega arith;
  history = omega arith;
  revoked = λ h. refl;
  deletion = omega arith;
}

pub erasing-Grown :
    (now : ℕ) (r : Profile) → is_deleting r.deletion_state ≡ false → Grown r (erasing now r)
unfolding erasing is_deleting progress
erasing-Grown now r h = record {
  id = refl;
  revision = omega arith;
  history = omega arith;
  revoked = λ h. refl;
  deletion = first r.deletion_state h;
}
  where
    first : (d : Deletion) → is_deleting d ≡ false → progress d ≤ progress pending
    first not_deleted h = omega arith
    first pending h = cc
    first deleted h = cc

pub erased-Grown :
    (h : Text) (now : ℕ) (r : Profile) → r.deletion_state ≡ pending → Grown r (erased h now r)
unfolding erased progress
erased-Grown h now r p = record {
  id = refl;
  revision = omega arith;
  history = omega arith;
  revoked = λ h. refl;
  deletion = rw p less;
}
  where
    less : progress pending ≤ progress deleted
    less = omega arith

pub deferred-Grown : (at : ℕ) (r : Profile) → Grown r (deferred at r)
unfolding deferred
deferred-Grown at r = record {
  id = refl;
  revision = omega arith;
  history = omega arith;
  revoked = λ h. h;
  deletion = omega arith;
}
