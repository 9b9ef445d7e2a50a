-- ===== src/PlaybackSessions/Profiles.antt =====
-- snapshotProfileNow, restoreProfileNow, eraseProfileNow: one profile's part of the repository.
use jumpgate_bridge.Prelude.{ℕ, ◌==◌, list_eq, nat_eq, Bool, not, Option, none, some, [], ◌∷◌, ◌++◌}
use jumpgate_bridge.Prelude.Text.{Text, starts_with}
use jumpgate_bridge.Prelude.Map.{Map, get, set, delete, retain}
use jumpgate_bridge.PlaybackSession.{Session, Dispatch}
use jumpgate_bridge.PlaybackSessions.State.{Repository}

-- hasProfileInvalidation and profileInvalidation are the one field `profile_invalidation`.
pub record Snapshot : Type 0 where
  pub sessions : Map Text Session
  pub dispatches : Map Text Dispatch
  pub source_revocations : Map Text (Unit {0})
  pub profile_invalidation : Option ℕ
  pub device_invalidations : Map Text ℕ

-- key.startsWith(id + "\0")
unfoldable pub in_profile : Text → Text → Bool
in_profile id key = starts_with (id ++ (0 ∷ [])) key

unfoldable pub snapshot_profile : Text → Repository → Snapshot
unfolding in_profile
snapshot_profile id s = record {
  sessions = retain (λ k r. r.binding.profile_id == id) s.sessions;
  dispatches = retain (λ k d. d.binding.profile_id == id) s.dispatches;
  source_revocations = retain (λ k u. in_profile id k) s.source_revocations;
  profile_invalidation = get s.profile_invalidations id;
  device_invalidations = retain (λ k n. in_profile id k) s.device_invalidations;
}

unfoldable pub erase_profile : Text → Repository → Repository
unfolding in_profile
erase_profile id s = record {
  sessions = retain (λ k r. not (r.binding.profile_id == id)) s.sessions;
  dispatches = retain (λ k d. not (d.binding.profile_id == id)) s.dispatches;
  source_revocations = retain (λ k u. not (in_profile id k)) s.source_revocations;
  profile_invalidations = delete s.profile_invalidations id;
  device_invalidations = retain (λ k n. not (in_profile id k)) s.device_invalidations;
}

-- The loops of restoreProfileNow: each entry is set in turn.
unfoldable pub set_all : {V : Type 0} → Map Text V → Map Text V → Map Text V
set_all [] m = m
set_all ((k, v) ∷ entries) m = set_all entries (set m k v)

unfoldable pub restore_profile : Text → Snapshot → Repository → Repository
unfolding erase_profile set_all
restore_profile id snapshot s =
    let erased = erase_profile id s in
    record {
      sessions = set_all snapshot.sessions erased.sessions;
      dispatches = set_all snapshot.dispatches erased.dispatches;
      source_revocations = set_all snapshot.source_revocations erased.source_revocations;
      profile_invalidations = elim snapshot.profile_invalidation [
        | none ↦ erased.profile_invalidations
        | some revision ↦ set erased.profile_invalidations id revision
      ];
      device_invalidations = set_all snapshot.device_invalidations erased.device_invalidations;
    }
