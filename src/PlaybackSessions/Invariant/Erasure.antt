-- ===== src/PlaybackSessions/Invariant/Erasure.antt =====
-- eraseProfileNow keeps the repository consistent: a dispatch and its session go together.
use jumpgate_bridge.Prelude.{list_eq, nat_eq}
use jumpgate_bridge.Prelude.Text.{Text}
use jumpgate_bridge.Prelude.Map.Keys.{get-retain, has-retain, retain-Unique, retain_inv}
use jumpgate_bridge.PlaybackSessions.State.{Repository, session_key}
use jumpgate_bridge.PlaybackSessions.Profiles.{erase_profile}
use jumpgate_bridge.PlaybackSessions.Invariant.{IsConsistent}

pub erase_profile-IsConsistent :
    (id : Text) (s : Repository) → IsConsistent s → IsConsistent (erase_profile id s)
unfolding erase_profile
erase_profile-IsConsistent id s v = record {
  unique_sessions = retain-Unique _ s.sessions v.unique_sessions;
  unique_dispatches = retain-Unique _ s.dispatches v.unique_dispatches;
  unique_sources = retain-Unique _ s.source_revocations v.unique_sources;
  unique_devices = retain-Unique _ s.device_invalidations v.unique_devices;
  session_at = λ k r h.
      let (at, _) = retain_inv _ s.sessions k r v.unique_sessions h in
      let f = v.session_at k r at in
      record {
        keyed = f.keyed;
        separable = f.separable;
        unrevoked = λ live. has-retain _ s.source_revocations _ (f.unrevoked live);
      };
  dispatch_at = λ k d h.
      let (at, other) = retain_inv _ s.dispatches k d v.unique_dispatches h in
      let f = v.dispatch_at k d at in
      record {
        keyed = f.keyed;
        separable = f.separable;
        lease = f.lease;
        backed = λ active.
            let b = f.backed active in
            record {
              session = b.session;
              found = rw (
                get-retain _ s.sessions (session_key d.binding.profile_id d.binding.session_id)
                    v.unique_sessions,
                b.found,
                b.bound,
                other,
              );
              bound = b.bound;
              at_revision = b.at_revision;
              in_state = b.in_state;
              source = has-retain _ s.source_revocations _ b.source;
            };
      };
}
