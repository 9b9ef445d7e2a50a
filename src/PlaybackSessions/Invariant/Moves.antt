-- ===== src/PlaybackSessions/Invariant/Moves.antt =====
-- The ways in which the operations change the repository, each of which keeps it consistent.
use jumpgate_bridge.Prelude.{
  ℕ, ◌≡◌, ◌≢◌, refl, list_eq, nat_eq, Bool, false, none, some, arith, if◌then◌else◌, Bool-cases,
  inl, inr,
}
use jumpgate_bridge.Prelude.Text.{Text, text_iff, NulFree}
use jumpgate_bridge.Prelude.Map.{Map, get, has, set, map_values, get-set, map_values_inv}
use jumpgate_bridge.Prelude.Map.Keys.{set-Unique, map_values-Unique, set_inv}
use jumpgate_bridge.PlaybackSession.{
  released, state_beq, DispatchStatus, queued, leased, delivered, revoked, is_active, Session,
  Dispatch,
}
use jumpgate_bridge.PlaybackSessions.State.{
  Repository, session_key, source_key_of, revoke_dispatch, of_session, revoke_session_dispatches,
}
use jumpgate_bridge.PlaybackSessions.Invariant.{
  IsConsistent, SessionFits, DispatchFits, IsBacked, HasLease, Revocations,
}
use jumpgate_bridge.PlaybackSessions.Invariant.Keys.{session_key_injective}

revoke-inactive : (now : ℕ) (d : Dispatch) → is_active (revoke_dispatch now d).status ≡ false
unfolding revoke_dispatch is_active
revoke-inactive now d = ground arith

revoke-binding : (now : ℕ) (d : Dispatch) → (revoke_dispatch now d).binding ≡ d.binding
unfolding revoke_dispatch
revoke-binding now d = ground arith

revoke-id : (now : ℕ) (d : Dispatch) → (revoke_dispatch now d).input ≡ d.input
unfolding revoke_dispatch
revoke-id now d = ground arith

revoke-HasLease :
    (now : ℕ) (d : Dispatch)
    → HasLease d.status d.lease_token_hash d.lease_owner d.lease_expires_at
    → let e = revoke_dispatch now d in
      HasLease e.status e.lease_token_hash e.lease_owner e.lease_expires_at
unfolding revoke_dispatch is_active
revoke-HasLease now d h = from d.status refl
  where
    from :
        (st : DispatchStatus)
        → d.status ≡ st
        → let e = revoke_dispatch now d in
          HasLease e.status e.lease_token_hash e.lease_owner e.lease_expires_at
    from queued e = rw (e, revoke_dispatch) (refl, refl, refl)
    from leased e = rw (e, revoke_dispatch) (refl, refl, refl)
    from delivered e = rw (e, revoke_dispatch) (rw e at h)
    from revoked e = rw (e, revoke_dispatch) (rw e at h)

-- A revoked dispatch fits wherever the dispatch did, whatever became of the sessions.
pub revoke-DispatchFits :
    {sources sources' : Revocations} {sessions sessions' : Map Text Session} {k : Text} (now : ℕ)
    (d : Dispatch)
    → DispatchFits sources sessions k d
    → DispatchFits sources' sessions' k (revoke_dispatch now d)
revoke-DispatchFits now d f = record {
  keyed = rw (revoke-binding now d, revoke-id now d) f.keyed;
  separable = rw (revoke-binding now d) f.separable;
  lease = revoke-HasLease now d f.lease;
  backed = λ h. cc (revoke-inactive now d);
}

-- Sessions under other keys are not of this session.
other_session :
    (p t : Text) (d : Dispatch)
    → NulFree p
    → NulFree d.binding.profile_id
    → of_session p t d ≡ false
    → session_key p t ≢ session_key d.binding.profile_id d.binding.session_id
unfolding of_session
other_session p t d hp hd no_match e =
    let (a, b) = session_key_injective p d.binding.profile_id t d.binding.session_id hp hd e in
    ground (arith, text_iff d.binding.profile_id p, text_iff d.binding.session_id t)

-- The dispatches of other sessions stay backed when a session's record is replaced.
IsBacked-set :
    {sources : Revocations} (sessions : Map Text Session) (k : Text) (r : Session) (d : Dispatch)
    → k ≢ session_key d.binding.profile_id d.binding.session_id
    → IsBacked sources sessions d
    → IsBacked sources (set sessions k r) d
IsBacked-set sessions k r d ne b = record {
  session = b.session;
  found =
      rw get-set (
        ground
          (arith, text_iff k (session_key d.binding.profile_id d.binding.session_id), b.found));
  bound = b.bound;
  at_revision = b.at_revision;
  in_state = b.in_state;
  source = b.source;
}

-- A session's new record, with all dispatches of the session revoked.
revoke_session_fits :
    {sources : Revocations} {sessions : Map Text Session} (p t : Text) (now : ℕ) (r : Session)
    → NulFree p
    → (k : Text) (d : Dispatch) → DispatchFits sources sessions k d
    → DispatchFits sources
        (set sessions (session_key p t) r)
        k
        (if of_session p t d then revoke_dispatch now d else d)
revoke_session_fits {sessions = sessions} p t now r hp k d f =
    elim (Bool-cases (of_session p t d)) [
      | inl e ↦ rw e (revoke-DispatchFits now d f)
      | inr e ↦ rw e (record {
        keyed = f.keyed;
        separable = f.separable;
        lease = f.lease;
        backed = λ h.
            IsBacked-set sessions (session_key p t) r d
              (other_session p t d hp f.separable.profile e) (f.backed h);
      })
    ]

-- Replacing the record of a session by one with the same binding, and revoking its dispatches.
pub replace_session :
    (s : Repository) (p t : Text) (now : ℕ) (r r' : Session)
    → IsConsistent s
    → get s.sessions (session_key p t) ≡ some r
    → r'.binding ≡ r.binding
    → p ≡ r.binding.profile_id
    → (state_beq r'.state released ≡ false
        → has s.source_revocations (source_key_of r.binding) ≡ false)
    → IsConsistent (record s {
      sessions = set s.sessions (session_key p t) r';
      dispatches = revoke_session_dispatches p t now s.dispatches;
    })
unfolding revoke_session_dispatches
replace_session s p t now r r' v found same own unrevoked = record {
  unique_sessions = set-Unique s.sessions (session_key p t) r' v.unique_sessions;
  unique_dispatches = map_values-Unique _ s.dispatches v.unique_dispatches;
  unique_sources = v.unique_sources;
  unique_devices = v.unique_devices;
  session_at = λ k x h. elim (set_inv s.sessions (session_key p t) k r' x h) [
    | inl (at, is) ↦
        let f = v.session_at (session_key p t) r found in
        rw (← at, ← is)
          (record {
            keyed = rw same f.keyed;
            separable = rw same f.separable;
            unrevoked = λ live. rw same (unrevoked live);
          })
    | inr (_, old) ↦ v.session_at k x old
  ];
  dispatch_at = λ k x h.
      let (d, e, from) = map_values_inv _ s.dispatches k x h in
      rw from (
        revoke_session_fits p t now r'
          (rw own (v.session_at (session_key p t) r found).separable.profile) k d
          (v.dispatch_at k d e));
}

-- A new session, under a key that was free.
pub add_session :
    (s : Repository) (k : Text) (r : Session)
    → IsConsistent s
    → get s.sessions k ≡ none
    → SessionFits s.source_revocations k r
    → IsConsistent (record s { sessions = set s.sessions k r })
add_session s k r v free fits = record {
  unique_sessions = set-Unique s.sessions k r v.unique_sessions;
  unique_dispatches = v.unique_dispatches;
  unique_sources = v.unique_sources;
  unique_devices = v.unique_devices;
  session_at = λ j x h. elim (set_inv s.sessions k j r x h) [
    | inl (at, is) ↦ rw (← at, ← is) fits
    | inr (_, old) ↦ v.session_at j x old
  ];
  dispatch_at = λ j d h.
      let f = v.dispatch_at j d h in
      record {
        keyed = f.keyed;
        separable = f.separable;
        lease = f.lease;
        backed = λ active.
            let b = f.backed active in IsBacked-set s.sessions k r d (λ e. cc (free, b.found)) b;
      };
}

-- A new or changed dispatch that fits.
pub put_dispatch :
    (s : Repository) (k : Text) (d : Dispatch)
    → IsConsistent s
    → DispatchFits s.source_revocations s.sessions k d
    → IsConsistent (record s { dispatches = set s.dispatches k d })
put_dispatch s k d v fits = record {
  unique_sessions = v.unique_sessions;
  unique_dispatches = set-Unique s.dispatches k d v.unique_dispatches;
  unique_sources = v.unique_sources;
  unique_devices = v.unique_devices;
  session_at = v.session_at;
  dispatch_at = λ j x h. elim (set_inv s.dispatches k j d x h) [
    | inl (at, is) ↦ rw (← at, ← is) fits
    | inr (_, old) ↦ v.dispatch_at j x old
  ];
}

-- Some dispatches revoked, wherever a test says so.
pub revoke_some :
    (s : Repository) (test : Dispatch → Bool) (now : ℕ)
    → IsConsistent s
    → IsConsistent (record s {
      dispatches = map_values (λ d. if test d then revoke_dispatch now d else d) s.dispatches;
    })
revoke_some s test now v = record {
  unique_sessions = v.unique_sessions;
  unique_dispatches = map_values-Unique _ s.dispatches v.unique_dispatches;
  unique_sources = v.unique_sources;
  unique_devices = v.unique_devices;
  session_at = v.session_at;
  dispatch_at = λ k x h.
      let (d, e, from) = map_values_inv _ s.dispatches k x h in
      rw from (elim (Bool-cases (test d)) [
        | inl t ↦ rw t (revoke-DispatchFits now d (v.dispatch_at k d e))
        | inr t ↦ rw t (v.dispatch_at k d e)
      ]);
}
