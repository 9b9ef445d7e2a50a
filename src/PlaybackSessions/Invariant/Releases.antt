-- ===== src/PlaybackSessions/Invariant/Releases.antt =====
-- _releaseMatching keeps the repository consistent: the sessions that match are released, and
-- with each of them its dispatches are revoked.
use jumpgate_bridge.Prelude.{
  ℕ, ◌==◌, ◌≡◌, refl, sym, ◌∙◌, ◌⊎◌, list_eq, nat_eq, Bool, true, false, ◌&&◌, some, List, [], ◌∷◌,
  arith, if◌then◌else◌, Bool-cases, inl, inr,
}
use jumpgate_bridge.Prelude.Text.{Text, text_iff}
use jumpgate_bridge.Prelude.Map.{Map, get, has, values, Unique, map_values_inv, get-map_values}
use jumpgate_bridge.Prelude.Map.Keys.{map_values-Unique}
use jumpgate_bridge.PlaybackSession.{released, state_beq, is_active, Session, Dispatch}
use jumpgate_bridge.PlaybackSessions.State.{
  Repository, session_key, source_key_of, revoke_dispatch, of_session, revoke_session_dispatches,
  release_record, release_sessions, revoke_released, release_matching,
}
use jumpgate_bridge.PlaybackSessions.Invariant.{IsConsistent, SessionFits, IsBacked, Revocations}
use jumpgate_bridge.PlaybackSessions.Invariant.Moves.{revoke-DispatchFits}

revoke_twice :
    (now : ℕ) (d : Dispatch) → revoke_dispatch now (revoke_dispatch now d) ≡ revoke_dispatch now d
unfolding revoke_dispatch is_active
revoke_twice now d = ground arith

pub release-binding : (now : ℕ) (r : Session) → (release_record now r).binding ≡ r.binding
unfolding release_record
release-binding now r = ground arith

pub release-released :
    (now : ℕ) (r : Session) → state_beq (release_record now r).state released ≡ true
unfolding release_record state_beq
release-released now r = ground arith

module _ (matches : Session → Bool) (now : ℕ) where
  releases : Session → Dispatch → Bool
  releases r d = matches r && of_session r.binding.profile_id r.binding.session_id d

  -- No session of the list that matches is the dispatch's.
  abbrev Untouched : List Session → Dispatch → Type 0
  Untouched [] d = Unit
  Untouched (r ∷ rs) d = (releases r d ≡ false) × Untouched rs d

  abbrev After : List Session → Dispatch → Dispatch → Type 0
  After rs d x = ((x ≡ d) × Untouched rs d) ⊎ (x ≡ revoke_dispatch now d)

  After-cons :
      (r : Session) (rs : List Session) (d x : Dispatch)
      → After rs (if releases r d then revoke_dispatch now d else d) x
      → After (r ∷ rs) d x
  After-cons r rs d x a = elim (Bool-cases (releases r d)) [
    | inl e ↦ elim (rw e at a) [
      | inl (same, _) ↦ inr same
      | inr again ↦ inr (again ∙ revoke_twice now d)
    ]
    | inr e ↦ elim (rw e at a) [ inl (same, rest) ↦ inl (same, (e, rest)) | inr gone ↦ inr gone ]
  ]

  step_inv :
      (r : Session) (ds : Map Text Dispatch) (k : Text) (x : Dispatch)
      → get
          (if matches r
            then revoke_session_dispatches r.binding.profile_id r.binding.session_id now ds
            else ds)
          k
        ≡ some x
      → (d : Dispatch) × (get ds k ≡ some d)
        × (x ≡ (if releases r d then revoke_dispatch now d else d))
  unfolding releases revoke_session_dispatches
  step_inv r ds k x h = elim (Bool-cases (matches r)) [
    | inl e ↦ let (d, at, is) = map_values_inv _ ds k x (rw e at h) in (d, at, rw e is)
    | inr e ↦ (x, rw e at h, rw e refl)
  ]

  revoke_released_inv :
      (rs : List Session) (ds : Map Text Dispatch) (k : Text) (x : Dispatch)
      → get (revoke_released matches now rs ds) k ≡ some x
      → (d : Dispatch) × (get ds k ≡ some d) × After rs d x
  unfolding revoke_released
  revoke_released_inv [] ds k x h = (x, h, inl (refl, tt))
  revoke_released_inv (r ∷ rs) ds k x h =
      let (d', at', a) = revoke_released_inv rs _ k x h in
      let (d, at, is) = step_inv r ds k d' at' in (d, at, After-cons r rs d x (rw is at a))

  Untouched-get :
      (m : Map Text Session) (k : Text) (r : Session) (d : Dispatch)
      → get m k ≡ some r
      → Untouched (values m) d
      → releases r d ≡ false
  unfolding get values
  Untouched-get [] k r d h u = cc
  Untouched-get ((j, w) ∷ m) k r d h u = elim (Bool-cases (j == k)) [
    | inl e ↦ let same : w ≡ r = ground arith in rw (← same) u.0
    | inr e ↦ Untouched-get m k r d (ground arith) u.1
  ]

  revoke_released-Unique :
      (rs : List Session) (ds : Map Text Dispatch)
      → Unique ds
      → Unique (revoke_released matches now rs ds)
  unfolding revoke_released revoke_session_dispatches
  revoke_released-Unique [] ds u = u
  revoke_released-Unique (r ∷ rs) ds u =
      revoke_released-Unique rs _
        (elim (Bool-cases (matches r)) [ inl e ↦ rw e (map_values-Unique _ ds u) | inr e ↦ rw e u ])

  of_own_session : (r : Session) (d : Dispatch) → r.binding ≡ d.binding → releases r d ≡ matches r
  unfolding releases of_session
  of_own_session r d e = rw (← e) (
      ground (
        arith,
        text_iff r.binding.profile_id r.binding.profile_id,
        text_iff r.binding.session_id r.binding.session_id,
      ))

  module _ (s : Repository) (sources : Revocations) (v : IsConsistent s)
      (kept : (k : Text) (r : Session)
        → get s.sessions k ≡ some r
        → matches r ≡ false
        → has s.source_revocations (source_key_of r.binding) ≡ false
        → has sources (source_key_of r.binding) ≡ false) where
    released_session :
        (k : Text) (r : Session)
        → get s.sessions k ≡ some r
        → SessionFits sources k (if matches r then release_record now r else r)
    released_session k r at =
        let f = v.session_at k r at in
        elim (Bool-cases (matches r)) [
          | inl e ↦ rw e (record {
            keyed = rw (release-binding now r) f.keyed;
            separable = rw (release-binding now r) f.separable;
            unrevoked = λ live. cc (release-released now r);
          })
          | inr e ↦ rw e (record {
            keyed = f.keyed;
            separable = f.separable;
            unrevoked = λ live. kept k r at e (f.unrevoked live);
          })
        ]

    still-IsBacked :
        (d : Dispatch)
        → Untouched (values s.sessions) d
        → IsBacked s.source_revocations s.sessions d
        → IsBacked sources (release_sessions matches now s.sessions) d
    unfolding release_sessions
    still-IsBacked d u b =
        let key = session_key d.binding.profile_id d.binding.session_id in
        let unmatched : matches b.session ≡ false =
          sym (of_own_session b.session d b.bound)
          ∙ Untouched-get s.sessions key b.session d b.found u in
        record {
          session = b.session;
          found = rw (get-map_values _ s.sessions key, b.found) (ground (arith, unmatched));
          bound = b.bound;
          at_revision = b.at_revision;
          in_state = b.in_state;
          source = rw (← b.bound) (kept key b.session b.found unmatched (rw b.bound b.source));
        }

    -- The releases keep the repository consistent, also while source claims are being revoked,
    -- provided that every session left alone has a claim that still stands.
    pub release_matching-IsConsistent :
        Unique sources
        → IsConsistent (release_matching matches now (record s { source_revocations = sources }))
    unfolding release_matching release_sessions
    release_matching-IsConsistent u = record {
      unique_sessions = map_values-Unique _ s.sessions v.unique_sessions;
      unique_dispatches =
          revoke_released-Unique (values s.sessions) s.dispatches v.unique_dispatches;
      unique_sources = u;
      unique_devices = v.unique_devices;
      session_at = λ k x h.
          let (r, at, is) = map_values_inv _ s.sessions k x h in rw is (released_session k r at);
      dispatch_at = λ k x h.
          let (d, at, a) = revoke_released_inv (values s.sessions) s.dispatches k x h in
          let f = v.dispatch_at k d at in
          elim a [
            | inl (same, u) ↦ rw same (record {
              keyed = f.keyed;
              separable = f.separable;
              lease = f.lease;
              backed = λ active. still-IsBacked d u (f.backed active);
            })
            | inr gone ↦ rw gone (revoke-DispatchFits now d f)
          ];
    }
