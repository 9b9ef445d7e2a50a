-- ===== src/PlaybackSessions/Invariant.antt =====
-- What holds of the repository between operations: each record lies under its own key, and a
-- dispatch that is queued or leased has the session, revision and state that it was made for.
pub mod Keys
pub mod Moves
pub mod Releases
pub mod Inputs
pub mod Sessions
pub mod Dispatches
pub mod Deliveries
pub mod Invalidation
pub mod Erasure
pub mod Reachable
use jumpgate_bridge.Prelude.{ℕ, ◌≡◌, Bool, true, false, Option, none, some, list_eq, nat_eq}
use jumpgate_bridge.Prelude.Text.{Text, NulFree}
use jumpgate_bridge.Prelude.Map.{Map, get, has, Unique}
use jumpgate_bridge.PlaybackSession.{
  PlaybackState, released, state_beq, DispatchStatus, queued, leased, delivered, revoked, is_active,
  Binding, Session, Dispatch,
}
use jumpgate_bridge.PlaybackSessions.State.{Repository, session_key, dispatch_key, source_key_of}

abbrev pub Revocations : Type 0
Revocations = Map Text (Unit {0})

-- The parts of composite keys hold no NUL.
pub record IsSeparable (b : Binding) : Type 0 where
  pub profile : NulFree b.profile_id
  pub session : NulFree b.session_id
  pub context : NulFree b.context_id
  pub generation : NulFree b.playback_generation

pub record SessionFits (sources : Revocations) (k : Text) (r : Session) : Type 0 where
  pub keyed : k ≡ session_key r.binding.profile_id r.binding.session_id
  pub separable : IsSeparable r.binding
  pub unrevoked : state_beq r.state released ≡ false → has sources (source_key_of r.binding) ≡ false

-- The session for which a dispatch may be delivered.
pub record IsBacked (sources : Revocations) (sessions : Map Text Session) (d : Dispatch)
    : Type 0 where
  pub session : Session
  pub found : get sessions (session_key d.binding.profile_id d.binding.session_id) ≡ some session
  pub bound : session.binding ≡ d.binding
  pub at_revision : session.revision ≡ d.session_revision
  pub in_state : session.state ≡ d.input.required_state
  pub source : has sources (source_key_of d.binding) ≡ false

-- A lease token, its owner and its term are there exactly while the dispatch is leased.
abbrev pub HasLease : DispatchStatus → Option Text → Option Text → Option ℕ → Type 0
HasLease leased h owner term =
    (h' : Text) × (owner' : Text) × (term' : ℕ) × (h ≡ some h')
    × (owner ≡ some owner')
    × (term ≡ some term')
HasLease _ h owner term = (h ≡ none) × (owner ≡ none) × (term ≡ none)

pub record DispatchFits (sources : Revocations) (sessions : Map Text Session) (k : Text)
    (d : Dispatch) : Type 0 where
  pub keyed : k ≡ dispatch_key d.binding.profile_id d.input.id
  pub separable : IsSeparable d.binding
  pub lease : HasLease d.status d.lease_token_hash d.lease_owner d.lease_expires_at
  pub backed : is_active d.status ≡ true → IsBacked sources sessions d

pub record IsConsistent (s : Repository) : Type 0 where
  pub unique_sessions : Unique s.sessions
  pub unique_dispatches : Unique s.dispatches
  pub unique_sources : Unique s.source_revocations
  pub unique_devices : Unique s.device_invalidations
  pub session_at :
      (k : Text) (r : Session) → get s.sessions k ≡ some r → SessionFits s.source_revocations k r
  pub dispatch_at :
      (k : Text) (d : Dispatch)
      → get s.dispatches k ≡ some d
      → DispatchFits s.source_revocations s.sessions k d
