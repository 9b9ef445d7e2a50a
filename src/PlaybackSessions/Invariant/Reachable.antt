-- ===== src/PlaybackSessions/Invariant/Reachable.antt =====
-- The calls of the repository, with whatever answers of the callbacks, and the repositories that
-- sequences of them build from a new one. A call may throw, but not for the clock where its
-- constructor says that the clock is in range.
use jumpgate_bridge.Prelude.{ℕ, ◌≡◌, Bool, true, some, [], list_eq, nat_eq}
use jumpgate_bridge.Prelude.Text.{Text}
use jumpgate_bridge.Prelude.Map.{get}
use jumpgate_bridge.Prelude.Outcome.{Result, ok}
use jumpgate_bridge.Value.{Value, Number}
use jumpgate_bridge.RepositoryUtils.{read_clock}
use jumpgate_bridge.PlaybackSession.{Dispatch, PublicDispatch, DispatchInput, is_active}
use jumpgate_bridge.PlaybackSession.Inputs.{
  OpenInput, TransitionInput, ClaimInput, AdmissionInput, RetryInput, SessionInvalidation,
  SourceInvalidation,
}
use jumpgate_bridge.PlaybackSessions.State.{Authority, Repository}
use jumpgate_bridge.PlaybackSessions.Sessions.{
  open_candidate, transition_now, transition_and_enqueue_candidate,
}
use jumpgate_bridge.PlaybackSessions.Dispatches.{Round, claim_candidate}
use jumpgate_bridge.PlaybackSessions.Deliveries.{with_dispatch_admission, retry_candidate}
use jumpgate_bridge.PlaybackSessions.Invalidation.{
  invalidate_profile, invalidate_device, invalidate_session, invalidate_source_claim,
  invalidate_history,
}
use jumpgate_bridge.PlaybackSessions.Profiles.{erase_profile}
use jumpgate_bridge.PlaybackSessions.Invariant.{IsConsistent, IsSeparable, IsBacked}
use jumpgate_bridge.PlaybackSessions.Invariant.Erasure.{erase_profile-IsConsistent}
use jumpgate_bridge.PlaybackSessions.Invariant.Sessions.{
  open_candidate-IsConsistent, transition_now-Moved, transition_and_enqueue-IsConsistent,
}
use jumpgate_bridge.PlaybackSessions.Invariant.Dispatches.{claim_candidate-IsConsistent}
use jumpgate_bridge.PlaybackSessions.Invariant.Deliveries.{
  with_dispatch_admission-IsConsistent, retry_candidate-IsConsistent,
}
use jumpgate_bridge.PlaybackSessions.Invariant.Invalidation.{
  IsSeparableClaim, invalidate_profile-IsConsistent, invalidate_device-IsConsistent,
  invalidate_session-IsConsistent, invalidate_source_claim-IsConsistent,
  invalidate_history-IsConsistent,
}

-- A new repository.
abbrev pub empty_repository : Repository
empty_repository = record {
  sessions = [];
  dispatches = [];
  source_revocations = [];
  profile_invalidations = [];
  device_invalidations = [];
}

-- One call, on input that has been normalised. A transition, an enqueue, a retry and the
-- invalidation of a source read a clock that is in range, and so does a delivery after its
-- operation, which does not call the repository. restoreProfileNow is not a call: it puts back what
-- its caller has saved, whatever that is.
pub data Call : Type 0 where
  opens : Authority → Number → (c : OpenInput) → IsSeparable c.binding → Call
  transitions :
      Authority
      → (reading : Number) (now : ℕ) → TransitionInput
      → read_clock reading ≡ ok now
      → Call
  enqueues :
      (deep_equal : Value → Value → Bool) (same_progress : Number → Number → Bool)
      (authority : Authority) (reading later : Number) (now : ℕ) (c : TransitionInput)
      (input : DispatchInput)
      → read_clock reading ≡ ok now
      → IsSeparable c.binding
      → input.required_state ≡ c.state
      → Call
  claims : (hmac : Text → Text) → ClaimInput → Round → Dispatch → Call
  delivers :
      (hmac : Text → Text) (authority : Authority) (reading later : Number) (now : ℕ)
      (a : AdmissionInput) (operation : PublicDispatch → Result Value)
      → read_clock later ≡ ok now
      → Call
  retries :
      (hmac : Text → Text) (authority : Authority) (reading : Number) (now : ℕ) (r : RetryInput)
      → read_clock reading ≡ ok now
      → Call
  invalidates_profile : Number → Text → ℕ → Call
  invalidates_device : Number → Text → Text → ℕ → Call
  invalidates_session : Number → SessionInvalidation → Call
  invalidates_source :
      (reading : Number) (now : ℕ) (c : SourceInvalidation)
      → read_clock reading ≡ ok now
      → IsSeparableClaim c
      → Call
  invalidates_history : Number → Number → Text → ℕ → Call
  erases : Text → Call

unfoldable pub step : Repository → Call → Repository
step s (opens a reading c _) = (open_candidate a reading c s).1
step s (transitions a reading now c _) = (transition_now a reading c s).1
step s (enqueues deep same a reading later now c input _ _ _) =
    (transition_and_enqueue_candidate deep same a reading later c input s).1
step s (claims hmac c round d) = (claim_candidate hmac c round d s).1
step s (delivers hmac a reading later now input operation _) =
    (with_dispatch_admission hmac a reading later input (λ p t. (operation p, t)) s).1
step s (retries hmac a reading now r _) = (retry_candidate hmac a reading r s).1
step s (invalidates_profile reading id revision) = (invalidate_profile reading id revision s).1
step s (invalidates_device reading p d generation) = (invalidate_device reading p d generation s).1
step s (invalidates_session reading c) = (invalidate_session reading c s).1
step s (invalidates_source reading now c _ _) = (invalidate_source_claim reading c s).1
step s (invalidates_history reading later id generation) =
    (invalidate_history reading later id generation s).1
step s (erases id) = erase_profile id s

step-IsConsistent : (s : Repository) (call : Call) → IsConsistent s → IsConsistent (step s call)
unfolding step
step-IsConsistent s (opens a reading c apart) v = open_candidate-IsConsistent a reading c s apart v
step-IsConsistent s (transitions a reading now c clock) v =
    (transition_now-Moved a reading now c s clock v).0
step-IsConsistent s (enqueues deep same a reading later now c input clock apart required) v =
    transition_and_enqueue-IsConsistent deep same a reading later now c input s clock apart required
      v
step-IsConsistent s (claims hmac c round d) v = claim_candidate-IsConsistent hmac c round d s v
step-IsConsistent s (delivers hmac a reading later now input operation clock) v =
    with_dispatch_admission-IsConsistent hmac a reading later now input _ s clock (λ p t h. h) v
step-IsConsistent s (retries hmac a reading now r clock) v =
    retry_candidate-IsConsistent hmac a reading now r s clock v
step-IsConsistent s (invalidates_profile reading id revision) v =
    invalidate_profile-IsConsistent reading id revision s v
step-IsConsistent s (invalidates_device reading p d generation) v =
    invalidate_device-IsConsistent reading p d generation s v
step-IsConsistent s (invalidates_session reading c) v =
    invalidate_session-IsConsistent reading c s v
step-IsConsistent s (invalidates_source reading now c clock apart) v =
    invalidate_source_claim-IsConsistent reading now c s clock apart v
step-IsConsistent s (invalidates_history reading later id generation) v =
    invalidate_history-IsConsistent reading later id generation s v
step-IsConsistent s (erases id) v = erase_profile-IsConsistent id s v

-- The repositories that a sequence of calls builds from a new one.
pub data IsReachable : Repository → Type 0 where
  start : IsReachable empty_repository
  after : {s : Repository} → IsReachable s → (call : Call) → IsReachable (step s call)

empty-IsConsistent : IsConsistent empty_repository
unfolding get
empty-IsConsistent = record {
  unique_sessions = tt;
  unique_dispatches = tt;
  unique_sources = tt;
  unique_devices = tt;
  session_at = λ k r h. cc;
  dispatch_at = λ k d h. cc;
}

pub IsReachable-IsConsistent : {s : Repository} → IsReachable s → IsConsistent s
IsReachable-IsConsistent start = empty-IsConsistent
IsReachable-IsConsistent (after {s} r call) = step-IsConsistent s call (IsReachable-IsConsistent r)

-- After any sequence of the calls named by Call, on normalised input, a dispatch that is queued or
-- leased has its session: the one under the same profile and session id, with the same binding, at
-- the revision and in the state for which the dispatch was made; and its source claim has not been
-- revoked.
-- restoreProfileNow is not among the calls; the clock is in range at transitions, enqueues, retries,
-- the invalidation of sources and the end of deliveries; and the operation of a delivery does not
-- call the repository.
pub IsReachable-IsBacked :
    (s : Repository) (k : Text) (d : Dispatch)
    → IsReachable s
    → get s.dispatches k ≡ some d
    → is_active d.status ≡ true
    → IsBacked s.source_revocations s.sessions d
IsReachable-IsBacked s k d r at active =
    ((IsReachable-IsConsistent r).dispatch_at k d at).backed active
