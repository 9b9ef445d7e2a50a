-- ===== src/PlaybackSessions/Invariant/Sessions.antt =====
-- openSession, transition and transitionAndEnqueue keep the repository consistent.
use jumpgate_bridge.Prelude.{
  ℕ, ◌≡◌, refl, sym, ap, subst, ◌∙◌, list_eq, nat_eq, Bool, true, false, ◌||◌, not, Option, none,
  some, arith, if◌then◌else◌, ltb, Bool-cases, Option-cases, inl, inr,
}
use jumpgate_bridge.Prelude.Text.{text_iff}
use jumpgate_bridge.Prelude.Map.{get, has, get-set}
use jumpgate_bridge.Prelude.Map.Keys.{set-set}
use jumpgate_bridge.Prelude.Outcome.{Result, ok, err}
use jumpgate_bridge.Prelude.Outcome.Rules.{after_result, after_require}
use jumpgate_bridge.Value.{Value, Number, max_safe_integer}
use jumpgate_bridge.RepositoryUtils.{read_clock, assert_positive_integer}
use jumpgate_bridge.PlaybackSession.{
  PlaybackState, released, state_beq, Binding, Session, same_binding, DispatchInput, PublicDispatch,
}
use jumpgate_bridge.PlaybackSession.Inputs.{OpenInput, TransitionInput}
use jumpgate_bridge.PlaybackSessions.State.{
  Repository, Authority, dispatch_key, source_key_of, assert_durable_binding, assert_session,
}
use jumpgate_bridge.PlaybackSessions.Sessions.{
  open_candidate, source_revoked, transition_now, key_of, moved, stamped, change_state,
  new_dispatch, enqueue, transition_and_enqueue_candidate,
}
use jumpgate_bridge.PlaybackSessions.Invariant.{IsConsistent, DispatchFits, IsSeparable}
use jumpgate_bridge.PlaybackSessions.Invariant.Moves.{add_session, replace_session, put_dispatch}

pub open_candidate-IsConsistent :
    (authority : Authority) (reading : Number) (c : OpenInput) (s : Repository)
    → IsSeparable c.binding
    → IsConsistent s
    → IsConsistent (open_candidate authority reading c s).1
unfolding open_candidate
open_candidate-IsConsistent authority reading c s apart v =
    after_result Holds (assert_durable_binding authority c.binding none s) _ s (λ e _. v)
      λ p _.
        after_require Holds (not (source_revoked s c.binding)) _ _ s (λ _. v)
          λ standing. elim (Option-cases (get s.sessions (key_of c.binding))) [
            | inr (r, found) ↦ rw (found, open_candidate) v
            | inl free ↦
                rw (free, open_candidate)
                  (after_result Holds (read_clock reading) _ s (λ e _. v)
                    λ now _.
                      add_session s (key_of c.binding) _ v free
                        (record { keyed = refl; separable = apart; unrevoked = λ _. ground arith }))
          ]
  where
    Holds : Result Session × Repository → Type 0
    Holds x = IsConsistent x.1

pub same_binding_sound : (a b : Binding) → same_binding a b ≡ true → a ≡ b
unfolding same_binding
same_binding_sound a b h = ground (
  arith,
  text_iff a.profile_id b.profile_id,
  text_iff a.device_id b.device_id,
  text_iff a.session_id b.session_id,
  text_iff a.context_id b.context_id,
  text_iff a.playback_generation b.playback_generation,
  text_iff a.context_revision b.context_revision,
)

pub state_beq_sound : (a b : PlaybackState) → state_beq a b ≡ true → a ≡ b
unfolding state_beq
state_beq_sound a b h = ground arith

pub assert_session_sound :
    (o : Option Session) (b : Binding) (n : ℕ) (r : Session)
    → assert_session o b n ≡ ok r
    → (o ≡ some r) × (r.binding ≡ b)
unfolding assert_session
assert_session_sound none b n r h = cc
assert_session_sound (some x) b n r h =
    let same : x ≡ r = ground arith in
    (ap some same, rw (← same) (same_binding_sound x.binding b (ground arith)))

-- What a successful transition leaves behind.
abbrev pub Arrived : TransitionInput → Result Session → Repository → Type 0
Arrived c (err e) t = Unit
Arrived c (ok r) t =
    (get t.sessions (key_of c.binding) ≡ some r)
    × (r.binding ≡ c.binding)
    × (r.state ≡ c.state)
    × (has t.source_revocations (source_key_of c.binding) ≡ false)

abbrev pub Moved : TransitionInput → Result Session × Repository → Type 0
Moved c x = IsConsistent x.1 × Arrived c x.0 x.1

change_state-Moved :
    (c : TransitionInput) (r : Session) (reading : Number) (now : ℕ) (s : Repository)
    → read_clock reading ≡ ok now
    → IsConsistent s
    → get s.sessions (key_of r.binding) ≡ some r
    → r.binding ≡ c.binding
    → has s.source_revocations (source_key_of c.binding) ≡ false
    → Moved c (change_state r c.state reading s)
unfolding change_state
change_state-Moved c r reading now s clock v found same standing =
    elim (Bool-cases (ltb r.revision max_safe_integer)) [
      | inr full ↦ rw (full, change_state) (v, tt)
      | inl room ↦
          rw (room, clock, set-set, change_state)
            (
              replace_session s r.binding.profile_id r.binding.session_id now r
                  (stamped (moved r c.state) now) v found (unfold moved stamped in refl) refl
                  (λ _. rw same standing),
              (
                rw (get-set, ← same)
                    (ground (arith, text_iff (key_of r.binding) (key_of r.binding))),
                unfold moved stamped in same,
                unfold moved stamped in refl,
                standing,
              ),
            )
    ]

pub transition_now-Moved :
    (authority : Authority) (reading : Number) (now : ℕ) (c : TransitionInput) (s : Repository)
    → read_clock reading ≡ ok now
    → IsConsistent s
    → Moved c (transition_now authority reading c s)
unfolding transition_now
transition_now-Moved authority reading now c s clock v =
    after_result (Moved c)
      (assert_session (get s.sessions (key_of c.binding)) c.binding c.expected_revision) _ s
      (λ e _. (v, tt))
      λ r bound.
        let (found, same) = assert_session_sound _ c.binding c.expected_revision r bound in
        after_require (Moved c) (not (state_beq r.state released) || state_beq c.state released) _ _
          s (λ _. (v, tt))
          λ _.
            after_result (Moved c) (assert_durable_binding authority c.binding none s) _ s
              (λ e _. (v, tt))
              λ p _.
                after_require (Moved c) (not (source_revoked s c.binding)) _ _ s (λ _. (v, tt))
                  λ standing. last r found same (ground arith)
  where
    last :
        (r : Session)
        → get s.sessions (key_of c.binding) ≡ some r
        → r.binding ≡ c.binding
        → has s.source_revocations (source_key_of c.binding) ≡ false
        → Moved c (
            (if state_beq r.state c.state then (λ t. (ok r, t)) else change_state r c.state reading)
              s)
    last r found same standing = elim (Bool-cases (state_beq r.state c.state)) [
      | inl e ↦ rw e (v, (found, same, state_beq_sound r.state c.state e, standing))
      | inr e ↦ rw e (
          change_state-Moved c r reading now s clock v
            (ap (λ b. get s.sessions (key_of b)) same ∙ found) same standing)
    ]

new_dispatch-DispatchFits :
    (c : TransitionInput) (input : DispatchInput) (generation now : ℕ) (r : Session)
    (s : Repository)
    → IsSeparable c.binding
    → input.required_state ≡ c.state
    → Arrived c (ok r) s
    → DispatchFits s.source_revocations s.sessions
        (dispatch_key c.binding.profile_id input.id)
        (new_dispatch c input generation r.revision now)
unfolding new_dispatch
new_dispatch-DispatchFits c input generation now r s apart required (found, same, state, standing) =
    record {
      keyed = refl;
      separable = apart;
      lease = (refl, refl, refl);
      backed = λ _. record {
        session = r;
        found = found;
        bound = same;
        at_revision = refl;
        in_state = state ∙ sym required;
        source = standing;
      };
    }

module _ (deep_equal : Value → Value → Bool) (same_progress : Number → Number → Bool) where
  enqueue-IsConsistent :
      (authority : Authority) (reading later : Number) (now : ℕ) (c : TransitionInput)
      (input : DispatchInput) (generation : ℕ) (s : Repository)
      → read_clock reading ≡ ok now
      → IsSeparable c.binding
      → input.required_state ≡ c.state
      → IsConsistent s
      → IsConsistent
          (enqueue deep_equal same_progress authority reading later c input generation s).1
  unfolding enqueue
  enqueue-IsConsistent authority reading later now c input generation s clock apart required v =
      after_result Holds (transition_now authority reading c s).0 _
        (transition_now authority reading c s).1 (λ e _. moved_on.0)
        λ r went.
          after_result Holds (read_clock later) _ (transition_now authority reading c s).1
            (λ e _. moved_on.0)
            λ then_now _. put_dispatch _ _ _ moved_on.0 (
              new_dispatch-DispatchFits c input generation then_now r
                (transition_now authority reading c s).1 apart required
                (subst (λ x. Arrived c x (transition_now authority reading c s).1) went moved_on.1))
    where
      Holds : Result (Session × PublicDispatch) × Repository → Type 0
      Holds x = IsConsistent x.1

      moved_on : Moved c (transition_now authority reading c s)
      moved_on = transition_now-Moved authority reading now c s clock v

  pub transition_and_enqueue-IsConsistent :
      (authority : Authority) (reading later : Number) (now : ℕ) (c : TransitionInput)
      (input : DispatchInput) (s : Repository)
      → read_clock reading ≡ ok now
      → IsSeparable c.binding
      → input.required_state ≡ c.state
      → IsConsistent s
      → IsConsistent
          (transition_and_enqueue_candidate deep_equal same_progress authority reading later c input
            s).1
  unfolding transition_and_enqueue_candidate
  transition_and_enqueue-IsConsistent authority reading later now c input s clock apart required v =
      after_result Holds (assert_durable_binding authority c.binding none s) _ s (λ e _. v)
        λ p _.
          after_result Holds (assert_positive_integer p.history_generation max_safe_integer) _ s
            (λ e _. v)
            λ generation _.
              elim (Option-cases (get s.dispatches (dispatch_key c.binding.profile_id input.id))) [
                | inl free ↦
                    rw (free, transition_and_enqueue_candidate)
                      (enqueue-IsConsistent authority reading later now c input generation s clock
                        apart required v)
                | inr (d, taken) ↦ rw (taken, transition_and_enqueue_candidate) v
              ]
    where
      Holds : Result (Session × PublicDispatch) × Repository → Type 0
      Holds x = IsConsistent x.1
