-- ===== src/PlaybackSessions/Invariant/Dispatches.antt =====
-- claimDispatch, withDispatchAdmission and retryDispatch keep the repository consistent.
use jumpgate_bridge.Prelude.{
  ℕ, zero, suc, ◌+◌, ◌≡◌, refl, sym, ap, subst, ◌∙◌, list_eq, nat_eq, option_eq, Bool, true, Option,
  none, some, arith, Bool-cases, Option-cases, inl, inr,
}
use jumpgate_bridge.Prelude.Text.{Text, text}
use jumpgate_bridge.Prelude.Map.{Map, get, set, values}
use jumpgate_bridge.Prelude.Outcome.{Result}
use jumpgate_bridge.Prelude.Outcome.Rules.{after_result}
use jumpgate_bridge.RepositoryUtils.{read_clock}
use jumpgate_bridge.TokenService
use jumpgate_bridge.TokenService.{Token, hash_token}
use jumpgate_bridge.PlaybackSession.{is_active, Dispatch, Session}
use jumpgate_bridge.PlaybackSession.Inputs.{ClaimInput}
use jumpgate_bridge.PlaybackSessions.State.{Repository, revoke_dispatch, is_dispatch_authoritative}
use jumpgate_bridge.PlaybackSessions.Dispatches.{
  claimable, key_of, lease, Round, Claimed, ClaimOutcome, grant, claim_current, claim_candidate,
  claim_loop, select_candidate,
}
use jumpgate_bridge.PlaybackSessions.Invariant.{
  IsConsistent, DispatchFits, IsBacked, HasLease, Revocations,
}
use jumpgate_bridge.PlaybackSessions.Invariant.Moves.{put_dispatch, revoke-DispatchFits}

claimable-active : (d : Dispatch) (now : ℕ) → claimable d now ≡ true → is_active d.status ≡ true
unfolding claimable is_active
claimable-active d now h = ground arith

-- A dispatch for the same session, revision and state is backed alike.
pub IsBacked-same :
    {sources : Revocations} {sessions : Map Text Session} (d d' : Dispatch)
    → d'.binding ≡ d.binding
    → d'.input ≡ d.input
    → d'.session_revision ≡ d.session_revision
    → IsBacked sources sessions d
    → IsBacked sources sessions d'
IsBacked-same d d' binding input revision b = record {
  session = b.session;
  found = rw binding b.found;
  bound = b.bound ∙ sym binding;
  at_revision = b.at_revision ∙ sym revision;
  in_state = b.in_state ∙ ap (λ i. i.required_state) (sym input);
  source = rw binding b.source;
}

-- Replacing a dispatch that is still active by one for the same session.
pub replace_dispatch :
    (s : Repository) (k : Text) (d d' : Dispatch)
    → IsConsistent s
    → get s.dispatches k ≡ some d
    → is_active d.status ≡ true
    → d'.binding ≡ d.binding
    → d'.input ≡ d.input
    → d'.session_revision ≡ d.session_revision
    → HasLease d'.status d'.lease_token_hash d'.lease_owner d'.lease_expires_at
    → IsConsistent (record s { dispatches = set s.dispatches (key_of d) d' })
replace_dispatch s k d d' v at active binding input revision held =
    let f = v.dispatch_at k d at in
    put_dispatch s (key_of d) d' v (record {
      keyed = rw (binding, input);
      separable = rw binding f.separable;
      lease = held;
      backed = λ _. IsBacked-same d d' binding input revision (f.backed active);
    })

pub revoke-IsConsistent :
    (s : Repository) (k : Text) (d : Dispatch) (now : ℕ)
    → IsConsistent s
    → get s.dispatches k ≡ some d
    → IsConsistent (record s { dispatches = set s.dispatches (key_of d) (revoke_dispatch now d) })
revoke-IsConsistent s k d now v at =
    let f = v.dispatch_at k d at in
    put_dispatch s (key_of d) (revoke_dispatch now d) v (
      subst (λ j. DispatchFits s.source_revocations s.sessions j (revoke_dispatch now d)) f.keyed
        (revoke-DispatchFits now d f))

module _ (hmac : Text → Text) where
  grant-IsConsistent :
      (c : ClaimInput) (round : Round) (now : ℕ) (k : Text) (d : Dispatch) (s : Repository)
      → IsConsistent s
      → get s.dispatches k ≡ some d
      → is_active d.status ≡ true
      → IsConsistent (grant hmac c round now d s).1
  unfolding grant
  grant-IsConsistent c round now k d s v at active =
      after_result Holds (TokenService.issue hmac (text "scrobble-dispatch-lease") round.random) _ s
        (λ e _. v)
        λ issued _.
          replace_dispatch s k d (lease d c issued now) v at active (unfold lease in refl)
            (unfold lease in refl) (unfold lease in refl)
            (unfold lease in (issued.token_hash, c.worker_id, now + c.lease_ms, refl, refl, refl))
    where
      Holds : Result (Option Claimed) × Repository → Type 0
      Holds x = IsConsistent x.1

  claim_current-IsConsistent :
      (c : ClaimInput) (round : Round) (now : ℕ) (k : Text) (o : Option Dispatch) (s : Repository)
      → IsConsistent s
      → get s.dispatches k ≡ o
      → IsConsistent (claim_current hmac c round now o s).1
  unfolding claim_current
  claim_current-IsConsistent c round now k none s v at = v
  claim_current-IsConsistent c round now k (some d) s v at = elim (Bool-cases (claimable d now)) [
    | inr idle ↦ rw idle v
    | inl due ↦ rw due (elim (Bool-cases (is_dispatch_authoritative round.authority s d)) [
      | inl granted ↦
          rw (granted, claim_current)
            (grant-IsConsistent c round now k d s v at (claimable-active d now due))
      | inr refused ↦ rw (refused, claim_current) (revoke-IsConsistent s k d now v at)
    ])
  ]

  pub claim_candidate-IsConsistent :
      (c : ClaimInput) (round : Round) (candidate : Dispatch) (s : Repository)
      → IsConsistent s
      → IsConsistent (claim_candidate hmac c round candidate s).1
  unfolding claim_candidate
  claim_candidate-IsConsistent c round candidate s v =
      after_result Holds (read_clock round.current_reading) _ s (λ e _. v)
        λ now _.
          claim_current-IsConsistent c round now (key_of candidate)
            (get s.dispatches (key_of candidate)) s v refl
    where
      Holds : Result (Option Claimed) × Repository → Type 0
      Holds x = IsConsistent x.1

  pub claim_loop-IsConsistent :
      (locale_before : Text → Text → Bool) (fuel : ℕ) (rounds : ℕ → Round) (c : ClaimInput)
      (s : Repository)
      → IsConsistent s
      → IsConsistent (claim_loop hmac locale_before fuel rounds c s).1
  unfolding claim_loop
  claim_loop-IsConsistent locale_before zero rounds c s v = v
  claim_loop-IsConsistent locale_before (suc fuel) rounds c s v =
      after_result Holds (read_clock (rounds fuel).reading) _ s (λ e _. v)
        λ now _. elim (Option-cases (select_candidate locale_before (values s.dispatches) now)) [
          | inl idle ↦ rw (idle, claim_loop) v
          | inr (d, chosen) ↦
              rw (chosen, claim_loop)
                (after_result Holds (claim_candidate hmac c (rounds fuel) d s).0 _
                  (claim_candidate hmac c (rounds fuel) d s).1 (λ e _. next d)
                  λ outcome _. elim (Option-cases outcome) [
                    | inl again ↦
                        rw again (claim_loop-IsConsistent locale_before fuel rounds c _ (next d))
                    | inr (result, found) ↦ rw found (next d)
                  ])
        ]
    where
      Holds : Result ClaimOutcome × Repository → Type 0
      Holds x = IsConsistent x.1

      next : (d : Dispatch) → IsConsistent (claim_candidate hmac c (rounds fuel) d s).1
      next d = claim_candidate-IsConsistent c (rounds fuel) d s v
