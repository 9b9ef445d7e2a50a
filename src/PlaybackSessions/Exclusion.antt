-- ===== src/PlaybackSessions/Exclusion.antt =====
-- A dispatch has one worker at a time.
use jumpgate_bridge.Prelude.{
  ℕ, ◌+◌, ◌<◌, ◌==◌, ◌≡◌, refl, subst, list_eq, nat_eq, false, Option, none, some, List, [], ◌∷◌,
  arith, Bool-cases, inl, inr, if◌then◌else◌,
}
use jumpgate_bridge.Prelude.Text.{Text, text, text_iff}
use jumpgate_bridge.Prelude.Map.{Map, get, set, get-set}
use jumpgate_bridge.Prelude.Outcome.{Result, ok}
use jumpgate_bridge.Prelude.Outcome.Rules.{after_result}
use jumpgate_bridge.RepositoryUtils.{read_clock}
use jumpgate_bridge.TokenService
use jumpgate_bridge.PlaybackSession.{leased, Dispatch}
use jumpgate_bridge.PlaybackSession.Inputs.{ClaimInput}
use jumpgate_bridge.PlaybackSessions.State.{Repository, dispatch_key, is_dispatch_authoritative}
use jumpgate_bridge.PlaybackSessions.Dispatches.{
  claimable, claimable_status, lease_expired, key_of, lease, Round, Claimed, grant, claim_current,
  claim_candidate,
}
use jumpgate_bridge.PlaybackSessions.Invariant.Reachable.{
  IsReachable, after, claims, step, IsReachable-IsConsistent,
}

get-set_own :
    (m : Map Text Dispatch) (j k : Text) (d : Dispatch) → k ≡ j → get (set m j d) k ≡ some d
get-set_own m j k d e = rw (get-set, e) (ground (arith, text_iff j j))

-- A dispatch that is leased under the key, until the end of the term.
record IsHeld (k : Text) (term : Option ℕ) (t : Repository) : Type 0 where
  dispatch : Dispatch
  found : get t.dispatches k ≡ some dispatch
  is_leased : dispatch.status ≡ leased
  same_term : dispatch.lease_expires_at ≡ term

abbrev Holds : Text → Result (Option Claimed) × Repository → Type 0
Holds k (ok (some cl), t) = IsHeld k cl.dispatch.lease_expires_at t
Holds k _ = Unit

claimable_held :
    (d : Dispatch) (term now : ℕ)
    → d.status ≡ leased
    → d.lease_expires_at ≡ some term
    → now < term
    → claimable d now ≡ false
unfolding claimable claimable_status lease_expired
claimable_held d term now is_leased held early = rw (is_leased, held) (ground arith)

-- An attempt to claim: by a worker, in a round of its loop, of the dispatch that it has selected.
pub record Attempt : Type 0 where
  pub worker : ClaimInput
  pub round : Round
  pub candidate : Dispatch

abbrev pub IsBefore : ℕ → Attempt → Type 0
IsBefore term a = (now : ℕ) → read_clock a.round.current_reading ≡ ok now → now < term

abbrev pub AllBefore : ℕ → List Attempt → Type 0
AllBefore term [] = Unit
AllBefore term (a ∷ rest) = IsBefore term a × AllBefore term rest

-- Whether the answer hands out the dispatch under the key.
unfoldable pub hands_out : Text → Result (Option Claimed) → ℕ
hands_out k (ok (some cl)) =
    if dispatch_key cl.dispatch.binding.profile_id cl.dispatch.input.id == k then 1 else 0
hands_out k _ = 0

set_other-IsHeld :
    (k j : Text) (term : Option ℕ) (d : Dispatch) (s : Repository)
    → (j == k) ≡ false
    → IsHeld k term s
    → IsHeld k term (record s { dispatches = set s.dispatches j d })
set_other-IsHeld k j term d s differ h = record {
  dispatch = h.dispatch;
  found = rw (get-set, differ) h.found;
  is_leased = h.is_leased;
  same_term = h.same_term;
}

module _ (hmac : Text → Text) where
  grant-Holds :
      (c : ClaimInput) (round : Round) (now : ℕ) (k : Text) (d : Dispatch) (s : Repository)
      → k ≡ key_of d
      → Holds k (grant hmac c round now d s)
  unfolding grant lease
  grant-Holds c round now k d s keyed =
      after_result (Holds k) (TokenService.issue hmac (text "scrobble-dispatch-lease") round.random)
        _ s (λ e _. tt)
        λ issued _. record {
          dispatch = lease d c issued now;
          found = get-set_own s.dispatches (key_of d) k (lease d c issued now) keyed;
          is_leased = refl;
          same_term = refl;
        }

  current-Holds :
      (c : ClaimInput) (round : Round) (now : ℕ) (k : Text) (o : Option Dispatch) (s : Repository)
      → ((d : Dispatch) → o ≡ some d → k ≡ key_of d)
      → Holds k (claim_current hmac c round now o s)
  unfolding claim_current
  current-Holds c round now k none s keyed = tt
  current-Holds c round now k (some d) s keyed = elim (Bool-cases (claimable d now)) [
    | inr idle ↦ rw idle tt
    | inl due ↦ rw due (elim (Bool-cases (is_dispatch_authoritative round.authority s d)) [
      | inl granted ↦ rw (granted, claim_current) (grant-Holds c round now k d s (keyed d refl))
      | inr refused ↦ rw (refused, claim_current) tt
    ])
  ]

  claim-Holds :
      (c : ClaimInput) (round : Round) (candidate : Dispatch) (s : Repository)
      → IsReachable s
      → Holds (key_of candidate) (claim_candidate hmac c round candidate s)
  unfolding claim_candidate
  claim-Holds c round candidate s r =
      after_result (Holds (key_of candidate)) (read_clock round.current_reading) _ s (λ e _. tt)
        λ now _.
          current-Holds c round now (key_of candidate) (get s.dispatches (key_of candidate)) s
            λ d at. ((IsReachable-IsConsistent r).dispatch_at (key_of candidate) d at).keyed

  -- An attempt leaves the lease of a key as it is, and does not hand out the dispatch.
  abbrev Spared : Text → Option ℕ → Result (Option Claimed) × Repository → Type 0
  Spared k term x = IsHeld k term x.1 × (hands_out k x.0 ≡ 0)

  grant-Spared :
      (c : ClaimInput) (round : Round) (now : ℕ) (k : Text) (term : Option ℕ) (d : Dispatch)
      (s : Repository)
      → (key_of d == k) ≡ false
      → IsHeld k term s
      → Spared k term (grant hmac c round now d s)
  unfolding grant lease hands_out
  grant-Spared c round now k term d s differ h =
      after_result (Spared k term)
        (TokenService.issue hmac (text "scrobble-dispatch-lease") round.random) _ s
        (λ e _. (h, refl))
        λ issued _. (set_other-IsHeld k (key_of d) term _ s differ h, rw differ refl)

  current-Spared :
      (c : ClaimInput) (round : Round) (now : ℕ) (k : Text) (term : Option ℕ) (o : Option Dispatch)
      (s : Repository)
      → ((d : Dispatch) → o ≡ some d → (key_of d == k) ≡ false)
      → IsHeld k term s
      → Spared k term (claim_current hmac c round now o s)
  unfolding claim_current hands_out
  current-Spared c round now k term none s differ h = (h, refl)
  current-Spared c round now k term (some d) s differ h = elim (Bool-cases (claimable d now)) [
    | inr idle ↦ rw idle (h, refl)
    | inl due ↦ rw due (elim (Bool-cases (is_dispatch_authoritative round.authority s d)) [
      | inl granted ↦
          rw (granted, claim_current) (grant-Spared c round now k term d s (differ d refl) h)
      | inr refused ↦
          rw (refused, claim_current)
            (set_other-IsHeld k (key_of d) term _ s (differ d refl) h, refl)
    ])
  ]

  attempt-Spared :
      (k : Text) (term : ℕ) (a : Attempt) (s : Repository)
      → IsReachable s
      → IsBefore term a
      → IsHeld k (some term) s
      → Spared k (some term) (claim_candidate hmac a.worker a.round a.candidate s)
  unfolding claim_candidate hands_out
  attempt-Spared k term a s r early h =
      after_result (Spared k (some term)) (read_clock a.round.current_reading) _ s
        (λ e _. (h, refl))
        λ now reads. elim (Bool-cases (key_of a.candidate == k)) [
          | inl same ↦
              let eq : key_of a.candidate ≡ k = (text_iff (key_of a.candidate) k).0 same in
              rw
                (
                  eq,
                  h.found,
                  claim_current,
                  claimable_held h.dispatch term now h.is_leased h.same_term (early now reads),
                )
                (h, refl)
          | inr differ ↦
              current-Spared a.worker a.round now k (some term)
                (get s.dispatches (key_of a.candidate)) s
                (λ d at.
                  let keyed =
                    ((IsReachable-IsConsistent r).dispatch_at (key_of a.candidate) d at).keyed in
                  rw (← keyed) differ)
                h
        ]

  -- How many of a row of attempts are handed the dispatch under the key.
  unfoldable pub times_claimed : Text → List Attempt → Repository → ℕ
  times_claimed k [] s = 0
  times_claimed k (a ∷ rest) s =
      hands_out k (claim_candidate hmac a.worker a.round a.candidate s).0
      + times_claimed k rest (claim_candidate hmac a.worker a.round a.candidate s).1

  times_claimed-IsHeld :
      (k : Text) (term : ℕ) (attempts : List Attempt) (s : Repository)
      → IsReachable s
      → AllBefore term attempts
      → IsHeld k (some term) s
      → times_claimed k attempts s ≡ 0
  unfolding times_claimed step
  times_claimed-IsHeld k term [] s r early h = refl
  times_claimed-IsHeld k term (a ∷ rest) s r early h =
      let (kept, not_this) = attempt-Spared k term a s r early.0 h in
      let later : times_claimed k rest (claim_candidate hmac a.worker a.round a.candidate s).1 ≡ 0 =
        times_claimed-IsHeld k term rest (claim_candidate hmac a.worker a.round a.candidate s).1
          (after r (claims hmac a.worker a.round a.candidate)) early.1 kept in
      omega (arith, not_this, later)

  -- Once a worker has claimed a dispatch, a row of attempts to claim dispatches, by any workers and
  -- with any answers of the callbacks, in which every clock reading under the lock comes before the
  -- end of the term that the worker was told, hands the dispatch to nobody. Nothing but attempts to
  -- claim happens in between.
  pub claim_candidate_excludes :
      (c : ClaimInput) (round : Round) (candidate : Dispatch) (cl : Claimed) (term : ℕ)
      (attempts : List Attempt) (s t : Repository)
      → IsReachable s
      → claim_candidate hmac c round candidate s ≡ (ok (some cl), t)
      → cl.dispatch.lease_expires_at ≡ some term
      → AllBefore term attempts
      → times_claimed (key_of candidate) attempts t ≡ 0
  unfolding step
  claim_candidate_excludes c round candidate cl term attempts s t r done told early =
      let held : IsHeld (key_of candidate) cl.dispatch.lease_expires_at t =
        subst (Holds (key_of candidate)) done (claim-Holds c round candidate s r) in
      times_claimed-IsHeld (key_of candidate) term attempts t
        (subst (λ x. IsReachable x.1) done (after r (claims hmac c round candidate))) early
        (subst (λ x. IsHeld (key_of candidate) x t) told held)
