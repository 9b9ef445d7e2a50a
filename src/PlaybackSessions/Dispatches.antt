-- ===== src/PlaybackSessions/Dispatches.antt =====
-- claimDispatch: a worker takes the earliest dispatch that is due, under a lease.
use jumpgate_bridge.Prelude.{
  ℕ, zero, suc, ◌+◌, ◌==◌, list_eq, nat_eq, option_eq, Bool, true, false, Option, none, some, List,
  [], ◌∷◌, ltb, leb, if◌then◌else◌,
}
use jumpgate_bridge.Prelude.Text.{Text, text}
use jumpgate_bridge.Prelude.Map.{get, set, values}
use jumpgate_bridge.Prelude.Outcome.{ok, Action, pure, lift, read, write, ◌>>=◌, ◌>>◌}
use jumpgate_bridge.Value.{Value, Number}
use jumpgate_bridge.RepositoryUtils.{read_clock}
use jumpgate_bridge.TokenService
use jumpgate_bridge.TokenService.{Token, hash_token}
use jumpgate_bridge.PlaybackSession.{DispatchStatus, queued, leased, Dispatch, PublicDispatch}
use jumpgate_bridge.PlaybackSession.Inputs.{ClaimInput, normalize_claim_input}
use jumpgate_bridge.PlaybackSessions.State.{
  Authority, Repository, dispatch_key, revoke_dispatch, is_dispatch_authoritative,
}

-- null <= now holds.
unfoldable pub lease_expired : Option ℕ → ℕ → Bool
lease_expired none now = true
lease_expired (some t) now = leb t now

-- _claimable
unfoldable pub claimable_status : DispatchStatus → ℕ → Option ℕ → ℕ → Bool
unfolding lease_expired
claimable_status queued next_attempt_at lease_expires_at now = leb next_attempt_at now
claimable_status leased next_attempt_at lease_expires_at now = lease_expired lease_expires_at now
claimable_status _ next_attempt_at lease_expires_at now = false

unfoldable pub claimable : Dispatch → ℕ → Bool
unfolding claimable_status
claimable d now = claimable_status d.status d.next_attempt_at d.lease_expires_at now

abbrev pub key_of : Dispatch → Text
key_of d = dispatch_key d.binding.profile_id d.input.id

-- `locale_before` is "localeCompare is negative".
module _ (locale_before : Text → Text → Bool) where
  unfoldable pub claimed_before : Dispatch → Dispatch → Bool
  claimed_before left right =
      if left.next_attempt_at == right.next_attempt_at
      then (if left.created_at == right.created_at
          then locale_before left.input.id right.input.id
          else ltb left.created_at right.created_at)
      else ltb left.next_attempt_at right.next_attempt_at

  -- The head of the stable sort of the claimable dispatches.
  unfoldable pub earliest : Dispatch → Option Dispatch → Dispatch
  earliest d none = d
  earliest d (some best) = if claimed_before best d then best else d

  unfoldable pub select_candidate : List Dispatch → ℕ → Option Dispatch
  unfolding earliest
  select_candidate [] now = none
  select_candidate (d ∷ ds) now =
      let rest = select_candidate ds now in if claimable d now then some (earliest d rest) else rest

-- A dispatch under a new lease.
unfoldable pub lease : Dispatch → ClaimInput → Token → ℕ → Dispatch
lease d c issued now = record {
  shown = record (d.shown) {
    status = leased;
    attempt_count = d.attempt_count + 1;
    lease_owner = some c.worker_id;
    lease_expires_at = some (now + c.lease_ms);
    updated_at = now;
  };
  lease_token_hash = some issued.token_hash;
}

-- What one round of the claiming loop reads: the clock at the selection and under the lock, the
-- answers of the callbacks, and the random text of the token.
pub record Round : Type 0 where
  pub reading : Number
  pub current_reading : Number
  pub authority : Authority
  pub random : Text

pub record Claimed : Type 0 where
  pub dispatch : PublicDispatch
  pub lease_token : Text

pub data ClaimOutcome : Type 0 where
  nothing_claimable out_of_fuel : ClaimOutcome
  claimed : Claimed → ClaimOutcome

module _ (hmac : Text → Text) where
  unfoldable pub grant : ClaimInput → Round → ℕ → Dispatch → Action Repository (Option Claimed)
  unfolding lease
  grant c round now d = do
    issued ← lift (TokenService.issue hmac (text "scrobble-dispatch-lease") round.random)
    write (λ s. record s { dispatches = set s.dispatches (key_of d) (lease d c issued now) })
    pure (some (record { dispatch = (lease d c issued now).shown; lease_token = issued.token }))

  -- A claimable dispatch that has lost its authority is revoked, and the loop goes on.
  unfoldable pub grant_or_revoke :
      ClaimInput → Round → ℕ → Dispatch → Bool → Action Repository (Option Claimed)
  unfolding grant
  grant_or_revoke c round now d true = grant c round now d
  grant_or_revoke c round now d false = do
    write (λ s. record s { dispatches = set s.dispatches (key_of d) (revoke_dispatch now d) })
    pure none

  unfoldable pub claim_current :
      ClaimInput → Round → ℕ → Option Dispatch → Action Repository (Option Claimed)
  unfolding grant_or_revoke
  claim_current c round now none = pure none
  claim_current c round now (some d) =
      if claimable d now
      then (λ s. grant_or_revoke c round now d (is_dispatch_authoritative round.authority s d) s)
      else pure none

  -- The part of a round that runs under the profile's lock; `none` sends the loop round again.
  unfoldable pub claim_candidate :
      ClaimInput → Round → Dispatch → Action Repository (Option Claimed)
  unfolding claim_current
  claim_candidate c round candidate = do
    current ← read (λ s. get s.dispatches (key_of candidate))
    now ← lift (read_clock round.current_reading)
    claim_current c round now current

  -- The loop of claimDispatch. Each round takes the state that the last one left.
  unfoldable pub claim_loop :
      (Text → Text → Bool) → ℕ → (ℕ → Round) → ClaimInput → Action Repository ClaimOutcome
  unfolding select_candidate claim_candidate
  claim_loop locale_before zero rounds c s = (ok out_of_fuel, s)
  claim_loop locale_before (suc fuel) rounds c s =
      (do
        now ← lift (read_clock (rounds fuel).reading)
        candidate ← read (λ t. select_candidate locale_before (values t.dispatches) now)
        elim candidate [
          | none ↦ pure nothing_claimable
          | some d ↦ do
            outcome ← claim_candidate c (rounds fuel) d
            elim outcome [
              | some result ↦ pure (claimed result)
              | none ↦ λ t. claim_loop locale_before fuel rounds c t
            ]
        ])
        s

  unfoldable pub claim_dispatch :
      (Text → Text → Bool) → ℕ → (ℕ → Round) → Value → Action Repository ClaimOutcome
  claim_dispatch locale_before fuel rounds input = do
    c ← lift (normalize_claim_input input)
    claim_loop locale_before fuel rounds c
