-- ===== src/PlaybackSessions/Deliveries.antt =====
-- withDispatchAdmission, retryDispatch and listDispatches: what a worker does with its lease.
use jumpgate_bridge.Prelude.{
  ℕ, ◌==◌, list_eq, nat_eq, option_eq, Bool, true, false, ◌&&◌, not, Option, none, some,
  if◌then◌else◌,
}
use jumpgate_bridge.Prelude.Text.{Text, text}
use jumpgate_bridge.Prelude.Map.{get, set}
use jumpgate_bridge.Prelude.Outcome.{
  Result, ok, err, Action, pure, throw, lift, read, write, ◌>>=◌, ◌>>◌,
  scrobble_dispatch_lease_lost, scrobble_dispatch_revoked,
}
use jumpgate_bridge.Value.{Value, string, Number}
use jumpgate_bridge.RepositoryUtils.{read_clock}
use jumpgate_bridge.TokenService.{hash_token}
use jumpgate_bridge.PlaybackSession.{queued, leased, delivered, revoked, Dispatch, PublicDispatch}
use jumpgate_bridge.PlaybackSession.Inputs.{AdmissionInput, RetryInput, normalize_retry_input}
use jumpgate_bridge.PlaybackSessions.State.{
  Authority, Repository, dispatch_key, revoke_dispatch, clear_lease, is_dispatch_authoritative,
}
use jumpgate_bridge.PlaybackSessions.Dispatches.{lease_expired, key_of}

-- record.status === "leased" && record.leaseTokenHash === h
unfoldable pub is_leased_under : Text → Dispatch → Bool
is_leased_under h d = elim d.status [ leased ↦ d.lease_token_hash == some h | other ↦ false ]

unfoldable pub not_revoked : Option Dispatch → Result (Unit {0})
not_revoked none = ok tt
not_revoked (some d) = elim d.status [ revoked ↦ err scrobble_dispatch_revoked | other ↦ ok tt ]

unfoldable pub owned : Text → ℕ → Option Dispatch → Result Dispatch
unfolding is_leased_under lease_expired
owned h now none = err scrobble_dispatch_lease_lost
owned h now (some d) =
    if is_leased_under h d && not (lease_expired d.lease_expires_at now)
    then ok d
    else err scrobble_dispatch_lease_lost

unfoldable pub revoke_now : ℕ → Dispatch → Action Repository (Unit {0})
revoke_now now d =
    write (λ s. record s { dispatches = set s.dispatches (key_of d) (revoke_dispatch now d) })

-- record.status = "delivered"
unfoldable pub mark_delivered : Dispatch → Dispatch
mark_delivered d = record {
  shown = record (d.shown) { status = delivered };
  lease_token_hash = d.lease_token_hash;
}

unfoldable pub finish_delivery : ℕ → Dispatch → Dispatch
unfolding clear_lease
finish_delivery now d = clear_lease (record {
  shown = record (d.shown) { delivered_at = some now; updated_at = now };
  lease_token_hash = d.lease_token_hash;
})

-- After the operation. A record that the operation has erased is no longer in the map, and the
-- writes to it are seen by nobody.
unfoldable pub deliver : {R : Type 0} → Text → Number → R → Option Dispatch → Action Repository R
unfolding is_leased_under mark_delivered finish_delivery
deliver h later result none = do now ← lift (read_clock later); pure result
deliver h later result (some d) =
    if is_leased_under h d
    then (do
      write (λ s. record s { dispatches = set s.dispatches (key_of d) (mark_delivered d) })
      now ← lift (read_clock later)
      write (λ s. record s {
        dispatches = set s.dispatches (key_of d) (finish_delivery now (mark_delivered d));
      })
      pure result)
    else throw scrobble_dispatch_lease_lost

unfoldable pub require_authority : Authority → ℕ → Dispatch → Action Repository (Unit {0})
unfolding revoke_now
require_authority authority now d s =
    if is_dispatch_authoritative authority s d
    then (ok tt, s)
    else (do revoke_now now d; throw scrobble_dispatch_revoked) s

-- The operation may itself change the repository, and may throw.
unfoldable pub admitted :
    {R : Type 0}
    → Authority
    → Number
    → Number
    → Text
    → Text
    → (PublicDispatch → Action Repository R)
    → Action Repository R
unfolding not_revoked owned require_authority deliver
admitted authority reading later h key operation = do
  found ← read (λ s. get s.dispatches key)
  lift (not_revoked found)
  now ← lift (read_clock reading)
  d ← lift (owned h now found)
  require_authority authority now d
  result ← operation d.shown
  after ← read (λ s. get s.dispatches key)
  deliver h later result after

module _ (hmac : Text → Text) where
  -- hashToken with its error turned into the error of a lost lease.
  unfoldable pub lease_hash : Text → Result Text
  lease_hash lease_token =
      elim (hash_token hmac (text "scrobble-dispatch-lease") (string lease_token)) [
        | ok h ↦ ok h
        | err e ↦ err scrobble_dispatch_lease_lost
      ]

  unfoldable pub with_dispatch_admission :
      {R : Type 0}
      → Authority
      → Number
      → Number
      → AdmissionInput
      → (PublicDispatch → Action Repository R)
      → Action Repository R
  unfolding lease_hash admitted
  with_dispatch_admission authority reading later a operation = do
    h ← lift (lease_hash a.lease_token)
    admitted authority reading later h (dispatch_key a.profile_id a.dispatch_id) operation

  unfoldable pub requeue : ℕ → Dispatch → Dispatch
  requeue next_attempt_at d = record {
    shown = record (d.shown) { status = queued; next_attempt_at = next_attempt_at };
    lease_token_hash = d.lease_token_hash;
  }

  unfoldable pub requeued_at : ℕ → Dispatch → Dispatch
  unfolding clear_lease
  requeued_at now d = clear_lease (record {
    shown = record (d.shown) { updated_at = now };
    lease_token_hash = d.lease_token_hash;
  })

  unfoldable pub give_back : Authority → Number → ℕ → Dispatch → Action Repository Bool
  unfolding revoke_now requeue requeued_at
  give_back authority reading next_attempt_at d s =
      if is_dispatch_authoritative authority s d
      then (do
        write
            (λ t. record t { dispatches = set t.dispatches (key_of d) (requeue next_attempt_at d) })
        now ← lift (read_clock reading)
        write (λ t. record t {
          dispatches = set t.dispatches (key_of d) (requeued_at now (requeue next_attempt_at d));
        })
        pure true)
          s
      else (do now ← lift (read_clock reading); revoke_now now d; pure false) s

  unfoldable pub retry_found :
      Authority → Number → ℕ → Text → Option Dispatch → Action Repository Bool
  unfolding is_leased_under give_back
  retry_found authority reading next_attempt_at h none = pure false
  retry_found authority reading next_attempt_at h (some d) =
      if is_leased_under h d then give_back authority reading next_attempt_at d else pure false

  -- retryDispatch, on an input that has been normalised.
  unfoldable pub retry_candidate : Authority → Number → RetryInput → Action Repository Bool
  unfolding retry_found
  retry_candidate authority reading r =
      elim (hash_token hmac (text "scrobble-dispatch-lease") (string r.admission.lease_token)) [
        | err e ↦ pure false
        | ok h ↦ do
          found ←
              read (λ s.
                get s.dispatches (dispatch_key r.admission.profile_id r.admission.dispatch_id))
          retry_found authority reading r.next_attempt_at h found
      ]

  unfoldable pub retry_dispatch :
      (Text → Number) → Authority → Number → Value → Action Repository Bool
  unfolding retry_candidate
  retry_dispatch date_parse authority reading input = do
    r ← lift (normalize_retry_input date_parse input)
    retry_candidate authority reading r
