-- ===== src/PlaybackSessions/Invariant/Deliveries.antt =====
-- withDispatchAdmission and retryDispatch keep the repository consistent.
use jumpgate_bridge.Prelude.{
  ℕ, ◌≡◌, refl, ap, list_eq, nat_eq, option_eq, true, Option, none, some, arith, Bool-cases, inl,
  inr,
}
use jumpgate_bridge.Prelude.Text.{Text, text}
use jumpgate_bridge.Prelude.Map.{get}
use jumpgate_bridge.Prelude.Map.Keys.{set-set}
use jumpgate_bridge.Prelude.Outcome.{Result, ok, Action}
use jumpgate_bridge.Prelude.Outcome.Rules.{after_result, Result-cases}
use jumpgate_bridge.Value.{string, Number}
use jumpgate_bridge.RepositoryUtils.{read_clock}
use jumpgate_bridge.TokenService.{hash_token}
use jumpgate_bridge.PlaybackSession.{is_active, Dispatch, PublicDispatch}
use jumpgate_bridge.PlaybackSession.Inputs.{AdmissionInput, RetryInput}
use jumpgate_bridge.PlaybackSessions.State.{
  Repository, Authority, dispatch_key, clear_lease, is_dispatch_authoritative,
}
use jumpgate_bridge.PlaybackSessions.Dispatches.{key_of}
use jumpgate_bridge.PlaybackSessions.Deliveries.{
  is_leased_under, mark_delivered, finish_delivery, deliver, not_revoked, owned, admitted,
  lease_hash, with_dispatch_admission, requeue, requeued_at, give_back, retry_found,
  retry_candidate,
}
use jumpgate_bridge.PlaybackSessions.Invariant.{IsConsistent}
use jumpgate_bridge.PlaybackSessions.Invariant.Moves.{put_dispatch}
use jumpgate_bridge.PlaybackSessions.Invariant.Dispatches.{replace_dispatch, revoke-IsConsistent}

leased-active : (h : Text) (d : Dispatch) → is_leased_under h d ≡ true → is_active d.status ≡ true
unfolding is_leased_under is_active
leased-active h d e = ground arith

owned_found :
    (h : Text) (now : ℕ) (o : Option Dispatch) (d : Dispatch)
    → owned h now o ≡ ok d
    → (o ≡ some d) × (is_leased_under h d ≡ true)
unfolding owned
owned_found h now none d e = cc
owned_found h now (some x) d e =
    let same : x ≡ d = ground arith in (ap some same, rw (← same) (ground arith))

module _ {R : Type 0} where
  abbrev Holds : Result R × Repository → Type 0
  Holds x = IsConsistent x.1

  deliver-IsConsistent :
      (h : Text) (later : Number) (now : ℕ) (result : R) (k : Text) (o : Option Dispatch)
      (s : Repository)
      → read_clock later ≡ ok now
      → IsConsistent s
      → get s.dispatches k ≡ o
      → IsConsistent (deliver h later result o s).1
  unfolding deliver
  deliver-IsConsistent h later now result k none s clock v at = rw (clock, deliver) v
  deliver-IsConsistent h later now result k (some d) s clock v at =
      elim (Bool-cases (is_leased_under h d)) [
        | inr lost ↦ rw (lost, deliver) v
        | inl held ↦
            let f = v.dispatch_at k d at in
            rw (held, clock, set-set, deliver)
              (put_dispatch s (key_of d) (finish_delivery now (mark_delivered d)) v (
                unfold finish_delivery mark_delivered clear_lease in
                record {
                  keyed = refl;
                  separable = f.separable;
                  lease = (refl, refl, refl);
                  backed = λ e. unfold is_active in cc;
                }))
      ]

  admitted-IsConsistent :
      (authority : Authority) (reading later : Number) (now : ℕ) (h key : Text)
      (operation : PublicDispatch → Action Repository R) (s : Repository)
      → read_clock later ≡ ok now
      → ((p : PublicDispatch) (t : Repository) → IsConsistent t → IsConsistent (operation p t).1)
      → IsConsistent s
      → IsConsistent (admitted authority reading later h key operation s).1
  unfolding admitted
  admitted-IsConsistent authority reading later now h key operation s clock keeps v =
      after_result Holds (not_revoked (get s.dispatches key)) _ s (λ e _. v)
        λ _ _.
          after_result Holds (read_clock reading) _ s (λ e _. v)
            λ at _.
              after_result Holds (owned h at (get s.dispatches key)) _ s (λ e _. v)
                λ d mine.
                  let (found, held) = owned_found h at (get s.dispatches key) d mine in
                  elim (Bool-cases (is_dispatch_authoritative authority s d)) [
                    | inr lost ↦ rw (lost, admitted) (revoke-IsConsistent s key d at v found)
                    | inl standing ↦
                        rw (standing, admitted)
                          (after_result Holds (operation d.shown s).0 _ (operation d.shown s).1
                            (λ e _. keeps d.shown s v)
                            λ result _.
                              deliver-IsConsistent h later now result key
                                (get (operation d.shown s).1.dispatches key) (operation d.shown s).1
                                clock (keeps d.shown s v) refl)
                  ]

  pub with_dispatch_admission-IsConsistent :
      (hmac : Text → Text) (authority : Authority) (reading later : Number) (now : ℕ)
      (a : AdmissionInput) (operation : PublicDispatch → Action Repository R) (s : Repository)
      → read_clock later ≡ ok now
      → ((p : PublicDispatch) (t : Repository) → IsConsistent t → IsConsistent (operation p t).1)
      → IsConsistent s
      → IsConsistent (with_dispatch_admission hmac authority reading later a operation s).1
  unfolding with_dispatch_admission
  with_dispatch_admission-IsConsistent hmac authority reading later now a operation s clock keeps
        v =
      after_result Holds (lease_hash hmac a.lease_token) _ s (λ e _. v)
        λ h _.
          admitted-IsConsistent authority reading later now h
            (dispatch_key a.profile_id a.dispatch_id) operation s clock keeps v

module _ (hmac : Text → Text) where
  give_back-IsConsistent :
      (authority : Authority) (reading : Number) (now next_attempt_at : ℕ) (k : Text) (d : Dispatch)
      (s : Repository)
      → read_clock reading ≡ ok now
      → IsConsistent s
      → get s.dispatches k ≡ some d
      → is_active d.status ≡ true
      → IsConsistent (give_back hmac authority reading next_attempt_at d s).1
  unfolding give_back
  give_back-IsConsistent authority reading now next_attempt_at k d s clock v at active =
      elim (Bool-cases (is_dispatch_authoritative authority s d)) [
        | inr lost ↦ rw (lost, clock, give_back) (revoke-IsConsistent s k d now v at)
        | inl standing ↦
            rw (standing, clock, set-set, give_back)
              (unfold requeue requeued_at clear_lease in
                replace_dispatch s k d _ v at active refl refl refl (refl, refl, refl))
      ]

  retry_found-IsConsistent :
      (authority : Authority) (reading : Number) (now next_attempt_at : ℕ) (h k : Text)
      (o : Option Dispatch) (s : Repository)
      → read_clock reading ≡ ok now
      → IsConsistent s
      → get s.dispatches k ≡ o
      → IsConsistent (retry_found hmac authority reading next_attempt_at h o s).1
  unfolding retry_found
  retry_found-IsConsistent authority reading now next_attempt_at h k none s clock v at = v
  retry_found-IsConsistent authority reading now next_attempt_at h k (some d) s clock v at =
      elim (Bool-cases (is_leased_under h d)) [
        | inr lost ↦ rw lost v
        | inl held ↦ rw held (
            give_back-IsConsistent authority reading now next_attempt_at k d s clock v at
              (leased-active h d held))
      ]

  pub retry_candidate-IsConsistent :
      (authority : Authority) (reading : Number) (now : ℕ) (r : RetryInput) (s : Repository)
      → read_clock reading ≡ ok now
      → IsConsistent s
      → IsConsistent (retry_candidate hmac authority reading r s).1
  unfolding retry_candidate
  retry_candidate-IsConsistent authority reading now r s clock v =
      elim (Result-cases
        (hash_token hmac (text "scrobble-dispatch-lease") (string r.admission.lease_token))) [
          | inr (e, refused) ↦ rw (refused, retry_candidate) v
          | inl (h, hashed) ↦
              rw (hashed, retry_candidate)
                (retry_found-IsConsistent authority reading now r.next_attempt_at h _ _ s clock v
                  refl)
        ]
