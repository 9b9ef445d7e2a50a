-- ===== src/PlaybackSessions/Tests.antt =====
-- A session at work, step by step: the theorems on the playback sessions at concrete inputs.
use jumpgate_bridge.Prelude.{
  ℕ, List, [], ◌∷◌, ◌≡◌, refl, list_eq, nat_eq, option_eq, true, false, none, some, list_beq, every,
  arith,
}
use jumpgate_bridge.Prelude.Text.{Text, text}
use jumpgate_bridge.Prelude.Map.{get, has, set}
use jumpgate_bridge.Prelude.Outcome.{ok}
use jumpgate_bridge.Value.{string, Fields, field, property, number, object, Number, natural, empty}
use jumpgate_bridge.RepositoryUtils.{
  read_clock, assert_positive_integer, assert_identifier, is_identifier, is_word,
}
use jumpgate_bridge.RepositoryUtils.Fences.{assert_mutation_fence}
use jumpgate_bridge.PlaybackSession.{
  playing, start, queued, is_active, Binding, Dispatch, DispatchInput, same_binding,
}
use jumpgate_bridge.PlaybackSession.Inputs.{
  OpenInput, TransitionInput, ClaimInput, normalize_binding, assert_playback_generation,
}
use jumpgate_bridge.TokenService
use jumpgate_bridge.TokenService.{Token}
use jumpgate_bridge.PlaybackSessions.Dispatches.{
  lease, Round, Claimed, claimable, claim_candidate, select_candidate,
}
use jumpgate_bridge.PlaybackSessions.Selection.{IsEarliest, select_candidate-IsEarliest}
use jumpgate_bridge.PlaybackSessions.Exclusion.{
  Attempt, AllBefore, times_claimed, claim_candidate_excludes,
}
use jumpgate_bridge.PlaybackSessions.State.{
  Authority, Repository, session_key, dispatch_key, source_key_of, assert_durable_binding,
  get_or_zero, assert_session, is_dispatch_authoritative,
}
use jumpgate_bridge.PlaybackSessions.Sessions.{
  open_candidate, transition_and_enqueue_candidate, transition_now,
}
use jumpgate_bridge.PlaybackSessions.Invariant.{IsSeparable, IsBacked}
use jumpgate_bridge.PlaybackSessions.Invariant.Inputs.{normalize_binding-keys}
use jumpgate_bridge.PlaybackSessions.Invariant.Reachable.{
  empty_repository, Call, opens, enqueues, step, IsReachable, IsReachable-IsBacked,
}

-- A live profile at revision 1 and a live device.
abbrev live : Authority
live = record {
  get_profile_binding = λ id. ok (
      some
        (record { status = text "active"; revision = 1; history_generation = number (natural 1) }));
  is_device_binding_active = λ p d g. ok true;
}

abbrev sample_binding : Binding
sample_binding = record {
  profile_id = text "profile1";
  profile_revision = 1;
  device_id = text "device-1";
  device_generation = 1;
  session_id = text "session1";
  context_id = text "context1";
  playback_generation = text "g1:a";
  context_revision = text "7";
}

abbrev sample_open : OpenInput
sample_open = record { binding = sample_binding; state = playing }

abbrev sample_transition : TransitionInput
sample_transition = record { binding = sample_binding; expected_revision = 1; state = playing }

abbrev sample_dispatch : DispatchInput
sample_dispatch = record {
  id = text "dispatch";
  event = start;
  progress = natural 3;
  payload = object empty;
  required_state = playing;
}

sample-IsSeparable : IsSeparable sample_binding
sample-IsSeparable = record {
  profile = omega arith;
  session = omega arith;
  context = omega arith;
  generation = omega arith;
}

abbrev noon : Number
noon = natural 1000

noon_read : read_clock noon ≡ ok 1000
unfolding read_clock
noon_read = refl

abbrev opening : Call
opening = opens live noon sample_open sample-IsSeparable

abbrev starting : Call
starting =
    enqueues (λ a b. true) (λ a b. true) live noon noon 1000 sample_transition sample_dispatch
      noon_read sample-IsSeparable refl

-- The session is open and playing, and a scrobble of the start waits in the queue.
at_work : Repository
unfolding step open_candidate transition_and_enqueue_candidate assert_durable_binding get set has
    list_beq get_or_zero read_clock assert_positive_integer transition_now assert_session
    session_key same_binding dispatch_key source_key_of
at_work = step (step empty_repository opening) starting

at_work-IsReachable : IsReachable at_work
unfolding at_work
at_work-IsReachable = IsReachable.after (IsReachable.after IsReachable.start opening) starting

abbrev queued_dispatch : Dispatch
queued_dispatch = record {
  shown = record {
    binding = sample_binding;
    input = sample_dispatch;
    history_generation = 1;
    session_revision = 1;
    status = queued;
    attempt_count = 0;
    next_attempt_at = 1000;
    lease_owner = none;
    lease_expires_at = none;
    created_at = 1000;
    updated_at = 1000;
    delivered_at = none;
    revoked_at = none;
  };
  lease_token_hash = none;
}

at_work-dispatch :
    get at_work.dispatches (dispatch_key (text "profile1") (text "dispatch")) ≡ some queued_dispatch
unfolding at_work
at_work-dispatch = refl

IsReachable-IsBacked_example : IsBacked at_work.source_revocations at_work.sessions queued_dispatch
unfolding is_active
IsReachable-IsBacked_example =
    IsReachable-IsBacked at_work (dispatch_key (text "profile1") (text "dispatch")) queued_dispatch
      at_work-IsReachable at_work-dispatch refl

abbrev claim_input : ClaimInput
claim_input = record { worker_id = text "worker-1"; lease_ms = 500 }

abbrev round_at : ℕ → Round
round_at now = record {
  reading = natural now;
  current_reading = natural now;
  authority = live;
  random = text "leasetokenleasetoken";
}

-- Every message has the same digest here: 64 times the digit a.
abbrev constant_hmac : Text → Text
constant_hmac m = text "aaaaaaaaaaaaaaaaaaaaaaaaaaaaaaaaaaaaaaaaaaaaaaaaaaaaaaaaaaaaaaaa"

abbrev lease_token : Token
lease_token = record { token = text "leasetokenleasetoken"; token_hash = constant_hmac [] }

abbrev first_claim : Claimed
unfolding lease
first_claim = record {
  dispatch = (lease queued_dispatch claim_input lease_token 2000).shown;
  lease_token = text "leasetokenleasetoken";
}

-- The dispatch is leased until 2500.
abbrev under_lease : Repository
unfolding lease
under_lease = record at_work {
  dispatches =
      set at_work.dispatches (dispatch_key (text "profile1") (text "dispatch"))
        (lease queued_dispatch claim_input lease_token 2000);
}

claimed_first :
    claim_candidate constant_hmac claim_input (round_at 2000) queued_dispatch at_work
    ≡ (ok (some first_claim), under_lease)
unfolding at_work claim_candidate claimable is_dispatch_authoritative TokenService.issue
claimed_first = refl

-- Two workers try in turn, the second just before the lease ends.
abbrev attempts : List Attempt
attempts =
    record { worker = claim_input; round = round_at 2100; candidate = queued_dispatch }
    ∷ record { worker = claim_input; round = round_at 2499; candidate = queued_dispatch }
    ∷ []

attempts-AllBefore : AllBefore 2500 attempts
unfolding read_clock
attempts-AllBefore = (λ now e. ground arith, (λ now e. ground arith, tt))

claim_candidate_excludes_example :
    times_claimed constant_hmac
      (dispatch_key (text "profile1") (text "dispatch"))
      attempts
      under_lease
    ≡ 0
unfolding first_claim
claim_candidate_excludes_example =
    claim_candidate_excludes constant_hmac claim_input (round_at 2000) queued_dispatch first_claim
      2500 attempts at_work under_lease at_work-IsReachable claimed_first refl attempts-AllBefore

abbrev later_dispatch : Dispatch
later_dispatch = record queued_dispatch {
  shown = record (queued_dispatch.shown) { next_attempt_at = 1500 };
}

select_candidate-IsEarliest_example :
    IsEarliest
      (later_dispatch ∷ queued_dispatch ∷ [])
      2000
      (select_candidate (λ a b. false) (later_dispatch ∷ queued_dispatch ∷ []) 2000)
select_candidate-IsEarliest_example =
    select_candidate-IsEarliest (λ a b. false) (later_dispatch ∷ queued_dispatch ∷ []) 2000

-- The fields of the sample binding, of one device or another.
abbrev fields_of : Text → Fields
fields_of device_id = field (text "profileId") (string (text "profile1")) (
    field (text "profileRevision") (number (natural 1)) (
      field (text "deviceId") (string device_id) (
        field (text "deviceGeneration") (number (natural 1)) (
          field (text "sessionId") (string (text "session1")) (
            field (text "contextId") (string (text "context1")) (
              field (text "playbackGeneration") (string (text "g1:a"))
                (field (text "contextRevision") (string (text "7")) empty)))))))

abbrev other_binding : Binding
other_binding = record sample_binding { device_id = text "device-2" }

sample_normalized : normalize_binding (fields_of (text "device-1")) ≡ ok sample_binding
unfolding normalize_binding assert_identifier property list_beq is_identifier every is_word
    assert_positive_integer assert_playback_generation assert_mutation_fence
sample_normalized = refl

other_normalized : normalize_binding (fields_of (text "device-2")) ≡ ok other_binding
unfolding normalize_binding assert_identifier property list_beq is_identifier every is_word
    assert_positive_integer assert_playback_generation assert_mutation_fence
other_normalized = refl

normalize_binding-keys_example :
    (session_key (text "profile1") (text "session1")
        ≡ session_key (text "profile1") (text "session1")
      → (text "profile1" ≡ text "profile1") × (text "session1" ≡ text "session1"))
    × (source_key_of sample_binding ≡ source_key_of other_binding
        → (text "profile1" ≡ text "profile1")
          × (text "context1" ≡ text "context1")
          × (text "g1:a" ≡ text "g1:a")
          × (text "7" ≡ text "7"))
normalize_binding-keys_example =
    normalize_binding-keys (fields_of (text "device-1")) (fields_of (text "device-2"))
      sample_binding other_binding sample_normalized other_normalized
