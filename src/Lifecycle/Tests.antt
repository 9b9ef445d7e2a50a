-- ===== src/Lifecycle/Tests.antt =====
-- The theorems on the lock of a profile and on the queue of invalidations at concrete inputs.
use jumpgate_bridge.Prelude.{
  ℕ, ◌≡◌, ◌≤◌, ◌≢◌, refl, list_eq, nat_eq, list_beq, false, none, some, [], ◌∷◌, every, length, inl,
}
use mathlib.Core.List.{Memᴰ}
use jumpgate_bridge.Prelude.Text.{Text, text}
use jumpgate_bridge.Prelude.Map.{get, set, values}
use jumpgate_bridge.Prelude.Outcome.{ok}
use jumpgate_bridge.Value.{string, number, natural, Number, not_a_number, undefined}
use jumpgate_bridge.RepositoryUtils.{
  assert_identifier, is_identifier, is_word, assert_non_negative_integer, assert_positive_integer,
  read_clock, parse_timestamp,
}
use jumpgate_bridge.RepositoryUtils.Fences.{Comparison, same}
use jumpgate_bridge.Lifecycle.Coordinator.{
  waiting, running, finished, Run, Coordinator, empty_coordinator, start_run, enter_run, step,
  IsReachable, start, after, starts, enters,
}
use jumpgate_bridge.Lifecycle.Coordinator.Exclusion.{
  IsReachable-exclusive, IsReachable-Progress, Progress,
}
use jumpgate_bridge.Lifecycle.Invalidations.{
  profile, Invalidation, Invalidations, EnqueueInput, enqueue, defer, assert_invalidation_id,
  due_records,
}
use jumpgate_bridge.Lifecycle.Invalidations.Queue.{enqueue_twice, due_records-first, defer_once}

-- One call on the profile runs, and a second waits for it.
abbrev who : Text
who = text "profile1"

abbrev first_waiting : Run
first_waiting = record { profile = who; previous = none; stage = waiting }

abbrev first_running : Run
first_running = record { profile = who; previous = none; stage = running }

abbrev second_waiting : Run
second_waiting = record { profile = who; previous = some 0; stage = waiting }

abbrev two_calls : Coordinator
two_calls = start_run who (enter_run 0 first_waiting (start_run who empty_coordinator))

two_calls-IsReachable : IsReachable two_calls
unfolding step start_run enter_run empty_coordinator get set list_beq
two_calls-IsReachable =
    after (after (after start (starts who)) (enters 0 first_waiting refl refl (inl refl)))
      (starts who)

abbrev running_call : ℕ
running_call = 0

IsReachable-exclusive_example : running_call ≡ running_call
unfolding start_run enter_run empty_coordinator get set list_beq
IsReachable-exclusive_example =
    IsReachable-exclusive two_calls running_call running_call first_running first_running
      two_calls-IsReachable refl refl refl refl refl

waiting_open : waiting ≢ finished
waiting_open h = cc

IsReachable-Progress_example : Progress two_calls who
unfolding start_run enter_run empty_coordinator get set list_beq
IsReachable-Progress_example =
    IsReachable-Progress two_calls 1 second_waiting two_calls-IsReachable refl waiting_open

-- Every text has the same digest here: 64 times the digit a.
abbrev digest : Text
digest = text "aaaaaaaaaaaaaaaaaaaaaaaaaaaaaaaaaaaaaaaaaaaaaaaaaaaaaaaaaaaaaaaa"

abbrev constant_sha256 : Text → Text
constant_sha256 m = digest

abbrev no_date : Text → Number
no_date t = not_a_number

abbrev alike : Text → Text → Comparison
alike a b = same

abbrev queued : Invalidation
queued = record {
  id = digest;
  kind = profile;
  profile_id = who;
  profile_revision = 2;
  device_id = none;
  device_generation = none;
  attempt_count = 0;
  next_attempt_at = 7;
  created_at = 7;
  updated_at = 7;
}

abbrev input : EnqueueInput
input = record {
  kind = profile;
  profile_id = string who;
  profile_revision = number (natural 2);
  device_id = undefined;
  device_generation = undefined;
}

abbrev nothing : Invalidations
nothing = record { records = [] }

abbrev one_queued : Invalidations
one_queued = record { records = (digest, queued) ∷ [] }

enqueue_twice_example :
    enqueue constant_sha256 no_date
      (natural 9)
      input
      (enqueue constant_sha256 no_date (natural 7) input nothing).1
    ≡ (ok queued, (enqueue constant_sha256 no_date (natural 7) input nothing).1)
unfolding enqueue read_clock assert_identifier is_identifier every is_word assert_positive_integer
    get
enqueue_twice_example =
    enqueue_twice constant_sha256 no_date (natural 7) (natural 9) 9 input queued nothing refl refl

defer_once_example :
    defer no_date
      (natural 9)
      (string digest)
      (number (natural 0))
      (number (natural 30))
      (defer no_date
        (natural 8)
        (string digest)
        (number (natural 0))
        (number (natural 20))
        one_queued).1
    ≡ (
      ok false,
      (defer no_date
          (natural 8)
          (string digest)
          (number (natural 0))
          (number (natural 20))
          one_queued).1,
    )
unfolding defer parse_timestamp assert_invalidation_id assert_non_negative_integer get list_beq
    read_clock
defer_once_example =
    defer_once no_date (natural 8) (natural 9) (string digest) (number (natural 0))
      (number (natural 20)) (number (natural 30)) 30 one_queued refl refl

due_records-first_example :
    ((r : Invalidation)
      → Memᴰ r (due_records alike 1 8 one_queued)
      → Memᴰ r (values one_queued.records) × (r.next_attempt_at ≤ 8))
    × ((r : Invalidation)
        → Memᴰ r (values one_queued.records)
        → r.next_attempt_at ≤ 8
        → (Memᴰ r (due_records alike 1 8 one_queued) → ⊥)
        → (length (due_records alike 1 8 one_queued) ≡ 1)
          × ((listed : Invalidation)
              → Memᴰ listed (due_records alike 1 8 one_queued)
              → listed.next_attempt_at ≤ r.next_attempt_at))
due_records-first_example = due_records-first alike 1 8 one_queued
