-- ===== src/UpstreamPolicy/Admission/Limits.antt =====
-- The constructor of BoundedSemaphore with the checks on its limits, and the check on a key.
use jumpgate_bridge.Prelude.{
  ℕ, ◌+◌, ◌/◌, ◌==◌, list_eq, nat_eq, ◌&&◌, ◌||◌, [], ltb, min, if◌then◌else◌, length,
}
use jumpgate_bridge.Prelude.Text.{Text, text}
use jumpgate_bridge.Prelude.Outcome.{Result, ok, err, type_error}
use jumpgate_bridge.Value.{Value, undefined, null, string}
use jumpgate_bridge.RepositoryUtils.{assert_positive_integer}
use jumpgate_bridge.UpstreamPolicy.Admission.{Semaphore}

-- normalizeAdmissionKey
unfoldable pub normalize_admission_key : Value → Result Text
normalize_admission_key undefined = ok (text "default")
normalize_admission_key (string s) =
    if ltb (length s) 1 || ltb 256 (length s) then err type_error else ok s
normalize_admission_key _ = err type_error

-- A missing option takes its default.
or_default : Value → ℕ → ℕ → Result ℕ
or_default undefined fallback maximum =
    if ltb fallback 1 || ltb maximum fallback then err type_error else ok fallback
or_default null fallback maximum =
    if ltb fallback 1 || ltb maximum fallback then err type_error else ok fallback
or_default v fallback maximum = assert_positive_integer v maximum

-- readPerKeyLimit; (global + 1) / 2 is half of it, rounded up.
unfoldable pub read_per_key_limit : Value → ℕ → ℕ → ℕ → Result ℕ
unfolding or_default
read_per_key_limit value global_limit default_limit maximum =
    elim (or_default value
      (min default_limit (if ltb (global_limit + 1) 2 then 1 else (global_limit + 1) / 2))
      maximum) [
        | err e ↦ err e
        | ok limit ↦
            if ltb global_limit limit || (ltb 1 global_limit && limit == global_limit)
            then err type_error
            else ok limit
      ]

-- DEFAULT_POLICY.maxConcurrentPerKey, DEFAULT_POLICY.maxQueuedPerKey
abbrev default_concurrent_per_key : ℕ
default_concurrent_per_key = 4

abbrev default_queued_per_key : ℕ
default_queued_per_key = 16

unfoldable pub empty_semaphore : ℕ → ℕ → ℕ → ℕ → Semaphore
empty_semaphore max_concurrent max_queued max_concurrent_per_key max_queued_per_key = record {
  max_concurrent = max_concurrent;
  max_queued = max_queued;
  max_concurrent_per_key = max_concurrent_per_key;
  max_queued_per_key = max_queued_per_key;
  active = 0;
  queued = 0;
  queue_groups = [];
  groups_by_key = [];
  handles = [];
  next_handle = 0;
  granted = [];
  canceled = [];
}

-- new BoundedSemaphore(maxConcurrent, maxQueued, maxConcurrentPerKey, maxQueuedPerKey)
unfoldable pub create_semaphore : Value → Value → Value → Value → Result Semaphore
unfolding read_per_key_limit empty_semaphore
create_semaphore max_concurrent max_queued max_concurrent_per_key max_queued_per_key =
    elim (assert_positive_integer max_concurrent 1024) [
      | err e ↦ err e
      | ok concurrent ↦ elim (assert_positive_integer max_queued 100000) [
        | err e ↦ err e
        | ok waiting ↦
            elim (read_per_key_limit max_concurrent_per_key concurrent default_concurrent_per_key
              1024) [
                | err e ↦ err e
                | ok concurrent_per_key ↦
                    elim (read_per_key_limit max_queued_per_key waiting default_queued_per_key
                      100000) [
                        | err e ↦ err e
                        | ok waiting_per_key ↦
                            ok (
                              empty_semaphore concurrent waiting concurrent_per_key waiting_per_key)
                      ]
              ]
      ]
    ]
