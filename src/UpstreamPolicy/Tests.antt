-- ===== src/UpstreamPolicy/Tests.antt =====
-- The theorems on the upstream policy at concrete inputs.
use jumpgate_bridge.Prelude.{
  ℕ, ◌≡◌, ◌<◌, refl, list_eq, nat_eq, list_beq, Bool, false, [], ◌∷◌, arith,
}
use jumpgate_bridge.Prelude.Text.{text}
use jumpgate_bridge.Prelude.Map.{get, set}
use jumpgate_bridge.Value.{number, natural, safe_natural}
use jumpgate_bridge.RepositoryUtils.{assert_positive_integer}
use jumpgate_bridge.UpstreamPolicy.Addresses.{ipv4, ipv6, is_global_parsed_address}
use jumpgate_bridge.UpstreamPolicy.Admission.{
  Semaphore, group_of, grant, put_group, enqueue_group, drain_queue, drain_slots, next_queued_entry,
  shifted,
}
use jumpgate_bridge.UpstreamPolicy.Admission.Limits.{
  empty_semaphore, create_semaphore, read_per_key_limit,
}
use jumpgate_bridge.UpstreamPolicy.Admission.Operations.{acquire}
use jumpgate_bridge.UpstreamPolicy.Admission.Handles.{count, open_handles_of}
use jumpgate_bridge.UpstreamPolicy.Admission.Reachable.{
  acquires, releases, step, IsReachable, start, after, IsReachable-IsWithin, IsWithin,
  IsReachable-none-idle,
}
use jumpgate_bridge.UpstreamPolicy.Addresses.Ranges.{is_global_parsed_address-is_public}

abbrev never : ℕ → Bool
never id = false

-- Two requests at once, one for each key; four may wait, two for each key.
abbrev fresh : Semaphore
fresh = empty_semaphore 2 4 1 2

fresh-IsReachable : IsReachable fresh
unfolding create_semaphore read_per_key_limit assert_positive_integer safe_natural
fresh-IsReachable =
    start (number (natural 2)) (number (natural 4)) (number (natural 1)) (number (natural 2)) fresh
      refl

abbrev busy : Semaphore
busy = step (step fresh (acquires never (text "a") 1)) (acquires never (text "a") 2)

busy-IsReachable : IsReachable busy
busy-IsReachable =
    after (after fresh-IsReachable (acquires never (text "a") 1)) (acquires never (text "a") 2)

one_below_two : 1 < 2
one_below_two = omega arith

zero_below_one : 0 < 1
zero_below_one = omega arith

IsReachable-none-idle_example : open_handles_of (text "a") busy ≡ busy.max_concurrent_per_key
unfolding step acquire empty_semaphore group_of get grant put_group set enqueue_group drain_queue
    drain_slots next_queued_entry shifted list_beq count
IsReachable-none-idle_example =
    IsReachable-none-idle busy (text "a") busy-IsReachable one_below_two zero_below_one

IsReachable-IsWithin_example : IsWithin (step busy (releases never 0))
IsReachable-IsWithin_example =
    IsReachable-IsWithin (step busy (releases never 0)) (after busy-IsReachable (releases never 0))

-- A private address, which the mask 255.240.0.0 tells from 172.32.0.1.
is_global_parsed_address-is_public_example :
    (is_global_parsed_address (record { family = ipv4; bytes = 172 ∷ 20 ∷ 0 ∷ 1 ∷ [] }) ≡ false)
    × (is_global_parsed_address (record {
      family = ipv6;
      bytes = 0 ∷ 0 ∷ 0 ∷ 0 ∷ 0 ∷ 0 ∷ 0 ∷ 0 ∷ 0 ∷ 0 ∷ 255 ∷ 255 ∷ 172 ∷ 20 ∷ 0 ∷ 1 ∷ [];
    })
        ≡ false)
is_global_parsed_address-is_public_example =
    is_global_parsed_address-is_public 172 20 0 1 (omega arith) (omega arith)
