-- ===== src/UpstreamPolicy/Admission.antt =====
-- BoundedSemaphore: at most so many requests at once, in all and under each key; the rest wait in
-- queues of bounded length, and the keys take turns. A group is named by its key: the map holds
-- one group of a key at a time, and a group with a request that runs or waits is never dropped.
pub mod Limits
pub mod Handles
pub mod Accounts
pub mod Operations
pub mod Groups
pub mod Queue
pub mod Search
pub mod Capacity
pub mod Withdrawal
pub mod Reachable
use jumpgate_bridge.Prelude.{
  ℕ, zero, suc, ◌+◌, ◌-◌, ◌/◌, ◌==◌, list_eq, nat_eq, Bool, true, false, ◌&&◌, ◌||◌, not, Option,
  none, some, List, [], ◌∷◌, ◌++◌, leb, ltb, min, if◌then◌else◌, length,
}
use jumpgate_bridge.Prelude.Text.{Text, text}
use jumpgate_bridge.Prelude.Map.{Map, get, has, set, delete}
use jumpgate_bridge.Prelude.Outcome.{Result, ok, err, type_error}
use jumpgate_bridge.Value.{Value, undefined, null, string}
use jumpgate_bridge.RepositoryUtils.{assert_positive_integer}

-- Requests that wait, by their numbers, the first in line first.
pub record Group : Type 0 where
  pub active : ℕ
  pub entries : List ℕ
  pub in_queue : Bool

-- A release handle: the key of its group, and whether it has been called.
pub record Handle : Type 0 where
  pub key : Text
  pub is_released : Bool

pub record Semaphore : Type 0 where
  pub max_concurrent : ℕ
  pub max_queued : ℕ
  pub max_concurrent_per_key : ℕ
  pub max_queued_per_key : ℕ
  pub active : ℕ
  pub queued : ℕ
  pub queue_groups : List Text
  pub groups_by_key : Map Text Group
  pub handles : Map ℕ Handle
  pub next_handle : ℕ
  pub granted : Map ℕ ℕ
  pub canceled : List ℕ

-- A group that is not there has nothing running or waiting.
abbrev pub no_group : Group
no_group = record { active = 0; entries = []; in_queue = false }

unfoldable pub group_of : Map Text Group → Text → Group
group_of groups key = elim (get groups key) [ none ↦ no_group | some g ↦ g ]

-- A write to the group's fields; _createGroup where there is none.
unfoldable pub put_group : Text → Group → Semaphore → Semaphore
put_group key g s = record s { groups_by_key = set s.groups_by_key key g }

-- splice(indexOf(key), 1)
unfoldable pub remove_first : Text → List Text → List Text
remove_first key [] = []
remove_first key (k ∷ ks) = if k == key then ks else k ∷ remove_first key ks

-- _enqueueGroup
unfoldable pub enqueue_group : Text → Semaphore → Semaphore
unfolding group_of put_group
enqueue_group key s =
    if (group_of s.groups_by_key key).in_queue || length (group_of s.groups_by_key key).entries == 0
    then s
    else record (put_group key (record (group_of s.groups_by_key key) { in_queue = true }) s) {
      queue_groups = s.queue_groups ++ key ∷ [];
    }

-- _removeGroupFromQueue
unfoldable pub remove_group_from_queue : Text → Semaphore → Semaphore
unfolding group_of put_group remove_first
remove_group_from_queue key s =
    if (group_of s.groups_by_key key).in_queue
    then record (put_group key (record (group_of s.groups_by_key key) { in_queue = false }) s) {
      queue_groups = remove_first key s.queue_groups;
    }
    else s

abbrev pub is_idle : Group → Bool
is_idle g = g.active == 0 && length g.entries == 0

-- _deleteGroupIfIdle
unfoldable pub delete_group_if_idle : Text → Semaphore → Semaphore
unfolding group_of remove_group_from_queue
delete_group_if_idle key s =
    if is_idle (group_of s.groups_by_key key)
    then (let t = remove_group_from_queue key s in
        record t { groups_by_key = delete t.groups_by_key key })
    else s

-- _grant and the promise's resolution: request `id` gets a fresh release handle.
unfoldable pub grant : Text → ℕ → Semaphore → Semaphore
unfolding group_of put_group
grant key id s =
    let g = group_of s.groups_by_key key in
    record (put_group key (record g { active = g.active + 1 }) s) {
      active = s.active + 1;
      handles = set s.handles s.next_handle (record { key = key; is_released = false });
      next_handle = s.next_handle + 1;
      granted = set s.granted id s.next_handle;
    }

-- The inner loop of _nextQueuedEntry: the first request that has not been given up, those behind
-- it, and those before it, which are rejected. `aborted` is the state of the requests' signals.
pub record Picked : Type 0 where
  pub entry : Option ℕ
  pub rest : List ℕ
  pub rejected : List ℕ

unfoldable pub pick : (ℕ → Bool) → List ℕ → Picked
pick aborted [] = record { entry = none; rest = []; rejected = [] }
pick aborted (id ∷ ids) =
    let later = pick aborted ids in
    if aborted id
    then record later { rejected = id ∷ later.rejected }
    else record { entry = some id; rest = ids; rejected = [] }

-- The group after the inner loop.
unfoldable pub take_entry : (ℕ → Bool) → Text → Semaphore → Semaphore
unfolding group_of put_group pick
take_entry aborted key s =
    let g = group_of s.groups_by_key key in
    let p = pick aborted g.entries in
    record (put_group key (record g { entries = p.rest }) s) {
      queued = s.queued - (length g.entries - length p.rest);
      canceled = p.rejected ++ s.canceled;
    }

-- One round of _nextQueuedEntry for a group that may run another request.
unfoldable pub serve_group : (ℕ → Bool) → Text → Semaphore → Option (Text × ℕ) × Semaphore
unfolding group_of enqueue_group delete_group_if_idle pick take_entry
serve_group aborted key s =
    let t = enqueue_group key (take_entry aborted key s) in
    elim (pick aborted (group_of s.groups_by_key key).entries).entry [
      | none ↦ (none, delete_group_if_idle key t)
      | some id ↦ (some (key, id), t)
    ]

-- The state after a group has been shifted off the queue.
unfoldable pub shifted : Text → List Text → Semaphore → Semaphore
unfolding group_of put_group
shifted key keys s =
    record (put_group key (record (group_of s.groups_by_key key) { in_queue = false }) s) {
      queue_groups = keys;
    }

-- _nextQueuedEntry, with the groups that remain.
unfoldable pub next_queued_entry : (ℕ → Bool) → ℕ → Semaphore → Option (Text × ℕ) × Semaphore
unfolding group_of enqueue_group serve_group shifted
next_queued_entry aborted zero s = (none, s)
next_queued_entry aborted (suc n) s = elim s.queue_groups [
  | [] ↦ (none, s)
  | key ∷ keys ↦ elim (leb s.max_concurrent_per_key (group_of s.groups_by_key key).active) [
    | true ↦ next_queued_entry aborted n (enqueue_group key (shifted key keys s))
    | false ↦ elim (serve_group aborted key (shifted key keys s)).0 [
      | some e ↦ (some e, (serve_group aborted key (shifted key keys s)).1)
      | none ↦ next_queued_entry aborted n (serve_group aborted key (shifted key keys s)).1
    ]
  ]
]

-- _drainQueue, with the slots that are free: every round but the last takes one.
unfoldable pub drain_slots : (ℕ → Bool) → ℕ → Semaphore → Semaphore
unfolding next_queued_entry grant
drain_slots aborted zero s = s
drain_slots aborted (suc n) s =
    let next = next_queued_entry aborted (length s.queue_groups) s in
    elim next.0 [ none ↦ next.1 | some (key, id) ↦ drain_slots aborted n (grant key id next.1) ]

unfoldable pub drain_queue : (ℕ → Bool) → Semaphore → Semaphore
unfolding drain_slots
drain_queue aborted s = drain_slots aborted (s.max_concurrent - s.active) s
