-- ===== src/UpstreamPolicy/Admission/Operations.antt =====
-- acquire, the abort of a request, and the release handles.
use jumpgate_bridge.Prelude.{
  ℕ, ◌+◌, ◌-◌, ◌==◌, list_eq, nat_eq, Bool, true, false, ◌&&◌, ◌||◌, none, some, List, [], ◌∷◌,
  ◌++◌, leb, ltb, if◌then◌else◌, length,
}
use jumpgate_bridge.Prelude.Text.{Text}
use jumpgate_bridge.Prelude.Map.{get, set}
use jumpgate_bridge.UpstreamPolicy.Admission.{
  Semaphore, group_of, put_group, enqueue_group, remove_group_from_queue, delete_group_if_idle,
  grant, drain_queue,
}

-- What acquire answers: a handle at once, a place in the queue, or a rejection.
pub data Admission : Type 0 where
  running waiting aborted_before queue_full : Admission

-- acquire, on a normalised key; `id` is the number of the request.
unfoldable pub acquire : (ℕ → Bool) → Text → ℕ → Semaphore → Admission × Semaphore
unfolding group_of put_group grant enqueue_group drain_queue
acquire aborted key id s =
    let g = group_of s.groups_by_key key in
    if aborted id
    then (aborted_before, s)
    else if ltb s.active s.max_concurrent && ltb g.active s.max_concurrent_per_key
    then (running, grant key id s)
    else if leb s.max_queued s.queued || leb s.max_queued_per_key (length g.entries)
    then (queue_full, s)
    else (
      waiting,
      drain_queue aborted (
          enqueue_group key
            (record (put_group key (record g { entries = g.entries ++ id ∷ [] }) s) {
              queued = s.queued + 1;
            })),
    )

unfoldable pub remove_entry : ℕ → List ℕ → List ℕ
remove_entry id [] = []
remove_entry id (i ∷ is) = if i == id then is else i ∷ remove_entry id is

unfoldable pub includes : ℕ → List ℕ → Bool
includes id [] = false
includes id (i ∷ is) = i == id || includes id is

-- _removeQueuedEntry and the rejection by onAbort.
unfoldable pub abort : Text → ℕ → Semaphore → Semaphore
unfolding group_of put_group remove_group_from_queue delete_group_if_idle remove_entry includes
abort key id s =
    let g = group_of s.groups_by_key key in
    if includes id g.entries
    then (let t = record (put_group key (record g { entries = remove_entry id g.entries }) s) {
      queued = s.queued - 1;
      canceled = id ∷ s.canceled;
    } in
        delete_group_if_idle key
          (if length (remove_entry id g.entries) == 0 then remove_group_from_queue key t else t))
    else s

-- A release handle. The second call does nothing.
unfoldable pub release : (ℕ → Bool) → ℕ → Semaphore → Semaphore
unfolding group_of put_group delete_group_if_idle drain_queue
release aborted handle s = elim (get s.handles handle) [
  | none ↦ s
  | some h ↦
      let g = group_of s.groups_by_key h.key in
      if h.is_released
      then s
      else drain_queue aborted (
          delete_group_if_idle h.key
            (record (put_group h.key (record g { active = g.active - 1 }) s) {
              active = s.active - 1;
              handles = set s.handles handle (record h { is_released = true });
            }))
]
