-- ===== src/UpstreamPolicy/Admission/Handles.antt =====
-- The release handles that are still to be called, and the operations that leave them as they are.
use jumpgate_bridge.Prelude.{
  ℕ, zero, suc, ◌+◌, ◌==◌, list_eq, nat_eq, ◌≡◌, refl, ◌∙◌, inl, inr, Bool, true, false, ◌&&◌, ◌||◌,
  not, Option, none, some, List, [], ◌∷◌, length, leb, arith, Bool-cases, Option-cases,
  if◌then◌else◌,
}
use jumpgate_bridge.Prelude.Text.{Text, text_iff}
use jumpgate_bridge.Prelude.Map.{Map, get, set}
use jumpgate_bridge.UpstreamPolicy.Admission.{
  Group, Handle, Semaphore, group_of, put_group, enqueue_group, remove_group_from_queue,
  delete_group_if_idle, is_idle, pick, take_entry, serve_group, shifted, next_queued_entry,
}
use jumpgate_bridge.UpstreamPolicy.Admission.Groups.{G, group_of-set}
use jumpgate_bridge.UpstreamPolicy.Admission.Queue.{delete_group_if_idle-SameWorks}

-- How many handles pass a test.
unfoldable pub count : (Handle → Bool) → Map ℕ Handle → ℕ
count p [] = 0
count p ((n, h) ∷ hs) = if p h then suc (count p hs) else count p hs

abbrev pub is_open : Handle → Bool
is_open h = not h.is_released

abbrev pub is_open_under : Text → Handle → Bool
is_open_under key h = not h.is_released && h.key == key

-- The requests that run: those whose handles have not been called.
abbrev pub open_handles : Semaphore → ℕ
open_handles s = count is_open s.handles

abbrev pub open_handles_of : Text → Semaphore → ℕ
open_handles_of key s = count (is_open_under key) s.handles

abbrev weight : Bool → ℕ
weight b = if b then 1 else 0

pub count-set_new :
    (p : Handle → Bool) (hs : Map ℕ Handle) (n : ℕ) (h : Handle)
    → get hs n ≡ none
    → count p (set hs n h) ≡ weight (p h) + count p hs
unfolding count get set
count-set_new p [] n h e = ground arith
count-set_new p ((i, g) ∷ hs) n h e = ground (arith, count-set_new p hs n h)

pub count-set :
    (p : Handle → Bool) (hs : Map ℕ Handle) (n : ℕ) (g h : Handle)
    → get hs n ≡ some g
    → weight (p g) + count p (set hs n h) ≡ weight (p h) + count p hs
unfolding count get set
count-set p [] n g h e = cc
count-set p ((i, f) ∷ hs) n g h e = elim (Bool-cases (i == n)) [
  | inl same ↦ ground arith
  | inr differ ↦ ground (arith, count-set p hs n g h)
]

-- The handles, the number that runs and the numbers that run under each key are as they were.
pub record IsQuiet (s t : Semaphore) : Type 0 where
  pub handles : t.handles ≡ s.handles
  pub next : t.next_handle ≡ s.next_handle
  pub total : t.active ≡ s.active
  pub each : (k : Text) → (G t k).active ≡ (G s k).active

IsQuiet-refl : (s : Semaphore) → IsQuiet s s
IsQuiet-refl s = record { handles = refl; next = refl; total = refl; each = λ k. refl }

pub IsQuiet-trans : {s t u : Semaphore} → IsQuiet s t → IsQuiet t u → IsQuiet s u
IsQuiet-trans a b = record {
  handles = b.handles ∙ a.handles;
  next = b.next ∙ a.next;
  total = b.total ∙ a.total;
  each = λ k. b.each k ∙ a.each k;
}

pub put_group-IsQuiet :
    (key : Text) (g : Group) (s : Semaphore)
    → g.active ≡ (G s key).active
    → IsQuiet s (put_group key g s)
unfolding put_group
put_group-IsQuiet key g s e = record {
  handles = refl;
  next = refl;
  total = refl;
  each = λ k. rw group_of-set (elim (Bool-cases (key == k)) [
    | inl same ↦ rw same (let eq : key ≡ k = (text_iff key k).0 same in rw (← eq) e)
    | inr differ ↦ rw differ refl
  ]);
}

pub enqueue_group-IsQuiet : (key : Text) (s : Semaphore) → IsQuiet s (enqueue_group key s)
unfolding enqueue_group put_group
enqueue_group-IsQuiet key s =
    elim (Bool-cases ((G s key).in_queue || length (G s key).entries == 0)) [
      | inl idle ↦ rw idle (IsQuiet-refl s)
      | inr new ↦ rw new (record {
        handles = refl;
        next = refl;
        total = refl;
        each = (put_group-IsQuiet key _ s refl).each;
      })
    ]

pub remove_group_from_queue-IsQuiet :
    (key : Text) (s : Semaphore) → IsQuiet s (remove_group_from_queue key s)
unfolding remove_group_from_queue put_group
remove_group_from_queue-IsQuiet key s = elim (Bool-cases (G s key).in_queue) [
  | inr out ↦ rw out (IsQuiet-refl s)
  | inl there ↦ rw there (record {
    handles = refl;
    next = refl;
    total = refl;
    each = (put_group-IsQuiet key _ s refl).each;
  })
]

delete_group_if_idle-same :
    (key : Text) (s : Semaphore)
    → ((delete_group_if_idle key s).handles ≡ s.handles)
      × ((delete_group_if_idle key s).next_handle ≡ s.next_handle)
      × ((delete_group_if_idle key s).active ≡ s.active)
unfolding delete_group_if_idle
delete_group_if_idle-same key s =
    let u = remove_group_from_queue-IsQuiet key s in
    elim (Bool-cases (is_idle (G s key))) [
      | inr busy ↦ rw busy (refl, refl, refl)
      | inl idle ↦ rw idle (u.handles, u.next, u.total)
    ]

pub delete_group_if_idle-IsQuiet :
    (key : Text) (s : Semaphore) → IsQuiet s (delete_group_if_idle key s)
delete_group_if_idle-IsQuiet key s =
    let same = delete_group_if_idle-same key s in
    record {
      handles = same.0;
      next = same.1;
      total = same.2;
      each = λ k. (delete_group_if_idle-SameWorks key s k).active;
    }

take_entry-IsQuiet :
    (aborted : ℕ → Bool) (key : Text) (s : Semaphore) → IsQuiet s (take_entry aborted key s)
unfolding take_entry put_group
take_entry-IsQuiet aborted key s = record {
  handles = refl;
  next = refl;
  total = refl;
  each = (put_group-IsQuiet key _ s refl).each;
}

shifted-IsQuiet : (key : Text) (keys : List Text) (s : Semaphore) → IsQuiet s (shifted key keys s)
unfolding shifted put_group
shifted-IsQuiet key keys s = record {
  handles = refl;
  next = refl;
  total = refl;
  each = (put_group-IsQuiet key _ s refl).each;
}

serve_group-IsQuiet :
    (aborted : ℕ → Bool) (key : Text) (s : Semaphore) → IsQuiet s (serve_group aborted key s).1
unfolding serve_group
serve_group-IsQuiet aborted key s =
    let t = take_entry aborted key s in
    let u = IsQuiet-trans (take_entry-IsQuiet aborted key s) (enqueue_group-IsQuiet key t) in
    elim (Option-cases (pick aborted (G s key).entries).entry) [
      | inl e ↦
          rw (e, serve_group)
            (IsQuiet-trans u (delete_group_if_idle-IsQuiet key (enqueue_group key t)))
      | inr (id, e) ↦ rw (e, serve_group) u
    ]

abbrev Ends : Semaphore → Option (Text × ℕ) × Semaphore → Type 0
Ends s x = IsQuiet s x.1

pub next_queued_entry-IsQuiet :
    (aborted : ℕ → Bool) (n : ℕ) (s : Semaphore) → IsQuiet s (next_queued_entry aborted n s).1
unfolding next_queued_entry
next_queued_entry-IsQuiet aborted zero s = IsQuiet-refl s
next_queued_entry-IsQuiet aborted (suc n) s =
    from s.queue_groups (λ t. next_queued_entry-IsQuiet aborted n t)
  where
    from :
        (queue : List Text)
        → ((t : Semaphore) → IsQuiet t (next_queued_entry aborted n t).1)
        → Ends s (elim queue [
          | [] ↦ (none, s)
          | key ∷ keys ↦ elim (leb s.max_concurrent_per_key (group_of s.groups_by_key key).active) [
            | true ↦ next_queued_entry aborted n (enqueue_group key (shifted key keys s))
            | false ↦ elim (serve_group aborted key (shifted key keys s)).0 [
              | some e ↦ (some e, (serve_group aborted key (shifted key keys s)).1)
              | none ↦ next_queued_entry aborted n (serve_group aborted key (shifted key keys s)).1
            ]
          ]
        ])
    from [] rest = IsQuiet-refl s
    from (key ∷ keys) rest =
        let t = shifted key keys s in
        let shift = shifted-IsQuiet key keys s in
        let served = IsQuiet-trans shift (serve_group-IsQuiet aborted key t) in
        elim (Bool-cases (leb s.max_concurrent_per_key (G s key).active)) [
          | inl full ↦ rw full (
              IsQuiet-trans (IsQuiet-trans shift (enqueue_group-IsQuiet key t))
                (rest (enqueue_group key t)))
          | inr room ↦ rw room (elim (Option-cases (serve_group aborted key t).0) [
            | inl e ↦ rw e (IsQuiet-trans served (rest (serve_group aborted key t).1))
            | inr (found, e) ↦ rw e served
          ])
        ]
