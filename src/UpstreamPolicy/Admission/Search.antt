-- ===== src/UpstreamPolicy/Admission/Search.antt =====
-- _nextQueuedEntry finds a request unless every key with requests that wait has all it may have.
use jumpgate_bridge.Prelude.{
  ℕ, zero, suc, ◌≤◌, ◌<◌, ◌==◌, list_eq, nat_eq, ◌≡◌, refl, sym, ap, ◌∙◌, ◌⊎◌, inl, inr, Bool, true,
  false, ◌||◌, Option, none, some, List, [], ◌∷◌, ◌++◌, length, leb, arith, Bool-cases,
  Option-cases,
}
use mathlib.Core.List.{append_assoc}
use jumpgate_bridge.Prelude.Text.{Text, text_iff}
use jumpgate_bridge.UpstreamPolicy.Admission.{
  Group, Semaphore, put_group, enqueue_group, remove_group_from_queue, delete_group_if_idle,
  is_idle, pick, take_entry, serve_group, shifted, next_queued_entry,
}
use jumpgate_bridge.UpstreamPolicy.Admission.Groups.{
  G, IsFair, set-Fits, enqueue_group-IsFair, member, member-append, group_of-set,
}
use jumpgate_bridge.UpstreamPolicy.Admission.Queue.{
  SameWork, SameWorks, set-SameWork, enqueue_group-SameWorks, delete_group_if_idle-SameWorks,
  delete_group_if_idle-IsFair, shifted-IsFair,
}

pick-none :
    (aborted : ℕ → Bool) (ids : List ℕ)
    → (pick aborted ids).entry ≡ none
    → (pick aborted ids).rest ≡ []
unfolding pick
pick-none aborted [] h = refl
pick-none aborted (id ∷ ids) h = ground (arith, pick-none aborted ids)

pick-le : (aborted : ℕ → Bool) (ids : List ℕ) → length (pick aborted ids).rest ≤ length ids
unfolding pick
pick-le aborted [] = omega arith
pick-le aborted (id ∷ ids) = ground (arith, pick-le aborted ids)

-- No request of the key waits, or the key has all that it may have.
abbrev pub IsServed : ℕ → Group → Type 0
IsServed cap g = (length g.entries ≡ 0) ⊎ (cap ≤ g.active)

pub SameWork-IsServed : {cap : ℕ} {g g' : Group} → SameWork g g' → IsServed cap g → IsServed cap g'
SameWork-IsServed w (inl e) = inl (w.entries ∙ e)
SameWork-IsServed w (inr h) = inr (rw w.active h)

-- Where enqueue_group puts the key: at the end, if anywhere.
record Extends (key : Text) (front back : List Text) (queue : List Text) : Type 0 where
  back' : List Text
  split : queue ≡ front ++ back'
  members : (k : Text) → member k back' ≡ true → (member k back ≡ true) ⊎ (key ≡ k)

enqueue_group-Extends :
    (key : Text) (s : Semaphore) (front back : List Text)
    → s.queue_groups ≡ front ++ back
    → Extends key front back (enqueue_group key s).queue_groups
unfolding enqueue_group put_group member
enqueue_group-Extends key s front back q =
    elim (Bool-cases ((G s key).in_queue || length (G s key).entries == 0)) [
      | inl idle ↦ rw idle (record { back' = back; split = q; members = λ k h. inl h })
      | inr new ↦ rw new (record {
        back' = back ++ key ∷ [];
        split = ap (λ x. x ++ key ∷ []) q ∙ append_assoc front back (key ∷ []);
        members = λ k h. ends k (rw member-append at h);
      })
    ]
  where
    ends :
        (k : Text)
        → (member k back || (key == k || false)) ≡ true
        → (member k back ≡ true) ⊎ (key ≡ k)
    ends k h = elim (Bool-cases (member k back)) [
      | inl m ↦ inl m
      | inr m ↦ inr ((text_iff key k).0 (ground arith))
    ]

enqueue_group_idle :
    (key : Text) (s : Semaphore)
    → ((G s key).in_queue || length (G s key).entries == 0) ≡ true
    → enqueue_group key s ≡ s
unfolding enqueue_group
enqueue_group_idle key s h = rw h

delete_group_if_idle-queue :
    (key : Text) (s : Semaphore)
    → (G s key).in_queue ≡ false
    → (delete_group_if_idle key s).queue_groups ≡ s.queue_groups
unfolding delete_group_if_idle remove_group_from_queue
delete_group_if_idle-queue key s h = elim (Bool-cases (is_idle (G s key))) [
  | inl idle ↦ rw idle (rw h refl)
  | inr busy ↦ rw busy refl
]

take_entry_own :
    (aborted : ℕ → Bool) (key : Text) (s : Semaphore)
    → G (take_entry aborted key s) key
      ≡ record (G s key) { entries = (pick aborted (G s key).entries).rest }
unfolding take_entry put_group
take_entry_own aborted key s = rw (group_of-set, (text_iff key key).1 refl)

take_entry_other :
    (aborted : ℕ → Bool) (key k : Text) (s : Semaphore)
    → (key == k) ≡ false
    → G (take_entry aborted key s) k ≡ G s k
unfolding take_entry put_group
take_entry_other aborted key k s e = rw (group_of-set, e)

module _ (max cap short running : ℕ) (aborted : ℕ → Bool) (key : Text) (s : Semaphore) where
  take_entry-IsFair :
      IsFair max cap short running (some key) s
      → IsFair max cap short running (some key) (take_entry aborted key s)
  unfolding take_entry put_group
  take_entry-IsFair f = record {
    same_max = f.same_max;
    same_cap = f.same_cap;
    same_short = f.same_short;
    runs = f.runs;
    fits =
        set-Fits (some key) (some key) s.groups_by_key s.queue_groups s.queue_groups key
          (record (G s key) { entries = (pick aborted (G s key).entries).rest }) f.fits (λ k e m. m)
          (λ k e h. h)
          (record {
            within = f.fits.within key;
            waits = omega (arith, pick-le aborted (G s key).entries, f.fits.waits key);
            flagged = λ h. inr refl;
            listed = f.fits.listed key;
          });
  }

  -- The group is left with nothing that waits, and the queue is as it was.
  record Emptied (t : Semaphore) : Type 0 where
    fair : IsFair max cap short running none t
    empty : length (G t key).entries ≡ 0
    others : (k : Text) → (key == k) ≡ false → SameWork (G s k) (G t k)
    queue : t.queue_groups ≡ s.queue_groups

  serve_none :
      IsFair max cap short running (some key) s
      → (G s key).in_queue ≡ false
      → (pick aborted (G s key).entries).entry ≡ none
      → Emptied (delete_group_if_idle key (enqueue_group key (take_entry aborted key s)))
  unfolding take_entry put_group
  serve_none f out h =
      let u = enqueue_group key (take_entry aborted key s) in
      let nothing = pick-none aborted (G s key).entries h in
      let w = delete_group_if_idle-SameWorks key u in
      let e = enqueue_group-SameWorks key (take_entry aborted key s) in
      record {
        fair = delete_group_if_idle-IsFair max cap short running key u (
            enqueue_group-IsFair max cap short running key (take_entry aborted key s)
              (take_entry-IsFair f));
        empty =
            (w key).entries
            ∙ (e key).entries
            ∙ ap (λ (g : Group). length g.entries) (take_entry_own aborted key s)
            ∙ ap (λ (ids : List ℕ). length ids) nothing;
        others = λ k other. record {
          entries =
              (w k).entries
              ∙ (e k).entries
              ∙ ap (λ (g : Group). length g.entries) (take_entry_other aborted key k s other);
          active =
              (w k).active
              ∙ (e k).active
              ∙ ap (λ (g : Group). g.active) (take_entry_other aborted key k s other);
        };
        queue =
            rw
              (enqueue_group_idle key (take_entry aborted key s)
                (rw (take_entry_own aborted key s, nothing, out) refl))
              (delete_group_if_idle-queue key (take_entry aborted key s)
                (rw (take_entry_own aborted key s) out));
      }

  serve_some :
      IsFair max cap short running (some key) s
      → (G s key).active < cap
      → IsFair max cap short running none (enqueue_group key (take_entry aborted key s))
        × ((G (enqueue_group key (take_entry aborted key s)) key).active < cap)
  serve_some f room =
      let e = enqueue_group-SameWorks key (take_entry aborted key s) in
      let same = ap (λ (g : Group). g.active) (take_entry_own aborted key s) in
      (
        enqueue_group-IsFair max cap short running key (take_entry aborted key s)
            (take_entry-IsFair f),
        rw ((e key).active ∙ same) room,
      )

shifted-SameWorks :
    (key : Text) (keys : List Text) (s : Semaphore) → SameWorks s (shifted key keys s)
unfolding shifted put_group
shifted-SameWorks key keys s =
    set-SameWork s.groups_by_key key _ (record { entries = refl; active = refl })

shifted-out :
    (key : Text) (keys : List Text) (s : Semaphore) → (G (shifted key keys s) key).in_queue ≡ false
unfolding shifted put_group
shifted-out key keys s = rw (group_of-set, (text_iff key key).1 refl) refl

shifted-queue :
    (key : Text) (keys : List Text) (s : Semaphore) → (shifted key keys s).queue_groups ≡ keys
unfolding shifted
shifted-queue key keys s = refl

serve_group-none :
    (aborted : ℕ → Bool) (key : Text) (s : Semaphore)
    → (pick aborted (G s key).entries).entry ≡ none
    → serve_group aborted key s
      ≡ (none, delete_group_if_idle key (enqueue_group key (take_entry aborted key s)))
unfolding serve_group
serve_group-none aborted key s e = rw (e, serve_group) refl

serve_group-some :
    (aborted : ℕ → Bool) (key : Text) (s : Semaphore) (id : ℕ)
    → (pick aborted (G s key).entries).entry ≡ some id
    → serve_group aborted key s ≡ (some (key, id), enqueue_group key (take_entry aborted key s))
unfolding serve_group
serve_group-some aborted key s id e = rw (e, serve_group) refl

module _ (max cap short running : ℕ) (aborted : ℕ → Bool) where
  -- What a search comes back with: nothing, and then every key is served; or a request of a key
  -- that has room.
  abbrev pub Found : Option (Text × ℕ) × Semaphore → Type 0
  Found (none, t) = IsFair max cap short running none t × ((k : Text) → IsServed cap (G t k))
  Found (some (key, id), t) = IsFair max cap short running none t × ((G t key).active < cap)

  -- At the end of the queue everything that waits has been looked at.
  all_served :
      (s : Semaphore) (back : List Text)
      → IsFair max cap short running none s
      → s.queue_groups ≡ back
      → ((k : Text) → member k back ≡ true → IsServed cap (G s k))
      → (k : Text) → IsServed cap (G s k)
  all_served s back f q served k = elim (Bool-cases (length (G s k).entries == 0)) [
    | inl nobody ↦ inl (ground arith)
    | inr somebody ↦ elim (f.fits.flagged k somebody) [
      | inl flag ↦ served k (rw (← q) (f.fits.listed k flag))
      | inr m ↦ cc
    ]
  ]

  full_step :
      (key : Text) (front back : List Text) (s : Semaphore)
      → IsFair max cap short running none s
      → s.queue_groups ≡ key ∷ (front ++ back)
      → cap ≤ (G s key).active
      → ((k : Text) → member k back ≡ true → IsServed cap (G s k))
      → (x : Extends key front back
          (enqueue_group key (shifted key (front ++ back) s)).queue_groups)
        × ((k : Text)
            → member k x.back' ≡ true
            → IsServed cap (G (enqueue_group key (shifted key (front ++ back) s)) k))
  unfolding shifted
  full_step key front back s f q full served =
      let t = shifted key (front ++ back) s in
      let x = enqueue_group-Extends key t front back refl in
      (
        x,
        λ k m. SameWork-IsServed (enqueue_group-SameWorks key t k) (
            SameWork-IsServed (shifted-SameWorks key (front ++ back) s k)
              (elim (x.members k m) [ inl old ↦ served k old | inr e ↦ inr (rw (← e) full) ])),
      )

  emptied_step :
      (key : Text) (keys back : List Text) (s t : Semaphore)
      → Emptied max cap short running aborted key (shifted key keys s) t
      → ((k : Text) → member k back ≡ true → IsServed cap (G s k))
      → (k : Text) → member k back ≡ true
      → IsServed cap (G t k)
  emptied_step key keys back s t x served k m = elim (Bool-cases (key == k)) [
    | inl e ↦
        let same : key ≡ k = (text_iff key k).0 e in
        inl (ap (λ j. length (G t j).entries) (sym same) ∙ x.empty)
    | inr e ↦
        SameWork-IsServed (x.others k e)
          (SameWork-IsServed (shifted-SameWorks key keys s k) (served k m))
  ]

  pub search :
      (n : ℕ) (front back : List Text) (s : Semaphore)
      → IsFair max cap short running none s
      → s.queue_groups ≡ front ++ back
      → length front ≡ n
      → ((k : Text) → member k back ≡ true → IsServed cap (G s k))
      → Found (next_queued_entry aborted n s)
  unfolding next_queued_entry
  search zero [] back s f q l served = (f, all_served s back f q served)
  search zero (key ∷ front) back s f q l served = absurd (omega (arith, l))
  search (suc n) [] back s f q l served = absurd (omega (arith, l))
  search (suc n) (key ∷ front) back s f q l served =
      let keys = front ++ back in
      let t = shifted key keys s in
      let shift = shifted-IsFair max cap short running key keys s f q in
      elim (Bool-cases (leb s.max_concurrent_per_key (G s key).active)) [
        | inl full ↦
            let (x, all) = full_step key front back s f q (ground (arith, f.same_cap)) served in
            rw (q, next_queued_entry)
              (rw full (
                search n front x.back' (enqueue_group key t)
                  (enqueue_group-IsFair max cap short running key t shift) x.split
                  (omega (arith, l)) all))
        | inr room ↦
            let free : (G t key).active < cap =
              rw (shifted-SameWorks key keys s key).active (ground (arith, f.same_cap)) in
            rw (q, next_queued_entry)
              (rw room (elim (Option-cases (pick aborted (G t key).entries).entry) [
                | inl e ↦
                    let out = shifted-out key keys s in
                    let x = serve_none max cap short running aborted key t shift out e in
                    rw (serve_group-none aborted key t e) (
                      rw (serve_group-none aborted key t e) (
                        search n front back
                          (delete_group_if_idle key (enqueue_group key (take_entry aborted key t)))
                          x.fair (x.queue ∙ shifted-queue key keys s) (omega (arith, l))
                          (emptied_step key keys back s _ x served)))
                | inr (id, e) ↦ rw (serve_group-some aborted key t id e) (
                    rw (serve_group-some aborted key t id e)
                      (serve_some max cap short running aborted key t shift free))
              ]))
      ]
