-- ===== src/UpstreamPolicy/Admission/Queue.antt =====
-- Taking groups out of the queue keeps the rest in order.
use jumpgate_bridge.Prelude.{
  ℕ, ◌==◌, list_eq, nat_eq, ◌≡◌, refl, ap, ◌∙◌, inl, inr, false, ◌||◌, Option, none, some, List,
  ◌∷◌, length, arith, Bool-cases,
}
use jumpgate_bridge.Prelude.Text.{Text, text_iff}
use jumpgate_bridge.Prelude.Map.{Map, set, delete}
use jumpgate_bridge.UpstreamPolicy.Admission.{
  Group, Semaphore, group_of, put_group, enqueue_group, remove_first, remove_group_from_queue,
  delete_group_if_idle, is_idle, shifted,
}
use jumpgate_bridge.UpstreamPolicy.Admission.Groups.{
  G, Fits, IsFair, set-Fits, delete-Fits, found-Fits, member, member-remove_first, group_of-set,
  group_of-delete,
}

-- As many wait and as many run.
pub record SameWork (g g' : Group) : Type 0 where
  pub entries : length g'.entries ≡ length g.entries
  pub active : g'.active ≡ g.active

abbrev pub SameWorks : Semaphore → Semaphore → Type 0
SameWorks s t = (k : Text) → SameWork (G s k) (G t k)

pub set-SameWork :
    (groups : Map Text Group) (key : Text) (g : Group)
    → SameWork (group_of groups key) g
    → (k : Text) → SameWork (group_of groups k) (group_of (set groups key g) k)
set-SameWork groups key g w k = rw group_of-set (elim (Bool-cases (key == k)) [
  | inl e ↦ rw e (let same : key ≡ k = (text_iff key k).0 e in rw (← same) w)
  | inr e ↦ rw e (record { entries = refl; active = refl })
])

pub enqueue_group-SameWorks : (key : Text) (s : Semaphore) → SameWorks s (enqueue_group key s)
unfolding enqueue_group put_group
enqueue_group-SameWorks key s =
    elim (Bool-cases ((G s key).in_queue || length (G s key).entries == 0)) [
      | inl idle ↦ rw idle (λ k. record { entries = refl; active = refl })
      | inr new ↦
          rw new (set-SameWork s.groups_by_key key _ (record { entries = refl; active = refl }))
    ]

pub remove_group_from_queue-SameWorks :
    (key : Text) (s : Semaphore) → SameWorks s (remove_group_from_queue key s)
unfolding remove_group_from_queue put_group
remove_group_from_queue-SameWorks key s = elim (Bool-cases (G s key).in_queue) [
  | inr out ↦ rw out (λ k. record { entries = refl; active = refl })
  | inl there ↦
      rw there (set-SameWork s.groups_by_key key _ (record { entries = refl; active = refl }))
]

pub delete_group_if_idle-SameWorks :
    (key : Text) (s : Semaphore) → SameWorks s (delete_group_if_idle key s)
unfolding delete_group_if_idle
delete_group_if_idle-SameWorks key s = elim (Bool-cases (is_idle (G s key))) [
  | inr busy ↦ rw busy (λ k. record { entries = refl; active = refl })
  | inl idle ↦ rw idle (λ k. rw group_of-delete (elim (Bool-cases (key == k)) [
    | inl e ↦ rw e (
        let same : key ≡ k = (text_iff key k).0 e in
        rw (← same) (record { entries = ground arith; active = ground arith }))
    | inr e ↦ rw e (remove_group_from_queue-SameWorks key s k)
  ]))
]

weaken-Fits :
    {cap short : ℕ} (missing : Option Text) (key : Text) (groups : Map Text Group)
    (queue : List Text)
    → ((k : Text) → (key == k) ≡ false → missing ≡ some k → some key ≡ some k)
    → Fits cap short missing groups queue
    → Fits cap short (some key) groups queue
weaken-Fits missing key groups queue others f = record {
  within = f.within;
  waits = f.waits;
  flagged = λ k h. elim (f.flagged k h) [
    | inl q ↦ inl q
    | inr m ↦ inr (elim (Bool-cases (key == k)) [
      | inl e ↦ ap some ((text_iff key k).0 e)
      | inr e ↦ others k e m
    ])
  ];
  listed = f.listed;
}

module _ (max cap short running : ℕ) (key : Text) (s : Semaphore) where
  pub remove_group_from_queue-IsFair :
      (missing : Option Text)
      → ((k : Text) → (key == k) ≡ false → missing ≡ some k → some key ≡ some k)
      → IsFair max cap short running missing s
      → IsFair max cap short running (some key) (remove_group_from_queue key s)
  unfolding remove_group_from_queue put_group
  remove_group_from_queue-IsFair missing others f = elim (Bool-cases (G s key).in_queue) [
    | inr out ↦ rw out (record {
      same_max = f.same_max;
      same_cap = f.same_cap;
      same_short = f.same_short;
      runs = f.runs;
      fits = weaken-Fits missing key s.groups_by_key s.queue_groups others f.fits;
    })
    | inl there ↦ rw there (record {
      same_max = f.same_max;
      same_cap = f.same_cap;
      same_short = f.same_short;
      runs = f.runs;
      fits =
          set-Fits missing (some key) s.groups_by_key s.queue_groups
            (remove_first key s.queue_groups) key _ f.fits others
            (λ k e h. member-remove_first k key s.queue_groups e ∙ h)
            (record {
              within = f.fits.within key;
              waits = f.fits.waits key;
              flagged = λ h. inr refl;
              listed = λ h. cc;
            });
    })
  ]

  pub delete_group_if_idle-IsFair :
      IsFair max cap short running none s
      → IsFair max cap short running none (delete_group_if_idle key s)
  unfolding delete_group_if_idle
  delete_group_if_idle-IsFair f = elim (Bool-cases (is_idle (G s key))) [
    | inr busy ↦ rw busy f
    | inl idle ↦
        let r = remove_group_from_queue-IsFair none (λ k e m. cc) f in
        let u = remove_group_from_queue key s in
        rw idle (record {
          same_max = r.same_max;
          same_cap = r.same_cap;
          same_short = r.same_short;
          runs = r.runs;
          fits =
              found-Fits (delete u.groups_by_key key) u.queue_groups key
                (delete-Fits (some key) u.groups_by_key u.queue_groups u.queue_groups key r.fits
                  (λ k e h. h))
                (λ h. absurd (gone u.groups_by_key h));
        })
  ]
    where
      gone :
          (groups : Map Text Group)
          → (length (group_of (delete groups key) key).entries == 0) ≡ false
          → ⊥
      gone groups h = ground (arith, group_of-delete groups key key, text_iff key key)

module _ (max cap short running : ℕ) (key : Text) (keys : List Text) (s : Semaphore) where
  pub shifted-IsFair :
      IsFair max cap short running none s
      → s.queue_groups ≡ key ∷ keys
      → IsFair max cap short running (some key) (shifted key keys s)
  unfolding shifted put_group member
  shifted-IsFair f q = record {
    same_max = f.same_max;
    same_cap = f.same_cap;
    same_short = f.same_short;
    runs = f.runs;
    fits =
        set-Fits none (some key) s.groups_by_key s.queue_groups keys key
          (record (G s key) { in_queue = false }) f.fits (λ k e m. cc)
          (λ k e h. ground (arith, text_iff key k, ap (member k) q))
          (record {
            within = f.fits.within key;
            waits = f.fits.waits key;
            flagged = λ h. inr refl;
            listed = λ h. cc;
          });
  }
