-- ===== src/UpstreamPolicy/Admission/Groups.antt =====
-- What is kept between the operations of the semaphore, and how the helpers on groups keep it.
use jumpgate_bridge.Prelude.{
  ℕ, ◌≤◌, ◌==◌, list_eq, nat_eq, ◌≡◌, refl, ◌⊎◌, inl, inr, Bool, true, false, ◌||◌, Option, none,
  some, List, [], ◌∷◌, ◌++◌, length, arith, Bool-cases, if◌then◌else◌,
}
use jumpgate_bridge.Prelude.Text.{Text, text_iff}
use jumpgate_bridge.Prelude.Map.{Map, set, delete, get-set, get-delete}
use jumpgate_bridge.UpstreamPolicy.Admission.{
  Group, Semaphore, no_group, group_of, put_group, enqueue_group, remove_first,
}

abbrev pub G : Semaphore → Text → Group
G s k = group_of s.groups_by_key k

pub group_of-set :
    (m : Map Text Group) (k j : Text) (g : Group)
    → group_of (set m k g) j ≡ (if k == j then g else group_of m j)
unfolding group_of
group_of-set m k j g = ground (arith, get-set m k j g)

pub group_of-delete :
    (m : Map Text Group) (k j : Text)
    → group_of (delete m k) j ≡ (if k == j then no_group else group_of m j)
unfolding group_of
group_of-delete m k j = ground (arith, get-delete m k j)

unfoldable pub member : Text → List Text → Bool
member k [] = false
member k (j ∷ js) = j == k || member k js

pub member-append :
    (k : Text) (is js : List Text) → member k (is ++ js) ≡ (member k is || member k js)
unfolding member
member-append k [] js = refl
member-append k (i ∷ is) js = ground (arith, member-append k is js)

pub member-remove_first :
    (k j : Text) (is : List Text) → (j == k) ≡ false → member k (remove_first j is) ≡ member k is
unfolding member remove_first
member-remove_first k j [] h = refl
member-remove_first k j (i ∷ is) h =
    ground (arith, text_iff i j, text_iff i k, text_iff j k, member-remove_first k j is h)

-- At most `cap` requests of a key run, and at most `short` wait. A key with requests that wait is
-- flagged as queued, but for `missing`, and a key that is flagged stands in the queue.
pub record Fits (cap short : ℕ) (missing : Option Text) (groups : Map Text Group)
    (queue : List Text) : Type 0 where
  pub within : (k : Text) → (group_of groups k).active ≤ cap
  pub waits : (k : Text) → length (group_of groups k).entries ≤ short
  pub flagged :
      (k : Text)
      → (length (group_of groups k).entries == 0) ≡ false
      → ((group_of groups k).in_queue ≡ true) ⊎ (missing ≡ some k)
  pub listed : (k : Text) → (group_of groups k).in_queue ≡ true → member k queue ≡ true

-- Between operations: `running` requests run, of `max` at most.
pub record IsFair (max cap short running : ℕ) (missing : Option Text) (s : Semaphore) : Type 0 where
  pub same_max : s.max_concurrent ≡ max
  pub same_cap : s.max_concurrent_per_key ≡ cap
  pub same_short : s.max_queued_per_key ≡ short
  pub runs : s.active ≡ running
  pub fits : Fits cap short missing s.groups_by_key s.queue_groups

-- What the group written under a key has to satisfy.
pub record GroupFits (cap short : ℕ) (key : Text) (missing : Option Text) (g : Group)
    (queue : List Text) : Type 0 where
  pub within : g.active ≤ cap
  pub waits : length g.entries ≤ short
  pub flagged : (length g.entries == 0) ≡ false → (g.in_queue ≡ true) ⊎ (missing ≡ some key)
  pub listed : g.in_queue ≡ true → member key queue ≡ true

-- A write to one group, with a new queue that keeps the other keys.
pub set-Fits :
    {cap short : ℕ} (missing missing' : Option Text) (groups : Map Text Group)
    (queue queue' : List Text) (key : Text) (g : Group)
    → Fits cap short missing groups queue
    → ((k : Text) → (key == k) ≡ false → missing ≡ some k → missing' ≡ some k)
    → ((k : Text) → (key == k) ≡ false → member k queue ≡ true → member k queue' ≡ true)
    → GroupFits cap short key missing' g queue'
    → Fits cap short missing' (set groups key g) queue'
set-Fits missing missing' groups queue queue' key g f others kept own = record {
  within = λ k. rw group_of-set (ground (arith, f.within k, own.within));
  waits = λ k. rw group_of-set (ground (arith, f.waits k, own.waits));
  flagged = λ k. rw group_of-set (elim (Bool-cases (key == k)) [
    | inl e ↦ rw e (let same : key ≡ k = (text_iff key k).0 e in rw (← same) own.flagged)
    | inr e ↦ rw e (λ h. elim (f.flagged k h) [ inl q ↦ inl q | inr m ↦ inr (others k e m) ])
  ]);
  listed = λ k. rw group_of-set (elim (Bool-cases (key == k)) [
    | inl e ↦ rw e (let same : key ≡ k = (text_iff key k).0 e in rw (← same) own.listed)
    | inr e ↦ rw e (λ h. kept k e (f.listed k h))
  ]);
}

-- A group that is dropped.
pub delete-Fits :
    {cap short : ℕ} (missing : Option Text) (groups : Map Text Group) (queue queue' : List Text)
    (key : Text)
    → Fits cap short missing groups queue
    → ((k : Text) → (key == k) ≡ false → member k queue ≡ true → member k queue' ≡ true)
    → Fits cap short missing (delete groups key) queue'
delete-Fits missing groups queue queue' key f kept = record {
  within = λ k. rw group_of-delete (ground (arith, f.within k));
  waits = λ k. rw group_of-delete (ground (arith, f.waits k));
  flagged = λ k.
      rw group_of-delete
        (elim (Bool-cases (key == k)) [ inl e ↦ rw e (λ h. cc) | inr e ↦ rw e (f.flagged k) ]);
  listed = λ k. rw group_of-delete (elim (Bool-cases (key == k)) [
    | inl e ↦ rw e (λ h. cc)
    | inr e ↦ rw e (λ h. kept k e (f.listed k h))
  ]);
}

-- A key that is missing no more: its group has nothing that waits, or is flagged.
pub found-Fits :
    {cap short : ℕ} (groups : Map Text Group) (queue : List Text) (key : Text)
    → Fits cap short (some key) groups queue
    → ((length (group_of groups key).entries == 0) ≡ false → (group_of groups key).in_queue ≡ true)
    → Fits cap short none groups queue
found-Fits groups queue key f own = record {
  within = f.within;
  waits = f.waits;
  flagged = λ k h. elim (f.flagged k h) [
    | inl q ↦ inl q
    | inr m ↦ let same : key ≡ k = cc in inl (rw (← same) (own (rw same h)))
  ];
  listed = f.listed;
}

no_other : (key k : Text) → (key == k) ≡ false → some key ≡ some k → {A : Type 0} → A
no_other key k e m = absurd (ground (arith, text_iff key k))

member_end : (key : Text) (queue : List Text) → member key (queue ++ key ∷ []) ≡ true
unfolding member
member_end key queue = rw member-append (ground (arith, text_iff key key))

member_before :
    (key k : Text) (queue : List Text) → member k queue ≡ true → member k (queue ++ key ∷ []) ≡ true
unfolding member
member_before key k queue h = rw (member-append, h) refl

module _ (max cap short running : ℕ) (key : Text) (s : Semaphore) where
  -- _enqueueGroup puts the missing key back.
  pub enqueue_group-IsFair :
      IsFair max cap short running (some key) s
      → IsFair max cap short running none (enqueue_group key s)
  unfolding enqueue_group put_group
  enqueue_group-IsFair f = elim (Bool-cases ((G s key).in_queue || length (G s key).entries == 0)) [
    | inl idle ↦ rw idle (record {
      same_max = f.same_max;
      same_cap = f.same_cap;
      same_short = f.same_short;
      runs = f.runs;
      fits = found-Fits s.groups_by_key s.queue_groups key f.fits (λ h. ground arith);
    })
    | inr new ↦ rw new (record {
      same_max = f.same_max;
      same_cap = f.same_cap;
      same_short = f.same_short;
      runs = f.runs;
      fits =
          set-Fits (some key) none s.groups_by_key s.queue_groups (s.queue_groups ++ key ∷ []) key
            (record (G s key) { in_queue = true }) f.fits (λ k e m. no_other key k e m)
            (λ k e h. member_before key k s.queue_groups h)
            (record {
              within = f.fits.within key;
              waits = f.fits.waits key;
              flagged = λ h. inl refl;
              listed = λ h. member_end key s.queue_groups;
            });
    })
  ]
