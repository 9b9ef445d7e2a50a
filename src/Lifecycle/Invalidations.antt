-- ===== src/Lifecycle/Invalidations.antt =====
-- MemoryLifecycleInvalidationRepository. `sha256` is SHA-256 of a text in UTF-8, in hexadecimal,
-- `locale_compare` is String.prototype.localeCompare, and `date_parse` is Date.parse.
pub mod Queue
use jumpgate_bridge.Prelude.{
  ℕ, ◌+◌, ◌==◌, list_eq, nat_eq, Bool, true, false, ◌&&◌, not, Option, none, some, List, [], ◌∷◌,
  ◌++◌, leb, ltb, if◌then◌else◌,
}
use jumpgate_bridge.Prelude.Text.{Text, text}
use jumpgate_bridge.Prelude.Map.{Map, get, has, set, delete, values}
use jumpgate_bridge.Prelude.Sorting.{filter, take, sort}
use jumpgate_bridge.Prelude.Outcome.{
  Result, ok, err, Action, pure, lift, read, write, ◌>>=◌, ◌>>◌, type_error,
}
use jumpgate_bridge.Value.{Value, undefined, number, natural, string, Number, max_safe_integer}
use jumpgate_bridge.RepositoryUtils.{
  assert_identifier, assert_positive_integer, assert_non_negative_integer, parse_timestamp,
  read_clock,
}
use jumpgate_bridge.RepositoryUtils.Fences.{Comparison, less, same, greater, decimal}
use jumpgate_bridge.TokenService.{is_hash}

pub data Kind : Type 0 where
  profile device : Kind

unfoldable pub same_kind : Kind → Kind → Bool
same_kind profile profile = true
same_kind device device = true
same_kind _ _ = false

unfoldable pub kind_text : Kind → Text
kind_text profile = text "profile"
kind_text device = text "device"

pub record Invalidation : Type 0 where
  pub id : Text
  pub kind : Kind
  pub profile_id : Text
  pub profile_revision : ℕ
  pub device_id : Option Text
  pub device_generation : Option ℕ
  pub attempt_count : ℕ
  pub next_attempt_at : ℕ
  pub created_at : ℕ
  pub updated_at : ℕ

pub record Invalidations : Type 0 where
  pub records : Map Text Invalidation

-- assertInvalidationId
unfoldable pub assert_invalidation_id : Value → Result Text
unfolding is_hash
assert_invalidation_id (string s) = if is_hash s then ok s else err type_error
assert_invalidation_id _ = err type_error

-- assertInvalidationKind
unfoldable pub assert_invalidation_kind : Value → Result Kind
unfolding kind_text
assert_invalidation_kind (string s) =
    if s == kind_text profile
    then ok profile
    else if s == kind_text device
    then ok device
    else err type_error
assert_invalidation_kind _ = err type_error

-- The argument of _enqueue; a profile's has no device.
pub record EnqueueInput : Type 0 where
  pub kind : Kind
  pub profile_id : Value
  pub profile_revision : Value
  pub device_id : Value
  pub device_generation : Value

-- What is checked of a device, for the kind that has one.
unfoldable pub device_part : Kind → Value → Value → Result (Option (Text × ℕ))
device_part profile device_id device_generation = ok none
device_part device device_id device_generation = elim (assert_identifier device_id) [
  | err e ↦ err e
  | ok id ↦ elim (assert_positive_integer device_generation max_safe_integer) [
    | err e ↦ err e
    | ok generation ↦ ok (some (id, generation))
  ]
]

unfoldable pub device_id_of : Option (Text × ℕ) → Option Text
device_id_of none = none
device_id_of (some (id, generation)) = some id

unfoldable pub device_generation_of : Option (Text × ℕ) → Option ℕ
device_generation_of none = none
device_generation_of (some (id, generation)) = some generation

-- [...].join("\0")
unfoldable pub join_nul : List Text → Text
join_nul [] = []
join_nul (t ∷ []) = t
join_nul (t ∷ ts) = t ++ (0 ∷ join_nul ts)

unfoldable pub id_parts : Kind → Text → ℕ → Option (Text × ℕ) → List Text
unfolding kind_text decimal
id_parts kind profile_id revision none =
    text "jumpgate-lifecycle-invalidation-v1"
    ∷ kind_text kind
    ∷ profile_id
    ∷ decimal revision
    ∷ []
    ∷ decimal 0
    ∷ []
id_parts kind profile_id revision (some (id, generation)) =
    text "jumpgate-lifecycle-invalidation-v1"
    ∷ kind_text kind
    ∷ profile_id
    ∷ decimal revision
    ∷ id
    ∷ decimal generation
    ∷ []

same_device : Option Text → Option Text → Bool
same_device none none = true
same_device (some a) (some b) = a == b
same_device _ _ = false

abbrev default_limit : Value → Value
default_limit undefined = number (natural 32)
default_limit v = v

-- `left - right || next`, where `next` is the answer on equal numbers.
unfoldable pub by_number : ℕ → ℕ → Bool → Bool
by_number left right next = if left == right then next else ltb left right

is_less : Comparison → Bool
is_less less = true
is_less _ = false

unfoldable pub is_due : ℕ → Invalidation → Bool
is_due now r = leb r.next_attempt_at now

-- The end of _enqueue: a record that is there stays.
unfoldable pub store_new : Invalidation → Action Invalidations Invalidation
store_new r s = elim (get s.records r.id) [
  | some existing ↦ (ok existing, s)
  | none ↦ (ok r, record s { records = set s.records r.id r })
]

module _ (sha256 : Text → Text) (date_parse : Text → Number) where
  -- lifecycleInvalidationId, on checked arguments; its own checks pass again.
  unfoldable pub lifecycle_invalidation_id : Kind → Text → ℕ → Option (Text × ℕ) → Text
  unfolding join_nul id_parts
  lifecycle_invalidation_id kind profile_id revision d =
      sha256 (join_nul (id_parts kind profile_id revision d))

  unfoldable pub create_invalidation_record : EnqueueInput → ℕ → Result Invalidation
  unfolding device_part device_id_of device_generation_of lifecycle_invalidation_id
  create_invalidation_record input now = elim (assert_identifier input.profile_id) [
    | err e ↦ err e
    | ok id ↦ elim (assert_positive_integer input.profile_revision max_safe_integer) [
      | err e ↦ err e
      | ok revision ↦ elim (device_part input.kind input.device_id input.device_generation) [
        | err e ↦ err e
        | ok d ↦ elim (parse_timestamp date_parse (number (natural now))) [
          | err e ↦ err e
          | ok timestamp ↦ ok (record {
            id = lifecycle_invalidation_id input.kind id revision d;
            kind = input.kind;
            profile_id = id;
            profile_revision = revision;
            device_id = device_id_of d;
            device_generation = device_generation_of d;
            attempt_count = 0;
            next_attempt_at = timestamp;
            created_at = timestamp;
            updated_at = timestamp;
          })
        ]
      ]
    ]
  ]

  -- _enqueue
  unfoldable pub enqueue : Number → EnqueueInput → Action Invalidations Invalidation
  unfolding create_invalidation_record store_new
  enqueue reading input = do
    now ← lift (read_clock reading)
    r ← lift (create_invalidation_record input now)
    store_new r

  unfoldable pub enqueue_profile : Number → Value → Value → Action Invalidations Invalidation
  unfolding enqueue
  enqueue_profile reading profile_id profile_revision = enqueue reading (record {
    kind = profile;
    profile_id = profile_id;
    profile_revision = profile_revision;
    device_id = undefined;
    device_generation = undefined;
  })

  unfoldable pub enqueue_device :
      Number → Value → Value → Value → Value → Action Invalidations Invalidation
  unfolding enqueue
  enqueue_device reading profile_id profile_revision device_id device_generation =
      enqueue reading (record {
        kind = device;
        profile_id = profile_id;
        profile_revision = profile_revision;
        device_id = device_id;
        device_generation = device_generation;
      })

unfoldable pub first_record : List Invalidation → Option Invalidation
first_record [] = none
first_record (r ∷ rs) = some r

pending_device : Kind → Value → Result (Option Text)
pending_device profile v = ok none
pending_device device v = elim (assert_identifier v) [ err e ↦ err e | ok id ↦ ok (some id) ]

module _ (locale_compare : Text → Text → Comparison) where
  -- The comparator of getPending: the latest first.
  unfoldable pub newer : Invalidation → Invalidation → Bool
  unfolding by_number is_less
  newer left right =
      by_number right.created_at left.created_at (is_less (locale_compare right.id left.id))

  -- getPending, on checked arguments.
  unfoldable pub pending_of : Kind → Text → Option Text → Invalidations → Option Invalidation
  unfolding newer first_record same_kind same_device sort filter values
  pending_of kind profile_id device_id s = first_record (
      sort newer (
        filter
          (λ r.
            same_kind r.kind kind
            && r.profile_id == profile_id
            && same_device r.device_id device_id)
          (values s.records)))

  unfoldable pub get_pending : Value → Value → Value → Action Invalidations (Option Invalidation)
  unfolding pending_of pending_device
  get_pending kind profile_id device_id = do
    k ← lift (assert_invalidation_kind kind)
    p ← lift (assert_identifier profile_id)
    d ← lift (pending_device k device_id)
    read (pending_of k p d)

  -- The comparator of listPending: the earliest first.
  unfoldable pub due_before : Invalidation → Invalidation → Bool
  unfolding by_number is_less
  due_before left right =
      by_number left.next_attempt_at right.next_attempt_at
        (by_number left.created_at right.created_at (is_less (locale_compare left.id right.id)))

  unfoldable pub due_records : ℕ → ℕ → Invalidations → List Invalidation
  unfolding due_before is_due sort filter take values
  due_records limit now s = take limit (sort due_before (filter (is_due now) (values s.records)))

  unfoldable pub list_pending : Number → Value → Action Invalidations (List Invalidation)
  unfolding due_records
  list_pending reading limit = do
    n ← lift (assert_positive_integer (default_limit limit) 256)
    now ← lift (read_clock reading)
    read (due_records n now)

-- complete: whether there was such a record.
unfoldable pub complete : Value → Action Invalidations Bool
complete invalidation_id = do
  id ← lift (assert_invalidation_id invalidation_id)
  found ← read (λ s. has s.records id)
  write (λ s. record s { records = delete s.records id })
  pure found

unfoldable pub put_off : Text → Invalidation → ℕ → Number → Action Invalidations Bool
put_off id r retry_at reading = do
  write (λ s. record s {
    records =
        set s.records id
          (record r { attempt_count = r.attempt_count + 1; next_attempt_at = retry_at });
  })
  now ← lift (read_clock reading)
  write (λ s. record s {
    records = set s.records id (record r {
      attempt_count = r.attempt_count + 1;
      next_attempt_at = retry_at;
      updated_at = now;
    });
  })
  pure true

unfoldable pub defer_found : Text → Option Invalidation → ℕ → ℕ → Number → Action Invalidations Bool
unfolding put_off
defer_found id none expected retry_at reading = pure false
defer_found id (some r) expected retry_at reading =
    if not (r.attempt_count == expected) then pure false else put_off id r retry_at reading

-- defer
unfoldable pub defer : (Text → Number) → Number → Value → Value → Value → Action Invalidations Bool
unfolding defer_found
defer date_parse reading invalidation_id expected_attempt_count next_attempt_at = do
  id ← lift (assert_invalidation_id invalidation_id)
  expected ← lift (assert_non_negative_integer expected_attempt_count)
  retry_at ← lift (parse_timestamp date_parse next_attempt_at)
  found ← read (λ s. get s.records id)
  defer_found id found expected retry_at reading
