-- ===== src/Providers.antt =====
-- MemoryProviderRepository of lib/storage/memory-profile-provider-repositories.js: the providers of
-- each profile, replaced as a whole under a mutation fence that never goes back.
pub mod Replacing
pub mod Fencing
pub mod Steps
pub mod Stale
pub mod Tests
use jumpgate_bridge.Prelude.{
  ℕ, suc, ◌+◌, ◌*◌, ◌==◌, list_eq, nat_eq, Bool, true, false, ◌||◌, not, Option, none, some, List,
  [], ◌∷◌, ◌++◌, ltb, if◌then◌else◌, length,
}
use jumpgate_bridge.Prelude.Text.{Text, text}
use jumpgate_bridge.Prelude.Map.{Map, get, has, set, delete}
use jumpgate_bridge.Prelude.Sorting.{take}
use jumpgate_bridge.Prelude.Outcome.{
  Result, ok, err, Action, pure, throw, lift, read, check, write, require, ◌>>=◌, ◌>>◌, type_error,
  plain_error, provider_snapshot_stale_fence, revision_conflict,
}
use jumpgate_bridge.Value.{
  Value, undefined, string, object, array, Items, end, item, Fields, empty, field, Number, property,
}
use jumpgate_bridge.RepositoryUtils.{assert_identifier, assert_non_negative_integer, read_clock}
use jumpgate_bridge.RepositoryUtils.Fences.{
  Comparison, less, same, greater, assert_mutation_fence, compare_mutation_fences,
  next_mutation_fence,
}
use jumpgate_bridge.JsonDomain.{is_json, assert_json_value}
use jumpgate_bridge.TokenService.{hash_opaque}

pub record Provider : Type 0 where
  pub provider_id : Text
  pub profile_id : Text
  pub ordinal : ℕ
  pub manifest_id : Text
  pub transport_hash : Text
  pub descriptor_envelope : Value

pub record Collection : Type 0 where
  pub mutation_fence : Text
  pub revision : ℕ
  pub updated_at : ℕ
  pub records : List Provider

pub record Providers : Type 0 where
  pub collections : Map Text Collection
  pub mutation_fence_counter : Text

abbrev pub zero_fence : Text
zero_fence = text "0"

-- A profile without providers.
abbrev pub no_collection : Collection
no_collection = record { mutation_fence = zero_fence; revision = 0; updated_at = 0; records = [] }

unfoldable pub collection_of : Option Collection → Collection
collection_of none = no_collection
collection_of (some c) = c

unfoldable pub only_fence : Fields → Bool
only_fence empty = true
only_fence (field k v fs) =
    let rest = only_fence fs in if k == text "mutationFence" then rest else false

unfoldable pub fence_or_zero : Value → Result Text
fence_or_zero undefined = ok zero_fence
fence_or_zero v = assert_mutation_fence v

-- mutationFenceOption
unfoldable pub mutation_fence_option : Value → Result Text
unfolding only_fence fence_or_zero
mutation_fence_option undefined = ok zero_fence
mutation_fence_option (object fs) =
    if only_fence fs then fence_or_zero (property fs (text "mutationFence")) else err type_error
mutation_fence_option _ = err type_error

is_less : Comparison → Bool
is_less less = true
is_less _ = false

is_greater : Comparison → Bool
is_greater greater = true
is_greater _ = false

-- Whether the first fence comes before the second, or after it.
unfoldable pub is_before : Text → Text → Bool
unfolding is_less
is_before a b = is_less (compare_mutation_fences a b)

unfoldable pub is_after : Text → Text → Bool
unfolding is_greater
is_after a b = is_greater (compare_mutation_fences a b)

ids_of : List Provider → List Text → List Text
ids_of [] rest = rest
ids_of (p ∷ ps) rest = p.provider_id ∷ ids_of ps rest

-- The provider ids of the other profiles.
unfoldable pub other_ids : Text → Map Text Collection → List Text
unfolding ids_of
other_ids id [] = []
other_ids id ((k, c) ∷ m) =
    let rest = other_ids id m in if k == id then rest else ids_of c.records rest

-- _rebaseMutationFenceCounter
unfoldable pub rebase : Text → Providers → Providers
unfolding is_after
rebase fence s =
    if is_after fence s.mutation_fence_counter
    then record s { mutation_fence_counter = fence }
    else s

-- allocateMutationFence
unfoldable pub allocate_mutation_fence : Value → Action Providers Text
allocate_mutation_fence profile_id = do
  id ← lift (assert_identifier profile_id)
  counter ← read (λ s. s.mutation_fence_counter)
  allocated ← lift (next_mutation_fence counter)
  write (λ s. record s { mutation_fence_counter = allocated })
  pure allocated

-- eraseProfile
unfoldable pub erase_profile : Value → Action Providers Bool
erase_profile profile_id = do
  id ← lift (assert_identifier profile_id)
  found ← read (λ s. has s.collections id)
  write (λ s. record s { collections = delete s.collections id })
  pure found

unfoldable pub advanced : Text → ℕ → Collection → Collection
advanced fence now c = record c { mutation_fence = fence; updated_at = now }

-- The write of advanceMutationFence: a fence that is the same changes nothing but the counter.
unfoldable pub advance_stored :
    Number → Text → Text → Option Collection → Action Providers (Unit {0})
unfolding is_after advanced
advance_stored reading id fence none = do
  now ← lift (read_clock reading)
  write (λ s. record s { collections = set s.collections id (advanced fence now no_collection) })
advance_stored reading id fence (some c) =
    if is_after fence c.mutation_fence
    then (do
      write (λ s. record s {
        collections = set s.collections id (record c { mutation_fence = fence });
      })
      now ← lift (read_clock reading)
      write (λ s. record s { collections = set s.collections id (advanced fence now c) }))
    else pure tt

-- advanceMutationFence, on checked arguments; it answers the revision.
unfoldable pub advance_found : Number → Text → Text → Option Collection → Action Providers ℕ
unfolding is_before rebase advance_stored collection_of
advance_found reading id fence found = do
  current ← lift (assert_mutation_fence (string (collection_of found).mutation_fence))
  require (not (is_before fence current)) provider_snapshot_stale_fence
  advance_stored reading id fence found
  write (rebase fence)
  pure (collection_of found).revision

unfoldable pub advance_mutation_fence : Number → Value → Value → Action Providers ℕ
unfolding advance_found
advance_mutation_fence reading profile_id mutation_fence = do
  id ← lift (assert_identifier profile_id)
  fence ← lift (assert_mutation_fence mutation_fence)
  found ← read (λ s. get s.collections id)
  advance_found reading id fence found
