-- ===== src/Providers/Replacing.antt =====
-- replaceAll and removeAll, with the checks of the descriptors.
use jumpgate_bridge.Prelude.{
  ℕ, suc, ◌+◌, ◌*◌, ◌==◌, list_eq, nat_eq, Bool, false, ◌||◌, not, Option, List, [], ◌∷◌, ltb,
  if◌then◌else◌, length,
}
use jumpgate_bridge.Prelude.Text.{Text, text}
use jumpgate_bridge.Prelude.Map.{get, set}
use jumpgate_bridge.Prelude.Sorting.{take}
use jumpgate_bridge.Prelude.Outcome.{
  Result, ok, err, Action, pure, lift, read, check, write, require, ◌>>=◌, ◌>>◌, type_error,
  plain_error, provider_snapshot_stale_fence, revision_conflict,
}
use jumpgate_bridge.Value.{Value, string, object, array, Items, end, item, Number, property}
use jumpgate_bridge.RepositoryUtils.{assert_identifier, assert_non_negative_integer, read_clock}
use jumpgate_bridge.RepositoryUtils.Fences.{assert_mutation_fence}
use jumpgate_bridge.JsonDomain.{is_json, assert_json_value}
use jumpgate_bridge.TokenService.{hash_opaque}
use jumpgate_bridge.Providers.{
  Provider, Collection, Providers, collection_of, is_before, rebase, other_ids,
  mutation_fence_option,
}

unfoldable pub items_length : Items → ℕ
items_length end = 0
items_length (item v vs) = suc (items_length vs)

-- An array of at most 64 JSON values.
unfoldable pub assert_descriptors : Value → Result Items
unfolding is_json items_length
assert_descriptors (array vs) =
    if not (is_json (array vs)) || ltb 64 (items_length vs) then err type_error else ok vs
assert_descriptors _ = err type_error

text_of_manifest_id : Value → Text
text_of_manifest_id (string s) = take 256 s
text_of_manifest_id _ = []

-- descriptor.manifest && typeof descriptor.manifest.id === "string"
manifest_id_of : Value → Text
unfolding text_of_manifest_id
manifest_id_of (object fs) = text_of_manifest_id (property fs (text "id"))
manifest_id_of _ = []

transport_url : Value → Result Value
transport_url (string []) = err type_error
transport_url (string s) = ok (string s)
transport_url _ = err type_error

is_taken : Text → List Text → Bool
is_taken t [] = false
is_taken t (u ∷ us) = u == t || is_taken t us

abbrev max_provider_descriptor_bytes : ℕ
max_provider_descriptor_bytes = 64 * 1024

-- `json_bytes` is the length of JSON.stringify in UTF-8, `encrypt` the envelope cipher with its
-- purpose, `fresh_ids` what the id factory answers for each place, and `purpose_of` the purpose of
-- a profile's envelopes, a SHA-256 of its scope.
module _ (hmac : Text → Text) (json_bytes : Value → ℕ) (encrypt : Value → Text → Result Value)
    (purpose_of : Text → Text) where
  -- Each descriptor within 64 KiB.
  unfoldable pub assert_sizes : Items → Result (Unit {0})
  assert_sizes end = ok tt
  assert_sizes (item v vs) = elim (assert_json_value json_bytes v max_provider_descriptor_bytes) [
    | err e ↦ err e
    | ok w ↦ assert_sizes vs
  ]

  -- One descriptor in its place, with the hashes and the ids that are taken.
  unfoldable pub make_provider : Text → ℕ → Text → List Text → List Text → Value → Result Provider
  unfolding transport_url is_taken manifest_id_of
  make_provider id ordinal fresh_id hashes ids (object fs) =
      elim (transport_url (property fs (text "transportUrl"))) [
        | err e ↦ err e
        | ok url ↦ elim (hash_opaque hmac (text "provider-transport") url 8192) [
          | err e ↦ err e
          | ok transport_hash ↦
              if is_taken transport_hash hashes
              then err type_error
              else elim (assert_identifier (string fresh_id)) [
                | err e ↦ err e
                | ok provider_id ↦
                    if is_taken provider_id ids
                    then err plain_error
                    else elim (encrypt (object fs) (purpose_of id)) [
                      | err e ↦ err e
                      | ok envelope ↦ ok (record {
                        provider_id = provider_id;
                        profile_id = id;
                        ordinal = ordinal;
                        manifest_id = manifest_id_of (property fs (text "manifest"));
                        transport_hash = transport_hash;
                        descriptor_envelope = envelope;
                      })
                    ]
              ]
        ]
      ]
  make_provider id ordinal fresh_id hashes ids _ = err type_error

  unfoldable pub make_providers :
      Text → (ℕ → Text) → ℕ → List Text → List Text → Items → Result (List Provider)
  unfolding make_provider
  make_providers id fresh_ids ordinal hashes ids end = ok []
  make_providers id fresh_ids ordinal hashes ids (item v vs) =
      elim (make_provider id ordinal (fresh_ids ordinal) hashes ids v) [
        | err e ↦ err e
        | ok p ↦
            elim (make_providers id fresh_ids (suc ordinal) (p.transport_hash ∷ hashes)
              (p.provider_id ∷ ids) vs) [ err e ↦ err e | ok ps ↦ ok (p ∷ ps) ]
      ]

  -- The new collection, and the counter after it; it answers the revision and the count.
  unfoldable pub store_collection :
      Number → Text → Text → ℕ → List Provider → Action Providers (ℕ × ℕ)
  unfolding rebase
  store_collection reading id fence revision records = do
    now ← lift (read_clock reading)
    write (λ s. record s {
      collections = set s.collections id (record {
        mutation_fence = fence;
        revision = revision + 1;
        updated_at = now;
        records = records;
      });
    })
    write (rebase fence)
    pure (revision + 1, length records)

  unfoldable pub replace_checked :
      Number → (ℕ → Text) → Text → Items → ℕ → Text → Option Collection → Action Providers (ℕ × ℕ)
  unfolding collection_of is_before other_ids make_providers store_collection
  replace_checked reading fresh_ids id descriptors expected fence found = do
    current ← lift (assert_mutation_fence (string (collection_of found).mutation_fence))
    require (not (is_before fence current)) provider_snapshot_stale_fence
    require ((collection_of found).revision == expected) revision_conflict
    records ← check (λ s. make_providers id fresh_ids 0 [] (other_ids id s.collections) descriptors)
    store_collection reading id fence (collection_of found).revision records

  -- replaceAll
  unfoldable pub replace_all :
      Number → (ℕ → Text) → Value → Value → Value → Value → Action Providers (ℕ × ℕ)
  unfolding replace_checked assert_descriptors assert_sizes mutation_fence_option
  replace_all reading fresh_ids profile_id descriptors expected_revision options = do
    id ← lift (assert_identifier profile_id)
    safe ← lift (assert_descriptors descriptors)
    bounded ← lift (assert_sizes safe)
    expected ← lift (assert_non_negative_integer expected_revision)
    fence ← lift (mutation_fence_option options)
    found ← read (λ s. get s.collections id)
    replace_checked reading fresh_ids id safe expected fence found

  -- removeAll
  unfoldable pub remove_all : Number → (ℕ → Text) → Value → Value → Value → Action Providers (ℕ × ℕ)
  unfolding replace_all
  remove_all reading fresh_ids profile_id expected_revision options =
      replace_all reading fresh_ids profile_id (array end) expected_revision options
