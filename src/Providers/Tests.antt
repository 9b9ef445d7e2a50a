-- ===== src/Providers/Tests.antt =====
-- The theorems on the fences of the providers at concrete inputs.
use jumpgate_bridge.Prelude.{
  ℕ, ◌≡◌, ◌≢◌, ◌<◌, refl, list_eq, nat_eq, list_beq, List, [], ◌∷◌, some, every, arith,
}
use jumpgate_bridge.Prelude.Text.{Text, text}
use jumpgate_bridge.Prelude.Map.{get, set}
use jumpgate_bridge.Prelude.Outcome.{Result, ok}
use jumpgate_bridge.Value.{
  Value, string, number, natural, array, end, object, field, empty, property, safe_natural,
}
use jumpgate_bridge.RepositoryUtils.{
  assert_identifier, is_identifier, is_word, read_clock, parse_timestamp,
}
use jumpgate_bridge.RepositoryUtils.Fences.{
  big_int, big_int_acc, is_mutation_fence, is_digit, assert_mutation_fence, compare_mutation_fences,
  text_lt, next_mutation_fence, decimal, decimal_acc, max_mutation_fence, nines,
}
use jumpgate_bridge.Providers.{
  Collection, collection_of, allocate_mutation_fence, advance_mutation_fence, advance_found,
  advance_stored, advanced, is_before, is_after, rebase, mutation_fence_option, only_fence,
  fence_or_zero,
}
use jumpgate_bridge.Providers.Replacing.{replace_all}
use jumpgate_bridge.Providers.Stale.{
  Call, advances, run, step, empty_providers, allocated-above, stale-refused,
}

abbrev same_text : Text → Text
same_text t = t

abbrev json_bytes : Value → ℕ
json_bytes v = 2

abbrev plain : Value → Text → Result Value
plain v purpose = ok v

abbrev who : Text
who = text "profile1"

at_five : read_clock (natural 5) ≡ ok 5
unfolding read_clock
at_five = refl

-- The profile's fence has been advanced to 7.
abbrev calls : List Call
calls = advances (natural 5) 5 (string who) (string (text "7")) at_five ∷ []

abbrev seven : Collection
seven = record { mutation_fence = text "7"; revision = 0; updated_at = 5; records = [] }

stored_seven :
    get (run same_text json_bytes plain same_text empty_providers calls).collections who
    ≡ some seven
unfolding run step advance_mutation_fence advance_found advance_stored advanced is_before is_after
    rebase collection_of assert_identifier is_identifier is_word every assert_mutation_fence
    is_mutation_fence is_digit compare_mutation_fences text_lt read_clock parse_timestamp
    safe_natural get set list_beq
stored_seven = refl

eight :
    (allocate_mutation_fence
      (string who)
      (run same_text json_bytes plain same_text empty_providers calls)).0
    ≡ ok (text "8")
unfolding run step advance_mutation_fence advance_found advance_stored advanced is_before is_after
    rebase collection_of assert_identifier is_identifier is_word every assert_mutation_fence
    is_mutation_fence is_digit compare_mutation_fences text_lt read_clock parse_timestamp
    safe_natural get set list_beq allocate_mutation_fence next_mutation_fence decimal decimal_acc
    max_mutation_fence nines big_int big_int_acc
eight = refl

allocated-above_example : big_int (text "7") < big_int (text "8")
allocated-above_example =
    allocated-above same_text json_bytes plain same_text calls (string who) (text "8") who seven
      eight stored_seven

abbrev options : Value
options = object (field (text "mutationFence") (string (text "3")) empty)

three_below : big_int (text "3") < big_int (text "7")
unfolding big_int big_int_acc
three_below = omega arith

named : assert_identifier (string who) ≡ ok who
unfolding assert_identifier is_identifier is_word every
named = refl

fenced : mutation_fence_option options ≡ ok (text "3")
unfolding mutation_fence_option only_fence fence_or_zero property assert_mutation_fence
    is_mutation_fence is_digit list_beq
fenced = refl

stale-refused_example :
    (replace_all same_text json_bytes plain same_text
      (natural 6)
      (λ n. who)
      (string who)
      (array end)
      (number (natural 0))
      options
      (run same_text json_bytes plain same_text empty_providers calls)).0
    ≢ ok (1, 0)
unfolding run
stale-refused_example =
    stale-refused same_text json_bytes plain same_text calls [] who (text "3") seven (natural 6)
      (λ n. who) (string who) (array end) (number (natural 0)) options (1, 0) stored_seven tt named
      fenced three_below
