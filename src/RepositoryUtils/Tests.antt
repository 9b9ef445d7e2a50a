-- ===== src/RepositoryUtils/Tests.antt =====
-- The theorems on mutation fences at concrete inputs.
use jumpgate_bridge.Prelude.{◌+◌, true, ◌≡◌, refl, list_eq, nat_eq, list_beq}
use jumpgate_bridge.Prelude.Text.{text}
use jumpgate_bridge.RepositoryUtils.Fences.{
  is_mutation_fence, compare_mutation_fences, big_int, next_mutation_fence,
}
use jumpgate_bridge.RepositoryUtils.Fences.Successor.{next_mutation_fence-big_int}
use jumpgate_bridge.RepositoryUtils.Fences.Order.{compare_numbers, compare_mutation_fences_numeric}

compare_mutation_fences_numeric_example :
    compare_mutation_fences (text "99") (text "100")
    ≡ compare_numbers (big_int (text "99")) (big_int (text "100"))
unfolding is_mutation_fence
compare_mutation_fences_numeric_example =
    compare_mutation_fences_numeric (text "99") (text "100") refl refl

next_mutation_fence-big_int_example :
    (is_mutation_fence (text "100") ≡ true) × (big_int (text "100") ≡ big_int (text "99") + 1)
unfolding next_mutation_fence list_beq
next_mutation_fence-big_int_example = next_mutation_fence-big_int (text "99") (text "100") refl
