-- ===== src/Binpack/Tests.antt =====
-- Runs of the packing on a volume of ten bytes.
use mathlib.Core.List.{Perm}
use mathlib.Core.List.Perm
use lcsas.Prelude.{ℕ, ◌*◌, ◌≤◌, ◌<◌, ◌≡◌, refl, List, [], ◌∷◌, ◌++◌, arith, All}
use lcsas.Binpack.{
  precedes, Item, first_fit_decreasing, usable_capacity, estimate_volumes_needed, sort_items,
  insert_item, place_items,
}
use lcsas.Binpack.Fill.{
  total_size, Exceeds, first_fit_decreasing_perm, first_fit_decreasing-Exceeds,
  first_fit_decreasing_half, first_fit_decreasing-perm,
}
use lcsas.Binpack.Estimate.{estimate_volumes_needed-ok}

abbrev small : Item
small = record { ident = "a"; size = 3 }

abbrev large : Item
large = record { ident = "b"; size = 6 }

abbrev middle : Item
middle = record { ident = "c"; size = 4 }

abbrev found : List Item
found = small ∷ large ∷ middle ∷ []

abbrev found_again : List Item
found_again = large ∷ small ∷ middle ∷ []

packed : first_fit_decreasing found 12 2 ≡ (large ∷ middle ∷ [], small ∷ [])
unfolding first_fit_decreasing sort_items insert_item place_items precedes
packed = refl

no_room : first_fit_decreasing found 2 2 ≡ ([], found)
unfolding first_fit_decreasing
no_room = refl

first_fit_decreasing_perm_example :
    Perm ((first_fit_decreasing found 12 2).0 ++ (first_fit_decreasing found 12 2).1) found
first_fit_decreasing_perm_example = first_fit_decreasing_perm found 12 2

first_fit_decreasing-Exceeds_example :
    (total_size (first_fit_decreasing found 12 2).0 ≤ 10)
    × (2 < 12
        → All
            (Exceeds 10 (total_size (first_fit_decreasing found 12 2).0))
            (first_fit_decreasing found 12 2).1)
first_fit_decreasing-Exceeds_example = first_fit_decreasing-Exceeds found 12 2

first_fit_decreasing_half_example : 10 < 2 * total_size (first_fit_decreasing found 12 2).0
unfolding first_fit_decreasing sort_items insert_item place_items precedes
first_fit_decreasing_half_example =
    first_fit_decreasing_half found 12 2 (omega arith)
      (omega arith, (omega arith, (omega arith, tt))) (λ e. cc)

first_fit_decreasing-perm_example :
    first_fit_decreasing found 12 2 ≡ first_fit_decreasing found_again 12 2
first_fit_decreasing-perm_example =
    first_fit_decreasing-perm found found_again 12 2 (omega arith)
      (Perm.swap large small (middle ∷ []))

estimate_volumes_needed-ok_example :
    (151 ≤ 3 * usable_capacity 100 5 20) × ((m : ℕ) → 151 ≤ m * usable_capacity 100 5 20 → 3 ≤ m)
unfolding estimate_volumes_needed
estimate_volumes_needed-ok_example = estimate_volumes_needed-ok 151 100 5 20 3 refl
