-- ===== src/Binpack.antt =====
-- src/lcsas/binpack/algorithm.py: which packs go on the next volume, and how many volumes it takes.
-- The log messages are not modelled: they read the sorted items and change nothing.
pub mod Order
pub mod Fill
pub mod Estimate
mod Tests
use Prim.Native.String.{String}
use lcsas.Prelude.{
  ℕ, ◌+◌, ◌-◌, ◌*◌, ◌/◌, max, Bool, true, false, List, [], ◌∷◌, ◌++◌, ltb, leb, ◌==◌, if◌then◌else◌,
}
use lcsas.Prelude.Result.{Result, ok, err}
use lcsas.Prelude.Text.{str_leb}

-- (identifier, size_bytes)
pub record Item : Type 0 where
  pub ident : String
  pub size : ℕ

-- The sort key (-size, identifier).
unfoldable pub precedes : Item → Item → Bool
precedes a b =
    if ltb b.size a.size then true else if ltb a.size b.size then false else str_leb a.ident b.ident

-- `sorted` with that key: a stable insertion.
pub insert_item : Item → List Item → List Item
insert_item x [] = x ∷ []
insert_item x (y ∷ ys) = if precedes x y then x ∷ y ∷ ys else y ∷ insert_item x ys

pub sort_items : List Item → List Item
unfolding insert_item
sort_items [] = []
sort_items (x ∷ xs) = insert_item x (sort_items xs)

-- The `for` loop over the sorted items, with its three variables.
pub place_items : ℕ → ℕ → List Item → List Item → List Item → List Item × List Item
place_items usable current_fill selected remaining [] = (selected, remaining)
place_items usable current_fill selected remaining (x ∷ xs) =
    let fits = leb (current_fill + x.size) usable in
    place_items usable (if fits then current_fill + x.size else current_fill)
      (if fits then selected ++ x ∷ [] else selected)
      (if fits then remaining else remaining ++ x ∷ []) xs

-- `usable <= 0` is `capacity <= reserved`, where the difference on ℕ is 0.
pub first_fit_decreasing : List Item → ℕ → ℕ → List Item × List Item
first_fit_decreasing items capacity reserved =
    let usable = capacity - reserved in
    if usable == 0 then ([], items) else place_items usable 0 [] [] (sort_items items)

pub data EstimateError : Type 0 where
  no_usable_capacity : EstimateError

-- `int(capacity * (100 - pct) / 100)` is the floor of the exact quotient while the product is
-- below 2 ^ 46, which holds of every medium: the float division then rounds to no higher integer.
-- A percentage above 100 leaves nothing, as the negative number of the source does.
abbrev pub usable_capacity : ℕ → ℕ → ℕ → ℕ
usable_capacity capacity reserved ecc_overhead_pct =
    capacity * (100 - ecc_overhead_pct) / 100 - reserved

unfoldable pub estimate_volumes_needed : ℕ → ℕ → ℕ → ℕ → Result EstimateError ℕ
estimate_volumes_needed total_bytes capacity reserved ecc_overhead_pct =
    let usable = usable_capacity capacity reserved ecc_overhead_pct in
    if total_bytes == 0
    then ok 0
    else if usable == 0
    then err no_usable_capacity
    else ok (max 1 ((total_bytes + usable - 1) / usable))
