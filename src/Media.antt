-- ===== src/Media.antt =====
-- src/lcsas/config/media.py and the medium ladder of src/lcsas/ecc/dvdisaster.py: the sizes of discs
-- and of the images that error correction pads.
pub mod Laws
mod Tests
use lcsas.Prelude.{ℕ, ◌-◌, ◌*◌, ◌/◌, List, [], ◌∷◌, leb, if◌then◌else◌}
use lcsas.Prelude.Result.{Result, ok, err}

-- `MediaType`: the members, and their capacity and overhead. The owner-facing family is text.
pub data MediaType : Type 0 where
  cd700 bd25 bd50 bdxl100 mdisc25 mdisc50 mdisc100 test_tiny : MediaType

unfoldable pub capacity_bytes : MediaType → ℕ
capacity_bytes cd700 = 737_280_000
capacity_bytes bd25 = 25_025_314_816
capacity_bytes bd50 = 50_050_629_632
capacity_bytes bdxl100 = 100_103_356_416
capacity_bytes mdisc25 = 25_025_314_816
capacity_bytes mdisc50 = 50_050_629_632
capacity_bytes mdisc100 = 100_103_356_416
capacity_bytes test_tiny = 2_097_152

unfoldable pub ecc_overhead_pct : MediaType → ℕ
ecc_overhead_pct test_tiny = 0
ecc_overhead_pct medium = 15

-- The float quotient is exact enough: the product is below 2 ^ 53.
unfoldable pub usable_bytes : MediaType → ℕ
usable_bytes medium = capacity_bytes medium * (100 - ecc_overhead_pct medium) / 100

abbrev pub rs03_medium_ladder_bytes : List ℕ
rs03_medium_ladder_bytes =
    737_280_000 ∷ 4_700_372_992 ∷ 8_543_666_176 ∷ 25_025_314_816 ∷ 50_050_629_632 ∷ 100_103_356_416
    ∷ []

pub data LadderError : Type 0 where
  exceeds_largest_medium : LadderError

-- The `for` loop over the rungs that are left.
unfoldable pub first_fitting : ℕ → List ℕ → Result LadderError ℕ
first_fitting image_bytes [] = err exceeds_largest_medium
first_fitting image_bytes (medium_bytes ∷ rungs) =
    let rest = first_fitting image_bytes rungs in
    if leb image_bytes medium_bytes then ok medium_bytes else rest

unfoldable pub smallest_fitting_medium_bytes : ℕ → Result LadderError ℕ
smallest_fitting_medium_bytes image_bytes = first_fitting image_bytes rs03_medium_ladder_bytes
