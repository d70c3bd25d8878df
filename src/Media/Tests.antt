-- ===== src/Media/Tests.antt =====
-- Images on the ladder of media.
use lcsas.Prelude.{ℕ, ◌≤◌, ◌<◌, ◌≡◌, ◌≢◌, ◌↔◌, refl, arith, All}
use lcsas.Prelude.Result.{ok, err}
use lcsas.Media.{
  bd25, test_tiny, capacity_bytes, usable_bytes, ecc_overhead_pct, rs03_medium_ladder_bytes,
  exceeds_largest_medium, smallest_fitting_medium_bytes,
}
use lcsas.Media.Laws.{IsLeastRung, smallest_fitting_medium_bytes-IsLeastRung, padded-le-capacity}

usable : usable_bytes bd25 ≡ 21_271_517_593
unfolding usable_bytes capacity_bytes ecc_overhead_pct
usable = refl

smallest_fitting_medium_bytes-IsLeastRung_example :
    (smallest_fitting_medium_bytes 800_000_000 ≡ ok 4_700_372_992
      → IsLeastRung 800_000_000 rs03_medium_ladder_bytes 4_700_372_992)
    × ((smallest_fitting_medium_bytes 800_000_000 ≡ err exceeds_largest_medium)
        ↔ All (λ other. other < 800_000_000) rs03_medium_ladder_bytes)
smallest_fitting_medium_bytes-IsLeastRung_example =
    smallest_fitting_medium_bytes-IsLeastRung 800_000_000 4_700_372_992

production : bd25 ≢ test_tiny
production e = cc

within : 24_000_000_000 ≤ capacity_bytes bd25
unfolding capacity_bytes
within = omega arith

padded-le-capacity_example :
    ((rung : ℕ) × (smallest_fitting_medium_bytes 24_000_000_000 ≡ ok rung)
      × (rung ≤ capacity_bytes bd25))
    × (smallest_fitting_medium_bytes (capacity_bytes bd25) ≡ ok (capacity_bytes bd25))
padded-le-capacity_example = padded-le-capacity bd25 24_000_000_000 production within
