-- ===== src/Prelude/Checks.antt =====
-- A test that holds of every number below a bound, by evaluation: for tables of constants.
use Prim.Native.Nat.{ℕ, zero, suc, ◌<◌}
use mathlib.Core.Path.{◌≡◌}
use mathlib.Core.Bool.{Bool, true, ◌&&◌}
use native.Mathlib.Omega.{arith}

unfoldable pub passes : (ℕ → Bool) → ℕ → Bool
passes test zero = true
passes test (suc n) = test n && passes test n

pub passes-lt : (test : ℕ → Bool) (b n : ℕ) → b < n → passes test n ≡ true → test b ≡ true
unfolding passes
passes-lt test b zero below h = absurd (omega arith)
passes-lt test b (suc n) below h = ground (arith, passes-lt test b n)
