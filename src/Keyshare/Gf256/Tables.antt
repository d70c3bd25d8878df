-- ===== src/Keyshare/Gf256/Tables.antt =====
-- The tables of src/lcsas/keyshare/slip39.py are inverse, by evaluation.
use lcsas.Prelude.{
  ℕ, ◌+◌, ◌-◌, ◌%◌, ◌<◌, ◌≡◌, refl, Bool, true, ◌&&◌, List, arith, ◌==◌, ltb, get_or,
}
use mathlib.Core.Path.{subst}
use lcsas.Prelude.Checks.{passes, passes-lt}
use lcsas.Keyshare.Gf256.{
  set_at, next_poly, fill_tables, precompute_exp_log, exp_table, log_table, gf_exp, gf_log,
}

-- The checks on tables that are computed once.
abbrev power_checks : List ℕ → List ℕ → ℕ → Bool
power_checks exps logs i =
    (get_or logs (get_or exps i 0) 0 == i)
    && ((get_or exps ((i + 1) % 255) 0 == next_poly (get_or exps i 0))
        && (ltb 0 (get_or exps i 0) && ltb (get_or exps i 0) 256))

abbrev log_checks : List ℕ → List ℕ → ℕ → Bool
log_checks exps logs a =
    (get_or exps (get_or logs (a + 1) 0) 0 == a + 1) && ltb (get_or logs (a + 1) 0) 255

all_powers : passes (power_checks exp_table log_table) 255 ≡ true
unfolding passes exp_table log_table precompute_exp_log fill_tables set_at next_poly
all_powers = refl

all_logs : passes (log_checks exp_table log_table) 255 ≡ true
unfolding passes exp_table log_table precompute_exp_log fill_tables set_at next_poly
all_logs = refl

-- What the checks say of one exponent and of one element.
module _ (i : ℕ) (below : i < 255) where
  power_check : power_checks exp_table log_table i ≡ true
  power_check = passes-lt (power_checks exp_table log_table) i 255 below all_powers

  pub log-exp : gf_log (gf_exp i) ≡ i
  unfolding gf_exp gf_log
  log-exp = ground (arith, power_check)

  pub exp-next : gf_exp ((i + 1) % 255) ≡ next_poly (gf_exp i)
  unfolding gf_exp
  exp-next = ground (arith, power_check)

  pub exp-pos : 0 < gf_exp i
  unfolding gf_exp
  exp-pos = ground (arith, power_check)

  pub exp-lt : gf_exp i < 256
  unfolding gf_exp
  exp-lt = ground (arith, power_check)

module _ (k : ℕ) (below : k < 255) where
  log_check : log_checks exp_table log_table k ≡ true
  log_check = passes-lt (log_checks exp_table log_table) k 255 below all_logs

  exp-log_next : gf_exp (gf_log (k + 1)) ≡ k + 1
  unfolding gf_exp gf_log
  exp-log_next = ground (arith, log_check)

  log_next-lt : gf_log (k + 1) < 255
  unfolding gf_log
  log_next-lt = ground (arith, log_check)

module _ (a : ℕ) (positive : 0 < a) (byte : a < 256) where
  before : a - 1 + 1 ≡ a
  before = omega arith

  pub exp-log : gf_exp (gf_log a) ≡ a
  exp-log = subst (λ (t : ℕ). gf_exp (gf_log t) ≡ t) before (exp-log_next (a - 1) (omega arith))

  pub log-lt : gf_log a < 255
  log-lt = subst (λ (t : ℕ). gf_log t < 255) before (log_next-lt (a - 1) (omega arith))

-- The two tables are inverse: the power of the logarithm of a byte other than 0 is the byte, and the
-- logarithm of a power is the exponent below 255.
pub gf_exp-gf_log :
    (a i : ℕ) → 0 < a → a < 256 → i < 255 → (gf_exp (gf_log a) ≡ a) × (gf_log (gf_exp i) ≡ i)
gf_exp-gf_log a i positive byte below = (exp-log a positive byte, log-exp i below)
