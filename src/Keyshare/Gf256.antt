-- ===== src/Keyshare/Gf256.antt =====
-- src/lcsas/keyshare/slip39.py, "GF(256) arithmetic": the tables of powers and logarithms.
pub mod Tables
pub mod Field
pub mod Times
pub mod Bytes
use lcsas.Prelude.{
  ℕ, zero, suc, ◌+◌, ◌*◌, ◌/◌, ◌%◌, List, [], ◌∷◌, bit_xor, ◌==◌, if◌then◌else◌, replicate, get_or,
}

-- `l[i] = v`, for an index within the list.
unfoldable pub set_at : ℕ → ℕ → List ℕ → List ℕ
set_at i v [] = []
set_at zero v (x ∷ xs) = v ∷ xs
set_at (suc i) v (x ∷ xs) = x ∷ set_at i v xs

-- Times x + 1, reduced: `poly & 0x100` is bit 8.
unfoldable pub next_poly : ℕ → ℕ
next_poly poly =
    let product = bit_xor (poly * 2) poly in
    if product / 256 % 2 == 1 then bit_xor product 0x11B else product

-- The loop, with the rounds left, `i` and the three variables.
unfoldable pub fill_tables : ℕ → ℕ → ℕ → List ℕ → List ℕ → List ℕ × List ℕ
fill_tables zero i poly exp log = (exp, log)
fill_tables (suc rounds) i poly exp log =
    fill_tables rounds (i + 1) (next_poly poly) (set_at i poly exp) (set_at poly i log)

unfoldable pub precompute_exp_log : List ℕ × List ℕ
precompute_exp_log = fill_tables 255 0 1 (replicate 255 0) (replicate 256 0)

unfoldable pub exp_table : List ℕ
exp_table = precompute_exp_log.0

unfoldable pub log_table : List ℕ
log_table = precompute_exp_log.1

-- `_EXP_TABLE[i]` and `_LOG_TABLE[a]`: the indices are in range, since exponents are reduced modulo
-- 255 and the rest are bytes.
unfoldable pub gf_exp : ℕ → ℕ
gf_exp i = get_or exp_table i 0

unfoldable pub gf_log : ℕ → ℕ
gf_log a = get_or log_table a 0
