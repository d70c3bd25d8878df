-- ===== src/Restore/Zstd/Fse.antt =====
-- src/lcsas/restore/_zstd_pure.py: the building of an FSE table from a distribution.
mod Tests
use lcsas.Prelude.{
  true, false, ℕ, zero, suc, ◌+◌, ◌-◌, ◌*◌, ◌/◌, ◌%◌, ◌^◌, List, [], ◌∷◌, map, get_or, replicate,
  ltb, ◌==◌, if◌then◌else◌,
}

-- A count of a distribution: -1, or a natural number.
pub data Count : Type 0 where
  low : Count
  count : ℕ → Count

pub record FseTable : Type 0 where
  pub accuracy_log : ℕ
  pub symbol : List ℕ
  pub baseline : List ℕ
  pub num_bits : List ℕ

-- `l[i] = v`, for an index in range.
unfoldable pub set_item : List ℕ → ℕ → ℕ → List ℕ
set_item [] i v = []
set_item (x ∷ xs) zero v = v ∷ xs
set_item (x ∷ xs) (suc i) v = x ∷ set_item xs i v

-- `n.bit_length()`, with `fuel` of at least as many bits.
unfoldable pub bit_length : ℕ → ℕ → ℕ
bit_length zero n = 0
bit_length (suc fuel) n = elim (n == 0) [ true ↦ 0 | false ↦ suc (bit_length fuel (n / 2)) ]

-- The first loop: the symbols of probability below 1 at the top, the highest free state after it,
-- and `symbol_next`, in the order of the symbols.
unfoldable pub place_low : List Count → ℕ → List ℕ → ℕ → List ℕ × ℕ
place_low [] sym states high = (states, high)
place_low (low ∷ normalized) sym states high =
    place_low normalized (sym + 1) (set_item states high sym) (high - 1)
place_low (count n ∷ normalized) sym states high = place_low normalized (sym + 1) states high

unfoldable pub next_of : Count → ℕ
next_of low = 1
next_of (count n) = n

-- `while pos > high_threshold`, for at most `fuel` steps: a walk over all states ends within them.
unfoldable pub skip_low : ℕ → ℕ → ℕ → ℕ → ℕ → ℕ
skip_low zero step size high pos = pos
skip_low (suc fuel) step size high pos =
    let next = skip_low fuel step size high ((pos + step) % size) in
    if ltb high pos then next else pos

-- `for _ in range(count)`: the states and the next position.
unfoldable pub spread_symbol : ℕ → ℕ → ℕ → ℕ → ℕ → List ℕ → ℕ → List ℕ × ℕ
spread_symbol zero sym step size high states pos = (states, pos)
spread_symbol (suc n) sym step size high states pos =
    spread_symbol n sym step size high (set_item states pos sym)
      (skip_low size step size high ((pos + step) % size))

unfoldable pub spread : List Count → ℕ → ℕ → ℕ → ℕ → List ℕ → ℕ → List ℕ
spread [] sym step size high states pos = states
spread (low ∷ normalized) sym step size high states pos =
    spread normalized (sym + 1) step size high states pos
spread (count n ∷ normalized) sym step size high states pos =
    let (placed, next) = spread_symbol n sym step size high states pos in
    spread normalized (sym + 1) step size high placed next

-- The last loop, over the states: the number of bits and the baseline of each.
unfoldable pub transitions : ℕ → List ℕ → List ℕ → List (ℕ × ℕ)
transitions accuracy_log [] symbol_next = []
transitions accuracy_log (sym ∷ states) symbol_next =
    let nxt = get_or symbol_next sym 0 in
    let nb = accuracy_log - (bit_length (accuracy_log + 1) nxt - 1) in
    (nb, nxt * 2 ^ nb - 2 ^ accuracy_log)
    ∷ transitions accuracy_log states (set_item symbol_next sym (nxt + 1))

unfoldable pub build_fse_table : List Count → ℕ → FseTable
build_fse_table normalized accuracy_log =
    let size = 2 ^ accuracy_log in
    let (lows, high) = place_low normalized 0 (replicate size 0) (size - 1) in
    let states = spread normalized 0 (size / 2 + size / 8 + 3) size high lows 0 in
    let moves = transitions accuracy_log states (map next_of normalized) in
    record {
      accuracy_log = accuracy_log;
      symbol = states;
      baseline = map (λ m. m.1) moves;
      num_bits = map (λ m. m.0) moves;
    }
