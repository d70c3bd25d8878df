-- ===== src/Restore/Zstd/Distribution.antt =====
-- src/lcsas/restore/_zstd_pure.py: `_read_fse_distribution`, on the number that the bytes write.
mod Tests
use lcsas.Prelude.{
  ℕ, zero, suc, ◌+◌, ◌-◌, ◌*◌, ◌/◌, ◌%◌, ◌^◌, Bool, true, false, List, [], ◌∷◌, ◌++◌, length,
  replicate, ltb, leb, ◌==◌, not, if◌then◌else◌, ◌||◌, ◌&&◌,
}
use lcsas.Prelude.Result.{Result, ok, err}
use lcsas.Restore.Crypt.{from_little}
use lcsas.Restore.Zstd.{ZstdError, accuracy_too_high, not_table_size}
use lcsas.Restore.Zstd.Fse.{Count, low, count, bit_length}
use lcsas.Restore.Zstd.Streams.{peek}

-- The variables of the loop; `symbol` is the number of counts.
pub record Reading : Type 0 where
  pub bitpos : ℕ
  pub remaining : ℕ
  pub threshold : ℕ
  pub nbits : ℕ
  pub counts : List Count
  pub previous_is_zero : Bool

-- The run of zero counts: how many, and the position after it. A field of zeros ends it, so that
-- there are no more fields than pairs of bits.
pub zero_run : ℕ → ℕ → ℕ → ℕ → ℕ × ℕ
zero_run zero number bitpos zeros = (zeros, bitpos)
zero_run (suc fuel) number bitpos zeros =
    let rep = peek number bitpos 2 in
    elim (rep == 3) [
      | true ↦ zero_run fuel number (bitpos + 2) (zeros + rep)
      | false ↦ (zeros + rep, bitpos + 2)
    ]

-- The stored value of a count, one above the probability, and the bits that it takes.
pub stored_count : ℕ → Reading → ℕ × ℕ
stored_count number r =
    let max_band = 2 * r.threshold - 1 - r.remaining in
    let peeked = peek number r.bitpos r.nbits in
    let high = peeked % (2 * r.threshold) in
    if ltb (peeked % r.threshold) max_band
    then (peeked % r.threshold, r.nbits - 1)
    else ((if leb r.threshold high then high - max_band else high), r.nbits)

pub count_of : ℕ → Count
count_of zero = low
count_of (suc n) = count n

pub cost : ℕ → ℕ
cost zero = 1
cost (suc n) = n

-- One symbol: its count, and the width of the next one.
pub next_count : ℕ → Reading → Reading
next_count number r =
    let (stored, used) = stored_count number r in
    let remaining = r.remaining - cost stored in
    let narrow = ltb remaining r.threshold && not (leb remaining 1) in
    let nbits = if narrow then bit_length (r.nbits + 1) remaining else r.nbits in
    record {
      bitpos = r.bitpos + used;
      remaining = remaining;
      threshold = if narrow then 2 ^ (nbits - 1) else r.threshold;
      nbits = nbits;
      counts = r.counts ++ (count_of stored ∷ []);
      previous_is_zero = stored == 1;
    }

-- The end of a run of zeros.
pub add_zeros : ℕ → ℕ → Reading → Reading
add_zeros size number r =
    let (zeros, after) = zero_run size number r.bitpos 0 in
    record {
      bitpos = after;
      remaining = r.remaining;
      threshold = r.threshold;
      nbits = r.nbits;
      counts = r.counts ++ replicate zeros (count 0);
      previous_is_zero = false;
    }

-- The loop: each round adds a count, or ends a run of zeros that the round before began. `size` is
-- the number of bits.
pub read_counts : ℕ → ℕ → ℕ → ℕ → Reading → Reading
read_counts zero size number max_symbol r = r
read_counts (suc fuel) size number max_symbol r =
    elim (leb r.remaining 1 || ltb max_symbol (length r.counts)) [
      | true ↦ r
      | false ↦
          read_counts fuel size number max_symbol
            (if r.previous_is_zero then add_zeros size number r else next_count number r)
    ]

-- The counts, the accuracy, and the bits that the description takes.
pub read_fse_distribution : List ℕ → ℕ → ℕ → Result ZstdError (List Count × ℕ × ℕ)
read_fse_distribution src max_symbol max_accuracy =
    let number = from_little src in
    let accuracy_log = peek number 0 4 + 5 in
    let r = read_counts (2 * max_symbol + 4) (8 * length src) number max_symbol (record {
      bitpos = 4;
      remaining = 2 ^ accuracy_log + 1;
      threshold = 2 ^ accuracy_log;
      nbits = accuracy_log + 1;
      counts = [];
      previous_is_zero = false;
    }) in
    if ltb max_accuracy accuracy_log
    then err (accuracy_too_high accuracy_log)
    else if not (r.remaining == 1)
    then err not_table_size
    else ok (r.counts, accuracy_log, r.bitpos)
