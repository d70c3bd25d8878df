-- ===== src/Restore/Zstd/Distribution/Tests.antt =====
-- A description that gives a single symbol the whole table.
use lcsas.Prelude.{◌≡◌, refl, [], ◌∷◌}
use lcsas.Prelude.Result.{ok}
use lcsas.Restore.Crypt.{from_little}
use lcsas.Restore.Zstd.Fse.{count, bit_length}
use lcsas.Restore.Zstd.Streams.{peek}
use lcsas.Restore.Zstd.Distribution.{
  zero_run, stored_count, count_of, cost, next_count, add_zeros, read_counts, read_fse_distribution,
}

single : read_fse_distribution (0xF1 ∷ 0x07 ∷ []) 255 6 ≡ ok (count 64 ∷ [], 6, 11)
unfolding read_fse_distribution read_counts add_zeros next_count cost count_of stored_count zero_run
    peek bit_length from_little
single = refl
