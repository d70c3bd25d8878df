-- ===== src/Restore/Zstd/Huffman/Tests.antt =====
-- The table that a description of two bytes gives, and the loop over it.
use lcsas.Prelude.{◌≡◌, refl, [], ◌∷◌}
use lcsas.Prelude.Result.{err}
use lcsas.Restore.Zstd.{endless, item}
use lcsas.Restore.Zstd.Fse.{
  FseTable, count, build_fse_table, place_low, spread, spread_symbol, skip_low, transitions,
  next_of, set_item, bit_length,
}
use lcsas.Restore.Zstd.Streams.{FseStream, overflowed}
use lcsas.Restore.Zstd.Huffman.{drain}
use lcsas.Restore.Zstd.Huffman.Laws.{IsStuck, drain-IsStuck}

abbrev whole : FseTable
whole = build_fse_table (count 64 ∷ []) 6

abbrev stream : FseStream
stream = record { values = 0 ∷ 0 ∷ 0 ∷ 128 ∷ []; ptr = 0; container = 0x80000000; consumed = 45 }

stuck : IsStuck whole 0 0
unfolding item build_fse_table place_low spread spread_symbol skip_low transitions next_of set_item
    bit_length
stuck = (refl, refl, refl)

drain-IsStuck_example : drain 1000 whole 0 0 stream [] ≡ err endless
unfolding overflowed
drain-IsStuck_example = drain-IsStuck 1000 whole 0 0 0 0 stream [] stuck stuck refl
