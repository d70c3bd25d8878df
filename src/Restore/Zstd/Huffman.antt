-- ===== src/Restore/Zstd/Huffman.antt =====
-- src/lcsas/restore/_zstd_pure.py: the Huffman table of the literals, and its weights.
pub mod Laws
mod Tests
use lcsas.Prelude.{
  ℕ, zero, suc, ◌+◌, ◌-◌, ◌*◌, ◌/◌, ◌%◌, ◌^◌, Bool, true, false, not, ◌||◌, List, [], ◌∷◌, ◌++◌,
  length, take, drop, replicate, get_or, ltb, leb, ◌==◌, if◌then◌else◌,
}
use lcsas.Prelude.Result.{Result, ok, err, ◌>>=◌}
use Prim.Native.Nat.{bit_and}
use lcsas.Restore.Zstd.{
  ZstdError, item, index_error, endless, empty_weights, invalid_weights, not_populated,
  truncated_weights,
}
use lcsas.Restore.Zstd.Fse.{FseTable, bit_length, build_fse_table}
use lcsas.Restore.Zstd.Streams.{FseStream, open_stream, read_stream, overflowed}
use lcsas.Restore.Zstd.Distribution.{read_fse_distribution}

pub record HuffmanTable : Type 0 where
  pub max_bits : ℕ
  pub symbols : List ℕ
  pub num_bits : List ℕ

pub sum_weights : List ℕ → ℕ
sum_weights [] = 0
sum_weights (w ∷ weights) = (if ltb 0 w then 2 ^ (w - 1) else 0) + sum_weights weights

-- The entries of the symbols of weight `w`, in their order.
pub entries_of : ℕ → ℕ → List ℕ → ℕ → List (ℕ × ℕ)
entries_of w nb [] sym = []
entries_of w nb (x ∷ weights) sym =
    (if x == w then replicate (2 ^ (w - 1)) (sym, nb) else []) ++ entries_of w nb weights (sym + 1)

-- The loop over the weights, from `w` on.
pub table_entries : ℕ → ℕ → ℕ → List ℕ → List (ℕ × ℕ)
table_entries zero w max_bits weights = []
table_entries (suc n) w max_bits weights =
    entries_of w (max_bits + 1 - w) weights 0 ++ table_entries n (w + 1) max_bits weights

pub firsts : List (ℕ × ℕ) → List ℕ
firsts [] = []
firsts (e ∷ entries) = e.0 ∷ firsts entries

pub seconds : List (ℕ × ℕ) → List ℕ
seconds [] = []
seconds (e ∷ entries) = e.1 ∷ seconds entries

-- More entries than the table has are written out of its range.
pub filled_table : ℕ → List (ℕ × ℕ) → Result ZstdError HuffmanTable
filled_table max_bits entries =
    if ltb (2 ^ max_bits) (length entries)
    then err index_error
    else if not (length entries == 2 ^ max_bits)
    then err not_populated
    else ok (record { max_bits = max_bits; symbols = firsts entries; num_bits = seconds entries })

pub build_huffman_from_weights : List ℕ → Result ZstdError HuffmanTable
build_huffman_from_weights weights =
    let weight_sum = sum_weights weights in
    let max_bits = bit_length weight_sum (weight_sum - 1) in
    let left = 2 ^ max_bits - weight_sum in
    if weight_sum == 0
    then err empty_weights
    else if not (bit_and left (left - 1) == 0) || (left == 0)
    then err invalid_weights
    else filled_table max_bits
        (table_entries max_bits 1 max_bits (weights ++ (bit_length left left ∷ [])))

-- The two weights of each byte of the direct representation.
pub nibbles : List ℕ → List ℕ
nibbles [] = []
nibbles (b ∷ src) = b / 16 ∷ b % 16 ∷ nibbles src

-- One step of a state: the symbol it stands for, the state after it, and the stream.
pub step_state : FseTable → ℕ → FseStream → Result ZstdError (ℕ × ℕ × FseStream)
step_state table state br = item table.symbol state >>= λ sym.
    item table.num_bits state >>= λ nbits. item table.baseline state >>= λ base.
    let (read, after) = read_stream nbits br in ok (sym, base + read, after)

-- The two states in turn, until a read goes beyond the container. A state that takes no bits never
-- does, and then the source does not end: here the error is that of the fuel.
pub drain : ℕ → FseTable → ℕ → ℕ → FseStream → List ℕ → Result ZstdError (List ℕ)
drain zero table state other br weights = err endless
drain (suc fuel) table state other br weights = step_state table state br >>= λ stepped.
    let (sym, next, after) = stepped in
    elim (overflowed after) [
      | true ↦ item table.symbol other >>= λ last. ok (weights ++ (sym ∷ last ∷ []))
      | false ↦ drain fuel table other next after (weights ++ (sym ∷ []))
    ]

pub fse_decode_weight_stream : List ℕ → Result ZstdError (List ℕ)
fse_decode_weight_stream fse_bytes = read_fse_distribution fse_bytes 255 6 >>= λ described.
    let (counts, accuracy_log, table_bits) = described in
    open_stream (drop ((table_bits + 7) / 8) fse_bytes) >>= λ br.
    let (state1, br1) = read_stream accuracy_log br in
    let (state2, br2) = read_stream accuracy_log br1 in
    drain ((8 * length fse_bytes + 72) * 2 ^ accuracy_log) (build_fse_table counts accuracy_log)
      state1 state2 br2 []

-- The weights, and the bytes that they take with the header byte.
pub decode_huffman_weights : List ℕ → ℕ → Result ZstdError (List ℕ × ℕ)
decode_huffman_weights src header_byte =
    let num_weights = header_byte - 127 in
    let nbytes = (num_weights + 1) / 2 in
    let fse_bytes = take header_byte (drop 1 src) in
    if leb 128 header_byte
    then if ltb (length src) (1 + nbytes)
      then err index_error
      else ok (take num_weights (nibbles (take nbytes (drop 1 src))), 1 + nbytes)
    else if ltb (length fse_bytes) header_byte
    then err truncated_weights
    else fse_decode_weight_stream fse_bytes >>= λ weights. ok (weights, 1 + header_byte)
