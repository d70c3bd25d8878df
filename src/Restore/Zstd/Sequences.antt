-- ===== src/Restore/Zstd/Sequences.antt =====
-- src/lcsas/restore/_zstd_pure.py: the sequences of a block.
pub mod Offsets
mod Tests
use lcsas.Prelude.{
  ℕ, zero, suc, ◌+◌, ◌-◌, ◌*◌, ◌/◌, ◌%◌, Bool, true, false, ◌&&◌, Option, some, none, List, [], ◌∷◌,
  ◌++◌, length, drop, get_or, ltb, ◌==◌, if◌then◌else◌,
}
use lcsas.Prelude.Result.{Result, ok, err, ◌>>=◌}
use lcsas.Restore.Zstd.{
  ZstdError, item, index_error, no_prior_table, History, Sequence, resolve_offset,
}
use lcsas.Restore.Zstd.Codes.{
  Row, ll_predef, of_predef, ml_predef, ll_code_base, ll_code_bits, ml_code_base, ml_code_bits,
  of_code_base, of_code_bits,
}
use lcsas.Restore.Zstd.Fse.{FseTable, bit_length, build_fse_table}
use lcsas.Restore.Zstd.Streams.{BackwardReader, open_backward, read_backward}
use lcsas.Restore.Zstd.Distribution.{read_fse_distribution}

-- `_SeqDTable`, with a row for each state.
pub record SeqTable : Type 0 where
  pub accuracy_log : ℕ
  pub rows : List Row

-- A row of `_SEQ_SPEC`, with the highest accuracy that a description may have.
pub record Spec : Type 0 where
  pub predef : List Row
  pub code_base : List ℕ
  pub code_bits : List ℕ
  pub max_symbol : ℕ
  pub max_accuracy : ℕ

abbrev pub ll_spec : Spec
ll_spec = record {
  predef = ll_predef;
  code_base = ll_code_base;
  code_bits = ll_code_bits;
  max_symbol = 35;
  max_accuracy = 9;
}

abbrev pub of_spec : Spec
of_spec = record {
  predef = of_predef;
  code_base = of_code_base;
  code_bits = of_code_bits;
  max_symbol = 31;
  max_accuracy = 8;
}

abbrev pub ml_spec : Spec
ml_spec = record {
  predef = ml_predef;
  code_base = ml_code_base;
  code_bits = ml_code_bits;
  max_symbol = 52;
  max_accuracy = 9;
}

-- The row of a code, for a state of an FSE table.
pub row_of : Spec → ℕ → ℕ → ℕ → Result ZstdError Row
row_of spec code newstate state_nbits = item spec.code_base code >>= λ base_value.
    item spec.code_bits code >>= λ add_bits. ok (record {
      newstate = newstate;
      add_bits = add_bits;
      state_nbits = state_nbits;
      base_value = base_value;
    })

pub seq_rows : Spec → List ℕ → List ℕ → List ℕ → Result ZstdError (List Row)
seq_rows spec [] baseline num_bits = ok []
seq_rows spec (code ∷ symbol) baseline num_bits =
    row_of spec code (get_or baseline 0 0) (get_or num_bits 0 0) >>= λ r.
    seq_rows spec symbol (drop 1 baseline) (drop 1 num_bits) >>= λ rows. ok (r ∷ rows)

-- The table of a mode, and the bytes that it takes.
pub resolve_seq_table : List ℕ → ℕ → Option SeqTable → Spec → Result ZstdError (SeqTable × ℕ)
resolve_seq_table src mode prev spec =
    let size = length spec.predef in
    if mode == 0
    then ok (record { accuracy_log = bit_length size (size - 1); rows = spec.predef }, 0)
    else if mode == 1
    then (item src 0 >>= λ code.
        row_of spec code 0 0 >>= λ r. ok (record { accuracy_log = 0; rows = r ∷ [] }, 1))
    else if mode == 2
    then (read_fse_distribution src spec.max_symbol spec.max_accuracy >>= λ described.
        let (counts, accuracy_log, bits) = described in
        let fse = build_fse_table counts accuracy_log in
        seq_rows spec fse.symbol fse.baseline fse.num_bits >>= λ rows.
        ok (record { accuracy_log = accuracy_log; rows = rows }, (bits + 7) / 8))
    else elim prev [ none ↦ err no_prior_table | some table ↦ ok (table, 0) ]

-- `prev_tables`
pub record Tables : Type 0 where
  pub ll : Option SeqTable
  pub of : Option SeqTable
  pub ml : Option SeqTable

pub state_row : List Row → ℕ → Result ZstdError Row
state_row [] state = err index_error
state_row (r ∷ rows) zero = ok r
state_row (r ∷ rows) (suc state) = state_row rows state

pub record States : Type 0 where
  pub ll_state : ℕ
  pub of_state : ℕ
  pub ml_state : ℕ

-- One sequence, the reader and the history after it.
pub decode_sequence :
    Row
    → Row
    → Row
    → BackwardReader
    → History
    → Result ZstdError (Sequence × BackwardReader × History)
decode_sequence ll of ml br rep =
    let (bits, br1) = read_backward of.add_bits br in
    resolve_offset of.add_bits of.base_value ll.base_value bits rep >>= λ resolved.
    let (offset, after) = resolved in
    let (more_ml, br2) = read_backward ml.add_bits br1 in
    let (more_ll, br3) = read_backward ll.add_bits br2 in
    ok (
      record {
        literal_length = ll.base_value + more_ll;
        match_offset = offset;
        match_length = ml.base_value + more_ml;
      },
      br3,
      after,
    )

pub next_states : Row → Row → Row → BackwardReader → States × BackwardReader
next_states ll of ml br =
    let (more_ll, br1) = read_backward ll.state_nbits br in
    let (more_ml, br2) = read_backward ml.state_nbits br1 in
    let (more_of, br3) = read_backward of.state_nbits br2 in
    (
      record {
        ll_state = ll.newstate + more_ll;
        of_state = of.newstate + more_of;
        ml_state = ml.newstate + more_ml;
      },
      br3,
    )

-- One round: the sequence, the history, and the states and the reader for the next one, which are
-- not used after the last.
pub decode_round :
    SeqTable
    → SeqTable
    → SeqTable
    → States
    → BackwardReader
    → History
    → Result ZstdError (Sequence × History × States × BackwardReader)
decode_round ll of ml states br rep = state_row of.rows states.of_state >>= λ of_row.
    state_row ll.rows states.ll_state >>= λ ll_row. state_row ml.rows states.ml_state >>= λ ml_row.
    decode_sequence ll_row of_row ml_row br rep >>= λ decoded.
    let (s, br1, after) = decoded in
    let (following, br2) = next_states ll_row of_row ml_row br1 in ok (s, after, following, br2)

-- The loop, for the sequences that are left.
pub decode_rounds :
    ℕ
    → SeqTable
    → SeqTable
    → SeqTable
    → States
    → BackwardReader
    → History
    → Result ZstdError (List Sequence × History)
decode_rounds zero ll of ml states br rep = ok ([], rep)
decode_rounds (suc n) ll of ml states br rep = decode_round ll of ml states br rep >>= λ decoded.
    decode_rounds n ll of ml decoded.2 decoded.3 decoded.1 >>= λ rest.
    ok (decoded.0 ∷ rest.0, rest.1)

-- How many sequences there are, and the bytes of that number.
pub sequence_count : List ℕ → Result ZstdError (ℕ × ℕ)
sequence_count src = item src 0 >>= λ b0.
    if ltb b0 128
    then ok (b0, 1)
    else if ltb b0 255
    then (item src 1 >>= λ b1. ok ((b0 - 128) * 256 + b1, 2))
    else (item src 1 >>= λ b1. item src 2 >>= λ b2. ok (b1 + b2 * 256 + 0x7F00, 3))

pub decode_stream :
    ℕ
    → SeqTable
    → SeqTable
    → SeqTable
    → List ℕ
    → History
    → Result ZstdError (List Sequence × History)
decode_stream num_seq ll of ml bitstream rep = open_backward bitstream >>= λ br.
    let (ll_state, br1) = read_backward ll.accuracy_log br in
    let (of_state, br2) = read_backward of.accuracy_log br1 in
    let (ml_state, br3) = read_backward ml.accuracy_log br2 in
    decode_rounds num_seq ll of ml
      (record { ll_state = ll_state; of_state = of_state; ml_state = ml_state }) br3 rep

-- The three tables and the stream, from the byte of the modes on.
pub decode_tables :
    ℕ → List ℕ → Tables → History → Result ZstdError (List Sequence × Tables × History)
decode_tables num_seq src prev_tables rep = item src 0 >>= λ modes.
    resolve_seq_table (drop 1 src) (modes / 64 % 4) prev_tables.ll ll_spec >>= λ first.
    let src1 = drop first.1 (drop 1 src) in
    resolve_seq_table src1 (modes / 16 % 4) prev_tables.of of_spec >>= λ second.
    let src2 = drop second.1 src1 in
    resolve_seq_table src2 (modes / 4 % 4) prev_tables.ml ml_spec >>= λ third.
    decode_stream num_seq first.0 second.0 third.0 (drop third.1 src2) rep >>= λ decoded.
    ok (decoded.0, record { ll = some first.0; of = some second.0; ml = some third.0 }, decoded.1)

pub decode_sequences :
    List ℕ → Tables → History → Result ZstdError (List Sequence × Tables × History)
decode_sequences src prev_tables rep = sequence_count src >>= λ header.
    let (num_seq, pos) = header in
    if num_seq == 0 && (pos == 1)
    then ok ([], prev_tables, rep)
    else decode_tables num_seq (drop pos src) prev_tables rep
