-- ===== src/Restore/Zstd/Sequences/Tests.antt =====
-- One sequence from tables of one row, with an offset of two bits from the stream.
use lcsas.Prelude.{ℕ, ◌<◌, ◌≡◌, refl, List, [], ◌∷◌, All, arith}
use lcsas.Prelude.Result.{ok}
use lcsas.Restore.Zstd.{History, Sequence, resolve_offset}
use lcsas.Restore.Zstd.Streams.{BackwardReader, read_backward, consume}
use lcsas.Restore.Zstd.Execution.{IsPositive}
use lcsas.Restore.Zstd.Sequences.{
  SeqTable, States, state_row, decode_sequence, next_states, decode_round, decode_rounds,
}
use lcsas.Restore.Zstd.Sequences.Offsets.{decode_rounds-IsPositive}

abbrev one_row : ℕ → ℕ → SeqTable
one_row add_bits base_value = record {
  accuracy_log = 0;
  rows =
      record { newstate = 0; add_bits = add_bits; state_nbits = 0; base_value = base_value } ∷ [];
}

abbrev reader : BackwardReader
reader = record { number = 6; bits = 2; debt = 0 }

abbrev start : States
start = record { ll_state = 0; of_state = 0; ml_state = 0 }

abbrev first : History
first = record { rep0 = 1; rep1 = 4; rep2 = 8 }

abbrev read : List Sequence
read = record { literal_length = 3; match_offset = 3; match_length = 4 } ∷ []

abbrev after : History
after = record { rep0 = 3; rep1 = 1; rep2 = 4 }

one_read :
    decode_rounds 1 (one_row 0 3) (one_row 2 1) (one_row 0 4) start reader first ≡ ok (read, after)
unfolding decode_rounds decode_round decode_sequence next_states state_row resolve_offset
    read_backward consume
one_read = refl

decode_rounds-IsPositive_example : All (λ s. 0 < s.match_offset) read × IsPositive after
decode_rounds-IsPositive_example =
    decode_rounds-IsPositive 1 (one_row 0 3) (one_row 2 1) (one_row 0 4) start reader first after
      read ((λ h. omega arith), tt) (omega arith, omega arith, omega arith) one_read
