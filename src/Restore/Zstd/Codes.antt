-- ===== src/Restore/Zstd/Codes.antt =====
-- src/lcsas/restore/_zstd_pure.py: the predefined tables and the values of the sequence codes.
use lcsas.Prelude.{ℕ, zero, suc, ◌+◌, List, [], ◌∷◌}

-- A row of a predefined table.
pub record Row : Type 0 where
  pub newstate : ℕ
  pub add_bits : ℕ
  pub state_nbits : ℕ
  pub base_value : ℕ

abbrev predefined_row : ℕ → ℕ → ℕ → ℕ → Row
predefined_row newstate add_bits state_nbits base_value = record {
  newstate = newstate;
  add_bits = add_bits;
  state_nbits = state_nbits;
  base_value = base_value;
}

abbrev pub ll_predef : List Row
ll_predef =
    predefined_row 0 0 4 0
    ∷ predefined_row 16 0 4 0
    ∷ predefined_row 32 0 5 1
    ∷ predefined_row 0 0 5 3
    ∷ predefined_row 0 0 5 4
    ∷ predefined_row 0 0 5 6
    ∷ predefined_row 0 0 5 7
    ∷ predefined_row 0 0 5 9
    ∷ predefined_row 0 0 5 10
    ∷ predefined_row 0 0 5 12
    ∷ predefined_row 0 0 6 14
    ∷ predefined_row 0 1 5 16
    ∷ predefined_row 0 1 5 20
    ∷ predefined_row 0 1 5 22
    ∷ predefined_row 0 2 5 28
    ∷ predefined_row 0 3 5 32
    ∷ predefined_row 0 4 5 48
    ∷ predefined_row 32 6 5 64
    ∷ predefined_row 0 7 5 128
    ∷ predefined_row 0 8 6 256
    ∷ predefined_row 0 10 6 1024
    ∷ predefined_row 0 12 6 4096
    ∷ predefined_row 32 0 4 0
    ∷ predefined_row 0 0 4 1
    ∷ predefined_row 0 0 5 2
    ∷ predefined_row 32 0 5 4
    ∷ predefined_row 0 0 5 5
    ∷ predefined_row 32 0 5 7
    ∷ predefined_row 0 0 5 8
    ∷ predefined_row 32 0 5 10
    ∷ predefined_row 0 0 5 11
    ∷ predefined_row 0 0 6 13
    ∷ predefined_row 32 1 5 16
    ∷ predefined_row 0 1 5 18
    ∷ predefined_row 32 1 5 22
    ∷ predefined_row 0 2 5 24
    ∷ predefined_row 32 3 5 32
    ∷ predefined_row 0 3 5 40
    ∷ predefined_row 0 6 4 64
    ∷ predefined_row 16 6 4 64
    ∷ predefined_row 32 7 5 128
    ∷ predefined_row 0 9 6 512
    ∷ predefined_row 0 11 6 2048
    ∷ predefined_row 48 0 4 0
    ∷ predefined_row 16 0 4 1
    ∷ predefined_row 32 0 5 2
    ∷ predefined_row 32 0 5 3
    ∷ predefined_row 32 0 5 5
    ∷ predefined_row 32 0 5 6
    ∷ predefined_row 32 0 5 8
    ∷ predefined_row 32 0 5 9
    ∷ predefined_row 32 0 5 11
    ∷ predefined_row 32 0 5 12
    ∷ predefined_row 0 0 6 15
    ∷ predefined_row 32 1 5 18
    ∷ predefined_row 32 1 5 20
    ∷ predefined_row 32 2 5 24
    ∷ predefined_row 32 2 5 28
    ∷ predefined_row 32 3 5 40
    ∷ predefined_row 32 4 5 48
    ∷ predefined_row 0 16 6 65536
    ∷ predefined_row 0 15 6 32768
    ∷ predefined_row 0 14 6 16384
    ∷ predefined_row 0 13 6 8192
    ∷ []

abbrev pub of_predef : List Row
of_predef =
    predefined_row 0 0 5 0
    ∷ predefined_row 0 6 4 61
    ∷ predefined_row 0 9 5 509
    ∷ predefined_row 0 15 5 32765
    ∷ predefined_row 0 21 5 2097149
    ∷ predefined_row 0 3 5 5
    ∷ predefined_row 0 7 4 125
    ∷ predefined_row 0 12 5 4093
    ∷ predefined_row 0 18 5 262141
    ∷ predefined_row 0 23 5 8388605
    ∷ predefined_row 0 5 5 29
    ∷ predefined_row 0 8 4 253
    ∷ predefined_row 0 14 5 16381
    ∷ predefined_row 0 20 5 1048573
    ∷ predefined_row 0 2 5 1
    ∷ predefined_row 16 7 4 125
    ∷ predefined_row 0 11 5 2045
    ∷ predefined_row 0 17 5 131069
    ∷ predefined_row 0 22 5 4194301
    ∷ predefined_row 0 4 5 13
    ∷ predefined_row 16 8 4 253
    ∷ predefined_row 0 13 5 8189
    ∷ predefined_row 0 19 5 524285
    ∷ predefined_row 0 1 5 1
    ∷ predefined_row 16 6 4 61
    ∷ predefined_row 0 10 5 1021
    ∷ predefined_row 0 16 5 65533
    ∷ predefined_row 0 28 5 268435453
    ∷ predefined_row 0 27 5 134217725
    ∷ predefined_row 0 26 5 67108861
    ∷ predefined_row 0 25 5 33554429
    ∷ predefined_row 0 24 5 16777213
    ∷ []

abbrev pub ml_predef : List Row
ml_predef =
    predefined_row 0 0 6 3
    ∷ predefined_row 0 0 4 4
    ∷ predefined_row 32 0 5 5
    ∷ predefined_row 0 0 5 6
    ∷ predefined_row 0 0 5 8
    ∷ predefined_row 0 0 5 9
    ∷ predefined_row 0 0 5 11
    ∷ predefined_row 0 0 6 13
    ∷ predefined_row 0 0 6 16
    ∷ predefined_row 0 0 6 19
    ∷ predefined_row 0 0 6 22
    ∷ predefined_row 0 0 6 25
    ∷ predefined_row 0 0 6 28
    ∷ predefined_row 0 0 6 31
    ∷ predefined_row 0 0 6 34
    ∷ predefined_row 0 1 6 37
    ∷ predefined_row 0 1 6 41
    ∷ predefined_row 0 2 6 47
    ∷ predefined_row 0 3 6 59
    ∷ predefined_row 0 4 6 83
    ∷ predefined_row 0 7 6 131
    ∷ predefined_row 0 9 6 515
    ∷ predefined_row 16 0 4 4
    ∷ predefined_row 0 0 4 5
    ∷ predefined_row 32 0 5 6
    ∷ predefined_row 0 0 5 7
    ∷ predefined_row 32 0 5 9
    ∷ predefined_row 0 0 5 10
    ∷ predefined_row 0 0 6 12
    ∷ predefined_row 0 0 6 15
    ∷ predefined_row 0 0 6 18
    ∷ predefined_row 0 0 6 21
    ∷ predefined_row 0 0 6 24
    ∷ predefined_row 0 0 6 27
    ∷ predefined_row 0 0 6 30
    ∷ predefined_row 0 0 6 33
    ∷ predefined_row 0 1 6 35
    ∷ predefined_row 0 1 6 39
    ∷ predefined_row 0 2 6 43
    ∷ predefined_row 0 3 6 51
    ∷ predefined_row 0 4 6 67
    ∷ predefined_row 0 5 6 99
    ∷ predefined_row 0 8 6 259
    ∷ predefined_row 32 0 4 4
    ∷ predefined_row 48 0 4 4
    ∷ predefined_row 16 0 4 5
    ∷ predefined_row 32 0 5 7
    ∷ predefined_row 32 0 5 8
    ∷ predefined_row 32 0 5 10
    ∷ predefined_row 32 0 5 11
    ∷ predefined_row 0 0 6 14
    ∷ predefined_row 0 0 6 17
    ∷ predefined_row 0 0 6 20
    ∷ predefined_row 0 0 6 23
    ∷ predefined_row 0 0 6 26
    ∷ predefined_row 0 0 6 29
    ∷ predefined_row 0 0 6 32
    ∷ predefined_row 0 16 6 65539
    ∷ predefined_row 0 15 6 32771
    ∷ predefined_row 0 14 6 16387
    ∷ predefined_row 0 13 6 8195
    ∷ predefined_row 0 12 6 4099
    ∷ predefined_row 0 11 6 2051
    ∷ predefined_row 0 10 6 1027
    ∷ []

abbrev pub ll_code_base : List ℕ
ll_code_base =
    0 ∷ 1 ∷ 2 ∷ 3 ∷ 4 ∷ 5 ∷ 6 ∷ 7 ∷ 8 ∷ 9 ∷ 10 ∷ 11 ∷ 12 ∷ 13 ∷ 14 ∷ 15 ∷ 16 ∷ 18 ∷ 20 ∷ 22 ∷ 24
    ∷ 28 ∷ 32 ∷ 40 ∷ 48 ∷ 64 ∷ 128 ∷ 256 ∷ 512 ∷ 1024 ∷ 2048 ∷ 4096 ∷ 8192 ∷ 16384 ∷ 32768 ∷ 65536
    ∷ []

abbrev pub ll_code_bits : List ℕ
ll_code_bits =
    0 ∷ 0 ∷ 0 ∷ 0 ∷ 0 ∷ 0 ∷ 0 ∷ 0 ∷ 0 ∷ 0 ∷ 0 ∷ 0 ∷ 0 ∷ 0 ∷ 0 ∷ 0 ∷ 1 ∷ 1 ∷ 1 ∷ 1 ∷ 2 ∷ 2 ∷ 3 ∷ 3
    ∷ 4 ∷ 6 ∷ 7 ∷ 8 ∷ 9 ∷ 10 ∷ 11 ∷ 12 ∷ 13 ∷ 14 ∷ 15 ∷ 16 ∷ []

abbrev pub ml_code_base : List ℕ
ml_code_base =
    3 ∷ 4 ∷ 5 ∷ 6 ∷ 7 ∷ 8 ∷ 9 ∷ 10 ∷ 11 ∷ 12 ∷ 13 ∷ 14 ∷ 15 ∷ 16 ∷ 17 ∷ 18 ∷ 19 ∷ 20 ∷ 21 ∷ 22 ∷ 23
    ∷ 24 ∷ 25 ∷ 26 ∷ 27 ∷ 28 ∷ 29 ∷ 30 ∷ 31 ∷ 32 ∷ 33 ∷ 34 ∷ 35 ∷ 37 ∷ 39 ∷ 41 ∷ 43 ∷ 47 ∷ 51 ∷ 59
    ∷ 67 ∷ 83 ∷ 99 ∷ 131 ∷ 259 ∷ 515 ∷ 1027 ∷ 2051 ∷ 4099 ∷ 8195 ∷ 16387 ∷ 32771 ∷ 65539 ∷ []

abbrev pub ml_code_bits : List ℕ
ml_code_bits =
    0 ∷ 0 ∷ 0 ∷ 0 ∷ 0 ∷ 0 ∷ 0 ∷ 0 ∷ 0 ∷ 0 ∷ 0 ∷ 0 ∷ 0 ∷ 0 ∷ 0 ∷ 0 ∷ 0 ∷ 0 ∷ 0 ∷ 0 ∷ 0 ∷ 0 ∷ 0 ∷ 0
    ∷ 0 ∷ 0 ∷ 0 ∷ 0 ∷ 0 ∷ 0 ∷ 0 ∷ 0 ∷ 1 ∷ 1 ∷ 1 ∷ 1 ∷ 2 ∷ 2 ∷ 3 ∷ 3 ∷ 4 ∷ 4 ∷ 5 ∷ 7 ∷ 8 ∷ 9 ∷ 10
    ∷ 11 ∷ 12 ∷ 13 ∷ 14 ∷ 15 ∷ 16 ∷ []

abbrev pub of_code_base : List ℕ
of_code_base =
    0 ∷ 1 ∷ 1 ∷ 5 ∷ 13 ∷ 29 ∷ 61 ∷ 125 ∷ 253 ∷ 509 ∷ 1021 ∷ 2045 ∷ 4093 ∷ 8189 ∷ 16381 ∷ 32765
    ∷ 65533 ∷ 131069 ∷ 262141 ∷ 524285 ∷ 1048573 ∷ 2097149 ∷ 4194301 ∷ 8388605 ∷ 16777213 ∷ 33554429
    ∷ 67108861 ∷ 134217725 ∷ 268435453 ∷ 536870909 ∷ 1073741821 ∷ 2147483645 ∷ []

-- `tuple(range(32))`, from a first number on.
abbrev pub code_range : ℕ → ℕ → List ℕ
code_range first zero = []
code_range first (suc n) = first ∷ code_range (first + 1) n

abbrev pub of_code_bits : List ℕ
of_code_bits = code_range 0 32
