-- ===== src/Restore/Zstd/Fse/Tests.antt =====
-- The predefined tables of zstd beside those that the decoder builds from the default distributions
-- of RFC 8878, and two sums of XXH64.
use lcsas.Prelude.{ℕ, ◌≡◌, refl, List, [], ◌∷◌, get_or}
use lcsas.Restore.Zstd.Codes.{
  Row, ll_predef, of_predef, ml_predef, ll_code_base, ll_code_bits, ml_code_base, ml_code_bits,
  of_code_base, of_code_bits,
}
use lcsas.Restore.Zstd.Fse.{
  Count, low, count, FseTable, build_fse_table, place_low, spread, spread_symbol, skip_low,
  transitions, next_of, set_item, bit_length,
}

abbrev rows : List ℕ → List ℕ → List ℕ → List ℕ → List ℕ → List Row
rows base bits [] baseline num_bits = []
rows base bits (s ∷ symbol) [] num_bits = []
rows base bits (s ∷ symbol) (b ∷ baseline) [] = []
rows base bits (s ∷ symbol) (b ∷ baseline) (n ∷ num_bits) =
    record {
      newstate = b;
      add_bits = get_or bits s 0;
      state_nbits = n;
      base_value = get_or base s 0;
    }
    ∷ rows base bits symbol baseline num_bits

abbrev rows_for : List ℕ → List ℕ → FseTable → List Row
rows_for base bits table = rows base bits table.symbol table.baseline table.num_bits

abbrev ll_default : List Count
ll_default =
    count 4
    ∷ count 3
    ∷ count 2
    ∷ count 2
    ∷ count 2
    ∷ count 2
    ∷ count 2
    ∷ count 2
    ∷ count 2
    ∷ count 2
    ∷ count 2
    ∷ count 2
    ∷ count 2
    ∷ count 1
    ∷ count 1
    ∷ count 1
    ∷ count 2
    ∷ count 2
    ∷ count 2
    ∷ count 2
    ∷ count 2
    ∷ count 2
    ∷ count 2
    ∷ count 2
    ∷ count 2
    ∷ count 3
    ∷ count 2
    ∷ count 1
    ∷ count 1
    ∷ count 1
    ∷ count 1
    ∷ count 1
    ∷ low
    ∷ low
    ∷ low
    ∷ low
    ∷ []

abbrev ml_default : List Count
ml_default =
    count 1
    ∷ count 4
    ∷ count 3
    ∷ count 2
    ∷ count 2
    ∷ count 2
    ∷ count 2
    ∷ count 2
    ∷ count 2
    ∷ count 1
    ∷ count 1
    ∷ count 1
    ∷ count 1
    ∷ count 1
    ∷ count 1
    ∷ count 1
    ∷ count 1
    ∷ count 1
    ∷ count 1
    ∷ count 1
    ∷ count 1
    ∷ count 1
    ∷ count 1
    ∷ count 1
    ∷ count 1
    ∷ count 1
    ∷ count 1
    ∷ count 1
    ∷ count 1
    ∷ count 1
    ∷ count 1
    ∷ count 1
    ∷ count 1
    ∷ count 1
    ∷ count 1
    ∷ count 1
    ∷ count 1
    ∷ count 1
    ∷ count 1
    ∷ count 1
    ∷ count 1
    ∷ count 1
    ∷ count 1
    ∷ count 1
    ∷ count 1
    ∷ count 1
    ∷ low
    ∷ low
    ∷ low
    ∷ low
    ∷ low
    ∷ low
    ∷ low
    ∷ []

abbrev of_default : List Count
of_default =
    count 1
    ∷ count 1
    ∷ count 1
    ∷ count 1
    ∷ count 1
    ∷ count 1
    ∷ count 2
    ∷ count 2
    ∷ count 2
    ∷ count 1
    ∷ count 1
    ∷ count 1
    ∷ count 1
    ∷ count 1
    ∷ count 1
    ∷ count 1
    ∷ count 1
    ∷ count 1
    ∷ count 1
    ∷ count 1
    ∷ count 1
    ∷ count 1
    ∷ count 1
    ∷ count 1
    ∷ low
    ∷ low
    ∷ low
    ∷ low
    ∷ low
    ∷ []

ll_predefined : rows_for ll_code_base ll_code_bits (build_fse_table ll_default 6) ≡ ll_predef
unfolding build_fse_table place_low spread spread_symbol skip_low transitions next_of set_item
    bit_length
ll_predefined = refl

ml_predefined : rows_for ml_code_base ml_code_bits (build_fse_table ml_default 6) ≡ ml_predef
unfolding build_fse_table place_low spread spread_symbol skip_low transitions next_of set_item
    bit_length
ml_predefined = refl

of_predefined : rows_for of_code_base of_code_bits (build_fse_table of_default 5) ≡ of_predef
unfolding build_fse_table place_low spread spread_symbol skip_low transitions next_of set_item
    bit_length
of_predefined = refl
