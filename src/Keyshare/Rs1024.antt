-- ===== src/Keyshare/Rs1024.antt =====
-- src/lcsas/keyshare/slip39.py, "RS1024 checksum": the checksum of a mnemonic's word indices.
-- A mask of low ones is written as a remainder.
pub mod State
pub mod Laws
pub mod Bursts
mod Tests
use lcsas.Prelude.{
  ℕ, ◌+◌, ◌*◌, ◌/◌, ◌%◌, ◌^◌, Bool, List, [], ◌∷◌, ◌++◌, bit_xor, ◌==◌, if◌then◌else◌, replicate,
}
use lcsas.Keyshare.Radix.{int_to_word_indices}

abbrev pub rs1024_gen : List ℕ
rs1024_gen =
    0xE0E040 ∷ 0x1C1C080 ∷ 0x3838100 ∷ 0x7070200 ∷ 0xE0E0009 ∷ 0x1C0C2412 ∷ 0x38086C24 ∷ 0x3090FC48
    ∷ 0x21B1F890 ∷ 0x3F3F120 ∷ []

abbrev pub checksum_length_words : ℕ
checksum_length_words = 3

-- The inner loop from index `i` on: `chk ^= gen[i] if ((b >> i) & 1) else 0`.
unfoldable pub rs1024_feed : List ℕ → ℕ → ℕ → ℕ → ℕ
rs1024_feed [] i b chk = chk
rs1024_feed (g ∷ gens) i b chk =
    rs1024_feed gens (i + 1) b (bit_xor chk (if b / 2 ^ i % 2 == 1 then g else 0))

-- One round of the outer loop.
unfoldable pub rs1024_step : ℕ → ℕ → ℕ
rs1024_step chk v = rs1024_feed rs1024_gen 0 (chk / 2 ^ 20) (bit_xor (chk % 2 ^ 20 * 2 ^ 10) v)

unfoldable pub rs1024_from : ℕ → List ℕ → ℕ
rs1024_from chk [] = chk
rs1024_from chk (v ∷ values) = rs1024_from (rs1024_step chk v) values

unfoldable pub rs1024_polymod : List ℕ → ℕ
rs1024_polymod = rs1024_from 1

unfoldable pub rs1024_create_checksum : List ℕ → List ℕ → List ℕ
rs1024_create_checksum values customization =
    let polymod =
      bit_xor (rs1024_polymod (customization ++ values ++ replicate checksum_length_words 0)) 1 in
    int_to_word_indices polymod checksum_length_words

unfoldable pub rs1024_verify_checksum : List ℕ → List ℕ → Bool
rs1024_verify_checksum values customization = rs1024_polymod (customization ++ values) == 1
