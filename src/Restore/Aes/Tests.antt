-- ===== src/Restore/Aes/Tests.antt =====
-- Test vectors of AES, and an encryption in the counter mode.
use lcsas.Prelude.{ℕ, ◌<◌, ◌≡◌, ◌⊎◌, refl, List, [], ◌∷◌, length, get_or, arith, bit_xor}
use lcsas.Prelude.Result.{ok}
use lcsas.Prelude.Digits.{to_digits, of_digits, IsDigits, to_digits-IsDigits, length-to_digits}
use lcsas.Restore.Aes.{
  sbox, rcon, sbox_at, xtime, gf_mul_rounds, gf_mul, mul2, mul3, sub_word, rot_word, unpack_words,
  mixed_word, expand, pack_key, pack_keys, expanded_keys, key_schedule, column_of, state_of,
  bytes_of_column, bytes_of, map_column, sub_bytes, shifted_column, shift_rows, mix_column,
  mix_columns, xor_column, add_round_key, middle_rounds, aes_encrypt_block, ctr_chunks, aes_ctr,
}
use lcsas.Restore.Aes.Tables.{affine, sbox_at-affine}
use lcsas.Restore.Aes.Blocks.{aes_encrypt_block_inj}
use lcsas.Restore.Aes.Ctr.{stream_byte, aes_ctr_lem}

abbrev pub fips_key : List ℕ
fips_key =
    0x2B ∷ 0x7E ∷ 0x15 ∷ 0x16 ∷ 0x28 ∷ 0xAE ∷ 0xD2 ∷ 0xA6 ∷ 0xAB ∷ 0xF7 ∷ 0x15 ∷ 0x88 ∷ 0x09 ∷ 0xCF
    ∷ 0x4F ∷ 0x3C ∷ []

abbrev pub fips_block : List ℕ
fips_block =
    0x32 ∷ 0x43 ∷ 0xF6 ∷ 0xA8 ∷ 0x88 ∷ 0x5A ∷ 0x30 ∷ 0x8D ∷ 0x31 ∷ 0x31 ∷ 0x98 ∷ 0xA2 ∷ 0xE0 ∷ 0x37
    ∷ 0x07 ∷ 0x34 ∷ []

fips_encrypted :
    aes_encrypt_block fips_block (expanded_keys 4 10 fips_key)
    ≡ 0x39 ∷ 0x25 ∷ 0x84 ∷ 0x1D ∷ 0x02 ∷ 0xDC ∷ 0x09 ∷ 0xFB ∷ 0xDC ∷ 0x11 ∷ 0x85 ∷ 0x97 ∷ 0x19
      ∷ 0x6A ∷ 0x0B ∷ 0x32 ∷ []
unfolding sbox sbox_at rcon xtime gf_mul_rounds gf_mul mul2 mul3 sub_word rot_word unpack_words
    mixed_word expand pack_key pack_keys expanded_keys column_of state_of bytes_of_column bytes_of
    map_column sub_bytes shifted_column shift_rows mix_column mix_columns xor_column add_round_key
    middle_rounds aes_encrypt_block of_digits to_digits
fips_encrypted = refl

-- The key of the test vector has a schedule of eleven round keys.
pub fips_schedule : key_schedule fips_key ≡ ok (expanded_keys 4 10 fips_key)
unfolding key_schedule
fips_schedule = refl

abbrev pub nonce : List ℕ
nonce = to_digits 256 16 0x0102030405060708090A0B0C0D0E0FFF

pub nonce-IsDigits : IsDigits 256 nonce
nonce-IsDigits = to_digits-IsDigits 256 (omega arith) 16 0x0102030405060708090A0B0C0D0E0FFF

pub nonce_size : length nonce ≡ 16
nonce_size = length-to_digits 256 16 0x0102030405060708090A0B0C0D0E0FFF

aes_encrypt_block_inj_example : nonce ≡ to_digits 256 16 0x0102030405060708090A0B0C0D0E0FFF
aes_encrypt_block_inj_example =
    aes_encrypt_block_inj fips_key nonce nonce (expanded_keys 4 10 fips_key) fips_schedule
      nonce_size nonce_size nonce-IsDigits nonce-IsDigits refl

abbrev pub three : List ℕ
three = 0x41 ∷ 0x42 ∷ 0x43 ∷ []

aes_ctr_lem_example :
    (out : List ℕ) × (aes_ctr fips_key nonce three ≡ ok out)
    × (length out ≡ 3)
    × ((i : ℕ)
        → i < 3
        → get_or out i 0
          ≡ bit_xor
              (get_or three i 0)
              (stream_byte (expanded_keys 4 10 fips_key) (of_digits 256 0 nonce) i))
aes_ctr_lem_example =
    aes_ctr_lem fips_key nonce three (expanded_keys 4 10 fips_key) fips_schedule nonce_size
      nonce-IsDigits

sbox_at-affine_example :
    (b : ℕ) × ((b < 256)
      × ((sbox_at 0x53 ≡ affine b) × (((◌≡◌ {A = ℕ} 0x53 0) × (b ≡ 0)) ⊎ (gf_mul 0x53 b ≡ 1))))
sbox_at-affine_example = sbox_at-affine 0x53 (omega arith)

abbrev pub keys : List (List ℕ)
keys = expanded_keys 4 10 fips_key

abbrev pub ciphertext : List ℕ
ciphertext = ctr_chunks 3 keys nonce three

pub encrypted : aes_ctr fips_key nonce three ≡ ok ciphertext
unfolding aes_ctr key_schedule
encrypted = refl
