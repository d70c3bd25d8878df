-- ===== src/Keyshare/Share.antt =====
-- src/lcsas/keyshare/slip39.py, "Share metadata encode/decode": one share and its word indices.
-- A mnemonic is the list of the indices of its words in the word list.
pub mod Fields
pub mod Outcome
pub mod Parsed
pub mod Written
pub mod Laws
pub mod Bursts
mod Tests
use lcsas.Prelude.{
  ℕ, ◌+◌, ◌-◌, ◌*◌, ◌/◌, ◌%◌, ◌^◌, Bool, true, false, not, List, [], ◌∷◌, ◌++◌, length, take, drop,
  ltb, ◌==◌, if◌then◌else◌,
}
use lcsas.Prelude.Result.{Result, ok, err}
use lcsas.Prelude.Digits.{to_digits, of_digits}
use lcsas.Keyshare.Errors.{
  KeyshareError, mnemonic_too_short, mnemonic_length, mnemonic_checksum, mnemonic_group_threshold,
  mnemonic_padding,
}
use lcsas.Keyshare.Radix.{
  radix_bits, bits_to_bytes, bits_to_words, int_to_word_indices, int_from_word_indices,
}
use lcsas.Keyshare.Rs1024.{rs1024_create_checksum, rs1024_verify_checksum, checksum_length_words}
use lcsas.Keyshare.Feistel.{customization_string_orig}

-- b"shamir_extendable"
abbrev pub customization_string_extendable : List ℕ
customization_string_extendable =
    customization_string_orig ++ (95 ∷ 101 ∷ 120 ∷ 116 ∷ 101 ∷ 110 ∷ 100 ∷ 97 ∷ 98 ∷ 108 ∷ 101 ∷ [])

abbrev pub customization_string : Bool → List ℕ
customization_string extendable =
    if extendable then customization_string_extendable else customization_string_orig

abbrev pub id_exp_length_words : ℕ
id_exp_length_words = 2

abbrev pub metadata_length_words : ℕ
metadata_length_words = id_exp_length_words + 2 + checksum_length_words

abbrev pub min_strength_bits : ℕ
min_strength_bits = 128

abbrev pub min_mnemonic_length_words : ℕ
min_mnemonic_length_words = metadata_length_words + bits_to_words min_strength_bits

pub record Share : Type 0 where
  pub identifier : ℕ
  pub extendable : Bool
  pub iteration_exponent : ℕ
  pub group_index : ℕ
  pub group_threshold : ℕ
  pub group_count : ℕ
  pub member_index : ℕ
  pub member_threshold : ℕ
  pub value : List ℕ

abbrev pub int_of_bool : Bool → ℕ
int_of_bool b = if b then 1 else 0

-- The counts of a share are at least 1, so the subtractions are the source's.
pub encode_id_exp : Share → List ℕ
encode_id_exp s =
    int_to_word_indices
      (s.identifier * 2 ^ 5 + int_of_bool s.extendable * 2 ^ 4 + s.iteration_exponent)
      id_exp_length_words

pub encode_share_params : Share → List ℕ
encode_share_params s =
    int_to_word_indices
      ((((s.group_index * 2 ^ 4 + (s.group_threshold - 1)) * 2 ^ 4 + (s.group_count - 1)) * 2 ^ 4
            + s.member_index)
          * 2 ^ 4
        + (s.member_threshold - 1))
      2

pub encode_value : List ℕ → List ℕ
encode_value value = int_to_word_indices (of_digits 256 0 value) (bits_to_words (length value * 8))

-- `words`, before the indices are looked up in the word list.
pub share_indices : Share → List ℕ
share_indices s =
    let share_data = encode_id_exp s ++ (encode_share_params s ++ encode_value s.value) in
    share_data ++ rs1024_create_checksum share_data (customization_string s.extendable)

-- `from_mnemonic`, after the words are looked up: the checks in their order.
pub from_indices : List ℕ → Result KeyshareError Share
from_indices words =
    let padding_len = radix_bits * (length words - metadata_length_words) % 16 in
    let id_exp_int = int_from_word_indices (take id_exp_length_words words) in
    let extendable = id_exp_int / 2 ^ 4 % 2 == 1 in
    let params = int_from_word_indices (take 2 (drop id_exp_length_words words)) in
    let group_threshold = params / 2 ^ 12 % 16 in
    let group_count = params / 2 ^ 8 % 16 in
    let value_data =
      take (length words - checksum_length_words - (id_exp_length_words + 2))
        (drop (id_exp_length_words + 2) words) in
    let value_byte_count = bits_to_bytes (radix_bits * length value_data - padding_len) in
    let value_int = int_from_word_indices value_data in
    if ltb (length words) min_mnemonic_length_words
    then err mnemonic_too_short
    else if ltb 8 padding_len
    then err mnemonic_length
    else if not (rs1024_verify_checksum words (customization_string extendable))
    then err mnemonic_checksum
    else if ltb group_count group_threshold
    then err mnemonic_group_threshold
    else if not (ltb value_int (256 ^ value_byte_count))
    then err mnemonic_padding
    else ok (record {
      identifier = id_exp_int / 2 ^ 5;
      extendable = extendable;
      iteration_exponent = id_exp_int % 2 ^ 4;
      group_index = params / 2 ^ 16 % 16;
      group_threshold = group_threshold + 1;
      group_count = group_count + 1;
      member_index = params / 2 ^ 4 % 16;
      member_threshold = params % 16 + 1;
      value = to_digits 256 value_byte_count value_int;
    })
