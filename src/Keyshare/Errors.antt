-- ===== src/Keyshare/Errors.antt =====
-- The exceptions of src/lcsas/keyshare, one constructor for each raise and its message.
-- `zip_strict` and `int_too_big` are the ValueError of `zip(strict=True)` and the OverflowError of
-- `int.to_bytes`, `index_out_of_range` is the IndexError of `l[0]`, and `negative_byte_count` the
-- ValueError of `secrets.token_bytes`; the others are raised by the package itself.
pub data KeyshareError : Type 0 where
  password_too_long master_secret_too_short master_secret_truncated : KeyshareError
  mnemonic_too_short mnemonic_length mnemonic_checksum mnemonic_group_threshold mnemonic_padding :
      KeyshareError
  zip_strict int_too_big : KeyshareError
  share_indices_repeat share_lengths_differ secret_digest : KeyshareError
  threshold_not_positive threshold_above_count share_count_above_limit : KeyshareError
  index_out_of_range negative_byte_count : KeyshareError
  unknown_word parameters_mismatch common_parameters_mismatch : KeyshareError
  share_set_empty too_few_groups too_many_groups too_few_shares mnemonic_list_empty : KeyshareError
  master_secret_short master_secret_odd passphrase_unprintable : KeyshareError
  group_threshold_not_positive group_threshold_above_count many_shares_of_one : KeyshareError
