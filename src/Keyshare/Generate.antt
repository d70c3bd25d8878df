-- ===== src/Keyshare/Generate.antt =====
-- src/lcsas/keyshare/slip39.py, `generate_mnemonics` and `split_secret`. A mnemonic is the list of the
-- indices of its words in the word list.
pub mod Cards
pub mod Picked
pub mod Members
pub mod Laws
mod Tests
use lcsas.Prelude.{
  ℕ, ◌+◌, ◌*◌, ◌%◌, ◌^◌, Bool, true, not, ◌&&◌, List, [], ◌∷◌, map, length, any, ltb, leb, ◌==◌,
  if◌then◌else◌,
}
use lcsas.Prelude.Result.{Result, ok, err, ◌>>=◌}
use lcsas.Prelude.Digits.{of_digits}
use lcsas.Keyshare.Errors.{
  KeyshareError, zip_strict, index_out_of_range, master_secret_short, master_secret_odd,
  passphrase_unprintable, group_threshold_not_positive, group_threshold_above_count,
  many_shares_of_one,
}
use lcsas.Keyshare.Radix.{bits_to_bytes}
use lcsas.Keyshare.Share.{share_indices, min_strength_bits}
use lcsas.Keyshare.Feistel.{Pbkdf2}
use lcsas.Keyshare.Shamir.{RawShare, Crypto}
use lcsas.Keyshare.Shamir
use lcsas.Keyshare.Combine.{EncryptedMasterSecret, from_master_secret, combine_mnemonics}

unfoldable pub check_master_secret : List ℕ → Result KeyshareError (Unit {0})
check_master_secret master_secret =
    if ltb (length master_secret * 8) min_strength_bits
    then err master_secret_short
    else if not (length master_secret % 2 == 0)
    then err master_secret_odd
    else ok tt

-- `all(32 <= c <= 126 for c in passphrase)`
unfoldable pub check_passphrase : List ℕ → Result KeyshareError (Unit {0})
check_passphrase passphrase =
    if any (λ c. not (leb 32 c && leb c 126)) passphrase then err passphrase_unprintable else ok tt

-- Call `call` of the source; the mask keeps 15 bits.
unfoldable pub random_identifier : Crypto → ℕ → ℕ
random_identifier crypto call =
    of_digits 256 0 (crypto.random_bytes call (bits_to_bytes 15)) % 2 ^ 15

-- What all the shares of a set have in common.
pub record ShareSet : Type 0 where
  pub ems : EncryptedMasterSecret
  pub group_threshold : ℕ
  pub group_count : ℕ

unfoldable pub member_mnemonic : ShareSet → ℕ → ℕ → RawShare → List ℕ
member_mnemonic set group_index member_threshold raw = share_indices (record {
  identifier = set.ems.identifier;
  extendable = set.ems.extendable;
  iteration_exponent = set.ems.iteration_exponent;
  group_index = group_index;
  group_threshold = set.group_threshold;
  group_count = set.group_count;
  member_index = raw.x;
  member_threshold = member_threshold;
  value = raw.share_data;
})

module _ (crypto : Crypto) where
  -- The loop over `zip(groups, group_shares, strict=True)`.
  pub group_mnemonics :
      ShareSet → List (ℕ × ℕ) → List RawShare → ℕ → Result KeyshareError (List (List (List ℕ)))
  group_mnemonics set [] [] call = ok []
  group_mnemonics set [] (_ ∷ _) call = err zip_strict
  group_mnemonics set (_ ∷ _) [] call = err zip_strict
  group_mnemonics set ((member_threshold, member_count) ∷ groups) (share ∷ shares) call =
      Shamir.split_secret crypto member_threshold member_count share.share_data call >>= λ members.
      group_mnemonics set groups shares members.1 >>= λ rest.
      ok (map (member_mnemonic set share.x member_threshold) members.0 ∷ rest)

  module _ (pbkdf2 : Pbkdf2) where
    pub generate_mnemonics :
        ℕ
        → List (ℕ × ℕ)
        → List ℕ
        → List ℕ
        → ℕ
        → Bool
        → ℕ
        → Result KeyshareError (List (List (List ℕ)))
    generate_mnemonics group_threshold groups master_secret passphrase iteration_exponent extendable
          call =
        check_master_secret master_secret >>= λ _. check_passphrase passphrase >>= λ _.
        if ltb group_threshold 1
        then err group_threshold_not_positive
        else if ltb (length groups) group_threshold
        then err group_threshold_above_count
        else if any (λ g. g.0 == 1 && ltb 1 g.1) groups
        then err many_shares_of_one
        else from_master_secret crypto pbkdf2 master_secret passphrase
            (random_identifier crypto call) extendable iteration_exponent
          >>= λ ems.
              Shamir.split_secret crypto group_threshold (length groups) ems.ciphertext (call + 1)
              >>= λ group_shares.
                  group_mnemonics
                    (record {
                      ems = ems;
                      group_threshold = group_threshold;
                      group_count = length groups;
                    })
                    groups group_shares.0 group_shares.1

    -- `generate_mnemonics(...)[0]`
    pub first_group : List (List (List ℕ)) → Result KeyshareError (List (List ℕ))
    first_group [] = err index_out_of_range
    first_group (group ∷ _) = ok group

    -- `split_secret` of the public interface: one group, extendable.
    pub split_secret : List ℕ → ℕ → ℕ → List ℕ → ℕ → ℕ → Result KeyshareError (List (List ℕ))
    split_secret secret threshold count passphrase iteration_exponent call =
        generate_mnemonics 1 ((threshold, count) ∷ []) secret passphrase iteration_exponent true
          call
        >>= first_group

    pub recover_secret : List (List ℕ) → List ℕ → Result KeyshareError (List ℕ)
    recover_secret mnemonics passphrase = combine_mnemonics crypto pbkdf2 mnemonics passphrase
