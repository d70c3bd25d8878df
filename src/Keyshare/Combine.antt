-- ===== src/Keyshare/Combine.antt =====
-- src/lcsas/keyshare/slip39.py, `combine_mnemonics`. A mnemonic is the list of the indices of its
-- words in the word list.
pub mod Decoded
pub mod Recovered
use lcsas.Prelude.{
  ℕ, Bool, not, List, [], ◌∷◌, ◌++◌, map, length, take, any, is_empty, ltb, ◌==◌, if◌then◌else◌,
}
use lcsas.Prelude.Result.{Result, ok, err, ◌>>=◌}
use lcsas.Keyshare.Errors.{
  KeyshareError, share_indices_repeat, common_parameters_mismatch, share_set_empty, too_few_groups,
  too_many_groups, too_few_shares, mnemonic_list_empty,
}
use lcsas.Keyshare.Share.{Share, from_indices}
use lcsas.Keyshare.Feistel.{Pbkdf2, encrypt, decrypt}
use lcsas.Keyshare.Shamir.{RawShare, Crypto, as_set, recover_secret}
use lcsas.Keyshare.Group.{
  ShareCommonParameters, common_parameters, common_parameters_eqb, ShareGroup, add, to_raw_shares,
}

-- `dict[int, _ShareGroup]`, in the order of insertion.
abbrev pub Groups : Type 0
Groups = List (ℕ × ShareGroup)

unfoldable pub add_parameters :
    ShareCommonParameters → List ShareCommonParameters → List ShareCommonParameters
add_parameters p params =
    if any (λ q. common_parameters_eqb q p) params then params else params ++ (p ∷ [])

-- `groups.setdefault(share.group_index, _ShareGroup())`, and `group.add(share)`.
unfoldable pub add_share : Share → Groups → Result KeyshareError Groups
add_share s [] = add [] s >>= λ group. ok ((s.group_index, group) ∷ [])
add_share s ((index, group) ∷ groups) =
    let rest = add_share s groups in
    if index == s.group_index
    then (add group s >>= λ larger. ok ((index, larger) ∷ groups))
    else rest >>= λ others. ok ((index, group) ∷ others)

-- The loop over the mnemonics, with the two collections.
unfoldable pub decode_each :
    List (List ℕ)
    → List ShareCommonParameters
    → Groups
    → Result KeyshareError (List ShareCommonParameters × Groups)
decode_each [] common_params groups = ok (common_params, groups)
decode_each (mnemonic ∷ mnemonics) common_params groups = from_indices mnemonic >>= λ share.
    add_share share groups
    >>= decode_each mnemonics (add_parameters (common_parameters share) common_params)

unfoldable pub decode_mnemonics : List (List ℕ) → Result KeyshareError Groups
decode_mnemonics mnemonics = decode_each mnemonics [] [] >>= λ decoded.
    if not (length decoded.0 == 1) then err common_parameters_mismatch else ok decoded.1

pub record EncryptedMasterSecret : Type 0 where
  pub identifier : ℕ
  pub extendable : Bool
  pub iteration_exponent : ℕ
  pub ciphertext : List ℕ

-- The parameters of a group, from a share of it. A group of the dict is never empty.
unfoldable pub first_share : Groups → Result KeyshareError Share
first_share [] = err share_set_empty
first_share ((_, []) ∷ _) = err share_set_empty
first_share ((_, s ∷ _) ∷ _) = ok s

unfoldable pub member_threshold : ShareGroup → ℕ
member_threshold [] = 0
member_threshold (s ∷ _) = s.member_threshold

abbrev pub member_indices : ShareGroup → List ℕ
member_indices group = map (λ (s : Share). s.member_index) group

unfoldable pub check_group : ShareGroup → Result KeyshareError (Unit {0})
check_group group =
    if ltb (length group) (member_threshold group)
    then err too_few_shares
    else if not (length (as_set (member_indices group)) == length group)
    then err share_indices_repeat
    else ok tt

unfoldable pub check_groups : Groups → Result KeyshareError (Unit {0})
check_groups [] = ok tt
check_groups ((_, group) ∷ groups) = check_group group >>= λ _. check_groups groups

module _ (crypto : Crypto) where
  pub recover_group : ShareGroup → Result KeyshareError (List ℕ)
  recover_group group =
      recover_secret crypto (member_threshold group)
        (take (member_threshold group) (to_raw_shares group))

  pub recover_groups : Groups → Result KeyshareError (List RawShare)
  recover_groups [] = ok []
  recover_groups ((group_index, group) ∷ groups) = recover_group group >>= λ secret.
      recover_groups groups >>= λ rest. ok (record { x = group_index; share_data = secret } ∷ rest)

  pub recover_ems : Groups → Result KeyshareError EncryptedMasterSecret
  recover_ems groups = first_share groups >>= λ params.
      if ltb (length groups) params.group_threshold
      then err too_few_groups
      else if not (length groups == params.group_threshold)
      then err too_many_groups
      else check_groups groups >>= λ _. recover_groups groups >>= λ group_shares.
          recover_secret crypto params.group_threshold group_shares >>= λ ciphertext. ok (record {
            identifier = params.identifier;
            extendable = params.extendable;
            iteration_exponent = params.iteration_exponent;
            ciphertext = ciphertext;
          })

  module _ (pbkdf2 : Pbkdf2) where
    -- `_EncryptedMasterSecret.from_master_secret`
    unfoldable pub from_master_secret :
        List ℕ → List ℕ → ℕ → Bool → ℕ → Result KeyshareError EncryptedMasterSecret
    from_master_secret master_secret passphrase identifier extendable iteration_exponent =
        encrypt pbkdf2 master_secret passphrase iteration_exponent identifier extendable
        >>= λ ciphertext. ok (record {
          identifier = identifier;
          extendable = extendable;
          iteration_exponent = iteration_exponent;
          ciphertext = ciphertext;
        })

    -- `_EncryptedMasterSecret.decrypt`
    unfoldable pub decrypt_ems : EncryptedMasterSecret → List ℕ → Result KeyshareError (List ℕ)
    decrypt_ems ems passphrase =
        decrypt pbkdf2 ems.ciphertext passphrase ems.iteration_exponent ems.identifier
          ems.extendable

    unfoldable pub combine_mnemonics : List (List ℕ) → List ℕ → Result KeyshareError (List ℕ)
    combine_mnemonics mnemonics passphrase =
        if is_empty mnemonics
        then err mnemonic_list_empty
        else decode_mnemonics mnemonics >>= recover_ems >>= λ ems. decrypt_ems ems passphrase
