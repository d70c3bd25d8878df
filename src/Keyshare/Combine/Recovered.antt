-- ===== src/Keyshare/Combine/Recovered.antt =====
-- `_recover_ems` of src/lcsas/keyshare/slip39.py on the shares of one group.

use mathlib.Core.List.{Memᴰ}
use lcsas.Prelude.{
  ℕ, suc, ◌≤◌, ◌≡◌, refl, ap, ◌∙◌, true, false, List, [], ◌∷◌, map, length, length-map, length-take,
  take, ltb, All, All-take, Distinct, arith, ◌==◌,
}
use lcsas.Prelude.Result.{ok}
use lcsas.Keyshare.Shamir.{
  RawShare, Crypto, x_coordinates, as_set, split_secret, recover_secret, first_data,
}
use lcsas.Keyshare.Shamir.Sums.{IsByte}
use lcsas.Keyshare.Shamir.Sets.{as_set-Distinct}
use lcsas.Keyshare.Shamir.Split.{IsSound}
use lcsas.Keyshare.Shamir.Choice.{IsChoice}
use lcsas.Keyshare.Shamir.Laws.{recover_secret-split_secret}
use lcsas.Keyshare.Group.Sorted.{
  sort_raw, sort_raw-All, sort_raw-Distinct, sort_raw-length, take-Distinct, to_raw_shares-map,
}
use lcsas.Keyshare.Combine.{
  EncryptedMasterSecret, first_share, member_threshold, member_indices, check_group, check_groups,
  recover_group, recover_groups, recover_ems,
}
use lcsas.Keyshare.Combine.Decoded.{OneGroup, share_of}

abbrev pub ems_of : OneGroup → List ℕ → EncryptedMasterSecret
ems_of g ciphertext = record {
  identifier = g.identifier;
  extendable = g.extendable;
  iteration_exponent = g.iteration_exponent;
  ciphertext = ciphertext;
}

module _ (g : OneGroup) where
  member_indices-map :
      (rs : List RawShare) → member_indices (map (share_of g) rs) ≡ x_coordinates rs
  member_indices-map [] = refl
  member_indices-map (r ∷ rs) = ap (λ l. r.x ∷ l) (member_indices-map rs)

  module _ (first : RawShare) (rest : List RawShare) where
    abbrev rs : List RawShare
    rs = first ∷ rest

    check_group-ok :
        g.member_threshold ≤ length rs
        → Distinct (x_coordinates rs)
        → check_group (map (share_of g) rs) ≡ ok tt
    unfolding check_group member_threshold
    check_group-ok enough distinct =
        rw
          (
            length-map rest (share_of g),
            few,
            ap as_set (member_indices-map rs) ∙ as_set-Distinct (x_coordinates rs) distinct,
            length-map rest (λ (r : RawShare). r.x),
            same (suc (length rest)),
          )
          refl
      where
        few : ltb (suc (length rest)) g.member_threshold ≡ false
        few = ground arith

        same : (n : ℕ) → (n == n) ≡ true
        same n = ground arith

    module _ (crypto : Crypto) (sound : IsSound crypto) (count call : ℕ) (ciphertext : List ℕ)
        (bytes : All IsByte ciphertext) (members : List RawShare) (next : ℕ)
        (returned : split_secret crypto g.member_threshold count ciphertext call
          ≡ ok (members, next))
        (held : All (λ r. Memᴰ r members) rs) (distinct : Distinct (x_coordinates rs))
        (enough : g.member_threshold ≤ length rs) where
      chosen : List RawShare
      chosen = take g.member_threshold (sort_raw rs)

      chosen-IsChoice : IsChoice g.member_threshold members chosen
      unfolding chosen
      chosen-IsChoice = (
        All-take (λ r. Memᴰ r members) g.member_threshold (sort_raw rs)
            (sort_raw-All (λ r. Memᴰ r members) rs held),
        (
          take-Distinct g.member_threshold (sort_raw rs) (sort_raw-Distinct rs distinct),
          omega (arith, length-take g.member_threshold (sort_raw rs), sort_raw-length rs),
        ),
      )

      recover_group-ok : recover_group crypto (map (share_of g) rs) ≡ ok ciphertext
      unfolding recover_group member_threshold chosen
      recover_group-ok =
          ap (λ l. recover_secret crypto g.member_threshold (take g.member_threshold l))
            (to_raw_shares-map (share_of g) (λ r. refl) (λ r. refl) rs)
          ∙ recover_secret-split_secret crypto sound g.member_threshold count call ciphertext bytes
              members next returned chosen chosen-IsChoice

      pub recover_ems-ok :
          recover_ems crypto ((0, map (share_of g) rs) ∷ []) ≡ ok (ems_of g ciphertext)
      unfolding recover_ems recover_groups check_groups first_share recover_secret first_data
      recover_ems-ok = rw (check_group-ok enough distinct, recover_group-ok) refl
