-- ===== src/Keyshare/Generate/Cards.antt =====
-- The mnemonics that `split_secret` of src/lcsas/keyshare/slip39.py writes, one for each member.

use lcsas.Prelude.{
  ℕ, ◌%◌, ◌^◌, ◌≤◌, ◌<◌, ◌≡◌, ap, ◌∙◌, false, not, ◌&&◌, List, [], ◌∷◌, length, any, ltb, leb, ◌==◌,
  All, arith,
}
use lcsas.Keyshare.Share.{share_indices}
use lcsas.Keyshare.Share.Fields.{IsShare}
use lcsas.Keyshare.Share.Written.{from-share_indices}
use lcsas.Keyshare.Shamir.{RawShare, x_coordinates}
use lcsas.Keyshare.Shamir.Sums.{IsByte, IsRawShare}
use lcsas.Keyshare.Combine.Decoded.{OneGroup, share_of, IsCard}

-- What `split_secret` is asked for, as it checks it.
pub record IsRequest (secret : List ℕ) (threshold count : ℕ) (passphrase : List ℕ) (exponent : ℕ)
    : Type 0 where
  pub bytes : All IsByte secret
  pub long : 16 ≤ length secret
  pub even : length secret % 2 ≡ 0
  pub printable : any (λ c. not (leb 32 c && leb c 126)) passphrase ≡ false
  pub positive : 0 < threshold
  pub within : threshold ≤ count
  pub few : count ≤ 16
  pub not_many_of_one : (threshold == 1 && ltb 1 count) ≡ false
  pub exponent_fits : exponent < 16

abbrev pub card_of : OneGroup → RawShare → List ℕ
card_of g r = share_indices (share_of g r)

-- A share with fields in their ranges is read back from its card.
module _ (g : OneGroup) (identifier : g.identifier < 2 ^ 15) (exponent : g.iteration_exponent < 16)
    (positive : 1 ≤ g.member_threshold) (few : g.member_threshold ≤ 16) (size : ℕ)
    (even : size % 2 ≡ 0) (long : 16 ≤ size) where
  card-IsShare : (r : RawShare) → r.x < 16 → IsRawShare size r → IsShare (share_of g r)
  card-IsShare r low valid = record {
    identifier = identifier;
    iteration_exponent = exponent;
    group_index = omega arith;
    group_threshold = omega arith;
    groups = omega arith;
    group_count = omega arith;
    member_index = low;
    member_threshold = positive;
    members = few;
    even = ap (λ n. n % 2) valid.1.0 ∙ even;
    long = omega (arith, valid.1.0);
    bytes = valid.1.1;
  }

  pub cards-IsCard :
      (rs : List RawShare)
      → All (λ x. x < 16) (x_coordinates rs)
      → All (IsRawShare size) rs
      → All (IsCard g (card_of g)) rs
  cards-IsCard [] low valid = tt
  cards-IsCard (r ∷ rs) low valid = (
    from-share_indices (share_of g r) (card-IsShare r low.0 valid.0),
    cards-IsCard rs low.1 valid.1,
  )
