-- ===== src/Keyshare/Share/Tests.antt =====
-- One share of the SLIP-0039 layout, written and read.
use lcsas.Prelude.{
  ℕ, ◌≡◌, refl, ◌↔◌, ◌≢◌, ap, get_or, ◌++◌, true, List, [], ◌∷◌, false, arith, replicate,
}
use lcsas.Prelude.Result.{ok, err}
use lcsas.Prelude.Digits.{to_digits, of_digits}
use lcsas.Keyshare.Errors.{mnemonic_too_short, mnemonic_checksum}
use lcsas.Keyshare.Radix.{int_to_word_indices}
use lcsas.Keyshare.Rs1024.{
  rs1024_feed, rs1024_step, rs1024_from, rs1024_polymod, rs1024_create_checksum,
  rs1024_verify_checksum,
}
use lcsas.Keyshare.Share.{
  Share, customization_string, share_indices, from_indices, encode_id_exp, encode_share_params,
  encode_value,
}
use lcsas.Keyshare.Share.Fields.{IsShare}
use lcsas.Keyshare.Share.Laws.{from_indices_iff}
use lcsas.Keyshare.Share.Bursts.{extendable_bit, from_indices_burst}

abbrev card : Share
card = record {
  identifier = 7945;
  extendable = false;
  iteration_exponent = 0;
  group_index = 0;
  group_threshold = 1;
  group_count = 1;
  member_index = 2;
  member_threshold = 2;
  value = 187 ∷ 84 ∷ 170 ∷ 196 ∷ replicate 12 77;
}

abbrev card_words : List ℕ
card_words =
    248 ∷ 288 ∷ 0 ∷ 33 ∷ 187 ∷ 338 ∷ 684 ∷ 275 ∷ 333 ∷ 309 ∷ 212 ∷ 851 ∷ 333 ∷ 309 ∷ 212 ∷ 851 ∷ 333
    ∷ 706 ∷ 557 ∷ 723 ∷ []

from_indices_iff_example :
    (from_indices card_words ≡ ok card) ↔ (IsShare card × (share_indices card ≡ card_words))
from_indices_iff_example = from_indices_iff card_words card (omega arith)

card-words : share_indices card ≡ card_words
unfolding share_indices encode_id_exp encode_share_params encode_value rs1024_create_checksum
    rs1024_polymod rs1024_from rs1024_step rs1024_feed int_to_word_indices of_digits
card-words = refl

parse-card : from_indices card_words ≡ ok card
unfolding from_indices rs1024_verify_checksum rs1024_polymod rs1024_from rs1024_step rs1024_feed
    of_digits to_digits
parse-card = refl

parse_short : from_indices (248 ∷ 288 ∷ []) ≡ err mnemonic_too_short
unfolding from_indices
parse_short = refl

abbrev front : List ℕ
front = 248 ∷ 288 ∷ 0 ∷ 33 ∷ 187 ∷ 338 ∷ []

abbrev back : List ℕ
back = 309 ∷ 212 ∷ 851 ∷ 333 ∷ 309 ∷ 212 ∷ 851 ∷ 333 ∷ 706 ∷ 557 ∷ 723 ∷ []

abbrev window : List ℕ
window = 684 ∷ 275 ∷ 333 ∷ []

-- The first two words of the window swapped.
abbrev swapped : List ℕ
swapped = 275 ∷ 684 ∷ 333 ∷ []

differ : window ≢ swapped
differ e = let h : ◌≡◌ {A = ℕ} 684 275 = ap (λ l. get_or l 0 0) e in omega arith

from_indices_burst_example : from_indices (front ++ (swapped ++ back)) ≡ err mnemonic_checksum
from_indices_burst_example =
    from_indices_burst front window swapped back card (omega arith) (omega arith) (omega arith) refl
      refl differ refl parse-card

-- The extendable bit is one of the bits read: three words that flip it verify in place of the first
-- three of the card.
flipped :
    rs1024_verify_checksum
      (912 ∷ 432 ∷ 215 ∷ 33 ∷ 187 ∷ 338 ∷ (window ++ back))
      (customization_string (extendable_bit (912 ∷ 432 ∷ 215 ∷ [])))
    ≡ true
unfolding rs1024_verify_checksum rs1024_polymod rs1024_from rs1024_step rs1024_feed of_digits
flipped = refl
