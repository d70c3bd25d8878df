-- ===== src/Keyshare/Share/Outcome.antt =====
-- The parser of a mnemonic as a function of the numbers that it reads (`_Share.from_mnemonic`).
use mathlib.Core.List.{append_assoc}
use lcsas.Prelude.{
  ℕ, ◌-◌, ◌*◌, ◌/◌, ◌%◌, ◌^◌, ◌<◌, ◌≤◌, ◌≡◌, refl, sym, ap, ◌∙◌, Bool, true, false, not, List, [],
  ◌∷◌, ◌++◌, arith, length, ◌==◌, ltb, if◌then◌else◌, take, drop, take-append-drop,
}
use lcsas.Prelude.Result.{Result, ok, err, ok_inj}
use lcsas.Prelude.Digits.{IsDigits}
use lcsas.Keyshare.Errors.{
  KeyshareError, mnemonic_too_short, mnemonic_length, mnemonic_checksum, mnemonic_group_threshold,
  mnemonic_padding,
}
use lcsas.Keyshare.Radix.{bits_to_bytes, int_from_word_indices}
use lcsas.Keyshare.Rs1024.{rs1024_verify_checksum}
use lcsas.Keyshare.Share.{Share, customization_string, from_indices}
use lcsas.Keyshare.Share.Fields.{parsed}

pub customization-IsDigits : (b : Bool) → IsDigits 1024 (customization_string b)
customization-IsDigits true = omega arith
customization-IsDigits false = omega arith

-- The checks of the parser over the numbers that it reads: the count of words, whether the checksum
-- verifies, the two header numbers, the count of value words and their number.
abbrev pub value_bytes : ℕ → ℕ → ℕ
value_bytes len w = bits_to_bytes (10 * w - 10 * (len - 7) % 16)

abbrev pub outcome : ℕ → Bool → ℕ → ℕ → ℕ → ℕ → Result KeyshareError Share
outcome len verified x p w v =
    if ltb len 20
    then err mnemonic_too_short
    else if ltb 8 (10 * (len - 7) % 16)
    then err mnemonic_length
    else if not verified
    then err mnemonic_checksum
    else if ltb (p / 2 ^ 8 % 16) (p / 2 ^ 12 % 16)
    then err mnemonic_group_threshold
    else if not (ltb v (256 ^ value_bytes len w))
    then err mnemonic_padding
    else ok (parsed x p (value_bytes len w) v)

pub record Passes (len : ℕ) (verified : Bool) (p w v : ℕ) : Type 0 where
  pub long : 20 ≤ len
  pub padding : 10 * (len - 7) % 16 ≤ 8
  pub checked : verified ≡ true
  pub groups : p / 2 ^ 12 % 16 ≤ p / 2 ^ 8 % 16
  pub fits : v < 256 ^ value_bytes len w

pub outcome-Passes :
    (len : ℕ) (verified : Bool) (x p w v : ℕ)
    → Passes len verified p w v
    → outcome len verified x p w v ≡ ok (parsed x p (value_bytes len w) v)
outcome-Passes len verified x p w v h = ground arith

pub Passes-outcome :
    (len : ℕ) (verified : Bool) (x p w v : ℕ) {s : Share}
    → outcome len verified x p w v ≡ ok s
    → Passes len verified p w v × (parsed x p (value_bytes len w) v ≡ s)
Passes-outcome len verified x p w v h =
    (passes, ok_inj (sym (outcome-Passes len verified x p w v passes) ∙ h))
  where
    passes : Passes len verified p w v
    passes = ground arith

pub drop-drop : (words : List ℕ) → drop 4 words ≡ drop 2 (drop 2 words)
drop-drop [] = refl
drop-drop (a ∷ []) = refl
drop-drop (a ∷ b ∷ rest) = refl

module _ (words : List ℕ) where
  abbrev pub head_words : List ℕ
  head_words = take 2 words

  abbrev pub param_words : List ℕ
  param_words = take 2 (drop 2 words)

  abbrev pub value_words : List ℕ
  value_words = take (length words - 3 - 4) (drop 4 words)

  abbrev pub check_words : List ℕ
  check_words = drop (length words - 3 - 4) (drop 4 words)

  abbrev pub verified : Bool
  verified =
      rs1024_verify_checksum words
        (customization_string (int_from_word_indices head_words / 2 ^ 4 % 2 == 1))

  pub from_indices-eq-outcome :
      from_indices words
      ≡ outcome
          (length words)
          verified
          (int_from_word_indices head_words)
          (int_from_word_indices param_words)
          (length value_words)
          (int_from_word_indices value_words)
  unfolding from_indices
  from_indices-eq-outcome = refl

  -- The four parts of a list of words that is long enough.
  pub parts-eq : (head_words ++ (param_words ++ value_words)) ++ check_words ≡ words
  parts-eq =
      append_assoc head_words (param_words ++ value_words) check_words
      ∙ ap (λ t. head_words ++ t)
          (append_assoc param_words value_words check_words
            ∙ ap (λ t. param_words ++ t)
                (take-append-drop (length words - 3 - 4) (drop 4 words) ∙ drop-drop words)
            ∙ take-append-drop 2 (drop 2 words))
      ∙ take-append-drop 2 words
