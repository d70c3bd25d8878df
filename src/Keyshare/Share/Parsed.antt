-- ===== src/Keyshare/Share/Parsed.antt =====
-- Writing out a share that was parsed gives the words back.
use mathlib.Core.Path.{subst}
use native.Mathlib.Nat.{mod-eq_of_lt}
use lcsas.Prelude.{
  ℕ, ◌+◌, ◌-◌, ◌*◌, ◌^◌, ◌<◌, ◌≤◌, ◌≡◌, refl, sym, ap, ap₂, ◌∙◌, List, ◌++◌, arith, length,
  All-append, All-take, All-drop, drop, length-take, length-drop,
}
use lcsas.Prelude.Digits.{IsDigits, of_digits-to_digits, to_digits-IsDigits, length-to_digits}
use lcsas.Keyshare.Radix.{bits_to_words, int_to_word_indices, int_from_word_indices}
use lcsas.Keyshare.Rs1024.{rs1024_create_checksum, rs1024_verify_checksum}
use lcsas.Keyshare.Rs1024.Laws.{verify-append_iff}
use lcsas.Keyshare.Share.{
  Share, customization_string, encode_id_exp, encode_share_params, encode_value, share_indices,
}
use lcsas.Keyshare.Share.Fields.{
  IsShare, words-from, from_words-lt, parsed, id_exp_number-parsed, params_number-parsed,
}
use lcsas.Keyshare.Share.Outcome.{
  customization-IsDigits, value_bytes, Passes, parts-eq, head_words, param_words, value_words,
  check_words, verified,
}

-- Writing out a parsed share: the words in front of the checksum.
module _ (words : List ℕ) (digits : IsDigits 1024 words) (long : 20 ≤ length words) where
  abbrev pub x : ℕ
  x = int_from_word_indices (head_words words)

  abbrev pub p : ℕ
  p = int_from_word_indices (param_words words)

  abbrev pub w : ℕ
  w = length (value_words words)

  abbrev pub v : ℕ
  v = int_from_word_indices (value_words words)

  length-head : length (head_words words) ≡ 2
  length-head = omega (arith, length-take 2 words)

  length-params : length (param_words words) ≡ 2
  length-params = omega (arith, length-take 2 (drop 2 words), length-drop 2 words)

  length-value : w + 7 ≡ length words
  length-value =
      omega (arith, length-take (length words - 3 - 4) (drop 4 words), length-drop 4 words)

  length-check : length (check_words words) ≡ 3
  length-check =
      omega (arith, length-drop (length words - 3 - 4) (drop 4 words), length-drop 4 words)

  head-IsDigits : IsDigits 1024 (head_words words)
  head-IsDigits = All-take _ 2 words digits

  params-IsDigits : IsDigits 1024 (param_words words)
  params-IsDigits = All-take _ 2 (drop 2 words) (All-drop _ 2 words digits)

  value-IsDigits : IsDigits 1024 (value_words words)
  value-IsDigits = All-take _ (length words - 3 - 4) (drop 4 words) (All-drop _ 4 words digits)

  check-IsDigits : IsDigits 1024 (check_words words)
  check-IsDigits = All-drop _ (length words - 3 - 4) (drop 4 words) (All-drop _ 4 words digits)

  x-lt : x < 1024 ^ 2
  x-lt = subst (λ n. x < 1024 ^ n) length-head (from_words-lt (head_words words) head-IsDigits)

  p-lt : p < 1024 ^ 2
  p-lt = subst (λ n. p < 1024 ^ n) length-params (from_words-lt (param_words words) params-IsDigits)

  abbrev pub share : Share
  share = parsed x p (value_bytes (length words) w) v

  encode-head : encode_id_exp share ≡ head_words words
  unfolding encode_id_exp
  encode-head =
      ap (λ (n : ℕ). int_to_word_indices n 2) (id_exp_number-parsed x p)
      ∙ words-from 2 (head_words words) head-IsDigits length-head

  encode-params : encode_share_params share ≡ param_words words
  unfolding encode_share_params
  encode-params =
      ap (λ (n : ℕ). int_to_word_indices n 2) (params_number-parsed x p p-lt)
      ∙ words-from 2 (param_words words) params-IsDigits length-params

  module _ (passes : Passes (length words) (verified words) p w v) where
    encode-value : encode_value share.value ≡ value_words words
    unfolding encode_value
    encode-value =
        ap₂ int_to_word_indices
          (of_digits-to_digits 256 (omega arith) (value_bytes (length words) w) v
            ∙ mod-eq_of_lt passes.fits)
          (ap (λ (n : ℕ). bits_to_words (n * 8))
              (length-to_digits 256 (value_bytes (length words) w) v)
            ∙ omega (arith, length-value, passes.padding))
        ∙ words-from w (value_words words) value-IsDigits refl

    pub share-IsShare : IsShare share
    share-IsShare = record {
      identifier = omega (arith, x-lt);
      iteration_exponent = omega arith;
      group_index = omega arith;
      group_threshold = omega arith;
      groups = omega (arith, passes.groups);
      group_count = omega arith;
      member_index = omega arith;
      member_threshold = omega arith;
      members = omega arith;
      even = omega (
        arith,
        length-to_digits 256 (value_bytes (length words) w) v,
        length-value,
        passes.padding,
      );
      long = omega (
        arith,
        length-to_digits 256 (value_bytes (length words) w) v,
        length-value,
        passes.padding,
      );
      bytes = to_digits-IsDigits 256 (omega arith) (value_bytes (length words) w) v;
    }

    front-eq :
        encode_id_exp share ++ (encode_share_params share ++ encode_value share.value)
        ≡ head_words words ++ (param_words words ++ value_words words)
    front-eq = ap₂ ◌++◌ encode-head (ap₂ ◌++◌ encode-params encode-value)

    check-eq :
        check_words words
        ≡ rs1024_create_checksum
            (head_words words ++ (param_words words ++ value_words words))
            (customization_string share.extendable)
    check-eq =
        (verify-append_iff _ (customization_string share.extendable) (check_words words)
            (All-append _ (head_words words) _ head-IsDigits
              (All-append _ (param_words words) _ params-IsDigits value-IsDigits))
            (customization-IsDigits share.extendable) check-IsDigits length-check).0
          (ap (λ t. rs1024_verify_checksum t (customization_string share.extendable))
              (parts-eq words)
            ∙ passes.checked)

    pub indices-parsed : share_indices share ≡ words
    unfolding share_indices
    indices-parsed =
        ap (λ t. t ++ rs1024_create_checksum t (customization_string share.extendable)) front-eq
        ∙ ap (λ t. (head_words words ++ (param_words words ++ value_words words)) ++ t)
            (sym check-eq)
        ∙ parts-eq words
