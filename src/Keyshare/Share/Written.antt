-- ===== src/Keyshare/Share/Written.antt =====
-- Parsing the words of a share gives the share back.
use mathlib.Core.Path.{subst}
use mathlib.Core.List.{append_assoc}
use native.Mathlib.Nat.{le_trans}
use lcsas.Prelude.{
  ℕ, ◌+◌, ◌*◌, ◌/◌, ◌%◌, ◌^◌, ◌<◌, ◌≡◌, refl, sym, ap, ap₂, ◌∙◌, true, List, ◌++◌, arith, length,
  ◌==◌, All-append, take, drop, length-append, take-append, drop-append,
}
use lcsas.Prelude.Result.{ok}
use lcsas.Prelude.Digits.{of_digits, IsDigits, of_digits-lt}
use lcsas.Keyshare.Radix.{bits_to_words, int_from_word_indices}
use lcsas.Keyshare.Rs1024.{rs1024_create_checksum, rs1024_verify_checksum}
use lcsas.Keyshare.Rs1024.Laws.{verify-create, length-create, create-IsDigits}
use lcsas.Keyshare.Share.{
  Share, customization_string, encode_id_exp, encode_share_params, encode_value, share_indices,
  from_indices,
}
use lcsas.Keyshare.Share.Fields.{
  IsShare, words-IsDigits, length-words, from-words, bytes-fit_words, parsed, id_exp_number,
  params_number, id_exp_number-lt, params_number-lt, parsed-numbers,
}
use lcsas.Keyshare.Share.Outcome.{
  customization-IsDigits, value_bytes, outcome, Passes, outcome-Passes, drop-drop,
  from_indices-eq-outcome, head_words, param_words, value_words, verified,
}

abbrev laid : List ℕ → List ℕ → List ℕ → List ℕ → List ℕ
laid a b v c = (a ++ (b ++ v)) ++ c

-- Four parts of these sizes are read back where they were put.
module _ (a b v c : List ℕ) (la : length a ≡ 2) (lb : length b ≡ 2) (lc : length c ≡ 3) where
  length-laid : length (laid a b v c) ≡ length v + 7
  length-laid = omega (
    arith,
    length-append (a ++ (b ++ v)) c,
    length-append a (b ++ v),
    length-append b v,
    la,
    lb,
    lc,
  )

  laid-eq : (laid a b v c) ≡ a ++ (b ++ (v ++ c))
  laid-eq = append_assoc a (b ++ v) c ∙ ap (λ t. a ++ t) (append_assoc b v c)

  head-laid : head_words (laid a b v c) ≡ a
  head-laid = ap (take 2) laid-eq ∙ take-append 2 a _ la

  rest-laid : drop 2 (laid a b v c) ≡ b ++ (v ++ c)
  rest-laid = ap (drop 2) laid-eq ∙ drop-append 2 a _ la

  params-laid : param_words (laid a b v c) ≡ b
  params-laid = ap (take 2) rest-laid ∙ take-append 2 b _ lb

  value-laid : value_words (laid a b v c) ≡ v
  value-laid =
      ap₂ take {y = length v} (omega (arith, length-laid))
        (drop-drop (laid a b v c) ∙ ap (drop 2) rest-laid ∙ drop-append 2 b _ lb)
      ∙ take-append (length v) v c refl

module _ (s : Share) (h : IsShare s) where
  abbrev words_count : ℕ
  words_count = bits_to_words (length s.value * 8)

  abbrev front : List ℕ
  front = encode_id_exp s ++ (encode_share_params s ++ encode_value s.value)

  abbrev check : List ℕ
  check = rs1024_create_checksum front (customization_string s.extendable)

  value_number-lt : of_digits 256 0 s.value < 1024 ^ words_count
  value_number-lt =
      le_trans (of_digits-lt 256 (omega arith) s.value h.bytes)
        (bytes-fit_words (length s.value) words_count (omega arith))

  header : int_from_word_indices (encode_id_exp s) ≡ id_exp_number s
  unfolding encode_id_exp
  header = from-words (id_exp_number s) 2 (id_exp_number-lt s h)

  params : int_from_word_indices (encode_share_params s) ≡ params_number s
  unfolding encode_share_params
  params = from-words (params_number s) 2 (params_number-lt s h)

  value : int_from_word_indices (encode_value s.value) ≡ of_digits 256 0 s.value
  unfolding encode_value
  value = from-words (of_digits 256 0 s.value) words_count value_number-lt

  length-id_exp : length (encode_id_exp s) ≡ 2
  unfolding encode_id_exp
  length-id_exp = length-words (id_exp_number s) 2

  length-share_params : length (encode_share_params s) ≡ 2
  unfolding encode_share_params
  length-share_params = length-words (params_number s) 2

  length-value : length (encode_value s.value) ≡ words_count
  unfolding encode_value
  length-value = length-words (of_digits 256 0 s.value) words_count

  front-IsDigits : IsDigits 1024 front
  unfolding encode_id_exp encode_share_params encode_value
  front-IsDigits = All-append _ (encode_id_exp s) _ (words-IsDigits (id_exp_number s) 2) (
      All-append _ (encode_share_params s) _ (words-IsDigits (params_number s) 2)
        (words-IsDigits (of_digits 256 0 s.value) words_count))

  pub share_indices-IsDigits : IsDigits 1024 (share_indices s)
  unfolding share_indices
  share_indices-IsDigits = All-append _ front check front-IsDigits (create-IsDigits front _)

  byte_count : value_bytes (words_count + 7) words_count ≡ length s.value
  byte_count = omega (arith, h.even)

  passes : Passes (words_count + 7) true (params_number s) words_count (of_digits 256 0 s.value)
  passes = record {
    long = omega (arith, h.long);
    padding = omega (arith, h.even);
    checked = refl;
    groups = omega (arith, h);
    fits =
        subst (λ n. of_digits 256 0 s.value < 256 ^ n) (sym byte_count)
          (of_digits-lt 256 (omega arith) s.value h.bytes);
  }

  abbrev written : List ℕ
  written = laid (encode_id_exp s) (encode_share_params s) (encode_value s.value) check

  length-check : length check ≡ 3
  length-check = length-create front (customization_string s.extendable)

  length-written : length written ≡ words_count + 7
  length-written =
      length-laid (encode_id_exp s) (encode_share_params s) (encode_value s.value) check
        length-id_exp length-share_params length-check
      ∙ ap (λ (n : ℕ). n + 7) length-value

  head-written : int_from_word_indices (head_words written) ≡ id_exp_number s
  head-written =
      ap int_from_word_indices (
        head-laid (encode_id_exp s) (encode_share_params s) (encode_value s.value) check
          length-id_exp length-share_params length-check)
      ∙ header

  params-written : int_from_word_indices (param_words written) ≡ params_number s
  params-written =
      ap int_from_word_indices (
        params-laid (encode_id_exp s) (encode_share_params s) (encode_value s.value) check
          length-id_exp length-share_params length-check)
      ∙ params

  value-written : value_words written ≡ encode_value s.value
  value-written =
      value-laid (encode_id_exp s) (encode_share_params s) (encode_value s.value) check
        length-id_exp length-share_params length-check

  verified-written : verified written ≡ true
  verified-written =
      ap (λ (n : ℕ). rs1024_verify_checksum written (customization_string (n / 2 ^ 4 % 2 == 1)))
        head-written
      ∙ ap (λ t. rs1024_verify_checksum written (customization_string t))
          (ap (λ t. t.extendable) (parsed-numbers s h))
      ∙ verify-create front (customization_string s.extendable) front-IsDigits
          (customization-IsDigits s.extendable)

  pub from-share_indices : from_indices (share_indices s) ≡ ok s
  unfolding share_indices
  from-share_indices =
      from_indices-eq-outcome written
      ∙ (λ i.
          outcome (length-written i) (verified-written i) (head-written i) (params-written i)
            ((ap length value-written ∙ length-value) i)
            ((ap int_from_word_indices value-written ∙ value) i))
      ∙ outcome-Passes (words_count + 7) true (id_exp_number s) (params_number s) words_count
          (of_digits 256 0 s.value) passes
      ∙ ap (λ (n : ℕ). ok (parsed (id_exp_number s) (params_number s) n (of_digits 256 0 s.value)))
          byte_count
      ∙ ap ok (parsed-numbers s h)
