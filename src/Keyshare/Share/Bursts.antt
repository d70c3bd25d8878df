-- ===== src/Keyshare/Share/Bursts.antt =====
-- Damage to a mnemonic that `_Share.from_mnemonic` does not take for a share.
use lcsas.Prelude.{
  ℕ, ◌-◌, ◌*◌, ◌/◌, ◌%◌, ◌^◌, ◌≤◌, ◌≡◌, ◌≢◌, sym, ap, ◌∙◌, Bool, false, List, ◌++◌, arith, length,
  length-append, take, ◌==◌, All-append,
}
use lcsas.Prelude.Result.{ok, err}
use lcsas.Prelude.Digits.{IsDigits}
use lcsas.Keyshare.Errors.{mnemonic_checksum}
use lcsas.Keyshare.Radix.{int_from_word_indices}
use lcsas.Keyshare.Rs1024.{rs1024_verify_checksum}
use lcsas.Keyshare.Rs1024.Bursts.{burst_detected}
use lcsas.Keyshare.Share.{Share, customization_string, from_indices}
use lcsas.Keyshare.Share.Outcome.{
  customization-IsDigits, outcome, Passes-outcome, from_indices-eq-outcome, head_words, param_words,
  value_words, verified,
}

-- The extendable bit, the fifth from the right of the second word. It chooses the customization.
abbrev pub extendable_bit : List ℕ → Bool
extendable_bit words = int_from_word_indices (take 2 words) / 2 ^ 4 % 2 == 1

outcome-checksum :
    (len : ℕ) (verified : Bool) (x p w v : ℕ)
    → 20 ≤ len
    → 10 * (len - 7) % 16 ≤ 8
    → verified ≡ false
    → outcome len verified x p w v ≡ err mnemonic_checksum
outcome-checksum len verified x p w v long padding wrong = ground arith

same_length :
    (front xs ys back : List ℕ)
    → length xs ≡ length ys
    → length (front ++ (ys ++ back)) ≡ length (front ++ (xs ++ back))
same_length front xs ys back e = omega (
  arith,
  length-append front (ys ++ back),
  length-append front (xs ++ back),
  length-append ys back,
  length-append xs back,
)

-- Where a list of words below 1024 parses as a share, and other three words below 1024 stand in the
-- place of three consecutive ones of it, with the extendable bit read from the words unchanged, the
-- parser raises the error of the checksum.
pub from_indices_burst :
    (front xs ys back : List ℕ) (s : Share)
    → IsDigits 1024 (front ++ back)
    → IsDigits 1024 xs
    → IsDigits 1024 ys
    → length xs ≡ 3
    → length ys ≡ 3
    → xs ≢ ys
    → extendable_bit (front ++ (ys ++ back)) ≡ extendable_bit (front ++ (xs ++ back))
    → from_indices (front ++ (xs ++ back)) ≡ ok s
    → from_indices (front ++ (ys ++ back)) ≡ err mnemonic_checksum
from_indices_burst front xs ys back s words hx hy m n differ same e =
    let good : List ℕ = front ++ (xs ++ back) in
    let bad : List ℕ = front ++ (ys ++ back) in
    let (passes, parsed) =
      Passes-outcome (length good) (verified good) (int_from_word_indices (head_words good))
        (int_from_word_indices (param_words good)) (length (value_words good))
        (int_from_word_indices (value_words good)) (sym (from_indices-eq-outcome good) ∙ e) in
    let len = same_length front xs ys back (m ∙ sym n) in
    let fails : verified bad ≡ false =
      ap (λ b. rs1024_verify_checksum bad (customization_string b)) same
      ∙ burst_detected (customization_string (extendable_bit good)) front xs ys back
          (All-append _ _ (front ++ back) (customization-IsDigits (extendable_bit good)) words) hx
          hy m n differ passes.checked in
    from_indices-eq-outcome bad
    ∙ outcome-checksum (length bad) (verified bad) (int_from_word_indices (head_words bad))
        (int_from_word_indices (param_words bad)) (length (value_words bad))
        (int_from_word_indices (value_words bad)) (omega (arith, len, passes.long))
        (omega (arith, len, passes.padding)) fails
