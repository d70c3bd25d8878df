-- ===== src/Keyshare/Share/Fields.antt =====
-- The fields of a share and the words that hold them.
use mathlib.Core.Path.{subst}
use native.Mathlib.Nat.{mod-eq_of_lt, pow-le-pow_right}
use lcsas.Prelude.{
  ℕ, ◌+◌, ◌-◌, ◌*◌, ◌/◌, ◌%◌, ◌^◌, ◌<◌, ◌≤◌, ◌≡◌, sym, ap, ◌∙◌, Bool, true, false, List, arith,
  length, ◌==◌,
}
use lcsas.Prelude.Digits.{
  to_digits, of_digits, IsDigits, of_digits-to_digits, to_digits-of_digits, to_digits-IsDigits,
  length-to_digits, of_digits-lt,
}
use lcsas.Keyshare.Radix.{
  int_to_word_indices, int_from_word_indices, int_to_word_indices-eq-to_digits, two-pow-mul,
}
use lcsas.Keyshare.Share.{Share, int_of_bool}

-- The ranges of a share's fields.
pub record IsShare (s : Share) : Type 0 where
  pub identifier : s.identifier < 2 ^ 15
  pub iteration_exponent : s.iteration_exponent < 16
  pub group_index : s.group_index < 16
  pub group_threshold : 1 ≤ s.group_threshold
  pub groups : s.group_threshold ≤ s.group_count
  pub group_count : s.group_count ≤ 16
  pub member_index : s.member_index < 16
  pub member_threshold : 1 ≤ s.member_threshold
  pub members : s.member_threshold ≤ 16
  pub even : length s.value % 2 ≡ 0
  pub long : 16 ≤ length s.value
  pub bytes : IsDigits 256 s.value

-- Word indices and the number that they stand for.
module _ (value n : ℕ) where
  pub words-IsDigits : IsDigits 1024 (int_to_word_indices value n)
  words-IsDigits =
      subst (IsDigits 1024) (sym (int_to_word_indices-eq-to_digits value n))
        (to_digits-IsDigits 1024 (omega arith) n value)

  pub length-words : length (int_to_word_indices value n) ≡ n
  length-words =
      ap length (int_to_word_indices-eq-to_digits value n) ∙ length-to_digits 1024 n value

  pub from-words : value < 1024 ^ n → int_from_word_indices (int_to_word_indices value n) ≡ value
  from-words h =
      ap (of_digits 1024 0) (int_to_word_indices-eq-to_digits value n)
      ∙ of_digits-to_digits 1024 (omega arith) n value
      ∙ mod-eq_of_lt h

pub words-from :
    (n : ℕ) (ws : List ℕ)
    → IsDigits 1024 ws
    → length ws ≡ n
    → int_to_word_indices (int_from_word_indices ws) n ≡ ws
words-from n ws h e =
    int_to_word_indices-eq-to_digits _ n
    ∙ ap (λ (k : ℕ). to_digits 1024 k (of_digits 1024 0 ws)) (sym e)
    ∙ to_digits-of_digits 1024 (omega arith) ws h

pub from_words-lt : (ws : List ℕ) → IsDigits 1024 ws → int_from_word_indices ws < 1024 ^ length ws
from_words-lt ws h = of_digits-lt 1024 (omega arith) ws h

-- A number of so many bytes fits the words that hold as many bits.
pub bytes-fit_words : (n w : ℕ) → n * 8 ≤ w * 10 → 256 ^ n ≤ 1024 ^ w
bytes-fit_words n w h =
    subst (λ t. t ≤ 1024 ^ w) (two-pow-mul 8 n)
      (subst (λ t. 2 ^ (n * 8) ≤ t) (two-pow-mul 10 w) (pow-le-pow_right (omega arith) h))

-- The share that four numbers stand for: the two header words as one number, the two parameter
-- words, and the value as a number of `n` bytes.
abbrev pub parsed : ℕ → ℕ → ℕ → ℕ → Share
parsed x p n v = record {
  identifier = x / 2 ^ 5;
  extendable = x / 2 ^ 4 % 2 == 1;
  iteration_exponent = x % 2 ^ 4;
  group_index = p / 2 ^ 16 % 16;
  group_threshold = p / 2 ^ 12 % 16 + 1;
  group_count = p / 2 ^ 8 % 16 + 1;
  member_index = p / 2 ^ 4 % 16;
  member_threshold = p % 16 + 1;
  value = to_digits 256 n v;
}

int_of_bool-lt : (b : Bool) → int_of_bool b < 2
int_of_bool-lt true = omega arith
int_of_bool-lt false = omega arith

flag : (x : ℕ) (b : Bool) → x / 16 % 2 ≡ int_of_bool b → (x / 16 % 2 == 1) ≡ b
flag x true e = ground arith
flag x false e = ground arith

abbrev pub id_exp_number : Share → ℕ
id_exp_number s = s.identifier * 2 ^ 5 + int_of_bool s.extendable * 2 ^ 4 + s.iteration_exponent

abbrev pub params_number : Share → ℕ
params_number s =
    (((s.group_index * 2 ^ 4 + (s.group_threshold - 1)) * 2 ^ 4 + (s.group_count - 1)) * 2 ^ 4
        + s.member_index)
      * 2 ^ 4
    + (s.member_threshold - 1)

module _ (s : Share) (h : IsShare s) where
  pub id_exp_number-lt : (id_exp_number s) < 1024 ^ 2
  id_exp_number-lt = omega (arith, h, int_of_bool-lt s.extendable)

  pub params_number-lt : (params_number s) < 1024 ^ 2
  params_number-lt = omega (arith, h)

  pub parsed-numbers :
      parsed (id_exp_number s) (params_number s) (length s.value) (of_digits 256 0 s.value) ≡ s
  parsed-numbers = λ i. record {
    identifier = f0 i;
    extendable = f1 i;
    iteration_exponent = f2 i;
    group_index = f3 i;
    group_threshold = f4 i;
    group_count = f5 i;
    member_index = f6 i;
    member_threshold = f7 i;
    value = to_digits-of_digits 256 (omega arith) s.value h.bytes i;
  }
    where
      small : int_of_bool s.extendable < 2
      small = int_of_bool-lt s.extendable

      f0 : (id_exp_number s) / 2 ^ 5 ≡ s.identifier
      f0 = omega (arith, h, small)

      f1 : ((id_exp_number s) / 2 ^ 4 % 2 == 1) ≡ s.extendable
      f1 = flag (id_exp_number s) s.extendable (omega (arith, h, small))

      f2 : (id_exp_number s) % 2 ^ 4 ≡ s.iteration_exponent
      f2 = omega (arith, h, small)

      f3 : (params_number s) / 2 ^ 16 % 16 ≡ s.group_index
      f3 = omega (arith, h)

      f4 : (params_number s) / 2 ^ 12 % 16 + 1 ≡ s.group_threshold
      f4 = omega (arith, h)

      f5 : (params_number s) / 2 ^ 8 % 16 + 1 ≡ s.group_count
      f5 = omega (arith, h)

      f6 : (params_number s) / 2 ^ 4 % 16 ≡ s.member_index
      f6 = omega (arith, h)

      f7 : (params_number s) % 16 + 1 ≡ s.member_threshold
      f7 = omega (arith, h)

bit_number : (y : ℕ) → int_of_bool (y % 2 == 1) ≡ y % 2
bit_number y = ground arith

-- The numbers of a parsed share are those that it was parsed from.
module _ (x p : ℕ) where
  pub id_exp_number-parsed :
      x / 2 ^ 5 * 2 ^ 5 + int_of_bool (x / 2 ^ 4 % 2 == 1) * 2 ^ 4 + x % 2 ^ 4 ≡ x
  id_exp_number-parsed = omega (arith, bit_number (x / 2 ^ 4))

  pub params_number-parsed :
      p < 1024 ^ 2
      → (((p / 2 ^ 16 % 16 * 2 ^ 4 + (p / 2 ^ 12 % 16 + 1 - 1)) * 2 ^ 4 + (p / 2 ^ 8 % 16 + 1 - 1))
                * 2 ^ 4
              + p / 2 ^ 4 % 16)
            * 2 ^ 4
          + (p % 16 + 1 - 1)
        ≡ p
  params_number-parsed h = omega arith
