-- ===== src/Keyshare/Radix.antt =====
-- src/lcsas/keyshare/slip39.py, "Word <-> integer conversion" and the sizes of a mnemonic.
use native.Mathlib.Nat.{pow-zero, pow-suc, zero-mul, suc-mul, add-zero, add-suc, mul_assoc}
use lcsas.Prelude.{
  ℕ, zero, suc, ◌+◌, ◌-◌, ◌*◌, ◌/◌, ◌%◌, ◌^◌, ◌≡◌, refl, sym, ap, ap₂, ◌∙◌, List, [], ◌∷◌, arith,
}
use lcsas.Prelude.Digits.{to_digits, of_digits}

abbrev pub radix_bits : ℕ
radix_bits = 10

abbrev pub radix : ℕ
radix = 1024

abbrev pub bits_to_bytes : ℕ → ℕ
bits_to_bytes n = (n + 7) / 8

abbrev pub bits_to_words : ℕ → ℕ
bits_to_words n = (n + radix_bits - 1) / radix_bits

-- `(value >> (i * RADIX_BITS)) & mask` for `i` from `length - 1` down to 0
unfoldable pub int_to_word_indices : ℕ → ℕ → List ℕ
int_to_word_indices value zero = []
int_to_word_indices value (suc i) =
    (value / 2 ^ (i * radix_bits) % radix) ∷ int_to_word_indices value i

abbrev pub int_from_word_indices : List ℕ → ℕ
int_from_word_indices = of_digits radix 0

two-pow-add : (n k : ℕ) → 2 ^ (n + k) ≡ 2 ^ n * 2 ^ k
two-pow-add n zero = rw (add-zero n) (omega arith)
two-pow-add n (suc k) =
    rw (add-suc n k, pow-suc 2 (n + k), two-pow-add n k, pow-suc 2 k) (mul_assoc (2 ^ n) (2 ^ k) 2)

pub two-pow-mul : (k i : ℕ) → 2 ^ (i * k) ≡ (2 ^ k) ^ i
two-pow-mul k zero = rw zero-mul (omega (arith, pow-zero (2 ^ k)))
two-pow-mul k (suc i) =
    ap (λ (n : ℕ). 2 ^ n) (suc-mul i k)
    ∙ two-pow-add (i * k) k
    ∙ ap (λ (t : ℕ). t * 2 ^ k) (two-pow-mul k i)
    ∙ sym (pow-suc (2 ^ k) i)

pub int_to_word_indices-eq-to_digits :
    (value n : ℕ) → int_to_word_indices value n ≡ to_digits 1024 n value
unfolding int_to_word_indices to_digits
int_to_word_indices-eq-to_digits value zero = refl
int_to_word_indices-eq-to_digits value (suc i) =
    ap₂ ◌∷◌ (ap (λ (t : ℕ). value / t % 1024) (two-pow-mul 10 i))
      (int_to_word_indices-eq-to_digits value i)
