-- ===== src/Keyshare/Rs1024/Laws.antt =====
-- What the last three words do to the state, and so what the checksum is.
use native.Mathlib.Nat.{mod-eq_of_lt}
use lcsas.Prelude.{
  ℕ, ◌+◌, ◌*◌, ◌^◌, ◌<◌, ◌≡◌, refl, sym, ap, ap₂, ◌∙◌, ◌↔◌, true, List, [], ◌∷◌, ◌++◌, bit_xor,
  arith, length, ◌==◌, ==_iff, All-append,
}
use mathlib.Core.Path.{subst}
use mathlib.Core.List.{append_assoc}
use lcsas.Prelude.Bits.{
  bit_xor_fields, bit_xor_assoc, bit_xor-lt, bit_xor-zero, bit_xor_cancel_left,
}
use lcsas.Prelude.Digits.{
  to_digits, of_digits, IsDigits, of_digits-to_digits, to_digits-of_digits, to_digits-IsDigits,
  length-to_digits,
}
use lcsas.Keyshare.Radix.{int_to_word_indices, int_to_word_indices-eq-to_digits}
use lcsas.Keyshare.Rs1024.{
  rs1024_step, rs1024_from, rs1024_polymod, rs1024_create_checksum, rs1024_verify_checksum,
}
use lcsas.Keyshare.Rs1024.State.{advance, rs1024_step-eq-advance, advance-bit_xor, rs1024_step-lt}

pub rs1024_from-append :
    (chk : ℕ) (xs ys : List ℕ) → rs1024_from chk (xs ++ ys) ≡ rs1024_from (rs1024_from chk xs) ys
unfolding rs1024_from
rs1024_from-append chk [] ys = refl
rs1024_from-append chk (x ∷ xs) ys = rs1024_from-append (rs1024_step chk x) xs ys

pub rs1024_from-lt :
    (chk : ℕ) (xs : List ℕ) → chk < 2 ^ 30 → IsDigits 1024 xs → rs1024_from chk xs < 2 ^ 30
unfolding rs1024_from
rs1024_from-lt chk [] h k = h
rs1024_from-lt chk (x ∷ xs) h k =
    rs1024_from-lt (rs1024_step chk x) xs (rs1024_step-lt chk x k.0) k.1

-- Three words as one 30-bit number.
abbrev pub three : ℕ → ℕ → ℕ → List ℕ
three c2 c1 c0 = c2 ∷ c1 ∷ c0 ∷ []

abbrev pub triple : ℕ → ℕ → ℕ → ℕ
triple c2 c1 c0 = of_digits 1024 0 (three c2 c1 c0)

module _ (c2 c1 c0 : ℕ) (h : IsDigits 1024 (three c2 c1 c0)) where
  fields : bit_xor (bit_xor (c2 * 2 ^ 10) c1 * 2 ^ 10) c0 ≡ triple c2 c1 c0
  unfolding of_digits
  fields =
      rw
        (
          bit_xor_fields 10 c2 c1 (omega (arith, h)),
          bit_xor_fields 10 (c2 * 2 ^ 10 + c1) c0 (omega (arith, h)),
        )
        (omega arith)

  -- The last three words are not mixed with anything: they end in the state as they are.
  pub rs1024_from-three :
      (s : ℕ)
      → rs1024_from s (three c2 c1 c0) ≡ bit_xor (rs1024_from s (three 0 0 0)) (triple c2 c1 c0)
  unfolding rs1024_from
  rs1024_from-three s =
      ap (λ (t : ℕ). rs1024_step t c0) middle
      ∙ rs1024_step-eq-advance (bit_xor b upper) c0
      ∙ ap (λ (t : ℕ). bit_xor t c0) (advance-bit_xor b upper upper-lt)
      ∙ bit_xor_assoc (advance b) (upper * 2 ^ 10) c0
      ∙ ap₂ bit_xor (sym zeros) fields
    where
      b : ℕ
      b = advance (advance s)

      upper : ℕ
      upper = bit_xor (c2 * 2 ^ 10) c1

      upper-lt : upper < 2 ^ 20
      upper-lt = bit_xor-lt 20 (c2 * 2 ^ 10) c1 (omega (arith, h)) (omega (arith, h))

      middle : rs1024_step (rs1024_step s c2) c1 ≡ bit_xor b upper
      middle =
          rs1024_step-eq-advance (rs1024_step s c2) c1
          ∙ ap (λ (t : ℕ). bit_xor (advance t) c1) (rs1024_step-eq-advance s c2)
          ∙ ap (λ (t : ℕ). bit_xor t c1) (advance-bit_xor (advance s) c2 (omega (arith, h)))
          ∙ bit_xor_assoc b (c2 * 2 ^ 10) c1

      zero_step : (t : ℕ) → rs1024_step t 0 ≡ advance t
      zero_step t = rs1024_step-eq-advance t 0 ∙ bit_xor-zero (advance t)

      zeros : rs1024_step (rs1024_step (rs1024_step s 0) 0) 0 ≡ advance b
      zeros = rw (zero_step s, zero_step (advance s), zero_step b)

module _ (values customization : List ℕ) (hv : IsDigits 1024 values)
    (hc : IsDigits 1024 customization) where
  -- The state before the checksum.
  abbrev before : ℕ
  before = rs1024_polymod (customization ++ values)

  -- What the checksum is computed from.
  abbrev remainder : ℕ
  remainder = rs1024_from before (three 0 0 0)

  before-lt : before < 2 ^ 30
  unfolding rs1024_polymod
  before-lt =
      rs1024_from-lt 1 (customization ++ values) (omega arith)
        (All-append _ customization values hc hv)

  remainder-lt : remainder < 2 ^ 30
  remainder-lt = rs1024_from-lt before (three 0 0 0) before-lt (omega arith)

  polymod-append :
      (cs : List ℕ) → rs1024_polymod (customization ++ (values ++ cs)) ≡ rs1024_from before cs
  unfolding rs1024_polymod
  polymod-append cs =
      ap (rs1024_from 1) (sym (append_assoc customization values cs))
      ∙ rs1024_from-append 1 (customization ++ values) cs

  abbrev check_value : ℕ
  check_value = bit_xor remainder 1

  check_value-lt : check_value < 2 ^ 30
  check_value-lt = bit_xor-lt 30 remainder 1 remainder-lt (omega arith)

  create-eq-to_digits : rs1024_create_checksum values customization ≡ to_digits 1024 3 check_value
  unfolding rs1024_create_checksum
  create-eq-to_digits =
      ap (λ (t : ℕ). int_to_word_indices (bit_xor t 1) 3)
        (ap rs1024_polymod (append_assoc customization values (three 0 0 0))
          ∙ polymod-append (three 0 0 0))
      ∙ int_to_word_indices-eq-to_digits check_value 3

  triple-create :
      (c2 c1 c0 : ℕ) → three c2 c1 c0 ≡ to_digits 1024 3 check_value → triple c2 c1 c0 ≡ check_value
  triple-create c2 c1 c0 e =
      ap (of_digits 1024 0) e
      ∙ of_digits-to_digits 1024 (omega arith) 3 check_value
      ∙ mod-eq_of_lt check_value-lt

  -- Three words pass exactly if they are the checksum.
  verify-three_iff :
      (c2 c1 c0 : ℕ)
      → IsDigits 1024 (three c2 c1 c0)
      → (rs1024_verify_checksum (values ++ three c2 c1 c0) customization ≡ true)
        ↔ (three c2 c1 c0 ≡ rs1024_create_checksum values customization)
  unfolding rs1024_verify_checksum
  verify-three_iff c2 c1 c0 h = (accepted, made)
    where
      ends :
          rs1024_polymod (customization ++ (values ++ three c2 c1 c0))
          ≡ bit_xor remainder (triple c2 c1 c0)
      ends = polymod-append (three c2 c1 c0) ∙ rs1024_from-three c2 c1 c0 h before

      accepted :
          (rs1024_polymod (customization ++ (values ++ three c2 c1 c0)) == 1) ≡ true
          → three c2 c1 c0 ≡ rs1024_create_checksum values customization
      accepted e =
          sym (to_digits-of_digits 1024 (omega arith) (three c2 c1 c0) h)
          ∙ ap (to_digits 1024 3) same
          ∙ sym create-eq-to_digits
        where
          same : triple c2 c1 c0 ≡ check_value
          same =
              sym (bit_xor_cancel_left remainder (triple c2 c1 c0))
              ∙ ap (bit_xor remainder) (sym ends ∙ (==_iff _ 1).0 e)

      made :
          three c2 c1 c0 ≡ rs1024_create_checksum values customization
          → (rs1024_polymod (customization ++ (values ++ three c2 c1 c0)) == 1) ≡ true
      made e = (==_iff _ 1).1 (
          ends
          ∙ ap (bit_xor remainder) (triple-create c2 c1 c0 (e ∙ create-eq-to_digits))
          ∙ bit_xor_cancel_left remainder 1)

-- When the words, the customization and three more words are all below 1024, the three make the
-- checksum verify exactly if they are the words that `_rs1024_create_checksum` computes.
pub verify-append_iff :
    (values customization cs : List ℕ)
    → IsDigits 1024 values
    → IsDigits 1024 customization
    → IsDigits 1024 cs
    → length cs ≡ 3
    → (rs1024_verify_checksum (values ++ cs) customization ≡ true)
      ↔ (cs ≡ rs1024_create_checksum values customization)
verify-append_iff values customization [] hv hc h n = absurd (omega arith)
verify-append_iff values customization (c2 ∷ []) hv hc h n = absurd (omega arith)
verify-append_iff values customization (c2 ∷ c1 ∷ []) hv hc h n = absurd (omega arith)
verify-append_iff values customization (c2 ∷ c1 ∷ c0 ∷ []) hv hc h n =
    verify-three_iff values customization hv hc c2 c1 c0 h
verify-append_iff values customization (c2 ∷ c1 ∷ c0 ∷ c ∷ cs) hv hc h n = absurd (omega arith)

module _ (values customization : List ℕ) where
  pub length-create : length (rs1024_create_checksum values customization) ≡ 3
  unfolding rs1024_create_checksum
  length-create = ap length (int_to_word_indices-eq-to_digits _ 3) ∙ length-to_digits 1024 3 _

  pub create-IsDigits : IsDigits 1024 (rs1024_create_checksum values customization)
  unfolding rs1024_create_checksum
  create-IsDigits =
      subst (IsDigits 1024) (sym (int_to_word_indices-eq-to_digits _ 3))
        (to_digits-IsDigits 1024 (omega arith) 3 _)

  pub verify-create :
      IsDigits 1024 values
      → IsDigits 1024 customization
      → rs1024_verify_checksum (values ++ rs1024_create_checksum values customization) customization
        ≡ true
  verify-create hv hc =
      (verify-append_iff values customization _ hv hc create-IsDigits length-create).1 refl
