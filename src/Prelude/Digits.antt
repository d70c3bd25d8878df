-- ===== src/Prelude/Digits.antt =====
-- Big-endian digits in any base: Python's `int.to_bytes` and `int.from_bytes` at base 256, and the
-- word indices of a mnemonic at base 1024.
use native.Mathlib.Nat.{
  pow-zero, pow-suc, add-zero, zero-add, zero-mul, div-add-mod', one-le-pow, mod-lt, mod-eq_of_lt,
  div-eq_of_lt, mul_comm, mul_assoc, add-mul, mul-add-div_right, mul-add-mod_self_right, mod-one,
}
use Prim.Native.Nat.{ℕ, zero, suc, ◌+◌, ◌*◌, ◌/◌, ◌%◌, ◌^◌, ◌<◌}
use mathlib.Core.Path.{◌≡◌, refl, sym, ap, ap₂, ◌∙◌}
use mathlib.Core.List.{List, [], ◌∷◌}
use native.Mathlib.Omega.{arith}
use lcsas.Prelude.Lists.{length, All}

module _ (base : ℕ) where
  -- `n` digits of `value`, the most significant first; what lies above them is dropped.
  unfoldable pub to_digits : ℕ → ℕ → List ℕ
  to_digits zero value = []
  to_digits (suc n) value = (value / base ^ n % base) ∷ to_digits n value

  -- Horner's rule from `acc` on.
  unfoldable pub of_digits : ℕ → List ℕ → ℕ
  of_digits acc [] = acc
  of_digits acc (d ∷ ds) = of_digits (acc * base + d) ds

  abbrev pub IsDigits : List ℕ → Type 0
  IsDigits = All (λ d. d < base)

  pub length-to_digits : (n value : ℕ) → length (to_digits n value) ≡ n
  unfolding to_digits
  length-to_digits zero value = refl
  length-to_digits (suc n) value = ap suc (length-to_digits n value)

  pub to_digits-IsDigits : 0 < base → (n value : ℕ) → IsDigits (to_digits n value)
  unfolding to_digits
  to_digits-IsDigits pos zero value = tt
  to_digits-IsDigits pos (suc n) value = (mod-lt _ pos, to_digits-IsDigits pos n value)

  pub of_digits-acc :
      (acc : ℕ) (ds : List ℕ) → of_digits acc ds ≡ acc * base ^ length ds + of_digits 0 ds
  unfolding of_digits
  of_digits-acc acc [] = omega (arith, ap (λ (t : ℕ). acc * t) (pow-zero base))
  of_digits-acc acc (d ∷ ds) = omega (
    arith,
    of_digits-acc (acc * base + d) ds,
    of_digits-acc (0 * base + d) ds,
    regroup acc d (length ds),
  )
    where
      regroup : (acc d n : ℕ) → (acc * base + d) * base ^ n ≡ acc * base ^ suc n + d * base ^ n
      regroup acc d n =
          add-mul (acc * base) d (base ^ n)
          ∙ ap (λ (t : ℕ). t + d * base ^ n)
              (mul_assoc acc base (base ^ n)
                ∙ ap (λ (t : ℕ). acc * t) (mul_comm base (base ^ n) ∙ sym (pow-suc base n)))

  module _ (pos : 0 < base) where
    pub pow-pos : (n : ℕ) → 0 < base ^ n
    pow-pos n = one-le-pow n base pos

    -- A digit over a remainder stays below the next power.
    digit-lt : (n d r : ℕ) → d < base → r < base ^ n → d * base ^ n + r < base ^ suc n
    digit-lt n d r hd hr = rw (pow-suc base n) (grind arith)

    -- Cutting `suc n` digits off is cutting the top one off and then `n`.
    pub mod-pow-suc :
        (n value : ℕ) → value % base ^ suc n ≡ value / base ^ n % base * base ^ n + value % base ^ n
    mod-pow-suc n value =
        ap (λ (t : ℕ). t % base ^ suc n) regroup
        ∙ mul-add-mod_self_right (q / base) (base ^ suc n) (q % base * base ^ n + r)
        ∙ mod-eq_of_lt (digit-lt n (q % base) r (mod-lt q pos) (mod-lt value (pow-pos n)))
      where
        q : ℕ
        q = value / base ^ n

        r : ℕ
        r = value % base ^ n

        regroup : value ≡ q / base * base ^ suc n + (q % base * base ^ n + r)
        regroup = omega (
          arith,
          div-add-mod' value (base ^ n),
          ap (λ (t : ℕ). t * base ^ n) (div-add-mod' q base),
          add-mul (q / base * base) (q % base) (base ^ n),
          mul_assoc (q / base) base (base ^ n),
          ap (λ (t : ℕ). q / base * t) (mul_comm base (base ^ n)),
          ap (λ (t : ℕ). q / base * t) (pow-suc base n),
        )

    -- Reading back what was written gives the value, cut to the width.
    pub of_digits-to_digits : (n value : ℕ) → of_digits 0 (to_digits n value) ≡ value % base ^ n
    unfolding of_digits to_digits
    of_digits-to_digits zero value =
        sym (mod-one value) ∙ ap (λ (t : ℕ). value % t) (sym (pow-zero base))
    of_digits-to_digits (suc n) value =
        of_digits-acc _ (to_digits n value)
        ∙ omega (
          arith,
          ap (λ (t : ℕ). (0 * base + value / base ^ n % base) * base ^ t)
              (length-to_digits n value),
          of_digits-to_digits n value,
          mod-pow-suc n value,
        )

    -- A digit string is below the power of its length.
    pub of_digits-lt : (ds : List ℕ) → IsDigits ds → of_digits 0 ds < base ^ length ds
    unfolding of_digits
    of_digits-lt [] h = pow-pos 0
    of_digits-lt (d ∷ ds) h =
        rw (of_digits-acc (0 * base + d) ds)
          (rw zero-mul (rw zero-add (digit-lt (length ds) d _ h.0 (of_digits-lt ds h.1))))

    -- What lies above the width does not count.
    to_digits-add : (n k value : ℕ) → to_digits n (k * base ^ n + value) ≡ to_digits n value
    unfolding to_digits
    to_digits-add zero k value = refl
    to_digits-add (suc n) k value =
        ap₂ ◌∷◌
          (ap (λ (t : ℕ). t % base)
              (ap (λ (t : ℕ). t / base ^ n) (regroup)
                ∙ mul-add-div_right (pow-pos n) (k * base) value)
            ∙ mul-add-mod_self_right k base (value / base ^ n))
          (ap (to_digits n) regroup ∙ to_digits-add n (k * base) value)
      where
        regroup : k * base ^ suc n + value ≡ k * base * base ^ n + value
        regroup = omega (
          arith,
          ap (λ (t : ℕ). k * t) (pow-suc base n ∙ mul_comm (base ^ n) base),
          mul_assoc k base (base ^ n),
        )

    pub to_digits-of_digits :
        (ds : List ℕ) → IsDigits ds → to_digits (length ds) (of_digits 0 ds) ≡ ds
    unfolding of_digits to_digits
    to_digits-of_digits [] h = refl
    to_digits-of_digits (d ∷ ds) h =
        rw split
          (ap₂ ◌∷◌ head (to_digits-add (length ds) d (of_digits 0 ds) ∙ to_digits-of_digits ds h.1))
      where
        split : of_digits (0 * base + d) ds ≡ d * base ^ length ds + of_digits 0 ds
        split = of_digits-acc (0 * base + d) ds ∙ rw zero-mul (rw zero-add refl)

        head : (d * base ^ length ds + of_digits 0 ds) / base ^ length ds % base ≡ d
        head =
            ap (λ (t : ℕ). t % base)
              (mul-add-div_right (pow-pos (length ds)) d (of_digits 0 ds)
                ∙ ap (λ (t : ℕ). d + t) (div-eq_of_lt (of_digits-lt ds h.1))
                ∙ add-zero d)
            ∙ mod-eq_of_lt h.0
