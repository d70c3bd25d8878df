-- ===== src/Restore/Aes/Counter.antt =====
-- The counter of src/lcsas/restore/_aes_pure.py, as the number that it writes.
use native.Mathlib.Nat.{
  mod-lt, mod-eq_of_lt, zero-mod, div-eq_of_lt, mul-add-mod_self_right, mul-add-div_right, add-mul,
  div-add-mod',
}
use lcsas.Prelude.{
  ℕ, zero, suc, ◌+◌, ◌*◌, ◌/◌, ◌%◌, ◌^◌, ◌<◌, ◌≤◌, ◌≡◌, refl, ap, ◌∙◌, List, [], ◌∷◌, Bool, false,
  ◌==◌, ltb, Bool-cases, inl, inr, ◌⊎◌, arith, ◌↔◌,
}
use lcsas.Prelude.Digits.{to_digits, pow-pos, mod-pow-suc}
use lcsas.Restore.Aes.{inc_bytes, inc_counter}

pub split-at : (n i : ℕ) → (n ≤ i) ⊎ (i < n)
split-at n i = elim (Bool-cases (ltb i n)) [
  | inl e ↦ inr (ground (arith, e))
  | inr e ↦ inl (ground (arith, e))
]

-- Adding one either carries into the quotient or adds one to the remainder.
successor :
    (p v : ℕ)
    → 0 < p
    → (((v + 1) % p ≡ 0) × ((v + 1) / p ≡ v / p + 1))
      ⊎ (((v + 1) % p ≡ v % p + 1) × ((v + 1) / p ≡ v / p))
successor p v pos = elim (split-at p (v % p + 1)) [
  | inl full ↦ inl (
    ap (λ (t : ℕ). t % p) (carried full) ∙ mul-add-mod_self_right (v / p + 1) p 0 ∙ zero-mod p,
    ap (λ (t : ℕ). t / p) (carried full)
        ∙ mul-add-div_right pos (v / p + 1) 0
        ∙ omega (arith, div-eq_of_lt pos),
  )
  | inr fits ↦ inr (
    ap (λ (t : ℕ). t % p) added ∙ mul-add-mod_self_right (v / p) p (v % p + 1) ∙ mod-eq_of_lt fits,
    ap (λ (t : ℕ). t / p) added
        ∙ mul-add-div_right pos (v / p) (v % p + 1)
        ∙ omega (arith, div-eq_of_lt fits),
  )
]
  where
    added : v + 1 ≡ v / p * p + (v % p + 1)
    added = omega (arith, div-add-mod' v p)

    carried : p ≤ v % p + 1 → v + 1 ≡ (v / p + 1) * p + 0
    carried full = omega (arith, added, mod-lt v pos, add-mul (v / p) 1 p)

zero_test : (a b : ℕ) → ((a ≡ 0) ↔ (b ≡ 0)) → (a == 0) ≡ (b == 0)
zero_test a b h = ground (arith, h)

nonzero_test : (a b : ℕ) → (a + (b + 1) == 0) ≡ false
nonzero_test a b = ground arith

first_nonzero : (b : ℕ) → (b + 1 == 0) ≡ false
first_nonzero b = ground arith

scaled_zero : (p d : ℕ) → 0 < p → ((d * p + 0 ≡ 0) ↔ (d ≡ 0))
scaled_zero p zero pos = ((λ h. refl), (λ h. omega arith))
scaled_zero p (suc d) pos =
    ((λ h. absurd (omega (arith, add-mul d 1 p))), (λ h. absurd (omega arith)))

-- Adding one to the counter is adding one to the number it writes, whatever its width.
inc_bytes-to_digits :
    (n v : ℕ) → inc_bytes (to_digits 256 n v) ≡ (to_digits 256 n (v + 1), (v + 1) % 256 ^ n == 0)
unfolding inc_bytes to_digits
inc_bytes-to_digits zero v = ap (λ (t : ℕ). ([], t == 0)) {x = 0} {y = (v + 1) % 1} (omega arith)
inc_bytes-to_digits (suc n) v = elim (successor (256 ^ n) v (pow-pos 256 (omega arith) n)) [
  | inl c ↦
      rw (inc_bytes-to_digits n v, c.0, c.1, mod-pow-suc 256 (omega arith) n (v + 1))
        (rw
          (
            c.0,
            c.1,
            zero_test _ _
                (scaled_zero (256 ^ n) ((v / 256 ^ n + 1) % 256) (pow-pos 256 (omega arith) n)),
          )
          (ap (λ (t : ℕ). (t ∷ to_digits 256 n (v + 1), t == 0)) {x = (v / 256 ^ n % 256 + 1) % 256}
            {y = (v / 256 ^ n + 1) % 256} (omega arith)))
  | inr c ↦
      rw (inc_bytes-to_digits n v, c.1, mod-pow-suc 256 (omega arith) n (v + 1))
        (rw
          (
            c.0,
            c.1,
            first_nonzero (v % 256 ^ n),
            nonzero_test (v / 256 ^ n % 256 * 256 ^ n) (v % 256 ^ n),
          )
          refl)
]

pub inc_counter-to_digits : (n v : ℕ) → inc_counter (to_digits 256 n v) ≡ to_digits 256 n (v + 1)
unfolding inc_counter
inc_counter-to_digits n v = ap (λ (t : List ℕ × Bool). t.0) (inc_bytes-to_digits n v)
