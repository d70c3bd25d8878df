-- ===== src/Keyshare/Gf256/Times.antt =====
-- Multiplication of bytes by the tables of src/lcsas/keyshare/slip39.py.
use lcsas.Prelude.{
  ℕ, zero, suc, ◌+◌, ◌-◌, ◌*◌, ◌/◌, ◌%◌, ◌<◌, ◌≡◌, refl, sym, ap, ◌∙◌, ◌⊎◌, inl, inr, Bool, true,
  false, arith, ◌==◌, if◌then◌else◌, bit_xor,
}
use lcsas.Prelude.Bits.{
  bit_xor-zero, bit_xor_self, bit_xor_middle, bit_xor-div, bit_xor-parity, double-bit_xor,
}
use lcsas.Keyshare.Gf256.{
  set_at, next_poly, fill_tables, precompute_exp_log, exp_table, gf_exp, gf_log,
}
use lcsas.Keyshare.Gf256.Tables.{log-exp, exp-next, exp-pos, exp-lt, exp-log, log-lt}

unfoldable pub times : ℕ → ℕ → ℕ
times a b = if a == 0 then 0 else if b == 0 then 0 else gf_exp ((gf_log a + gf_log b) % 255)

unfoldable pub inverse : ℕ → ℕ
inverse a = gf_exp ((255 - gf_log a) % 255)

pub zero-or-pos : (a : ℕ) → (a ≡ 0) ⊎ (0 < a)
zero-or-pos zero = inl refl
zero-or-pos (suc a) = inr (omega arith)

-- The step of the tables goes through exclusive or.
abbrev reduction : ℕ → ℕ
reduction p = if p / 256 % 2 == 1 then 0x11B else 0

reduction-bit_xor : (p q : ℕ) → reduction (bit_xor p q) ≡ bit_xor (reduction p) (reduction q)
reduction-bit_xor p q = ground (arith, bit_xor-div 8 p q, bit_xor-parity (p / 256) (q / 256))

next_poly-reduction :
    (a : ℕ) → next_poly a ≡ bit_xor (bit_xor (a * 2) a) (reduction (bit_xor (a * 2) a))
unfolding next_poly
next_poly-reduction a = masked (bit_xor (a * 2) a / 256 % 2 == 1) (bit_xor (a * 2) a)
  where
    masked :
        (test : Bool) (p : ℕ)
        → (if test then bit_xor p 0x11B else p) ≡ bit_xor p (if test then 0x11B else 0)
    masked true p = refl
    masked false p = sym (bit_xor-zero p)

next_poly-bit_xor : (a b : ℕ) → next_poly (bit_xor a b) ≡ bit_xor (next_poly a) (next_poly b)
next_poly-bit_xor a b =
    rw (next_poly-reduction (bit_xor a b), next_poly-reduction a, next_poly-reduction b)
      (rw (tripled, reduction-bit_xor (bit_xor (a * 2) a) (bit_xor (b * 2) b))
        (bit_xor_middle (bit_xor (a * 2) a) (bit_xor (b * 2) b) _ _))
  where
    tripled :
        bit_xor (bit_xor a b * 2) (bit_xor a b) ≡ bit_xor (bit_xor (a * 2) a) (bit_xor (b * 2) b)
    tripled = rw (← double-bit_xor a b) (bit_xor_middle (a * 2) (b * 2) a b)

-- Times a power is that many steps.
steps : ℕ → ℕ → ℕ
steps zero b = b
steps (suc i) b = next_poly (steps i b)

steps-bit_xor : (i a b : ℕ) → steps i (bit_xor a b) ≡ bit_xor (steps i a) (steps i b)
unfolding steps
steps-bit_xor zero a b = refl
steps-bit_xor (suc i) a b =
    ap next_poly (steps-bit_xor i a b) ∙ next_poly-bit_xor (steps i a) (steps i b)

steps-zero : (i : ℕ) → steps i 0 ≡ 0
unfolding steps next_poly
steps-zero zero = refl
steps-zero (suc i) = ap next_poly (steps-zero i)

steps-exp : (i j : ℕ) → j < 255 → steps i (gf_exp j) ≡ gf_exp ((i + j) % 255)
unfolding steps
steps-exp zero j below = ap gf_exp (omega arith)
steps-exp (suc i) j below =
    ap next_poly (steps-exp i j below)
    ∙ sym (exp-next ((i + j) % 255) (omega arith))
    ∙ ap gf_exp (omega arith)

module _ (a b : ℕ) where
  pub times-nonzero : 0 < a → 0 < b → times a b ≡ gf_exp ((gf_log a + gf_log b) % 255)
  unfolding times
  times-nonzero ha hb = ground arith

  pub times_comm : times a b ≡ times b a
  unfolding times
  times_comm = ground arith

pub times_zero : (a : ℕ) → times a 0 ≡ 0
unfolding times
times_zero a = ground arith

times-steps : (a b : ℕ) → 0 < a → b < 256 → times a b ≡ steps (gf_log a) b
times-steps a b ha byte = elim (zero-or-pos b) [
  | inl e ↦ rw (e, times_zero a) (sym (steps-zero (gf_log a)))
  | inr hb ↦
      times-nonzero a b ha hb
      ∙ sym (steps-exp (gf_log a) (gf_log b) (log-lt b hb byte))
      ∙ ap (steps (gf_log a)) (exp-log b hb byte)
]

pub times-bit_xor :
    (a b c : ℕ)
    → b < 256
    → c < 256
    → bit_xor b c < 256
    → times a (bit_xor b c) ≡ bit_xor (times a b) (times a c)
times-bit_xor a b c hb hc hbc = elim (zero-or-pos a) [
  | inl e ↦
      rw
        (
          e,
          times_comm 0 (bit_xor b c),
          times_comm 0 b,
          times_comm 0 c,
          times_zero (bit_xor b c),
          times_zero b,
          times_zero c,
        )
        (sym (bit_xor_self 0))
  | inr ha ↦
      rw (times-steps a (bit_xor b c) ha hbc, times-steps a b ha hb, times-steps a c ha hc)
        (steps-bit_xor (gf_log a) b c)
]

pub times-lt : (a b : ℕ) → times a b < 256
unfolding times
times-lt a b = ground (arith, exp-lt ((gf_log a + gf_log b) % 255) (omega arith))

pub times-pos : (a b : ℕ) → 0 < a → 0 < b → 0 < times a b
times-pos a b ha hb =
    rw (times-nonzero a b ha hb) (exp-pos ((gf_log a + gf_log b) % 255) (omega arith))

times-log : (a b : ℕ) → 0 < a → 0 < b → gf_log (times a b) ≡ (gf_log a + gf_log b) % 255
times-log a b ha hb =
    rw (times-nonzero a b ha hb) (log-exp ((gf_log a + gf_log b) % 255) (omega arith))

assoc-pos : (a b c : ℕ) → 0 < a → 0 < b → 0 < c → times (times a b) c ≡ times a (times b c)
assoc-pos a b c ha hb hc =
    rw
      (
        times-nonzero (times a b) c (times-pos a b ha hb) hc,
        times-nonzero a (times b c) ha (times-pos b c hb hc),
        times-log a b ha hb,
        times-log b c hb hc,
      )
      (ap gf_exp (omega arith))

zero-times : (a : ℕ) → times 0 a ≡ 0
zero-times a = times_comm 0 a ∙ times_zero a

pub times_assoc : (a b c : ℕ) → times (times a b) c ≡ times a (times b c)
times_assoc a b c = elim (zero-or-pos a) [
  | inl e ↦ rw (e, zero-times b, zero-times c) (sym (zero-times (times b c)))
  | inr ha ↦ elim (zero-or-pos b) [
    | inl e ↦ rw (e, zero-times c, times_zero a) (zero-times c)
    | inr hb ↦ elim (zero-or-pos c) [
      | inl e ↦ rw (e, times_zero b, times_zero a) (times_zero (times a b))
      | inr hc ↦ assoc-pos a b c ha hb hc
    ]
  ]
]

pub exp_zero : gf_exp 0 ≡ 1
unfolding gf_exp exp_table precompute_exp_log fill_tables set_at
exp_zero = refl

log_one : gf_log 1 ≡ 0
log_one = ap gf_log (sym exp_zero) ∙ log-exp 0 (omega arith)

pub times_one : (a : ℕ) → a < 256 → times a 1 ≡ a
times_one a byte = elim (zero-or-pos a) [
  | inl e ↦ rw e (zero-times 1)
  | inr ha ↦ times-nonzero a 1 ha (omega arith) ∙ ap gf_exp (same_log ha) ∙ exp-log a ha byte
]
  where
    same_log : 0 < a → (gf_log a + gf_log 1) % 255 ≡ gf_log a
    same_log ha = omega (arith, log_one, log-lt a ha byte)

pub inverse-lt : (a : ℕ) → inverse a < 256
unfolding inverse
inverse-lt a = exp-lt ((255 - gf_log a) % 255) (omega arith)

pub times-inverse : (a : ℕ) → 0 < a → a < 256 → times a (inverse a) ≡ 1
unfolding inverse
times-inverse a ha byte =
    times-nonzero a (inverse a) ha (exp-pos ((255 - gf_log a) % 255) (omega arith))
    ∙ ap (λ t. gf_exp ((gf_log a + t) % 255)) (log-exp ((255 - gf_log a) % 255) (omega arith))
    ∙ ap gf_exp (omega (arith, log-lt a ha byte))
    ∙ exp_zero
