-- ===== src/Restore/Aes/Tables.antt =====
-- The arithmetic and the substitution of src/lcsas/restore/_aes_pure.py against the field of bytes.
use native.Mathlib.Nat.{pow-suc}
use lcsas.Prelude.{
  ℕ, zero, suc, ◌+◌, ◌-◌, ◌*◌, ◌/◌, ◌%◌, ◌^◌, ◌<◌, ◌≡◌, refl, sym, ap, ap₂, ◌∙◌, inl, inr, ◌⊎◌,
  Bool, true, ◌&&◌, ◌||◌, List, [], ◌∷◌, arith, ltb, ◌==◌, if◌then◌else◌, get_or, bit_xor,
}
use lcsas.Prelude.Bits.{bit_xor_fields, bit_xor_assoc, bit_xor-zero, bit_xor_comm, zero-bit_xor}
use lcsas.Prelude.Checks.{passes, passes-lt}
use lcsas.Keyshare.Gf256.{next_poly, gf_exp, gf_log}
use lcsas.Keyshare.Gf256.Tables.{exp-next, log-exp, exp-log, log-lt}
use lcsas.Keyshare.Gf256.Times.{
  times, times_comm, times_assoc, times_zero, times_one, times-bit_xor, times-nonzero, zero-or-pos,
  exp_zero,
}
use lcsas.Restore.Aes.{sbox, sbox_at, xtime, gf_mul, gf_mul_rounds, mul2, mul3}

-- One step of the tables is a doubling and the byte itself.
abbrev doubles : ℕ → Bool
doubles p = (xtime p == bit_xor (next_poly p) p) && ltb (xtime p) 256

all_double : passes doubles 256 ≡ true
unfolding passes xtime next_poly
all_double = refl

xtime-next_poly : (p : ℕ) → p < 256 → (xtime p ≡ bit_xor (next_poly p) p) × (xtime p < 256)
xtime-next_poly p byte =
    let check = passes-lt doubles p 256 byte all_double in
    (ground (arith, check), ground (arith, check))

pub xtime-lt : (p : ℕ) → p < 256 → xtime p < 256
xtime-lt p byte = (xtime-next_poly p byte).1

exp_one : gf_exp 1 ≡ 3
unfolding next_poly
exp_one = exp-next 0 (omega arith) ∙ ap next_poly exp_zero

log_three : gf_log 3 ≡ 1
log_three = ap gf_log (sym exp_one) ∙ log-exp 1 (omega arith)

next_poly-zero : next_poly 0 ≡ 0
unfolding next_poly
next_poly-zero = refl

times-three : (p : ℕ) → p < 256 → times p 3 ≡ next_poly p
times-three p byte = elim (zero-or-pos p) [
  | inl e ↦ rw e (times_comm 0 3 ∙ times_zero 3 ∙ sym next_poly-zero)
  | inr hp ↦
      times-nonzero p 3 hp (omega arith)
      ∙ ap (λ t. gf_exp ((gf_log p + t) % 255)) log_three
      ∙ exp-next (gf_log p) (log-lt p hp byte)
      ∙ ap next_poly (exp-log p hp byte)
]

pub times-two : (p : ℕ) → p < 256 → times p 2 ≡ xtime p
times-two p byte =
    times-bit_xor p 3 1 (omega arith) (omega arith) (omega arith)
    ∙ ap₂ bit_xor (times-three p byte) (times_one p byte)
    ∙ sym (xtime-next_poly p byte).0

xtime-small : (c : ℕ) → c < 128 → xtime c ≡ c * 2
unfolding xtime
xtime-small c small = ground arith

-- A product by an even number, in two steps.
times-double : (p c : ℕ) → p < 256 → c < 128 → times p (c * 2) ≡ times (xtime p) c
times-double p c byte small =
    ap (times p) (sym doubled) ∙ sym (times_assoc p 2 c) ∙ ap (λ t. times t c) (times-two p byte)
  where
    doubled : times 2 c ≡ c * 2
    doubled = times_comm 2 c ∙ times-two c (omega arith) ∙ xtime-small c small

-- The bits of the second factor, from the lowest on.
low_bit :
    (p r b : ℕ) → p < 256 → (if b % 2 == 1 then bit_xor r p else r) ≡ bit_xor r (times p (b % 2))
low_bit p r b byte = elim (parity b) [
  | inl e ↦ rw (e, times_zero p, bit_xor-zero r) refl
  | inr e ↦ rw (e, times_one p byte) refl
]
  where
    parity : (b : ℕ) → (b % 2 ≡ 0) ⊎ (b % 2 ≡ 1)
    parity b = omega arith

times-bits :
    (p b : ℕ) → p < 256 → b < 256 → times p b ≡ bit_xor (times p (b % 2)) (times (xtime p) (b / 2))
times-bits p b byte small =
    ap (times p) split
    ∙ times-bit_xor p (b % 2) (b / 2 * 2) (omega arith) (omega arith) (rw (sym split) small)
    ∙ ap (bit_xor (times p (b % 2))) (times-double p (b / 2) byte (omega arith))
  where
    split : b ≡ bit_xor (b % 2) (b / 2 * 2)
    split = sym (
        bit_xor_comm (b % 2) (b / 2 * 2)
        ∙ bit_xor_fields 1 (b / 2) (b % 2) (omega arith)
        ∙ omega arith)

gf_mul_rounds-times :
    (n b r p : ℕ) → b < 2 ^ n → b < 256 → p < 256 → gf_mul_rounds n b r p ≡ bit_xor r (times p b)
unfolding gf_mul_rounds
gf_mul_rounds-times zero b r p h small byte = rw (none, times_zero p) (sym (bit_xor-zero r))
  where
    none : b ≡ 0
    none = omega arith
gf_mul_rounds-times (suc n) b r p h small byte =
    gf_mul_rounds-times n (b / 2) _ (xtime p) (omega (arith, pow-suc 2 n)) (omega arith)
      (xtime-lt p byte)
    ∙ ap (λ t. bit_xor t (times (xtime p) (b / 2))) (low_bit p r b byte)
    ∙ bit_xor_assoc r (times p (b % 2)) (times (xtime p) (b / 2))
    ∙ ap (bit_xor r) (sym (times-bits p b byte small))

-- The products of the two modules, one by bits and one by tables of logarithms, are the same.
pub gf_mul-times : (a b : ℕ) → a < 256 → b < 256 → gf_mul a b ≡ times a b
unfolding gf_mul
gf_mul-times a b ha hb = gf_mul_rounds-times 8 b 0 a hb (omega arith) ha ∙ zero-bit_xor (times a b)

-- The columns' factors.
three-xtime : (i : ℕ) → i < 256 → times 3 i ≡ bit_xor (xtime i) i
three-xtime i byte =
    times_comm 3 i
    ∙ times-bit_xor i 2 1 (omega arith) (omega arith) (omega arith)
    ∙ ap₂ bit_xor (times-two i byte) (times_one i byte)

pub mul2-times : (i : ℕ) → i < 256 → mul2 i ≡ times 2 i
unfolding mul2
mul2-times i byte = gf_mul-times 2 i (omega arith) byte

pub mul3-times : (i : ℕ) → i < 256 → mul3 i ≡ bit_xor (times 2 i) i
unfolding mul3
mul3-times i byte =
    gf_mul-times 3 i (omega arith) byte
    ∙ three-xtime i byte
    ∙ ap (λ t. bit_xor t i) (sym (times_comm 2 i ∙ times-two i byte))

-- The substitution of FIPS 197: the inverse in the field, and an affine map of its bits.
abbrev pub rotl8 : ℕ → ℕ → ℕ
rotl8 k b = b * 2 ^ k % 256 + b / 2 ^ (8 - k)

abbrev pub affine : ℕ → ℕ
affine b =
    bit_xor
      (bit_xor (bit_xor (bit_xor (bit_xor b (rotl8 1 b)) (rotl8 2 b)) (rotl8 3 b)) (rotl8 4 b)) 0x63

abbrev unaffine : ℕ → ℕ
unaffine s = bit_xor (bit_xor (bit_xor (rotl8 1 s) (rotl8 3 s)) (rotl8 6 s)) 5

abbrev substitutes : List ℕ → ℕ → Bool
substitutes table a =
    let b = unaffine (get_or table a 0) in
    (affine b == get_or table a 0) && (ltb b 256 && ((a == 0 && b == 0) || gf_mul a b == 1))

all_substituted : passes (substitutes sbox) 256 ≡ true
unfolding passes sbox gf_mul gf_mul_rounds xtime
all_substituted = refl

-- The place of a value in a table.
abbrev position : ℕ → List ℕ → ℕ
position v [] = 0
position v (x ∷ xs) = if x == v then 0 else suc (position v xs)

abbrev invertible : List ℕ → ℕ → Bool
invertible table b = (position (get_or table b 0) table == b) && ltb (get_or table b 0) 256

all_invertible : passes (invertible sbox) 256 ≡ true
unfolding passes sbox
all_invertible = refl

module _ (b : ℕ) (byte : b < 256) where
  pub sbox_at-lt : sbox_at b < 256
  unfolding sbox_at
  sbox_at-lt = ground (arith, passes-lt (invertible sbox) b 256 byte all_invertible)

  position-sbox_at : position (sbox_at b) sbox ≡ b
  unfolding sbox_at
  position-sbox_at = ground (arith, passes-lt (invertible sbox) b 256 byte all_invertible)

pub sbox_at_inj : (a b : ℕ) → a < 256 → b < 256 → sbox_at a ≡ sbox_at b → a ≡ b
sbox_at_inj a b ha hb e =
    sym (position-sbox_at a ha) ∙ ap (λ (t : ℕ). position t sbox) e ∙ position-sbox_at b hb

-- The table of the substitution is that of FIPS 197: the image of a byte is the affine map of its
-- inverse in the field, and that of 0 the affine map of 0.
pub sbox_at-affine :
    (a : ℕ)
    → a < 256
    → (b : ℕ) × ((b < 256) × ((sbox_at a ≡ affine b) × (((a ≡ 0) × (b ≡ 0)) ⊎ (gf_mul a b ≡ 1))))
unfolding sbox_at
sbox_at-affine a byte =
    let check = passes-lt (substitutes sbox) a 256 byte all_substituted in
    (
      unaffine (get_or sbox a 0),
      (ground (arith, check), (ground (arith, check), ground (arith, check))),
    )
