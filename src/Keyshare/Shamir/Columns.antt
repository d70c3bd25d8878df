-- ===== src/Keyshare/Shamir/Columns.antt =====
-- Sums of logarithms as products of bytes, for the interpolation of src/lcsas/keyshare/slip39.py.
use native.Mathlib.Nat.{mod-lt, mod-eq_of_lt}
use lcsas.Prelude.{
  ℕ, ◌+◌, ◌*◌, ◌%◌, ◌<◌, ◌≡◌, ◌≢◌, refl, sym, ap, ap₂, ◌∙◌, List, [], ◌∷◌, map, All, arith, bit_xor,
  inl, inr,
}
use lcsas.Prelude.Bits.{bit_xor-mod}
use lcsas.Keyshare.Gf256.{
  log_table, precompute_exp_log, fill_tables, set_at, next_poly, gf_exp, gf_log,
}
use lcsas.Keyshare.Gf256.Tables.{exp-pos, exp-lt, log-exp, exp-log, log-lt}
use lcsas.Keyshare.Gf256.Times.{times-nonzero, zero-or-pos, exp_zero}
use lcsas.Keyshare.Gf256.Bytes.{Byte, byte_eq, byte_field, bit_xor_byte}
use lcsas.Keyshare.Gf256.Field.{◌⊕◌, ◌⊗◌, zero-mul}
use lcsas.Keyshare.Gf256.Field.Others.{unit, unit-zero, unit-nonzero, product}
use lcsas.Keyshare.Shamir.{sum_logs, log_basis_eval, scaled}

abbrev pub to_byte : ℕ → Byte
to_byte n = (n % 256, mod-lt n (omega arith))

pub to_byte-val : (n : ℕ) → n < 256 → (to_byte n).0 ≡ n
to_byte-val n h = mod-eq_of_lt h

pub to_byte_self : (b : Byte) → to_byte b.0 ≡ b
to_byte_self b = byte_eq (mod-eq_of_lt b.1)

to_byte_zero : to_byte 0 ≡ byte_field.zero
to_byte_zero = byte_eq refl

pub to_byte_inj : (a b : ℕ) → a < 256 → b < 256 → to_byte a ≡ to_byte b → a ≡ b
to_byte_inj a b ha hb h = sym (to_byte-val a ha) ∙ ap (λ (t : Byte). t.0) h ∙ to_byte-val b hb

pub to_byte-bit_xor : (a b : ℕ) → to_byte (bit_xor a b) ≡ to_byte a ⊕ to_byte b
to_byte-bit_xor a b = byte_eq (bit_xor-mod 8 a b)

-- The byte with a given logarithm.
pub power : ℕ → Byte
power n = (gf_exp (n % 255), exp-lt (n % 255) (mod-lt n (omega arith)))

power-add : (m n : ℕ) → power (m + n) ≡ power m ⊗ power n
unfolding power
power-add m n = byte_eq (
    sym (
      times-nonzero (gf_exp (m % 255)) (gf_exp (n % 255)) (exp-pos (m % 255) (omega arith))
        (exp-pos (n % 255) (omega arith))
      ∙ rw (log-exp (m % 255) (omega arith), log-exp (n % 255) (omega arith))
          (ap gf_exp {x = (m % 255 + n % 255) % 255} {y = (m + n) % 255} (omega arith))))

log_zero : gf_log 0 ≡ 0
unfolding gf_log log_table precompute_exp_log fill_tables set_at next_poly
log_zero = refl

byte_nonzero : (a : ℕ) → 0 < a → a < 256 → to_byte a ≢ byte_field.zero
byte_nonzero a ha byte h = absurd (omega (arith, to_byte-val a byte, ap (λ (t : Byte). t.0) h))

power-log_pos : (a : ℕ) → 0 < a → a < 256 → power (gf_log a) ≡ to_byte a
unfolding power
power-log_pos a ha byte =
    byte_eq (rw (mod-eq_of_lt (log-lt a ha byte), to_byte-val a byte) (exp-log a ha byte))

power-log : (a : ℕ) → a < 256 → power (gf_log a) ≡ unit (to_byte a)
unfolding power
power-log a byte = elim (zero-or-pos a) [
  | inl e ↦ rw (e, log_zero) (byte_eq exp_zero ∙ sym (unit-zero (to_byte 0) (byte_eq refl)))
  | inr ha ↦ power-log_pos a ha byte ∙ sym (unit-nonzero (to_byte a) (byte_nonzero a ha byte))
]

-- A sum of logarithms of differences is a product of them.
pub power-sum_logs :
    (f : ℕ → ℕ) (g : Byte → Byte)
    → ((q : ℕ) → q < 256 → f q < 256)
    → ((q : ℕ) → to_byte (f q) ≡ g (to_byte q))
    → (xs : List ℕ) → All (λ q. q < 256) xs
    → power (sum_logs (map f xs)) ≡ product (λ q. unit (g q)) (map to_byte xs)
unfolding sum_logs power
power-sum_logs f g bytes same [] h = byte_eq exp_zero
power-sum_logs f g bytes same (q ∷ xs) h =
    power-add (gf_log (f q)) (sum_logs (map f xs))
    ∙ ap₂ ◌⊗◌ (power-log (f q) (bytes q h.0) ∙ ap unit (same q))
        (power-sum_logs f g bytes same xs h.1)

module _ (x : ℕ) (xs : List ℕ) (byte : x < 256) (bytes : All (λ q. q < 256) xs) where
  power-log_prod :
      power (sum_logs (map (λ q. bit_xor q x) xs))
      ≡ product (λ q. unit (q ⊕ to_byte x)) (map to_byte xs)
  power-log_prod =
      power-sum_logs (λ q. bit_xor q x) (λ q. q ⊕ to_byte x) (λ q h. bit_xor_byte q x h byte)
        (λ q. to_byte-bit_xor q x) xs bytes

  power-log_own :
      power (sum_logs (map (λ q. bit_xor x q) xs))
      ≡ product (λ q. unit (to_byte x ⊕ q)) (map to_byte xs)
  power-log_own =
      power-sum_logs (λ q. bit_xor x q) (λ q. to_byte x ⊕ q) (λ q h. bit_xor_byte x q byte h)
        (λ q. to_byte-bit_xor x q) xs bytes

power_mod : (m n : ℕ) → m % 255 ≡ n % 255 → power m ≡ power n
unfolding power
power_mod m n h = byte_eq (ap gf_exp h)

-- What the code's logarithm of a basis stands for.
pub power-log_basis_eval :
    (p x : ℕ) (xs : List ℕ)
    → p < 256
    → x < 256
    → All (λ q. q < 256) xs
    → power (log_basis_eval (sum_logs (map (λ q. bit_xor q x) xs)) x xs p)
        ⊗ (unit (to_byte p ⊕ to_byte x) ⊗ product (λ q. unit (to_byte p ⊕ q)) (map to_byte xs))
      ≡ product (λ q. unit (q ⊕ to_byte x)) (map to_byte xs)
unfolding log_basis_eval
power-log_basis_eval p x xs hp hx h =
    let total = sum_logs (map (λ q. bit_xor q x) xs) in
    let own = gf_log (bit_xor p x) in
    let rest = sum_logs (map (λ q. bit_xor p q) xs) in
    ap (λ t. power ((total + 254 * (own + rest)) % 255) ⊗ t)
      (sym (
        power-add own rest
        ∙ ap₂ ◌⊗◌ (power-log (bit_xor p x) (bit_xor_byte p x hp hx) ∙ ap unit (to_byte-bit_xor p x))
            (power-log_own p xs hp h)))
    ∙ sym (power-add ((total + 254 * (own + rest)) % 255) (own + rest))
    ∙ power_mod _ total (omega arith)
    ∙ power-log_prod x xs hx h

scaled-pos : (log_basis v : ℕ) → 0 < v → scaled log_basis v ≡ (power (gf_log v + log_basis)).0
unfolding scaled power
scaled-pos log_basis v hv = ground arith

pub to_byte-scaled :
    (log_basis v : ℕ) → v < 256 → to_byte (scaled log_basis v) ≡ to_byte v ⊗ power log_basis
unfolding scaled
to_byte-scaled log_basis v byte = elim (zero-or-pos v) [
  | inl e ↦
      rw e (
        to_byte_zero
        ∙ sym (ap (λ t. t ⊗ power log_basis) to_byte_zero ∙ zero-mul (power log_basis)))
  | inr hv ↦
      ap to_byte (scaled-pos log_basis v hv)
      ∙ to_byte_self (power (gf_log v + log_basis))
      ∙ power-add (gf_log v) log_basis
      ∙ ap (λ t. t ⊗ power log_basis) (power-log_pos v hv byte)
]

pub scaled-lt : (log_basis v : ℕ) → scaled log_basis v < 256
unfolding scaled
scaled-lt log_basis v = ground (arith, exp-lt ((gf_log v + log_basis) % 255) (omega arith))
