-- ===== src/Keyshare/Gf256/Bytes.antt =====
-- The bytes as a field, with the exclusive or and the tables of src/lcsas/keyshare/slip39.py.
use mathlib.Core.HLevel.{Σ_prop_path}
use native.Mathlib.Bridge.{le_prop}
use lcsas.Prelude.{
  ℕ, zero, suc, ◌<◌, ◌≡◌, ◌≢◌, refl, ap, arith, bit_xor, ◌==◌, Bool-cases, inl, inr,
}
use lcsas.Prelude.Bits.{bit_xor-lt, bit_xor_assoc, bit_xor_comm, bit_xor-zero, bit_xor_self}
use lcsas.Keyshare.Gf256.Field.{BinaryField}
use lcsas.Keyshare.Gf256.Times.{
  times, inverse, times_comm, times_assoc, times_one, times-bit_xor, times-lt, times-inverse,
  inverse-lt,
}

abbrev pub Byte : Type 0
Byte = (n : ℕ) × (n < 256)

pub bit_xor_byte : (a b : ℕ) → a < 256 → b < 256 → bit_xor a b < 256
bit_xor_byte a b ha hb = bit_xor-lt 8 a b ha hb

pub byte_eq : {a b : Byte} → a.0 ≡ b.0 → a ≡ b
byte_eq e = Σ_prop_path (λ n. le_prop) e

pub decide_byte : Discrete Byte
decide_byte a b = elim (Bool-cases (a.0 == b.0)) [
  | inl e ↦ yes (byte_eq (ground arith))
  | inr e ↦ no (λ h. ground (arith, ap (λ (t : Byte). t.0) h))
]

abbrev add_byte : Byte → Byte → Byte
add_byte a b = (bit_xor a.0 b.0, bit_xor_byte a.0 b.0 a.1 b.1)

instance abbrev pub byte_field : BinaryField Byte
byte_field = record {
  zero = (0, omega arith);
  one = (1, omega arith);
  add = add_byte;
  mul = λ a b. (times a.0 b.0, times-lt a.0 b.0);
  inv = λ a. (inverse a.0, inverse-lt a.0);
  decide = decide_byte;
  add_assoc = λ a b c. byte_eq (bit_xor_assoc a.0 b.0 c.0);
  add_comm = λ a b. byte_eq (bit_xor_comm a.0 b.0);
  add_zero = λ a. byte_eq (bit_xor-zero a.0);
  add_self = λ a. byte_eq (bit_xor_self a.0);
  mul_assoc = λ a b c. byte_eq (times_assoc a.0 b.0 c.0);
  mul_comm = λ a b. byte_eq (times_comm a.0 b.0);
  mul_one = λ a. byte_eq (times_one a.0 a.1);
  mul-add = λ a b c. byte_eq (times-bit_xor a.0 b.0 c.0 b.1 c.1 (bit_xor_byte b.0 c.0 b.1 c.1));
  one_nonzero = λ h. absurd (omega (arith, ap (λ (t : Byte). t.0) h));
  mul-inv = λ a nonzero. byte_eq (times-inverse a.0 (positive a.0 (λ h. nonzero (byte_eq h))) a.1);
}
  where
    positive : (n : ℕ) → n ≢ 0 → 0 < n
    positive zero h = absurd (h refl)
    positive (suc n) h = omega arith
