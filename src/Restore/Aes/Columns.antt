-- ===== src/Restore/Aes/Columns.antt =====
-- MixColumns of src/lcsas/restore/_aes_pure.py on a column of bytes.
use lcsas.Prelude.{ℕ, ◌<◌, ◌≡◌, sym, ap, ap₂, ◌∙◌, bit_xor}
use lcsas.Prelude.Bits.{bit_xor_assoc, bit_xor_comm, bit_xor_left_comm}
use lcsas.Keyshare.Gf256.Times.{times, times-lt}
use lcsas.Keyshare.Gf256.Bytes.{Byte, bit_xor_byte, byte_field}
use lcsas.Keyshare.Gf256.Field.{◌⊕◌, ◌⊗◌}
use lcsas.Keyshare.Shamir.Columns.{to_byte, to_byte-val, to_byte_self, to_byte_inj, to_byte-bit_xor}
use lcsas.Restore.Aes.{Column, mul2, mul3, mix_column}
use lcsas.Restore.Aes.Tables.{mul2-times, mul3-times}
use lcsas.Restore.Aes.Mixing.{row, row_inj}

-- Bytes only.
abbrev pub IsByteColumn : Column → Type 0
IsByteColumn c = (c.row0 < 256) × (c.row1 < 256) × (c.row2 < 256) × (c.row3 < 256)

abbrev two : Byte
two = to_byte 2

mul2-byte : (a : ℕ) → a < 256 → to_byte (mul2 a) ≡ two ⊗ to_byte a
mul2-byte a h =
    ap to_byte (mul2-times a h ∙ ap (times 2) (sym (to_byte-val a h)))
    ∙ to_byte_self (two ⊗ to_byte a)

mul3-byte : (a : ℕ) → a < 256 → to_byte (mul3 a) ≡ two ⊗ to_byte a ⊕ to_byte a
mul3-byte a h =
    ap to_byte (mul3-times a h ∙ ap (λ (t : ℕ). bit_xor t a) (sym (mul2-times a h)))
    ∙ to_byte-bit_xor (mul2 a) a
    ∙ ap (λ t. t ⊕ to_byte a) (mul2-byte a h)

mul2-lt : (a : ℕ) → a < 256 → mul2 a < 256
mul2-lt a h = rw (mul2-times a h) (times-lt 2 a)

mul3-lt : (a : ℕ) → a < 256 → mul3 a < 256
mul3-lt a h = rw (mul3-times a h) (bit_xor_byte _ a (times-lt 2 a) h)

-- The row that starts at `a`, in bytes.
abbrev mixed : ℕ → ℕ → ℕ → ℕ → ℕ
mixed a b c d = bit_xor (bit_xor (bit_xor (mul2 a) (mul3 b)) c) d

mixed-row :
    (a b c d : ℕ)
    → a < 256
    → b < 256
    → to_byte (mixed a b c d) ≡ row two (to_byte a) (to_byte b) (to_byte c) (to_byte d)
mixed-row a b c d ha hb =
    to_byte-bit_xor _ d
    ∙ ap (λ t. t ⊕ to_byte d)
        (to_byte-bit_xor _ c
          ∙ ap (λ t. t ⊕ to_byte c)
              (to_byte-bit_xor (mul2 a) (mul3 b) ∙ ap₂ ◌⊕◌ (mul2-byte a ha) (mul3-byte b hb)))

mixed-lt : (a b c d : ℕ) → a < 256 → b < 256 → c < 256 → d < 256 → mixed a b c d < 256
mixed-lt a b c d ha hb hc hd =
    bit_xor_byte _ d (bit_xor_byte _ c (bit_xor_byte _ _ (mul2-lt a ha) (mul3-lt b hb)) hc) hd

-- Each row of the source is such a row.
rotate1 : (a b c d : ℕ) → bit_xor (bit_xor (bit_xor d a) b) c ≡ bit_xor (bit_xor (bit_xor a b) c) d
rotate1 a b c d = simp (bit_xor_assoc, bit_xor_comm)

pub column_eq :
    {s t : Column} → s.row0 ≡ t.row0 → s.row1 ≡ t.row1 → s.row2 ≡ t.row2 → s.row3 ≡ t.row3 → s ≡ t
column_eq e0 e1 e2 e3 i = record { row0 = e0 i; row1 = e1 i; row2 = e2 i; row3 = e3 i }

abbrev mixed_rows : Column → Column
mixed_rows s = record {
  row0 = mixed s.row0 s.row1 s.row2 s.row3;
  row1 = mixed s.row1 s.row2 s.row3 s.row0;
  row2 = mixed s.row2 s.row3 s.row0 s.row1;
  row3 = mixed s.row3 s.row0 s.row1 s.row2;
}

in_bytes :
    (a b c d a' b' c' d' : ℕ)
    → a < 256
    → b < 256
    → a' < 256
    → b' < 256
    → mixed a b c d ≡ mixed a' b' c' d'
    → row two (to_byte a) (to_byte b) (to_byte c) (to_byte d)
      ≡ row two (to_byte a') (to_byte b') (to_byte c') (to_byte d')
in_bytes a b c d a' b' c' d' ha hb ha' hb' e =
    sym (mixed-row a b c d ha hb) ∙ ap to_byte e ∙ mixed-row a' b' c' d' ha' hb'

mix_column-mixed : (s : Column) → mix_column s ≡ mixed_rows s
unfolding mix_column
mix_column-mixed s i = record {
  row0 = mixed s.row0 s.row1 s.row2 s.row3;
  row1 = rotate1 (mul2 s.row1) (mul3 s.row2) s.row3 s.row0 i;
  row2 = rotate2 s.row0 s.row1 (mul2 s.row2) (mul3 s.row3) i;
  row3 = rotate3 (mul3 s.row0) s.row1 s.row2 (mul2 s.row3) i;
}
  where
    rotate2 :
        (a b c d : ℕ) → bit_xor (bit_xor (bit_xor a b) c) d ≡ bit_xor (bit_xor (bit_xor c d) a) b
    rotate2 a b c d = simp (bit_xor_assoc, bit_xor_comm, bit_xor_left_comm)

    rotate3 :
        (a b c d : ℕ) → bit_xor (bit_xor (bit_xor a b) c) d ≡ bit_xor (bit_xor (bit_xor d a) b) c
    rotate3 a b c d = simp (bit_xor_assoc, bit_xor_comm)

pub mix_column-IsByteColumn : (s : Column) → IsByteColumn s → IsByteColumn (mix_column s)
mix_column-IsByteColumn s (h0, h1, h2, h3) = rw (mix_column-mixed s) (
  mixed-lt _ _ _ _ h0 h1 h2 h3,
  mixed-lt _ _ _ _ h1 h2 h3 h0,
  mixed-lt _ _ _ _ h2 h3 h0 h1,
  mixed-lt _ _ _ _ h3 h0 h1 h2,
)

pub mix_column_inj :
    (s t : Column) → IsByteColumn s → IsByteColumn t → mix_column s ≡ mix_column t → s ≡ t
mix_column_inj s t (h0, h1, h2, h3) (k0, k1, k2, k3) e =
    column_eq
      (row_at _ _ _ _ _ _ _ _ h0 h1 h2 h3 k0 k1 k2 k3 (ap (λ c. c.row0) e') (ap (λ c. c.row1) e')
        (ap (λ c. c.row2) e') (ap (λ c. c.row3) e'))
      (row_at _ _ _ _ _ _ _ _ h1 h2 h3 h0 k1 k2 k3 k0 (ap (λ c. c.row1) e') (ap (λ c. c.row2) e')
        (ap (λ c. c.row3) e') (ap (λ c. c.row0) e'))
      (row_at _ _ _ _ _ _ _ _ h2 h3 h0 h1 k2 k3 k0 k1 (ap (λ c. c.row2) e') (ap (λ c. c.row3) e')
        (ap (λ c. c.row0) e') (ap (λ c. c.row1) e'))
      (row_at _ _ _ _ _ _ _ _ h3 h0 h1 h2 k3 k0 k1 k2 (ap (λ c. c.row3) e') (ap (λ c. c.row0) e')
        (ap (λ c. c.row1) e') (ap (λ c. c.row2) e'))
  where
    e' : mixed_rows s ≡ mixed_rows t
    e' = sym (mix_column-mixed s) ∙ e ∙ mix_column-mixed t

    row_at :
        (a b c d a' b' c' d' : ℕ)
        → a < 256
        → b < 256
        → c < 256
        → d < 256
        → a' < 256
        → b' < 256
        → c' < 256
        → d' < 256
        → mixed a b c d ≡ mixed a' b' c' d'
        → mixed b c d a ≡ mixed b' c' d' a'
        → mixed c d a b ≡ mixed c' d' a' b'
        → mixed d a b c ≡ mixed d' a' b' c'
        → a ≡ a'
    row_at a b c d a' b' c' d' ha hb hc hd ha' hb' hc' hd' e0 e1 e2 e3 = to_byte_inj a a' ha ha' (
        row_inj two _ _ _ _ _ _ _ _ (in_bytes a b c d a' b' c' d' ha hb ha' hb' e0)
          (in_bytes b c d a b' c' d' a' hb hc hb' hc' e1)
          (in_bytes c d a b c' d' a' b' hc hd hc' hd' e2)
          (in_bytes d a b c d' a' b' c' hd ha hd' ha' e3))
