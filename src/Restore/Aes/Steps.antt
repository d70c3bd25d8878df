-- ===== src/Restore/Aes/Steps.antt =====
-- The steps of a round of src/lcsas/restore/_aes_pure.py, each of which can be undone.

use lcsas.Prelude.{ℕ, ◌<◌, ◌≡◌, ap, bit_xor}
use lcsas.Prelude.Bits.{bit_xor_inj_right}
use lcsas.Keyshare.Gf256.Bytes.{bit_xor_byte}
use lcsas.Restore.Aes.{
  Column, State, sbox_at, map_column, sub_bytes, shifted_column, shift_rows, mix_column,
  mix_columns,
}
use lcsas.Restore.Aes.Tables.{sbox_at-lt, sbox_at_inj}
use lcsas.Restore.Aes.Columns.{IsByteColumn, column_eq, mix_column_inj, mix_column-IsByteColumn}

abbrev pub IsByteState : State → Type 0
IsByteState s =
    IsByteColumn s.col0 × IsByteColumn s.col1 × IsByteColumn s.col2 × IsByteColumn s.col3

pub state_eq :
    {s t : State} → s.col0 ≡ t.col0 → s.col1 ≡ t.col1 → s.col2 ≡ t.col2 → s.col3 ≡ t.col3 → s ≡ t
state_eq e0 e1 e2 e3 i = record { col0 = e0 i; col1 = e1 i; col2 = e2 i; col3 = e3 i }

-- A step on a predicate: it keeps the predicate, and its result determines its argument.
abbrev pub Steps {ℓ} : {A : Type ℓ} → (A → Type 0) → (A → A) → Type ℓ
Steps P f = ((s : _) → P s → P (f s)) × ((s t : _) → P s → P t → f s ≡ f t → s ≡ t)

pub steps_then {ℓ} :
    {A : Type ℓ} (P : A → Type 0) (f g : A → A) → Steps P f → Steps P g → Steps P (λ s. g (f s))
steps_then P f g hf hg = (
  (λ s h. hg.0 (f s) (hf.0 s h)),
  (λ s t hs ht e. hf.1 s t hs ht (hg.1 (f s) (f t) (hf.0 s hs) (hf.0 t ht) e)),
)

abbrev pub IsByte : ℕ → Type 0
IsByte n = n < 256

pub on_rows :
    (f0 f1 f2 f3 : ℕ → ℕ)
    → Steps IsByte f0
    → Steps IsByte f1
    → Steps IsByte f2
    → Steps IsByte f3
    → Steps IsByteColumn
        (λ c. record { row0 = f0 c.row0; row1 = f1 c.row1; row2 = f2 c.row2; row3 = f3 c.row3 })
on_rows f0 f1 f2 f3 h0 h1 h2 h3 = (
  (λ c h. (h0.0 c.row0 h.0, h1.0 c.row1 h.1, h2.0 c.row2 h.2, h3.0 c.row3 h.3)),
  (λ c d h k e.
      column_eq (h0.1 c.row0 d.row0 h.0 k.0 (ap (λ x. x.row0) e))
        (h1.1 c.row1 d.row1 h.1 k.1 (ap (λ x. x.row1) e))
        (h2.1 c.row2 d.row2 h.2 k.2 (ap (λ x. x.row2) e))
        (h3.1 c.row3 d.row3 h.3 k.3 (ap (λ x. x.row3) e))),
)

pub on_columns :
    (f0 f1 f2 f3 : Column → Column)
    → Steps IsByteColumn f0
    → Steps IsByteColumn f1
    → Steps IsByteColumn f2
    → Steps IsByteColumn f3
    → Steps IsByteState
        (λ s. record { col0 = f0 s.col0; col1 = f1 s.col1; col2 = f2 s.col2; col3 = f3 s.col3 })
on_columns f0 f1 f2 f3 h0 h1 h2 h3 = (
  (λ c h. (h0.0 c.col0 h.0, h1.0 c.col1 h.1, h2.0 c.col2 h.2, h3.0 c.col3 h.3)),
  (λ c d h k e.
      state_eq (h0.1 c.col0 d.col0 h.0 k.0 (ap (λ x. x.col0) e))
        (h1.1 c.col1 d.col1 h.1 k.1 (ap (λ x. x.col1) e))
        (h2.1 c.col2 d.col2 h.2 k.2 (ap (λ x. x.col2) e))
        (h3.1 c.col3 d.col3 h.3 k.3 (ap (λ x. x.col3) e))),
)

pub sbox_steps : Steps IsByte sbox_at
sbox_steps = (sbox_at-lt, sbox_at_inj)

pub sub_bytes_steps : Steps IsByteState sub_bytes
unfolding sub_bytes map_column
sub_bytes_steps = on_columns _ _ _ _ columns columns columns columns
  where
    columns : Steps IsByteColumn (λ c. record {
      row0 = sbox_at c.row0;
      row1 = sbox_at c.row1;
      row2 = sbox_at c.row2;
      row3 = sbox_at c.row3;
    })
    columns = on_rows sbox_at sbox_at sbox_at sbox_at sbox_steps sbox_steps sbox_steps sbox_steps

pub mix_columns_steps : Steps IsByteState mix_columns
unfolding mix_columns
mix_columns_steps =
    on_columns mix_column mix_column mix_column mix_column columns columns columns columns
  where
    columns : Steps IsByteColumn mix_column
    columns = (mix_column-IsByteColumn, mix_column_inj)

pub shift_rows_steps : Steps IsByteState shift_rows
unfolding shift_rows shifted_column
shift_rows_steps = (
  (λ s (h0, h1, h2, h3). (
    (h0.0, h1.1, h2.2, h3.3),
    (h1.0, h2.1, h3.2, h0.3),
    (h2.0, h3.1, h0.2, h1.3),
    (h3.0, h0.1, h1.2, h2.3),
  )),
  (λ s t h k e.
      state_eq
        (column_eq (ap (λ x. x.col0.row0) e) (ap (λ x. x.col3.row1) e) (ap (λ x. x.col2.row2) e)
          (ap (λ x. x.col1.row3) e))
        (column_eq (ap (λ x. x.col1.row0) e) (ap (λ x. x.col0.row1) e) (ap (λ x. x.col3.row2) e)
          (ap (λ x. x.col2.row3) e))
        (column_eq (ap (λ x. x.col2.row0) e) (ap (λ x. x.col1.row1) e) (ap (λ x. x.col0.row2) e)
          (ap (λ x. x.col3.row3) e))
        (column_eq (ap (λ x. x.col3.row0) e) (ap (λ x. x.col2.row1) e) (ap (λ x. x.col1.row2) e)
          (ap (λ x. x.col0.row3) e))),
)

pub xor_steps : (k : ℕ) → IsByte k → Steps IsByte (λ x. bit_xor x k)
xor_steps k h = ((λ x hx. bit_xor_byte x k hx h), (λ a b ha hb e. bit_xor_inj_right a b k e))
