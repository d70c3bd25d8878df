-- ===== src/Restore/Aes/Blocks.antt =====
-- The block cipher of src/lcsas/restore/_aes_pure.py: every step can be undone.
use mathlib.Core.Path.{subst}
use lcsas.Prelude.{
  ℕ, zero, suc, ◌+◌, ◌-◌, ◌<◌, ◌≡◌, refl, sym, ap, ◌∙◌, List, [], ◌∷◌, length, get_or, All, drop,
  ◌≤◌, ◌==◌, if_branch, inl, inr, All-append, arith,
}
use lcsas.Prelude.Result.{ok, ok_inj, ok-when}
use lcsas.Prelude.Digits.{to_digits, to_digits-IsDigits}
use lcsas.Keyshare.Shamir.Sums.{get_or-IsByte}
use lcsas.Restore.Aes.{
  key_length, key_schedule, expanded_keys, pack_key, pack_keys, Column, State, column_of, state_of,
  sub_bytes, shift_rows, mix_columns, xor_column, add_round_key, middle_rounds, aes_encrypt_block,
  bytes_of, bytes_of_column,
}
use lcsas.Restore.Aes.Columns.{IsByteColumn}
use lcsas.Restore.Aes.Steps.{
  IsByteState, Steps, steps_then, IsByte, on_rows, on_columns, sub_bytes_steps, mix_columns_steps,
  shift_rows_steps, xor_steps,
}

get_or-IsBytes :
    (keys : List (List ℕ)) (i : ℕ) → All (All IsByte) keys → All IsByte (get_or keys i [])
get_or-IsBytes [] i h = tt
get_or-IsBytes (k ∷ keys) zero h = h.0
get_or-IsBytes (k ∷ keys) (suc i) h = get_or-IsBytes keys i h.1

state_of-IsByteState : (block : List ℕ) → All IsByte block → IsByteState (state_of block)
unfolding state_of column_of
state_of-IsByteState block h =
    let at = λ (i : ℕ). get_or-IsByte block i h in
    (
      (at 0, at 1, at 2, at 3),
      (at 4, at 5, at 6, at 7),
      (at 8, at 9, at 10, at 11),
      (at 12, at 13, at 14, at 15),
    )

module _ (rk : List ℕ) (bytes : All IsByte rk) where
  abbrev round_key : State
  round_key = state_of rk

  xor_column_steps : (k : Column) → IsByteColumn k → Steps IsByteColumn (λ c. xor_column c k)
  unfolding xor_column
  xor_column_steps k (h0, h1, h2, h3) =
      on_rows _ _ _ _ (xor_steps k.row0 h0) (xor_steps k.row1 h1) (xor_steps k.row2 h2)
        (xor_steps k.row3 h3)

  add_round_key_steps : Steps IsByteState (λ s. add_round_key s rk)
  unfolding add_round_key
  add_round_key_steps =
      let (h0, h1, h2, h3) = state_of-IsByteState rk bytes in
      on_columns _ _ _ _ (xor_column_steps round_key.col0 h0) (xor_column_steps round_key.col1 h1)
        (xor_column_steps round_key.col2 h2) (xor_column_steps round_key.col3 h3)

module _ (keys : List (List ℕ)) (bytes : All (All IsByte) keys) where
  keyed_steps : (i : ℕ) → Steps IsByteState (λ s. add_round_key s (get_or keys i []))
  keyed_steps i = add_round_key_steps (get_or keys i []) (get_or-IsBytes keys i bytes)

  substituted_steps : Steps IsByteState (λ s. shift_rows (sub_bytes s))
  substituted_steps = steps_then IsByteState sub_bytes shift_rows sub_bytes_steps shift_rows_steps

  round_steps :
      (i : ℕ)
      → Steps IsByteState
          (λ s. add_round_key (mix_columns (shift_rows (sub_bytes s))) (get_or keys i []))
  round_steps i =
      steps_then IsByteState _ _
        (steps_then IsByteState _ mix_columns substituted_steps mix_columns_steps) (keyed_steps i)

  middle_rounds_steps : (n i : ℕ) → Steps IsByteState (middle_rounds keys i n)
  unfolding middle_rounds
  middle_rounds_steps zero i = ((λ s h. h), (λ s t h k e. e))
  middle_rounds_steps (suc n) i =
      steps_then IsByteState _ (middle_rounds keys (i + 1) n) (round_steps i)
        (middle_rounds_steps n (i + 1))

  abbrev cipher : State → State
  cipher s =
      let nr = length keys - 1 in
      add_round_key
        (shift_rows
          (sub_bytes (middle_rounds keys 1 (nr - 1) (add_round_key s (get_or keys 0 [])))))
        (get_or keys nr [])

  cipher_steps : Steps IsByteState cipher
  cipher_steps =
      steps_then IsByteState _ _
        (steps_then IsByteState _ _
          (steps_then IsByteState _ (middle_rounds keys 1 (length keys - 1 - 1)) (keyed_steps 0)
            (middle_rounds_steps (length keys - 1 - 1) 1))
          substituted_steps)
        (keyed_steps (length keys - 1))

abbrev cells : ℕ → ℕ → List ℕ → List ℕ
cells i zero block = []
cells i (suc n) block = get_or block i 0 ∷ cells (i + 1) n block

cells-drop : (n i : ℕ) (block : List ℕ) → length block ≡ i + n → cells i n block ≡ drop i block
cells-drop zero i block h = sym (drop-all i block (omega arith))
  where
    drop-all : (i : ℕ) (block : List ℕ) → length block ≤ i → drop i block ≡ []
    drop-all zero [] h = refl
    drop-all zero (b ∷ block) h = absurd (omega arith)
    drop-all (suc i) [] h = refl
    drop-all (suc i) (b ∷ block) h = drop-all i block (omega arith)
cells-drop (suc n) i block h =
    ap (λ t. get_or block i 0 ∷ t) (cells-drop n (i + 1) block (omega arith) ∙ next)
    ∙ first i block (omega arith)
  where
    next : drop (i + 1) block ≡ drop (suc i) block
    next = ap (λ (t : ℕ). drop t block) {x = i + 1} {y = suc i} (omega arith)

    first :
        (i : ℕ) (block : List ℕ)
        → i < length block
        → get_or block i 0 ∷ drop (suc i) block ≡ drop i block
    first i [] h = absurd (omega arith)
    first zero (b ∷ block) h = refl
    first (suc i) (b ∷ block) h = first i block (omega arith)

bytes_of-state_of : (block : List ℕ) → length block ≡ 16 → bytes_of (state_of block) ≡ block
unfolding bytes_of bytes_of_column state_of column_of
bytes_of-state_of block h = cells-drop 16 0 block h

state_of-bytes_of : (s : State) → state_of (bytes_of s) ≡ s
unfolding bytes_of bytes_of_column state_of column_of
state_of-bytes_of s = refl

pack_keys-IsBytes : (w : List ℕ) (r n : ℕ) → All (All IsByte) (pack_keys w r n)
unfolding pack_keys pack_key
pack_keys-IsBytes w r zero = tt
pack_keys-IsBytes w r (suc n) = (
  All-append IsByte _ _ (word _)
      (All-append IsByte _ _ (word _) (All-append IsByte _ _ (word _) (word _))),
  pack_keys-IsBytes w (r + 1) n,
)
  where
    word : (v : ℕ) → All IsByte (to_digits 256 4 v)
    word v = to_digits-IsDigits 256 (omega arith) 4 v

key_schedule-IsBytes :
    (key : List ℕ) (rk : List (List ℕ)) → key_schedule key ≡ ok rk → All (All IsByte) rk
unfolding key_schedule expanded_keys
key_schedule-IsBytes key rk h = elim (if_branch (length key == 16) h) [
  | inl (_, e) ↦ subst (All (All IsByte)) (ok_inj e) (pack_keys-IsBytes _ 0 11)
  | inr (_, e) ↦
      subst (All (All IsByte)) (ok-when key_length (length key == 32) e).1
        (pack_keys-IsBytes _ 0 15)
]

-- Under round keys that the key schedule returns, no two blocks of 16 bytes have the same
-- encryption.
pub aes_encrypt_block_inj :
    (key a b : List ℕ) (rk : List (List ℕ))
    → key_schedule key ≡ ok rk
    → length a ≡ 16
    → length b ≡ 16
    → All IsByte a
    → All IsByte b
    → aes_encrypt_block a rk ≡ aes_encrypt_block b rk
    → a ≡ b
unfolding aes_encrypt_block
aes_encrypt_block_inj key a b rk h la lb ha hb e =
    sym (bytes_of-state_of a la)
    ∙ ap bytes_of (
        (cipher_steps rk (key_schedule-IsBytes key rk h)).1 (state_of a) (state_of b)
          (state_of-IsByteState a ha) (state_of-IsByteState b hb)
          (sym (state_of-bytes_of _) ∙ ap state_of e ∙ state_of-bytes_of _))
    ∙ bytes_of-state_of b lb
