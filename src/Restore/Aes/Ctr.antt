-- ===== src/Restore/Aes/Ctr.antt =====
-- The counter mode of src/lcsas/restore/_aes_pure.py: its counter, its key stream and its inverse.

use Prim.Native.Nat.{min}
use lcsas.Prelude.{
  ℕ, zero, suc, ◌+◌, ◌/◌, ◌%◌, ◌<◌, ◌≤◌, ◌≡◌, refl, sym, ap, ap₂, ◌∙◌, List, [], ◌∷◌, ◌++◌, length,
  take, drop, get_or, ◌-◌, inl, inr, arith, bit_xor, length-drop, eq_of_get_or,
}
use lcsas.Prelude.Bits.{bit_xor_cancel}
use lcsas.Prelude.Digits.{to_digits, of_digits, IsDigits, to_digits-of_digits}
use lcsas.Prelude.Result.{ok, ◌>>=◌}
use lcsas.Restore.Aes.{
  key_schedule, aes_encrypt_block, bytes_of, bytes_of_column, inc_counter, xor_chunk, ctr_chunks,
  aes_ctr,
}
use lcsas.Restore.Aes.Counter.{split-at, inc_counter-to_digits}

length-xor_chunk :
    (rest ks more : List ℕ)
    → length (xor_chunk (take (length ks) rest) ks ++ more)
      ≡ min (length ks) (length rest) + length more
unfolding xor_chunk
length-xor_chunk rest [] more = omega arith
length-xor_chunk [] (k ∷ ks) more = omega arith
length-xor_chunk (d ∷ rest) (k ∷ ks) more = omega (arith, length-xor_chunk rest ks more)

get_or-xor_chunk :
    (i : ℕ) (rest ks more : List ℕ)
    → i < length rest
    → i < length ks
    → get_or (xor_chunk (take (length ks) rest) ks ++ more) i 0
      ≡ bit_xor (get_or rest i 0) (get_or ks i 0)
unfolding xor_chunk
get_or-xor_chunk i [] ks more h h' = absurd (omega arith)
get_or-xor_chunk i (d ∷ rest) [] more h h' = absurd (omega arith)
get_or-xor_chunk zero (d ∷ rest) (k ∷ ks) more h h' = refl
get_or-xor_chunk (suc i) (d ∷ rest) (k ∷ ks) more h h' =
    get_or-xor_chunk i rest ks more (omega arith) (omega arith)

get_or-past :
    (i : ℕ) (rest ks more : List ℕ)
    → length ks ≤ length rest
    → length ks ≤ i
    → get_or (xor_chunk (take (length ks) rest) ks ++ more) i 0 ≡ get_or more (i - length ks) 0
unfolding xor_chunk
get_or-past i rest [] more h h' = ap (λ (t : ℕ). get_or more t 0) {x = i} {y = i - 0} (omega arith)
get_or-past i [] (k ∷ ks) more h h' = absurd (omega arith)
get_or-past zero (d ∷ rest) (k ∷ ks) more h h' = absurd (omega arith)
get_or-past (suc i) (d ∷ rest) (k ∷ ks) more h h' =
    get_or-past i rest ks more (omega arith) (omega arith)
    ∙ ap (λ (t : ℕ). get_or more t 0) {x = i - length ks} {y = suc i - suc (length ks)}
        (omega arith)

get_or-drop : (n i : ℕ) (rest : List ℕ) → n ≤ i → get_or (drop n rest) (i - n) 0 ≡ get_or rest i 0
get_or-drop zero i rest h = ap (λ (t : ℕ). get_or rest t 0) {x = i - 0} {y = i} (omega arith)
get_or-drop (suc n) i [] h = refl
get_or-drop (suc n) zero (x ∷ rest) h = absurd (omega arith)
get_or-drop (suc n) (suc i) (x ∷ rest) h =
    ap (λ (t : ℕ). get_or (drop n rest) t 0) {x = suc i - suc n} {y = i - n} (omega arith)
    ∙ get_or-drop n i rest (omega arith)

pub length-aes_encrypt_block :
    (block : List ℕ) (rk : List (List ℕ)) → length (aes_encrypt_block block rk) ≡ 16
unfolding aes_encrypt_block bytes_of bytes_of_column
length-aes_encrypt_block block rk = refl

length-ctr_chunks :
    (fuel : ℕ) (rk : List (List ℕ)) (counter rest : List ℕ)
    → length rest ≤ fuel
    → length (ctr_chunks fuel rk counter rest) ≡ length rest
unfolding ctr_chunks aes_encrypt_block bytes_of bytes_of_column
length-ctr_chunks zero rk counter [] h = refl
length-ctr_chunks zero rk counter (d ∷ rest) h = absurd (omega arith)
length-ctr_chunks (suc fuel) rk counter [] h = refl
length-ctr_chunks (suc fuel) rk counter (d ∷ rest) h = omega (
  arith,
  length-xor_chunk (d ∷ rest) (aes_encrypt_block counter rk)
      (ctr_chunks fuel rk (inc_counter counter) (drop 15 rest)),
  length-ctr_chunks fuel rk (inc_counter counter) (drop 15 rest)
      (omega (arith, length-drop 15 rest)),
  length-drop 15 rest,
)

module _ (rk : List (List ℕ)) where
  -- The byte of the key stream at `i`, for a counter of 16 bytes that starts as `v`.
  abbrev pub stream_byte : ℕ → ℕ → ℕ
  stream_byte v i = get_or (aes_encrypt_block (to_digits 256 16 (v + i / 16)) rk) (i % 16) 0

  same_byte :
      (c c' j j' : ℕ)
      → c ≡ c'
      → j ≡ j'
      → get_or (aes_encrypt_block (to_digits 256 16 c) rk) j 0
        ≡ get_or (aes_encrypt_block (to_digits 256 16 c') rk) j' 0
  same_byte c c' j j' e e' =
      ap₂ (λ c j. get_or (aes_encrypt_block (to_digits 256 16 c) rk) j 0) e e'

  get_or-ctr_chunks :
      (fuel v i : ℕ) (rest : List ℕ)
      → length rest ≤ fuel
      → i < length rest
      → get_or (ctr_chunks fuel rk (to_digits 256 16 v) rest) i 0
        ≡ bit_xor (get_or rest i 0) (stream_byte v i)
  unfolding ctr_chunks aes_encrypt_block bytes_of bytes_of_column
  get_or-ctr_chunks fuel v i [] h h' = absurd (omega arith)
  get_or-ctr_chunks zero v i (d ∷ rest) h h' = absurd (omega arith)
  get_or-ctr_chunks (suc fuel) v i (d ∷ rest) h h' = elim (split-at 16 i) [
    | inr near ↦
        get_or-xor_chunk i (d ∷ rest) (aes_encrypt_block (to_digits 256 16 v) rk)
          (ctr_chunks fuel rk (inc_counter (to_digits 256 16 v)) (drop 15 rest)) h' near
        ∙ ap (bit_xor (get_or (d ∷ rest) i 0))
            (same_byte v (v + i / 16) i (i % 16) (omega arith) (omega arith))
    | inl far ↦
        get_or-past i (d ∷ rest) (aes_encrypt_block (to_digits 256 16 v) rk)
          (ctr_chunks fuel rk (inc_counter (to_digits 256 16 v)) (drop 15 rest)) (omega arith) far
        ∙ rw (inc_counter-to_digits 16 v) (
            get_or-ctr_chunks fuel (v + 1) (i - 16) (drop 15 rest)
              (omega (arith, length-drop 15 rest)) (omega (arith, length-drop 15 rest)))
        ∙ ap₂ bit_xor (get_or-drop 16 i (d ∷ rest) far) (
            same_byte (v + 1 + (i - 16) / 16) (v + i / 16) ((i - 16) % 16) (i % 16) (omega arith)
              (omega arith))
  ]

get_or-beyond : (values : List ℕ) (i : ℕ) → length values ≤ i → get_or values i 0 ≡ 0
get_or-beyond [] i h = refl
get_or-beyond (v ∷ values) zero h = absurd (omega arith)
get_or-beyond (v ∷ values) (suc i) h = get_or-beyond values i (omega arith)

-- For a key that the schedule takes and a counter of 16 bytes, the counter mode returns as many
-- bytes as the data has, and the byte at `i` is that of the data combined with byte `i % 16` of the
-- encryption of the counter plus `i / 16`, taken modulo 2 ^ 128.
pub aes_ctr_lem :
    (key iv values : List ℕ) (rk : List (List ℕ))
    → key_schedule key ≡ ok rk
    → length iv ≡ 16
    → IsDigits 256 iv
    → (out : List ℕ) × (aes_ctr key iv values ≡ ok out)
      × (length out ≡ length values)
      × ((i : ℕ)
          → i < length values
          → get_or out i 0 ≡ bit_xor (get_or values i 0) (stream_byte rk (of_digits 256 0 iv) i))
unfolding aes_ctr
aes_ctr_lem key iv values rk h size bytes = (
  ctr_chunks (length values) rk iv values,
  rw h refl,
  length-ctr_chunks (length values) rk iv values (omega arith),
  λ i within.
      ap (λ c. get_or (ctr_chunks (length values) rk c values) i 0) start
      ∙ get_or-ctr_chunks rk (length values) (of_digits 256 0 iv) i values (omega arith) within,
)
  where
    start : iv ≡ to_digits 256 16 (of_digits 256 0 iv)
    start =
        sym (to_digits-of_digits 256 (omega arith) iv bytes)
        ∙ ap (λ (n : ℕ). to_digits 256 n (of_digits 256 0 iv)) size

-- Under the same conditions, applying the counter mode to its own output gives the data back.
pub aes_ctr-aes_ctr :
    (key iv values : List ℕ) (rk : List (List ℕ))
    → key_schedule key ≡ ok rk
    → length iv ≡ 16
    → IsDigits 256 iv
    → (aes_ctr key iv values >>= aes_ctr key iv) ≡ ok values
aes_ctr-aes_ctr key iv values rk h size bytes =
    let (out, returned, long, at) = aes_ctr_lem key iv values rk h size bytes in
    let (back, returned', long', at') = aes_ctr_lem key iv out rk h size bytes in
    rw (returned, returned')
      (ap ok (
        eq_of_get_or back values (omega arith) (λ i. elim (split-at (length values) i) [
          | inl beyond ↦ get_or-beyond back i (omega arith) ∙ sym (get_or-beyond values i beyond)
          | inr within ↦
              at' i (omega arith) ∙ rw (at i within) (bit_xor_cancel (get_or values i 0) _)
        ])))
