-- ===== src/Keyshare/Shamir/Sums.antt =====
-- The sums of the interpolation of src/lcsas/keyshare/slip39.py, byte by byte.

use mathlib.Core.List.{Memᴰ}
use lcsas.Prelude.{
  ℕ, zero, suc, ◌<◌, ◌≡◌, ◌≢◌, refl, sym, ap, ◌∙◌, List, [], ◌∷◌, map, length, get_or, All,
  Distinct, arith, bit_xor,
}
use lcsas.Prelude.Result.{ok}
use lcsas.Keyshare.Gf256.Bytes.{Byte, byte_field, bit_xor_byte}
use lcsas.Keyshare.Gf256.Field.{◌⊕◌, ◌⊗◌}
use lcsas.Keyshare.Gf256.Field.Others.{basis}
use lcsas.Keyshare.Gf256.Field.Lagrange.{interpolant, weighted}
use lcsas.Keyshare.Shamir.{RawShare, add_scaled, add_each, scaled, log_basis_eval, sum_logs}
use lcsas.Keyshare.Shamir.Columns.{
  to_byte, to_byte-bit_xor, power, power-log_basis_eval, to_byte-scaled, scaled-lt,
}

abbrev pub IsByte : ℕ → Type 0
IsByte n = n < 256

-- A share whose value has `size` bytes.
abbrev pub IsRawShare : ℕ → RawShare → Type 0
IsRawShare size s = IsByte s.x × ((length s.share_data ≡ size) × All IsByte s.share_data)

-- The point that a share holds in column `c`.
abbrev pub point : ℕ → RawShare → Byte × Byte
point c s = (to_byte s.x, to_byte (get_or s.share_data c 0))

scaled_zero : (log_basis : ℕ) → scaled log_basis 0 ≡ 0
unfolding scaled
scaled_zero log_basis = refl

-- One pass of the loop.
Adds : ℕ → List ℕ → List ℕ → List ℕ → Type 0
Adds log_basis values result r =
    (add_scaled log_basis values result ≡ ok r)
    × ((length r ≡ length result)
        × (All IsByte r
            × ((c : ℕ)
                → get_or r c 0
                  ≡ bit_xor (get_or result c 0) (scaled log_basis (get_or values c 0)))))

add_scaled-Adds :
    (log_basis : ℕ) (values result : List ℕ)
    → length values ≡ length result
    → All IsByte values
    → All IsByte result
    → (r : List ℕ) × Adds log_basis values result r
unfolding add_scaled Adds
add_scaled-Adds log_basis [] [] h hv hr =
    ([], (refl, (refl, (tt, λ c. sym (ap (bit_xor 0) (scaled_zero log_basis))))))
add_scaled-Adds log_basis [] (_ ∷ _) h hv hr = absurd (omega arith)
add_scaled-Adds log_basis (_ ∷ _) [] h hv hr = absurd (omega arith)
add_scaled-Adds log_basis (v ∷ values) (t ∷ result) h hv hr =
    let (r, (returned, (size, (bytes, entries)))) =
      add_scaled-Adds log_basis values result (omega arith) hv.1 hr.1 in
    (
      bit_xor t (scaled log_basis v) ∷ r,
      (
        rw returned refl,
        (
          ap suc size,
          (
            (bit_xor_byte t _ hr.0 (scaled-lt log_basis v), bytes),
            entry log_basis v t values result r entries,
          ),
        ),
      ),
    )
  where
    entry :
        (log_basis v t : ℕ) (values result r : List ℕ)
        → ((c : ℕ)
            → get_or r c 0 ≡ bit_xor (get_or result c 0) (scaled log_basis (get_or values c 0)))
        → (c : ℕ)
        → get_or (bit_xor t (scaled log_basis v) ∷ r) c 0
          ≡ bit_xor (get_or (t ∷ result) c 0) (scaled log_basis (get_or (v ∷ values) c 0))
    entry log_basis v t values result r h zero = refl
    entry log_basis v t values result r h (suc c) = h c

pub get_or-IsByte : (xs : List ℕ) (c : ℕ) → All IsByte xs → IsByte (get_or xs c 0)
get_or-IsByte [] c h = omega arith
get_or-IsByte (x ∷ xs) zero h = h.0
get_or-IsByte (x ∷ xs) (suc c) h = get_or-IsByte xs c h.1

module _ (x : ℕ) (xs : List ℕ) (byte : IsByte x) (bytes : All IsByte xs)
    (distinct : Distinct (map to_byte xs)) (off : All (λ q. q ≢ to_byte x) (map to_byte xs)) where
  abbrev log_prod : ℕ
  log_prod = sum_logs (map (λ q. bit_xor q x) xs)

  power-weighted :
      (p : ℕ)
      → IsByte p
      → Memᴰ (to_byte p) (map to_byte xs)
      → power (log_basis_eval log_prod x xs p) ≡ weighted (to_byte p) (map to_byte xs) (to_byte x)
  power-weighted p hp m =
      basis (power (log_basis_eval log_prod x xs p)) (to_byte p) (to_byte x) (map to_byte xs) m
        distinct off (power-log_basis_eval p x xs hp byte bytes)

  term :
      (c v : ℕ) (s : RawShare)
      → IsByte s.x
      → IsByte (get_or s.share_data c 0)
      → Memᴰ (to_byte s.x) (map to_byte xs)
      → to_byte (bit_xor v (scaled (log_basis_eval log_prod x xs s.x) (get_or s.share_data c 0)))
        ≡ to_byte v
          ⊕ to_byte (get_or s.share_data c 0) ⊗ weighted (to_byte s.x) (map to_byte xs) (to_byte x)
  term c v s hp hv m =
      to_byte-bit_xor v _
      ∙ ap (λ t. to_byte v ⊕ t)
          (to_byte-scaled (log_basis_eval log_prod x xs s.x) (get_or s.share_data c 0) hv
            ∙ ap (λ t. to_byte (get_or s.share_data c 0) ⊗ t) (power-weighted s.x hp m))

  abbrev Sums : ℕ → List RawShare → List ℕ → List ℕ → Type 0
  Sums size shares result r =
      (length r ≡ size)
      × (All IsByte r
          × ((c : ℕ)
              → to_byte (get_or r c 0)
                ≡ to_byte (get_or result c 0)
                  ⊕ interpolant (map to_byte xs) (map (point c) shares) (to_byte x)))

  pub add_each-Sums :
      (size : ℕ) (shares : List RawShare) (result : List ℕ)
      → All (IsRawShare size) shares
      → All (λ s. Memᴰ (to_byte s.x) (map to_byte xs)) shares
      → length result ≡ size
      → All IsByte result
      → (r : List ℕ) × ((add_each log_prod x xs shares result ≡ ok r) × Sums size shares result r)
  unfolding add_each Adds
  add_each-Sums size [] result valid within hl hr =
      (result, (refl, (hl, (hr, λ c. sym (byte_field.add_zero (to_byte (get_or result c 0)))))))
  add_each-Sums size (s ∷ shares) result valid within hl hr =
      let basis = log_basis_eval log_prod x xs s.x in
      let (next, (added, (next_size, (next_bytes, entries)))) =
        add_scaled-Adds basis s.share_data result (valid.0.1.0 ∙ sym hl) valid.0.1.1 hr in
      let (r, (returned, (r_size, (r_bytes, sums)))) =
        add_each-Sums size shares next valid.1 within.1 (next_size ∙ hl) next_bytes in
      (
        r,
        (
          rw added returned,
          (
            r_size,
            (
              r_bytes,
              λ c.
                  sums c
                  ∙ ap (λ t. t ⊕ interpolant (map to_byte xs) (map (point c) shares) (to_byte x))
                      (ap to_byte (entries c)
                        ∙ term c (get_or result c 0) s valid.0.0
                            (get_or-IsByte s.share_data c valid.0.1.1) within.0)
                  ∙ byte_field.add_assoc _ _ _,
            ),
          ),
        ),
      )
