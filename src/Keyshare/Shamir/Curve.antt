-- ===== src/Keyshare/Shamir/Curve.antt =====
-- Shares on one curve: the interpolation of src/lcsas/keyshare/slip39.py stays on it.
use mathlib.Core.Path.{subst}
use mathlib.Core.List.{Memᴰ}
use lcsas.Prelude.{
  ℕ, zero, suc, ◌<◌, ◌≡◌, ◌≢◌, refl, sym, ap, List, [], ◌∷◌, map, length, length-map, get_or,
  replicate, All, All-map, All-imp, Distinct, arith, bit_xor, ◌==◌, true,
}
use lcsas.Keyshare.Gf256.Bytes.{Byte, byte_field}
use lcsas.Keyshare.Gf256.Field.Polynomial.{IsPoly}
use lcsas.Keyshare.Gf256.Field.Lagrange.{coordinates, lagrange, lagrange-IsPoly, lagrange-at}
use lcsas.Keyshare.Shamir.{
  RawShare, interpolate, x_coordinates, value_lengths, first_length, data_at, as_set, add_each,
  sum_logs,
}
use lcsas.Keyshare.Shamir.Columns.{to_byte, to_byte_inj}
use lcsas.Keyshare.Shamir.Sums.{IsByte, IsRawShare, point}
use lcsas.Keyshare.Shamir.Sets.{as_set-Distinct, as_set-constant}

-- One function for each byte of the value.
abbrev pub IsOnCurve : (ℕ → Byte → Byte) → RawShare → Type 0
IsOnCurve f s = (c : ℕ) → to_byte (get_or s.share_data c 0) ≡ f c (to_byte s.x)

-- What the checks of the interpolation ask for.
abbrev pub IsShareSet : ℕ → List RawShare → Type 0
IsShareSet size shares =
    All (IsRawShare size) shares × (Distinct (x_coordinates shares) × (0 < length shares))

pub All-of_shares :
    (P : RawShare → Type 0) (s : RawShare) (shares : List RawShare)
    → Memᴰ s shares
    → All P shares
    → P s
All-of_shares P s [] m h = elim m [ ]
All-of_shares P s (t ∷ shares) (Memᴰ.head e) h = subst P (sym e) h.0
All-of_shares P s (t ∷ shares) (Memᴰ.tail m) h = All-of_shares P s shares m h.1

-- Bytes that differ as numbers differ in the field.
pub other_bytes :
    (x : ℕ) (xs : List ℕ)
    → IsByte x
    → All IsByte xs
    → All (λ q. q ≢ x) xs
    → All (λ q. q ≢ to_byte x) (map to_byte xs)
other_bytes x [] hx hxs h = tt
other_bytes x (q ∷ xs) hx hxs h =
    ((λ e. h.0 (to_byte_inj q x hxs.0 hx e)), other_bytes x xs hx hxs.1 h.1)

pub to_byte-Distinct : (xs : List ℕ) → All IsByte xs → Distinct xs → Distinct (map to_byte xs)
to_byte-Distinct [] h distinct = tt
to_byte-Distinct (x ∷ xs) h distinct =
    (other_bytes x xs h.0 h.1 distinct.0, to_byte-Distinct xs h.1 distinct.1)

pub points_coordinates :
    (c : ℕ) (shares : List RawShare)
    → coordinates (map (point c) shares) ≡ map to_byte (x_coordinates shares)
points_coordinates c [] = refl
points_coordinates c (s ∷ shares) = ap (λ t. to_byte s.x ∷ t) (points_coordinates c shares)

pub within_coordinates :
    (shares : List RawShare) (s : RawShare)
    → Memᴰ s shares
    → Memᴰ (to_byte s.x) (map to_byte (x_coordinates shares))
within_coordinates [] s m = elim m [ ]
within_coordinates (t ∷ shares) s (Memᴰ.head e) = Memᴰ.head (ap (λ (r : RawShare). to_byte r.x) e)
within_coordinates (t ∷ shares) s (Memᴰ.tail m) = Memᴰ.tail (within_coordinates shares s m)

pub zeros : (n c : ℕ) → get_or {A = ℕ} (replicate n 0) c 0 ≡ 0
zeros zero c = refl
zeros (suc n) zero = refl
zeros (suc n) (suc c) = zeros n c

pub zeros-bytes : (n : ℕ) → All IsByte (replicate n 0)
zeros-bytes zero = tt
zeros-bytes (suc n) = (omega arith, zeros-bytes n)

module _ (size : ℕ) (shares : List RawShare) (valid : IsShareSet size shares) where
  pub coordinates-bytes : All IsByte (x_coordinates shares)
  coordinates-bytes =
      All-map IsByte (λ (s : RawShare). s.x) shares (All-imp _ _ (λ s h. h.0) shares valid.0)

  pub points-Distinct : (c : ℕ) → Distinct (coordinates (map (point c) shares))
  points-Distinct c =
      subst Distinct (sym (points_coordinates c shares))
        (to_byte-Distinct (x_coordinates shares) coordinates-bytes valid.1.0)

  -- The curve that the shares determine.
  pub curve : ℕ → Byte → Byte
  curve c = lagrange (map (point c) shares) (points-Distinct c)

  pub curve-IsPoly : (c : ℕ) → IsPoly (length shares) (curve c)
  unfolding curve
  curve-IsPoly c =
      subst (λ n. IsPoly n (lagrange (map (point c) shares) (points-Distinct c)))
        (length-map shares (point c)) (lagrange-IsPoly (map (point c) shares) (points-Distinct c))

  unmap :
      (P : Byte × Byte → Type 0) (c : ℕ) (ss : List RawShare)
      → All P (map (point c) ss)
      → All (λ s. P (point c s)) ss
  unmap P c [] h = tt
  unmap P c (s ∷ ss) h = (h.0, unmap P c ss h.1)

  pub curve-IsOnCurve : (s : RawShare) → Memᴰ s shares → IsOnCurve curve s
  unfolding curve
  curve-IsOnCurve s m c = sym (
      All-of_shares _ s shares m
        (unmap _ c shares (lagrange-at (map (point c) shares) (points-Distinct c))))

-- The checks pass on such shares.
lengths_lem :
    (size : ℕ) (shares : List RawShare)
    → All (IsRawShare size) shares
    → 0 < length shares
    → length (as_set (value_lengths shares)) ≡ 1
lengths_lem size [] valid nonempty = absurd (omega arith)
lengths_lem size (s ∷ shares) valid nonempty = ap length (
    as_set-constant size (length s.share_data) (value_lengths shares) (
      All-map _ (λ (t : RawShare). length t.share_data) (s ∷ shares)
        (All-imp _ _ (λ t h. h.1.0) (s ∷ shares) valid)))

pub first_length_lem :
    (size : ℕ) (shares : List RawShare)
    → All (IsRawShare size) shares
    → 0 < length shares
    → first_length shares ≡ size
unfolding first_length
first_length_lem size [] valid nonempty = absurd (omega arith)
first_length_lem size (s ∷ shares) valid nonempty = valid.0.1.0

eqb_self : (n : ℕ) → (n == n) ≡ true
eqb_self n = ground arith

pub checks_pass :
    (size : ℕ) (shares : List RawShare) (x : ℕ)
    → IsShareSet size shares
    → interpolate shares x
      ≡ data_at x shares (
          add_each
            (sum_logs (map (λ q. bit_xor q x) (x_coordinates shares)))
            x
            (x_coordinates shares)
            shares
            (replicate size 0))
unfolding interpolate
checks_pass size shares x valid =
    rw
      (
        as_set-Distinct (x_coordinates shares) valid.1.0,
        length-map shares (λ (s : RawShare). s.x),
        eqb_self (length shares),
        lengths_lem size shares valid.0 valid.1.1,
        first_length_lem size shares valid.0 valid.1.1,
      )
      refl
