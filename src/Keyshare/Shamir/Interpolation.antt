-- ===== src/Keyshare/Shamir/Interpolation.antt =====
-- What the interpolation of src/lcsas/keyshare/slip39.py returns for shares on one curve.
use mathlib.Core.Path.{subst}
use lcsas.Prelude.{
  ℕ, ◌≡◌, refl, sym, ap, ap₂, ◌∙◌, inl, inr, List, map, length, length-map, get_or, replicate,
  length-replicate, All, All-map, All-imp, eq_of_get_or,
}
use lcsas.Prelude.Result.{ok}
use lcsas.Keyshare.Gf256.Bytes.{Byte, byte_eq, byte_field}
use lcsas.Keyshare.Gf256.Field.{◌⊕◌, zero-add}
use lcsas.Keyshare.Gf256.Field.Polynomial.{IsPoly}
use lcsas.Keyshare.Gf256.Field.Lagrange.{interpolant, lagrange_unique, All-of_mem}
use lcsas.Keyshare.Shamir.{RawShare, interpolate, x_coordinates}
use lcsas.Keyshare.Shamir.Columns.{to_byte, to_byte_inj}
use lcsas.Keyshare.Shamir.Sums.{IsByte, IsRawShare, point, get_or-IsByte, add_each-Sums}
use lcsas.Keyshare.Shamir.Sets.{data_at_cases, IsHeld, IsAbsent}
use lcsas.Keyshare.Shamir.Curve.{
  IsOnCurve, IsShareSet, All-of_shares, checks_pass, points-Distinct, coordinates-bytes,
  other_bytes, to_byte-Distinct, points_coordinates, within_coordinates, zeros, zeros-bytes,
}

-- The value at `x`, on the curve.
abbrev pub Interpolates : ℕ → (ℕ → Byte → Byte) → List RawShare → ℕ → Type 0
Interpolates size f shares x =
    (r : List ℕ) × ((interpolate shares x ≡ ok r)
      × (IsRawShare size (record { x = x; share_data = r })
          × IsOnCurve f (record { x = x; share_data = r })))

module _ (size : ℕ) (shares : List RawShare) (valid : IsShareSet size shares) (f : ℕ → Byte → Byte)
    (degree : (c : ℕ) → IsPoly (length shares) (f c)) (on : All (IsOnCurve f) shares) (x : ℕ)
    (byte : IsByte x) where
  held : IsHeld x shares → Interpolates size f shares x
  held (s, (m, (at, found))) = (
    s.share_data,
    (
      checks_pass size shares x valid ∙ found _,
      (
        (byte, (All-of_shares (IsRawShare size) s shares m valid.0).1),
        λ c. All-of_shares (IsOnCurve f) s shares m on c ∙ ap (λ t. f c (to_byte t)) at,
      ),
    ),
  )

  interpolant-curve :
      (c : ℕ)
      → interpolant (map to_byte (x_coordinates shares)) (map (point c) shares) (to_byte x)
        ≡ f c (to_byte x)
  interpolant-curve c =
      ap (λ t. interpolant t (map (point c) shares) (to_byte x)) (sym (points_coordinates c shares))
      ∙ lagrange_unique (map (point c) shares) (points-Distinct size shares valid c) (f c)
          (subst (λ n. IsPoly n (f c)) (sym (length-map shares (point c))) (degree c))
          (All-map _ (point c) shares (All-imp _ _ (λ s h. sym (h c)) shares on)) (to_byte x)

  absent : IsAbsent x shares → Interpolates size f shares x
  absent (missing, skipped) =
      let bytes = coordinates-bytes size shares valid in
      let (r, (returned, (r_size, (r_bytes, sums)))) =
        add_each-Sums x (x_coordinates shares) byte bytes
          (to_byte-Distinct (x_coordinates shares) bytes valid.1.0)
          (other_bytes x (x_coordinates shares) byte bytes missing) size shares (replicate size 0)
          valid.0 (All-of_mem _ shares (within_coordinates shares)) (length-replicate size 0)
          (zeros-bytes size) in
      (
        r,
        (
          checks_pass size shares x valid ∙ skipped _ ∙ returned,
          (
            (byte, (r_size, r_bytes)),
            λ c.
                sums c
                ∙ ap₂ ◌⊕◌ (ap to_byte (zeros size c) ∙ byte_eq refl) (interpolant-curve c)
                ∙ zero-add (f c (to_byte x)),
          ),
        ),
      )

  pub interpolate-IsOnCurve : Interpolates size f shares x
  interpolate-IsOnCurve = elim (data_at_cases x shares) [ inl h ↦ held h | inr h ↦ absent h ]

-- Two values on one curve at one place are equal.
pub same_value :
    (size x : ℕ) (f : ℕ → Byte → Byte) (r t : List ℕ)
    → IsRawShare size (record { x = x; share_data = r })
    → IsRawShare size (record { x = x; share_data = t })
    → IsOnCurve f (record { x = x; share_data = r })
    → IsOnCurve f (record { x = x; share_data = t })
    → r ≡ t
same_value size x f r t hr ht on_r on_t = eq_of_get_or r t (hr.1.0 ∙ sym ht.1.0) (λ c.
    to_byte_inj (get_or r c 0) (get_or t c 0) (get_or-IsByte r c hr.1.1) (get_or-IsByte t c ht.1.1)
      (on_r c ∙ sym (on_t c)))
