-- ===== src/Keyshare/Shamir/Choice.antt =====
-- Shares chosen among those that `_split_secret` of src/lcsas/keyshare/slip39.py returned.
use mathlib.Core.Path.{subst}
use mathlib.Core.List.{Memᴰ}
use lcsas.Prelude.{
  ℕ, ◌<◌, ◌≡◌, refl, sym, ap, ◌∙◌, List, ◌++◌, length, take-append, drop-append, All, All-imp,
  Distinct, arith, list_eqb_refl, ◌==◌, false,
}
use lcsas.Prelude.Result.{ok}
use lcsas.Keyshare.Gf256.Bytes.{Byte, byte_field}
use lcsas.Keyshare.Gf256.Field.Polynomial.{IsPoly}
use lcsas.Keyshare.Gf256.Field.Lagrange.{All-of_mem}
use lcsas.Keyshare.Shamir.{
  RawShare, Crypto, create_digest, interpolate, x_coordinates, digest_index, secret_index,
  recover_secret,
}
use lcsas.Keyshare.Shamir.Sums.{IsByte, IsRawShare}
use lcsas.Keyshare.Shamir.Curve.{
  IsOnCurve, IsShareSet, All-of_shares, curve, curve-IsPoly, curve-IsOnCurve,
}
use lcsas.Keyshare.Shamir.Interpolation.{Interpolates, interpolate-IsOnCurve, same_value}
use lcsas.Keyshare.Shamir.Split.{IsSound, create_digest_lem}
use lcsas.Keyshare.Shamir.Dealt.{IsDealt}

-- Shares of the split, as many as the threshold asks for.
abbrev pub IsChoice : ℕ → List RawShare → List RawShare → Type 0
IsChoice threshold shares chosen =
    All (λ s. Memᴰ s shares) chosen
    × (Distinct (x_coordinates chosen) × (length chosen ≡ threshold))

chosen-All :
    (P : RawShare → Type 0) (shares chosen : List RawShare)
    → All (λ s. Memᴰ s shares) chosen
    → All P shares
    → All P chosen
chosen-All P shares chosen members h =
    All-imp _ P (λ s m. All-of_shares P s shares m h) chosen members

-- The value that shares of a choice give at `x` is on the curve of the split.
module _ (threshold size count : ℕ) (positive : 0 < threshold) (shared_secret digest_share : List ℕ)
    (shares : List RawShare)
    (dealt : IsDealt threshold size count shared_secret digest_share shares)
    (chosen : List RawShare) (choice : IsChoice threshold shares chosen) where
  abbrev pub curve_of : ℕ → Byte → Byte
  curve_of = dealt.1.1.0

  chosen-IsShareSet : IsShareSet size chosen
  chosen-IsShareSet = (
    chosen-All (IsRawShare size) shares chosen choice.0 dealt.1.0,
    (choice.1.0, omega (arith, choice.1.1)),
  )

  pub chosen_at : (x : ℕ) → IsByte x → Interpolates size curve_of chosen x
  chosen_at x byte =
      interpolate-IsOnCurve size chosen chosen-IsShareSet curve_of
        (λ c. subst (λ k. IsPoly k (curve_of c)) (sym choice.1.1) (dealt.1.1.1.0 c))
        (chosen-All (IsOnCurve curve_of) shares chosen choice.0 dealt.1.1.1.1.0) x byte

  known_at :
      (x : ℕ) (r : List ℕ)
      → IsRawShare size (record { x = x; share_data = r })
      → IsOnCurve curve_of (record { x = x; share_data = r })
      → interpolate chosen x ≡ ok r
  known_at x r valid on =
      let (t, (returned, (t_valid, t_on))) = chosen_at x valid.0 in
      returned ∙ ap ok (same_value size x curve_of t r t_valid valid t_on on)

  pub secret_at :
      length shared_secret ≡ size
      → All IsByte shared_secret
      → interpolate chosen secret_index ≡ ok shared_secret
  secret_at size_is bytes =
      known_at secret_index shared_secret (omega arith, (size_is, bytes)) dealt.1.1.1.1.1.0

  pub digest_at :
      length digest_share ≡ size
      → All IsByte digest_share
      → interpolate chosen digest_index ≡ ok digest_share
  digest_at size_is bytes =
      known_at digest_index digest_share (omega arith, (size_is, bytes)) dealt.1.1.1.1.1.1

module _ (crypto : Crypto) (sound : IsSound crypto) where
  pub recover_secret_from :
      (threshold : ℕ) (chosen : List RawShare) (shared_secret random_part : List ℕ)
      → 1 < threshold
      → interpolate chosen secret_index ≡ ok shared_secret
      → interpolate chosen digest_index
        ≡ ok (create_digest crypto random_part shared_secret ++ random_part)
      → recover_secret crypto threshold chosen ≡ ok shared_secret
  unfolding recover_secret
  recover_secret_from threshold chosen shared_secret random_part several at_secret at_digest =
      rw
        (
          several_eqb threshold several,
          at_secret,
          at_digest,
          take-append 4 (create_digest crypto random_part shared_secret) random_part
              (create_digest_lem crypto sound random_part shared_secret).0,
          drop-append 4 (create_digest crypto random_part shared_secret) random_part
              (create_digest_lem crypto sound random_part shared_secret).0,
          list_eqb_refl (create_digest crypto random_part shared_secret),
        )
        refl
    where
      several_eqb : (k : ℕ) → 1 < k → (k == 1) ≡ false
      several_eqb k h = ground arith

-- Shares with distinct indices and values of one length lie on the curve through them.
pub own_at :
    (size : ℕ) (shares : List RawShare) (valid : IsShareSet size shares)
    → (x : ℕ) → IsByte x
    → Interpolates size (curve size shares valid) shares x
own_at size shares valid x byte =
    interpolate-IsOnCurve size shares valid (curve size shares valid)
      (curve-IsPoly size shares valid) (All-of_mem _ shares (curve-IsOnCurve size shares valid)) x
      byte
