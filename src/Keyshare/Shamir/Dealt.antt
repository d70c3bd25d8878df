-- ===== src/Keyshare/Shamir/Dealt.antt =====
-- What `_split_secret` of src/lcsas/keyshare/slip39.py returns, and what a holder makes of it.
use mathlib.Core.Path.{subst}
use mathlib.Core.List.{Memᴰ}
use lcsas.Prelude.{
  ℕ, zero, suc, ◌+◌, ◌-◌, ◌≤◌, ◌≡◌, refl, ap, ap₂, ◌∙◌, List, [], ◌∷◌, ◌++◌, length, All,
  All-append, All-split, arith, ltb, ◌==◌, false,
}
use lcsas.Prelude.Result.{ok}
use lcsas.Keyshare.Gf256.Bytes.{Byte, byte_field}
use lcsas.Keyshare.Gf256.Field.Polynomial.{IsPoly}
use lcsas.Keyshare.Shamir.{
  RawShare, Crypto, create_digest, random_shares, interpolated_shares, base_shares_of,
  x_coordinates, digest_length_bytes, digest_index, secret_index, split_secret,
}
use lcsas.Keyshare.Shamir.Sums.{IsByte, IsRawShare}
use lcsas.Keyshare.Shamir.Curve.{IsOnCurve, IsShareSet, curve, curve-IsPoly, curve-IsOnCurve}
use lcsas.Keyshare.Shamir.Interpolation.{Interpolates, interpolate-IsOnCurve}
use lcsas.Keyshare.Shamir.Split.{
  IsSound, range, range-append, map-append, random_shares-x, base-length, base-IsShareSet,
}

abbrev Continued : (ℕ → Byte → Byte) → ℕ → List RawShare → ℕ → ℕ → Type 0
Continued f size base i n =
    (rest : List RawShare) × ((interpolated_shares base i n ≡ ok rest)
      × ((x_coordinates rest ≡ range i n) × (All (IsRawShare size) rest × All (IsOnCurve f) rest)))

module _ (f : ℕ → Byte → Byte) (size : ℕ) (base : List RawShare)
    (at : (x : ℕ) → IsByte x → Interpolates size f base x) where
  interpolated_shares-IsOnCurve : (i n : ℕ) → i + n ≤ 16 → Continued f size base i n
  unfolding interpolated_shares
  interpolated_shares-IsOnCurve i zero h = ([], (refl, (refl, (tt, tt))))
  interpolated_shares-IsOnCurve i (suc n) h =
      let (r, (returned, (valid, on))) = at i (omega arith) in
      let (rest, (returned_rest, (places, (rest_valid, rest_on)))) =
        interpolated_shares-IsOnCurve (i + 1) n (omega arith) in
      (
        record { x = i; share_data = r } ∷ rest,
        (
          rw (returned, returned_rest) refl,
          (ap (λ t. i ∷ t) places, ((valid, rest_valid), (on, rest_on))),
        ),
      )

-- Shares on one curve, which also holds the secret and the share with the digest.
abbrev pub IsDealt :
    (threshold size count : ℕ) → (shared_secret digest_share : List ℕ) → List RawShare → Type 0
IsDealt threshold size count shared_secret digest_share shares =
    (x_coordinates shares ≡ range 0 count)
    × (All (IsRawShare size) shares
        × ((f : ℕ → Byte → Byte) × (((c : ℕ) → IsPoly threshold (f c))
              × (All (IsOnCurve f) shares
                  × (IsOnCurve f (record { x = secret_index; share_data = shared_secret })
                      × IsOnCurve f (record { x = digest_index; share_data = digest_share }))))))

All-of_mem :
    (shares : List RawShare) (P : RawShare → Type 0)
    → ((s : RawShare) → Memᴰ s shares → P s)
    → All P shares
All-of_mem [] P h = tt
All-of_mem (s ∷ shares) P h = (h s (Memᴰ.head refl), All-of_mem shares P (λ t m. h t (Memᴰ.tail m)))

-- What the draws make of the share with the digest.
abbrev pub random_part_of : Crypto → ℕ → ℕ → List ℕ → List ℕ
random_part_of crypto n call shared_secret =
    crypto.random_bytes (call + n) (length shared_secret - digest_length_bytes)

abbrev pub digest_share_of : Crypto → ℕ → ℕ → List ℕ → List ℕ
digest_share_of crypto n call shared_secret =
    create_digest crypto (random_part_of crypto n call shared_secret) shared_secret
    ++ random_part_of crypto n call shared_secret

module _ (crypto : Crypto) (sound : IsSound crypto) (n count call : ℕ) (shared_secret : List ℕ)
    (enough : n + 2 ≤ count) (few : count ≤ 16) (large : 4 ≤ length shared_secret)
    (secret_is : All IsByte shared_secret) where
  abbrev size : ℕ
  size = length shared_secret

  abbrev shares : List RawShare
  shares = random_shares crypto 0 n size call

  abbrev random_part : List ℕ
  random_part = random_part_of crypto n call shared_secret

  abbrev base : List RawShare
  base = base_shares_of crypto shares random_part shared_secret

  few_random : n ≤ 16
  few_random = omega arith

  base_valid : IsShareSet size base
  base_valid =
      base-IsShareSet crypto sound n size call few_random large random_part shared_secret
        (sound.1 (call + n) (size - 4)).0 (sound.1 (call + n) (size - 4)).1 refl secret_is

  pub digest_share_is :
      (length (digest_share_of crypto n call shared_secret) ≡ size)
      × All IsByte (digest_share_of crypto n call shared_secret)
  unfolding base_shares_of
  digest_share_is = (All-split (IsRawShare size) shares _ base_valid.0).1.0.1

  base_curve : ℕ → Byte → Byte
  base_curve = curve size base base_valid

  base_curve-IsPoly : (c : ℕ) → IsPoly (n + 2) (base_curve c)
  unfolding base_curve
  base_curve-IsPoly c =
      subst (λ k. IsPoly k (curve size base base_valid c))
        (base-length crypto sound n size call few_random large random_part shared_secret
          (sound.1 (call + n) (size - 4)).0 (sound.1 (call + n) (size - 4)).1 refl secret_is)
        (curve-IsPoly size base base_valid c)

  base-IsOnCurve : All (IsOnCurve base_curve) base
  unfolding base_curve
  base-IsOnCurve = All-of_mem base (IsOnCurve base_curve) (curve-IsOnCurve size base base_valid)

  base_at : (x : ℕ) → IsByte x → Interpolates size base_curve base x
  unfolding base_curve
  base_at x byte =
      interpolate-IsOnCurve size base base_valid base_curve (curve-IsPoly size base base_valid)
        base-IsOnCurve x byte

  abbrev pub Deals : Type 0
  Deals =
      (dealt : List RawShare) × ((split_secret crypto (n + 2) count shared_secret call
          ≡ ok (dealt, call + n + 1))
        × IsDealt (n + 2) size count shared_secret (digest_share_of crypto n call shared_secret)
            dealt)

  open_guards :
      (ltb (n + 2) 1 ≡ false)
      × ((ltb count (n + 2) ≡ false)
          × ((ltb 16 count ≡ false) × (((n + 2 == 1) ≡ false) × (ltb size 4 ≡ false))))
  open_guards = (ground arith, (ground arith, (ground arith, (ground arith, ground arith))))

  split_secret_lem :
      (rest : List RawShare)
      → interpolated_shares base n (count - n) ≡ ok rest
      → split_secret crypto (n + 2) count shared_secret call ≡ ok (shares ++ rest, call + n + 1)
  unfolding split_secret
  split_secret_lem rest returned =
      let (g1, (g2, (g3, (g4, g5)))) = open_guards in
      rw (g1, g2, g3, g4, g5, two_less, returned) refl
    where
      two_less : n + 2 - 2 ≡ n
      two_less = omega arith

  pub split_secret-IsDealt : Deals
  unfolding base_shares_of
  split_secret-IsDealt =
      let (rest, (returned, (places, (valid, on)))) =
        interpolated_shares-IsOnCurve base_curve size base base_at n (count - n) (omega arith) in
      let (on_random, on_added) = All-split (IsOnCurve base_curve) shares _ base-IsOnCurve in
      let (valid_random, _) = All-split (IsRawShare size) shares _ base_valid.0 in
      (
        shares ++ rest,
        (
          split_secret_lem rest returned,
          (
            map-append shares rest
                ∙ ap₂ ◌++◌ (random_shares-x crypto sound 0 n size call) places
                ∙ whole,
            (
              All-append (IsRawShare size) shares rest valid_random valid,
              (
                base_curve,
                (
                  base_curve-IsPoly,
                  (
                    All-append (IsOnCurve base_curve) shares rest on_random on,
                    (on_added.1.0, on_added.0),
                  ),
                ),
              ),
            ),
          ),
        ),
      )
    where
      whole : range 0 n ++ range n (count - n) ≡ range 0 count
      whole =
          ap (λ t. range 0 n ++ range t (count - n)) {x = n} {y = 0 + n} (omega arith)
          ∙ range-append 0 n (count - n)
          ∙ ap (range 0) (omega arith)
