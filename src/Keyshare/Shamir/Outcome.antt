-- ===== src/Keyshare/Shamir/Outcome.antt =====
-- When the splitting and the recovery of src/lcsas/keyshare/slip39.py return.
use mathlib.Core.Path.{subst}
use lcsas.Prelude.{
  ℕ, zero, suc, ◌+◌, ◌-◌, ◌<◌, ◌≤◌, ◌≡◌, ◌≢◌, refl, sym, ap, ◌∙◌, ◌⊎◌, inl, inr, List, ◌∷◌, length,
  length-map, not, take, drop, All, Distinct, arith, list_eqb, list_eqb_refl, list_eqb→eq, ltb,
  ◌==◌, false, Bool-cases,
}
use lcsas.Prelude.Result.{ok, err, ok-past}
use lcsas.Keyshare.Errors.{secret_digest, share_indices_repeat, share_lengths_differ}
use lcsas.Keyshare.Gf256.Bytes.{byte_field}
use lcsas.Keyshare.Shamir.{
  RawShare, Crypto, as_set, value_lengths, create_digest, interpolate, x_coordinates, same_shares,
  digest_index, secret_index, split_secret, recover_secret,
}
use lcsas.Keyshare.Shamir.Sums.{IsByte, IsRawShare}
use lcsas.Keyshare.Shamir.Curve.{IsShareSet}
use lcsas.Keyshare.Shamir.Split.{IsSound, range}
use lcsas.Keyshare.Shamir.Dealt.{split_secret-IsDealt}
use lcsas.Keyshare.Shamir.Sets.{Distinct-of_set, one_length}
use lcsas.Keyshare.Shamir.Choice.{own_at}

same_shares-x :
    (i n : ℕ) (shared_secret : List ℕ) → x_coordinates (same_shares i n shared_secret) ≡ range i n
unfolding same_shares
same_shares-x i zero shared_secret = refl
same_shares-x i (suc n) shared_secret = ap (λ t. i ∷ t) (same_shares-x (i + 1) n shared_secret)

same_shares-IsRawShare :
    (i n : ℕ) (shared_secret : List ℕ)
    → i + n ≤ 16
    → All IsByte shared_secret
    → All (IsRawShare (length shared_secret)) (same_shares i n shared_secret)
unfolding same_shares
same_shares-IsRawShare i zero shared_secret h bytes = tt
same_shares-IsRawShare i (suc n) shared_secret h bytes = (
  (omega arith, (refl, bytes)),
  same_shares-IsRawShare (i + 1) n shared_secret (omega arith) bytes,
)

-- The shares have the indices 0, 1, ... and values of the secret's length.
abbrev pub HasShares : Crypto → ℕ → List ℕ → ℕ → ℕ → Type 0
HasShares crypto share_count shared_secret call threshold =
    (dealt : List RawShare) × ((next : ℕ) × ((split_secret crypto threshold share_count
            shared_secret call
          ≡ ok (dealt, next))
        × ((x_coordinates dealt ≡ range 0 share_count)
            × All (IsRawShare (length shared_secret)) dealt)))

module _ (crypto : Crypto) (sound : IsSound crypto) (threshold share_count call : ℕ)
    (shared_secret : List ℕ) (bytes : All IsByte shared_secret) (few : share_count ≤ 16) where
  single-HasShares : 0 < share_count → HasShares crypto share_count shared_secret call 1
  unfolding split_secret
  single-HasShares positive = (
    same_shares 0 share_count shared_secret,
    (
      call,
      (
        rw (guards.0, guards.1) refl,
        (
          same_shares-x 0 share_count shared_secret,
          same_shares-IsRawShare 0 share_count shared_secret (omega arith) bytes,
        ),
      ),
    ),
  )
    where
      guards : (ltb share_count 1 ≡ false) × (ltb 16 share_count ≡ false)
      guards = (ground arith, ground arith)

  curved-HasShares :
      (n : ℕ)
      → n + 2 ≤ share_count
      → 4 ≤ length shared_secret
      → HasShares crypto share_count shared_secret call (n + 2)
  curved-HasShares n enough large =
      let (dealt, (returned, is_dealt)) =
        split_secret-IsDealt crypto sound n share_count call shared_secret enough few large bytes in
      (dealt, (call + n + 1, (returned, (is_dealt.0, is_dealt.1.0))))

-- A split of a secret of four bytes or more with 1 to 16 shares, of which the threshold is at least 1
-- and at most all, succeeds, and its shares have the indices 0, 1, ... in order and values of the
-- secret's length, where HMAC-SHA256 returns 32 bytes and the random source the bytes it is asked for.
pub split_secret-total :
    (crypto : Crypto)
    → IsSound crypto
    → (threshold share_count call : ℕ) (shared_secret : List ℕ) → All IsByte shared_secret
    → 0 < threshold
    → threshold ≤ share_count
    → share_count ≤ 16
    → 4 ≤ length shared_secret
    → HasShares crypto share_count shared_secret call threshold
split_secret-total crypto sound threshold share_count call shared_secret bytes positive below few
      large =
    elim (Bool-cases (threshold == 1)) [
      | inl e ↦
          subst (HasShares crypto share_count shared_secret call) {x = 1} {y = threshold}
            (ground arith)
            (single-HasShares crypto sound threshold share_count call shared_secret bytes few
              (omega arith))
      | inr e ↦
          subst (HasShares crypto share_count shared_secret call) {x = threshold - 2 + 2}
            {y = threshold} (ground arith)
            (curved-HasShares crypto sound threshold share_count call shared_secret bytes few
              (threshold - 2) (ground arith) large)
    ]

-- The secret with the digest that goes with it, or the error that says that it does not.
abbrev pub RecoversWithDigest : Crypto → ℕ → List RawShare → Type 0
RecoversWithDigest crypto threshold shares =
    (shared_secret : List ℕ) × ((digest_share : List ℕ) × ((interpolate shares secret_index
          ≡ ok shared_secret)
        × ((interpolate shares digest_index ≡ ok digest_share)
            × (((take 4 digest_share ≡ create_digest crypto (drop 4 digest_share) shared_secret)
                  × (recover_secret crypto threshold shares ≡ ok shared_secret))
                ⊎ ((take 4 digest_share ≢ create_digest crypto (drop 4 digest_share) shared_secret)
                    × (recover_secret crypto threshold shares ≡ err secret_digest))))))

-- From one or more shares with distinct indices below 256 and values of bytes of one length, for a
-- threshold above 1, recovering gives the interpolated secret when its digest is that of the
-- interpolated share, and otherwise the error that says so.
pub recover_secret-digest :
    (crypto : Crypto) (threshold size : ℕ) (shares : List RawShare)
    → 1 < threshold
    → IsShareSet size shares
    → RecoversWithDigest crypto threshold shares
unfolding recover_secret
recover_secret-digest crypto threshold size shares several valid =
    let (secret, (at_secret, _)) = own_at size shares valid secret_index (omega arith) in
    let (share, (at_digest, _)) = own_at size shares valid digest_index (omega arith) in
    (
      secret,
      (
        share,
        (
          at_secret,
          (
            at_digest,
            elim (Bool-cases
                (list_eqb (take 4 share) (create_digest crypto (drop 4 share) secret))) [
                  | inl e ↦ inl (
                    list_eqb→eq _ _ e,
                    rw (several_eqb threshold several, at_secret, at_digest, e) refl,
                  )
                  | inr e ↦ inr (
                    differ _ _ e,
                    rw (several_eqb threshold several, at_secret, at_digest, e) refl,
                  )
                ],
          ),
        ),
      ),
    )
  where
    differ : (xs ys : List ℕ) → list_eqb xs ys ≡ false → xs ≢ ys
    differ xs ys h e = cc (list_eqb_refl ys, subst (λ t. list_eqb t ys ≡ false) e h)

    several_eqb : (k : ℕ) → 1 < k → (k == 1) ≡ false
    several_eqb k h = ground arith

-- Interpolation returns only for shares with distinct indices and values of one length.
pub interpolate_refuses :
    (shares : List RawShare) (x : ℕ) (value : List ℕ)
    → interpolate shares x ≡ ok value
    → Distinct (x_coordinates shares) × ((size : ℕ) × All (λ s. length s.share_data ≡ size) shares)
unfolding interpolate
interpolate_refuses shares x value returned =
    let (unique, rest) =
      ok-past share_indices_repeat (not (length (as_set (x_coordinates shares)) == length shares))
        returned in
    let (same, _) =
      ok-past share_lengths_differ (not (length (as_set (value_lengths shares)) == 1)) rest in
    (
      Distinct-of_set (x_coordinates shares)
          (passed _ _ unique ∙ sym (length-map shares (λ (s : RawShare). s.x))),
      one_length shares (passed _ _ same),
    )
  where
    passed : (a b : ℕ) → not (a == b) ≡ false → a ≡ b
    passed a b h = ground arith
