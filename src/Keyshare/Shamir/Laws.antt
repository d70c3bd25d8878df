-- ===== src/Keyshare/Shamir/Laws.antt =====
-- The shares of src/lcsas/keyshare/slip39.py give back the secret.
use mathlib.Core.Path.{subst}
use mathlib.Core.List.{Memᴰ}
use lcsas.Prelude.{
  ℕ, zero, suc, ◌+◌, ◌-◌, ◌<◌, ◌≤◌, ◌≡◌, refl, sym, ap, ◌∙◌, ◌⊎◌, inl, inr, List, [], ◌∷◌, length,
  All, arith, ltb, ◌==◌, if_branch,
}
use lcsas.Prelude.Result.{ok, ok_inj, ok-past}
use lcsas.Keyshare.Errors.{
  threshold_not_positive, threshold_above_count, share_count_above_limit, negative_byte_count,
}
use lcsas.Keyshare.Gf256.Bytes.{byte_field}
use lcsas.Keyshare.Shamir.{
  RawShare, Crypto, interpolate, same_shares, first_data, split_secret, recover_secret,
}
use lcsas.Keyshare.Shamir.Sums.{IsByte}
use lcsas.Keyshare.Shamir.Interpolation.{Interpolates, same_value}
use lcsas.Keyshare.Shamir.Split.{IsSound}
use lcsas.Keyshare.Shamir.Dealt.{
  IsDealt, split_secret-IsDealt, random_part_of, digest_share_of, digest_share_is,
}
use lcsas.Keyshare.Shamir.Choice.{IsChoice, secret_at, digest_at, chosen_at, recover_secret_from}

-- The branches that return.
abbrev IsSingle : ℕ → ℕ → List ℕ → ℕ → List RawShare → ℕ → Type 0
IsSingle threshold share_count shared_secret call shares next =
    (threshold ≡ 1) × (shares ≡ same_shares 0 share_count shared_secret)

abbrev IsCurved : ℕ → ℕ → List ℕ → Type 0
IsCurved threshold share_count shared_secret =
    (n : ℕ) × ((threshold ≡ n + 2)
      × ((n + 2 ≤ share_count) × ((share_count ≤ 16) × (4 ≤ length shared_secret))))

module _ (crypto : Crypto) (threshold share_count : ℕ) (shared_secret : List ℕ) (call : ℕ)
    (shares : List RawShare) (next : ℕ) where
  split_secret-ok :
      split_secret crypto threshold share_count shared_secret call ≡ ok (shares, next)
      → IsSingle threshold share_count shared_secret call shares next
        ⊎ IsCurved threshold share_count shared_secret
  unfolding split_secret
  split_secret-ok returned =
      let (positive, rest) = ok-past threshold_not_positive (ltb threshold 1) returned in
      let (below, rest2) = ok-past threshold_above_count (ltb share_count threshold) rest in
      let (few, rest3) = ok-past share_count_above_limit (ltb 16 share_count) rest2 in
      elim (if_branch (threshold == 1) rest3) [
        | inl (one, h) ↦ inl (ground arith, sym (ap (λ t. t.0) (ok_inj h)))
        | inr (more, rest4) ↦
            let (large, _) = ok-past negative_byte_count (ltb (length shared_secret) 4) rest4 in
            inr (threshold - 2, (ground arith, (ground arith, (ground arith, ground arith))))
      ]

first_same :
    (i n : ℕ) (shared_secret : List ℕ) (s : RawShare)
    → Memᴰ s (same_shares i n shared_secret)
    → s.share_data ≡ shared_secret
unfolding same_shares
first_same i zero shared_secret s m = elim m [ ]
first_same i (suc n) shared_secret s (Memᴰ.head e) = ap (λ (t : RawShare). t.share_data) e
first_same i (suc n) shared_secret s (Memᴰ.tail m) = first_same (i + 1) n shared_secret s m

module _ (crypto : Crypto) where
  recover_single :
      (share_count : ℕ) (shared_secret : List ℕ) (chosen : List RawShare)
      → IsChoice 1 (same_shares 0 share_count shared_secret) chosen
      → recover_secret crypto 1 chosen ≡ ok shared_secret
  unfolding recover_secret first_data
  recover_single share_count shared_secret [] choice = absurd (omega (arith, choice.1.1))
  recover_single share_count shared_secret (s ∷ chosen) choice =
      ap ok (first_same 0 share_count shared_secret s choice.0.0)

  module _ (sound : IsSound crypto) (n share_count call : ℕ) (shared_secret : List ℕ)
      (enough : n + 2 ≤ share_count) (few : share_count ≤ 16) (large : 4 ≤ length shared_secret)
      (bytes : All IsByte shared_secret) (shares : List RawShare) (next : ℕ)
      (returned : split_secret crypto (n + 2) share_count shared_secret call
        ≡ ok (shares, next)) where
    abbrev digest_share : List ℕ
    digest_share = digest_share_of crypto n call shared_secret

    returned-IsDealt :
        IsDealt (n + 2) (length shared_secret) share_count shared_secret digest_share shares
    returned-IsDealt =
        let (dealt, (expected, is_dealt)) =
          split_secret-IsDealt crypto sound n share_count call shared_secret enough few large
            bytes in
        subst (IsDealt (n + 2) (length shared_secret) share_count shared_secret digest_share)
          (ap (λ t. t.0) (ok_inj (sym expected ∙ returned))) is_dealt

    module _ (chosen : List RawShare) (choice : IsChoice (n + 2) shares chosen) where
      recover_curved : recover_secret crypto (n + 2) chosen ≡ ok shared_secret
      recover_curved =
          let digest_is =
            digest_share_is crypto sound n share_count call shared_secret enough few large bytes in
          recover_secret_from crypto sound (n + 2) chosen shared_secret
            (random_part_of crypto n call shared_secret) (omega arith)
            (secret_at (n + 2) (length shared_secret) share_count (omega arith) shared_secret
              digest_share shares returned-IsDealt chosen choice refl bytes)
            (digest_at (n + 2) (length shared_secret) share_count (omega arith) shared_secret
              digest_share shares returned-IsDealt chosen choice digest_is.0 digest_is.1)

      curved_at :
          (x : ℕ) → IsByte x → Interpolates (length shared_secret) returned-IsDealt.1.1.0 chosen x
      curved_at =
          chosen_at (n + 2) (length shared_secret) share_count (omega arith) shared_secret
            digest_share shares returned-IsDealt chosen choice

    curved_same :
        (chosen others : List RawShare)
        → IsChoice (n + 2) shares chosen
        → IsChoice (n + 2) shares others
        → (x : ℕ) → IsByte x
        → (value : List ℕ) × ((interpolate chosen x ≡ ok value) × (interpolate others x ≡ ok value))
    curved_same chosen others choice choice' x byte =
        let (r, (returned_r, (valid_r, on_r))) = curved_at chosen choice x byte in
        let (t, (returned_t, (valid_t, on_t))) = curved_at others choice' x byte in
        (
          r,
          (
            returned_r,
            returned_t
                ∙ ap ok (
                    same_value (length shared_secret) x returned-IsDealt.1.1.0 t r valid_t valid_r
                      on_t on_r),
          ),
        )

-- Any `threshold` of the shares that a split of a secret of bytes returned, with distinct indices,
-- recover the secret, where HMAC-SHA256 returns 32 bytes and the random source the bytes it is asked
-- for.
pub recover_secret-split_secret :
    (crypto : Crypto)
    → IsSound crypto
    → (threshold share_count call : ℕ) (shared_secret : List ℕ) → All IsByte shared_secret
    → (shares : List RawShare) (next : ℕ)
    → split_secret crypto threshold share_count shared_secret call ≡ ok (shares, next)
    → (chosen : List RawShare) → IsChoice threshold shares chosen
    → recover_secret crypto threshold chosen ≡ ok shared_secret
recover_secret-split_secret crypto sound threshold share_count call shared_secret bytes shares next
      returned chosen choice =
    elim (split_secret-ok crypto threshold share_count shared_secret call shares next returned) [
      | inl (one, single) ↦ rw one (
          recover_single crypto share_count shared_secret chosen (
            subst (λ t. IsChoice 1 t chosen) single
              (subst (λ k. IsChoice k shares chosen) one choice)))
      | inr (n, (more, (enough, (few, large)))) ↦ rw more (
          recover_curved crypto sound n share_count call shared_secret enough few large bytes shares
            next
            (subst (λ k. split_secret crypto k share_count shared_secret call ≡ ok (shares, next))
              more returned)
            chosen (subst (λ k. IsChoice k shares chosen) more choice))
    ]

-- Two choices of shares with distinct indices of one split of a secret of bytes, as many as the
-- threshold each, interpolate to the same bytes at every index below 256, for a threshold above 1,
-- where HMAC-SHA256 returns 32 bytes and the random source the bytes it is asked for.
pub interpolate-split_secret :
    (crypto : Crypto)
    → IsSound crypto
    → (threshold share_count call : ℕ) (shared_secret : List ℕ) → All IsByte shared_secret
    → 1 < threshold
    → (shares : List RawShare) (next : ℕ)
    → split_secret crypto threshold share_count shared_secret call ≡ ok (shares, next)
    → (chosen others : List RawShare) → IsChoice threshold shares chosen
    → IsChoice threshold shares others
    → (x : ℕ) → x < 256
    → (value : List ℕ) × ((interpolate chosen x ≡ ok value) × (interpolate others x ≡ ok value))
interpolate-split_secret crypto sound threshold share_count call shared_secret bytes several shares
      next returned chosen others choice choice' x byte =
    elim (split_secret-ok crypto threshold share_count shared_secret call shares next returned) [
      | inl (one, single) ↦ absurd (omega arith)
      | inr (n, (more, (enough, (few, large)))) ↦
          curved_same crypto sound n share_count call shared_secret enough few large bytes shares
            next
            (subst (λ k. split_secret crypto k share_count shared_secret call ≡ ok (shares, next))
              more returned)
            chosen others (subst (λ k. IsChoice k shares chosen) more choice)
            (subst (λ k. IsChoice k shares others) more choice') x byte
    ]
