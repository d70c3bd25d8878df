-- ===== src/Keyshare/Shamir/Split.antt =====
-- The shares that `_split_secret` of src/lcsas/keyshare/slip39.py hands out lie on one curve.

use lcsas.Prelude.{
  ℕ, zero, suc, ◌+◌, ◌-◌, ◌<◌, ◌≤◌, ◌≡◌, ◌≢◌, refl, ap, ap₂, ◌∙◌, List, [], ◌∷◌, ◌++◌, length,
  length-append, length-take, All, All-append, All-take, All-imp, Distinct, arith,
}
use lcsas.Keyshare.Shamir.{
  RawShare, Crypto, create_digest, random_shares, base_shares_of, x_coordinates, digest_index,
  secret_index,
}
use lcsas.Keyshare.Shamir.Sums.{IsByte, IsRawShare}
use lcsas.Keyshare.Shamir.Curve.{IsShareSet}

-- HMAC-SHA256 returns 32 bytes, and the source the bytes it is asked for.
abbrev pub IsSound : Crypto → Type 0
IsSound crypto =
    ((key message : List ℕ)
      → (length (crypto.hmac_sha256 key message) ≡ 32)
        × All IsByte (crypto.hmac_sha256 key message))
    × ((call n : ℕ)
        → (length (crypto.random_bytes call n) ≡ n) × All IsByte (crypto.random_bytes call n))

-- `range(i, i + n)`
abbrev pub range : ℕ → ℕ → List ℕ
range i zero = []
range i (suc n) = i ∷ range (i + 1) n

pub length-range : (i n : ℕ) → length (range i n) ≡ n
length-range i zero = refl
length-range i (suc n) = ap suc (length-range (i + 1) n)

pub range-append : (i m n : ℕ) → range i m ++ range (i + m) n ≡ range i (m + n)
range-append i zero n = ap₂ range here same
  where
    here : i + 0 ≡ i
    here = omega arith

    same : n ≡ 0 + n
    same = omega arith
range-append i (suc m) n =
    ap (λ t. i ∷ t)
      (ap (λ t. range (i + 1) m ++ range t n) {x = i + suc m} {y = i + 1 + m} (omega arith)
        ∙ range-append (i + 1) m n)
    ∙ ap (range i) {x = suc (m + n)} {y = suc m + n} (omega arith)

pub range-above : (j i n : ℕ) → j < i → All (λ q. q ≢ j) (range i n)
range-above j i zero h = tt
range-above j i (suc n) h = ((λ e. absurd (omega arith)), range-above j (i + 1) n (omega arith))

pub range-lt : (i n k : ℕ) → i + n ≤ k → All (λ q. q < k) (range i n)
range-lt i zero k h = tt
range-lt i (suc n) k h = (omega arith, range-lt (i + 1) n k (omega arith))

pub range-Distinct : (i n : ℕ) → Distinct (range i n)
range-Distinct i zero = tt
range-Distinct i (suc n) = (range-above i (i + 1) n (omega arith), range-Distinct (i + 1) n)

pub map-append :
    (xs ys : List RawShare) → x_coordinates (xs ++ ys) ≡ x_coordinates xs ++ x_coordinates ys
map-append [] ys = refl
map-append (x ∷ xs) ys = ap (λ t. x.x ∷ t) (map-append xs ys)

-- Two lists of distinct elements that hold none in common.
Distinct-append :
    (k : ℕ) (xs ys : List ℕ)
    → Distinct xs
    → Distinct ys
    → All (λ x. x < k) xs
    → All (λ y. k ≤ y) ys
    → Distinct (xs ++ ys)
Distinct-append k [] ys hx hy low high = hy
Distinct-append k (x ∷ xs) ys hx hy low high = (
  All-append (λ y. y ≢ x) xs ys hx.0 (All-imp _ _ (λ y h e. absurd (omega (arith, low.0))) ys high),
  Distinct-append k xs ys hx.1 hy low.1 high,
)

module _ (crypto : Crypto) (sound : IsSound crypto) where
  pub create_digest_lem :
      (random_data shared_secret : List ℕ)
      → (length (create_digest crypto random_data shared_secret) ≡ 4)
        × All IsByte (create_digest crypto random_data shared_secret)
  unfolding create_digest
  create_digest_lem random_data shared_secret =
      let (size, bytes) = sound.0 random_data shared_secret in
      (
        omega (arith, length-take 4 (crypto.hmac_sha256 random_data shared_secret)),
        All-take IsByte 4 (crypto.hmac_sha256 random_data shared_secret) bytes,
      )

  pub random_shares-x :
      (i n size call : ℕ) → x_coordinates (random_shares crypto i n size call) ≡ range i n
  unfolding random_shares
  random_shares-x i zero size call = refl
  random_shares-x i (suc n) size call = ap (λ t. i ∷ t) (random_shares-x (i + 1) n size (call + 1))

  random_shares-length : (i n size call : ℕ) → length (random_shares crypto i n size call) ≡ n
  unfolding random_shares
  random_shares-length i zero size call = refl
  random_shares-length i (suc n) size call = ap suc (random_shares-length (i + 1) n size (call + 1))

  random_shares-IsRawShare :
      (i n size call : ℕ) → i + n ≤ 16 → All (IsRawShare size) (random_shares crypto i n size call)
  unfolding random_shares
  random_shares-IsRawShare i zero size call h = tt
  random_shares-IsRawShare i (suc n) size call h = (
    (omega arith, sound.1 call size),
    random_shares-IsRawShare (i + 1) n size (call + 1) (omega arith),
  )

  module _ (n size call : ℕ) (few : n ≤ 16) (large : 4 ≤ size) (random_part shared_secret : List ℕ)
      (random_size : length random_part ≡ size - 4) (random_is : All IsByte random_part)
      (secret_size : length shared_secret ≡ size) (secret_is : All IsByte shared_secret) where
    abbrev shares : List RawShare
    shares = random_shares crypto 0 n size call

    abbrev base : List RawShare
    base = base_shares_of crypto shares random_part shared_secret

    digest_share-length :
        length (create_digest crypto random_part shared_secret ++ random_part) ≡ size
    digest_share-length = omega (
      arith,
      length-append (create_digest crypto random_part shared_secret) random_part,
      (create_digest_lem random_part shared_secret).0,
    )

    pub base-length : length base ≡ n + 2
    unfolding base_shares_of
    base-length = length-append shares _ ∙ ap (λ t. t + 2) (random_shares-length 0 n size call)

    pub base-IsShareSet : IsShareSet size base
    unfolding base_shares_of
    base-IsShareSet = (
      All-append (IsRawShare size) shares _ (random_shares-IsRawShare 0 n size call (omega arith)) (
        (
          omega arith,
          (
            digest_share-length,
            All-append IsByte _ random_part (create_digest_lem random_part shared_secret).1
                random_is,
          ),
        ),
        ((omega arith, (secret_size, secret_is)), tt),
      ),
      (
        rw (map-append shares _, random_shares-x 0 n size call)
            (Distinct-append 16 (range 0 n) (digest_index ∷ secret_index ∷ []) (range-Distinct 0 n)
              (((λ e. absurd (omega arith)), tt), (tt, tt)) (range-lt 0 n 16 (omega arith))
              (omega arith, (omega arith, tt))),
        omega (arith, base-length),
      ),
    )
