-- ===== src/Keyshare/Shamir.antt =====
-- src/lcsas/keyshare/slip39.py, "Lagrange interpolation": one secret as shares, and back.
pub mod Columns
pub mod Sums
pub mod Sets
pub mod Curve
pub mod Interpolation
pub mod Split
pub mod Dealt
pub mod Choice
pub mod Laws
pub mod Outcome
mod Tests
use lcsas.Prelude.{
  ℕ, zero, suc, ◌+◌, ◌-◌, ◌*◌, ◌%◌, ◌<◌, Bool, true, false, not, ◌||◌, List, [], ◌∷◌, ◌++◌, map,
  length, take, drop, replicate, ltb, ◌==◌, if◌then◌else◌, bit_xor, any, list_eqb,
}
use lcsas.Prelude.Result.{Result, ok, err, ◌>>=◌}
use lcsas.Keyshare.Errors.{
  KeyshareError, zip_strict, share_indices_repeat, share_lengths_differ, secret_digest,
  threshold_not_positive, threshold_above_count, share_count_above_limit, index_out_of_range,
  negative_byte_count,
}
use lcsas.Keyshare.Gf256.{gf_exp, gf_log}

pub record RawShare : Type 0 where
  pub x : ℕ
  pub share_data : List ℕ

abbrev pub digest_length_bytes : ℕ
digest_length_bytes = 4

abbrev pub digest_index : ℕ
digest_index = 254

abbrev pub secret_index : ℕ
secret_index = 255

abbrev pub max_share_count : ℕ
max_share_count = 16

-- The elements of a set built from a list.
unfoldable pub as_set : List ℕ → List ℕ
as_set [] = []
as_set (x ∷ xs) = let rest = as_set xs in if any (λ y. y == x) rest then rest else x ∷ rest

abbrev pub x_coordinates : List RawShare → List ℕ
x_coordinates shares = map (λ s. s.x) shares

abbrev pub value_lengths : List RawShare → List ℕ
value_lengths shares = map (λ s. length s.share_data) shares

-- The first share at `x`, whose data is returned.
unfoldable pub data_at :
    ℕ → List RawShare → Result KeyshareError (List ℕ) → Result KeyshareError (List ℕ)
data_at x [] otherwise = otherwise
data_at x (s ∷ shares) otherwise = if s.x == x then ok s.share_data else data_at x shares otherwise

unfoldable pub sum_logs : List ℕ → ℕ
sum_logs [] = 0
sum_logs (d ∷ ds) = gf_log d + sum_logs ds

-- `(log_prod - a - b) % 255` of numbers below 0 too: there -1 is 254.
unfoldable pub log_basis_eval : ℕ → ℕ → List ℕ → ℕ → ℕ
log_basis_eval log_prod x xs p =
    (log_prod + 254 * (gf_log (bit_xor p x) + sum_logs (map (λ q. bit_xor p q) xs))) % 255

unfoldable pub scaled : ℕ → ℕ → ℕ
scaled log_basis share_val =
    if share_val == 0 then 0 else gf_exp ((gf_log share_val + log_basis) % 255)

-- The bytes of one share, added to the sums: `zip(share.data, result, strict=True)`.
unfoldable pub add_scaled : ℕ → List ℕ → List ℕ → Result KeyshareError (List ℕ)
add_scaled log_basis [] [] = ok []
add_scaled log_basis (share_val ∷ values) (intermediate_sum ∷ result) =
    add_scaled log_basis values result >>= λ rest.
    ok (bit_xor intermediate_sum (scaled log_basis share_val) ∷ rest)
add_scaled log_basis [] (_ ∷ _) = err zip_strict
add_scaled log_basis (_ ∷ _) [] = err zip_strict

-- The loop over the shares, with the coordinates of all of them.
unfoldable pub add_each : ℕ → ℕ → List ℕ → List RawShare → List ℕ → Result KeyshareError (List ℕ)
add_each log_prod x xs [] result = ok result
add_each log_prod x xs (s ∷ shares) result =
    add_scaled (log_basis_eval log_prod x xs s.x) s.share_data result
    >>= add_each log_prod x xs shares

unfoldable pub first_length : List RawShare → ℕ
first_length [] = 0
first_length (s ∷ _) = length s.share_data

unfoldable pub interpolate : List RawShare → ℕ → Result KeyshareError (List ℕ)
interpolate shares x =
    let xs = x_coordinates shares in
    if not (length (as_set xs) == length shares)
    then err share_indices_repeat
    else if not (length (as_set (value_lengths shares)) == 1)
    then err share_lengths_differ
    else data_at x shares (
        add_each (sum_logs (map (λ q. bit_xor q x) xs)) x xs shares
          (replicate (first_length shares) 0))

-- The two services of the standard library: `hmac.new(key, message, "sha256").digest()`, and
-- `secrets.token_bytes`, whose calls are numbered.
pub record Crypto : Type 0 where
  pub hmac_sha256 : List ℕ → List ℕ → List ℕ
  pub random_bytes : ℕ → ℕ → List ℕ

-- `[_RawShare(i, shared_secret) for i in range(share_count)]`, from `i` on.
unfoldable pub same_shares : ℕ → ℕ → List ℕ → List RawShare
same_shares i zero shared_secret = []
same_shares i (suc n) shared_secret =
    record { x = i; share_data = shared_secret } ∷ same_shares (i + 1) n shared_secret

pub interpolated_shares : List RawShare → ℕ → ℕ → Result KeyshareError (List RawShare)
interpolated_shares base_shares i zero = ok []
interpolated_shares base_shares i (suc n) = interpolate base_shares i >>= λ values.
    interpolated_shares base_shares (i + 1) n >>= λ rest.
    ok (record { x = i; share_data = values } ∷ rest)

-- `shares[0].data`
unfoldable pub first_data : List RawShare → Result KeyshareError (List ℕ)
first_data [] = err index_out_of_range
first_data (s ∷ _) = ok s.share_data

module _ (crypto : Crypto) where
  pub create_digest : List ℕ → List ℕ → List ℕ
  create_digest random_data shared_secret =
      take digest_length_bytes (crypto.hmac_sha256 random_data shared_secret)

  -- The random shares from index `i` on, where call `call` of the source comes next.
  pub random_shares : ℕ → ℕ → ℕ → ℕ → List RawShare
  random_shares i zero size call = []
  random_shares i (suc n) size call =
      record { x = i; share_data = crypto.random_bytes call size }
      ∷ random_shares (i + 1) n size (call + 1)

  pub base_shares_of : List RawShare → List ℕ → List ℕ → List RawShare
  base_shares_of shares random_part shared_secret =
      shares
      ++ (record {
        x = digest_index;
        share_data = create_digest random_part shared_secret ++ random_part;
      }
          ∷ record { x = secret_index; share_data = shared_secret }
          ∷ [])

  -- The shares, and the number of the next call of the source.
  unfoldable pub split_secret : ℕ → ℕ → List ℕ → ℕ → Result KeyshareError (List RawShare × ℕ)
  split_secret threshold share_count shared_secret call =
      let random_share_count = threshold - 2 in
      let size = length shared_secret in
      let shares = random_shares 0 random_share_count size call in
      let random_part =
        crypto.random_bytes (call + random_share_count) (size - digest_length_bytes) in
      if ltb threshold 1
      then err threshold_not_positive
      else if ltb share_count threshold
      then err threshold_above_count
      else if ltb max_share_count share_count
      then err share_count_above_limit
      else if threshold == 1
      then ok (same_shares 0 share_count shared_secret, call)
      else if ltb size digest_length_bytes
      then err negative_byte_count
      else interpolated_shares (base_shares_of shares random_part shared_secret) random_share_count
          (share_count - random_share_count)
        >>= λ rest. ok (shares ++ rest, call + random_share_count + 1)

  unfoldable pub recover_secret : ℕ → List RawShare → Result KeyshareError (List ℕ)
  recover_secret threshold shares =
      if threshold == 1
      then first_data shares
      else interpolate shares secret_index >>= λ shared_secret.
          interpolate shares digest_index >>= λ digest_share.
          if list_eqb (take digest_length_bytes digest_share)
            (create_digest (drop digest_length_bytes digest_share) shared_secret)
          then ok shared_secret
          else err secret_digest
