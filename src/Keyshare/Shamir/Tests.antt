-- ===== src/Keyshare/Shamir/Tests.antt =====
-- One secret, split and recovered.
use mathlib.Core.List.{Memᴰ}
use mathlib.Core.Path.{subst}
use lcsas.Prelude.{
  ℕ, zero, suc, ◌%◌, ◌<◌, ◌≡◌, refl, sym, ap, List, [], ◌∷◌, length, length-replicate, length-map,
  replicate, take, drop, All, Distinct, arith,
}
use lcsas.Prelude.Result.{ok}
use lcsas.Keyshare.Gf256.Field.Lagrange.{All-of_mem}
use lcsas.Keyshare.Shamir.{
  RawShare, Crypto, as_set, data_at, recover_secret, interpolate, x_coordinates,
}
use lcsas.Keyshare.Shamir.Sums.{IsByte}
use lcsas.Keyshare.Shamir.Curve.{IsShareSet}
use lcsas.Keyshare.Shamir.Split.{IsSound, range, range-Distinct}
use lcsas.Keyshare.Shamir.Choice.{IsChoice}
use lcsas.Keyshare.Shamir.Laws.{recover_secret-split_secret, interpolate-split_secret}
use lcsas.Keyshare.Shamir.Outcome.{
  split_secret-total, recover_secret-digest, interpolate_refuses, HasShares, RecoversWithDigest,
}

abbrev services : Crypto
services = record {
  hmac_sha256 = λ key message. replicate 32 (length message % 256);
  random_bytes = λ call n. replicate n (call % 256);
}

replicate-bytes : (n b : ℕ) → b < 256 → All IsByte (replicate n b)
replicate-bytes zero b h = tt
replicate-bytes (suc n) b h = (h, replicate-bytes n b h)

services-IsSound : IsSound services
services-IsSound = (
  (λ key message. (
    length-replicate {A = ℕ} 32 (length message % 256),
    replicate-bytes 32 (length message % 256) (omega arith),
  )),
  λ call n. (length-replicate {A = ℕ} n (call % 256), replicate-bytes n (call % 256) (omega arith)),
)

abbrev secret : List ℕ
secret = 17 ∷ 0 ∷ 255 ∷ 4 ∷ []

abbrev share : ℕ → List ℕ → RawShare
share x values = record { x = x; share_data = values }

secret-bytes : All IsByte secret
secret-bytes = (omega arith, (omega arith, (omega arith, (omega arith, tt))))

abbrev dealt : HasShares services 3 secret 5 2
dealt =
    split_secret-total services services-IsSound 2 3 5 secret secret-bytes (omega arith)
      (omega arith) (omega arith) (omega arith)

abbrev shares : List RawShare
shares = dealt.0

last_two : (all : List RawShare) → x_coordinates all ≡ range 0 3 → IsChoice 2 all (drop 1 all)
last_two [] h = absurd (omega (arith, ap (λ (t : List ℕ). length t) h))
last_two (s ∷ rest) h = (
  All-of_mem _ rest (λ t m. Memᴰ.tail m),
  (
    subst Distinct (sym (ap (drop 1) h)) (range-Distinct 1 2),
    omega (arith, ap (λ (t : List ℕ). length t) h, length-map rest (λ (t : RawShare). t.x)),
  ),
)

first_two : (all : List RawShare) → x_coordinates all ≡ range 0 3 → IsChoice 2 all (take 2 all)
first_two [] h = absurd (omega (arith, ap (λ (t : List ℕ). length t) h))
first_two (s ∷ []) h = absurd (omega (arith, ap (λ (t : List ℕ). length t) h))
first_two (s ∷ t ∷ rest) h = (
  (Memᴰ.head refl, (Memᴰ.tail (Memᴰ.head refl), tt)),
  (subst Distinct (sym (ap (take 2) h)) (range-Distinct 0 2), refl),
)

recover_secret-split_secret_example : recover_secret services 2 (drop 1 shares) ≡ ok secret
recover_secret-split_secret_example =
    recover_secret-split_secret services services-IsSound 2 3 5 secret secret-bytes shares dealt.1.0
      dealt.1.1.0 (drop 1 shares) (last_two shares dealt.1.1.1.0)

interpolate-split_secret_example :
    (value : List ℕ) × ((interpolate (drop 1 shares) 77 ≡ ok value)
      × (interpolate (take 2 shares) 77 ≡ ok value))
interpolate-split_secret_example =
    interpolate-split_secret services services-IsSound 2 3 5 secret secret-bytes (omega arith)
      shares dealt.1.0 dealt.1.1.0 (drop 1 shares) (take 2 shares) (last_two shares dealt.1.1.1.0)
      (first_two shares dealt.1.1.1.0) 77 (omega arith)

split_secret-total_example : HasShares services 3 secret 5 2
split_secret-total_example =
    split_secret-total services services-IsSound 2 3 5 secret secret-bytes (omega arith)
      (omega arith) (omega arith) (omega arith)

abbrev held : List RawShare
held = share 3 secret ∷ share 9 (replicate 4 200) ∷ []

held-IsShareSet : IsShareSet 4 held
held-IsShareSet = (
  (
    (omega arith, (refl, secret-bytes)),
    ((omega arith, (refl, replicate-bytes 4 200 (omega arith))), tt),
  ),
  ((((λ e. absurd (omega arith)), tt), (tt, tt)), omega arith),
)

recover_secret-digest_example : RecoversWithDigest services 2 held
recover_secret-digest_example =
    recover_secret-digest services 2 4 held (omega arith) held-IsShareSet

held_at : interpolate held 9 ≡ ok (replicate 4 200)
unfolding interpolate as_set data_at
held_at = refl

interpolate_refuses_example :
    Distinct (x_coordinates held) × ((size : ℕ) × All (λ s. length s.share_data ≡ size) held)
interpolate_refuses_example = interpolate_refuses held 9 (replicate 4 200) held_at
