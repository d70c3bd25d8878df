-- ===== src/Keyshare/Generate/Tests.antt =====
-- A secret of 16 bytes on three cards, of which two are enough.

use mathlib.Core.List.{Memᴰ}
use lcsas.Prelude.{
  ℕ, zero, suc, ◌%◌, ◌<◌, ◌≡◌, refl, List, [], ◌∷◌, length, length-replicate, replicate, drop, ◌≤◌,
  All, Distinct, arith,
}
use lcsas.Prelude.Result.{ok}
use lcsas.Keyshare.Feistel.{Pbkdf2}
use lcsas.Keyshare.Feistel.Laws.{HasLength}
use lcsas.Keyshare.Feistel.Bytes.{ReturnsBytes}
use lcsas.Keyshare.Gf256.Field.Lagrange.{All-of_mem}
use lcsas.Keyshare.Shamir.{Crypto}
use lcsas.Keyshare.Shamir.Sums.{IsByte}
use lcsas.Keyshare.Shamir.Split.{IsSound}
use lcsas.Keyshare.Generate
use lcsas.Keyshare.Generate.Cards.{IsRequest}
use lcsas.Keyshare.Generate.Members.{cards, split_secret-cards, cards-Distinct, cards-length}
use lcsas.Keyshare.Generate.Laws.{split_secret-length, recover_secret-cards}

abbrev services : Crypto
services = record {
  hmac_sha256 = λ key message. replicate 32 (length message % 256);
  random_bytes = λ call n. replicate n (call % 256);
}

replicate-bytes : (n b : ℕ) → b < 256 → All IsByte (replicate n b)
replicate-bytes zero b h = tt
replicate-bytes (suc n) b h = (h, replicate-bytes n b h)

services-IsSound : IsSound services
services-IsSound = (
  (λ key message. (
    length-replicate {A = ℕ} 32 (length message % 256),
    replicate-bytes 32 (length message % 256) (omega arith),
  )),
  λ call n. (length-replicate {A = ℕ} n (call % 256), replicate-bytes n (call % 256) (omega arith)),
)

abbrev stretch : Pbkdf2
stretch password salt iterations size = replicate size (length salt % 256)

stretch-HasLength : HasLength stretch
stretch-HasLength password salt iterations size = length-replicate {A = ℕ} size (length salt % 256)

stretch-ReturnsBytes : ReturnsBytes stretch
stretch-ReturnsBytes password salt iterations size =
    replicate-bytes size (length salt % 256) (omega arith)

abbrev secret : List ℕ
secret = 200 ∷ replicate 15 3

secret-IsRequest : IsRequest secret 2 3 (112 ∷ 119 ∷ []) 1
secret-IsRequest = record {
  bytes = (omega arith, replicate-bytes 15 3 (omega arith));
  long = omega arith;
  even = refl;
  printable = refl;
  positive = omega arith;
  within = omega arith;
  few = omega arith;
  not_many_of_one = refl;
  exponent_fits = omega arith;
}

abbrev written : List (List ℕ)
written =
    cards services services-IsSound stretch stretch-HasLength stretch-ReturnsBytes secret 2 3
      (112 ∷ 119 ∷ []) 1 0 secret-IsRequest

written-returned :
    Generate.split_secret services stretch secret 2 3 (112 ∷ 119 ∷ []) 1 0 ≡ ok written
written-returned =
    split_secret-cards services services-IsSound stretch stretch-HasLength stretch-ReturnsBytes
      secret 2 3 (112 ∷ 119 ∷ []) 1 0 secret-IsRequest

later :
    (all : List (List ℕ))
    → Distinct all
    → length all ≡ 3
    → All (λ m. Memᴰ m all) (drop 1 all) × (Distinct (drop 1 all) × (2 ≤ length (drop 1 all)))
later [] distinct h = absurd (omega arith)
later (m ∷ rest) distinct h =
    (All-of_mem _ rest (λ t held. Memᴰ.tail held), (distinct.1, omega arith))

written_later :
    All (λ m. Memᴰ m written) (drop 1 written)
    × (Distinct (drop 1 written) × (2 ≤ length (drop 1 written)))
written_later =
    later written
      (cards-Distinct services services-IsSound stretch stretch-HasLength stretch-ReturnsBytes
        secret 2 3 (112 ∷ 119 ∷ []) 1 0 secret-IsRequest)
      (cards-length services services-IsSound stretch stretch-HasLength stretch-ReturnsBytes secret
        2 3 (112 ∷ 119 ∷ []) 1 0 secret-IsRequest)

split_secret-length_example :
    (cards : List (List ℕ)) × ((Generate.split_secret services stretch secret 2 3
          (112 ∷ 119 ∷ [])
          1
          0
        ≡ ok cards)
      × (length cards ≡ 3))
split_secret-length_example =
    split_secret-length services services-IsSound stretch stretch-HasLength stretch-ReturnsBytes
      secret 2 3 (112 ∷ 119 ∷ []) 1 0 secret-IsRequest

recover_secret-cards_example :
    Generate.recover_secret services stretch (drop 1 written) (112 ∷ 119 ∷ []) ≡ ok secret
recover_secret-cards_example =
    recover_secret-cards services services-IsSound stretch stretch-HasLength stretch-ReturnsBytes
      secret 2 3 (112 ∷ 119 ∷ []) 1 0 secret-IsRequest written written-returned (drop 1 written)
      written_later.0 written_later.1.0 written_later.1.1
