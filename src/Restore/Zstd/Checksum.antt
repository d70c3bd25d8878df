-- ===== src/Restore/Zstd/Checksum.antt =====
-- src/lcsas/restore/_zstd_pure.py: XXH64, the checksum of a frame. A mask of 64 bits is a remainder.
mod Tests
use Prim.Native.Nat.{bit_or}
use lcsas.Prelude.{
  ℕ, zero, suc, ◌+◌, ◌-◌, ◌*◌, ◌/◌, ◌%◌, ◌^◌, ◌<◌, List, [], ◌∷◌, length, take, drop, ltb, leb,
  if◌then◌else◌, bit_xor, arith,
}
use lcsas.Restore.Crypt.{from_little}

abbrev pub p64_1 : ℕ
p64_1 = 0x9E3779B185EBCA87

abbrev pub p64_2 : ℕ
p64_2 = 0xC2B2AE3D27D4EB4F

abbrev pub p64_3 : ℕ
p64_3 = 0x165667B19E3779F9

abbrev pub p64_4 : ℕ
p64_4 = 0x85EBCA77C2B2AE63

abbrev pub p64_5 : ℕ
p64_5 = 0x27D4EB2F165667C5

pub rotl64 : ℕ → ℕ → ℕ
rotl64 x r = bit_or (x * 2 ^ r) (x / 2 ^ (64 - r)) % 2 ^ 64

pub xxh64_round : ℕ → ℕ → ℕ
xxh64_round acc inp = rotl64 ((acc + inp * p64_2) % 2 ^ 64) 31 * p64_1 % 2 ^ 64

pub xxh64_merge : ℕ → ℕ → ℕ
xxh64_merge acc val = (bit_xor acc (xxh64_round 0 val) * p64_1 + p64_4) % 2 ^ 64

pub read64 : List ℕ → ℕ → ℕ
read64 values off = from_little (take 8 (drop off values))

pub read32 : List ℕ → ℕ → ℕ
read32 values off = from_little (take 4 (drop off values))

pub record Lanes : Type 0 where
  pub v1 : ℕ
  pub v2 : ℕ
  pub v3 : ℕ
  pub v4 : ℕ

pub start_lanes : ℕ → Lanes
start_lanes seed = record {
  v1 = (seed + p64_1 + p64_2) % 2 ^ 64;
  v2 = (seed + p64_2) % 2 ^ 64;
  v3 = seed % 2 ^ 64;
  v4 = (seed + 2 ^ 64 - p64_1) % 2 ^ 64;
}

-- The loop over stripes of 32 bytes: the lanes, and what is left of the data.
pub stripes : ℕ → Lanes → List ℕ → Lanes × List ℕ
stripes zero lanes values = (lanes, values)
stripes (suc fuel) lanes values =
    let more =
      stripes fuel
        (record {
          v1 = xxh64_round lanes.v1 (read64 values 0);
          v2 = xxh64_round lanes.v2 (read64 values 8);
          v3 = xxh64_round lanes.v3 (read64 values 16);
          v4 = xxh64_round lanes.v4 (read64 values 24);
        })
        (drop 32 values) in
    if leb 32 (length values) then more else (lanes, values)

pub merged_lanes : Lanes → ℕ
merged_lanes lanes =
    xxh64_merge
      (xxh64_merge
        (xxh64_merge
          (xxh64_merge
            ((rotl64 lanes.v1 1 + rotl64 lanes.v2 7 + rotl64 lanes.v3 12 + rotl64 lanes.v4 18)
              % 2 ^ 64)
            lanes.v1)
          lanes.v2)
        lanes.v3)
      lanes.v4

-- The three loops over the tail: words of 64 bits, one of 32, and bytes.
pub tail_words : ℕ → ℕ → List ℕ → ℕ × List ℕ
tail_words zero h64 values = (h64, values)
tail_words (suc fuel) h64 values =
    let more =
      tail_words fuel
        ((rotl64 (bit_xor h64 (xxh64_round 0 (read64 values 0))) 27 * p64_1 + p64_4) % 2 ^ 64)
        (drop 8 values) in
    if leb 8 (length values) then more else (h64, values)

pub tail_half : ℕ → List ℕ → ℕ × List ℕ
tail_half h64 values =
    if leb 4 (length values)
    then (
      (rotl64 (bit_xor h64 (read32 values 0 * p64_1 % 2 ^ 64)) 23 * p64_2 + p64_3) % 2 ^ 64,
      drop 4 values,
    )
    else (h64, values)

pub tail_bytes : ℕ → List ℕ → ℕ
tail_bytes h64 [] = h64
tail_bytes h64 (b ∷ values) =
    tail_bytes (rotl64 (bit_xor h64 (b * p64_5 % 2 ^ 64)) 11 * p64_1 % 2 ^ 64) values

pub avalanche : ℕ → ℕ
avalanche h64 =
    let a = bit_xor h64 (h64 / 2 ^ 33) * p64_2 % 2 ^ 64 in
    let b = bit_xor a (a / 2 ^ 29) * p64_3 % 2 ^ 64 in bit_xor b (b / 2 ^ 32) % 2 ^ 64

pub finished : ℕ → List ℕ → ℕ → ℕ
finished h64 values size =
    let (words, rest) = tail_words size ((h64 + size) % 2 ^ 64) values in
    let (half, last) = tail_half words rest in avalanche (tail_bytes half last)

pub xxh64 : List ℕ → ℕ → ℕ
xxh64 values seed =
    let (lanes, rest) = stripes (length values) (start_lanes seed) values in
    if leb 32 (length values)
    then finished (merged_lanes lanes) rest (length values)
    else finished ((seed + p64_5) % 2 ^ 64) values (length values)
