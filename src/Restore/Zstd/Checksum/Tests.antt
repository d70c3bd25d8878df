-- ===== src/Restore/Zstd/Checksum/Tests.antt =====
-- Published sums of XXH64 with the seed 0: of the empty string, of "a", and of "Nobody inspects the
-- spammish repetition", which has a stripe.
use lcsas.Prelude.{◌≡◌, refl, [], ◌∷◌}
use lcsas.Restore.Crypt.{from_little}
use lcsas.Restore.Zstd.Checksum.{
  rotl64, xxh64_round, xxh64_merge, read64, read32, start_lanes, stripes, merged_lanes, tail_words,
  tail_half, tail_bytes, avalanche, finished, xxh64,
}

sum_empty : xxh64 ([]) 0 ≡ 0xEF46DB3751D8E999
unfolding xxh64 rotl64 xxh64_round xxh64_merge read64 read32 start_lanes stripes merged_lanes
    tail_words tail_half tail_bytes avalanche finished from_little
sum_empty = refl

sum_letter : xxh64 (97 ∷ []) 0 ≡ 0xD24EC4F1A98C6E5B
unfolding xxh64 rotl64 xxh64_round xxh64_merge read64 read32 start_lanes stripes merged_lanes
    tail_words tail_half tail_bytes avalanche finished from_little
sum_letter = refl

sum_stripe :
    xxh64
      (78 ∷ 111 ∷ 98 ∷ 111 ∷ 100 ∷ 121 ∷ 32 ∷ 105 ∷ 110 ∷ 115 ∷ 112 ∷ 101 ∷ 99 ∷ 116 ∷ 115 ∷ 32
        ∷ 116 ∷ 104 ∷ 101 ∷ 32 ∷ 115 ∷ 112 ∷ 97 ∷ 109 ∷ 109 ∷ 105 ∷ 115 ∷ 104 ∷ 32 ∷ 114 ∷ 101 ∷ 112
        ∷ 101 ∷ 116 ∷ 105 ∷ 116 ∷ 105 ∷ 111 ∷ 110 ∷ [])
      0
    ≡ 0xFBCEA83C8A378BF1
unfolding xxh64 rotl64 xxh64_round xxh64_merge read64 read32 start_lanes stripes merged_lanes
    tail_words tail_half tail_bytes avalanche finished from_little
sum_stripe = refl
