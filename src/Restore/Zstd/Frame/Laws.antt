-- ===== src/Restore/Zstd/Frame/Laws.antt =====
-- Frames of stored blocks, which src/lcsas/restore/_zstd_pure.py reads back.
use lcsas.Prelude.{
  ℕ, suc, ◌<◌, ◌≤◌, ◌≡◌, ◌⊎◌, inl, inr, refl, Bool, false, not, ◌&&◌, List, ◌++◌, length, All, ltb,
  ◌==◌, arith, length-append,
}
use lcsas.Prelude.Result.{ok}
use lcsas.Restore.Zstd.Frame.{append_out, fresh, decompress_frame, decompress}
use lcsas.Restore.Zstd.Frame.Stored.{
  stored_blocks, joined, SizeFlag, descriptor, window_field, size_field, checksum_field,
  stored_frame, IsShort, read_blocks-all, length-stored_blocks, read_descriptor-stored,
  read_header-stored, check_sum-stored,
}

-- A frame of stored blocks decompresses to their bytes, when no block has 2 ^ 21 bytes or more and
-- the cap is 0 or not below their number: for each flag of the content size, whose field holds the
-- number of these bytes as far as it has room, with and without a checksum, and as a single segment
-- or with a window byte. The frame names no dictionary.
pub decompress-stored_frame :
    (flag : SizeFlag) (single_segment content_checksum : Bool) (window : ℕ) (chunk : List ℕ)
    (chunks : List (List ℕ)) (limit : ℕ)
    → IsShort chunk
    → All IsShort chunks
    → (limit ≡ 0) ⊎ (length (chunk ++ joined chunks) ≤ limit)
    → decompress (stored_frame flag single_segment content_checksum window chunk chunks) limit
      ≡ ok (chunk ++ joined chunks)
unfolding decompress decompress_frame append_out
decompress-stored_frame flag single_segment content_checksum window chunk chunks limit short shorts
      fits =
    rw
      (
        read_header-stored (descriptor flag single_segment content_checksum) body,
        read_descriptor-stored flag single_segment content_checksum window size (blocks ++ sum),
        read_blocks-all (suc (suc (suc (suc (suc (length body)))))) chunk chunks sum fresh enough
            short shorts,
        check_sum-stored content_checksum (chunk ++ joined chunks),
        under,
      )
      refl
  where
    size : ℕ
    size = length (chunk ++ joined chunks)

    sum : List ℕ
    sum = checksum_field content_checksum (chunk ++ joined chunks)

    blocks : List ℕ
    blocks = stored_blocks chunk chunks

    body : List ℕ
    body =
        window_field single_segment window
        ++ (size_field flag single_segment size ++ (blocks ++ sum))

    enough : length chunks < suc (suc (suc (suc (suc (length body)))))
    enough = omega (
      arith,
      length-append (window_field single_segment window)
          (size_field flag single_segment size ++ (blocks ++ sum)),
      length-append (size_field flag single_segment size) (blocks ++ sum),
      length-append blocks sum,
      length-stored_blocks chunk chunks,
    )

    under : (not (limit == 0) && ltb limit (length (chunk ++ joined chunks))) ≡ false
    under = elim fits [ inl none ↦ ground (arith, none) | inr room ↦ ground (arith, room) ]
