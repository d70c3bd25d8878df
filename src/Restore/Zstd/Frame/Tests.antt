-- ===== src/Restore/Zstd/Frame/Tests.antt =====
-- A frame of two stored blocks, and the offsets and the output of a few sequences.
use lcsas.Prelude.{ℕ, ◌≡◌, ◌⊎◌, inr, List, [], ◌∷◌, true, arith}
use lcsas.Prelude.Result.{ok, err}
use lcsas.Restore.Zstd.{match_before_start, Sequence, execute_sequences}
use lcsas.Restore.Zstd.Execution.{Decodes, execute_sequences-Decodes}
use lcsas.Restore.Zstd.Frame.{decompress}
use lcsas.Restore.Zstd.Frame.Stored.{shortest, stored_frame}
use lcsas.Restore.Zstd.Frame.Laws.{decompress-stored_frame}

decompress-stored_frame_example :
    decompress (stored_frame shortest true true 0 (1 ∷ 2 ∷ []) ((3 ∷ []) ∷ [])) 3
    ≡ ok (1 ∷ 2 ∷ 3 ∷ [])
decompress-stored_frame_example =
    decompress-stored_frame shortest true true 0 (1 ∷ 2 ∷ []) ((3 ∷ []) ∷ []) 3 (omega arith)
      (omega arith, tt) (inr (omega arith))

-- Two literals, and a match of three bytes that overlaps what it writes.
abbrev overlapping : List Sequence
overlapping = record { literal_length = 2; match_offset = 1; match_length = 3 } ∷ []

execute_sequences-Decodes_example :
    ((result : List ℕ) × (execute_sequences overlapping (7 ∷ 8 ∷ 9 ∷ []) [] ≡ ok result)
      × Decodes overlapping (7 ∷ 8 ∷ 9 ∷ []) [] result)
    ⊎ (execute_sequences overlapping (7 ∷ 8 ∷ 9 ∷ []) [] ≡ err match_before_start)
execute_sequences-Decodes_example =
    execute_sequences-Decodes overlapping (7 ∷ 8 ∷ 9 ∷ []) [] (omega arith, tt)
