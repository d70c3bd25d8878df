-- ===== src/Restore/Zstd/Sequences/Offsets.antt =====
-- The offsets that src/lcsas/restore/_zstd_pure.py decodes are positive, so that no match reads beyond
-- what is written.
use mathlib.Core.Path.{subst}
use lcsas.Prelude.{ℕ, zero, suc, ◌<◌, ◌≡◌, List, [], ◌∷◌, All}
use lcsas.Prelude.Result.{ok, ok-inv, ok_inj, raised}
use lcsas.Restore.Zstd.{History, Sequence, resolve_offset}
use lcsas.Restore.Zstd.Execution.{IsPositive, Resolves, resolve_offset-Resolves}
use lcsas.Restore.Zstd.Codes.{Row}
use lcsas.Restore.Zstd.Streams.{BackwardReader, read_backward}
use lcsas.Restore.Zstd.Sequences.{
  SeqTable, States, state_row, decode_sequence, decode_round, decode_rounds,
}

-- The rows of a table of offsets: one that reads an offset from the stream has a positive base.
abbrev pub HasBase : Row → Type 0
HasBase r = 1 < r.add_bits → 0 < r.base_value

state_row-HasBase :
    (rows : List Row) (state : ℕ) (r : Row)
    → All HasBase rows
    → state_row rows state ≡ ok r
    → HasBase r
unfolding state_row
state_row-HasBase [] state r h e = absurd (raised e)
state_row-HasBase (x ∷ rows) zero r h e = subst HasBase (ok_inj e) h.0
state_row-HasBase (x ∷ rows) (suc state) r h e = state_row-HasBase rows state r h.1 e

decode_sequence-IsPositive :
    (ll of ml : Row) (br after : BackwardReader) (rep next : History) (s : Sequence)
    → HasBase of
    → IsPositive rep
    → decode_sequence ll of ml br rep ≡ ok (s, after, next)
    → (0 < s.match_offset) × IsPositive next
unfolding decode_sequence
decode_sequence-IsPositive ll of ml br after rep next s base positive h =
    let (resolved, e, found) =
      ok-inv
        (resolve_offset of.add_bits of.base_value ll.base_value (read_backward of.add_bits br).0
          rep)
        h in
    let (some, kept) =
      subst Resolves found
        (resolve_offset-Resolves of.add_bits of.base_value ll.base_value _ rep base positive) in
    (
      subst (λ (t : Sequence × BackwardReader × History). 0 < t.0.match_offset) (ok_inj e) some,
      subst (λ (t : Sequence × BackwardReader × History). IsPositive t.2) (ok_inj e) kept,
    )

decode_round-IsPositive :
    (ll of ml : SeqTable) (states following : States) (br next : BackwardReader)
    (rep after : History) (s : Sequence)
    → All HasBase of.rows
    → IsPositive rep
    → decode_round ll of ml states br rep ≡ ok (s, after, following, next)
    → (0 < s.match_offset) × IsPositive after
unfolding decode_round
decode_round-IsPositive ll of ml states following br next rep after s bases positive h =
    let (of_row, h1, at_of) = ok-inv (state_row of.rows states.of_state) h in
    let (ll_row, h2, at_ll) = ok-inv (state_row ll.rows states.ll_state) h1 in
    let (ml_row, h3, at_ml) = ok-inv (state_row ml.rows states.ml_state) h2 in
    let (decoded, h4, one) = ok-inv (decode_sequence ll_row of_row ml_row br rep) h3 in
    let (some, kept) =
      decode_sequence-IsPositive ll_row of_row ml_row br decoded.1 rep decoded.2 decoded.0
        (state_row-HasBase of.rows states.of_state of_row bases at_of) positive one in
    (
      subst (λ (t : Sequence × History × States × BackwardReader). 0 < t.0.match_offset) (ok_inj h4)
          some,
      subst (λ (t : Sequence × History × States × BackwardReader). IsPositive t.1) (ok_inj h4) kept,
    )

-- From a positive history, and a table of offsets whose rows have bases, every sequence that is
-- decoded has a positive offset, and the history that goes on to the next block is positive.
pub decode_rounds-IsPositive :
    (n : ℕ) (ll of ml : SeqTable) (states : States) (br : BackwardReader) (rep after : History)
    (sequences : List Sequence)
    → All HasBase of.rows
    → IsPositive rep
    → decode_rounds n ll of ml states br rep ≡ ok (sequences, after)
    → All (λ s. 0 < s.match_offset) sequences × IsPositive after
unfolding decode_rounds
decode_rounds-IsPositive zero ll of ml states br rep after sequences bases positive h =
    subst (λ (t : List Sequence × History). All (λ s. 0 < s.match_offset) t.0 × IsPositive t.1)
      (ok_inj h) (tt, positive)
decode_rounds-IsPositive (suc n) ll of ml states br rep after sequences bases positive h =
    let (decoded, h1, one) = ok-inv (decode_round ll of ml states br rep) h in
    let (rest, h2, others) = ok-inv (decode_rounds n ll of ml decoded.2 decoded.3 decoded.1) h1 in
    let (some, kept) =
      decode_round-IsPositive ll of ml states decoded.2 br decoded.3 rep decoded.1 decoded.0 bases
        positive one in
    let (all, last) =
      decode_rounds-IsPositive n ll of ml decoded.2 decoded.3 decoded.1 rest.1 rest.0 bases kept
        others in
    subst (λ (t : List Sequence × History). All (λ s. 0 < s.match_offset) t.0 × IsPositive t.1)
      (ok_inj h2) ((some, all), last)
