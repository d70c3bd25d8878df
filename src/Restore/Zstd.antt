-- ===== src/Restore/Zstd.antt =====
-- src/lcsas/restore/_zstd_pure.py: the offsets of matches, the execution of sequences, and the parts
-- of the decoder below this module.
pub mod Execution
pub mod Codes
pub mod Fse
pub mod Streams
pub mod Distribution
pub mod Huffman
pub mod Literals
pub mod Sequences
pub mod Frame
pub mod Checksum
use lcsas.Prelude.{
  ℕ, zero, suc, ◌+◌, ◌-◌, Bool, true, false, List, [], ◌∷◌, ◌++◌, length, take, drop, get_or, ltb,
  ◌==◌, if◌then◌else◌,
}
use lcsas.Prelude.Result.{Result, ok, err, ◌>>=◌}

-- The exceptions: a ZstdError for each `raise`, and the IndexError of a list; `endless`
-- stands for the fuel of the one loop that may not end.
pub data ZstdError : Type 0 where
  zero_repeat_offset : ZstdError
  match_before_start : ZstdError
  index_error : ZstdError
  empty_bitstream : ZstdError
  no_sentinel : ZstdError
  accuracy_too_high : ℕ → ZstdError
  not_table_size : ZstdError
  empty_weights : ZstdError
  invalid_weights : ZstdError
  not_populated : ZstdError
  truncated_weights : ZstdError
  truncated_raw_literals : ZstdError
  truncated_literals : ZstdError
  treeless : ZstdError
  truncated_jump_table : ZstdError
  invalid_sizes : ZstdError
  no_prior_table : ZstdError
  too_short : ZstdError
  bad_magic : ℕ → ZstdError
  dictionary : ZstdError
  truncated_header : ZstdError
  truncated_block : ZstdError
  reserved_block : ZstdError
  missing_checksum : ZstdError
  checksum_mismatch : ZstdError
  exceeds_cap : ℕ → ZstdError
  endless : ZstdError

-- `src[i]`
pub item : List ℕ → ℕ → Result ZstdError ℕ
item [] i = err index_error
item (x ∷ xs) zero = ok x
item (x ∷ xs) (suc i) = item xs i

-- `repeat_offsets`, which no step leaves with a 0 in it.
pub record History : Type 0 where
  pub rep0 : ℕ
  pub rep1 : ℕ
  pub rep2 : ℕ

-- `ll0` is 1 where the literals are empty.
pub resolve_rep0 : History → Bool → ℕ × History
resolve_rep0 rep false = (rep.rep0, record { rep0 = rep.rep0; rep1 = rep.rep1; rep2 = rep.rep2 })
resolve_rep0 rep true = (rep.rep1, record { rep0 = rep.rep1; rep1 = rep.rep0; rep2 = rep.rep2 })

-- `temp` for a code: the difference is that of a positive offset.
pub repeated : History → ℕ → Result ZstdError ℕ
repeated rep code =
    if code == 3
    then ok (rep.rep0 - 1)
    else if code == 0
    then ok rep.rep0
    else if code == 1
    then ok rep.rep1
    else if code == 2
    then ok rep.rep2
    else err index_error

pub resolve_rep_code : History → ℕ → Result ZstdError (ℕ × History)
resolve_rep_code rep code = repeated rep code >>= λ temp.
    if temp == 0
    then err zero_repeat_offset
    else ok (
      temp,
      record { rep0 = temp; rep1 = rep.rep0; rep2 = if code == 1 then rep.rep2 else rep.rep1 },
    )

-- The offset of one sequence, where the stream gives `bits` for it.
pub resolve_offset : ℕ → ℕ → ℕ → ℕ → History → Result ZstdError (ℕ × History)
resolve_offset of_bits of_base ll_base bits rep =
    if ltb 1 of_bits
    then ok (of_base + bits, record { rep0 = of_base + bits; rep1 = rep.rep0; rep2 = rep.rep1 })
    else if of_bits == 0
    then ok (resolve_rep0 rep (ll_base == 0))
    else resolve_rep_code rep (of_base + (if ll_base == 0 then 1 else 0) + bits)

pub record Sequence : Type 0 where
  pub literal_length : ℕ
  pub match_offset : ℕ
  pub match_length : ℕ

-- `for j in range(ml)`, from `start` on.
pub copy_match : ℕ → ℕ → List ℕ → Result ZstdError (List ℕ)
copy_match zero start out = ok out
copy_match (suc ml) start out =
    let rest = copy_match ml (start + 1) (out ++ (get_or out start 0 ∷ [])) in
    if ltb start (length out) then rest else err index_error

pub append_match : Sequence → List ℕ → Result ZstdError (List ℕ)
append_match s out =
    if s.match_length == 0
    then ok out
    else if ltb (length out) s.match_offset
    then err match_before_start
    else copy_match s.match_length (length out - s.match_offset) out

-- The loop over the sequences, and the literals after the last one; `rest` is what is left of the
-- literals.
pub execute_sequences : List Sequence → List ℕ → List ℕ → Result ZstdError (List ℕ)
execute_sequences [] rest out = ok (out ++ rest)
execute_sequences (s ∷ sequences) rest out =
    append_match s (out ++ take s.literal_length rest) >>= λ longer.
    execute_sequences sequences (drop s.literal_length rest) longer
