-- ===== src/Restore/Zstd/Frame.antt =====
-- src/lcsas/restore/_zstd_pure.py: the frame, its blocks and its checksum.
pub mod Stored
pub mod Laws
mod Tests
use lcsas.Prelude.{
  ℕ, zero, suc, ◌+◌, ◌-◌, ◌*◌, ◌/◌, ◌%◌, ◌^◌, Bool, true, false, not, ◌&&◌, Option, some, none,
  List, [], ◌∷◌, ◌++◌, length, take, drop, replicate, ltb, ◌==◌, if◌then◌else◌,
}
use lcsas.Prelude.Result.{Result, ok, err, ◌>>=◌}
use lcsas.Restore.Crypt.{from_little}
use lcsas.Restore.Zstd.{
  ZstdError, item, too_short, bad_magic, dictionary, truncated_header, truncated_block,
  reserved_block, missing_checksum, checksum_mismatch, exceeds_cap, endless, History,
  execute_sequences,
}
use lcsas.Restore.Zstd.Huffman.{HuffmanTable}
use lcsas.Restore.Zstd.Literals.{decode_literals}
use lcsas.Restore.Zstd.Sequences.{Tables, decode_sequences}
use lcsas.Restore.Zstd.Checksum.{xxh64}

pub magic : ℕ
magic = 0xFD2FB528

pub dict_id_size : ℕ → ℕ
dict_id_size flag = if flag == 3 then 4 else flag

pub fcs_size : ℕ → Bool → ℕ
fcs_size flag single_segment =
    if flag == 0
    then (if single_segment then 1 else 0)
    else if flag == 1
    then 2
    else if flag == 2
    then 4
    else 8

-- From the descriptor on: whether a checksum follows the blocks, and the data after the header.
pub read_descriptor : ℕ → List ℕ → Result ZstdError (Bool × List ℕ)
read_descriptor fhd after =
    let single_segment = fhd / 32 % 2 == 1 in
    let ids = dict_id_size (fhd % 4) in
    let window = if single_segment then after else drop 1 after in
    if not (from_little (take ids window) == 0)
    then err dictionary
    else ok (fhd / 4 % 2 == 1, drop (fcs_size (fhd / 64 % 4) single_segment) (drop ids window))

pub read_header : List ℕ → Result ZstdError (Bool × List ℕ)
read_header values =
    if ltb (length values) 5
    then err too_short
    else if not (from_little (take 4 values) == magic)
    then err (bad_magic (from_little (take 4 values)))
    else item values 4 >>= λ fhd. read_descriptor fhd (drop 5 values)

-- What the loop over the blocks carries along.
pub record Decoder : Type 0 where
  pub out : List ℕ
  pub prev_huffman : Option HuffmanTable
  pub prev_seq_tables : Tables
  pub repeat_offsets : History

pub append_out : Decoder → List ℕ → Decoder
append_out d bytes = record {
  out = d.out ++ bytes;
  prev_huffman = d.prev_huffman;
  prev_seq_tables = d.prev_seq_tables;
  repeat_offsets = d.repeat_offsets;
}

pub compressed_block : List ℕ → Decoder → Result ZstdError Decoder
compressed_block block d = decode_literals block d.prev_huffman >>= λ literals.
    let (lits, lit_consumed, huffman) = literals in
    decode_sequences (drop lit_consumed block) d.prev_seq_tables d.repeat_offsets >>= λ decoded.
    let (seqs, tables, rep) = decoded in
    execute_sequences seqs lits d.out >>= λ out.
    ok
      (record { out = out; prev_huffman = huffman; prev_seq_tables = tables; repeat_offsets = rep })

-- One block by its type and size, and the data after it.
pub read_block : ℕ → ℕ → List ℕ → Decoder → Result ZstdError (Decoder × List ℕ)
read_block block_type block_size rest d =
    if block_type == 0
    then ok (append_out d (take block_size rest), drop block_size rest)
    else if block_type == 1
    then (item rest 0 >>= λ b. ok (append_out d (replicate block_size b), drop 1 rest))
    else if block_type == 2
    then (if ltb (length (take block_size rest)) block_size
        then err truncated_block
        else compressed_block (take block_size rest) d >>= λ after.
            ok (after, drop block_size rest))
    else err reserved_block

-- The loop, for at most `fuel` blocks; each has a header of three bytes.
pub read_blocks : ℕ → List ℕ → Decoder → Result ZstdError (Decoder × List ℕ)
read_blocks zero rest d = err endless
read_blocks (suc fuel) rest d =
    let bh = from_little (take 3 rest) in
    if ltb (length rest) 3
    then err truncated_header
    else read_block (bh / 2 % 4) (bh / 8) (drop 3 rest) d >>= λ done. elim (bh % 2 == 1) [
      | true ↦ ok done
      | false ↦ read_blocks fuel done.1 done.0
    ]

pub check_sum : Bool → List ℕ → List ℕ → Result ZstdError (List ℕ)
check_sum content_checksum out rest =
    if not content_checksum
    then ok out
    else if ltb (length rest) 4
    then err missing_checksum
    else if not (xxh64 out 0 % 2 ^ 32 == from_little (take 4 rest))
    then err checksum_mismatch
    else ok out

abbrev pub fresh : Decoder
fresh = record {
  out = [];
  prev_huffman = none;
  prev_seq_tables = record { ll = none; of = none; ml = none };
  repeat_offsets = record { rep0 = 1; rep1 = 4; rep2 = 8 };
}

pub decompress_frame : List ℕ → Result ZstdError (List ℕ)
decompress_frame values = read_header values >>= λ header.
    read_blocks (length values) header.1 fresh >>= λ done. check_sum header.0 done.0.out done.1

pub decompress : List ℕ → ℕ → Result ZstdError (List ℕ)
decompress values max_output_size = decompress_frame values >>= λ result.
    if not (max_output_size == 0) && ltb max_output_size (length result)
    then err (exceeds_cap (length result))
    else ok result
