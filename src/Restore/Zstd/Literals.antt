-- ===== src/Restore/Zstd/Literals.antt =====
-- src/lcsas/restore/_zstd_pure.py: the literals of a block.
use lcsas.Prelude.{
  ℕ, zero, suc, ◌+◌, ◌-◌, ◌*◌, ◌/◌, ◌%◌, Bool, false, ◌||◌, Option, some, none, List, [], ◌∷◌, ◌++◌,
  length, take, drop, replicate, ltb, ◌==◌, if◌then◌else◌,
}
use lcsas.Prelude.Result.{Result, ok, err, ◌>>=◌}
use lcsas.Restore.Crypt.{from_little}
use lcsas.Restore.Zstd.{
  ZstdError, item, truncated_raw_literals, truncated_literals, treeless, truncated_jump_table,
  invalid_sizes,
}
use lcsas.Restore.Zstd.Streams.{BackwardReader, open_backward, read_backward, rewind}
use lcsas.Restore.Zstd.Huffman.{HuffmanTable, decode_huffman_weights, build_huffman_from_weights}

-- `for _ in range(out_size)`
pub decode_symbols : ℕ → HuffmanTable → BackwardReader → Result ZstdError (List ℕ)
decode_symbols zero table br = ok []
decode_symbols (suc n) table br =
    let (prefix, after) = read_backward table.max_bits br in
    item table.symbols prefix >>= λ sym. item table.num_bits prefix >>= λ nb.
    decode_symbols n table (rewind (table.max_bits - nb) after) >>= λ out. ok (sym ∷ out)

pub decode_literals_huffman : HuffmanTable → List ℕ → ℕ → Result ZstdError (List ℕ)
decode_literals_huffman table stream out_size =
    open_backward stream >>= λ br. decode_symbols out_size table br

-- The loop over the streams, from their sizes and the numbers of symbols.
pub decode_streams : HuffmanTable → List (ℕ × ℕ) → List ℕ → Result ZstdError (List ℕ)
decode_streams table [] values = ok []
decode_streams table (sizes ∷ streams) values =
    decode_literals_huffman table (take sizes.0 values) sizes.1 >>= λ out.
    decode_streams table streams (drop sizes.0 values) >>= λ rest. ok (out ++ rest)

-- A range of a negative size has no rounds.
pub decode_literals_4streams : HuffmanTable → List ℕ → ℕ → Result ZstdError (List ℕ)
decode_literals_4streams table values regen =
    let s1 = from_little (take 2 values) in
    let s2 = from_little (take 2 (drop 2 values)) in
    let s3 = from_little (take 2 (drop 4 values)) in
    let total = length values - 6 in
    let seg = (regen + 3) / 4 in
    if ltb (length values) 6
    then err truncated_jump_table
    else if ltb total (s1 + s2 + s3)
    then err invalid_sizes
    else decode_streams table
        ((s1, seg) ∷ (s2, seg) ∷ (s3, seg) ∷ (total - (s1 + s2 + s3), regen - 3 * seg) ∷ [])
        (drop 6 values)

-- The size of raw or RLE literals, and that of the header.
pub plain_header : List ℕ → ℕ → Result ZstdError (ℕ × ℕ)
plain_header src b0 =
    if (b0 / 4 % 4 == 0) || (b0 / 4 % 4 == 2)
    then ok (b0 / 8, 1)
    else if b0 / 4 % 4 == 1
    then (item src 1 >>= λ b1. ok (b0 / 16 + b1 * 16, 2))
    else item src 1 >>= λ b1. item src 2 >>= λ b2. ok (b0 / 16 + b1 * 16 + b2 * 4096, 3)

pub plain_literals :
    List ℕ → ℕ → Option HuffmanTable → Result ZstdError (List ℕ × ℕ × Option HuffmanTable)
plain_literals src b0 prev_huffman = plain_header src b0 >>= λ header.
    let (regen, hdr) = header in
    if b0 % 4 == 0
    then if ltb (length (take regen (drop hdr src))) regen
      then err truncated_raw_literals
      else ok (take regen (drop hdr src), hdr + regen, prev_huffman)
    else item src hdr >>= λ b. ok (replicate regen b, hdr + 1, prev_huffman)

-- The header of compressed literals: both sizes, that of the header, and whether there is one stream.
pub compressed_header : List ℕ → ℕ → Result ZstdError (ℕ × ℕ × ℕ × Bool)
compressed_header src b0 = item src 1 >>= λ b1. item src 2 >>= λ b2.
    if ltb (b0 / 4 % 4) 2
    then ok (b0 / 16 + b1 % 64 * 16, b1 / 64 + b2 * 4, 3, b0 / 4 % 4 == 0)
    else item src 3 >>= λ b3.
        if b0 / 4 % 4 == 2
        then ok (b0 / 16 + b1 * 16 + b2 % 4 * 4096, b2 / 4 + b3 * 64, 4, false)
        else item src 4 >>= λ b4.
            ok (b0 / 16 + b1 * 16 + b2 % 64 * 4096, b2 / 64 + b3 * 4 + b4 * 1024, 5, false)

-- The table of the literals, and the streams after it.
pub literals_table : ℕ → List ℕ → Option HuffmanTable → Result ZstdError (HuffmanTable × List ℕ)
literals_table b0 payload prev_huffman =
    if b0 % 4 == 2
    then (item payload 0 >>= λ header_byte.
        decode_huffman_weights payload header_byte >>= λ described.
        let (weights, tree_bytes) = described in
        build_huffman_from_weights weights >>= λ table. ok (table, drop tree_bytes payload))
    else elim prev_huffman [ none ↦ err treeless | some table ↦ ok (table, payload) ]

pub decode_literals :
    List ℕ → Option HuffmanTable → Result ZstdError (List ℕ × ℕ × Option HuffmanTable)
decode_literals src prev_huffman = item src 0 >>= λ b0.
    if ltb (b0 % 4) 2
    then plain_literals src b0 prev_huffman
    else compressed_header src b0 >>= λ header.
        let (regen, comp, hdr, single) = header in
        let payload = take comp (drop hdr src) in
        if ltb (length payload) comp
        then err truncated_literals
        else literals_table b0 payload prev_huffman >>= λ found.
            let (table, stream_data) = found in
            (if single
              then decode_literals_huffman table stream_data regen
              else decode_literals_4streams table stream_data regen)
            >>= λ lits. ok (lits, hdr + comp, some table)
