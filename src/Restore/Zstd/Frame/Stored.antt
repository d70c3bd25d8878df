-- ===== src/Restore/Zstd/Frame/Stored.antt =====
-- The layout of frames of stored blocks, and how src/lcsas/restore/_zstd_pure.py reads their parts.
use mathlib.Core.List.{append_assoc, append-nil}
use lcsas.Prelude.{
  ℕ, zero, suc, ◌+◌, ◌-◌, ◌*◌, ◌/◌, ◌%◌, ◌^◌, ◌<◌, ◌≡◌, refl, sym, ap, ◌∙◌, Bool, true, false,
  if◌then◌else◌, List, [], ◌∷◌, ◌++◌, length, take, drop, All, ltb, ◌==◌, arith, length-append,
  take-append, drop-append,
}
use lcsas.Prelude.Result.{ok}
use lcsas.Restore.Crypt.{from_little, to_little}
use lcsas.Restore.Crypt.Laws.{length-to_little, from_little-to_little}
use lcsas.Restore.Zstd.{item}
use lcsas.Restore.Zstd.Checksum.{xxh64}
use lcsas.Restore.Zstd.Frame.{
  magic, dict_id_size, fcs_size, read_descriptor, read_header, Decoder, append_out, read_block,
  read_blocks, check_sum,
}

-- A stored block: its header, with the bit of the last block, and its bytes.
abbrev pub stored_block : ℕ → List ℕ → List ℕ
stored_block last chunk = to_little 3 (last + length chunk * 8) ++ chunk

abbrev pub stored_blocks : List ℕ → List (List ℕ) → List ℕ
stored_blocks chunk [] = stored_block 1 chunk
stored_blocks chunk (next ∷ chunks) = stored_block 0 chunk ++ stored_blocks next chunks

abbrev pub joined : List (List ℕ) → List ℕ
joined [] = []
joined (chunk ∷ chunks) = chunk ++ joined chunks

-- The four values of the descriptor's Frame_Content_Size_flag.
pub data SizeFlag : Type 0 where
  shortest two_bytes four_bytes eight_bytes : SizeFlag

abbrev flag_number : SizeFlag → ℕ
flag_number shortest = 0
flag_number two_bytes = 1
flag_number four_bytes = 2
flag_number eight_bytes = 3

-- The descriptor of a frame without a dictionary.
abbrev pub descriptor : SizeFlag → Bool → Bool → ℕ
descriptor flag single_segment content_checksum =
    flag_number flag * 64 + (if single_segment then 32 else 0) + (if content_checksum then 4 else 0)

abbrev pub window_field : Bool → ℕ → List ℕ
window_field single_segment window = if single_segment then [] else window ∷ []

-- The size of the content: one byte or none with the shortest flag, and 256 less in two bytes.
abbrev pub size_field : SizeFlag → Bool → ℕ → List ℕ
size_field shortest single_segment size = if single_segment then to_little 1 size else []
size_field two_bytes single_segment size = to_little 2 (size - 256)
size_field four_bytes single_segment size = to_little 4 size
size_field eight_bytes single_segment size = to_little 8 size

abbrev pub checksum_field : Bool → List ℕ → List ℕ
checksum_field content_checksum out =
    if content_checksum then to_little 4 (xxh64 out 0 % 2 ^ 32) else []

-- A frame whose blocks are all stored, as the format lays it out.
abbrev pub stored_frame : SizeFlag → Bool → Bool → ℕ → List ℕ → List (List ℕ) → List ℕ
stored_frame flag single_segment content_checksum window chunk chunks =
    0x28
    ∷ 0xB5
    ∷ 0x2F
    ∷ 0xFD
    ∷ descriptor flag single_segment content_checksum
    ∷ (window_field single_segment window
        ++ (size_field flag single_segment (length (chunk ++ joined chunks))
            ++ (stored_blocks chunk chunks
                ++ checksum_field content_checksum (chunk ++ joined chunks))))

abbrev pub IsShort : List ℕ → Type 0
IsShort chunk = length chunk < 2 ^ 21

append_out-append_out :
    (d : Decoder) (a b : List ℕ) → append_out (append_out d a) b ≡ append_out d (a ++ b)
unfolding append_out
append_out-append_out d a b i = record {
  out = append_assoc d.out a b i;
  prev_huffman = d.prev_huffman;
  prev_seq_tables = d.prev_seq_tables;
  repeat_offsets = d.repeat_offsets;
}

module _ (chunk rest : List ℕ) (short : IsShort chunk) (d : Decoder) where
  header-last :
      (last : ℕ)
      → last < 2
      → from_little (take 3 (stored_block last chunk ++ rest)) ≡ last + length chunk * 8
  header-last last bit =
      ap (λ t. from_little (take 3 t))
        (append_assoc (to_little 3 (last + length chunk * 8)) chunk rest)
      ∙ ap from_little (
          take-append 3 (to_little 3 (last + length chunk * 8)) (chunk ++ rest)
            (length-to_little 3 _))
      ∙ from_little-to_little 3 (last + length chunk * 8) (omega (arith, short, bit))

  payload-last : (last : ℕ) → drop 3 (stored_block last chunk ++ rest) ≡ chunk ++ rest
  payload-last last =
      ap (drop 3) (append_assoc (to_little 3 (last + length chunk * 8)) chunk rest)
      ∙ drop-append 3 (to_little 3 (last + length chunk * 8)) (chunk ++ rest) (length-to_little 3 _)

  read_block-stored :
      (bh last : ℕ)
      → last < 2
      → bh ≡ last + length chunk * 8
      → read_block (bh / 2 % 4) (bh / 8) (chunk ++ rest) d ≡ ok (append_out d chunk, rest)
  unfolding read_block
  read_block-stored bh last bit e =
      rw
        (
          e,
          kind,
          size,
          take-append (length chunk) chunk rest refl,
          drop-append (length chunk) chunk rest refl,
        )
        refl
    where
      kind : (last + length chunk * 8) / 2 % 4 ≡ 0
      kind = omega (arith, bit)

      size : (last + length chunk * 8) / 8 ≡ length chunk
      size = omega (arith, bit)

  read_blocks-stored :
      (fuel last : ℕ)
      → last < 2
      → read_blocks (suc fuel) (stored_block last chunk ++ rest) d ≡ elim (last == 1) [
        | true ↦ ok (append_out d chunk, rest)
        | false ↦ read_blocks fuel rest (append_out d chunk)
      ]
  unfolding read_blocks
  read_blocks-stored fuel last bit =
      rw (long, payload-last last, read_block-stored _ last bit (header-last last bit), flag) refl
    where
      long : ltb (length (stored_block last chunk ++ rest)) 3 ≡ false
      long = ground (
        arith,
        length-append (stored_block last chunk) rest,
        length-append (to_little 3 (last + length chunk * 8)) chunk,
        length-to_little 3 (last + length chunk * 8),
      )

      flag : from_little (take 3 (stored_block last chunk ++ rest)) % 2 ≡ last
      flag = omega (arith, header-last last bit, bit)

pub read_blocks-all :
    (fuel : ℕ) (chunk : List ℕ) (chunks : List (List ℕ)) (rest : List ℕ) (d : Decoder)
    → length chunks < fuel
    → IsShort chunk
    → All IsShort chunks
    → read_blocks fuel (stored_blocks chunk chunks ++ rest) d
      ≡ ok (append_out d (chunk ++ joined chunks), rest)
read_blocks-all zero chunk chunks rest d enough short shorts = absurd (omega arith)
read_blocks-all (suc fuel) chunk [] rest d enough short shorts =
    read_blocks-stored chunk rest short d fuel 1 (omega arith)
    ∙ ap (λ t. ok (append_out d t, rest)) (sym (append-nil chunk))
read_blocks-all (suc fuel) chunk (next ∷ chunks) rest d enough short shorts =
    ap (λ t. read_blocks (suc fuel) t d)
      (append_assoc (stored_block 0 chunk) (stored_blocks next chunks) rest)
    ∙ read_blocks-stored chunk (stored_blocks next chunks ++ rest) short d fuel 0 (omega arith)
    ∙ read_blocks-all fuel next chunks rest (append_out d chunk) (omega arith) shorts.0 shorts.1
    ∙ ap (λ t. ok (t, rest)) (append_out-append_out d chunk (next ++ joined chunks))

pub length-stored_blocks :
    (chunk : List ℕ) (chunks : List (List ℕ)) → length chunks < length (stored_blocks chunk chunks)
length-stored_blocks chunk [] = omega (
  arith,
  length-append (to_little 3 (1 + length chunk * 8)) chunk,
  length-to_little 3 (1 + length chunk * 8),
)
length-stored_blocks chunk (next ∷ chunks) = omega (
  arith,
  length-append (stored_block 0 chunk) (stored_blocks next chunks),
  length-append (to_little 3 (0 + length chunk * 8)) chunk,
  length-to_little 3 (0 + length chunk * 8),
  length-stored_blocks next chunks,
)

pub read_descriptor-stored :
    (flag : SizeFlag) (single_segment content_checksum : Bool) (window size : ℕ) (blocks : List ℕ)
    → read_descriptor
        (descriptor flag single_segment content_checksum)
        (window_field single_segment window ++ (size_field flag single_segment size ++ blocks))
      ≡ ok (content_checksum, blocks)
unfolding read_descriptor dict_id_size fcs_size from_little to_little
read_descriptor-stored shortest true true window size blocks = refl
read_descriptor-stored shortest true false window size blocks = refl
read_descriptor-stored shortest false true window size blocks = refl
read_descriptor-stored shortest false false window size blocks = refl
read_descriptor-stored two_bytes true true window size blocks = refl
read_descriptor-stored two_bytes true false window size blocks = refl
read_descriptor-stored two_bytes false true window size blocks = refl
read_descriptor-stored two_bytes false false window size blocks = refl
read_descriptor-stored four_bytes true true window size blocks = refl
read_descriptor-stored four_bytes true false window size blocks = refl
read_descriptor-stored four_bytes false true window size blocks = refl
read_descriptor-stored four_bytes false false window size blocks = refl
read_descriptor-stored eight_bytes true true window size blocks = refl
read_descriptor-stored eight_bytes true false window size blocks = refl
read_descriptor-stored eight_bytes false true window size blocks = refl
read_descriptor-stored eight_bytes false false window size blocks = refl

pub read_header-stored :
    (fhd : ℕ) (after : List ℕ)
    → read_header (0x28 ∷ 0xB5 ∷ 0x2F ∷ 0xFD ∷ fhd ∷ after) ≡ read_descriptor fhd after
unfolding read_header magic from_little item
read_header-stored fhd after = rw long refl
  where
    long : ltb (suc (suc (suc (suc (suc (length after)))))) 5 ≡ false
    long = ground arith

check_sum-written : (out : List ℕ) → check_sum true out (checksum_field true out) ≡ ok out
unfolding check_sum
check_sum-written out = rw (enough, whole, from_little-to_little 4 sum fits, same) refl
  where
    sum : ℕ
    sum = xxh64 out 0 % 2 ^ 32

    fits : sum < 256 ^ 4
    fits = omega arith

    enough : ltb (length (to_little 4 sum)) 4 ≡ false
    enough = ground (arith, length-to_little 4 sum)

    whole : take 4 (to_little 4 sum) ≡ to_little 4 sum
    whole =
        ap (take 4) (sym (append-nil (to_little 4 sum)))
        ∙ take-append 4 (to_little 4 sum) [] (length-to_little 4 sum)

    same : (sum == sum) ≡ true
    same = ground arith

pub check_sum-stored :
    (content_checksum : Bool) (out : List ℕ)
    → check_sum content_checksum out (checksum_field content_checksum out) ≡ ok out
unfolding check_sum
check_sum-stored true out = check_sum-written out
check_sum-stored false out = refl
