-- ===== src/Restore/Aes.antt =====
-- src/lcsas/restore/_aes_pure.py: AES-128 and AES-256, and the counter mode.
pub mod Tables
pub mod Mixing
pub mod Columns
pub mod Steps
pub mod Blocks
pub mod Counter
pub mod Ctr
pub mod Tests
use Prim.Native.Nat.{bit_or}
use lcsas.Prelude.{
  ℕ, zero, suc, ◌+◌, ◌-◌, ◌*◌, ◌/◌, ◌%◌, ◌^◌, Bool, true, false, ◌&&◌, List, [], ◌∷◌, ◌++◌, length,
  take, drop, get_or, is_empty, ltb, ◌==◌, if◌then◌else◌, bit_xor,
}
use lcsas.Prelude.Result.{Result, ok, err, ◌>>=◌}
use lcsas.Prelude.Digits.{to_digits, of_digits}

-- The ValueError of `key_schedule`.
pub data AesError : Type 0 where
  key_length : AesError

pub sbox : List ℕ
sbox =
    0x63 ∷ 0x7C ∷ 0x77 ∷ 0x7B ∷ 0xF2 ∷ 0x6B ∷ 0x6F ∷ 0xC5 ∷ 0x30 ∷ 0x01 ∷ 0x67 ∷ 0x2B ∷ 0xFE ∷ 0xD7
    ∷ 0xAB ∷ 0x76 ∷ 0xCA ∷ 0x82 ∷ 0xC9 ∷ 0x7D ∷ 0xFA ∷ 0x59 ∷ 0x47 ∷ 0xF0 ∷ 0xAD ∷ 0xD4 ∷ 0xA2
    ∷ 0xAF ∷ 0x9C ∷ 0xA4 ∷ 0x72 ∷ 0xC0 ∷ 0xB7 ∷ 0xFD ∷ 0x93 ∷ 0x26 ∷ 0x36 ∷ 0x3F ∷ 0xF7 ∷ 0xCC
    ∷ 0x34 ∷ 0xA5 ∷ 0xE5 ∷ 0xF1 ∷ 0x71 ∷ 0xD8 ∷ 0x31 ∷ 0x15 ∷ 0x04 ∷ 0xC7 ∷ 0x23 ∷ 0xC3 ∷ 0x18
    ∷ 0x96 ∷ 0x05 ∷ 0x9A ∷ 0x07 ∷ 0x12 ∷ 0x80 ∷ 0xE2 ∷ 0xEB ∷ 0x27 ∷ 0xB2 ∷ 0x75 ∷ 0x09 ∷ 0x83
    ∷ 0x2C ∷ 0x1A ∷ 0x1B ∷ 0x6E ∷ 0x5A ∷ 0xA0 ∷ 0x52 ∷ 0x3B ∷ 0xD6 ∷ 0xB3 ∷ 0x29 ∷ 0xE3 ∷ 0x2F
    ∷ 0x84 ∷ 0x53 ∷ 0xD1 ∷ 0x00 ∷ 0xED ∷ 0x20 ∷ 0xFC ∷ 0xB1 ∷ 0x5B ∷ 0x6A ∷ 0xCB ∷ 0xBE ∷ 0x39
    ∷ 0x4A ∷ 0x4C ∷ 0x58 ∷ 0xCF ∷ 0xD0 ∷ 0xEF ∷ 0xAA ∷ 0xFB ∷ 0x43 ∷ 0x4D ∷ 0x33 ∷ 0x85 ∷ 0x45
    ∷ 0xF9 ∷ 0x02 ∷ 0x7F ∷ 0x50 ∷ 0x3C ∷ 0x9F ∷ 0xA8 ∷ 0x51 ∷ 0xA3 ∷ 0x40 ∷ 0x8F ∷ 0x92 ∷ 0x9D
    ∷ 0x38 ∷ 0xF5 ∷ 0xBC ∷ 0xB6 ∷ 0xDA ∷ 0x21 ∷ 0x10 ∷ 0xFF ∷ 0xF3 ∷ 0xD2 ∷ 0xCD ∷ 0x0C ∷ 0x13
    ∷ 0xEC ∷ 0x5F ∷ 0x97 ∷ 0x44 ∷ 0x17 ∷ 0xC4 ∷ 0xA7 ∷ 0x7E ∷ 0x3D ∷ 0x64 ∷ 0x5D ∷ 0x19 ∷ 0x73
    ∷ 0x60 ∷ 0x81 ∷ 0x4F ∷ 0xDC ∷ 0x22 ∷ 0x2A ∷ 0x90 ∷ 0x88 ∷ 0x46 ∷ 0xEE ∷ 0xB8 ∷ 0x14 ∷ 0xDE
    ∷ 0x5E ∷ 0x0B ∷ 0xDB ∷ 0xE0 ∷ 0x32 ∷ 0x3A ∷ 0x0A ∷ 0x49 ∷ 0x06 ∷ 0x24 ∷ 0x5C ∷ 0xC2 ∷ 0xD3
    ∷ 0xAC ∷ 0x62 ∷ 0x91 ∷ 0x95 ∷ 0xE4 ∷ 0x79 ∷ 0xE7 ∷ 0xC8 ∷ 0x37 ∷ 0x6D ∷ 0x8D ∷ 0xD5 ∷ 0x4E
    ∷ 0xA9 ∷ 0x6C ∷ 0x56 ∷ 0xF4 ∷ 0xEA ∷ 0x65 ∷ 0x7A ∷ 0xAE ∷ 0x08 ∷ 0xBA ∷ 0x78 ∷ 0x25 ∷ 0x2E
    ∷ 0x1C ∷ 0xA6 ∷ 0xB4 ∷ 0xC6 ∷ 0xE8 ∷ 0xDD ∷ 0x74 ∷ 0x1F ∷ 0x4B ∷ 0xBD ∷ 0x8B ∷ 0x8A ∷ 0x70
    ∷ 0x3E ∷ 0xB5 ∷ 0x66 ∷ 0x48 ∷ 0x03 ∷ 0xF6 ∷ 0x0E ∷ 0x61 ∷ 0x35 ∷ 0x57 ∷ 0xB9 ∷ 0x86 ∷ 0xC1
    ∷ 0x1D ∷ 0x9E ∷ 0xE1 ∷ 0xF8 ∷ 0x98 ∷ 0x11 ∷ 0x69 ∷ 0xD9 ∷ 0x8E ∷ 0x94 ∷ 0x9B ∷ 0x1E ∷ 0x87
    ∷ 0xE9 ∷ 0xCE ∷ 0x55 ∷ 0x28 ∷ 0xDF ∷ 0x8C ∷ 0xA1 ∷ 0x89 ∷ 0x0D ∷ 0xBF ∷ 0xE6 ∷ 0x42 ∷ 0x68
    ∷ 0x41 ∷ 0x99 ∷ 0x2D ∷ 0x0F ∷ 0xB0 ∷ 0x54 ∷ 0xBB ∷ 0x16 ∷ []

pub rcon : List ℕ
rcon = 0x01 ∷ 0x02 ∷ 0x04 ∷ 0x08 ∷ 0x10 ∷ 0x20 ∷ 0x40 ∷ 0x80 ∷ 0x1B ∷ 0x36 ∷ []

-- `_SBOX[b]`
pub sbox_at : ℕ → ℕ
sbox_at b = get_or sbox b 0

pub xtime : ℕ → ℕ
xtime a = if a / 0x80 % 2 == 1 then bit_xor (a * 2) 0x1B % 256 else a * 2 % 256

-- The loop of `_gf_mul`, with the rounds left.
pub gf_mul_rounds : ℕ → ℕ → ℕ → ℕ → ℕ
gf_mul_rounds zero b result temp = result
gf_mul_rounds (suc n) b result temp =
    gf_mul_rounds n (b / 2) (if b % 2 == 1 then bit_xor result temp else result) (xtime temp)

pub gf_mul : ℕ → ℕ → ℕ
gf_mul a b = gf_mul_rounds 8 b 0 a

-- `_MUL2[i]` and `_MUL3[i]`, for a byte `i`.
pub mul2 : ℕ → ℕ
mul2 i = gf_mul 2 i

pub mul3 : ℕ → ℕ
mul3 i = gf_mul 3 i

pub sub_word : ℕ → ℕ
sub_word w =
    bit_or
      (bit_or (bit_or (sbox_at (w / 2 ^ 24 % 256) * 2 ^ 24) (sbox_at (w / 2 ^ 16 % 256) * 2 ^ 16))
        (sbox_at (w / 2 ^ 8 % 256) * 2 ^ 8))
      (sbox_at (w % 256))

pub rot_word : ℕ → ℕ
rot_word w = bit_or (w * 2 ^ 8) (w / 2 ^ 24) % 2 ^ 32

-- `struct.unpack` of big-endian words of 32 bits, `n` of them.
pub unpack_words : ℕ → List ℕ → List ℕ
unpack_words zero key = []
unpack_words (suc n) key = of_digits 256 0 (take 4 key) ∷ unpack_words n (drop 4 key)

-- The word that is combined with `w[i - nk]`, from `w[i - 1]`.
pub mixed_word : ℕ → ℕ → ℕ → ℕ
mixed_word nk i temp =
    if i % nk == 0
    then bit_xor (sub_word (rot_word temp)) (get_or rcon (i / nk - 1) 0 * 2 ^ 24)
    else if ltb 6 nk && (i % nk == 4)
    then sub_word temp
    else temp

-- The loop over `range(nk, total_words)`, with the rounds left.
pub expand : ℕ → ℕ → ℕ → List ℕ → List ℕ
expand nk zero i w = w
expand nk (suc n) i w =
    expand nk n (i + 1)
      (w ++ (bit_xor (get_or w (i - nk) 0) (mixed_word nk i (get_or w (i - 1) 0)) ∷ []))

pub pack_key : List ℕ → ℕ → List ℕ
pack_key w r =
    to_digits 256 4 (get_or w (4 * r) 0)
    ++ (to_digits 256 4 (get_or w (4 * r + 1) 0)
        ++ (to_digits 256 4 (get_or w (4 * r + 2) 0) ++ to_digits 256 4 (get_or w (4 * r + 3) 0)))

-- `for r in range(nr + 1)`, from `r` on.
pub pack_keys : List ℕ → ℕ → ℕ → List (List ℕ)
pack_keys w r zero = []
pack_keys w r (suc n) = pack_key w r ∷ pack_keys w (r + 1) n

pub expanded_keys : ℕ → ℕ → List ℕ → List (List ℕ)
expanded_keys nk nr key =
    pack_keys (expand nk (4 * (nr + 1) - nk) nk (unpack_words nk key)) 0 (nr + 1)

pub key_schedule : List ℕ → Result AesError (List (List ℕ))
key_schedule key =
    if length key == 16
    then ok (expanded_keys 4 10 key)
    else if length key == 32
    then ok (expanded_keys 8 14 key)
    else err key_length

-- The state, column by column: index = row + 4 * col.
pub record Column : Type 0 where
  pub row0 : ℕ
  pub row1 : ℕ
  pub row2 : ℕ
  pub row3 : ℕ

pub record State : Type 0 where
  pub col0 : Column
  pub col1 : Column
  pub col2 : Column
  pub col3 : Column

pub column_of : ℕ → List ℕ → Column
column_of i block = record {
  row0 = get_or block i 0;
  row1 = get_or block (i + 1) 0;
  row2 = get_or block (i + 2) 0;
  row3 = get_or block (i + 3) 0;
}

-- `list(block)`, for a block of 16 bytes.
pub state_of : List ℕ → State
state_of block = record {
  col0 = column_of 0 block;
  col1 = column_of 4 block;
  col2 = column_of 8 block;
  col3 = column_of 12 block;
}

pub bytes_of_column : Column → List ℕ → List ℕ
bytes_of_column c rest = c.row0 ∷ c.row1 ∷ c.row2 ∷ c.row3 ∷ rest

-- `bytes(state)`
pub bytes_of : State → List ℕ
bytes_of s =
    bytes_of_column s.col0
      (bytes_of_column s.col1 (bytes_of_column s.col2 (bytes_of_column s.col3 [])))

pub map_column : (ℕ → ℕ) → Column → Column
map_column f c = record { row0 = f c.row0; row1 = f c.row1; row2 = f c.row2; row3 = f c.row3 }

pub sub_bytes : State → State
sub_bytes s = record {
  col0 = map_column sbox_at s.col0;
  col1 = map_column sbox_at s.col1;
  col2 = map_column sbox_at s.col2;
  col3 = map_column sbox_at s.col3;
}

-- Row r of a column comes from the column r further on.
pub shifted_column : Column → Column → Column → Column → Column
shifted_column a b c d = record { row0 = a.row0; row1 = b.row1; row2 = c.row2; row3 = d.row3 }

pub shift_rows : State → State
shift_rows s = record {
  col0 = shifted_column s.col0 s.col1 s.col2 s.col3;
  col1 = shifted_column s.col1 s.col2 s.col3 s.col0;
  col2 = shifted_column s.col2 s.col3 s.col0 s.col1;
  col3 = shifted_column s.col3 s.col0 s.col1 s.col2;
}

pub mix_column : Column → Column
mix_column c =
    let s0 = c.row0 in
    let s1 = c.row1 in
    let s2 = c.row2 in
    let s3 = c.row3 in
    record {
      row0 = bit_xor (bit_xor (bit_xor (mul2 s0) (mul3 s1)) s2) s3;
      row1 = bit_xor (bit_xor (bit_xor s0 (mul2 s1)) (mul3 s2)) s3;
      row2 = bit_xor (bit_xor (bit_xor s0 s1) (mul2 s2)) (mul3 s3);
      row3 = bit_xor (bit_xor (bit_xor (mul3 s0) s1) s2) (mul2 s3);
    }

pub mix_columns : State → State
mix_columns s = record {
  col0 = mix_column s.col0;
  col1 = mix_column s.col1;
  col2 = mix_column s.col2;
  col3 = mix_column s.col3;
}

pub xor_column : Column → Column → Column
xor_column c k = record {
  row0 = bit_xor c.row0 k.row0;
  row1 = bit_xor c.row1 k.row1;
  row2 = bit_xor c.row2 k.row2;
  row3 = bit_xor c.row3 k.row3;
}

pub add_round_key : State → List ℕ → State
add_round_key s rk =
    let k = state_of rk in
    record {
      col0 = xor_column s.col0 k.col0;
      col1 = xor_column s.col1 k.col1;
      col2 = xor_column s.col2 k.col2;
      col3 = xor_column s.col3 k.col3;
    }

-- `for rnd in range(1, nr)`, from `rnd` on.
pub middle_rounds : List (List ℕ) → ℕ → ℕ → State → State
middle_rounds round_keys rnd zero s = s
middle_rounds round_keys rnd (suc n) s =
    middle_rounds round_keys (rnd + 1) n
      (add_round_key (mix_columns (shift_rows (sub_bytes s))) (get_or round_keys rnd []))

-- `round_keys` is what `key_schedule` returns, so that its indices are in range.
pub aes_encrypt_block : List ℕ → List (List ℕ) → List ℕ
aes_encrypt_block block round_keys =
    let nr = length round_keys - 1 in
    let start = add_round_key (state_of block) (get_or round_keys 0 []) in
    let last = middle_rounds round_keys 1 (nr - 1) start in
    bytes_of (add_round_key (shift_rows (sub_bytes last)) (get_or round_keys nr []))

-- `_inc_counter`, from the last byte on: the new bytes, and whether the loop went on beyond them.
pub inc_bytes : List ℕ → List ℕ × Bool
inc_bytes [] = ([], true)
inc_bytes (c ∷ ctr) =
    let (rest, carried) = inc_bytes ctr in
    if carried then ((c + 1) % 256 ∷ rest, (c + 1) % 256 == 0) else (c ∷ rest, false)

pub inc_counter : List ℕ → List ℕ
inc_counter ctr = (inc_bytes ctr).0

-- One chunk: the keystream has 16 bytes, and the chunk at most as many.
pub xor_chunk : List ℕ → List ℕ → List ℕ
xor_chunk [] keystream = []
xor_chunk (d ∷ chunk) [] = []
xor_chunk (d ∷ chunk) (k ∷ keystream) = bit_xor d k ∷ xor_chunk chunk keystream

-- The loop over what is left of the data, for at most `fuel` chunks.
pub ctr_chunks : ℕ → List (List ℕ) → List ℕ → List ℕ → List ℕ
ctr_chunks zero rk counter rest = []
ctr_chunks (suc fuel) rk counter rest =
    let more = ctr_chunks fuel rk (inc_counter counter) (drop 16 rest) in
    if is_empty rest then [] else xor_chunk (take 16 rest) (aes_encrypt_block counter rk) ++ more

pub aes_ctr : List ℕ → List ℕ → List ℕ → Result AesError (List ℕ)
aes_ctr key iv values = key_schedule key >>= λ rk. ok (ctr_chunks (length values) rk iv values)
