-- ===== src/Restore/Zstd/Streams.antt =====
-- src/lcsas/restore/_zstd_pure.py: the three bit readers.
use lcsas.Prelude.{
  ℕ, ◌+◌, ◌-◌, ◌*◌, ◌/◌, ◌%◌, ◌^◌, Bool, ◌||◌, List, [], ◌∷◌, length, take, drop, ltb, ◌==◌,
  if◌then◌else◌,
}
use lcsas.Prelude.Result.{Result, ok, err}
use lcsas.Restore.Crypt.{from_little}
use lcsas.Restore.Zstd.{ZstdError, empty_bitstream, no_sentinel}
use lcsas.Restore.Zstd.Fse.{bit_length}

-- `_ForwardBitReader.peek` at a bit position of the number that the bytes write.
unfoldable pub peek : ℕ → ℕ → ℕ → ℕ
peek number bitpos nbits = number / 2 ^ bitpos % 2 ^ nbits

-- `_BackwardBitReader`: the number, and `_bitpos + 1` as the bits that are left less those that were
-- read beyond the start, of which one is 0.
pub record BackwardReader : Type 0 where
  pub number : ℕ
  pub bits : ℕ
  pub debt : ℕ

pub last_byte : ℕ → List ℕ → ℕ
last_byte byte [] = byte
last_byte byte (next ∷ values) = last_byte next values

pub open_backward : List ℕ → Result ZstdError BackwardReader
open_backward [] = err empty_bitstream
open_backward (b ∷ values) =
    let last = last_byte b values in
    if last == 0
    then err no_sentinel
    else ok (record {
      number = from_little (b ∷ values);
      bits = length values * 8 + (bit_length 8 last - 1);
      debt = 0;
    })

-- `_bitpos -= nbits` and `_bitpos += nbits`.
unfoldable pub consume : ℕ → BackwardReader → BackwardReader
consume nbits br = record {
  number = br.number;
  bits = br.bits - nbits;
  debt = br.debt + (nbits - br.bits);
}

pub rewind : ℕ → BackwardReader → BackwardReader
rewind nbits br = record {
  number = br.number;
  bits = br.bits + (nbits - br.debt);
  debt = br.debt - nbits;
}

unfoldable pub read_backward : ℕ → BackwardReader → ℕ × BackwardReader
read_backward nbits br =
    if (nbits == 0) || (br.bits == 0)
    then (0, br)
    else if ltb br.bits nbits
    then (br.number % 2 ^ br.bits * 2 ^ (nbits - br.bits), consume nbits br)
    else (br.number / 2 ^ (br.bits - nbits) % 2 ^ nbits, consume nbits br)

-- `_FseDStreamReader`, with `_start` 0.
pub record FseStream : Type 0 where
  pub values : List ℕ
  pub ptr : ℕ
  pub container : ℕ
  pub consumed : ℕ

-- The bytes that a container lacks are zeros, which add nothing to its number.
pub load_container : List ℕ → ℕ → ℕ
load_container values ptr = from_little (take 8 (drop ptr values))

pub open_stream : List ℕ → Result ZstdError FseStream
open_stream [] = err empty_bitstream
open_stream (b ∷ rest) =
    let values = b ∷ rest in
    let last = last_byte b rest in
    let skip = 8 - (bit_length 8 last - 1) in
    let size = length values in
    if last == 0
    then err no_sentinel
    else if ltb size 8
    then ok (record {
      values = values;
      ptr = 0;
      container = load_container values 0;
      consumed = skip + (8 - size) * 8;
    })
    else ok (record {
      values = values;
      ptr = size - 8;
      container = load_container values (size - 8);
      consumed = skip;
    })

pub reload : FseStream → FseStream
reload s =
    let nbytes = if ltb s.ptr (s.consumed / 8) then s.ptr else s.consumed / 8 in
    if ltb 64 s.consumed || (s.ptr == 0) then s else record {
      values = s.values;
      ptr = s.ptr - nbytes;
      container = load_container s.values (s.ptr - nbytes);
      consumed = s.consumed - nbytes * 8;
    }

-- The shift is taken modulo 64.
unfoldable pub read_stream : ℕ → FseStream → ℕ × FseStream
read_stream nbits s = if nbits == 0 then (0, s) else (
  s.container / 2 ^ ((64 - (s.consumed + nbits) % 64) % 64) % 2 ^ nbits,
  reload (record {
    values = s.values;
    ptr = s.ptr;
    container = s.container;
    consumed = s.consumed + nbits;
  }),
)

unfoldable pub overflowed : FseStream → Bool
overflowed s = ltb 64 s.consumed
