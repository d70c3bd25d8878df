-- ===== src/Lib.antt =====
-- LCSAS keeps a deduplicated, encrypted repository of backups on write-once optical volumes. This
-- library models the Python program (src/lcsas) where it carries its own logic, as functions, and
-- proves what makes them correct.
--
-- Keyshare: src/lcsas/keyshare, the splitting of the repository password into SLIP-0039 cards. A
-- byte string is a list of numbers, and a property that needs them below 256 says so. `Result` is
-- the outcome of a function that may raise, with one error constructor for each `raise` (Errors).
--   Codec: codec.py. The framing of a password as a master secret of even length.
--   Radix, Rs1024, Share: slip39.py. The base-1024 word indices, the RS1024 checksum and the fields
--   of a share. A mnemonic is the list of the indices of its words in the word list. A
--   shift is a product or quotient by a power of 2, a mask of low ones a remainder; `^` is the
--   native exclusive or.
--   Feistel: slip39.py. The encryption of the master secret. `hashlib.pbkdf2_hmac` is a parameter,
--   of which is assumed that it returns bytes (`ReturnsBytes`), as many as asked for
--   (`HasLength`).
--   Gf256: slip39.py. The tables of powers and logarithms, computed by the loop of the source, and
--   the field that they make of the bytes (Times, Bytes). Field, Polynomial, Others, Lagrange: the
--   algebra of interpolation over any such field.
--   Shamir: slip39.py, `_interpolate`, `_split_secret` and `_recover_secret`, for which HMAC-SHA256
--   and the random source are the parameters of `Crypto`, and `IsSound` what is assumed of them:
--   the lengths of what they return. The calls of the random source are numbered. A sum of
--   logarithms that the source takes below 0 is written with 254 for -1, modulo 255.
--   Words: slip39.py. The lookup of a token and the diagnosis of one share; the word list and
--   `str.lower` are parameters, and a mnemonic is the list of its tokens.
--   Group, Combine, Generate: slip39.py. The sets of shares, the reading of mnemonics back to the
--   master secret, and their generation. A set is a list in the order of arrival, a dict an
--   association list.
-- Binpack: src/lcsas/binpack/algorithm.py. Which packs fill the next volume, and the estimate of
-- the volumes needed. `sorted` is a stable insertion by the same key; sizes and capacities are
-- natural numbers, and a difference that the source tests for being positive is the truncated one,
-- tested for 0. The float product of the estimate is exact at the sizes of media, below 2 ^ 46.
-- Media: the disc sizes of src/lcsas/config/media.py, and from src/lcsas/ecc/dvdisaster.py the size
-- that an image is padded to. What runs the program dvdisaster is not modelled.
-- Catalog: src/lcsas/db. The rows of the tables as records, the connection as what is on disk and
-- what the connection sees, with whether a transaction is open: sqlite3 opens one before a statement
-- that changes rows, and the release of a savepoint that has begun one commits it. A clock reading is
-- an argument. A function that may raise returns a `Result`; where it raises, the rows are as it
-- found them, but a transaction may be left open, which the error does not say.
--   Events: volume_events.py, `add_event`. Replicas: queries.py, `get_at_risk_packs_for_volume`, a
--   query written as a filter over the rows. Volumes: volumes.py, `update_status` with its table of
--   transitions and its guard. Copies: volume_copies.py, the discs of a volume and what the loss of
--   the last one does to it. Foreign keys and row ids of discs and events are not modelled.
--   Accepted, Guard, Refusals: what the guard lets through and refuses, where Service says what a
--   replica in service is without the query. Discs, Steps: the operations as a step relation on
--   connections.
-- Consolidate: src/lcsas/consolidate/merger.py, the loops that change the status of the sources of a
-- consolidation, over `update_status`. An exception leaves what was written before it, so the outcome
-- is the connection beside the error; `left_by` says after which error a transaction is open. Rounds:
-- what each round changes. Plan: `plan_consolidation` with its two queries, over the estimate of
-- Binpack.
-- Restore: src/lcsas/restore, the readers in pure Python that a restore falls back on.
--   Aes: _aes_pure.py. Bytes are numbers, and a property that needs them below 256 says so. The
--   state of a block is four columns of four rows. An index that is always in range has a default
--   that is never read. The counter mode cuts its data into chunks with the length of the data as
--   fuel, and each chunk takes at least one byte. Tables, Mixing, Columns: the arithmetic of bytes.
--   Steps, Blocks: the rounds. Counter, Ctr: the key stream.
--   Crypt: restic_fallback.py, the Poly1305 tag, whose fuel is the length of the message, the
--   authenticated decryption and the limits on scrypt.
--   Keys: restic_fallback.py, `_load_master_key` and `_try_keys`. The key file as `json` and
--   `base64` read it, scrypt, which is taken not to raise within the limits, and the parsing of the
--   master key are parameters.
--   Zstd: _zstd_pure.py. Streams: the bit readers; the position of the backward reader, which may
--   lie before the start, is the bits left and the bits read beyond. Codes, Fse, Distribution:
--   the tables of codes and their building. Huffman, Literals, Sequences, Execution: the two
--   sections of a block and what they write. Frame, Checksum: the blocks, and XXH64. The loops over
--   blocks and stripes have the length of the data as fuel, of which each round takes at least one
--   byte; the walk over the free states of a table has its size, and the counts of a distribution
--   twice the number of symbols. The loop over the weights may not end in the source: its fuel is
--   the bits of the stream for each state, and `endless` the outcome without any left. A mask is a
--   remainder, and the `|` of numbers without common bits a sum.
--   Repo: restic_fallback.py, the index, the choice of a snapshot and `_read_blob`. An identifier is
--   the list of its code points; the disc, SHA-256 and the zstd decoder, which may be
--   that of the zstandard package, are parameters, and `none` is their exception.
--
-- Prelude has what the parts share: lists over the native numbers, `Result` with its `do`, the
-- exclusive or, digits in any base, and the order of strings. But for those named above, no model has
-- fuel: each loop goes over a list.
--
-- Not modelled: the command line, the files, devices and external programs that the other packages
-- drive (rustic, xorriso, dvdisaster, sqlite), the C reader in recovery/ and its vendored libraries.
pub mod Prelude
pub mod Keyshare
pub mod Binpack
pub mod Media
pub mod Catalog
pub mod Consolidate
pub mod Restore
