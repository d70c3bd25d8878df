-- ===== src/Keyshare/Codec.antt =====
-- src/lcsas/keyshare/codec.py: a password framed as a SLIP-0039 master secret, and back.
pub mod Laws
mod Tests
use lcsas.Prelude.{
  ℕ, ◌+◌, ◌-◌, ◌%◌, max, List, ◌++◌, length, take, drop, replicate, ltb, if◌then◌else◌,
}
use lcsas.Prelude.Result.{Result, ok, err}
use lcsas.Prelude.Digits.{to_digits, of_digits}
use lcsas.Keyshare.Errors.{
  KeyshareError, password_too_long, master_secret_too_short, master_secret_truncated,
}

abbrev pub max_password_len : ℕ
max_password_len = 0xffff

abbrev pub length_prefix_bytes : ℕ
length_prefix_bytes = 2

abbrev pub min_master_secret_bytes : ℕ
min_master_secret_bytes = 16

-- `len(pw).to_bytes(2, "big")`
abbrev pub length_prefix : ℕ → List ℕ
length_prefix = to_digits 256 length_prefix_bytes

pub encode_master_secret : List ℕ → Result KeyshareError (List ℕ)
encode_master_secret pw =
    if ltb max_password_len (length pw)
    then err password_too_long
    else (let body = length_prefix (length pw) ++ pw in
        let target = max min_master_secret_bytes (length body + length body % 2) in
        ok (body ++ replicate (target - length body) 0))

pub decode_master_secret : List ℕ → Result KeyshareError (List ℕ)
decode_master_secret ms =
    if ltb (length ms) length_prefix_bytes
    then err master_secret_too_short
    else (let n = of_digits 256 0 (take length_prefix_bytes ms) in
        if ltb (length ms) (length_prefix_bytes + n)
        then err master_secret_truncated
        else ok (take n (drop length_prefix_bytes ms)))
