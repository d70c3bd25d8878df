-- ===== src/Restore/Crypt.antt =====
-- src/lcsas/restore/restic_fallback.py: the Poly1305 tag, the authenticated encryption and the
-- limits on the parameters of scrypt.
pub mod Laws
use Prim.Native.Nat.{bit_or, bit_and, min}
use lcsas.Prelude.{
  ℕ, zero, suc, ◌+◌, ◌-◌, ◌*◌, ◌/◌, ◌%◌, ◌^◌, max, Bool, true, false, not, ◌||◌, List, [], ◌∷◌,
  length, take, drop, is_empty, ltb, ◌==◌, if◌then◌else◌, bit_xor,
}
use lcsas.Prelude.Result.{Result, ok, err, ◌>>=◌}
use lcsas.Restore.Aes.{AesError, key_schedule, aes_encrypt_block, aes_ctr}

-- `int.from_bytes(b, "little")` and `n.to_bytes(width, "little")`, for an `n` that fits.
unfoldable pub from_little : List ℕ → ℕ
from_little [] = 0
from_little (b ∷ bs) = b + 256 * from_little bs

unfoldable pub to_little : ℕ → ℕ → List ℕ
to_little zero n = []
to_little (suc width) n = n % 256 ∷ to_little width (n / 256)

pub clamp_r : List ℕ → ℕ
clamp_r r_bytes = bit_and (from_little r_bytes) 0x0FFFFFFC0FFFFFFC0FFFFFFC0FFFFFFF

pub poly1305_prime : ℕ
poly1305_prime = 2 ^ 130 - 5

-- `n` of a block: its bytes, with a bit set beyond the last one.
pub block_number : List ℕ → ℕ
block_number block = bit_or (from_little block) (2 ^ (length block * 8))

-- The loop over the blocks of 16 bytes, for at most `fuel` of them.
pub poly1305_blocks : ℕ → ℕ → ℕ → List ℕ → ℕ
poly1305_blocks zero r h message = h
poly1305_blocks (suc fuel) r h message =
    let next =
      poly1305_blocks fuel r ((h + block_number (take 16 message)) * r % poly1305_prime)
        (drop 16 message) in
    if is_empty message then h else next

pub poly1305_mac : List ℕ → List ℕ → List ℕ → List ℕ
poly1305_mac key_r key_s message =
    to_little 16
      ((poly1305_blocks (length message) (clamp_r key_r) 0 message + from_little key_s) % 2 ^ 128)

-- The exceptions of `_decrypt_authenticated`: the two IntegrityErrors and the ValueError of AES.
pub data DecryptError : Type 0 where
  too_short : ℕ → DecryptError
  wrong_mac : DecryptError
  bad_key : AesError → DecryptError

-- `result |= x ^ y` over the pairs.
pub differences : ℕ → List ℕ → List ℕ → ℕ
differences result [] b = result
differences result (x ∷ a) [] = result
differences result (x ∷ a) (y ∷ b) = differences (bit_or result (bit_xor x y)) a b

pub constant_time_eq : List ℕ → List ℕ → Bool
constant_time_eq a b = if not (length a == length b) then false else differences 0 a b == 0

pub keyed {ℓ} : {A : Type ℓ} → Result AesError A → Result DecryptError A
keyed (ok a) = ok a
keyed (err e) = err (bad_key e)

pub decrypt_authenticated : List ℕ → List ℕ → List ℕ → List ℕ → Result DecryptError (List ℕ)
decrypt_authenticated encrypt_key mac_k mac_r values =
    if ltb (length values) 33
    then err (too_short (length values))
    else let iv = take 16 values in
      let ciphertext = drop 16 (take (length values - 16) values) in
      let expected_mac = drop (length values - 16) values in
      keyed (key_schedule mac_k) >>= λ mac_rk.
      let computed_mac = poly1305_mac mac_r (aes_encrypt_block iv mac_rk) ciphertext in
      if not (constant_time_eq computed_mac expected_mac)
      then err wrong_mac
      else keyed (aes_ctr encrypt_key iv ciphertext)

-- The integers of Python, over the native numbers.
pub data ℤ : Type 0 where
  pos : ℕ → ℤ
  negsuc : ℕ → ℤ

-- A value of the key file: an `int`, or of any other type.
pub data Parameter : Type 0 where
  integer : ℤ → Parameter
  other : Parameter

pub data ScryptError : Type 0 where
  not_integer : ScryptError
  out_of_range : ScryptError

pub scrypt_max_work : ℕ
scrypt_max_work = 2 ^ 25

pub scrypt_max_mem : ℕ
scrypt_max_mem = 2 ^ 31

pub is_out_of_range : ℕ → ℕ → ℕ → Bool
is_out_of_range n r p =
    ltb n 2
    || (not (bit_and n (n - 1) == 0)
        || (ltb r 1
            || (ltb p 1
                || (ltb scrypt_max_work (n * r * p)
                    || ltb scrypt_max_mem (128 * r * (n + p + 3))))))

-- A number below 0 is out of range.
pub scrypt_limits : ℤ → ℤ → ℤ → Result ScryptError ℕ
scrypt_limits (pos n) (pos r) (pos p) =
    if is_out_of_range n r p
    then err out_of_range
    else ok (min (max (128 * r * (n + p + 3)) (2 ^ 25)) (2 ^ 31 - 1))
scrypt_limits (pos n) (pos r) (negsuc p) = err out_of_range
scrypt_limits (pos n) (negsuc r) p = err out_of_range
scrypt_limits (negsuc n) r p = err out_of_range

pub scrypt_maxmem : Parameter → Parameter → Parameter → Result ScryptError ℕ
scrypt_maxmem (integer n) (integer r) (integer p) = scrypt_limits n r p
scrypt_maxmem (integer n) (integer r) other = err not_integer
scrypt_maxmem (integer n) other p = err not_integer
scrypt_maxmem other r p = err not_integer
