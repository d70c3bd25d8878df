-- ===== src/Keyshare/Feistel.antt =====
-- src/lcsas/keyshare/slip39.py, "Passphrase encryption": the four-round Feistel network over the
-- master secret. `hashlib.pbkdf2_hmac` is the parameter `pbkdf2`.
pub mod Laws
pub mod Bytes
mod Tests
use lcsas.Prelude.{
  ℕ, zero, suc, ◌+◌, ◌*◌, ◌/◌, ◌^◌, Bool, true, false, List, [], ◌∷◌, ◌++◌, length, take, drop, ltb,
  bit_xor, if◌then◌else◌,
}
use lcsas.Prelude.Result.{Result, ok, err, ◌>>=◌}
use lcsas.Prelude.Digits.{to_digits}
use lcsas.Keyshare.Errors.{KeyshareError, zip_strict, int_too_big}
use mathlib.Core.List.{reverse}

abbrev pub base_iteration_count : ℕ
base_iteration_count = 10000

abbrev pub round_count : ℕ
round_count = 4

-- b"shamir"
abbrev pub customization_string_orig : List ℕ
customization_string_orig = 115 ∷ 104 ∷ 97 ∷ 109 ∷ 105 ∷ 114 ∷ []

-- `zip(a, b, strict=True)` raises where one list ends before the other.
pub xor_bytes : List ℕ → List ℕ → Result KeyshareError (List ℕ)
xor_bytes [] [] = ok []
xor_bytes [] (y ∷ ys) = err zip_strict
xor_bytes (x ∷ xs) [] = err zip_strict
xor_bytes (x ∷ xs) (y ∷ ys) = do rest ← xor_bytes xs ys; ok (bit_xor x y ∷ rest)

-- `value.to_bytes(n, "big")`
abbrev pub int_to_bytes : ℕ → ℕ → Result KeyshareError (List ℕ)
int_to_bytes n value = if ltb value (256 ^ n) then ok (to_digits 256 n value) else err int_too_big

pub get_salt : ℕ → Bool → Result KeyshareError (List ℕ)
get_salt identifier true = ok []
get_salt identifier false = do
  written ← int_to_bytes 2 identifier
  ok (customization_string_orig ++ written)

-- `range(ROUND_COUNT)`
abbrev pub rounds_up : List ℕ
rounds_up = 0 ∷ 1 ∷ 2 ∷ 3 ∷ []

-- password, salt, iterations, dklen
abbrev pub Pbkdf2 : Type 0
Pbkdf2 = List ℕ → List ℕ → ℕ → ℕ → List ℕ

module _ (pbkdf2 : Pbkdf2) where
  pub round_function : ℕ → List ℕ → ℕ → List ℕ → List ℕ → List ℕ
  round_function i passphrase exponent salt r =
      pbkdf2 (i ∷ passphrase) (salt ++ r) (base_iteration_count * 2 ^ exponent / round_count)
        (length r)

  -- The `for` loop over the rounds that are left, and `right + left` at its end.
  pub feistel_rounds :
      List ℕ → ℕ → List ℕ → List ℕ → List ℕ → List ℕ → Result KeyshareError (List ℕ)
  feistel_rounds passphrase exponent salt [] left right = ok (right ++ left)
  feistel_rounds passphrase exponent salt (i ∷ rounds) left right = do
    mixed ← xor_bytes left (round_function i passphrase exponent salt right)
    feistel_rounds passphrase exponent salt rounds right mixed

  pub encrypt : List ℕ → List ℕ → ℕ → ℕ → Bool → Result KeyshareError (List ℕ)
  encrypt master_secret passphrase iteration_exponent identifier extendable = do
    let half = length master_secret / 2
    salt ← get_salt identifier extendable
    feistel_rounds passphrase iteration_exponent salt rounds_up (take half master_secret)
        (drop half master_secret)

  pub decrypt : List ℕ → List ℕ → ℕ → ℕ → Bool → Result KeyshareError (List ℕ)
  decrypt encrypted passphrase iteration_exponent identifier extendable = do
    let half = length encrypted / 2
    salt ← get_salt identifier extendable
    feistel_rounds passphrase iteration_exponent salt (reverse rounds_up) (take half encrypted)
        (drop half encrypted)
