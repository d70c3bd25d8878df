-- ===== src/Keyshare/Feistel/Bytes.antt =====
-- The encryption of src/lcsas/keyshare/slip39.py turns bytes into bytes.
use mathlib.Core.Path.{subst}
use lcsas.Prelude.{
  ℕ, ◌/◌, ◌<◌, ◌≡◌, Bool, List, [], ◌∷◌, length, All, All-append, All-take, All-drop,
}
use lcsas.Prelude.Bits.{bit_xor-lt}
use lcsas.Prelude.Result.{Result, ok, ok-inv, ok_inj, raised}
use lcsas.Keyshare.Errors.{KeyshareError}
use lcsas.Keyshare.Feistel.{
  Pbkdf2, xor_bytes, round_function, feistel_rounds, encrypt, get_salt, rounds_up,
}

abbrev IsBytes : List ℕ → Type 0
IsBytes = All (λ b. b < 256)

abbrev pub ReturnsBytes : Pbkdf2 → Type 0
ReturnsBytes pbkdf2 =
    (password salt : List ℕ) (iterations size : ℕ)
    → All (λ b. b < 256) (pbkdf2 password salt iterations size)

xor_bytes-IsBytes :
    (xs ys r : List ℕ) → IsBytes xs → IsBytes ys → xor_bytes xs ys ≡ ok r → IsBytes r
unfolding xor_bytes
xor_bytes-IsBytes [] [] r hx hy h = rw (sym_ok h) tt
  where
    sym_ok : {r : List ℕ} → ◌≡◌ {A = Result KeyshareError (List ℕ)} (ok []) (ok r) → r ≡ []
    sym_ok h = cc
xor_bytes-IsBytes [] (_ ∷ _) r hx hy h = absurd (raised h)
xor_bytes-IsBytes (_ ∷ _) [] r hx hy h = absurd (raised h)
xor_bytes-IsBytes (x ∷ xs) (y ∷ ys) r hx hy h =
    let (rest, last, returned) = ok-inv (xor_bytes xs ys) h in
    rw (back last) (bit_xor-lt 8 x y hx.0 hy.0, xor_bytes-IsBytes xs ys rest hx.1 hy.1 returned)
  where
    back : {s r : List ℕ} → ◌≡◌ {A = Result KeyshareError (List ℕ)} (ok s) (ok r) → r ≡ s
    back h = cc

module _ (pbkdf2 : Pbkdf2) (bytes : ReturnsBytes pbkdf2) (passphrase : List ℕ) (exponent : ℕ) where
  feistel_rounds-IsBytes :
      (salt rounds left right r : List ℕ)
      → IsBytes left
      → IsBytes right
      → feistel_rounds pbkdf2 passphrase exponent salt rounds left right ≡ ok r
      → IsBytes r
  unfolding feistel_rounds round_function
  feistel_rounds-IsBytes salt [] left right r hl hr h =
      subst IsBytes (ok_inj h) (All-append (λ b. b < 256) right left hr hl)
  feistel_rounds-IsBytes salt (i ∷ rounds) left right r hl hr h =
      let (mixed, rest, returned) =
        ok-inv (xor_bytes left (round_function pbkdf2 i passphrase exponent salt right)) h in
      feistel_rounds-IsBytes salt rounds right mixed r hr
        (xor_bytes-IsBytes left _ mixed hl (bytes _ _ _ _) returned) rest

  pub encrypt-IsBytes :
      (ms : List ℕ) (identifier : ℕ) (extendable : Bool) (c : List ℕ)
      → IsBytes ms
      → encrypt pbkdf2 ms passphrase exponent identifier extendable ≡ ok c
      → IsBytes c
  unfolding encrypt
  encrypt-IsBytes ms identifier extendable c h returned =
      let (salt, rest, _) = ok-inv (get_salt identifier extendable) returned in
      feistel_rounds-IsBytes salt rounds_up _ _ c (All-take (λ b. b < 256) (length ms / 2) ms h)
        (All-drop (λ b. b < 256) (length ms / 2) ms h) rest
