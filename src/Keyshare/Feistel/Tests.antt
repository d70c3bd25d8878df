-- ===== src/Keyshare/Feistel/Tests.antt =====
-- The Feistel network run with a small stand-in for `hashlib.pbkdf2_hmac`.
use lcsas.Prelude.{
  ℕ, ◌+◌, ◌*◌, ◌%◌, ◌≡◌, refl, List, [], ◌∷◌, false, arith, length, replicate, length-replicate,
  get_or,
}
use lcsas.Prelude.Result.{ok}
use lcsas.Keyshare.Feistel.{Pbkdf2, encrypt, decrypt}
use lcsas.Keyshare.Feistel.Laws.{HasLength, decrypt-encrypt}

-- A keyed mask of the wanted length.
abbrev stretch : Pbkdf2
stretch password salt iterations dklen =
    replicate dklen ((get_or password 0 0 + get_or salt 0 0 * 7 + iterations) % 256)

stretch-HasLength : HasLength stretch
stretch-HasLength password salt iterations dklen = length-replicate dklen _

abbrev secret : List ℕ
secret = 1 ∷ 2 ∷ 3 ∷ 4 ∷ 5 ∷ 6 ∷ 7 ∷ 8 ∷ 9 ∷ 10 ∷ 11 ∷ 12 ∷ 13 ∷ 14 ∷ 15 ∷ 16 ∷ []

decrypt-encrypt_example :
    (c : List ℕ) × (encrypt stretch secret (b'p' ∷ []) 1 4660 false ≡ ok c)
    × (length c ≡ length secret)
    × (decrypt stretch c (b'p' ∷ []) 1 4660 false ≡ ok secret)
decrypt-encrypt_example =
    decrypt-encrypt stretch stretch-HasLength secret (b'p' ∷ []) 1 4660 false refl (omega arith)
