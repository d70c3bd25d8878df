-- ===== src/Keyshare/Codec/Tests.antt =====
-- Runs of the password framing at small inputs.
use lcsas.Prelude.{ℕ, ◌+◌, ◌%◌, ◌≤◌, ◌≡◌, refl, ◌⊎◌, ◌↔◌, List, [], ◌∷◌, arith, length, replicate}
use lcsas.Prelude.Result.{ok, err}
use lcsas.Prelude.Digits.{to_digits, of_digits}
use lcsas.Keyshare.Errors.{master_secret_truncated}
use lcsas.Keyshare.Codec.{encode_master_secret, decode_master_secret}
use lcsas.Keyshare.Codec.Laws.{Frames, decode-encode, decode_iff}

abbrev password : List ℕ
password = b'h' ∷ b'u' ∷ b'n' ∷ b't' ∷ b'e' ∷ b'r' ∷ b'2' ∷ []

abbrev framed : List ℕ
framed = 0 ∷ 7 ∷ b'h' ∷ b'u' ∷ b'n' ∷ b't' ∷ b'e' ∷ b'r' ∷ b'2' ∷ replicate 7 0

encode-password : encode_master_secret password ≡ ok framed
unfolding encode_master_secret to_digits
encode-password = refl

decode_truncated : decode_master_secret (0 ∷ 9 ∷ 1 ∷ []) ≡ err master_secret_truncated
unfolding decode_master_secret of_digits
decode_truncated = refl

decode-encode_example :
    (ms : List ℕ) × (encode_master_secret password ≡ ok ms)
    × (decode_master_secret ms ≡ ok password)
    × (length ms % 2 ≡ 0)
    × (16 ≤ length ms)
    × ((length ms ≡ 16) ⊎ (length ms ≤ length password + 3))
decode-encode_example = decode-encode password (omega arith)

decode_iff_example : (decode_master_secret framed ≡ ok password) ↔ Frames password framed
decode_iff_example = decode_iff framed password (omega arith)
