-- ===== src/Keyshare/Generate/Laws.antt =====
-- From a secret to cards and back: `split_secret` and `recover_secret` of
-- src/lcsas/keyshare/slip39.py.
use mathlib.Core.Path.{subst}
use mathlib.Core.List.{Memᴰ}
use lcsas.Prelude.{ℕ, ◌≤◌, ◌≡◌, sym, ◌∙◌, List, length, All, Distinct}
use lcsas.Prelude.Result.{ok, ok_inj}
use lcsas.Keyshare.Feistel.{Pbkdf2}
use lcsas.Keyshare.Feistel.Laws.{HasLength}
use lcsas.Keyshare.Feistel.Bytes.{ReturnsBytes}
use lcsas.Keyshare.Shamir.{Crypto}
use lcsas.Keyshare.Shamir.Split.{IsSound}
use lcsas.Keyshare.Generate
use lcsas.Keyshare.Generate.Cards.{IsRequest}
use lcsas.Keyshare.Generate.Members.{cards, split_secret-cards, cards-length, chosen_recover}

-- `split_secret` returns one card for each share that is asked for. The secret has an even number of
-- bytes, at least 16; the passphrase is printable; the threshold is at least 1 and at most the number
-- of cards, which is at most 16, and 1 only for a single card; the iteration exponent is below 16.
-- HMAC-SHA256, PBKDF2 and the random source return bytes, as many as they should.
pub split_secret-length :
    (crypto : Crypto)
    → IsSound crypto
    → (pbkdf2 : Pbkdf2) → HasLength pbkdf2
    → ReturnsBytes pbkdf2
    → (secret : List ℕ) (threshold count : ℕ) (passphrase : List ℕ) (exponent call : ℕ)
    → IsRequest secret threshold count passphrase exponent
    → (written : List (List ℕ)) × ((Generate.split_secret crypto pbkdf2 secret threshold count
            passphrase exponent call
          ≡ ok written)
        × (length written ≡ count))
split_secret-length crypto sound pbkdf2 sized returns secret threshold count passphrase exponent
      call request =
    (
      cards crypto sound pbkdf2 sized returns secret threshold count passphrase exponent call
          request,
      (
        split_secret-cards crypto sound pbkdf2 sized returns secret threshold count passphrase
            exponent call request,
        cards-length crypto sound pbkdf2 sized returns secret threshold count passphrase exponent
            call request,
      ),
    )

-- Distinct cards of those that `split_secret` returned, as many as the threshold or more, give the
-- secret back to `recover_secret` with the same passphrase. The secret has an even number of bytes,
-- at least 16; the passphrase is printable; the threshold is at least 1 and at most the number of
-- cards, which is at most 16, and 1 only for a single card; the iteration exponent is below 16.
-- HMAC-SHA256, PBKDF2 and the random source return bytes, as many as they should.
pub recover_secret-cards :
    (crypto : Crypto)
    → IsSound crypto
    → (pbkdf2 : Pbkdf2) → HasLength pbkdf2
    → ReturnsBytes pbkdf2
    → (secret : List ℕ) (threshold count : ℕ) (passphrase : List ℕ) (exponent call : ℕ)
    → IsRequest secret threshold count passphrase exponent
    → (written : List (List ℕ))
    → Generate.split_secret crypto pbkdf2 secret threshold count passphrase exponent call
      ≡ ok written
    → (chosen : List (List ℕ)) → All (λ m. Memᴰ m written) chosen
    → Distinct chosen
    → threshold ≤ length chosen
    → Generate.recover_secret crypto pbkdf2 chosen passphrase ≡ ok secret
unfolding Generate.recover_secret
recover_secret-cards crypto sound pbkdf2 sized returns secret threshold count passphrase exponent
      call request written returned chosen held distinct enough =
    chosen_recover crypto sound pbkdf2 sized returns secret threshold count passphrase exponent call
      request chosen (subst (λ l. All (λ m. Memᴰ m l) chosen) same held) distinct enough
  where
    same :
        written
        ≡ cards crypto sound pbkdf2 sized returns secret threshold count passphrase exponent call
            request
    same = ok_inj (
        sym returned
        ∙ split_secret-cards crypto sound pbkdf2 sized returns secret threshold count passphrase
            exponent call request)
