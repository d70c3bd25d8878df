-- ===== src/Restore/Repo/Laws.antt =====
-- What reading a blob returns, for src/lcsas/restore/restic_fallback.py.
use lcsas.Prelude.{
  ℕ, ◌<◌, Bool, false, ◌&&◌, Option, some, none, List, ◌++◌, length, take, list_eqb, list_eqb_refl,
  list_eqb→eq, ◌≡◌, refl, sym, ap, ◌∙◌, arith,
}
use lcsas.Prelude.Result.{ok, ok-inv, ok-unless, raised}
use lcsas.Prelude.Digits.{IsDigits}
use lcsas.Restore.Aes.{key_schedule, aes_ctr}
use lcsas.Restore.Crypt.{decrypt_authenticated}
use lcsas.Restore.Crypt.Laws.{tag_of, decrypt_authenticated-sealed}
use lcsas.Restore.Keys.{MasterKey}
use lcsas.Restore.Repo.{
  Name, BlobLocation, BlobIndex, find_blob, hash_mismatch, zstd_magic, decrypted, readable,
  inflated, decompressed, read_located, read_blob,
}

and_false : (b : Bool) → (b && false) ≡ false
and_false b = ground arith

module _ (read_pack : Name → ℕ → ℕ → Option (List ℕ)) (sha256 : List ℕ → Name)
    (decompress_zstd : List ℕ → ℕ → Option (List ℕ)) (mk : MasterKey) where
  read_located-sha256 :
      (blob_id : Name) (place : Option BlobLocation) (out : List ℕ)
      → read_located read_pack sha256 decompress_zstd mk blob_id place ≡ ok out
      → sha256 out ≡ blob_id
  unfolding read_located
  read_located-sha256 blob_id none out h = absurd (raised h)
  read_located-sha256 blob_id (some location) out h =
      let (encrypted, h1, _) =
        ok-inv (readable (read_pack location.pack_id location.offset location.size)) h in
      let (raw, h2, _) =
        ok-inv (decrypted (decrypt_authenticated mk.encrypt mk.mac_k mk.mac_r encrypted)) h1 in
      let (plaintext, h3, _) =
        ok-inv
          (decompressed read_pack sha256 decompress_zstd blob_id location.uncompressed_length raw)
          h2 in
      let (same, e) = ok-unless hash_mismatch (list_eqb (sha256 plaintext) blob_id) h3 in
      ap sha256 (sym e) ∙ list_eqb→eq (sha256 plaintext) blob_id same

  -- A blob is read only with the content that its identifier is the hash of.
  pub read_blob-sha256 :
      (index : BlobIndex) (blob_id : Name) (out : List ℕ)
      → read_blob read_pack sha256 decompress_zstd mk index blob_id ≡ ok out
      → sha256 out ≡ blob_id
  unfolding read_blob
  read_blob-sha256 index blob_id out h = read_located-sha256 blob_id (find_blob index blob_id) out h

  -- The index decides what is stored: the content, or a frame that decompresses to it.
  abbrev pub Stores : Option ℕ → List ℕ → List ℕ → Type 0
  Stores none stored content = stored ≡ content
  Stores (some size) stored content = decompress_zstd stored size ≡ some content

  decompressed-Stores :
      (blob_id : Name) (size : Option ℕ) (stored content : List ℕ)
      → sha256 content ≡ blob_id
      → Stores size stored content
      → decompressed read_pack sha256 decompress_zstd blob_id size stored ≡ ok content
  unfolding decompressed inflated
  decompressed-Stores blob_id (some size) stored content hash frame = rw frame refl
  decompressed-Stores blob_id none stored content hash same =
      rw (same, hash, list_eqb_refl blob_id, and_false (list_eqb (take 4 content) zstd_magic)) refl

  read_located-Stores :
      (blob_id : Name) (location : BlobLocation) (encrypted stored content : List ℕ)
      → read_pack location.pack_id location.offset location.size ≡ some encrypted
      → decrypt_authenticated mk.encrypt mk.mac_k mk.mac_r encrypted ≡ ok stored
      → sha256 content ≡ blob_id
      → Stores location.uncompressed_length stored content
      → read_located read_pack sha256 decompress_zstd mk blob_id (some location) ≡ ok content
  unfolding read_located readable decrypted
  read_located-Stores blob_id location encrypted stored content held opened hash stores =
      rw
        (
          held,
          opened,
          decompressed-Stores blob_id location.uncompressed_length stored content hash stores,
          hash,
          list_eqb_refl blob_id,
        )
        refl

  -- A blob that is stored as the repository stores it is read back: at the place that the index has
  -- for it, the disc has the nonce of 16 bytes, the bytes that stand for the content under the
  -- counter mode, and their tag; they are the content itself where the index gives no uncompressed
  -- length, whatever it begins with, and else a frame that decompresses to it. Its identifier is its
  -- hash, the keys have lengths that AES takes, and what is stored is not empty.
  pub read_blob-stored :
      (rk mac_rk : List (List ℕ)) (index : BlobIndex) (blob_id : Name) (location : BlobLocation)
      (iv ciphertext stored content : List ℕ)
      → key_schedule mk.encrypt ≡ ok rk
      → key_schedule mk.mac_k ≡ ok mac_rk
      → length iv ≡ 16
      → IsDigits 256 iv
      → 0 < length stored
      → aes_ctr mk.encrypt iv stored ≡ ok ciphertext
      → find_blob index blob_id ≡ some location
      → read_pack location.pack_id location.offset location.size
        ≡ some (iv ++ (ciphertext ++ tag_of mk.encrypt mk.mac_k mk.mac_r mac_rk iv ciphertext))
      → sha256 content ≡ blob_id
      → Stores location.uncompressed_length stored content
      → read_blob read_pack sha256 decompress_zstd mk index blob_id ≡ ok content
  unfolding read_blob
  read_blob-stored rk mac_rk index blob_id location iv ciphertext stored content h1 h2 size bytes
        some_stored encrypted found held hash stores =
      rw found (
        read_located-Stores blob_id location _ stored content held
          (decrypt_authenticated-sealed mk.encrypt mk.mac_k mk.mac_r rk mac_rk iv stored ciphertext
            h1 h2 size bytes some_stored encrypted)
          hash stores)
