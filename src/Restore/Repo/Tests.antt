-- ===== src/Restore/Repo/Tests.antt =====
-- A stored blob that is read back, and three key files.
use lcsas.Prelude.{
  ℕ, ◌≤◌, ◌-◌, ◌≡◌, refl, Option, some, none, List, [], ◌∷◌, ◌++◌, length, take, drop, arith, ◌==◌,
  if◌then◌else◌,
}
use lcsas.Prelude.Result.{Result, ok, err}
use lcsas.Restore.Aes.{key_schedule}
use lcsas.Restore.Crypt.{decrypt_authenticated}
use lcsas.Restore.Crypt.Laws.{tag_of, decrypt_authenticated-sealed, decrypt_authenticated-tag}
use lcsas.Restore.Keys.{MasterKey, KeyError, file_corrupt, password_rejected}
use lcsas.Restore.Repo.{Name, BlobLocation, BlobIndex, find_blob, read_blob}
use lcsas.Restore.Repo.Laws.{read_blob-sha256, read_blob-stored}
use lcsas.Restore.Aes.Tests.{
  fips_key, fips_block, fips_schedule, nonce, nonce-IsDigits, nonce_size, three, keys, ciphertext,
  encrypted,
}

-- A master key, and a blob of three bytes that is stored under it.
abbrev mk : MasterKey
mk = record { encrypt = fips_key; mac_k = fips_key; mac_r = fips_block }

abbrev held : List ℕ
held = nonce ++ (ciphertext ++ tag_of fips_key fips_key fips_block keys nonce ciphertext)

opened : decrypt_authenticated fips_key fips_key fips_block held ≡ ok three
opened =
    decrypt_authenticated-sealed fips_key fips_key fips_block keys keys nonce three ciphertext
      fips_schedule fips_schedule nonce_size nonce-IsDigits (omega arith) encrypted

decrypt_authenticated-tag_example :
    (33 ≤ length held)
    × ((mac_rk : List (List ℕ)) × (key_schedule fips_key ≡ ok mac_rk)
        × (drop (length held - 16) held
            ≡ tag_of fips_key fips_key fips_block mac_rk
                (take 16 held)
                (drop 16 (take (length held - 16) held))))
decrypt_authenticated-tag_example =
    decrypt_authenticated-tag fips_key fips_key fips_block held three opened

-- A hash for the tests: the bytes themselves.
abbrev sha256 : List ℕ → Name
sha256 content = content

abbrev decompress_zstd : List ℕ → ℕ → Option (List ℕ)
decompress_zstd frame size = none

abbrev location : BlobLocation
location = record {
  pack_id = 7 ∷ [];
  offset = 0;
  size = 35;
  blob_type = [];
  uncompressed_length = none;
}

abbrev index : BlobIndex
index = (three, location) ∷ []

abbrev read_pack : Name → ℕ → ℕ → Option (List ℕ)
read_pack pack_id offset size = if size == 35 then some held else none

found : find_blob index three ≡ some location
unfolding find_blob
found = refl

stored_read : read_blob read_pack sha256 decompress_zstd mk index three ≡ ok three
stored_read =
    read_blob-stored read_pack sha256 decompress_zstd mk keys keys index three location nonce
      ciphertext three three fips_schedule fips_schedule nonce_size nonce-IsDigits (omega arith)
      encrypted found refl refl refl

read_blob-stored_example : read_blob read_pack sha256 decompress_zstd mk index three ≡ ok three
read_blob-stored_example =
    read_blob-stored read_pack sha256 decompress_zstd mk keys keys index three location nonce
      ciphertext three three fips_schedule fips_schedule nonce_size nonce-IsDigits (omega arith)
      encrypted found refl refl refl

read_blob-sha256_example : sha256 three ≡ three
read_blob-sha256_example =
    read_blob-sha256 read_pack sha256 decompress_zstd mk index three three stored_read

-- Three key files: a damaged one, one for another password, and the right one.
abbrev load : ℕ → Result KeyError MasterKey
load kf = if kf == 0 then err file_corrupt else if kf == 1 then err password_rejected else ok mk
