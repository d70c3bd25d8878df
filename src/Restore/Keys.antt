-- ===== src/Restore/Keys.antt =====
-- src/lcsas/restore/restic_fallback.py: unlocking the repository with one of its key files.
pub mod Laws
use lcsas.Prelude.{
  ℕ, Bool, true, false, Option, some, none, List, [], ◌∷◌, ◌++◌, take, drop, is_empty,
  if◌then◌else◌,
}
use lcsas.Prelude.Result.{Result, ok, err}
use lcsas.Restore.Aes.{AesError}
use lcsas.Restore.Crypt.{
  Parameter, integer, pos, DecryptError, too_short, wrong_mac, bad_key, scrypt_maxmem,
  decrypt_authenticated,
}

pub record MasterKey : Type 0 where
  pub encrypt : List ℕ
  pub mac_k : List ℕ
  pub mac_r : List ℕ

-- What the document of a key file holds: nothing where a field is missing or does not decode.
pub record KeyDoc : Type 0 where
  pub salt : Option (List ℕ)
  pub n : Option Parameter
  pub r : Option Parameter
  pub p : Option Parameter
  pub sealed_key : Option (List ℕ)

-- The exceptions of `_load_master_key`: a KeyFileCorruptError, an IntegrityError of the decryption,
-- and an error that the loop over the files does not catch.
pub data KeyError : Type 0 where
  file_corrupt : KeyError
  password_rejected : KeyError
  uncaught : AesError → KeyError

-- The exceptions of `_try_keys`, with its two lists of key files.
pub data KeysError (P : Type 0) : Type 0 where
  no_key_files : KeysError P
  no_key_unlocked : List P → List P → KeysError P
  not_caught : AesError → KeysError P

-- `key_doc.get(name, default)`
pub get_parameter : Option Parameter → ℕ → Parameter
get_parameter none default = integer (pos default)
get_parameter (some value) default = value

-- The files of the directory, and the libraries: `json` with `base64`, and scrypt.
module _ {P : Type 0} (read_document : P → Option KeyDoc)
    (scrypt : List ℕ → List ℕ → Parameter → Parameter → Parameter → ℕ → List ℕ)
    (parse_master : List ℕ → Option MasterKey) where
  pub parsed_master : Option MasterKey → Result KeyError MasterKey
  parsed_master none = err file_corrupt
  parsed_master (some master) = ok master

  pub unsealed : Result DecryptError (List ℕ) → Result KeyError MasterKey
  unsealed (ok master_json) = parsed_master (parse_master master_json)
  unsealed (err (too_short size)) = err password_rejected
  unsealed (err wrong_mac) = err password_rejected
  unsealed (err (bad_key e)) = err (uncaught e)

  -- From the derivation of the key that encrypts the master key on.
  pub unlock :
      List ℕ → List ℕ → List ℕ → Parameter → Parameter → Parameter → ℕ → Result KeyError MasterKey
  unlock password salt encrypted_master n r p maxmem =
      let derived = scrypt password salt n r p maxmem in
      unsealed (
        decrypt_authenticated (take 32 derived) (take 16 (drop 32 derived))
          (take 16 (drop 48 derived)) encrypted_master)

  pub load_document : List ℕ → Option KeyDoc → Result KeyError MasterKey
  load_document password none = err file_corrupt
  load_document password (some doc) =
      let n = get_parameter doc.n 32768 in
      let r = get_parameter doc.r 8 in
      let p = get_parameter doc.p 1 in
      elim doc.salt [
        | none ↦ err file_corrupt
        | some salt ↦ elim (scrypt_maxmem n r p) [
          | err e ↦ err file_corrupt
          | ok maxmem ↦ elim doc.sealed_key [
            | none ↦ err file_corrupt
            | some encrypted_master ↦ unlock password salt encrypted_master n r p maxmem
          ]
        ]
      ]

  pub load_master_key : P → List ℕ → Result KeyError MasterKey
  load_master_key key_file password = load_document password (read_document key_file)

-- The loop, over any way of loading a key file.
module _ {P : Type 0} (is_file : P → Bool) (load : P → Result KeyError MasterKey) where
  pub try_each : List P → List P → List P → Result (KeysError P) MasterKey
  try_each [] rejected corrupt = err (no_key_unlocked rejected corrupt)
  try_each (kf ∷ files) rejected corrupt = elim (is_file kf) [
    | false ↦ try_each files rejected corrupt
    | true ↦ elim (load kf) [
      | ok master ↦ ok master
      | err file_corrupt ↦ try_each files rejected (corrupt ++ (kf ∷ []))
      | err password_rejected ↦ try_each files (rejected ++ (kf ∷ [])) corrupt
      | err (uncaught e) ↦ err (not_caught e)
    ]
  ]

  pub try_keys : List P → Result (KeysError P) MasterKey
  try_keys key_files = if is_empty key_files then err no_key_files else try_each key_files [] []
