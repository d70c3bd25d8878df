-- ===== src/Restore/Repo.antt =====
-- src/lcsas/restore/restic_fallback.py: the index, the snapshots and the blobs of a repository.
pub mod Laws
mod Tests
use lcsas.Prelude.{
  ℕ, suc, ◌+◌, ◌-◌, ◌*◌, Bool, true, false, not, ◌&&◌, ◌||◌, Option, some, none, List, [], ◌∷◌,
  ◌++◌, length, take, drop, any, select, list_eqb, ltb, ◌==◌, if◌then◌else◌,
}
use lcsas.Prelude.Result.{Result, ok, err, ◌>>=◌}
use lcsas.Restore.Aes.{AesError}
use lcsas.Restore.Crypt.{DecryptError, too_short, wrong_mac, bad_key, decrypt_authenticated}
use lcsas.Restore.Keys.{MasterKey}

-- A string, by its code points.
abbrev pub Name : Type 0
Name = List ℕ

pub record BlobLocation : Type 0 where
  pub pack_id : Name
  pub offset : ℕ
  pub size : ℕ
  pub blob_type : Name
  pub uncompressed_length : Option ℕ

-- The documents of the index files, as `json` reads them.
pub record BlobEntry : Type 0 where
  pub id : Name
  pub at : ℕ
  pub stored : ℕ
  pub kind : Name
  pub plain_length : Option ℕ

pub record PackEntry : Type 0 where
  pub pack : Name
  pub blobs : List BlobEntry

pub record IndexDoc : Type 0 where
  pub name : Name
  pub supersedes : List Name
  pub packs : List PackEntry

-- The dict of the blobs: what is set last stands first.
abbrev pub BlobIndex : Type 0
BlobIndex = List (Name × BlobLocation)

pub find_blob : BlobIndex → Name → Option BlobLocation
find_blob [] blob_id = none
find_blob ((id, location) ∷ index) blob_id =
    if list_eqb id blob_id then some location else find_blob index blob_id

pub add_blobs : Name → List BlobEntry → BlobIndex → BlobIndex
add_blobs pack_id [] index = index
add_blobs pack_id (blob ∷ blobs) index = add_blobs pack_id blobs (
    (
      blob.id,
      record {
        pack_id = pack_id;
        offset = blob.at;
        size = blob.stored;
        blob_type = blob.kind;
        uncompressed_length = blob.plain_length;
      },
    )
    ∷ index)

pub add_packs : List PackEntry → BlobIndex → BlobIndex
add_packs [] index = index
add_packs (entry ∷ packs) index = add_packs packs (add_blobs entry.pack entry.blobs index)

pub all_superseded : List IndexDoc → List Name
all_superseded [] = []
all_superseded (doc ∷ docs) = doc.supersedes ++ all_superseded docs

pub add_docs : List Name → List IndexDoc → BlobIndex → BlobIndex
add_docs supersedes [] index = index
add_docs supersedes (doc ∷ docs) index =
    add_docs supersedes docs
      (if any (list_eqb doc.name) supersedes then index else add_packs doc.packs index)

-- `_load_index`, from the documents in the order of the files' names.
pub load_index : List IndexDoc → BlobIndex
load_index docs = add_docs (all_superseded docs) docs []

pub record SnapshotMeta : Type 0 where
  pub snapshot_id : Name
  pub tree : Name

pub data SnapshotError : Type 0 where
  no_snapshots : SnapshotError
  ambiguous : ℕ → SnapshotError
  unknown_snapshot : SnapshotError

-- `self._snapshots[-1]`
pub last_snapshot : SnapshotMeta → List SnapshotMeta → SnapshotMeta
last_snapshot snap [] = snap
last_snapshot snap (next ∷ snapshots) = last_snapshot next snapshots

pub latest_snapshot : List SnapshotMeta → Result SnapshotError SnapshotMeta
latest_snapshot [] = err no_snapshots
latest_snapshot (snap ∷ snapshots) = ok (last_snapshot snap snapshots)

pub begins_with : Name → Name → Bool
begins_with name prefix = list_eqb (take (length prefix) name) prefix

pub with_id : Name → SnapshotMeta → Bool
with_id snapshot_id snap = list_eqb snap.snapshot_id snapshot_id

pub only_match : List SnapshotMeta → Result SnapshotError SnapshotMeta
only_match [] = err unknown_snapshot
only_match (snap ∷ []) = ok snap
only_match (snap ∷ other ∷ matches) = err (ambiguous (2 + length matches))

pub find_snapshot : List SnapshotMeta → Name → Result SnapshotError SnapshotMeta
find_snapshot snapshots snapshot_id = elim (select (with_id snapshot_id) snapshots) [
  | [] ↦ only_match (select (λ s. begins_with s.snapshot_id snapshot_id) snapshots)
  | snap ∷ same ↦ ok snap
]

-- The exceptions of `_read_blob`: KeyError, OSError, the IntegrityErrors, and the ValueError of AES.
pub data BlobError : Type 0 where
  not_in_index : BlobError
  pack_unreadable : BlobError
  not_authentic : BlobError
  bad_frame : BlobError
  hash_mismatch : BlobError
  uncaught : AesError → BlobError

pub zstd_magic : List ℕ
zstd_magic = 0x28 ∷ 0xB5 ∷ 0x2F ∷ 0xFD ∷ []

pub decrypted : Result DecryptError (List ℕ) → Result BlobError (List ℕ)
decrypted (ok plaintext) = ok plaintext
decrypted (err (too_short size)) = err not_authentic
decrypted (err wrong_mac) = err not_authentic
decrypted (err (bad_key e)) = err (uncaught e)

pub readable : Option (List ℕ) → Result BlobError (List ℕ)
readable none = err pack_unreadable
readable (some encrypted) = ok encrypted

pub inflated : Option (List ℕ) → Result BlobError (List ℕ)
inflated none = err bad_frame
inflated (some plaintext) = ok plaintext

-- The disc, `hashlib.sha256(...).hexdigest()` and the zstd decoder, which raises its own error.
module _ (read_pack : Name → ℕ → ℕ → Option (List ℕ)) (sha256 : List ℕ → Name)
    (decompress_zstd : List ℕ → ℕ → Option (List ℕ)) where
  pub decompressed : Name → Option ℕ → List ℕ → Result BlobError (List ℕ)
  decompressed blob_id (some size) plaintext = inflated (decompress_zstd plaintext size)
  decompressed blob_id none plaintext =
      if list_eqb (take 4 plaintext) zstd_magic && not (list_eqb (sha256 plaintext) blob_id)
      then inflated (decompress_zstd plaintext (length plaintext * 20))
      else ok plaintext

  pub read_located : MasterKey → Name → Option BlobLocation → Result BlobError (List ℕ)
  read_located mk blob_id none = err not_in_index
  read_located mk blob_id (some location) =
      readable (read_pack location.pack_id location.offset location.size) >>= λ encrypted.
      decrypted (decrypt_authenticated mk.encrypt mk.mac_k mk.mac_r encrypted) >>= λ raw.
      decompressed blob_id location.uncompressed_length raw >>= λ plaintext.
      if not (list_eqb (sha256 plaintext) blob_id) then err hash_mismatch else ok plaintext

  pub read_blob : MasterKey → BlobIndex → Name → Result BlobError (List ℕ)
  read_blob mk index blob_id = read_located mk blob_id (find_blob index blob_id)
