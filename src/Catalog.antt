-- ===== src/Catalog.antt =====
-- src/lcsas/db: the catalog, that is the rows of its tables (schema.py, models.py) and the
-- connection with its open transaction (connection.py uses sqlite's own).
--
-- A table that is only read by its integer key is a function from the key; the others are lists in
-- the order of insertion. The row ids of discs and events, which no modelled code reads, are left
-- out. A clock reading is an argument of the operation that takes it.
pub mod Events
pub mod Replicas
pub mod Volumes
pub mod Copies
pub mod Accepted
pub mod Guard
pub mod Service
pub mod Refusals
pub mod Discs
pub mod Steps
pub mod Samples
mod Tests
use Prim.Native.String.{String}
use lcsas.Prelude.{ℕ, Bool, Option, List, ◌==◌}

pub data VolumeStatus : Type 0 where
  staging burning burned verified consolidating deprecated destroyed : VolumeStatus

-- The statuses are distinct texts in the source.
abbrev pub status_number : VolumeStatus → ℕ
status_number staging = 0
status_number burning = 1
status_number burned = 2
status_number verified = 3
status_number consolidating = 4
status_number deprecated = 5
status_number destroyed = 6

abbrev pub status_text : VolumeStatus → String
status_text staging = "STAGING"
status_text burning = "BURNING"
status_text burned = "BURNED"
status_text verified = "VERIFIED"
status_text consolidating = "CONSOLIDATING"
status_text deprecated = "DEPRECATED"
status_text destroyed = "DESTROYED"

abbrev pub status_eqb : VolumeStatus → VolumeStatus → Bool
status_eqb a b = status_number a == status_number b

pub record Volume : Type 0 where
  pub label : String
  pub uuid : String
  pub media_type : String
  pub capacity_bytes : ℕ
  pub used_bytes : ℕ
  pub location : String
  pub status : VolumeStatus
  pub created_at : String
  pub closed_at : Option String
  pub verified_at : Option String

pub record Pack : Type 0 where
  pub sha256 : String
  pub size_bytes : ℕ
  pub repo_id : String
  pub is_pruned : Bool
  pub created_at : String

pub record VolumePack : Type 0 where
  pub volume_id : ℕ
  pub pack_id : ℕ

pub data CopyStatus : Type 0 where
  copy_active copy_deprecated copy_destroyed : CopyStatus

abbrev pub is_active : CopyStatus → Bool
is_active copy_active = Bool.true
is_active copy_deprecated = Bool.false
is_active copy_destroyed = Bool.false

pub record VolumeCopy : Type 0 where
  pub volume_id : ℕ
  pub location : String
  pub status : CopyStatus
  pub burn_date : String
  pub notes : String
  pub iso_sha256 : Option String
  pub last_verified_at : Option String
  pub media_serial : String
  pub iso_size_bytes : Option ℕ

pub data EventType : Type 0 where
  verify_pass verify_fail verify_fail_reburn ecc_repair location_move condition_check note
        burn_receipt_imported :
      EventType

pub record VolumeEvent : Type 0 where
  pub volume_id : ℕ
  pub event_type : EventType
  pub event_date : String
  pub location : Option String
  pub detail : String

pub record Catalog : Type 0 where
  pub volumes : ℕ → Option Volume
  pub packs : ℕ → Option Pack
  pub volume_packs : List VolumePack
  pub volume_copies : List VolumeCopy
  pub volume_events : List VolumeEvent

-- What is on disk, what the connection sees, and whether a transaction is open.
pub record Connection : Type 0 where
  pub committed : Catalog
  pub current : Catalog
  pub in_transaction : Bool

abbrev pub commit : Connection → Connection
commit conn = record conn { committed = conn.current; in_transaction = Bool.false }

-- A statement that changes rows. The module sqlite3 opens a transaction before it where none is.
abbrev pub write : Connection → Catalog → Connection
write conn catalog = record conn { current = catalog; in_transaction = Bool.true }

pub data CatalogError : Type 0 where
  volume_not_found invalid_transition would_be_unreplicated no_disc_in_service no_disc_recorded
        disc_not_recorded :
      CatalogError
