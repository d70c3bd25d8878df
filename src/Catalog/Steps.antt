-- ===== src/Catalog/Steps.antt =====
-- The operations of src/lcsas/db/volumes.py and volume_copies.py in any sequence.
pub mod Status
pub mod Lost
pub mod Added
pub mod Laws
use Prim.Native.String.{String}
use mathlib.Core.Path.{subst}
use mathlib.Core.Option
use lcsas.Prelude.{
  ℕ, ◌≡◌, refl, sym, ap, ap₂, ◌∙◌, ◌⊎◌, inl, inr, Bool, true, false, not, ◌&&◌, ◌||◌, Option, none,
  some, List, [], ◌∷◌, ◌++◌, map, any, is_empty, arith, ◌==◌, ==_iff, if◌then◌else◌, Bool-cases,
  if_elim,
}
use lcsas.Prelude.Result.{Result, ok, err, ok-when, ok-unless}
use lcsas.Prelude.Text.{str_eqb}
use lcsas.Catalog.{
  Catalog, CatalogError, Connection, Volume, VolumeStatus, staging, burning, burned, verified,
  consolidating, deprecated, destroyed, VolumeCopy, CopyStatus, is_active, note, status_eqb, commit,
  copy_active, copy_deprecated, copy_destroyed,
}
use lcsas.Catalog.Events.{add_event}
use lcsas.Catalog.Replicas.{has_disc, has_active_disc, is_live_replica, is_durable}
use lcsas.Catalog.Volumes.{
  is_allowed, valid_transitions, write_status, update_volume, with_status, update_status,
}
use lcsas.Catalog.Copies.{
  is_at, is_active_at, update_copies, with_copies, upsert_copy, reburn, add_volume_copy,
  touch_last_verified, is_retired, can_demote, lost_text, demote_volume_if_last_copy_lost,
  record_disc_fate, retire_disc, deprecate_copy, destroy_copy,
}
use lcsas.Catalog.Accepted.{update_status-inv}
use lcsas.Catalog.Guard.{with_status-status}
use lcsas.Catalog.Discs.{
  any-map, any-append, update-has_disc, update-has_active_disc, is_at-volume_id, is_active_at-is_at,
  active_at-has_active_disc,
}

-- One operation that is not refused. Status changes are those that are not forced.
pub data Step : Connection → Connection → Type 0 where
  status_updated :
      {conn after : Connection} (n : ℕ) (status : VolumeStatus) (now later : String)
      (committing : Bool)
      → update_status conn n status now later committing false ≡ ok after
      → Step conn after
  disc_added :
      {conn after : Connection} (disc : VolumeCopy) (committing : Bool)
      → add_volume_copy conn disc committing ≡ ok after
      → Step conn after
  disc_verified :
      {conn : Connection} (n : ℕ) (location now : String) (committing : Bool)
      → Step conn (touch_last_verified conn n location now committing).0
  disc_deprecated :
      {conn after : Connection} (n : ℕ) (location now later : String) (demoted : Bool)
      → deprecate_copy conn n location now later ≡ ok (after, demoted)
      → Step conn after
  disc_destroyed :
      {conn after : Connection} (n : ℕ) (location : String) (lost : Bool) (now later : String)
      (demoted : Bool)
      → destroy_copy conn n location lost now later ≡ ok (after, demoted)
      → Step conn after

pub data Steps : Connection → Connection → Type 0 where
  start : {conn : Connection} → Steps conn conn
  next : {conn middle after : Connection} → Steps conn middle → Step middle after → Steps conn after

-- A volume in service that has discs has a disc in service.
abbrev pub IsTruthfulAt : Catalog → ℕ → Type 0
IsTruthfulAt catalog n =
    can_demote (catalog.volumes n) ≡ true
    → has_disc catalog.volume_copies n ≡ true
    → has_active_disc catalog.volume_copies n ≡ true

abbrev pub IsTruthful : Catalog → Type 0
IsTruthful catalog = (n : ℕ) → IsTruthfulAt catalog n

-- What one operation leaves as it was at a volume: the discs, and a retired volume's retirement.
abbrev pub Keeps : Catalog → Catalog → ℕ → Type 0
Keeps catalog later n =
    (can_demote (later.volumes n) ≡ true → can_demote (catalog.volumes n) ≡ true)
    × (has_disc later.volume_copies n ≡ has_disc catalog.volume_copies n)
    × (has_active_disc later.volume_copies n ≡ has_active_disc catalog.volume_copies n)

pub Keeps-IsTruthfulAt :
    (catalog later : Catalog) (n : ℕ)
    → Keeps catalog later n
    → IsTruthfulAt catalog n
    → IsTruthfulAt later n
Keeps-IsTruthfulAt catalog later n (status, discs, active) h can has =
    active ∙ h (status can) (sym discs ∙ has)
