-- ===== src/Catalog/Copies.antt =====
-- src/lcsas/db/volume_copies.py: the discs of a volume, and what their loss does to it.
use Prim.Native.String
use Prim.Native.String.{String}
use lcsas.Prelude.{
  ℕ, Bool, true, false, not, ◌&&◌, ◌||◌, Option, none, some, List, [], ◌∷◌, ◌++◌, map, any, ◌==◌,
  if◌then◌else◌,
}
use lcsas.Prelude.Result.{Result, ok, err}
use lcsas.Prelude.Text.{str_eqb}
use lcsas.Catalog.{
  Connection, CatalogError, no_disc_in_service, no_disc_recorded, disc_not_recorded, Volume,
  VolumeStatus, deprecated, destroyed, status_eqb, note, VolumeCopy, copy_active, copy_deprecated,
  copy_destroyed, is_active, commit, write,
}
use lcsas.Catalog.Events.{add_event}
use lcsas.Catalog.Replicas.{has_disc, has_active_disc}
use lcsas.Catalog.Volumes.{update_volume}

-- WHERE volume_id = ? AND location = ?
abbrev pub is_at : ℕ → String → VolumeCopy → Bool
is_at volume_id location copy = copy.volume_id == volume_id && str_eqb copy.location location

-- ... AND status = 'ACTIVE'
abbrev pub is_active_at : ℕ → String → VolumeCopy → Bool
is_active_at volume_id location copy = is_at volume_id location copy && is_active copy.status

-- UPDATE volume_copies ... WHERE ...
abbrev pub update_copies :
    (VolumeCopy → Bool) → (VolumeCopy → VolumeCopy) → List VolumeCopy → List VolumeCopy
update_copies test change = map (λ copy. if test copy then change copy else copy)

abbrev pub with_copies : Connection → List VolumeCopy → Connection
with_copies conn copies = write conn (record conn.current { volume_copies = copies })

abbrev pub coalesce {ℓ} : {A : Type ℓ} → Option A → Option A → Option A
coalesce none old = old
coalesce (some new) old = some new

-- ON CONFLICT(volume_id, location) DO UPDATE
abbrev pub reburn : VolumeCopy → VolumeCopy → VolumeCopy
reburn excluded copy = record copy {
  burn_date = excluded.burn_date;
  notes = excluded.notes;
  status = copy_active;
  iso_sha256 = coalesce excluded.iso_sha256 copy.iso_sha256;
  iso_size_bytes = coalesce excluded.iso_size_bytes copy.iso_size_bytes;
  last_verified_at = excluded.last_verified_at;
  media_serial =
      if str_eqb excluded.media_serial "" then copy.media_serial else excluded.media_serial;
}

abbrev pub upsert_copy : VolumeCopy → List VolumeCopy → List VolumeCopy
upsert_copy disc copies =
    if any (is_at disc.volume_id disc.location) copies
    then update_copies (is_at disc.volume_id disc.location) (reburn disc) copies
    else copies ++ disc ∷ []

-- The disc as it is inserted has the table's default status, ACTIVE.
unfoldable pub add_volume_copy : Connection → VolumeCopy → Bool → Result CatalogError Connection
add_volume_copy conn disc committing =
    let copies = upsert_copy (record disc { status = copy_active }) conn.current.volume_copies in
    let written = with_copies conn copies in
    if any (is_active_at disc.volume_id disc.location) copies
    then ok (if committing then commit written else written)
    else err disc_not_recorded

unfoldable pub touch_last_verified : Connection → ℕ → String → String → Bool → Connection × Bool
touch_last_verified conn volume_id location now committing =
    let copies = conn.current.volume_copies in
    let written = with_copies conn (
      update_copies (is_active_at volume_id location)
        (λ copy. record copy { last_verified_at = some now }) copies) in
    (if committing then commit written else written, any (is_active_at volume_id location) copies)

abbrev pub is_retired : VolumeStatus → Bool
is_retired status = status_eqb status deprecated || status_eqb status destroyed

-- Whether the second UPDATE of the demotion meets a row.
abbrev pub can_demote : Option Volume → Bool
can_demote none = false
can_demote (some volume) = not (is_retired volume.status)

abbrev pub lost_text : String → String → String
lost_text action location =
    String.◌++◌ "auto-deprecated: last in-service disc "
      (String.◌++◌ action (String.◌++◌ " at " location))

unfoldable pub demote_volume_if_last_copy_lost :
    Connection → ℕ → String → String → String → Connection × Bool
demote_volume_if_last_copy_lost conn volume_id location action now =
    if not (has_disc conn.current.volume_copies volume_id)
      || has_active_disc conn.current.volume_copies volume_id
    then (conn, false)
    else if not (can_demote (conn.current.volumes volume_id))
    then (write conn conn.current, false)
    else (
      add_event
          (write conn (
            update_volume conn.current volume_id (λ volume. record volume { status = deprecated })))
          volume_id note (some location) (lost_text action location) now false,
      true,
    )

unfoldable pub record_disc_fate : Connection → ℕ → String → String → String → Connection
record_disc_fate conn volume_id location fate now =
    add_event conn volume_id note (some location)
      (String.◌++◌ "disc at " (String.◌++◌ location (String.◌++◌ " recorded as " fate))) now false

-- What both ways out of service do after their UPDATE.
unfoldable pub retire_disc :
    Connection → ℕ → String → String → String → String → String → Connection × Bool
retire_disc conn volume_id location fate action now later =
    let (written, demoted) =
      demote_volume_if_last_copy_lost (record_disc_fate conn volume_id location fate now) volume_id
        location action later in
    (commit written, demoted)

unfoldable pub deprecate_copy :
    Connection → ℕ → String → String → String → Result CatalogError (Connection × Bool)
deprecate_copy conn volume_id location now later =
    let copies = conn.current.volume_copies in
    if not (any (is_active_at volume_id location) copies)
    then err no_disc_in_service
    else ok (
        retire_disc
          (with_copies conn (
            update_copies (is_active_at volume_id location)
              (λ copy. record copy { status = copy_deprecated }) copies))
          volume_id location "deprecated (out of service)" "deprecated" now later)

unfoldable pub destroy_copy :
    Connection → ℕ → String → Bool → String → String → Result CatalogError (Connection × Bool)
destroy_copy conn volume_id location lost now later =
    let copies = conn.current.volume_copies in
    if not (any (is_at volume_id location) copies)
    then err no_disc_recorded
    else ok (
        retire_disc
          (with_copies conn (
            update_copies (is_at volume_id location)
              (λ copy. record copy { status = copy_destroyed }) copies))
          volume_id location (if lost then "lost (whereabouts unknown)" else "destroyed")
          (if lost then "lost" else "destroyed") now later)
