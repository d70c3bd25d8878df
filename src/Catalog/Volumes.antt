-- ===== src/Catalog/Volumes.antt =====
-- src/lcsas/db/volumes.py: the status of a volume and its changes.
use Prim.Native.String
use Prim.Native.String.{String}
use mathlib.Core.Option
use lcsas.Prelude.{
  ℕ, Bool, true, false, not, ◌&&◌, Option, none, some, List, [], ◌∷◌, any, is_empty, ◌==◌,
  if◌then◌else◌,
}
use lcsas.Prelude.Result.{Result, ok, err}
use lcsas.Catalog.{
  Catalog, Connection, CatalogError, volume_not_found, invalid_transition, would_be_unreplicated,
  Volume, VolumeStatus, staging, burning, burned, verified, consolidating, deprecated, destroyed,
  status_eqb, status_text, note, commit, write,
}
use lcsas.Catalog.Events.{add_event}
use lcsas.Catalog.Replicas.{check_deprecation_safe}

unfoldable pub valid_transitions : VolumeStatus → List VolumeStatus
valid_transitions staging = burning ∷ deprecated ∷ destroyed ∷ []
valid_transitions burning = burned ∷ verified ∷ staging ∷ destroyed ∷ []
valid_transitions burned = burning ∷ verified ∷ staging ∷ destroyed ∷ []
valid_transitions verified = deprecated ∷ destroyed ∷ consolidating ∷ []
valid_transitions consolidating = deprecated ∷ verified ∷ []
valid_transitions deprecated = destroyed ∷ []
valid_transitions destroyed = []

unfoldable pub is_allowed : VolumeStatus → VolumeStatus → Bool
is_allowed current status = any (status_eqb status) (valid_transitions current)

-- UPDATE volumes ... WHERE volume_id = ?
abbrev pub update_volume : Catalog → ℕ → (Volume → Volume) → Catalog
update_volume catalog volume_id change = record catalog {
  volumes =
      λ n. if n == volume_id then Option.map change (catalog.volumes n) else catalog.volumes n;
}

abbrev pub with_status : VolumeStatus → String → Volume → Volume
with_status verified now volume = record volume { status = verified; verified_at = some now }
with_status status now volume = record volume { status = status }

abbrev pub change_text : VolumeStatus → VolumeStatus → String
change_text current status =
    String.◌++◌ "Status changed: "
      (String.◌++◌ (status_text current) (String.◌++◌ " → " (status_text status)))

-- RELEASE deprecate_check, where there is the savepoint: it commits if the savepoint has begun the
-- transaction, that is if none was open before it.
unfoldable pub release : (guarded was_open : Bool) → Connection → Connection
release true false conn = commit conn
release true true conn = conn
release false was_open conn = conn

-- The UPDATE, the NOTE event and the commit. The deprecating branch ends before the test for
-- VERIFIED; its UPDATE is inside the savepoint, which it releases before the event.
unfoldable pub write_status :
    Connection → ℕ → VolumeStatus → VolumeStatus → String → String → Bool → Bool → Connection
write_status conn volume_id current status now later guarded committing =
    add_event
      (release guarded conn.in_transaction
        (write conn (update_volume conn.current volume_id (with_status status now))))
      volume_id note none (change_text current status) later committing

-- The refusal of the guard rolls back to the savepoint and does not release it: the rows are as
-- before, and a transaction is open (`left_by` of Consolidate).
unfoldable pub update_status_from :
    Connection
    → ℕ
    → VolumeStatus
    → String
    → String
    → Bool
    → Bool
    → Option Volume
    → Result CatalogError Connection
update_status_from conn volume_id status now later committing force none = err volume_not_found
update_status_from conn volume_id status now later committing force (some volume) =
    if not force && not (is_allowed volume.status status)
    then err invalid_transition
    else if not force
        && (status_eqb status deprecated
            && not (is_empty (check_deprecation_safe conn.current volume_id)))
    then err would_be_unreplicated
    else ok (
        write_status conn volume_id volume.status status now later
          (not force && status_eqb status deprecated) committing)

-- `now` and `later` are the two readings of the clock.
unfoldable pub update_status :
    Connection → ℕ → VolumeStatus → String → String → Bool → Bool → Result CatalogError Connection
update_status conn volume_id status now later committing force =
    update_status_from conn volume_id status now later committing force
      (conn.current.volumes volume_id)
