-- ===== src/Consolidate.antt =====
-- src/lcsas/consolidate/merger.py: the source volumes of a consolidation change status together.
pub mod Rounds
pub mod Laws
pub mod Plan
mod Tests
use Prim.Native.String.{String}
use lcsas.Prelude.{ℕ, ◌+◌, Bool, true, false, Option, none, some, List, [], ◌∷◌}
use lcsas.Prelude.Result.{Result, ok, err}
use lcsas.Catalog.{
  Connection, CatalogError, volume_not_found, invalid_transition, would_be_unreplicated,
  no_disc_in_service, no_disc_recorded, disc_not_recorded, VolumeStatus, deprecated, consolidating,
  verified, commit,
}
use lcsas.Catalog.Volumes.{update_status}

-- What a status change that raises leaves: the rows as they were. The guard's refusal leaves its
-- savepoint, and with it a transaction, open.
unfoldable pub left_by : CatalogError → Connection → Connection
left_by volume_not_found conn = conn
left_by invalid_transition conn = conn
left_by would_be_unreplicated conn = record conn { in_transaction = true }
left_by no_disc_in_service conn = conn
left_by no_disc_recorded conn = conn
left_by disc_not_recorded conn = conn

-- The rest of the loop where nothing is raised.
abbrev pub unless_raised :
    Connection
    → Result CatalogError Connection
    → (Connection → Connection × Option CatalogError)
    → Connection × Option CatalogError
unless_raised conn (ok updated) rest = rest updated
unless_raised conn (err e) rest = (left_by e conn, some e)

-- The loop over the sources, from reading `k` of the clock on. An exception ends it, with the
-- transaction left open as it is.
unfoldable pub update_each :
    VolumeStatus → (ℕ → String) → ℕ → List ℕ → Connection → Connection × Option CatalogError
update_each status clock k [] conn = (conn, none)
update_each status clock k (volume_id ∷ ids) conn =
    unless_raised conn (update_status conn volume_id status (clock k) (clock (k + 1)) false false)
      (update_each status clock (k + 2) ids)

-- `self._conn.commit()`, where the loop is not left by an exception.
abbrev pub commit_unless : Connection × Option CatalogError → Connection × Option CatalogError
commit_unless (conn, none) = (commit conn, none)
commit_unless (conn, some e) = (conn, some e)

unfoldable pub deprecate_sources :
    (ℕ → String) → List ℕ → Connection → Connection × Option CatalogError
deprecate_sources clock source_volume_ids conn =
    commit_unless (update_each deprecated clock 0 source_volume_ids conn)

unfoldable pub mark_sources_consolidating :
    (ℕ → String) → List ℕ → Connection → Connection × Option CatalogError
mark_sources_consolidating clock source_volume_ids conn =
    commit_unless (update_each consolidating clock 0 source_volume_ids conn)

unfoldable pub abort_consolidation :
    (ℕ → String) → List ℕ → Connection → Connection × Option CatalogError
abort_consolidation clock source_volume_ids conn =
    commit_unless (update_each verified clock 0 source_volume_ids conn)
