-- ===== src/Catalog/Events.antt =====
-- src/lcsas/db/volume_events.py: the record of what happened to a volume.
use Prim.Native.String.{String}
use lcsas.Prelude.{ℕ, Bool, Option, [], ◌∷◌, ◌++◌, if◌then◌else◌}
use lcsas.Catalog.{Connection, EventType, VolumeEvent, commit, write}

-- The guard on the event type is the type `EventType`; the event read back is the one written.
unfoldable pub add_event :
    Connection → ℕ → EventType → Option String → String → String → Bool → Connection
add_event conn volume_id event_type location detail event_date committing =
    let event : VolumeEvent = record {
      volume_id = volume_id;
      event_type = event_type;
      event_date = event_date;
      location = location;
      detail = detail;
    } in
    let written =
      write conn
        (record conn.current { volume_events = conn.current.volume_events ++ event ∷ [] }) in
    if committing then commit written else written
