-- ===== src/Catalog/Accepted.antt =====
-- What a change that `update_status` of src/lcsas/db/volumes.py does not refuse went through, and what
-- the connection then sees.
use Prim.Native.String.{String}
use lcsas.Prelude.{
  ℕ, ◌≡◌, refl, ap, ◌∙◌, Bool, true, false, not, ◌&&◌, Option, none, some, is_empty, if◌then◌else◌,
}
use lcsas.Prelude.Result.{Result, ok, err, ok_inj}
use lcsas.Catalog.{
  Catalog, CatalogError, invalid_transition, would_be_unreplicated, Connection, Volume,
  VolumeStatus, deprecated, status_eqb, note, write,
}
use lcsas.Catalog.Events.{add_event}
use lcsas.Catalog.Replicas.{check_deprecation_safe}
use lcsas.Catalog.Volumes.{
  is_allowed, update_volume, change_text, release, write_status, with_status, update_status_from,
  update_status,
}

both_passed :
    (allowed retiring safe : Bool) (written after : Connection)
    → ◌≡◌ {A = Result CatalogError Connection}
        (if not allowed
          then err invalid_transition
          else if retiring && not safe
          then err would_be_unreplicated
          else ok written)
        (ok after)
    → (allowed ≡ true) × (retiring ≡ true → safe ≡ true) × (written ≡ after)
both_passed true true true written after e = (refl, λ _. refl, ok_inj e)
both_passed true true false written after e = cc
both_passed true false safe written after e = (refl, λ h. cc, ok_inj e)
both_passed false retiring safe written after e = cc

-- What a change that is not refused went through.
accepted :
    (conn after : Connection) (n : ℕ) (status : VolumeStatus) (now later : String)
    (committing : Bool) (row : Option Volume)
    → update_status_from conn n status now later committing false row ≡ ok after
    → (volume : Volume) × (row ≡ some volume)
      × (is_allowed volume.status status ≡ true)
      × (status_eqb status deprecated ≡ true
          → is_empty (check_deprecation_safe conn.current n) ≡ true)
      × (write_status conn n volume.status status now later
            (status_eqb status deprecated)
            committing
          ≡ after)
unfolding update_status_from
accepted conn after n status now later committing none e = cc
accepted conn after n status now later committing (some volume) e =
    let (allowed, safe, same) = both_passed (is_allowed volume.status status) _ _ _ _ e in
    (volume, refl, allowed, safe, same)

pub update_status-inv :
    (conn after : Connection) (n : ℕ) (status : VolumeStatus) (now later : String)
    (committing : Bool)
    → update_status conn n status now later committing false ≡ ok after
    → (volume : Volume) × (conn.current.volumes n ≡ some volume)
      × (is_allowed volume.status status ≡ true)
      × (status_eqb status deprecated ≡ true
          → is_empty (check_deprecation_safe conn.current n) ≡ true)
      × (write_status conn n volume.status status now later
            (status_eqb status deprecated)
            committing
          ≡ after)
unfolding update_status
update_status-inv conn after n status now later committing e =
    accepted conn after n status now later committing (conn.current.volumes n) e

release-current :
    (guarded was_open : Bool) (conn : Connection)
    → (release guarded was_open conn).current ≡ conn.current
unfolding release
release-current true false conn = refl
release-current true true conn = refl
release-current false was_open conn = refl

add_event-current :
    (conn : Connection) (n : ℕ) (text date : String) (committing : Bool)
    → (add_event conn n note none text date committing).current
      ≡ (add_event conn n note none text date false).current
unfolding add_event
add_event-current conn n text date true = refl
add_event-current conn n text date false = refl

-- What the connection sees does not depend on what is committed.
pub write_status-current :
    (conn : Connection) (n : ℕ) (current status : VolumeStatus) (now later : String)
    (guarded committing : Bool)
    → (write_status conn n current status now later guarded committing).current
      ≡ (write_status conn n current status now later false false).current
unfolding write_status add_event release
write_status-current conn n current status now later guarded committing =
    add_event-current
      (release guarded conn.in_transaction
        (write conn (update_volume conn.current n (with_status status now))))
      n (change_text current status) later committing
    ∙ ap
        (λ (c : Catalog).
          (add_event (record conn { current = c }) n note none (change_text current status) later
            false).current)
        (release-current guarded conn.in_transaction
          (write conn (update_volume conn.current n (with_status status now))))
