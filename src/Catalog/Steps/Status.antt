-- ===== src/Catalog/Steps/Status.antt =====
-- A status change in src/lcsas/db/volumes.py that is not refused, and the volumes that are retired.
use Prim.Native.String.{String}
use mathlib.Core.Path.{subst}
use mathlib.Core.Option
use lcsas.Prelude.{
  ℕ, ◌≡◌, refl, sym, ap, ◌∙◌, inl, inr, Bool, true, false, not, Option, none, some, arith, ◌==◌,
  ==_iff, if◌then◌else◌, Bool-cases,
}
use lcsas.Prelude.Result.{ok}
use lcsas.Catalog.{
  Connection, Volume, VolumeStatus, staging, burning, burned, verified, consolidating, deprecated,
  destroyed, status_eqb,
}
use lcsas.Catalog.Events.{add_event}
use lcsas.Catalog.Volumes.{
  is_allowed, valid_transitions, release, write_status, with_status, update_status,
}
use lcsas.Catalog.Copies.{is_retired, can_demote}
use lcsas.Catalog.Accepted.{update_status-inv, write_status-current}
use lcsas.Catalog.Guard.{with_status-status}
use lcsas.Catalog.Steps.{Keeps}

-- A change of status that is allowed does not bring a retired volume back.
allowed_retired :
    (current status : VolumeStatus)
    → is_allowed current status ≡ true
    → is_retired current ≡ true
    → is_retired status ≡ true
unfolding is_allowed valid_transitions
allowed_retired staging status h k = cc
allowed_retired burning status h k = cc
allowed_retired burned status h k = cc
allowed_retired verified status h k = cc
allowed_retired consolidating status h k = cc
allowed_retired deprecated status h k = ground arith
allowed_retired destroyed status h k = cc

row_can_demote :
    (row : Option Volume) (volume : Volume) (status : VolumeStatus) (now : String)
    → row ≡ some volume
    → is_allowed volume.status status ≡ true
    → can_demote (Option.map (with_status status now) row) ≡ true
    → can_demote row ≡ true
row_can_demote none volume status now found allowed h = cc
row_can_demote (some row) volume status now found allowed h =
    elim (Bool-cases (is_retired row.status)) [
      | inr active ↦ rw active refl
      | inl retired ↦
          let old : is_allowed row.status status ≡ true =
            subst (λ (v : Volume). is_allowed v.status status ≡ true) (sym (some_inj found))
              allowed in
          let new : is_retired (with_status status now row).status ≡ true =
            subst (λ s. is_retired s ≡ true) (sym (with_status-status status now row))
              (allowed_retired row.status status old retired) in
          absurd (clash _ new h)
    ]
  where
    some_inj : {a b : Volume} → ◌≡◌ {A = Option Volume} (some a) (some b) → a ≡ b
    some_inj e = cc

    clash : (b : Bool) → b ≡ true → not b ≡ true → ⊥
    clash b h k = ground arith

updated_row :
    (hit : Bool) (row : Option Volume) (volume : Volume) (status : VolumeStatus) (now : String)
    → (hit ≡ true → row ≡ some volume)
    → is_allowed volume.status status ≡ true
    → can_demote (if hit then Option.map (with_status status now) row else row) ≡ true
    → can_demote row ≡ true
updated_row true row volume status now found allowed h =
    row_can_demote row volume status now (found refl) allowed h
updated_row false row volume status now found allowed h = h

write_status-Keeps :
    (conn : Connection) (n : ℕ) (volume : Volume) (status : VolumeStatus) (now later : String)
    → conn.current.volumes n ≡ some volume
    → is_allowed volume.status status ≡ true
    → (m : ℕ)
    → Keeps conn.current (write_status conn n volume.status status now later false false).current m
unfolding write_status add_event release
write_status-Keeps conn n volume status now later found allowed m = (
  updated_row (m == n) (conn.current.volumes m) volume status now
      (λ same. ap conn.current.volumes ((==_iff m n).0 same) ∙ found) allowed,
  refl,
  refl,
)

pub status_updated-Keeps :
    (conn after : Connection) (n : ℕ) (status : VolumeStatus) (now later : String)
    (committing : Bool)
    → update_status conn n status now later committing false ≡ ok after
    → (m : ℕ) → Keeps conn.current after.current m
status_updated-Keeps conn after n status now later committing e m =
    let (volume, found, allowed, safe, same) =
      update_status-inv conn after n status now later committing e in
    subst (λ c. Keeps conn.current c m)
      (sym (
          write_status-current conn n volume.status status now later (status_eqb status deprecated)
            committing)
        ∙ ap (λ (c : Connection). c.current) same)
      (write_status-Keeps conn n volume status now later found allowed m)
