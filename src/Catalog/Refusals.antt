-- ===== src/Catalog/Refusals.antt =====
-- Which deprecations the guard of `update_status` in src/lcsas/db/volumes.py refuses.

use Prim.Native.String.{String}
use lcsas.Prelude.{
  ℕ, ◌≡◌, ◌↔◌, refl, inl, inr, Bool, true, false, Option, none, some, List, [], ◌∷◌, is_empty, All,
  ◌==◌, ==_iff, Bool-cases,
}
use lcsas.Prelude.Result.{ok}
use lcsas.Catalog.{Catalog, Connection, Volume, deprecated, VolumePack, Pack}
use lcsas.Catalog.Replicas.{
  at_risk_of_link, at_risk_of_links, order_packs, get_at_risk_packs_for_volume,
  check_deprecation_safe,
}
use lcsas.Catalog.Service.{Some, IsOther, has_other_replica-IsOther}
use lcsas.Catalog.Volumes.{is_allowed, write_status, update_status_from, update_status}
use lcsas.Catalog.Accepted.{update_status-inv}
use lcsas.Catalog.Guard.{IsKept, no_risk, link_safe, append-nil_left}

-- Where the pack of the link is on the volume and kept, some other volume that holds it is such a
-- replica.
abbrev pub IsCovered : Catalog → ℕ → VolumePack → Type 0
IsCovered catalog n link =
    link.volume_id ≡ n
    → IsKept catalog link.pack_id
    → Some (IsOther catalog n link.pack_id) catalog.volume_packs

module _ (catalog : Catalog) (n : ℕ) where
  IsCovered-no_risk :
      (links : List VolumePack)
      → at_risk_of_links catalog n links ≡ []
      → All (IsCovered catalog n) links
  unfolding at_risk_of_links
  IsCovered-no_risk [] e = tt
  IsCovered-no_risk (link ∷ links) e =
      let (here, below) = append-nil_left _ _ e in
      (
        λ own kept.
            (has_other_replica-IsOther catalog n link.pack_id).0
              (link_safe catalog n link here own kept),
        IsCovered-no_risk links below,
      )

  at_risk-IsCovered :
      (link : VolumePack) (row : Option Pack)
      → catalog.packs link.pack_id ≡ row
      → IsCovered catalog n link
      → at_risk_of_link catalog n link row ≡ []
  unfolding at_risk_of_link
  at_risk-IsCovered link none found covered = refl
  at_risk-IsCovered link (some pack) found covered = elim (Bool-cases (link.volume_id == n)) [
    | inr elsewhere ↦ rw elsewhere refl
    | inl here ↦ elim (Bool-cases pack.is_pruned) [
      | inl pruned ↦ rw (here, pruned) refl
      | inr kept ↦
          let other =
            (has_other_replica-IsOther catalog n link.pack_id).1
              (covered ((==_iff link.volume_id n).0 here) (pack, found, kept)) in
          rw (here, kept, other) refl
    ]
  ]

  no_risk-IsCovered :
      (links : List VolumePack)
      → All (IsCovered catalog n) links
      → at_risk_of_links catalog n links ≡ []
  unfolding at_risk_of_links
  no_risk-IsCovered [] covered = refl
  no_risk-IsCovered (link ∷ links) covered =
      rw
        (
          at_risk-IsCovered link (catalog.packs link.pack_id) refl covered.0,
          no_risk-IsCovered links covered.1,
        )
        refl

  empty_check :
      at_risk_of_links catalog n catalog.volume_packs ≡ []
      → is_empty (check_deprecation_safe catalog n) ≡ true
  unfolding check_deprecation_safe get_at_risk_packs_for_volume order_packs
  empty_check e = rw e refl

module _ (conn : Connection) (n : ℕ) (volume : Volume) (now later : String)
    (committing : Bool) where
  passes :
      is_allowed volume.status deprecated ≡ true
      → is_empty (check_deprecation_safe conn.current n) ≡ true
      → update_status_from conn n deprecated now later committing false (some volume)
        ≡ ok (write_status conn n volume.status deprecated now later true committing)
  unfolding update_status_from
  passes allowed safe = rw (allowed, safe) refl

  -- For a volume whose status may change to DEPRECATED, the change that is not forced is made exactly
  -- if each pack on the volume that is in the catalog and not pruned is also on another volume that
  -- is BURNED or VERIFIED and has a disc in service, or no disc recorded.
  pub deprecation-IsCovered_iff :
      conn.current.volumes n ≡ some volume
      → is_allowed volume.status deprecated ≡ true
      → ((after : Connection) × (update_status conn n deprecated now later committing false
            ≡ ok after))
        ↔ All (IsCovered conn.current n) conn.current.volume_packs
  unfolding update_status
  deprecation-IsCovered_iff found allowed = (
    λ (after, e).
        let (v, row, may, safe, same) =
          update_status-inv conn after n deprecated now later committing e in
        IsCovered-no_risk conn.current n conn.current.volume_packs
          (no_risk conn.current n (safe refl)),
    λ covered. (
      write_status conn n volume.status deprecated now later true committing,
      rw found (
          passes allowed (
            empty_check conn.current n
              (no_risk-IsCovered conn.current n conn.current.volume_packs covered))),
    ),
  )
