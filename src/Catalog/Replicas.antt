-- ===== src/Catalog/Replicas.antt =====
-- src/lcsas/db/queries.py, `get_at_risk_packs_for_volume`: the packs that only one volume holds.
use Prim.Native.String.{String}
use lcsas.Prelude.{
  ℕ, Bool, false, not, ◌&&◌, ◌||◌, Option, none, some, List, [], ◌∷◌, ◌++◌, map, any, ◌==◌,
  if◌then◌else◌,
}
use lcsas.Prelude.Text.{str_leb, str_eqb}
use lcsas.Catalog.{
  Catalog, Volume, burned, verified, VolumePack, VolumeCopy, Pack, status_eqb, is_active,
}

-- The discs of a volume, and those in service.
abbrev pub has_disc : List VolumeCopy → ℕ → Bool
has_disc copies volume_id = any (λ copy. copy.volume_id == volume_id) copies

abbrev pub has_active_disc : List VolumeCopy → ℕ → Bool
has_active_disc copies volume_id =
    any (λ copy. copy.volume_id == volume_id && is_active copy.status) copies

abbrev pub is_durable : Option Volume → Bool
is_durable none = false
is_durable (some volume) = status_eqb volume.status burned || status_eqb volume.status verified

-- BURNED or VERIFIED, and with a disc in service or with no disc recorded at all.
unfoldable pub is_live_replica : Catalog → ℕ → Bool
is_live_replica catalog volume_id =
    is_durable (catalog.volumes volume_id)
    && (has_active_disc catalog.volume_copies volume_id
        || not (has_disc catalog.volume_copies volume_id))

-- The query's inner SELECT.
unfoldable pub has_other_replica : Catalog → ℕ → ℕ → Bool
has_other_replica catalog volume_id pack_id =
    any
      (λ link.
        link.pack_id == pack_id
        && (not (link.volume_id == volume_id) && is_live_replica catalog link.volume_id))
      catalog.volume_packs

-- One row of `volume_packs` joined with its pack, with the conditions of the query.
unfoldable pub at_risk_of_link : Catalog → ℕ → VolumePack → Option Pack → List Pack
at_risk_of_link catalog volume_id link none = []
at_risk_of_link catalog volume_id link (some pack) =
    if link.volume_id == volume_id
      && (not pack.is_pruned && not (has_other_replica catalog volume_id link.pack_id))
    then pack ∷ []
    else []

unfoldable pub at_risk_of_links : Catalog → ℕ → List VolumePack → List Pack
at_risk_of_links catalog volume_id [] = []
at_risk_of_links catalog volume_id (link ∷ links) =
    at_risk_of_link catalog volume_id link (catalog.packs link.pack_id)
    ++ at_risk_of_links catalog volume_id links

-- `ORDER BY p.repo_id, p.sha256`
abbrev pub pack_precedes : Pack → Pack → Bool
pack_precedes p q =
    if str_eqb p.repo_id q.repo_id then str_leb p.sha256 q.sha256 else str_leb p.repo_id q.repo_id

unfoldable pub insert_pack : Pack → List Pack → List Pack
insert_pack p [] = p ∷ []
insert_pack p (q ∷ qs) =
    let rest = insert_pack p qs in if pack_precedes p q then p ∷ q ∷ qs else q ∷ rest

unfoldable pub order_packs : List Pack → List Pack
order_packs [] = []
order_packs (p ∷ ps) = insert_pack p (order_packs ps)

unfoldable pub get_at_risk_packs_for_volume : Catalog → ℕ → List Pack
get_at_risk_packs_for_volume catalog volume_id =
    order_packs (at_risk_of_links catalog volume_id catalog.volume_packs)

-- db/volumes.py
unfoldable pub check_deprecation_safe : Catalog → ℕ → List String
check_deprecation_safe catalog volume_id =
    map (λ pack. pack.sha256) (get_at_risk_packs_for_volume catalog volume_id)
