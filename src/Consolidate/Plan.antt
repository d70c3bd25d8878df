-- ===== src/Consolidate/Plan.antt =====
-- src/lcsas/consolidate/merger.py, `plan_consolidation`, with its two queries from
-- src/lcsas/db/queries.py. A query that is sent in batches is one filter.
pub mod Laws
use Prim.Native.String.{String}
use lcsas.Prelude.{
  ℕ, ◌+◌, Bool, true, false, not, ◌&&◌, Option, none, some, List, [], ◌∷◌, ◌++◌, any, ◌==◌,
  if◌then◌else◌,
}
use lcsas.Prelude.Result.{Result, ok, err, ◌>>=◌}
use lcsas.Prelude.Text.{str_leb}
use lcsas.Catalog.{Catalog, Volume, VolumePack, Pack}
use lcsas.Binpack.{EstimateError, estimate_volumes_needed}
use lcsas.Media.{MediaType, capacity_bytes, ecc_overhead_pct}

-- The packs that some source volume holds, each once.
unfoldable pub pack_ids_on : List ℕ → List VolumePack → List ℕ
pack_ids_on volume_ids [] = []
pack_ids_on volume_ids (link ∷ links) =
    let rest = pack_ids_on volume_ids links in
    if any (λ n. n == link.volume_id) volume_ids && not (any (λ k. k == link.pack_id) rest)
    then link.pack_id ∷ rest
    else rest

-- `p.is_pruned = 0` or `p.is_pruned = 1`
abbrev pub same_flag : Bool → Bool → Bool
same_flag true flag = flag
same_flag false flag = not flag

unfoldable pub row_if : Bool → Option Pack → List Pack
row_if pruned none = []
row_if pruned (some pack) = if same_flag pruned pack.is_pruned then pack ∷ [] else []

unfoldable pub rows_of : Catalog → Bool → List ℕ → List Pack
rows_of catalog pruned [] = []
rows_of catalog pruned (id ∷ ids) = row_if pruned (catalog.packs id) ++ rows_of catalog pruned ids

-- `sorted` by sha256
unfoldable pub insert_by_sha256 : Pack → List Pack → List Pack
insert_by_sha256 p [] = p ∷ []
insert_by_sha256 p (q ∷ qs) =
    let rest = insert_by_sha256 p qs in if str_leb p.sha256 q.sha256 then p ∷ q ∷ qs else q ∷ rest

unfoldable pub sort_by_sha256 : List Pack → List Pack
sort_by_sha256 [] = []
sort_by_sha256 (p ∷ ps) = insert_by_sha256 p (sort_by_sha256 ps)

unfoldable pub get_packs_only_on_volumes : Catalog → List ℕ → List Pack
get_packs_only_on_volumes catalog volume_ids =
    sort_by_sha256 (rows_of catalog false (pack_ids_on volume_ids catalog.volume_packs))

unfoldable pub get_pruned_packs_on_volumes : Catalog → List ℕ → List Pack
get_pruned_packs_on_volumes catalog volume_ids =
    sort_by_sha256 (rows_of catalog true (pack_ids_on volume_ids catalog.volume_packs))

pub record ConsolidationPlan : Type 0 where
  pub source_volume_ids : List ℕ
  pub source_labels : List String
  pub active_packs : List Pack
  pub total_active_bytes : ℕ
  pub target_media_type : MediaType
  pub volumes_needed : ℕ
  pub pruned_left_behind : List Pack

pub data PlanError : Type 0 where
  source_not_found : PlanError
  not_estimated : EstimateError → PlanError

abbrev pub label_of : Option Volume → Result PlanError String
label_of none = err source_not_found
label_of (some volume) = ok volume.label

unfoldable pub source_labels_of : Catalog → List ℕ → Result PlanError (List String)
source_labels_of catalog [] = ok []
source_labels_of catalog (n ∷ ids) = do
  label ← label_of (catalog.volumes n)
  rest ← source_labels_of catalog ids
  ok (label ∷ rest)

abbrev pub sum_sizes : List Pack → ℕ
sum_sizes [] = 0
sum_sizes (p ∷ ps) = p.size_bytes + sum_sizes ps

abbrev pub estimated : Result EstimateError ℕ → Result PlanError ℕ
estimated (ok n) = ok n
estimated (err e) = err (not_estimated e)

unfoldable pub plan_consolidation :
    Catalog → ℕ → List ℕ → MediaType → Result PlanError ConsolidationPlan
plan_consolidation catalog metadata_reserve_bytes source_volume_ids target_media_type = do
  labels ← source_labels_of catalog source_volume_ids
  let active = get_packs_only_on_volumes catalog source_volume_ids
  needed ← estimated (
      estimate_volumes_needed (sum_sizes active) (capacity_bytes target_media_type)
        metadata_reserve_bytes (ecc_overhead_pct target_media_type))
  ok (record {
    source_volume_ids = source_volume_ids;
    source_labels = labels;
    active_packs = active;
    total_active_bytes = sum_sizes active;
    target_media_type = target_media_type;
    volumes_needed = needed;
    pruned_left_behind = get_pruned_packs_on_volumes catalog source_volume_ids;
  })
