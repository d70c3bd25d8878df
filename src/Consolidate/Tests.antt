-- ===== src/Consolidate/Tests.antt =====
-- The consolidation of two volumes that hold the same pack: the second is refused.
use lcsas.Prelude.{◌≡◌, ◌⊎◌, refl, true, some, [], ◌∷◌, ℕ, false, ◌*◌, ◌≤◌, ◌==◌, any, All}
use lcsas.Catalog.{verified, deprecated, consolidating, would_be_unreplicated}
use lcsas.Catalog.Events.{add_event}
use lcsas.Catalog.Replicas.{
  is_live_replica, has_other_replica, at_risk_of_link, at_risk_of_links, insert_pack, order_packs,
  get_at_risk_packs_for_volume, check_deprecation_safe,
}
use lcsas.Catalog.Volumes.{
  is_allowed, valid_transitions, release, write_status, update_status_from, update_status,
}
use lcsas.Catalog.Samples.{pack, opened}
use lcsas.Catalog.Guard.{has_replica}
use lcsas.Prelude.Result.{ok, err}
use lcsas.Binpack.{usable_capacity, estimate_volumes_needed}
use lcsas.Media.{bd25, capacity_bytes, ecc_overhead_pct}
use lcsas.Catalog.{Pack}
use lcsas.Consolidate.Plan.{
  ConsolidationPlan, source_not_found, plan_consolidation, source_labels_of,
  get_packs_only_on_volumes, get_pruned_packs_on_volumes, sort_by_sha256, insert_by_sha256, rows_of,
  row_if, pack_ids_on, sum_sizes,
}
use lcsas.Consolidate.Plan.Laws.{IsIn, plan_consolidation_complete}
use lcsas.Consolidate.{
  left_by, update_each, deprecate_sources, mark_sources_consolidating, abort_consolidation,
}
use lcsas.Consolidate.Rounds.{status_at}
use lcsas.Consolidate.Laws.{
  AllOrNothing, IsTorn, sources-AllOrNothing, deprecate_sources-has_replica,
}

stopped : (deprecate_sources (λ k. "t") (1 ∷ 2 ∷ []) opened).1 ≡ some would_be_unreplicated
unfolding deprecate_sources update_each update_status update_status_from is_allowed
    valid_transitions check_deprecation_safe get_at_risk_packs_for_volume at_risk_of_links
    at_risk_of_link has_other_replica is_live_replica order_packs insert_pack write_status release
    left_by add_event
stopped = refl

-- The first source stays DEPRECATED on disk.
torn : status_at (deprecate_sources (λ k. "t") (1 ∷ 2 ∷ []) opened).0.committed 1 ≡ some deprecated
unfolding deprecate_sources update_each update_status update_status_from is_allowed
    valid_transitions check_deprecation_safe get_at_risk_packs_for_volume at_risk_of_links
    at_risk_of_link has_other_replica is_live_replica order_packs insert_pack write_status release
    left_by add_event
torn = refl

sources-AllOrNothing_example :
    AllOrNothing consolidating
      (1 ∷ 2 ∷ [])
      opened
      (mark_sources_consolidating (λ k. "t") (1 ∷ 2 ∷ []) opened)
    × AllOrNothing verified (1 ∷ 2 ∷ []) opened (abort_consolidation (λ k. "t") (1 ∷ 2 ∷ []) opened)
    × (AllOrNothing deprecated
          (1 ∷ 2 ∷ [])
          opened
          (deprecate_sources (λ k. "t") (1 ∷ 2 ∷ []) opened)
        ⊎ IsTorn (1 ∷ 2 ∷ []) opened (deprecate_sources (λ k. "t") (1 ∷ 2 ∷ []) opened))
sources-AllOrNothing_example = sources-AllOrNothing (λ k. "t") (1 ∷ 2 ∷ []) opened

deprecate_sources-has_replica_example :
    has_replica (deprecate_sources (λ k. "t") (1 ∷ 2 ∷ []) opened).0.current 0 ≡ true
unfolding has_replica is_live_replica
deprecate_sources-has_replica_example =
    deprecate_sources-has_replica (λ k. "t") (1 ∷ 2 ∷ []) opened 0 (pack, refl, refl) refl

abbrev merged : ConsolidationPlan
merged = record {
  source_volume_ids = 1 ∷ 2 ∷ [];
  source_labels = "V1" ∷ "V2" ∷ [];
  active_packs = pack ∷ [];
  total_active_bytes = 40;
  target_media_type = bd25;
  volumes_needed = 1;
  pruned_left_behind = [];
}

plan-merged : plan_consolidation opened.current 100 (1 ∷ 2 ∷ []) bd25 ≡ ok merged
unfolding plan_consolidation source_labels_of get_packs_only_on_volumes get_pruned_packs_on_volumes
    sort_by_sha256 insert_by_sha256 rows_of row_if pack_ids_on estimate_volumes_needed
    capacity_bytes ecc_overhead_pct
plan-merged = refl

plan_missing : plan_consolidation opened.current 100 (1 ∷ 3 ∷ []) bd25 ≡ err source_not_found
unfolding plan_consolidation source_labels_of
plan_missing = refl

plan_consolidation_complete_example :
    All
      (λ link.
        any (λ n. n == link.volume_id) (1 ∷ 2 ∷ []) ≡ true
        → (pack : Pack) → opened.current.packs link.pack_id ≡ some pack
        → pack.is_pruned ≡ false
        → IsIn pack merged.active_packs)
      opened.current.volume_packs
    × (sum_sizes merged.active_packs
        ≤ 1 * usable_capacity (capacity_bytes bd25) 100 (ecc_overhead_pct bd25))
    × ((m : ℕ)
        → sum_sizes merged.active_packs
          ≤ m * usable_capacity (capacity_bytes bd25) 100 (ecc_overhead_pct bd25)
        → 1 ≤ m)
plan_consolidation_complete_example =
    plan_consolidation_complete opened.current 100 (1 ∷ 2 ∷ []) bd25 merged plan-merged
