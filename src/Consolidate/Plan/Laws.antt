-- ===== src/Consolidate/Plan/Laws.antt =====
-- What `plan_consolidation` of src/lcsas/consolidate/merger.py plans.

use mathlib.Core.Path.{subst}
use lcsas.Prelude.{
  ℕ, ◌*◌, ◌≤◌, ◌≡◌, refl, sym, ap, ◌⊎◌, inl, inr, Bool, true, false, not, ◌&&◌, ◌||◌, some, List,
  [], ◌∷◌, ◌++◌, any, arith, All, All-imp, ◌==◌, ==_iff, Bool-cases, if_elim,
}
use lcsas.Prelude.Result.{Result, ok, err, ok-inv, ok_inj, raised}
use lcsas.Prelude.Text.{str_leb}
use lcsas.Catalog.{Catalog, VolumePack, Pack}
use lcsas.Binpack.{EstimateError, usable_capacity, estimate_volumes_needed}
use lcsas.Binpack.Estimate.{estimate_volumes_needed-ok}
use lcsas.Media.{MediaType, capacity_bytes, ecc_overhead_pct}
use lcsas.Consolidate.Plan.{
  pack_ids_on, row_if, rows_of, insert_by_sha256, sort_by_sha256, get_packs_only_on_volumes,
  ConsolidationPlan, source_labels_of, sum_sizes, estimated, plan_consolidation,
}

abbrev pub IsIn : Pack → List Pack → Type 0
IsIn p [] = ⊥
IsIn p (q ∷ qs) = (q ≡ p) ⊎ IsIn p qs

IsIn-insert : (p q : Pack) (qs : List Pack) → (q ≡ p) ⊎ IsIn p qs → IsIn p (insert_by_sha256 q qs)
unfolding insert_by_sha256
IsIn-insert p q [] h = h
IsIn-insert p q (r ∷ qs) h =
    if_elim {A = List Pack} (IsIn p) (str_leb q.sha256 r.sha256) (λ _. h)
      (λ _. elim h [
        | inl here ↦ inr (IsIn-insert p q qs (inl here))
        | inr (inl next) ↦ inl next
        | inr (inr rest) ↦ inr (IsIn-insert p q qs (inr rest))
      ])

IsIn-sort : (p : Pack) (ps : List Pack) → IsIn p ps → IsIn p (sort_by_sha256 ps)
unfolding sort_by_sha256
IsIn-sort p [] h = absurd h
IsIn-sort p (q ∷ qs) (inl here) = IsIn-insert p q (sort_by_sha256 qs) (inl here)
IsIn-sort p (q ∷ qs) (inr rest) = IsIn-insert p q (sort_by_sha256 qs) (inr (IsIn-sort p qs rest))

IsIn-append_right : (p : Pack) (ps qs : List Pack) → IsIn p qs → IsIn p (ps ++ qs)
IsIn-append_right p [] qs h = h
IsIn-append_right p (r ∷ ps) qs h = inr (IsIn-append_right p ps qs h)

module _ (catalog : Catalog) (k : ℕ) (pack : Pack) (found : catalog.packs k ≡ some pack)
    (kept : pack.is_pruned ≡ false) where
  row-kept : row_if false (catalog.packs k) ≡ pack ∷ []
  unfolding row_if
  row-kept = rw (found, kept) refl

  IsIn-rows :
      (ids : List ℕ) → any (λ id. id == k) ids ≡ true → IsIn pack (rows_of catalog false ids)
  unfolding rows_of
  IsIn-rows [] h = absurd (clash h)
    where
      clash : ◌≡◌ {A = Bool} false true → ⊥
      clash e = cc
  IsIn-rows (id ∷ ids) h = elim (Bool-cases (id == k)) [
    | inl here ↦
        subst (λ (j : ℕ). IsIn pack (row_if false (catalog.packs j) ++ rows_of catalog false ids))
          (sym ((==_iff id k).0 here)) (rw row-kept (inl refl))
    | inr there ↦
        IsIn-append_right pack (row_if false (catalog.packs id)) (rows_of catalog false ids)
          (IsIn-rows ids (ground (arith, h, there)))
  ]

known : (source listed : Bool) → source ≡ true → (source && not listed) ≡ false → listed ≡ true
known true true h e = refl
known true false h e = cc
known false listed h e = cc

or_right : (a b : Bool) → b ≡ true → (a || b) ≡ true
or_right true b h = refl
or_right false b h = h

module _ (volume_ids : List ℕ) where
  abbrev Collected : List VolumePack → VolumePack → Type 0
  Collected links link =
      any (λ n. n == link.volume_id) volume_ids ≡ true
      → any (λ id. id == link.pack_id) (pack_ids_on volume_ids links) ≡ true

  Collected-first : (link : VolumePack) (links : List VolumePack) → Collected (link ∷ links) link
  unfolding pack_ids_on
  Collected-first link links source =
      if_elim {A = List ℕ} (λ l. any (λ id. id == link.pack_id) l ≡ true) _ (λ _. ground arith)
        (λ e. known _ _ source e)

  Collected-later :
      (link other : VolumePack) (links : List VolumePack)
      → Collected links other
      → Collected (link ∷ links) other
  unfolding pack_ids_on
  Collected-later link other links h source =
      if_elim {A = List ℕ} (λ l. any (λ id. id == other.pack_id) l ≡ true)
        (any (λ n. n == link.volume_id) volume_ids
          && not (any (λ k. k == link.pack_id) (pack_ids_on volume_ids links)))
        {x = link.pack_id ∷ pack_ids_on volume_ids links}
        (λ _. or_right (link.pack_id == other.pack_id) _ (h source)) (λ _. h source)

  collected : (links : List VolumePack) → All (Collected links) links
  collected [] = tt
  collected (link ∷ links) = (
    Collected-first link links,
    All-imp _ _ (λ other. Collected-later link other links) links (collected links),
  )

-- A plan that is made.
planned :
    (catalog : Catalog) (reserve : ℕ) (ids : List ℕ) (medium : MediaType) (plan : ConsolidationPlan)
    → plan_consolidation catalog reserve ids medium ≡ ok plan
    → (plan.active_packs ≡ get_packs_only_on_volumes catalog ids)
      × (plan.total_active_bytes ≡ sum_sizes plan.active_packs)
      × (estimate_volumes_needed plan.total_active_bytes
            (capacity_bytes medium)
            reserve
            (ecc_overhead_pct medium)
          ≡ ok plan.volumes_needed)
unfolding plan_consolidation
planned catalog reserve ids medium plan e =
    let (labels, e1, _) = ok-inv (source_labels_of catalog ids) e in
    let (needed, e2, h) =
      ok-inv
        (estimated (
          estimate_volumes_needed (sum_sizes (get_packs_only_on_volumes catalog ids))
            (capacity_bytes medium) reserve (ecc_overhead_pct medium)))
        e1 in
    subst
      (λ (p : ConsolidationPlan).
        (p.active_packs ≡ get_packs_only_on_volumes catalog ids)
        × (p.total_active_bytes ≡ sum_sizes p.active_packs)
        × (estimate_volumes_needed p.total_active_bytes (capacity_bytes medium) reserve
              (ecc_overhead_pct medium)
            ≡ ok p.volumes_needed))
      (ok_inj e2) (refl, refl, estimated-ok _ needed h)
  where
    estimated-ok : (r : Result EstimateError ℕ) (n : ℕ) → estimated r ≡ ok n → r ≡ ok n
    estimated-ok (ok m) n h = ap ok (ok_inj h)
    estimated-ok (err e) n h = absurd (raised h)

-- When a plan is made: each pack that a source volume holds, that is in the catalog and is not pruned
-- is in it; and as many volumes as it says hold the bytes of its packs, but no fewer do.
pub plan_consolidation_complete :
    (catalog : Catalog) (reserve : ℕ) (ids : List ℕ) (medium : MediaType) (plan : ConsolidationPlan)
    → plan_consolidation catalog reserve ids medium ≡ ok plan
    → All
        (λ link.
          any (λ n. n == link.volume_id) ids ≡ true
          → (pack : Pack) → catalog.packs link.pack_id ≡ some pack
          → pack.is_pruned ≡ false
          → IsIn pack plan.active_packs)
        catalog.volume_packs
      × (sum_sizes plan.active_packs
          ≤ plan.volumes_needed
            * usable_capacity (capacity_bytes medium) reserve (ecc_overhead_pct medium))
      × ((m : ℕ)
          → sum_sizes plan.active_packs
            ≤ m * usable_capacity (capacity_bytes medium) reserve (ecc_overhead_pct medium)
          → plan.volumes_needed ≤ m)
unfolding get_packs_only_on_volumes
plan_consolidation_complete catalog reserve ids medium plan e =
    let (active, total, estimate) = planned catalog reserve ids medium plan e in
    let (covers, least) =
      estimate_volumes_needed-ok plan.total_active_bytes (capacity_bytes medium) reserve
        (ecc_overhead_pct medium) plan.volumes_needed estimate in
    (
      All-imp _ _
          (λ link listed source pack found kept. subst (IsIn pack) (sym active) (
            IsIn-sort pack _ (
              IsIn-rows catalog link.pack_id pack found kept (pack_ids_on ids catalog.volume_packs)
                (listed source))))
          catalog.volume_packs (collected ids catalog.volume_packs),
      omega (arith, covers, total),
      λ m h. least m (omega (arith, h, total)),
    )
