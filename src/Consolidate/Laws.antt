-- ===== src/Consolidate/Laws.antt =====
-- src/lcsas/consolidate/merger.py: whether the sources change together, and that no pack loses its
-- last replica.
use Prim.Native.String.{String}
use mathlib.Core.Path.{subst}
use mathlib.Core.Option
use lcsas.Prelude.{
  ℕ, ◌≡◌, refl, sym, ap, ◌⊎◌, true, false, Option, none, some, List, [], ◌∷◌, All, ==_iff,
  Bool-cases, inl, inr,
}
use lcsas.Prelude.Result.{ok}
use lcsas.Catalog.{
  CatalogError, Connection, Pack, VolumeStatus, verified, consolidating, deprecated,
}
use lcsas.Catalog.Events.{add_event}
use lcsas.Catalog.Volumes.{release, write_status, update_status}
use lcsas.Catalog.Accepted.{update_status-inv}
use lcsas.Catalog.Guard.{has_replica, IsKept, write_status-packs, deprecation-has_replica}
use lcsas.Consolidate.{
  left_by, update_each, commit_unless, deprecate_sources, mark_sources_consolidating,
  abort_consolidation,
}
use lcsas.Consolidate.Rounds.{
  status_at, IsHeld, row_status, updated-in_transaction, left_by-rows, by_round, each_keeps,
  each-committed, each-status_at,
}

-- Either every source has the status and the disk has what the transaction sees, or the disk is as
-- it was.
abbrev pub AllOrNothing :
    VolumeStatus → List ℕ → Connection → Connection × Option CatalogError → Type 0
AllOrNothing status ids conn (after, none) =
    All (λ n. status_at after.current n ≡ some status) ids × (after.committed ≡ after.current)
AllOrNothing status ids conn (after, some e) = after.committed ≡ conn.committed

commit_unless-AllOrNothing :
    (status : VolumeStatus) (ids : List ℕ) (conn : Connection)
    (outcome : Connection × Option CatalogError)
    → outcome.0.committed ≡ conn.committed
    → (outcome.1 ≡ none → All (λ n. status_at outcome.0.current n ≡ some status) ids)
    → AllOrNothing status ids conn (commit_unless outcome)
commit_unless-AllOrNothing status ids conn (after, none) kept all = (all refl, refl)
commit_unless-AllOrNothing status ids conn (after, some e) kept all = kept

each-AllOrNothing :
    (status : VolumeStatus) (clock : ℕ → String) (ids : List ℕ) (conn : Connection)
    → IsHeld status conn
    → AllOrNothing status ids conn (commit_unless (update_each status clock 0 ids conn))
each-AllOrNothing status clock ids conn held =
    commit_unless-AllOrNothing status ids conn (update_each status clock 0 ids conn)
      (each-committed status clock 0 ids conn held) (each-status_at status clock 0 ids conn)

-- The first source is DEPRECATED on disk although an error ended the loop, which began with no
-- transaction open.
abbrev pub IsTorn : List ℕ → Connection → Connection × Option CatalogError → Type 0
IsTorn [] conn outcome = ⊥
IsTorn (n ∷ ids) conn (after, none) = ⊥
IsTorn (n ∷ ids) conn (after, some e) =
    (conn.in_transaction ≡ false) × (status_at after.committed n ≡ some deprecated)

-- The savepoint of a first deprecation commits the status at its release.
first-committed :
    (conn after : Connection) (n : ℕ) (now later : String)
    → conn.in_transaction ≡ false
    → update_status conn n deprecated now later false false ≡ ok after
    → status_at after.committed n ≡ some deprecated
unfolding write_status add_event release
first-committed conn after n now later closed e =
    let (volume, found, allowed, safe, same) =
      update_status-inv conn after n deprecated now later false e in
    subst (λ (c : Connection). status_at c.committed n ≡ some deprecated) same
      (rw (closed, (==_iff n n).1 refl)
        (row_status (conn.current.volumes n) deprecated now volume.status
          (ap (Option.map (λ volume. volume.status)) found)))

outcome-IsTorn :
    (n : ℕ) (ids : List ℕ) (conn : Connection) (outcome : Connection × Option CatalogError)
    → conn.in_transaction ≡ false
    → status_at outcome.0.committed n ≡ some deprecated
    → (outcome.1 ≡ none → All (λ m. status_at outcome.0.current m ≡ some deprecated) (n ∷ ids))
    → AllOrNothing deprecated (n ∷ ids) conn (commit_unless outcome)
      ⊎ IsTorn (n ∷ ids) conn (commit_unless outcome)
outcome-IsTorn n ids conn (after, none) closed first all = inl (all refl, refl)
outcome-IsTorn n ids conn (after, some e) closed first all = inr (closed, first)

each-IsTorn :
    (clock : ℕ → String) (ids : List ℕ) (conn : Connection)
    → conn.in_transaction ≡ false
    → AllOrNothing deprecated ids conn (commit_unless (update_each deprecated clock 0 ids conn))
      ⊎ IsTorn ids conn (commit_unless (update_each deprecated clock 0 ids conn))
unfolding update_each
each-IsTorn clock [] conn closed = inl (tt, refl)
each-IsTorn clock (n ∷ ids) conn closed =
    by_round deprecated clock
      (λ r.
        (r.1 ≡ none → All (λ m. status_at r.0.current m ≡ some deprecated) (n ∷ ids))
        → AllOrNothing deprecated (n ∷ ids) conn (commit_unless r)
          ⊎ IsTorn (n ∷ ids) conn (commit_unless r))
      0 n ids conn
      (λ after e all.
        outcome-IsTorn n ids conn (update_each deprecated clock 2 ids after) closed
          (subst (λ c. status_at c n ≡ some deprecated)
            (sym (
              each-committed deprecated clock 2 ids after
                (λ guarded. updated-in_transaction conn after n deprecated _ _ e)))
            (first-committed conn after n _ _ closed e))
          all)
      (λ error all. inl (left_by-rows error conn).1)
      (each-status_at deprecated clock 0 (n ∷ ids) conn)

-- On any connection, whether the sources are marked as CONSOLIDATING or set back to VERIFIED: either
-- no error ends it, every source has that status and what is on disk is what the transaction holds;
-- or an error ends it, and what is on disk is as before. So it is where the sources are deprecated,
-- but for one other end: no transaction was open before, an error ends it, and the first source is
-- DEPRECATED on disk.
pub sources-AllOrNothing :
    (clock : ℕ → String) (ids : List ℕ) (conn : Connection)
    → AllOrNothing consolidating ids conn (mark_sources_consolidating clock ids conn)
      × AllOrNothing verified ids conn (abort_consolidation clock ids conn)
      × (AllOrNothing deprecated ids conn (deprecate_sources clock ids conn)
          ⊎ IsTorn ids conn (deprecate_sources clock ids conn))
unfolding deprecate_sources mark_sources_consolidating abort_consolidation
sources-AllOrNothing clock ids conn = (
  each-AllOrNothing consolidating clock ids conn (λ guarded. cc),
  each-AllOrNothing verified clock ids conn (λ guarded. cc),
  elim (Bool-cases conn.in_transaction) [
    | inl held ↦ inl (each-AllOrNothing deprecated clock ids conn (λ guarded. held))
    | inr closed ↦ each-IsTorn clock ids conn closed
  ],
)

commit_unless-current :
    (outcome : Connection × Option CatalogError)
    → (commit_unless outcome).0.current ≡ outcome.0.current
commit_unless-current (after, none) = refl
commit_unless-current (after, some e) = refl

-- Whether deprecating the sources ends with an error or not, a pack that is in the catalog, not
-- pruned and held by a live replica before is held by a live replica afterwards.
pub deprecate_sources-has_replica :
    (clock : ℕ → String) (ids : List ℕ) (conn : Connection) (pack_id : ℕ)
    → IsKept conn.current pack_id
    → has_replica conn.current pack_id ≡ true
    → has_replica (deprecate_sources clock ids conn).0.current pack_id ≡ true
unfolding deprecate_sources
deprecate_sources-has_replica clock ids conn pack_id kept h =
    rw (commit_unless-current (update_each deprecated clock 0 ids conn))
      (each_keeps deprecated clock
        (λ c. IsKept c.current pack_id × (has_replica c.current pack_id ≡ true)) step stop 0 ids
        conn (kept, h)).1
  where
    stop :
        (before : Connection) (error : CatalogError)
        → IsKept before.current pack_id × (has_replica before.current pack_id ≡ true)
        → IsKept (left_by error before).current pack_id
          × (has_replica (left_by error before).current pack_id ≡ true)
    stop before error =
        subst (λ c. IsKept c pack_id × (has_replica c pack_id ≡ true))
          (sym (left_by-rows error before).0)

    step :
        (before after : Connection) (n : ℕ) (now later : String)
        → update_status before n deprecated now later false false ≡ ok after
        → IsKept before.current pack_id × (has_replica before.current pack_id ≡ true)
        → IsKept after.current pack_id × (has_replica after.current pack_id ≡ true)
    step before after n now later e (kept, h) =
        let (volume, found, allowed, safe, same) =
          update_status-inv before after n deprecated now later false e in
        let (links, packs) =
          write_status-packs before n volume.status deprecated now later true false in
        (
          subst (λ (c : Connection). IsKept c.current pack_id) same
              (subst
                (λ (f : ℕ → Option Pack).
                  (pack : Pack) × (f pack_id ≡ some pack) × (pack.is_pruned ≡ false))
                (sym packs) kept),
          deprecation-has_replica before after n now later false pack_id e kept h,
        )
