-- ===== src/Catalog/Guard.antt =====
-- The guard of `update_status` in src/lcsas/db/volumes.py: no status change that it lets through
-- takes a pack's last live replica.
use Prim.Native.String.{String}
use mathlib.Core.Path.{subst}
use lcsas.Prelude.{
  ℕ, ◌≡◌, refl, sym, ◌∙◌, ◌⊎◌, inl, inr, Bool, true, false, not, ◌&&◌, some, List, [], ◌∷◌, ◌++◌,
  map, any, is_empty, arith, ◌==◌, ==_iff, Bool-cases,
}
use lcsas.Prelude.Result.{ok}
use lcsas.Catalog.{
  Catalog, Connection, Volume, VolumeStatus, staging, burning, burned, verified, consolidating,
  deprecated, destroyed, VolumePack, Pack,
}
use lcsas.Catalog.Events.{add_event}
use lcsas.Catalog.Replicas.{
  is_live_replica, has_other_replica, at_risk_of_link, at_risk_of_links, insert_pack, order_packs,
  get_at_risk_packs_for_volume, check_deprecation_safe,
}
use lcsas.Catalog.Volumes.{release, write_status, with_status, update_status}
use lcsas.Catalog.Accepted.{update_status-inv, write_status-current}

pub with_status-status :
    (status : VolumeStatus) (now : String) (volume : Volume)
    → (with_status status now volume).status ≡ status
with_status-status staging now volume = refl
with_status-status burning now volume = refl
with_status-status burned now volume = refl
with_status-status verified now volume = refl
with_status-status consolidating now volume = refl
with_status-status deprecated now volume = refl
with_status-status destroyed now volume = refl

-- Some volume that holds the pack is a live replica.
unfoldable pub has_replica : Catalog → ℕ → Bool
has_replica catalog pack_id =
    any (λ link. link.pack_id == pack_id && is_live_replica catalog link.volume_id)
      catalog.volume_packs

-- The pack is in the catalog and not pruned.
abbrev pub IsKept : Catalog → ℕ → Type 0
IsKept catalog pack_id =
    (pack : Pack) × (catalog.packs pack_id ≡ some pack) × (pack.is_pruned ≡ false)

insert_pack-cons : (p : Pack) (ps : List Pack) → is_empty (insert_pack p ps) ≡ false
unfolding insert_pack
insert_pack-cons p [] = refl
insert_pack-cons p (q ∷ qs) = ground arith

order_packs-is_empty : (ps : List Pack) → is_empty (order_packs ps) ≡ true → ps ≡ []
unfolding order_packs
order_packs-is_empty [] e = refl
order_packs-is_empty (p ∷ ps) e = cc (e, insert_pack-cons p (order_packs ps))

map-is_empty : (ps : List Pack) → is_empty (map (λ pack. pack.sha256) ps) ≡ is_empty ps
map-is_empty [] = refl
map-is_empty (p ∷ ps) = refl

-- The guard lets through only where no pack is at risk.
pub no_risk :
    (catalog : Catalog) (n : ℕ)
    → is_empty (check_deprecation_safe catalog n) ≡ true
    → at_risk_of_links catalog n catalog.volume_packs ≡ []
unfolding check_deprecation_safe get_at_risk_packs_for_volume
no_risk catalog n e = order_packs-is_empty _ (sym (map-is_empty _) ∙ e)

pub append-nil_left : (ps qs : List Pack) → (ps ++ qs) ≡ [] → (ps ≡ []) × (qs ≡ [])
append-nil_left [] qs e = (refl, e)
append-nil_left (p ∷ ps) qs e = cc

listed_at_risk :
    (catalog : Catalog) (n : ℕ) (link : VolumePack) (pack : Pack)
    → (link.volume_id == n) ≡ true
    → pack.is_pruned ≡ false
    → has_other_replica catalog n link.pack_id ≡ false
    → at_risk_of_link catalog n link (some pack) ≡ pack ∷ []
unfolding at_risk_of_link
listed_at_risk catalog n link pack same kept alone = rw (same, kept, alone) refl

-- Each pack of the volume that is kept has another replica.
pub link_safe :
    (catalog : Catalog) (n : ℕ) (link : VolumePack)
    → at_risk_of_link catalog n link (catalog.packs link.pack_id) ≡ []
    → link.volume_id ≡ n
    → IsKept catalog link.pack_id
    → has_other_replica catalog n link.pack_id ≡ true
link_safe catalog n link e same (pack, found, kept) =
    elim (Bool-cases (has_other_replica catalog n link.pack_id)) [
      | inl other ↦ other
      | inr alone ↦
          let listed : at_risk_of_link catalog n link (some pack) ≡ pack ∷ [] =
            listed_at_risk catalog n link pack ((==_iff _ _).1 same) kept alone in
          cc (e, found, listed)
    ]

-- The volumes other than `n` count as before.
abbrev pub SameBeside : Catalog → Catalog → ℕ → Type 0
SameBeside catalog later n =
    (m : ℕ) → (m == n) ≡ false → is_live_replica later m ≡ is_live_replica catalog m

module _ (catalog later : Catalog) (n pack_id : ℕ) (beside : SameBeside catalog later n) where
  others_stay :
      (links : List VolumePack)
      → any
          (λ link.
            link.pack_id == pack_id
            && (not (link.volume_id == n) && is_live_replica catalog link.volume_id))
          links
        ≡ true
      → any (λ link. link.pack_id == pack_id && is_live_replica later link.volume_id) links ≡ true
  others_stay [] h = cc
  others_stay (link ∷ links) h = ground (arith, beside link.volume_id, others_stay links)

  rescue :
      (links : List VolumePack)
      → at_risk_of_links catalog n links ≡ []
      → IsKept catalog pack_id
      → any (λ link. link.pack_id == pack_id && is_live_replica catalog link.volume_id) links ≡ true
      → (any (λ link. link.pack_id == pack_id && is_live_replica later link.volume_id) links ≡ true)
        ⊎ (has_other_replica catalog n pack_id ≡ true)
  unfolding at_risk_of_links
  rescue [] risk kept h = cc
  rescue (link ∷ links) risk kept h =
      let (here, below) = append-nil_left _ _ risk in
      let deeper = rescue links below kept in
      elim (Bool-cases (link.pack_id == pack_id)) [
        | inr other_pack ↦ ground (arith, deeper)
        | inl this_pack ↦ elim (Bool-cases (link.volume_id == n)) [
          | inl same ↦
              let named : link.pack_id ≡ pack_id = (==_iff _ _).0 this_pack in
              inr (
                subst (λ k. has_other_replica catalog n k ≡ true) named
                  (link_safe catalog n link here ((==_iff _ _).0 same)
                    (subst (IsKept catalog) (sym named) kept)))
          | inr elsewhere ↦ ground (arith, deeper, beside link.volume_id elsewhere)
        ]
      ]

unguarded-beside :
    (conn : Connection) (n : ℕ) (current status : VolumeStatus) (now later : String)
    → SameBeside conn.current (write_status conn n current status now later false false).current n
unfolding write_status add_event release is_live_replica
unguarded-beside conn n current status now later m other = rw other refl

pub write_status-beside :
    (conn : Connection) (n : ℕ) (current status : VolumeStatus) (now later : String)
    (guarded committing : Bool)
    → SameBeside conn.current
        (write_status conn n current status now later guarded committing).current
        n
write_status-beside conn n current status now later guarded committing =
    subst (λ c. SameBeside conn.current c n)
      (sym (write_status-current conn n current status now later guarded committing))
      (unguarded-beside conn n current status now later)

pub write_status-packs :
    (conn : Connection) (n : ℕ) (current status : VolumeStatus) (now later : String)
    (guarded committing : Bool)
    → ((write_status conn n current status now later guarded committing).current.volume_packs
        ≡ conn.current.volume_packs)
      × ((write_status conn n current status now later guarded committing).current.packs
          ≡ conn.current.packs)
unfolding write_status add_event release
write_status-packs conn n current status now later guarded committing =
    subst
      (λ (c : Catalog).
        (c.volume_packs ≡ conn.current.volume_packs) × (c.packs ≡ conn.current.packs))
      (sym (write_status-current conn n current status now later guarded committing)) (refl, refl)

-- Where no refusal stops a change to DEPRECATED, every pack that is in the catalog, not pruned and
-- held by a live replica is still held by one.
pub deprecation-has_replica :
    (conn after : Connection) (n : ℕ) (now later : String) (committing : Bool) (pack_id : ℕ)
    → update_status conn n deprecated now later committing false ≡ ok after
    → IsKept conn.current pack_id
    → has_replica conn.current pack_id ≡ true
    → has_replica after.current pack_id ≡ true
unfolding has_replica has_other_replica
deprecation-has_replica conn after n now later committing pack_id e kept h =
    let (volume, found, allowed, safe, same) =
      update_status-inv conn after n deprecated now later committing e in
    let beside = write_status-beside conn n volume.status deprecated now later true committing in
    let (links, packs) =
      write_status-packs conn n volume.status deprecated now later true committing in
    subst (λ (c : Connection). has_replica c.current pack_id ≡ true) same
      (rw links
        (elim (rescue conn.current _ n pack_id beside conn.current.volume_packs
          (no_risk conn.current n (safe refl)) kept h) [
            | inl stays ↦ stays
            | inr other ↦
                others_stay conn.current _ n pack_id beside conn.current.volume_packs other
          ]))
