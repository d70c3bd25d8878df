-- ===== src/Catalog/Service.antt =====
-- A live replica of a pack in words that do not use the query of src/lcsas/db/queries.py, and that
-- the query finds the same.
use lcsas.Prelude.{
  ℕ, ◌≡◌, ◌≢◌, ◌↔◌, ◌⊎◌, refl, ap, inl, inr, Bool, true, false, not, ◌&&◌, ◌||◌, Option, none, some,
  List, [], ◌∷◌, any, All, arith, ◌==◌, ==_iff, Bool-cases,
}
use lcsas.Catalog.{
  Catalog, Volume, VolumeStatus, staging, burning, burned, verified, consolidating, deprecated,
  destroyed, status_eqb, VolumePack, CopyStatus, copy_active, copy_deprecated, copy_destroyed,
  is_active,
}
use lcsas.Catalog.Replicas.{
  has_disc, has_active_disc, is_durable, is_live_replica, has_other_replica,
}

-- Some element of the list is as `P` says.
abbrev pub Some {ℓ} : {A : Type ℓ} → (A → Type 0) → List A → Type 0
Some P [] = ⊥
Some P (x ∷ xs) = P x ⊎ Some P xs

-- The volume is BURNED or VERIFIED.
abbrev pub IsDurable : Catalog → ℕ → Type 0
IsDurable catalog n =
    (volume : Volume) × (catalog.volumes n ≡ some volume)
    × ((volume.status ≡ burned) ⊎ (volume.status ≡ verified))

-- The volume has a disc in service, or no disc recorded at all.
abbrev pub IsInService : Catalog → ℕ → Type 0
IsInService catalog n =
    Some (λ copy. (copy.volume_id ≡ n) × (copy.status ≡ copy_active)) catalog.volume_copies
    ⊎ All (λ copy. copy.volume_id ≢ n) catalog.volume_copies

-- The link puts the pack on another volume than `n`, one in service.
abbrev pub IsOther : Catalog → ℕ → ℕ → VolumePack → Type 0
IsOther catalog n pack_id link =
    (link.pack_id ≡ pack_id)
    × (link.volume_id ≢ n)
    × IsDurable catalog link.volume_id
    × IsInService catalog link.volume_id

any_iff :
    {A : Type 0} (test : A → Bool) (P : A → Type 0)
    → ((x : A) → (test x ≡ true) ↔ P x)
    → (xs : List A) → (any test xs ≡ true) ↔ Some P xs
any_iff test P same [] = (λ e. cc, λ h. absurd h)
any_iff test P same (x ∷ xs) =
    let (there, back) = any_iff test P same xs in
    (
      λ e. elim (Bool-cases (test x)) [
        | inl here ↦ inl ((same x).0 here)
        | inr not_here ↦ inr (there (ground (arith, e, not_here)))
      ],
      λ h. elim h [ inl here ↦ rw ((same x).1 here) refl | inr later ↦ ground (arith, back later) ],
    )

any-false_iff :
    {A : Type 0} (test : A → Bool) (P : A → Type 0)
    → ((x : A) → (test x ≡ false) ↔ P x)
    → (xs : List A) → (any test xs ≡ false) ↔ All P xs
any-false_iff test P same [] = (λ e. tt, λ h. refl)
any-false_iff test P same (x ∷ xs) =
    let (there, back) = any-false_iff test P same xs in
    (
      λ e. ((same x).0 (ground (arith, e)), there (ground (arith, e))),
      λ (here, later). rw ((same x).1 here) (back later),
    )

status-durable :
    (status : VolumeStatus)
    → (status_eqb status burned || status_eqb status verified) ≡ true
    → (status ≡ burned) ⊎ (status ≡ verified)
status-durable burned e = inl refl
status-durable verified e = inr refl
status-durable staging e = cc
status-durable burning e = cc
status-durable consolidating e = cc
status-durable deprecated e = cc
status-durable destroyed e = cc

durable-status :
    (status : VolumeStatus)
    → (status ≡ burned) ⊎ (status ≡ verified)
    → (status_eqb status burned || status_eqb status verified) ≡ true
durable-status status (inl e) = rw e refl
durable-status status (inr e) = rw e refl

row-durable :
    (row : Option Volume)
    → is_durable row ≡ true
    → (volume : Volume) × (row ≡ some volume)
      × ((volume.status ≡ burned) ⊎ (volume.status ≡ verified))
row-durable none e = cc
row-durable (some volume) e = (volume, refl, status-durable volume.status e)

active_iff : (status : CopyStatus) → (is_active status ≡ true) ↔ (status ≡ copy_active)
active_iff copy_active = (λ e. refl, λ e. refl)
active_iff copy_deprecated = (λ e. cc, λ e. cc)
active_iff copy_destroyed = (λ e. cc, λ e. cc)

&&_iff : (a b : Bool) → ((a && b) ≡ true) ↔ ((a ≡ true) × (b ≡ true))
&&_iff true b = (λ e. (refl, e), λ h. h.1)
&&_iff false b = (λ e. cc, λ h. cc)

differ_iff : (m n : ℕ) → ((m == n) ≡ false) ↔ (m ≢ n)
differ_iff m n = (
  λ e same. cc (e, (==_iff m n).1 same),
  λ h. elim (Bool-cases (m == n)) [
    | inl same ↦ absurd (h ((==_iff m n).0 same))
    | inr other ↦ other
  ],
)

-- The two readings of a replica agree.
live_iff :
    (catalog : Catalog) (n : ℕ)
    → (is_live_replica catalog n ≡ true) ↔ (IsDurable catalog n × IsInService catalog n)
unfolding is_live_replica
live_iff catalog n = (there, back)
  where
    discs :
        (has_active_disc catalog.volume_copies n ≡ true)
        ↔ Some (λ copy. (copy.volume_id ≡ n) × (copy.status ≡ copy_active)) catalog.volume_copies
    discs =
        any_iff _ _
          (λ copy. (
            λ e.
                let (own, active) = (&&_iff _ _).0 e in
                ((==_iff _ _).0 own, (active_iff _).0 active),
            λ (own, active). (&&_iff _ _).1 ((==_iff _ _).1 own, (active_iff _).1 active),
          ))
          catalog.volume_copies

    no_disc :
        (has_disc catalog.volume_copies n ≡ false)
        ↔ All (λ copy. copy.volume_id ≢ n) catalog.volume_copies
    no_disc = any-false_iff _ _ (λ copy. differ_iff copy.volume_id n) catalog.volume_copies

    there : is_live_replica catalog n ≡ true → IsDurable catalog n × IsInService catalog n
    there e =
        let (durable, served) = (&&_iff _ _).0 e in
        (
          row-durable (catalog.volumes n) durable,
          elim (Bool-cases (has_active_disc catalog.volume_copies n)) [
            | inl active ↦ inl (discs.0 active)
            | inr inactive ↦ inr (no_disc.0 (ground (arith, served, inactive)))
          ],
        )

    back : IsDurable catalog n × IsInService catalog n → is_live_replica catalog n ≡ true
    back ((volume, found, status), served) =
        rw (found, durable-status volume.status status)
          (elim served [
            | inl active ↦ rw (discs.1 active) refl
            | inr none_there ↦ ground (arith, no_disc.1 none_there)
          ])

-- So do the two readings of the other replicas of a pack.
pub has_other_replica-IsOther :
    (catalog : Catalog) (n pack_id : ℕ)
    → (has_other_replica catalog n pack_id ≡ true)
      ↔ Some (IsOther catalog n pack_id) catalog.volume_packs
unfolding has_other_replica
has_other_replica-IsOther catalog n pack_id =
    any_iff _ (IsOther catalog n pack_id)
      (λ other. (
        λ e.
            let (same, rest) = (&&_iff _ _).0 e in
            let (elsewhere, live) = (&&_iff _ _).0 rest in
            let (durable, served) = (live_iff catalog other.volume_id).0 live in
            ((==_iff _ _).0 same, (differ_iff _ _).0 (ground (arith, elsewhere)), durable, served),
        λ (same, elsewhere, durable, served). (&&_iff _ _).1 (
          (==_iff _ _).1 same,
          (&&_iff _ _).1 (
            ap not ((differ_iff _ _).1 elsewhere),
            (live_iff catalog other.volume_id).1 (durable, served),
          ),
        ),
      ))
      catalog.volume_packs
