-- ===== src/Catalog/Steps/Added.antt =====
-- A disc is recorded or checked in src/lcsas/db/volume_copies.py.
use Prim.Native.String.{String}
use mathlib.Core.Path.{subst}
use lcsas.Prelude.{
  ℕ, ◌≡◌, refl, sym, ap, ◌∙◌, inl, inr, Bool, true, false, ◌&&◌, some, List, any, arith, ◌==◌,
  ==_iff, if◌then◌else◌, Bool-cases, if_elim,
}
use lcsas.Prelude.Result.{ok, ok-when}
use lcsas.Catalog.{Catalog, Connection, VolumeCopy, is_active, commit, copy_active}
use lcsas.Catalog.Replicas.{has_disc, has_active_disc}
use lcsas.Catalog.Copies.{
  is_at, is_active_at, with_copies, upsert_copy, reburn, add_volume_copy, touch_last_verified,
}
use lcsas.Catalog.Discs.{
  any-map, any-append, update-has_disc, update-has_active_disc, is_at-volume_id,
  active_at-has_active_disc,
}
use lcsas.Catalog.Steps.{IsTruthful, Keeps, Keeps-IsTruthfulAt}

-- The UPSERT of a disc of volume `n` leaves the other volumes' discs as they were.
upsert-discs :
    (disc : VolumeCopy) (copies : List VolumeCopy) (m : ℕ)
    → (m == disc.volume_id) ≡ false
    → (has_disc (upsert_copy disc copies) m ≡ has_disc copies m)
      × (has_active_disc (upsert_copy disc copies) m ≡ has_active_disc copies m)
upsert-discs disc copies m other =
    if_elim {A = List VolumeCopy}
      (λ l. (has_disc l m ≡ has_disc copies m) × (has_active_disc l m ≡ has_active_disc copies m)) _
      (λ _. (
        update-has_disc at (reburn disc) disc.volume_id own (λ copy. refl) copies m,
        update-has_active_disc at (reburn disc) disc.volume_id own (λ copy. refl) copies m other,
      ))
      (λ _. (any-append _ copies disc away, any-append _ copies disc (rw away refl)))
  where
    at : VolumeCopy → Bool
    at = is_at disc.volume_id disc.location

    own : (copy : VolumeCopy) → at copy ≡ true → (copy.volume_id == disc.volume_id) ≡ true
    own = is_at-volume_id disc.volume_id disc.location

    away : (disc.volume_id == m) ≡ false
    away = ground arith

commit_if-current :
    (committing : Bool) (conn : Connection)
    → (if committing then commit conn else conn).current ≡ conn.current
commit_if-current true conn = refl
commit_if-current false conn = refl

added-IsTruthful :
    (conn : Connection) (disc : VolumeCopy)
    → any
        (is_active_at disc.volume_id disc.location)
        (upsert_copy (record disc { status = copy_active }) conn.current.volume_copies)
      ≡ true
    → IsTruthful conn.current
    → IsTruthful
        (with_copies conn
          (upsert_copy (record disc { status = copy_active }) conn.current.volume_copies)).current
added-IsTruthful conn disc present h m = elim (Bool-cases (m == disc.volume_id)) [
  | inl same ↦ λ can has.
      subst
        (λ (k : ℕ).
          has_active_disc
            (upsert_copy (record disc { status = copy_active }) conn.current.volume_copies) k
          ≡ true)
        (sym ((==_iff m disc.volume_id).0 same))
        (active_at-has_active_disc disc.volume_id disc.location _ present)
  | inr other ↦
      let (discs, active) =
        upsert-discs (record disc { status = copy_active }) conn.current.volume_copies m other in
      Keeps-IsTruthfulAt conn.current
        (with_copies conn
          (upsert_copy (record disc { status = copy_active }) conn.current.volume_copies)).current
        m (λ e. e, discs, active) (h m)
]

pub disc_added-IsTruthful :
    (conn after : Connection) (disc : VolumeCopy) (committing : Bool)
    → add_volume_copy conn disc committing ≡ ok after
    → IsTruthful conn.current
    → IsTruthful after.current
unfolding add_volume_copy
disc_added-IsTruthful conn after disc committing e h =
    let copies = upsert_copy (record disc { status = copy_active }) conn.current.volume_copies in
    let (present, same) = ok-when _ (any (is_active_at disc.volume_id disc.location) copies) e in
    subst IsTruthful
      (sym (commit_if-current committing (with_copies conn copies))
        ∙ ap (λ (c : Connection). c.current) same)
      (added-IsTruthful conn disc present h)

pub disc_verified-Keeps :
    (conn : Connection) (n : ℕ) (location now : String) (committing : Bool) (m : ℕ)
    → Keeps conn.current (touch_last_verified conn n location now committing).0.current m
unfolding touch_last_verified
disc_verified-Keeps conn n location now committing m =
    subst (λ c. Keeps conn.current c m) (sym (commit_if-current committing _))
      (
        λ e. e,
        any-map _ _ _ same_volume conn.current.volume_copies,
        any-map _ _ _ same_state conn.current.volume_copies,
      )
  where
    touched : VolumeCopy → VolumeCopy
    touched copy =
        if is_active_at n location copy then record copy { last_verified_at = some now } else copy

    same_volume : (copy : VolumeCopy) → ((touched copy).volume_id == m) ≡ (copy.volume_id == m)
    same_volume copy =
        if_elim {A = VolumeCopy} (λ c. (c.volume_id == m) ≡ (copy.volume_id == m)) _ (λ _. refl)
          (λ _. refl)

    same_state :
        (copy : VolumeCopy)
        → ((touched copy).volume_id == m && is_active (touched copy).status)
          ≡ (copy.volume_id == m && is_active copy.status)
    same_state copy =
        if_elim {A = VolumeCopy}
          (λ c.
            (c.volume_id == m && is_active c.status)
            ≡ (copy.volume_id == m && is_active copy.status))
          _ (λ _. refl) (λ _. refl)

commit_if-volumes :
    (committing : Bool) (conn : Connection)
    → (if committing then commit conn else conn).current.volumes ≡ conn.current.volumes
commit_if-volumes committing conn =
    ap (λ (c : Catalog). c.volumes) (commit_if-current committing conn)

pub disc_added-volumes :
    (conn after : Connection) (disc : VolumeCopy) (committing : Bool)
    → add_volume_copy conn disc committing ≡ ok after
    → after.current.volumes ≡ conn.current.volumes
unfolding add_volume_copy
disc_added-volumes conn after disc committing e =
    let copies = upsert_copy (record disc { status = copy_active }) conn.current.volume_copies in
    let (present, same) = ok-when _ (any (is_active_at disc.volume_id disc.location) copies) e in
    ap (λ (c : Connection). c.current.volumes) (sym same)
    ∙ commit_if-volumes committing (with_copies conn copies)
