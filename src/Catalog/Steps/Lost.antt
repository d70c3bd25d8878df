-- ===== src/Catalog/Steps/Lost.antt =====
-- A disc goes out of service in src/lcsas/db/volume_copies.py, and the last one with its volume.
use Prim.Native.String.{String}
use mathlib.Core.Path.{subst}
use mathlib.Core.Option
use lcsas.Prelude.{
  ℕ, ◌≡◌, refl, sym, inl, inr, Bool, true, false, not, ◌||◌, Option, none, some, any, arith, ◌==◌,
  ==_iff, if◌then◌else◌, Bool-cases, if_elim,
}
use lcsas.Prelude.Result.{ok, ok-unless}
use lcsas.Catalog.{
  Connection, Volume, deprecated, VolumeCopy, note, copy_deprecated, copy_destroyed, write,
}
use lcsas.Catalog.Events.{add_event}
use lcsas.Catalog.Replicas.{has_disc, has_active_disc}
use lcsas.Catalog.Volumes.{update_volume}
use lcsas.Catalog.Copies.{
  is_at, is_active_at, update_copies, with_copies, can_demote, lost_text,
  demote_volume_if_last_copy_lost, record_disc_fate, retire_disc, deprecate_copy, destroy_copy,
}
use lcsas.Catalog.Discs.{
  update-has_disc, update-has_active_disc, is_at-volume_id, is_active_at-is_at,
}
use lcsas.Catalog.Steps.{IsTruthfulAt, IsTruthful, Keeps, Keeps-IsTruthfulAt}

not-true : (b : Bool) → not b ≡ true → b ≡ false
not-true true e = cc
not-true false e = refl

lost_row :
    (hit : Bool) (row : Option Volume)
    → hit ≡ true
    → can_demote (
        if hit
        then Option.map {A = Volume} (λ volume. record volume { status = deprecated }) row
        else row)
      ≡ true
    → ⊥
lost_row false row here h = cc
lost_row true none here h = cc
lost_row true (some volume) here h = cc

-- The demotion by its three outcomes.
by_demote :
    (P : Connection → Type 0) (conn : Connection) (n : ℕ) (location action now : String)
    → ((not (has_disc conn.current.volume_copies n) || has_active_disc conn.current.volume_copies n)
          ≡ true
        → P conn)
    → (can_demote (conn.current.volumes n) ≡ false → P (write conn conn.current))
    → P (
        add_event
          (write conn
            (update_volume conn.current n (λ volume. record volume { status = deprecated })))
          n
          note
          (some location)
          (lost_text action location)
          now
          false)
    → P (demote_volume_if_last_copy_lost conn n location action now).0
unfolding demote_volume_if_last_copy_lost
by_demote P conn n location action now f g h =
    if_elim {A = Connection × Bool} (λ r. P r.0) _ f
      (λ _.
        if_elim {A = Connection × Bool} (λ r. P r.0) _
          (λ e. g (not-true (can_demote (conn.current.volumes n)) e)) (λ _. h))

demote-IsTruthfulAt :
    (conn : Connection) (n : ℕ) (location action now : String)
    → IsTruthfulAt (demote_volume_if_last_copy_lost conn n location action now).0.current n
unfolding add_event
demote-IsTruthfulAt conn n location action now =
    by_demote (λ c. IsTruthfulAt c.current n) conn n location action now
      (λ e can has. ground (arith, e, can, has)) (λ e can has. cc)
      (λ can has. absurd (lost_row (n == n) (conn.current.volumes n) ((==_iff n n).1 refl) can))

demote-Keeps :
    (conn : Connection) (n : ℕ) (location action now : String) (m : ℕ)
    → (m == n) ≡ false
    → Keeps conn.current (demote_volume_if_last_copy_lost conn n location action now).0.current m
unfolding add_event
demote-Keeps conn n location action now m other =
    by_demote (λ c. Keeps conn.current c.current m) conn n location action now
      (λ _. (λ e. e, refl, refl)) (λ _. (λ e. e, refl, refl)) (rw other (λ e. e, refl, refl))

retire_disc-IsTruthful :
    (conn : Connection) (n : ℕ) (location fate action now later : String)
    → ((m : ℕ) → (m == n) ≡ false → IsTruthfulAt conn.current m)
    → IsTruthful (retire_disc conn n location fate action now later).0.current
unfolding retire_disc record_disc_fate add_event
retire_disc-IsTruthful conn n location fate action now later h m = elim (Bool-cases (m == n)) [
  | inl same ↦
      subst (IsTruthfulAt (retire_disc conn n location fate action now later).0.current)
        (sym ((==_iff m n).0 same)) (demote-IsTruthfulAt _ n location action later)
  | inr other ↦
      Keeps-IsTruthfulAt conn.current (retire_disc conn n location fate action now later).0.current
        m (demote-Keeps _ n location action later m other) (h m other)
]

-- The UPDATE of a disc of volume `n` leaves the other volumes as truthful as they were.
updated-IsTruthful :
    (conn : Connection) (test : VolumeCopy → Bool) (change : VolumeCopy → VolumeCopy) (n : ℕ)
    → ((copy : VolumeCopy) → test copy ≡ true → (copy.volume_id == n) ≡ true)
    → ((copy : VolumeCopy) → (change copy).volume_id ≡ copy.volume_id)
    → IsTruthful conn.current
    → (m : ℕ) → (m == n) ≡ false
    → IsTruthfulAt
        (with_copies conn (update_copies test change conn.current.volume_copies)).current
        m
updated-IsTruthful conn test change n own kept h m other =
    Keeps-IsTruthfulAt conn.current
      (with_copies conn (update_copies test change conn.current.volume_copies)).current m
      (
        λ e. e,
        update-has_disc test change n own kept conn.current.volume_copies m,
        update-has_active_disc test change n own kept conn.current.volume_copies m other,
      )
      (h m)

pub disc_deprecated-IsTruthful :
    (conn after : Connection) (n : ℕ) (location now later : String) (demoted : Bool)
    → deprecate_copy conn n location now later ≡ ok (after, demoted)
    → IsTruthful conn.current
    → IsTruthful after.current
unfolding deprecate_copy
disc_deprecated-IsTruthful conn after n location now later demoted e h =
    let (present, same) =
      ok-unless _ (any (is_active_at n location) conn.current.volume_copies) e in
    subst (λ (r : Connection × Bool). IsTruthful r.0.current) same
      (retire_disc-IsTruthful
        (with_copies conn (
          update_copies (is_active_at n location) (λ copy. record copy { status = copy_deprecated })
            conn.current.volume_copies))
        n location "deprecated (out of service)" "deprecated" now later
        (updated-IsTruthful conn (is_active_at n location)
          (λ copy. record copy { status = copy_deprecated }) n
          (λ copy hit. is_at-volume_id n location copy (is_active_at-is_at n location copy hit))
          (λ copy. refl) h))

pub disc_destroyed-IsTruthful :
    (conn after : Connection) (n : ℕ) (location : String) (lost : Bool) (now later : String)
    (demoted : Bool)
    → destroy_copy conn n location lost now later ≡ ok (after, demoted)
    → IsTruthful conn.current
    → IsTruthful after.current
unfolding destroy_copy
disc_destroyed-IsTruthful conn after n location lost now later demoted e h =
    let (present, same) = ok-unless _ (any (is_at n location) conn.current.volume_copies) e in
    subst (λ (r : Connection × Bool). IsTruthful r.0.current) same
      (retire_disc-IsTruthful
        (with_copies conn (
          update_copies (is_at n location) (λ copy. record copy { status = copy_destroyed })
            conn.current.volume_copies))
        n location (if lost then "lost (whereabouts unknown)" else "destroyed")
        (if lost then "lost" else "destroyed") now later
        (updated-IsTruthful conn (is_at n location)
          (λ copy. record copy { status = copy_destroyed }) n (is_at-volume_id n location)
          (λ copy. refl) h))

demoted_row :
    (hit : Bool) (row : Option Volume)
    → can_demote (
        if hit
        then Option.map {A = Volume} (λ volume. record volume { status = deprecated }) row
        else row)
      ≡ true
    → can_demote row ≡ true
demoted_row false row can = can
demoted_row true none can = cc
demoted_row true (some volume) can = cc

retire_disc-can_demote :
    (conn : Connection) (n : ℕ) (location fate action now later : String) (m : ℕ)
    → can_demote ((retire_disc conn n location fate action now later).0.current.volumes m) ≡ true
    → can_demote (conn.current.volumes m) ≡ true
unfolding retire_disc record_disc_fate add_event
retire_disc-can_demote conn n location fate action now later m =
    by_demote
      (λ c. can_demote (c.current.volumes m) ≡ true → can_demote (conn.current.volumes m) ≡ true)
      (record_disc_fate conn n location fate now) n location action later (λ _ can. can)
      (λ _ can. can) (demoted_row (m == n) (conn.current.volumes m))

pub disc_deprecated-can_demote :
    (conn after : Connection) (n : ℕ) (location now later : String) (demoted : Bool)
    → deprecate_copy conn n location now later ≡ ok (after, demoted)
    → (m : ℕ) → can_demote (after.current.volumes m) ≡ true
    → can_demote (conn.current.volumes m) ≡ true
unfolding deprecate_copy
disc_deprecated-can_demote conn after n location now later demoted e m can =
    let (present, same) =
      ok-unless _ (any (is_active_at n location) conn.current.volume_copies) e in
    retire_disc-can_demote _ n location _ _ now later m
      (subst (λ (r : Connection × Bool). can_demote (r.0.current.volumes m) ≡ true) (sym same) can)

pub disc_destroyed-can_demote :
    (conn after : Connection) (n : ℕ) (location : String) (lost : Bool) (now later : String)
    (demoted : Bool)
    → destroy_copy conn n location lost now later ≡ ok (after, demoted)
    → (m : ℕ) → can_demote (after.current.volumes m) ≡ true
    → can_demote (conn.current.volumes m) ≡ true
unfolding destroy_copy
disc_destroyed-can_demote conn after n location lost now later demoted e m can =
    let (present, same) = ok-unless _ (any (is_at n location) conn.current.volume_copies) e in
    retire_disc-can_demote _ n location _ _ now later m
      (subst (λ (r : Connection × Bool). can_demote (r.0.current.volumes m) ≡ true) (sym same) can)
