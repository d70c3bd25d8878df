-- ===== src/Catalog/Steps/Laws.antt =====
-- What holds after any sequence of operations on the volumes and discs.
use mathlib.Core.Path.{subst}
use lcsas.Prelude.{
  ℕ, ◌≡◌, refl, sym, ap, inl, inr, Bool, true, false, not, ◌&&◌, ◌||◌, Option, none, some, arith,
  Bool-cases,
}
use lcsas.Catalog.{Connection, Volume}
use lcsas.Catalog.Replicas.{is_live_replica, is_durable}
use lcsas.Catalog.Copies.{touch_last_verified, is_retired, can_demote}
use lcsas.Catalog.Steps.{
  Step, status_updated, disc_added, disc_verified, disc_deprecated, disc_destroyed, Steps, start,
  next, IsTruthful, Keeps-IsTruthfulAt,
}
use lcsas.Catalog.Steps.Status.{status_updated-Keeps}
use lcsas.Catalog.Steps.Lost.{
  disc_deprecated-IsTruthful, disc_destroyed-IsTruthful, disc_deprecated-can_demote,
  disc_destroyed-can_demote,
}
use lcsas.Catalog.Steps.Added.{disc_added-IsTruthful, disc_verified-Keeps, disc_added-volumes}

Step-IsTruthful :
    {conn after : Connection} → Step conn after → IsTruthful conn.current → IsTruthful after.current
Step-IsTruthful (status_updated {conn} {after} n status now later committing e) h = λ m.
    Keeps-IsTruthfulAt conn.current after.current m
      (status_updated-Keeps conn after n status now later committing e m) (h m)
Step-IsTruthful (disc_added {conn} {after} disc committing e) h =
    disc_added-IsTruthful conn after disc committing e h
Step-IsTruthful (disc_verified {conn} n location now committing) h = λ m.
    Keeps-IsTruthfulAt conn.current (touch_last_verified conn n location now committing).0.current m
      (disc_verified-Keeps conn n location now committing m) (h m)
Step-IsTruthful (disc_deprecated {conn} {after} n location now later demoted e) h =
    disc_deprecated-IsTruthful conn after n location now later demoted e h
Step-IsTruthful (disc_destroyed {conn} {after} n location lost now later demoted e) h =
    disc_destroyed-IsTruthful conn after n location lost now later demoted e h

-- Through any sequence of accepted operations (status changes that are not forced, and discs added,
-- verified, deprecated, destroyed or lost): if before them each volume that is neither DEPRECATED
-- nor DESTROYED and has discs has one in service, it is so after them.
pub Steps-IsTruthful :
    (conn after : Connection)
    → Steps conn after
    → IsTruthful conn.current
    → IsTruthful after.current
Steps-IsTruthful conn after start h = h
Steps-IsTruthful conn after (next {middle = middle} steps step) h =
    Step-IsTruthful step (Steps-IsTruthful conn middle steps h)

-- What a step does to the volume rows: none that is DEPRECATED or DESTROYED comes back.
Step-can_demote :
    {conn after : Connection}
    → Step conn after
    → (n : ℕ) → can_demote (after.current.volumes n) ≡ true
    → can_demote (conn.current.volumes n) ≡ true
Step-can_demote (status_updated {conn} {after} n status now later committing e) =
    λ m. (status_updated-Keeps conn after n status now later committing e m).0
Step-can_demote (disc_added {conn} {after} disc committing e) = λ m can.
    subst (λ (f : ℕ → Option Volume). can_demote (f m) ≡ true)
      (disc_added-volumes conn after disc committing e) can
Step-can_demote (disc_verified {conn} n location now committing) =
    λ m. (disc_verified-Keeps conn n location now committing m).0
Step-can_demote (disc_deprecated {conn} {after} n location now later demoted e) =
    λ m. disc_deprecated-can_demote conn after n location now later demoted e m
Step-can_demote (disc_destroyed {conn} {after} n location lost now later demoted e) =
    λ m. disc_destroyed-can_demote conn after n location lost now later demoted e m

Steps-can_demote :
    (conn after : Connection)
    → Steps conn after
    → (n : ℕ) → can_demote (after.current.volumes n) ≡ true
    → can_demote (conn.current.volumes n) ≡ true
Steps-can_demote conn after start n can = can
Steps-can_demote conn after (next {middle = middle} steps step) n can =
    Steps-can_demote conn middle steps n (Step-can_demote step n can)

not-false : (b : Bool) → not b ≡ false → b ≡ true
not-false true e = refl
not-false false e = cc

-- Through any sequence of accepted operations (status changes that are not forced, and discs added,
-- verified, deprecated, destroyed or lost), a volume that is DEPRECATED or DESTROYED before them is
-- one or the other after them.
pub Steps-is_retired :
    (conn after : Connection) (n : ℕ) (volume late : Volume)
    → Steps conn after
    → conn.current.volumes n ≡ some volume
    → after.current.volumes n ≡ some late
    → is_retired volume.status ≡ true
    → is_retired late.status ≡ true
Steps-is_retired conn after n volume late steps found found_late retired =
    elim (Bool-cases (is_retired late.status)) [
      | inl still ↦ still
      | inr back ↦
          let can : can_demote (after.current.volumes n) ≡ true =
            subst (λ row. can_demote row ≡ true) (sym found_late) (ap not back) in
          let could = Steps-can_demote conn after steps n can in
          let could_not : can_demote (conn.current.volumes n) ≡ false =
            subst (λ row. can_demote row ≡ false) (sym found) (ap not retired) in
          absurd (clash _ could could_not)
    ]
  where
    clash : (b : Bool) → b ≡ true → b ≡ false → ⊥
    clash b h k = cc

durable_row : (row : Option Volume) → is_durable row ≡ true → can_demote row ≡ true
durable_row none h = cc
durable_row (some volume) h = ground arith

settled :
    (durable active has : Bool)
    → (durable ≡ true → has ≡ true → active ≡ true)
    → (durable && (active || not has)) ≡ durable
settled false active has h = refl
settled true true has h = refl
settled true false false h = refl
settled true false true h = h refl refl

-- After any sequence of accepted operations (status changes that are not forced, and discs added,
-- verified, deprecated, destroyed or lost) from a catalog where each volume that is neither
-- DEPRECATED nor DESTROYED and has discs has one in service, a volume counts as a live replica
-- exactly if its status is BURNED or VERIFIED.
pub live_replica-status :
    (conn after : Connection) (n : ℕ)
    → Steps conn after
    → IsTruthful conn.current
    → is_live_replica after.current n ≡ is_durable (after.current.volumes n)
unfolding is_live_replica
live_replica-status conn after n steps truthful =
    settled (is_durable (after.current.volumes n)) _ _ (λ durable.
      Steps-IsTruthful conn after steps truthful n (durable_row (after.current.volumes n) durable))
