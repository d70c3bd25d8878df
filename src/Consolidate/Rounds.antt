-- ===== src/Consolidate/Rounds.antt =====
-- The loops of src/lcsas/consolidate/merger.py: what each round changes in the rows, on disk and in
-- the transaction.
use Prim.Native.String.{String}
use mathlib.Core.Path.{subst}
use mathlib.Core.Option
use lcsas.Prelude.{
  ℕ, ◌+◌, ◌≡◌, refl, sym, ap, ◌∙◌, Bool, true, false, Option, none, some, List, [], ◌∷◌, All, ◌==◌,
  ==_iff, Bool-cases, inl, inr,
}
use lcsas.Prelude.Result.{ok, err, Result-cases}
use lcsas.Catalog.{
  Catalog, CatalogError, volume_not_found, invalid_transition, would_be_unreplicated,
  no_disc_in_service, no_disc_recorded, disc_not_recorded, Connection, Volume, VolumeStatus,
  deprecated, status_eqb, write,
}
use lcsas.Catalog.Events.{add_event}
use lcsas.Catalog.Volumes.{with_status, update_volume, release, write_status, update_status}
use lcsas.Catalog.Accepted.{update_status-inv, write_status-current}
use lcsas.Catalog.Guard.{with_status-status}
use lcsas.Consolidate.{left_by, update_each}

-- The status of a volume, if there is the volume.
abbrev pub status_at : Catalog → ℕ → Option VolumeStatus
status_at catalog n = Option.map (λ volume. volume.status) (catalog.volumes n)

-- Where a commit would follow the savepoint, a transaction is open.
abbrev pub IsHeld : VolumeStatus → Connection → Type 0
IsHeld status conn = status_eqb status deprecated ≡ true → conn.in_transaction ≡ true

release-committed :
    (guarded was_open : Bool) (conn : Connection)
    → (guarded ≡ true → was_open ≡ true)
    → (release guarded was_open conn).committed ≡ conn.committed
unfolding release
release-committed true false conn h = cc (h refl)
release-committed true true conn h = refl
release-committed false was_open conn h = refl

-- One accepted change: the transaction stays open, and the status is written.
write_status-committed :
    (conn : Connection) (n : ℕ) (current status : VolumeStatus) (now later : String)
    → IsHeld status conn
    → (write_status conn n current status now later (status_eqb status deprecated) false).committed
      ≡ conn.committed
unfolding write_status add_event
write_status-committed conn n current status now later held =
    release-committed (status_eqb status deprecated) conn.in_transaction
      (write conn (update_volume conn.current n (with_status status now))) held

write_status-in_transaction :
    (conn : Connection) (n : ℕ) (current status : VolumeStatus) (now later : String)
    (guarded : Bool)
    → (write_status conn n current status now later guarded false).in_transaction ≡ true
unfolding write_status add_event
write_status-in_transaction conn n current status now later guarded = refl

pub row_status :
    (row : Option Volume) (status : VolumeStatus) (now : String) (before : VolumeStatus)
    → Option.map (λ volume. volume.status) row ≡ some before
    → Option.map (λ volume. volume.status) (Option.map (with_status status now) row) ≡ some status
row_status none status now before h = cc
row_status (some volume) status now before h = ap some (with_status-status status now volume)

unguarded-status_at :
    (conn : Connection) (n : ℕ) (volume : Volume) (current status : VolumeStatus)
    (now later : String)
    → conn.current.volumes n ≡ some volume
    → status_at (write_status conn n current status now later false false).current n ≡ some status
unfolding write_status add_event release
unguarded-status_at conn n volume current status now later found = rw ((==_iff n n).1 refl) (
    row_status (conn.current.volumes n) status now volume.status
      (ap (Option.map (λ volume. volume.status)) found))

unguarded-keeps :
    (conn : Connection) (n m : ℕ) (current status : VolumeStatus) (now later : String)
    → status_at conn.current m ≡ some status
    → status_at (write_status conn n current status now later false false).current m ≡ some status
unfolding write_status add_event release
unguarded-keeps conn n m current status now later h = elim (Bool-cases (m == n)) [
  | inl same ↦ rw same (row_status (conn.current.volumes m) status now status h)
  | inr other ↦ rw other h
]

module _ (conn after : Connection) (n : ℕ) (status : VolumeStatus) (now later : String)
    (e : update_status conn n status now later false false ≡ ok after) where
  sees_unguarded :
      (volume : Volume) × (conn.current.volumes n ≡ some volume)
      × ((write_status conn n volume.status status now later false false).current ≡ after.current)
  sees_unguarded =
      let (volume, found, allowed, safe, same) =
        update_status-inv conn after n status now later false e in
      (
        volume,
        found,
        sym (
              write_status-current conn n volume.status status now later
                (status_eqb status deprecated) false)
            ∙ ap (λ (c : Connection). c.current) same,
      )

  updated-status_at : status_at after.current n ≡ some status
  updated-status_at =
      let (volume, found, same) = sees_unguarded in
      subst (λ c. status_at c n ≡ some status) same
        (unguarded-status_at conn n volume volume.status status now later found)

  updated-keeps :
      (m : ℕ) → status_at conn.current m ≡ some status → status_at after.current m ≡ some status
  updated-keeps m h =
      let (volume, found, same) = sees_unguarded in
      subst (λ c. status_at c m ≡ some status) same
        (unguarded-keeps conn n m volume.status status now later h)

  pub updated-in_transaction : after.in_transaction ≡ true
  updated-in_transaction =
      let (volume, found, allowed, safe, same) =
        update_status-inv conn after n status now later false e in
      subst (λ (c : Connection). c.in_transaction ≡ true) same
        (write_status-in_transaction conn n volume.status status now later
          (status_eqb status deprecated))

  updated-committed : IsHeld status conn → after.committed ≡ conn.committed
  updated-committed held =
      let (volume, found, allowed, safe, same) =
        update_status-inv conn after n status now later false e in
      subst (λ (c : Connection). c.committed ≡ conn.committed) same
        (write_status-committed conn n volume.status status now later held)

-- A refusal changes no row, on disk or in the transaction, and closes no transaction.
pub left_by-rows :
    (e : CatalogError) (conn : Connection)
    → ((left_by e conn).current ≡ conn.current)
      × ((left_by e conn).committed ≡ conn.committed)
      × (conn.in_transaction ≡ true → (left_by e conn).in_transaction ≡ true)
unfolding left_by
left_by-rows volume_not_found conn = (refl, refl, λ h. h)
left_by-rows invalid_transition conn = (refl, refl, λ h. h)
left_by-rows would_be_unreplicated conn = (refl, refl, λ h. refl)
left_by-rows no_disc_in_service conn = (refl, refl, λ h. h)
left_by-rows no_disc_recorded conn = (refl, refl, λ h. h)
left_by-rows disc_not_recorded conn = (refl, refl, λ h. h)

module _ (status : VolumeStatus) (clock : ℕ → String) where
  round_ok :
      (k n : ℕ) (ids : List ℕ) (conn after : Connection)
      → update_status conn n status (clock k) (clock (k + 1)) false false ≡ ok after
      → update_each status clock k (n ∷ ids) conn ≡ update_each status clock (k + 2) ids after
  unfolding update_each
  round_ok k n ids conn after e = rw e refl

  round_err :
      (k n : ℕ) (ids : List ℕ) (conn : Connection) (error : CatalogError)
      → update_status conn n status (clock k) (clock (k + 1)) false false ≡ err error
      → update_each status clock k (n ∷ ids) conn ≡ (left_by error conn, some error)
  unfolding update_each
  round_err k n ids conn error e = rw e refl

  -- The two ways that a round goes.
  pub by_round :
      (P : Connection × Option CatalogError → Type 0) (k n : ℕ) (ids : List ℕ) (conn : Connection)
      → ((after : Connection)
          → update_status conn n status (clock k) (clock (k + 1)) false false ≡ ok after
          → P (update_each status clock (k + 2) ids after))
      → ((e : CatalogError) → P (left_by e conn, some e))
      → P (update_each status clock k (n ∷ ids) conn)
  by_round P k n ids conn on on_error =
      elim (Result-cases (update_status conn n status (clock k) (clock (k + 1)) false false)) [
        | inl (after, e) ↦ subst P (sym (round_ok k n ids conn after e)) (on after e)
        | inr (error, e) ↦ subst P (sym (round_err k n ids conn error e)) (on_error error)
      ]

  -- A property of connections that each accepted change keeps is kept by the loop.
  pub each_keeps :
      (P : Connection → Type 0)
      → ((conn after : Connection) (n : ℕ) (now later : String)
          → update_status conn n status now later false false ≡ ok after
          → P conn
          → P after)
      → ((conn : Connection) (error : CatalogError) → P conn → P (left_by error conn))
      → (k : ℕ) (ids : List ℕ) (conn : Connection) → P conn
      → P (update_each status clock k ids conn).0
  unfolding update_each
  each_keeps P step stop k [] conn h = h
  each_keeps P step stop k (n ∷ ids) conn h =
      by_round (λ r. P r.0) k n ids conn
        (λ after e. each_keeps P step stop (k + 2) ids after (step conn after n _ _ e h))
        (λ error. stop conn error h)

  pub each-committed :
      (k : ℕ) (ids : List ℕ) (conn : Connection)
      → IsHeld status conn
      → (update_each status clock k ids conn).0.committed ≡ conn.committed
  each-committed k ids conn held =
      (each_keeps (λ c. IsHeld status c × (c.committed ≡ conn.committed))
        (λ before after n now later e h. (
          λ guarded. updated-in_transaction before after n status now later e,
          updated-committed before after n status now later e h.0 ∙ h.1,
        ))
        (λ before error h. (
          λ guarded. (left_by-rows error before).2 (h.0 guarded),
          (left_by-rows error before).1 ∙ h.1,
        ))
        k ids conn (held, refl)).1

  each-keeps :
      (m k : ℕ) (ids : List ℕ) (conn : Connection)
      → status_at conn.current m ≡ some status
      → status_at (update_each status clock k ids conn).0.current m ≡ some status
  each-keeps m =
      each_keeps (λ c. status_at c.current m ≡ some status)
        (λ before after n now later e. updated-keeps before after n status now later e m)
        (λ before error h.
          subst (λ c. status_at c m ≡ some status) (sym (left_by-rows error before).0) h)

  pub each-status_at :
      (k : ℕ) (ids : List ℕ) (conn : Connection)
      → (update_each status clock k ids conn).1 ≡ none
      → All (λ n. status_at (update_each status clock k ids conn).0.current n ≡ some status) ids
  each-status_at k [] conn = λ done. tt
  each-status_at k (n ∷ ids) conn =
      by_round (λ r. r.1 ≡ none → All (λ n. status_at r.0.current n ≡ some status) (n ∷ ids)) k n
        ids conn
        (λ after e done. (
          each-keeps n (k + 2) ids after (updated-status_at conn after n status _ _ e),
          each-status_at (k + 2) ids after done,
        ))
        (λ e done. cc)
