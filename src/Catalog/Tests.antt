-- ===== src/Catalog/Tests.antt =====
-- A catalog of two volumes that share a pack, and the loss of their discs.
use lcsas.Prelude.{◌≡◌, refl, true, false, arith, ◌↔◌, All}
use lcsas.Prelude.Result.{ok, err}
use lcsas.Prelude.Text.{str_leb}
use lcsas.Catalog.{
  Connection, verified, deprecated, destroyed, copy_destroyed, would_be_unreplicated,
}
use lcsas.Catalog.Events.{add_event}
use lcsas.Catalog.Replicas.{
  is_live_replica, is_durable, has_other_replica, at_risk_of_link, at_risk_of_links, insert_pack,
  order_packs, get_at_risk_packs_for_volume, check_deprecation_safe,
}
use lcsas.Catalog.Volumes.{
  is_allowed, valid_transitions, release, write_status, update_status_from, update_status,
}
use lcsas.Catalog.Copies.{
  is_at, update_copies, with_copies, is_retired, demote_volume_if_last_copy_lost, record_disc_fate,
  retire_disc, destroy_copy,
}
use lcsas.Catalog.Samples.{volume_of, pack, opened}
use lcsas.Catalog.Guard.{has_replica, deprecation-has_replica}
use lcsas.Catalog.Refusals.{IsCovered, deprecation-IsCovered_iff}
use lcsas.Catalog.Steps.{start, next, disc_destroyed, status_updated, IsTruthful}
use lcsas.Catalog.Steps.Laws.{Steps-IsTruthful, Steps-is_retired, live_replica-status}

-- Deprecating the first volume, and the loss of its disc.
abbrev deprecated_conn : Connection
deprecated_conn = write_status opened 1 verified deprecated "t1" "t2" true true

deprecate : update_status opened 1 deprecated "t1" "t2" true false ≡ ok deprecated_conn
unfolding update_status update_status_from is_allowed valid_transitions check_deprecation_safe
    get_at_risk_packs_for_volume at_risk_of_links at_risk_of_link has_other_replica is_live_replica
    order_packs insert_pack
deprecate = refl

deprecation-has_replica_example : has_replica deprecated_conn.current 0 ≡ true
unfolding has_replica is_live_replica
deprecation-has_replica_example =
    deprecation-has_replica opened deprecated_conn 1 "t1" "t2" true 0 deprecate (pack, refl, refl)
      refl

-- The second volume may not be deprecated after it.
last_replica :
    update_status deprecated_conn 2 deprecated "t3" "t4" true false ≡ err would_be_unreplicated
unfolding update_status update_status_from is_allowed valid_transitions check_deprecation_safe
    get_at_risk_packs_for_volume at_risk_of_links at_risk_of_link has_other_replica is_live_replica
    order_packs insert_pack write_status release add_event
last_replica = refl

opened-IsTruthful : IsTruthful opened.current
opened-IsTruthful n can has = ground arith

abbrev lost_conn : Connection
lost_conn =
    (retire_disc
      (with_copies opened (
        update_copies (is_at 1 "Home_Shelf") (λ copy. record copy { status = copy_destroyed })
          opened.current.volume_copies))
      1 "Home_Shelf" "lost (whereabouts unknown)" "lost" "t1" "t2").0

lose : destroy_copy opened 1 "Home_Shelf" true "t1" "t2" ≡ ok (lost_conn, true)
unfolding destroy_copy retire_disc record_disc_fate demote_volume_if_last_copy_lost add_event
    str_leb
lose = refl

Steps-IsTruthful_example : IsTruthful lost_conn.current
Steps-IsTruthful_example =
    Steps-IsTruthful opened lost_conn
      (next start (disc_destroyed 1 "Home_Shelf" true "t1" "t2" true lose)) opened-IsTruthful

live_replica-status_example :
    is_live_replica lost_conn.current 1 ≡ is_durable (lost_conn.current.volumes 1)
live_replica-status_example =
    live_replica-status opened lost_conn 1
      (next start (disc_destroyed 1 "Home_Shelf" true "t1" "t2" true lose)) opened-IsTruthful

abbrev gone_conn : Connection
gone_conn = write_status lost_conn 1 deprecated destroyed "t3" "t4" false true

destroy : update_status lost_conn 1 destroyed "t3" "t4" true false ≡ ok gone_conn
unfolding update_status update_status_from is_allowed valid_transitions retire_disc record_disc_fate
    demote_volume_if_last_copy_lost add_event str_leb
destroy = refl

Steps-is_retired_example : is_retired destroyed ≡ true
unfolding retire_disc record_disc_fate demote_volume_if_last_copy_lost write_status release
    add_event str_leb
Steps-is_retired_example =
    Steps-is_retired lost_conn gone_conn 1 (volume_of "V1" deprecated) (volume_of "V1" destroyed)
      (next start (status_updated 1 destroyed "t3" "t4" true destroy)) refl refl refl

deprecation-IsCovered_iff_example :
    ((after : Connection) × (update_status opened 1 deprecated "t1" "t2" true false ≡ ok after))
    ↔ All (IsCovered opened.current 1) opened.current.volume_packs
unfolding is_allowed valid_transitions
deprecation-IsCovered_iff_example =
    deprecation-IsCovered_iff opened 1 (volume_of "V1" verified) "t1" "t2" true refl refl
