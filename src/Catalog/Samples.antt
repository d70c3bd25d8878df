-- ===== src/Catalog/Samples.antt =====
-- A catalog of two volumes that hold the same pack, each with one disc.
use Prim.Native.String.{String}
use lcsas.Prelude.{ℕ, zero, suc, false, Option, none, some, [], ◌∷◌}
use lcsas.Catalog.{
  Catalog, Connection, Volume, VolumeStatus, verified, Pack, VolumeCopy, copy_active,
}

abbrev pub volume_of : String → VolumeStatus → Volume
volume_of label status = record {
  label = label;
  uuid = label;
  media_type = "MDISC100";
  capacity_bytes = 100;
  used_bytes = 40;
  location = "Home_Shelf";
  status = status;
  created_at = "2026-01-01";
  closed_at = none;
  verified_at = none;
}

abbrev volumes : ℕ → Option Volume
volumes zero = none
volumes (suc zero) = some (volume_of "V1" verified)
volumes (suc (suc zero)) = some (volume_of "V2" verified)
volumes (suc (suc (suc n))) = none

abbrev pub pack : Pack
pack = record {
  sha256 = "ab";
  size_bytes = 40;
  repo_id = "r";
  is_pruned = false;
  created_at = "2026-01-01";
}

-- The row with the key 0.
abbrev packs : ℕ → Option Pack
packs zero = some pack
packs (suc n) = none

abbrev disc_at : ℕ → VolumeCopy
disc_at n = record {
  volume_id = n;
  location = "Home_Shelf";
  status = copy_active;
  burn_date = "2026-01-02";
  notes = "";
  iso_sha256 = none;
  last_verified_at = none;
  media_serial = "";
  iso_size_bytes = none;
}

abbrev shelf : Catalog
shelf = record {
  volumes = volumes;
  packs = packs;
  volume_packs = record { volume_id = 1; pack_id = 0 } ∷ record { volume_id = 2; pack_id = 0 } ∷ [];
  volume_copies = disc_at 1 ∷ disc_at 2 ∷ [];
  volume_events = [];
}

abbrev pub opened : Connection
opened = record { committed = shelf; current = shelf; in_transaction = false }
