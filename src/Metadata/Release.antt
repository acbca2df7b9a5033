-- ===== src/Metadata/Release.antt =====
-- The step that `lbz_write_io_endio` and `lbz_nat_sit_tx_complete` share: the physical block that a map
-- entry held before is given up.
use lbz.Prelude.{ℕ}
use lbz.Metadata.{ZoneMetadata, get_zone_by_pbid, update_reverse_map, release_global_res}
use lbz.Mapping.{invalid_pbid}

unfoldable pub release_in_zone : ZoneMetadata → ℕ → ℕ → ZoneMetadata
release_in_zone zmd i pbid = release_global_res (update_reverse_map zmd i pbid invalid_pbid) i

unfoldable pub release_block : (ℕ → ℕ) → ZoneMetadata → ℕ → ZoneMetadata
release_block zone_no zmd old_pbid =
    release_in_zone zmd (get_zone_by_pbid zone_no old_pbid) old_pbid
