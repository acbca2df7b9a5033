-- ===== src/Metadata/ReleaseLaws.antt =====
-- Giving up a block touches weights and reverse maps only.
use lbz.Prelude.{ℕ, ◌≡◌, refl, update, dec_lt, arith}
use lbz.Prelude.Words.{dec32}
use lbz.Metadata.{ZoneMetadata, update_reverse_map, release_global_res}
use lbz.Metadata.Release.{release_in_zone, release_block}
use lbz.Metadata.Places.{space-update, space-update_of_le}
use lbz.Metadata.Invariant.{Inv}
use lbz.Zone.{Zone}

-- A change of one zone that leaves its write pointer and two of its flags keeps the invariant.
pub modify_zone-Inv :
    {zmd : ZoneMetadata} (i : ℕ) (z : Zone)
    → Inv zmd
    → z.wp_block ≡ (zmd.zones i).wp_block
    → z.flags.to_full ≡ (zmd.zones i).flags.to_full
    → z.flags.gc ≡ (zmd.zones i).flags.gc
    → Inv (record zmd { zones = update zmd.zones i z })
modify_zone-Inv {zmd} i z v wp to_full gc = record {
  blocks_pos = v.blocks_pos;
  small = v.small;
  zone = λ j k. ground (arith, v.zone j k);
  outside = v.outside;
  empty_counted = v.empty_counted;
  full_counted = v.full_counted;
  allocable = elim (dec_lt i zmd.nr_zones) [
    | yes lt ↦
        ground (arith, v.allocable, space-update zmd.zone_nr_blocks zmd.zones zmd.nr_zones i z lt)
    | no ge ↦
        ground
          (arith, v.allocable, space-update_of_le zmd.zone_nr_blocks zmd.zones zmd.nr_zones i z)
  ];
}

valid-Inv : {zmd : ZoneMetadata} (n : ℕ) → Inv zmd → Inv (record zmd { nr_valid_blks = n })
valid-Inv n v = record {
  blocks_pos = v.blocks_pos;
  small = v.small;
  zone = λ j k. ground (arith, v.zone j k);
  outside = v.outside;
  empty_counted = v.empty_counted;
  full_counted = v.full_counted;
  allocable = v.allocable;
}

pub update_reverse_map-Inv :
    {zmd : ZoneMetadata} (i pbid blkid : ℕ) → Inv zmd → Inv (update_reverse_map zmd i pbid blkid)
unfolding update_reverse_map
update_reverse_map-Inv i pbid blkid v = modify_zone-Inv i _ v refl refl refl

pub release_global_res-Inv : {zmd : ZoneMetadata} (i : ℕ) → Inv zmd → Inv (release_global_res zmd i)
unfolding release_global_res
release_global_res-Inv {zmd} i v =
    valid-Inv (dec32 zmd.nr_valid_blks) (modify_zone-Inv i _ v refl refl refl)

pub release_block-Inv :
    (zone_no : ℕ → ℕ) {zmd : ZoneMetadata} (old_pbid : ℕ)
    → Inv zmd
    → Inv (release_block zone_no zmd old_pbid)
unfolding release_block release_in_zone
release_block-Inv zone_no old_pbid v = release_global_res-Inv _ (update_reverse_map-Inv _ _ _ v)
