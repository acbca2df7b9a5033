-- ===== src/Metadata/Tests.antt =====
-- Concrete metadata: a device of four zones of eight blocks. Zone 0 is active for stream 0, zone 1 is
-- empty, zone 2 full and listed, zone 3 under collection.
use lbz.Prelude.{ℕ, refl, [], ◌∷◌, none, some, true, ◌==◌, replicate, if◌then◌else◌, arith}
use lbz.Zone.{Zone, ZoneCond, Flags, no_flags}
use lbz.Metadata.{ZoneMetadata, reverse_map_entries}
use lbz.Metadata.Invariant.{Inv}
use lbz.Metadata.Places.{space}

abbrev pub zone_at : ℕ → ZoneCond → Flags → ℕ → Zone
zone_at id state flags wp = record {
  state = state;
  flags = flags;
  refcount = 0;
  stream = none;
  id = id;
  wp_block = wp;
  start_sector = 0;
  len_sectors = 64;
  capacity_sectors = 64;
  cond = ZoneCond.empty;
  weight = 0;
  pending_write_io = 0;
  zrms = replicate reverse_map_entries 5 ∷ [];
}

abbrev pub four_zones : ℕ → Zone
four_zones i =
    if i == 0
    then zone_at 0 ZoneCond.exp_open (record no_flags { active = true }) 3
    else if i == 1
    then zone_at 1 ZoneCond.empty (record no_flags { init = true }) 0
    else if i == 2
    then zone_at 2 ZoneCond.full (record no_flags { full = true }) 8
    else zone_at 3 ZoneCond.empty (record no_flags { gc = true }) 8

abbrev pub device : ZoneMetadata
device = record {
  zones = four_zones;
  empty_zone_list = 1 ∷ [];
  full_zone_list = 2 ∷ [];
  active_zone = λ s. if s == 0 then some 0 else none;
  active_zone_writes = λ _. 0;
  empty_zone_count = 1;
  full_zone_count = 1;
  active_zone_count = 1;
  zs_close_times = 0;
  zs_reset_times = 0;
  nr_total_blks = 32;
  nr_allocable_blks = 13;
  nr_valid_blks = 3;
  reserved_blks_gc = 8;
  reclaim_wm_gc_low = 2;
  reclaim_wm_gc_high = 4;
  zone_reclaim_wm = 1;
  zone_size_sectors = 64;
  zone_size_blks = 8;
  nr_zones = 4;
  nr_useable_zones = 4;
  zone_nr_blocks = 8;
  zone_nr_blocks_shift = 3;
  zone_nr_sectors = 64;
  zone_nr_sectors_shift = 6;
  zone_bitmap_size = 1;
  zone_nr_bitmap_blocks = 1;
  zone_reverse_map_size = 32;
  zone_nr_reverse_map_blocks = 1;
}

pub device-Inv : Inv device
unfolding space
device-Inv = record {
  blocks_pos = omega arith;
  small = omega arith;
  zone = λ i h. record {
    once = ground arith;
    wp_le = ground arith;
    empty_wp = ground arith;
    full_wp = ground arith;
    active_wp = ground arith;
    to_full_alone = ground arith;
    to_full_wp = ground arith;
    gc_alone = ground arith;
    gc_wp = ground arith;
  };
  outside = λ i h. ground arith;
  empty_counted = refl;
  full_counted = refl;
  allocable = refl;
}
