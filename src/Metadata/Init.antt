-- ===== src/Metadata/Init.antt =====
-- `lbz_init_zone_metadata`, `lbz_init_zone` and what they call: the metadata from the kernel's report
-- on the zones of the device. Memory is taken to suffice.
pub mod Placing
pub mod Storing
pub mod Report
pub mod Tests
use lbz.Prelude.{
  ℕ, ◌+◌, ◌-◌, ◌/◌, ◌%◌, List, [], ◌∷◌, Option, none, some, ◌>>=◌, replicate, ltb, ◌==◌, update,
  if◌then◌else◌,
}
use lbz.Prelude.Words.{word, long_word, add32, sub32, mul32, inc32}
use lbz.Block.{sector_to_blkid}
use lbz.Zone.{Zone, ZoneCond, ZoneState, no_flags, get_zone, set_zone_state}
use lbz.Metadata.{ZoneMetadata, add_to_full_list, add_to_empty_list}
use lbz.Metadata.Worker.{blank_page}

-- What the kernel reports of a zone, in sectors: `struct blk_zone`.
pub record BlkZone : Type 0 where
  pub start : ℕ
  pub len : ℕ
  pub wp : ℕ
  pub cond : ZoneCond
  pub capacity : ℕ

-- `__init_zmd_by_first_zone`; `ilog2` is the kernel's.
unfoldable pub init_by_first_zone : (ℕ → ℕ) → ZoneMetadata → BlkZone → ZoneMetadata
init_by_first_zone ilog2 zmd blkz =
    let sectors = blkz.capacity % word in
    let blocks = sector_to_blkid sectors in
    let bitmap_size = add32 blocks 7 / 8 in
    let map_size = mul32 blocks 4 in
    record zmd {
      zone_nr_sectors = sectors;
      zone_nr_sectors_shift = ilog2 sectors;
      zone_nr_blocks = blocks;
      zone_nr_blocks_shift = ilog2 blocks;
      zone_bitmap_size = bitmap_size;
      zone_nr_bitmap_blocks = add32 bitmap_size 4095 / 4096;
      zone_reverse_map_size = map_size;
      zone_nr_reverse_map_blocks = add32 map_size 4095 / 4096;
    }

-- `lbz_zone_insert`, with the fields that `lbz_init_zone` sets before it looks at the state.
unfoldable pub new_zone : ZoneMetadata → ℕ → BlkZone → Zone
new_zone zmd num blkz =
    let wp_block = sector_to_blkid ((blkz.wp + long_word - blkz.start) % long_word) in
    record {
      state = ZoneCond.not_wp;
      flags = no_flags;
      refcount = 0;
      stream = none;
      id = num;
      wp_block = wp_block;
      start_sector = blkz.start % word;
      len_sectors = blkz.len % word;
      capacity_sectors = blkz.capacity % word;
      cond = blkz.cond;
      weight = wp_block;
      pending_write_io = 0;
      zrms = replicate zmd.zone_nr_reverse_map_blocks blank_page;
    }

unfoldable pub is_absent : Option ℕ → ℕ → Option ℕ
is_absent none i = some i
is_absent (some _) i = none

-- The first stream with no active zone.
unfoldable pub free_stream : ZoneMetadata → Option ℕ
free_stream zmd = elim (zmd.active_zone 0) [
  | none ↦ some 0
  | some _ ↦ is_absent (zmd.active_zone 1) 1
]

-- The metadata with the zone, by its write pointer; `none` for the `BUG_ON` on a third open zone.
unfoldable pub place_zone : ZoneMetadata → ℕ → BlkZone → Zone → Option (Zone × ZoneMetadata)
place_zone zmd num blkz z =
    if z.wp_block == 0
    then some (
      set_zone_state ZoneState.init (record z { state = ZoneCond.empty }),
      add_to_empty_list
          (record zmd { nr_allocable_blks = add32 zmd.nr_allocable_blks zmd.zone_nr_blocks }) num,
    )
    else if ltb z.wp_block (sector_to_blkid blkz.capacity)
    then (do
      i ← free_stream zmd
      some (
        record (set_zone_state ZoneState.active
            (get_zone (record z { state = ZoneCond.imp_open }))) { stream = some i },
        record zmd {
          active_zone = update zmd.active_zone i (some num);
          nr_allocable_blks = add32 zmd.nr_allocable_blks (sub32 zmd.zone_nr_blocks z.wp_block);
        },
      ))
    else some (
      set_zone_state ZoneState.full (record z { state = ZoneCond.full }),
      add_to_full_list zmd num,
    )

-- What the reported condition adds: the zone's flag and state, and the count of zones in use.
unfoldable pub apply_cond : ZoneCond → Zone → ZoneMetadata → Zone × ZoneMetadata
apply_cond ZoneCond.offline z zmd =
    (record (set_zone_state ZoneState.offline z) { state = ZoneCond.offline }, zmd)
apply_cond ZoneCond.read_only z zmd =
    (record (set_zone_state ZoneState.read_only z) { state = ZoneCond.read_only }, zmd)
apply_cond _ z zmd = (z, record zmd { nr_useable_zones = inc32 zmd.nr_useable_zones })

-- `lbz_init_zone`
unfoldable pub init_zone : (ℕ → ℕ) → ℕ → BlkZone → ZoneMetadata → Option ZoneMetadata
init_zone ilog2 num blkz zmd = do
  let sized = if num == 0 then init_by_first_zone ilog2 zmd blkz else zmd
  (z, placed) ← place_zone sized num blkz (new_zone sized num blkz)
  let valid = record placed { nr_valid_blks = add32 placed.nr_valid_blks z.wp_block }
  let done = apply_cond blkz.cond z valid
  some (record (done.1) {
    nr_total_blks = add32 done.1.nr_total_blks done.1.zone_nr_blocks;
    zones = update done.1.zones num done.0;
  })

-- `blkdev_report_zones` calls it on each zone of the report in turn.
unfoldable pub init_zones : (ℕ → ℕ) → ℕ → List BlkZone → ZoneMetadata → Option ZoneMetadata
init_zones ilog2 num [] zmd = some zmd
init_zones ilog2 num (b ∷ bs) zmd = do
  zmd' ← init_zone ilog2 num b zmd
  init_zones ilog2 (num + 1) bs zmd'

-- The fields that `lbz_init_zone_metadata` sets once the zones are there.
unfoldable pub set_watermarks : ZoneMetadata → ZoneMetadata
set_watermarks zmd = record zmd {
  reserved_blks_gc = zmd.zone_nr_blocks;
  reclaim_wm_gc_low = 2;
  reclaim_wm_gc_high = 4;
  zone_reclaim_wm = 1;
  zs_close_times = 0;
  zs_reset_times = 0;
}

-- The metadata before the zones; `blank` is memory set to zero.
unfoldable pub empty_metadata : ZoneMetadata → ℕ → ℕ → ZoneMetadata
empty_metadata blank nr_zones zone_sectors = record blank {
  empty_zone_list = [];
  full_zone_list = [];
  active_zone = λ _. none;
  active_zone_writes = λ _. 0;
  empty_zone_count = 0;
  full_zone_count = 0;
  active_zone_count = 0;
  nr_zones = nr_zones;
  zone_size_sectors = zone_sectors;
  zone_size_blks = sector_to_blkid zone_sectors;
  nr_total_blks = 0;
  nr_allocable_blks = 0;
  nr_valid_blks = 0;
}

-- `nr_zones` and `zone_sectors` are what the queue of the device says, `report` its zones; `none` for no
-- zone at all, and for the `BUG_ON`.
unfoldable pub init_zone_metadata :
    (ℕ → ℕ) → ZoneMetadata → ℕ → ℕ → List BlkZone → Option ZoneMetadata
init_zone_metadata ilog2 blank nr_zones zone_sectors report = if nr_zones == 0 then none else (do
  zmd ← init_zones ilog2 0 report (empty_metadata blank nr_zones zone_sectors)
  some (set_watermarks zmd))
