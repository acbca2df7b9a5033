-- ===== src/Metadata.antt =====
-- The zone metadata: `struct lbz_zone_metadata` of src/include/lbz-zone-metadata.h, and the functions of
-- src/lbz-zone-metadata.c on its lists, counters and watermarks. Each is one step under `zmd_lock`.
-- Zones are named by their numbers, which index `zones`.
pub mod Alloc
pub mod AllocKeeps
pub mod AllocLaws
pub mod Victim
pub mod Release
pub mod ReleaseLaws
pub mod VictimLaws
pub mod Watermarks
pub mod ReverseMap
pub mod Worker
pub mod WorkerLaws
pub mod Init
pub mod Places
pub mod Invariant
pub mod Tests
pub mod Witnesses
use lbz.Prelude.{
  ℕ, ◌+◌, ◌*◌, ◌/◌, ◌%◌, List, [], ◌∷◌, ◌++◌, Option, none, some, Bool, true, false, get_elem?, set,
  update, ltb, leb, ◌==◌, if◌then◌else◌,
}
use lbz.Prelude.Words.{inc32, dec32, sub32, mul32}
use lbz.Block.{sector_to_blkid, blkid_to_sector}
use lbz.Zone.{Zone, ZoneState, write_bit}

-- `active_zone_list` and the fields that the source marks as not in use are left out; so are the work
-- queue and the timer.
pub record ZoneMetadata : Type 0 where
  pub zones : ℕ → Zone
  pub empty_zone_list : List ℕ
  pub full_zone_list : List ℕ
  pub active_zone : ℕ → Option ℕ
  pub active_zone_writes : ℕ → ℕ
  pub empty_zone_count : ℕ
  pub full_zone_count : ℕ
  pub active_zone_count : ℕ
  pub zs_close_times : ℕ
  pub zs_reset_times : ℕ
  pub nr_total_blks : ℕ
  pub nr_allocable_blks : ℕ
  pub nr_valid_blks : ℕ
  pub reserved_blks_gc : ℕ
  pub reclaim_wm_gc_low : ℕ
  pub reclaim_wm_gc_high : ℕ
  pub zone_reclaim_wm : ℕ
  pub zone_size_sectors : ℕ
  pub zone_size_blks : ℕ
  pub nr_zones : ℕ
  pub nr_useable_zones : ℕ
  pub zone_nr_blocks : ℕ
  pub zone_nr_blocks_shift : ℕ
  pub zone_nr_sectors : ℕ
  pub zone_nr_sectors_shift : ℕ
  pub zone_bitmap_size : ℕ
  pub zone_nr_bitmap_blocks : ℕ
  pub zone_reverse_map_size : ℕ
  pub zone_nr_reverse_map_blocks : ℕ

-- LBZ_ZONE_MAX_STREAM
abbrev pub max_stream : ℕ
max_stream = 2

-- LBZ_REVERSE_MAP_ENTRIES
abbrev pub reverse_map_entries : ℕ
reverse_map_entries = 1024

-- A change to one zone, in place.
abbrev pub modify_zone : ZoneMetadata → ℕ → (Zone → Zone) → ZoneMetadata
modify_zone zmd i f = record zmd { zones = update zmd.zones i (f (zmd.zones i)) }

unfoldable pub check_zone_low_wm : ZoneMetadata → Zone → Bool
check_zone_low_wm zmd zone = leb zone.weight (mul32 zmd.zone_nr_blocks zmd.zone_reclaim_wm / 100)

-- The difference is unsigned.
unfoldable pub check_need_reclaim_low : ZoneMetadata → Bool
check_need_reclaim_low zmd =
    ltb (sub32 zmd.nr_allocable_blks zmd.reserved_blks_gc)
      (mul32 zmd.nr_total_blks zmd.reclaim_wm_gc_low / 100)

unfoldable pub check_need_reclaim_high : ZoneMetadata → Bool
check_need_reclaim_high zmd =
    ltb (sub32 zmd.nr_allocable_blks zmd.reserved_blks_gc)
      (mul32 zmd.nr_total_blks zmd.reclaim_wm_gc_high / 100)

-- `lbz_zone_release_global_res`
unfoldable pub release_global_res : ZoneMetadata → ℕ → ZoneMetadata
release_global_res zmd i = record (modify_zone zmd i (λ z. record z { weight = dec32 z.weight })) {
  nr_valid_blks = dec32 zmd.nr_valid_blks;
}

-- `zone_no` is the kernel's `blk_queue_zone_no` on the physical device's queue.
unfoldable pub get_zone_by_pbid : (ℕ → ℕ) → ℕ → ℕ
get_zone_by_pbid zone_no pbid = zone_no (blkid_to_sector pbid)

-- `zrms[index]->blks[offset] = blkid`; out of the array nothing is written.
unfoldable pub store_reverse : List (List ℕ) → ℕ → ℕ → List (List ℕ)
store_reverse zrms dis blkid =
    let index = dis / reverse_map_entries in
    elim (get_elem? zrms index) [
      | none ↦ zrms
      | some page ↦ set zrms index (set page (dis % reverse_map_entries) blkid)
    ]

-- `lbz_zone_update_reverse_map`
unfoldable pub update_reverse_map : ZoneMetadata → ℕ → ℕ → ℕ → ZoneMetadata
update_reverse_map zmd i pbid blkid = modify_zone zmd i (λ z. record z {
  zrms = store_reverse z.zrms (sub32 pbid (sector_to_blkid z.start_sector)) blkid;
})

-- `list_del_init`: the zone leaves the list that it is in.
unfoldable pub list_del : ℕ → List ℕ → List ℕ
list_del i [] = []
list_del i (j ∷ js) = if j == i then js else j ∷ list_del i js

-- `lbz_zone_add_to_list` at LBZ_ZONE_FULL, and at LBZ_ZONE_EMPTY or LBZ_ZONE_INIT. It is called with no
-- other state.
unfoldable pub add_to_full_list : ZoneMetadata → ℕ → ZoneMetadata
add_to_full_list zmd i = record zmd {
  full_zone_list = i ∷ zmd.full_zone_list;
  full_zone_count = inc32 zmd.full_zone_count;
}

unfoldable pub add_to_empty_list : ZoneMetadata → ℕ → ZoneMetadata
add_to_empty_list zmd i = record zmd {
  empty_zone_list = zmd.empty_zone_list ++ (i ∷ []);
  empty_zone_count = inc32 zmd.empty_zone_count;
}

-- `__get_free_zone`: the head of the list of empty zones.
unfoldable pub get_free_zone : ZoneMetadata → Option ℕ × ZoneMetadata
get_free_zone zmd = elim zmd.empty_zone_list [
  | [] ↦ (none, zmd)
  | i ∷ rest ↦
      (some i, record zmd { empty_zone_list = rest; empty_zone_count = dec32 zmd.empty_zone_count })
]
