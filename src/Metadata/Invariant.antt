-- ===== src/Metadata/Invariant.antt =====
-- The invariant of the zone metadata: every zone is in one place at most, what its place says of its
-- write pointer is true, and the blocks left to allocate are those past the write pointers.
use native.Mathlib.Nat.{mul-le-mul_right}
use lbz.Prelude.{arith, ℕ, ◌+◌, ◌*◌, ◌%◌, ◌^◌, ◌≤◌, ◌<◌, ◌≡◌, true, length}
use lbz.Prelude.Words.{word}
use lbz.Metadata.{ZoneMetadata}
use lbz.Metadata.Places.{count, held, space}

-- How often zone `i` stands in the list of empty zones, in that of full ones, or as an active zone.
abbrev pub places : ZoneMetadata → ℕ → ℕ
places zmd i =
    count i zmd.empty_zone_list
    + count i zmd.full_zone_list
    + held (zmd.active_zone 0) i
    + held (zmd.active_zone 1) i

-- A zone of the device. One with LBZ_ZONE_TO_FULL or LBZ_ZONE_GC is in no place, and written to its end.
pub record Placed (zmd : ZoneMetadata) (i : ℕ) : Type 0 where
  pub once : places zmd i ≤ 1
  pub wp_le : (zmd.zones i).wp_block ≤ zmd.zone_nr_blocks
  pub empty_wp : 0 < count i zmd.empty_zone_list → (zmd.zones i).wp_block ≡ 0
  pub full_wp : 0 < count i zmd.full_zone_list → (zmd.zones i).wp_block ≡ zmd.zone_nr_blocks
  pub active_wp :
      0 < held (zmd.active_zone 0) i + held (zmd.active_zone 1) i
      → (zmd.zones i).wp_block < zmd.zone_nr_blocks
  pub to_full_alone : (zmd.zones i).flags.to_full ≡ true → places zmd i ≡ 0
  pub to_full_wp : (zmd.zones i).flags.to_full ≡ true → (zmd.zones i).wp_block ≡ zmd.zone_nr_blocks
  pub gc_alone : (zmd.zones i).flags.gc ≡ true → places zmd i ≡ 0
  pub gc_wp : (zmd.zones i).flags.gc ≡ true → (zmd.zones i).wp_block ≡ zmd.zone_nr_blocks

pub record Inv (zmd : ZoneMetadata) : Type 0 where
  pub blocks_pos : 0 < zmd.zone_nr_blocks
  pub small : zmd.nr_zones * zmd.zone_nr_blocks < 2 ^ 31
  pub zone : (i : ℕ) → i < zmd.nr_zones → Placed zmd i
  pub outside : (i : ℕ) → zmd.nr_zones ≤ i → places zmd i ≡ 0
  pub empty_counted : zmd.empty_zone_count ≡ length zmd.empty_zone_list % word
  pub full_counted : zmd.full_zone_count ≡ length zmd.full_zone_list % word
  pub allocable : zmd.nr_allocable_blks ≡ space zmd.zone_nr_blocks zmd.zones zmd.nr_zones

pub zone_nr_blocks-lt :
    {zmd : ZoneMetadata} (i : ℕ) → Inv zmd → i < zmd.nr_zones → zmd.zone_nr_blocks < 2 ^ 31
zone_nr_blocks-lt {zmd} i v h =
    let one : 1 * zmd.zone_nr_blocks ≤ zmd.nr_zones * zmd.zone_nr_blocks =
      mul-le-mul_right zmd.zone_nr_blocks (omega arith) in
    omega (arith, v.small)

-- The invariant after an operation that keeps the sizes.
pub Inv-of_same_sizes :
    {zmd zmd' : ZoneMetadata}
    → Inv zmd
    → zmd'.zone_nr_blocks ≡ zmd.zone_nr_blocks
    → zmd'.nr_zones ≡ zmd.nr_zones
    → ((i : ℕ) → i < zmd.nr_zones → Placed zmd' i)
    → ((i : ℕ) → zmd.nr_zones ≤ i → places zmd' i ≡ 0)
    → zmd'.empty_zone_count ≡ length zmd'.empty_zone_list % word
    → zmd'.full_zone_count ≡ length zmd'.full_zone_list % word
    → zmd'.nr_allocable_blks ≡ space zmd.zone_nr_blocks zmd'.zones zmd.nr_zones
    → Inv zmd'
Inv-of_same_sizes v blocks zones zone outside empty full allocable = record {
  blocks_pos = rw blocks v.blocks_pos;
  small = rw (blocks, zones) v.small;
  zone = λ i h. zone i (omega arith);
  outside = λ i h. outside i (omega arith);
  empty_counted = empty;
  full_counted = full;
  allocable = rw (blocks, zones) allocable;
}
