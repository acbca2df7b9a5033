-- ===== src/Metadata/Watermarks.antt =====
-- The watermark tests of src/include/lbz-zone-metadata.h.
use lbz.Prelude.{◌-◌, ◌*◌, ◌/◌, ◌≤◌, ◌<◌, ◌≡◌, false, ltb, arith}
use lbz.Prelude.Words.{word, sub32, mul32}
use lbz.Metadata.{ZoneMetadata, check_need_reclaim_low, check_need_reclaim_high}

module _ (zmd : ZoneMetadata) (total : zmd.nr_total_blks * 4 < word)
    (low : zmd.reclaim_wm_gc_low ≡ 2) (high : zmd.reclaim_wm_gc_high ≡ 4) where
  -- While the reserve for collection is untouched, each test compares the blocks that are left for users
  -- with its percentage of the device.
  pub check_need_reclaim_lem :
      zmd.reserved_blks_gc ≤ zmd.nr_allocable_blks
      → zmd.nr_allocable_blks < word
      → (check_need_reclaim_low zmd
          ≡ ltb (zmd.nr_allocable_blks - zmd.reserved_blks_gc) (zmd.nr_total_blks * 2 / 100))
        × (check_need_reclaim_high zmd
            ≡ ltb (zmd.nr_allocable_blks - zmd.reserved_blks_gc) (zmd.nr_total_blks * 4 / 100))
  unfolding check_need_reclaim_low check_need_reclaim_high sub32 mul32
  check_need_reclaim_lem h k = rw (low, high) (ground arith)

  -- With a reserve no larger than the device, once collection has begun to use it, the unsigned difference wraps round, and both tests say
  -- that nothing need be reclaimed.
  pub check_need_reclaim_wraps :
      zmd.nr_allocable_blks < zmd.reserved_blks_gc
      → zmd.reserved_blks_gc ≤ zmd.nr_total_blks
      → (check_need_reclaim_low zmd ≡ false) × (check_need_reclaim_high zmd ≡ false)
  unfolding check_need_reclaim_low check_need_reclaim_high sub32 mul32
  check_need_reclaim_wraps h k = rw (low, high) (ground arith)
