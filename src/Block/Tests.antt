-- ===== src/Block/Tests.antt =====
-- Concrete blocks.
use lbz.Prelude.{◌+◌, ◌≡◌, ◌≢◌, arith}
use lbz.Block.{sector_to_blkid, blkid_to_sector}
use lbz.Block.Convert.{sector_to_blkid-blkid_to_sector, blkid_to_sector_truncates}

sector_to_blkid-blkid_to_sector_example : sector_to_blkid (blkid_to_sector 1000 + 7) ≡ 1000
sector_to_blkid-blkid_to_sector_example =
    sector_to_blkid-blkid_to_sector 1000 7 (omega arith) (omega arith)

blkid_to_sector_truncates_example : sector_to_blkid (blkid_to_sector 600000000) ≢ 600000000
blkid_to_sector_truncates_example = blkid_to_sector_truncates 600000000 (omega arith) (omega arith)
