-- ===== src/Block/Convert.antt =====
-- Where sectors and block numbers convert into each other without loss.
use lbz.Prelude.{ℕ, ◌+◌, ◌^◌, ◌≤◌, ◌<◌, ◌≡◌, ◌≢◌, arith}
use lbz.Prelude.Words.{word}
use lbz.Block.{sector_to_blkid, blkid_to_sector}

-- A block number below 2 ^ 29 comes back from its first sector, and from every sector of the block.
pub sector_to_blkid-blkid_to_sector :
    (b k : ℕ) → b < 2 ^ 29 → k < 8 → sector_to_blkid (blkid_to_sector b + k) ≡ b
unfolding sector_to_blkid blkid_to_sector
sector_to_blkid-blkid_to_sector b k h hk = omega arith

-- From 2 ^ 29 on the 32-bit shift loses the top bits, and another block's sector results.
pub blkid_to_sector_truncates :
    (b : ℕ) → 2 ^ 29 ≤ b → b < word → sector_to_blkid (blkid_to_sector b) ≢ b
unfolding sector_to_blkid blkid_to_sector
blkid_to_sector_truncates b h k = omega arith
