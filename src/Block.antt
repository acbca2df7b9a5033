-- ===== src/Block.antt =====
-- src/include/lbz-common.h: 512-byte sectors and 4 KiB blocks.
pub mod Convert
pub mod Tests
use lbz.Prelude.{ℕ, ◌*◌, ◌/◌, ◌%◌, ◌^◌}
use lbz.Prelude.Words.{word}

-- The result is an `unsigned int`.
unfoldable pub sector_to_blkid : ℕ → ℕ
sector_to_blkid sector = sector / 8 % word

-- The shift is made on the 32-bit argument, and its result widened to `sector_t`.
unfoldable pub blkid_to_sector : ℕ → ℕ
blkid_to_sector blkid = blkid * 8 % word
