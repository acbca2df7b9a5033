-- ===== src/NatSit/ToFree.antt =====
-- `lbz_nat_sit_to_free`, the mate of a duplicate block.
use lbz.Prelude.{ℕ, ◌+◌, ◌-◌, ◌/◌, ◌%◌, ◌≤◌, ◌<◌, ◌≡◌, ◌≢◌, true, false, some, arith}
use lbz.Prelude.Words.{word, add32, mul32, sub32}
use lbz.NatSit.{Args, NatSit, to_free, is_dup_block, is_cp_block, add_rule}
use lbz.NatSit.Areas.{IsLayout}

-- Below 2 ^ 32 - 1024, mates are mates of each other, never the same block, at one offset in two
-- segments of which the first is even.
pub to_free-to_free :
    (m : NatSit) (b : ℕ)
    → m.blocks_per_segment ≡ 512
    → b < word - 1024
    → (to_free m (to_free m b) ≡ b)
      × (to_free m b ≢ b)
      × (to_free m b % 512 ≡ b % 512)
      × (to_free m b / 1024 ≡ b / 1024)
unfolding to_free add32 mul32
to_free-to_free m b e h = rw e ground arith

-- Where the SIT begins at an even segment and the NAT ends at one, the mate of a duplicate block is a
-- duplicate block.
pub to_free-is_dup :
    (a : Args) (b : ℕ) {m : NatSit}
    → IsLayout a
    → add_rule a ≡ some m
    → a.sit_blkaddr % 1024 ≡ 0
    → (a.nat_blkaddr + a.nat_blocks) % 1024 ≡ 0
    → is_dup_block m b ≡ true
    → is_dup_block m (to_free m b) ≡ true
unfolding add_rule to_free is_dup_block add32 mul32
to_free-is_dup a b l e sit nat h = ground arith

-- Where the SIT begins at an odd segment, the mate of each block of its first segment lies before it, in
-- the checkpoint area if that is a segment long.
pub to_free_strays :
    (a : Args) (k : ℕ) {m : NatSit}
    → IsLayout a
    → add_rule a ≡ some m
    → a.sit_blkaddr % 1024 ≡ 512
    → a.cp_blkaddr + 512 ≤ a.sit_blkaddr
    → k < 512
    → (is_cp_block m (to_free m (a.sit_blkaddr + k)) ≡ true)
      × (is_dup_block m (to_free m (a.sit_blkaddr + k)) ≡ false)
unfolding add_rule to_free is_dup_block is_cp_block add32 mul32 sub32
to_free_strays a k l e odd cp h = ground arith
