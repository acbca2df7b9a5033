-- ===== src/NatSit/Areas.antt =====
-- How the areas of F2FS divide the blocks of the device.
use lbz.Prelude.{ℕ, ◌+◌, ◌-◌, ◌%◌, ◌≤◌, ◌<◌, ◌≡◌, some, false, ◌&&◌, ◌||◌, ltb, leb, ◌==◌, arith}
use lbz.Prelude.Words.{word, add32, sub32}
use lbz.Config.{Config}
use lbz.NatSit.{
  Args, NatSit, is_dup_block, is_cp_block, is_first_cp_block, is_second_cp_block, get_stream_id,
  add_rule,
}

-- The layout that F2FS makes: checkpoint, SIT and NAT in this order, within the device.
pub record IsLayout (a : Args) : Type 0 where
  pub cp_first : a.cp_blkaddr ≤ a.sit_blkaddr
  pub sit_next : a.sit_blkaddr < a.nat_blkaddr
  pub fits : a.nat_blkaddr + a.nat_blocks < word

-- After `lbz_nat_sit_add_rule` a block is of the checkpoint area from its start to the SIT's, duplicate
-- from there to the NAT's end, and no block is both. `lbz_nat_sit_get_stream_id` of the build with
-- streams is the second stream for what lies behind the NAT, and for nothing else.
pub areas_divide :
    (c : Config) (a : Args) (block : ℕ) {m : NatSit}
    → IsLayout a
    → add_rule a ≡ some m
    → (is_cp_block m block ≡ (leb a.cp_blkaddr block && ltb block a.sit_blkaddr))
      × (is_dup_block m block
          ≡ (leb a.sit_blkaddr block && ltb block (a.nat_blkaddr + a.nat_blocks)))
      × ((is_cp_block m block && is_dup_block m block) ≡ false)
      × ((get_stream_id c m block == 1)
          ≡ (c.stream_support && leb (a.nat_blkaddr + a.nat_blocks) block))
unfolding add_rule is_cp_block is_dup_block get_stream_id add32 sub32
areas_divide c a block l e = ground arith

-- The two checkpoint packs are disjoint and within the area; with an even length they make it up.
pub cp_packs_divide :
    (a : Args) (block : ℕ) {m : NatSit}
    → IsLayout a
    → add_rule a ≡ some m
    → (a.sit_blkaddr - a.cp_blkaddr) % 2 ≡ 0
    → ((is_first_cp_block m block || is_second_cp_block m block) ≡ is_cp_block m block)
      × ((is_first_cp_block m block && is_second_cp_block m block) ≡ false)
unfolding add_rule is_cp_block is_first_cp_block is_second_cp_block add32 sub32
cp_packs_divide a block l e even = ground arith

-- With the arguments that a new device starts with, all zero, no block is special.
pub no_areas :
    (c : Config) (block : ℕ) {m : NatSit}
    → add_rule (record { cp_blkaddr = 0; sit_blkaddr = 0; nat_blkaddr = 0; nat_blocks = 0 })
      ≡ some m
    → (is_cp_block m block ≡ false) × (is_dup_block m block ≡ false) × (get_stream_id c m block ≡ 0)
unfolding add_rule is_cp_block is_dup_block get_stream_id add32 sub32
no_areas c block e = ground arith
