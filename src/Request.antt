-- ===== src/Request.antt =====
-- src/lbz-request.c: a bio from the file system, cut into blocks.
pub mod Pieces
pub mod LongBio
pub mod Completion
pub mod Tests
use lbz.Prelude.{
  ℕ, zero, suc, ◌*◌, List, [], ◌∷◌, ◌++◌, Bool, true, false, not, ◌&&◌, ◌||◌, ltb, if◌then◌else◌,
}
use lbz.Config.{Config}
use lbz.Block.{sector_to_blkid}
use lbz.NatSit.{NatSit, is_cp_block, set_cur_cp}

-- What the code looks at of a `struct bio`.
pub record Bio : Type 0 where
  pub sector : ℕ
  pub sectors : ℕ
  pub is_flush : Bool
  pub is_write : Bool
  pub has_data : Bool

pub data Submission : Type 0 where
  -- `bio_endio` at once
  ended : Submission
  -- a checkpoint's flush, and whether its completion is waited for
  checkpoint : Bool → Bio → Submission
  -- `lbz_submit_io_to_iosched` on each
  pieces : List Bio → Submission

-- `1 << (LBZ_DATA_BLK_SHIFT - SECTOR_SHIFT)`
abbrev pub max_sectors : ℕ
max_sectors = 8

-- `bio_split` is the kernel's: the first sectors, and the bio that is left.
module _ (bio_split : Bio → ℕ → Bio × Bio) where
  -- `while (bio_sectors(bio) > max_sectors)`, by a bound on the rounds: the pieces, and the rest.
  unfoldable pub split_loop : ℕ → Bio → List Bio × Bio
  split_loop zero bio = ([], bio)
  split_loop (suc n) bio =
      let (split, left) = bio_split bio max_sectors in
      let (done, rest) = split_loop n left in
      if ltb max_sectors bio.sectors then (split ∷ done, rest) else ([], bio)

  -- The pieces in the order of their submission, the bio itself last.
  unfoldable pub split_bio : Bio → List Bio
  split_bio bio = let (done, rest) = split_loop bio.sectors bio in done ++ (rest ∷ [])

  -- The end of `lbz_dev_submit_bio`.
  unfoldable pub submit_data : Bool → Bool → Bio → Submission
  submit_data faulty ready bio =
      if not bio.has_data || (faulty || not ready) then ended else pieces (split_bio bio)

  -- `lbz_dev_submit_bio`
  unfoldable pub submit_bio : Config → Bool → Bool → NatSit → Bio → Submission × NatSit
  submit_bio c faulty ready m bio =
      if bio.is_flush && not bio.has_data
      then (ended, m)
      else if bio.is_flush && (c.nat_sit_support && is_cp_block m (sector_to_blkid bio.sector))
      then (checkpoint c.free_support bio, set_cur_cp m (sector_to_blkid bio.sector))
      else (submit_data faulty ready bio, m)
