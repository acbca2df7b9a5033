-- ===== src/NatSit.antt =====
-- src/lbz-nat-sit.c and src/include/lbz-nat-sit.h: what the device knows of the layout of F2FS, whose
-- checkpoint, SIT and NAT areas keep two copies of each block.
pub mod Areas
pub mod ToFree
pub mod Complete
pub mod CompleteLaws
pub mod Recording
pub mod Tests
use lbz.Prelude.{
  ℕ, zero, suc, ◌+◌, ◌-◌, ◌*◌, ◌/◌, ◌%◌, List, [], ◌∷◌, ◌++◌, Option, none, some, Bool, true, false,
  not, ◌&&◌, ◌||◌, length, ltb, leb, ◌==◌, if◌then◌else◌,
}
use lbz.Prelude.Words.{add32, sub32, mul32, inc32, inc64, dec64}
use lbz.Config.{Config}

-- `struct nat_sit_args`
pub record Args : Type 0 where
  pub cp_blkaddr : ℕ
  pub sit_blkaddr : ℕ
  pub nat_blkaddr : ℕ
  pub nat_blocks : ℕ

-- `struct lbz_nat_sit_mgmt`. `nodes` is the chain of pages from `head` on, each with its blocks up to the
-- cursor; `cur_node` is its last page.
pub record NatSit : Type 0 where
  pub args : Args
  pub open args use *
  pub cp_blocks : ℕ
  pub sit_blocks : ℕ
  pub first_cp_blkaddr : ℕ
  pub second_cp_blkaddr : ℕ
  pub cp_length : ℕ
  pub sit_segment_no : ℕ
  pub nat_segment_no : ℕ
  pub cur_cp_pack : ℕ
  pub blocks_per_segment : ℕ
  pub nat_sit_inflight_writes : ℕ
  pub nat_sit_user_write : ℕ
  pub nat_sit_cp_write : ℕ
  pub nat_sit_ssa_write : ℕ
  pub nodes : List (List ℕ)
  pub to_free_count : ℕ
  pub total_freed_blks : ℕ

-- NAT_SIT_NODE_ENTRIES: a page of 4096 bytes less the packed header of 12, in words.
abbrev pub node_entries : ℕ
node_entries = 1021

unfoldable pub cp_write : NatSit → NatSit
cp_write m = record m { nat_sit_cp_write = inc64 m.nat_sit_cp_write }

unfoldable pub ssa_write : NatSit → NatSit
ssa_write m = record m { nat_sit_ssa_write = inc64 m.nat_sit_ssa_write }

unfoldable pub user_write : NatSit → NatSit
user_write m = record m { nat_sit_user_write = inc64 m.nat_sit_user_write }

unfoldable pub add_write : NatSit → NatSit
add_write m = record m { nat_sit_inflight_writes = inc64 m.nat_sit_inflight_writes }

unfoldable pub complete_write : NatSit → NatSit
complete_write m = record m { nat_sit_inflight_writes = dec64 m.nat_sit_inflight_writes }

-- `lbz_nat_sit_get_stream_id`
unfoldable pub get_stream_id : Config → NatSit → ℕ → ℕ
get_stream_id c m block =
    if c.stream_support
      && (not (m.nat_blkaddr == 0) && leb (add32 m.nat_blkaddr m.nat_blocks) block)
    then 1
    else 0

unfoldable pub is_dup_block : NatSit → ℕ → Bool
is_dup_block m block = leb m.sit_blkaddr block && ltb block (add32 m.nat_blkaddr m.nat_blocks)

unfoldable pub is_cp_block : NatSit → ℕ → Bool
is_cp_block m block = leb m.cp_blkaddr block && ltb block (add32 m.cp_blkaddr m.cp_blocks)

unfoldable pub is_first_cp_block : NatSit → ℕ → Bool
is_first_cp_block m block =
    leb m.first_cp_blkaddr block && ltb block (add32 m.first_cp_blkaddr m.cp_length)

unfoldable pub is_second_cp_block : NatSit → ℕ → Bool
is_second_cp_block m block =
    leb m.second_cp_blkaddr block && ltb block (add32 m.second_cp_blkaddr m.cp_length)

unfoldable pub set_cur_cp : NatSit → ℕ → NatSit
set_cur_cp m block = record m { cur_cp_pack = if is_first_cp_block m block then 1 else 2 }

-- `lbz_nat_sit_to_free`: the same place in the other segment of a pair.
unfoldable pub to_free : NatSit → ℕ → ℕ
to_free m block =
    let segment_no = block / m.blocks_per_segment in
    let to_free_seg = if segment_no % 2 == 1 then segment_no - 1 else segment_no + 1 in
    add32 (mul32 to_free_seg m.blocks_per_segment) (block % m.blocks_per_segment)

-- A block goes to the last page, or to a new one where that is full or there is none.
unfoldable pub add_to_nodes : List (List ℕ) → ℕ → List (List ℕ)
add_to_nodes [] blkid = (blkid ∷ []) ∷ []
add_to_nodes (node ∷ []) blkid =
    if length node == node_entries then node ∷ (blkid ∷ []) ∷ [] else (node ++ (blkid ∷ [])) ∷ []
add_to_nodes (node ∷ next ∷ rest) blkid = node ∷ add_to_nodes (next ∷ rest) blkid

-- `lbz_nat_sit_add_blkid`
unfoldable pub add_blkid : NatSit → ℕ → NatSit
add_blkid m blkid = record m {
  nodes = add_to_nodes m.nodes blkid;
  to_free_count = inc32 m.to_free_count;
}

-- `lbz_nat_sit_add_rule`; `none` for a `BUG_ON`.
unfoldable pub add_rule : Args → Option NatSit
add_rule args =
    let cp_blocks = sub32 args.sit_blkaddr args.cp_blkaddr in
    let m : NatSit = record {
      args = args;
      cp_blocks = cp_blocks;
      sit_blocks = sub32 args.nat_blkaddr args.sit_blkaddr;
      first_cp_blkaddr = args.cp_blkaddr;
      second_cp_blkaddr = add32 args.cp_blkaddr (cp_blocks / 2);
      cp_length = cp_blocks / 2;
      sit_segment_no = args.sit_blkaddr / 512;
      nat_segment_no = args.nat_blkaddr / 512;
      cur_cp_pack = 0;
      blocks_per_segment = 512;
      nat_sit_inflight_writes = 0;
      nat_sit_user_write = 0;
      nat_sit_cp_write = 0;
      nat_sit_ssa_write = 0;
      nodes = [];
      to_free_count = 0;
      total_freed_blks = 0;
    } in
    if not (args.sit_blkaddr % 512 == 0)
    then none
    else if not (args.nat_blkaddr % 512 == 0)
    then none
    else some m

-- `lbz_nat_sit_destroy`, and the end of `lbz_nat_sit_tx_complete`
unfoldable pub clear_nodes : NatSit → NatSit
clear_nodes m = record m { nodes = []; to_free_count = 0 }
