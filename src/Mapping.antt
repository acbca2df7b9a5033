-- ===== src/Mapping.antt =====
-- src/lbz-mapping.c and src/include/lbz-mapping.h: the map from logical blocks to physical ones, a
-- tree of three levels. The locks of the leaves make each access one step.
pub mod Init
pub mod Index
pub mod Access
pub mod Build
pub mod Destroy
pub mod Flat
pub mod Lookup
pub mod Tests
pub mod LookupTests
use lbz.Prelude.{
  ℕ, ◌+◌, ◌-◌, ◌*◌, ◌/◌, ◌%◌, ◌^◌, List, Option, none, some, get_elem?, set, leb, ◌>>=◌, deref,
  if◌then◌else◌,
}
use lbz.Prelude.Words.{word}

-- What `sizeof` says of the node headers; that of a leaf holds the kernel's `rwlock_t`.
pub record Layout : Type 0 where
  pub leaf_header : ℕ
  pub int_header : ℕ
  pub pointer : ℕ

abbrev pub mapping_blk_size : ℕ
mapping_blk_size = 2 ^ 12

-- LBZ_LEAF_NODE_ENTIRES
unfoldable pub leaf_node_entries : Layout → ℕ
leaf_node_entries y = (mapping_blk_size - y.leaf_header) / 4

-- LBZ_INT_NODE_ENTRIES
unfoldable pub int_node_entries : Layout → ℕ
int_node_entries y = (mapping_blk_size - y.int_header) / y.pointer

-- LBZ_INT_NODE_INDEXED_BLKS
unfoldable pub int_node_indexed_blks : Layout → ℕ
int_node_indexed_blks y = leaf_node_entries y * int_node_entries y

-- MAX_INTERNAL_NODES, with LBZ_MAX_DEV_SIZE 64 GiB
unfoldable pub max_internal_nodes : Layout → ℕ
max_internal_nodes y = (64 * 2 ^ 18 + int_node_indexed_blks y - 1) / int_node_indexed_blks y

-- LBZ_INVALID_PBID, `~0U`
abbrev pub invalid_pbid : ℕ
invalid_pbid = word - 1

pub record LeafNode : Type 0 where
  pub blkid : ℕ
  pub pbids : List ℕ

-- A child that was never assigned is `none`.
pub record InternalNode : Type 0 where
  pub entries : ℕ
  pub blkid : ℕ
  pub childern : List (Option LeafNode)

pub record Mapping : Type 0 where
  pub root : List (Option InternalNode)
  pub max_blkid : ℕ
  pub superblock_pbid : ℕ

unfoldable pub leaf_of : Mapping → ℕ → ℕ → Option LeafNode
leaf_of m r i = do node ← deref (get_elem? m.root r); deref (get_elem? node.childern i)

-- A leaf with its place in the tree, and the index of the entry within it.
pub record Slot : Type 0 where
  pub root_index : ℕ
  pub int_index : ℕ
  pub leaf : LeafNode
  pub index : ℕ

module _ (y : Layout) where
  -- `none` for the BUG_ON, and for a null pointer on the way.
  unfoldable pub find_specific_node : Mapping → ℕ → Option Slot
  find_specific_node m blkid =
      let root_index = blkid / int_node_indexed_blks y in
      let int_index = blkid / leaf_node_entries y % int_node_entries y in
      if leb m.max_blkid blkid then none else (do
        leaf ← leaf_of m root_index int_index
        some (record {
          root_index = root_index;
          int_index = int_index;
          leaf = leaf;
          index = blkid % leaf_node_entries y;
        }))

  -- `leaf->pbids[index]`
  unfoldable pub mapped : Mapping → ℕ → Option ℕ
  mapped m blkid = do s ← find_specific_node m blkid; get_elem? s.leaf.pbids s.index

-- `leaf->pbids[index] = pbid`, in place.
unfoldable pub store_leaf : Mapping → ℕ → ℕ → LeafNode → Mapping
store_leaf m r i leaf = elim (deref (get_elem? m.root r)) [
  | none ↦ m
  | some node ↦ record m {
    root = set m.root r (some (record node { childern = set node.childern i (some leaf) }));
  }
]

unfoldable pub store_pbid : Mapping → Slot → ℕ → Mapping
store_pbid m s pbid =
    store_leaf m s.root_index s.int_index
      (record (s.leaf) { pbids = set s.leaf.pbids s.index pbid })

module _ (y : Layout) where
  -- The result is the physical block that was mapped before.
  unfoldable pub add : Mapping → ℕ → ℕ → Option (ℕ × Mapping)
  add m blkid pbid = do
    s ← find_specific_node y m blkid
    old_pbid ← get_elem? s.leaf.pbids s.index
    some (old_pbid, store_pbid m s pbid)

  unfoldable pub remove : Mapping → ℕ → Option (ℕ × Mapping)
  remove m blkid = do
    s ← find_specific_node y m blkid
    old_pbid ← get_elem? s.leaf.pbids s.index
    some (old_pbid, store_pbid m s invalid_pbid)
