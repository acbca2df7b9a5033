-- ===== src/Mapping/Init.antt =====
-- `lbz_mapping_init` and `lbz_mapping_destroy`: the tree is built for the size of the device, and
-- its pages are given back. Each node is one page.
use lbz.Prelude.{
  ℕ, zero, suc, ◌+◌, ◌-◌, ◌/◌, ◌%◌, List, Option, none, some, get_elem?, set, replicate, ltb, ◌>>=◌,
  deref, if◌then◌else◌,
}
use lbz.Prelude.Words.{word}
use lbz.Mapping.{
  Layout, leaf_node_entries, int_node_entries, int_node_indexed_blks, max_internal_nodes,
  invalid_pbid, LeafNode, InternalNode, Mapping,
}

-- What the loops of `lbz_mapping_init` carry: `pages` counts the calls of `__alloc_mapping_node`.
pub record Building : Type 0 where
  pub root : List (Option InternalNode)
  pub count : ℕ
  pub start_blkid : ℕ
  pub pages : ℕ

-- The inner loop at work on one internal node.
pub record Filling : Type 0 where
  pub node : InternalNode
  pub count : ℕ
  pub start_blkid : ℕ
  pub pages : ℕ

module _ (y : Layout) where
  unfoldable pub init_internal_node : ℕ → InternalNode
  init_internal_node start_blkid = record {
    entries = 0;
    blkid = start_blkid;
    childern = replicate (int_node_entries y) none;
  }

  unfoldable pub init_leaf_node : ℕ → LeafNode
  init_leaf_node start_blkid = record {
    blkid = start_blkid;
    pbids = replicate (leaf_node_entries y) invalid_pbid;
  }

  unfoldable pub add_child : ℕ → Filling → Filling
  add_child j s = record {
    node = record (s.node) {
      entries = s.node.entries + 1;
      childern = set s.node.childern j (some (init_leaf_node s.start_blkid));
    };
    count = s.count + 1;
    start_blkid = s.start_blkid + leaf_node_entries y;
    pages = s.pages + 1;
  }

  -- `for (j = 0; j < LBZ_INT_NODE_ENTRIES && count < nr_leaf_node; j++, count++)`, by the rounds
  -- that `j` has left.
  unfoldable pub fill : ℕ → ℕ → ℕ → Filling → Filling
  fill zero j nr_leaf s = s
  fill (suc n) j nr_leaf s =
      let rest = fill n (j + 1) nr_leaf (add_child j s) in if ltb s.count nr_leaf then rest else s

  unfoldable pub add_internal : ℕ → ℕ → Building → Building
  add_internal i nr_leaf b =
      let start : Filling = record {
        node = init_internal_node b.start_blkid;
        count = b.count;
        start_blkid = b.start_blkid;
        pages = b.pages + 1;
      } in
      let s = fill (int_node_entries y) 0 nr_leaf start in
      record {
        root = set b.root i (some s.node);
        count = s.count;
        start_blkid = s.start_blkid;
        pages = s.pages;
      }

  -- `for (; i < nr_internal_node; i++)`
  unfoldable pub build : ℕ → ℕ → ℕ → Building → Building
  build zero i nr_leaf b = b
  build (suc n) i nr_leaf b = build n (i + 1) nr_leaf (add_internal i nr_leaf b)

  unfoldable pub nr_internal_node : ℕ → ℕ
  nr_internal_node max_blkid = (max_blkid + int_node_indexed_blks y - 1) / int_node_indexed_blks y

  unfoldable pub nr_leaf_node : ℕ → ℕ
  nr_leaf_node max_blkid = (max_blkid + leaf_node_entries y - 1) / leaf_node_entries y

  abbrev pub start_building : Building
  start_building = record {
    root = replicate (max_internal_nodes y) none;
    count = 0;
    start_blkid = 0;
    pages = 0;
  }

  -- The mapping, and the pages that were taken. `dev_size` is in sectors.
  unfoldable pub init : ℕ → Mapping × ℕ
  init dev_size =
      let max_blkid = dev_size / 8 % word in
      let b = build (nr_internal_node max_blkid) 0 (nr_leaf_node max_blkid) start_building in
      (record { root = b.root; max_blkid = max_blkid; superblock_pbid = invalid_pbid }, b.pages)

  -- The inner loop of `lbz_mapping_destroy`: the new `count` and the pages freed, `none` when a
  -- child to free is missing.
  unfoldable pub free_children : ℕ → ℕ → ℕ → InternalNode → ℕ → ℕ → Option (ℕ × ℕ)
  free_children zero j nr_leaf node count freed = some (count, freed)
  free_children (suc n) j nr_leaf node count freed =
      let rest = free_children n (j + 1) nr_leaf node (count + 1) (freed + 1) in
      if ltb count nr_leaf
      then (do _ ← deref (get_elem? node.childern j); rest)
      else some (count, freed)

  unfoldable pub free_nodes : ℕ → ℕ → ℕ → Mapping → ℕ → ℕ → Option ℕ
  free_nodes zero i nr_leaf m count freed = some freed
  free_nodes (suc n) i nr_leaf m count freed = do
    node ← deref (get_elem? m.root i)
    (count', freed') ← free_children (int_node_entries y) 0 nr_leaf node count freed
    free_nodes n (i + 1) nr_leaf m count' (freed' + 1)

  -- The number of pages freed.
  unfoldable pub destroy : Mapping → Option ℕ
  destroy m = free_nodes (nr_internal_node m.max_blkid) 0 (nr_leaf_node m.max_blkid) m 0 0
