-- ===== src/Mapping/Destroy.antt =====
-- `lbz_mapping_destroy` gives back every node of the tree, whatever was stored in it since.
use native.Mathlib.Nat.{div-div-eq-div-mul, mul-div_cancel, mul-le-mul_right}
use lbz.Prelude.{
  ℕ, zero, suc, ◌+◌, ◌-◌, ◌*◌, ◌≤◌, ◌<◌, ◌≡◌, ap, inl, inr, some, get_elem?, min, deref, ltb,
  Bool-cases, Option-cases, arith,
}
use lbz.Mapping.{
  Layout, leaf_node_entries, int_node_entries, int_node_indexed_blks, LeafNode, InternalNode,
  Mapping, leaf_of,
}
use lbz.Mapping.Init.{free_children, free_nodes, nr_internal_node, nr_leaf_node, destroy}
use lbz.Mapping.Access.{IsTree}
use lbz.Mapping.Build.{nr_leaf_node-le}
use lbz.Mapping.Index.{mul-lt_of_lt-ceil, add-div_column, add-mod_column, div-lt-ceil}

module _ (y : Layout) where
  -- The children of internal node `r` that `nr_leaf` leaves want.
  abbrev Children : ℕ → ℕ → InternalNode → Type 0
  Children nr_leaf base d =
      (k : ℕ)
      → k < int_node_entries y
      → base + k < nr_leaf
      → (l : LeafNode) × (deref (get_elem? d.childern k) ≡ some l)

  free_children-some :
      (n j nr_leaf base freed count : ℕ) (d : InternalNode)
      → Children nr_leaf base d
      → j + n ≡ int_node_entries y
      → count ≡ base + j
      → count ≤ nr_leaf
      → free_children y n j nr_leaf d count freed
        ≡ some (
          min (base + int_node_entries y) nr_leaf,
          freed + (min (base + int_node_entries y) nr_leaf - count),
        )
  unfolding free_children
  free_children-some zero j nr_leaf base freed count d c e at le = ground arith
  free_children-some (suc n) j nr_leaf base freed count d c e at le =
      elim (Bool-cases (ltb count nr_leaf)) [
        | inl more ↦
            let (l, here) = c j (omega arith) (ground arith) in
            rw (more, here)
              (ground
                (arith, free_children-some n (j + 1) nr_leaf base (freed + 1) (count + 1) d c))
        | inr done ↦ rw done (ground arith)
      ]

  -- The nodes from `i` up to `j`, each with its children.
  free_nodes-some :
      (n i j nr_leaf freed count : ℕ) (m : Mapping)
      → ((r : ℕ)
          → r < j
          → (d : InternalNode) × (deref (get_elem? m.root r) ≡ some d)
            × Children nr_leaf (r * int_node_entries y) d)
      → i + n ≡ j
      → count ≡ min (i * int_node_entries y) nr_leaf
      → ((r : ℕ) → r < j → r * int_node_entries y ≤ nr_leaf)
      → free_nodes y n i nr_leaf m count freed
        ≡ some (freed + n + (min (j * int_node_entries y) nr_leaf - count))
  unfolding free_nodes
  free_nodes-some zero i j nr_leaf freed count m nodes e at le =
      let e' : i ≡ j = omega arith in
      let f = ap (λ (t : ℕ). t * int_node_entries y) e' in ground arith
  free_nodes-some (suc n) i j nr_leaf freed count m nodes e at le =
      let (d, here, children) = nodes i (omega arith) in
      let start : count ≡ i * int_node_entries y = omega (arith, le i (omega arith)) in
      let now =
        free_children-some (int_node_entries y) 0 nr_leaf (i * int_node_entries y) freed count d
          children (omega arith) (omega arith) (omega (arith, le i (omega arith))) in
      let stop = min (i * int_node_entries y + int_node_entries y) nr_leaf in
      let more : (i + 1) * int_node_entries y ≤ j * int_node_entries y =
        mul-le-mul_right (int_node_entries y) (omega arith) in
      let rest =
        free_nodes-some n (i + 1) j nr_leaf (freed + (stop - count) + 1) stop m nodes (omega arith)
          (omega arith) le in
      rw (here, now) (ground (arith, rest))

module _ (y : Layout) {m : Mapping} (v : IsTree y m) (width : 0 < int_node_entries y) where
  -- The leaf at position `k` of internal node `r`.
  leaf_at :
      (r k : ℕ)
      → k < int_node_entries y
      → r * int_node_entries y + k < nr_leaf_node y m.max_blkid
      → (l : LeafNode) × (leaf_of m r k ≡ some l)
  unfolding nr_leaf_node int_node_indexed_blks
  leaf_at r k hk h =
      let q = r * int_node_entries y + k in
      let at_leaf = mul-div_cancel q v.leaf_pos in
      let at_node = add-div_column r k (int_node_entries y) hk in
      let at_child = add-mod_column r k (int_node_entries y) hk in
      let up =
        div-div-eq-div-mul (q * leaf_node_entries y) (leaf_node_entries y) (int_node_entries y) in
      let (l, e, _, _) = v.reach (q * leaf_node_entries y) (mul-lt_of_lt-ceil _ _ q v.leaf_pos h) in
      (l, ground (arith, e, at_leaf, at_node, at_child, up))

  row_starts_inside :
      (r : ℕ)
      → r < nr_internal_node y m.max_blkid
      → r * int_node_entries y < nr_leaf_node y m.max_blkid
  unfolding nr_leaf_node nr_internal_node int_node_indexed_blks
  row_starts_inside r h =
      let x = leaf_node_entries y in
      let n = int_node_entries y in
      let below = mul-lt_of_lt-ceil m.max_blkid (x * n) r (grind (arith, v.leaf_pos)) h in
      rw (← mul-div_cancel (r * n) v.leaf_pos)
        (div-lt-ceil m.max_blkid x (r * n * x) v.leaf_pos (omega (arith, below)))

  -- The internal nodes that hold some leaf are there, with their children.
  node_at :
      (r : ℕ)
      → r < nr_internal_node y m.max_blkid
      → (d : InternalNode) × (deref (get_elem? m.root r) ≡ some d)
        × Children y (nr_leaf_node y m.max_blkid) (r * int_node_entries y) d
  unfolding leaf_of
  node_at r h = elim (Option-cases (deref (get_elem? m.root r))) [
    | inl z ↦
        let (l, e) = leaf_at r 0 width (omega (arith, row_starts_inside r h)) in
        absurd (ground (arith, z, e))
    | inr (d, z) ↦
        (d, z, λ k hk within. let (l, e) = leaf_at r k hk within in (l, ground (arith, z, e)))
  ]

  -- Any tree that the accesses left in shape is given back whole: `lbz_mapping_destroy` meets no null
  -- pointer, and frees as many pages as `lbz_mapping_init` takes for that size.
  pub destroy-some :
      destroy y m ≡ some (nr_internal_node y m.max_blkid + nr_leaf_node y m.max_blkid)
  unfolding destroy
  destroy-some =
      let i = nr_internal_node y m.max_blkid in
      let k = nr_leaf_node y m.max_blkid in
      ground (
        arith,
        free_nodes-some y i 0 i k 0 0 m node_at (omega arith) (omega arith)
            (λ r h. omega (arith, row_starts_inside r h)),
        nr_leaf_node-le y v.leaf_pos width m.max_blkid,
      )
