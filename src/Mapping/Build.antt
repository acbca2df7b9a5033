-- ===== src/Mapping/Build.antt =====
-- `lbz_mapping_init` builds a tree that reaches every block of the device.
use native.Mathlib.Nat.{div-div-eq-div-mul, div-add-mod', mod-lt}
use lbz.Prelude.{
  ℕ, zero, suc, ◌+◌, ◌-◌, ◌*◌, ◌/◌, ◌%◌, ◌≤◌, ◌<◌, ◌≡◌, refl, ap, inl, inr, some, length, get_elem?,
  set, length-set, get_elem?-set, get_elem?-replicate, length-replicate, ltb, min, ◌^◌, dec_lt,
  arith, Bool-cases,
}
use lbz.Mapping.{
  Layout, leaf_node_entries, int_node_entries, int_node_indexed_blks, max_internal_nodes,
  invalid_pbid, InternalNode, leaf_of, mapped, find_specific_node,
}
use lbz.Mapping.Init.{
  Building, Filling, init_internal_node, init_leaf_node, add_child, fill, add_internal, build,
  nr_internal_node, nr_leaf_node, start_building, init,
}
use lbz.Mapping.Access.{IsTree}
use lbz.Mapping.Index.{le-ceil-mul, div-lt-ceil, ceil-le-mul, ceil_mono}

module _ (y : Layout) where
  -- The node is filled up to `j`, its first child being leaf number `base` of the tree.
  record Filled (base j : ℕ) (s : Filling) : Type 0 where
    counted : s.count ≡ base + j
    started : s.start_blkid ≡ s.count * leaf_node_entries y
    wide : length s.node.childern ≡ int_node_entries y
    child :
        (k : ℕ)
        → k < j
        → get_elem? s.node.childern k
          ≡ some (some (init_leaf_node y ((base + k) * leaf_node_entries y)))

  add_child-Filled :
      {base j : ℕ} {s : Filling}
      → j < int_node_entries y
      → Filled base j s
      → Filled base (j + 1) (add_child y j s)
  unfolding add_child
  add_child-Filled {base} {j} {s} h f =
      let slot = λ (k : ℕ).
        get_elem?-set s.node.childern j k (some (init_leaf_node y s.start_blkid))
          (omega (arith, f.wide)) in
      record {
        counted = omega (arith, f.counted);
        started = ground (arith, f.started);
        wide = rw length-set f.wide;
        child = λ k h. ground (arith, slot k, f.child k, f.started, f.counted);
      }

  pages-add_child : (j : ℕ) (s : Filling) → (add_child y j s).pages ≡ s.pages + 1
  unfolding add_child
  pages-add_child j s = refl

  -- The loop fills the node, or stops with the last leaf.
  fill-Filled :
      (n : ℕ) {j : ℕ} (base nr_leaf : ℕ) {s : Filling}
      → j + n ≡ int_node_entries y
      → base + j ≤ nr_leaf
      → Filled base j s
      → (j' : ℕ) × Filled base j' (fill y n j nr_leaf s)
        × (base + j' ≡ min (base + int_node_entries y) nr_leaf)
        × ((fill y n j nr_leaf s).pages + j ≡ s.pages + j')
  unfolding fill
  fill-Filled zero {j} base nr_leaf e le f = (j, f, omega arith, refl)
  fill-Filled (suc n) {j} base nr_leaf {s} e le f = elim (Bool-cases (ltb s.count nr_leaf)) [
    | inl more ↦
        let (j', g, e', p) =
          fill-Filled n {j = j + 1} base nr_leaf {s = add_child y j s} (omega arith)
            (ground (arith, f.counted)) (add_child-Filled (omega arith) f) in
        rw more (j', g, e', ground (arith, p, pages-add_child j s))
    | inr done ↦ rw done (j, f, ground (arith, f.counted), refl)
  ]

  -- The first `i` internal nodes are built, of `nr_leaf` leaves in all.
  record Built (nr_leaf i : ℕ) (b : Building) : Type 0 where
    counted : b.count ≡ min (i * int_node_entries y) nr_leaf
    started : b.start_blkid ≡ b.count * leaf_node_entries y
    wide : length b.root ≡ max_internal_nodes y
    paged : b.pages ≡ i + b.count
    node :
        (r : ℕ)
        → r < i
        → (d : InternalNode) × (get_elem? b.root r ≡ some (some d))
          × ((k : ℕ)
              → k < int_node_entries y
              → r * int_node_entries y + k < nr_leaf
              → get_elem? d.childern k
                ≡ some
                    (some (init_leaf_node y ((r * int_node_entries y + k) * leaf_node_entries y))))

  add_node-Built :
      {nr_leaf i j : ℕ} {b : Building} {s : Filling}
      → i < max_internal_nodes y
      → Built nr_leaf i b
      → Filled b.count j s
      → b.count + j ≡ min (b.count + int_node_entries y) nr_leaf
      → s.pages ≡ b.pages + 1 + j
      → Built nr_leaf (i + 1) (record {
        root = set b.root i (some s.node);
        count = s.count;
        start_blkid = s.start_blkid;
        pages = s.pages;
      })
  add_node-Built {nr_leaf} {i} {j} {b} {s} h v f stop paged = record {
    counted = omega (arith, f.counted, v.counted);
    started = f.started;
    wide = rw length-set v.wide;
    paged = omega (arith, f.counted, v.paged);
    node = λ r k.
        let slot = get_elem?-set b.root i r (some s.node) (omega (arith, v.wide)) in
        elim (dec_lt r i) [
          | yes old ↦ let (d, e, c) = v.node r old in (d, ground (arith, slot, e), c)
          | no new ↦
              let e : r ≡ i = omega arith in
              (
                s.node,
                ground (arith, slot),
                λ l inside within.
                    let c : b.count ≡ r * int_node_entries y =
                      rw e (omega (arith, v.counted, ap (λ (t : ℕ). t * int_node_entries y) e)) in
                    ground (arith, f.child l, c),
              )
        ];
  }

  add_internal-Built :
      {nr_leaf i : ℕ} {b : Building}
      → i < max_internal_nodes y
      → Built nr_leaf i b
      → Built nr_leaf (i + 1) (add_internal y i nr_leaf b)
  unfolding add_internal init_internal_node
  add_internal-Built {nr_leaf} {i} {b} h v =
      let (j, f, stop, paged) =
        fill-Filled (int_node_entries y) {j = 0} b.count nr_leaf
          {s = record {
            node = init_internal_node y b.start_blkid;
            count = b.count;
            start_blkid = b.start_blkid;
            pages = b.pages + 1;
          }}
          (omega arith) (omega (arith, v.counted))
          (record {
            counted = omega arith;
            started = v.started;
            wide = length-replicate _ _;
            child = λ k h. elim h [ ];
          }) in
      add_node-Built h v f stop (omega (arith, paged))

  build-Built :
      (n : ℕ) {i j nr_leaf : ℕ} {b : Building}
      → i + n ≡ j
      → j ≤ max_internal_nodes y
      → Built nr_leaf i b
      → Built nr_leaf j (build y n i nr_leaf b)
  unfolding build
  build-Built zero {i} {j} e h v = let e' : j ≡ i = omega arith in rw e' v
  build-Built (suc n) {i} e h v =
      build-Built n {i = i + 1} (omega arith) h (add_internal-Built (omega arith) v)

  start-Built : (nr_leaf : ℕ) → Built nr_leaf 0 (start_building y)
  start-Built nr_leaf = record {
    counted = omega arith;
    started = omega arith;
    wide = length-replicate _ _;
    paged = omega arith;
    node = λ r h. elim h [ ];
  }

place_recombined :
    (y : Layout) (b : ℕ)
    → b / int_node_indexed_blks y * int_node_entries y
        + b / leaf_node_entries y % int_node_entries y
      ≡ b / leaf_node_entries y
unfolding int_node_indexed_blks
place_recombined y b =
    rw (← div-div-eq-div-mul b (leaf_node_entries y) (int_node_entries y))
      (div-add-mod' (b / leaf_node_entries y) (int_node_entries y))

module _ (y : Layout) (leaves : 0 < leaf_node_entries y) (children : 0 < int_node_entries y) where
  indexed_pos : 0 < int_node_indexed_blks y
  unfolding int_node_indexed_blks
  indexed_pos = grind arith

  nr_internal_node-le : (m : ℕ) → m ≤ 64 * 2 ^ 18 → nr_internal_node y m ≤ max_internal_nodes y
  unfolding nr_internal_node max_internal_nodes
  nr_internal_node-le m h = ceil_mono m (64 * 2 ^ 18) (int_node_indexed_blks y) indexed_pos h

  pub nr_leaf_node-le : (m : ℕ) → nr_leaf_node y m ≤ nr_internal_node y m * int_node_entries y
  unfolding nr_leaf_node nr_internal_node int_node_indexed_blks
  nr_leaf_node-le m =
      let x = leaf_node_entries y * int_node_entries y in
      let c = (m + x - 1) / x in
      ceil-le-mul m (leaf_node_entries y) (c * int_node_entries y) leaves
        (omega (arith, le-ceil-mul m x (unfold int_node_indexed_blks in indexed_pos)))

  module _ (dev_size : ℕ) (fits : dev_size / 8 ≤ 64 * 2 ^ 18) where
    abbrev built : Building
    built =
        build y (nr_internal_node y (dev_size / 8)) 0 (nr_leaf_node y (dev_size / 8))
          (start_building y)

    built-Built : Built y (nr_leaf_node y (dev_size / 8)) (nr_internal_node y (dev_size / 8)) built
    built-Built =
        build-Built y (nr_internal_node y (dev_size / 8)) {i = 0} (omega arith)
          (nr_internal_node-le _ fits) (start-Built y _)

    root_in_range :
        (b : ℕ) → b < dev_size / 8 → b / int_node_indexed_blks y < nr_internal_node y (dev_size / 8)
    unfolding nr_internal_node
    root_in_range b h = div-lt-ceil (dev_size / 8) (int_node_indexed_blks y) b indexed_pos h

    leaf_in_range :
        (b : ℕ) → b < dev_size / 8 → b / leaf_node_entries y < nr_leaf_node y (dev_size / 8)
    unfolding nr_leaf_node
    leaf_in_range b h = div-lt-ceil (dev_size / 8) (leaf_node_entries y) b leaves h

    init-built : init y dev_size ≡ (
      record { root = built.root; max_blkid = dev_size / 8; superblock_pbid = invalid_pbid },
      built.pages,
    )
    unfolding init
    init-built = let e : dev_size / 8 % 2 ^ 32 ≡ dev_size / 8 = omega arith in rw e

    leaf_of-init :
        (b : ℕ)
        → b < dev_size / 8
        → leaf_of
            (init y dev_size).0
            (b / int_node_indexed_blks y)
            (b / leaf_node_entries y % int_node_entries y)
          ≡ some (init_leaf_node y (b / leaf_node_entries y * leaf_node_entries y))
    unfolding leaf_of
    leaf_of-init b h =
        let q = b / leaf_node_entries y in
        let (d, at, child) = built-Built.node (b / int_node_indexed_blks y) (root_in_range b h) in
        let e = place_recombined y b in
        rw init-built (
          ground (
            arith,
            at,
            child (q % int_node_entries y) (mod-lt q children) (rw e (leaf_in_range b h)),
            e,
          ))

    -- After `lbz_mapping_init` on a device of at most 64 GiB every block has its leaf, labelled with the
    -- leaf's first block. The mapping holds as many blocks as the device, and one page was taken for
    -- each node.
    pub init-IsTree :
        IsTree y (init y dev_size).0
        × ((init y dev_size).0.max_blkid ≡ dev_size / 8)
        × ((init y dev_size).1 ≡ nr_internal_node y (dev_size / 8) + nr_leaf_node y (dev_size / 8))
    unfolding init_leaf_node
    init-IsTree = (
      record {
        leaf_pos = leaves;
        reach = λ b h. (_, leaf_of-init b (ground (arith, init-built)), length-replicate _ _, refl);
      },
      rw init-built,
      rw init-built
          (omega (arith, built-Built.paged, built-Built.counted, nr_leaf_node-le (dev_size / 8))),
    )

    -- Nothing is mapped then.
    pub mapped-init :
        (b : ℕ) → b < dev_size / 8 → mapped y (init y dev_size).0 b ≡ some invalid_pbid
    unfolding mapped find_specific_node init_leaf_node
    mapped-init b h = ground (
      arith,
      init-built,
      leaf_of-init b h,
      get_elem?-replicate (leaf_node_entries y) (b % leaf_node_entries y) invalid_pbid
          (mod-lt b leaves),
    )
