-- ===== src/Mapping/Access.antt =====
-- `lbz_mapping_add` and `lbz_mapping_remove` refine a map from blocks to physical blocks.
use native.Mathlib.Nat.{mod-lt}
use lbz.Prelude.{
  ℕ, zero, suc, [], ◌∷◌, ◌*◌, ◌/◌, ◌%◌, ◌≤◌, ◌<◌, ◌≡◌, refl, List, Option, none, some, length,
  get_elem?, set, length-set, get_elem?-set, get_elem?-lt, ◌==◌, ◌>>=◌, deref, dec_lt, Option-cases,
  inl, inr, ◌&&◌, if◌then◌else◌, arith,
}
use lbz.Mapping.{
  Layout, leaf_node_entries, int_node_entries, int_node_indexed_blks, invalid_pbid, LeafNode,
  Mapping, Slot, leaf_of, find_specific_node, mapped, store_leaf, store_pbid, add, remove,
}
use lbz.Mapping.Index.{place_injective}

-- One slot of an array of pointers after a store to another, or the same.
deref-set {ℓ} :
    {A : Type ℓ} (xs : List (Option A)) (i j : ℕ) (a : A) {old : A}
    → deref (get_elem? xs i) ≡ some old
    → deref (get_elem? (set xs i (some a)) j) ≡ (if i == j then some a else deref (get_elem? xs j))
deref-set [] i j a e = absurd (cc)
deref-set (x ∷ xs) zero zero a e = refl
deref-set (x ∷ xs) zero (suc j) a e = ground arith
deref-set (x ∷ xs) (suc i) zero a e = ground arith
deref-set (x ∷ xs) (suc i) (suc j) a e = ground (arith, deref-set xs i j a e)

leaf_of-store_leaf :
    (m : Mapping) (r i r' i' : ℕ) (leaf : LeafNode) {old : LeafNode}
    → leaf_of m r i ≡ some old
    → leaf_of (store_leaf m r i leaf) r' i'
      ≡ (if r == r' && i == i' then some leaf else leaf_of m r' i')
unfolding leaf_of store_leaf
leaf_of-store_leaf m r i r' i' leaf {old} e = elim (Option-cases (deref (get_elem? m.root r))) [
  | inl z ↦ ground (arith, z)
  | inr (node, z) ↦ ground (
    arith,
    z,
    deref-set m.root r r' (record node { childern = set node.childern i (some leaf) }) z,
    deref-set node.childern i i' leaf {old = old},
  )
]

-- The tree as the code relies on it: every block of the device has a leaf, which holds a full page
-- of entries and is labelled with its first block.
pub record IsTree (y : Layout) (m : Mapping) : Type 0 where
  pub leaf_pos : 0 < leaf_node_entries y
  pub reach :
      (b : ℕ)
      → b < m.max_blkid
      → (leaf : LeafNode) × (leaf_of m
            (b / int_node_indexed_blks y)
            (b / leaf_node_entries y % int_node_entries y)
          ≡ some leaf)
        × (length leaf.pbids ≡ leaf_node_entries y)
        × (leaf.blkid ≡ b / leaf_node_entries y * leaf_node_entries y)

-- What `__find_specific_node` finds for the block `b`.
record Found (y : Layout) (m : Mapping) (b : ℕ) (s : Slot) : Type 0 where
  root_eq : s.root_index ≡ b / int_node_indexed_blks y
  int_eq : s.int_index ≡ b / leaf_node_entries y % int_node_entries y
  index_eq : s.index ≡ b % leaf_node_entries y
  at_leaf : leaf_of m s.root_index s.int_index ≡ some s.leaf
  in_leaf : s.index < length s.leaf.pbids

module _ (y : Layout) {m : Mapping} (v : IsTree y m) where
  find_specific_node-Found :
      (b : ℕ) → b < m.max_blkid → (s : Slot) × (find_specific_node y m b ≡ some s) × Found y m b s
  unfolding find_specific_node
  find_specific_node-Found b h =
      let (leaf, e, full, _) = v.reach b h in
      (
        record {
          root_index = b / int_node_indexed_blks y;
          int_index = b / leaf_node_entries y % int_node_entries y;
          leaf = leaf;
          index = b % leaf_node_entries y;
        },
        ground arith,
        record {
          root_eq = refl;
          int_eq = refl;
          index_eq = refl;
          at_leaf = e;
          in_leaf = rw full (mod-lt b v.leaf_pos);
        },
      )

same_place :
    (y : Layout) (b c : ℕ)
    → b / int_node_indexed_blks y ≡ c / int_node_indexed_blks y
    → b / leaf_node_entries y % int_node_entries y ≡ c / leaf_node_entries y % int_node_entries y
    → b % leaf_node_entries y ≡ c % leaf_node_entries y
    → b ≡ c
unfolding int_node_indexed_blks
same_place y b c p q r = place_injective (leaf_node_entries y) (int_node_entries y) b c p q r

max_blkid-store_pbid : (m : Mapping) (s : Slot) (p : ℕ) → (store_pbid m s p).max_blkid ≡ m.max_blkid
unfolding store_pbid store_leaf
max_blkid-store_pbid m s p = ground arith

mapped_past_end : (y : Layout) (m : Mapping) (c : ℕ) → m.max_blkid ≤ c → mapped y m c ≡ none
unfolding mapped find_specific_node
mapped_past_end y m c h = ground arith

module _ (y : Layout) {m : Mapping} where
  -- The leaf that another block's slot shows after a store.
  leaf_of-store_pbid :
      {b : ℕ} (c p : ℕ) {s t : Slot}
      → Found y m b s
      → Found y m c t
      → leaf_of (store_pbid m s p) t.root_index t.int_index ≡ (
          if s.root_index == t.root_index && s.int_index == t.int_index
          then some (record (s.leaf) { pbids = set s.leaf.pbids s.index p })
          else some t.leaf)
  unfolding store_pbid
  leaf_of-store_pbid c p {s} {t} f g = ground (
    arith,
    leaf_of-store_leaf m s.root_index s.int_index t.root_index t.int_index
        (record (s.leaf) { pbids = set s.leaf.pbids s.index p }) f.at_leaf,
    g.at_leaf,
  )

  -- A store to the slot of `b` is seen at `b`, and nowhere else.
  pbids-store_pbid :
      (b c p : ℕ) {s t : Slot}
      → Found y m b s
      → Found y m c t
      → (leaf_of (store_pbid m s p) t.root_index t.int_index >>= λ leaf.
          get_elem? leaf.pbids t.index)
        ≡ (if b == c then some p else get_elem? t.leaf.pbids t.index)
  pbids-store_pbid b c p {s} {t} f g = ground (
    arith,
    leaf_of-store_pbid c p f g,
    get_elem?-set s.leaf.pbids s.index t.index p f.in_leaf,
    f.at_leaf,
    g.at_leaf,
    same_place y b c,
  )

  mapped-Found :
      (c : ℕ) {t : Slot}
      → c < m.max_blkid
      → Found y m c t
      → mapped y m c ≡ get_elem? t.leaf.pbids t.index
  unfolding mapped find_specific_node
  mapped-Found c {t} h g = ground (arith, g.at_leaf)

  mapped-store_pbid :
      (b c p : ℕ) {s t : Slot}
      → c < m.max_blkid
      → Found y m b s
      → Found y m c t
      → mapped y (store_pbid m s p) c ≡ (if b == c then some p else mapped y m c)
  unfolding mapped find_specific_node
  mapped-store_pbid b c p {s} {t} h f g =
      ground (arith, pbids-store_pbid b c p f g, max_blkid-store_pbid m s p, mapped-Found c h g)

  -- A store keeps the shape of the tree.
  store_pbid-IsTree :
      (b p : ℕ) {s : Slot} → IsTree y m → Found y m b s → IsTree y (store_pbid m s p)
  unfolding store_pbid
  store_pbid-IsTree b p {s} v f = record {
    leaf_pos = v.leaf_pos;
    reach = λ c h.
        let (leaf, e, full, first) = v.reach c (omega (arith, max_blkid-store_pbid m s p)) in
        let r = c / int_node_indexed_blks y in
        let i = c / leaf_node_entries y % int_node_entries y in
        let changed = record (s.leaf) { pbids = set s.leaf.pbids s.index p } in
        let at = leaf_of-store_leaf m s.root_index s.int_index r i changed f.at_leaf in
        let kept = length-set s.leaf.pbids s.index p in
        (
          if s.root_index == r && s.int_index == i then changed else leaf,
          ground (arith, at, e),
          ground (arith, kept, e, full, f.at_leaf),
          ground (arith, e, first, f.at_leaf),
        );
  }

module _ (y : Layout) {m : Mapping} (v : IsTree y m) where
  mapped-store_pbid_all :
      (b c p : ℕ) {s : Slot}
      → b < m.max_blkid
      → Found y m b s
      → mapped y (store_pbid m s p) c ≡ (if b == c then some p else mapped y m c)
  mapped-store_pbid_all b c p {s} h f = elim (dec_lt c m.max_blkid) [
    | yes k ↦ let (t, _, g) = find_specific_node-Found y v c k in mapped-store_pbid y b c p k f g
    | no k ↦ ground (
      arith,
      mapped_past_end y m c,
      mapped_past_end y (store_pbid m s p) c,
      max_blkid-store_pbid m s p,
    )
  ]

  -- What an access to a block of the device leaves: the entry of `b` becomes `p`, every other one and
  -- the shape of the tree stay, and the old entry is returned.
  abbrev pub Replaces : ℕ → ℕ → Option (ℕ × Mapping) → Type 0
  Replaces b p result =
      (old : ℕ) × (m' : Mapping) × (result ≡ some (old, m'))
      × (mapped y m b ≡ some old)
      × (m'.max_blkid ≡ m.max_blkid)
      × ((c : ℕ) → mapped y m' c ≡ (if b == c then some p else mapped y m c))
      × IsTree y m'

  -- `lbz_mapping_add` on a block of the device neither faults nor reaches a null node: it returns the
  -- old entry, puts `pbid` there, and changes no other block's entry.
  pub add_lem : (b pbid : ℕ) → b < m.max_blkid → Replaces b pbid (add y m b pbid)
  unfolding add
  add_lem b pbid h =
      let (s, e, f) = find_specific_node-Found y v b h in
      let (old, at) = get_elem?-lt s.leaf.pbids s.index f.in_leaf in
      (
        old,
        store_pbid m s pbid,
        ground (arith, e, at),
        ground (arith, mapped-Found y b h f, at),
        max_blkid-store_pbid m s pbid,
        λ c. mapped-store_pbid_all b c pbid h f,
        store_pbid-IsTree y b pbid v f,
      )

  -- `lbz_mapping_remove` does the same with the invalid block.
  pub remove-eq-add : (b : ℕ) → remove y m b ≡ add y m b invalid_pbid
  unfolding remove add
  remove-eq-add b = refl

-- Past the end of the device both run into the `BUG_ON`, and so does a lookup.
pub access_past_end :
    (y : Layout) (m : Mapping) (b pbid : ℕ)
    → m.max_blkid ≤ b
    → (add y m b pbid ≡ none) × (remove y m b ≡ none) × (mapped y m b ≡ none)
unfolding add remove mapped find_specific_node
access_past_end y m b pbid h = ground arith
