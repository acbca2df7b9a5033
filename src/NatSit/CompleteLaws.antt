-- ===== src/NatSit/CompleteLaws.antt =====
-- After a transaction no recorded block is mapped, and every other block is where it was.
use lbz.Prelude.{
  ℕ, ◌<◌, ◌≡◌, refl, List, [], ◌∷◌, ◌++◌, some, Bool, false, ◌||◌, ◌==◌, ◌∙◌, if◌then◌else◌, arith,
  Bool-cases, inl, inr,
}
use lbz.Prelude.Words.{inc64}
use lbz.Mapping.{Layout, Mapping, invalid_pbid, mapped}
use lbz.Mapping.Access.{IsTree, add_lem, remove-eq-add}
use lbz.Metadata.{ZoneMetadata}
use lbz.Metadata.Invariant.{Inv}
use lbz.Metadata.Release.{release_block}
use lbz.Metadata.ReleaseLaws.{release_block-Inv}
use lbz.NatSit.{NatSit, clear_nodes}
use lbz.NatSit.Complete.{Freeing, free_blkid, free_node, free_nodes, tx_complete}

abbrev pub contains : ℕ → List ℕ → Bool
contains c [] = false
contains c (b ∷ bs) = b == c || contains c bs

-- The recorded blocks, oldest first.
abbrev pub recorded : List (List ℕ) → List ℕ
recorded [] = []
recorded (node ∷ rest) = node ++ recorded rest

abbrev pub Within : ℕ → List ℕ → Type 0
Within n [] = Unit {0}
Within n (b ∷ bs) = (b < n) × Within n bs

-- The state after the blocks `bs` were freed.
record Freed (y : Layout) (bs : List ℕ) (s s' : Freeing) : Type 0 where
  tree : IsTree y s'.mapping
  inv : Inv s'.zmd
  same : s'.mapping.max_blkid ≡ s.mapping.max_blkid
  map_of :
      (c : ℕ)
      → mapped y s'.mapping c ≡ (if contains c bs then some invalid_pbid else mapped y s.mapping c)

module _ (y : Layout) (zone_no : ℕ → ℕ) where
  -- What follows the removal, which returned `old` and `m`.
  abbrev after_removal : Freeing → ℕ → Mapping → Freeing
  after_removal s old m = if old == invalid_pbid then record s { mapping = m } else record {
    mapping = m;
    zmd = release_block zone_no s.zmd old;
    total_freed_blks = inc64 s.total_freed_blks;
  }

  mapping_after_removal :
      (s : Freeing) (old : ℕ) (m : Mapping) → (after_removal s old m).mapping ≡ m
  mapping_after_removal s old m = ground arith

  after_removal-Inv :
      (s : Freeing) (old : ℕ) (m : Mapping) → Inv s.zmd → Inv (after_removal s old m).zmd
  after_removal-Inv s old m v = elim (Bool-cases (old == invalid_pbid)) [
    | inl e ↦ rw e v
    | inr e ↦ rw e (release_block-Inv zone_no old v)
  ]

  free_blkid-Freed :
      (b : ℕ) {s : Freeing}
      → IsTree y s.mapping
      → Inv s.zmd
      → b < s.mapping.max_blkid
      → (s' : Freeing) × (free_blkid y zone_no b s ≡ some s') × Freed y (b ∷ []) s s'
  unfolding free_blkid
  free_blkid-Freed b {s} t v h =
      let (old, m, e, at, same, law, t') = add_lem y t b invalid_pbid h in
      (
        after_removal s old m,
        ground (arith, e, remove-eq-add y t b),
        record {
          tree = rw (mapping_after_removal s old m) t';
          inv = after_removal-Inv s old m v;
          same = rw (mapping_after_removal s old m) same;
          map_of = λ c. rw (mapping_after_removal s old m) ground (arith, law c);
        },
      )

  free_node-Freed :
      (bs : List ℕ) {s : Freeing}
      → IsTree y s.mapping
      → Inv s.zmd
      → Within s.mapping.max_blkid bs
      → (s' : Freeing) × (free_node y zone_no bs s ≡ some s') × Freed y bs s s'
  unfolding free_node
  free_node-Freed [] t v h =
      (_, refl, record { tree = t; inv = v; same = refl; map_of = λ c. refl })
  free_node-Freed (b ∷ bs) {s} t v h =
      let (s₁, e₁, f₁) = free_blkid-Freed b {s = s} t v h.0 in
      let (s₂, e₂, f₂) = free_node-Freed bs {s = s₁} f₁.tree f₁.inv (rw f₁.same h.1) in
      (
        s₂,
        ground (arith, e₁, e₂),
        record {
          tree = f₂.tree;
          inv = f₂.inv;
          same = f₂.same ∙ f₁.same;
          map_of = λ c. ground (arith, f₂.map_of c, f₁.map_of c);
        },
      )

  pub Within-++ : (n : ℕ) (xs ys : List ℕ) → Within n (xs ++ ys) → Within n xs × Within n ys
  Within-++ n [] ys h = (tt, h)
  Within-++ n (x ∷ xs) ys h = let (a, b) = Within-++ n xs ys h.1 in ((h.0, a), b)

  pub contains-++ :
      (c : ℕ) (xs ys : List ℕ) → contains c (xs ++ ys) ≡ (contains c xs || contains c ys)
  contains-++ c [] ys = refl
  contains-++ c (x ∷ xs) ys = ground (arith, contains-++ c xs ys)

  free_nodes-Freed :
      (nodes : List (List ℕ)) {s : Freeing}
      → IsTree y s.mapping
      → Inv s.zmd
      → Within s.mapping.max_blkid (recorded nodes)
      → (s' : Freeing) × (free_nodes y zone_no nodes s ≡ some s') × Freed y (recorded nodes) s s'
  unfolding free_nodes
  free_nodes-Freed [] t v h =
      (_, refl, record { tree = t; inv = v; same = refl; map_of = λ c. refl })
  free_nodes-Freed (node ∷ rest) {s} t v h =
      let (here, there) = Within-++ s.mapping.max_blkid node (recorded rest) h in
      let (s₁, e₁, f₁) = free_node-Freed node {s = s} t v here in
      let (s₂, e₂, f₂) = free_nodes-Freed rest {s = s₁} f₁.tree f₁.inv (rw f₁.same there) in
      (
        s₂,
        ground (arith, e₁, e₂),
        record {
          tree = f₂.tree;
          inv = f₂.inv;
          same = f₂.same ∙ f₁.same;
          map_of =
              λ c. ground (arith, f₂.map_of c, f₁.map_of c, contains-++ c node (recorded rest));
        },
      )

  -- Where the recorded blocks are blocks of the device, the end of a transaction faults nowhere: it
  -- leaves each recorded block unmapped and every other block where it was, keeps the shape of the tree
  -- and the invariant of the zones, and has no block recorded any more.
  pub tx_complete_lem :
      {mapping : Mapping} {zmd : ZoneMetadata} (m : NatSit)
      → IsTree y mapping
      → Inv zmd
      → Within mapping.max_blkid (recorded m.nodes)
      → (mapping' : Mapping) × (zmd' : ZoneMetadata) × (m' : NatSit) × (tx_complete y zone_no
            mapping zmd m
          ≡ some (mapping', zmd', m'))
        × IsTree y mapping'
        × Inv zmd'
        × ((c : ℕ)
            → mapped y mapping' c
              ≡ (if contains c (recorded m.nodes) then some invalid_pbid else mapped y mapping c))
        × (m'.nodes ≡ [])
        × (m'.to_free_count ≡ 0)
  unfolding tx_complete clear_nodes
  tx_complete_lem {mapping} {zmd} m t v h =
      let start : Freeing = record {
        mapping = mapping;
        zmd = zmd;
        total_freed_blks = m.total_freed_blks;
      } in
      let (s, e, f) = free_nodes-Freed m.nodes {s = start} t v h in
      (
        s.mapping,
        s.zmd,
        record (clear_nodes m) { total_freed_blks = s.total_freed_blks },
        ground (arith, e),
        f.tree,
        f.inv,
        f.map_of,
        refl,
        refl,
      )
