-- ===== src/IoScheduler/Discard.antt =====
-- The end of a transaction, `lbz_nat_sit_tx_complete`, keeps the mapping and the reverse maps agreeing.
use lbz.Prelude.{
  ◌⊎◌, ◌++◌, ◌≢◌, ap, true, Option, none, Option-cases, ℕ, ◌<◌, ◌≡◌, sym, List, [], ◌∷◌, some,
  Bool-cases, inl, inr, ◌==◌, refl, ◌∙◌, if◌then◌else◌, arith,
}
use lbz.Prelude.Words.{inc64}
use lbz.Metadata.{ZoneMetadata, get_zone_by_pbid}
use lbz.Metadata.Release.{release_in_zone, release_block}
use lbz.Mapping.{Layout, Mapping, invalid_pbid, mapped}
use lbz.Mapping.Access.{IsTree, add_lem, remove-eq-add}
use lbz.NatSit.{NatSit, clear_nodes}
use lbz.NatSit.Complete.{Freeing, free_blkid, free_node, free_nodes, tx_complete}
use lbz.NatSit.CompleteLaws.{Within, recorded, Within-++, contains, contains-++}
use lbz.IoScheduler.Reverse.{reverse_at, reverse_at-release_in_zone}
use lbz.IoScheduler.Consistent.{Agree}

module _ (y : Layout) (zone_no : ℕ → ℕ) where
  module _ {m : Mapping} {zmd : ZoneMetadata} (v : Agree y zone_no m zmd) where
    -- The block `b` is mapped to nothing, and `old`, which held it, belongs to none.
    record Dropped (b old : ℕ) (m' : Mapping) (zmd' : ZoneMetadata) : Type 0 where
      tree : IsTree y m'
      same : m'.max_blkid ≡ m.max_blkid
      map_of : (c : ℕ) → mapped y m' c ≡ (if b == c then some invalid_pbid else mapped y m c)
      reverse_of :
          (q : ℕ)
          → q < invalid_pbid
          → reverse_at zone_no zmd' q
            ≡ (if old == q then some invalid_pbid else reverse_at zone_no zmd q)

    Agree-Dropped :
        (b old : ℕ) {m' : Mapping} {zmd' : ZoneMetadata}
        → b < m.max_blkid
        → mapped y m b ≡ some old
        → Dropped b old m' zmd'
        → Agree y zone_no m' zmd'
    Agree-Dropped b old {m'} {zmd'} h e w = record {
      tree = w.tree;
      bounded = rw (w.same) v.bounded;
      forward = λ c q k f nq. elim (Bool-cases (b == c)) [
        | inl here ↦ absurd (ground (arith, w.map_of c, f, here, nq))
        | inr there ↦
            let g : mapped y m c ≡ some q = ground (arith, w.map_of c, f, there) in
            let (lt, r) = v.forward c q (rw (sym w.same) k) g nq in
            (lt, ground (arith, w.reverse_of q lt, r, there, e, g, v.forward b old h e))
      ];
      backward = λ q c k f nc.
          let held = v.backward q c k in
          let (lt, g) : (c < m.max_blkid) × (mapped y m' c ≡ some q) =
            ground (arith, w.reverse_of q k, w.map_of c, f, held, e, nc, h) in
          (rw w.same lt, g);
    }

  -- What freeing the blocks `bs` leaves: a block that lost its physical block left it free.
  record Left (bs : List ℕ) (s s' : Freeing) : Type 0 where
    agree : Agree y zone_no s'.mapping s'.zmd
    same : s'.mapping.max_blkid ≡ s.mapping.max_blkid
    map_of :
        (c : ℕ)
        → mapped y s'.mapping c
          ≡ (if contains c bs then some invalid_pbid else mapped y s.mapping c)
    reverse_of :
        (q : ℕ)
        → q < invalid_pbid
        → (reverse_at zone_no s'.zmd q ≡ some invalid_pbid)
          ⊎ (reverse_at zone_no s'.zmd q ≡ reverse_at zone_no s.zmd q)
    released :
        (c p : ℕ)
        → c < s.mapping.max_blkid
        → contains c bs ≡ true
        → mapped y s.mapping c ≡ some p
        → p ≢ invalid_pbid
        → reverse_at zone_no s'.zmd p ≡ some invalid_pbid

  Left-none : (s : Freeing) → Agree y zone_no s.mapping s.zmd → Left [] s s
  Left-none s v = record {
    agree = v;
    same = refl;
    map_of = λ c. refl;
    reverse_of = λ q k. inr refl;
    released = λ c p h on f np. absurd (ground (arith, on));
  }

  -- One after the other.
  Left-++ :
      (xs ys : List ℕ) {s s₁ s₂ : Freeing}
      → Agree y zone_no s.mapping s.zmd
      → Left xs s s₁
      → Left ys s₁ s₂
      → Left (xs ++ ys) s s₂
  Left-++ xs ys {s} {s₁} {s₂} v f g = record {
    agree = g.agree;
    same = g.same ∙ f.same;
    map_of = λ c. ground (arith, g.map_of c, f.map_of c, contains-++ y zone_no c xs ys);
    reverse_of = λ q k. elim (g.reverse_of q k) [
      | inl free ↦ inl free
      | inr kept ↦ elim (f.reverse_of q k) [
        | inl free ↦ inl (kept ∙ free)
        | inr kept' ↦ inr (kept ∙ kept')
      ]
    ];
    released = λ c p h on e np. elim (Bool-cases (contains c xs)) [
      | inl here ↦
          let free = f.released c p h here e np in
          elim (g.reverse_of p (v.forward c p h e np).0) [
            | inl free' ↦ free'
            | inr kept ↦ kept ∙ free
          ]
      | inr there ↦
          g.released c p (rw f.same h) (ground (arith, on, there, contains-++ y zone_no c xs ys))
            (ground (arith, f.map_of c, there, e)) np
    ];
  }

  Dropped-Left :
      (b old : ℕ) {s s' : Freeing}
      → (v : Agree y zone_no s.mapping s.zmd) → b < s.mapping.max_blkid
      → mapped y s.mapping b ≡ some old
      → Dropped v b old s'.mapping s'.zmd
      → Left (b ∷ []) s s'
  Dropped-Left b old {s} {s'} v h e w = record {
    agree = Agree-Dropped v b old h e w;
    same = w.same;
    map_of = λ c. ground (arith, w.map_of c);
    reverse_of = λ q k. elim (Bool-cases (old == q)) [
      | inl here ↦ inl (ground (arith, w.reverse_of q k, here))
      | inr there ↦ inr (ground (arith, w.reverse_of q k, there))
    ];
    released = λ c p k on f np.
        let lt = (v.forward c p k f np).0 in
        let same : b ≡ c = ground (arith, on) in
        let at : some old ≡ some p = sym e ∙ ap (mapped y s.mapping) same ∙ f in
        ground (arith, w.reverse_of p lt, at);
  }

  -- The physical block that a recorded block was mapped to, if any, belongs to none.
  abbrev pub IsReleased : ZoneMetadata → Option ℕ → Type 0
  IsReleased zmd none = Unit {0}
  IsReleased zmd (some p) = (p ≡ invalid_pbid) ⊎ (reverse_at zone_no zmd p ≡ some invalid_pbid)

  -- Each block of a list is mapped to nothing, and what it was mapped to is released.
  abbrev pub AreReleased : Mapping → Mapping → ZoneMetadata → List ℕ → Type 0
  AreReleased before after zmd [] = Unit {0}
  AreReleased before after zmd (b ∷ bs) =
      (mapped y after b ≡ some invalid_pbid)
      × IsReleased zmd (mapped y before b)
      × AreReleased before after zmd bs

  Left-AreReleased :
      (all bs : List ℕ) {s s' : Freeing}
      → Left all s s'
      → Within s.mapping.max_blkid bs
      → ((c : ℕ) → contains c bs ≡ true → contains c all ≡ true)
      → AreReleased s.mapping s'.mapping s'.zmd bs
  Left-AreReleased all [] f h sub = tt
  Left-AreReleased all (b ∷ bs) {s} {s'} f h sub =
      let on = sub b (ground arith) in
      (
        ground (arith, f.map_of b, on),
        elim (Option-cases (mapped y s.mapping b)) [
          | inl e ↦ rw e tt
          | inr (p, e) ↦ rw e (elim (Bool-cases (p == invalid_pbid)) [
            | inl unmapped ↦ inl (ground (arith, unmapped))
            | inr had ↦ inr (f.released b p h.0 on e (ground (arith, had)))
          ])
        ],
        Left-AreReleased all bs f h.1 (λ c k. sub c (ground (arith, k))),
      )

  free_blkid-Left :
      (b : ℕ) {s : Freeing}
      → Agree y zone_no s.mapping s.zmd
      → b < s.mapping.max_blkid
      → (s' : Freeing) × (free_blkid y zone_no b s ≡ some s') × Left (b ∷ []) s s'
  unfolding free_blkid release_block
  free_blkid-Left b {s} v h =
      let (old, m', a, e, same, law, t) = add_lem y v.tree b invalid_pbid h in
      let gone = remove-eq-add y v.tree b in
      elim (Bool-cases (old == invalid_pbid)) [
        | inl unmapped ↦
            let w : Dropped v b old m' s.zmd = record {
              tree = t;
              same = same;
              map_of = law;
              reverse_of = λ q k. ground (arith, unmapped);
            } in
            (record s { mapping = m' }, rw (gone, a, unmapped) refl, Dropped-Left b old v h e w)
        | inr had ↦
            let (lt, r) = v.forward b old h e (ground (arith, had)) in
            let w : Dropped v b old m' (release_in_zone s.zmd (get_zone_by_pbid zone_no old) old) =
              record {
                tree = t;
                same = same;
                map_of = law;
                reverse_of = λ q k.
                    reverse_at-release_in_zone zone_no s.zmd old q {old = b} (omega (arith, lt))
                      (omega (arith, k)) r;
              } in
            (
              record {
                mapping = m';
                zmd = release_in_zone s.zmd (get_zone_by_pbid zone_no old) old;
                total_freed_blks = inc64 s.total_freed_blks;
              },
              rw (gone, a, had) refl,
              Dropped-Left b old v h e w,
            )
      ]

  free_node-Left :
      (node : List ℕ) {s : Freeing}
      → Agree y zone_no s.mapping s.zmd
      → Within s.mapping.max_blkid node
      → (s' : Freeing) × (free_node y zone_no node s ≡ some s') × Left node s s'
  unfolding free_node
  free_node-Left [] {s} v h = (s, refl, Left-none s v)
  free_node-Left (b ∷ rest) {s} v h =
      let (s₁, e₁, f₁) = free_blkid-Left b {s = s} v h.0 in
      let (s₂, e₂, f₂) = free_node-Left rest {s = s₁} f₁.agree (rw f₁.same h.1) in
      (s₂, rw (e₁, e₂) refl, Left-++ (b ∷ []) rest v f₁ f₂)

  free_nodes-Left :
      (nodes : List (List ℕ)) {s : Freeing}
      → Agree y zone_no s.mapping s.zmd
      → Within s.mapping.max_blkid (recorded nodes)
      → (s' : Freeing) × (free_nodes y zone_no nodes s ≡ some s') × Left (recorded nodes) s s'
  unfolding free_nodes
  free_nodes-Left [] {s} v h = (s, refl, Left-none s v)
  free_nodes-Left (node ∷ rest) {s} v h =
      let (here, there) = Within-++ y zone_no s.mapping.max_blkid node (recorded rest) h in
      let (s₁, e₁, f₁) = free_node-Left node {s = s} v here in
      let (s₂, e₂, f₂) = free_nodes-Left rest {s = s₁} f₁.agree (rw f₁.same there) in
      (s₂, rw (e₁, e₂) refl, Left-++ node (recorded rest) v f₁ f₂)

  -- Where the mapping and the reverse maps agree and the recorded blocks are blocks of the device, the end
  -- of a transaction faults nowhere and leaves the two agreeing, on as many blocks as before. Each recorded
  -- block is then mapped to nothing, and the physical block that it was mapped to, if any, is free.
  pub tx_complete-Agree :
      {mapping : Mapping} {zmd : ZoneMetadata} (m : NatSit)
      → Agree y zone_no mapping zmd
      → Within mapping.max_blkid (recorded m.nodes)
      → (mapping' : Mapping) × (zmd' : ZoneMetadata) × (m' : NatSit) × (tx_complete y zone_no
            mapping zmd m
          ≡ some (mapping', zmd', m'))
        × Agree y zone_no mapping' zmd'
        × (mapping'.max_blkid ≡ mapping.max_blkid)
        × AreReleased mapping mapping' zmd' (recorded m.nodes)
  unfolding tx_complete
  tx_complete-Agree {mapping} {zmd} m v h =
      let start : Freeing = record {
        mapping = mapping;
        zmd = zmd;
        total_freed_blks = m.total_freed_blks;
      } in
      let (s, e, f) = free_nodes-Left m.nodes {s = start} v h in
      (
        s.mapping,
        s.zmd,
        record (clear_nodes m) { total_freed_blks = s.total_freed_blks },
        rw e refl,
        f.agree,
        f.same,
        Left-AreReleased (recorded m.nodes) (recorded m.nodes) f h (λ c k. k),
      )
