-- ===== src/IoScheduler/TaskTree/Laws.antt =====
-- One task for a block: what the walk finds, and where it puts a new task.
use lbz.Prelude.{
  ℕ, ◌+◌, ◌<◌, ◌≡◌, refl, List, [], ◌∷◌, ◌++◌, none, some, ltb, ◌==◌, Bool-cases, if◌then◌else◌,
  inl, inr, arith,
}
use lbz.Metadata.Places.{count, count-append}
use lbz.IoScheduler.TaskTree.{Tree, leaf, node, in_order, conflict, link, search_task}
use lbz.IoScheduler.TaskTree.Order.{
  AllBelow, AllAbove, Rising, find_task, Rising-Parted, Parted-Rising, find_task_below,
  find_task_above, find_task-append, find_task-append_left, AllBelow-mono, AllAbove-mono,
}

module _ (key : ℕ → ℕ) where
  -- In a tree whose tasks stand in the order of their blocks the walk finds the task of a block if
  -- there is one, and none else.
  pub conflict-find_task :
      (k : ℕ) (t : Tree) → Rising key (in_order t) → conflict key k t ≡ find_task key k (in_order t)
  unfolding conflict in_order
  conflict-find_task k leaf v = refl
  conflict-find_task k (node l x r) v =
      let p = Rising-Parted key (in_order l) x (in_order r) v in
      elim (Bool-cases (ltb (key x) k)) [
        | inl less ↦ rw less (
            ground (
              arith,
              conflict-find_task k r p.right,
              find_task_below key k (key x) (in_order l) p.below,
              find_task-append key k (in_order l) (x ∷ in_order r),
            ))
        | inr no_less ↦ ground (
          arith,
          no_less,
          conflict-find_task k l p.left,
          find_task_above key k (key x) (in_order r) p.above,
          find_task_below key k (key x) (in_order l) p.below,
          find_task-append_left key k (in_order l) (x ∷ in_order r),
          find_task-append key k (in_order l) (x ∷ in_order r),
        )
      ]

  below-append :
      (a : ℕ) (xs ys : List ℕ) → AllBelow key a xs → AllBelow key a ys → AllBelow key a (xs ++ ys)
  below-append a [] ys v w = w
  below-append a (x ∷ xs) ys v w = (v.0, below-append a xs ys v.1 w)

  above-append :
      (a : ℕ) (xs ys : List ℕ) → AllAbove key a xs → AllAbove key a ys → AllAbove key a (xs ++ ys)
  above-append a [] ys v w = w
  above-append a (x ∷ xs) ys v w = (v.0, above-append a xs ys v.1 w)

  below-split :
      (a : ℕ) (xs ys : List ℕ) → AllBelow key a (xs ++ ys) → AllBelow key a xs × AllBelow key a ys
  below-split a [] ys v = (tt, v)
  below-split a (x ∷ xs) ys v = let (p, q) = below-split a xs ys v.1 in ((v.0, p), q)

  above-split :
      (a : ℕ) (xs ys : List ℕ) → AllAbove key a (xs ++ ys) → AllAbove key a xs × AllAbove key a ys
  above-split a [] ys v = (tt, v)
  above-split a (x ∷ xs) ys v = let (p, q) = above-split a xs ys v.1 in ((v.0, p), q)

  AllBelow-link :
      (a new : ℕ) (t : Tree)
      → AllBelow key a (in_order t)
      → key new < a
      → AllBelow key a (in_order (link key new t))
  unfolding link in_order
  AllBelow-link a new leaf v h = (h, tt)
  AllBelow-link a new (node l x r) v h =
      let (p, q) = below-split a (in_order l) (x ∷ in_order r) v in
      let right =
        below-append a (in_order l) (x ∷ in_order (link key new r)) p
          (q.0, AllBelow-link a new r q.1 h) in
      let left =
        below-append a (in_order (link key new l)) (x ∷ in_order r) (AllBelow-link a new l p h) q in
      ground (arith, right, left, v)

  AllAbove-link :
      (a new : ℕ) (t : Tree)
      → AllAbove key a (in_order t)
      → a < key new
      → AllAbove key a (in_order (link key new t))
  unfolding link in_order
  AllAbove-link a new leaf v h = (h, tt)
  AllAbove-link a new (node l x r) v h =
      let (p, q) = above-split a (in_order l) (x ∷ in_order r) v in
      let right =
        above-append a (in_order l) (x ∷ in_order (link key new r)) p
          (q.0, AllAbove-link a new r q.1 h) in
      let left =
        above-append a (in_order (link key new l)) (x ∷ in_order r) (AllAbove-link a new l p h) q in
      ground (arith, right, left, v)

  pub link-Rising :
      (new : ℕ) (t : Tree) → Rising key (in_order t) → Rising key (in_order (link key new t))
  unfolding link in_order
  link-Rising new leaf v = (tt, tt)
  link-Rising new (node l x r) v =
      let p = Rising-Parted key (in_order l) x (in_order r) v in
      elim (Bool-cases (ltb (key x) (key new))) [
        | inl more ↦ rw more (
            Parted-Rising key (in_order l) x (in_order (link key new r)) (record {
              left = p.left;
              right = link-Rising new r p.right;
              below = p.below;
              above = AllAbove-link (key x) new r p.above (ground arith);
            }))
        | inr no_more ↦ rw no_more (elim (Bool-cases (ltb (key new) (key x))) [
          | inl less ↦ rw less (
              Parted-Rising key (in_order (link key new l)) x (in_order r) (record {
                left = link-Rising new l p.left;
                right = p.right;
                below = AllBelow-link (key x) new l p.below (ground arith);
                above = p.above;
              }))
          | inr same ↦ rw same v
        ])
      ]

  -- The walk that meets no task of the block links the new one: it stands in the tree once more, and every
  -- other task as often as before.
  pub count-link :
      (new j : ℕ) (t : Tree)
      → conflict key (key new) t ≡ none
      → count j (in_order (link key new t)) ≡ count j (in_order t) + (if new == j then 1 else 0)
  unfolding link conflict in_order
  count-link new j leaf e = ground arith
  count-link new j (node l x r) e = elim (Bool-cases (ltb (key x) (key new))) [
    | inl more ↦ rw more (
        ground (
          arith,
          more,
          e,
          count-append j (in_order l) (x ∷ in_order r),
          count-append j (in_order l) (x ∷ in_order (link key new r)),
          count-link new j r,
        ))
    | inr no_more ↦ rw no_more (elim (Bool-cases (ltb (key new) (key x))) [
      | inl less ↦ rw less (
          ground (
            arith,
            no_more,
            less,
            e,
            count-append j (in_order l) (x ∷ in_order r),
            count-append j (in_order (link key new l)) (x ∷ in_order r),
            count-link new j l,
          ))
      | inr same ↦ absurd (ground (arith, no_more, same, e))
    ])
  ]

  search_below : (k : ℕ) (t : Tree) → AllBelow key k (in_order t) → search_task key k t ≡ none
  unfolding search_task in_order
  search_below k leaf v = refl
  search_below k (node l x r) v =
      let (p, q) = below-split k (in_order l) (x ∷ in_order r) v in
      ground (arith, search_below k l p, q.0)

  search_above : (k : ℕ) (t : Tree) → AllAbove key k (in_order t) → search_task key k t ≡ none
  unfolding search_task in_order
  search_above k leaf v = refl
  search_above k (node l x r) v =
      let (p, q) = above-split k (in_order l) (x ∷ in_order r) v in
      ground (arith, search_above k r q.1, q.0)

  -- In a tree in order `search_task` finds the task at the root, and no other: it turns the wrong way.
  pub search_task_root_only :
      (k : ℕ) (l : Tree) (x : ℕ) (r : Tree)
      → Rising key (in_order (node l x r))
      → search_task key k (node l x r) ≡ (if key x == k then some x else none)
  unfolding search_task in_order
  search_task_root_only k l x r v =
      let p = Rising-Parted key (in_order l) x (in_order r) v in
      elim (Bool-cases (ltb k (key x))) [
        | inl less ↦ ground (
          arith,
          less,
          search_above k r (AllAbove-mono key k (key x) (in_order r) (ground arith) p.above),
        )
        | inr no_less ↦ elim (Bool-cases (ltb (key x) k)) [
          | inl more ↦ ground (
            arith,
            no_less,
            more,
            search_below k l (AllBelow-mono key (key x) k (in_order l) (ground arith) p.below),
          )
          | inr same ↦ ground (arith, no_less, same)
        ]
      ]
