-- ===== src/IoScheduler/TaskTree.antt =====
-- The tree of tasks: the walks of `insert_task_to_tree` and `search_task`. A node is a task's number;
-- `key` reads its `blkid`.
pub mod Order
pub mod Laws
pub mod Tests
use lbz.Prelude.{ℕ, List, [], ◌∷◌, ◌++◌, Option, none, some, ltb, if◌then◌else◌}

-- `struct rb_node`, less the colour.
pub data Tree : Type 0 where
  leaf : Tree
  node : Tree → ℕ → Tree → Tree

unfoldable pub in_order : Tree → List ℕ
in_order leaf = []
in_order (node l x r) = in_order l ++ (x ∷ in_order r)

-- The kernel's `rb_insert_color` and `rb_erase`.
pub record RbTree : Type 0 where
  pub insert_color : Tree → Tree
  pub erase : Tree → ℕ → Tree

module _ (key : ℕ → ℕ) where
  -- The loop of `insert_task_to_tree`: the task that it meets with the same key, if any.
  unfoldable pub conflict : ℕ → Tree → Option ℕ
  conflict k leaf = none
  conflict k (node l x r) =
      let right = conflict k r in
      let left = conflict k l in
      if ltb (key x) k then right else if ltb k (key x) then left else some x

  -- `rb_link_node` where the loop stops.
  unfoldable pub link : ℕ → Tree → Tree
  link new leaf = node leaf new leaf
  link new (node l x r) =
      let right = link new r in
      let left = link new l in
      if ltb (key x) (key new)
      then node l x right
      else if ltb (key new) (key x)
      then node left x r
      else node l x r

  -- The loop of `search_task`. It goes right where the node's key is the larger.
  unfoldable pub search_task : ℕ → Tree → Option ℕ
  search_task k leaf = none
  search_task k (node l x r) =
      let right = search_task k r in
      let left = search_task k l in
      if ltb k (key x) then right else if ltb (key x) k then left else some x
