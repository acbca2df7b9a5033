-- ===== src/IoScheduler/Inserting.antt =====
-- `insert_task_to_tree`: one write of a block is under way at a time.
use lbz.Prelude.{
  ℕ, ◌+◌, ◌≡◌, refl, sym, ◌∙◌, Option, none, some, Option-cases, inl, inr, ◌==◌, if◌then◌else◌,
  arith,
}
use lbz.Prelude.Words.{inc32, inc64}
use lbz.Metadata.Places.{count}
use lbz.IoScheduler.{Device, Env}
use lbz.IoScheduler.TaskTree.{Tree, RbTree, in_order, conflict, link}
use lbz.IoScheduler.TaskTree.Order.{Rising, find_task}
use lbz.IoScheduler.TaskTree.Laws.{conflict-find_task, link-Rising, count-link}
use lbz.IoScheduler.Tasks.{task_get, key_of, insert_task_to_tree}

-- The kernel's promise on `rb_insert_color`: the nodes keep their order.
abbrev pub KeepsOrder : RbTree → Type 0
KeepsOrder rb = (t : Tree) → in_order (rb.insert_color t) ≡ in_order t

-- The task that takes the reference: the one of the same block, or the new one.
abbrev pub holder : Option ℕ → ℕ → ℕ
holder none i = i
holder (some other) i = other

abbrev pub added : Option ℕ → ℕ
added none = 1
added (some other) = 0

module _ (env : Env) (promise : KeepsOrder env.rb_tree) where
  -- In a tree whose tasks stand in the order of their blocks, the walk finds the task of the new task's
  -- block if there is one, and then only gives it a reference. Else the new task gets the reference and
  -- stands in the tree, in order, once more; every other task stands in it as often as before. No
  -- task's block changes.
  pub insert_task_to_tree_lem :
      (d : Device) (i : ℕ)
      → Rising (key_of d) (in_order d.task_tree)
      → (other : Option ℕ) × (d' : Device) × (insert_task_to_tree env d i ≡ (other, d'))
        × (other ≡ find_task (key_of d) (key_of d i) (in_order d.task_tree))
        × Rising (key_of d) (in_order d'.task_tree)
        × ((j : ℕ)
            → count j (in_order d'.task_tree)
              ≡ count j (in_order d.task_tree) + (if i == j then added other else 0))
        × ((j : ℕ)
            → (d'.tasks j).refcount
              ≡ (if holder other i == j then inc32 (d.tasks j).refcount else (d.tasks j).refcount))
        × ((j : ℕ) → key_of d' j ≡ key_of d j)
  unfolding insert_task_to_tree task_get
  insert_task_to_tree_lem d i v =
      let found = conflict-find_task (key_of d) (key_of d i) d.task_tree v in
      elim (Option-cases (conflict (key_of d) (key_of d i) d.task_tree)) [
        | inl e ↦
            let linked = promise (link (key_of d) i d.task_tree) in
            (
              none,
              record (task_get d i) {
                task_tree = env.rb_tree.insert_color (link (key_of d) i d.task_tree);
                task_count = inc64 d.task_count;
              },
              rw (e, insert_task_to_tree) refl,
              sym e ∙ found,
              rw linked (link-Rising (key_of d) i d.task_tree v),
              λ j. rw linked (count-link (key_of d) i j d.task_tree e),
              λ j. ground arith,
              λ j. ground arith,
            )
        | inr (k, e) ↦ (
          some k,
          task_get d k,
          rw (e, insert_task_to_tree) refl,
          sym e ∙ found,
          v,
          λ j. ground arith,
          λ j. ground arith,
          λ j. ground arith,
        )
      ]
