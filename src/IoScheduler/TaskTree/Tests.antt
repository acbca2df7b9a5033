-- ===== src/IoScheduler/TaskTree/Tests.antt =====
-- Three tasks in a tree: task 1 writes block 20, task 0 block 10 and task 2 block 30.
use lbz.Prelude.{ℕ, ◌+◌, ◌*◌, ◌≡◌, some, none, ◌==◌, if◌then◌else◌, arith}
use lbz.IoScheduler.TaskTree.{Tree, leaf, node, in_order, search_task}
use lbz.IoScheduler.TaskTree.Order.{Rising}
use lbz.IoScheduler.TaskTree.Laws.{search_task_root_only}

abbrev block : ℕ → ℕ
block i = 10 * i + 10

abbrev three : Tree
three = node (node leaf 0 leaf) 1 (node leaf 2 leaf)

three-Rising : Rising block (in_order three)
unfolding in_order
three-Rising = ground arith

search_task_root_only_example :
    search_task block 30 three ≡ (if block 1 == 30 then some 1 else none)
search_task_root_only_example =
    search_task_root_only block 30 (node leaf 0 leaf) 1 (node leaf 2 leaf) three-Rising
