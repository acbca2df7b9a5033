-- ===== src/IoScheduler/Tasks.antt =====
-- The life of a task: its references, its place in the tree, its place in the two lists of retries.
use lbz.Prelude.{
  ℕ, ◌+◌, [], ◌∷◌, ◌++◌, Option, none, some, true, false, update, ◌==◌, if◌then◌else◌,
}
use lbz.Prelude.Words.{inc32, dec32, inc64, dec64}
use lbz.Request.{Bio}
use lbz.IoScheduler.TaskTree.{conflict, link}
use lbz.IoScheduler.{TaskType, TaskStatus, absent, buffer, failed, Task, Device, Env, modify_task}

unfoldable pub task_get : Device → ℕ → Device
task_get d i = modify_task d i (λ t. record t { refcount = inc32 t.refcount })

-- `__task_init` and the fields that `lbz_submit_io_to_iosched` or `lbz_submit_gc_to_iosched` set.
unfoldable pub new_task : TaskType → Bio → Task
new_task type bio = record {
  bio = bio;
  blkid = 0;
  pbid = 0;
  page = false;
  integrity_buf = absent;
  zone = none;
  read_zone = none;
  refcount = 1;
  error = none;
  status = TaskStatus.init;
  type = type;
  pending_gc_node = none;
  freed = false;
}

-- `task_alloc`: the task's number, and the device with it.
unfoldable pub task_alloc : Task → Device → ℕ × Device
task_alloc t d =
    (d.next_task, record d { tasks = update d.tasks d.next_task t; next_task = d.next_task + 1 })

-- `task_destroy`; `none` where it would clear and free an error pointer.
unfoldable pub task_destroy : Device → ℕ → Option Device
task_destroy d i = elim ((d.tasks i).integrity_buf) [
  | failed e ↦ none
  | absent ↦ some (modify_task d i (λ t. record t { freed = true }))
  | buffer log ↦ some (modify_task d i (λ t. record t { freed = true }))
]

-- `atomic_dec(&task->refcount)`
unfoldable pub drop_ref : Device → ℕ → Device
drop_ref d i = modify_task d i (λ t. record t { refcount = dec32 t.refcount })

-- `task_put` on a task of the collector, which calls no callback.
unfoldable pub gc_task_put : Device → ℕ → Option Device
gc_task_put d i =
    let d' = drop_ref d i in if (d'.tasks i).refcount == 0 then task_destroy d' i else some d'

abbrev pub key_of : Device → ℕ → ℕ
key_of d i = (d.tasks i).blkid

module _ (env : Env) where
  -- `insert_task_to_tree`: the task of the same block, with a reference, or none.
  unfoldable pub insert_task_to_tree : Device → ℕ → Option ℕ × Device
  insert_task_to_tree d i = elim (conflict (key_of d) (key_of d i) d.task_tree) [
    | some other ↦ (some other, task_get d other)
    | none ↦ (
      none,
      record (task_get d i) {
        task_tree = env.rb_tree.insert_color (link (key_of d) i d.task_tree);
        task_count = inc64 d.task_count;
      },
    )
  ]

  unfoldable pub del_task_from_tree : Device → ℕ → Device
  del_task_from_tree d i = record d {
    task_tree = env.rb_tree.erase d.task_tree i;
    task_count = dec64 d.task_count;
  }

-- `__add_task_to_retry`
unfoldable pub add_task_to_retry : Device → ℕ → Device
add_task_to_retry d i = record d {
  pending_count = inc32 d.pending_count;
  lbz_user_pending = d.lbz_user_pending ++ (i ∷ []);
}

-- `__add_task_to_gc_writes`
unfoldable pub add_task_to_gc_writes : Device → ℕ → Device
add_task_to_gc_writes d i = record d {
  gc_write_count = inc32 d.gc_write_count;
  lbz_gc_writes = d.lbz_gc_writes ++ (i ∷ []);
}

unfoldable pub trigger_retry_work : Device → Device
trigger_retry_work d = record d { retry_queued = true }
