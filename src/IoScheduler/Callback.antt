-- ===== src/IoScheduler/Callback.antt =====
-- `__gc_task_callback` and `task_put`: how the block that the collector copied is entered, and how a
-- task lets go of what it holds.
use lbz.Prelude.{ℕ, Option, none, some, Bool, true, false, not, ◌&&◌, ◌>>=◌, ◌==◌, if◌then◌else◌}
use lbz.Prelude.Words.{dec64}
use lbz.Config.{Errno}
use lbz.Zone.{put_zone}
use lbz.Metadata.{ZoneMetadata, update_reverse_map}
use lbz.Metadata.Release.{release_in_zone}
use lbz.Mapping.{Layout, Mapping, invalid_pbid}
use lbz.Mapping
use lbz.IoScheduler.{
  gc, TaskStatus, init, alloc_res, gc_reading, gc_writing, io_writing, dispatch, retry, Task,
  Device, Env, modify_task, on_zone,
}
use lbz.IoScheduler.Tasks.{drop_ref, task_destroy, gc_task_put, del_task_from_tree}

-- The copy at `pbid` in `zone` takes the place of the block that was read at `read_pbid` in `read_zone`;
-- `none` for the `BUG_ON` on a block that is mapped elsewhere, and for a fault of the mapping.
unfoldable pub enter_copy :
    Layout
    → Mapping
    → ZoneMetadata
    → (blkid zone pbid read_zone read_pbid : ℕ) → Option (Mapping × ZoneMetadata)
enter_copy y m zmd blkid zone pbid read_zone read_pbid = do
  let zmd' = update_reverse_map zmd zone pbid blkid
  (old_pbid, m') ← Mapping.add y m blkid pbid
  if not (old_pbid == read_pbid) && not (old_pbid == invalid_pbid)
      then none
      else if old_pbid == invalid_pbid
      then some (m', zmd')
      else some (m', release_in_zone zmd' read_zone read_pbid)

abbrev pub is_none : Option Errno → Bool
is_none none = true
is_none (some _) = false

-- `lbz_put_zone` on a zone that a task names; `none` for a null pointer.
unfoldable pub put_zone_of : Option ℕ → Device → Option Device
put_zone_of none d = none
put_zone_of (some z) d = some (on_zone d z put_zone)

module _ (env : Env) where
  -- The mapping is changed only on a sound device and for a task without error.
  unfoldable pub enter_task : Device → ℕ → ℕ → Option Device
  enter_task d i pbid =
      let t = d.tasks i in
      if not d.faulty && is_none t.error
      then (do
        zone ← t.zone
        read_zone ← t.read_zone
        (m', zmd') ←
            enter_copy env.layout d.mapping d.zone_metadata t.blkid zone pbid read_zone t.pbid
        some (record d { mapping = m'; zone_metadata = zmd' }))
      else some d

  -- The cases of the switch, each falling through to the next.
  unfoldable pub leave_init : Device → ℕ → Option Device
  leave_init d i = put_zone_of (d.tasks i).read_zone d >>= λ d'. gc_task_put d' i

  unfoldable pub leave_reading : Device → ℕ → Option Device
  leave_reading d i = leave_init (modify_task d i (λ t. record t { page = false })) i

  unfoldable pub leave_alloc : Device → ℕ → Option Device
  leave_alloc d i = gc_task_put (del_task_from_tree env d i) i >>= λ d'. leave_reading d' i

  unfoldable pub leave_writing : Device → ℕ → Option Device
  leave_writing d i = put_zone_of (d.tasks i).zone d >>= λ d'. leave_alloc d' i

  unfoldable pub leave : TaskStatus → Device → ℕ → Option Device
  leave dispatch d i = leave_writing d i
  leave gc_writing d i = leave_writing d i
  leave alloc_res d i = leave_alloc d i
  leave gc_reading d i = leave_reading d i
  leave init d i = leave_init d i
  leave io_writing d i = none
  leave retry d i = none

  -- `__gc_task_callback`
  unfoldable pub gc_task_callback : Device → ℕ → ℕ → Option Device
  gc_task_callback d i pbid = enter_task d i pbid >>= λ d'. leave (d.tasks i).status d' i

  -- The callback on the collector's task that waited for this one.
  unfoldable pub call_pending : Device → Task → ℕ → Option Device
  call_pending d t g = do
    let d' : Device =
        if is_none t.error then d else modify_task d g (λ u. record u { error = t.error })
    d'' ← gc_task_callback d' g invalid_pbid
    some (record d'' {
      stats = record (d''.stats) { gc_inflight_io_cnt = dec64 d''.stats.gc_inflight_io_cnt };
    })

  -- What the last reference of a task brings about. The pointer of a task of the collector is its
  -- scheduler.
  unfoldable pub last_put : Device → ℕ → Task → Option Device
  last_put d i t = elim t.type [
    | gc ↦ task_destroy d i
    | _ ↦ elim t.pending_gc_node [
      | none ↦ task_destroy d i
      | some g ↦ call_pending d t g >>= λ d'. task_destroy d' i
    ]
  ]

  unfoldable pub task_put : Device → ℕ → Option Device
  task_put d i =
      let d' = drop_ref d i in
      if (d'.tasks i).refcount == 0 then last_put d' i (d'.tasks i) else some d'
