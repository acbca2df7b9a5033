-- ===== src/IoScheduler.antt =====
-- src/lbz-io-scheduler.c and src/include/lbz-io-scheduler.h: the scheduler between the file system's
-- bios and the zones. This file has the state of a device at work, and the steps on it that the handlers
-- share. A handler runs as one step; handlers follow each other in any order.
pub mod TaskTree
pub mod Tasks
pub mod Callback
pub mod Alloc
pub mod Write
pub mod Gc
pub mod Read
pub mod Submit
pub mod Retry
pub mod Reverse
pub mod Consistent
pub mod Fresh
pub mod Discard
pub mod Quiet
pub mod Ending
pub mod WriteDone
pub mod CopyDone
pub mod Inserting
pub mod ReadBack
pub mod Devices
pub mod Tests
use lbz.Prelude.{ℕ, ◌+◌, List, [], ◌∷◌, ◌++◌, Option, none, some, Bool, true, false, update, ltb}
use lbz.Prelude.Words.{inc32, inc64, dec64}
use lbz.Config.{Config, Errno}
use lbz.Zone.{Zone}
use lbz.Metadata.{ZoneMetadata, modify_zone}
use lbz.Mapping.{Layout, Mapping}
use lbz.NatSit.{NatSit}
use lbz.Gc.{GcContext}
use lbz.Request.{Bio}
use lbz.IoScheduler.TaskTree.{Tree, RbTree}

-- `enum lbz_task_type`
pub data TaskType : Type 0 where
  user_write write_tx_father write_tx_child gc : TaskType

-- `enum lbz_task_status`
pub data TaskStatus : Type 0 where
  init alloc_res gc_reading gc_writing io_writing dispatch retry : TaskStatus

-- `enum lbz_log_type`, the values in use, and the fields of `struct lbz_disk_log` that are set.
pub data LogType : Type 0 where
  transaction_child transaction_father user_write gc_write : LogType

pub record DiskLog : Type 0 where
  pub timestamp : ℕ
  pub txid : ℕ
  pub blkid : ℕ
  pub free_blkid : ℕ
  pub log_type : LogType

-- `task->integrity_buf`: null, the log, or the error pointer that `__add_integrity` returned.
pub data Integrity : Type 0 where
  absent : Integrity
  buffer : DiskLog → Integrity
  failed : Errno → Integrity

-- `struct lbz_io_task`. `pending_gc_node` is a task; `page` tells whether the task holds one; `freed`
-- that `task_destroy` was called on it. The `bio` of a task of the collector is kept in no field.
pub record Task : Type 0 where
  pub bio : Bio
  pub blkid : ℕ
  pub pbid : ℕ
  pub page : Bool
  pub integrity_buf : Integrity
  pub zone : Option ℕ
  pub read_zone : Option ℕ
  pub refcount : ℕ
  pub error : Option Errno
  pub status : TaskStatus
  pub type : TaskType
  pub pending_gc_node : Option ℕ
  pub freed : Bool

-- The counters of `struct lbz_device`, 64 bits each.
pub record Stats : Type 0 where
  pub transaction_id : ℕ
  pub timestamp : ℕ
  pub user_write_inflight_io_cnt : ℕ
  pub user_read_inflight_io_cnt : ℕ
  pub user_read_err_cnt : ℕ
  pub user_read_zero_cnt : ℕ
  pub user_write_err_cnt : ℕ
  pub user_encounter_emergency : ℕ
  pub write_alloc_encounter_eagain : ℕ
  pub gc_alloc_encounter_eagain : ℕ
  pub user_write_blocks : ℕ
  pub user_read_blocks : ℕ
  pub gc_inflight_io_cnt : ℕ
  pub gc_write_err_cnt : ℕ
  pub gc_read_err_cnt : ℕ
  pub gc_read_blocks : ℕ
  pub gc_write_blocks : ℕ
  pub gc_write_agency_blocks : ℕ
  pub gc_write_complete_blocks : ℕ
  pub gc_write_discarded_blocks : ℕ

-- What the handlers hand to the layers around them.
pub data Event : Type 0 where
  -- `bio_endio` to the file system, and whether with an error
  ended : Bio → Bool → Event
  -- `submit_bio` of a user's read at a sector of the physical device
  read_io : Bio → ℕ → Event
  -- `submit_bio` of a task's zone append at the first sector of a zone
  append_io : ℕ → ℕ → Event
  -- `submit_bio` of a task's read for the collector
  gc_read_io : ℕ → ℕ → Event

-- A device at work: the scheduler's own fields, what it works on, and the events so far, oldest first.
-- Tasks are named by numbers, of which those from `next_task` on were never handed out. `retry_queued`
-- says that the delayed work was queued.
pub record Device : Type 0 where
  pub tasks : ℕ → Task
  pub next_task : ℕ
  pub task_tree : Tree
  pub task_count : ℕ
  pub lbz_user_pending : List ℕ
  pub pending_count : ℕ
  pub lbz_gc_writes : List ℕ
  pub gc_write_count : ℕ
  pub retry_queued : Bool
  pub mapping : Mapping
  pub zone_metadata : ZoneMetadata
  pub nat_sit : NatSit
  pub gc_ctx : GcContext
  pub stats : Stats
  pub faulty : Bool
  pub ready : Bool
  pub events : List Event

-- What is fixed for a device: the build, the sizes of the mapping's nodes, the kernel's
-- `blk_queue_zone_no` on the physical device, its red-black trees, and how its integrity payload for a
-- task turns out, an error or none.
pub record Env : Type 0 where
  pub config : Config
  pub layout : Layout
  pub zone_no : ℕ → ℕ
  pub rb_tree : RbTree
  pub integrity_error : ℕ → Option Errno

abbrev pub modify_task : Device → ℕ → (Task → Task) → Device
modify_task d i f = record d { tasks = update d.tasks i (f (d.tasks i)) }

abbrev pub on_zone : Device → ℕ → (Zone → Zone) → Device
on_zone d i f = record d { zone_metadata = modify_zone d.zone_metadata i f }

abbrev pub emit : Event → Device → Device
emit e d = record d { events = d.events ++ (e ∷ []) }

abbrev pub set_faulty : Device → Device
set_faulty d = record d { faulty = true }
