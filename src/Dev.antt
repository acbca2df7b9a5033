-- ===== src/Dev.antt =====
-- src/lbz-dev.c and src/include/lbz-dev.h: the devices that the module has made, how they are found,
-- opened and released. Create, Parts and Remove make and remove them. Devices are named by numbers, in the
-- order they were allocated; what a device works on is the record of the IO scheduler.
pub mod Taken
pub mod Parts
pub mod Create
pub mod Remove
pub mod Holding
pub mod Unwind
pub mod Blank
pub mod New
pub mod Stages
pub mod ZoneStage
pub mod InitLaws
pub mod CreateLaws
pub mod RemoveLaws
pub mod ExitLaws
pub mod RoundTrip
pub mod Registry
pub mod Gone
pub mod NullQueue
pub mod Refines
pub mod Closing
pub mod Tests
use lbz.Prelude.{
  ℕ, ◌*◌, ◌/◌, ◌^◌, List, [], ◌∷◌, Option, none, some, Bool, true, false, not, ◌&&◌, ◌||◌, update,
  ◌==◌, if◌then◌else◌,
}
use lbz.Prelude.Words.{inc32, dec32}
use lbz.Config.{Errno, eio, einval}
use lbz.IoScheduler.{Device}
use lbz.Dev.Taken.{Ledger, Queue}

-- LBZ_MINORS and LBZ_DEVICE_IDX_MAX, with the kernel's 20 bits of a minor number.
abbrev pub minors : ℕ
minors = 128

abbrev pub device_idx_max : ℕ
device_idx_max = 2 ^ 20 / minors

unfoldable pub first_minor_to_idx : ℕ → ℕ
first_minor_to_idx first_minor = first_minor / minors

unfoldable pub idx_to_first_minor : ℕ → ℕ
idx_to_first_minor idx = idx * minors

-- The kernel's `struct gendisk`, by the fields that the code sets; `added` is GENHD_FL_UP.
pub record Disk : Type 0 where
  pub first_minor : ℕ
  pub capacity : ℕ
  pub logical_block_size : ℕ
  pub added : Bool

-- `struct lbz_device`. The scheduler, the mapping, the zone metadata, the collector, the counters and the
-- bits LBZ_DEV_STATE_READY and LBZ_DEV_STATE_FAULTY are those of `work`; `remove` is
-- LBZ_DEV_STATE_REMOVE. `devname` is made from `minor`. `refcnt` is a 32-bit pattern. `zone_slots` is the
-- number of entries of `zmd->zones` that hold a zone; those behind are null. `zone_state_wq` is the pointer of
-- the zone metadata, `retry_wq` that of the scheduler.
pub record LbzDevice : Type 0 where
  pub disk : Option Disk
  pub minor : ℕ
  pub phy_bdev : ℕ
  pub meta_bytes : ℕ
  pub dev_size : ℕ
  pub refcnt : ℕ
  pub nr_zones : ℕ
  pub zone_slots : ℕ
  pub remove : Bool
  pub zone_state_wq : Queue
  pub retry_wq : Queue
  pub work : Device

-- `lbz_devices`, newest first; `lbz_device_idx`, which says of an index whether it is given out; and
-- what the module holds.
pub record System : Type 0 where
  pub devices : ℕ → LbzDevice
  pub next_device : ℕ
  pub lbz_devices : List ℕ
  pub lbz_device_idx : ℕ → Bool
  pub ledger : Ledger

abbrev pub set_ready : LbzDevice → LbzDevice
set_ready d = record d { work = record (d.work) { ready = true } }

abbrev pub set_unready : LbzDevice → LbzDevice
set_unready d = record d { work = record (d.work) { ready = false } }

abbrev pub set_remove : LbzDevice → LbzDevice
set_remove d = record d { remove = true }

-- `open_dev`: the device, and the error if it is refused.
unfoldable pub open_dev : LbzDevice → Option Errno × LbzDevice
open_dev d =
    if not d.work.faulty && (not d.remove && d.work.ready)
    then (none, record d { refcnt = inc32 d.refcnt })
    else (some einval, d)

-- What `release_dev` waits for.
unfoldable pub can_release : LbzDevice → Bool
can_release d =
    d.work.stats.user_write_inflight_io_cnt == 0 && d.work.stats.user_read_inflight_io_cnt == 0
    || d.work.faulty

-- `release_dev`; `none` while it waits.
unfoldable pub release_dev : LbzDevice → Option LbzDevice
release_dev d = if can_release d then some (record d { refcnt = dec32 d.refcnt }) else none

-- `ioctl_dev`
unfoldable pub ioctl_dev : LbzDevice → Option Errno
ioctl_dev d = if d.work.faulty && d.work.ready then none else some eio

-- What `lbz_remove_device` waits for.
unfoldable pub is_drained : LbzDevice → Bool
is_drained d =
    d.work.stats.gc_inflight_io_cnt == 0
    && (d.work.stats.user_write_inflight_io_cnt == 0
        && (d.work.stats.user_read_inflight_io_cnt == 0 && d.refcnt == 0))

-- The walk of `lbz_dev_find_by_minor`.
unfoldable pub find_in : (ℕ → LbzDevice) → ℕ → List ℕ → Option ℕ
find_in devices minor [] = none
find_in devices minor (i ∷ rest) =
    if (devices i).minor == minor then some i else find_in devices minor rest

unfoldable pub find_by_minor : System → ℕ → Option ℕ
find_by_minor s minor = find_in s.devices minor s.lbz_devices

abbrev pub modify_device : System → ℕ → (LbzDevice → LbzDevice) → System
modify_device s i f = record s { devices = update s.devices i (f (s.devices i)) }
