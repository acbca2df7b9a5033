-- ===== src/Dev/Parts.antt =====
-- The parts of a device as `lbz_create_device` makes and `lbz_remove_device` destroys them, with what
-- each takes from the kernel: the zones and the worker of lbz-zone-metadata.c, the mapping, the retry work
-- of lbz-io-scheduler.c, the thread of lbz-gc.c and the management of the areas in lbz-nat-sit.c.
use lbz.Prelude.{
  ℕ, zero, suc, ◌+◌, ◌*◌, List, [], Option, none, some, Bool, true, false, length, ◌>>=◌, ◌==◌,
  if◌then◌else◌,
}
use lbz.Config.{Config, Errno, enxio}
use lbz.Metadata.{ZoneMetadata}
use lbz.Metadata.Init.{BlkZone, init_zone_metadata}
use lbz.Mapping.{Layout}
use lbz.Mapping.Init.{init, destroy}
use lbz.NatSit.{Args, add_rule}
use lbz.IoScheduler.{Device}
use lbz.IoScheduler.TaskTree.{leaf}
use lbz.Dev.{LbzDevice, System}
use lbz.Dev.Taken.{Queue, Ledger, nothing, take, give, bytes, take_times}

-- The sizes of the structures, in bytes.
pub record Sizes : Type 0 where
  pub device : ℕ
  pub zone_metadata : ℕ
  pub mapping : ℕ
  pub iosched : ℕ
  pub gc_ctx : ℕ
  pub nat_sit_mgmt : ℕ
  pub zone : ℕ
  pub pointer : ℕ

-- What is fixed: the build, the sizes, PAGE_SIZE, the kernel's `ilog2`, and what fresh memory holds in the
-- fields that the code does not set.
pub record Build : Type 0 where
  pub config : Config
  pub layout : Layout
  pub sizes : Sizes
  pub page_size : ℕ
  pub ilog2 : ℕ → ℕ
  pub blank : Device

-- What the kernel answers during one call of `lbz_create_device`: the index of `ida_simple_get`, whether
-- `blk_alloc_disk` gives a disk, the zones and their report, the pointers that are to be work queues, and
-- the errors of the calls that can fail.
pub record Answers : Type 0 where
  pub idx : Option ℕ
  pub disk : Bool
  pub nr_zones : ℕ
  pub zone_sectors : ℕ
  pub report : List BlkZone
  pub report_error : Option Errno
  pub zone_state_wq : Queue
  pub retry_wq : Queue
  pub gc_thread : Option Errno
  pub proc_entry : Bool
  pub bio_split : Option Errno

-- A device in the making, not yet in the list of devices.
pub record Making : Type 0 where
  pub dev : LbzDevice
  pub sys : System

abbrev pub on_ledger : (Ledger → Ledger) → Making → Making
on_ledger f m = record m { sys = record (m.sys) { ledger = f m.sys.ledger } }

abbrev pub on_work : (Device → Device) → Making → Making
on_work f m = record m { dev = record (m.dev) { work = f m.dev.work } }

-- A work queue and its timer, and a thread and its timer.
abbrev pub queue_and_timer : Ledger
queue_and_timer = record nothing { work_queues = 1; timers = 1 }

abbrev pub one_timer : Ledger
one_timer = record nothing { timers = 1 }

-- What a work queue and its timer take, the pointer to the queue given; without a queue the timer is armed
-- all the same.
abbrev pub queue_cost : Queue → Ledger
queue_cost Queue.queue = queue_and_timer
queue_cost Queue.null = one_timer
queue_cost (Queue.err_ptr _) = nothing

-- `del_timer_sync` and `destroy_workqueue`, which follows its pointer.
unfoldable pub destroy_queue : Queue → Ledger → Option Ledger
destroy_queue Queue.queue l = some (give queue_and_timer l)
destroy_queue Queue.null l = none
destroy_queue (Queue.err_ptr _) l = none

abbrev pub thread_and_timer : Ledger
thread_and_timer = record nothing { threads = 1; timers = 1 }

abbrev pub pages_of : ℕ → Ledger
pages_of n = record nothing { pages = n }

-- The rule of no areas with which a device starts; without CONFIG_LBZ_NAT_SIT_SUPPORT there is none.
abbrev pub no_args : Args
no_args = record { cp_blkaddr = 0; sit_blkaddr = 0; nat_blkaddr = 0; nat_blocks = 0 }

module _ (k : Build) where
  -- What `lbz_zone_insert` takes for one zone.
  unfoldable pub zone_cost : ZoneMetadata → Ledger
  zone_cost zmd = record nothing {
    mem_bytes =
        k.sizes.zone
        + zmd.zone_nr_bitmap_blocks * k.sizes.pointer
        + zmd.zone_nr_reverse_map_blocks * k.sizes.pointer;
    pages = zmd.zone_nr_bitmap_blocks + zmd.zone_nr_reverse_map_blocks;
  }

  unfoldable pub zone_array : ZoneMetadata → Ledger
  zone_array zmd = bytes (zmd.nr_zones * k.sizes.pointer)

  -- The loop of `lbz_drop_zones` over `n` entries of `zmd->zones`, of which the first `slots` are set;
  -- `none` where `lbz_zone_destroy` is handed a null pointer, which it follows.
  unfoldable pub drop_each : ℕ → ℕ → Ledger → Ledger → Option Ledger
  drop_each zero slots cost l = some l
  drop_each (suc n) zero cost l = none
  drop_each (suc n) (suc slots) cost l = drop_each n slots cost (give cost l)

  unfoldable pub drop_zones : ZoneMetadata → ℕ → Ledger → Option Ledger
  drop_zones zmd slots l = do
    l' ← drop_each zmd.nr_zones slots (zone_cost zmd) l
    some (give (zone_array zmd) l')

  -- The zones are there; the report may have ended with an error, and the work queue may fail.
  unfoldable pub start_zones : Answers → ZoneMetadata → Making → Option (Option Errno × Making)
  start_zones a zmd m =
      let slots = length a.report in
      let held = take_times slots (zone_cost zmd) (take (zone_array zmd) m.sys.ledger) in
      let failed =
        λ (e : Errno). (do l ← drop_zones zmd slots held; some (some e, on_ledger (λ _. l) m)) in
      let started : Queue → Option (Option Errno × Making) = λ q. some (
        none,
        record m {
          dev = record (m.dev) {
            zone_slots = slots;
            zone_state_wq = q;
            work = record (m.dev.work) { zone_metadata = zmd };
          };
          sys = record (m.sys) { ledger = take (queue_cost q) held };
        },
      ) in
      elim a.report_error [
        | some e ↦ failed e
        | none ↦ elim a.zone_state_wq [
          | Queue.err_ptr e ↦ failed e
          | Queue.null ↦ started Queue.null
          | Queue.queue ↦ started Queue.queue
        ]
      ]

  -- `lbz_init_zone_metadata`; `none` for a `BUG_ON` or a null pointer.
  unfoldable pub init_zones_of : Answers → Making → Option (Option Errno × Making)
  init_zones_of a m = if a.nr_zones == 0 then some (some enxio, m) else (do
    zmd ← init_zone_metadata k.ilog2 k.blank.zone_metadata a.nr_zones a.zone_sectors a.report
    start_zones a zmd m)

  -- `lbz_destroy_zone_metadata`, by what it gives back; the close commands to the device are not modelled.
  unfoldable pub destroy_zone_metadata : LbzDevice → Ledger → Option Ledger
  destroy_zone_metadata d l = do
    l' ← destroy_queue d.zone_state_wq l
    drop_zones d.work.zone_metadata d.zone_slots l'

  -- `lbz_mapping_init` and `lbz_mapping_destroy`, and their pages.
  unfoldable pub init_mapping : Making → Making
  init_mapping m =
      let made = init k.layout m.dev.dev_size in
      on_ledger (take (pages_of made.1)) (on_work (λ w. record w { mapping = made.0 }) m)

  unfoldable pub destroy_mapping : LbzDevice → Ledger → Option Ledger
  destroy_mapping d l = do pages ← destroy k.layout d.work.mapping; some (give (pages_of pages) l)

  -- `lbz_iosched_init` and `lbz_iosched_destory`.
  unfoldable pub iosched_init : Answers → Making → Option Errno × Making
  iosched_init a m =
      let set =
        on_work
          (λ w. record w {
            task_tree = leaf;
            task_count = 0;
            pending_count = 0;
            lbz_user_pending = [];
            gc_write_count = 0;
            lbz_gc_writes = [];
          })
          m in
      let queued = record set { dev = record (set.dev) { retry_wq = a.retry_wq } } in
      elim a.retry_wq [
        | Queue.err_ptr e ↦ (some e, queued)
        | Queue.null ↦ (none, on_ledger (take (queue_cost Queue.null)) queued)
        | Queue.queue ↦ (none, on_ledger (take (queue_cost Queue.queue)) queued)
      ]

  unfoldable pub iosched_destory : LbzDevice → Ledger → Option Ledger
  iosched_destory d l = destroy_queue d.retry_wq l

  -- `lbz_create_gc_thread`; `lbz_destroy_gc_thread` gives `thread_and_timer` back, once the thread ended.
  unfoldable pub create_gc_thread : Answers → Making → Option Errno × Making
  create_gc_thread a m =
      let set = on_work (λ w. record w { gc_ctx = record (w.gc_ctx) { gc_times = 0 } }) m in
      elim a.gc_thread [
        | some e ↦ (some e, set)
        | none ↦ (
          none,
          on_ledger (take thread_and_timer) (
              on_work
                (λ w. record w {
                  gc_ctx = record (w.gc_ctx) {
                    gc_state = record {
                      faulty = false;
                      reclaiming = false;
                      emergency = false;
                      ready = true;
                      exit = false;
                      exited = false;
                    };
                  };
                })
                set),
        )
      ]

  unfoldable pub nat_sit_cost : Ledger
  nat_sit_cost = if k.config.nat_sit_support then bytes k.sizes.nat_sit_mgmt else nothing

  unfoldable pub init_nat_sit : Making → Option Making
  init_nat_sit m =
      let ruled = (do
        rule ← add_rule no_args
        some (on_ledger (take nat_sit_cost) (on_work (λ w. record w { nat_sit = rule }) m))) in
      if k.config.nat_sit_support then ruled else some m
