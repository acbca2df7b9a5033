-- ===== src/Dev/Create.antt =====
-- `lbz_create_device` of src/lbz-dev.c. Each label of its error path is a function; a step that fails
-- goes to its label, and falls through to those below.
use lbz.Prelude.{ℕ, suc, ◌∷◌, Option, none, some, true, false, ◌>>=◌, update, ltb, if◌then◌else◌}
use lbz.Config.{Errno, enomem, enoent}
use lbz.IoScheduler.{Stats}
use lbz.Dev.{LbzDevice, System, idx_to_first_minor, set_ready}
use lbz.Dev.Taken.{Queue, Ledger, nothing, take, give, bytes}
use lbz.Dev.Parts.{
  Build, Answers, Making, on_ledger, thread_and_timer, init_zones_of, destroy_zone_metadata,
  init_mapping, destroy_mapping, iosched_init, create_gc_thread, iosched_destory, init_nat_sit,
}

abbrev pub one_disk : Ledger
one_disk = record nothing { disks = 1 }

abbrev pub one_proc_entry : Ledger
one_proc_entry = record nothing { proc_entries = 1 }

abbrev pub one_bio_set : Ledger
one_bio_set = record nothing { bio_sets = 1 }

abbrev pub free_index : ℕ → System → System
free_index i s = record s { lbz_device_idx = update s.lbz_device_idx i false }

-- The counters that `lbz_device_init` sets.
abbrev pub zero_stats : Stats
zero_stats = record {
  transaction_id = 0;
  timestamp = 0;
  user_write_inflight_io_cnt = 0;
  user_read_inflight_io_cnt = 0;
  user_read_err_cnt = 0;
  user_read_zero_cnt = 0;
  user_write_err_cnt = 0;
  user_encounter_emergency = 0;
  write_alloc_encounter_eagain = 0;
  gc_alloc_encounter_eagain = 0;
  user_write_blocks = 0;
  user_read_blocks = 0;
  gc_inflight_io_cnt = 0;
  gc_write_err_cnt = 0;
  gc_read_err_cnt = 0;
  gc_read_blocks = 0;
  gc_write_blocks = 0;
  gc_write_agency_blocks = 0;
  gc_write_complete_blocks = 0;
  gc_write_discarded_blocks = 0;
}

-- `lbz_device_free`: it gives `first_minor` back, not the index.
unfoldable pub device_free : LbzDevice → System → System
device_free d s = elim d.disk [
  | none ↦ s
  | some disk ↦ free_index disk.first_minor (record s { ledger = give one_disk s.ledger })
]

module _ (k : Build) where
  -- `lbz_device_init`; `none` where the null disk and the queue, which is not set yet, are read.
  unfoldable pub device_init : Answers → ℕ → ℕ → Making → Option (Option Errno × Making)
  device_init a block_size sectors m = elim a.idx [
    | none ↦ some (some enomem, m)
    | some idx ↦
        let s = record (m.sys) { lbz_device_idx = update m.sys.lbz_device_idx idx true } in
        let d = record (m.dev) { minor = idx } in
        if ltb k.page_size block_size
        then none
        else if a.disk
        then some (
          none,
          record {
            dev = record d {
              disk = some (record {
                first_minor = idx_to_first_minor idx;
                capacity = sectors;
                logical_block_size = block_size;
                added = false;
              });
              dev_size = sectors;
              refcnt = 0;
              nr_zones = a.nr_zones;
              meta_bytes = 64;
              work = record (d.work) { stats = zero_stats };
            };
            sys = record s { ledger = take one_disk s.ledger };
          },
        )
        else some (some enomem, record { dev = d; sys = free_index idx s })
  ]

  -- The labels, from the last to the first. What is left of a device that failed is the system.
  unfoldable pub out : Making → System
  out m = record (m.sys) { ledger = give (bytes k.sizes.device) m.sys.ledger }

  unfoldable pub zone_err : Making → System
  zone_err m =
      let freed = on_ledger (give (bytes k.sizes.zone_metadata)) m in
      out (record freed { sys = device_free m.dev freed.sys })

  unfoldable pub iosched_err : Making → Option System
  iosched_err m = do
    let scheduler = give (bytes k.sizes.iosched) m.sys.ledger
    tree ← destroy_mapping k m.dev scheduler
    zones ← destroy_zone_metadata k m.dev (give (bytes k.sizes.mapping) tree)
    some (zone_err (on_ledger (λ _. zones) m))

  unfoldable pub gc_err : Making → Option System
  gc_err m = do
    scheduler ← iosched_destory k m.dev (give (bytes k.sizes.gc_ctx) m.sys.ledger)
    iosched_err (on_ledger (λ _. scheduler) m)

  unfoldable pub proc_err : Making → Option System
  proc_err m = gc_err (on_ledger (give thread_and_timer) m)

  unfoldable pub bs_err : Making → Option System
  bs_err m = proc_err (on_ledger (give one_proc_entry) m)

  -- The end: `list_add`, `add_disk`, and the device is ready.
  unfoldable pub publish : Making → System
  publish m =
      let i = m.sys.next_device in
      let shown = record (m.dev) {
        disk = elim m.dev.disk [ none ↦ none | some disk ↦ some (record disk { added = true }) ];
      } in
      record (m.sys) {
        devices = update m.sys.devices i (set_ready shown);
        next_device = suc i;
        lbz_devices = i ∷ m.sys.lbz_devices;
      }

  -- The result of the call: its error, none for 0, and the system.
  abbrev pub Result : Type 0
  Result = Option (Option Errno × System)

  abbrev pub fails : Errno → Option System → Result
  fails e end = do s ← end; some (some e, s)

  -- From `bioset_init` on.
  unfoldable pub with_proc : Answers → Making → Result
  with_proc a m = elim a.bio_split [
    | some e ↦ fails e (bs_err m)
    | none ↦ (do done ← init_nat_sit k (on_ledger (take one_bio_set) m); some (none, publish done))
  ]

  -- From `lbz_dev_create_proc` on.
  unfoldable pub with_gc : Answers → Making → Result
  with_gc a m =
      let next = with_proc a (on_ledger (take one_proc_entry) m) in
      if a.proc_entry then next else fails enoent (proc_err m)

  -- From `lbz_create_gc_thread` on.
  unfoldable pub with_iosched : Answers → Making → Result
  with_iosched a m =
      let (failed, made) = create_gc_thread k a (on_ledger (take (bytes k.sizes.gc_ctx)) m) in
      elim failed [ some e ↦ fails e (gc_err made) | none ↦ with_gc a made ]

  -- From `lbz_mapping_init` on.
  unfoldable pub with_zones : Answers → Making → Result
  with_zones a m =
      let mapped = init_mapping k (on_ledger (take (bytes k.sizes.mapping)) m) in
      let (failed, made) = iosched_init k a (on_ledger (take (bytes k.sizes.iosched)) mapped) in
      elim failed [ some e ↦ fails e (iosched_err made) | none ↦ with_iosched a made ]

  -- From `lbz_init_zone_metadata` on.
  unfoldable pub with_disk : Answers → Making → Result
  with_disk a m = do
    (failed, made) ← init_zones_of k a (on_ledger (take (bytes k.sizes.zone_metadata)) m)
    elim failed [ some e ↦ some (some e, zone_err made) | none ↦ with_zones a made ]

  -- The device that LBZ_ALLOC_MEM gives: no bit of `flags` is set.
  unfoldable pub alloc_device : ℕ → System → Making
  alloc_device phy_bdev s = record {
    dev = record {
      disk = none;
      minor = 0;
      phy_bdev = phy_bdev;
      meta_bytes = 0;
      dev_size = 0;
      refcnt = 0;
      nr_zones = 0;
      zone_slots = 0;
      zone_state_wq = Queue.null;
      retry_wq = Queue.null;
      remove = false;
      work = record (k.blank) { ready = false; faulty = false };
    };
    sys = record s { ledger = take (bytes k.sizes.device) s.ledger };
  }

  -- `lbz_create_device`
  unfoldable pub create_device : Answers → ℕ → ℕ → ℕ → System → Result
  create_device a block_size sectors phy_bdev s = do
    (failed, made) ← device_init a block_size sectors (alloc_device phy_bdev s)
    elim failed [ some e ↦ some (some e, out made) | none ↦ with_disk a made ]
