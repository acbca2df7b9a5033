-- ===== src/Lib.antt =====
-- lbz, a block device in the Linux kernel that puts a log-structured translation layer on a zoned SSD:
-- writes go to the end of an open zone (zone append), a map in memory says where each block is, and a
-- collector copies the valid blocks of full zones away so that the zones can be reset. F2FS is the file
-- system it is made for.
--
-- How the parts work together. `lbz_dev_submit_bio` (src/lbz-request.c) cuts a bio into blocks of 4 KiB and
-- hands each to the IO scheduler (src/lbz-io-scheduler.c). A write becomes a task, which enters a tree of
-- tasks by its block, so that one write of a block is under way at a time; it takes a block of a stream's
-- active zone (src/lbz-zone-metadata.c) and goes to the device. Its completion enters the physical block in
-- the mapping (src/lbz-mapping.c), and the block in the reverse map of the zone. The collector
-- (src/lbz-gc.c) picks the full zone with the fewest valid blocks and submits each as a task of its own,
-- which reads the block, and writes it elsewhere if it is still where it was. A worker of the zone metadata
-- closes written zones and resets collected ones. src/lbz-nat-sit.c knows the areas of F2FS, to choose the
-- stream of a block and to free the older of two copies. A line written to /proc/lbz (src/lbz-proc.c) has
-- `lbz_create_device` (src/lbz-dev.c) make a device with all these parts, or tells a device its areas; the
-- exit of the module removes the devices, and ends in a BUG_ON if memory that it counts is left.
--
-- Files, and the code they are about:
--   Prelude          shared names, 32- and 64-bit words, lists and tests on native numbers
--   Block            src/include/lbz-common.h: sectors and blocks
--   Config           the options of src/Makefile, the kernel's error numbers
--   Mapping          src/lbz-mapping.c, src/include/lbz-mapping.h. Init builds and destroys the tree; Index,
--                    Access, Build, Destroy, Lookup and Flat have the proofs
--   Zone             struct lbz_zone and the functions on one zone
--   Metadata         src/lbz-zone-metadata.c, src/include/lbz-zone-metadata.h: lists and counters, with
--                    Alloc (lbz_zone_alloc_res), Victim (lbz_find_victim_zone), Worker (zone_state_wk_fn),
--                    Init (lbz_init_zone_metadata), Release, ReverseMap and Watermarks
--   NatSit           src/lbz-nat-sit.c, src/include/lbz-nat-sit.h; Complete is lbz_nat_sit_tx_complete
--   Gc               src/lbz-gc.c, src/include/lbz-gc.h: __gc_one_zone and a round of lbz_gc_thread
--   Request          lbz_dev_submit_bio of src/lbz-request.c; LongBio has lbz_long_bio_endio and the
--                    interleavings of the completions as a step relation
--   IoScheduler      src/lbz-io-scheduler.c, src/include/lbz-io-scheduler.h: TaskTree (the walks of
--                    insert_task_to_tree and search_task), Tasks (references and lists), Callback
--                    (__gc_task_callback, task_put), Alloc (what both kinds of write share, and
--                    __add_integrity), Write, Read, Submit (lbz_submit_io_to_iosched), Gc, Retry.
--                    Inserting has the proofs on the tree; Reverse, Consistent, Fresh, Discard, Quiet,
--                    Ending, WriteDone, CopyDone and ReadBack those on the mapping and the reverse maps
--                    together
--   Dev              src/lbz-dev.c, src/include/lbz-dev.h: the devices, open_dev and release_dev. Taken counts
--                    what the module holds (LBZ_ALLOC_MEM and LBZ_FREE_MEM of src/include/lbz-common.h), Parts
--                    has the parts of a device with what each takes, Create lbz_create_device, Remove
--                    lbz_remove_device and lbz_dev_exit. Holding, Unwind, Blank, New, Stages, ZoneStage,
--                    InitLaws and CreateLaws have the proofs on a creation, RemoveLaws and ExitLaws on
--                    removals, RoundTrip on both, Registry, Gone and Refines on the list of devices and their
--                    numbers, Closing on opens and releases, NullQueue on a queue that was not made
--   Proc             src/lbz-proc.c: module_input, module_read, lbz_module_init
-- The files Tests, LookupTests, Witnesses and Devices have concrete devices.
--
-- How code became definitions. A state is a record and a handler a function from the state to the next; a
-- handler runs as one step, as under its lock. `none` stands for a BUG_ON, a null pointer or a use of freed
-- memory. Numbers are natural, with the wrap-around of a word written out; an `int` or an `atomic_t` is its
-- bit pattern. Names of functions are the source's, less `lbz_` and leading underscores. Zones and tasks
-- are named by numbers. The build options are arguments, so that what is shown holds for each build.
-- Parameters stand for what is not in the repository: the kernel's blk_queue_zone_no, bio_split, ilog2,
-- zone reset and red-black trees, the report of the zones, the sizes of the node headers and of the
-- structures, sscanf and blkdev_get_by_path. What the kernel answers during one call of `lbz_create_device` is
-- a record, `Answers`; a pointer to a work queue may be null, as the kernel makes it where there is none, or an
-- error pointer, as the code expects; the labels of its error path are functions that call one another in the order in which
-- control falls through them. A function that waits returns that it waits, and runs again from its start. A
-- `Ledger` counts, beside the bytes in `lbz_mem_bytes`, the pages, disks, proc entries, work queues, timers,
-- threads, pools of bios and open physical devices that the module holds.
--
-- Bounds. Loops over arrays and lists are structural recursion. `split_loop` takes as many rounds as the bio
-- has sectors, and each round takes eight of them away. LBZ_MAX_DEV_SIZE, 64 GiB, bounds the mapping.
--
-- Not modelled: the files under /proc/lbz-dev, which print counters; the NVMe path in
-- src/lbz-request.c, which is not called; the handlers of timers and the queueing of works; the limits of a
-- disk's queue but the block size; failing allocations by LBZ_ALLOC_MEM and failing reads of a user's buffer;
-- and pages in which src/lbz-nat-sit.c records blocks, in the count of pages.
-- Interleavings within a handler are not modelled, those of a long bio's completions
-- excepted. The contents of a page that was never assigned are `none`. An error that the kernel stores in a
-- user's bio before its last piece is submitted is not carried on to that piece's completion.
pub mod Prelude
pub mod Block
pub mod Config
pub mod Mapping
pub mod Zone
pub mod Metadata
pub mod NatSit
pub mod Gc
pub mod Request
pub mod IoScheduler
pub mod Dev
pub mod Proc
