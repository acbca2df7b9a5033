-- ===== src/Dev/Remove.antt =====
-- `lbz_remove_device`, `lbz_dev_init` and `lbz_dev_exit` of src/lbz-dev.c.
use lbz.Prelude.{
  ℕ, List, [], ◌∷◌, Option, none, some, Bool, true, false, ◌>>=◌, ◌==◌, update, if◌then◌else◌,
}
use lbz.Config.{Errno, eperm}
use lbz.Metadata.{list_del}
use lbz.Dev.{LbzDevice, System, is_drained, set_remove, set_unready, modify_device}
use lbz.Dev.Taken.{Ledger, nothing, give, bytes}
use lbz.Dev.Parts.{
  Build, thread_and_timer, destroy_zone_metadata, destroy_mapping, nat_sit_cost, iosched_destory,
}
use lbz.Dev.Create.{one_proc_entry, device_free}

abbrev pub one_phy_bdev : Ledger
one_phy_bdev = record nothing { phy_bdevs = 1 }

module _ (k : Build) where
  -- What goes before the mapping: the proc entry, the areas, the thread, and the retry work.
  unfoldable pub stop_parts : LbzDevice → Ledger → Option Ledger
  stop_parts d l = do
    let areas = give (nat_sit_cost k) (give one_proc_entry l)
    scheduler ← iosched_destory k d (give (bytes k.sizes.gc_ctx) (give thread_and_timer areas))
    some (give (bytes k.sizes.iosched) scheduler)

  -- `lbz_remove_device` once it has waited; `none` for a null pointer. What is left in the record of a freed
  -- device is not read.
  unfoldable pub finish_remove : ℕ → System → Option System
  finish_remove i s = do
    let d = set_unready (s.devices i)
    stopped ← stop_parts d s.ledger
    tree ← destroy_mapping k d stopped
    zones ← destroy_zone_metadata k d (give (bytes k.sizes.mapping) tree)
    let freed = device_free d (record s { ledger = give (bytes k.sizes.zone_metadata) zones })
    some (record freed {
      lbz_devices = list_del i freed.lbz_devices;
      devices = update freed.devices i d;
      ledger = give (bytes k.sizes.device) (give one_phy_bdev freed.ledger);
    })

  -- `lbz_remove_device`: whether it ended, or still waits, and the system.
  unfoldable pub remove_device : ℕ → System → Option (Bool × System)
  remove_device i s =
      let marked = modify_device s i set_remove in
      let finished = (do s' ← finish_remove i marked; some (true, s')) in
      if is_drained (marked.devices i) then finished else some (false, marked)

  abbrev pub continue_if : Bool → Option (Bool × System) → System → Option (Bool × System)
  continue_if true others s = others
  continue_if false others s = some (false, s)

  -- The loop of `lbz_dev_exit`, over the devices that are in the list when it begins. It does not go on
  -- while a removal waits.
  unfoldable pub remove_all : List ℕ → System → Option (Bool × System)
  remove_all [] s = some (true, s)
  remove_all (i ∷ rest) s = do
    (ended, s') ← remove_device i s
    continue_if ended (remove_all rest s') s'

  -- The `BUG_ON` at the end of `lbz_dev_exit`.
  unfoldable pub check_mem_bytes : Bool → System → Option (Bool × System)
  check_mem_bytes ended s =
      if ended then if s.ledger.mem_bytes == 0 then some (true, s) else none else some (false, s)

  -- `lbz_dev_exit`
  unfoldable pub dev_exit : System → Option (Bool × System)
  dev_exit s = do (ended, s') ← remove_all s.lbz_devices s; check_mem_bytes ended s'

-- `lbz_dev_init`, by the error of `register_blkdev` and whether `proc_mkdir` gives a directory: the error,
-- and whether the major number and the directory are there after it.
unfoldable pub dev_init : Option Errno → Bool → Option Errno × Bool × Bool
dev_init (some e) made = (some e, false, false)
dev_init none false = (some eperm, false, false)
dev_init none true = (none, true, true)
