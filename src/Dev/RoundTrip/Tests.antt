-- ===== src/Dev/RoundTrip/Tests.antt =====
-- The module without devices, whose first device is made and removed.
use lbz.Prelude.{◌≡◌, refl, none, some, arith}
use lbz.Config.{Errno}
use lbz.Dev.{System}
use lbz.Dev.Refines.{Change, Changes, AllPerform, IsRegistry, IsRegistry-refines}
use lbz.Dev.Taken.{nothing, take}
use lbz.Dev.Create.{create_device}
use lbz.Dev.Remove.{one_phy_bdev}
use lbz.Dev.New.{Refuses}
use lbz.Dev.Tests.{build, answers, opened, sound}
use lbz.IoScheduler.Devices.{one_zone}
use lbz.Dev.RoundTrip.{Vanished, remove_device-create_device}

all_granted : (e : Errno) → ¬ Refuses answers e
all_granted e (Refuses.no_index q) = absurd (ground (arith, q))
all_granted e (Refuses.no_disk q) = absurd (ground (arith, q))
all_granted e (Refuses.no_zones q) = absurd (ground (arith, q))
all_granted e (Refuses.no_report q) = absurd (ground (arith, q))
all_granted e (Refuses.no_zone_state_wq q) = absurd (ground (arith, q))
all_granted e (Refuses.no_retry_wq q) = absurd (ground (arith, q))
all_granted e (Refuses.no_gc_thread q) = absurd (ground (arith, q))
all_granted e (Refuses.no_proc_entry q) = absurd (ground (arith, q))
all_granted e (Refuses.no_bio_split q) = absurd (ground (arith, q))

opened_ledger : opened.ledger ≡ take one_phy_bdev nothing
unfolding take
opened_ledger = refl

remove_device-create_device_example :
    (s' : System) × (create_device build answers 4096 80 7 opened ≡ some (none, s'))
    × Vanished build answers opened s' nothing
remove_device-create_device_example =
    remove_device-create_device build one_zone answers 64 80 4096 7 opened nothing
      (sound 80 (omega arith)) all_granted (omega arith) (omega arith) opened_ledger

-- The same call, as a run.
created_one : (s' : System) × (create_device build answers 4096 80 7 opened ≡ some (none, s'))
created_one =
    let r =
      remove_device-create_device build one_zone answers 64 80 4096 7 opened nothing
        (sound 80 (omega arith)) all_granted (omega arith) (omega arith) opened_ledger in
    (r.0, r.1)

abbrev one_creation : Changes build opened created_one.0
one_creation = Changes.next Changes.here (
    Change.creates answers 64 4096 80 7 none created_one.0 (sound 80 (omega arith)) (omega arith)
      (omega arith) (λ idx q. (refl, ground (arith, q))) created_one.1)

IsRegistry-refines_example :
    IsRegistry created_one.0 × AllPerform build opened created_one.0 one_creation
IsRegistry-refines_example = IsRegistry-refines build opened created_one.0 tt one_creation
