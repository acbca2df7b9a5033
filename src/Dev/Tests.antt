-- ===== src/Dev/Tests.antt =====
-- A module with one device of ten blocks on two zones of eight, made from nothing.
use lbz.Prelude.{
  ◌≢◌, ℕ, ◌*◌, ◌/◌, ◌^◌, ◌≤◌, ◌≡◌, refl, [], ◌∷◌, Option, none, some, true, false, update, arith,
}
use lbz.Config.{Errno}
use lbz.Prelude.Words.{dec32}
use lbz.Metadata.{list_del}
use lbz.Metadata.Init.Tests.{first, second, both-AreZones}
use lbz.Mapping.Tests.{real, leaves_real, children_real}
use lbz.Mapping.Build.{init-IsTree}
use lbz.IoScheduler.Devices.{blank_device, at_work, waiting, one_zone}
use lbz.Dev.{
  LbzDevice, System, minors, idx_to_first_minor, is_drained, set_remove, can_release, release_dev,
}
use lbz.Dev.Taken.{Queue, Ledger, InRange, nothing, take, take-InRange}
use lbz.Dev.Parts.{Making, Build, Answers, nat_sit_cost}
use lbz.Dev.Create.{create_device, one_bio_set, zero_stats}
use lbz.Dev.Remove.{remove_device, dev_exit}
use lbz.Dev.New.{Sound}
use lbz.Dev.Holding.{holds}
use lbz.Dev.Unwind.{CanDestroy}
use lbz.Dev.ExitLaws.{all_held, SameBut, remove_device_lem, dev_exit_lem}
use lbz.Dev.Closing.{Use, Uses, closing_down}
use lbz.Dev.Gone.{remove_device_wrong_index}
use lbz.Dev.CreateLaws.{Created, create_device_lem}

abbrev pub build : Build
build = record {
  config = record { nat_sit_support = true; free_support = false; stream_support = true };
  layout = real;
  sizes = record {
    device = 1024;
    zone_metadata = 512;
    mapping = 8256;
    iosched = 256;
    gc_ctx = 128;
    nat_sit_mgmt = 128;
    zone = 192;
    pointer = 8;
  };
  page_size = 4096;
  ilog2 = λ n. n;
  blank = at_work waiting;
}

abbrev pub answers : Answers
answers = record {
  idx = some 1;
  disk = true;
  nr_zones = 2;
  zone_sectors = 64;
  report = first ∷ second ∷ [];
  report_error = none;
  zone_state_wq = Queue.queue;
  retry_wq = Queue.queue;
  gc_thread = none;
  proc_entry = true;
  bio_split = none;
}

abbrev no_device : LbzDevice
no_device = record {
  disk = none;
  minor = 0;
  phy_bdev = 0;
  meta_bytes = 0;
  dev_size = 0;
  refcnt = 0;
  nr_zones = 0;
  zone_slots = 0;
  remove = false;
  zone_state_wq = Queue.queue;
  retry_wq = Queue.queue;
  work = at_work waiting;
}

-- The physical device was opened.
abbrev pub opened : System
opened = record {
  devices = λ _. no_device;
  next_device = 0;
  lbz_devices = [];
  lbz_device_idx = λ _. false;
  ledger = record nothing { phy_bdevs = 1 };
}

is_queue : Queue.queue ≢ Queue.null
is_queue e = absurd (ground (arith, e))

pub sound : (sectors : ℕ) → sectors / 8 ≤ 64 * 2 ^ 18 → Sound build answers 64 sectors
sound sectors small = record {
  leaves = leaves_real;
  width = children_real;
  small = small;
  blank = λ i. (1, refl);
  complete = refl;
  zones = both-AreZones;
  open_le = omega arith;
  fits = omega arith;
  cap_lt = omega arith;
  cap_pos = omega arith;
  worker = is_queue;
  retry = is_queue;
}

create_device_lem_example :
    (e : Option Errno) × (s' : System) × (create_device build answers 4096 80 7 opened
      ≡ some (e, s'))
    × Created build one_zone answers 80 4096 opened e s'
create_device_lem_example =
    create_device_lem build one_zone answers 64 80 4096 7 opened (sound 80 (omega arith))
      (omega arith) (omega arith)

-- A device with index 1 that is in use but idle.
abbrev idle_device : LbzDevice
idle_device = record {
  disk =
      some (record { first_minor = 128; capacity = 80; logical_block_size = 4096; added = true });
  minor = 1;
  phy_bdev = 7;
  meta_bytes = 64;
  dev_size = 80;
  refcnt = 0;
  nr_zones = 2;
  zone_slots = blank_device.nr_zones;
  remove = false;
  zone_state_wq = Queue.queue;
  retry_wq = Queue.queue;
  work = record (at_work waiting) { stats = zero_stats };
}

idle-CanDestroy :
    CanDestroy build
      (record { first_minor = 128; capacity = 80; logical_block_size = 4096; added = true })
      idle_device
idle-CanDestroy = record {
  disk_eq = refl;
  worker = refl;
  whole = refl;
  tree = (init-IsTree real leaves_real children_real 80 (omega arith)).0;
}

first_minor_128 : ◌≡◌ {A = ℕ} 128 (idx_to_first_minor 1)
unfolding idx_to_first_minor
first_minor_128 = refl

idle_drained : is_drained idle_device ≡ true
unfolding is_drained
idle_drained = refl

-- Two such devices, and what they hold.
abbrev two_devices : System
two_devices = record {
  devices = λ _. idle_device;
  next_device = 2;
  lbz_devices = 1 ∷ 0 ∷ [];
  lbz_device_idx = λ _. true;
  ledger = all_held build (λ _. idle_device) (1 ∷ 0 ∷ []) nothing;
}

abbrev below : Ledger
below = all_held build (λ _. idle_device) (0 ∷ []) nothing

below-InRange : InRange below
unfolding holds
below-InRange = take-InRange (nat_sit_cost build) _

remove_device_lem_example :
    (s' : System) × (remove_device build 1 two_devices ≡ some (true, s'))
    × (s'.lbz_devices ≡ list_del 1 (1 ∷ 0 ∷ []))
    × (s'.ledger ≡ take one_bio_set below)
    × (s'.lbz_device_idx ≡ update two_devices.lbz_device_idx 128 false)
    × SameBut build 1 two_devices.devices s'.devices
remove_device_lem_example =
    remove_device_lem build children_real 1 two_devices
      (record { first_minor = 128; capacity = 80; logical_block_size = 4096; added = true }) below
      below-InRange idle-CanDestroy refl idle_drained refl

dev_exit_lem_example :
    (s' : System) × (dev_exit build two_devices ≡ some (true, s'))
    × (s'.lbz_devices ≡ [])
    × (s'.ledger ≡ record nothing { bio_sets = 2 })
dev_exit_lem_example =
    dev_exit_lem build children_real two_devices
      (
        (_, idle-CanDestroy, refl),
        idle_drained,
        (omega arith, tt),
        ((_, idle-CanDestroy, refl), idle_drained, tt, tt),
      )
      refl

-- Its removal, as a run.
removed : (s' : System) × (remove_device build 1 two_devices ≡ some (true, s'))
removed =
    let r =
      remove_device_lem build children_real 1 two_devices
        (record { first_minor = 128; capacity = 80; logical_block_size = 4096; added = true }) below
        below-InRange idle-CanDestroy refl idle_drained refl in
    (r.0, r.1)

remove_device_wrong_index_example :
    (removed.0.lbz_device_idx 1 ≡ true) × (removed.0.lbz_device_idx (minors * 1) ≡ false)
remove_device_wrong_index_example =
    remove_device_wrong_index build 1 two_devices removed.0
      (record { first_minor = 128; capacity = 80; logical_block_size = 4096; added = true }) refl
      first_minor_128 (omega arith) removed.1

-- A device being removed that two have open, and one of them closes it.
abbrev held_open : ℕ → LbzDevice
held_open n = record (set_remove idle_device) { refcnt = n }

one_closes : release_dev (held_open 2) ≡ some (held_open 1)
unfolding release_dev can_release dec32
one_closes = refl

closing_down_example : ((held_open 1).remove ≡ true) × ((held_open 1).refcnt ≤ (held_open 2).refcnt)
closing_down_example =
    closing_down (held_open 2) (held_open 1) refl (omega arith)
      (Uses.next Uses.here (Use.releases (held_open 1) (omega arith) one_closes))

-- The kernel gives no queue for retries, and a device without one is idle.
abbrev no_queue : Answers
no_queue = record answers { retry_wq = Queue.null }

abbrev queueless : System
queueless = record two_devices { devices = λ _. record idle_device { retry_wq = Queue.null } }

abbrev making : Making
making = record { dev = idle_device; sys = opened }
