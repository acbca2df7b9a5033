-- ===== src/Dev/ExitLaws.antt =====
-- `lbz_dev_exit`: with every device idle, all is given back but the pools of bios.
use mathlib.Core.Path.{subst}
use lbz.Prelude.{
  ℕ, zero, suc, ◌+◌, ◌<◌, ◌≡◌, ◌≢◌, refl, sym, ap, ◌∙◌, List, [], ◌∷◌, some, true, false, update,
  length, arith,
}
use lbz.Metadata.{list_del}
use lbz.Mapping.{int_node_entries}
use lbz.Mapping.Access.{IsTree}
use lbz.Dev.{LbzDevice, System, Disk, is_drained, set_remove, modify_device}
use lbz.Dev.Taken.{
  Queue, Ledger, InRange, nothing, take, bytes, take_times, take-InRange, take_comm,
}
use lbz.Dev.Parts.{Build, queue_and_timer, thread_and_timer, nat_sit_cost}
use lbz.Dev.Create.{one_disk, one_proc_entry, one_bio_set}
use lbz.Dev.Holding.{holds, mapping_held, zones_held, with_disk_held, tree_pages}
use lbz.Dev.Unwind.{CanDestroy}
use lbz.Dev.Remove.{one_phy_bdev, remove_device, remove_all, check_mem_bytes, dev_exit}
use lbz.Dev.RemoveLaws.{zones_held-take, finish_remove-IsRemoved}

take-eq-take : (a b y : Ledger) {x : Ledger} → x ≡ take a y → take b x ≡ take a (take b y)
take-eq-take a b y e = ap (take b) e ∙ take_comm b a y

module _ (k : Build) where
  -- What a device holds does not depend on what was held before.
  holds-take : (d : LbzDevice) (a l : Ledger) → holds k d (take a l) ≡ take a (holds k d l)
  unfolding holds mapping_held
  holds-take d a l =
      let zmd = d.work.zone_metadata in
      let bare = take-eq-take a one_disk _ (take_comm (bytes k.sizes.device) a l) in
      let metadata = take-eq-take a (bytes k.sizes.zone_metadata) _ bare in
      let zones =
        ap (zones_held k zmd d.zone_slots) metadata
        ∙ sym (
            zones_held-take k zmd d.zone_slots a
              (take (bytes k.sizes.zone_metadata) (with_disk_held k l))) in
      let worker = take-eq-take a queue_and_timer _ zones in
      let mapping = take-eq-take a (bytes k.sizes.mapping) _ worker in
      let tree = take-eq-take a (tree_pages k d.work.mapping.max_blkid) _ mapping in
      let scheduler =
        take-eq-take a queue_and_timer _ (take-eq-take a (bytes k.sizes.iosched) _ tree) in
      let thread =
        take-eq-take a thread_and_timer _ (take-eq-take a (bytes k.sizes.gc_ctx) _ scheduler) in
      take-eq-take a (nat_sit_cost k) _
        (take-eq-take a one_bio_set _ (take-eq-take a one_proc_entry _ thread))

  -- What the devices of a list hold together with their physical devices, on top of `base`.
  abbrev pub all_held : (ℕ → LbzDevice) → List ℕ → Ledger → Ledger
  all_held devices [] base = base
  all_held devices (i ∷ rest) base =
      holds k (devices i) (take one_phy_bdev (all_held devices rest base))

  all_held-take :
      (devices : ℕ → LbzDevice) (is : List ℕ) (a base : Ledger)
      → all_held devices is (take a base) ≡ take a (all_held devices is base)
  all_held-take devices [] a base = refl
  all_held-take devices (i ∷ is) a base =
      ap (λ x. holds k (devices i) (take one_phy_bdev x)) (all_held-take devices is a base)
      ∙ ap (holds k (devices i)) (take_comm one_phy_bdev a (all_held devices is base))
      ∙ holds-take (devices i) a (take one_phy_bdev (all_held devices is base))

  -- Another device's state does not matter.
  abbrev pub NotIn : ℕ → List ℕ → Type 0
  NotIn i [] = Unit {0}
  NotIn i (j ∷ rest) = (i ≢ j) × NotIn i rest

  -- Each device of the list has its parts, is idle, and is listed once.
  abbrev pub AreIdle : (ℕ → LbzDevice) → List ℕ → Type 0
  AreIdle devices [] = Unit {0}
  AreIdle devices (i ∷ rest) =
      ((disk : Disk) × CanDestroy k disk (devices i) × ((devices i).retry_wq ≡ Queue.queue))
      × (is_drained (devices i) ≡ true)
      × NotIn i rest
      × AreIdle devices rest

  -- The devices but for one of them.
  abbrev pub SameBut : ℕ → (ℕ → LbzDevice) → (ℕ → LbzDevice) → Type 0
  SameBut i f g = (j : ℕ) → i ≢ j → g j ≡ f j

  all_held-SameBut :
      (i : ℕ) (f g : ℕ → LbzDevice) (is : List ℕ) (base : Ledger)
      → SameBut i f g
      → NotIn i is
      → all_held g is base ≡ all_held f is base
  all_held-SameBut i f g [] base same n = refl
  all_held-SameBut i f g (j ∷ is) base same n =
      ap (λ d. holds k d (take one_phy_bdev (all_held g is base))) (same j n.0)
      ∙ ap (λ x. holds k (f j) (take one_phy_bdev x)) (all_held-SameBut i f g is base same n.1)

  AreIdle-SameBut :
      (i : ℕ) (f g : ℕ → LbzDevice) (is : List ℕ)
      → SameBut i f g
      → NotIn i is
      → AreIdle f is
      → AreIdle g is
  AreIdle-SameBut i f g [] same n v = tt
  AreIdle-SameBut i f g (j ∷ is) same n v =
      let e = sym (same j n.0) in
      (
        subst (λ d. (disk : Disk) × CanDestroy k disk d × (d.retry_wq ≡ Queue.queue)) e v.0,
        ap is_drained (sym e) ∙ v.1,
        v.2,
        AreIdle-SameBut i f g is same n.1 v.3,
      )

  all_held-InRange :
      (devices : ℕ → LbzDevice) (is : List ℕ) (base : Ledger)
      → InRange base
      → InRange (all_held devices is base)
  unfolding holds
  all_held-InRange devices [] base h = h
  all_held-InRange devices (i ∷ is) base h = take-InRange (nat_sit_cost k) _

  pub list_del_head : (i : ℕ) (is : List ℕ) → list_del i (i ∷ is) ≡ is
  unfolding list_del
  list_del_head i is = ground arith

  pools_after :
      (n m : ℕ)
      → take_times n one_bio_set (record nothing { bio_sets = m })
        ≡ record nothing { bio_sets = m + n }
  unfolding take_times take
  pools_after zero m = ground arith
  pools_after (suc n) m = ground (arith, pools_after n (m + 1))

  pools_left : (n : ℕ) → take_times n one_bio_set nothing ≡ record nothing { bio_sets = n }
  pools_left n =
      let e : 0 + n ≡ n = omega arith in
      pools_after n 0 ∙ ap (λ m. record nothing { bio_sets = m }) e

  module _ (width : 0 < int_node_entries k.layout) where
    -- `lbz_remove_device` on an idle device with its work queues, where what is held is what the device and its physical device
    -- hold on top of `l`: it ends without a fault, the device leaves the list, no other changes, and of all
    -- that the two held only the pool of bios is left.
    pub remove_device_lem :
        (i : ℕ) (s : System) (disk : Disk) (l : Ledger)
        → InRange l
        → CanDestroy k disk (s.devices i)
        → (s.devices i).retry_wq ≡ Queue.queue
        → is_drained (s.devices i) ≡ true
        → s.ledger ≡ holds k (s.devices i) (take one_phy_bdev l)
        → (s' : System) × (remove_device k i s ≡ some (true, s'))
          × (s'.lbz_devices ≡ list_del i s.lbz_devices)
          × (s'.ledger ≡ take one_bio_set l)
          × (s'.lbz_device_idx ≡ update s.lbz_device_idx disk.first_minor false)
          × SameBut i s.devices s'.devices
    unfolding remove_device is_drained holds mapping_held
    remove_device_lem i s disk l h c set idle held =
        let marked = modify_device s i set_remove in
        let here : marked.devices i ≡ set_remove (s.devices i) = ground arith in
        let c' : CanDestroy k disk (marked.devices i) = record {
          disk_eq = ap LbzDevice.disk here ∙ c.disk_eq;
          worker = ap LbzDevice.zone_state_wq here ∙ c.worker;
          whole =
              subst (λ (d : LbzDevice). d.zone_slots ≡ d.work.zone_metadata.nr_zones) (sym here)
                c.whole;
          tree = subst (λ (d : LbzDevice). IsTree k.layout d.work.mapping) (sym here) c.tree;
        } in
        let idle' : is_drained (marked.devices i) ≡ true = ap is_drained here ∙ idle in
        let held' = held ∙ ap (λ d. holds k d (take one_phy_bdev l)) (sym here) in
        let (s', e, v) =
          finish_remove-IsRemoved k width i marked disk l h c' (ap LbzDevice.retry_wq here ∙ set)
            held' in
        (
          s',
          rw (idle', e) refl,
          v.list_eq,
          v.ledger_eq,
          v.index_eq,
          λ j ne. ap (λ f. f j) v.devices_eq ∙ ground (arith, ne),
        )

    remove_all_lem :
        (is : List ℕ) (s : System) (base : Ledger)
        → s.lbz_devices ≡ is
        → InRange base
        → AreIdle s.devices is
        → s.ledger ≡ all_held s.devices is base
        → (s' : System) × (remove_all k is s ≡ some (true, s'))
          × (s'.lbz_devices ≡ [])
          × (s'.ledger ≡ take_times (length is) one_bio_set base)
    unfolding remove_all take_times
    remove_all_lem [] s base listed fine idle held = (s, refl, listed, held)
    remove_all_lem (i ∷ is) s base listed fine idle held =
        let rest = all_held s.devices is base in
        let (s', e, list_eq, ledger_eq, _, same) =
          remove_device_lem i s idle.0.0 rest (all_held-InRange s.devices is base fine) idle.0.1
            idle.0.2 idle.1 held in
        let (t, f, nil, left) =
          remove_all_lem is s' (take one_bio_set base)
            (list_eq ∙ ap (list_del i) listed ∙ list_del_head i is) (take-InRange one_bio_set base)
            (AreIdle-SameBut i s.devices s'.devices is same idle.2 idle.3)
            (ledger_eq
              ∙ sym (all_held-take s.devices is one_bio_set base)
              ∙ sym (
                  all_held-SameBut i s.devices s'.devices is (take one_bio_set base) same
                    idle.2)) in
        (t, rw (e, f) refl, nil, left)

    -- Where each device of the list is idle, has its work queues and is listed once, and what is held is
    -- what they and their physical devices hold, `lbz_dev_exit` ends: its `BUG_ON` on `lbz_mem_bytes` is not reached, no device is
    -- listed any more, and what is left is one pool of bios for each device.
    pub dev_exit_lem :
        (s : System)
        → AreIdle s.devices s.lbz_devices
        → s.ledger ≡ all_held s.devices s.lbz_devices nothing
        → (s' : System) × (dev_exit k s ≡ some (true, s'))
          × (s'.lbz_devices ≡ [])
          × (s'.ledger ≡ record nothing { bio_sets = length s.lbz_devices })
    unfolding dev_exit check_mem_bytes
    dev_exit_lem s idle held =
        let (s', e, nil, left) =
          remove_all_lem s.lbz_devices s nothing refl (omega arith) idle held in
        let pools = left ∙ pools_left (length s.lbz_devices) in
        (s', ground (arith, e, ap Ledger.mem_bytes pools), nil, pools)
