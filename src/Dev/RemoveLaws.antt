-- ===== src/Dev/RemoveLaws.antt =====
-- `lbz_remove_device` gives back what `lbz_create_device` took.
use lbz.Prelude.{ℕ, ◌<◌, ◌≡◌, refl, sym, ap, ◌∙◌, some, false, update}
use lbz.Metadata.{ZoneMetadata, list_del}
use lbz.Mapping.{int_node_entries}
use lbz.Dev.{LbzDevice, System, Disk, set_unready}
use lbz.Dev.Taken.{
  Queue, Ledger, InRange, take, give, bytes, take_times, take-InRange, give-take, take_comm,
  take_times-take, give-take_under, give-take_under_two,
}
use lbz.Dev.Parts.{
  Build, queue_and_timer, thread_and_timer, zone_cost, zone_array, destroy_zone_metadata,
  destroy_mapping, nat_sit_cost,
}
use lbz.Dev.Create.{one_disk, one_proc_entry, one_bio_set, device_free}
use lbz.Dev.Holding.{
  holds, mapping_held, with_disk_held, zones_held, with_zones_held, with_gc_held, tree_pages,
  destroy_zone_metadata-held, destroy_mapping-held, iosched_destory-queue,
}
use lbz.Dev.Unwind.{CanDestroy, device_free_lem}
use lbz.Dev.Remove.{one_phy_bdev, stop_parts, finish_remove}

module _ (k : Build) where
  -- The pool of bios stays under what is left.
  stop_parts_lem :
      (d : LbzDevice) (m : Ledger)
      → d.retry_wq ≡ Queue.queue
      → InRange m
      → stop_parts k d
          (take (nat_sit_cost k) (take one_bio_set (take one_proc_entry (with_gc_held k m))))
        ≡ some (take one_bio_set m)
  unfolding stop_parts
  stop_parts_lem d m set h =
      let areas = nat_sit_cost k in
      let pool = one_bio_set in
      let scheduler = take (bytes k.sizes.iosched) m in
      let queue = take queue_and_timer scheduler in
      let context = take (bytes k.sizes.gc_ctx) queue in
      let thread = take thread_and_timer context in
      let after_areas = λ (x : Ledger).
        give (bytes k.sizes.iosched)
          (give queue_and_timer (give (bytes k.sizes.gc_ctx) (give thread_and_timer x))) in
      let before = give (bytes k.sizes.gc_ctx) (
        give thread_and_timer (
          give areas
            (give one_proc_entry (take areas (take pool (take one_proc_entry thread)))))) in
      rw (iosched_destory-queue k d before set) (
        ap some (
          ap (λ x. after_areas (give areas x))
            (give-take_under_two one_proc_entry areas pool thread)
          ∙ ap after_areas (give-take areas (take pool thread) (take-InRange pool thread))
          ∙ ap
              (λ x.
                give (bytes k.sizes.iosched) (give queue_and_timer (give (bytes k.sizes.gc_ctx) x)))
              (give-take_under thread_and_timer pool context)
          ∙ ap (λ x. give (bytes k.sizes.iosched) (give queue_and_timer x))
              (give-take_under (bytes k.sizes.gc_ctx) pool queue)
          ∙ ap (give (bytes k.sizes.iosched)) (give-take_under queue_and_timer pool scheduler)
          ∙ give-take_under (bytes k.sizes.iosched) pool m))

  pub zones_held-take :
      (zmd : ZoneMetadata) (slots : ℕ) (a l : Ledger)
      → take a (zones_held k zmd slots l) ≡ zones_held k zmd slots (take a l)
  zones_held-take zmd slots a l =
      sym (take_times-take slots (zone_cost k zmd) a (take (zone_array k zmd) l))
      ∙ ap (take_times slots (zone_cost k zmd)) (take_comm a (zone_array k zmd) l)

  -- What is left once the mapping and the zones were destroyed.
  abbrev pool_and_zones : Ledger → Ledger
  pool_and_zones l = take one_bio_set (take (bytes k.sizes.zone_metadata) (with_disk_held k l))

  -- The two calls in `lbz_remove_device` that can meet a null pointer.
  destroys_parts :
      (width : 0 < int_node_entries k.layout) (d : LbzDevice) {disk : Disk} (l : Ledger)
      → CanDestroy k disk d
      → (x : Ledger) × (destroy_mapping k d (take one_bio_set (mapping_held k d l)) ≡ some x)
        × (destroy_zone_metadata k d (give (bytes k.sizes.mapping) x) ≡ some (pool_and_zones l))
  unfolding mapping_held
  destroys_parts width d l c =
      let pool = one_bio_set in
      let mapping = bytes k.sizes.mapping in
      let zmd = d.work.zone_metadata in
      let pages = tree_pages k d.work.mapping.max_blkid in
      let under = take (bytes k.sizes.zone_metadata) (with_disk_held k l) in
      let zones = with_zones_held k zmd d.zone_slots l in
      let left = take pool (take mapping zones) in
      let moved : take pool zones
          ≡ take queue_and_timer (zones_held k zmd d.zone_slots (take pool under)) =
        take_comm pool queue_and_timer (zones_held k zmd d.zone_slots under)
        ∙ ap (take queue_and_timer) (zones_held-take zmd d.zone_slots pool under) in
      (
        left,
        ap (destroy_mapping k d) (take_comm pool pages (take mapping zones))
            ∙ destroy_mapping-held k d left c.tree width (take-InRange pool (take mapping zones)),
        ap (destroy_zone_metadata k d) (give-take_under mapping pool zones ∙ moved)
            ∙ destroy_zone_metadata-held k d (take pool under) c.worker c.whole
                (take-InRange pool under),
      )

  -- Its removal, once it has waited, takes the device `i` with index `idx` out of the list, and leaves of all
  -- that it and its physical device held only the pool of bios.
  pub record IsRemoved (i first_minor : ℕ) (s : System) (l : Ledger) (s' : System) : Type 0 where
    pub list_eq : s'.lbz_devices ≡ list_del i s.lbz_devices
    pub ledger_eq : s'.ledger ≡ take one_bio_set l
    pub index_eq : s'.lbz_device_idx ≡ update s.lbz_device_idx first_minor false
    pub devices_eq : s'.devices ≡ update s.devices i (set_unready (s.devices i))
    pub next_eq : s'.next_device ≡ s.next_device

  disk_and_device :
      (l : Ledger)
      → give (bytes k.sizes.device) (
          give one_phy_bdev (
            give one_disk
              (give (bytes k.sizes.zone_metadata) (pool_and_zones (take one_phy_bdev l)))))
        ≡ take one_bio_set l
  disk_and_device l =
      let pool = one_bio_set in
      let device = bytes k.sizes.device in
      let open_device = take device (take one_phy_bdev l) in
      ap (λ x. give device (give one_phy_bdev (give one_disk x)))
        (give-take_under (bytes k.sizes.zone_metadata) pool (take one_disk open_device))
      ∙ ap (λ x. give device (give one_phy_bdev x)) (give-take_under one_disk pool open_device)
      ∙ ap (give device) (give-take_under_two one_phy_bdev pool device l)
      ∙ give-take_under device pool l

  pub finish_remove-IsRemoved :
      (width : 0 < int_node_entries k.layout) (i : ℕ) (s : System) (disk : Disk) (l : Ledger)
      → InRange l
      → CanDestroy k disk (s.devices i)
      → (s.devices i).retry_wq ≡ Queue.queue
      → s.ledger ≡ holds k (s.devices i) (take one_phy_bdev l)
      → (s' : System) × (finish_remove k i s ≡ some s') × IsRemoved i disk.first_minor s l s'
  unfolding finish_remove holds mapping_held
  finish_remove-IsRemoved width i s disk l h c set held =
      let d = set_unready (s.devices i) in
      let under = take one_phy_bdev l in
      let c' : CanDestroy k disk d = record {
        disk_eq = c.disk_eq;
        worker = c.worker;
        whole = c.whole;
        tree = c.tree;
      } in
      let zones = with_zones_held k d.work.zone_metadata d.zone_slots under in
      let stopped : stop_parts k d s.ledger ≡ some (take one_bio_set (mapping_held k d under)) =
        ap (stop_parts k d) held
        ∙ stop_parts_lem d (mapping_held k d under) set (
            take-InRange (tree_pages k d.work.mapping.max_blkid)
              (take (bytes k.sizes.mapping) zones)) in
      let (x, tree, destroyed) = destroys_parts width d under c' in
      let before = record s {
        ledger = give (bytes k.sizes.zone_metadata) (pool_and_zones under);
      } in
      let gone = device_free_lem d before disk c.disk_eq in
      let freed = device_free d before in
      (
        record freed {
          lbz_devices = list_del i freed.lbz_devices;
          devices = update freed.devices i d;
          ledger = give (bytes k.sizes.device) (give one_phy_bdev freed.ledger);
        },
        rw (stopped, tree, destroyed) refl,
        record {
          list_eq = ap (λ (z : System). list_del i z.lbz_devices) gone;
          ledger_eq =
              ap (λ (z : System). give (bytes k.sizes.device) (give one_phy_bdev z.ledger)) gone
              ∙ disk_and_device l;
          index_eq = ap System.lbz_device_idx gone;
          devices_eq = ap (λ (z : System). update z.devices i d) gone;
          next_eq = ap System.next_device gone;
        },
      )
