-- ===== src/Dev/Holding.antt =====
-- What a device holds while it is in use, and that giving it back part by part leaves nothing of it.
use mathlib.Core.Path.{subst}
use lbz.Prelude.{ℕ, ◌<◌, zero, suc, ◌+◌, ◌≡◌, refl, ap, ◌∙◌, some}
use lbz.Metadata.{ZoneMetadata}
use lbz.Mapping.{int_node_entries}
use lbz.Mapping.Init.{nr_internal_node, nr_leaf_node}
use lbz.Mapping.Access.{IsTree}
use lbz.Mapping.Destroy.{destroy-some}
use lbz.Dev.{LbzDevice}
use lbz.Dev.Taken.{
  Queue, Ledger, InRange, take, give, bytes, take_times, give_times, take-InRange, give-take,
  take_times-InRange, give_times-take_times,
}
use lbz.Dev.Parts.{
  destroy_queue, iosched_destory, Build, queue_and_timer, thread_and_timer, pages_of, zone_cost,
  zone_array, drop_each, drop_zones, destroy_zone_metadata, destroy_mapping, nat_sit_cost,
}
use lbz.Dev.Create.{one_disk, one_proc_entry, one_bio_set}

module _ (k : Build) where
  -- Added to what was held before: the device and its disk, ...
  abbrev pub with_disk_held : Ledger → Ledger
  with_disk_held l = take one_disk (take (bytes k.sizes.device) l)

  -- ... its zones, ...
  abbrev pub zones_held : ZoneMetadata → ℕ → Ledger → Ledger
  zones_held zmd slots l = take_times slots (zone_cost k zmd) (take (zone_array k zmd) l)

  abbrev pub with_zones_held : ZoneMetadata → ℕ → Ledger → Ledger
  with_zones_held zmd slots l =
      take queue_and_timer
        (zones_held zmd slots (take (bytes k.sizes.zone_metadata) (with_disk_held l)))

  -- ... its mapping, of so many blocks, ...
  abbrev pub tree_pages : ℕ → Ledger
  tree_pages blocks = pages_of (nr_internal_node k.layout blocks + nr_leaf_node k.layout blocks)

  unfoldable pub mapping_held : LbzDevice → Ledger → Ledger
  mapping_held d l =
      take (tree_pages d.work.mapping.max_blkid)
        (take (bytes k.sizes.mapping) (with_zones_held d.work.zone_metadata d.zone_slots l))

  -- ... its scheduler and collector, ...
  abbrev pub with_gc_held : Ledger → Ledger
  with_gc_held l =
      take thread_and_timer
        (take (bytes k.sizes.gc_ctx) (take queue_and_timer (take (bytes k.sizes.iosched) l)))

  -- ... and its entry under /proc, its pool of bios and its areas.
  abbrev pub with_all_held : Ledger → Ledger
  with_all_held l = take (nat_sit_cost k) (take one_bio_set (take one_proc_entry (with_gc_held l)))

  unfoldable pub holds : LbzDevice → Ledger → Ledger
  holds d l = with_all_held (mapping_held d l)

  drop_each-give_times :
      (n : ℕ) (cost l : Ledger) → drop_each k n n cost l ≡ some (give_times n cost l)
  unfolding drop_each give_times
  drop_each-give_times zero cost l = refl
  drop_each-give_times (suc n) cost l = drop_each-give_times n cost (give cost l)

  drop_each-take_times :
      (n slots : ℕ) (cost l : Ledger)
      → slots ≡ n
      → InRange l
      → drop_each k n slots cost (take_times slots cost l) ≡ some l
  drop_each-take_times n slots cost l e h =
      subst (λ n. drop_each k n slots cost (take_times slots cost l) ≡ some l) e
        (drop_each-give_times slots cost (take_times slots cost l)
          ∙ ap some (give_times-take_times slots cost l h))

  pub drop_zones-zones_held :
      (zmd : ZoneMetadata) (slots : ℕ) (l : Ledger)
      → slots ≡ zmd.nr_zones
      → InRange l
      → drop_zones k zmd slots (zones_held zmd slots l) ≡ some l
  unfolding drop_zones
  drop_zones-zones_held zmd slots l whole h =
      let array = zone_array k zmd in
      rw
        (drop_each-take_times zmd.nr_zones slots (zone_cost k zmd) (take array l) whole
          (take-InRange array l))
        (ap some (give-take array l h))

  -- The zones and their worker.
  pub destroy_zone_metadata-held :
      (d : LbzDevice) (l : Ledger)
      → d.zone_state_wq ≡ Queue.queue
      → d.zone_slots ≡ d.work.zone_metadata.nr_zones
      → InRange l
      → destroy_zone_metadata k d
          (take queue_and_timer (zones_held d.work.zone_metadata d.zone_slots l))
        ≡ some l
  unfolding destroy_zone_metadata destroy_queue
  destroy_zone_metadata-held d l set whole h =
      let zmd = d.work.zone_metadata in
      rw
        (
          set,
          give-take queue_and_timer (zones_held zmd d.zone_slots l) (
              take_times-InRange d.zone_slots (zone_cost k zmd) (take (zone_array k zmd) l)
                (take-InRange (zone_array k zmd) l)),
        )
        (drop_zones-zones_held zmd d.zone_slots l whole h)

  -- The scheduler's queue.
  pub iosched_destory-queue :
      (d : LbzDevice) (l : Ledger)
      → d.retry_wq ≡ Queue.queue
      → iosched_destory k d l ≡ some (give queue_and_timer l)
  unfolding iosched_destory destroy_queue
  iosched_destory-queue d l set = rw set refl

  -- A tree that kept its shape gives its pages back.
  pub destroy_mapping-held :
      (d : LbzDevice) (l : Ledger)
      → IsTree k.layout d.work.mapping
      → 0 < int_node_entries k.layout
      → InRange l
      → destroy_mapping k d (take (tree_pages d.work.mapping.max_blkid) l) ≡ some l
  unfolding destroy_mapping
  destroy_mapping-held d l tree width h =
      rw (destroy-some k.layout tree width)
        (ap some (give-take (tree_pages d.work.mapping.max_blkid) l h))
