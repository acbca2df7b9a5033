-- ===== src/Dev/Unwind.antt =====
-- The error path of `lbz_create_device`, label by label.
use lbz.Prelude.{ℕ, ◌<◌, ◌≡◌, refl, ap, ◌∙◌, Option, some, Bool, false, update}
use lbz.Mapping.{int_node_entries}
use lbz.Mapping.Access.{IsTree}
use lbz.Dev.{LbzDevice, System, Disk}
use lbz.Dev.Taken.{Queue, Ledger, InRange, take, give, bytes, take-InRange, give-take}
use lbz.Dev.Parts.{
  Build, Making, on_ledger, queue_and_timer, thread_and_timer, destroy_mapping,
  destroy_zone_metadata,
}
use lbz.Dev.Create.{
  one_disk, one_proc_entry, free_index, device_free, out, zone_err, iosched_err, gc_err, proc_err,
  bs_err,
}
use lbz.Dev.Holding.{
  with_disk_held, zones_held, tree_pages, with_zones_held, mapping_held, with_gc_held,
  destroy_zone_metadata-held, destroy_mapping-held, iosched_destory-queue,
}

-- The devices are those of `s`, `l` is held, and `given` are the indices given out.
pub record Unwound (s : System) (l : Ledger) (given : ℕ → Bool) (s' : System) : Type 0 where
  pub index_eq : s'.lbz_device_idx ≡ given
  pub ledger_eq : s'.ledger ≡ l
  pub list_eq : s'.lbz_devices ≡ s.lbz_devices
  pub devices_eq : s'.devices ≡ s.devices
  pub next_eq : s'.next_device ≡ s.next_device

-- A call that ends there.
abbrev pub Unwinds : System → Ledger → (ℕ → Bool) → Option System → Type 0
Unwinds s l given result = (s' : System) × (result ≡ some s') × Unwound s l given s'

pub device_free_lem :
    (d : LbzDevice) (s : System) (disk : Disk)
    → d.disk ≡ some disk
    → device_free d s ≡ free_index disk.first_minor (record s { ledger = give one_disk s.ledger })
unfolding device_free
device_free_lem d s disk e = rw e refl

-- What is held in between does not matter.
pub rebase :
    {s s' : System} {l x : Ledger} {given : ℕ → Bool}
    → Unwound (record s { ledger = x }) l given s'
    → Unwound s l given s'
rebase u = record {
  index_eq = u.index_eq;
  ledger_eq = u.ledger_eq;
  list_eq = u.list_eq;
  devices_eq = u.devices_eq;
  next_eq = u.next_eq;
}

rebased :
    {s : System} {l x : Ledger} {given : ℕ → Bool} {r : Option System}
    → Unwinds (record s { ledger = x }) l given r
    → Unwinds s l given r
rebased (s', e, u) = (s', e, rebase u)

module _ (k : Build) where
  pub out-Unwound :
      (m : Making) (l : Ledger)
      → InRange l
      → m.sys.ledger ≡ take (bytes k.sizes.device) l
      → Unwound m.sys l m.sys.lbz_device_idx (out k m)
  unfolding out
  out-Unwound m l h e = record {
    index_eq = refl;
    ledger_eq = ap (give (bytes k.sizes.device)) e ∙ give-take (bytes k.sizes.device) l h;
    list_eq = refl;
    devices_eq = refl;
    next_eq = refl;
  }

  pub zone_err-Unwound :
      (m : Making) (l : Ledger) (disk : Disk)
      → InRange l
      → m.dev.disk ≡ some disk
      → m.sys.ledger ≡ take (bytes k.sizes.zone_metadata) (with_disk_held k l)
      → Unwound m.sys l (update m.sys.lbz_device_idx disk.first_minor false) (zone_err k m)
  unfolding zone_err out
  zone_err-Unwound m l disk h e held =
      let device = bytes k.sizes.device in
      let zones = bytes k.sizes.zone_metadata in
      let freed = on_ledger (give zones) m in
      let gone = device_free_lem m.dev freed.sys disk e in
      record {
        index_eq = ap System.lbz_device_idx gone;
        ledger_eq =
            ap (λ s. give device (System.ledger s)) gone
            ∙ ap (λ x. give device (give one_disk (give zones x))) held
            ∙ ap (λ x. give device (give one_disk x))
                (give-take zones (with_disk_held k l) (take-InRange one_disk (take device l)))
            ∙ ap (give device) (give-take one_disk (take device l) (take-InRange device l))
            ∙ give-take device l h;
        list_eq = ap System.lbz_devices gone;
        devices_eq = ap System.devices gone;
        next_eq = ap System.next_device gone;
      }

  -- What the labels from `iosched_err` on need of the device.
  pub record CanDestroy (disk : Disk) (d : LbzDevice) : Type 0 where
    pub disk_eq : d.disk ≡ some disk
    pub worker : d.zone_state_wq ≡ Queue.queue
    pub whole : d.zone_slots ≡ d.work.zone_metadata.nr_zones
    pub tree : IsTree k.layout d.work.mapping

  -- `lbz_device_free` gives a number back.
  abbrev pub returned : Making → Disk → ℕ → Bool
  returned m disk = update m.sys.lbz_device_idx disk.first_minor false

  module _ (width : 0 < int_node_entries k.layout) (l : Ledger) (h : InRange l) where
    mapping_held-InRange : (d : LbzDevice) → InRange (mapping_held k d l)
    unfolding mapping_held
    mapping_held-InRange d =
        let zones = with_zones_held k d.work.zone_metadata d.zone_slots l in
        take-InRange (tree_pages k d.work.mapping.max_blkid) (take (bytes k.sizes.mapping) zones)

    abbrev zone_metadata_held : Ledger
    zone_metadata_held = take (bytes k.sizes.zone_metadata) (with_disk_held k l)

    -- The mapping and the zones go, and what is left is the path of `zone_err`.
    destroys :
        (d : LbzDevice) {disk : Disk}
        → CanDestroy disk d
        → (x : Ledger) × (destroy_mapping k d (mapping_held k d l) ≡ some x)
          × (destroy_zone_metadata k d (give (bytes k.sizes.mapping) x) ≡ some zone_metadata_held)
    unfolding mapping_held
    destroys d c =
        let mapping = bytes k.sizes.mapping in
        let zones = with_zones_held k d.work.zone_metadata d.zone_slots l in
        let bare = take-InRange (bytes k.sizes.zone_metadata) (with_disk_held k l) in
        (
          take mapping zones,
          destroy_mapping-held k d (take mapping zones) c.tree width (take-InRange mapping zones),
          ap (destroy_zone_metadata k d) (
                give-take mapping zones (
                  take-InRange queue_and_timer
                    (zones_held k d.work.zone_metadata d.zone_slots zone_metadata_held)))
              ∙ destroy_zone_metadata-held k d zone_metadata_held c.worker c.whole bare,
        )

    pub iosched_err-Unwinds :
        (m : Making) {disk : Disk}
        → CanDestroy disk m.dev
        → m.sys.ledger ≡ take (bytes k.sizes.iosched) (mapping_held k m.dev l)
        → Unwinds m.sys l (returned m disk) (iosched_err k m)
    unfolding iosched_err
    iosched_err-Unwinds m {disk} c held =
        let (x, tree, zones) = destroys m.dev c in
        let scheduler : give (bytes k.sizes.iosched) m.sys.ledger ≡ mapping_held k m.dev l =
          ap (give (bytes k.sizes.iosched)) held
          ∙ give-take (bytes k.sizes.iosched) (mapping_held k m.dev l)
              (mapping_held-InRange m.dev) in
        let bare = on_ledger (λ _. zone_metadata_held) m in
        (
          zone_err k bare,
          rw (scheduler, tree, zones) refl,
          rebase (zone_err-Unwound bare l disk h c.disk_eq refl),
        )

    pub gc_err-Unwinds :
        (m : Making) {disk : Disk}
        → CanDestroy disk m.dev
        → m.dev.retry_wq ≡ Queue.queue
        → m.sys.ledger
          ≡ take
              (bytes k.sizes.gc_ctx)
              (take queue_and_timer (take (bytes k.sizes.iosched) (mapping_held k m.dev l)))
        → Unwinds m.sys l (returned m disk) (gc_err k m)
    unfolding gc_err
    gc_err-Unwinds m c set held =
        let scheduler = take (bytes k.sizes.iosched) (mapping_held k m.dev l) in
        let queue = take queue_and_timer scheduler in
        let before = λ (x : Ledger). give queue_and_timer (give (bytes k.sizes.gc_ctx) x) in
        let given : before m.sys.ledger ≡ scheduler =
          ap before held
          ∙ ap (give queue_and_timer)
              (give-take (bytes k.sizes.gc_ctx) queue (take-InRange queue_and_timer scheduler))
          ∙ give-take queue_and_timer scheduler
              (take-InRange (bytes k.sizes.iosched) (mapping_held k m.dev l)) in
        let (s', e, u) = iosched_err-Unwinds (on_ledger (λ _. scheduler) m) c refl in
        (
          s',
          rw
              (
                iosched_destory-queue k m.dev (give (bytes k.sizes.gc_ctx) m.sys.ledger) set
                    ∙ ap some given,
                e,
              )
              refl,
          rebase u,
        )

    pub proc_err-Unwinds :
        (m : Making) {disk : Disk}
        → CanDestroy disk m.dev
        → m.dev.retry_wq ≡ Queue.queue
        → m.sys.ledger ≡ with_gc_held k (mapping_held k m.dev l)
        → Unwinds m.sys l (returned m disk) (proc_err k m)
    unfolding proc_err
    proc_err-Unwinds m c set held =
        let context =
          take (bytes k.sizes.gc_ctx)
            (take queue_and_timer (take (bytes k.sizes.iosched) (mapping_held k m.dev l))) in
        let given : give thread_and_timer m.sys.ledger ≡ context =
          ap (give thread_and_timer) held
          ∙ give-take thread_and_timer context (
              take-InRange (bytes k.sizes.gc_ctx)
                (take queue_and_timer (take (bytes k.sizes.iosched) (mapping_held k m.dev l)))) in
        rebased (gc_err-Unwinds (on_ledger (give thread_and_timer) m) c set given)

    pub bs_err-Unwinds :
        (m : Making) {disk : Disk}
        → CanDestroy disk m.dev
        → m.dev.retry_wq ≡ Queue.queue
        → m.sys.ledger ≡ take one_proc_entry (with_gc_held k (mapping_held k m.dev l))
        → Unwinds m.sys l (returned m disk) (bs_err k m)
    unfolding bs_err
    bs_err-Unwinds m c set held =
        let thread = with_gc_held k (mapping_held k m.dev l) in
        let context =
          take (bytes k.sizes.gc_ctx)
            (take queue_and_timer (take (bytes k.sizes.iosched) (mapping_held k m.dev l))) in
        let given : give one_proc_entry m.sys.ledger ≡ thread =
          ap (give one_proc_entry) held
          ∙ give-take one_proc_entry thread (take-InRange thread_and_timer context) in
        rebased (proc_err-Unwinds (on_ledger (give one_proc_entry) m) c set given)
