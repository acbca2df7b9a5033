-- ===== src/Dev/New.antt =====
-- What is known of a device on its way through `lbz_create_device`, and of the calls that can end it.
use mathlib.Core.Path.{subst}
use lbz.Prelude.{
  ℕ, ◌^◌, ◌*◌, ◌/◌, ◌≤◌, ◌<◌, ◌≡◌, ◌≢◌, refl, sym, ap, ◌∙◌, List, [], ◌∷◌, none, some, Bool, true,
  false, length, ◌==◌, suc, arith, Bool-cases, inl, inr,
}
use lbz.Prelude.Words.{word}
use lbz.Config.{Errno, enomem, enxio, enoent}
use lbz.NatSit.{NatSit, add_rule}
use lbz.Gc.{GcContext}
use lbz.Metadata.{ZoneMetadata}
use lbz.Metadata.Init.{BlkZone, init_zone_metadata}
use lbz.Metadata.Init.Placing.{AreZones, open_zones}
use lbz.Metadata.Init.Report.{init_zone_metadata-Inv}
use lbz.Metadata.Invariant.{Inv}
use lbz.Mapping.{leaf_node_entries, int_node_entries}
use lbz.IoScheduler.{Device}
use lbz.IoScheduler.TaskTree.{leaf}
use lbz.IoScheduler.Consistent.{Agree}
use lbz.IoScheduler.Fresh.{IsBlank}
use lbz.Dev.{LbzDevice, System, Disk, idx_to_first_minor}
use lbz.Dev.Taken.{Queue, Ledger, InRange, take, nothing}
use lbz.Dev.Parts.{Build, Answers, Making, on_ledger, on_work, nat_sit_cost, no_args, init_nat_sit}
use lbz.Dev.Create.{zero_stats}
use lbz.Dev.Holding.{holds}
use lbz.Dev.Unwind.{CanDestroy}
use lbz.Dev.Blank.{init_zone_metadata-IsBlank}

-- What is assumed: the nodes of the mapping have room, the device has at most 64 GiB, fresh zones are
-- blank, and the kernel reports all the zones of the queue, which have one capacity, are at most two of them
-- written in part, and are below 2 ^ 31 blocks together; and a work queue that cannot be made is reported by an
-- error pointer, which the code tests for.
pub record Sound (k : Build) (a : Answers) (cap sectors : ℕ) : Type 0 where
  pub leaves : 0 < leaf_node_entries k.layout
  pub width : 0 < int_node_entries k.layout
  pub small : sectors / 8 ≤ 64 * 2 ^ 18
  pub blank : IsBlank k.blank.zone_metadata
  pub complete : a.nr_zones ≡ length a.report
  pub zones : AreZones cap a.report
  pub open_le : open_zones cap a.report ≤ 2
  pub fits : length a.report * (cap / 8) < 2 ^ 31
  pub cap_lt : cap < word
  pub cap_pos : 0 < cap / 8
  pub worker : a.zone_state_wq ≢ Queue.null
  pub retry : a.retry_wq ≢ Queue.null

-- A step of the kernel's failed in a call of `lbz_create_device`, and this is its error.
pub data Refuses (a : Answers) : Errno → Type 0 where
  no_index : a.idx ≡ none → Refuses a enomem
  no_disk : a.disk ≡ false → Refuses a enomem
  no_zones : (a.nr_zones == 0) ≡ true → Refuses a enxio
  no_report : {e : Errno} → a.report_error ≡ some e → Refuses a e
  no_zone_state_wq : {e : Errno} → a.zone_state_wq ≡ Queue.err_ptr e → Refuses a e
  no_retry_wq : {e : Errno} → a.retry_wq ≡ Queue.err_ptr e → Refuses a e
  no_gc_thread : {e : Errno} → a.gc_thread ≡ some e → Refuses a e
  no_proc_entry : a.proc_entry ≡ false → Refuses a enoent
  no_bio_split : {e : Errno} → a.bio_split ≡ some e → Refuses a e

abbrev pub disk_of : ℕ → ℕ → ℕ → Bool → Disk
disk_of idx sectors block_size added = record {
  first_minor = idx_to_first_minor idx;
  capacity = sectors;
  logical_block_size = block_size;
  added = added;
}

-- After `lbz_device_init`.
pub record IsInit (idx sectors block_size : ℕ) (added : Bool) (d : LbzDevice) : Type 0 where
  pub minor_eq : d.minor ≡ idx
  pub disk_eq : d.disk ≡ some (disk_of idx sectors block_size added)
  pub size_eq : d.dev_size ≡ sectors
  pub refcnt_eq : d.refcnt ≡ 0
  pub remove_eq : d.remove ≡ false
  pub faulty_eq : d.work.faulty ≡ false
  pub stats_eq : d.work.stats ≡ zero_stats

-- Metadata of `n` zones as they are set up.
pub record HasZonesOf (n : ℕ) (zmd : ZoneMetadata) : Type 0 where
  pub inv : Inv zmd
  pub blank : IsBlank zmd
  pub nr_eq : zmd.nr_zones ≡ n

-- Zones, mapping and scheduler are there: nothing is mapped, and no task is under way.
pub record HasParts (k : Build) (zone_no : ℕ → ℕ) (d : LbzDevice) : Type 0 where
  pub inv : Inv d.work.zone_metadata
  pub worker : d.zone_state_wq ≡ Queue.queue
  pub whole : d.zone_slots ≡ d.work.zone_metadata.nr_zones
  pub agree : Agree k.layout zone_no d.work.mapping d.work.zone_metadata
  pub tree_eq : d.work.task_tree ≡ leaf
  pub pending_eq : d.work.lbz_user_pending ≡ []
  pub gc_writes_eq : d.work.lbz_gc_writes ≡ []

-- The device that the call made, from where its index was taken: it has the next name and heads the list,
-- no other device changed, and what is held more is what it holds.
pub record IsMade (k : Build) (zone_no : ℕ → ℕ) (idx sectors block_size : ℕ) (s : System)
    (l : Ledger) (s' : System) : Type 0 where
  pub list_eq : s'.lbz_devices ≡ s.next_device ∷ s.lbz_devices
  pub index_eq : s'.lbz_device_idx ≡ s.lbz_device_idx
  pub next_eq : s'.next_device ≡ suc s.next_device
  pub others_eq : (j : ℕ) → j ≢ s.next_device → s'.devices j ≡ s.devices j
  pub ledger_eq : s'.ledger ≡ holds k (s'.devices s.next_device) l
  pub ready : (s'.devices s.next_device).work.ready ≡ true
  pub made : IsInit idx sectors block_size true (s'.devices s.next_device)
  pub parts : HasParts k zone_no (s'.devices s.next_device)
  pub retry : (s'.devices s.next_device).retry_wq ≡ Queue.queue

-- What was held on the way does not matter.
pub IsMade-rebase :
    {k : Build} {zone_no : ℕ → ℕ} {idx sectors block_size : ℕ} {s s' : System} {l x : Ledger}
    → IsMade k zone_no idx sectors block_size (record s { ledger = x }) l s'
    → IsMade k zone_no idx sectors block_size s l s'
IsMade-rebase v = record {
  index_eq = v.index_eq;
  list_eq = v.list_eq;
  next_eq = v.next_eq;
  others_eq = v.others_eq;
  ledger_eq = v.ledger_eq;
  ready = v.ready;
  made = v.made;
  parts = v.parts;
  retry = v.retry;
}

module _ {k : Build} {zone_no : ℕ → ℕ} {d : LbzDevice} (v : HasParts k zone_no d) where
  -- The collector and the areas come later.
  pub HasParts-later :
      (c : GcContext) (r : NatSit)
      → HasParts k zone_no (record d { work = record (d.work) { gc_ctx = c; nat_sit = r } })
  HasParts-later c r = record {
    inv = v.inv;
    worker = v.worker;
    whole = v.whole;
    agree = v.agree;
    tree_eq = v.tree_eq;
    pending_eq = v.pending_eq;
    gc_writes_eq = v.gc_writes_eq;
  }

  -- What the labels of the error path need.
  pub HasParts-CanDestroy :
      {idx sectors block_size : ℕ}
      → IsInit idx sectors block_size false d
      → CanDestroy k (disk_of idx sectors block_size false) d
  HasParts-CanDestroy i = record {
    disk_eq = i.disk_eq;
    worker = v.worker;
    whole = v.whole;
    tree = v.agree.tree;
  }

module _ {idx sectors block_size : ℕ} {added : Bool} {d : LbzDevice}
    (v : IsInit idx sectors block_size added d) where
  pub IsInit-later :
      (n : ℕ) (z r : Queue) (w : Device)
      → w.faulty ≡ d.work.faulty
      → w.stats ≡ d.work.stats
      → IsInit idx sectors block_size added
          (record d { zone_slots = n; zone_state_wq = z; retry_wq = r; work = w })
  IsInit-later n z r w f t = record {
    minor_eq = v.minor_eq;
    disk_eq = v.disk_eq;
    size_eq = v.size_eq;
    refcnt_eq = v.refcnt_eq;
    remove_eq = v.remove_eq;
    faulty_eq = f ∙ v.faulty_eq;
    stats_eq = t ∙ v.stats_eq;
  }

take-nothing : (l : Ledger) → InRange l → take nothing l ≡ l
unfolding take
take-nothing l h = ground arith

add_rule-no_args : (r : NatSit) × (add_rule no_args ≡ some r)
unfolding add_rule
add_rule-no_args = (_, refl)

-- The areas of a new device, with what they cost.
pub init_nat_sit_lem :
    (k : Build) (m : Making)
    → InRange m.sys.ledger
    → (r : NatSit) × (init_nat_sit k m
        ≡ some (on_ledger (take (nat_sit_cost k)) (on_work (λ w. record w { nat_sit = r }) m)))
unfolding init_nat_sit nat_sit_cost
init_nat_sit_lem k m h = elim (Bool-cases k.config.nat_sit_support) [
  | inl y ↦ let (r, e) = add_rule-no_args in (r, rw (y, e) refl)
  | inr n ↦ (m.dev.work.nat_sit, rw (n, take-nothing m.sys.ledger h) refl)
]

-- What `lbz_init_zone_metadata` makes of a report of `n` zones.
abbrev MakesZones : Build → ℕ → ℕ → List BlkZone → Type 0
MakesZones k n zone_sectors report =
    (zmd : ZoneMetadata) × (init_zone_metadata k.ilog2 k.blank.zone_metadata n zone_sectors report
      ≡ some zmd)
    × HasZonesOf n zmd

makes_zones :
    (k : Build) (cap zone_sectors : ℕ) (report : List BlkZone)
    → length report == 0 ≡ false
    → AreZones cap report
    → open_zones cap report ≤ 2
    → length report * (cap / 8) < 2 ^ 31
    → cap < word
    → 0 < cap / 8
    → IsBlank k.blank.zone_metadata
    → MakesZones k (length report) zone_sectors report
makes_zones k cap zone_sectors [] some_zone zones two fits lt pos blank = absurd (cc some_zone)
makes_zones k cap zone_sectors (b ∷ bs) some_zone zones two fits lt pos blank =
    let old = k.blank.zone_metadata in
    let (zmd, e, inv, _) =
      init_zone_metadata-Inv k.ilog2 cap lt pos b bs old zone_sectors zones two fits in
    let (nr_eq, clean) =
      init_zone_metadata-IsBlank k.ilog2 old (suc (length bs)) zone_sectors (b ∷ bs) zmd blank e in
    (zmd, e, record { inv = inv; blank = clean; nr_eq = nr_eq })

-- `lbz_init_zone_metadata` on the zones of a queue that has some.
pub zones_made :
    (k : Build) (a : Answers) (cap sectors : ℕ)
    → Sound k a cap sectors
    → a.nr_zones == 0 ≡ false
    → (zmd : ZoneMetadata) × (init_zone_metadata k.ilog2 k.blank.zone_metadata a.nr_zones
          a.zone_sectors a.report
        ≡ some zmd)
      × HasZonesOf (length a.report) zmd
zones_made k a cap sectors v some_zone =
    subst
      (λ n.
        (zmd : ZoneMetadata) × (init_zone_metadata k.ilog2 k.blank.zone_metadata n a.zone_sectors
            a.report
          ≡ some zmd)
        × HasZonesOf (length a.report) zmd)
      (sym v.complete)
      (makes_zones k cap a.zone_sectors a.report (ap (λ n. n == 0) (sym v.complete) ∙ some_zone)
        v.zones v.open_le v.fits v.cap_lt v.cap_pos v.blank)
