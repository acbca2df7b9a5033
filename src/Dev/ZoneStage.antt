-- ===== src/Dev/ZoneStage.antt =====
-- `lbz_create_device` from `lbz_init_zone_metadata` on.
use lbz.Prelude.{
  ℕ, ◌≡◌, ◌⊎◌, refl, sym, ap, none, some, false, length, ◌==◌, Option-cases, Bool-cases, inl, inr,
}
use lbz.Config.{Errno, enxio}
use lbz.Metadata.{ZoneMetadata}
use lbz.Dev.Taken.{Queue, Queue-cases, Ledger, InRange, take, bytes, take-InRange}
use lbz.Dev.Parts.{Build, Answers, Making, on_ledger, queue_and_timer, init_zones_of, start_zones}
use lbz.Dev.Create.{with_disk, zone_err}
use lbz.Dev.Holding.{with_disk_held, zones_held, drop_zones-zones_held}
use lbz.Dev.Unwind.{rebase, zone_err-Unwound}
use lbz.Dev.New.{Sound, IsInit, HasZonesOf, Refuses, disk_of, IsInit-later, zones_made}
use lbz.Dev.Stages.{Ends, Ends-rebase, Ends-by, with_zones-Ends}

module _ (k : Build) (zone_no : ℕ → ℕ) (idx sectors block_size cap : ℕ) (l : Ledger) (h : InRange l)
    (a : Answers) (v : Sound k a cap sectors) where
  -- The zones were made, but the report or the work queue failed: they are dropped again.
  start_zones_fails :
      (m : Making) (zmd : ZoneMetadata) (e : Errno)
      → HasZonesOf (length a.report) zmd
      → InRange m.sys.ledger
      → (a.report_error ≡ some e) ⊎ ((a.report_error ≡ none) × (a.zone_state_wq ≡ Queue.err_ptr e))
      → start_zones k a zmd m ≡ some (some e, m)
  unfolding start_zones
  start_zones_fails m zmd e z fine why =
      let dropped = drop_zones-zones_held k zmd (length a.report) m.sys.ledger (sym z.nr_eq) fine in
      elim why [ inl q ↦ rw (q, dropped) refl | inr (p, q) ↦ rw (p, q, dropped) refl ]

  -- The zones were made, and nothing failed.
  abbrev zoned : ZoneMetadata → Making → Making
  zoned zmd m = record {
    dev = record (m.dev) {
      zone_slots = length a.report;
      zone_state_wq = Queue.queue;
      work = record (m.dev.work) { zone_metadata = zmd };
    };
    sys = record (m.sys) {
      ledger = take queue_and_timer (zones_held k zmd (length a.report) m.sys.ledger);
    };
  }

  start_zones_lem :
      (m : Making) (zmd : ZoneMetadata)
      → a.report_error ≡ none
      → a.zone_state_wq ≡ Queue.queue
      → start_zones k a zmd m ≡ some (none, zoned zmd m)
  unfolding start_zones
  start_zones_lem m zmd p q = rw (p, q) refl

  pub with_disk-Ends :
      (m : Making)
      → IsInit idx sectors block_size false m.dev
      → m.sys.ledger ≡ with_disk_held k l
      → Ends k zone_no idx sectors block_size l a m.sys (with_disk k a m)
  unfolding with_disk init_zones_of
  with_disk-Ends m i held =
      let zones = bytes k.sizes.zone_metadata in
      let m' = on_ledger (take zones) m in
      let fine = take-InRange zones m.sys.ledger in
      let held' = ap (take zones) held in
      let unwound =
        zone_err-Unwound k m' l (disk_of idx sectors block_size false) h i.disk_eq held' in
      let failed : (e : Errno)
          → Refuses a e
          → Ends k zone_no idx sectors block_size l a m.sys (some (some e, zone_err k m')) =
        λ e why. (some e, zone_err k m', refl, (rebase unwound, why)) in
      let stops =
        λ (e : Errno) (why : Refuses a e) (q : with_disk k a m ≡ some (some e, zone_err k m')).
          Ends-by k zone_no idx sectors block_size l a q (failed e why) in
      elim (Bool-cases (a.nr_zones == 0)) [
        | inl q ↦ stops enxio (Refuses.no_zones q) (rw q refl)
        | inr q ↦
            let (zmd, made, z) = zones_made k a cap sectors v q in
            let dropped = λ (e : Errno). start_zones_fails m' zmd e z fine in
            elim (Option-cases a.report_error) [
              | inr (e, r) ↦ stops e (Refuses.no_report r) (rw (q, made, dropped e (inl r)) refl)
              | inl r ↦ elim (Queue-cases a.zone_state_wq) [
                | inr (inl t) ↦ absurd (v.worker t)
                | inr (inr (e, t)) ↦
                    stops e (Refuses.no_zone_state_wq t) (rw (q, made, dropped e (inr (r, t))) refl)
                | inl t ↦
                    let m₂ = zoned zmd m' in
                    Ends-by k zone_no idx sectors block_size l a
                      (rw (q, made, start_zones_lem m' zmd r t) refl)
                      (Ends-rebase k zone_no idx sectors block_size l a (
                        with_zones-Ends k zone_no idx sectors block_size l a v.width h m₂ refl
                          v.retry v.small v.leaves
                          (IsInit-later i m₂.dev.zone_slots Queue.queue m₂.dev.retry_wq m₂.dev.work
                            refl refl)
                          z
                          (ap (λ x. take queue_and_timer (zones_held k zmd (length a.report) x))
                            held')))
              ]
            ]
      ]
