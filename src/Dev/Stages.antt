-- ===== src/Dev/Stages.antt =====
-- `lbz_create_device` from `lbz_mapping_init` on, stage by stage: each ends, and either leaves all as it was
-- before the call or makes a device that is ready.
use mathlib.Core.Path.{subst}
use lbz.Prelude.{
  ◌≢◌, ℕ, ◌/◌, ◌*◌, ◌^◌, ◌<◌, ◌≤◌, ◌≡◌, refl, sym, ap, ◌∙◌, [], Option, none, some, true, false,
  update, Option-cases, Bool-cases, inl, inr, arith,
}
use lbz.Config.{Errno, enoent}
use lbz.Mapping.{leaf_node_entries, int_node_entries}
use lbz.Mapping.Init.{init}
use lbz.Mapping.Build.{init-IsTree}
use lbz.IoScheduler.{Device}
use lbz.IoScheduler.TaskTree.{leaf}
use lbz.IoScheduler.Fresh.{init-Agree}
use lbz.Dev.{LbzDevice, System, set_ready, idx_to_first_minor}
use lbz.Dev.Taken.{Queue, Queue-cases, Ledger, InRange, take, bytes, take-InRange}
use lbz.Dev.Parts.{
  Build, Answers, Making, on_ledger, on_work, queue_and_timer, thread_and_timer, pages_of,
  init_mapping, iosched_init, create_gc_thread, nat_sit_cost,
}
use lbz.Dev.Create.{
  one_proc_entry, one_bio_set, fails, publish, with_proc, with_gc, with_iosched, with_zones,
}
use lbz.Dev.Holding.{holds, mapping_held, with_gc_held, with_zones_held, tree_pages}
use lbz.Dev.Unwind.{
  Unwound, Unwinds, rebase, iosched_err-Unwinds, gc_err-Unwinds, proc_err-Unwinds, bs_err-Unwinds,
}
use lbz.Dev.New.{
  IsInit, HasParts, IsMade, Refuses, HasZonesOf, IsMade-rebase, HasParts-later, HasParts-CanDestroy,
  IsInit-later, init_nat_sit_lem,
}

module _ (k : Build) (zone_no : ℕ → ℕ) (idx sectors block_size : ℕ) (l : Ledger) (a : Answers) where
  -- A call that failed left all as it was, and has the error of a step that failed; one that succeeded
  -- made the device.
  abbrev pub Outcome : Option Errno → System → System → Type 0
  Outcome (some e) s s' =
      Unwound s l (update s.lbz_device_idx (idx_to_first_minor idx) false) s' × Refuses a e
  Outcome none s s' = IsMade k zone_no idx sectors block_size s l s'

  abbrev pub Ends : System → Option (Option Errno × System) → Type 0
  Ends s result = (e : Option Errno) × (s' : System) × (result ≡ some (e, s')) × Outcome e s s'

  fails_lem :
      (s : System) (e : Errno) {end : Option System}
      → Unwinds s l (update s.lbz_device_idx (idx_to_first_minor idx) false) end
      → Refuses a e
      → Ends s (fails k e end)
  fails_lem s e (s', q, u) why = (some e, s', rw q refl, (u, why))

  -- The device at the end of the call.
  abbrev shown : LbzDevice → LbzDevice
  shown d = set_ready (record d {
    disk = elim d.disk [ none ↦ none | some disk ↦ some (record disk { added = true }) ];
  })

  shown-IsInit :
      (d : LbzDevice)
      → IsInit idx sectors block_size false d
      → IsInit idx sectors block_size true (shown d)
  shown-IsInit d i = record {
    minor_eq = i.minor_eq;
    disk_eq = rw (i.disk_eq) refl;
    size_eq = i.size_eq;
    refcnt_eq = i.refcnt_eq;
    remove_eq = i.remove_eq;
    faulty_eq = i.faulty_eq;
    stats_eq = i.stats_eq;
  }

  shown-HasParts : (d : LbzDevice) → HasParts k zone_no d → HasParts k zone_no (shown d)
  shown-HasParts d p = record {
    inv = p.inv;
    worker = p.worker;
    whole = p.whole;
    agree = p.agree;
    tree_eq = p.tree_eq;
    pending_eq = p.pending_eq;
    gc_writes_eq = p.gc_writes_eq;
  }

  publish-IsMade :
      (m : Making)
      → IsInit idx sectors block_size false m.dev
      → HasParts k zone_no m.dev
      → m.dev.retry_wq ≡ Queue.queue
      → m.sys.ledger ≡ holds k m.dev l
      → IsMade k zone_no idx sectors block_size m.sys l (publish k m)
  unfolding publish holds mapping_held
  publish-IsMade m i p set held =
      let n = m.sys.next_device in
      let here : (publish k m).devices n ≡ shown m.dev = ground arith in
      record {
        index_eq = refl;
        list_eq = refl;
        next_eq = refl;
        others_eq = λ j ne. ground (arith, ne);
        ledger_eq = held ∙ ap (λ d. holds k d l) (sym here);
        ready = ap (λ d. d.work.ready) here;
        made = subst (IsInit idx sectors block_size true) (sym here) (shown-IsInit m.dev i);
        parts = subst (HasParts k zone_no) (sym here) (shown-HasParts m.dev p);
        retry = ap LbzDevice.retry_wq here ∙ set;
      }

  -- What was held on the way does not matter.
  pub Ends-rebase :
      {s : System} {x : Ledger} {r : Option (Option Errno × System)}
      → Ends (record s { ledger = x }) r
      → Ends s r
  Ends-rebase (some e, s', q, (u, why)) = (some e, s', q, (rebase u, why))
  Ends-rebase (none, s', q, v) = (none, s', q, IsMade-rebase v)

  pub Ends-by : {s : System} {r r' : Option (Option Errno × System)} → r ≡ r' → Ends s r' → Ends s r
  Ends-by {s} e x = subst (Ends s) (sym e) x

  module _ (width : 0 < int_node_entries k.layout) (h : InRange l) where
    with_proc-Ends :
        (m : Making)
        → IsInit idx sectors block_size false m.dev
        → HasParts k zone_no m.dev
        → m.dev.retry_wq ≡ Queue.queue
        → m.sys.ledger ≡ take one_proc_entry (with_gc_held k (mapping_held k m.dev l))
        → Ends m.sys (with_proc k a m)
    unfolding with_proc holds mapping_held
    with_proc-Ends m i p set held = elim (Option-cases a.bio_split) [
      | inr (e, q) ↦ Ends-by (rw q refl) (
          fails_lem m.sys e (bs_err-Unwinds k width l h m (HasParts-CanDestroy p i) set held)
            (Refuses.no_bio_split q))
      | inl q ↦
          let before = on_ledger (take one_bio_set) m in
          let (rule, r) = init_nat_sit_lem k before (take-InRange one_bio_set m.sys.ledger) in
          let done =
            on_ledger (take (nat_sit_cost k)) (on_work (λ w. record w { nat_sit = rule }) before) in
          (
            none,
            publish k done,
            rw (q, r) refl,
            IsMade-rebase (
                publish-IsMade done
                  (IsInit-later i m.dev.zone_slots m.dev.zone_state_wq m.dev.retry_wq done.dev.work
                    refl refl)
                  (HasParts-later p m.dev.work.gc_ctx rule) set
                  (ap (λ x. take (nat_sit_cost k) (take one_bio_set x)) held)),
          )
    ]

    with_gc-Ends :
        (m : Making)
        → IsInit idx sectors block_size false m.dev
        → HasParts k zone_no m.dev
        → m.dev.retry_wq ≡ Queue.queue
        → m.sys.ledger ≡ with_gc_held k (mapping_held k m.dev l)
        → Ends m.sys (with_gc k a m)
    unfolding with_gc
    with_gc-Ends m i p set held = elim (Bool-cases a.proc_entry) [
      | inl q ↦ Ends-by (rw q refl) (
          Ends-rebase (
            with_proc-Ends (on_ledger (take one_proc_entry) m) i p set
              (ap (take one_proc_entry) held)))
      | inr q ↦ Ends-by (rw q refl) (
          fails_lem m.sys enoent (proc_err-Unwinds k width l h m (HasParts-CanDestroy p i) set held)
            (Refuses.no_proc_entry q))
    ]

    with_iosched-Ends :
        (m : Making)
        → IsInit idx sectors block_size false m.dev
        → HasParts k zone_no m.dev
        → m.dev.retry_wq ≡ Queue.queue
        → m.sys.ledger
          ≡ take queue_and_timer (take (bytes k.sizes.iosched) (mapping_held k m.dev l))
        → Ends m.sys (with_iosched k a m)
    unfolding with_iosched create_gc_thread mapping_held
    with_iosched-Ends m i p set held = elim (Option-cases a.gc_thread) [
      | inr (e, q) ↦
          let c = record (m.dev.work.gc_ctx) { gc_times = 0 } in
          let made =
            on_work (λ w. record w { gc_ctx = c }) (on_ledger (take (bytes k.sizes.gc_ctx)) m) in
          Ends-by (rw q refl) (
            Ends-rebase (
              fails_lem made.sys e
                (gc_err-Unwinds k width l h made
                  (HasParts-CanDestroy (HasParts-later p c m.dev.work.nat_sit) (
                    IsInit-later i m.dev.zone_slots m.dev.zone_state_wq m.dev.retry_wq made.dev.work
                      refl refl))
                  set (ap (take (bytes k.sizes.gc_ctx)) held))
                (Refuses.no_gc_thread q)))
      | inl q ↦
          let c = record (m.dev.work.gc_ctx) {
            gc_times = 0;
            gc_state = record {
              faulty = false;
              reclaiming = false;
              emergency = false;
              ready = true;
              exit = false;
              exited = false;
            };
          } in
          let made =
            on_ledger (λ x. take thread_and_timer (take (bytes k.sizes.gc_ctx) x))
              (on_work (λ w. record w { gc_ctx = c }) m) in
          Ends-by (rw q refl) (
            Ends-rebase (
              with_gc-Ends made
                (IsInit-later i m.dev.zone_slots m.dev.zone_state_wq m.dev.retry_wq made.dev.work
                  refl refl)
                (HasParts-later p c m.dev.work.nat_sit) set
                (ap (λ x. take thread_and_timer (take (bytes k.sizes.gc_ctx) x)) held)))
    ]

    mapping_pages :
        (sectors : ℕ)
        → sectors / 8 ≤ 64 * 2 ^ 18
        → 0 < leaf_node_entries k.layout
        → pages_of (init k.layout sectors).1 ≡ tree_pages k (init k.layout sectors).0.max_blkid
    mapping_pages sectors small leaves =
        let (_, blocks, pages) = init-IsTree k.layout leaves width sectors small in
        ap pages_of pages ∙ ap (tree_pages k) (sym blocks)

    pub with_zones-Ends :
        (m : Making)
        → m.dev.zone_state_wq ≡ Queue.queue
        → a.retry_wq ≢ Queue.null
        → sectors / 8 ≤ 64 * 2 ^ 18
        → 0 < leaf_node_entries k.layout
        → IsInit idx sectors block_size false m.dev
        → HasZonesOf m.dev.zone_slots m.dev.work.zone_metadata
        → m.sys.ledger ≡ with_zones_held k m.dev.work.zone_metadata m.dev.zone_slots l
        → Ends m.sys (with_zones k a m)
    unfolding with_zones init_mapping iosched_init mapping_held
    with_zones-Ends m set fine small leaves i z held =
        let size = m.dev.dev_size in
        let small' : size / 8 ≤ 64 * 2 ^ 18 = rw (i.size_eq) small in
        let w : Device = record (m.dev.work) {
          mapping = (init k.layout size).0;
          task_tree = leaf;
          task_count = 0;
          pending_count = 0;
          lbz_user_pending = [];
          gc_write_count = 0;
          lbz_gc_writes = [];
        } in
        let tree_held = λ (x : Ledger).
          take (bytes k.sizes.iosched)
            (take (pages_of (init k.layout size).1) (take (bytes k.sizes.mapping) x)) in
        let base = on_ledger tree_held (on_work (λ _. w) m) in
        let made = record base { dev = record (base.dev) { retry_wq = a.retry_wq } } in
        let i' = IsInit-later i m.dev.zone_slots m.dev.zone_state_wq a.retry_wq w refl refl in
        let p : HasParts k zone_no made.dev = record {
          inv = z.inv;
          worker = set;
          whole = sym z.nr_eq;
          agree =
              init-Agree k.layout zone_no size m.dev.work.zone_metadata leaves width small' z.blank;
          tree_eq = refl;
          pending_eq = refl;
          gc_writes_eq = refl;
        } in
        let total : tree_held m.sys.ledger
            ≡ take (bytes k.sizes.iosched) (mapping_held k made.dev l) =
          ap tree_held held
          ∙ ap
              (λ x. take (bytes k.sizes.iosched) (
                take x (
                  take (bytes k.sizes.mapping)
                    (with_zones_held k m.dev.work.zone_metadata m.dev.zone_slots l))))
              (mapping_pages size small' leaves) in
        elim (Queue-cases a.retry_wq) [
          | inr (inl q) ↦ absurd (fine q)
          | inr (inr (e, q)) ↦ Ends-by (rw q refl) (
              Ends-rebase (
                fails_lem made.sys e
                  (iosched_err-Unwinds k width l h made (HasParts-CanDestroy p i') total)
                  (Refuses.no_retry_wq q)))
          | inl q ↦ Ends-by (rw q refl) (
              Ends-rebase (
                with_iosched-Ends (on_ledger (take queue_and_timer) made) i' p q
                  (ap (take queue_and_timer) total)))
        ]
