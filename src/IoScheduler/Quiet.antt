-- ===== src/IoScheduler/Quiet.antt =====
-- Steps of the scheduler that leave the maps alone: references, zones' counts, and the end of a task with
-- what waits for it.
use lbz.Prelude.{ℕ, ◌≡◌, ◌≢◌, sym, refl, ◌∙◌, some, false, true, ◌==◌, Bool-cases, inl, inr, arith}
use lbz.Prelude.Words.{dec32}
use lbz.Zone.{Zone, put_zone}
use lbz.Metadata.{ZoneMetadata, modify_zone, get_zone_by_pbid}
use lbz.Mapping.{Layout}
use lbz.IoScheduler.{TaskStatus, absent, Task, Device, Env, modify_task, on_zone}
use lbz.IoScheduler.Tasks.{drop_ref, task_destroy, gc_task_put}
use lbz.IoScheduler.Callback.{
  is_none, enter_task, leave, leave_reading, leave_init, put_zone_of, gc_task_callback,
}
use lbz.IoScheduler.Reverse.{reverse_at}
use lbz.IoScheduler.Consistent.{Agree}

-- The maps, the device's state and the events stay.
pub record Quiet (zone_no : ℕ → ℕ) (d d' : Device) : Type 0 where
  pub mapping : d'.mapping ≡ d.mapping
  pub reverse :
      (q : ℕ) → reverse_at zone_no d'.zone_metadata q ≡ reverse_at zone_no d.zone_metadata q
  pub events : d'.events ≡ d.events
  pub faulty : d'.faulty ≡ d.faulty

module _ (zone_no : ℕ → ℕ) where
  pub Quiet-trans :
      {d d' d'' : Device} → Quiet zone_no d d' → Quiet zone_no d' d'' → Quiet zone_no d d''
  Quiet-trans v w = record {
    mapping = w.mapping ∙ v.mapping;
    reverse = λ q. w.reverse q ∙ v.reverse q;
    events = w.events ∙ v.events;
    faulty = w.faulty ∙ v.faulty;
  }

  pub Agree-Quiet :
      (y : Layout) {d d' : Device}
      → Agree y zone_no d.mapping d.zone_metadata
      → Quiet zone_no d d'
      → Agree y zone_no d'.mapping d'.zone_metadata
  Agree-Quiet y {d} {d'} v w = rw (w.mapping) (record {
    tree = v.tree;
    bounded = v.bounded;
    forward = λ b p h e n. let (lt, r) = v.forward b p h e n in (lt, w.reverse p ∙ r);
    backward = λ p b h e n. v.backward p b h (sym (w.reverse p) ∙ e) n;
  })

  -- A change of a zone that leaves its reverse map and its place.
  pub reverse_at-modify_zone :
      (zmd : ZoneMetadata) (i : ℕ) (f : Zone → Zone) (q : ℕ)
      → (f (zmd.zones i)).zrms ≡ (zmd.zones i).zrms
      → (f (zmd.zones i)).start_sector ≡ (zmd.zones i).start_sector
      → reverse_at zone_no (modify_zone zmd i f) q ≡ reverse_at zone_no zmd q
  unfolding reverse_at
  reverse_at-modify_zone zmd i f q z s = elim (Bool-cases (i == get_zone_by_pbid zone_no q)) [
    | inl same ↦
        let at : i ≡ get_zone_by_pbid zone_no q = ground (arith, same) in rw (same, z, s, at) refl
    | inr other ↦ rw other refl
  ]

  put_zone-keeps :
      (z : Zone) → ((put_zone z).zrms ≡ z.zrms) × ((put_zone z).start_sector ≡ z.start_sector)
  unfolding put_zone
  put_zone-keeps z = ground arith

  pub put_zone-Quiet : (d : Device) (i : ℕ) → Quiet zone_no d (on_zone d i put_zone)
  put_zone-Quiet d i =
      let (z, s) = put_zone-keeps (d.zone_metadata.zones i) in
      record {
        mapping = refl;
        reverse = λ q. reverse_at-modify_zone d.zone_metadata i put_zone q z s;
        events = refl;
        faulty = refl;
      }

  pub modify_task-Quiet :
      (d : Device) (i : ℕ) (f : Task → Task) → Quiet zone_no d (modify_task d i f)
  modify_task-Quiet d i f = record {
    mapping = refl;
    reverse = λ q. refl;
    events = refl;
    faulty = refl;
  }

  pub drop_ref-Quiet : (d : Device) (i : ℕ) → Quiet zone_no d (drop_ref d i)
  unfolding drop_ref
  drop_ref-Quiet d i = modify_task-Quiet d i (λ t. record t { refcount = dec32 t.refcount })

-- A task of the collector that waits for another write of its block: `__submit_gc_task` left it so.
pub record Waiting (d : Device) (g : ℕ) : Type 0 where
  pub error : is_none (d.tasks g).error ≡ false
  pub status : (d.tasks g).status ≡ TaskStatus.gc_reading
  pub read_zone : (z : ℕ) × ((d.tasks g).read_zone ≡ some z)
  pub refcount : (d.tasks g).refcount ≡ 1
  pub integrity_buf : (d.tasks g).integrity_buf ≡ absent

module _ (env : Env) where
  -- The callback on such a task, whoever calls it, frees it, and leaves every other task.
  pub gc_task_callback-Waiting :
      (d : Device) (g pbid : ℕ)
      → Waiting d g
      → (d' : Device) × (gc_task_callback env d g pbid ≡ some d')
        × Quiet env.zone_no d d'
        × ((d'.tasks g).freed ≡ true)
        × ((j : ℕ) → g ≢ j → d'.tasks j ≡ d.tasks j)
  unfolding gc_task_callback enter_task leave leave_reading leave_init put_zone_of gc_task_put
      drop_ref task_destroy dec32
  gc_task_callback-Waiting d g pbid w =
      let (z, e) = w.read_zone in
      let d₁ = modify_task d g (λ t. record t { page = false }) in
      let d₂ = on_zone d₁ z put_zone in
      let d₃ = drop_ref d₂ g in
      let d₄ = modify_task d₃ g (λ t. record t { freed = true }) in
      (
        d₄,
        ground (arith, w.error, w.status, e, w.refcount, w.integrity_buf),
        Quiet-trans env.zone_no (modify_task-Quiet env.zone_no d g (λ t. record t { page = false }))
            (Quiet-trans env.zone_no (put_zone-Quiet env.zone_no d₁ z) (
              Quiet-trans env.zone_no
                (modify_task-Quiet env.zone_no d₂ g (λ t. record t { refcount = dec32 t.refcount }))
                (modify_task-Quiet env.zone_no d₃ g (λ t. record t { freed = true })))),
        ground arith,
        λ j n. ground (arith, n),
      )
