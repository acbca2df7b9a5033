-- ===== src/IoScheduler/CopyDone.antt =====
-- `lbz_gc_write_endio` as a whole: the completion of the collector's copy.
use lbz.Prelude.{
  ℕ, ◌≡◌, ◌<◌, ◌∙◌, refl, ap, ◌⊎◌, inl, inr, Option, some, none, Bool, false, true, not, ◌&&◌, ◌||◌,
  ◌==◌, ◌>>=◌, if◌then◌else◌, Bool-cases, arith,
}
use lbz.Prelude.Words.{dec32, inc64}
use lbz.Config.{Errno}
use lbz.Block.{sector_to_blkid}
use lbz.Zone.{Zone, put_zone, complete_write}
use lbz.Metadata.{get_zone_by_pbid}
use lbz.Mapping.{invalid_pbid, mapped}
use lbz.IoScheduler.{dispatch, Device, Env, modify_task, on_zone, set_faulty}
use lbz.IoScheduler.Tasks.{drop_ref, del_task_from_tree, gc_task_put, task_destroy}
use lbz.IoScheduler.Callback.{
  is_none, enter_task, leave, leave_writing, leave_alloc, leave_reading, leave_init, put_zone_of,
  gc_task_callback,
}
use lbz.IoScheduler.Gc.{put_inflight, gc_write_endio}
use lbz.IoScheduler.Consistent.{Agree, enter_copy-Agree}
use lbz.IoScheduler.Quiet.{
  Quiet, Quiet-trans, Agree-Quiet, reverse_at-modify_zone, put_zone-Quiet, modify_task-Quiet,
  drop_ref-Quiet,
}
use lbz.IoScheduler.Ending.{is_failed}
use lbz.IoScheduler.WriteDone.{EndsAt}

-- A task of the collector whose copy was handed to the device: it holds its place in the tree, the zone
-- of the copy and the zone that it read.
pub record Copying (d : Device) (i zone read_zone : ℕ) : Type 0 where
  pub status : (d.tasks i).status ≡ dispatch
  pub zone_eq : (d.tasks i).zone ≡ some zone
  pub read_zone_eq : (d.tasks i).read_zone ≡ some read_zone
  pub refcount : (d.tasks i).refcount ≡ 2
  pub integrity_buf : is_failed (d.tasks i).integrity_buf ≡ false

-- A step that succeeds is followed by the next.
bind_some {ℓ κ} :
    {A : Type ℓ} {B : Type κ} {o : Option A} {a : A} (f : A → Option B) {r : Option B}
    → o ≡ some a
    → f a ≡ r
    → (o >>= f) ≡ r
bind_some f e h = ap (λ x. x >>= f) e ∙ h

abbrev clear_page : Device → ℕ → Device
clear_page d i = modify_task d i (λ t. record t { page = false })

gc_task_put_first :
    (d : Device) (i : ℕ) → (d.tasks i).refcount ≡ 2 → gc_task_put d i ≡ some (drop_ref d i)
unfolding gc_task_put drop_ref dec32
gc_task_put_first d i h = ground (arith, h)

gc_task_put_last :
    (d : Device) (i : ℕ)
    → (d.tasks i).refcount ≡ 1
    → is_failed (d.tasks i).integrity_buf ≡ false
    → gc_task_put d i ≡ some (modify_task (drop_ref d i) i (λ t. record t { freed = true }))
unfolding gc_task_put task_destroy drop_ref dec32
gc_task_put_last d i h f = ground (arith, h, f)

module _ (env : Env) where
  leave_run :
      (d d₃ d₆ : Device) (i zone read_zone : ℕ)
      → (d.tasks i).zone ≡ some zone
      → gc_task_put (del_task_from_tree env (on_zone d zone put_zone) i) i ≡ some d₃
      → ((clear_page d₃ i).tasks i).read_zone ≡ some read_zone
      → gc_task_put (on_zone (clear_page d₃ i) read_zone put_zone) i ≡ some d₆
      → leave env dispatch d i ≡ some d₆
  unfolding leave leave_writing leave_alloc leave_reading leave_init put_zone_of
  leave_run d d₃ d₆ i zone read_zone z e₃ r e₆ = rw (z, e₃, r, e₆) refl

  -- The way out of the switch: every hold is let go, and the task is freed.
  leave-some :
      (d : Device) (i zone read_zone : ℕ)
      → Copying d i zone read_zone
      → (d' : Device) × (leave env dispatch d i ≡ some d')
        × Quiet env.zone_no d d'
        × ((d'.tasks i).freed ≡ true)
  unfolding del_task_from_tree drop_ref dec32
  leave-some d i zone read_zone w =
      let n = env.zone_no in
      let d₁ = on_zone d zone put_zone in
      let d₂ = del_task_from_tree env d₁ i in
      let q₂ : Quiet n d₁ d₂ = record {
        mapping = refl;
        reverse = λ q. refl;
        events = refl;
        faulty = refl;
      } in
      let d₃ = drop_ref d₂ i in
      let d₄ = clear_page d₃ i in
      let d₅ = on_zone d₄ read_zone put_zone in
      let d₆ = drop_ref d₅ i in
      (
        modify_task d₆ i (λ t. record t { freed = true }),
        leave_run d d₃ (modify_task d₆ i (λ t. record t { freed = true })) i zone read_zone
            w.zone_eq (gc_task_put_first d₂ i w.refcount) (ground (arith, w.read_zone_eq))
            (gc_task_put_last d₅ i (ground (arith, w.refcount)) (ground (arith, w.integrity_buf))),
        Quiet-trans n (put_zone-Quiet n d zone) (
            Quiet-trans n q₂ (
              Quiet-trans n (drop_ref-Quiet n d₂ i) (
                Quiet-trans n (modify_task-Quiet n d₃ i (λ t. record t { page = false })) (
                  Quiet-trans n (put_zone-Quiet n d₄ read_zone) (
                    Quiet-trans n (drop_ref-Quiet n d₅ i)
                      (modify_task-Quiet n d₆ i (λ t. record t { freed = true }))))))),
        ground arith,
      )

  -- What entering the copy, or not, makes of the device.
  record Copied (d : Device) (b p : ℕ) (entered : Bool) (d' : Device) : Type 0 where
    agree : Agree env.layout env.zone_no d'.mapping d'.zone_metadata
    map_of :
        (c : ℕ)
        → mapped env.layout d'.mapping c
          ≡ (if entered && b == c then some p else mapped env.layout d.mapping c)
    tasks : d'.tasks ≡ d.tasks
    events : d'.events ≡ d.events
    faulty : d'.faulty ≡ d.faulty

  -- The copy at `p` of the block `b` ended at a free block of its zone, and `b` is mapped to `read_pbid`,
  -- where it was read, or to nothing.
  abbrev pub CanEnter : Device → (b zone p read_zone read_pbid : ℕ) → Type 0
  CanEnter d b zone p read_zone read_pbid =
      EndsAt env d zone p
      × (read_zone ≡ get_zone_by_pbid env.zone_no read_pbid)
      × (old : ℕ) × (mapped env.layout d.mapping b ≡ some old)
      × ((old ≡ read_pbid) ⊎ (old ≡ invalid_pbid))

  enter_task-Copied :
      (d : Device) (i b zone p read_zone read_pbid : ℕ) (e : Option Errno)
      → Agree env.layout env.zone_no d.mapping d.zone_metadata
      → Copying d i zone read_zone
      → (d.tasks i).blkid ≡ b
      → (d.tasks i).pbid ≡ read_pbid
      → (d.tasks i).error ≡ e
      → b < d.mapping.max_blkid
      → (not d.faulty && is_none e ≡ true → CanEnter d b zone p read_zone read_pbid)
      → (d' : Device) × (enter_task env d i p ≡ some d')
        × Copied d b p (not d.faulty && is_none e) d'
  unfolding enter_task
  enter_task-Copied d i b zone p read_zone read_pbid e v w blkid pbid err h can =
      elim (Bool-cases (not d.faulty && is_none e)) [
        | inl go ↦
            let ((lt, z, free), r, old, at, so) = can go in
            let (m', zmd', a, v', _, law) =
              (enter_copy-Agree env.layout env.zone_no v b zone p read_zone read_pbid {old = old} h
                  lt z r free at).0
                so in
            (
              record d { mapping = m'; zone_metadata = zmd' },
              rw (err, go, w.zone_eq, w.read_zone_eq, blkid, pbid, a) refl,
              record {
                agree = v';
                map_of = λ c. ground (arith, law c, go);
                tasks = refl;
                events = refl;
                faulty = refl;
              },
            )
        | inr stay ↦ (
          d,
          rw (err, stay) refl,
          record {
            agree = v;
            map_of = λ c. rw stay refl;
            tasks = refl;
            events = refl;
            faulty = refl;
          },
        )
      ]

  finish-keeps :
      (z : Zone)
      → ((complete_write z).zrms ≡ z.zrms) × ((complete_write z).start_sector ≡ z.start_sector)
  unfolding complete_write
  finish-keeps z = (refl, refl)

  Copying-same :
      {d d' : Device} (i zone read_zone : ℕ)
      → Copying d i zone read_zone
      → d'.tasks ≡ d.tasks
      → Copying d' i zone read_zone
  Copying-same i zone read_zone w e = record {
    status = ground (arith, e, w.status);
    zone_eq = ground (arith, e, w.zone_eq);
    read_zone_eq = ground (arith, e, w.read_zone_eq);
    refcount = ground (arith, e, w.refcount);
    integrity_buf = ground (arith, e, w.integrity_buf);
  }

  Copying-error :
      (d : Device) (i zone read_zone : ℕ) (e : Option Errno)
      → Copying d i zone read_zone
      → Copying (modify_task d i (λ t. record t { error = e })) i zone read_zone
  Copying-error d i zone read_zone e w = record {
    status = ground (arith, w.status);
    zone_eq = ground (arith, w.zone_eq);
    read_zone_eq = ground (arith, w.read_zone_eq);
    refcount = ground (arith, w.refcount);
    integrity_buf = ground (arith, w.integrity_buf);
  }

  -- The start of the completion: the error is noted, and the zone has one write less in flight.
  abbrev arrive : Device → ℕ → Option Errno → ℕ → Device
  arrive d i e zone = on_zone (modify_task d i (λ t. record t { error = e })) zone complete_write

  arrive-Quiet :
      (d : Device) (i zone : ℕ) (e : Option Errno) → Quiet env.zone_no d (arrive d i e zone)
  arrive-Quiet d i zone e =
      let (zrms, start) = finish-keeps (d.zone_metadata.zones zone) in
      record {
        mapping = refl;
        reverse = λ q.
            reverse_at-modify_zone env.zone_no d.zone_metadata zone complete_write q zrms start;
        events = refl;
        faulty = refl;
      }

  -- A failed copy is counted, and sets the device faulty.
  abbrev end_copy : Option Errno → Device → Device
  end_copy e d = elim e [
    | none ↦ d
    | some x ↦ set_faulty (record d {
      stats = record (d.stats) { gc_write_err_cnt = inc64 d.stats.gc_write_err_cnt };
    })
  ]

  -- What the end of the completion leaves of the device.
  abbrev Keeps : Option Errno → Device → Device → Type 0
  Keeps e d d' =
      (d'.mapping ≡ d.mapping)
      × (d'.zone_metadata ≡ d.zone_metadata)
      × (d'.events ≡ d.events)
      × (d'.faulty ≡ (d.faulty || not (is_none e)))
      × (d'.tasks ≡ d.tasks)

  end_copy-Keeps : (e : Option Errno) (d : Device) → Keeps e d (put_inflight (end_copy e d))
  end_copy-Keeps none d = (refl, refl, refl, ground arith, refl)
  end_copy-Keeps (some x) d = (refl, refl, refl, ground arith, refl)

  gc_task_callback_run :
      (d d₂ d₃ : Device) (i p : ℕ)
      → enter_task env d i p ≡ some d₂
      → (d.tasks i).status ≡ dispatch
      → leave env dispatch d₂ i ≡ some d₃
      → gc_task_callback env d i p ≡ some d₃
  unfolding gc_task_callback
  gc_task_callback_run d d₂ d₃ i p e₂ s e₃ = rw (e₂, s) e₃

  gc_write_endio_run :
      (d d₃ : Device) (i zone : ℕ) (e : Option Errno) (ret_sec : ℕ)
      → (d.tasks i).zone ≡ some zone
      → gc_task_callback env (arrive d i e zone) i (sector_to_blkid ret_sec) ≡ some d₃
      → gc_write_endio env d i e ret_sec ≡ some (put_inflight (end_copy e d₃))
  unfolding gc_write_endio
  gc_write_endio_run d d₃ i zone e ret_sec z c = bind_some _ z (bind_some _ c refl)

  -- The completion of a copy of a block of the device faults nowhere. Where the mapping and the
  -- reverse maps agree, and a good copy on a sound device ended at a free block of its zone while the
  -- block was mapped to where it was read or to nothing, the two agree after: the entry of the block
  -- becomes the copy after a good copy on a sound device, no other entry changes, and none does
  -- otherwise. The task is freed, no bio is ended, and a failed copy sets the device faulty.
  pub gc_write_endio_lem :
      (d : Device) (i zone read_zone : ℕ) (e : Option Errno) (ret_sec : ℕ)
      → Agree env.layout env.zone_no d.mapping d.zone_metadata
      → Copying d i zone read_zone
      → (d.tasks i).blkid < d.mapping.max_blkid
      → (not d.faulty && is_none e ≡ true
          → CanEnter d (d.tasks i).blkid zone (sector_to_blkid ret_sec) read_zone (d.tasks i).pbid)
      → (d' : Device) × (gc_write_endio env d i e ret_sec ≡ some d')
        × Agree env.layout env.zone_no d'.mapping d'.zone_metadata
        × ((c : ℕ)
            → mapped env.layout d'.mapping c ≡ (
                if (not d.faulty && is_none e) && (d.tasks i).blkid == c
                then some (sector_to_blkid ret_sec)
                else mapped env.layout d.mapping c))
        × (d'.events ≡ d.events)
        × (d'.faulty ≡ (d.faulty || not (is_none e)))
        × ((d'.tasks i).freed ≡ true)
  gc_write_endio_lem d i zone read_zone e ret_sec v w h can =
      let n = env.zone_no in
      let p = sector_to_blkid ret_sec in
      let d₁ = arrive d i e zone in
      let q₁ = arrive-Quiet d i zone e in
      let w₁ : Copying d₁ i zone read_zone =
        Copying-same i zone read_zone (Copying-error d i zone read_zone e w) refl in
      let error_eq : (d₁.tasks i).error ≡ e = ground arith in
      let blkid_eq : (d₁.tasks i).blkid ≡ (d.tasks i).blkid = ground arith in
      let pbid_eq : (d₁.tasks i).pbid ≡ (d.tasks i).pbid = ground arith in
      let v₁ = Agree-Quiet n env.layout {d = d} {d' = d₁} v q₁ in
      let (d₂, e₂, r) =
        enter_task-Copied d₁ i (d.tasks i).blkid zone p read_zone (d.tasks i).pbid e v₁ w₁ blkid_eq
          pbid_eq error_eq h
          (λ go.
            let ((lt, z, free), r, old, at, so) = can go in
            ((lt, z, q₁.reverse p ∙ free), r, old, at, so)) in
      let (d₃, e₃, q₃, freed) =
        leave-some d₂ i zone read_zone (Copying-same i zone read_zone w₁ r.tasks) in
      let (m, z, ev, f, tasks) = end_copy-Keeps e d₃ in
      let d₄ = put_inflight (end_copy e d₃) in
      let v₃ = Agree-Quiet n env.layout r.agree q₃ in
      (
        d₄,
        gc_write_endio_run d d₃ i zone e ret_sec w.zone_eq
            (gc_task_callback_run d₁ d₂ d₃ i p e₂ w₁.status e₃),
        rw (m, z) v₃,
        λ c. rw (m, q₃.mapping) (r.map_of c),
        ev ∙ q₃.events ∙ r.events,
        rw (f, q₃.faulty, r.faulty) refl,
        rw tasks freed,
      )
