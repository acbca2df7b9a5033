-- ===== src/IoScheduler/WriteDone.antt =====
-- `lbz_write_io_endio` as a whole: the completion of a user's write.
use lbz.Prelude.{
  ℕ, ◌≡◌, ◌<◌, ◌∙◌, refl, [], ◌∷◌, ◌++◌, some, Bool, false, true, not, ◌&&◌, ◌||◌, ◌==◌,
  if◌then◌else◌, arith,
}
use lbz.Block.{sector_to_blkid}
use lbz.Zone.{Zone, put_zone, complete_write}
use lbz.Metadata.{get_zone_by_pbid}
use lbz.Mapping.{invalid_pbid, mapped}
use lbz.IoScheduler.{TaskType, ended, Device, Env, emit}
use lbz.IoScheduler.Tasks.{drop_ref, del_task_from_tree}
use lbz.IoScheduler.Callback.{task_put}
use lbz.IoScheduler.Write.{
  is_init, record_write, complete_transaction, finish_write, write_io_endio,
}
use lbz.IoScheduler.Reverse.{reverse_at}
use lbz.IoScheduler.Consistent.{Agree, enter_write-Agree}
use lbz.IoScheduler.Quiet.{Quiet, Quiet-trans, Agree-Quiet, reverse_at-modify_zone, drop_ref-Quiet}
use lbz.IoScheduler.Ending.{Held, Held-drop_ref, Held-same, task_put_first, task_put_last}

module _ (env : Env) where
  -- What a completion at the block `p`, good or not, makes of the device.
  record Recorded (d : Device) (b p : ℕ) (ok : Bool) (d' : Device) : Type 0 where
    agree : Agree env.layout env.zone_no d'.mapping d'.zone_metadata
    map_of :
        (c : ℕ)
        → mapped env.layout d'.mapping c
          ≡ (if ok && b == c then some p else mapped env.layout d.mapping c)
    tasks : d'.tasks ≡ d.tasks
    events : d'.events ≡ d.events
    faulty : d'.faulty ≡ (d.faulty || not ok)

  -- The block where a write ended is one of its zone, and free.
  abbrev pub EndsAt : Device → (zone p : ℕ) → Type 0
  EndsAt d zone p =
      (p < invalid_pbid)
      × (zone ≡ get_zone_by_pbid env.zone_no p)
      × (reverse_at env.zone_no d.zone_metadata p ≡ some invalid_pbid)

  record_write-Recorded :
      (d : Device) (i zone : ℕ) (ok : Bool) (p : ℕ)
      → Agree env.layout env.zone_no d.mapping d.zone_metadata
      → (d.tasks i).blkid < d.mapping.max_blkid
      → (ok ≡ true → EndsAt d zone p)
      → (d' : Device) × (record_write env d i zone ok p ≡ some d')
        × Recorded d (d.tasks i).blkid p ok d'
  unfolding record_write
  record_write-Recorded d i zone true p v h at =
      let (lt, z, free) = at refl in
      let (m', zmd', e, w, _, law) =
        enter_write-Agree env.layout env.zone_no v (d.tasks i).blkid zone p h lt z free in
      (
        record d { mapping = m'; zone_metadata = zmd' },
        rw e refl,
        record { agree = w; map_of = law; tasks = refl; events = refl; faulty = ground arith },
      )
  record_write-Recorded d i zone false p v h at = (
    _,
    refl,
    record { agree = v; map_of = λ c. refl; tasks = refl; events = refl; faulty = ground arith },
  )

  -- `complete_transaction` changes one counter of the areas.
  record Counted (d d' : Device) : Type 0 where
    quiet : Quiet env.zone_no d d'
    tasks : d'.tasks ≡ d.tasks

  complete_transaction-Counted :
      (type : TaskType) (d : Device) → Counted d (complete_transaction env type d)
  unfolding complete_transaction
  complete_transaction-Counted type d = record {
    quiet = record {
      mapping = ground arith;
      reverse = λ q. ground arith;
      events = ground arith;
      faulty = ground arith;
    };
    tasks = ground arith;
  }

  finish-keeps :
      (z : Zone)
      → ((put_zone (complete_write z)).zrms ≡ z.zrms)
        × ((put_zone (complete_write z)).start_sector ≡ z.start_sector)
  unfolding put_zone complete_write
  finish-keeps z = ground arith

  finish_write-Quiet : (d : Device) (z : ℕ) → Quiet env.zone_no d (finish_write env d z)
  finish_write-Quiet d z =
      let (zrms, start) = finish-keeps (d.zone_metadata.zones z) in
      record {
        mapping = refl;
        reverse = λ q.
            reverse_at-modify_zone env.zone_no d.zone_metadata z (λ x. put_zone (complete_write x))
              q zrms start;
        events = refl;
        faulty = refl;
      }

  -- The two references of a task in the tree go.
  put_twice :
      (d : Device) (i : ℕ)
      → Held 2 d i
      → (d₁ d' : Device) × (task_put env (del_task_from_tree env d i) i ≡ some d₁)
        × (task_put env d₁ i ≡ some d')
        × Quiet env.zone_no d d'
        × ((d'.tasks i).freed ≡ true)
  unfolding del_task_from_tree
  put_twice d i v =
      let d₁ = del_task_from_tree env d i in
      let v₁ : Held 2 d₁ i = Held-same i v refl in
      let q₁ : Quiet env.zone_no d d₁ = record {
        mapping = refl;
        reverse = λ q. refl;
        events = refl;
        faulty = refl;
      } in
      let (d₂, e, q, freed) = task_put_last env (drop_ref d₁ i) i (Held-drop_ref d₁ i v₁) in
      (
        drop_ref d₁ i,
        d₂,
        task_put_first env d₁ i v₁.refcount,
        e,
        Quiet-trans env.zone_no q₁ (Quiet-trans env.zone_no (drop_ref-Quiet env.zone_no d₁ i) q),
        freed,
      )

  -- A write's task that was handed to the device: it holds its place in the tree, and its zone.
  pub record Dispatched (d : Device) (i zone : ℕ) : Type 0 where
    pub held : Held 2 d i
    pub zone_eq : (d.tasks i).zone ≡ some zone
    pub status : is_init (d.tasks i).status ≡ false

  write_io_endio_run :
      (d d₁ d₃ d₄ : Device) (i zone : ℕ) (ok : Bool) (ret_sec : ℕ)
      → (d.tasks i).zone ≡ some zone
      → is_init (d.tasks i).status ≡ false
      → record_write env d i zone ok (sector_to_blkid ret_sec) ≡ some d₁
      → task_put env
          (del_task_from_tree env
            (complete_transaction env (d.tasks i).type (emit (ended (d.tasks i).bio (not ok)) d₁))
            i)
          i
        ≡ some d₃
      → task_put env d₃ i ≡ some d₄
      → write_io_endio env d i ok ret_sec ≡ some (finish_write env d₄ zone)
  unfolding write_io_endio
  write_io_endio_run d d₁ d₃ d₄ i zone ok ret_sec z s e₁ e₃ e₄ = rw (z, e₁, s, e₃, e₄) refl

  -- The completion of a write of a block of the device faults nowhere, also where a task of the
  -- collector waits for it. It keeps the mapping and the reverse maps agreeing, where they agreed and a
  -- good write ended at a free block of its zone: the entry of the written block becomes that block after
  -- a good write, no other entry changes, and none does after a failed one, which sets the device faulty.
  -- The task is freed, and the file system's bio is ended once, with an error just if the write failed.
  pub write_io_endio_lem :
      (d : Device) (i zone : ℕ) (ok : Bool) (ret_sec : ℕ)
      → Agree env.layout env.zone_no d.mapping d.zone_metadata
      → Dispatched d i zone
      → (d.tasks i).blkid < d.mapping.max_blkid
      → (ok ≡ true → EndsAt d zone (sector_to_blkid ret_sec))
      → (d' : Device) × (write_io_endio env d i ok ret_sec ≡ some d')
        × Agree env.layout env.zone_no d'.mapping d'.zone_metadata
        × ((c : ℕ)
            → mapped env.layout d'.mapping c ≡ (
                if ok && (d.tasks i).blkid == c
                then some (sector_to_blkid ret_sec)
                else mapped env.layout d.mapping c))
        × (d'.events ≡ d.events ++ (ended (d.tasks i).bio (not ok) ∷ []))
        × (d'.faulty ≡ (d.faulty || not ok))
        × ((d'.tasks i).freed ≡ true)
  write_io_endio_lem d i zone ok ret_sec v w h at =
      let t = d.tasks i in
      let (d₁, e₁, r) = record_write-Recorded d i zone ok (sector_to_blkid ret_sec) v h at in
      let d₀ = emit (ended t.bio (not ok)) d₁ in
      let c = complete_transaction-Counted t.type d₀ in
      let d₂ = complete_transaction env t.type d₀ in
      let (d₃, d₄, e₃, e₄, q, freed) = put_twice d₂ i (Held-same i w.held (c.tasks ∙ r.tasks)) in
      let all : Quiet env.zone_no d₀ (finish_write env d₄ zone) =
        Quiet-trans env.zone_no c.quiet (Quiet-trans env.zone_no q (finish_write-Quiet d₄ zone)) in
      (
        finish_write env d₄ zone,
        write_io_endio_run d d₁ d₃ d₄ i zone ok ret_sec w.zone_eq w.status e₁ e₃ e₄,
        Agree-Quiet env.zone_no env.layout r.agree all,
        λ k. rw (all.mapping) (r.map_of k),
        rw (all.events, r.events) refl,
        all.faulty ∙ r.faulty,
        freed,
      )
