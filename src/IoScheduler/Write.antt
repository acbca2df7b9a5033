-- ===== src/IoScheduler/Write.antt =====
-- The way of a user's write: `__submit_write_task`, `lbz_submit_io_to_iosched` for a write,
-- `__retry_submit_io_task` and `lbz_write_io_endio`.
use lbz.Prelude.{ℕ, Option, none, some, Bool, true, false, not, ◌&&◌, ◌>>=◌, ◌==◌, if◌then◌else◌}
use lbz.Prelude.Words.{inc64, dec64}
use lbz.Config.{Errno, eagain}
use lbz.Block.{sector_to_blkid}
use lbz.Zone.{complete_write, put_zone}
use lbz.Metadata.{ZoneMetadata, check_need_reclaim_high, update_reverse_map}
use lbz.Metadata.Alloc.{AllocFlag, allocated, failed, bug}
use lbz.Metadata.Release.{release_block}
use lbz.Mapping.{Layout, Mapping, invalid_pbid}
use lbz.Mapping
use lbz.Gc.{trigger_gc_reclaim, trigger_gc_reclaim_emergency}
use lbz.NatSit
use lbz.NatSit.{NatSit, is_cp_block, is_dup_block}
use lbz.IoScheduler.{
  TaskType, TaskStatus, init, alloc_res, io_writing, dispatch, LogType, Integrity, Task, ended,
  append_io, Device, Env, modify_task, on_zone, emit, set_faulty,
}
use lbz.IoScheduler.Tasks.{insert_task_to_tree, del_task_from_tree}
use lbz.IoScheduler.Callback.{task_put}
use lbz.IoScheduler.Alloc.{alloc_block, write_log}

abbrev pub is_eagain : Errno → Bool
is_eagain Errno.eagain = true
is_eagain _ = false

abbrev pub is_init : TaskStatus → Bool
is_init TaskStatus.init = true
is_init _ = false

abbrev pub is_alloc_res : TaskStatus → Bool
is_alloc_res TaskStatus.alloc_res = true
is_alloc_res _ = false

abbrev pub is_user_write : TaskType → Bool
is_user_write TaskType.user_write = true
is_user_write _ = false

abbrev pub set_status : ℕ → TaskStatus → Device → Device
set_status i s d = modify_task d i (λ t. record t { status = s })

-- The result of a submission, an error or none, and the device; `none` for a fault.
abbrev pub Submitted : Type 0
Submitted = Option (Option Errno × Device)

-- The change of the two maps by a write that succeeded.
unfoldable pub enter_write :
    Layout
    → (ℕ → ℕ)
    → Mapping
    → ZoneMetadata
    → (blkid zone pbid : ℕ) → Option (Mapping × ZoneMetadata)
enter_write y zone_no m zmd blkid zone pbid = do
  (old_pbid, m') ← Mapping.add y m blkid pbid
  some (
    m',
    update_reverse_map
        (if old_pbid == invalid_pbid then zmd else release_block zone_no zmd old_pbid) zone pbid
        blkid,
  )

module _ (env : Env) where
  -- `case LBZ_TASK_IO_WRITING`
  unfoldable pub write_from_integrity : Device → ℕ → Submitted
  write_from_integrity d i = elim (env.integrity_error i) [
    | none ↦
        let (log, d') = write_log env.config (d.tasks i) LogType.user_write d in
        some (
          none,
          emit (append_io i (d.tasks i).bio.sector) (
              modify_task d' i
                (λ t. record t { integrity_buf = Integrity.buffer log; status = dispatch })),
        )
    | some e ↦
        if is_eagain e
        then none
        else some (
          some e,
          set_faulty (modify_task d i (λ t. record t { integrity_buf = Integrity.failed e })),
        )
  ]

  -- A block of zone `z` was allocated: the bio is turned to it.
  unfoldable pub write_to_zone : Device → ℕ → ℕ → Submitted
  write_to_zone d i z =
      let d' : Device =
        if check_need_reclaim_high d.zone_metadata
        then record d { gc_ctx = trigger_gc_reclaim d.gc_ctx }
        else d in
      write_from_integrity
        (modify_task d' i (λ t. record t {
          zone = some z;
          bio = record (t.bio) { sector = (d.zone_metadata.zones z).start_sector };
          status = io_writing;
        }))
        i

  -- No block: a task that is not to be tried again leaves the tree.
  unfoldable pub write_denied : Device → ℕ → Errno → Submitted
  write_denied d i e = do
    d' ← (if is_eagain e then some d else task_put env (del_task_from_tree env d i) i)
    some (some e, record d' { gc_ctx = trigger_gc_reclaim_emergency d'.gc_ctx })

  abbrev pub count_elsewhere : Bool → Device → Device
  count_elsewhere b d =
      if b
      then record d {
        stats = record (d.stats) {
          write_alloc_encounter_eagain = inc64 d.stats.write_alloc_encounter_eagain;
        };
      }
      else d

  abbrev pub has_pending : Task → Bool
  has_pending t = elim t.pending_gc_node [ none ↦ false | some g ↦ true ]

  -- `case LBZ_TASK_ALLOC_RES`. A task that the collector waits for may use its reserve.
  unfoldable pub write_from_alloc : Device → ℕ → Submitted
  write_from_alloc d i =
      let flag = if has_pending (d.tasks i) then AllocFlag.gc else AllocFlag.user in
      let g = alloc_block env.config flag (d.tasks i).blkid d in
      elim g.ret [
        | allocated z ↦ write_to_zone (count_elsewhere g.elsewhere g.device) i z
        | failed e ↦ write_denied g.device i e
        | bug ↦ none
      ]

  -- `case LBZ_TASK_INIT`
  unfoldable pub write_from_init : Device → ℕ → Submitted
  write_from_init d i =
      let (other, d') = insert_task_to_tree env d i in
      elim other [
        | some tk ↦ task_put env d' tk >>= λ d''. some (some eagain, d'')
        | none ↦ write_from_alloc (set_status i alloc_res d') i
      ]

  -- `__submit_write_task`
  unfoldable pub submit_write_task : Device → ℕ → Submitted
  submit_write_task d i =
      let d' = modify_task d i (λ t. record t { blkid = sector_to_blkid t.bio.sector }) in
      elim (d.tasks i).status [
        | init ↦ write_from_init d' i
        | alloc_res ↦ write_from_alloc d' i
        | io_writing ↦ write_from_integrity d' i
        | _ ↦ none
      ]

  -- A transaction's write is no longer in flight.
  unfoldable pub complete_transaction : TaskType → Device → Device
  complete_transaction type d =
      if env.config.nat_sit_support && not (is_user_write type)
      then record d { nat_sit = NatSit.complete_write d.nat_sit }
      else d

  -- The first half of `lbz_write_io_endio`: the maps, or the error.
  unfoldable pub record_write : Device → ℕ → ℕ → Bool → ℕ → Option Device
  record_write d i zone ok pbid =
      if ok
      then (do
        (m', zmd') ←
            enter_write env.layout env.zone_no d.mapping d.zone_metadata (d.tasks i).blkid zone pbid
        some (record d { mapping = m'; zone_metadata = zmd' }))
      else some (
          set_faulty (record d {
            stats = record (d.stats) { user_write_err_cnt = inc64 d.stats.user_write_err_cnt };
          }))

  abbrev pub finish_write : Device → ℕ → Device
  finish_write d z =
      let d' = on_zone d z (λ x. put_zone (complete_write x)) in
      record d' {
        stats = record (d'.stats) {
          user_write_inflight_io_cnt = dec64 d'.stats.user_write_inflight_io_cnt;
        };
      }

  -- `lbz_write_io_endio`, for a bio that ended well or not at the sector `ret_sec`.
  unfoldable pub write_io_endio : Device → ℕ → Bool → ℕ → Option Device
  write_io_endio d i ok ret_sec = do
    let t = d.tasks i
    zone ← t.zone
    d₁ ← record_write d i zone ok (sector_to_blkid ret_sec)
    let d₂ = complete_transaction t.type (emit (ended t.bio (not ok)) d₁)
    d₃ ← (if is_init t.status then some d₂ else task_put env (del_task_from_tree env d₂ i) i)
    d₄ ← task_put env d₃ i
    some (finish_write d₄ zone)
