-- ===== src/IoScheduler/Gc.antt =====
-- The way of a block that is collected: `lbz_submit_gc_to_iosched`, `__submit_gc_task`,
-- `__retry_submit_gc_task` and the two completions.
use lbz.Prelude.{
  ℕ, List, [], ◌∷◌, Option, none, some, Bool, true, false, ◌>>=◌, ◌==◌, if◌then◌else◌,
}
use lbz.Prelude.Words.{inc64, dec64}
use lbz.Config.{Errno, enoent, eexist}
use lbz.Block.{sector_to_blkid, blkid_to_sector}
use lbz.Zone.{complete_write, put_zone}
use lbz.Metadata.Alloc.{AllocFlag, allocated, failed, bug}
use lbz.Mapping.{invalid_pbid}
use lbz.Mapping.Lookup.{Lookup, lookup}
use lbz.Request.{Bio}
use lbz.IoScheduler.{
  TaskType, init, alloc_res, gc_reading, gc_writing, dispatch, LogType, Integrity, append_io,
  gc_read_io, Device, Env, modify_task, on_zone, emit, set_faulty,
}
use lbz.IoScheduler.Tasks.{
  new_task, task_alloc, gc_task_put, insert_task_to_tree, del_task_from_tree, add_task_to_gc_writes,
  trigger_retry_work,
}
use lbz.IoScheduler.Callback.{gc_task_callback, task_put}
use lbz.IoScheduler.Alloc.{alloc_block, write_log}
use lbz.IoScheduler.Write.{is_eagain, set_status, Submitted}

abbrev pub is_gc : TaskType → Bool
is_gc TaskType.gc = true
is_gc _ = false

abbrev pub set_error : ℕ → Errno → Device → Device
set_error i e d = modify_task d i (λ t. record t { error = some e })

abbrev pub put_inflight : Device → Device
put_inflight d = record d {
  stats = record (d.stats) { gc_inflight_io_cnt = dec64 d.stats.gc_inflight_io_cnt };
}

module _ (env : Env) where
  -- `case LBZ_TASK_INIT`: the block is read.
  unfoldable pub gc_from_init : Device → ℕ → Submitted
  gc_from_init d i =
      let d' = modify_task d i (λ t. record t { page = true; status = gc_reading }) in
      some (
        none,
        emit (gc_read_io i (blkid_to_sector (d.tasks i).pbid)) (record d' {
          stats = record (d'.stats) { gc_read_blocks = inc64 d'.stats.gc_read_blocks };
        }),
      )

  -- `case LBZ_TASK_GC_WRITING`. An error leads the caller to its `BUG`.
  unfoldable pub gc_from_integrity : Device → ℕ → ℕ → Submitted
  gc_from_integrity d i z = elim (env.integrity_error i) [
    | none ↦
        let (log, d') = write_log env.config (d.tasks i) LogType.gc_write d in
        some (
          none,
          emit (append_io i (d.zone_metadata.zones z).start_sector)
              (record (modify_task d' i
                (λ t. record t { integrity_buf = Integrity.buffer log; status = dispatch })) {
                  stats = record (d'.stats) { gc_write_blocks = inc64 d'.stats.gc_write_blocks };
                }),
        )
    | some e ↦
        if is_eagain e
        then none
        else some (
          some e,
          on_zone
              (set_error i e (
                set_faulty
                  (modify_task d i (λ t. record t { integrity_buf = Integrity.failed e }))))
              z complete_write,
        )
  ]

  abbrev pub count_gc_elsewhere : Bool → Device → Device
  count_gc_elsewhere b d =
      if b
      then record d {
        stats = record (d.stats) {
          gc_alloc_encounter_eagain = inc64 d.stats.gc_alloc_encounter_eagain;
        };
      }
      else d

  -- `case LBZ_TASK_ALLOC_RES`
  unfoldable pub gc_from_alloc : Device → ℕ → Submitted
  gc_from_alloc d i =
      let g = alloc_block env.config AllocFlag.gc (d.tasks i).blkid d in
      elim g.ret [
        | allocated z ↦
            gc_from_integrity
              (modify_task (count_gc_elsewhere g.elsewhere g.device) i
                (λ t. record t { zone = some z; status = gc_writing }))
              i z
        | failed e ↦ if is_eagain e then none else some (some e, set_error i e g.device)
        | bug ↦ none
      ]

  -- The block need not be copied: the task leaves the tree again.
  unfoldable pub gc_skip : Device → ℕ → Submitted
  gc_skip d i = do
    d' ← gc_task_put (del_task_from_tree env (set_error i eexist d) i) i
    some (some eexist, d')

  -- The block is in the tree. It is copied if it is still mapped to where it was read.
  unfoldable pub gc_check : Device → ℕ → Submitted
  gc_check d i = do
    (r, zmd) ← lookup env.layout env.zone_no d.mapping d.zone_metadata (d.tasks i).blkid
    let d' : Device = record d { zone_metadata = zmd }
    elim r [
      | Lookup.failed e ↦
          gc_skip
            (record d' {
              stats = record (d'.stats) {
                gc_write_discarded_blocks = inc64 d'.stats.gc_write_discarded_blocks;
              };
            })
            i
      | Lookup.found z origin_pbid ↦
          let put = on_zone d' z put_zone in
          if origin_pbid == (d.tasks i).pbid
          then gc_from_alloc (set_status i alloc_res put) i
          else gc_skip
              (record put {
                stats = record (put.stats) {
                  gc_write_complete_blocks = inc64 put.stats.gc_write_complete_blocks;
                };
              })
              i
    ]

  -- Another write of the block is under way, and will call back; `none` where it is the collector's own,
  -- whose scheduler the pointer would overwrite.
  unfoldable pub gc_wait : Device → (i tk : ℕ) → Submitted
  gc_wait d i tk = if is_gc (d.tasks tk).type then none else (do
    let d' = modify_task (set_error i enoent d) tk (λ t. record t { pending_gc_node = some i })
    d'' ←
        task_put env
          (record d' {
            stats = record (d'.stats) {
              gc_write_agency_blocks = inc64 d'.stats.gc_write_agency_blocks;
            };
          })
          tk
    some (some enoent, d''))

  -- `case LBZ_TASK_GC_READING`
  unfoldable pub gc_from_reading : Device → ℕ → Submitted
  gc_from_reading d i =
      let d₁ = modify_task d i (λ t. record t { read_zone = t.zone; zone = none }) in
      let (other, d₂) = insert_task_to_tree env d₁ i in
      elim other [ some tk ↦ gc_wait d₂ i tk | none ↦ gc_check d₂ i ]

  -- `__submit_gc_task`. No task is left at LBZ_TASK_GC_WRITING, the case that writes a null bio.
  unfoldable pub submit_gc_task : Device → ℕ → Submitted
  submit_gc_task d i = elim (d.tasks i).status [
    | init ↦ gc_from_init d i
    | gc_reading ↦ gc_from_reading d i
    | alloc_res ↦ gc_from_alloc d i
    | _ ↦ none
  ]

  -- `lbz_submit_gc_to_iosched`, for a block that the collector found. `bio` is what the memory of the
  -- task's bio holds, which is not read.
  unfoldable pub submit_gc : Bio → Device → (zone pbid blkid : ℕ) → Option Device
  submit_gc bio d zone pbid blkid = do
    let t = new_task TaskType.gc bio
    let (i, d') =
        task_alloc
          (record t { pbid = pbid; zone = some zone; read_zone = some zone; blkid = blkid }) d
    (ret, d'') ← submit_gc_task d' i
    elim ret [ none ↦ some d'' | some e ↦ none ]

  -- The switch of `__retry_submit_gc_task`. A block that waits for another write is left to it.
  unfoldable pub after_gc_retry : ℕ → Option Errno × Device → Option Device
  after_gc_retry i (none, d) = some d
  after_gc_retry i (some e, d) = elim e [
    | Errno.eagain ↦ some (add_task_to_gc_writes d i)
    | Errno.enoent ↦ some d
    | Errno.eexist ↦ gc_task_callback env d i invalid_pbid >>= λ d'. some (put_inflight d')
    | _ ↦ none
  ]

  unfoldable pub gc_retry_all : List ℕ → Device → Option Device
  gc_retry_all [] d = some d
  gc_retry_all (i ∷ rest) d = do
    r ← submit_gc_task d i
    d' ← after_gc_retry i r
    gc_retry_all rest d'

  -- `__retry_submit_gc_task`
  unfoldable pub retry_submit_gc_task : Device → Option Device
  retry_submit_gc_task d =
      gc_retry_all d.lbz_gc_writes (record d { lbz_gc_writes = []; gc_write_count = 0 })

  -- `lbz_gc_read_endio`, with the error that the read ended in, or none.
  unfoldable pub gc_read_endio : Device → ℕ → Option Errno → Option Device
  gc_read_endio d i none = some (trigger_retry_work (add_task_to_gc_writes d i))
  gc_read_endio d i (some e) = do
    d' ← gc_task_callback env (set_error i e d) i invalid_pbid
    let counted : Device = record d' {
      stats = record (d'.stats) { gc_read_err_cnt = inc64 d'.stats.gc_read_err_cnt };
    }
    some (set_faulty (put_inflight counted))

  -- `lbz_gc_write_endio`, for a write that ended at the sector `ret_sec`, with an error or none.
  unfoldable pub gc_write_endio : Device → ℕ → Option Errno → ℕ → Option Device
  gc_write_endio d i e ret_sec = do
    zone ← (d.tasks i).zone
    let d₁ = on_zone (modify_task d i (λ t. record t { error = e })) zone complete_write
    d₂ ← gc_task_callback env d₁ i (sector_to_blkid ret_sec)
    some (
        put_inflight (elim e [
          | none ↦ d₂
          | some x ↦ set_faulty (record d₂ {
            stats = record (d₂.stats) { gc_write_err_cnt = inc64 d₂.stats.gc_write_err_cnt };
          })
        ]))
