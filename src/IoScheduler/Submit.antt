-- ===== src/IoScheduler/Submit.antt =====
-- What becomes of a user's bio: `lbz_submit_io_to_iosched` and `__retry_submit_io_task`.
use lbz.Prelude.{ℕ, List, [], ◌∷◌, Option, none, some, true, false, not, ◌>>=◌, if◌then◌else◌}
use lbz.Prelude.Words.{inc64, dec64}
use lbz.Config.{Config, Errno}
use lbz.Block.{sector_to_blkid}
use lbz.NatSit
use lbz.NatSit.{NatSit, is_cp_block, is_dup_block}
use lbz.Request.{Bio}
use lbz.IoScheduler.{
  TaskType, user_write, write_tx_father, write_tx_child, ended, Device, Env, emit,
}
use lbz.IoScheduler.Tasks.{new_task, task_alloc, add_task_to_retry, trigger_retry_work}
use lbz.IoScheduler.Callback.{task_put}
use lbz.IoScheduler.Read.{submit_read_io}
use lbz.IoScheduler.Write.{
  is_eagain, is_alloc_res, submit_write_task, complete_transaction, write_io_endio,
}

-- The kind of a write, by the area that its block lies in and whether it flushes, with what the areas
-- count of it.
unfoldable pub classify : Config → Bio → NatSit → TaskType × NatSit
classify c bio m =
    let blkid = sector_to_blkid bio.sector in
    if not c.nat_sit_support
    then (user_write, m)
    else if is_cp_block m blkid
    then if bio.is_flush
      then (write_tx_father, NatSit.cp_write (NatSit.add_write m))
      else (user_write, NatSit.cp_write m)
    else if is_dup_block m blkid
    then (write_tx_child, NatSit.user_write (NatSit.add_write m))
    else (user_write, NatSit.ssa_write m)

module _ (env : Env) where
  abbrev pub count_error : Device → Device
  count_error d = record d {
    stats = record (d.stats) { user_write_err_cnt = inc64 d.stats.user_write_err_cnt };
  }

  abbrev pub count_out : Device → Device
  count_out d = record d {
    stats = record (d.stats) {
      user_write_inflight_io_cnt = dec64 d.stats.user_write_inflight_io_cnt;
    };
  }

  -- A write that failed for good. `bio_endio` reaches the file system where the bio was not turned to a
  -- zone yet, and `lbz_write_io_endio` where it was, with an error; that completion frees the task.
  -- The sector is not used then.
  unfoldable pub fail_write : Device → ℕ → Option Device
  fail_write d i =
      let t = d.tasks i in
      if is_alloc_res t.status
      then (do
        d' ← task_put env (complete_transaction env t.type (emit (ended t.bio true) d)) i
        some (count_error (count_out d')))
      else (do d' ← write_io_endio env d i false 0; some (count_error d'))

  abbrev pub count_emergency : Device → Device
  count_emergency d = record d {
    stats = record (d.stats) { user_encounter_emergency = inc64 d.stats.user_encounter_emergency };
  }

  -- The switch on the result. After a failure past the allocation `lbz_submit_io_to_iosched` reads the
  -- status of the task that `lbz_write_io_endio` has freed: `none`.
  unfoldable pub after_submit : ℕ → Option Errno × Device → Option Device
  after_submit i (none, d) = some d
  after_submit i (some e, d) =
      if is_eagain e
      then some (trigger_retry_work (add_task_to_retry (count_emergency d) i))
      else if is_alloc_res (d.tasks i).status
      then fail_write d i
      else none

  -- `lbz_submit_io_to_iosched` for a write.
  unfoldable pub submit_write : Device → Bio → Option Device
  submit_write d bio = do
    let (type, m) = classify env.config bio d.nat_sit
    let counted : Device = record d {
      nat_sit = m;
      stats = record (d.stats) {
        user_write_blocks = inc64 d.stats.user_write_blocks;
        user_write_inflight_io_cnt = inc64 d.stats.user_write_inflight_io_cnt;
      };
    }
    let (i, d') = task_alloc (new_task type bio) counted
    r ← submit_write_task env d' i
    after_submit i r

  -- `lbz_submit_io_to_iosched`
  unfoldable pub submit_io : Device → Bio → Option Device
  submit_io d bio =
      if bio.is_write
      then submit_write d bio
      else submit_read_io env
          (record d {
            stats = record (d.stats) { user_read_blocks = inc64 d.stats.user_read_blocks };
          })
          bio

  -- The switch on the result of a retry, which keeps the status from before.
  unfoldable pub after_retry : ℕ → Option Errno × Device → Option Device
  after_retry i (none, d) = some d
  after_retry i (some e, d) =
      if is_eagain e then some (trigger_retry_work (add_task_to_retry d i)) else fail_write d i

  -- The loop over the tasks that were waiting.
  unfoldable pub retry_all : List ℕ → Device → Option Device
  retry_all [] d = some d
  retry_all (i ∷ rest) d = do r ← submit_write_task env d i; d' ← after_retry i r; retry_all rest d'

  -- `__retry_submit_io_task`
  unfoldable pub retry_submit_io_task : Device → Option Device
  retry_submit_io_task d =
      retry_all d.lbz_user_pending (record d { lbz_user_pending = []; pending_count = 0 })
