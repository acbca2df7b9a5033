-- ===== src/IoScheduler/Retry.antt =====
-- `retry_wk_fn`, the delayed work of the scheduler.
use lbz.Prelude.{Option, some, not, ◌||◌, ◌>>=◌, if◌then◌else◌}
use lbz.IoScheduler.{Device, Env}
use lbz.IoScheduler.Submit.{retry_submit_io_task}
use lbz.IoScheduler.Gc.{retry_submit_gc_task}

unfoldable pub retry_work : Env → Device → Option Device
retry_work env d =
    if d.faulty || not d.ready
    then some d
    else retry_submit_io_task env d >>= λ d'. retry_submit_gc_task env d'
