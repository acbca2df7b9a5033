-- ===== src/IoScheduler/Devices.antt =====
-- Concrete devices of ten blocks whose zones are as they were set up. Task 0 is a user's write of block 7
-- that was handed to the device, task 1 one of the collector.
use lbz.Prelude.{ℕ, ◌==◌, [], ◌∷◌, none, some, true, false, if◌then◌else◌}
use lbz.Config.{enoent}
use lbz.Metadata.{ZoneMetadata}
use lbz.Metadata.Tests.{device}
use lbz.Metadata.Worker.{blank_page}
use lbz.Mapping.Tests.{real, fresh}
use lbz.Request.{Bio}
use lbz.IoScheduler.{user_write, gc, gc_reading, dispatch, LogType, Integrity, Task, Device, Env}
use lbz.IoScheduler.TaskTree.{leaf, node}

abbrev pub blank_device : ZoneMetadata
blank_device = record device { zones = λ i. record (device.zones i) { zrms = blank_page ∷ [] } }

-- Every block lies in zone 0.
abbrev pub one_zone : ℕ → ℕ
one_zone s = 0

abbrev pub env : Env
env = record {
  config = record { nat_sit_support = true; free_support = false; stream_support = true };
  layout = real;
  zone_no = one_zone;
  rb_tree = record { insert_color = λ t. t; erase = λ t i. leaf };
  integrity_error = λ i. none;
}

abbrev pub bio : Bio
bio = record { sector = 56; sectors = 8; is_flush = false; is_write = true; has_data = true }

abbrev pub written : Task
written = record {
  bio = bio;
  blkid = 7;
  pbid = 0;
  page = false;
  integrity_buf = Integrity.buffer (record {
    timestamp = 1;
    txid = 0;
    blkid = 7;
    free_blkid = 0;
    log_type = LogType.user_write;
  });
  zone = some 0;
  read_zone = none;
  refcount = 2;
  error = none;
  status = dispatch;
  type = user_write;
  pending_gc_node = some 1;
  freed = false;
}

-- The collector read block 7 at 9, and waits for the write.
abbrev pub waiting : Task
waiting = record {
  bio = bio;
  blkid = 7;
  pbid = 9;
  page = true;
  integrity_buf = Integrity.absent;
  zone = none;
  read_zone = some 0;
  refcount = 1;
  error = some enoent;
  status = gc_reading;
  type = gc;
  pending_gc_node = none;
  freed = false;
}

abbrev pub copying : Task
copying = record waiting { zone = some 0; refcount = 2; error = none; status = dispatch }

abbrev pub at_work : Task → Device
at_work second = record {
  tasks = λ i. if i == 0 then written else second;
  next_task = 2;
  task_tree = node leaf 0 leaf;
  task_count = 1;
  lbz_user_pending = [];
  pending_count = 0;
  lbz_gc_writes = [];
  gc_write_count = 0;
  retry_queued = false;
  mapping = fresh;
  zone_metadata = blank_device;
  nat_sit = record {
    args = record { cp_blkaddr = 0; sit_blkaddr = 0; nat_blkaddr = 0; nat_blocks = 0 };
    cp_blocks = 0;
    sit_blocks = 0;
    first_cp_blkaddr = 0;
    second_cp_blkaddr = 0;
    cp_length = 0;
    sit_segment_no = 0;
    nat_segment_no = 0;
    cur_cp_pack = 0;
    blocks_per_segment = 512;
    nat_sit_inflight_writes = 0;
    nat_sit_user_write = 0;
    nat_sit_cp_write = 0;
    nat_sit_ssa_write = 0;
    nodes = [];
    to_free_count = 0;
    total_freed_blks = 0;
  };
  gc_ctx = record {
    gc_state = record {
      faulty = false;
      reclaiming = false;
      emergency = false;
      ready = true;
      exit = false;
      exited = false;
    };
    last_jiffies = 0;
    gc_times = 0;
    gc_zone = none;
  };
  stats = record {
    transaction_id = 0;
    timestamp = 1;
    user_write_inflight_io_cnt = 1;
    user_read_inflight_io_cnt = 0;
    user_read_err_cnt = 0;
    user_read_zero_cnt = 0;
    user_write_err_cnt = 0;
    user_encounter_emergency = 0;
    write_alloc_encounter_eagain = 0;
    gc_alloc_encounter_eagain = 0;
    user_write_blocks = 1;
    user_read_blocks = 0;
    gc_inflight_io_cnt = 1;
    gc_write_err_cnt = 0;
    gc_read_err_cnt = 0;
    gc_read_blocks = 1;
    gc_write_blocks = 0;
    gc_write_agency_blocks = 1;
    gc_write_complete_blocks = 0;
    gc_write_discarded_blocks = 0;
  };
  faulty = false;
  ready = true;
  events = [];
}
