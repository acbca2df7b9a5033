-- ===== src/IoScheduler/Read.antt =====
-- The way of a user's read: `__submit_read_io` and `lbz_read_io_endio`.
use lbz.Prelude.{ℕ, Option, some, Bool, not, ◌>>=◌, if◌then◌else◌}
use lbz.Prelude.Words.{inc64, dec64}
use lbz.Block.{sector_to_blkid, blkid_to_sector}
use lbz.Zone.{put_zone}
use lbz.Mapping.Lookup.{found, failed, lookup}
use lbz.Request.{Bio}
use lbz.IoScheduler.{ended, read_io, Device, Env, on_zone, emit, set_faulty}

module _ (env : Env) where
  abbrev pub count_zero : Device → Device
  count_zero d = record d {
    stats = record (d.stats) { user_read_zero_cnt = inc64 d.stats.user_read_zero_cnt };
  }

  abbrev pub count_read : Device → Device
  count_read d = record d {
    stats = record (d.stats) {
      user_read_inflight_io_cnt = inc64 d.stats.user_read_inflight_io_cnt;
    };
  }

  -- `__submit_read_io`. A block that is not mapped ends at once, without error.
  unfoldable pub submit_read_io : Device → Bio → Option Device
  submit_read_io d bio = do
    (r, zmd) ← lookup env.layout env.zone_no d.mapping d.zone_metadata (sector_to_blkid bio.sector)
    let d' : Device = record d { zone_metadata = zmd }
    some (elim r [
      | failed e ↦ count_zero (emit (ended bio Bool.false) d')
      | found z pbid ↦ emit (read_io bio (blkid_to_sector pbid)) (count_read d')
    ])

  -- `lbz_read_io_endio` for a bio that read from zone `z`, and ended well or not.
  unfoldable pub read_io_endio : Device → Bio → ℕ → Bool → Device
  read_io_endio d bio z ok =
      let d₁ : Device =
        if ok
        then d
        else set_faulty (record d {
          stats = record (d.stats) { user_read_err_cnt = inc64 d.stats.user_read_err_cnt };
        }) in
      let d₂ = on_zone (emit (ended bio (not ok)) d₁) z put_zone in
      record d₂ {
        stats = record (d₂.stats) {
          user_read_inflight_io_cnt = dec64 d₂.stats.user_read_inflight_io_cnt;
        };
      }
