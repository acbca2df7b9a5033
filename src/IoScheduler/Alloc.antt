-- ===== src/IoScheduler/Alloc.antt =====
-- What a write of a user and a write of the collector share: a block from some stream, and the integrity
-- data.
use lbz.Prelude.{ℕ, zero, suc, ◌+◌, Bool, true, false, ◌&&◌, ◌==◌, if◌then◌else◌}
use lbz.Prelude.Words.{inc64}
use lbz.Config.{Config}
use lbz.Metadata.{max_stream}
use lbz.Metadata.Alloc.{AllocFlag, AllocRet, allocated, failed, alloc_res}
use lbz.Gc.{trigger_gc_reclaim}
use lbz.NatSit.{get_stream_id, to_free, add_blkid}
use lbz.IoScheduler.{TaskType, LogType, DiskLog, Task, Device}

-- `lbz_zone_alloc_res` on the device, with the call of `lbz_trigger_gc_reclaim` in it.
unfoldable pub zone_alloc_res : Config → AllocFlag → ℕ → Device → AllocRet × Device
zone_alloc_res c flag stream_id d =
    let r = alloc_res c d.faulty flag stream_id d.zone_metadata in
    let d' = record d { zone_metadata = r.zmd } in
    (r.ret, if r.reclaim then record d' { gc_ctx = trigger_gc_reclaim d.gc_ctx } else d')

abbrev pub succeeded : AllocRet → Bool
succeeded (allocated z) = true
succeeded _ = false

abbrev pub retriable : AllocRet → Bool
retriable (failed e) = true
retriable _ = false

-- The result of an allocation, and whether another stream than the wanted one gave the block.
pub record Grant : Type 0 where
  pub ret : AllocRet
  pub elsewhere : Bool
  pub device : Device

-- `for (i = 0; i < LBZ_ZONE_MAX_STREAM; i++)`, by the rounds left: the other streams in turn, until one
-- gives a block.
unfoldable pub try_streams : Config → AllocFlag → ℕ → (rounds i : ℕ) → Grant → Grant
try_streams c flag wanted zero i g = g
try_streams c flag wanted (suc n) i g =
    let (ret, d) = zone_alloc_res c flag i g.device in
    let here : Grant = record { ret = ret; elsewhere = succeeded ret; device = d } in
    let next = try_streams c flag wanted n (i + 1) here in
    let skip = try_streams c flag wanted n (i + 1) g in
    if i == wanted then skip else if retriable ret then next else here

-- The stream that a block belongs to, or with CONFIG_LBZ_NAT_SIT_STREAM_SUPPORT any other.
unfoldable pub alloc_block : Config → AllocFlag → ℕ → Device → Grant
alloc_block c flag blkid d =
    let wanted = if c.nat_sit_support then get_stream_id c d.nat_sit blkid else 0 in
    let (ret, d') = zone_alloc_res c flag wanted d in
    let first : Grant = record { ret = ret; elsewhere = false; device = d' } in
    let others = try_streams c flag wanted max_stream 0 first in
    if c.nat_sit_support && (c.stream_support && retriable ret) then others else first

-- The log of `__add_integrity`, once the kernel has given its payload. A new transaction id is drawn for
-- a checkpoint, and a duplicate block records its mate for the end of the transaction. Memory set to
-- zero stands behind a field that is not assigned.
unfoldable pub write_log : Config → Task → LogType → Device → DiskLog × Device
write_log c t type d =
    let stamp = inc64 d.stats.timestamp in
    let stamped = record d { stats = record (d.stats) { timestamp = stamp } } in
    let plain : DiskLog × Device = (
      record { timestamp = stamp; txid = 0; blkid = t.blkid; free_blkid = 0; log_type = type },
      stamped,
    ) in
    if c.nat_sit_support
    then elim t.type [
      | TaskType.write_tx_father ↦ (
        record {
          timestamp = stamp;
          txid = inc64 d.stats.transaction_id;
          blkid = t.blkid;
          free_blkid = 0;
          log_type = LogType.transaction_father;
        },
        record stamped {
          stats = record (stamped.stats) { transaction_id = inc64 d.stats.transaction_id };
        },
      )
      | TaskType.write_tx_child ↦
          let mate = to_free d.nat_sit t.blkid in
          (
            record {
              timestamp = stamp;
              txid = d.stats.transaction_id;
              blkid = t.blkid;
              free_blkid = mate;
              log_type = LogType.transaction_child;
            },
            if c.free_support
                then record stamped { nat_sit = add_blkid d.nat_sit mate }
                else stamped,
          )
      | _ ↦ plain
    ]
    else plain
