-- ===== src/Gc/Tests.antt =====
-- The collector on the device of Metadata/Tests.antt.
use lbz.Prelude.Words.{long_word}
use lbz.Prelude.{
  length, ◌%◌, ◌+◌, ℕ, ◌+◌, ◌-◌, ◌≡◌, refl, [], ◌∷◌, none, some, true, false, ◌&&◌,
  length-replicate, replicate, ◌≤◌, ltb, leb, if◌then◌else◌, arith,
}
use lbz.Block.{sector_to_blkid}
use lbz.Zone.{Zone}
use lbz.Metadata.{ZoneMetadata}
use lbz.Metadata.Invariant.{Inv}
use lbz.Metadata.ReverseMap.{reverse_entry}
use lbz.Metadata.Tests.{four_zones, device, device-Inv}
use lbz.Gc.{GcContext, Counters, Collected, gc_one_zone, gc_round}
use lbz.Gc.Collect.{IsAscending, submitted_for, valid, gc_one_zone_lem, gc_one_zone_overrun}
use lbz.Gc.RoundLaws.{Scannable, RoundEnds, gc_round_ends}

abbrev counters : Counters
counters = record { gc_inflight_io_cnt = 0; gc_reset_blocks = 0 }

abbrev context : GcContext
context = record {
  gc_state = record {
    faulty = false;
    reclaiming = false;
    emergency = true;
    ready = true;
    exit = false;
    exited = false;
  };
  last_jiffies = 0;
  gc_times = 0;
  gc_zone = none;
}

whole :
    (z : Zone) → z.zrms ≡ replicate 1024 5 ∷ [] → z.wp_block ≤ 8 → z.start_sector ≡ 0 → Scannable z
unfolding sector_to_blkid
whole z e w s = rw (e, s) ((length-replicate {A = ℕ} 1024 5, tt), omega arith, omega arith)

Scannable-zones : (i : ℕ) → Scannable (device.zones i)
Scannable-zones i = whole (device.zones i) (ground arith) (ground arith) (ground arith)

gc_one_zone_lem_example :
    (r : Collected) × (gc_one_zone device counters 2 ≡ some r)
    × ((p : ℕ)
        → submitted_for p r.submitted ≡ (
            if leb (sector_to_blkid 0) p && ltb p (sector_to_blkid 0 + 8)
            then valid (reverse_entry (device.zones 2).zrms (p - sector_to_blkid 0))
            else none))
    × IsAscending (sector_to_blkid 0) r.submitted
    × (r.counters.gc_inflight_io_cnt ≡ (0 + length r.submitted) % long_word)
    × Inv r.zmd
    × ((r.zmd.zones 2).flags.gc ≡ false)
gc_one_zone_lem_example =
    gc_one_zone_lem device counters 2 device-Inv (Scannable-zones 2).0 (Scannable-zones 2).1
      (Scannable-zones 2).2

-- Zones of 1024 blocks, written to their ends.
abbrev written : ZoneMetadata
written = record device { zones = λ i. record (four_zones i) { wp_block = 1024 } }

gc_one_zone_overrun_example : gc_one_zone written counters 2 ≡ none
gc_one_zone_overrun_example = gc_one_zone_overrun written counters 2 refl

gc_round_ends_example : RoundEnds (gc_round 250 7 false true context device counters)
gc_round_ends_example =
    gc_round_ends 7 context counters 250 false true device-Inv (omega arith, tt) (omega arith)
      Scannable-zones
