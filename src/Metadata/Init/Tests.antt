-- ===== src/Metadata/Init/Tests.antt =====
-- A device of two zones of eight blocks, the second written in part.
use lbz.Prelude.{◌≡◌, suc, [], ◌∷◌, some, length, arith}
use lbz.Zone.{ZoneCond}
use lbz.Metadata.{ZoneMetadata}
use lbz.Metadata.Init.{BlkZone, init_zone_metadata}
use lbz.Metadata.Invariant.{Inv}
use lbz.Metadata.Init.Placing.{AreZones}
use lbz.Metadata.Init.Report.{init_zone_metadata-Inv}
use lbz.Metadata.Tests.{device}

abbrev pub first : BlkZone
first = record { start = 0; len = 64; wp = 0; cond = ZoneCond.empty; capacity = 64 }

abbrev pub second : BlkZone
second = record { start = 64; len = 64; wp = 88; cond = ZoneCond.closed; capacity = 64 }

pub both-AreZones : AreZones 64 (first ∷ second ∷ [])
both-AreZones = (
  record {
    capacity_eq = omega arith;
    start_le = omega arith;
    wp_le = omega arith;
    fits = omega arith;
  },
  (
    record {
      capacity_eq = omega arith;
      start_le = omega arith;
      wp_le = omega arith;
      fits = omega arith;
    },
    tt,
  ),
)

init_zone_metadata-Inv_example :
    (zmd : ZoneMetadata) × (init_zone_metadata
        (λ n. n)
        device
        (suc (length (second ∷ [])))
        64
        (first ∷ second ∷ [])
      ≡ some zmd)
    × Inv zmd
    × (zmd.zone_nr_blocks ≡ 8)
init_zone_metadata-Inv_example =
    init_zone_metadata-Inv (λ n. n) 64 (omega arith) (omega arith) first (second ∷ []) device 64
      both-AreZones (omega arith) (omega arith)
