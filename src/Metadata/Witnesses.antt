-- ===== src/Metadata/Witnesses.antt =====
-- The theorems on the metadata at the concrete device of Metadata/Tests.antt.
use lbz.Prelude.{
  ◌/◌, ◌≤◌, ◌<◌, ◌≡◌, ◌≢◌, refl, [], ◌∷◌, none, some, true, false, not, ◌&&◌, ◌==◌, ltb,
  if◌then◌else◌, arith,
}
use lbz.Config.{Config}
use lbz.Prelude.Words.{mul32, signed_lt}
use lbz.Zone.{ZoneCond, no_flags}
use lbz.Metadata.{
  ZoneMetadata, check_zone_low_wm, check_need_reclaim_low, check_need_reclaim_high, store_reverse,
}
use lbz.Metadata.Alloc.{user, gc, allocated, alloc_res}
use lbz.Metadata.AllocLaws.{Took, alloc_res-Inv, alloc_res-ret, alloc_res-Took}
use lbz.Metadata.Places.{count}
use lbz.Metadata.Victim.{regular, emergency, is_regular, find_min, choose_victim, find_victim_zone}
use lbz.Metadata.VictimLaws.{
  find_victim_zone-least, find_victim_zone_complete, find_victim_zone-Inv,
}
use lbz.Metadata.Watermarks.{check_need_reclaim_lem, check_need_reclaim_wraps}
use lbz.Metadata.ReverseMap.{reverse_entry, reverse_entry-store_reverse}
use lbz.Metadata.Release.{release_block}
use lbz.Metadata.ReleaseLaws.{release_block-Inv}
use lbz.Metadata.Worker.{Pass, running, is_full, visit_zone, zone_state_work}
use lbz.Metadata.WorkerLaws.{zone_state_work-Inv, visit_zone_sticky}
use lbz.Metadata.Invariant.{Inv}
use lbz.Metadata.Tests.{zone_at, four_zones, device, device-Inv}

abbrev build : Config
build = record { nat_sit_support = true; free_support = true; stream_support = false }

alloc_res-Inv_example : Inv (alloc_res build false user 0 device).zmd
alloc_res-Inv_example = alloc_res-Inv build false user 0 device-Inv (omega arith)

alloc_res-ret_example : (alloc_res build false gc 1 device).ret ≡ allocated 1
alloc_res-ret_example = alloc_res-ret build false gc 1 device-Inv (omega arith)

alloc_res-Took_example : Took device 0 0 (alloc_res build false user 0 device).zmd
alloc_res-Took_example =
    alloc_res-Took build false user 0 device-Inv (omega arith)
      (alloc_res-ret build false user 0 device-Inv (omega arith))

-- Two full zones, of which the second holds no valid block.
abbrev lists_two : ZoneMetadata
lists_two = record device {
  zones = λ i. record (four_zones i) { weight = if i == 2 then 4 else 0 };
  full_zone_list = 2 ∷ 3 ∷ [];
}

find_victim_zone-least_example :
    ((lists_two.zones 3).weight ≤ (lists_two.zones 2).weight)
    × ((lists_two.zones 3).weight < lists_two.zone_nr_blocks)
    × (0 < count 3 lists_two.full_zone_list)
    × ((is_regular regular && not (check_zone_low_wm lists_two (lists_two.zones 3))) ≡ false)
unfolding find_victim_zone choose_victim find_min signed_lt check_zone_low_wm mul32
find_victim_zone-least_example =
    find_victim_zone-least lists_two regular (omega arith, (omega arith, tt)) 3 2 (omega arith) refl
      (omega arith)

find_victim_zone_complete_example : (find_victim_zone device emergency).0 ≢ none
find_victim_zone_complete_example =
    find_victim_zone_complete device emergency (omega arith, tt) 2 refl (omega arith) (omega arith)
      (omega arith)

find_victim_zone-Inv_example : Inv (find_victim_zone device emergency).1
find_victim_zone-Inv_example =
    find_victim_zone-Inv emergency device-Inv (omega arith, tt) (omega arith)

release_block-Inv_example : Inv (release_block (λ s. s / 64) device 17)
release_block-Inv_example = release_block-Inv (λ s. s / 64) 17 device-Inv

zone_state_work-Inv_example : Inv (zone_state_work (λ _. true) false true device).zmd
zone_state_work-Inv_example = zone_state_work-Inv (λ _. true) false true device-Inv

check_need_reclaim_lem_example :
    (check_need_reclaim_low device ≡ ltb 5 0) × (check_need_reclaim_high device ≡ ltb 5 1)
check_need_reclaim_lem_example =
    check_need_reclaim_lem device (omega arith) refl refl (omega arith) (omega arith)

-- Collection has taken six of the eight reserved blocks.
abbrev drained : ZoneMetadata
drained = record device { nr_allocable_blks = 2 }

check_need_reclaim_wraps_example :
    (check_need_reclaim_low drained ≡ false) × (check_need_reclaim_high drained ≡ false)
check_need_reclaim_wraps_example =
    check_need_reclaim_wraps drained (omega arith) refl refl (omega arith) (omega arith)

reverse_entry-store_reverse_example :
    reverse_entry (store_reverse ((5 ∷ 6 ∷ []) ∷ []) 1 9) 0 ≡ some 5
unfolding reverse_entry
reverse_entry-store_reverse_example =
    reverse_entry-store_reverse ((5 ∷ 6 ∷ []) ∷ []) 1 0 9 {old = 6} refl

-- Two written zones, of which the second has a write in flight.
abbrev both_written : Pass
both_written = record {
  zmd = record device {
    zones = λ i.
        zone_at i (if i == 0 then ZoneCond.full else ZoneCond.exp_open)
          (record no_flags { to_full = true }) 8;
    full_zone_list = [];
  };
  send_zone_mgmt = false;
  completed = false;
  stop = running;
}

visit_zone_sticky_example :
    ((visit_zone (λ _. true) (visit_zone (λ _. true) both_written 0) 1).zmd.full_zone_list
      ≡ 0 ∷ 1 ∷ [])
    × (visit_zone (λ _. true) both_written 1 ≡ both_written)
unfolding is_full
visit_zone_sticky_example =
    visit_zone_sticky (λ _. true) both_written 0 1 (ground arith) refl refl refl refl refl
