-- ===== src/Metadata/Victim.antt =====
-- `lbz_find_victim_zone`: the full zone to collect.
use lbz.Prelude.{
  ℕ, ◌-◌, ◌^◌, List, [], ◌∷◌, Option, none, some, Bool, true, false, leb, ◌&&◌, not, if◌then◌else◌,
}
use lbz.Prelude.Words.{inc32, dec32, signed_lt}
use lbz.Zone.{Zone, ZoneState, get_zone, set_zone_state}
use lbz.Metadata.{ZoneMetadata, modify_zone, check_zone_low_wm, list_del}

-- `enum lbz_victim_mod`
pub data VictimMod : Type 0 where
  default regular emergency : VictimMod

abbrev pub is_regular : VictimMod → Bool
is_regular regular = true
is_regular _ = false

-- `((int)(~0U >> 1))`
abbrev pub max_int : ℕ
max_int = 2 ^ 31 - 1

-- The loop over the full zones: the least weight so far, and the zone that has it.
unfoldable pub find_min : (ℕ → Zone) → List ℕ → ℕ → Option ℕ → ℕ × Option ℕ
find_min zones [] min_valid min_zone = (min_valid, min_zone)
find_min zones (pos ∷ rest) min_valid min_zone =
    let less = signed_lt (zones pos).weight min_valid in
    find_min zones rest (if less then (zones pos).weight else min_valid)
      (if less then some pos else min_zone)

-- The victim leaves the list of full zones, with a reference that keeps it from being reset at once.
unfoldable pub take_victim : ZoneMetadata → ℕ → ZoneMetadata
take_victim zmd i = record (modify_zone zmd i (λ z. set_zone_state ZoneState.gc (get_zone z))) {
  full_zone_list = list_del i zmd.full_zone_list;
  full_zone_count = dec32 zmd.full_zone_count;
  active_zone_count = inc32 zmd.active_zone_count;
}

-- The comparison with `zone_nr_blocks` is unsigned.
unfoldable pub choose_victim : ZoneMetadata → VictimMod → Option ℕ
choose_victim zmd mod' =
    let (min_valid, min_zone) = find_min zmd.zones zmd.full_zone_list max_int none in
    if leb zmd.zone_nr_blocks min_valid then none else elim min_zone [
      | none ↦ none
      | some i ↦
          if is_regular mod' && not (check_zone_low_wm zmd (zmd.zones i)) then none else some i
    ]

unfoldable pub find_victim_zone : ZoneMetadata → VictimMod → Option ℕ × ZoneMetadata
find_victim_zone zmd mod' = elim (choose_victim zmd mod') [
  | none ↦ (none, zmd)
  | some i ↦ (some i, take_victim zmd i)
]
