-- ===== src/Metadata/Worker.antt =====
-- `zone_state_wk_fn`: the worker that closes written zones and resets collected ones.
use lbz.Prelude.{
  ℕ, zero, suc, ◌+◌, ◌-◌, List, [], ◌∷◌, ◌++◌, none, Bool, true, false, not, ◌||◌, replicate, ◌==◌,
  update, if◌then◌else◌,
}
use lbz.Prelude.Words.{word, inc32, dec32, add32, inc64}
use lbz.Zone.{Zone, ZoneCond, ZoneState, no_flags, write_bit, is_zone_state}
use lbz.Metadata.{ZoneMetadata, reverse_map_entries}

unfoldable pub is_full : ZoneCond → Bool
is_full ZoneCond.full = true
is_full _ = false

unfoldable pub is_empty : ZoneCond → Bool
is_empty ZoneCond.empty = true
is_empty _ = false

pub data Stop : Type 0 where
  running : Stop
  -- `goto out` after a failed reset, with the device set faulty
  reset_failed : Stop
  -- a reset zone held valid blocks
  panicked : Stop

-- The variables of the loop. `send_zone_mgmgt` is set in a round and never cleared; `completed` says
-- that `lbz_complete_one_zone` was called.
pub record Pass : Type 0 where
  pub zmd : ZoneMetadata
  pub send_zone_mgmt : Bool
  pub completed : Bool
  pub stop : Stop

-- A page of the reverse map with no entry, `memset` to 0xff.
unfoldable pub blank_page : List ℕ
blank_page = replicate reverse_map_entries (word - 1)

-- The first pages of a reverse map are blanked.
unfoldable pub wipe : ℕ → List (List ℕ) → List (List ℕ)
wipe zero zrms = zrms
wipe (suc n) [] = []
wipe (suc n) (page ∷ rest) = blank_page ∷ wipe n rest

-- A zone with LBZ_ZONE_TO_FULL. Its state becomes closed only if it was full; the flags change whenever
-- `send_zone_mgmgt` stands.
unfoldable pub close_zone : Pass → ℕ → Pass
close_zone p i =
    let z = p.zmd.zones i in
    let closed : Zone = if is_full z.state then record z { state = ZoneCond.closed } else z in
    let send = p.send_zone_mgmt || is_full z.state in
    if send
    then record p {
      zmd = record (p.zmd) {
        zones =
            update p.zmd.zones i (record closed { flags = write_bit ZoneState.full true no_flags });
        full_zone_list = p.zmd.full_zone_list ++ (i ∷ []);
        full_zone_count = inc32 p.zmd.full_zone_count;
        zs_close_times = inc64 p.zmd.zs_close_times;
      };
      send_zone_mgmt = true;
    }
    else p

unfoldable pub blank_zone : ZoneMetadata → Zone → Zone
blank_zone zmd z = record z {
  stream = none;
  wp_block = 0;
  state = ZoneCond.empty;
  flags = write_bit ZoneState.init true no_flags;
  zrms = wipe zmd.zone_nr_reverse_map_blocks z.zrms;
}

unfoldable pub refill : ZoneMetadata → ℕ → ZoneMetadata
refill zmd i = record zmd {
  zones = update zmd.zones i (blank_zone zmd (zmd.zones i));
  empty_zone_list = zmd.empty_zone_list ++ (i ∷ []);
  empty_zone_count = inc32 zmd.empty_zone_count;
  active_zone_count = dec32 zmd.active_zone_count;
  nr_allocable_blks = add32 zmd.nr_allocable_blks zmd.zone_nr_blocks;
  zs_reset_times = inc64 zmd.zs_reset_times;
}

-- A zone with LBZ_ZONE_GC and no reference. `reset_ok` tells whether the kernel's zone reset succeeds.
unfoldable pub reset_zone : (ℕ → Bool) → Pass → ℕ → Pass
reset_zone reset_ok p i =
    let z = p.zmd.zones i in
    let send = p.send_zone_mgmt || is_empty z.state in
    if send
    then if not (reset_ok i)
      then record p { send_zone_mgmt = true; stop = reset_failed }
      else if not (z.weight == 0)
      then record p { send_zone_mgmt = true; stop = panicked }
      else record p { zmd = refill p.zmd i; send_zone_mgmt = true; completed = true }
    else record p { completed = true }

-- One round of the loop.
unfoldable pub visit_zone : (ℕ → Bool) → Pass → ℕ → Pass
visit_zone reset_ok p i =
    let z = p.zmd.zones i in
    if is_zone_state ZoneState.to_full z
    then close_zone p i
    else if not (z.refcount == 0)
    then p
    else if is_zone_state ZoneState.gc z
    then reset_zone reset_ok p i
    else p

-- The rounds left, from zone `i` on, unless the loop was left.
unfoldable pub visit_zones : (ℕ → Bool) → ℕ → ℕ → Pass → Pass
visit_zones reset_ok zero i p = p
visit_zones reset_ok (suc n) i p =
    let next = visit_zones reset_ok n (i + 1) (visit_zone reset_ok p i) in
    elim p.stop [ running ↦ next | reset_failed ↦ p | panicked ↦ p ]

unfoldable pub zone_state_work : (ℕ → Bool) → Bool → Bool → ZoneMetadata → Pass
zone_state_work reset_ok faulty ready zmd =
    let start : Pass = record {
      zmd = zmd;
      send_zone_mgmt = false;
      completed = false;
      stop = running;
    } in
    if faulty || not ready then start else visit_zones reset_ok zmd.nr_zones 0 start
