-- ===== src/Metadata/Alloc.antt =====
-- `lbz_zone_alloc_res`: one block of a stream's active zone.
use lbz.Prelude.{ℕ, Option, none, some, Bool, true, false, ◌&&◌, update, ltb, ◌==◌, if◌then◌else◌}
use lbz.Prelude.Words.{inc32, dec32, inc64}
use lbz.Config.{Config, Errno, eio, eagain}
use lbz.Zone.{
  Zone, ZoneCond, ZoneState, get_zone, put_zone, pending_write, alloc_block, set_zone_state,
  clear_zone_state,
}
use lbz.Metadata.{ZoneMetadata, modify_zone, get_free_zone}

-- `enum lbz_alloc_flag`
pub data AllocFlag : Type 0 where
  user gc : AllocFlag

-- The zone of the block, an error, or the `BUG_ON` on collection without a free zone.
pub data AllocRet : Type 0 where
  allocated : ℕ → AllocRet
  failed : Errno → AllocRet
  bug : AllocRet

-- `reclaim` says that `lbz_trigger_gc_reclaim` was called.
pub record Alloc : Type 0 where
  pub ret : AllocRet
  pub zmd : ZoneMetadata
  pub reclaim : Bool

-- The zone from the list of empty zones becomes the stream's.
unfoldable pub activate : ℕ → Zone → Zone
activate stream_id z =
    let held = get_zone (record z { stream = some stream_id }) in
    record (set_zone_state ZoneState.active held) { state = ZoneCond.exp_open }

unfoldable pub charge : Zone → Zone
charge z = pending_write (alloc_block (get_zone z))

-- The zone was written to its end, and the stream lets it go.
unfoldable pub retire : Zone → Zone
retire z = put_zone (set_zone_state ZoneState.to_full (clear_zone_state ZoneState.active z))

-- A block of zone `i`, which is active for the stream.
unfoldable pub take_block : ZoneMetadata → ℕ → ℕ → ZoneMetadata
take_block zmd stream_id i =
    let z = charge (zmd.zones i) in
    let counted = record zmd {
      active_zone_writes =
          update zmd.active_zone_writes stream_id (inc64 (zmd.active_zone_writes stream_id));
      nr_allocable_blks = dec32 zmd.nr_allocable_blks;
      nr_valid_blks = inc32 zmd.nr_valid_blks;
    } in
    if z.wp_block == zmd.zone_nr_blocks
    then record counted {
      zones = update zmd.zones i (retire z);
      active_zone = update zmd.active_zone stream_id none;
    }
    else record counted { zones = update zmd.zones i z }

-- The active zone is absent or at its end: it is let go, and the first empty zone takes its place.
unfoldable pub drop_active : ZoneMetadata → ℕ → ZoneMetadata
drop_active zmd stream_id = elim (zmd.active_zone stream_id) [
  | none ↦ zmd
  | some i ↦ modify_zone zmd i put_zone
]

unfoldable pub replace_active : ZoneMetadata → ℕ → Option ℕ × ZoneMetadata
replace_active zmd stream_id =
    let (free, zmd') = get_free_zone (drop_active zmd stream_id) in
    let next = record zmd' { active_zone = update zmd'.active_zone stream_id free } in
    elim free [ none ↦ (none, next) | some i ↦ (some i, modify_zone next i (activate stream_id)) ]

-- The zone to write to, if the active one has room.
unfoldable pub usable : ZoneMetadata → ℕ → Option ℕ
usable zmd stream_id = elim (zmd.active_zone stream_id) [
  | none ↦ none
  | some i ↦ if (zmd.zones i).wp_block == zmd.zone_nr_blocks then none else some i
]

unfoldable pub no_zone : Config → AllocFlag → ZoneMetadata → Alloc
no_zone c mod' zmd =
    if c.stream_support
    then record { ret = failed eagain; zmd = zmd; reclaim = false }
    else elim mod' [
      | user ↦ record { ret = failed eagain; zmd = zmd; reclaim = true }
      | gc ↦ record { ret = bug; zmd = zmd; reclaim = true }
    ]

unfoldable pub alloc_in_stream : Config → AllocFlag → ℕ → ZoneMetadata → Alloc
alloc_in_stream c mod' stream_id zmd = elim (usable zmd stream_id) [
  | some i ↦ record { ret = allocated i; zmd = take_block zmd stream_id i; reclaim = false }
  | none ↦
      let (free, zmd') = replace_active zmd stream_id in
      elim free [
        | none ↦ no_zone c mod' zmd'
        | some i ↦ record { ret = allocated i; zmd = take_block zmd' stream_id i; reclaim = false }
      ]
]

abbrev pub is_user : AllocFlag → Bool
is_user user = true
is_user gc = false

-- `faulty` is `is_dev_faulty` of the device. A user's write leaves the blocks reserved for collection.
-- The code behind `open_zone` is dead: `ret` is 0 there.
unfoldable pub alloc_res : Config → Bool → AllocFlag → ℕ → ZoneMetadata → Alloc
alloc_res c faulty mod' stream_id zmd =
    if faulty
    then record { ret = failed eio; zmd = zmd; reclaim = false }
    else if is_user mod' && ltb zmd.nr_allocable_blks zmd.reserved_blks_gc
    then record { ret = failed eagain; zmd = zmd; reclaim = false }
    else alloc_in_stream c mod' stream_id zmd
