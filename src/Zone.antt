-- ===== src/Zone.antt =====
-- A zone descriptor: `struct lbz_zone` of src/include/lbz-zone-metadata.h, and the functions of
-- src/lbz-zone-metadata.c that work on one zone. Each is one step under the zone's lock.
use lbz.Prelude.{ℕ, List, Option, Bool, true, false, ◌&&◌, ◌==◌, if◌then◌else◌}
use lbz.Prelude.Words.{inc32, dec32}

-- The kernel's `enum blk_zone_cond`.
pub data ZoneCond : Type 0 where
  not_wp empty imp_open exp_open closed read_only full offline : ZoneCond

-- `enum lbz_zone_state`: the bits of `flags`.
pub data ZoneState : Type 0 where
  offline read_only init empty active partial to_full full gc gc_completed : ZoneState

pub record Flags : Type 0 where
  pub offline : Bool
  pub read_only : Bool
  pub init : Bool
  pub empty : Bool
  pub active : Bool
  pub partial : Bool
  pub to_full : Bool
  pub full : Bool
  pub gc : Bool
  pub gc_completed : Bool

abbrev pub no_flags : Flags
no_flags = record {
  offline = false;
  read_only = false;
  init = false;
  empty = false;
  active = false;
  partial = false;
  to_full = false;
  full = false;
  gc = false;
  gc_completed = false;
}

abbrev pub test_bit : ZoneState → Flags → Bool
test_bit ZoneState.offline f = f.offline
test_bit ZoneState.read_only f = f.read_only
test_bit ZoneState.init f = f.init
test_bit ZoneState.empty f = f.empty
test_bit ZoneState.active f = f.active
test_bit ZoneState.partial f = f.partial
test_bit ZoneState.to_full f = f.to_full
test_bit ZoneState.full f = f.full
test_bit ZoneState.gc f = f.gc
test_bit ZoneState.gc_completed f = f.gc_completed

-- `set_bit` at `true`, `clear_bit` at `false`.
abbrev pub write_bit : ZoneState → Bool → Flags → Flags
write_bit ZoneState.offline b f = record f { offline = b }
write_bit ZoneState.read_only b f = record f { read_only = b }
write_bit ZoneState.init b f = record f { init = b }
write_bit ZoneState.empty b f = record f { empty = b }
write_bit ZoneState.active b f = record f { active = b }
write_bit ZoneState.partial b f = record f { partial = b }
write_bit ZoneState.to_full b f = record f { to_full = b }
write_bit ZoneState.full b f = record f { full = b }
write_bit ZoneState.gc b f = record f { gc = b }
write_bit ZoneState.gc_completed b f = record f { gc_completed = b }

-- `refcount`, `weight` and `pending_write_io` are the 32-bit patterns of `atomic_t`; a `stream` of -1
-- is `none`. The reverse map is an array of pages. `zone_valid_bitmap`, which nothing reads, is left
-- out, and so are `link` (the lists of the metadata hold zone numbers) and `lock`.
pub record Zone : Type 0 where
  pub state : ZoneCond
  pub flags : Flags
  pub refcount : ℕ
  pub stream : Option ℕ
  pub id : ℕ
  pub wp_block : ℕ
  pub start_sector : ℕ
  pub len_sectors : ℕ
  pub capacity_sectors : ℕ
  pub cond : ZoneCond
  pub weight : ℕ
  pub pending_write_io : ℕ
  pub zrms : List (List ℕ)

unfoldable pub is_zone_clear : Zone → Bool
is_zone_clear z = z.weight == 0

abbrev pub is_zone_state : ZoneState → Zone → Bool
is_zone_state s z = test_bit s z.flags

abbrev pub set_zone_state : ZoneState → Zone → Zone
set_zone_state s z = record z { flags = write_bit s true z.flags }

abbrev pub clear_zone_state : ZoneState → Zone → Zone
clear_zone_state s z = record z { flags = write_bit s false z.flags }

unfoldable pub get_zone : Zone → Zone
get_zone z = record z { refcount = inc32 z.refcount }

-- The reference goes first; then the last holder of a zone under collection marks it empty, and whoever
-- finds a written zone without writes in flight marks it full.
unfoldable pub put_zone : Zone → Zone
put_zone z =
    let z' = record z { refcount = dec32 z.refcount } in
    if z'.refcount == 0 && is_zone_state ZoneState.gc z'
    then record z' { state = ZoneCond.empty }
    else if is_zone_state ZoneState.to_full z' && z'.pending_write_io == 0
    then record z' { state = ZoneCond.full }
    else z'

-- `__pending_write`
unfoldable pub pending_write : Zone → Zone
pending_write z = record z { pending_write_io = inc32 z.pending_write_io }

-- `lbz_zone_complete_write`
unfoldable pub complete_write : Zone → Zone
complete_write z = record z { pending_write_io = dec32 z.pending_write_io }

-- `__alloc_res`
unfoldable pub alloc_block : Zone → Zone
alloc_block z = record z { wp_block = inc32 z.wp_block; weight = inc32 z.weight }
