-- ===== src/Gc.antt =====
-- src/lbz-gc.c and src/include/lbz-gc.h: the thread that collects zones. A run over one zone and a round
-- of the thread's loop are each one step; the device's flags stay as they are within it.
pub mod Collect
pub mod RoundLaws
pub mod Tests
use lbz.Prelude.{
  ℕ, zero, suc, ◌+◌, ◌-◌, ◌*◌, ◌%◌, List, [], ◌∷◌, Option, none, some, Bool, true, false, not, ◌&&◌,
  ◌||◌, ◌>>=◌, length, ltb, ◌==◌, if◌then◌else◌,
}
use lbz.Prelude.Words.{word, long_word, inc32, inc64}
use lbz.Block.{sector_to_blkid}
use lbz.Zone.{Zone, ZoneState, get_zone, put_zone, set_zone_state, is_zone_state}
use lbz.Metadata.{ZoneMetadata, modify_zone, check_need_reclaim_low}
use lbz.Metadata.Victim.{VictimMod, find_victim_zone}
use lbz.Metadata.ReverseMap.{reverse_entry}
use lbz.Mapping.{invalid_pbid}

-- `enum lbz_gc_state`, the bits of `gc_state` that the code tests or sets.
pub record GcState : Type 0 where
  pub faulty : Bool
  pub reclaiming : Bool
  pub emergency : Bool
  pub ready : Bool
  pub exit : Bool
  pub exited : Bool

-- `struct lbz_gc_context`, less the thread and the timer.
pub record GcContext : Type 0 where
  pub gc_state : GcState
  pub last_jiffies : ℕ
  pub gc_times : ℕ
  pub gc_zone : Option ℕ

-- What the device counts of it.
pub record Counters : Type 0 where
  pub gc_inflight_io_cnt : ℕ
  pub gc_reset_blocks : ℕ

unfoldable pub complete_one_zone : GcContext → GcContext
complete_one_zone c = record c { gc_state = record (c.gc_state) { reclaiming = false } }

unfoldable pub trigger_gc_reclaim : GcContext → GcContext
trigger_gc_reclaim c = record c { gc_state = record (c.gc_state) { reclaiming = true } }

unfoldable pub trigger_gc_reclaim_emergency : GcContext → GcContext
trigger_gc_reclaim_emergency c = record c { gc_state = record (c.gc_state) { emergency = true } }

-- The loop of `__gc_one_zone`, by the entries that are left: the submissions, each a physical block and
-- the block it belongs to. The entry is read before the loop's condition is tested, once more than there
-- are rounds; `none` for a read outside the map.
unfoldable pub scan : List (List ℕ) → ℕ → ℕ → ℕ → Option (List (ℕ × ℕ))
scan zrms zero iter pbid = do _ ← reverse_entry zrms iter; some []
scan zrms (suc n) iter pbid = do
  pos ← reverse_entry zrms iter
  rest ← scan zrms n (iter + 1) (inc32 pbid)
  some (if pos == invalid_pbid then rest else (pbid, pos) ∷ rest)

-- One reference for each submission.
unfoldable pub hold : ℕ → Zone → Zone
hold zero z = z
hold (suc n) z = hold n (get_zone z)

-- The end of the run: the victim's own reference goes.
unfoldable pub finish : ℕ → Zone → Zone
finish n z = put_zone (set_zone_state ZoneState.gc_completed (hold n z))

pub record Collected : Type 0 where
  pub submitted : List (ℕ × ℕ)
  pub zmd : ZoneMetadata
  pub counters : Counters

-- `__gc_one_zone`. What `lbz_submit_gc_to_iosched` does with a submission is not part of it; it returns 0
-- or the `BUG_ON` stops.
unfoldable pub gc_one_zone : ZoneMetadata → Counters → ℕ → Option Collected
gc_one_zone zmd k i = do
  let z = zmd.zones i
  submitted ← scan z.zrms z.wp_block 0 (sector_to_blkid z.start_sector)
  some (record {
    submitted = submitted;
    zmd = modify_zone zmd i (finish (length submitted));
    counters = record {
      gc_inflight_io_cnt = (k.gc_inflight_io_cnt + length submitted) % long_word;
      gc_reset_blocks = (k.gc_reset_blocks + z.wp_block) % long_word;
    };
  })

-- The mode of a round, at time `now`; `hz` is the kernel's HZ. `none` for LBZ_VICTIM_DEFAULT, which
-- sleeps.
unfoldable pub choose_mod : ℕ → ℕ → ZoneMetadata → GcContext → Option VictimMod
choose_mod hz now zmd c =
    if check_need_reclaim_low zmd || c.gc_state.emergency
    then some VictimMod.emergency
    else if ltb (60 * hz) ((now + long_word - c.last_jiffies) % long_word) || c.gc_state.reclaiming
    then some VictimMod.regular
    else none

-- The zone collected last still waits for its reset.
unfoldable pub is_busy : ZoneMetadata → GcContext → Bool
is_busy zmd c = elim c.gc_zone [ none ↦ false | some i ↦ is_zone_state ZoneState.gc (zmd.zones i) ]

pub record Round : Type 0 where
  pub ctx : GcContext
  pub zmd : ZoneMetadata
  pub counters : Counters
  pub submitted : List (ℕ × ℕ)
  -- `goto try_reclaim`, else the thread sleeps
  pub again : Bool

unfoldable pub idle : GcContext → ZoneMetadata → Counters → Round
idle c zmd k = record { ctx = c; zmd = zmd; counters = k; submitted = []; again = false }

unfoldable pub collect : ℕ → GcContext → ZoneMetadata → Counters → ℕ → Option Round
collect now c zmd k i = do
  done ← gc_one_zone zmd k i
  some (record {
    ctx = record {
      gc_state = record (c.gc_state) { emergency = false };
      last_jiffies = now;
      gc_times = inc64 c.gc_times;
      gc_zone = some i;
    };
    zmd = done.zmd;
    counters = done.counters;
    submitted = done.submitted;
    again = true;
  })

unfoldable pub reclaim : ℕ → GcContext → ZoneMetadata → Counters → VictimMod → Option Round
reclaim now c zmd k mod' =
    let (victim, zmd') = find_victim_zone zmd mod' in
    elim victim [ none ↦ some (idle c zmd' k) | some i ↦ collect now c zmd' k i ]

-- A round of `lbz_gc_thread`; `none` for the read outside a reverse map.
unfoldable pub gc_round : ℕ → ℕ → Bool → Bool → GcContext → ZoneMetadata → Counters → Option Round
gc_round hz now faulty ready c zmd k =
    if faulty || not ready then some (idle c zmd k) else elim (choose_mod hz now zmd c) [
      | none ↦ some (idle c zmd k)
      | some mod' ↦
          if c.gc_state.exit || is_busy zmd c then some (idle c zmd k) else reclaim now c zmd k mod'
    ]
