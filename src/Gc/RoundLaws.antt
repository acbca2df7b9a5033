-- ===== src/Gc/RoundLaws.antt =====
-- A round of `lbz_gc_thread`.
use lbz.Prelude.{
  ℕ, ◌+◌, ◌*◌, ◌^◌, ◌<◌, ◌≡◌, refl, Option, none, some, Bool, true, false, not, ◌&&◌, ◌||◌, length,
  update, Option-cases, Bool-cases, inl, inr, arith,
}
use lbz.Prelude.Words.{word, inc64}
use lbz.Block.{sector_to_blkid}
use lbz.Zone.{Zone, ZoneState, set_zone_state, get_zone}
use lbz.Metadata.{ZoneMetadata, reverse_map_entries}
use lbz.Metadata.Invariant.{Inv}
use lbz.Metadata.Victim.{VictimMod, choose_victim, find_victim_zone, take_victim}
use lbz.Metadata.VictimLaws.{Counted, find_victim_zone-Inv}
use lbz.Gc.{GcContext, Counters, Round, choose_mod, is_busy, idle, collect, reclaim, gc_round}
use lbz.Gc.Collect.{WholePages, gc_one_zone_lem}

-- A zone that a run can go over: its map reaches past its write pointer.
abbrev pub Scannable : Zone → Type 0
Scannable z =
    WholePages z.zrms
    × (z.wp_block < length z.zrms * reverse_map_entries)
    × (sector_to_blkid z.start_sector + z.wp_block < word)

-- The round ends well: it faults nowhere, keeps the invariant, and leaves a zone under collection if it
-- is to be followed by another round at once.
abbrev pub RoundEnds : Option Round → Type 0
RoundEnds result =
    (r : Round) × (result ≡ some r) × Inv r.zmd × ((r.again && not (is_busy r.zmd r.ctx)) ≡ false)

taken_Scannable :
    (zmd : ZoneMetadata) (i : ℕ) → Scannable (zmd.zones i) → Scannable ((take_victim zmd i).zones i)
unfolding take_victim get_zone
taken_Scannable zmd i s =
    let same : update zmd.zones i (set_zone_state ZoneState.gc (get_zone (zmd.zones i))) i
        ≡ set_zone_state ZoneState.gc (get_zone (zmd.zones i)) =
      ground arith in
    rw same s

taken-gc : (zmd : ZoneMetadata) (i : ℕ) → ((take_victim zmd i).zones i).flags.gc ≡ true
unfolding take_victim
taken-gc zmd i = ground arith

taken_metadata :
    (zmd : ZoneMetadata) (mod' : VictimMod) (i : ℕ)
    → choose_victim zmd mod' ≡ some i
    → (find_victim_zone zmd mod').1 ≡ take_victim zmd i
unfolding find_victim_zone
taken_metadata zmd mod' i e = ground (arith, e)

module _ (now : ℕ) (c : GcContext) (k : Counters) where
  idle_ends : {zmd : ZoneMetadata} → Inv zmd → RoundEnds (some (idle c zmd k))
  unfolding idle
  idle_ends {zmd} v = (idle c zmd k, refl, v, refl)

  collect_ends :
      {zmd : ZoneMetadata} (i : ℕ)
      → Inv zmd
      → Scannable (zmd.zones i)
      → (zmd.zones i).flags.gc ≡ true
      → RoundEnds (collect now c zmd k i)
  unfolding collect is_busy
  collect_ends {zmd} i v s g =
      let (r, e, _, _, _, v', kept) = gc_one_zone_lem zmd k i v s.0 s.1 s.2 in
      (
        record {
          ctx = record {
            gc_state = record (c.gc_state) { emergency = false };
            last_jiffies = now;
            gc_times = inc64 c.gc_times;
            gc_zone = some i;
          };
          zmd = r.zmd;
          counters = r.counters;
          submitted = r.submitted;
          again = true;
        },
        rw e refl,
        v',
        ground (arith, kept, g),
      )

  reclaim-none :
      (zmd : ZoneMetadata) (mod' : VictimMod)
      → choose_victim zmd mod' ≡ none
      → reclaim now c zmd k mod' ≡ some (idle c zmd k)
  unfolding reclaim find_victim_zone
  reclaim-none zmd mod' e = ground (arith, e)

  reclaim-some :
      (zmd : ZoneMetadata) (mod' : VictimMod) (i : ℕ)
      → choose_victim zmd mod' ≡ some i
      → reclaim now c zmd k mod' ≡ collect now c (take_victim zmd i) k i
  unfolding reclaim find_victim_zone
  reclaim-some zmd mod' i e = ground (arith, e)

  reclaim_ends :
      {zmd : ZoneMetadata} (mod' : VictimMod)
      → Inv zmd
      → Counted zmd.zones zmd.full_zone_list
      → zmd.zone_nr_blocks < 2 ^ 31
      → ((i : ℕ) → Scannable (zmd.zones i))
      → RoundEnds (reclaim now c zmd k mod')
  reclaim_ends {zmd} mod' v counted small s =
      let kept = find_victim_zone-Inv mod' v counted small in
      elim (Option-cases (choose_victim zmd mod')) [
        | inl e ↦ rw (reclaim-none zmd mod' e) (idle_ends v)
        | inr (i, e) ↦ rw (reclaim-some zmd mod' i e) (
            collect_ends i (rw (taken_metadata zmd mod' i e) at kept) (taken_Scannable zmd i (s i))
              (taken-gc zmd i))
      ]

  -- Where each zone's reverse map reaches past its write pointer and the weights are counts, a round of
  -- the collector faults nowhere and keeps the invariant of the zone metadata. If it collected a zone, and
  -- so goes round again, that zone is still marked, and holds the next round back.
  pub gc_round_ends :
      (hz : ℕ) (faulty ready : Bool) {zmd : ZoneMetadata}
      → Inv zmd
      → Counted zmd.zones zmd.full_zone_list
      → zmd.zone_nr_blocks < 2 ^ 31
      → ((i : ℕ) → Scannable (zmd.zones i))
      → RoundEnds (gc_round hz now faulty ready c zmd k)
  unfolding gc_round
  gc_round_ends hz faulty ready {zmd} v counted small s = elim (Bool-cases (faulty || not ready)) [
    | inl stop ↦ rw stop (idle_ends v)
    | inr go ↦ rw go (elim (Option-cases (choose_mod hz now zmd c)) [
      | inl none_chosen ↦ rw none_chosen (idle_ends v)
      | inr (mod', chosen) ↦ rw chosen (elim (Bool-cases (c.gc_state.exit || is_busy zmd c)) [
        | inl wait ↦ rw wait (idle_ends v)
        | inr start ↦ rw start (reclaim_ends mod' v counted small s)
      ])
    ])
  ]
