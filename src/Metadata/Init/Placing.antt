-- ===== src/Metadata/Init/Placing.antt =====
-- What a zone of the report becomes in `lbz_init_zone`: empty, open or full.
use lbz.Prelude.{
  ℕ, ◌+◌, ◌-◌, ◌/◌, ◌%◌, ◌≤◌, ◌<◌, ◌≡◌, refl, List, [], ◌∷◌, none, some, length, update, false,
  Bool-cases, inl, inr, Option-cases, ◌⊎◌, ◌∙◌, length-append, ◌==◌, ltb, if◌then◌else◌, arith,
}
use lbz.Prelude.Words.{word, long_word, add32, sub32, inc32}
use lbz.Block.{sector_to_blkid}
use lbz.Zone.{Zone, ZoneCond, ZoneState, get_zone, set_zone_state}
use lbz.Metadata.{ZoneMetadata, add_to_full_list, add_to_empty_list}
use lbz.Metadata.Init.{BlkZone, new_zone, is_absent, free_stream, place_zone}
use lbz.Metadata.Places.{count, count-append, held, space}
use lbz.Metadata.Invariant.{Placed, places}

-- A zone of a report in which each has the capacity `cap`.
pub record IsZone (cap : ℕ) (b : BlkZone) : Type 0 where
  pub capacity_eq : b.capacity ≡ cap
  pub start_le : b.start ≤ b.wp
  pub wp_le : b.wp ≤ b.start + cap
  pub fits : b.start + cap < long_word

abbrev pub AreZones : ℕ → List BlkZone → Type 0
AreZones cap [] = Unit {0}
AreZones cap (b ∷ bs) = IsZone cap b × AreZones cap bs

-- The blocks written in a zone.
abbrev pub written : BlkZone → ℕ
written b = (b.wp - b.start) / 8

-- The zones of a report that are written in part.
abbrev pub open_zones : ℕ → List BlkZone → ℕ
open_zones cap [] = 0
open_zones cap (b ∷ bs) =
    (if written b == 0 then 0 else if ltb (written b) (cap / 8) then 1 else 0) + open_zones cap bs

abbrev pub streams : ZoneMetadata → ℕ
streams zmd =
    elim (zmd.active_zone 0) [ none ↦ 0 | some _ ↦ 1 ]
    + elim (zmd.active_zone 1) [ none ↦ 0 | some _ ↦ 1 ]

-- The metadata after the first `num` zones of a report, while `left` open zones are to come.
pub record Started (nr total num left : ℕ) (zmd : ZoneMetadata) : Type 0 where
  pub blocks : zmd.zone_nr_blocks ≡ nr
  pub zones_eq : zmd.nr_zones ≡ total
  pub zone : (i : ℕ) → i < num → Placed zmd i
  pub outside : (i : ℕ) → num ≤ i → places zmd i ≡ 0
  pub empty_counted : zmd.empty_zone_count ≡ length zmd.empty_zone_list % word
  pub full_counted : zmd.full_zone_count ≡ length zmd.full_zone_list % word
  pub allocable : zmd.nr_allocable_blks ≡ space nr zmd.zones num
  pub open_left : streams zmd + left ≤ 2

pub new_zone_wp :
    (zmd : ZoneMetadata) (num cap : ℕ) (b : BlkZone)
    → IsZone cap b
    → cap < word
    → ((new_zone zmd num b).wp_block ≡ written b)
      × (written b ≤ cap / 8)
      × (sector_to_blkid b.capacity ≡ cap / 8)
unfolding new_zone sector_to_blkid
new_zone_wp zmd num cap b v h = (
  omega (arith, v.capacity_eq, v.start_le, v.wp_le, v.fits),
  omega (arith, v.wp_le, v.start_le),
  omega (arith, v.capacity_eq),
)

pub new_zone-flags :
    (zmd : ZoneMetadata) (num : ℕ) (b : BlkZone)
    → ((new_zone zmd num b).flags.to_full ≡ false) × ((new_zone zmd num b).flags.gc ≡ false)
unfolding new_zone
new_zone-flags zmd num b = (refl, refl)

-- What `place_zone` does for the zone `num`, as far as the invariant looks at it.
pub record Put (nr num w : ℕ) (zmd : ZoneMetadata) (z : Zone) (zmd' : ZoneMetadata) : Type 0 where
  pub wp : z.wp_block ≡ w
  pub to_full : z.flags.to_full ≡ false
  pub gc : z.flags.gc ≡ false
  pub blocks : zmd'.zone_nr_blocks ≡ zmd.zone_nr_blocks
  pub zones_eq : zmd'.nr_zones ≡ zmd.nr_zones
  pub zones : zmd'.zones ≡ zmd.zones
  pub moved :
      (i : ℕ)
      → (count i zmd'.empty_zone_list
          ≡ count i zmd.empty_zone_list + (if num == i then (if w == 0 then 1 else 0) else 0))
        × (count i zmd'.full_zone_list
            ≡ count i zmd.full_zone_list + (if num == i then (if ltb w nr then 0 else 1) else 0))
        × (held (zmd'.active_zone 0) i + held (zmd'.active_zone 1) i
            ≡ held (zmd.active_zone 0) i
              + held (zmd.active_zone 1) i
              + (if num == i then (if w == 0 then 0 else if ltb w nr then 1 else 0) else 0))
  pub empty_counted : zmd'.empty_zone_count ≡ length zmd'.empty_zone_list % word
  pub full_counted : zmd'.full_zone_count ≡ length zmd'.full_zone_list % word
  pub allocable : zmd'.nr_allocable_blks ≡ zmd.nr_allocable_blks + (nr - w)
  pub open_eq : streams zmd' ≡ streams zmd + (if w == 0 then 0 else if ltb w nr then 1 else 0)

abbrev as_empty : Zone → Zone
as_empty z = set_zone_state ZoneState.init (record z { state = ZoneCond.empty })

abbrev as_open : ℕ → Zone → Zone
as_open i z =
    record (set_zone_state ZoneState.active (get_zone (record z { state = ZoneCond.imp_open }))) {
      stream = some i;
    }

abbrev as_full : Zone → Zone
as_full z = set_zone_state ZoneState.full (record z { state = ZoneCond.full })

abbrev with_empty : ZoneMetadata → ℕ → ZoneMetadata
with_empty zmd num =
    add_to_empty_list
      (record zmd { nr_allocable_blks = add32 zmd.nr_allocable_blks zmd.zone_nr_blocks }) num

abbrev with_open : ZoneMetadata → (num i w : ℕ) → ZoneMetadata
with_open zmd num i w = record zmd {
  active_zone = update zmd.active_zone i (some num);
  nr_allocable_blks = add32 zmd.nr_allocable_blks (sub32 zmd.zone_nr_blocks w);
}

module _ {nr total num left : ℕ} {zmd : ZoneMetadata} (v : Started nr total num left zmd)
    (sp : space nr zmd.zones num + nr < word) where
  with_empty-Put :
      (z : Zone)
      → 0 < nr
      → z.wp_block ≡ 0
      → z.flags.to_full ≡ false
      → z.flags.gc ≡ false
      → Put nr num 0 zmd (as_empty z) (with_empty zmd num)
  unfolding add_to_empty_list add32 inc32
  with_empty-Put z pos e tf g = record {
    wp = e;
    to_full = tf;
    gc = g;
    blocks = refl;
    zones_eq = refl;
    zones = refl;
    moved = λ i. ground (arith, count-append i zmd.empty_zone_list (num ∷ []), pos);
    empty_counted = ground (arith, v.empty_counted, length-append zmd.empty_zone_list (num ∷ []));
    full_counted = v.full_counted;
    allocable = ground (arith, v.allocable, v.blocks, sp);
    open_eq = ground arith;
  }

  with_full-Put :
      (z : Zone)
      → z.wp_block ≡ nr
      → z.flags.to_full ≡ false
      → z.flags.gc ≡ false
      → 0 < nr
      → Put nr num nr zmd (as_full z) (add_to_full_list zmd num)
  unfolding add_to_full_list inc32
  with_full-Put z e tf g pos = record {
    wp = e;
    to_full = tf;
    gc = g;
    blocks = refl;
    zones_eq = refl;
    zones = refl;
    moved = λ i. ground (arith, pos);
    empty_counted = v.empty_counted;
    full_counted = ground (arith, v.full_counted);
    allocable = ground (arith, pos);
    open_eq = ground (arith, pos);
  }

  with_open-Put :
      (i w : ℕ) (z : Zone)
      → z.wp_block ≡ w
      → 0 < w
      → w < nr
      → z.flags.to_full ≡ false
      → z.flags.gc ≡ false
      → (i ≡ 0) ⊎ (i ≡ 1)
      → zmd.active_zone i ≡ none
      → Put nr num w zmd (as_open i z) (with_open zmd num i w)
  unfolding get_zone add32 sub32
  with_open-Put i w z e pos lt tf g one free = record {
    wp = e;
    to_full = tf;
    gc = g;
    blocks = refl;
    zones_eq = refl;
    zones = refl;
    moved = λ j. ground (arith, one, free, pos, lt);
    empty_counted = v.empty_counted;
    full_counted = v.full_counted;
    allocable = ground (arith, v.allocable, v.blocks, sp, pos, lt);
    open_eq = ground (arith, one, free, pos, lt);
  }

  free_stream-some :
      streams zmd < 2
      → (i : ℕ) × (free_stream zmd ≡ some i) × ((i ≡ 0) ⊎ (i ≡ 1)) × (zmd.active_zone i ≡ none)
  unfolding free_stream is_absent
  free_stream-some h = elim (Option-cases (zmd.active_zone 0)) [
    | inl e ↦ (0, ground (arith, e), inl refl, e)
    | inr (a, e) ↦ elim (Option-cases (zmd.active_zone 1)) [
      | inl f ↦ (1, ground (arith, e, f), inr refl, f)
      | inr (c, f) ↦ absurd (ground (arith, h, e, f))
    ]
  ]

  -- The three ways to place a zone of which `w` blocks are written.
  pub place_zone-Put :
      (w : ℕ) (b : BlkZone) (z : Zone)
      → sector_to_blkid b.capacity ≡ nr
      → z.wp_block ≡ w
      → w ≤ nr
      → 0 < nr
      → z.flags.to_full ≡ false
      → z.flags.gc ≡ false
      → streams zmd + (if w == 0 then 0 else if ltb w nr then 1 else 0) ≤ 2
      → (z' : Zone) × (zmd' : ZoneMetadata) × (place_zone zmd num b z ≡ some (z', zmd'))
        × Put nr num w zmd z' zmd'
  unfolding place_zone
  place_zone-Put w b z size at le pos tf g room = elim (Bool-cases (w == 0)) [
    | inl none_written ↦
        let zero : w ≡ 0 = ground (arith, none_written) in
        (
          as_empty z,
          with_empty zmd num,
          rw (at, none_written) refl,
          rw zero (with_empty-Put z pos (at ∙ zero) tf g),
        )
    | inr some_written ↦ elim (Bool-cases (ltb w nr)) [
      | inl part ↦
          let (i, free, one, absent) =
            free_stream-some (ground (arith, room, some_written, part)) in
          (
            as_open i z,
            with_open zmd num i w,
            rw (at, some_written, size, part, free) refl,
            with_open-Put i w z at (ground (arith, some_written)) (ground (arith, part)) tf g one
                absent,
          )
      | inr whole ↦
          let full : w ≡ nr = ground (arith, le, whole) in
          (
            as_full z,
            add_to_full_list zmd num,
            rw (at, some_written, size, whole) refl,
            rw full (with_full-Put z (at ∙ full) tf g pos),
          )
    ]
  ]
