-- ===== src/Metadata/VictimLaws.antt =====
-- `lbz_find_victim_zone` takes a full zone with the fewest valid blocks.
use lbz.Prelude.{
  ℕ, ◌+◌, ◌%◌, ◌^◌, ◌≤◌, ◌<◌, ◌≡◌, ◌≢◌, refl, List, [], ◌∷◌, Option, none, some, true, false,
  length, dec_lt, ◌⊎◌, inl, inr, if◌then◌else◌, arith, Option-cases, not, ◌&&◌, Bool-cases,
}
use lbz.Prelude.Words.{word, dec32, signed_lt, signed_lt_lem}
use lbz.Zone.{Zone, ZoneState, set_zone_state, get_zone}
use lbz.Metadata.{ZoneMetadata, check_zone_low_wm, list_del}
use lbz.Metadata.Victim.{
  VictimMod, is_regular, max_int, find_min, take_victim, choose_victim, find_victim_zone,
}
use lbz.Metadata.Places.{count, space-update, count-list_del, length-list_del}
use lbz.Metadata.Invariant.{Inv}

-- The weights of the zones in a list, as counts that are not negative.
abbrev pub Counted : (ℕ → Zone) → List ℕ → Type 0
Counted zones [] = Unit {0}
Counted zones (i ∷ is) = ((zones i).weight < 2 ^ 31) × Counted zones is

-- The result of the loop, started at `min_valid` and `min_zone`.
record Least (zones : ℕ → Zone) (is : List ℕ) (min_valid : ℕ) (min_zone : Option ℕ)
    (r : ℕ × Option ℕ) : Type 0 where
  below : r.0 ≤ min_valid
  least : (j : ℕ) → 0 < count j is → r.0 ≤ (zones j).weight
  found :
      ((r.0 ≡ min_valid) × (r.1 ≡ min_zone))
      ⊎ ((i : ℕ) × (r.1 ≡ some i) × (0 < count i is) × (r.0 ≡ (zones i).weight))

find_min-Least :
    (zones : ℕ → Zone) (is : List ℕ) (m : ℕ) (o : Option ℕ)
    → Counted zones is
    → m < 2 ^ 31
    → Least zones is m o (find_min zones is m o)
unfolding find_min
find_min-Least zones [] m o c h = record {
  below = omega arith;
  least = λ j h'. elim h' [ ];
  found = inl (refl, refl);
}
find_min-Least zones (i ∷ is) m o c h =
    let less = signed_lt_lem (zones i).weight m c.0 h in
    let rest =
      find_min-Least zones is (if signed_lt (zones i).weight m then (zones i).weight else m)
        (if signed_lt (zones i).weight m then some i else o) c.1 (ground (arith, c.0)) in
    record {
      below = ground (arith, rest.below, less);
      least = λ j h'. ground (arith, rest.below, rest.least j, less);
      found = elim rest.found [
        | inr (j, a, b, w) ↦ inr (j, a, omega arith, w)
        | inl (a, b) ↦ elim (Bool-cases (signed_lt (zones i).weight m)) [
          | inl t ↦ inr (i, ground arith, ground arith, ground arith)
          | inr f ↦ inl (ground arith, ground arith)
        ]
      ];
    }

-- The zone chosen stands in the list of full zones, has no more valid blocks than any other there, and
-- fewer than a zone holds; in the regular mode at most the watermark's share of a zone.
record Chosen (zmd : ZoneMetadata) (mod' : VictimMod) (i : ℕ) : Type 0 where
  listed : 0 < count i zmd.full_zone_list
  least : (j : ℕ) → 0 < count j zmd.full_zone_list → (zmd.zones i).weight ≤ (zmd.zones j).weight
  worth : (zmd.zones i).weight < zmd.zone_nr_blocks
  watermark : is_regular mod' ≡ true → check_zone_low_wm zmd (zmd.zones i) ≡ true

module _ (zmd : ZoneMetadata) (mod' : VictimMod)
    (counted : Counted zmd.zones zmd.full_zone_list) where
  Least-of_full :
      Least zmd.zones zmd.full_zone_list max_int none
        (find_min zmd.zones zmd.full_zone_list max_int none)
  Least-of_full = find_min-Least zmd.zones zmd.full_zone_list max_int none counted (omega arith)

  choose_victim_of_find :
      {i : ℕ} → (find_victim_zone zmd mod').0 ≡ some i → choose_victim zmd mod' ≡ some i
  unfolding find_victim_zone
  choose_victim_of_find e = ground arith

  choose_victim-Chosen :
      (i : ℕ) → zmd.zone_nr_blocks < 2 ^ 31 → choose_victim zmd mod' ≡ some i → Chosen zmd mod' i
  unfolding choose_victim
  choose_victim-Chosen i small e = elim Least-of_full.found [
    | inl (a, b) ↦ absurd (ground arith)
    | inr (k, a, b, w) ↦
        let k≡i : k ≡ i = ground arith in
        rw (← k≡i) (record {
          listed = b;
          least = λ j h. omega (arith, Least-of_full.least j h);
          worth = ground arith;
          watermark = λ r. ground arith;
        })
  ]

  -- Where a zone has fewer than 2 ^ 31 blocks, a victim comes from the list of full zones. It holds no more valid blocks than any zone `j` there,
  -- and fewer than a zone has; in the regular mode it is at or below the zone watermark.
  pub find_victim_zone-least :
      (i j : ℕ)
      → zmd.zone_nr_blocks < 2 ^ 31
      → (find_victim_zone zmd mod').0 ≡ some i
      → 0 < count j zmd.full_zone_list
      → ((zmd.zones i).weight ≤ (zmd.zones j).weight)
        × ((zmd.zones i).weight < zmd.zone_nr_blocks)
        × (0 < count i zmd.full_zone_list)
        × ((is_regular mod' && not (check_zone_low_wm zmd (zmd.zones i))) ≡ false)
  find_victim_zone-least i j small e h =
      let c = choose_victim-Chosen i small (choose_victim_of_find e) in
      ground (arith, c.least j h, c.worth, c.listed, c.watermark)

  -- Where a zone has fewer than 2 ^ 31 blocks, outside the regular mode a victim is found whenever some full zone has a block that is not valid.
  pub find_victim_zone_complete :
      (j : ℕ)
      → is_regular mod' ≡ false
      → 0 < count j zmd.full_zone_list
      → (zmd.zones j).weight < zmd.zone_nr_blocks
      → zmd.zone_nr_blocks < 2 ^ 31
      → (find_victim_zone zmd mod').0 ≢ none
  unfolding find_victim_zone choose_victim
  find_victim_zone_complete j r h w small e = elim Least-of_full.found [
    | inl (a, b) ↦ absurd (ground (arith, Least-of_full.least j h))
    | inr (k, a, b, c) ↦ absurd (ground (arith, Least-of_full.least j h))
  ]

gc-get_zone : (z : Zone) → ((get_zone z).wp_block ≡ z.wp_block) × ((get_zone z).flags ≡ z.flags)
unfolding get_zone
gc-get_zone z = (refl, refl)

dec32_counted : (c n m : ℕ) → c ≡ m % word → n + 1 ≡ m → dec32 c ≡ n % word
unfolding dec32
dec32_counted c n m h k = omega arith

-- Taking a victim keeps the invariant: the zone leaves its list before it is marked.
take_victim-Inv :
    {zmd : ZoneMetadata} (i : ℕ)
    → Inv zmd
    → 0 < count i zmd.full_zone_list
    → Inv (take_victim zmd i)
unfolding take_victim
take_victim-Inv {zmd} i v h =
    let marked = gc-get_zone (zmd.zones i) in
    let lt : i < zmd.nr_zones = elim (dec_lt i zmd.nr_zones) [
      | yes k ↦ k
      | no k ↦ absurd (omega (arith, v.outside i (omega arith)))
    ] in
    record {
      blocks_pos = v.blocks_pos;
      small = v.small;
      zone = λ j k.
          ground
            (arith, v.zone j k, v.zone i lt, marked, count-list_del j i zmd.full_zone_list h, h);
      outside = λ j k. ground (arith, v.outside j k, count-list_del j i zmd.full_zone_list h);
      empty_counted = v.empty_counted;
      full_counted =
          dec32_counted zmd.full_zone_count (length (list_del i zmd.full_zone_list))
            (length zmd.full_zone_list) v.full_counted (length-list_del i zmd.full_zone_list h);
      allocable = ground (
        arith,
        v.allocable,
        marked,
        space-update zmd.zone_nr_blocks zmd.zones zmd.nr_zones i
            (set_zone_state ZoneState.gc (get_zone (zmd.zones i))) lt,
      );
    }

-- `lbz_find_victim_zone` keeps the invariant of the zone metadata.
pub find_victim_zone-Inv :
    {zmd : ZoneMetadata} (mod' : VictimMod)
    → Inv zmd
    → Counted zmd.zones zmd.full_zone_list
    → zmd.zone_nr_blocks < 2 ^ 31
    → Inv (find_victim_zone zmd mod').1
unfolding find_victim_zone
find_victim_zone-Inv {zmd} mod' v c small = elim (Option-cases (choose_victim zmd mod')) [
  | inl e ↦ rw (e, find_victim_zone) v
  | inr (i, e) ↦
      rw (e, find_victim_zone)
        (take_victim-Inv i v (choose_victim-Chosen zmd mod' c i small e).listed)
]
