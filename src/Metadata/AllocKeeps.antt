-- ===== src/Metadata/AllocKeeps.antt =====
-- `lbz_zone_alloc_res` keeps the invariant.
use lbz.Prelude.{
  ℕ, suc, ◌+◌, ◌%◌, ◌≤◌, ◌<◌, ◌≡◌, refl, List, [], ◌∷◌, none, some, length, update, dec_lt,
  Option-cases, inl, inr, arith,
}
use lbz.Prelude.Words.{word, inc32, dec32, dec32_lem}
use lbz.Zone.{Zone, get_zone, put_zone, pending_write, alloc_block}
use lbz.Metadata.{ZoneMetadata, get_free_zone}
use lbz.Metadata.Alloc.{activate, charge, retire, take_block, drop_active, replace_active, usable}
use lbz.Metadata.Places.{held, space, space-update, le-space, space-le}
use lbz.Metadata.Invariant.{places, Placed, Inv, Inv-of_same_sizes, zone_nr_blocks-lt}

-- What an operation on one zone leaves of its write pointer and flags.
pub wp-charge : (z : Zone) → z.wp_block + 1 < word → (charge z).wp_block ≡ z.wp_block + 1
unfolding charge alloc_block pending_write get_zone inc32
wp-charge z h = omega arith

pub flags-charge : (z : Zone) → (charge z).flags ≡ z.flags
unfolding charge alloc_block pending_write get_zone
flags-charge z = refl

pub wp-put_zone : (z : Zone) → (put_zone z).wp_block ≡ z.wp_block
unfolding put_zone
wp-put_zone z = ground arith

pub flags-put_zone : (z : Zone) → (put_zone z).flags ≡ z.flags
unfolding put_zone
flags-put_zone z = ground arith

pub wp-retire : (z : Zone) → (retire z).wp_block ≡ z.wp_block
unfolding retire
wp-retire z = wp-put_zone _

pub gc-retire : (z : Zone) → (retire z).flags.gc ≡ z.flags.gc
unfolding retire
gc-retire z = grind (arith, flags-put_zone)

pub wp-activate : (i : ℕ) (z : Zone) → (activate i z).wp_block ≡ z.wp_block
unfolding activate get_zone
wp-activate i z = refl

flags-activate :
    (i : ℕ) (z : Zone)
    → ((activate i z).flags.gc ≡ z.flags.gc) × ((activate i z).flags.to_full ≡ z.flags.to_full)
unfolding activate get_zone
flags-activate i z = (refl, refl)

take_block_sizes :
    (zmd : ZoneMetadata) (s i : ℕ)
    → ((take_block zmd s i).zone_nr_blocks ≡ zmd.zone_nr_blocks)
      × ((take_block zmd s i).nr_zones ≡ zmd.nr_zones)
unfolding take_block
take_block_sizes zmd s i = ground arith

module _ {zmd : ZoneMetadata} (s i : ℕ) (v : Inv zmd) (stream : s < 2)
    (here : zmd.active_zone s ≡ some i) where
  pub held_here : 0 < held (zmd.active_zone 0) i + held (zmd.active_zone 1) i
  held_here = ground arith

  pub active_lt : i < zmd.nr_zones
  active_lt = elim (dec_lt i zmd.nr_zones) [
    | yes h ↦ h
    | no h ↦ absurd (omega (arith, v.outside i (omega arith), held_here))
  ]

  take_block-Placed : (j : ℕ) → j < zmd.nr_zones → Placed (take_block zmd s i) j
  unfolding take_block
  take_block-Placed j h = ground (
    arith,
    v.zone j h,
    v.zone i active_lt,
    held_here,
    zone_nr_blocks-lt i v active_lt,
    wp-charge (zmd.zones i),
    flags-charge (zmd.zones i),
    wp-retire (charge (zmd.zones i)),
    gc-retire (charge (zmd.zones i)),
  )

  take_block-outside : (j : ℕ) → zmd.nr_zones ≤ j → places (take_block zmd s i) j ≡ 0
  unfolding take_block
  take_block-outside j h = ground (arith, v.outside j h)

  take_block-allocable :
      (take_block zmd s i).nr_allocable_blks
      ≡ space zmd.zone_nr_blocks (take_block zmd s i).zones zmd.nr_zones
  unfolding take_block
  take_block-allocable = ground (
    arith,
    v.allocable,
    v.zone i active_lt,
    held_here,
    zone_nr_blocks-lt i v active_lt,
    space-update zmd.zone_nr_blocks zmd.zones zmd.nr_zones i (charge (zmd.zones i)) active_lt,
    space-update zmd.zone_nr_blocks zmd.zones zmd.nr_zones i (retire (charge (zmd.zones i)))
        active_lt,
    space-le zmd.zone_nr_blocks zmd.zones zmd.nr_zones,
    v.small,
    le-space zmd.zone_nr_blocks zmd.zones zmd.nr_zones i active_lt,
    wp-charge (zmd.zones i),
    wp-retire (charge (zmd.zones i)),
    dec32_lem zmd.nr_allocable_blks,
  )

  pub take_block-Inv : Inv (take_block zmd s i)
  take_block-Inv =
      Inv-of_same_sizes v sizes.0 sizes.1 take_block-Placed take_block-outside lists.0 lists.1
        take_block-allocable
    where
      sizes :
          ((take_block zmd s i).zone_nr_blocks ≡ zmd.zone_nr_blocks)
          × ((take_block zmd s i).nr_zones ≡ zmd.nr_zones)
      sizes = take_block_sizes zmd s i

      lists :
          ((take_block zmd s i).empty_zone_count
            ≡ length (take_block zmd s i).empty_zone_list % word)
          × ((take_block zmd s i).full_zone_count
              ≡ length (take_block zmd s i).full_zone_list % word)
      lists = unfold take_block in ground (arith, v.empty_counted, v.full_counted)

-- With the invariant an active zone has room, so only an absent one is replaced.
pub active_of_unusable :
    {zmd : ZoneMetadata} (s : ℕ) → Inv zmd → s < 2 → usable zmd s ≡ none → zmd.active_zone s ≡ none
unfolding usable
active_of_unusable {zmd} s v h e = elim (Option-cases (zmd.active_zone s)) [
  | inl z ↦ z
  | inr (i, z) ↦ ground (arith, z, v.zone i (active_lt s i v h z), held_here s i v h z)
]

dec32_counted : (c n : ℕ) → c ≡ suc n % word → dec32 c ≡ n % word
unfolding dec32
dec32_counted c n h = omega arith

-- What is left when zone `i` was taken from the head of the empty zones for stream `s`.
abbrev pub activated : ZoneMetadata → ℕ → ℕ → List ℕ → ZoneMetadata
activated zmd s i rest = record zmd {
  zones = update zmd.zones i (activate s (zmd.zones i));
  empty_zone_list = rest;
  empty_zone_count = dec32 zmd.empty_zone_count;
  active_zone = update zmd.active_zone s (some i);
}

pub replace_active-cons :
    (zmd : ZoneMetadata) (s i : ℕ) (rest : List ℕ)
    → zmd.active_zone s ≡ none
    → zmd.empty_zone_list ≡ i ∷ rest
    → replace_active zmd s ≡ (some i, activated zmd s i rest)
unfolding replace_active drop_active get_free_zone
replace_active-cons zmd s i rest gone e = ground arith

pub replace_active-nil :
    (zmd : ZoneMetadata) (s : ℕ)
    → zmd.active_zone s ≡ none
    → zmd.empty_zone_list ≡ []
    → replace_active zmd s ≡ (none, record zmd { active_zone = update zmd.active_zone s none })
unfolding replace_active drop_active get_free_zone
replace_active-nil zmd s gone e = ground arith

module _ {zmd : ZoneMetadata} (s : ℕ) (v : Inv zmd) (stream : s < 2)
    (gone : zmd.active_zone s ≡ none) where
  pub without-Inv : Inv (record zmd { active_zone = update zmd.active_zone s none })
  without-Inv = record {
    blocks_pos = v.blocks_pos;
    small = v.small;
    zone = λ j h. ground (arith, v.zone j h);
    outside = λ j h. ground (arith, v.outside j h);
    empty_counted = v.empty_counted;
    full_counted = v.full_counted;
    allocable = v.allocable;
  }

  module _ (i : ℕ) (rest : List ℕ) (e : zmd.empty_zone_list ≡ i ∷ rest) where
    pub empty_lt : i < zmd.nr_zones
    empty_lt = elim (dec_lt i zmd.nr_zones) [
      | yes h ↦ h
      | no h ↦ absurd (ground (arith, v.outside i (omega arith)))
    ]

    pub activated-Inv : Inv (activated zmd s i rest)
    activated-Inv = record {
      blocks_pos = v.blocks_pos;
      small = v.small;
      zone = λ j h. ground (
        arith,
        v.zone j h,
        v.zone i empty_lt,
        v.blocks_pos,
        wp-activate s (zmd.zones i),
        flags-activate s (zmd.zones i),
      );
      outside = λ j h. ground (arith, v.outside j h, empty_lt);
      empty_counted =
          ground (arith, v.empty_counted, dec32_counted zmd.empty_zone_count (length rest));
      full_counted = v.full_counted;
      allocable = ground (
        arith,
        v.allocable,
        wp-activate s (zmd.zones i),
        space-update zmd.zone_nr_blocks zmd.zones zmd.nr_zones i (activate s (zmd.zones i))
            empty_lt,
      );
    }
