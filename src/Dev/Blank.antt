-- ===== src/Dev/Blank.antt =====
-- The zones that `lbz_init_zone_metadata` makes: as many as the queue says, and their reverse maps blank.
use mathlib.Core.Path.{subst}
use lbz.Prelude.{
  ℕ, ◌+◌, ◌≡◌, refl, sym, ◌∙◌, List, [], ◌∷◌, some, inl, inr, Option-cases, update, replicate, ◌==◌,
  if◌then◌else◌, Bool-cases, arith,
}
use lbz.Prelude.Words.{add32}
use lbz.Zone.{Zone, ZoneCond, get_zone}
use lbz.Metadata.{ZoneMetadata, add_to_full_list, add_to_empty_list}
use lbz.Metadata.Worker.{blank_page}
use lbz.Metadata.Init.{
  BlkZone, init_by_first_zone, new_zone, free_stream, place_zone, apply_cond, init_zone, init_zones,
  set_watermarks, empty_metadata, init_zone_metadata,
}
use lbz.IoScheduler.Fresh.{IsBlank}

-- Both hold of the metadata so far.
record IsBlankOf (n : ℕ) (zmd : ZoneMetadata) : Type 0 where
  zones_eq : zmd.nr_zones ≡ n
  blank : IsBlank zmd

place_zone-keeps :
    (zmd : ZoneMetadata) (num : ℕ) (b : BlkZone) (z : Zone) {z' : Zone} {zmd' : ZoneMetadata}
    → place_zone zmd num b z ≡ some (z', zmd')
    → (z'.zrms ≡ z.zrms) × (zmd'.zones ≡ zmd.zones) × (zmd'.nr_zones ≡ zmd.nr_zones)
unfolding place_zone add_to_full_list add_to_empty_list get_zone
place_zone-keeps zmd num b z e = elim (Option-cases (free_stream zmd)) [
  | inl f ↦ (ground (arith, f), ground (arith, f), ground (arith, f))
  | inr (i, f) ↦ (ground (arith, f), ground (arith, f), ground (arith, f))
]

apply_cond-keeps :
    (c : ZoneCond) (z : Zone) (zmd : ZoneMetadata)
    → ((apply_cond c z zmd).0.zrms ≡ z.zrms)
      × ((apply_cond c z zmd).1.zones ≡ zmd.zones)
      × ((apply_cond c z zmd).1.nr_zones ≡ zmd.nr_zones)
unfolding apply_cond
apply_cond-keeps ZoneCond.offline z zmd = (refl, refl, refl)
apply_cond-keeps ZoneCond.read_only z zmd = (refl, refl, refl)
apply_cond-keeps _ z zmd = (refl, refl, refl)

sized-keeps :
    (ilog2 : ℕ → ℕ) (num : ℕ) (b : BlkZone) (zmd : ZoneMetadata)
    → let sized = if num == 0 then init_by_first_zone ilog2 zmd b else zmd in
      (sized.zones ≡ zmd.zones) × (sized.nr_zones ≡ zmd.nr_zones)
unfolding init_by_first_zone
sized-keeps ilog2 num b zmd = elim (Bool-cases (num == 0)) [
  | inl z ↦ (rw z refl, rw z refl)
  | inr z ↦ (rw z refl, rw z refl)
]

new_zone-zrms :
    (zmd : ZoneMetadata) (num : ℕ) (b : BlkZone)
    → (new_zone zmd num b).zrms ≡ replicate zmd.zone_nr_reverse_map_blocks blank_page
unfolding new_zone
new_zone-zrms zmd num b = refl

-- A zone with a blank reverse map is stored among such.
store-IsBlank :
    (zmd placed : ZoneMetadata) (num count : ℕ) (z : Zone)
    → IsBlank zmd
    → placed.zones ≡ zmd.zones
    → z.zrms ≡ replicate count blank_page
    → (i : ℕ) → (c : ℕ) × ((update placed.zones num z i).zrms ≡ replicate c blank_page)
store-IsBlank zmd placed num count z v same e i = elim (Bool-cases (num == i)) [
  | inl here ↦ (count, rw here e)
  | inr there ↦ let (c, q) = v i in (c, rw there (rw same q))
]

init_zone-IsBlankOf :
    (ilog2 : ℕ → ℕ) (num : ℕ) (b : BlkZone) (n : ℕ) (zmd : ZoneMetadata) {zmd' : ZoneMetadata}
    → IsBlankOf n zmd
    → init_zone ilog2 num b zmd ≡ some zmd'
    → IsBlankOf n zmd'
unfolding init_zone
init_zone-IsBlankOf ilog2 num b n zmd {zmd'} v e =
    let sized = if num == 0 then init_by_first_zone ilog2 zmd b else zmd in
    let fresh = new_zone sized num b in
    elim (Option-cases (place_zone sized num b fresh)) [
      | inl p ↦ absurd (ground (arith, p, e))
      | inr ((z, placed), p) ↦
          let (zrms_eq, zones_eq, nr_eq) = place_zone-keeps sized num b fresh p in
          let valid = record placed { nr_valid_blks = add32 placed.nr_valid_blks z.wp_block } in
          let (zrms', zones', nr') = apply_cond-keeps b.cond z valid in
          let (sized_zones, sized_nr) = sized-keeps ilog2 num b zmd in
          let stored : zmd'.zones
              ≡ update (apply_cond b.cond z valid).1.zones num (apply_cond b.cond z valid).0 =
            ground (arith, p, e) in
          record {
            zones_eq = ground (arith, p, e, nr_eq, nr', sized_nr, v.zones_eq);
            blank =
                subst (λ (f : ℕ → Zone). (i : ℕ) → (c : ℕ) × ((f i).zrms ≡ replicate c blank_page))
                  (sym stored)
                  (store-IsBlank zmd (apply_cond b.cond z valid).1 num
                    sized.zone_nr_reverse_map_blocks (apply_cond b.cond z valid).0 v.blank
                    (zones' ∙ zones_eq ∙ sized_zones)
                    (zrms' ∙ zrms_eq ∙ new_zone-zrms sized num b));
          }
    ]

init_zones-IsBlankOf :
    (ilog2 : ℕ → ℕ) (num : ℕ) (bs : List BlkZone) (n : ℕ) (zmd : ZoneMetadata) {zmd' : ZoneMetadata}
    → IsBlankOf n zmd
    → init_zones ilog2 num bs zmd ≡ some zmd'
    → IsBlankOf n zmd'
unfolding init_zones
init_zones-IsBlankOf ilog2 num [] n zmd {zmd'} v e =
    let same : zmd ≡ zmd' = cc in subst (IsBlankOf n) same v
init_zones-IsBlankOf ilog2 num (b ∷ bs) n zmd v e =
    elim (Option-cases (init_zone ilog2 num b zmd)) [
      | inl z ↦ absurd (ground (arith, z, e))
      | inr (next, z) ↦
          init_zones-IsBlankOf ilog2 (num + 1) bs n next (init_zone-IsBlankOf ilog2 num b n zmd v z)
            (ground (arith, z, e))
    ]

-- The metadata have as many zones as the queue says, with blank reverse maps.
pub init_zone_metadata-IsBlank :
    (ilog2 : ℕ → ℕ) (blank : ZoneMetadata) (n zone_sectors : ℕ) (report : List BlkZone)
    (zmd : ZoneMetadata)
    → IsBlank blank
    → init_zone_metadata ilog2 blank n zone_sectors report ≡ some zmd
    → (zmd.nr_zones ≡ n) × IsBlank zmd
unfolding init_zone_metadata set_watermarks empty_metadata
init_zone_metadata-IsBlank ilog2 blank n zone_sectors report zmd v e =
    let start = empty_metadata blank n zone_sectors in
    elim (Option-cases (init_zones ilog2 0 report start)) [
      | inl z ↦ absurd (ground (arith, z, e))
      | inr (zones, z) ↦
          let w =
            init_zones-IsBlankOf ilog2 0 report n start (record { zones_eq = refl; blank = v }) z in
          let same : set_watermarks zones ≡ zmd = ground (arith, z, e) in
          subst (λ (x : ZoneMetadata). (x.nr_zones ≡ n) × IsBlank x) same (w.zones_eq, w.blank)
    ]
