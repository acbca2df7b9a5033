-- ===== src/Metadata/Init/Report.antt =====
-- `lbz_init_zone_metadata` establishes the invariant of the zone metadata.
use native.Mathlib.Nat.{mul-le-mul_right}
use mathlib.Core.Path.{subst}
use lbz.Prelude.{
  ℕ, suc, ◌+◌, ◌*◌, ◌/◌, ◌^◌, ◌≤◌, ◌<◌, ◌≡◌, refl, List, [], ◌∷◌, some, length, false, sym, ◌==◌,
  ltb, if◌then◌else◌, arith,
}
use lbz.Prelude.Words.{word}
use lbz.Block.{sector_to_blkid}
use lbz.Zone.{Zone}
use lbz.Metadata.{ZoneMetadata}
use lbz.Metadata.Init.{
  BlkZone, init_by_first_zone, new_zone, place_zone, init_zone, init_zones, set_watermarks,
  empty_metadata, init_zone_metadata,
}
use lbz.Metadata.Places.{space, space-le}
use lbz.Metadata.Invariant.{Inv}
use lbz.Metadata.Init.Placing.{
  IsZone, AreZones, written, open_zones, streams, Started, new_zone_wp, new_zone-flags,
  place_zone-Put,
}
use lbz.Metadata.Init.Storing.{finished, Started-next}

-- The invariant once every zone was placed.
set_watermarks-Inv :
    {nr total : ℕ} {zmd : ZoneMetadata}
    → Started nr total total 0 zmd
    → 0 < nr
    → total * nr < 2 ^ 31
    → Inv (set_watermarks zmd)
unfolding set_watermarks
set_watermarks-Inv {nr} {total} {zmd} w pos fits = record {
  blocks_pos = rw (w.blocks) pos;
  small = rw (w.zones_eq, w.blocks) fits;
  zone = λ i lt.
      let q = w.zone i (rw⁻¹ w.zones_eq lt) in
      record {
        once = q.once;
        wp_le = q.wp_le;
        empty_wp = q.empty_wp;
        full_wp = q.full_wp;
        active_wp = q.active_wp;
        to_full_alone = q.to_full_alone;
        to_full_wp = q.to_full_wp;
        gc_alone = q.gc_alone;
        gc_wp = q.gc_wp;
      };
  outside = λ i ge. w.outside i (rw⁻¹ w.zones_eq ge);
  empty_counted = w.empty_counted;
  full_counted = w.full_counted;
  allocable = rw (w.zones_eq, w.blocks) w.allocable;
}

set_watermarks-blocks :
    {nr : ℕ} (zmd : ZoneMetadata)
    → zmd.zone_nr_blocks ≡ nr
    → (set_watermarks zmd).zone_nr_blocks ≡ nr
unfolding set_watermarks
set_watermarks-blocks zmd e = e

module _ (ilog2 : ℕ → ℕ) (cap : ℕ) (small : cap < word) (pos : 0 < cap / 8) where
  init_zone_run :
      (num : ℕ) (b : BlkZone) (zmd placed : ZoneMetadata) (z : Zone)
      → place_zone
          (if num == 0 then init_by_first_zone ilog2 zmd b else zmd)
          num
          b
          (new_zone (if num == 0 then init_by_first_zone ilog2 zmd b else zmd) num b)
        ≡ some (z, placed)
      → init_zone ilog2 num b zmd ≡ some (finished num b.cond z placed)
  unfolding init_zone
  init_zone_run num b zmd placed z e = rw e refl

  init_zone-Started :
      {total left : ℕ} (num later : ℕ) (b : BlkZone) (zmd : ZoneMetadata)
      → Started (cap / 8) total num left (if num == 0 then init_by_first_zone ilog2 zmd b else zmd)
      → IsZone cap b
      → num * (cap / 8) + cap / 8 < word
      → left ≡ (if written b == 0 then 0 else if ltb (written b) (cap / 8) then 1 else 0) + later
      → (zmd' : ZoneMetadata) × (init_zone ilog2 num b zmd ≡ some zmd')
        × Started (cap / 8) total (suc num) later zmd'
  init_zone-Started num later b zmd v z fits count_eq =
      let sized = if num == 0 then init_by_first_zone ilog2 zmd b else zmd in
      let (wp, le, size) = new_zone_wp sized num cap b z small in
      let room : streams sized
            + (if written b == 0 then 0 else if ltb (written b) (cap / 8) then 1 else 0)
          ≤ 2 =
        omega (arith, v.open_left, count_eq) in
      let (z', placed, e, p) =
        place_zone-Put v (omega (arith, space-le (cap / 8) sized.zones num, fits)) (written b) b
          (new_zone sized num b) size wp le pos (new_zone-flags sized num b).0
          (new_zone-flags sized num b).1 room in
      (
        finished num b.cond z' placed,
        init_zone_run num b zmd placed z' e,
        Started-next v pos (written b) later b.cond z' placed le count_eq p,
      )

  Started-at :
      {total left a b : ℕ} {zmd : ZoneMetadata}
      → a ≡ b
      → Started (cap / 8) total a left zmd
      → Started (cap / 8) total b left zmd
  Started-at {total = total} {left = left} {zmd = zmd} e v =
      subst (λ n. Started (cap / 8) total n left zmd) e v

  next_fits : (num n : ℕ) → (num + suc n) * (cap / 8) < word → num * (cap / 8) + cap / 8 < word
  next_fits num n h =
      let le : (num + 1) * (cap / 8) ≤ (num + suc n) * (cap / 8) =
        mul-le-mul_right (cap / 8) (omega arith) in
      omega (arith, le, h)

  -- From zone `num` on.
  init_zones-Started :
      {total : ℕ} (num last : ℕ) (bs : List BlkZone) (zmd : ZoneMetadata)
      → 0 < num
      → last ≡ num + length bs
      → Started (cap / 8) total num (open_zones cap bs) zmd
      → AreZones cap bs
      → last * (cap / 8) < word
      → (zmd' : ZoneMetadata) × (init_zones ilog2 num bs zmd ≡ some zmd')
        × Started (cap / 8) total last 0 zmd'
  unfolding init_zones
  init_zones-Started num last [] zmd more e v z fits = (zmd, refl, Started-at (omega arith) v)
  init_zones-Started {total} num last (b ∷ bs) zmd more e v z fits =
      let later : num == 0 ≡ false = ground (arith, more) in
      let sized : Started (cap / 8) total num (open_zones cap (b ∷ bs))
          (if num == 0 then init_by_first_zone ilog2 zmd b else zmd) =
        rw later v in
      let (zmd₁, e₁, v₁) =
        init_zone-Started {total = total} {left = open_zones cap (b ∷ bs)} num (open_zones cap bs) b
          zmd sized z.0 (next_fits num (length bs) (rw (sym e) fits)) refl in
      let (zmd₂, e₂, v₂) =
        init_zones-Started {total = total} (num + 1) last bs zmd₁ (omega arith) (omega arith)
          (Started-at (omega arith) v₁) z.1 fits in
      (zmd₂, rw (e₁, e₂) refl, v₂)

  -- The whole report; the first zone sets the sizes.
  report-Started :
      {total : ℕ} (b : BlkZone) (bs : List BlkZone) (zmd : ZoneMetadata)
      → Started (cap / 8) total 0 (open_zones cap (b ∷ bs)) (init_by_first_zone ilog2 zmd b)
      → AreZones cap (b ∷ bs)
      → suc (length bs) * (cap / 8) < word
      → (zmd' : ZoneMetadata) × (init_zones ilog2 0 (b ∷ bs) zmd ≡ some zmd')
        × Started (cap / 8) total (suc (length bs)) 0 zmd'
  unfolding init_zones
  report-Started {total} b bs zmd v z fits =
      let (zmd₁, e₁, v₁) =
        init_zone-Started {total = total} {left = open_zones cap (b ∷ bs)} 0 (open_zones cap bs) b
          zmd v z.0 (next_fits 0 (length bs) (omega (arith, fits))) refl in
      let (zmd₂, e₂, v₂) =
        init_zones-Started {total = total} 1 (suc (length bs)) bs zmd₁ (omega arith) (omega arith)
          (Started-at (omega arith) v₁) z.1 fits in
      (zmd₂, rw (e₁, e₂) refl, v₂)

  init_zone_metadata_run :
      (blank : ZoneMetadata) (n zone_sectors : ℕ) (report : List BlkZone) (zmd : ZoneMetadata)
      → n == 0 ≡ false
      → init_zones ilog2 0 report (empty_metadata blank n zone_sectors) ≡ some zmd
      → init_zone_metadata ilog2 blank n zone_sectors report ≡ some (set_watermarks zmd)
  unfolding init_zone_metadata
  init_zone_metadata_run blank n zone_sectors report zmd some_zone e = rw (some_zone, e) refl

  empty-Started :
      (b : BlkZone) (n left zone_sectors : ℕ) (blank : ZoneMetadata)
      → IsZone cap b
      → left ≤ 2
      → Started
          (cap / 8)
          n
          0
          left
          (init_by_first_zone ilog2 (empty_metadata blank n zone_sectors) b)
  unfolding empty_metadata init_by_first_zone sector_to_blkid space
  empty-Started b n left zone_sectors blank z two = record {
    blocks = omega (arith, z.capacity_eq);
    zones_eq = refl;
    zone = λ i lt. absurd (omega arith);
    outside = λ i ge. refl;
    empty_counted = refl;
    full_counted = refl;
    allocable = refl;
    open_left = omega (arith, two);
  }

  -- A report of zones of one capacity, of which at most two are written in part, on a device below 2 ^ 31
  -- blocks, makes metadata that have the invariant.
  pub init_zone_metadata-Inv :
      (b : BlkZone) (bs : List BlkZone) (blank : ZoneMetadata) (zone_sectors : ℕ)
      → AreZones cap (b ∷ bs)
      → open_zones cap (b ∷ bs) ≤ 2
      → suc (length bs) * (cap / 8) < 2 ^ 31
      → (zmd : ZoneMetadata) × (init_zone_metadata ilog2 blank
            (suc (length bs))
            zone_sectors
            (b ∷ bs)
          ≡ some zmd)
        × Inv zmd
        × (zmd.zone_nr_blocks ≡ cap / 8)
  init_zone_metadata-Inv b bs blank zone_sectors z two fits =
      let n = suc (length bs) in
      let v = empty-Started b n (open_zones cap (b ∷ bs)) zone_sectors blank z.0 two in
      let (zmd, e, w) =
        report-Started {total = n} b bs (empty_metadata blank n zone_sectors) v z
          (omega (arith, fits)) in
      (
        set_watermarks zmd,
        init_zone_metadata_run blank n zone_sectors (b ∷ bs) zmd (ground arith) e,
        set_watermarks-Inv w pos fits,
        set_watermarks-blocks zmd w.blocks,
      )
