-- ===== src/Metadata/Init/Storing.antt =====
-- A zone that was placed is stored, and what held of the zones before it holds with it.
use lbz.Prelude.{
  ℕ, suc, ◌+◌, ◌-◌, ◌≤◌, ◌<◌, ◌≡◌, refl, update, false, Bool-cases, inl, inr, ap, sym, ◌∙◌, ◌==◌,
  ltb, if◌then◌else◌, arith,
}
use lbz.Prelude.Words.{add32}
use lbz.Zone.{Zone, ZoneCond}
use lbz.Metadata.{ZoneMetadata}
use lbz.Metadata.Init.{apply_cond}
use lbz.Metadata.Places.{count, held, space, space-update_of_le}
use lbz.Metadata.Invariant.{Placed}
use lbz.Metadata.Init.Placing.{Started, Put, streams}

-- What the rest of `lbz_init_zone` changes: the zone's state and flags, and totals.
record Applied (z : Zone) (zmd : ZoneMetadata) (r : Zone × ZoneMetadata) : Type 0 where
  wp : r.0.wp_block ≡ z.wp_block
  to_full : r.0.flags.to_full ≡ z.flags.to_full
  gc : r.0.flags.gc ≡ z.flags.gc
  same : (n : ℕ) → record (r.1) { nr_useable_zones = n } ≡ record zmd { nr_useable_zones = n }

apply_cond-Applied :
    (c : ZoneCond) (z : Zone) (zmd : ZoneMetadata) → Applied z zmd (apply_cond c z zmd)
unfolding apply_cond
apply_cond-Applied ZoneCond.offline z zmd = record {
  wp = refl;
  to_full = refl;
  gc = refl;
  same = λ n. refl;
}
apply_cond-Applied ZoneCond.read_only z zmd = record {
  wp = refl;
  to_full = refl;
  gc = refl;
  same = λ n. refl;
}
apply_cond-Applied ZoneCond.not_wp z zmd = record {
  wp = refl;
  to_full = refl;
  gc = refl;
  same = λ n. refl;
}
apply_cond-Applied ZoneCond.empty z zmd = record {
  wp = refl;
  to_full = refl;
  gc = refl;
  same = λ n. refl;
}
apply_cond-Applied ZoneCond.imp_open z zmd = record {
  wp = refl;
  to_full = refl;
  gc = refl;
  same = λ n. refl;
}
apply_cond-Applied ZoneCond.exp_open z zmd = record {
  wp = refl;
  to_full = refl;
  gc = refl;
  same = λ n. refl;
}
apply_cond-Applied ZoneCond.closed z zmd = record {
  wp = refl;
  to_full = refl;
  gc = refl;
  same = λ n. refl;
}
apply_cond-Applied ZoneCond.full z zmd = record {
  wp = refl;
  to_full = refl;
  gc = refl;
  same = λ n. refl;
}

-- The end of `lbz_init_zone`.
abbrev pub finished : ℕ → ZoneCond → Zone → ZoneMetadata → ZoneMetadata
finished num c z placed =
    let valid = record placed { nr_valid_blks = add32 placed.nr_valid_blks z.wp_block } in
    let done = apply_cond c z valid in
    record (done.1) {
      nr_total_blks = add32 done.1.nr_total_blks done.1.zone_nr_blocks;
      zones = update done.1.zones num done.0;
    }

-- The invariant passes from `num` zones to the next.
module _ {nr total num left : ℕ} {zmd : ZoneMetadata} (v : Started nr total num left zmd)
    (pos : 0 < nr) where
  space-next :
      (zones : ℕ → Zone) (z : Zone)
      → space nr (update zones num z) (suc num) ≡ space nr zones num + (nr - z.wp_block)
  unfolding space
  space-next zones z = ground (arith, space-update_of_le nr zones num num z)

  Placed-same :
      {end : ZoneMetadata} (i : ℕ)
      → Placed zmd i
      → end.zone_nr_blocks ≡ zmd.zone_nr_blocks
      → end.zones i ≡ zmd.zones i
      → count i end.empty_zone_list ≡ count i zmd.empty_zone_list
      → count i end.full_zone_list ≡ count i zmd.full_zone_list
      → held (end.active_zone 0) i + held (end.active_zone 1) i
        ≡ held (zmd.active_zone 0) i + held (zmd.active_zone 1) i
      → Placed end i
  Placed-same i q nb z ce cf ca = record {
    once = omega (arith, q.once, ce, cf, ca);
    wp_le = ground (arith, z, nb, q.wp_le);
    empty_wp = λ h. ground (arith, z, nb, ce, h, q.empty_wp);
    full_wp = λ h. ground (arith, z, nb, cf, h, q.full_wp);
    active_wp = λ h. ground (arith, z, nb, ca, h, q.active_wp);
    to_full_alone = λ h. omega (arith, q.to_full_alone (ground (arith, z, h)), ce, cf, ca);
    to_full_wp = λ h. ground (arith, z, nb, q.to_full_wp, h);
    gc_alone = λ h. omega (arith, q.gc_alone (ground (arith, z, h)), ce, cf, ca);
    gc_wp = λ h. ground (arith, z, nb, q.gc_wp, h);
  }

  Placed-new :
      (w : ℕ) {end : ZoneMetadata}
      → w ≤ nr
      → end.zone_nr_blocks ≡ nr
      → (end.zones num).wp_block ≡ w
      → (end.zones num).flags.to_full ≡ false
      → (end.zones num).flags.gc ≡ false
      → count num end.empty_zone_list ≡ (if w == 0 then 1 else 0)
      → count num end.full_zone_list ≡ (if ltb w nr then 0 else 1)
      → held (end.active_zone 0) num + held (end.active_zone 1) num
        ≡ (if w == 0 then 0 else if ltb w nr then 1 else 0)
      → Placed end num
  Placed-new w {end} le nb wp tf g ce cf ca = record {
    once =
        let sum : (if w == 0 then 1 else 0)
              + (if ltb w nr then 0 else 1)
              + (if w == 0 then 0 else if ltb w nr then 1 else 0)
            ≤ 1 =
          ground (arith, pos) in
        omega (arith, sum, ce, cf, ca);
    wp_le = ground (arith, wp, nb, le);
    empty_wp = λ h. ground (arith, ce, h, wp);
    full_wp = λ h. ground (arith, cf, h, wp, nb, le);
    active_wp = λ h. ground (arith, ca, h, wp, nb);
    to_full_alone = λ h. absurd (ground (arith, h, tf));
    to_full_wp = λ h. absurd (ground (arith, h, tf));
    gc_alone = λ h. absurd (ground (arith, h, g));
    gc_wp = λ h. absurd (ground (arith, h, g));
  }

  -- With `zmd'` where the zone was placed, and `end` where it was stored as `z'`.
  Started-end :
      (w later : ℕ) {z : Zone} {zmd' : ZoneMetadata} (z' : Zone) (end : ZoneMetadata)
      → w ≤ nr
      → left ≡ (if w == 0 then 0 else if ltb w nr then 1 else 0) + later
      → Put nr num w zmd z zmd'
      → (z'.wp_block ≡ w) × (z'.flags.to_full ≡ false) × (z'.flags.gc ≡ false)
      → end.zones ≡ update zmd.zones num z'
      → (n k : ℕ)
      → record end { zones = zmd.zones; nr_total_blks = 0; nr_useable_zones = n } ≡ record zmd' {
        zones = zmd.zones;
        nr_valid_blks = k;
        nr_total_blks = 0;
        nr_useable_zones = n;
      }
      → Started nr total (suc num) later end
  Started-end w later {z} {zmd'} z' end le count_eq p (wp, tf, g) zones n k same =
      let empty : end.empty_zone_list ≡ zmd'.empty_zone_list = ap (λ x. x.empty_zone_list) same in
      let full : end.full_zone_list ≡ zmd'.full_zone_list = ap (λ x. x.full_zone_list) same in
      let active : end.active_zone ≡ zmd'.active_zone = ap (λ x. x.active_zone) same in
      let blocks : end.zone_nr_blocks ≡ nr =
        ap (λ x. x.zone_nr_blocks) same ∙ p.blocks ∙ v.blocks in
      let spent : end.nr_allocable_blks ≡ zmd'.nr_allocable_blks =
        ap (λ x. x.nr_allocable_blks) same in
      let sum : space nr end.zones (suc num) ≡ space nr zmd.zones num + (nr - w) =
        rw (zones, space-next zmd.zones z', wp) refl in
      let open_eq : streams end ≡ streams zmd' = rw active refl in
      let at_num : end.zones num ≡ z' = rw zones (ground arith) in
      record {
        blocks = blocks;
        zones_eq = ap (λ x. x.nr_zones) same ∙ p.zones_eq ∙ v.zones_eq;
        zone = λ i lt. elim (Bool-cases (num == i)) [
          | inl here ↦
              let at : i ≡ num = ground (arith, here) in
              let out = v.outside num (omega arith) in
              rw at (
                Placed-new w le blocks (rw at_num wp) (rw at_num tf) (rw at_num g)
                  (ground (arith, empty, p.moved num, out)) (ground (arith, full, p.moved num, out))
                  (ground (arith, active, p.moved num, out)))
          | inr there ↦
              Placed-same i (v.zone i (ground (arith, there, lt))) (blocks ∙ sym v.blocks)
                (rw (zones, there) refl) (ground (arith, empty, p.moved i, there))
                (ground (arith, full, p.moved i, there)) (ground (arith, active, p.moved i, there))
        ];
        outside = λ i ge.
            let out = v.outside i (omega arith) in
            let other : (num == i) ≡ false = ground (arith, ge) in
            ground (arith, empty, full, active, p.moved i, out, other);
        empty_counted = rw (ap (λ x. x.empty_zone_count) same, empty) p.empty_counted;
        full_counted = rw (ap (λ x. x.full_zone_count) same, full) p.full_counted;
        allocable = omega (arith, spent, p.allocable, v.allocable, sum);
        open_left = omega (arith, open_eq, p.open_eq, count_eq, v.open_left);
      }

  pub Started-next :
      (w later : ℕ) (c : ZoneCond) (z : Zone) (zmd' : ZoneMetadata)
      → w ≤ nr
      → left ≡ (if w == 0 then 0 else if ltb w nr then 1 else 0) + later
      → Put nr num w zmd z zmd'
      → Started nr total (suc num) later (finished num c z zmd')
  Started-next w later c z zmd' le count_eq p =
      let valid = record zmd' { nr_valid_blks = add32 zmd'.nr_valid_blks z.wp_block } in
      let a = apply_cond-Applied c z valid in
      let same = a.same 0 in
      Started-end w later (apply_cond c z valid).0 (finished num c z zmd') le count_eq p
        (a.wp ∙ p.wp, a.to_full ∙ p.to_full, a.gc ∙ p.gc)
        (rw (ap (λ x. x.zones) same, p.zones) refl) 0 valid.nr_valid_blks
        (ap {A = ZoneMetadata} (λ x. record x { zones = zmd.zones; nr_total_blks = 0 }) same)
