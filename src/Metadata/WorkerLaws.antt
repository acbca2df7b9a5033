-- ===== src/Metadata/WorkerLaws.antt =====
-- `zone_state_wk_fn` keeps the invariant, and what its sticky variable does.
use lbz.Prelude.{
  ℕ, zero, suc, ◌+◌, ◌%◌, ◌≤◌, ◌<◌, ◌≡◌, ◌≢◌, refl, [], ◌∷◌, ◌++◌, Bool, true, false, ◌||◌, length,
  length-append, update, Bool-cases, inl, inr, if◌then◌else◌, arith,
}
use lbz.Prelude.Words.{word, inc32, inc64, add32_lem}
use lbz.Zone.{Zone, ZoneCond, ZoneState, no_flags, write_bit}
use lbz.Metadata.{ZoneMetadata}
use lbz.Metadata.Worker.{
  Pass, running, is_full, close_zone, blank_zone, refill, reset_zone, visit_zone, visit_zones,
  zone_state_work,
}
use lbz.Metadata.Places.{space-update, space-le, count-append}
use lbz.Metadata.Invariant.{Inv}

inc32_counted : (c n m : ℕ) → c ≡ n % word → m ≡ n + 1 → inc32 c ≡ m % word
unfolding inc32
inc32_counted c n m h k = omega arith

module _ {zmd : ZoneMetadata} (i : ℕ) (v : Inv zmd) (lt : i < zmd.nr_zones) where
  refill-Inv : (zmd.zones i).flags.gc ≡ true → Inv (refill zmd i)
  unfolding refill blank_zone
  refill-Inv h = record {
    blocks_pos = v.blocks_pos;
    small = v.small;
    zone =
        λ j k. ground (arith, v.zone j k, v.zone i lt, count-append j zmd.empty_zone_list (i ∷ []));
    outside = λ j k. ground (arith, v.outside j k, count-append j zmd.empty_zone_list (i ∷ []));
    empty_counted =
        inc32_counted zmd.empty_zone_count (length zmd.empty_zone_list) _ v.empty_counted
          (length-append zmd.empty_zone_list (i ∷ []));
    full_counted = v.full_counted;
    allocable =
        let total =
          space-update zmd.zone_nr_blocks zmd.zones zmd.nr_zones i (blank_zone zmd (zmd.zones i))
            lt in
        let bound =
          space-le zmd.zone_nr_blocks (update zmd.zones i (blank_zone zmd (zmd.zones i)))
            zmd.nr_zones in
        ground (
          arith,
          v.allocable,
          v.small,
          (v.zone i lt).gc_wp h,
          total,
          bound,
          add32_lem zmd.nr_allocable_blks zmd.zone_nr_blocks,
        );
  }

  -- A zone with LBZ_ZONE_TO_FULL joins the list of full zones, as `z`.
  join_full-Inv :
      (z : Zone) (times : ℕ)
      → (zmd.zones i).flags.to_full ≡ true
      → z.wp_block ≡ (zmd.zones i).wp_block
      → z.flags.to_full ≡ false
      → z.flags.gc ≡ false
      → Inv (record zmd {
        zones = update zmd.zones i z;
        full_zone_list = zmd.full_zone_list ++ (i ∷ []);
        full_zone_count = inc32 zmd.full_zone_count;
        zs_close_times = times;
      })
  join_full-Inv z times h wp f g = record {
    blocks_pos = v.blocks_pos;
    small = v.small;
    zone =
        λ j k. ground (arith, v.zone j k, v.zone i lt, count-append j zmd.full_zone_list (i ∷ []));
    outside = λ j k. ground (arith, v.outside j k, count-append j zmd.full_zone_list (i ∷ []));
    empty_counted = v.empty_counted;
    full_counted =
        inc32_counted zmd.full_zone_count (length zmd.full_zone_list) _ v.full_counted
          (length-append zmd.full_zone_list (i ∷ []));
    allocable =
        ground (arith, v.allocable, space-update zmd.zone_nr_blocks zmd.zones zmd.nr_zones i z lt);
  }

module _ (p : Pass) (i : ℕ) (v : Inv p.zmd) (lt : i < p.zmd.nr_zones) where
  close_zone-Inv : (p.zmd.zones i).flags.to_full ≡ true → Inv (close_zone p i).zmd
  unfolding close_zone
  close_zone-Inv h = elim (Bool-cases (p.send_zone_mgmt || is_full (p.zmd.zones i).state)) [
    | inl s ↦ rw s (
        join_full-Inv i v lt
          (record (if is_full (p.zmd.zones i).state
            then record (p.zmd.zones i) { state = ZoneCond.closed }
            else p.zmd.zones i) { flags = write_bit ZoneState.full true no_flags })
          (inc64 p.zmd.zs_close_times) h (ground arith) refl refl)
    | inr s ↦ rw s v
  ]

  reset_zone-Inv : (ok : ℕ → Bool) → (p.zmd.zones i).flags.gc ≡ true → Inv (reset_zone ok p i).zmd
  unfolding reset_zone
  reset_zone-Inv ok h = ground (arith, v, refill-Inv i v lt h)

  visit_zone-Inv : (ok : ℕ → Bool) → Inv (visit_zone ok p i).zmd
  unfolding visit_zone
  visit_zone-Inv ok = ground (arith, v, close_zone-Inv, reset_zone-Inv ok)

nr_zones-visit_zone :
    (ok : ℕ → Bool) (p : Pass) (i : ℕ) → (visit_zone ok p i).zmd.nr_zones ≡ p.zmd.nr_zones
unfolding visit_zone close_zone reset_zone refill
nr_zones-visit_zone ok p i = ground arith

visit_zones-Inv :
    (ok : ℕ → Bool) (n i : ℕ) (p : Pass)
    → i + n ≤ p.zmd.nr_zones
    → Inv p.zmd
    → Inv (visit_zones ok n i p).zmd
unfolding visit_zones
visit_zones-Inv ok zero i p h v = v
visit_zones-Inv ok (suc n) i p h v =
    let w = visit_zone-Inv p i v (omega arith) ok in
    let e = nr_zones-visit_zone ok p i in
    ground (arith, v, visit_zones-Inv ok n (i + 1) (visit_zone ok p i) (omega (arith, e)) w)

-- The worker keeps the invariant of the zone metadata, however the kernel's resets end.
pub zone_state_work-Inv :
    (ok : ℕ → Bool) (faulty ready : Bool) {zmd : ZoneMetadata}
    → Inv zmd
    → Inv (zone_state_work ok faulty ready zmd).zmd
unfolding zone_state_work
zone_state_work-Inv ok faulty ready {zmd} v = ground (
  arith,
  v,
  visit_zones-Inv ok zmd.nr_zones 0
      (record { zmd = zmd; send_zone_mgmt = false; completed = false; stop = running })
      (omega arith) v,
)

-- In one run of the worker, once a zone `i` that is full was closed, a later zone `j` with
-- LBZ_ZONE_TO_FULL joins the list of full zones though its state is not full.
-- In a run that closed nothing before, zone `j` would be left as it is.
pub visit_zone_sticky :
    (ok : ℕ → Bool) (p : Pass) (i j : ℕ)
    → i ≢ j
    → (p.zmd.zones i).flags.to_full ≡ true
    → (p.zmd.zones i).state ≡ ZoneCond.full
    → (p.zmd.zones j).flags.to_full ≡ true
    → is_full (p.zmd.zones j).state ≡ false
    → p.send_zone_mgmt ≡ false
    → ((visit_zone ok (visit_zone ok p i) j).zmd.full_zone_list
        ≡ (p.zmd.full_zone_list ++ (i ∷ [])) ++ (j ∷ []))
      × (visit_zone ok p j ≡ p)
unfolding visit_zone close_zone is_full
visit_zone_sticky ok p i j ne ti fi tj fj s = ground arith
