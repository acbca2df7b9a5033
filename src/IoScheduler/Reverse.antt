-- ===== src/IoScheduler/Reverse.antt =====
-- The reverse maps of the zones as one map from physical blocks, and what the steps on it change.
use lbz.Prelude.{
  ℕ, ◌<◌, ◌≡◌, refl, sym, Option, some, false, ◌==◌, Bool-cases, inl, inr, if◌then◌else◌, arith,
}
use lbz.Prelude.Words.{word, sub32}
use lbz.Block.{sector_to_blkid}
use lbz.Metadata.{ZoneMetadata, get_zone_by_pbid, update_reverse_map, release_global_res}
use lbz.Metadata.ReverseMap.{reverse_entry, reverse_entry-store_reverse}
use lbz.Metadata.Release.{release_in_zone}
use lbz.Mapping.{invalid_pbid}

-- The entry of a physical block, in the zone that the block lies in.
unfoldable pub reverse_at : (ℕ → ℕ) → ZoneMetadata → ℕ → Option ℕ
reverse_at zone_no zmd p =
    let z = zmd.zones (get_zone_by_pbid zone_no p) in
    reverse_entry z.zrms (sub32 p (sector_to_blkid z.start_sector))

sub32-injective :
    (p q s : ℕ)
    → p < word
    → q < word
    → (sub32 p (sector_to_blkid s) == sub32 q (sector_to_blkid s)) ≡ (p == q)
unfolding sub32 sector_to_blkid
sub32-injective p q s h k = ground arith

module _ (zone_no : ℕ → ℕ) where
  -- An entry that is set shows at its block, and at no other block of any zone.
  pub reverse_at-update :
      (zmd : ZoneMetadata) (p q b : ℕ) {old : ℕ}
      → p < word
      → q < word
      → reverse_at zone_no zmd p ≡ some old
      → reverse_at zone_no (update_reverse_map zmd (get_zone_by_pbid zone_no p) p b) q
        ≡ (if p == q then some b else reverse_at zone_no zmd q)
  unfolding reverse_at update_reverse_map
  reverse_at-update zmd p q b {old} h k e =
      elim (Bool-cases (get_zone_by_pbid zone_no p == get_zone_by_pbid zone_no q)) [
        | inl same ↦
            let at : get_zone_by_pbid zone_no p ≡ get_zone_by_pbid zone_no q =
              ground (arith, same) in
            let z = zmd.zones (get_zone_by_pbid zone_no p) in
            rw
              (
                same,
                reverse_entry-store_reverse z.zrms (sub32 p (sector_to_blkid z.start_sector))
                    (sub32 q (sector_to_blkid z.start_sector)) b {old = old} e,
                sub32-injective p q z.start_sector h k,
                sym at,
              )
              refl
        | inr other ↦ let apart : (p == q) ≡ false = ground (arith, other) in rw (other, apart) refl
      ]

  pub reverse_at-release_global_res :
      (zmd : ZoneMetadata) (i q : ℕ)
      → reverse_at zone_no (release_global_res zmd i) q ≡ reverse_at zone_no zmd q
  unfolding reverse_at release_global_res
  reverse_at-release_global_res zmd i q = ground arith

  -- Giving a block up clears its entry, and no other.
  pub reverse_at-release_in_zone :
      (zmd : ZoneMetadata) (p q : ℕ) {old : ℕ}
      → p < word
      → q < word
      → reverse_at zone_no zmd p ≡ some old
      → reverse_at zone_no (release_in_zone zmd (get_zone_by_pbid zone_no p) p) q
        ≡ (if p == q then some invalid_pbid else reverse_at zone_no zmd q)
  unfolding release_in_zone
  reverse_at-release_in_zone zmd p q {old} h k e =
      rw
        (
          reverse_at-release_global_res
              (update_reverse_map zmd (get_zone_by_pbid zone_no p) p invalid_pbid)
              (get_zone_by_pbid zone_no p) q,
          reverse_at-update zmd p q invalid_pbid {old = old} h k e,
        )
        refl
