-- ===== src/IoScheduler/Fresh.antt =====
-- The maps of a device that has just been set up: `lbz_mapping_init` maps no block, and `lbz_zone_insert`
-- fills the reverse map of each zone with 0xff.
use lbz.Prelude.{
  ℕ, zero, suc, ◌/◌, ◌%◌, ◌*◌, ◌^◌, ◌≤◌, ◌<◌, ◌≡◌, some, get_elem?, replicate, Option-cases, inl,
  inr, arith,
}
use lbz.Prelude.Words.{sub32}
use lbz.Block.{sector_to_blkid}
use lbz.Metadata.{ZoneMetadata, reverse_map_entries, get_zone_by_pbid}
use lbz.Metadata.ReverseMap.{reverse_entry}
use lbz.Metadata.Worker.{blank_page}
use lbz.Mapping.{Layout, invalid_pbid, leaf_node_entries, int_node_entries}
use lbz.Mapping.Init.{init}
use lbz.Mapping.Build.{init-IsTree, mapped-init}
use lbz.IoScheduler.Reverse.{reverse_at}
use lbz.IoScheduler.Consistent.{Agree}

-- The reverse map of every zone is blank.
abbrev pub IsBlank : ZoneMetadata → Type 0
IsBlank zmd = (i : ℕ) → (n : ℕ) × ((zmd.zones i).zrms ≡ replicate n blank_page)

get_elem?-replicate_eq {ℓ} :
    {A : Type ℓ} (n i : ℕ) (a : A) {b : A} → get_elem? (replicate n a) i ≡ some b → b ≡ a
get_elem?-replicate_eq zero i a e = absurd (cc)
get_elem?-replicate_eq (suc n) zero a e = cc
get_elem?-replicate_eq (suc n) (suc i) a e = get_elem?-replicate_eq n i a e

reverse_entry_blank :
    (n d : ℕ) {b : ℕ} → reverse_entry (replicate n blank_page) d ≡ some b → b ≡ invalid_pbid
unfolding reverse_entry blank_page
reverse_entry_blank n d {b} e =
    elim (Option-cases (get_elem? (replicate n blank_page) (d / reverse_map_entries))) [
      | inl z ↦ absurd (ground (arith, z))
      | inr (page, z) ↦
          let blank = get_elem?-replicate_eq n (d / reverse_map_entries) blank_page z in
          get_elem?-replicate_eq reverse_map_entries (d % reverse_map_entries) invalid_pbid
            (ground (arith, z, blank, e))
    ]

-- On a device of at most 64 GiB, the mapping that `lbz_mapping_init` builds and zones with blank reverse
-- maps agree.
pub init-Agree :
    (y : Layout) (zone_no : ℕ → ℕ) (dev_size : ℕ) (zmd : ZoneMetadata)
    → 0 < leaf_node_entries y
    → 0 < int_node_entries y
    → dev_size / 8 ≤ 64 * 2 ^ 18
    → IsBlank zmd
    → Agree y zone_no (init y dev_size).0 zmd
unfolding reverse_at
init-Agree y zone_no dev_size zmd leaves children small blank =
    let (t, size, _) = init-IsTree y leaves children dev_size small in
    record {
      tree = t;
      bounded = omega (arith, size);
      forward = λ b p h e n. absurd (
          ground
            (arith, mapped-init y leaves children dev_size small b (omega (arith, size)), e, n));
      backward = λ p b h e n.
          let (k, z) = blank (get_zone_by_pbid zone_no p) in
          let d = sub32 p (sector_to_blkid (zmd.zones (get_zone_by_pbid zone_no p)).start_sector) in
          let at : reverse_entry (replicate k blank_page) d ≡ some b = ground (arith, z, e) in
          absurd (n (reverse_entry_blank k d at));
    }
