-- ===== src/Mapping/Lookup.antt =====
-- `lbz_mapping_lookup`: the physical block of a logical one, with a reference to its zone.
use mathlib.Core.Path.{subst}
use lbz.Prelude.Words.{inc32}
use lbz.Prelude.{
  ap, ◌∙◌, update, ℕ, ◌<◌, ◌≡◌, refl, Option, some, get_elem?, ◌>>=◌, ◌==◌, if◌then◌else◌,
  Bool-cases, inl, inr, arith,
}
use lbz.Config.{Errno, enoent}
use lbz.Zone.{get_zone}
use lbz.Metadata.{ZoneMetadata, modify_zone, get_zone_by_pbid}
use lbz.Metadata.Invariant.{Inv}
use lbz.Metadata.ReleaseLaws.{modify_zone-Inv}
use lbz.Mapping.{Layout, Mapping, invalid_pbid, find_specific_node, mapped, add}
use lbz.Mapping.Access.{IsTree, add_lem}

pub data Lookup : Type 0 where
  -- the zone, and the block in `ret_pbid`
  found : ℕ → ℕ → Lookup
  failed : Errno → Lookup

-- The end of the function, by the entry of the leaf.
unfoldable pub look : (ℕ → ℕ) → ZoneMetadata → ℕ → Lookup × ZoneMetadata
look zone_no zmd pbid = if pbid == invalid_pbid then (failed enoent, zmd) else (
  found (get_zone_by_pbid zone_no pbid) pbid,
  modify_zone zmd (get_zone_by_pbid zone_no pbid) get_zone,
)

module _ (y : Layout) (zone_no : ℕ → ℕ) where
  -- `none` for a fault.
  unfoldable pub lookup : Mapping → ZoneMetadata → ℕ → Option (Lookup × ZoneMetadata)
  lookup m zmd blkid = do
    s ← find_specific_node y m blkid
    pbid ← get_elem? s.leaf.pbids s.index
    some (look zone_no zmd pbid)

  pub lookup-mapped :
      (m : Mapping) (zmd : ZoneMetadata) (b : ℕ)
      → lookup m zmd b ≡ (mapped y m b >>= λ pbid. some (look zone_no zmd pbid))
  unfolding lookup mapped
  lookup-mapped m zmd b = ground arith

  -- What a lookup of a block that is mapped to `r` is to return, and how it leaves the zones.
  abbrev pub answer_for : ZoneMetadata → ℕ → Lookup × ZoneMetadata
  answer_for zmd r =
      let zone = get_zone_by_pbid zone_no r in
      if r == invalid_pbid then (failed enoent, zmd) else (
        found zone r,
        record zmd {
          zones =
              update zmd.zones zone
                (record (zmd.zones zone) { refcount = inc32 (zmd.zones zone).refcount });
        },
      )

  look-answer_for : (zmd : ZoneMetadata) (r : ℕ) → look zone_no zmd r ≡ answer_for zmd r
  unfolding look get_zone
  look-answer_for zmd r = refl

  look-Inv : (zmd : ZoneMetadata) (pbid : ℕ) → Inv zmd → Inv (look zone_no zmd pbid).1
  unfolding look get_zone
  look-Inv zmd pbid v = elim (Bool-cases (pbid == invalid_pbid)) [
    | inl e ↦ rw e v
    | inr e ↦ rw e (modify_zone-Inv (get_zone_by_pbid zone_no pbid) _ v refl refl refl)
  ]

  -- After `lbz_mapping_add` put `p` for the block `b`, a lookup of any block `c` that was mapped to `q`
  -- finds `p` if it is `b` and `q` else: -ENOENT and no change of the zones for the invalid block, else the
  -- block and its zone, which has one reference more, and no other change. The zones' invariant stays.
  pub lookup-add :
      {m : Mapping} {zmd : ZoneMetadata} (b c p : ℕ) {q : ℕ}
      → IsTree y m
      → Inv zmd
      → b < m.max_blkid
      → mapped y m c ≡ some q
      → (old : ℕ) × (m' : Mapping) × (add y m b p ≡ some (old, m'))
        × (lookup m' zmd c ≡ some (answer_for zmd (if b == c then p else q)))
        × Inv (answer_for zmd (if b == c then p else q)).1
  lookup-add {m} {zmd} b c p {q} t v h e =
      let (old, m', a, _, _, law, _) = add_lem y t b p h in
      let r = if b == c then p else q in
      (
        old,
        m',
        a,
        ground (arith, lookup-mapped m' zmd c, law c, e) ∙ ap some (look-answer_for zmd r),
        subst (λ (x : Lookup × ZoneMetadata). Inv x.1) (look-answer_for zmd r) (look-Inv zmd r v),
      )
