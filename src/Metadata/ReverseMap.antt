-- ===== src/Metadata/ReverseMap.antt =====
-- The reverse map of a zone as one array.
use lbz.Prelude.{
  ℕ, ◌/◌, ◌%◌, ◌≡◌, List, Option, some, get_elem?, set, get_elem?-set, lt-length, ◌>>=◌, ◌==◌,
  Option-cases, inl, inr, if◌then◌else◌, arith,
}
use lbz.Metadata.{reverse_map_entries, store_reverse}
use lbz.Mapping.Index.{eq_of_div_mod}

-- The entry at a distance from the zone's first block.
unfoldable pub reverse_entry : List (List ℕ) → ℕ → Option ℕ
reverse_entry zrms d =
    get_elem? zrms (d / reverse_map_entries) >>= λ page. get_elem? page (d % reverse_map_entries)

-- A store within the map is seen at its distance, and nowhere else.
pub reverse_entry-store_reverse :
    (zrms : List (List ℕ)) (d e blkid : ℕ) {old : ℕ}
    → reverse_entry zrms d ≡ some old
    → reverse_entry (store_reverse zrms d blkid) e
      ≡ (if d == e then some blkid else reverse_entry zrms e)
unfolding reverse_entry store_reverse
reverse_entry-store_reverse zrms d e blkid {old} h =
    elim (Option-cases (get_elem? zrms (d / reverse_map_entries))) [
      | inl z ↦ absurd (ground arith)
      | inr (page, z) ↦ ground (
        arith,
        z,
        get_elem?-set zrms (d / reverse_map_entries) (e / reverse_map_entries)
            (set page (d % reverse_map_entries) blkid) (lt-length zrms _ z),
        get_elem?-set page (d % reverse_map_entries) (e % reverse_map_entries) blkid,
        lt-length page (d % reverse_map_entries) {a = old},
        eq_of_div_mod reverse_map_entries d e,
      )
    ]
