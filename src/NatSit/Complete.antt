-- ===== src/NatSit/Complete.antt =====
-- `lbz_nat_sit_tx_complete`: the blocks recorded for a transaction are unmapped.
use lbz.Prelude.{ℕ, List, [], ◌∷◌, Option, some, ◌==◌, ◌>>=◌, if◌then◌else◌}
use lbz.Prelude.Words.{inc64}
use lbz.Mapping.{Layout, Mapping, invalid_pbid}
use lbz.Mapping
use lbz.Metadata.{ZoneMetadata}
use lbz.Metadata.Release.{release_block}
use lbz.NatSit.{NatSit, clear_nodes}

-- What the loop works on.
pub record Freeing : Type 0 where
  pub mapping : Mapping
  pub zmd : ZoneMetadata
  pub total_freed_blks : ℕ

module _ (y : Layout) (zone_no : ℕ → ℕ) where
  -- The body for one block; `none` for a fault of the mapping.
  unfoldable pub free_blkid : ℕ → Freeing → Option Freeing
  free_blkid blkid s = do
    (old_pbid, mapping) ← Mapping.remove y s.mapping blkid
    some (
        if old_pbid == invalid_pbid then record s { mapping = mapping } else record {
          mapping = mapping;
          zmd = release_block zone_no s.zmd old_pbid;
          total_freed_blks = inc64 s.total_freed_blks;
        })

  -- `for (i = 0; i < count; i++)`
  unfoldable pub free_node : List ℕ → Freeing → Option Freeing
  free_node [] s = some s
  free_node (blkid ∷ rest) s = do s' ← free_blkid blkid s; free_node rest s'

  -- `while (node != NULL)`
  unfoldable pub free_nodes : List (List ℕ) → Freeing → Option Freeing
  free_nodes [] s = some s
  free_nodes (node ∷ rest) s = do s' ← free_node node s; free_nodes rest s'

  unfoldable pub tx_complete :
      Mapping → ZoneMetadata → NatSit → Option (Mapping × ZoneMetadata × NatSit)
  tx_complete mapping zmd m = do
    let start : Freeing = record {
      mapping = mapping;
      zmd = zmd;
      total_freed_blks = m.total_freed_blks;
    }
    s ← free_nodes m.nodes start
    some (s.mapping, s.zmd, record (clear_nodes m) { total_freed_blks = s.total_freed_blks })
