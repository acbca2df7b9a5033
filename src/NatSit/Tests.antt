-- ===== src/NatSit/Tests.antt =====
-- Concrete layouts of F2FS, and a transaction on the tree of Mapping/Tests.antt.
use lbz.Prelude.{
  ℕ, ◌+◌, ◌-◌, ◌/◌, ◌%◌, ◌≡◌, ◌≢◌, refl, List, [], ◌∷◌, some, true, false, ◌&&◌, ◌||◌, ◌==◌,
  if◌then◌else◌, arith,
}
use lbz.Prelude.Words.{add32, sub32}
use lbz.Config.{Config}
use lbz.Mapping.{Mapping, mapped, invalid_pbid}
use lbz.Mapping.Access.{IsTree}
use lbz.Mapping.Tests.{real, fresh, tree_fresh, size_fresh}
use lbz.Metadata.{ZoneMetadata}
use lbz.Metadata.Invariant.{Inv}
use lbz.Metadata.Tests.{device, device-Inv}
use lbz.NatSit.{
  Args, NatSit, is_cp_block, is_dup_block, is_first_cp_block, is_second_cp_block, get_stream_id,
  to_free, add_rule, add_blkid,
}
use lbz.NatSit.Areas.{IsLayout, areas_divide, cp_packs_divide, no_areas}
use lbz.NatSit.ToFree.{to_free-to_free, to_free-is_dup, to_free_strays}
use lbz.NatSit.Complete.{tx_complete}
use lbz.NatSit.CompleteLaws.{contains, recorded, tx_complete_lem}
use lbz.NatSit.Recording.{FitPages, add_blkid_lem}

abbrev streams : Config
streams = record { nat_sit_support = true; free_support = true; stream_support = true }

-- Checkpoint at 512, SIT at 2048, NAT at 3072.
abbrev even_args : Args
even_args = record { cp_blkaddr = 512; sit_blkaddr = 2048; nat_blkaddr = 3072; nat_blocks = 2048 }

abbrev odd_args : Args
odd_args = record { cp_blkaddr = 512; sit_blkaddr = 1536; nat_blkaddr = 2560; nat_blocks = 1024 }

even_args-IsLayout : IsLayout even_args
even_args-IsLayout = record { cp_first = omega arith; sit_next = omega arith; fits = omega arith }

odd_args-IsLayout : IsLayout odd_args
odd_args-IsLayout = record { cp_first = omega arith; sit_next = omega arith; fits = omega arith }

abbrev rule : Args → List (List ℕ) → NatSit
rule args nodes = record {
  args = args;
  cp_blocks = args.sit_blkaddr - args.cp_blkaddr;
  sit_blocks = args.nat_blkaddr - args.sit_blkaddr;
  first_cp_blkaddr = args.cp_blkaddr;
  second_cp_blkaddr = args.cp_blkaddr + (args.sit_blkaddr - args.cp_blkaddr) / 2;
  cp_length = (args.sit_blkaddr - args.cp_blkaddr) / 2;
  sit_segment_no = args.sit_blkaddr / 512;
  nat_segment_no = args.nat_blkaddr / 512;
  cur_cp_pack = 0;
  blocks_per_segment = 512;
  nat_sit_inflight_writes = 0;
  nat_sit_user_write = 0;
  nat_sit_cp_write = 0;
  nat_sit_ssa_write = 0;
  nodes = nodes;
  to_free_count = 0;
  total_freed_blks = 0;
}

even_rule : add_rule even_args ≡ some (rule even_args [])
unfolding add_rule sub32 add32
even_rule = refl

odd_rule : add_rule odd_args ≡ some (rule odd_args [])
unfolding add_rule sub32 add32
odd_rule = refl

areas_divide_example :
    (is_cp_block (rule even_args []) 600 ≡ true)
    × (is_dup_block (rule even_args []) 600 ≡ false)
    × ((is_cp_block (rule even_args []) 600 && is_dup_block (rule even_args []) 600) ≡ false)
    × ((get_stream_id streams (rule even_args []) 600 == 1) ≡ false)
areas_divide_example = areas_divide streams even_args 600 even_args-IsLayout even_rule

cp_packs_divide_example :
    ((is_first_cp_block (rule even_args []) 600 || is_second_cp_block (rule even_args []) 600)
      ≡ is_cp_block (rule even_args []) 600)
    × ((is_first_cp_block (rule even_args []) 600 && is_second_cp_block (rule even_args []) 600)
        ≡ false)
cp_packs_divide_example = cp_packs_divide even_args 600 even_args-IsLayout even_rule refl

abbrev zero_args : Args
zero_args = record { cp_blkaddr = 0; sit_blkaddr = 0; nat_blkaddr = 0; nat_blocks = 0 }

zero_rule : add_rule zero_args ≡ some (rule zero_args [])
unfolding add_rule sub32 add32
zero_rule = refl

no_areas_example :
    (is_cp_block (rule zero_args []) 5 ≡ false)
    × (is_dup_block (rule zero_args []) 5 ≡ false)
    × (get_stream_id streams (rule zero_args []) 5 ≡ 0)
no_areas_example = no_areas streams 5 zero_rule

to_free-to_free_example :
    (to_free (rule even_args []) (to_free (rule even_args []) 2100) ≡ 2100)
    × (to_free (rule even_args []) 2100 ≢ 2100)
    × (to_free (rule even_args []) 2100 % 512 ≡ 52)
    × (to_free (rule even_args []) 2100 / 1024 ≡ 2)
to_free-to_free_example = to_free-to_free (rule even_args []) 2100 refl (omega arith)

to_free-is_dup_example : is_dup_block (rule even_args []) (to_free (rule even_args []) 2100) ≡ true
unfolding is_dup_block add32
to_free-is_dup_example = to_free-is_dup even_args 2100 even_args-IsLayout even_rule refl refl refl

to_free_strays_example :
    (is_cp_block (rule odd_args []) (to_free (rule odd_args []) 1541) ≡ true)
    × (is_dup_block (rule odd_args []) (to_free (rule odd_args []) 1541) ≡ false)
to_free_strays_example =
    to_free_strays odd_args 5 odd_args-IsLayout odd_rule refl (omega arith) (omega arith)

abbrev recorded_two : NatSit
recorded_two = rule even_args ((3 ∷ 7 ∷ []) ∷ [])

tx_complete_lem_example :
    (mapping' : Mapping) × (zmd' : ZoneMetadata) × (m' : NatSit) × (tx_complete real
        (λ s. s / 64)
        fresh
        device
        recorded_two
      ≡ some (mapping', zmd', m'))
    × IsTree real mapping'
    × Inv zmd'
    × ((c : ℕ)
        → mapped real mapping' c
          ≡ (if contains c (3 ∷ 7 ∷ []) then some invalid_pbid else mapped real fresh c))
    × (m'.nodes ≡ [])
    × (m'.to_free_count ≡ 0)
tx_complete_lem_example =
    tx_complete_lem real (λ s. s / 64) recorded_two tree_fresh device-Inv
      (omega (arith, size_fresh), (omega (arith, size_fresh), tt))

add_blkid_lem_example :
    (recorded (add_blkid recorded_two 9).nodes ≡ 3 ∷ 7 ∷ 9 ∷ [])
    × FitPages (add_blkid recorded_two 9).nodes
add_blkid_lem_example = add_blkid_lem recorded_two 9 (omega arith, tt)
