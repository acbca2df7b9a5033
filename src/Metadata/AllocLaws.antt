-- ===== src/Metadata/AllocLaws.antt =====
-- What `lbz_zone_alloc_res` returns and does.
use lbz.Prelude.{
  ℕ, ◌+◌, ◌≤◌, ◌<◌, ◌≡◌, refl, List, [], ◌∷◌, Option, none, some, Bool, false, update, ltb, ◌==◌,
  ◌&&◌, ◌||◌, Bool-cases, Option-cases, inl, inr, ◌⊎◌, if◌then◌else◌, arith,
}
use lbz.Prelude.Words.{dec32_lem}
use lbz.Config.{Config, eio, eagain}
use lbz.Metadata.{ZoneMetadata}
use lbz.Metadata.Alloc.{
  AllocFlag, AllocRet, user, gc, allocated, failed, bug, Alloc, is_user, charge, no_zone,
  take_block, usable, alloc_in_stream, alloc_res,
}
use lbz.Metadata.Places.{le-space, space-le}
use lbz.Metadata.Invariant.{Inv, zone_nr_blocks-lt}
use lbz.Metadata.AllocKeeps.{
  wp-charge, wp-retire, wp-activate, active_of_unusable, activated, replace_active-cons,
  replace_active-nil, active_lt, held_here, take_block-Inv, without-Inv, empty_lt, activated-Inv,
}

-- The zone that the next block of stream `s` comes from: its active one, or the first empty one.
abbrev pub next_zone : ZoneMetadata → ℕ → Option ℕ
next_zone zmd s = elim (zmd.active_zone s) [
  | some i ↦ some i
  | none ↦ elim zmd.empty_zone_list [ [] ↦ none | i ∷ rest ↦ some i ]
]

-- What an allocation in a stream can leave.
data Outcome (c : Config) (mod' : AllocFlag) (zmd : ZoneMetadata) (s : ℕ) : Alloc → Type 0 where
  from_active :
      (i : ℕ)
      → zmd.active_zone s ≡ some i
      → Outcome c mod' zmd s
          (record { ret = allocated i; zmd = take_block zmd s i; reclaim = false })
  from_empty :
      (i : ℕ) (rest : List ℕ)
      → zmd.active_zone s ≡ none
      → zmd.empty_zone_list ≡ i ∷ rest
      → Outcome c mod' zmd s (record {
        ret = allocated i;
        zmd = take_block (activated zmd s i rest) s i;
        reclaim = false;
      })
  nothing_left :
      zmd.active_zone s ≡ none
      → zmd.empty_zone_list ≡ []
      → Outcome c mod' zmd s
          (no_zone c mod' (record zmd { active_zone = update zmd.active_zone s none }))

List-cases : (xs : List ℕ) → (xs ≡ []) ⊎ ((i : ℕ) × (rest : List ℕ) × (xs ≡ i ∷ rest))
List-cases [] = inl refl
List-cases (i ∷ rest) = inr (i, rest, refl)

usable_active :
    (zmd : ZoneMetadata) (s : ℕ) {i : ℕ} → usable zmd s ≡ some i → zmd.active_zone s ≡ some i
unfolding usable
usable_active zmd s e = ground arith

module _ (c : Config) (mod' : AllocFlag) (s : ℕ) {zmd : ZoneMetadata} (v : Inv zmd)
    (stream : s < 2) where
  module _ (full : usable zmd s ≡ none) where
    alloc_in_stream-nil :
        zmd.empty_zone_list ≡ []
        → alloc_in_stream c mod' s zmd
          ≡ no_zone c mod' (record zmd { active_zone = update zmd.active_zone s none })
    unfolding alloc_in_stream
    alloc_in_stream-nil z =
        ground (arith, full, replace_active-nil zmd s (active_of_unusable s v stream full) z)

    alloc_in_stream-cons :
        (i : ℕ) (rest : List ℕ)
        → zmd.empty_zone_list ≡ i ∷ rest
        → alloc_in_stream c mod' s zmd ≡ record {
          ret = allocated i;
          zmd = take_block (activated zmd s i rest) s i;
          reclaim = false;
        }
    unfolding alloc_in_stream
    alloc_in_stream-cons i rest z =
        ground
          (arith, full, replace_active-cons zmd s i rest (active_of_unusable s v stream full) z)

  alloc_in_stream-Outcome : Outcome c mod' zmd s (alloc_in_stream c mod' s zmd)
  alloc_in_stream-Outcome = elim (Option-cases (usable zmd s)) [
    | inr (i, e) ↦
        unfold alloc_in_stream in rw (e, alloc_in_stream) (from_active i (usable_active zmd s e))
    | inl e ↦
        let gone = active_of_unusable s v stream e in
        elim (List-cases zmd.empty_zone_list) [
          | inl z ↦ rw (alloc_in_stream-nil e z) (nothing_left gone z)
          | inr (i, rest, z) ↦ rw (alloc_in_stream-cons e i rest z) (from_empty i rest gone z)
        ]
  ]

-- The invariant on each branch.
Outcome-Inv :
    {c : Config} {mod' : AllocFlag} {zmd : ZoneMetadata} {s : ℕ} {r : Alloc}
    → Inv zmd
    → s < 2
    → Outcome c mod' zmd s r
    → Inv r.zmd
unfolding no_zone
Outcome-Inv {s = s} v h (from_active i e) = take_block-Inv s i v h e
Outcome-Inv {s = s} v h (from_empty i rest e z) =
    take_block-Inv s i (activated-Inv s v h e i rest z) h (ground arith)
Outcome-Inv {c} {mod'} {s = s} v h (nothing_left e z) = ground (arith, without-Inv s v h e)

-- The record of an allocation that succeeds: one zone of the device moves on by a block, within its
-- capacity, and every other zone's write pointer stays.
pub record Took (zmd : ZoneMetadata) (s i : ℕ) (zmd' : ZoneMetadata) : Type 0 where
  pub in_range : i < zmd.nr_zones
  pub from : next_zone zmd s ≡ some i
  pub moved : (zmd'.zones i).wp_block ≡ (zmd.zones i).wp_block + 1
  pub within : (zmd'.zones i).wp_block ≤ zmd.zone_nr_blocks
  pub others : (j : ℕ) → zmd'.zones j ≡ (if i == j then zmd'.zones i else zmd.zones j)
  pub spent : zmd'.nr_allocable_blks + 1 ≡ zmd.nr_allocable_blks

take_block-moved :
    {zmd : ZoneMetadata} (s i : ℕ)
    → Inv zmd
    → s < 2
    → zmd.active_zone s ≡ some i
    → ((take_block zmd s i).zones i).wp_block ≡ (zmd.zones i).wp_block + 1
unfolding take_block
take_block-moved {zmd} s i v h e = ground (
  arith,
  v.zone i (active_lt s i v h e),
  zone_nr_blocks-lt i v (active_lt s i v h e),
  wp-charge (zmd.zones i),
  wp-retire (charge (zmd.zones i)),
)

take_block-spent :
    {zmd : ZoneMetadata} (s i : ℕ)
    → Inv zmd
    → s < 2
    → zmd.active_zone s ≡ some i
    → (take_block zmd s i).nr_allocable_blks + 1 ≡ zmd.nr_allocable_blks
unfolding take_block
take_block-spent {zmd} s i v h e = ground (
  arith,
  v.allocable,
  v.zone i (active_lt s i v h e),
  held_here s i v h e,
  le-space zmd.zone_nr_blocks zmd.zones zmd.nr_zones i (active_lt s i v h e),
  space-le zmd.zone_nr_blocks zmd.zones zmd.nr_zones,
  v.small,
  dec32_lem zmd.nr_allocable_blks,
)

take_block-within :
    {zmd : ZoneMetadata} (s i : ℕ)
    → Inv zmd
    → s < 2
    → zmd.active_zone s ≡ some i
    → ((take_block zmd s i).zones i).wp_block ≤ zmd.zone_nr_blocks
take_block-within s i v h e =
    ground (arith, v.zone i (active_lt s i v h e), held_here s i v h e, take_block-moved s i v h e)

take_block-others :
    (zmd : ZoneMetadata) (s i j : ℕ)
    → (take_block zmd s i).zones j ≡ (if i == j then (take_block zmd s i).zones i else zmd.zones j)
unfolding take_block
take_block-others zmd s i j = ground arith

active_Took :
    {zmd : ZoneMetadata} (s : ℕ) {i j : ℕ}
    → Inv zmd
    → s < 2
    → zmd.active_zone s ≡ some i
    → i ≡ j
    → Took zmd s j (take_block zmd s i)
active_Took {zmd} s {i} {j} v h here e = rw (← e) (record {
  in_range = active_lt s i v h here;
  from = ground (arith, here);
  moved = take_block-moved s i v h here;
  within = take_block-within s i v h here;
  others = λ k. take_block-others zmd s i k;
  spent = take_block-spent s i v h here;
})

empty_Took :
    {zmd : ZoneMetadata} (s : ℕ) {i j : ℕ} {rest : List ℕ}
    → Inv zmd
    → s < 2
    → zmd.active_zone s ≡ none
    → zmd.empty_zone_list ≡ i ∷ rest
    → i ≡ j
    → Took zmd s j (take_block (activated zmd s i rest) s i)
empty_Took {zmd} s {i} {j} {rest} v h gone z e =
    let v' = activated-Inv s v h gone i rest z in
    rw (← e) (record {
      in_range = empty_lt s v h gone i rest z;
      from = ground (arith, gone, z);
      moved = ground (arith, take_block-moved s i v' h (ground arith), wp-activate s (zmd.zones i));
      within = take_block-within s i v' h (ground arith);
      others = λ k. ground (arith, take_block-others (activated zmd s i rest) s i k);
      spent = take_block-spent s i v' h (ground arith);
    })

Outcome-Took :
    {c : Config} {mod' : AllocFlag} {zmd : ZoneMetadata} {s : ℕ} {r : Alloc} {i : ℕ}
    → Inv zmd
    → s < 2
    → Outcome c mod' zmd s r
    → r.ret ≡ allocated i
    → Took zmd s i r.zmd
unfolding no_zone
Outcome-Took {s = s} v h (from_active i here) e = active_Took s v h here (ground arith)
Outcome-Took {s = s} v h (from_empty i rest gone z) e = empty_Took s v h gone z (ground arith)
Outcome-Took v h (nothing_left gone z) e = absurd (ground arith)

-- The zone that an allocation in a stream returns, or its failure.
abbrev pub stream_ret : Config → AllocFlag → Option ℕ → AllocRet
stream_ret c mod' (some i) = allocated i
stream_ret c mod' none = if c.stream_support || is_user mod' then failed eagain else bug

Outcome-ret :
    {c : Config} {mod' : AllocFlag} {zmd : ZoneMetadata} {s : ℕ} {r : Alloc}
    → Outcome c mod' zmd s r
    → r.ret ≡ stream_ret c mod' (next_zone zmd s)
unfolding no_zone
Outcome-ret (from_active i here) = ground (arith, here)
Outcome-ret (from_empty i rest gone z) = ground (arith, gone, z)
Outcome-ret {c} {mod' = user} (nothing_left gone z) = ground (arith, gone, z)
Outcome-ret {c} {mod' = gc} (nothing_left gone z) = ground (arith, gone, z)

module _ (c : Config) (faulty : Bool) (mod' : AllocFlag) (s : ℕ) {zmd : ZoneMetadata} (v : Inv zmd)
    (stream : s < 2) where
  -- `lbz_zone_alloc_res` keeps the invariant of the zone metadata, whatever it returns.
  pub alloc_res-Inv : Inv (alloc_res c faulty mod' s zmd).zmd
  unfolding alloc_res
  alloc_res-Inv =
      ground (arith, v, Outcome-Inv v stream (alloc_in_stream-Outcome c mod' s v stream))

  -- What it returns: -EIO on a faulty device; -EAGAIN for a user's write while fewer blocks are left
  -- than are reserved; else the stream's active zone or the first empty one; and with neither -EAGAIN,
  -- or the BUG_ON where collection finds none and the build has no streams.
  pub alloc_res-ret : (alloc_res c faulty mod' s zmd).ret ≡ (
      if faulty
      then failed eio
      else if is_user mod' && ltb zmd.nr_allocable_blks zmd.reserved_blks_gc
      then failed eagain
      else stream_ret c mod' (next_zone zmd s))
  unfolding alloc_res
  alloc_res-ret = ground (arith, Outcome-ret (alloc_in_stream-Outcome c mod' s v stream))

  -- An allocation that succeeds takes the next block of one zone, and no other zone changes.
  pub alloc_res-Took :
      {i : ℕ}
      → (alloc_res c faulty mod' s zmd).ret ≡ allocated i
      → Took zmd s i (alloc_res c faulty mod' s zmd).zmd
  unfolding alloc_res
  alloc_res-Took {i} e = elim (Bool-cases faulty) [
    | inl f ↦ absurd (ground arith)
    | inr f ↦ elim (Bool-cases (is_user mod' && ltb zmd.nr_allocable_blks zmd.reserved_blks_gc)) [
      | inl g ↦ absurd (ground arith)
      | inr g ↦
          rw (f, g)
            (Outcome-Took v stream (alloc_in_stream-Outcome c mod' s v stream) (ground arith))
    ]
  ]
