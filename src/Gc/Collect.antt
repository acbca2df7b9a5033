-- ===== src/Gc/Collect.antt =====
-- `__gc_one_zone`: the blocks it submits, and its last read.
use lbz.Prelude.{
  ◌≤◌, Bool-cases, ℕ, zero, suc, ◌+◌, ◌-◌, ◌*◌, ◌/◌, ◌%◌, ◌<◌, ◌≡◌, refl, List, [], ◌∷◌, Option,
  none, some, ◌&&◌, length, get_elem?, get_elem?-lt, ltb, leb, ◌==◌, if◌then◌else◌, Option-cases,
  inl, inr, ◌⊎◌, dec_lt, arith,
}
use lbz.Prelude.Words.{word, long_word, inc32}
use lbz.Block.{sector_to_blkid}
use lbz.Zone.{Zone, get_zone, put_zone}
use lbz.Metadata.{ZoneMetadata, modify_zone, reverse_map_entries}
use lbz.Metadata.Invariant.{Inv}
use lbz.Metadata.ReleaseLaws.{modify_zone-Inv}
use lbz.Metadata.ReverseMap.{reverse_entry}
use lbz.Mapping.{invalid_pbid}
use lbz.Gc.{Counters, Collected, scan, hold, finish, gc_one_zone}

-- The block that was submitted for a physical one.
abbrev pub submitted_for : ℕ → List (ℕ × ℕ) → Option ℕ
submitted_for p [] = none
submitted_for p ((q, b) ∷ rest) = if q == p then some b else submitted_for p rest

-- Each submission is of a later physical block than those before it, the first one not before `start`.
abbrev pub IsAscending : ℕ → List (ℕ × ℕ) → Type 0
IsAscending start [] = Unit {0}
IsAscending start ((p, b) ∷ rest) = (start ≤ p) × IsAscending (p + 1) rest

IsAscending-le :
    (start from : ℕ) (log : List (ℕ × ℕ))
    → start ≤ from
    → IsAscending from log
    → IsAscending start log
IsAscending-le start from [] h v = tt
IsAscending-le start from ((p, b) ∷ rest) h v = (omega (arith, h, v.0), v.1)

abbrev pub valid : Option ℕ → Option ℕ
valid none = none
valid (some b) = if b == invalid_pbid then none else some b

-- The entries from `iter` to `iter + n`, the last one included, are in the map.
abbrev pub Readable : List (List ℕ) → ℕ → ℕ → Type 0
Readable zrms iter zero = (b : ℕ) × (reverse_entry zrms iter ≡ some b)
Readable zrms iter (suc n) =
    ((b : ℕ) × (reverse_entry zrms iter ≡ some b)) × Readable zrms (iter + 1) n

lt_cases : (a b : ℕ) → (a < b) ⊎ ((a ≡ b) ⊎ (b < a))
lt_cases a b = elim (dec_lt a b) [
  | yes h ↦ inl h
  | no h ↦ elim (dec_lt b a) [ yes k ↦ inr (inr k) | no k ↦ inr (inl (omega arith)) ]
]

later_index : (iter pbid p : ℕ) → pbid < p → iter + 1 + (p - (pbid + 1)) ≡ iter + (p - pbid)
later_index iter pbid p h = omega arith

first_index : (iter pbid p : ℕ) → pbid ≡ p → iter + (p - pbid) ≡ iter
first_index iter pbid p h = omega arith

scan-some :
    (zrms : List (List ℕ)) (n iter pbid : ℕ)
    → Readable zrms iter n
    → pbid + n < word
    → (log : List (ℕ × ℕ)) × (scan zrms n iter pbid ≡ some log)
      × ((p : ℕ)
          → submitted_for p log ≡ (
              if leb pbid p && ltb p (pbid + n)
              then valid (reverse_entry zrms (iter + (p - pbid)))
              else none))
      × IsAscending pbid log
unfolding scan inc32
scan-some zrms zero iter pbid (b, e) h = ([], ground (arith, e), λ p. ground arith, tt)
scan-some zrms (suc n) iter pbid ((b, e), r) h =
    let (log, f, law, rising) = scan-some zrms n (iter + 1) (pbid + 1) r (omega arith) in
    let next : (pbid + 1) % word ≡ pbid + 1 = omega arith in
    (
      if b == invalid_pbid then log else (pbid, b) ∷ log,
      rw (e, next, f) refl,
      λ p. elim (lt_cases pbid p) [
        | inl below ↦ ground (arith, law p, later_index iter pbid p below)
        | inr (inl same) ↦ ground (arith, law p, e, first_index iter pbid p same)
        | inr (inr above) ↦ ground (arith, law p)
      ],
      elim (Bool-cases (b == invalid_pbid)) [
        | inl invalid ↦ rw invalid (IsAscending-le pbid (pbid + 1) log (omega arith) rising)
        | inr held ↦ rw held (omega arith, rising)
      ],
    )

-- Every page of the map is whole.
abbrev pub WholePages : List (List ℕ) → Type 0
WholePages [] = Unit {0}
WholePages (page ∷ rest) = (length page ≡ reverse_map_entries) × WholePages rest

whole_page :
    (zrms : List (List ℕ)) (k : ℕ)
    → WholePages zrms
    → k < length zrms
    → (page : List ℕ) × (get_elem? zrms k ≡ some page) × (length page ≡ reverse_map_entries)
whole_page [] k w h = absurd (omega arith)
whole_page (page ∷ rest) zero w h = (page, refl, w.0)
whole_page (page ∷ rest) (suc k) w h = whole_page rest k w.1 (omega arith)

reverse_entry-some :
    (zrms : List (List ℕ)) (d : ℕ)
    → WholePages zrms
    → d < length zrms * reverse_map_entries
    → (b : ℕ) × (reverse_entry zrms d ≡ some b)
unfolding reverse_entry
reverse_entry-some zrms d w h =
    let (page, e, full) = whole_page zrms (d / reverse_map_entries) w (omega arith) in
    let (b, at) = get_elem?-lt page (d % reverse_map_entries) (omega (arith, full)) in
    (b, ground (arith, e, at))

readable :
    (zrms : List (List ℕ)) (n iter : ℕ)
    → WholePages zrms
    → iter + n < length zrms * reverse_map_entries
    → Readable zrms iter n
readable zrms zero iter w h = reverse_entry-some zrms iter w (omega arith)
readable zrms (suc n) iter w h =
    (reverse_entry-some zrms iter w (omega arith), readable zrms n (iter + 1) w (omega arith))

hold-keeps : (n : ℕ) (z : Zone) → ((hold n z).wp_block ≡ z.wp_block) × ((hold n z).flags ≡ z.flags)
unfolding hold get_zone
hold-keeps zero z = (refl, refl)
hold-keeps (suc n) z = hold-keeps n (get_zone z)

finish-keeps :
    (n : ℕ) (z : Zone)
    → ((finish n z).wp_block ≡ z.wp_block)
      × ((finish n z).flags.to_full ≡ z.flags.to_full)
      × ((finish n z).flags.gc ≡ z.flags.gc)
unfolding finish put_zone
finish-keeps n z = ground (arith, hold-keeps n z)

from_zero : (d : ℕ) → 0 + d ≡ d
from_zero d = omega arith

-- The run over a zone whose write pointer stops short of the end of its reverse map faults nowhere. It
-- submits, for each physical block below the write pointer that is valid, the block it belongs to, once and
-- in ascending order, and nothing else; it counts each submission as in flight, keeps the invariant of the
-- zone metadata, and leaves the zone's mark LBZ_ZONE_GC as it was.
pub gc_one_zone_lem :
    (zmd : ZoneMetadata) (k : Counters) (i : ℕ)
    → Inv zmd
    → WholePages (zmd.zones i).zrms
    → (zmd.zones i).wp_block < length (zmd.zones i).zrms * reverse_map_entries
    → sector_to_blkid (zmd.zones i).start_sector + (zmd.zones i).wp_block < word
    → (r : Collected) × (gc_one_zone zmd k i ≡ some r)
      × ((p : ℕ)
          → submitted_for p r.submitted ≡ (
              if leb (sector_to_blkid (zmd.zones i).start_sector) p
                && ltb p (sector_to_blkid (zmd.zones i).start_sector + (zmd.zones i).wp_block)
              then valid (
                  reverse_entry (zmd.zones i).zrms (p - sector_to_blkid (zmd.zones i).start_sector))
              else none))
      × IsAscending (sector_to_blkid (zmd.zones i).start_sector) r.submitted
      × (r.counters.gc_inflight_io_cnt ≡ (k.gc_inflight_io_cnt + length r.submitted) % long_word)
      × Inv r.zmd
      × ((r.zmd.zones i).flags.gc ≡ (zmd.zones i).flags.gc)
unfolding gc_one_zone
gc_one_zone_lem zmd k i v w h s =
    let z = zmd.zones i in
    let (log, e, law, rising) =
      scan-some z.zrms z.wp_block 0 (sector_to_blkid z.start_sector)
        (readable z.zrms z.wp_block 0 w (omega (arith, h))) s in
    let (wp, to_full, gc) = finish-keeps (length log) z in
    (
      record {
        submitted = log;
        zmd = modify_zone zmd i (finish (length log));
        counters = record {
          gc_inflight_io_cnt = (k.gc_inflight_io_cnt + length log) % long_word;
          gc_reset_blocks = (k.gc_reset_blocks + z.wp_block) % long_word;
        };
      },
      rw e refl,
      λ p. ground (arith, law p, from_zero (p - sector_to_blkid z.start_sector)),
      rising,
      refl,
      modify_zone-Inv i (finish (length log) z) v wp to_full gc,
      ground (arith, gc),
    )

scan-none :
    (zrms : List (List ℕ)) (n iter pbid d : ℕ)
    → iter + n ≡ d
    → reverse_entry zrms d ≡ none
    → scan zrms n iter pbid ≡ none
unfolding scan
scan-none zrms zero iter pbid d at e = let here : iter ≡ d = omega arith in ground (arith, e, here)
scan-none zrms (suc n) iter pbid d at e = elim (Option-cases (reverse_entry zrms iter)) [
  | inl z ↦ rw z refl
  | inr (b, z) ↦ rw (z, scan-none zrms n (iter + 1) (inc32 pbid) d (omega arith) e) refl
]

get_elem?-length : (zrms : List (List ℕ)) → get_elem? zrms (length zrms) ≡ none
get_elem?-length [] = refl
get_elem?-length (page ∷ rest) = ground (arith, get_elem?-length rest)

reverse_entry_past_end :
    (zrms : List (List ℕ)) (d : ℕ)
    → d ≡ length zrms * reverse_map_entries
    → reverse_entry zrms d ≡ none
unfolding reverse_entry
reverse_entry_past_end zrms d h =
    let page : d / reverse_map_entries ≡ length zrms = omega arith in
    rw (page, get_elem?-length zrms) refl

-- Where the write pointer is at the end of the reverse map, which is so for a written zone of a multiple
-- of 1024 blocks, the loop reads the entry of a page past the array.
pub gc_one_zone_overrun :
    (zmd : ZoneMetadata) (k : Counters) (i : ℕ)
    → (zmd.zones i).wp_block ≡ length (zmd.zones i).zrms * reverse_map_entries
    → gc_one_zone zmd k i ≡ none
unfolding gc_one_zone
gc_one_zone_overrun zmd k i h =
    let z = zmd.zones i in
    rw
      (scan-none z.zrms z.wp_block 0 (sector_to_blkid z.start_sector) z.wp_block (omega arith)
        (reverse_entry_past_end z.zrms z.wp_block h))
      refl
