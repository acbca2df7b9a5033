-- ===== src/IoScheduler/Consistent.antt =====
-- The mapping and the reverse maps agree, and the completions of writes keep it so: `enter_write` is
-- the change that `lbz_write_io_endio` makes to both, `enter_copy` that of `__gc_task_callback`.
use lbz.Prelude.{
  ℕ, ◌≤◌, ◌<◌, ◌≡◌, ◌≢◌, refl, sym, Option, none, some, ◌==◌, ◌⊎◌, inl, inr, Bool-cases,
  if◌then◌else◌, arith,
}
use lbz.Prelude.Words.{word}
use lbz.Metadata.{ZoneMetadata, get_zone_by_pbid, update_reverse_map}
use lbz.Metadata.Release.{release_in_zone, release_block}
use lbz.Mapping.{Layout, Mapping, invalid_pbid, mapped}
use lbz.Mapping.Access.{IsTree, add_lem}
use lbz.IoScheduler.Callback.{enter_copy}
use lbz.IoScheduler.Write.{enter_write}
use lbz.IoScheduler.Reverse.{reverse_at, reverse_at-update, reverse_at-release_in_zone}

-- What the mapping says and what the reverse maps say is the same.
pub record Agree (y : Layout) (zone_no : ℕ → ℕ) (m : Mapping) (zmd : ZoneMetadata) : Type 0 where
  pub tree : IsTree y m
  pub bounded : m.max_blkid ≤ invalid_pbid
  pub forward :
      (b p : ℕ)
      → b < m.max_blkid
      → mapped y m b ≡ some p
      → p ≢ invalid_pbid
      → (p < invalid_pbid) × (reverse_at zone_no zmd p ≡ some b)
  pub backward :
      (p b : ℕ)
      → p < invalid_pbid
      → reverse_at zone_no zmd p ≡ some b
      → b ≢ invalid_pbid
      → (b < m.max_blkid) × (mapped y m b ≡ some p)

-- A run that enters `p` for the block `b`: it faults nowhere, moves no other block of the mapping, and
-- the two maps agree afterwards.
abbrev pub Enters :
    (y : Layout) (zone_no : ℕ → ℕ) (m : Mapping) (b p : ℕ)
    → Option (Mapping × ZoneMetadata)
    → Type 0
Enters y zone_no m b p result =
    (m' : Mapping) × (zmd' : ZoneMetadata) × (result ≡ some (m', zmd'))
    × Agree y zone_no m' zmd'
    × (m'.max_blkid ≡ m.max_blkid)
    × ((c : ℕ) → mapped y m' c ≡ (if b == c then some p else mapped y m c))

module _ (y : Layout) (zone_no : ℕ → ℕ) {m : Mapping} {zmd : ZoneMetadata}
    (v : Agree y zone_no m zmd) where
  -- The block `b` moves from `old` to `p`, which belonged to none.
  record Moved (b old p : ℕ) (m' : Mapping) (zmd' : ZoneMetadata) : Type 0 where
    tree : IsTree y m'
    same : m'.max_blkid ≡ m.max_blkid
    map_of : (c : ℕ) → mapped y m' c ≡ (if b == c then some p else mapped y m c)
    reverse_of :
        (q : ℕ)
        → q < invalid_pbid
        → reverse_at zone_no zmd' q ≡ (
            if p == q
            then some b
            else if old == q
            then some invalid_pbid
            else reverse_at zone_no zmd q)

  module _ (b old p : ℕ) {m' : Mapping} {zmd' : ZoneMetadata} where
    forward-Moved :
        b < m.max_blkid
        → p < invalid_pbid
        → mapped y m b ≡ some old
        → reverse_at zone_no zmd p ≡ some invalid_pbid
        → Moved b old p m' zmd'
        → (c q : ℕ) → c < m.max_blkid
        → mapped y m' c ≡ some q
        → q ≢ invalid_pbid
        → (q < invalid_pbid) × (reverse_at zone_no zmd' q ≡ some c)
    forward-Moved h hp e fresh w c q k f nq = elim (Bool-cases (b == c)) [
      | inl here ↦
          let same : p ≡ q = ground (arith, w.map_of c, f, here) in
          (ground (arith, same, hp), ground (arith, w.reverse_of q, same, hp, here))
      | inr there ↦
          let g : mapped y m c ≡ some q = ground (arith, w.map_of c, f, there) in
          let (lt, r) = v.forward c q k g nq in
          (
            lt,
            ground
                (arith, w.reverse_of q lt, r, fresh, there, e, g, v.bounded, v.forward b old h e),
          )
    ]

    backward-Moved :
        b < m.max_blkid
        → p < invalid_pbid
        → mapped y m b ≡ some old
        → Moved b old p m' zmd'
        → (q c : ℕ) → q < invalid_pbid
        → reverse_at zone_no zmd' q ≡ some c
        → c ≢ invalid_pbid
        → (c < m.max_blkid) × (mapped y m' c ≡ some q)
    backward-Moved h hp e w q c k f nc =
        let held = v.backward q c k in
        ground (arith, w.reverse_of q k, w.map_of c, f, held, e, nc, h)

    -- Moving a block keeps the agreement.
    Agree-Moved :
        b < m.max_blkid
        → p < invalid_pbid
        → mapped y m b ≡ some old
        → reverse_at zone_no zmd p ≡ some invalid_pbid
        → Moved b old p m' zmd'
        → Agree y zone_no m' zmd'
    Agree-Moved h hp e fresh w = record {
      tree = w.tree;
      bounded = rw (w.same) v.bounded;
      forward = λ c q k f nq. forward-Moved h hp e fresh w c q (rw (sym w.same) k) f nq;
      backward =
          λ q c k f nc. let (lt, g) = backward-Moved h hp e w q c k f nc in (rw w.same lt, g);
    }

  -- The completion of a user's write of the block `b` at `p`, a block that the reverse map of its zone
  -- shows as free, keeps the agreement: the entry of `b` becomes `p`, and if `b` had a block before,
  -- that block is free after.
  pub enter_write-Agree :
      (b zone p : ℕ)
      → b < m.max_blkid
      → p < invalid_pbid
      → zone ≡ get_zone_by_pbid zone_no p
      → reverse_at zone_no zmd p ≡ some invalid_pbid
      → Enters y zone_no m b p (enter_write y zone_no m zmd b zone p)
  unfolding enter_write release_block
  enter_write-Agree b zone p h hp at fresh =
      let (old, m', a, e, same, law, t) = add_lem y v.tree b p h in
      elim (Bool-cases (old == invalid_pbid)) [
        | inl unmapped ↦
            let w : Moved b old p m' (update_reverse_map zmd (get_zone_by_pbid zone_no p) p b) =
              record {
                tree = t;
                same = same;
                map_of = law;
                reverse_of = λ q k. ground (
                  arith,
                  reverse_at-update zone_no zmd p q b {old = invalid_pbid},
                  fresh,
                  unmapped,
                );
              } in
            (m', _, rw (a, unmapped, at) refl, Agree-Moved b old p h hp e fresh w, same, law)
        | inr had ↦
            let (lt, r) = v.forward b old h e (ground (arith, had)) in
            let zmd₁ = release_in_zone zmd (get_zone_by_pbid zone_no old) old in
            let after : (q : ℕ)
                → q < word
                → reverse_at zone_no zmd₁ q
                  ≡ (if old == q then some invalid_pbid else reverse_at zone_no zmd q) =
              λ q k. reverse_at-release_in_zone zone_no zmd old q {old = b} (omega arith) k r in
            let fresh₁ : reverse_at zone_no zmd₁ p ≡ some invalid_pbid =
              ground (arith, after p, fresh, hp) in
            let w : Moved b old p m' (update_reverse_map zmd₁ (get_zone_by_pbid zone_no p) p b) =
              record {
                tree = t;
                same = same;
                map_of = law;
                reverse_of = λ q k. ground (
                  arith,
                  reverse_at-update zone_no zmd₁ p q b {old = invalid_pbid},
                  fresh₁,
                  after q,
                  hp,
                );
              } in
            (m', _, rw (a, had, at) refl, Agree-Moved b old p h hp e fresh w, same, law)
      ]

  -- The completion of the collector's copy of the block `b` from `read_pbid` to `p`, a free block. While
  -- `b` is still mapped to `read_pbid`, or is mapped to nothing, the entry of `b` becomes `p` and the
  -- agreement is kept, so that `read_pbid` is free in the first case. Where `b` is mapped to another
  -- block, the run ends in the `BUG_ON`.
  pub enter_copy-Agree :
      (b zone p read_zone read_pbid : ℕ) {old : ℕ}
      → b < m.max_blkid
      → p < invalid_pbid
      → zone ≡ get_zone_by_pbid zone_no p
      → read_zone ≡ get_zone_by_pbid zone_no read_pbid
      → reverse_at zone_no zmd p ≡ some invalid_pbid
      → mapped y m b ≡ some old
      → ((old ≡ read_pbid) ⊎ (old ≡ invalid_pbid)
          → Enters y zone_no m b p (enter_copy y m zmd b zone p read_zone read_pbid))
        × (old ≢ read_pbid
            → old ≢ invalid_pbid
            → enter_copy y m zmd b zone p read_zone read_pbid ≡ none)
  unfolding enter_copy
  enter_copy-Agree b zone p read_zone read_pbid {old} h hp at at_read fresh e =
      let (old', m', a, e', same, law, t) = add_lem y v.tree b p h in
      let eq : old' ≡ old = ground (arith, e, e') in
      let zmd₁ = update_reverse_map zmd (get_zone_by_pbid zone_no p) p b in
      let set : (q : ℕ)
          → q < word
          → reverse_at zone_no zmd₁ q ≡ (if p == q then some b else reverse_at zone_no zmd q) =
        λ q k. reverse_at-update zone_no zmd p q b {old = invalid_pbid} (omega arith) k fresh in
      (
        λ mapped_so. elim (Bool-cases (old == invalid_pbid)) [
          | inl unmapped ↦
              let w : Moved b old p m' zmd₁ = record {
                tree = t;
                same = same;
                map_of = law;
                reverse_of = λ q k. ground (arith, set q, unmapped);
              } in
              (
                m',
                zmd₁,
                rw (a, eq, unmapped, at) (ground arith),
                Agree-Moved b old p h hp e fresh w,
                same,
                law,
              )
          | inr had ↦
              let from : old ≡ read_pbid = ground (arith, had, mapped_so) in
              let (lt, r) = v.forward b old h e (ground (arith, had)) in
              let kept : reverse_at zone_no zmd₁ old ≡ some b =
                ground (arith, set old, fresh, r, lt, h, v.bounded) in
              let zmd₂ = release_in_zone zmd₁ (get_zone_by_pbid zone_no old) old in
              let w : Moved b old p m' zmd₂ = record {
                tree = t;
                same = same;
                map_of = law;
                reverse_of = λ q k. ground (
                  arith,
                  reverse_at-release_in_zone zone_no zmd₁ old q {old = b} (omega (arith, lt))
                      (omega (arith, k)) kept,
                  set q,
                  fresh,
                  r,
                  h,
                  v.bounded,
                );
              } in
              (
                m',
                zmd₂,
                rw (a, eq, had, at, at_read, sym from) (ground (arith, had)),
                Agree-Moved b old p h hp e fresh w,
                same,
                law,
              )
        ],
        λ n k. rw (a, eq) (ground (arith, n, k)),
      )
