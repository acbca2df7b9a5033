-- ===== src/Request/Pieces.antt =====
-- The pieces of a long bio.
use lbz.Prelude.{
  ℕ, zero, suc, ◌+◌, ◌-◌, ◌%◌, ◌≤◌, ◌<◌, ◌≡◌, ◌∙◌, refl, List, [], ◌∷◌, ◌++◌, ltb, Bool-cases, inl,
  inr, arith,
}
use lbz.Request.{Bio, max_sectors, split_loop, split_bio}

-- The kernel's promise on `bio_split`.
pub record Splits (bio_split : Bio → ℕ → Bio × Bio) : Type 0 where
  pub front_sector : (b : Bio) (n : ℕ) → n < b.sectors → (bio_split b n).0.sector ≡ b.sector
  pub front_sectors : (b : Bio) (n : ℕ) → n < b.sectors → (bio_split b n).0.sectors ≡ n
  pub rest_sector : (b : Bio) (n : ℕ) → n < b.sectors → (bio_split b n).1.sector ≡ b.sector + n
  pub rest_sectors : (b : Bio) (n : ℕ) → n < b.sectors → (bio_split b n).1.sectors ≡ b.sectors - n

-- The pieces follow each other from `sector` on, `n` sectors in all; each starts at a block's first sector
-- and lies within that block.
abbrev pub Tiles : ℕ → ℕ → List Bio → Type 0
Tiles sector n [] = n ≡ 0
Tiles sector n (p ∷ rest) =
    (p.sector ≡ sector)
    × (sector % 8 ≡ 0)
    × (0 < p.sectors)
    × (p.sectors ≤ 8)
    × (p.sectors ≤ n)
    × Tiles (sector + p.sectors) (n - p.sectors) rest

module _ (bio_split : Bio → ℕ → Bio × Bio) (law : Splits bio_split) where
  split_loop-Tiles :
      (n : ℕ) (b : Bio) (sector sectors : ℕ)
      → b.sector ≡ sector
      → b.sectors ≡ sectors
      → sectors ≤ n
      → 0 < sectors
      → sector % 8 ≡ 0
      → Tiles sector sectors ((split_loop bio_split n b).0 ++ ((split_loop bio_split n b).1 ∷ []))
  unfolding split_loop
  split_loop-Tiles zero b s l at len h pos al = absurd (omega arith)
  split_loop-Tiles (suc n) b s l at len h pos al = elim (Bool-cases (ltb max_sectors b.sectors)) [
    | inr short ↦ rw short (at, al, omega arith, ground arith, omega arith, omega arith)
    | inl long ↦
        let k : 8 < b.sectors = ground arith in
        let rec =
          split_loop-Tiles n (bio_split b 8).1 (s + 8) (l - 8)
            (omega (arith, law.rest_sector b 8 k)) (omega (arith, law.rest_sectors b 8 k))
            (omega arith) (omega arith) (omega arith) in
        rw (long, law.front_sectors b 8 k)
          (law.front_sector b 8 k ∙ at, al, omega arith, omega arith, omega arith, rec)
  ]

  -- A bio that starts at a block's first sector is cut into pieces that tile it, each within one block:
  -- the loop ends within the rounds that its length allows.
  pub split_bio-Tiles :
      (b : Bio)
      → 0 < b.sectors
      → b.sector % 8 ≡ 0
      → Tiles b.sector b.sectors (split_bio bio_split b)
  unfolding split_bio
  split_bio-Tiles b pos al =
      split_loop-Tiles b.sectors b b.sector b.sectors refl refl (omega arith) pos al
