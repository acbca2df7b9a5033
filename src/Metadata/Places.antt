-- ===== src/Metadata/Places.antt =====
-- Where a zone is: how often it stands in a list or as an active zone. And how many blocks are left.
use lbz.Prelude.{
  ℕ, zero, suc, ◌+◌, ◌-◌, ◌*◌, ◌≤◌, ◌<◌, ◌≡◌, refl, List, [], ◌∷◌, ◌++◌, Option, none, some, length,
  update, dec_lt, ◌==◌, if◌then◌else◌, arith,
}
use lbz.Zone.{Zone}
use lbz.Metadata.{list_del}

abbrev pub count : ℕ → List ℕ → ℕ
count i [] = 0
count i (j ∷ js) = (if j == i then 1 else 0) + count i js

abbrev pub held : Option ℕ → ℕ → ℕ
held none i = 0
held (some j) i = if j == i then 1 else 0

pub count-append : (i : ℕ) (xs ys : List ℕ) → count i (xs ++ ys) ≡ count i xs + count i ys
count-append i [] ys = omega arith
count-append i (x ∷ xs) ys = omega (arith, count-append i xs ys)

pub count-list_del :
    (i j : ℕ) (xs : List ℕ)
    → 0 < count j xs
    → count i (list_del j xs) + (if j == i then 1 else 0) ≡ count i xs
unfolding list_del
count-list_del i j [] h = elim h [ ]
count-list_del i j (x ∷ xs) h = ground (arith, count-list_del i j xs)

pub length-list_del :
    (j : ℕ) (xs : List ℕ) → 0 < count j xs → length (list_del j xs) + 1 ≡ length xs
unfolding list_del
length-list_del j [] h = elim h [ ]
length-list_del j (x ∷ xs) h = ground (arith, length-list_del j xs)

-- The blocks past the write pointers of the first `n` zones, of `nr` blocks each.
unfoldable pub space : ℕ → (ℕ → Zone) → ℕ → ℕ
space nr zones zero = 0
space nr zones (suc n) = space nr zones n + (nr - (zones n).wp_block)

pub space-update_of_le :
    (nr : ℕ) (zones : ℕ → Zone) (n i : ℕ) (z : Zone)
    → n ≤ i
    → space nr (update zones i z) n ≡ space nr zones n
unfolding space
space-update_of_le nr zones zero i z h = refl
space-update_of_le nr zones (suc n) i z h = ground (arith, space-update_of_le nr zones n i z)

pub space-update :
    (nr : ℕ) (zones : ℕ → Zone) (n i : ℕ) (z : Zone)
    → i < n
    → space nr (update zones i z) n + (nr - (zones i).wp_block)
      ≡ space nr zones n + (nr - z.wp_block)
unfolding space
space-update nr zones zero i z h = elim h [ ]
space-update nr zones (suc n) i z h = elim (dec_lt i n) [
  | yes below ↦ ground (arith, space-update nr zones n i z below)
  | no last ↦ ground (arith, space-update_of_le nr zones n i z)
]

pub space-le : (nr : ℕ) (zones : ℕ → Zone) (n : ℕ) → space nr zones n ≤ n * nr
unfolding space
space-le nr zones zero = omega arith
space-le nr zones (suc n) = omega (arith, space-le nr zones n)

pub le-space :
    (nr : ℕ) (zones : ℕ → Zone) (n i : ℕ) → i < n → nr - (zones i).wp_block ≤ space nr zones n
unfolding space
le-space nr zones zero i h = elim h [ ]
le-space nr zones (suc n) i h = elim (dec_lt i n) [
  | yes below ↦ omega (arith, le-space nr zones n i below)
  | no last ↦ ground arith
]
