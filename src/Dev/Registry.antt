-- ===== src/Dev/Registry.antt =====
-- The list of devices as a map from minors to devices: `lbz_dev_find_by_minor` before and after a device
-- enters or leaves the list.
use mathlib.Core.Path.{subst}
use lbz.Prelude.{
  ℕ, ◌≤◌, ◌⊎◌, ap, sym, ◌∙◌, ◌<◌, ◌≡◌, ◌≢◌, refl, List, [], ◌∷◌, Option, none, some, Bool, true,
  false, ◌==◌, if◌then◌else◌, Bool-cases, inl, inr, arith,
}
use lbz.Metadata.{list_del}
use lbz.Dev.{LbzDevice, Disk, minors, idx_to_first_minor, find_in}

-- A device in the list: it was allocated, its index is given out and below LBZ_MINORS, and its disk's first
-- minor was made from it.
pub record IsListed (next : ℕ) (given : ℕ → Bool) (i : ℕ) (d : LbzDevice) : Type 0 where
  pub allocated : i < next
  pub is_given : given d.minor ≡ true
  pub small : d.minor < minors
  pub disk : Disk
  pub disk_eq : d.disk ≡ some disk
  pub first_minor_eq : disk.first_minor ≡ idx_to_first_minor d.minor

-- No device of the list has the minor.
abbrev pub IsFree : (ℕ → LbzDevice) → ℕ → List ℕ → Type 0
IsFree devices m [] = Unit {0}
IsFree devices m (i ∷ rest) = ((devices i).minor ≢ m) × IsFree devices m rest

-- Every device of the list is as above, and no two have one minor.
abbrev pub AreListed : (ℕ → LbzDevice) → ℕ → (ℕ → Bool) → List ℕ → Type 0
AreListed devices next given [] = Unit {0}
AreListed devices next given (i ∷ rest) =
    IsListed next given i (devices i)
    × IsFree devices (devices i).minor rest
    × AreListed devices next given rest

-- Who has the minor, as a map.
abbrev pub Registry : Type 0
Registry = ℕ → Option ℕ

module _ (devices : ℕ → LbzDevice) where
  pub find_in-IsFree : (m : ℕ) (is : List ℕ) → IsFree devices m is → find_in devices m is ≡ none
  unfolding find_in
  find_in-IsFree m [] free = refl
  find_in-IsFree m (i ∷ is) free = ground (arith, free.0, find_in-IsFree m is free.1)

  IsFree-eq : {m n : ℕ} (is : List ℕ) → m ≡ n → IsFree devices m is → find_in devices n is ≡ none
  IsFree-eq is e free = subst (λ n. find_in devices n is ≡ none) e (find_in-IsFree _ is free)

  -- The list without one of its devices.
  pub find_in-list_del :
      (next : ℕ) (given : ℕ → Bool) (i m : ℕ) (is : List ℕ)
      → AreListed devices next given is
      → find_in devices (devices i).minor is ≡ some i
      → find_in devices m (list_del i is)
        ≡ (if (devices i).minor == m then none else find_in devices m is)
  unfolding find_in list_del
  find_in-list_del next given i m [] v e = absurd (cc)
  find_in-list_del next given i m (j ∷ is) v e = elim (Bool-cases (j == i)) [
    | inl here ↦
        let same : j ≡ i = ground (arith, here) in
        let minor_eq : (devices j).minor ≡ (devices i).minor = ap (λ x. (devices x).minor) same in
        elim (Bool-cases ((devices i).minor == m)) [
          | inl found ↦
              let e' : (devices j).minor ≡ m = ground (arith, minor_eq, found) in
              rw (here, found) (IsFree-eq is e' v.1)
          | inr other ↦ ground (arith, here, other, minor_eq)
        ]
    | inr there ↦
        let unlike : (devices j).minor == (devices i).minor ≡ false = ground (arith, e, there) in
        let e' : find_in devices (devices i).minor is ≡ some i = ground (arith, e, unlike) in
        ground (arith, there, unlike, find_in-list_del next given i m is v.2 e')
  ]

-- Changes to devices that leave their minors alone, and to others, do not show.
pub find_in-same :
    (f g : ℕ → LbzDevice) (next : ℕ) (given : ℕ → Bool) (m : ℕ) (is : List ℕ)
    → AreListed f next given is
    → ((j : ℕ) → j < next → (g j).minor ≡ (f j).minor)
    → find_in g m is ≡ find_in f m is
unfolding find_in
find_in-same f g next given m [] v same = refl
find_in-same f g next given m (j ∷ is) v same =
    ground (arith, same j v.0.allocated, find_in-same f g next given m is v.2 same)

-- What is needed of a device to stay in the list.
pub record Stays (f g : ℕ → LbzDevice) (next : ℕ) : Type 0 where
  pub minor_eq : (j : ℕ) → j < next → (g j).minor ≡ (f j).minor
  pub disk_eq : (j : ℕ) → j < next → (g j).disk ≡ (f j).disk

pub IsFree-Stays :
    (f g : ℕ → LbzDevice) (next : ℕ) (given : ℕ → Bool) (m : ℕ) (is : List ℕ)
    → Stays f g next
    → AreListed f next given is
    → IsFree f m is
    → IsFree g m is
IsFree-Stays f g next given m [] s v free = tt
IsFree-Stays f g next given m (j ∷ is) s v free = (
  ground (arith, s.minor_eq j v.0.allocated, free.0),
  IsFree-Stays f g next given m is s v.2 free.1,
)

-- The list keeps its property while its devices stay, more are allocated, and their indices stay given.
pub AreListed-Stays :
    (f g : ℕ → LbzDevice) (next next' : ℕ) (given given' : ℕ → Bool) (is : List ℕ)
    → Stays f g next
    → next ≤ next'
    → AreListed f next given is
    → ((j : ℕ) → given j ≡ true → IsFree f j is ⊎ (given' j ≡ true))
    → AreListed g next' given' is
AreListed-Stays f g next next' given given' [] s le v keep = tt
AreListed-Stays f g next next' given given' (j ∷ is) s le v keep =
    let m = s.minor_eq j v.0.allocated in
    let still : given' (f j).minor ≡ true = elim (keep (f j).minor v.0.is_given) [
      | inl free ↦ absurd (free.0 refl)
      | inr kept ↦ kept
    ] in
    (
      record {
        allocated = omega (arith, v.0.allocated);
        is_given = ap given' m ∙ still;
        small = rw m (v.0.small);
        disk = v.0.disk;
        disk_eq = s.disk_eq j v.0.allocated ∙ v.0.disk_eq;
        first_minor_eq = v.0.first_minor_eq ∙ ap idx_to_first_minor (sym m);
      },
      subst (λ n. IsFree g n is) (sym m) (IsFree-Stays f g next given (f j).minor is s v.2 v.1),
      AreListed-Stays f g next next' given given' is s le v.2
          (λ n h. elim (keep n h) [ inl free ↦ inl (free.1) | inr kept ↦ inr kept ]),
    )

-- A number that is not a minor of the list may be given back.
pub IsFree-of_not_given :
    (f : ℕ → LbzDevice) (next : ℕ) (given : ℕ → Bool) (m : ℕ) (is : List ℕ)
    → AreListed f next given is
    → given m ≡ false
    → IsFree f m is
IsFree-of_not_given f next given m [] v e = tt
IsFree-of_not_given f next given m (j ∷ is) v e = (
  λ same. absurd (ground (arith, v.0.is_given, same, e)),
  IsFree-of_not_given f next given m is v.2 e,
)

pub IsFree-of_large :
    (f : ℕ → LbzDevice) (next : ℕ) (given : ℕ → Bool) (m : ℕ) (is : List ℕ)
    → AreListed f next given is
    → minors ≤ m
    → IsFree f m is
IsFree-of_large f next given m [] v e = tt
IsFree-of_large f next given m (j ∷ is) v e =
    (λ same. absurd (omega (arith, v.0.small, same, e)), IsFree-of_large f next given m is v.2 e)

-- The list without a device keeps its property.
pub IsFree-list_del :
    (f : ℕ → LbzDevice) (i m : ℕ) (is : List ℕ) → IsFree f m is → IsFree f m (list_del i is)
unfolding list_del
IsFree-list_del f i m [] free = tt
IsFree-list_del f i m (j ∷ is) free = elim (Bool-cases (j == i)) [
  | inl here ↦ rw here (free.1)
  | inr there ↦ rw there (free.0, IsFree-list_del f i m is free.1)
]

pub AreListed-list_del :
    (f : ℕ → LbzDevice) (next : ℕ) (given : ℕ → Bool) (i : ℕ) (is : List ℕ)
    → AreListed f next given is
    → AreListed f next given (list_del i is)
unfolding list_del
AreListed-list_del f next given i [] v = tt
AreListed-list_del f next given i (j ∷ is) v = elim (Bool-cases (j == i)) [
  | inl here ↦ rw here (v.2)
  | inr there ↦
      rw there
        (v.0, IsFree-list_del f i (f j).minor is v.1, AreListed-list_del f next given i is v.2)
]

-- The device's minor is free in the list without it.
pub IsFree-self :
    (f : ℕ → LbzDevice) (next : ℕ) (given : ℕ → Bool) (i : ℕ) (is : List ℕ)
    → AreListed f next given is
    → find_in f (f i).minor is ≡ some i
    → IsFree f (f i).minor (list_del i is)
unfolding list_del find_in
IsFree-self f next given i [] v e = absurd (cc)
IsFree-self f next given i (j ∷ is) v e = elim (Bool-cases (j == i)) [
  | inl here ↦
      let same : j ≡ i = ground (arith, here) in
      rw here (subst (λ x. IsFree f (f x).minor is) same v.1)
  | inr there ↦
      let unlike : (f j).minor == (f i).minor ≡ false = ground (arith, e, there) in
      let e' : find_in f (f i).minor is ≡ some i = ground (arith, e, unlike) in
      rw there (ground (arith, unlike), IsFree-self f next given i is v.2 e')
]

pub IsListed-find_in :
    (f : ℕ → LbzDevice) (next : ℕ) (given : ℕ → Bool) (m i : ℕ) (is : List ℕ)
    → AreListed f next given is
    → find_in f m is ≡ some i
    → IsListed next given i (f i)
unfolding find_in
IsListed-find_in f next given m i [] v e = absurd (cc)
IsListed-find_in f next given m i (j ∷ is) v e = elim (Bool-cases ((f j).minor == m)) [
  | inl found ↦
      let same : j ≡ i = ground (arith, found, e) in
      subst (λ x. IsListed next given x (f x)) same v.0
  | inr other ↦ IsListed-find_in f next given m i is v.2 (ground (arith, other, e))
]
