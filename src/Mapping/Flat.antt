-- ===== src/Mapping/Flat.antt =====
-- src/lbz-mapping.c beside an independent description of it: one array with an entry for each block.
use lbz.Prelude.{
  ℕ, ◌<◌, ◌≤◌, ◌≡◌, refl, ◌∙◌, ◌*◌, ◌/◌, ◌^◌, List, [], ◌∷◌, Option, none, some, ◌>>=◌, ltb,
  if◌then◌else◌, update, dec_lt, ◌⊎◌, inl, inr, arith,
}
use lbz.Mapping.{
  Layout, Mapping, leaf_node_entries, int_node_entries, invalid_pbid, mapped, add, remove,
}
use lbz.Mapping.Init.{init}
use lbz.Mapping.Access.{IsTree, add_lem, remove-eq-add, access_past_end}
use lbz.Mapping.Build.{init-IsTree, mapped-init}

-- An access to the mapping.
pub data Access : Type 0 where
  adds : ℕ → ℕ → Access
  removes : ℕ → Access
  finds : ℕ → Access

-- What the accesses return, one after the other; `none` where one ends in a `BUG_ON` or a fault.
unfoldable pub answers :
    {S : Type 0} → (Access → S → Option (ℕ × S)) → List Access → S → Option (List ℕ)
answers access [] s = some []
answers access (a ∷ rest) s = do
  (answer, s') ← access a s
  others ← answers access rest s'
  some (answer ∷ others)

unfoldable pub on_tree : Layout → Access → Mapping → Option (ℕ × Mapping)
on_tree y (adds blkid pbid) m = add y m blkid pbid
on_tree y (removes blkid) m = remove y m blkid
on_tree y (finds blkid) m = do pbid ← mapped y m blkid; some (pbid, m)

-- The same on an array of `size` blocks.
unfoldable pub on_array : ℕ → Access → (ℕ → ℕ) → Option (ℕ × (ℕ → ℕ))
on_array size (adds blkid pbid) f =
    if ltb blkid size then some (f blkid, update f blkid pbid) else none
on_array size (removes blkid) f =
    if ltb blkid size then some (f blkid, update f blkid invalid_pbid) else none
on_array size (finds blkid) f = if ltb blkid size then some (f blkid, f) else none

module _ (y : Layout) (size : ℕ) where
  record Mirrors (m : Mapping) (f : ℕ → ℕ) : Type 0 where
    tree : IsTree y m
    size_eq : m.max_blkid ≡ size
    same : (b : ℕ) → b < size → mapped y m b ≡ some (f b)

  -- Both refuse an access, or both answer alike and stay alike.
  abbrev Agrees : Option (ℕ × Mapping) → Option (ℕ × (ℕ → ℕ)) → Type 0
  Agrees left right =
      ((left ≡ none) × (right ≡ none))
      ⊎ ((answer : ℕ) × (m : Mapping) × (f : ℕ → ℕ) × (left ≡ some (answer, m))
          × (right ≡ some (answer, f))
          × Mirrors m f)

  module _ (m : Mapping) (f : ℕ → ℕ) (v : Mirrors m f) where
    add-Agrees : (b p : ℕ) → Agrees (add y m b p) (on_array size (adds b p) f)
    unfolding on_array
    add-Agrees b p = elim (dec_lt b size) [
      | yes h ↦
          let (old, m', e, at, size', entry, tree) =
            add_lem y v.tree b p (omega (arith, h, v.size_eq)) in
          inr (
            f b,
            m',
            update f b p,
            ground (arith, e, at, v.same b h),
            ground (arith, h),
            record {
              tree = tree;
              size_eq = size' ∙ v.size_eq;
              same = λ c k. ground (arith, entry c, v.same c k);
            },
          )
      | no h ↦ inl ((access_past_end y m b p (omega (arith, h, v.size_eq))).0, ground (arith, h))
    ]

    access-Agrees : (a : Access) → Agrees (on_tree y a m) (on_array size a f)
    unfolding on_tree on_array
    access-Agrees (adds b p) = add-Agrees b p
    access-Agrees (removes b) = rw (remove-eq-add y v.tree b) (add-Agrees b invalid_pbid)
    access-Agrees (finds b) = elim (dec_lt b size) [
      | yes h ↦ inr (f b, m, f, ground (arith, v.same b h), ground (arith, h), v)
      | no h ↦ inl (
        ground (arith, (access_past_end y m b 0 (omega (arith, h, v.size_eq))).2),
        ground (arith, h),
      )
    ]

  answers_agree :
      (accesses : List Access) (m : Mapping) (f : ℕ → ℕ)
      → Mirrors m f
      → answers (on_tree y) accesses m ≡ answers (on_array size) accesses f
  unfolding answers
  answers_agree [] m f v = refl
  answers_agree (a ∷ rest) m f v = elim (access-Agrees m f v a) [
    | inl (left, right) ↦ rw (left, right) refl
    | inr (answer, m', f', left, right, w) ↦ rw (left, right, answers_agree rest m' f' w) refl
  ]

-- Any accesses to the mapping of a device of at most 64 GiB, one after the other from its initialisation
-- on, return what they return on one array with an entry for each block, at first all invalid: the same
-- entries, or both the `BUG_ON` that an access past the end of the device runs into.
pub same_answers :
    (y : Layout)
    → 0 < leaf_node_entries y
    → 0 < int_node_entries y
    → (sectors : ℕ) → sectors / 8 ≤ 64 * 2 ^ 18
    → (accesses : List Access)
    → answers (on_tree y) accesses (init y sectors).0
      ≡ answers (on_array (sectors / 8)) accesses (λ _. invalid_pbid)
same_answers y leaves children sectors small accesses =
    let (tree, size_eq, _) = init-IsTree y leaves children sectors small in
    answers_agree y (sectors / 8) accesses (init y sectors).0 (λ _. invalid_pbid)
      (record {
        tree = tree;
        size_eq = size_eq;
        same = mapped-init y leaves children sectors small;
      })
