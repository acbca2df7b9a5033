-- ===== src/NatSit/Recording.antt =====
-- Recording a block for the end of a transaction.
use lbz.Prelude.{
  ℕ, ◌≤◌, ◌≡◌, refl, List, [], ◌∷◌, ◌++◌, ◌==◌, length, length-append, arith, Bool-cases, inl, inr,
}
use lbz.NatSit.{NatSit, node_entries, add_to_nodes, add_blkid}
use lbz.NatSit.CompleteLaws.{recorded}

append-nil : (xs : List ℕ) → xs ++ [] ≡ xs
append-nil [] = refl
append-nil (x ∷ xs) = ground (arith, append-nil xs)

append_assoc : (xs ys zs : List ℕ) → (xs ++ ys) ++ zs ≡ xs ++ (ys ++ zs)
append_assoc [] ys zs = refl
append_assoc (x ∷ xs) ys zs = ground (arith, append_assoc xs ys zs)

-- Every page holds as many blocks as it has room for, at most.
abbrev pub FitPages : List (List ℕ) → Type 0
FitPages [] = Unit {0}
FitPages (node ∷ rest) = (length node ≤ node_entries) × FitPages rest

recorded-add_to_nodes :
    (nodes : List (List ℕ)) (b : ℕ) → recorded (add_to_nodes nodes b) ≡ recorded nodes ++ (b ∷ [])
unfolding add_to_nodes
recorded-add_to_nodes [] b = refl
recorded-add_to_nodes (node ∷ []) b = ground (arith, append-nil node, append-nil (node ++ (b ∷ [])))
recorded-add_to_nodes (node ∷ next ∷ rest) b = ground (
  arith,
  recorded-add_to_nodes (next ∷ rest) b,
  append_assoc node (recorded (next ∷ rest)) (b ∷ []),
)

add_to_nodes-FitPages :
    (nodes : List (List ℕ)) (b : ℕ) → FitPages nodes → FitPages (add_to_nodes nodes b)
unfolding add_to_nodes
add_to_nodes-FitPages [] b h = (ground arith, tt)
add_to_nodes-FitPages (node ∷ []) b h = elim (Bool-cases (length node == node_entries)) [
  | inl e ↦ rw e (h.0, (ground arith, tt))
  | inr e ↦ rw e (ground (arith, length-append node (b ∷ []), h.0, e), tt)
]
add_to_nodes-FitPages (node ∷ next ∷ rest) b h = (h.0, add_to_nodes-FitPages (next ∷ rest) b h.1)

-- Recording a block puts it after the blocks recorded before, in pages that never take more than
-- their 1021 entries.
pub add_blkid_lem :
    (m : NatSit) (b : ℕ)
    → FitPages m.nodes
    → (recorded (add_blkid m b).nodes ≡ recorded m.nodes ++ (b ∷ []))
      × FitPages (add_blkid m b).nodes
unfolding add_blkid
add_blkid_lem m b h = (recorded-add_to_nodes m.nodes b, add_to_nodes-FitPages m.nodes b h)
