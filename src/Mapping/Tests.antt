-- ===== src/Mapping/Tests.antt =====
-- Concrete trees: the layout of a 64-bit kernel without lock debugging, and a device of ten blocks.
use lbz.Prelude.{refl, List, [], ◌∷◌, ◌+◌, ◌<◌, ◌≡◌, some, none, arith}
use lbz.Mapping.{
  Layout, Mapping, leaf_node_entries, int_node_entries, invalid_pbid, mapped, add, remove,
}
use lbz.Mapping.Init.{init, destroy, nr_internal_node, nr_leaf_node}
use lbz.Mapping.Access.{IsTree, Replaces, add_lem, access_past_end}
use lbz.Mapping.Build.{init-IsTree, mapped-init}
use lbz.Mapping.Flat.{Access, adds, removes, finds, answers, on_tree, on_array, same_answers}
use lbz.Mapping.Destroy.{destroy-some}

abbrev pub real : Layout
real = record { leaf_header = 12; int_header = 8; pointer = 8 }

pub leaves_real : 0 < leaf_node_entries real
unfolding leaf_node_entries
leaves_real = omega arith

pub children_real : 0 < int_node_entries real
unfolding int_node_entries
children_real = omega arith

abbrev pub fresh : Mapping
fresh = (init real 80).0

init-IsTree_example :
    IsTree real fresh
    × (fresh.max_blkid ≡ 10)
    × ((init real 80).1 ≡ nr_internal_node real 10 + nr_leaf_node real 10)
init-IsTree_example = init-IsTree real leaves_real children_real 80 (omega arith)

pub tree_fresh : IsTree real fresh
tree_fresh = (init-IsTree real leaves_real children_real 80 (omega arith)).0

pub size_fresh : fresh.max_blkid ≡ 10
size_fresh = (init-IsTree real leaves_real children_real 80 (omega arith)).1

mapped-init_example : mapped real fresh 7 ≡ some invalid_pbid
mapped-init_example = mapped-init real leaves_real children_real 80 (omega arith) 7 (omega arith)

pub mapped-fresh : mapped real fresh 7 ≡ some invalid_pbid
mapped-fresh = mapped-init real leaves_real children_real 80 (omega arith) 7 (omega arith)

-- A block is written twice, found and freed; the last one is past the end.
abbrev accesses : List Access
accesses = adds 3 40 ∷ adds 3 41 ∷ finds 3 ∷ removes 3 ∷ finds 3 ∷ finds 9 ∷ []

same_answers_example :
    answers (on_tree real) accesses fresh ≡ answers (on_array 10) accesses (λ _. invalid_pbid)
same_answers_example = same_answers real leaves_real children_real 80 (omega arith) accesses

array_answers :
    answers (on_array 10) accesses (λ _. invalid_pbid)
    ≡ some (invalid_pbid ∷ 40 ∷ 41 ∷ 41 ∷ invalid_pbid ∷ invalid_pbid ∷ [])
unfolding answers on_array
array_answers = refl

array_refuses : answers (on_array 10) (adds 3 40 ∷ finds 10 ∷ []) (λ _. invalid_pbid) ≡ none
unfolding answers on_array
array_refuses = refl

add_lem_example : Replaces real tree_fresh 3 40 (add real fresh 3 40)
add_lem_example = add_lem real tree_fresh 3 40 (omega (arith, size_fresh))

access_past_end_example :
    (add real fresh 10 40 ≡ none) × (remove real fresh 10 ≡ none) × (mapped real fresh 10 ≡ none)
access_past_end_example = access_past_end real fresh 10 40 (omega (arith, size_fresh))

destroy-some_example :
    destroy real fresh
    ≡ some (nr_internal_node real fresh.max_blkid + nr_leaf_node real fresh.max_blkid)
destroy-some_example = destroy-some real tree_fresh children_real
