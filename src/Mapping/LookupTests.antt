-- ===== src/Mapping/LookupTests.antt =====
-- A lookup after a store, on the tree of Mapping/Tests.antt and the device of Metadata/Tests.antt.
use lbz.Prelude.{ℕ, ◌/◌, ◌≡◌, some, arith}
use lbz.Metadata.Invariant.{Inv}
use lbz.Metadata.Tests.{device, device-Inv}
use lbz.Mapping.{Mapping, add}
use lbz.Mapping.Lookup.{answer_for, lookup, lookup-add}
use lbz.Mapping.Tests.{real, fresh, tree_fresh, size_fresh, mapped-fresh}

lookup-add_example :
    (old : ℕ) × (m' : Mapping) × (add real fresh 7 17 ≡ some (old, m'))
    × (lookup real (λ s. s / 64) m' device 7 ≡ some (answer_for real (λ s. s / 64) device 17))
    × Inv (answer_for real (λ s. s / 64) device 17).1
lookup-add_example =
    lookup-add real (λ s. s / 64) 7 7 17 tree_fresh device-Inv (omega (arith, size_fresh))
      mapped-fresh
