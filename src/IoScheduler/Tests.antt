-- ===== src/IoScheduler/Tests.antt =====
-- The laws of the completions on the concrete devices.
use lbz.Prelude.{
  Option, ◌+◌, inr, true, false, not, ◌&&◌, ◌||◌, ◌++◌, ◌==◌, if◌then◌else◌, ℕ, ◌≡◌, ◌≢◌, refl, [],
  ◌∷◌, some, none, ◌⊎◌, arith,
}
use lbz.Prelude.Words.{sub32}
use lbz.Prelude.Words.{inc32}
use lbz.Block.{sector_to_blkid, blkid_to_sector}
use lbz.Zone.{get_zone}
use lbz.Metadata.Places.{count}
use lbz.IoScheduler.{read_io}
use lbz.IoScheduler.TaskTree.{in_order}
use lbz.IoScheduler.TaskTree.Order.{Rising, find_task}
use lbz.IoScheduler.Tasks.{key_of, insert_task_to_tree}
use lbz.IoScheduler.Inserting.{holder, added, insert_task_to_tree_lem}
use lbz.IoScheduler.Read.{submit_read_io}
use lbz.IoScheduler.ReadBack.{answer_at, submit_read_io_lem, read_after_write}
use lbz.Metadata.{ZoneMetadata, get_zone_by_pbid}
use lbz.Metadata.Worker.{blank_page}
use lbz.Metadata.ReverseMap.{reverse_entry}
use lbz.Mapping.{Mapping, mapped, invalid_pbid}
use lbz.Mapping.Tests.{real, fresh, leaves_real, children_real, size_fresh, mapped-fresh}
use lbz.IoScheduler.Callback.{enter_copy}
use lbz.IoScheduler.Write.{enter_write}
use lbz.IoScheduler.Reverse.{reverse_at}
use lbz.IoScheduler.Consistent.{Agree, Enters, enter_write-Agree, enter_copy-Agree}
use lbz.IoScheduler.Fresh.{init-Agree}
use lbz.NatSit.{NatSit}
use lbz.NatSit.Complete.{tx_complete}
use lbz.IoScheduler.{Device, Task, ended}
use lbz.IoScheduler.Devices.{blank_device, one_zone, env, bio, waiting, copying, at_work}
use lbz.IoScheduler.Discard.{AreReleased, tx_complete-Agree}
use lbz.IoScheduler.Write.{write_io_endio}
use lbz.IoScheduler.Gc.{gc_write_endio}
use lbz.IoScheduler.WriteDone.{Dispatched, EndsAt, write_io_endio_lem}
use lbz.IoScheduler.CopyDone.{Copying, CanEnter, gc_write_endio_lem}

init-Agree_example : Agree real one_zone fresh blank_device
init-Agree_example =
    init-Agree real one_zone 80 blank_device leaves_real children_real (omega arith)
      (λ i. (1, refl))

fresh-Agree : Agree real one_zone fresh blank_device
fresh-Agree =
    init-Agree real one_zone 80 blank_device leaves_real children_real (omega arith)
      (λ i. (1, refl))

free_5 : reverse_at one_zone blank_device 5 ≡ some invalid_pbid
unfolding reverse_at get_zone_by_pbid reverse_entry blank_page sub32 sector_to_blkid
free_5 = refl

at_0 : 0 ≡ get_zone_by_pbid one_zone 5
unfolding get_zone_by_pbid
at_0 = refl

enter_write-Agree_example :
    Enters real one_zone fresh 7 5 (enter_write real one_zone fresh blank_device 7 0 5)
enter_write-Agree_example =
    enter_write-Agree real one_zone fresh-Agree 7 0 5 (omega (arith, size_fresh)) (omega arith) at_0
      free_5

at_read : 0 ≡ get_zone_by_pbid one_zone 9
unfolding get_zone_by_pbid
at_read = refl

enter_copy-Agree_example :
    ((invalid_pbid ≡ 9) ⊎ (invalid_pbid ≡ invalid_pbid)
      → Enters real one_zone fresh 7 5 (enter_copy real fresh blank_device 7 0 5 0 9))
    × (invalid_pbid ≢ 9
        → invalid_pbid ≢ invalid_pbid
        → enter_copy real fresh blank_device 7 0 5 0 9 ≡ none)
enter_copy-Agree_example =
    enter_copy-Agree real one_zone fresh-Agree 7 0 5 0 9 {old = invalid_pbid}
      (omega (arith, size_fresh)) (omega arith) at_0 at_read free_5 mapped-fresh

abbrev recording : NatSit
recording = record ((at_work waiting).nat_sit) { nodes = (7 ∷ []) ∷ []; to_free_count = 1 }

-- Block 7 written at the physical block 5.
entered : Enters real one_zone fresh 7 5 (enter_write real one_zone fresh blank_device 7 0 5)
entered =
    enter_write-Agree real one_zone fresh-Agree 7 0 5 (omega (arith, size_fresh)) (omega arith) at_0
      free_5

mapped-entered : mapped real entered.0 7 ≡ some 5
mapped-entered = ground (arith, entered.5 7)

tx_complete-Agree_example :
    (mapping' : Mapping) × (zmd' : ZoneMetadata) × (m' : NatSit) × (tx_complete real one_zone
        entered.0 entered.1 recording
      ≡ some (mapping', zmd', m'))
    × Agree real one_zone mapping' zmd'
    × (mapping'.max_blkid ≡ entered.0.max_blkid)
    × AreReleased real one_zone entered.0 mapping' zmd' (7 ∷ [])
tx_complete-Agree_example =
    tx_complete-Agree real one_zone recording entered.3 (omega (arith, entered.4, size_fresh), tt)

EndsAt-5 : (second : Task) → EndsAt env (at_work second) 0 (sector_to_blkid 40)
unfolding reverse_at get_zone_by_pbid reverse_entry blank_page sub32 sector_to_blkid
EndsAt-5 second = (omega arith, refl, refl)

written-Dispatched : Dispatched env (at_work waiting) 0 0
written-Dispatched = record {
  held = record {
    type_eq = refl;
    refcount = refl;
    integrity_buf = refl;
    waited = inr (
      1,
      refl,
      λ e. omega arith,
      record {
        error = refl;
        status = refl;
        read_zone = (0, refl);
        refcount = refl;
        integrity_buf = refl;
      },
    );
  };
  zone_eq = refl;
  status = refl;
}

write_io_endio_lem_example :
    (d' : Device) × (write_io_endio env (at_work waiting) 0 true 40 ≡ some d')
    × Agree real one_zone d'.mapping d'.zone_metadata
    × ((c : ℕ)
        → mapped real d'.mapping c
          ≡ (if true && 7 == c then some (sector_to_blkid 40) else mapped real fresh c))
    × (d'.events ≡ [] ++ (ended bio (not true) ∷ []))
    × (d'.faulty ≡ (false || not true))
    × ((d'.tasks 0).freed ≡ true)
write_io_endio_lem_example =
    write_io_endio_lem env (at_work waiting) 0 0 true 40 fresh-Agree written-Dispatched
      (omega (arith, size_fresh)) (λ h. EndsAt-5 waiting)

copying-Copying : Copying (at_work copying) 1 0 0
copying-Copying = record {
  status = refl;
  zone_eq = refl;
  read_zone_eq = refl;
  refcount = refl;
  integrity_buf = refl;
}

can_enter : CanEnter env (at_work copying) 7 0 (sector_to_blkid 40) 0 9
unfolding get_zone_by_pbid
can_enter = (EndsAt-5 copying, refl, invalid_pbid, mapped-fresh, inr refl)

gc_write_endio_lem_example :
    (d' : Device) × (gc_write_endio env (at_work copying) 1 none 40 ≡ some d')
    × Agree real one_zone d'.mapping d'.zone_metadata
    × ((c : ℕ)
        → mapped real d'.mapping c ≡ (
            if (not false && true) && 7 == c
            then some (sector_to_blkid 40)
            else mapped real fresh c))
    × (d'.events ≡ [])
    × (d'.faulty ≡ (false || not true))
    × ((d'.tasks 1).freed ≡ true)
gc_write_endio_lem_example =
    gc_write_endio_lem env (at_work copying) 1 0 0 none 40 fresh-Agree copying-Copying
      (omega (arith, size_fresh)) (λ h. can_enter)

block_7 : sector_to_blkid bio.sector ≡ 7
unfolding sector_to_blkid
block_7 = refl

read_after_write_example :
    (d' d'' : Device) × (write_io_endio env (at_work waiting) 0 true 40 ≡ some d')
    × (submit_read_io env d' bio ≡ some d'')
    × (d''.events
        ≡ [] ++ (ended bio false ∷ read_io bio (blkid_to_sector (sector_to_blkid 40)) ∷ []))
read_after_write_example =
    read_after_write env (at_work waiting) 0 0 40 bio fresh-Agree written-Dispatched
      (omega (arith, size_fresh)) (EndsAt-5 waiting) block_7

-- Block 7 is mapped to 5, and the bio reads it.
abbrev readable : Device
readable = record (at_work waiting) { mapping = entered.0; zone_metadata = entered.1 }

mapped-readable : mapped real entered.0 (sector_to_blkid bio.sector) ≡ some 5
mapped-readable = rw block_7 mapped-entered

submit_read_io_lem_example :
    (d' : Device) × (submit_read_io env readable bio ≡ some d')
    × (d'.mapping ≡ entered.0)
    × (d'.events ≡ [] ++ (answer_at env bio 5 ∷ []))
    × ((z : ℕ)
        → d'.zone_metadata.zones z ≡ (
            if not (5 == invalid_pbid) && get_zone_by_pbid one_zone 5 == z
            then get_zone (entered.1.zones z)
            else entered.1.zones z))
submit_read_io_lem_example =
    submit_read_io_lem env readable bio 5 mapped-readable (λ _. omega arith)

in_order-Rising : Rising (key_of (at_work waiting)) (in_order (at_work waiting).task_tree)
unfolding in_order
in_order-Rising = (tt, tt)

insert_task_to_tree_lem_example :
    (other : Option ℕ) × (d' : Device) × (insert_task_to_tree env (at_work waiting) 1 ≡ (other, d'))
    × (other ≡ find_task (key_of (at_work waiting)) 7 (in_order (at_work waiting).task_tree))
    × Rising (key_of (at_work waiting)) (in_order d'.task_tree)
    × ((j : ℕ)
        → count j (in_order d'.task_tree)
          ≡ count j (in_order (at_work waiting).task_tree) + (if 1 == j then added other else 0))
    × ((j : ℕ)
        → (d'.tasks j).refcount ≡ (
            if holder other 1 == j
            then inc32 ((at_work waiting).tasks j).refcount
            else ((at_work waiting).tasks j).refcount))
    × ((j : ℕ) → key_of d' j ≡ key_of (at_work waiting) j)
insert_task_to_tree_lem_example =
    insert_task_to_tree_lem env (λ t. refl) (at_work waiting) 1 in_order-Rising
