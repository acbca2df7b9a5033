-- ===== src/Dev/RoundTrip.antt =====
-- `lbz_create_device` and then `lbz_remove_device`.
pub mod Tests
use mathlib.Core.Path.{subst}
use lbz.Prelude.{
  ℕ, ◌≤◌, ◌≡◌, ◌≢◌, refl, sym, ap, ◌∙◌, ◌∷◌, Option, none, some, Bool, true, false, update, arith,
}
use lbz.Config.{Errno}
use lbz.Metadata.{list_del}
use lbz.Dev.{LbzDevice, System, idx_to_first_minor, is_drained}
use lbz.Dev.Taken.{Ledger, InRange, take, take-InRange}
use lbz.Dev.Parts.{Build, Answers}
use lbz.Dev.Create.{zero_stats, one_bio_set, create_device}
use lbz.Dev.Remove.{one_phy_bdev, remove_device}
use lbz.Dev.Holding.{holds}
use lbz.Dev.Unwind.{CanDestroy}
use lbz.Dev.New.{Refuses, Sound, IsInit, HasParts, disk_of}
use lbz.Dev.CreateLaws.{Created, create_device_lem}
use lbz.Dev.ExitLaws.{remove_device_lem, list_del_head}

-- A new device is idle.
IsInit-is_drained :
    (idx sectors block_size : ℕ) (added : Bool) (d : LbzDevice)
    → IsInit idx sectors block_size added d
    → is_drained d ≡ true
unfolding is_drained
IsInit-is_drained idx sectors block_size added d v = ground (arith, v.stats_eq, v.refcnt_eq)

-- What is left of a device that was made and removed again, with the physical device that it had: its
-- index, and the pool of bios.
abbrev pub Vanished : Build → Answers → System → System → Ledger → Type 0
Vanished k a s s' l =
    (idx : ℕ) × (s'' : System) × (a.idx ≡ some idx)
    × (remove_device k s.next_device s' ≡ some (true, s''))
    × (s''.lbz_devices ≡ s.lbz_devices)
    × (s''.ledger ≡ take one_bio_set l)
    × (s''.lbz_device_idx
        ≡ update (update s.lbz_device_idx idx true) (idx_to_first_minor idx) false)
    × ((j : ℕ) → s.next_device ≢ j → s''.devices j ≡ s.devices j)

module _ (k : Build) (zone_no : ℕ → ℕ) (a : Answers) (cap sectors block_size : ℕ) (s s' : System)
    (l : Ledger) where
  removes_made :
      Sound k a cap sectors
      → InRange l
      → s.ledger ≡ take one_phy_bdev l
      → Created k zone_no a sectors block_size s none s'
      → Vanished k a s s' l
  removes_made v h held (idx, q, m) =
      let n = s.next_device in
      let d = s'.devices n in
      let disk = disk_of idx sectors block_size true in
      let whole : CanDestroy k disk d = record {
        disk_eq = m.made.disk_eq;
        worker = m.parts.worker;
        whole = m.parts.whole;
        tree = m.parts.agree.tree;
      } in
      let (s'', e, list_eq, left, index_eq, same) =
        remove_device_lem k v.width n s' disk l h whole m.retry
          (IsInit-is_drained idx sectors block_size true d m.made)
          (m.ledger_eq ∙ ap (holds k d) held) in
      (
        idx,
        s'',
        q,
        e,
        list_eq ∙ ap (list_del n) m.list_eq ∙ list_del_head k n s.lbz_devices,
        left,
        index_eq ∙ ap (λ f. update f (idx_to_first_minor idx) false) m.index_eq,
        λ j ne. same j ne ∙ m.others_eq j (λ r. ne (sym r)),
      )

  made :
      {r : Option (Option Errno × System)} (e : Option Errno)
      → ((x : Errno) → ¬ Refuses a x)
      → r ≡ some (e, s')
      → Created k zone_no a sectors block_size s e s'
      → (r ≡ some (none, s')) × Created k zone_no a sectors block_size s none s'
  made none grants q c = (q, c)
  made (some x) grants q c = absurd (grants x c.5)

-- Where no step of the kernel's fails, its zones and work queues are as `lbz_create_device` needs them, and the call has the
-- physical device open on top of `l`, `lbz_create_device` makes a device, which can be removed at once
-- without a fault. The list and the other devices are then those from before, and of all that was taken for
-- the device and of the physical device only the pool of bios is left. The number given back is LBZ_MINORS
-- times the index.
pub remove_device-create_device :
    (k : Build) (zone_no : ℕ → ℕ) (a : Answers) (cap sectors block_size phy_bdev : ℕ) (s : System)
    (l : Ledger)
    → Sound k a cap sectors
    → ((e : Errno) → ¬ Refuses a e)
    → InRange l
    → block_size ≤ k.page_size
    → s.ledger ≡ take one_phy_bdev l
    → (s' : System) × (create_device k a block_size sectors phy_bdev s ≡ some (none, s'))
      × Vanished k a s s' l
remove_device-create_device k zone_no a cap sectors block_size phy_bdev s l v grants h fits held =
    let fine : InRange s.ledger = subst InRange (sym held) (take-InRange one_phy_bdev l) in
    let (e, s', q, c) =
      create_device_lem k zone_no a cap sectors block_size phy_bdev s v fine fits in
    let (ran, new) = made k zone_no a cap sectors block_size s s' l e grants q c in
    (s', ran, removes_made k zone_no a cap sectors block_size s s' l v h held new)
