-- ===== src/Dev/CreateLaws.antt =====
-- `lbz_create_device` as a whole.
use mathlib.Core.Path.{subst}
use lbz.Prelude.{
  ℕ, ◌≤◌, ◌≡◌, refl, sym, ◌∙◌, Option, none, some, Bool, true, false, update, Option-cases,
  Bool-cases, inl, inr, le→ltb,
}
use lbz.Config.{Errno, enomem}
use lbz.Dev.{System, idx_to_first_minor}
use lbz.Dev.Taken.{InRange, bytes}
use lbz.Dev.Parts.{Build, Answers}
use lbz.Dev.Create.{alloc_device, create_device, out}
use lbz.Dev.Unwind.{Unwound, out-Unwound}
use lbz.Dev.New.{Refuses, Sound, IsInit, IsMade}
use lbz.Dev.Stages.{Ends, Ends-rebase, Ends-by}
use lbz.Dev.ZoneStage.{with_disk-Ends}
use lbz.Dev.InitLaws.{
  with_disk_at, without_disk_at, create_device-none, create_device_disk, create_device_no_disk,
}

-- The indices given out after a call that failed: `lbz_device_free` gives the first minor back, and not
-- the index.
pub data AfterFailure (a : Answers) (before after : ℕ → Bool) : Type 0 where
  not_taken : a.idx ≡ none → after ≡ before → AfterFailure a before after
  given_back :
      (idx : ℕ)
      → a.idx ≡ some idx
      → a.disk ≡ false
      → after ≡ update (update before idx true) idx false
      → AfterFailure a before after
  leaked :
      (idx : ℕ)
      → a.idx ≡ some idx
      → a.disk ≡ true
      → after ≡ update (update before idx true) (idx_to_first_minor idx) false
      → AfterFailure a before after

-- What a call leaves behind, by its result.
abbrev pub Created : Build → (ℕ → ℕ) → Answers → ℕ → ℕ → System → Option Errno → System → Type 0
Created k zone_no a sectors block_size s (some e) s' =
    AfterFailure a s.lbz_device_idx s'.lbz_device_idx
    × (s'.ledger ≡ s.ledger)
    × (s'.lbz_devices ≡ s.lbz_devices)
    × (s'.devices ≡ s.devices)
    × (s'.next_device ≡ s.next_device)
    × Refuses a e
Created k zone_no a sectors block_size s none s' =
    (idx : ℕ) × (a.idx ≡ some idx)
    × IsMade k zone_no idx sectors block_size
        (record s { lbz_device_idx = update s.lbz_device_idx idx true }) s.ledger s'

failed :
    {a : Answers} {e : Errno} (s : System) {s' : System} {given : ℕ → Bool}
    → Refuses a e
    → AfterFailure a s.lbz_device_idx given
    → (t : System) → t.lbz_devices ≡ s.lbz_devices
    → t.devices ≡ s.devices
    → t.next_device ≡ s.next_device
    → Unwound t s.ledger given s'
    → AfterFailure a s.lbz_device_idx s'.lbz_device_idx
      × (s'.ledger ≡ s.ledger)
      × (s'.lbz_devices ≡ s.lbz_devices)
      × (s'.devices ≡ s.devices)
      × (s'.next_device ≡ s.next_device)
      × Refuses a e
failed {a} s why w t list_eq devices_eq next_eq u = (
  subst (AfterFailure a s.lbz_device_idx) (sym u.index_eq) w,
  u.ledger_eq,
  u.list_eq ∙ list_eq,
  u.devices_eq ∙ devices_eq,
  u.next_eq ∙ next_eq,
  why,
)

created :
    (k : Build) (zone_no : ℕ → ℕ) (a : Answers) (sectors block_size idx : ℕ) (s : System)
    → a.idx ≡ some idx
    → a.disk ≡ true
    → (r : Option (Option Errno × System))
    → Ends k zone_no idx sectors block_size s.ledger a
        (record s { lbz_device_idx = update s.lbz_device_idx idx true })
        r
    → (e : Option Errno) × (s' : System) × (r ≡ some (e, s'))
      × Created k zone_no a sectors block_size s e s'
created k zone_no a sectors block_size idx s given disk r (some e, s', q, (u, why)) =
    (some e, s', q, failed s why (AfterFailure.leaked idx given disk refl) _ refl refl refl u)
created k zone_no a sectors block_size idx s given disk r (none, s', q, u) =
    (none, s', q, (idx, given, u))

-- A call of `lbz_create_device` with blocks no larger than a page, in a sound setting, which leaves out the
-- null pointer for a work queue, faults nowhere, whatever else the kernel answers. Where
-- it fails, the error is that of a step of the kernel's that failed, the devices are those from before, and
-- all that was taken was given back, the index apart where a disk had been made for it.
-- Where it succeeds the new device is ready, not faulty and not open, has its work queues and the index that
-- the kernel gave, heads the list, and holds just what its parts take; its zone metadata have the invariant, its mapping
-- agrees with its reverse maps, and no task is under way. No other device changes.
pub create_device_lem :
    (k : Build) (zone_no : ℕ → ℕ) (a : Answers) (cap sectors block_size phy_bdev : ℕ) (s : System)
    → Sound k a cap sectors
    → InRange s.ledger
    → block_size ≤ k.page_size
    → (e : Option Errno) × (s' : System) × (create_device k a block_size sectors phy_bdev s
        ≡ some (e, s'))
      × Created k zone_no a sectors block_size s e s'
unfolding alloc_device
create_device_lem k zone_no a cap sectors block_size phy_bdev s v h fits =
    let small = le→ltb k.page_size block_size fits in
    let device = bytes k.sizes.device in
    elim (Option-cases a.idx) [
      | inl q ↦
          let m = alloc_device k phy_bdev s in
          let u = out-Unwound k m s.ledger h refl in
          (
            some enomem,
            out k m,
            create_device-none k a block_size sectors phy_bdev s q,
            failed s (Refuses.no_index q) (AfterFailure.not_taken q refl) m.sys refl refl refl u,
          )
      | inr (idx, q) ↦ elim (Bool-cases a.disk) [
        | inl t ↦
            let m = with_disk_at k a block_size sectors phy_bdev s idx in
            let new : IsInit idx sectors block_size false m.dev = record {
              minor_eq = refl;
              disk_eq = refl;
              size_eq = refl;
              refcnt_eq = refl;
              remove_eq = refl;
              faulty_eq = refl;
              stats_eq = refl;
            } in
            created k zone_no a sectors block_size idx s q t _ (
              Ends-by k zone_no idx sectors block_size s.ledger a
                (create_device_disk k a block_size sectors phy_bdev s idx q small t)
                (Ends-rebase k zone_no idx sectors block_size s.ledger a
                  (with_disk-Ends k zone_no idx sectors block_size cap s.ledger h a v m new refl)))
        | inr t ↦
            let m = without_disk_at k a block_size sectors phy_bdev s idx in
            (
              some enomem,
              out k m,
              create_device_no_disk k a block_size sectors phy_bdev s idx q small t,
              failed s (Refuses.no_disk t) (AfterFailure.given_back idx q t refl) m.sys refl refl
                  refl (out-Unwound k m s.ledger h refl),
            )
      ]
    ]
