-- ===== src/Dev/Gone.antt =====
-- What a removal does to the list of devices and to the indices.
use mathlib.Core.Path.{subst}
use lbz.Prelude.{
  ℕ, ◌*◌, ◌<◌, ◌≡◌, ◌⊎◌, refl, sym, ap, ◌∙◌, List, some, Bool, true, false, update, ◌==◌,
  Bool-cases, Option-cases, inl, inr, arith,
}
use lbz.Metadata.{list_del}
use lbz.Dev.{
  LbzDevice, System, Disk, minors, idx_to_first_minor, is_drained, set_remove, set_unready,
  modify_device,
}
use lbz.Dev.Taken.{give, bytes}
use lbz.Dev.Parts.{Build, destroy_mapping, destroy_zone_metadata}
use lbz.Dev.Create.{device_free}
use lbz.Dev.Remove.{one_phy_bdev, stop_parts, finish_remove, remove_device}
use lbz.Dev.Unwind.{device_free_lem}
use lbz.Dev.Registry.{IsFree, AreListed, Stays, AreListed-Stays, IsFree-of_large}

-- What a removal that ended did to the list and the devices.
pub record IsGone (i first_minor : ℕ) (s s' : System) : Type 0 where
  pub list_eq : s'.lbz_devices ≡ list_del i s.lbz_devices
  pub index_eq : s'.lbz_device_idx ≡ update s.lbz_device_idx first_minor false
  pub next_eq : s'.next_device ≡ s.next_device
  pub stays : Stays s.devices s'.devices s.next_device

pub update-Stays :
    (f : ℕ → LbzDevice) (i : ℕ) (d : LbzDevice) (next : ℕ)
    → d.minor ≡ (f i).minor
    → d.disk ≡ (f i).disk
    → Stays f (update f i d) next
update-Stays f i d next m e = record {
  minor_eq = λ j lt. elim (Bool-cases (i == j)) [
    | inl here ↦ let same : i ≡ j = ground (arith, here) in rw here (m ∙ ap (λ x. (f x).minor) same)
    | inr there ↦ rw there refl
  ];
  disk_eq = λ j lt. elim (Bool-cases (i == j)) [
    | inl here ↦ let same : i ≡ j = ground (arith, here) in rw here (e ∙ ap (λ x. (f x).disk) same)
    | inr there ↦ rw there refl
  ];
}

finish_remove-IsGone :
    (k : Build) (i : ℕ) (s s' : System) (disk : Disk)
    → (s.devices i).disk ≡ some disk
    → finish_remove k i s ≡ some s'
    → IsGone i disk.first_minor s s'
unfolding finish_remove
finish_remove-IsGone k i s s' disk has e =
    let d = set_unready (s.devices i) in
    elim (Option-cases (stop_parts k d s.ledger)) [
      | inl x ↦ absurd (ground (arith, x, e))
      | inr (stopped, x) ↦ elim (Option-cases (destroy_mapping k d stopped)) [
        | inl z ↦ absurd (ground (arith, x, z, e))
        | inr (tree, z) ↦
            elim (Option-cases (destroy_zone_metadata k d (give (bytes k.sizes.mapping) tree))) [
              | inl y ↦ absurd (ground (arith, x, z, y, e))
              | inr (zones, y) ↦
                  let before = record s { ledger = give (bytes k.sizes.zone_metadata) zones } in
                  let gone = device_free_lem d before disk has in
                  let freed = device_free d before in
                  let same : record freed {
                    lbz_devices = list_del i freed.lbz_devices;
                    devices = update freed.devices i d;
                    ledger = give (bytes k.sizes.device) (give one_phy_bdev freed.ledger);
                  }
                      ≡ s' =
                    ground (arith, x, z, y, e) in
                  let devices_eq : update s.devices i d ≡ s'.devices =
                    sym (ap (λ (t : System). update t.devices i d) gone) ∙ ap System.devices same in
                  record {
                    list_eq =
                        sym (ap System.lbz_devices same)
                        ∙ ap (λ (t : System). list_del i t.lbz_devices) gone;
                    index_eq = sym (ap System.lbz_device_idx same) ∙ ap System.lbz_device_idx gone;
                    next_eq = sym (ap System.next_device same) ∙ ap System.next_device gone;
                    stays =
                        subst (λ g. Stays s.devices g s.next_device) devices_eq
                          (update-Stays s.devices i d s.next_device refl refl);
                  }
            ]
      ]
    ]

pub remove_device-IsGone :
    (k : Build) (i : ℕ) (s s' : System) (disk : Disk)
    → (s.devices i).disk ≡ some disk
    → remove_device k i s ≡ some (true, s')
    → IsGone i disk.first_minor s s'
unfolding remove_device
remove_device-IsGone k i s s' disk has e =
    let marked = modify_device s i set_remove in
    let st = update-Stays s.devices i (set_remove (s.devices i)) s.next_device refl refl in
    let here : (marked.devices i).disk ≡ (s.devices i).disk = ground arith in
    elim (Bool-cases (is_drained (marked.devices i))) [
      | inl idle ↦ elim (Option-cases (finish_remove k i marked)) [
        | inl z ↦ absurd (ground (arith, idle, z, e))
        | inr (t, z) ↦
            let same : t ≡ s' = ground (arith, idle, z, e) in
            let v = finish_remove-IsGone k i marked s' disk (here ∙ has) (z ∙ ap some same) in
            record {
              list_eq = v.list_eq;
              index_eq = v.index_eq;
              next_eq = v.next_eq;
              stays = record {
                minor_eq = λ j lt. v.stays.minor_eq j lt ∙ st.minor_eq j lt;
                disk_eq = λ j lt. v.stays.disk_eq j lt ∙ st.disk_eq j lt;
              };
            }
      ]
      | inr busy ↦ absurd (ground (arith, busy, e))
    ]

-- Giving back the first minor of the index `m` below LBZ_MINORS, where `m` was not given out: no device of the
-- list loses its index.
pub keeps_given :
    (f : ℕ → LbzDevice) (next : ℕ) (given : ℕ → Bool) (m : ℕ) (is : List ℕ)
    → AreListed f next given is
    → IsFree f m is
    → (j : ℕ) → given j ≡ true
    → IsFree f j is ⊎ (update given (idx_to_first_minor m) false j ≡ true)
unfolding idx_to_first_minor
keeps_given f next given m is v free j h = elim (Bool-cases (m * minors == j)) [
  | inl here ↦ inl (elim (Bool-cases (m == 0)) [
    | inl z ↦ let same : m ≡ j = ground (arith, here, z) in subst (λ n. IsFree f n is) same free
    | inr pos ↦ IsFree-of_large f next given j is v (ground (arith, here, pos))
  ])
  | inr there ↦ inr (rw there h)
]

-- Other indices may be given out.
pub regiven :
    (f : ℕ → LbzDevice) (next : ℕ) (given given' : ℕ → Bool) (is : List ℕ)
    → AreListed f next given is
    → ((j : ℕ) → given j ≡ true → IsFree f j is ⊎ (given' j ≡ true))
    → AreListed f next given' is
regiven f next given given' is v keep =
    AreListed-Stays f f next next given given' is
      (record { minor_eq = λ _ _. refl; disk_eq = λ _ _. refl }) (omega arith) v keep

-- The removal of a device with index other than 0 that ended gives back LBZ_MINORS times the index, which
-- another device may have, and leaves the index itself as it was.
pub remove_device_wrong_index :
    (k : Build) (i : ℕ) (s s' : System) (disk : Disk)
    → (s.devices i).disk ≡ some disk
    → disk.first_minor ≡ idx_to_first_minor (s.devices i).minor
    → 0 < (s.devices i).minor
    → remove_device k i s ≡ some (true, s')
    → (s'.lbz_device_idx (s.devices i).minor ≡ s.lbz_device_idx (s.devices i).minor)
      × (s'.lbz_device_idx (minors * (s.devices i).minor) ≡ false)
unfolding idx_to_first_minor
remove_device_wrong_index k i s s' disk has number pos e =
    let gone = remove_device-IsGone k i s s' disk has e in
    let at = λ (j : ℕ). ap (λ f. f j) gone.index_eq in
    (
      ground (arith, at (s.devices i).minor, number, pos),
      ground (arith, at (minors * (s.devices i).minor), number),
    )
