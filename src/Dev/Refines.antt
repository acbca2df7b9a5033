-- ===== src/Dev/Refines.antt =====
-- The module's list of devices implements a finite map from minors: a step relation over what changes the
-- list and the devices, and the map's own.
use mathlib.Core.Path.{subst}
use lbz.Prelude.{
  ℕ, ◌≤◌, ◌<◌, ◌≡◌, refl, sym, ap, ◌∙◌, Option, none, some, Bool, true, false, update, inr, arith,
}
use lbz.Config.{Errno}
use lbz.Metadata.{list_del}
use lbz.Dev.{LbzDevice, System, minors, idx_to_first_minor, find_in, find_by_minor}
use lbz.Dev.Taken.{Ledger, InRange}
use lbz.Dev.Parts.{Build, Answers}
use lbz.Dev.Create.{create_device}
use lbz.Dev.Remove.{remove_device}
use lbz.Dev.New.{Sound, disk_of}
use lbz.Dev.CreateLaws.{AfterFailure, Created, create_device_lem}
use lbz.Dev.Gone.{update-Stays, remove_device-IsGone, keeps_given, regiven}
use lbz.Dev.Registry.{
  IsListed, IsFree, AreListed, Registry, Stays, find_in-IsFree, IsFree-Stays, find_in-list_del,
  find_in-same, AreListed-Stays, IsFree-of_not_given, AreListed-list_del, IsFree-self,
  IsListed-find_in,
}

-- What may happen: a call of `lbz_create_device`, for which the kernel gives an index that is not given out,
-- and below LBZ_MINORS; the removal of a device of the list; and work on a device, such as opening it or
-- serving bios, which leaves its minor and its disk.
pub data Change (k : Build) (s : System) : System → Type 0 where
  creates :
      (a : Answers) (cap block_size sectors phy_bdev : ℕ) (e : Option Errno) (s' : System)
      → Sound k a cap sectors
      → InRange s.ledger
      → block_size ≤ k.page_size
      → ((idx : ℕ) → a.idx ≡ some idx → (s.lbz_device_idx idx ≡ false) × (idx < minors))
      → create_device k a block_size sectors phy_bdev s ≡ some (e, s')
      → Change k s s'
  removes :
      (i : ℕ) (s' : System)
      → find_by_minor s (s.devices i).minor ≡ some i
      → remove_device k i s ≡ some (true, s')
      → Change k s s'
  works :
      (i : ℕ) (d : LbzDevice) (l : Ledger) (s' : System)
      → d.minor ≡ (s.devices i).minor
      → d.disk ≡ (s.devices i).disk
      → s' ≡ record s { devices = update s.devices i d; ledger = l }
      → Change k s s'

-- The steps of a map of minors: nothing; a minor that no device had; a minor that a device had.
abbrev pub Keeps : Registry → Registry → Type 0
Keeps r r' = (n : ℕ) → r' n ≡ r n

abbrev pub Registers : ℕ → ℕ → Registry → Registry → Type 0
Registers m i r r' = (r m ≡ none) × ((n : ℕ) → r' n ≡ update r m (some i) n)

abbrev pub Unregisters : ℕ → ℕ → Registry → Registry → Type 0
Unregisters m i r r' = (r m ≡ some i) × ((n : ℕ) → r' n ≡ update r m none n)

-- What a creation does to the map: nothing if it failed, else the index that the kernel gave is that of the
-- new device.
abbrev pub Creates : Answers → ℕ → Option Errno → Registry → Registry → Type 0
Creates a i (some e) r r' = Keeps r r'
Creates a i none r r' = (idx : ℕ) × (a.idx ≡ some idx) × Registers idx i r r'

-- What a change is to do to the map.
abbrev pub Performs : (k : Build) (s s' : System) → Change k s s' → Type 0
Performs k s s' (creates a cap block_size sectors phy_bdev e _ sound fine fits fresh q) =
    Creates a s.next_device e (find_by_minor s) (find_by_minor s')
Performs k s s' (removes i _ found q) =
    Unregisters (s.devices i).minor i (find_by_minor s) (find_by_minor s')
Performs k s s' (works i d l _ minor_eq disk_eq e) = Keeps (find_by_minor s) (find_by_minor s')

abbrev pub IsRegistry : System → Type 0
IsRegistry s = AreListed s.devices s.next_device s.lbz_device_idx s.lbz_devices

module _ (k : Build) (zone_no : ℕ → ℕ) (a : Answers) (sectors block_size : ℕ) (s s' : System)
    (v : IsRegistry s)
    (fresh : (idx : ℕ) → a.idx ≡ some idx → (s.lbz_device_idx idx ≡ false) × (idx < minors)) where
  -- The indices after a call that failed still cover the list.
  AfterFailure-AreListed :
      {after : ℕ → Bool}
      → AfterFailure a s.lbz_device_idx after
      → AreListed s.devices s.next_device after s.lbz_devices
  AfterFailure-AreListed {after} (AfterFailure.not_taken _ e) =
      subst (λ g. AreListed s.devices s.next_device g s.lbz_devices) (sym e) v
  AfterFailure-AreListed {after} (AfterFailure.given_back idx q _ e) =
      regiven s.devices s.next_device s.lbz_device_idx after s.lbz_devices v
        (λ j h. inr (ground (arith, ap (λ g. g j) e, h, (fresh idx q).0)))
  AfterFailure-AreListed {after} (AfterFailure.leaked idx q _ e) =
      let given = update s.lbz_device_idx idx true in
      let free =
        IsFree-of_not_given s.devices s.next_device s.lbz_device_idx idx s.lbz_devices v
          (fresh idx q).0 in
      let w =
        regiven s.devices s.next_device s.lbz_device_idx given s.lbz_devices v
          (λ j h. inr (ground (arith, h))) in
      subst (λ g. AreListed s.devices s.next_device g s.lbz_devices) (sym e)
        (regiven s.devices s.next_device given (update given (idx_to_first_minor idx) false)
          s.lbz_devices w (keeps_given s.devices s.next_device given idx s.lbz_devices w free))

  failure-Registers :
      (e : Errno)
      → Created k zone_no a sectors block_size s (some e) s'
      → IsRegistry s' × Keeps (find_by_minor s) (find_by_minor s')
  unfolding find_by_minor
  failure-Registers e (w, _, list_eq, devices_eq, next_eq, _) = (
    rw (list_eq, devices_eq, next_eq) (AfterFailure-AreListed w),
    λ n. rw (list_eq, devices_eq) refl,
  )

  success-Registers :
      Created k zone_no a sectors block_size s none s'
      → IsRegistry s' × Creates a s.next_device none (find_by_minor s) (find_by_minor s')
  unfolding find_by_minor find_in
  success-Registers (idx, q, m) =
      let n = s.next_device in
      let d = s'.devices n in
      let stays : Stays s.devices s'.devices n = record {
        minor_eq = λ j lt. ap LbzDevice.minor (m.others_eq j (omega (arith, lt)));
        disk_eq = λ j lt. ap LbzDevice.disk (m.others_eq j (omega (arith, lt)));
      } in
      let none_has =
        IsFree-of_not_given s.devices n s.lbz_device_idx idx s.lbz_devices v (fresh idx q).0 in
      let none_has' =
        IsFree-Stays s.devices s'.devices n s.lbz_device_idx idx s.lbz_devices stays v none_has in
      let given : (j : ℕ) → s'.lbz_device_idx j ≡ update s.lbz_device_idx idx true j =
        λ j. ap (λ f. f j) m.index_eq in
      let tail =
        AreListed-Stays s.devices s'.devices n s'.next_device s.lbz_device_idx s'.lbz_device_idx
          s.lbz_devices stays (omega (arith, m.next_eq)) v
          (λ j h. inr (ground (arith, given j, h))) in
      let head : IsListed s'.next_device s'.lbz_device_idx n d = record {
        allocated = omega (arith, m.next_eq);
        is_given = ap s'.lbz_device_idx m.made.minor_eq ∙ ground (arith, given idx);
        small = rw (m.made.minor_eq) ((fresh idx q).1);
        disk = disk_of idx sectors block_size true;
        disk_eq = m.made.disk_eq;
        first_minor_eq = ap idx_to_first_minor (sym m.made.minor_eq);
      } in
      let alone = subst (λ x. IsFree s'.devices x s.lbz_devices) (sym m.made.minor_eq) none_has' in
      (
        rw (m.list_eq) (head, alone, tail),
        (
          idx,
          q,
          (
            find_in-IsFree s.devices idx s.lbz_devices none_has,
            λ x. rw (m.list_eq) (
                ground (
                  arith,
                  m.made.minor_eq,
                  find_in-same s.devices s'.devices n s.lbz_device_idx x s.lbz_devices v
                      stays.minor_eq,
                )),
          ),
        ),
      )

Created-Registers :
    (k : Build) (zone_no : ℕ → ℕ) (a : Answers) (sectors block_size : ℕ) (s s' : System)
    → IsRegistry s
    → ((idx : ℕ) → a.idx ≡ some idx → (s.lbz_device_idx idx ≡ false) × (idx < minors))
    → (e : Option Errno) → Created k zone_no a sectors block_size s e s'
    → IsRegistry s' × Creates a s.next_device e (find_by_minor s) (find_by_minor s')
Created-Registers k zone_no a sectors block_size s s' v fresh (some e) c =
    failure-Registers k zone_no a sectors block_size s s' v fresh e c
Created-Registers k zone_no a sectors block_size s s' v fresh none c =
    success-Registers k zone_no a sectors block_size s s' v fresh c

removal-Registers :
    (k : Build) (i : ℕ) (s s' : System)
    → IsRegistry s
    → find_by_minor s (s.devices i).minor ≡ some i
    → remove_device k i s ≡ some (true, s')
    → IsRegistry s' × Unregisters (s.devices i).minor i (find_by_minor s) (find_by_minor s')
unfolding find_by_minor
removal-Registers k i s s' v found e =
    let f = s.devices in
    let n = s.next_device in
    let given = s.lbz_device_idx in
    let is = s.lbz_devices in
    let m = (f i).minor in
    let listed = IsListed-find_in f n given m i is v found in
    let gone = remove_device-IsGone k i s s' listed.disk listed.disk_eq e in
    let rest = AreListed-list_del f n given i is v in
    let free = IsFree-self f n given i is v found in
    let number = listed.first_minor_eq in
    let index_eq : update given (idx_to_first_minor m) false ≡ s'.lbz_device_idx =
      ap (λ x. update given x false) (sym number) ∙ sym gone.index_eq in
    let kept =
      AreListed-Stays f s'.devices n s'.next_device given
        (update given (idx_to_first_minor m) false) (list_del i is) gone.stays
        (omega (arith, gone.next_eq)) rest (keeps_given f n given m (list_del i is) rest free) in
    (
      rw (gone.list_eq)
          (subst (λ g. AreListed s'.devices s'.next_device g (list_del i is)) index_eq kept),
      (
        found,
        λ x. rw (gone.list_eq) (
            find_in-same f s'.devices n given x (list_del i is) rest gone.stays.minor_eq
            ∙ find_in-list_del f n given i x is v found),
      ),
    )

work-Registers :
    (i : ℕ) (d : LbzDevice) (l : Ledger) (s s' : System)
    → IsRegistry s
    → d.minor ≡ (s.devices i).minor
    → d.disk ≡ (s.devices i).disk
    → s' ≡ record s { devices = update s.devices i d; ledger = l }
    → IsRegistry s' × Keeps (find_by_minor s) (find_by_minor s')
unfolding find_by_minor
work-Registers i d l s s' v minor_eq disk_eq e =
    let g = update s.devices i d in
    let stays = update-Stays s.devices i d s.next_device minor_eq disk_eq in
    let kept : IsRegistry (record s { devices = g; ledger = l }) =
      AreListed-Stays s.devices g s.next_device s.next_device s.lbz_device_idx s.lbz_device_idx
        s.lbz_devices stays (omega arith) v (λ j h. inr h) in
    subst (λ t. IsRegistry t × Keeps (find_by_minor s) (find_by_minor t)) (sym e)
      (
        kept,
        λ x.
            find_in-same s.devices g s.next_device s.lbz_device_idx x s.lbz_devices v
              stays.minor_eq,
      )

-- One change.
Change-Performs :
    (k : Build) (s s' : System) (c : Change k s s')
    → IsRegistry s
    → IsRegistry s' × Performs k s s' c
Change-Performs k s s' (creates a cap block_size sectors phy_bdev e _ sound fine fits fresh q) v =
    let (e', t, q', c) =
      create_device_lem k (λ _. 0) a cap sectors block_size phy_bdev s sound fine fits in
    let same : t ≡ s' = ground (arith, q, q') in
    let ended : e' ≡ e = ground (arith, q, q') in
    subst (λ x. IsRegistry s' × Creates a s.next_device x (find_by_minor s) (find_by_minor s'))
      ended
      (subst (λ x. IsRegistry x × Creates a s.next_device e' (find_by_minor s) (find_by_minor x))
        same (Created-Registers k (λ _. 0) a sectors block_size s t v fresh e' c))
Change-Performs k s s' (removes i _ found q) v = removal-Registers k i s s' v found q
Change-Performs k s s' (works i d l _ minor_eq disk_eq e) v =
    work-Registers i d l s s' v minor_eq disk_eq e

-- Any number of changes, in any order.
pub data Changes (k : Build) (s : System) : System → Type 0 where
  here : Changes k s s
  next : {t u : System} → Changes k s t → Change k t u → Changes k s u

-- Each of the changes does to the map what it is to do.
abbrev pub AllPerform : (k : Build) (s s' : System) → Changes k s s' → Type 0
AllPerform k s s' here = Unit {0}
AllPerform k s s' (next {t} {u} r c) = AllPerform k s t r × Performs k t s' c

-- However calls of `lbz_create_device` that the kernel gives indices below LBZ_MINORS, removals and work on
-- the devices follow each other, no two devices of the list have one minor, and lbz_dev_find_by_minor goes
-- through the steps of a finite map from minors to devices: a creation that succeeds adds the new device
-- under the index that the kernel gave, which no device had; a removal takes away the minor of the removed
-- device, and no other; a creation that fails and work leave the map.
pub IsRegistry-refines :
    (k : Build) (s s' : System)
    → IsRegistry s
    → (r : Changes k s s') → IsRegistry s' × AllPerform k s s' r
IsRegistry-refines k s s' v here = (v, tt)
IsRegistry-refines k s s' v (next {t} {u} r c) =
    let (w, all) = IsRegistry-refines k s t v r in
    let (w', one) = Change-Performs k t s' c w in (w', (all, one))
