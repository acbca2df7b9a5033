-- ===== src/Dev/InitLaws.antt =====
-- `lbz_create_device` up to the end of `lbz_device_init`.
use lbz.Prelude.{ℕ, ◌≡◌, refl, none, some, true, false, update, ltb}
use lbz.Config.{enomem}
use lbz.Dev.{System}
use lbz.Dev.Taken.{take}
use lbz.Dev.Parts.{Build, Answers, Making}
use lbz.Dev.Create.{zero_stats, one_disk, device_init, with_disk, alloc_device, create_device, out}
use lbz.Dev.New.{disk_of}

module _ (k : Build) (a : Answers) (block_size sectors phy_bdev : ℕ) (s : System) where
  -- The device as `lbz_device_init` leaves it.
  abbrev pub with_disk_at : ℕ → Making
  with_disk_at idx =
      let m = alloc_device k phy_bdev s in
      record {
        dev = record (m.dev) {
          disk = some (disk_of idx sectors block_size false);
          minor = idx;
          dev_size = sectors;
          refcnt = 0;
          nr_zones = a.nr_zones;
          meta_bytes = 64;
          work = record (m.dev.work) { stats = zero_stats };
        };
        sys = record (m.sys) {
          lbz_device_idx = update s.lbz_device_idx idx true;
          ledger = take one_disk m.sys.ledger;
        };
      }

  -- The device without a disk; the index was given back.
  abbrev pub without_disk_at : ℕ → Making
  without_disk_at idx =
      let m = alloc_device k phy_bdev s in
      record {
        dev = record (m.dev) { minor = idx };
        sys = record (m.sys) {
          lbz_device_idx = update (update s.lbz_device_idx idx true) idx false;
        };
      }

  device_init_disk :
      (idx : ℕ)
      → a.idx ≡ some idx
      → ltb k.page_size block_size ≡ false
      → a.disk ≡ true
      → device_init k a block_size sectors (alloc_device k phy_bdev s)
        ≡ some (none, with_disk_at idx)
  unfolding device_init alloc_device
  device_init_disk idx q p t = rw (q, p, t) refl

  device_init_no_disk :
      (idx : ℕ)
      → a.idx ≡ some idx
      → ltb k.page_size block_size ≡ false
      → a.disk ≡ false
      → device_init k a block_size sectors (alloc_device k phy_bdev s)
        ≡ some (some enomem, without_disk_at idx)
  unfolding device_init alloc_device
  device_init_no_disk idx q p t = rw (q, p, t) refl

  pub create_device-none :
      a.idx ≡ none
      → create_device k a block_size sectors phy_bdev s
        ≡ some (some enomem, out k (alloc_device k phy_bdev s))
  unfolding create_device device_init
  create_device-none q = rw q refl

  pub create_device_disk :
      (idx : ℕ)
      → a.idx ≡ some idx
      → ltb k.page_size block_size ≡ false
      → a.disk ≡ true
      → create_device k a block_size sectors phy_bdev s ≡ with_disk k a (with_disk_at idx)
  unfolding create_device
  create_device_disk idx q p t = rw (device_init_disk idx q p t) refl

  pub create_device_no_disk :
      (idx : ℕ)
      → a.idx ≡ some idx
      → ltb k.page_size block_size ≡ false
      → a.disk ≡ false
      → create_device k a block_size sectors phy_bdev s
        ≡ some (some enomem, out k (without_disk_at idx))
  unfolding create_device
  create_device_no_disk idx q p t = rw (device_init_no_disk idx q p t) refl
