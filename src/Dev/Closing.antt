-- ===== src/Dev/Closing.antt =====
-- A device that is being removed: how often it is held open while opening, releasing and its work go on in
-- any order.
use lbz.Prelude.{◌≤◌, ◌<◌, ◌≡◌, some, none, true, arith, Bool-cases, inl, inr}
use lbz.Prelude.Words.{word, dec32_lem}
use lbz.IoScheduler.{Device}
use lbz.Dev.{LbzDevice, open_dev, can_release, release_dev, set_remove}

-- One step: an open that is granted, the release by one who has it open, the mark that
-- `lbz_remove_device` sets first, or work on the device.
pub data Use (d : LbzDevice) : LbzDevice → Type 0 where
  opens : (u : LbzDevice) → open_dev d ≡ (none, u) → Use d u
  releases : (u : LbzDevice) → 0 < d.refcnt → release_dev d ≡ some u → Use d u
  marks : (u : LbzDevice) → u ≡ set_remove d → Use d u
  works : (u : LbzDevice) (w : Device) → u ≡ record d { work = w } → Use d u

pub data Uses (d : LbzDevice) : LbzDevice → Type 0 where
  here : Uses d d
  next : {t u : LbzDevice} → Uses d t → Use t u → Uses d u

use_closing :
    (d u : LbzDevice)
    → d.remove ≡ true
    → d.refcnt < word
    → Use d u
    → (u.remove ≡ true) × (u.refcnt ≤ d.refcnt)
unfolding open_dev release_dev
use_closing d u closing small (opens _ e) = absurd (ground (arith, closing, e))
use_closing d u closing small (releases _ pos e) = elim (Bool-cases (can_release d)) [
  | inl idle ↦ ground (arith, idle, e, closing, dec32_lem d.refcnt pos (omega (arith, small)))
  | inr busy ↦ absurd (ground (arith, busy, e))
]
use_closing d u closing small (marks _ e) = ground (arith, e)
use_closing d u closing small (works _ w e) = ground (arith, e, closing)

-- Once `lbz_remove_device` has marked a device, no open is granted any more, in whatever order releases and
-- the device's work follow: the mark stays, and the device is held open no more often than it was.
pub closing_down :
    (d u : LbzDevice)
    → d.remove ≡ true
    → d.refcnt < word
    → Uses d u
    → (u.remove ≡ true) × (u.refcnt ≤ d.refcnt)
closing_down d u closing small here = (closing, omega arith)
closing_down d u closing small (next {t} uses one) =
    let (marked, le) = closing_down d t closing small uses in
    let (marked', le') = use_closing t u marked (omega (arith, le, small)) one in
    (marked', omega (arith, le, le'))
