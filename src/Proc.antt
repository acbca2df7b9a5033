-- ===== src/Proc.antt =====
-- src/lbz-proc.c: the commands that are written to /proc/lbz, reading it, and the start of the module.
pub mod Commands
pub mod Tests
use lbz.Prelude.{
  ℕ, zero, suc, ◌+◌, ◌*◌, ◌%◌, ◌-◌, ◌^◌, List, [], ◌∷◌, ◌++◌, Option, none, some, Bool, true, false,
  length, ltb, ◌==◌, ◌>>=◌, if◌then◌else◌, ◌⊎◌, inl, inr, update,
}
use lbz.Prelude.Words.{long_word}
use lbz.Config.{Errno, efault, einval, enoent, enomem, eperm}
use lbz.NatSit.{Args, add_rule}
use lbz.Dev.{LbzDevice, System, find_by_minor, modify_device}
use lbz.Dev.Taken.{take}
use lbz.Dev.Parts.{Build, Answers}
use lbz.Dev.Create.{create_device}
use lbz.Dev.Remove.{one_phy_bdev, dev_init}

-- MESSSAGE_LENGTH, and BDEVNAME_SIZE, the size of `dev_path`.
abbrev pub message_length : ℕ
message_length = 80

abbrev pub bdevname_size : ℕ
bdevname_size = 32

-- What the function returns: a number of bytes, or an error.
pub data Ret : Type 0 where
  bytes : ℕ → Ret
  error : Errno → Ret

-- The kernel's `sscanf` with the three formats, on the message from its second byte on: the values, where
-- all are found, a number as its bit pattern. A path is a list of bytes, without the null byte that `%s`
-- adds. And `blkdev_get_by_path`, by the path.
pub record Kernel : Type 0 where
  pub scan_id : List ℕ → Option ℕ
  pub scan_create : List ℕ → Option (ℕ × List ℕ)
  pub scan_rule : List ℕ → Option (ℕ × Args)
  pub get_by_path : List ℕ → Errno ⊎ ℕ

-- `for (i=0;i < MESSSAGE_LENGTH - 1 && i < len;i++)`, by the places of `Message` that are left: what was
-- copied over what the stack held. `get_user` is taken to succeed.
unfoldable pub copy_message : ℕ → List ℕ → List ℕ → List ℕ
copy_message zero buff stack = stack
copy_message (suc n) [] stack = stack
copy_message (suc n) (c ∷ buff) [] = c ∷ copy_message n buff []
copy_message (suc n) (c ∷ buff) (_ ∷ stack) = c ∷ copy_message n buff stack

-- The value of `i` after it.
unfoldable pub copied : List ℕ → ℕ
copied buff = if ltb (length buff) (message_length - 1) then length buff else message_length - 1

module _ (k : Build) (kernel : Kernel) (a : Answers) where
  -- `case 'd'` and `case 'r'`: the number is read, and nothing is done with it.
  unfoldable pub read_id : ℕ → List ℕ → System → Option (Ret × System)
  read_id i rest s = elim (kernel.scan_id rest) [
    | none ↦ some (error eperm, s)
    | some _ ↦ some (bytes i, s)
  ]

  -- `case 'c'` once the physical device is open.
  unfoldable pub create_on : ℕ → ℕ → ℕ → System → Option (Ret × System)
  create_on i dev_size bd s = do
    (failed, s') ←
        create_device k a k.page_size (dev_size * 2 ^ 21 % long_word) bd
          (record s { ledger = take one_phy_bdev s.ledger })
    some (elim failed [ none ↦ bytes i | some e ↦ error e ], s')

  -- `case 'c'`; `none` where the path does not fit in `dev_path`.
  unfoldable pub create_command : ℕ → List ℕ → System → Option (Ret × System)
  create_command i rest s = elim (kernel.scan_create rest) [
    | none ↦ some (error eperm, s)
    | some (dev_size, dev_path) ↦
        if ltb (length dev_path) bdevname_size
        then (elim (kernel.get_by_path dev_path) [
          | inl e ↦ some (error e, s)
          | inr bd ↦ create_on i dev_size bd s
        ])
        else none
  ]

  -- `case 's'`; `none` for a `BUG_ON` of `lbz_nat_sit_add_rule`.
  unfoldable pub rule_command : ℕ → List ℕ → System → Option (Ret × System)
  rule_command i rest s = elim (kernel.scan_rule rest) [
    | none ↦ some (error einval, s)
    | some (dev_minor, args) ↦ elim (find_by_minor s dev_minor) [
      | none ↦ some (error einval, s)
      | some dev ↦ (do
        rule ← add_rule args
        some (
          bytes i,
          modify_device s dev (λ d. record d { work = record (d.work) { nat_sit = rule } }),
        ))
    ]
  ]

  -- The `switch` on the first byte; without CONFIG_LBZ_NAT_SIT_SUPPORT there is no `case 's'`.
  unfoldable pub run_command : ℕ → List ℕ → System → Option (Ret × System)
  run_command i [] s = some (bytes i, s)
  run_command i (c ∷ rest) s =
      if c == b'd'
      then read_id i rest s
      else if c == b'r'
      then read_id i rest s
      else if c == b'c'
      then create_command i rest s
      else if c == b's'
      then (if k.config.nat_sit_support then rule_command i rest s else some (bytes i, s))
      else some (bytes i, s)

  -- `module_input`; `stack` is what `Message` held before.
  unfoldable pub module_input : List ℕ → List ℕ → System → Option (Ret × System)
  module_input stack buff s =
      run_command (copied buff) (copy_message (message_length - 1) buff stack) s

-- `module_read`, by the offset, whether a page is given and whether `copy_to_user` fails: the result and the
-- new offset. The text has twenty bytes, however many were asked for.
unfoldable pub module_read : ℕ → Bool → Bool → Ret × ℕ
module_read offset page fails =
    if offset == 0
    then (if page then (if fails then error efault else bytes 20) else error enomem, 1)
    else (bytes 0, offset)

-- `lbz_module_init`, by whether the file /proc/lbz is made, and what `lbz_dev_init` sees: the error, whether
-- the file is there, and what `lbz_dev_init` left.
unfoldable pub module_init : Bool → Option Errno → Bool → Option Errno × Bool × Bool × Bool
module_init false major dir = (some enoent, false, false, false)
module_init true major dir =
    let (failed, registered, made) = dev_init major dir in
    (failed, elim failed [ none ↦ true | some _ ↦ false ], registered, made)
