-- ===== src/Proc/Commands.antt =====
-- The command that creates a device, from the bytes written to /proc/lbz to the device in the list.
use lbz.Prelude.{
  ℕ, ◌*◌, ◌%◌, ◌^◌, ◌-◌, ◌<◌, ◌≡◌, refl, ap, ◌∙◌, List, ◌∷◌, Option, none, some, inr, length,
  lt→ltb, arith,
}
use lbz.Prelude.Words.{long_word}
use lbz.Config.{Errno}
use lbz.Dev.{System}
use lbz.Dev.Taken.{take, take-InRange}
use lbz.Dev.Parts.{Build, Answers}
use lbz.Dev.Create.{create_device}
use lbz.Dev.Remove.{one_phy_bdev}
use lbz.Dev.New.{Refuses, Sound}
use lbz.Dev.CreateLaws.{Created, create_device_lem}
use lbz.Proc.{
  Kernel, Ret, bytes, error, message_length, bdevname_size, copy_message, copied, create_on,
  create_command, run_command, module_input,
}

-- The physical device is open.
abbrev pub opens : System → System
opens s = record s { ledger = take one_phy_bdev s.ledger }

-- What a command leaves behind, by what it returns.
abbrev pub CommandEnds : Build → (ℕ → ℕ) → Answers → ℕ → List ℕ → System → Ret → System → Type 0
CommandEnds k zone_no a sectors buff s (bytes n) s' =
    (n ≡ copied buff) × Created k zone_no a sectors k.page_size (opens s) none s'
CommandEnds k zone_no a sectors buff s (error e) s' =
    (s'.ledger ≡ take one_phy_bdev s.ledger)
    × (s'.lbz_devices ≡ s.lbz_devices)
    × (s'.devices ≡ s.devices)
    × Refuses a e

module _ (k : Build) (zone_no : ℕ → ℕ) (kernel : Kernel) (a : Answers) where
  create_on_ends :
      (cap dev_size bd : ℕ) (buff : List ℕ) (s : System)
      → Sound k a cap (dev_size * 2 ^ 21 % long_word)
      → (r : Ret) × (s' : System) × (create_on k kernel a (copied buff) dev_size bd s
          ≡ some (r, s'))
        × CommandEnds k zone_no a (dev_size * 2 ^ 21 % long_word) buff s r s'
  unfolding create_on
  create_on_ends cap dev_size bd buff s sound =
      let size = dev_size * 2 ^ 21 % long_word in
      let run =
        create_device_lem k zone_no a cap size k.page_size bd (opens s) sound
          (take-InRange one_phy_bdev s.ledger) (omega arith) in
      ends run
    where
      ends :
          (e : Option Errno) × (s' : System) × (create_device k a k.page_size
                (dev_size * 2 ^ 21 % long_word)
                bd
                (opens s)
              ≡ some (e, s'))
            × Created k zone_no a (dev_size * 2 ^ 21 % long_word) k.page_size (opens s) e s'
          → (r : Ret) × (s' : System) × (create_on k kernel a (copied buff) dev_size bd s
              ≡ some (r, s'))
            × CommandEnds k zone_no a (dev_size * 2 ^ 21 % long_word) buff s r s'
      ends (some e, s', q, c) = (error e, s', rw q refl, (c.1, c.2, c.3, c.5))
      ends (none, s', q, c) = (bytes (copied buff), s', rw q refl, (refl, c))

  create_command_lem :
      (i dev_size bd : ℕ) (dev_path rest : List ℕ) (s : System)
      → kernel.scan_create rest ≡ some (dev_size, dev_path)
      → length dev_path < bdevname_size
      → kernel.get_by_path dev_path ≡ inr bd
      → create_command k kernel a i rest s ≡ create_on k kernel a i dev_size bd s
  unfolding create_command
  create_command_lem i dev_size bd dev_path rest s scan fits path =
      ground (arith, scan, path, lt→ltb (length dev_path) bdevname_size fits)

  run_command_create :
      (i : ℕ) (rest : List ℕ) (s : System)
      → run_command k kernel a i (b'c' ∷ rest) s ≡ create_command k kernel a i rest s
  unfolding run_command
  run_command_create i rest s = refl

  -- A command `c` whose numbers can be read, whose path fits in `dev_path` and names a device that opens, in
  -- a sound setting: it ends. Where it returns the number of bytes it took, the new device was made as by
  -- `lbz_create_device` on the size in GiB; where it returns an error, that is of a step of the
  -- kernel's that failed, no device changed, and the physical device is still open.
  pub module_input_create :
      (cap dev_size bd : ℕ) (dev_path stack buff rest : List ℕ) (s : System)
      → copy_message (message_length - 1) buff stack ≡ b'c' ∷ rest
      → kernel.scan_create rest ≡ some (dev_size, dev_path)
      → length dev_path < bdevname_size
      → kernel.get_by_path dev_path ≡ inr bd
      → Sound k a cap (dev_size * 2 ^ 21 % long_word)
      → (r : Ret) × (s' : System) × (module_input k kernel a stack buff s ≡ some (r, s'))
        × CommandEnds k zone_no a (dev_size * 2 ^ 21 % long_word) buff s r s'
  unfolding module_input
  module_input_create cap dev_size bd dev_path stack buff rest s message scan fits path sound =
      let (r, s', e, c) = create_on_ends cap dev_size bd buff s sound in
      (
        r,
        s',
        ap (λ x. run_command k kernel a (copied buff) x s) message
            ∙ run_command_create (copied buff) rest s
            ∙ create_command_lem (copied buff) dev_size bd dev_path rest s scan fits path
            ∙ e,
        c,
      )
