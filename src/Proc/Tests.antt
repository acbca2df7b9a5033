-- ===== src/Proc/Tests.antt =====
-- The command that creates a device, on a module without devices.
use lbz.Prelude.{
  ◌+◌, ◌&&◌, ◌==◌, not, leb, length, Option, some, if◌then◌else◌, ℕ, ◌*◌, ◌%◌, ◌^◌, ◌-◌, ◌≡◌, refl,
  List, [], ◌∷◌, true, false, none, some, inr, arith,
}
use lbz.Prelude.Words.{long_word}
use lbz.IoScheduler.Devices.{one_zone}
use lbz.Dev.{System}
use lbz.Dev.Tests.{build, answers, opened, sound}
use lbz.Proc.{Kernel, Ret, bytes, message_length, copy_message, module_input, module_read}
use lbz.Proc.Commands.{CommandEnds, module_input_create}

-- A scan of a decimal number, a comma, and a path that ends at a space or at the end of the line.
unfoldable scan_path : List ℕ → List ℕ
scan_path [] = []
scan_path (c ∷ rest) = if leb c 32 then [] else c ∷ scan_path rest

unfoldable scan_size : ℕ → List ℕ → Option (ℕ × List ℕ)
scan_size n [] = none
scan_size n (c ∷ rest) =
    let more = scan_size (n * 10 + (c - 48)) rest in
    if leb 48 c && leb c 57
    then more
    else if c == b',' && not (length (scan_path rest) == 0)
    then some (n, scan_path rest)
    else none

abbrev kernel : Kernel
kernel = record {
  scan_id = λ _. none;
  scan_create = scan_size 0;
  scan_rule = λ _. none;
  get_by_path = λ _. inr 7;
}

-- "c16,/d" and the end of the line: 16 GiB.
abbrev arguments : List ℕ
arguments = b'1' ∷ b'6' ∷ b',' ∷ b'/' ∷ b'd' ∷ 10 ∷ []

message : copy_message (message_length - 1) (b'c' ∷ arguments) [] ≡ b'c' ∷ arguments
unfolding copy_message
message = refl

scanned : scan_size 0 arguments ≡ some (16, b'/' ∷ b'd' ∷ [])
unfolding scan_size scan_path
scanned = refl

module_input_create_example :
    (r : Ret) × (s' : System) × (module_input build kernel answers [] (b'c' ∷ arguments) opened
      ≡ some (r, s'))
    × CommandEnds build one_zone answers (16 * 2 ^ 21 % long_word) (b'c' ∷ arguments) opened r s'
module_input_create_example =
    module_input_create build one_zone kernel answers 64 16 7 (b'/' ∷ b'd' ∷ []) []
      (b'c' ∷ arguments) arguments opened message scanned (omega arith) refl
      (sound (16 * 2 ^ 21 % long_word) (omega arith))

-- A read asks for no bytes, and gets twenty.
read_once : module_read 0 true false ≡ (bytes 20, 1)
unfolding module_read
read_once = refl
