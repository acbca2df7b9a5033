-- ===== src/Prelude/Words.antt =====
-- Machine words. A 32-bit value, signed or not, is its bit pattern, a number below 2 ^ 32; likewise
-- for 64 bits. An `atomic_t` wraps as its pattern does.
use lbz.Prelude.{ℕ, ◌+◌, ◌-◌, ◌*◌, ◌%◌, ◌^◌, ◌≤◌, ◌<◌, ◌≡◌, Bool, arith, ltb}

abbrev pub word : ℕ
word = 2 ^ 32

abbrev pub long_word : ℕ
long_word = 2 ^ 64

unfoldable pub add32 : ℕ → ℕ → ℕ
add32 a b = (a + b) % word

unfoldable pub sub32 : ℕ → ℕ → ℕ
sub32 a b = (a + word - b) % word

unfoldable pub mul32 : ℕ → ℕ → ℕ
mul32 a b = a * b % word

unfoldable pub inc32 : ℕ → ℕ
inc32 a = (a + 1) % word

unfoldable pub dec32 : ℕ → ℕ
dec32 a = (a + (word - 1)) % word

unfoldable pub inc64 : ℕ → ℕ
inc64 a = (a + 1) % long_word

unfoldable pub dec64 : ℕ → ℕ
dec64 a = (a + (long_word - 1)) % long_word

-- The comparison of two `int` patterns: the sign bit is turned over.
unfoldable pub signed_lt : ℕ → ℕ → Bool
signed_lt a b = ltb ((a + 2 ^ 31) % word) ((b + 2 ^ 31) % word)

pub inc32_lem : (a : ℕ) → a + 1 < word → inc32 a ≡ a + 1
unfolding inc32
inc32_lem a h = omega arith

pub dec32_lem : (a : ℕ) → 0 < a → a ≤ word → dec32 a ≡ a - 1
unfolding dec32
dec32_lem a h k = omega arith

pub add32_lem : (a b : ℕ) → a + b < word → add32 a b ≡ a + b
unfolding add32
add32_lem a b h = omega arith

pub sub32_lem : (a b : ℕ) → b ≤ a → a < word → sub32 a b ≡ a - b
unfolding sub32
sub32_lem a b h k = omega arith

pub dec32-inc32 : (a : ℕ) → a < word → dec32 (inc32 a) ≡ a
unfolding dec32 inc32
dec32-inc32 a h = omega arith

pub signed_lt_lem : (a b : ℕ) → a < 2 ^ 31 → b < 2 ^ 31 → signed_lt a b ≡ ltb a b
unfolding signed_lt
signed_lt_lem a b h k = ground arith
