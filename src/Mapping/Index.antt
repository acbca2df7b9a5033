-- ===== src/Mapping/Index.antt =====
-- A block's place in the tree: no two blocks share one.
use native.Mathlib.Nat.{
  div-div-eq-div-mul, div-add-mod, mod-lt, div-lt_iff_lt-mul, le-div_iff_mul-le, mul_comm,
  div-eq_of_lt, mod-eq_of_lt, add-mul-div_right, add-mul-mod_self_right, add_comm,
}
use lbz.Prelude.{ℕ, ◌+◌, ◌-◌, ◌*◌, ◌/◌, ◌%◌, ◌≤◌, ◌<◌, ◌≡◌, arith}

pub eq_of_div_mod : (k b c : ℕ) → b / k ≡ c / k → b % k ≡ c % k → b ≡ c
eq_of_div_mod k b c p q = cc (div-add-mod b k, div-add-mod c k)

-- The three indices of `__find_specific_node` determine the block.
pub place_injective :
    (k n b c : ℕ) → b / (k * n) ≡ c / (k * n) → b / k % n ≡ c / k % n → b % k ≡ c % k → b ≡ c
place_injective k n b c p q r =
    eq_of_div_mod k b c
      (eq_of_div_mod n (b / k) (c / k) (cc (div-div-eq-div-mul b k n, div-div-eq-div-mul c k n)) q)
      r

-- Division that rounds up leaves nothing out.
pub le-ceil-mul : (m k : ℕ) → 0 < k → m ≤ (m + k - 1) / k * k
le-ceil-mul m k h =
    omega (arith, div-add-mod (m + k - 1) k, mod-lt (m + k - 1) h, mul_comm ((m + k - 1) / k) k)

pub div-lt-ceil : (m k b : ℕ) → 0 < k → b < m → b / k < (m + k - 1) / k
div-lt-ceil m k b h lt = (div-lt_iff_lt-mul h).1 (omega (arith, le-ceil-mul m k h))

pub ceil-le-mul : (m k c : ℕ) → 0 < k → m ≤ c * k → (m + k - 1) / k ≤ c
ceil-le-mul m k c h le =
    let lt : m + k - 1 < (c + 1) * k = omega arith in
    let below : (m + k - 1) / k < c + 1 = (div-lt_iff_lt-mul h).1 lt in omega arith

pub ceil_mono : (m n k : ℕ) → 0 < k → m ≤ n → (m + k - 1) / k ≤ (n + k - 1) / k
ceil_mono m n k h le = ceil-le-mul m k ((n + k - 1) / k) h (omega (arith, le-ceil-mul n k h))

pub mul-lt_of_lt-ceil : (m k q : ℕ) → 0 < k → q < (m + k - 1) / k → q * k < m
mul-lt_of_lt-ceil m k q h lt = omega (arith, (le-div_iff_mul-le h).0 lt)

-- A row and a column come back from the index of their cell.
pub add-div_column : (r k n : ℕ) → k < n → (r * n + k) / n ≡ r
add-div_column r k n h =
    rw (add_comm (r * n) k, add-mul-div_right k r {z = n} (omega arith), div-eq_of_lt h)
      (omega arith)

pub add-mod_column : (r k n : ℕ) → k < n → (r * n + k) % n ≡ k
add-mod_column r k n h = rw (add_comm (r * n) k, add-mul-mod_self_right k r n) (mod-eq_of_lt h)
