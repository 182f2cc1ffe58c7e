-- ===== src/Base/Bits.antt =====
-- `&` with a low mask and `|` of disjoint fields, as arithmetic, at every width.
use Prim.Native.Nat.{
  ℕ, zero, suc, ◌+◌, ◌-◌, ◌*◌, ◌/◌, ◌%◌, ◌≤◌, ◌<◌, ◌^◌, min, max, bit_and, bit_or,
}
use Prim.Native.Nat.{digits, bitwise, bit_and-bitwise, bit_or-bitwise}
use mathlib.Core.Path.{◌≡◌, refl, ap, ◌∙◌}
use native.Mathlib.Nat.{le_refl, pow-suc, one-le-pow, div-div-eq-div-mul, mul_comm}
use native.Mathlib.Omega.{arith}

-- The native operations count rounds of their recursion; a number has enough rounds in itself,
-- and any that are left over change nothing.
left_over :
    (z : ℕ → ℕ) (f : ℕ → ℕ → ℕ) (rounds x y : ℕ)
    → x ≤ rounds
    → digits z f (suc rounds) x y ≡ digits z f rounds x y
left_over z f zero zero y le = refl
left_over z f (suc rounds) zero y le = refl
left_over z f zero (suc x) y le = absurd (omega arith)
left_over z f (suc rounds) (suc x) y le =
    ap (λ t. t * 2 + f (suc x % 2) (y % 2)) (left_over z f rounds (suc x / 2) (y / 2) (omega arith))

all_left_over : (z : ℕ → ℕ) (f : ℕ → ℕ → ℕ) (k x y : ℕ) → digits z f (k + x) x y ≡ bitwise z f x y
all_left_over z f zero x y = ap (λ n. digits z f n x y) {x = 0 + x} {y = x} (omega arith)
all_left_over z f (suc k) x y =
    ap (λ n. digits z f n x y) {x = suc k + x} {y = suc (k + x)} (omega arith)
    ∙ left_over z f (k + x) x y (omega arith)
    ∙ all_left_over z f k x y

lowest_digit :
    (z : ℕ → ℕ) (f : ℕ → ℕ → ℕ) (x y : ℕ)
    → bitwise z f (suc x) y ≡ bitwise z f (suc x / 2) (y / 2) * 2 + f (suc x % 2) (y % 2)
lowest_digit z f x y =
    ap (λ t. t * 2 + f (suc x % 2) (y % 2))
      (ap (λ n. digits z f n (suc x / 2) (y / 2)) {x = x} {y = x - suc x / 2 + suc x / 2}
          (omega arith)
        ∙ all_left_over z f (x - suc x / 2) (suc x / 2) (y / 2))

bit_or_step : (x y : ℕ) → bit_or x y ≡ bit_or (x / 2) (y / 2) * 2 + max (x % 2) (y % 2)
bit_or_step zero y = simp bit_or-bitwise (omega arith)
bit_or_step (suc x) y = simp bit_or-bitwise (lowest_digit (λ t. t) max x y)

bit_and_step : (x y : ℕ) → bit_and x y ≡ bit_and (x / 2) (y / 2) * 2 + min (x % 2) (y % 2)
bit_and_step zero y = simp bit_and-bitwise (omega arith)
bit_and_step (suc x) y = simp bit_and-bitwise (lowest_digit (λ t. 0) min x y)

or_nothing : (rounds x : ℕ) → x ≤ rounds → digits (λ t. t) max rounds x 0 ≡ x
or_nothing zero zero le = refl
or_nothing (suc rounds) zero le = refl
or_nothing zero (suc x) le = absurd (omega arith)
or_nothing (suc rounds) (suc x) le = omega (arith, or_nothing rounds (suc x / 2) (omega arith))

bit_or-zero : (x : ℕ) → bit_or x 0 ≡ x
bit_or-zero x = rw bit_or-bitwise (or_nothing x x (omega arith))

and_nothing : (rounds x : ℕ) → digits (λ t. 0) min rounds x 0 ≡ 0
and_nothing zero x = refl
and_nothing (suc rounds) zero = refl
and_nothing (suc rounds) (suc x) = omega (arith, and_nothing rounds (suc x / 2))

bit_and-zero : (x : ℕ) → bit_and x 0 ≡ 0
bit_and-zero x = rw bit_and-bitwise (and_nothing x x)

double_pow : (q k : ℕ) → q * 2 ^ suc k ≡ 2 * (q * 2 ^ k)
double_pow q k = omega (arith, ap (λ (t : ℕ). q * t) (pow-suc 2 k))

half_pow : (x k : ℕ) → x / 2 ^ suc k ≡ x / 2 / 2 ^ k
half_pow x k = rw (pow-suc, mul_comm, ← div-div-eq-div-mul) refl

-- `|` adds a number of `k` bits to a multiple of `2 ^ k`.
pub bit_or_fields : (k high low : ℕ) → low < 2 ^ k → bit_or (high * 2 ^ k) low ≡ high * 2 ^ k + low
bit_or_fields zero high low small = ground (arith, bit_or-zero high)
bit_or_fields (suc k) high low small =
    let rest = bit_or_fields k high (low / 2) (omega (arith, pow-suc 2 k)) in
    ground (arith, rest, double_pow high k, bit_or_step (high * 2 ^ suc k) low)

low_bits : (k high low : ℕ) → low < 2 ^ k → bit_and (high * 2 ^ k + low) (2 ^ k - 1) ≡ low
low_bits zero high low small = bit_and-zero (high * 1 + low) ∙ omega arith
low_bits (suc k) high low small =
    let rest = low_bits k high (low / 2) (omega (arith, pow-suc 2 k)) in
    let step = bit_and_step (high * 2 ^ suc k + low) (2 ^ suc k - 1) in
    ground (arith, rest, step, double_pow high k, pow-suc 2 k)

-- `&` with the `k` lowest bits leaves the remainder by `2 ^ k`.
pub bit_and_mask : (k x : ℕ) → bit_and x (2 ^ k - 1) ≡ x % 2 ^ k
bit_and_mask k x =
    let split = low_bits k (x / 2 ^ k) (x % 2 ^ k) in ground (arith, split, one-le-pow k 2)

-- A mask shifted up by one takes the low bit off first.
pub bit_and_double : (a m : ℕ) → bit_and a (2 * m) ≡ 2 * bit_and (a / 2) m
bit_and_double a m =
    omega
      (arith, bit_and_step a (2 * m), ap (bit_and (a / 2)) {x = 2 * m / 2} {y = m} (omega arith))

-- So a mask of bits above the lowest `k` sees only those above.
pub bit_and_high : (k a m : ℕ) → bit_and a (m * 2 ^ k) ≡ bit_and (a / 2 ^ k) m * 2 ^ k
bit_and_high zero a m = ground arith
bit_and_high (suc k) a m = ground (
  arith,
  ap (bit_and a) (double_pow m k),
  bit_and_double a (m * 2 ^ k),
  bit_and_high k (a / 2) m,
  double_pow (bit_and (a / 2 ^ suc k) m) k,
  ap (λ (t : ℕ). bit_and t m) (half_pow a k),
)

zero-bit_or : (b : ℕ) → bit_or 0 b ≡ b
zero-bit_or b = bit_or-bitwise 0 b

bit_or_comm_fuel : (n a b : ℕ) → a ≤ n → bit_or a b ≡ bit_or b a
bit_or_comm_fuel n zero b h = omega (arith, zero-bit_or b, bit_or-zero b)
bit_or_comm_fuel zero (suc a) b h = absurd (omega arith)
bit_or_comm_fuel (suc n) (suc a) b h = omega (
  arith,
  bit_or_step (suc a) b,
  bit_or_step b (suc a),
  bit_or_comm_fuel n (suc a / 2) (b / 2) (omega arith),
)

pub bit_or_comm : (a b : ℕ) → bit_or a b ≡ bit_or b a
bit_or_comm a b = bit_or_comm_fuel a a b (le_refl _)
