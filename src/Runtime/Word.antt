-- ===== src/Runtime/Word.antt =====
-- `int32_t` as src/runtime/bytecode.c computes with it: a number below 2 ^ 32 stands for the bit
-- pattern. Sums, differences and products wrap around, as the compiled code does.
use openyanase_kernel.Base.{
  ℕ, ◌+◌, ◌-◌, ◌*◌, ◌/◌, ◌%◌, ◌^◌, Bool, true, false, not, ◌&&◌, ltb, leb, ◌==◌, if◌then◌else◌,
  sub32, Option, none, some,
}
use openyanase_kernel.Base.Int.{ℤ, pos, negsuc}

abbrev pub is_negative : ℕ → Bool
is_negative a = leb (2 ^ 31) a

-- The number that a pattern stands for.
abbrev pub signed : ℕ → ℤ
signed a = if is_negative a then negsuc (2 ^ 32 - 1 - a) else pos a

abbrev pub negate : ℕ → ℕ
negate a = sub32 0 a

abbrev pub magnitude : ℕ → ℕ
magnitude a = if is_negative a then 2 ^ 32 - a else a

-- A byte and a half-word with their signs.
abbrev pub sign8 : ℕ → ℕ
sign8 b = if ltb b 128 then b else b + (2 ^ 32 - 256)

abbrev pub sign16 : ℕ → ℕ
sign16 h = if ltb h 32768 then h else h + (2 ^ 32 - 65536)

-- `a < b` on `int32_t`.
abbrev pub less : ℕ → ℕ → Bool
less a b = ltb ((a + 2 ^ 31) % 2 ^ 32) ((b + 2 ^ 31) % 2 ^ 32)

abbrev pub mul32 : ℕ → ℕ → ℕ
mul32 a b = (a * b) % 2 ^ 32

-- The smallest number by -1 has no quotient and no remainder: the processor raises an exception.
abbrev pub overflows : ℕ → ℕ → Bool
overflows a b = a == 2 ^ 31 && b == 2 ^ 32 - 1

abbrev with_sign : Bool → ℕ → ℕ
with_sign true a = negate a
with_sign false a = a

abbrev differ : Bool → Bool → Bool
differ true b = not b
differ false b = b

-- `b ? a / b : 0` and `b ? a % b : 0`; the quotient goes to zero, the remainder has the sign of `a`.
unfoldable pub quotient : ℕ → ℕ → Option ℕ
quotient a b =
    if b == 0
    then some 0
    else if overflows a b
    then none
    else some (with_sign (differ (is_negative a) (is_negative b)) (magnitude a / magnitude b))

unfoldable pub remainder : ℕ → ℕ → Option ℕ
remainder a b =
    if b == 0
    then some 0
    else if overflows a b
    then none
    else some (with_sign (is_negative a) (magnitude a % magnitude b))

-- A shift by a count that is not from 0 to 31 is undefined; `>>` keeps the sign.
unfoldable pub shift_left : ℕ → ℕ → Option ℕ
shift_left a b = if ltb b 32 then some ((a * 2 ^ b) % 2 ^ 32) else none

unfoldable pub shift_right : ℕ → ℕ → Option ℕ
shift_right a b =
    if ltb b 32
    then some (if is_negative a then 2 ^ 32 - 1 - (2 ^ 32 - 1 - a) / 2 ^ b else a / 2 ^ b)
    else none
