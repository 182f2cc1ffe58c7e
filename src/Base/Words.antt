-- ===== src/Base/Words.antt =====
-- Casts to the fixed widths and wrapping arithmetic; shifts in the form that `omega` reads.
use Prim.Native.Nat.{ℕ, ◌+◌, ◌-◌, ◌*◌, ◌/◌, ◌%◌, ◌^◌}

abbrev pub u8 : ℕ → ℕ
u8 n = n % 2 ^ 8

abbrev pub u16 : ℕ → ℕ
u16 n = n % 2 ^ 16

abbrev pub u32 : ℕ → ℕ
u32 n = n % 2 ^ 32

-- `uint32_t` sums and differences; 2 ^ 32 is added first since `-` stops at 0.
abbrev pub add32 : ℕ → ℕ → ℕ
add32 a b = (a + b) % 2 ^ 32

abbrev pub sub32 : ℕ → ℕ → ℕ
sub32 a b = (a + 2 ^ 32 - b % 2 ^ 32) % 2 ^ 32

infixl 75 ◌<<<◌ ◌>>>◌
abbrev pub ◌<<<◌ : ℕ → ℕ → ℕ
x <<< k = x * 2 ^ k

abbrev pub ◌>>>◌ : ℕ → ℕ → ℕ
x >>> k = x / 2 ^ k

-- A write to an I/O port: the port and the byte.
abbrev pub Out : Type 0
Out = ℕ × ℕ
