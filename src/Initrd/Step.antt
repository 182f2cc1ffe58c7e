-- ===== src/Initrd/Step.antt =====
-- The way from one TAR header to the next in src/fs/initrd.c.
use openyanase_kernel.Base.{ℕ, ◌+◌, ◌-◌, ◌*◌, ◌/◌, ◌%◌, ◌^◌, ◌<◌, ◌≡◌, ◌∙◌, ap, bit_and, arith}
use openyanase_kernel.Base.Bits.{bit_and_high, bit_and_mask}
use openyanase_kernel.Initrd.{next_header}

-- `x & ~511` on 32 bits.
pub round_down : (x : ℕ) → x < 2 ^ 32 → bit_and x 0xffff_fe00 ≡ x / 512 * 512
round_down x h =
    bit_and_high 9 x (2 ^ 23 - 1) ∙ ap (λ t. t * 2 ^ 9) (bit_and_mask 23 (x / 2 ^ 9)) ∙ omega arith

-- A file's bytes rounded up to whole blocks of 512, behind a header of one block.
abbrev pub stride : ℕ → ℕ
stride size = (size + 511) / 512 * 512 + 512

-- Where the next header's address fits 32 bits, it is at the end of the file's blocks.
pub next_header-lem : (a size : ℕ) → a + stride size < 2 ^ 32 → next_header a size ≡ a + stride size
unfolding next_header
next_header-lem a size h = omega (arith, round_down ((size + 511) % 2 ^ 32) (omega arith))
