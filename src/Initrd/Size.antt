-- ===== src/Initrd/Size.antt =====
-- `tar_get_size` of src/fs/initrd.c against the octal digits of a number.
use openyanase_kernel.Base.{
  ℕ, zero, suc, ◌+◌, ◌-◌, ◌*◌, ◌/◌, ◌%◌, ◌^◌, ◌<◌, ◌≡◌, refl, ◌∙◌, ap, false, ◌||◌, ltb, u32, arith,
}
use native.Mathlib.Nat.{pow-suc, div-div-eq-div-mul}
use openyanase_kernel.Str.{CString}
use openyanase_kernel.Initrd.{tar_size_loop, tar_get_size}

-- The first `w` characters are the lowest `w` octal digits of `n`, the highest first.
abbrev pub IsOctal : ℕ → ℕ → ℕ → CString → Type 0
IsOctal zero j n s = Unit
IsOctal (suc w) j n s = (s j ≡ 48 + n / 8 ^ w % 8) × IsOctal w (j + 1) n s

tar_size_loop-step :
    (w j : ℕ) (s : CString) (size d : ℕ)
    → s j ≡ 48 + d
    → d < 8
    → tar_size_loop (suc w) j s size ≡ tar_size_loop w (j + 1) s (u32 (u32 (size * 8) + d))
unfolding tar_size_loop
tar_size_loop-step w j s size d e lt = rw (e, digit, value) refl
  where
    digit : (ltb (48 + d) 48 || ltb 55 (48 + d)) ≡ false
    digit = ground arith

    value : 48 + d - 48 ≡ d
    value = omega arith

tar_size_loop-octal :
    (w j n : ℕ) (s : CString) → IsOctal w j n s → tar_size_loop w j s (u32 (n / 8 ^ w)) ≡ u32 n
tar_size_loop-octal zero j n s h = unfold tar_size_loop in ground arith
tar_size_loop-octal (suc w) j n s h =
    tar_size_loop-step w j s (u32 (n / 8 ^ suc w)) (n / 8 ^ w % 8) h.0 (omega arith)
    ∙ ap (tar_size_loop w (j + 1) s) shifted
    ∙ tar_size_loop-octal w (j + 1) n s h.1
  where
    above : n / 8 ^ suc w ≡ n / 8 ^ w / 8
    above = rw (pow-suc, ← div-div-eq-div-mul) refl

    shifted : u32 (u32 (u32 (n / 8 ^ suc w) * 8) + n / 8 ^ w % 8) ≡ u32 (n / 8 ^ w)
    shifted = rw above (omega arith)

-- A size that TAR writes as eleven octal digits is read back, modulo the width of the result.
pub tar_get_size-octal :
    (n : ℕ) (s : CString) → n < 8 ^ 11 → IsOctal 11 0 n s → tar_get_size s ≡ u32 n
unfolding tar_get_size
tar_get_size-octal n s fits h =
    ap (tar_size_loop 11 0 s) {x = 0} {y = u32 (n / 8 ^ 11)} (omega arith)
    ∙ tar_size_loop-octal 11 0 n s h
