-- ===== src/Str.antt =====
-- src/main.c: `vga_strncmp` and `vga_strncpy`. A C string is the bytes from its pointer on.
pub mod Compare
pub mod Copy
mod Tests
use openyanase_kernel.Base.{ℕ, zero, suc, ◌+◌, Bool, true, false, ◌==◌, if◌then◌else◌, update}
use openyanase_kernel.Base.Int.{ℤ, pos, ◌-ℤ◌}

abbrev pub CString : Type 0
CString = ℕ → ℕ

-- `n` is what is left of the count, and `i` how far both pointers have gone.
unfoldable pub strncmp_loop : ℕ → ℕ → CString → CString → ℤ
strncmp_loop zero i s1 s2 = pos 0
strncmp_loop (suc n) i s1 s2 =
    let rest = strncmp_loop n (i + 1) s1 s2 in
    if s1 i == s2 i then (if s1 i == 0 then pos 0 else rest) else pos (s1 i) -ℤ pos (s2 i)

unfoldable pub vga_strncmp : CString → CString → ℕ → ℤ
unfolding strncmp_loop
vga_strncmp s1 s2 n = strncmp_loop n 0 s1 s2

-- The second loop of `vga_strncpy`, with `n` rounds left from the index `i`.
unfoldable pub pad_loop : ℕ → ℕ → CString → CString
pad_loop zero i dest = dest
pad_loop (suc n) i dest = pad_loop n (i + 1) (update dest i 0)

-- The first loop; where it stops, the second goes on with the rounds that are left.
unfoldable pub copy_loop : ℕ → ℕ → CString → CString → CString
unfolding pad_loop
copy_loop zero i dest src = dest
copy_loop (suc n) i dest src =
    let rest = copy_loop n (i + 1) (update dest i (src i)) src in
    if src i == 0 then pad_loop (suc n) i dest else rest

unfoldable pub vga_strncpy : CString → CString → ℕ → CString
unfolding copy_loop
vga_strncpy dest src n = copy_loop n 0 dest src
