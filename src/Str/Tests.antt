-- ===== src/Str/Tests.antt =====
-- `vga_strncmp` and `vga_strncpy` at concrete strings.
use openyanase_kernel.Base.{◌≡◌, refl, [], ◌∷◌, get_or}
use openyanase_kernel.Base.Int.{pos}
use openyanase_kernel.Str.{CString, vga_strncmp, vga_strncpy}

abbrev cat : CString
cat i = get_or (b'c' ∷ b'a' ∷ b't' ∷ []) i 0

abbrev car : CString
car i = get_or (b'c' ∷ b'a' ∷ b'r' ∷ []) i 0

two_letters : vga_strncmp cat car 2 ≡ pos 0
unfolding vga_strncmp
two_letters = refl

three_letters : vga_strncmp cat car 3 ≡ pos 2
unfolding vga_strncmp
three_letters = refl

padded : vga_strncpy car cat 8 2 ≡ b't'
unfolding vga_strncpy
padded = refl
