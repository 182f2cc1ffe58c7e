-- ===== src/Initrd/Tests.antt =====
-- src/fs/initrd.c on a small archive.
use openyanase_kernel.Base.{
  ℕ, ◌≡◌, refl, List, [], ◌∷◌, get_or, ltb, if◌then◌else◌, arith, inr, some, map, ◌-◌,
}
use openyanase_kernel.Str.{CString, vga_strncmp}
use openyanase_kernel.Initrd.{
  Memory, Initrd, tar_get_size, is_zero, tar_match_filename, found, read_loop, initrd_read_file,
  initrd_list, stuck, tar_name, next_header,
}
use openyanase_kernel.Initrd.Size.{tar_get_size-octal}
use openyanase_kernel.Initrd.Archive.{
  Entry, IsArchive, find, listing, initrd_read_file-find, initrd_list-listing,
}
use openyanase_kernel.Initrd.Step.{next_header-lem}
use openyanase_kernel.Initrd.Endless.{read_loop-endless}

-- The digits of 1234 octal, filled up with zeros.
abbrev digits_1234 : CString
digits_1234 i = get_or (48 ∷ 48 ∷ 48 ∷ 48 ∷ 48 ∷ 48 ∷ 48 ∷ 49 ∷ 50 ∷ 51 ∷ 52 ∷ []) i 0

octal_example : tar_get_size digits_1234 ≡ 668
octal_example = tar_get_size-octal 668 digits_1234 (omega arith) (omega arith)

octal_runs : tar_get_size digits_1234 ≡ 668
unfolding tar_get_size
octal_runs = refl

-- A file "./a" of three bytes at 4096, then zeros. The memory below 4096 is not looked at.
abbrev text : List ℕ → ℕ → ℕ → ℕ
text l a q = if ltb q a then 0 else get_or l (q - a) 0

abbrev memory : Memory
memory q =
    if ltb q 4220
    then text (b'.' ∷ b'/' ∷ b'a' ∷ []) 4096 q
    else if ltb q 4252
    then text (b'3' ∷ []) 4220 q
    else text (b'0' ∷ []) 4252 q

abbrev mounted : Initrd
mounted = record { initrd_addr = 4096; initrd_size = 10240 }

abbrev entry : Entry
entry = record { name = tar_name memory 4096; typeflag = 48; size = 3 }

memory-IsArchive : IsArchive memory 4096 14336 (entry ∷ [])
unfolding is_zero vga_strncmp tar_get_size
memory-IsArchive = (omega arith, refl, refl, refl, refl, inr refl)

abbrev name_a : CString
name_a i = get_or (b'a' ∷ []) i 0

found_example : initrd_read_file 2 memory mounted name_a ≡ find 4096 name_a (entry ∷ [])
found_example =
    initrd_read_file-find memory mounted name_a (entry ∷ []) memory-IsArchive (omega arith)
      (omega arith)

find_a : find 4096 name_a (entry ∷ []) ≡ found 4608 3
unfolding find tar_match_filename is_zero vga_strncmp
find_a = refl

listing_example : initrd_list 2 memory mounted ≡ some (some (map listing (entry ∷ [])))
listing_example =
    initrd_list-listing memory mounted (entry ∷ []) memory-IsArchive (omega arith, tt) (omega arith)
      (omega arith) (omega arith)

-- A file "b" whose size field is 37777777000.
abbrev huge : Memory
huge q =
    if ltb q 4220
    then text (b'b' ∷ []) 4096 q
    else text (51 ∷ 55 ∷ 55 ∷ 55 ∷ 55 ∷ 55 ∷ 55 ∷ 55 ∷ 48 ∷ 48 ∷ 48 ∷ []) 4220 q

endless_example : read_loop 1000 huge 4096 14336 name_a ≡ stuck
unfolding is_zero vga_strncmp tar_get_size tar_match_filename
endless_example =
    read_loop-endless 1000 huge 4096 14336 name_a (omega arith) (omega arith) refl (omega arith)
      (omega arith) refl

abbrev dot_slash : CString
dot_slash i = get_or (b'.' ∷ b'/' ∷ b'a' ∷ []) i 0

two_blocks : next_header 4096 513 ≡ 5632
two_blocks = next_header-lem 4096 513 (omega arith)
