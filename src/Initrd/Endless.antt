-- ===== src/Initrd/Endless.antt =====
-- A size field of src/fs/initrd.c on which the address does not move on.
use openyanase_kernel.Base.{
  ℕ, zero, suc, ◌+◌, ◌-◌, ◌%◌, ◌^◌, ◌<◌, ◌≤◌, ◌≡◌, refl, true, false, ltb, arith,
}
use openyanase_kernel.Str.{CString}
use openyanase_kernel.Initrd.{
  Memory, tar_name, tar_size, tar_get_size, tar_match_filename, next_header, stuck, read_loop,
}
use openyanase_kernel.Initrd.Archive.{blank_header}
use openyanase_kernel.Initrd.Step.{round_down}

-- The sizes that round up to 2 ^ 32 - 512 are added with the header to nothing.
next_header-stays :
    (a size : ℕ) → a < 2 ^ 32 → 2 ^ 32 - 1024 < size → size ≤ 2 ^ 32 - 512 → next_header a size ≡ a
unfolding next_header
next_header-stays a size h lo hi = omega (arith, round_down ((size + 511) % 2 ^ 32) (omega arith))

-- At a header whose size field says more than 2 ^ 32 - 1024 and at most 2 ^ 32 - 512 bytes, and
-- which is not the file that is looked for, `initrd_read_file` comes back to that header for ever:
-- no number of rounds is enough.
pub read_loop-endless :
    (fuel : ℕ) (m : Memory) (a e : ℕ) (filename : CString)
    → a < e
    → e < 2 ^ 32
    → blank_header m a ≡ false
    → 2 ^ 32 - 1024 < tar_get_size (tar_size m a)
    → tar_get_size (tar_size m a) ≤ 2 ^ 32 - 512
    → tar_match_filename (tar_name m a) filename ≡ false
    → read_loop fuel m a e filename ≡ stuck
unfolding read_loop
read_loop-endless zero m a e filename lt small head lo hi other = refl
read_loop-endless (suc fuel) m a e filename lt small head lo hi other =
    rw
      (
        inside,
        head,
        other,
        next_header-stays a (tar_get_size (tar_size m a)) (omega arith) lo hi,
        read_loop-endless fuel m a e filename lt small head lo hi other,
      )
      refl
  where
    inside : ltb a e ≡ true
    inside = ground arith
