-- ===== src/Initrd.antt =====
-- src/fs/initrd.c: the TAR archive that the boot loader leaves in memory.
pub mod Size
pub mod Step
pub mod Archive
pub mod Endless
mod Tests
use openyanase_kernel.Base.{
  ℕ, zero, suc, ◌+◌, ◌-◌, ◌*◌, Bool, true, false, not, ◌&&◌, ◌||◌, Option, none, some, List, [],
  ◌∷◌, ltb, ◌==◌, if◌then◌else◌, u32, add32, sub32, bit_and,
}
use openyanase_kernel.Base.Int.{ℤ, pos}
use openyanase_kernel.Str.{CString, vga_strncmp}

-- The physical memory, by bytes.
abbrev pub Memory : Type 0
Memory = ℕ → ℕ

-- The pointer `a + i` as a C string.
abbrev pub at : Memory → ℕ → CString
at m a i = m (a + i)

-- Four bytes, the lowest first.
abbrev pub load32 : Memory → ℕ → ℕ
load32 m a = m a + 256 * (m (a + 1) + 256 * (m (a + 2) + 256 * m (a + 3)))

-- What the module reads of `multiboot_info_t`, and what it keeps.
pub record Multiboot : Type 0 where
  pub flags : ℕ
  pub mods_count : ℕ
  pub mods_addr : ℕ

pub record Initrd : Type 0 where
  pub initrd_addr : ℕ
  pub initrd_size : ℕ

-- A module's start and end are the first two words of its `multiboot_module_t`.
unfoldable pub initrd_init : Memory → Multiboot → Initrd → Initrd
initrd_init m mbi s =
    if bit_and mbi.flags 8 == 0
    then s
    else (if mbi.mods_count == 0 then s else record {
      initrd_addr = load32 m mbi.mods_addr;
      initrd_size = sub32 (load32 m (mbi.mods_addr + 4)) (load32 m mbi.mods_addr);
    })

-- The loop of `tar_get_size` from the index `j`, with the rounds that are left.
unfoldable pub tar_size_loop : ℕ → ℕ → CString → ℕ → ℕ
tar_size_loop zero j s size = size
tar_size_loop (suc n) j s size =
    let rest = tar_size_loop n (j + 1) s (u32 (u32 (size * 8) + (s j - 48))) in
    if ltb (s j) b'0' || ltb b'7' (s j) then size else rest

unfoldable pub tar_get_size : CString → ℕ
unfolding tar_size_loop
tar_get_size s = tar_size_loop 11 0 s 0

-- The fields of `tar_header_t` by their offsets.
abbrev pub tar_name : Memory → ℕ → CString
tar_name m a = at m a

abbrev pub tar_size : Memory → ℕ → CString
tar_size m a = at m (a + 124)

abbrev pub tar_typeflag : Memory → ℕ → ℕ
tar_typeflag m a = m (a + 156)

abbrev pub tar_magic : Memory → ℕ → CString
tar_magic m a = at m (a + 257)

abbrev pub ustar : CString
ustar i =
    if i == 0
    then b'u'
    else if i == 1
    then b's'
    else if i == 2
    then b't'
    else if i == 3
    then b'a'
    else if i == 4
    then b'r'
    else 0

unfoldable pub is_zero : ℤ → Bool
is_zero (pos zero) = true
is_zero _ = false

unfoldable pub tar_match_filename : CString → CString → Bool
tar_match_filename tar_name search_name =
    (tar_name 0 == b'.'
      && tar_name 1 == b'/'
      && is_zero (vga_strncmp (λ i. tar_name (2 + i)) search_name 100))
    || is_zero (vga_strncmp tar_name search_name 100)

-- `((size + 511) & ~511) + 512`, the way from one header to the next.
unfoldable pub next_header : ℕ → ℕ → ℕ
next_header address size = add32 address (add32 (bit_and (add32 size 511) 0xffff_fe00) 512)

-- `stuck` is no value of the program: the fuel ran out.
pub data Found : Type 0 where
  stuck null : Found
  found : ℕ → ℕ → Found

-- `size` in the result is what goes out through `out_size`.
unfoldable pub read_loop : ℕ → Memory → ℕ → ℕ → CString → Found
read_loop zero m address limit filename = stuck
read_loop (suc fuel) m address limit filename =
    let size = tar_get_size (tar_size m address) in
    let rest = read_loop fuel m (next_header address size) limit filename in
    if ltb address limit
    then (if not (is_zero (vga_strncmp (tar_magic m address) ustar 5)) && tar_name m address 0 == 0
        then null
        else (if tar_match_filename (tar_name m address) filename
            then found (add32 address 512) size
            else rest))
    else null

unfoldable pub initrd_read_file : ℕ → Memory → Initrd → CString → Found
unfolding read_loop
initrd_read_file fuel m s filename =
    if s.initrd_addr == 0
    then null
    else read_loop fuel m s.initrd_addr (add32 s.initrd_addr s.initrd_size) filename

-- What `initrd_list` prints of a file: its name, and its kind where the type flag gives one.
pub data Kind : Type 0 where
  file directory other : Kind

unfoldable pub kind_of : ℕ → Kind
kind_of t = if t == b'0' || t == 0 then file else (if t == b'5' then directory else other)

pub record Listed : Type 0 where
  pub name : CString
  pub kind : Kind

-- `none` means that the fuel ran out.
unfoldable pub list_loop : ℕ → Memory → ℕ → ℕ → Option (List Listed)
list_loop zero m address limit = none
list_loop (suc fuel) m address limit =
    let rest = list_loop fuel m (next_header address (tar_get_size (tar_size m address))) limit in
    if ltb address limit
    then (if tar_name m address 0 == 0 then some [] else elim rest [
      | none ↦ none
      | some out ↦
          some (record { name = tar_name m address; kind = kind_of (tar_typeflag m address) } ∷ out)
    ])
    else some []

-- An empty or missing archive is told by a message, here the `none` inside.
unfoldable pub initrd_list : ℕ → Memory → Initrd → Option (Option (List Listed))
unfolding list_loop
initrd_list fuel m s =
    if s.initrd_addr == 0 || s.initrd_size == 0
    then some none
    else elim (list_loop fuel m s.initrd_addr (add32 s.initrd_addr s.initrd_size)) [
      | none ↦ none
      | some out ↦ some (some out)
    ]
