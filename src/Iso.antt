-- ===== src/Iso.antt =====
-- src/fs/iso9660.c: the file system on the CD, over the drive that reads a sector into memory.
pub mod Atapi
pub mod Device
pub mod Mount
pub mod Names
pub mod Records
pub mod Drive
pub mod File
pub mod Listing
mod Tests
use Prim.Native.String.{String}
use mathlib.Core.Option
use openyanase_kernel.Base.{
  ℕ, zero, suc, ◌+◌, ◌*◌, ◌/◌, Bool, true, false, ◌&&◌, ◌||◌, not, Option, none, some, List, [],
  ◌∷◌, ◌++◌, ltb, ◌==◌, if◌then◌else◌, update, add32, u32, bit_and,
}
use openyanase_kernel.Base.Loops.{for_loop}
use openyanase_kernel.Str.{CString}
use openyanase_kernel.Initrd.{Memory, at, load32}

-- The fields of `iso_directory_record_t` by their offsets.
abbrev pub extent_lba : Memory → ℕ → ℕ
extent_lba m a = load32 m (a + 2)

abbrev pub data_length : Memory → ℕ → ℕ
data_length m a = load32 m (a + 10)

abbrev pub file_flags : Memory → ℕ → ℕ
file_flags m a = m (a + 25)

abbrev pub file_id_length : Memory → ℕ → ℕ
file_id_length m a = m (a + 32)

abbrev pub file_id : Memory → ℕ → CString
file_id m a = at m (a + 33)

-- `root_directory_record` in `iso_pvd_t`.
abbrev pub root_directory_record : ℕ
root_directory_record = 156

-- The rounds left, and the index.
unfoldable pub match_loop : ℕ → ℕ → CString → CString → Bool
match_loop zero i target iso_name = true
match_loop (suc n) i target iso_name =
    let rest = match_loop n (i + 1) target iso_name in
    if iso_name i == b';' then true else (if target i == iso_name i then rest else false)

unfoldable pub filename_match : CString → CString → ℕ → Bool
unfolding match_loop
filename_match target iso_name len = match_loop len 0 target iso_name

-- What a search ends with. Two of these are no results: `unfinished` is that the fuel ran out, and
-- `overrun` that a record was written behind the end of the caller's variable, which C leaves
-- undefined.
pub data Search : Type 0 where
  unfinished absent overrun : Search
  present : ℕ → Search

-- The loop of `find_file_record` over the sector at `buf`; fuel first. The offset is found.
unfoldable pub find_loop : ℕ → Memory → ℕ → CString → ℕ → Search
unfolding filename_match
find_loop zero m buf name offset = unfinished
find_loop (suc fuel) m buf name offset =
    let a = buf + offset in
    let rest = find_loop fuel m buf name (offset + m a) in
    if ltb offset 2048
    then (if m a == 0
        then absent
        else (if filename_match name (file_id m a) (file_id_length m a)
            then present offset
            else rest))
    else absent

-- `sizeof(iso_directory_record_t)`, the size of the variable that `out_rec` points to.
abbrev pub record_size : ℕ
record_size = 34

-- `out_rec` is written byte by byte, as far as the record says: what the variable holds then, if the
-- record is not longer than it.
unfoldable pub copy_record : Memory → ℕ → Memory → Memory
copy_record m a rec = for_loop (m a) 0 (λ i r. update r i (m (a + i))) rec

-- `*out_rec` where the search ends.
unfoldable pub out_record : Memory → ℕ → Memory → Search → Memory
unfolding copy_record
out_record m buf rec (present offset) = copy_record m (buf + offset) rec
out_record m buf rec _ = rec

-- A record of more bytes than the variable is written over what stands behind it.
unfoldable pub record_fits : Memory → ℕ → Search → Search
record_fits m buf (present offset) =
    if ltb record_size (m (buf + offset)) then overrun else present offset
record_fits m buf result = result

-- The path without a slash at its front.
unfoldable pub filename : CString → CString
filename path = if path 0 == b'/' then (λ (i : ℕ). path (1 + i)) else path

-- The result of `iso9660_get_size`, by what the search found and the record.
unfoldable pub found_size : Memory → Search → Option ℕ
found_size rec (present offset) = some (data_length rec 0)
found_size rec absent = some 0
found_size rec unfinished = none
found_size rec overrun = none

-- What the file system prints.
pub data Print : Type 0 where
  puts : String → ℕ → Print
  putc : ℕ → ℕ → Print

-- A name, up to its version.
unfoldable pub print_name : ℕ → ℕ → CString → List Print
print_name zero i name = []
print_name (suc n) i name =
    let rest = putc (name i) 0x0F ∷ print_name n (i + 1) name in if name i == b';' then [] else rest

-- What a round prints for the record at `a`.
unfoldable pub print_record : Memory → ℕ → List Print
unfolding print_name
print_record m a =
    (puts "  " 0x07 ∷ [])
    ++ (if file_id m a 0 == 0
        then puts "." 0x07 ∷ []
        else (if file_id m a 0 == 1
            then puts ".." 0x07 ∷ []
            else print_name (file_id_length m a) 0 (file_id m a)))
    ++ (if bit_and (file_flags m a) 2 == 0 then puts "\n" 0x07 ∷ [] else puts " [DIR]\n" 0x0B ∷ [])

-- The loop over the records of a sector; fuel first.
unfoldable pub list_loop : ℕ → Memory → ℕ → ℕ → Option (List Print)
unfolding print_record
list_loop zero m buf offset = none
list_loop (suc fuel) m buf offset =
    let a = buf + offset in
    let rest = Option.map (λ out. print_record m a ++ out) (list_loop fuel m buf (offset + m a)) in
    if ltb offset 2048 then (if m a == 0 then some [] else rest) else some []

unfoldable pub print_then : Option (List Print) → Option (List Print) → Option (List Print)
print_then (some printed) out = Option.map (λ out. printed ++ out) out
print_then none out = none

-- Enough for the loops over a sector, whose offset grows in each round.
abbrev pub sector_fuel : ℕ
sector_fuel = 2049

-- `read_sector lba buffer` is `atapi_read_sector`; `buf` is the address of a function's buffer.
module _ {D : Type 0} (read_sector : ℕ → ℕ → Memory → D → Memory × D) (buf : ℕ) where
  -- The offset of the record, with `out_rec`.
  unfoldable pub find_file_record : CString → Memory → Memory → D → Search × Memory × Memory × D
  unfolding out_record filename record_fits
  find_file_record path rec m d =
      let (m1, d1) = read_sector 16 buf m d in
      let (m2, d2) = read_sector (extent_lba m1 (buf + root_directory_record)) buf m1 d1 in
      let result = record_fits m2 buf (find_loop sector_fuel m2 buf (filename path) 0) in
      (result, out_record m2 buf rec result, m2, d2)

  -- `rec` is what the local record holds at first.
  unfoldable pub iso9660_get_size : CString → Memory → Memory → D → Option ℕ × Memory × D
  unfolding find_file_record found_size
  iso9660_get_size path rec m d =
      let (result, rec1, m1, d1) = find_file_record path rec m d in (found_size rec1 result, m1, d1)

  -- The loop over the file's sectors.
  unfoldable pub read_sectors : ℕ → ℕ → ℕ → Memory → D → Memory × D
  read_sectors sectors lba buffer m d =
      for_loop sectors 0
        (λ i (s : Memory × D). read_sector (add32 lba i) (buffer + i * 2048) s.0 s.1) (m, d)

  -- The pointer that is returned, and `*out_size`, where the search has ended.
  unfoldable pub read_found : Search → ℕ → ℕ → Memory → Memory → D → Search × ℕ × Memory × D
  unfolding read_sectors
  read_found (present offset) buffer out_size rec m d =
      let size = data_length rec 0 in
      let sectors = add32 size 2047 / 2048 in
      let (m1, d1) = read_sectors sectors (extent_lba rec 0) buffer m d in
      (present buffer, size, m1, d1)
  read_found result buffer out_size rec m d = (result, out_size, m, d)

  unfoldable pub iso9660_read_file : CString → ℕ → ℕ → Memory → Memory → D → Search × ℕ × Memory × D
  unfolding find_file_record read_found
  iso9660_read_file path buffer out_size rec m d =
      let (result, rec1, m1, d1) = find_file_record path rec m d in
      read_found result buffer out_size rec1 m1 d1

  -- The loop over the directory's sectors, from the sector `s`.
  unfoldable pub list_sectors : ℕ → ℕ → ℕ → Memory → D → Option (List Print) × Memory × D
  unfolding print_then
  list_sectors zero s lba m d = (some [], m, d)
  list_sectors (suc n) s lba m d =
      let (m1, d1) = read_sector (add32 lba s) buf m d in
      let (out, m2, d2) = list_sectors n (s + 1) lba m1 d1 in
      (print_then (list_loop sector_fuel m1 buf 0) out, m2, d2)

  unfoldable pub iso_list_directory : Memory → D → Option (List Print) × Memory × D
  unfolding list_sectors
  iso_list_directory m d =
      let (m1, d1) = read_sector 16 buf m d in
      let root = buf + root_directory_record in
      let sectors = add32 (data_length m1 root) 2047 / 2048 in
      let (out, m2, d2) = list_sectors sectors 0 (extent_lba m1 root) m1 d1 in
      if not (m1 buf == 1) || not (m1 (buf + 1) == b'C') || not (m1 (buf + 2) == b'D')
      then (some (puts "FS Error: Invalid ISO9660 PVD\n" 0x0C ∷ []), m1, d1)
      else (Option.map (λ out. puts "Index of /:\n" 0x0B ∷ out) out, m2, d2)
