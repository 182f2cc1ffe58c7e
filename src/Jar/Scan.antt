-- ===== src/Jar/Scan.antt =====
-- `jar_scan_entries` and `jar_execute` of src/runtime/jar.c. What they print is left out.
pub mod Members
mod Tests
use openyanase_kernel.Base.{
  ℕ, zero, suc, ◌+◌, ◌*◌, Bool, true, false, not, ◌&&◌, ◌||◌, Option, none, some, List, [], ◌∷◌,
  ◌++◌, ltb, leb, ◌==◌, if◌then◌else◌, length, add32, map,
}
use openyanase_kernel.Str.{CString, vga_strncmp}
use openyanase_kernel.Initrd.{
  Memory, Initrd, Found, stuck, null, found, at, is_zero, initrd_read_file,
}
use openyanase_kernel.Config.{text, starts_with}
use openyanase_kernel.Jar.{
  signature, compressed_size, uncompressed_size, filename_len, header_size, data_off,
  jar_find_entry,
}
use openyanase_kernel.Jar.Manifest.{Manifest, overrun, main_class, parse_manifest_for_main}

abbrev pub manifest_name : List ℕ
manifest_name =
    b'M' ∷ b'E' ∷ b'T' ∷ b'A' ∷ b'-' ∷ b'I' ∷ b'N' ∷ b'F' ∷ b'/' ∷ b'M' ∷ b'A' ∷ b'N' ∷ b'I' ∷ b'F'
    ∷ b'E' ∷ b'S' ∷ b'T' ∷ b'.' ∷ b'M' ∷ b'F' ∷ []

abbrev pub bytes : ℕ → Memory → ℕ → List ℕ
bytes zero m a = []
bytes (suc n) m a = m a ∷ bytes n m (a + 1)

-- `tmp_name`: the first 127 characters of the name.
unfoldable pub tmp_name : Memory → ℕ → List ℕ
tmp_name m offset =
    bytes (if ltb 127 (filename_len m offset) then 127 else filename_len m offset) m
      (offset + header_size)

unfoldable pub is_manifest : Memory → ℕ → Bool
is_manifest m offset = starts_with (text (tmp_name m offset)) manifest_name 20

unfoldable pub manifest_at : Memory → ℕ → Manifest
manifest_at m offset =
    parse_manifest_for_main (bytes (uncompressed_size m offset) m (data_off m offset))

-- The loop from an offset; `none` is no value of the program: the fuel ran out. Without a
-- manifest `main_class` stays empty.
unfoldable pub scan_loop : ℕ → Memory → ℕ → ℕ → Option Manifest
scan_loop zero m size offset = none
scan_loop (suc fuel) m size offset =
    let rest = scan_loop fuel m size (add32 (data_off m offset) (compressed_size m offset)) in
    if ltb (add32 offset header_size) size
    then (if signature m offset == 0x04034b50
        then (if is_manifest m offset then some (manifest_at m offset) else rest)
        else some (main_class []))
    else some (main_class [])

abbrev pub slash : ℕ → ℕ
slash c = if c == b'.' then b'/' else c

abbrev pub class_suffix : List ℕ
class_suffix = b'.' ∷ b'c' ∷ b'l' ∷ b'a' ∷ b's' ∷ b's' ∷ []

-- `class_path`, up to its terminator.
abbrev pub class_path : List ℕ → List ℕ
class_path name = map slash name ++ class_suffix

-- How the scan ends: out of fuel, with a write behind an array, without a main class, without its
-- file, or with the place and the size of the file that `class_execute` is called with.
pub data Scanned : Type 0 where
  endless overflow no_main : Scanned
  no_class : List ℕ → Scanned
  loads : ℕ → ℕ → Scanned

unfoldable pub class_found : List ℕ → Found → Scanned
class_found path stuck = endless
class_found path null = no_class path
class_found path (found class_data class_size) = loads class_data class_size

-- `class_path` has room for 128 characters with its terminator.
unfoldable pub load_main : ℕ → Memory → ℕ → List ℕ → Scanned
load_main fuel m size [] = no_main
load_main fuel m size (c ∷ name) =
    if ltb 127 (length (class_path (c ∷ name)))
    then overflow
    else class_found (class_path (c ∷ name)) (jar_find_entry fuel m size (class_path (c ∷ name)))

unfoldable pub scan_end : ℕ → Memory → ℕ → Option Manifest → Scanned
scan_end fuel m size none = endless
scan_end fuel m size (some overrun) = overflow
scan_end fuel m size (some (main_class name)) = load_main fuel m size name

unfoldable pub jar_scan_entries : ℕ → Memory → ℕ → Scanned
jar_scan_entries fuel m size = scan_end fuel m size (scan_loop fuel m size 0)

-- What `jar_execute` returns: -1, or 0 after the scan of the file at an address.
pub data JarExecuted : Type 0 where
  endless failed : JarExecuted
  scanned : ℕ → Scanned → JarExecuted

unfoldable pub jar_in : ℕ → Memory → Found → JarExecuted
jar_in fuel m stuck = endless
jar_in fuel m null = failed
jar_in fuel m (found jar_at file_size) =
    if jar_at == 0 || not (signature m jar_at == 0x04034b50)
    then failed
    else scanned jar_at (jar_scan_entries fuel (at m jar_at) file_size)

unfoldable pub jar_execute : ℕ → ℕ → Memory → Initrd → CString → JarExecuted
jar_execute search_fuel fuel m archive path =
    jar_in fuel m (initrd_read_file search_fuel m archive path)
