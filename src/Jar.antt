-- ===== src/Jar.antt =====
-- src/runtime/jar.c: looking up an entry of a JAR, which is a ZIP archive. Addresses are offsets
-- in the buffer that holds it.
pub mod Archive
pub mod Pool
pub mod Constants
pub mod Class
pub mod Manifest
pub mod Scan
mod Tests
use openyanase_kernel.Base.{
  ℕ, zero, suc, ◌+◌, ◌*◌, Bool, true, false, ◌&&◌, List, [], ◌∷◌, ltb, ◌==◌, if◌then◌else◌, length,
  u16, add32,
}
use openyanase_kernel.Initrd.{Memory, load32, Found, stuck, null, found}

abbrev pub load16 : Memory → ℕ → ℕ
load16 m a = m a + 256 * m (a + 1)

-- The fields of `zip_local_header_t` by their offsets.
abbrev pub signature : Memory → ℕ → ℕ
signature m a = load32 m a

abbrev pub compression : Memory → ℕ → ℕ
compression m a = load16 m (a + 8)

abbrev pub compressed_size : Memory → ℕ → ℕ
compressed_size m a = load32 m (a + 18)

abbrev pub uncompressed_size : Memory → ℕ → ℕ
uncompressed_size m a = load32 m (a + 22)

abbrev pub filename_len : Memory → ℕ → ℕ
filename_len m a = load16 m (a + 26)

abbrev pub extra_len : Memory → ℕ → ℕ
extra_len m a = load16 m (a + 28)

abbrev pub header_size : ℕ
header_size = 30

-- The loop that compares the names; `name` is the string up to its terminator.
unfoldable pub same_name : Memory → ℕ → List ℕ → Bool
same_name m a [] = true
same_name m a (c ∷ cs) = let rest = same_name m (a + 1) cs in if m a == c then rest else false

unfoldable pub data_off : Memory → ℕ → ℕ
data_off m a = add32 (add32 (add32 a header_size) (filename_len m a)) (extra_len m a)

-- The loop from an offset. An entry that is compressed is not returned.
unfoldable pub find_loop : ℕ → Memory → ℕ → ℕ → List ℕ → Found
find_loop zero m jar_size offset name = stuck
find_loop (suc fuel) m jar_size offset name =
    let rest =
      find_loop fuel m jar_size (add32 (data_off m offset) (compressed_size m offset)) name in
    if ltb (add32 offset header_size) jar_size
    then (if signature m offset == 0x04034b50
        then (if filename_len m offset == u16 (length name)
              && same_name m (offset + header_size) name
            then (if compression m offset == 0
                then found (data_off m offset) (uncompressed_size m offset)
                else null)
            else rest)
        else null)
    else null

unfoldable pub jar_find_entry : ℕ → Memory → ℕ → List ℕ → Found
unfolding find_loop
jar_find_entry fuel m jar_size name = find_loop fuel m jar_size 0 name
