-- ===== src/Jar/Scan/Tests.antt =====
-- src/runtime/jar.c on an archive with a manifest and a class.
use openyanase_kernel.Base.{
  ℕ, ◌≡◌, refl, List, [], ◌∷◌, ◌++◌, replicate, length, get_or, inl, arith,
}
use openyanase_kernel.Str.{vga_strncmp}
use openyanase_kernel.Initrd.{Memory, found, is_zero}
use openyanase_kernel.Jar.Archive.{Member, IsZip, lookup}
use openyanase_kernel.Jar.Manifest.{
  main_class, main_class_key, manifest_line, taken, skip_blanks, end_line, store_char,
  manifest_loop, parse_manifest_for_main,
}
use openyanase_kernel.Jar.Scan.{manifest_name, class_path, class_found, jar_scan_entries}
use openyanase_kernel.Jar.Scan.Members.{manifest_of, jar_scan_entries-lookup}

abbrev member_bytes : List ℕ → List ℕ → List ℕ
member_bytes name content =
    (0x50 ∷ 0x4b ∷ 0x03 ∷ 0x04 ∷ [])
    ++ replicate 14 0
    ++ (length content ∷ 0 ∷ 0 ∷ 0 ∷ length content ∷ 0 ∷ 0 ∷ 0 ∷ length name ∷ 0 ∷ 0 ∷ 0 ∷ [])
    ++ name
    ++ content

abbrev stored : List ℕ → List ℕ → Member
stored name content = record {
  name = name;
  extra = 0;
  method = 0;
  packed = length content;
  size = length content;
}

abbrev manifest : List ℕ
manifest = main_class_key ++ b'p' ∷ b'.' ∷ b'M' ∷ b'\n' ∷ []

abbrev class_name : List ℕ
class_name = class_path (b'p' ∷ b'.' ∷ b'M' ∷ [])

abbrev archive : Memory
archive q =
    get_or (member_bytes manifest_name manifest ++ member_bytes class_name (1 ∷ 2 ∷ 3 ∷ [])) q 0

abbrev members : List Member
members = stored manifest_name manifest ∷ stored class_name (1 ∷ 2 ∷ 3 ∷ []) ∷ []

archive-IsZip : IsZip archive 200 0 members
archive-IsZip = (
  omega arith,
  omega arith,
  refl,
  refl,
  refl,
  refl,
  refl,
  refl,
  (
    refl,
    (
      refl,
      (
        refl,
        (
          refl,
          (
            refl,
            (
              refl,
              (
                refl,
                (
                  refl,
                  (
                    refl,
                    (
                      refl,
                      (
                        refl,
                        (refl, (refl, (refl, (refl, (refl, (refl, (refl, (refl, (refl, tt))))))))),
                      ),
                    ),
                  ),
                ),
              ),
            ),
          ),
        ),
      ),
    ),
  ),
  (
    omega arith,
    omega arith,
    refl,
    refl,
    refl,
    refl,
    refl,
    refl,
    (refl, (refl, (refl, (refl, (refl, (refl, (refl, (refl, (refl, tt))))))))),
    inl refl,
  ),
)

manifest_read : manifest_of archive 0 members ≡ main_class (b'p' ∷ b'.' ∷ b'M' ∷ [])
unfolding manifest_of vga_strncmp is_zero parse_manifest_for_main manifest_loop store_char end_line
    manifest_line taken skip_blanks
manifest_read = refl

class_there : lookup 0 class_name members ≡ found 104 3
unfolding lookup
class_there = refl

jar_scan_entries-lookup_example :
    jar_scan_entries 3 archive 200 ≡ class_found class_name (lookup 0 class_name members)
jar_scan_entries-lookup_example =
    jar_scan_entries-lookup archive 200 members (b'p' ∷ b'.' ∷ b'M' ∷ []) archive-IsZip
      manifest_read (omega arith) (omega arith)
