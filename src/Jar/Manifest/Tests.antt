-- ===== src/Jar/Manifest/Tests.antt =====
-- A manifest for src/runtime/jar.c with two lines.
use openyanase_kernel.Base.{false, ◌≡◌, refl, inl, arith, [], ◌∷◌, ◌++◌, replicate}
use openyanase_kernel.Str.{vga_strncmp}
use openyanase_kernel.Initrd.{is_zero}
use openyanase_kernel.Config.{text, starts_with}
use openyanase_kernel.Jar.Manifest.{
  main_class, overrun, manifest_loop, store_char, end_line, main_class_key, parse_manifest_for_main,
}
use openyanase_kernel.Jar.Manifest.Line.{Line, print, parse_manifest_for_main-print}

abbrev version : Line
version = record { chars = b'V' ∷ b':' ∷ []; ending = b'\r' }

-- The line feed behind the carriage return ends an empty line.
abbrev nothing : Line
nothing = record { chars = []; ending = b'\n' }

version_other : starts_with (text version.chars) main_class_key 11 ≡ false
unfolding vga_strncmp is_zero
version_other = refl

nothing_other : starts_with (text []) main_class_key 11 ≡ false
unfolding vga_strncmp is_zero
nothing_other = refl

parse_manifest_for_main-print_example :
    parse_manifest_for_main (
      print
        (version ∷ nothing ∷ [])
        ((main_class_key ++ (b' ' ∷ []) ++ b'M' ∷ []) ++ b'\r' ∷ b'\n' ∷ []))
    ≡ main_class (b'M' ∷ [])
parse_manifest_for_main-print_example =
    parse_manifest_for_main-print (version ∷ nothing ∷ []) (b' ' ∷ []) (b'M' ∷ []) (b'\n' ∷ [])
      b'\r'
      (
        (
          refl,
          ((ground arith, ground arith), ((ground arith, ground arith), tt)),
          omega arith,
          version_other,
        ),
        ((refl, tt, omega arith, nothing_other), tt),
      )
      refl (inl refl, tt) ((ground arith, ground arith), tt) (ground arith, tt) refl (omega arith)
      (omega arith)

-- A manifest that is one line of 256 characters without an end.
long_line : parse_manifest_for_main (replicate 256 b'x') ≡ overrun
unfolding parse_manifest_for_main manifest_loop store_char end_line
long_line = refl
