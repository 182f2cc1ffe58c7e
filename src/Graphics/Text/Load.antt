-- ===== src/Graphics/Text/Load.antt =====
-- `vesa_load_font` of src/graphics/vesa.c: a font from the archive.
use openyanase_kernel.Base.{
  ℕ, ◌+◌, ◌≡◌, ◌≢◌, refl, Bool, true, false, not, Option, none, some, List, ◌==◌, if◌then◌else◌,
  add32, arith,
}
use openyanase_kernel.Str.{CString}
use openyanase_kernel.Initrd.{Memory, load32, Initrd, Found, stuck, null, found, initrd_read_file}
use openyanase_kernel.Graphics.Text.{Font, psf_width, psf_height}
use openyanase_kernel.Shell.{Call, klog}

-- `PSF2_MAGIC`.
abbrev pub psf2_magic : ℕ
psf2_magic = 0x864ab572

-- What the function leaves: whether it returns 0, the current font, and what it logs.
pub record Loaded : Type 0 where
  pub success : Bool
  pub current_font : Font
  pub log : List Call

abbrev refused : Font → List Call → Option Loaded
refused f log = some (record { success = false; current_font = f; log = log })

unfoldable pub take_font : Memory → ℕ → Font → Option Loaded
take_font m data_at f =
    if not (load32 m data_at == psf2_magic)
    then refused f (klog "FONT: Invalid PSF2 magic" 2)
    else some (record {
      success = true;
      current_font = record {
        glyphs = add32 data_at (load32 m (data_at + 8));
        width = psf_width m data_at;
        height = psf_height m data_at;
        charsize = load32 m (data_at + 20);
      };
      log = klog "FONT: Loaded successfully from ramdisk" 1;
    })

-- A file at the address 0 is the null pointer.
unfoldable pub after_search : Memory → Found → Font → Option Loaded
after_search m stuck f = none
after_search m null f = refused f (klog "FONT: Could not find font file in ramdisk!" 2)
after_search m (found data_at size) f =
    if data_at == 0
    then refused f (klog "FONT: Could not find font file in ramdisk!" 2)
    else take_font m data_at f

unfoldable pub vesa_load_font : ℕ → Memory → Initrd → CString → Font → Option Loaded
vesa_load_font fuel m archive filename f =
    after_search m (initrd_read_file fuel m archive filename) f

-- A file without the magic number of the second PSF format leaves the current font.
pub other_magic :
    (fuel : ℕ) (m : Memory) (archive : Initrd) (filename : CString) (f : Font) (data_at size : ℕ)
    → initrd_read_file fuel m archive filename ≡ found data_at size
    → data_at ≢ 0
    → load32 m data_at ≢ psf2_magic
    → vesa_load_font fuel m archive filename f
      ≡ some (record { success = false; current_font = f; log = klog "FONT: Invalid PSF2 magic" 2 })
unfolding vesa_load_font after_search take_font
other_magic fuel m archive filename f data_at size h there magic = rw (h, absent, wrong) refl
  where
    absent : (data_at == 0) ≡ false
    absent = ground arith

    wrong : (load32 m data_at == psf2_magic) ≡ false
    wrong = ground arith
