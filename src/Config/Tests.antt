-- ===== src/Config/Tests.antt =====
-- The parsers of src/main.c on small files.
use openyanase_kernel.Base.{◌≡◌, refl, [], ◌∷◌, ◌++◌}
use openyanase_kernel.Str.{CString, vga_strncmp, vga_strncpy}
use openyanase_kernel.Initrd.{is_zero}
use openyanase_kernel.Config.{
  Config, text, config_line, init_loop, parse_init_yc, parse_yanase_config, core_eq,
}
use openyanase_kernel.Config.LastByte.{last_byte-lost}

abbrev line : CString
line i = 0

abbrev defaults : Config
defaults = record { theme = text (b'd' ∷ []); boot_jar = text (b'j' ∷ []); autostart_gui = 0 }

-- "core=ab" and "core=ac"
lost :
    (parse_init_yc ((core_eq ++ b'a' ∷ []) ++ b'b' ∷ []) line defaults
      ≡ parse_init_yc ((core_eq ++ b'a' ∷ []) ++ b'c' ∷ []) line defaults)
    × (parse_yanase_config ((core_eq ++ b'a' ∷ []) ++ b'b' ∷ []) line
        ≡ parse_yanase_config ((core_eq ++ b'a' ∷ []) ++ b'c' ∷ []) line)
lost = last_byte-lost (core_eq ++ b'a' ∷ []) b'b' b'c' line defaults

-- "core=ab" without and with a line break.
without_break : (parse_init_yc (core_eq ++ b'a' ∷ b'b' ∷ []) line defaults).boot_jar 1 ≡ 0
unfolding parse_init_yc init_loop config_line is_zero vga_strncmp vga_strncpy
without_break = refl

with_break : (parse_init_yc (core_eq ++ b'a' ∷ b'b' ∷ 10 ∷ []) line defaults).boot_jar 1 ≡ b'b'
unfolding parse_init_yc init_loop config_line is_zero vga_strncmp vga_strncpy
with_break = refl
