-- ===== src/Bmp.antt =====
-- src/graphics/bmp.c: pictures in the BMP format.
pub mod Cells
pub mod Screen
mod Tests
use openyanase_kernel.Base.{
  ℕ, ◌+◌, ◌-◌, ◌*◌, ◌/◌, ◌^◌, Bool, true, false, ◌&&◌, ◌||◌, not, ltb, ◌==◌, if◌then◌else◌, bit_or,
  u16, u32, add32,
}
use openyanase_kernel.Base.Grid.{grid}
use openyanase_kernel.Initrd.{Memory, load32}
use openyanase_kernel.Jar.{load16}
use openyanase_kernel.Graphics.{Vesa, vesa_put_pixel}
use openyanase_kernel.Graphics.Cursor.{Cursor, set_cell, load_default_cursor}

-- The fields of the two headers by their offsets.
abbrev pub bf_type : Memory → ℕ → ℕ
bf_type m data_at = load16 m data_at

abbrev pub bf_off_bits : Memory → ℕ → ℕ
bf_off_bits m data_at = load32 m (data_at + 10)

abbrev pub bi_width : Memory → ℕ → ℕ
bi_width m data_at = load32 m (data_at + 18)

abbrev pub bi_height : Memory → ℕ → ℕ
bi_height m data_at = load32 m (data_at + 22)

abbrev pub bi_bit_count : Memory → ℕ → ℕ
bi_bit_count m data_at = load16 m (data_at + 28)

-- Both headers.
abbrev pub headers_size : ℕ
headers_size = 34

-- The rounds of `for (int i = 0; i < v; i++)`, where `v` is the bit pattern of an `int`.
abbrev pub rounds : ℕ → ℕ
rounds v = if ltb v (2 ^ 31) then v else 0

-- `(width * bpp + 3) & ~3`: a row is padded to a multiple of four bytes.
abbrev pub stride : ℕ → ℕ → ℕ
stride width bpp = u32 (width * bpp + 3) / 4 * 4

-- `(r << 16) | (g << 8) | b`, from the bytes at `a`.
abbrev pub color_at : Memory → ℕ → ℕ
color_at m a = bit_or (bit_or (m (a + 2) * 2 ^ 16) (m (a + 1) * 2 ^ 8)) (m a)

unfoldable pub draw_bmp : Memory → ℕ → Vesa → Vesa
draw_bmp m data_at s =
    let pixels = add32 data_at (bf_off_bits m data_at) in
    let width = rounds (bi_width m data_at) in
    let height = rounds (bi_height m data_at) in
    let bpp = bi_bit_count m data_at / 8 in
    if not (bf_type m data_at == 0x4D42)
    then s
    else grid height width
        (λ y x t.
          vesa_put_pixel t (u16 x) (u16 (height - y - 1))
            (color_at m (u32 (pixels + (y * stride width bpp + x * bpp)))))
        s

-- A cell of the two output arrays: magenta is transparent.
unfoldable pub parse_cell : Memory → ℕ → ℕ → Cursor → Cursor
unfolding set_cell
parse_cell m a idx c =
    if m (a + 2) == 0xFF && m (a + 1) == 0 && m a == 0xFF
    then set_cell idx 0 0 c
    else set_cell idx 1 (color_at m a) c

-- The address of a pixel of the output: the rows stand in the file from the bottom to the top.
abbrev pub source : ℕ → ℕ → ℕ → ℕ → ℕ → ℕ → ℕ
source pixels w h bpp y x = u32 (pixels + ((h - 1 - y) * stride w bpp + x * bpp))

unfoldable pub bmp_parse_to_buffer : Memory → ℕ → ℕ → ℕ → ℕ → Cursor → Bool × Cursor
unfolding parse_cell
bmp_parse_to_buffer m data_at size expected_w expected_h c =
    let w = bi_width m data_at in
    let h = bi_height m data_at in
    let bpp = bi_bit_count m data_at / 8 in
    let pixels = add32 data_at (bf_off_bits m data_at) in
    if data_at == 0
      || ltb size headers_size
      || not (bf_type m data_at == 0x4D42)
      || not (w == expected_w)
      || not (h == expected_h)
      || ltb bpp 3
    then (false, c)
    else (
      true,
      grid (rounds h) (rounds w) (λ y x. parse_cell m (source pixels w h bpp y x) (y * w + x)) c,
    )

-- `cursor_load_bmp` of src/graphics/cursors.c.
unfoldable pub cursor_load_bmp : Memory → ℕ → ℕ → Cursor → Cursor
cursor_load_bmp m data_at size c =
    let parsed = bmp_parse_to_buffer m data_at size 16 16 c in
    if parsed.0 then parsed.1 else load_default_cursor parsed.1
