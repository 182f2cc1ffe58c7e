-- ===== src/Graphics/Text.antt =====
-- src/graphics/vesa.c: text in the PSF font.
pub mod Glyph
pub mod Number
pub mod Load
mod Tests
use openyanase_kernel.Base.{
  ℕ, zero, suc, ◌+◌, ◌-◌, ◌*◌, ◌/◌, ◌%◌, ◌^◌, Bool, true, false, not, ◌&&◌, List, [], ◌∷◌, ltb, leb,
  ◌==◌, if◌then◌else◌, bit_and, u8, u16, u32, add32, sub32,
}
use openyanase_kernel.Base.Grid.{grid}
use openyanase_kernel.Initrd.{Memory, load32}
use openyanase_kernel.Graphics.{Vesa, vesa_put_pixel, vesa_scroll_up, vesa_update}

-- `current_font`, without the header, which is not read again.
pub record Font : Type 0 where
  pub glyphs : ℕ
  pub width : ℕ
  pub height : ℕ
  pub charsize : ℕ

-- The sizes in the header of the font that the kernel's image holds at the address `font`.
abbrev pub psf_height : Memory → ℕ → ℕ
psf_height m font = load32 m (font + 24)

abbrev pub psf_width : Memory → ℕ → ℕ
psf_width m font = load32 m (font + 28)

-- `glyph[cy * bytes_per_line + (cx / 8)] & (0x80 >> (cx % 8))`, whether it is set.
unfoldable pub glyph_bit : Memory → Font → ℕ → ℕ → ℕ → Bool
glyph_bit m f c cy cx =
    let bytes_per_line = u32 (f.width + 7) / 8 in
    let glyph = f.glyphs + u8 c * f.charsize in
    not (bit_and (m (u32 (glyph + (cy * bytes_per_line + cx / 8)))) (2 ^ (7 - cx % 8)) == 0)

-- `x` and `y` are the bit patterns of `int`.
unfoldable pub vesa_draw_char : Memory → Font → ℕ → ℕ → ℕ → ℕ → Vesa → Vesa
vesa_draw_char m f x y c color s =
    if f.glyphs == 0
    then s
    else grid f.height f.width
        (λ cy cx t.
          if glyph_bit m f c cy cx
          then vesa_put_pixel t (u16 (x + cx)) (u16 (y + cy)) color
          else vesa_put_pixel t (u16 (x + cx)) (u16 (y + cy)) 0x000000)
        s

-- A text is the list of its characters before the terminator.
unfoldable pub vesa_draw_string : Memory → Font → ℕ → ℕ → ℕ → List ℕ → ℕ → Vesa → Vesa
vesa_draw_string m f font x y [] color s = s
vesa_draw_string m f font x y (c ∷ str) color s =
    vesa_draw_string m f font (add32 x (psf_width m font)) y str color
      (vesa_draw_char m f x y c color s)

-- The loop that fills `t` with the digits of `num`, the last digit first, and the one that turns
-- them round: a digit goes before those that are there.
unfoldable pub digits_loop : ℕ → ℕ → List ℕ → List ℕ
digits_loop zero num t = t
digits_loop (suc fuel) num t =
    let rest = digits_loop fuel (num / 10) ((num % 10 + b'0') ∷ t) in
    if not (num == 0) && ltb num (2 ^ 31) then rest else t

-- A positive `int` has ten digits at most.
abbrev pub digits_rounds : ℕ
digits_rounds = 10

unfoldable pub vesa_draw_number : Memory → Font → ℕ → ℕ → ℕ → ℕ → ℕ → Vesa → Vesa
vesa_draw_number m f font x y num color s =
    if num == 0
    then vesa_draw_string m f font x y (b'0' ∷ []) color s
    else if leb (2 ^ 31) num
    then vesa_draw_string m f font (add32 x (psf_width m font)) y
        (digits_loop digits_rounds (sub32 0 num) []) color (vesa_draw_char m f x y b'-' color s)
    else vesa_draw_string m f font x y (digits_loop digits_rounds num []) color s

-- `cursor_x` and `cursor_y`, where the next character goes, and the screen.
pub record Text : Type 0 where
  pub cursor_x : ℕ
  pub cursor_y : ℕ
  pub screen : Vesa

abbrev pub new_line : ℕ → Text → Text
new_line height s = record s { cursor_x = 0; cursor_y = add32 s.cursor_y height }

unfoldable pub put_char : Memory → Font → ℕ → ℕ → ℕ → Text → Text
put_char m f font c color s = if c == b'\n' then new_line (psf_height m font) s else record s {
  cursor_x = add32 s.cursor_x (psf_width m font);
  screen = vesa_draw_char m f s.cursor_x s.cursor_y c color s.screen;
}

unfoldable pub wrap_right : ℕ → ℕ → Text → Text
wrap_right width height s = if ltb 800 (add32 s.cursor_x width) then new_line height s else s

unfoldable pub scroll_below : ℕ → Text → Text
scroll_below height s =
    if ltb 600 (add32 s.cursor_y height)
    then record s { cursor_y = sub32 s.cursor_y height; screen = vesa_scroll_up height s.screen }
    else s

unfoldable pub puts_loop : Memory → Font → ℕ → List ℕ → ℕ → Text → Text
puts_loop m f font [] color s = s
puts_loop m f font (c ∷ cs) color s = puts_loop m f font cs color (
    scroll_below (psf_height m font)
      (wrap_right (psf_width m font) (psf_height m font) (put_char m f font c color s)))

unfoldable pub vesa_puts : Memory → Font → ℕ → List ℕ → ℕ → Text → Text
vesa_puts m f font text color s =
    let shown = puts_loop m f font text color s in
    record shown { screen = vesa_update shown.screen }
