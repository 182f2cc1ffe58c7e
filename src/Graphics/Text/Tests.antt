-- ===== src/Graphics/Text/Tests.antt =====
-- Text of src/graphics/vesa.c at concrete places.
use openyanase_kernel.Base.{ℕ, ◌≡◌, refl, if◌then◌else◌, ◌==◌, ltb, arith, List, [], ◌∷◌}
use openyanase_kernel.Initrd.{Memory}
use openyanase_kernel.Graphics.{Vesa}
use openyanase_kernel.Graphics.Pixel.{pixel}
use openyanase_kernel.Graphics.Text.{
  Font, psf_width, glyph_bit, vesa_draw_char, vesa_draw_string, vesa_draw_number, digits_loop,
}
use openyanase_kernel.Graphics.Text.Glyph.{draw_char-pixel}
use openyanase_kernel.Graphics.Text.Number.{IsDecimal, draw_number-IsDecimal}

-- A font of 8 by 16 pixels with its header at 4096; every row of every character has the bits 0x81.
abbrev memory : Memory
memory i = if i == 4120 then 16 else if i == 4124 then 8 else if ltb i 4128 then 0 else 0x81

abbrev font : Font
font = record { glyphs = 4128; width = 8; height = 16; charsize = 16 }

abbrev screen : Vesa
screen = record {
  width = 800;
  height = 600;
  vesa_mem = λ i. 7;
  back_buffer = λ i. i;
  mouse_save_buffer = λ i. 0;
}

font_width : psf_width memory 4096 ≡ 8
font_width = refl

draw_char-pixel_example :
    pixel (vesa_draw_char memory font 100 50 b'A' 0xFFFFFF screen) 107 60 ≡ 0xFFFFFF
unfolding glyph_bit
draw_char-pixel_example =
    draw_char-pixel memory font 100 50 b'A' 0xFFFFFF screen 107 60
      (record { width = refl; height = refl }) (omega arith) (omega arith) (omega arith)
      (omega arith)

digits : digits_loop 10 1203 [] ≡ b'1' ∷ b'2' ∷ b'0' ∷ b'3' ∷ []
unfolding digits_loop
digits = refl

draw_number-IsDecimal_example :
    (text : List ℕ) × IsDecimal 1203 text
    × (vesa_draw_number memory font 4096 10 10 1203 15 screen
        ≡ vesa_draw_string memory font 4096 10 10 text 15 screen)
    × (vesa_draw_number memory font 4096 10 10 4294966093 15 screen
        ≡ vesa_draw_string memory font 4096 18 10 text 15
            (vesa_draw_char memory font 10 10 b'-' 15 screen))
draw_number-IsDecimal_example =
    draw_number-IsDecimal memory font 4096 10 10 15 screen 1203 (omega arith)

draw_zero :
    vesa_draw_number memory font 4096 10 10 0 15 screen
    ≡ vesa_draw_string memory font 4096 10 10 (b'0' ∷ []) 15 screen
unfolding vesa_draw_number
draw_zero = refl
