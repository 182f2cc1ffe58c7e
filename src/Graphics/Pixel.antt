-- ===== src/Graphics/Pixel.antt =====
-- Writing and reading a pixel of src/graphics/vesa.c.
use openyanase_kernel.Base.{ℕ, ◌+◌, ◌*◌, ◌<◌, ◌≡◌, ◌&&◌, ltb, ◌==◌, if◌then◌else◌, arith}
use openyanase_kernel.Base.Int.{pos}
use openyanase_kernel.Graphics.{Vesa, vesa_put_pixel, vesa_get_pixel}

-- The mode that the kernel sets.
pub record Is800x600 (s : Vesa) : Type 0 where
  pub width : s.width ≡ 800
  pub height : s.height ≡ 600

-- The pixel `(x, y)` of the back buffer.
abbrev pub pixel : Vesa → ℕ → ℕ → ℕ
pixel s x y = s.back_buffer (y * 800 + x)

pub put_pixel-pixel :
    (s : Vesa) (x y color a b : ℕ)
    → Is800x600 s
    → a < 800
    → pixel (vesa_put_pixel s x y color) a b
      ≡ (if (x == a && y == b) && ltb b 600 then color else pixel s a b)
unfolding vesa_put_pixel
put_pixel-pixel s x y color a b mode ha = rw (mode.width, mode.height) (ground arith)

pub put_pixel_mode :
    (s : Vesa) (x y color : ℕ) → Is800x600 s → Is800x600 (vesa_put_pixel s x y color)
unfolding vesa_put_pixel
put_pixel_mode s x y color mode = ground (arith, mode.width, mode.height)

-- On the screen of 800 by 600, reading a pixel after one has been written gives the new colour at
-- its place and what was read before anywhere else; a pixel off the screen is not written.
pub get_pixel-put_pixel :
    (s : Vesa) (x y color a b : ℕ)
    → Is800x600 s
    → vesa_get_pixel (vesa_put_pixel s x y color) (pos a) (pos b) ≡ (
        if (ltb a 800 && ltb b 600) && (x == a && y == b)
        then color
        else vesa_get_pixel s (pos a) (pos b))
unfolding vesa_get_pixel vesa_put_pixel
get_pixel-put_pixel s x y color a b mode = rw (mode.width, mode.height) (ground arith)
