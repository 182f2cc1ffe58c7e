-- ===== src/Graphics/Text/Glyph.antt =====
-- The pixels of a character that src/graphics/vesa.c draws.
use openyanase_kernel.Base.{
  ℕ, ◌+◌, ◌-◌, ◌^◌, ◌<◌, ◌≤◌, ◌≡◌, refl, ap, ◌∙◌, Bool, true, false, ◌&&◌, not, ltb, leb, ◌==◌,
  if◌then◌else◌, u16, arith, Bool-cases, inl, inr, List, [], ◌∷◌, add32,
}
use mathlib.Core.Path.{fun_ext}
use openyanase_kernel.Base.Grid.{grid, grid-inside, grid-outside}
use openyanase_kernel.Initrd.{Memory}
use openyanase_kernel.Graphics.{Vesa, vesa_put_pixel}
use openyanase_kernel.Graphics.Pixel.{Is800x600, pixel, put_pixel-pixel, put_pixel_mode}
use openyanase_kernel.Graphics.Text.{Font, glyph_bit, vesa_draw_char, vesa_draw_string, psf_width}

-- A rectangle that is painted pixel by pixel, with its upper left corner at `(x, y)`.
module _ (h w x y : ℕ) (color : ℕ → ℕ → ℕ) (s : Vesa) (mode : Is800x600 s) (a b : ℕ)
    (hw : x + w ≤ 2 ^ 16) (hh : y + h ≤ 2 ^ 16) (ha : a < 800) (hb : b < 600) where
  missed :
      (t : Vesa) (i j : ℕ)
      → Is800x600 t
      → i < h
      → j < w
      → (x + j == a && y + i == b) ≡ false
      → pixel (vesa_put_pixel t (u16 (x + j)) (u16 (y + i)) (color i j)) a b ≡ pixel t a b
  missed t i j mode hi hj ne =
      put_pixel-pixel t (u16 (x + j)) (u16 (y + i)) (color i j) a b mode ha ∙ rw other refl
    where
      other : ((u16 (x + j) == a && u16 (y + i) == b) && ltb b 600) ≡ false
      other = ground arith

  abbrev pub covers : Bool
  covers = (leb x a && ltb a (x + w)) && (leb y b && ltb b (y + h))

  pub painted :
      pixel (grid h w (λ i j t. vesa_put_pixel t (u16 (x + j)) (u16 (y + i)) (color i j)) s) a b
      ≡ (if covers then color (b - y) (a - x) else pixel s a b)
  painted = elim (Bool-cases covers) [
    | inl on ↦ rw on (
        grid-inside h w (λ t. pixel t a b) _ Is800x600 (λ i j t q. put_pixel_mode t _ _ _ q) (b - y)
          (a - x) (color (b - y) (a - x)) s (ground arith) (ground arith) mode
          (λ t q.
            put_pixel-pixel t (u16 (x + (a - x))) (u16 (y + (b - y))) (color (b - y) (a - x)) a b q
              ha
            ∙ rw (hit on) refl)
          (λ i j t q hi hj ne. missed t i j q hi hj (ground arith)))
    | inr off ↦ rw off (
        grid-outside h w (λ t. pixel t a b) _ Is800x600 (λ i j t q. put_pixel_mode t _ _ _ q) s mode
          (λ i j t q hi hj. missed t i j q hi hj (ground arith)))
  ]
    where
      hit : covers ≡ true → ((u16 (x + (a - x)) == a && u16 (y + (b - y)) == b) && ltb b 600) ≡ true
      hit on = ground arith

-- A round of vesa_draw_char writes one pixel, whether its bit is set or not.
one_pixel :
    (set : Bool) (t : Vesa) (x y color : ℕ)
    → (if set then vesa_put_pixel t x y color else vesa_put_pixel t x y 0)
      ≡ vesa_put_pixel t x y (if set then color else 0)
one_pixel true t x y color = refl
one_pixel false t x y color = refl

draw_char-grid :
    (m : Memory) (f : Font) (x y c color : ℕ) (s : Vesa)
    → (f.glyphs == 0) ≡ false
    → vesa_draw_char m f x y c color s
      ≡ grid f.height f.width
          (λ i j t.
            vesa_put_pixel t (u16 (x + j)) (u16 (y + i)) (if glyph_bit m f c i j then color else 0))
          s
unfolding vesa_draw_char
draw_char-grid m f x y c color s loaded = rw loaded (
    ap (λ body. grid f.height f.width body s)
      (fun_ext (λ i.
        fun_ext (λ j.
          fun_ext (λ t. one_pixel (glyph_bit m f c i j) t (u16 (x + j)) (u16 (y + i)) color)))))

-- On the screen of 800 by 600, with the place and the size of the character below 65536: each
-- pixel of the screen that the character's cell covers has the colour where the font's bit is
-- set and is black where it is not, and every other pixel stays; with no font loaded, all do.
pub draw_char-pixel :
    (m : Memory) (f : Font) (x y c color : ℕ) (s : Vesa) (a b : ℕ)
    → Is800x600 s
    → x + f.width ≤ 2 ^ 16
    → y + f.height ≤ 2 ^ 16
    → a < 800
    → b < 600
    → pixel (vesa_draw_char m f x y c color s) a b ≡ (
        if not (f.glyphs == 0)
          && ((leb x a && ltb a (x + f.width)) && (leb y b && ltb b (y + f.height)))
        then if glyph_bit m f c (b - y) (a - x) then color else 0
        else pixel s a b)
draw_char-pixel m f x y c color s a b mode hw hh ha hb = elim (Bool-cases (f.glyphs == 0)) [
  | inl none_loaded ↦ rw none_loaded (unloaded none_loaded)
  | inr loaded ↦ rw loaded (
      ap (λ t. pixel t a b) (draw_char-grid m f x y c color s loaded)
      ∙ painted f.height f.width x y (λ i j. if glyph_bit m f c i j then color else 0) s mode a b hw
          hh ha hb)
]
  where
    unloaded : (f.glyphs == 0) ≡ true → pixel (vesa_draw_char m f x y c color s) a b ≡ pixel s a b
    unloaded h = unfold vesa_draw_char in (rw h refl)

-- With no font loaded a text leaves the screen as it is.
pub draw_string_unloaded :
    (m : Memory) (f : Font) (font x y : ℕ) (str : List ℕ) (color : ℕ) (s : Vesa)
    → f.glyphs ≡ 0
    → vesa_draw_string m f font x y str color s ≡ s
unfolding vesa_draw_string vesa_draw_char
draw_string_unloaded m f font x y [] color s h = refl
draw_string_unloaded m f font x y (c ∷ str) color s h =
    rw h (draw_string_unloaded m f font (add32 x (psf_width m font)) y str color s h)
