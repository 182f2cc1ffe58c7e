-- ===== src/Bmp/Screen.antt =====
-- What `draw_bmp` of src/graphics/bmp.c shows.
use openyanase_kernel.Base.{
  ℕ, ◌+◌, ◌-◌, ◌*◌, ◌/◌, ◌^◌, ◌<◌, ◌≤◌, ◌≡◌, refl, ◌∙◌, true, false, ◌&&◌, ltb, ◌==◌, if◌then◌else◌,
  add32, u16, u32, arith, Bool-cases, inl, inr,
}
use openyanase_kernel.Base.Grid.{grid, grid-inside, grid-outside}
use openyanase_kernel.Initrd.{Memory}
use openyanase_kernel.Graphics.{Vesa, vesa_put_pixel}
use openyanase_kernel.Graphics.Pixel.{Is800x600, pixel, put_pixel-pixel, put_pixel_mode}
use openyanase_kernel.Bmp.{
  draw_bmp, color_at, stride, bf_type, bf_off_bits, bi_width, bi_height, bi_bit_count, rounds,
}

module _ (h w : ℕ) (color : ℕ → ℕ → ℕ) (s : Vesa) (mode : Is800x600 s) (a b : ℕ) (hw : w ≤ 2 ^ 16)
    (hh : h ≤ 2 ^ 16) (ha : a < 800) (hb : b < 600) where
  -- A round that writes another pixel.
  missed :
      (t : Vesa) (y x : ℕ)
      → Is800x600 t
      → y < h
      → x < w
      → (x == a && (h - y - 1) == b) ≡ false
      → pixel (vesa_put_pixel t (u16 x) (u16 (h - y - 1)) (color y x)) a b ≡ pixel t a b
  missed t y x mode hy hx ne =
      put_pixel-pixel t (u16 x) (u16 (h - y - 1)) (color y x) a b mode ha ∙ rw other refl
    where
      other : ((u16 x == a && u16 (h - y - 1) == b) && ltb b 600) ≡ false
      other = ground arith

  -- The rows from the bottom to the top, each pixel in a colour of its own.
  pub bottom_up :
      pixel (grid h w (λ y x t. vesa_put_pixel t (u16 x) (u16 (h - y - 1)) (color y x)) s) a b
      ≡ (if ltb a w && ltb b h then color (h - 1 - b) a else pixel s a b)
  bottom_up = elim (Bool-cases (ltb a w && ltb b h)) [
    | inl on ↦ rw on (
        grid-inside h w (λ t. pixel t a b) _ Is800x600 (λ i j t q. put_pixel_mode t _ _ _ q)
          (h - 1 - b) a (color (h - 1 - b) a) s (ground arith) (ground arith) mode
          (λ t q.
            put_pixel-pixel t (u16 a) (u16 (h - (h - 1 - b) - 1)) (color (h - 1 - b) a) a b q ha
            ∙ rw (hit on) refl)
          (λ i j t q hi hj ne. missed t i j q hi hj (ground arith)))
    | inr off ↦ rw off (
        grid-outside h w (λ t. pixel t a b) _ Is800x600 (λ i j t q. put_pixel_mode t _ _ _ q) s mode
          (λ i j t q hi hj. missed t i j q hi hj (ground arith)))
  ]
    where
      hit :
          (ltb a w && ltb b h) ≡ true
          → ((u16 a == a && u16 (h - (h - 1 - b) - 1) == b) && ltb b 600) ≡ true
      hit on = ground arith

-- On the screen of 800 by 600 and for a picture of at most 65536 rows and columns: draw_bmp draws
-- a file that begins with the letters BM so that each pixel of the screen inside the picture has
-- the colour of the file's pixel in the same column, the last row of the file at the top; every
-- other pixel stays, and all of them do when the file begins otherwise or a size is negative.
pub draw_bmp-pixel :
    (m : Memory) (data_at : ℕ) (s : Vesa) (a b : ℕ)
    → Is800x600 s
    → rounds (bi_width m data_at) ≤ 2 ^ 16
    → rounds (bi_height m data_at) ≤ 2 ^ 16
    → a < 800
    → b < 600
    → pixel (draw_bmp m data_at s) a b ≡ (
        let w = rounds (bi_width m data_at) in
        let h = rounds (bi_height m data_at) in
        let bpp = bi_bit_count m data_at / 8 in
        if bf_type m data_at == 0x4D42 && (ltb a w && ltb b h)
        then color_at m
            (u32 (add32 data_at (bf_off_bits m data_at) + ((h - 1 - b) * stride w bpp + a * bpp)))
        else pixel s a b)
unfolding draw_bmp
draw_bmp-pixel m data_at s a b mode hw hh ha hb = elim (Bool-cases (bf_type m data_at == 0x4D42)) [
  | inl bmp ↦ rw bmp (bottom_up _ _ _ s mode a b hw hh ha hb)
  | inr other ↦ rw other refl
]
