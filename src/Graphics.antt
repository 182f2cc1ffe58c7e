-- ===== src/Graphics.antt =====
-- src/graphics/vesa.c: the frame buffer. A pixel is a 32-bit word, and a copy of 4 * n bytes from
-- one such buffer to another is one of n words.
pub mod Cursor
pub mod Pixel
pub mod Pointer
pub mod Copy
pub mod Region
pub mod Frame
pub mod Text
mod Tests
use openyanase_kernel.Base.{
  ℕ, zero, suc, ◌+◌, ◌-◌, ◌*◌, ◌%◌, ◌^◌, Bool, true, false, not, ◌||◌, ltb, leb, if◌then◌else◌,
  update, u32, sub32,
}
use openyanase_kernel.Base.Int.{ℤ, pos, negsuc, ◌+ℤ◌, ◌-ℤ◌, ltb_ℤ, pos_part}
use openyanase_kernel.Base.Loops.{for_loop}

-- `vesa_info_t`, the two buffers by the index of the pixel, and what is saved from under the pointer.
pub record Vesa : Type 0 where
  pub width : ℕ
  pub height : ℕ
  pub vesa_mem : ℕ → ℕ
  pub back_buffer : ℕ → ℕ
  pub mouse_save_buffer : ℕ → ℕ

-- A cast of an `int` to `uint16_t`.
abbrev pub as_u16 : ℤ → ℕ
as_u16 (pos n) = n % 2 ^ 16
as_u16 (negsuc n) = 2 ^ 16 - 1 - n % 2 ^ 16

unfoldable pub vesa_put_pixel : Vesa → ℕ → ℕ → ℕ → Vesa
vesa_put_pixel s x y color =
    if leb s.width x || leb s.height y
    then s
    else record s { back_buffer = update s.back_buffer (y * s.width + x) color }

abbrev pub outside : ℕ → ℤ → Bool
outside size v = ltb_ℤ v (pos 0) || not (ltb_ℤ v (pos size))

unfoldable pub vesa_get_pixel : Vesa → ℤ → ℤ → ℕ
vesa_get_pixel s x y =
    if outside 800 x || outside 600 y then 0 else s.back_buffer (pos_part y * 800 + pos_part x)

unfoldable pub vesa_clear : ℕ → Vesa → Vesa
vesa_clear color s =
    for_loop (u32 (s.width * s.height)) 0
      (λ i t. record t { back_buffer = update t.back_buffer i color }) s

-- `memcpy` of `n` words: from the index `from` of a buffer to the index `to` of another, and
-- within one buffer, word by word from the first on.
unfoldable pub memcpy : ℕ → (ℕ → ℕ) → ℕ → (ℕ → ℕ) → ℕ → ℕ → ℕ
memcpy n dest to src from = for_loop n 0 (λ i d. update d (to + i) (src (from + i))) dest

unfoldable pub memcpy_within : ℕ → (ℕ → ℕ) → ℕ → ℕ → ℕ → ℕ
memcpy_within n b to from = for_loop n 0 (λ i d. update d (to + i) (d (from + i))) b

unfoldable pub memset : ℕ → (ℕ → ℕ) → ℕ → ℕ → ℕ → ℕ
memset n b to v = for_loop n 0 (λ i d. update d (to + i) v) b

unfoldable pub vesa_update : Vesa → Vesa
vesa_update s = record s { vesa_mem = memcpy (800 * 600) s.vesa_mem 0 s.back_buffer 0 }

-- The rows that are kept move up, and black rows follow.
unfoldable pub vesa_scroll_up : ℕ → Vesa → Vesa
vesa_scroll_up scanlines s =
    let copy_size = (sub32 600 scanlines * 800) % 2 ^ 30 in
    let moved = memcpy_within copy_size s.back_buffer 0 ((scanlines * 800) % 2 ^ 30) in
    record s { back_buffer = memset ((scanlines * 800) % 2 ^ 30) moved copy_size 0 }

-- `cx` and `cw` of `vesa_update_region`: the columns of the region that lie on the screen.
unfoldable pub first_column : ℤ → ℤ
first_column x = if ltb_ℤ x (pos 0) then pos 0 else x

unfoldable pub columns : ℤ → ℤ → ℤ
unfolding first_column
columns x w =
    if ltb_ℤ (pos 800) (x +ℤ w) then pos 800 -ℤ first_column x else x +ℤ w -ℤ first_column x

-- One row of it.
unfoldable pub update_row : ℤ → ℤ → ℤ → Vesa → Vesa
update_row x w row s =
    let at = pos_part row * 800 + pos_part (first_column x) in
    if outside 600 row || not (ltb_ℤ (pos 0) (columns x w))
    then s
    else record s { vesa_mem = memcpy (pos_part (columns x w)) s.vesa_mem at s.back_buffer at }

unfoldable pub vesa_update_region : ℤ → ℤ → ℤ → ℤ → Vesa → Vesa
vesa_update_region x y w h s = for_loop (pos_part h) 0 (λ i t. update_row x w (y +ℤ pos i) t) s

-- The loops over the 16 rows and the 16 columns of the pointer.
abbrev pub square : (ℕ → ℕ → Vesa → Vesa) → Vesa → Vesa
square body s = for_loop 16 0 (λ i. for_loop 16 0 (body i)) s

unfoldable pub mouse_save_back : ℤ → ℤ → Vesa → Vesa
mouse_save_back x y s =
    square
      (λ i j t. record t {
        mouse_save_buffer =
            update t.mouse_save_buffer (i * 16 + j) (vesa_get_pixel t (x +ℤ pos j) (y +ℤ pos i));
      })
      s

unfoldable pub mouse_restore_back : ℤ → ℤ → Vesa → Vesa
mouse_restore_back x y s =
    square
      (λ i j t.
        vesa_put_pixel t (as_u16 (x +ℤ pos j)) (as_u16 (y +ℤ pos i))
          (t.mouse_save_buffer (i * 16 + j)))
      s
