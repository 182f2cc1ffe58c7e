-- ===== src/Graphics/Cursor.antt =====
-- src/graphics/cursors.c: the pointer's picture and how it is drawn.
use openyanase_kernel.Base.{ℕ, ◌+◌, ◌*◌, List, [], ◌∷◌, ◌==◌, if◌then◌else◌, update, get_or}
use openyanase_kernel.Base.Int.{ℤ, pos, ◌+ℤ◌}
use openyanase_kernel.Base.Loops.{for_loop}
use openyanase_kernel.Graphics.{Vesa, vesa_put_pixel, as_u16, square}

pub record Cursor : Type 0 where
  pub cursor_pixels : ℕ → ℕ
  pub cursor_mask : ℕ → ℕ

-- 1 is the border, 2 the inside.
abbrev pub default_cursor : List (List ℕ)
default_cursor =
    (1 ∷ 0 ∷ 0 ∷ 0 ∷ 0 ∷ 0 ∷ 0 ∷ 0 ∷ 0 ∷ 0 ∷ 0 ∷ 0 ∷ 0 ∷ 0 ∷ 0 ∷ 0 ∷ [])
    ∷ (1 ∷ 1 ∷ 0 ∷ 0 ∷ 0 ∷ 0 ∷ 0 ∷ 0 ∷ 0 ∷ 0 ∷ 0 ∷ 0 ∷ 0 ∷ 0 ∷ 0 ∷ 0 ∷ [])
    ∷ (1 ∷ 2 ∷ 1 ∷ 0 ∷ 0 ∷ 0 ∷ 0 ∷ 0 ∷ 0 ∷ 0 ∷ 0 ∷ 0 ∷ 0 ∷ 0 ∷ 0 ∷ 0 ∷ [])
    ∷ (1 ∷ 2 ∷ 2 ∷ 1 ∷ 0 ∷ 0 ∷ 0 ∷ 0 ∷ 0 ∷ 0 ∷ 0 ∷ 0 ∷ 0 ∷ 0 ∷ 0 ∷ 0 ∷ [])
    ∷ (1 ∷ 2 ∷ 2 ∷ 2 ∷ 1 ∷ 0 ∷ 0 ∷ 0 ∷ 0 ∷ 0 ∷ 0 ∷ 0 ∷ 0 ∷ 0 ∷ 0 ∷ 0 ∷ [])
    ∷ (1 ∷ 2 ∷ 2 ∷ 2 ∷ 2 ∷ 1 ∷ 0 ∷ 0 ∷ 0 ∷ 0 ∷ 0 ∷ 0 ∷ 0 ∷ 0 ∷ 0 ∷ 0 ∷ [])
    ∷ (1 ∷ 2 ∷ 2 ∷ 2 ∷ 2 ∷ 2 ∷ 1 ∷ 0 ∷ 0 ∷ 0 ∷ 0 ∷ 0 ∷ 0 ∷ 0 ∷ 0 ∷ 0 ∷ [])
    ∷ (1 ∷ 2 ∷ 2 ∷ 2 ∷ 2 ∷ 2 ∷ 2 ∷ 1 ∷ 0 ∷ 0 ∷ 0 ∷ 0 ∷ 0 ∷ 0 ∷ 0 ∷ 0 ∷ [])
    ∷ (1 ∷ 2 ∷ 2 ∷ 2 ∷ 2 ∷ 2 ∷ 2 ∷ 2 ∷ 1 ∷ 0 ∷ 0 ∷ 0 ∷ 0 ∷ 0 ∷ 0 ∷ 0 ∷ [])
    ∷ (1 ∷ 2 ∷ 2 ∷ 2 ∷ 2 ∷ 2 ∷ 1 ∷ 1 ∷ 1 ∷ 0 ∷ 0 ∷ 0 ∷ 0 ∷ 0 ∷ 0 ∷ 0 ∷ [])
    ∷ (1 ∷ 2 ∷ 2 ∷ 1 ∷ 2 ∷ 2 ∷ 1 ∷ 0 ∷ 0 ∷ 0 ∷ 0 ∷ 0 ∷ 0 ∷ 0 ∷ 0 ∷ 0 ∷ [])
    ∷ (1 ∷ 2 ∷ 1 ∷ 0 ∷ 1 ∷ 2 ∷ 2 ∷ 1 ∷ 0 ∷ 0 ∷ 0 ∷ 0 ∷ 0 ∷ 0 ∷ 0 ∷ 0 ∷ [])
    ∷ (1 ∷ 1 ∷ 0 ∷ 0 ∷ 0 ∷ 1 ∷ 2 ∷ 2 ∷ 1 ∷ 0 ∷ 0 ∷ 0 ∷ 0 ∷ 0 ∷ 0 ∷ 0 ∷ [])
    ∷ (0 ∷ 0 ∷ 0 ∷ 0 ∷ 0 ∷ 0 ∷ 1 ∷ 2 ∷ 1 ∷ 0 ∷ 0 ∷ 0 ∷ 0 ∷ 0 ∷ 0 ∷ 0 ∷ [])
    ∷ (0 ∷ 0 ∷ 0 ∷ 0 ∷ 0 ∷ 0 ∷ 0 ∷ 1 ∷ 1 ∷ 0 ∷ 0 ∷ 0 ∷ 0 ∷ 0 ∷ 0 ∷ 0 ∷ [])
    ∷ (0 ∷ 0 ∷ 0 ∷ 0 ∷ 0 ∷ 0 ∷ 0 ∷ 0 ∷ 0 ∷ 0 ∷ 0 ∷ 0 ∷ 0 ∷ 0 ∷ 0 ∷ 0 ∷ [])
    ∷ []

unfoldable pub set_cell : ℕ → ℕ → ℕ → Cursor → Cursor
set_cell idx mask pixel c = record {
  cursor_mask = update c.cursor_mask idx mask;
  cursor_pixels = update c.cursor_pixels idx pixel;
}

unfoldable pub load_default_cursor : Cursor → Cursor
unfolding set_cell
load_default_cursor c =
    for_loop 16 0
      (λ y. for_loop 16 0 (λ x c.
        let idx = y * 16 + x in
        let v = get_or (get_or default_cursor y []) x 0 in
        if v == 1
        then set_cell idx 1 0xFFFFFF c
        else if v == 2
        then set_cell idx 1 0x1E90FF c
        else set_cell idx 0 0 c))
      c

unfoldable pub cursor_draw : Cursor → ℤ → ℤ → Vesa → Vesa
cursor_draw c x y s =
    square
      (λ row col t.
        let idx = row * 16 + col in
        if c.cursor_mask idx == 0
        then t
        else vesa_put_pixel t (as_u16 (x +ℤ pos col)) (as_u16 (y +ℤ pos row)) (c.cursor_pixels idx))
      s
