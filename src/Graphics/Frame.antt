-- ===== src/Graphics/Frame.antt =====
-- src/main.c: the loop of `imgview` and `startx` that follows the mouse with the pointer.
pub mod Trace
use openyanase_kernel.Base.{ℕ, List, [], ◌∷◌}
use openyanase_kernel.Base.Int.{ℤ, pos}
use openyanase_kernel.Graphics.{Vesa, mouse_save_back, mouse_restore_back, vesa_update_region}
use openyanase_kernel.Graphics.Cursor.{Cursor, cursor_draw}

-- `last_mouse_x` and `last_mouse_y`, with the screen.
pub record Shown : Type 0 where
  pub last_mouse_x : ℤ
  pub last_mouse_y : ℤ
  pub screen : Vesa

-- Before the loop: the pointer is shown at the mouse's place. `size` is 16 or 24.
unfoldable pub show_pointer : Cursor → ℕ → ℤ × ℤ → Vesa → Shown
show_pointer k size (x, y) s = record {
  last_mouse_x = x;
  last_mouse_y = y;
  screen = vesa_update_region x y (pos size) (pos size) (cursor_draw k x y (mouse_save_back x y s));
}

-- A round of the loop, once the mouse has moved to the place that is given.
unfoldable pub frame : Cursor → ℕ → ℤ × ℤ → Shown → Shown
frame k size (nx, ny) s =
    let ox = s.last_mouse_x in
    let oy = s.last_mouse_y in
    let s1 = mouse_restore_back ox oy s.screen in
    let s2 = mouse_save_back nx ny s1 in
    let s3 = cursor_draw k nx ny s2 in
    let s4 = vesa_update_region ox oy (pos size) (pos size) s3 in
    record {
      last_mouse_x = nx;
      last_mouse_y = ny;
      screen = vesa_update_region nx ny (pos size) (pos size) s4;
    }

-- The rounds for the places that the mouse comes to.
unfoldable pub frames : Cursor → ℕ → List (ℤ × ℤ) → Shown → Shown
frames k size [] s = s
frames k size (at ∷ rest) s = frames k size rest (frame k size at s)
