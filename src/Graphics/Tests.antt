-- ===== src/Graphics/Tests.antt =====
-- graphics/ at concrete pixels.
use openyanase_kernel.Base.{◌≡◌, refl, arith, map, [], ◌∷◌}
use openyanase_kernel.Base.Int.{pos}
use openyanase_kernel.Graphics.{Vesa, mouse_save_back, mouse_restore_back}
use openyanase_kernel.Graphics.Cursor.{Cursor, load_default_cursor, set_cell, cursor_draw}
use openyanase_kernel.Graphics.Pixel.{pixel}
use openyanase_kernel.Graphics.Pointer.{restore-draw-save}
use openyanase_kernel.Graphics.Frame.{show_pointer, frames}
use openyanase_kernel.Graphics.Frame.Trace.{Over, as_int, frames-show_pointer}
use openyanase_kernel.Base.Loops.{for_loop}

abbrev screen : Vesa
screen = record {
  width = 800;
  height = 600;
  vesa_mem = λ i. 7;
  back_buffer = λ i. i;
  mouse_save_buffer = λ i. 0;
}

abbrev arrow : Cursor
arrow = load_default_cursor (record { cursor_pixels = λ i. 0; cursor_mask = λ i. 0 })

arrow_border : arrow.cursor_pixels 16 ≡ 0xFFFFFF
unfolding load_default_cursor set_cell for_loop
arrow_border = refl

-- The pointer in the lower right corner, half of it off the screen.
corner :
    pixel
      (mouse_restore_back
        (pos 795)
        (pos 595)
        (cursor_draw arrow (pos 795) (pos 595) (mouse_save_back (pos 795) (pos 595) screen)))
      797
      598
    ≡ pixel screen 797 598
corner =
    restore-draw-save arrow screen 795 595 797 598 (record { width = refl; height = refl })
      (omega arith) (omega arith) (omega arith) (omega arith)

-- A screen that shows its back buffer, on which the pointer goes into two corners.
abbrev flat : Vesa
flat = record screen { vesa_mem = λ i. i }

frames-show_pointer_example :
    Over arrow flat 0 0
      (frames arrow 16
        (map as_int ((795, 595) ∷ (0, 0) ∷ []))
        (show_pointer arrow 16 (pos 400, pos 300) flat)).screen
frames-show_pointer_example =
    frames-show_pointer arrow 16 (omega arith) 400 300 flat ((795, 595) ∷ (0, 0) ∷ [])
      (record { width = refl; height = refl }) (omega arith) (omega arith) (λ a b ha hb. refl)
