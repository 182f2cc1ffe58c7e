-- ===== src/Bmp/Tests.antt =====
-- src/graphics/bmp.c on a picture of 16 by 16 pixels of 24 bits.
use openyanase_kernel.Base.{◌+◌, ◌*◌, ◌%◌, ◌≡◌, ◌||◌, refl, ltb, ◌==◌, if◌then◌else◌, arith}
use openyanase_kernel.Initrd.{Memory}
use openyanase_kernel.Graphics.{Vesa}
use openyanase_kernel.Graphics.Cursor.{Cursor}
use openyanase_kernel.Graphics.Pixel.{pixel}
use openyanase_kernel.Bmp.{draw_bmp, cursor_load_bmp, rounds, bi_width}
use openyanase_kernel.Bmp.Cells.{cell, cursor_load_bmp-cell}
use openyanase_kernel.Bmp.Screen.{draw_bmp-pixel}

-- The file at the address 1000, its pixels after headers of 54 bytes.
abbrev picture : Memory
picture i =
    if i == 1000
    then 0x42
    else if i == 1001
    then 0x4D
    else if i == 1010
    then 54
    else if i == 1018 || i == 1022
    then 16
    else if i == 1028
    then 24
    else if ltb i 1054
    then 0
    else if ltb i 1057
    then 255 * ((i + 1) % 2)
    else i % 251

abbrev screen : Vesa
screen = record {
  width = 800;
  height = 600;
  vesa_mem = λ i. 7;
  back_buffer = λ i. i;
  mouse_save_buffer = λ i. 0;
}

abbrev blank : Cursor
blank = record { cursor_pixels = λ i. 9; cursor_mask = λ i. 9 }

picture_rows : rounds (bi_width picture 1000) ≡ 16
picture_rows = refl

draw_bmp-pixel_example : pixel (draw_bmp picture 1000 screen) 3 2 ≡ 12039861
draw_bmp-pixel_example =
    draw_bmp-pixel picture 1000 screen 3 2 (record { width = refl; height = refl }) (omega arith)
      (omega arith) (omega arith) (omega arith)

-- The first pixel of the file, the lower left one, is magenta.
cursor_load_bmp-cell_example : cell (cursor_load_bmp picture 1000 900 blank) 240 ≡ (0, 0)
cursor_load_bmp-cell_example =
    cursor_load_bmp-cell picture 1000 900 blank 15 0 (omega arith) (omega arith)

-- A file that is cut off in its headers: the picture that is built in.
too_short : cell (cursor_load_bmp picture 1000 33 blank) 0 ≡ (1, 0xFFFFFF)
too_short = cursor_load_bmp-cell picture 1000 33 blank 0 0 (omega arith) (omega arith)
