-- ===== src/Console.antt =====
-- src/vga_buffer.c: the text screen of 80 columns and 25 lines.
pub mod Scroll
pub mod Cursor
pub mod Text
pub mod Backspace
pub mod Keyboard
mod Tests
use openyanase_kernel.Base.{
  ℕ, Out, zero, suc, ◌+◌, ◌-◌, ◌*◌, ◌/◌, ◌%◌, Bool, true, false, List, [], ◌∷◌, ◌++◌, ltb, leb,
  ◌==◌, if◌then◌else◌, update, u16, u32, bit_and, bit_or,
}

-- The video memory from 0xB8000 on, by its 16-bit cells: the screen is the first 2000. `ports` are
-- the port writes so far.
pub record Console : Type 0 where
  pub cursor_x : ℕ
  pub cursor_y : ℕ
  pub vga_buffer : ℕ → ℕ
  pub ports : List Out

abbrev pub buf_width : ℕ
buf_width = 80

abbrev pub buf_height : ℕ
buf_height = 25

abbrev pub light_grey : ℕ
light_grey = 7

abbrev pub white : ℕ
white = 15

-- `uint32_t` arithmetic of an index into the buffer.
abbrev pub index : Console → ℕ
index s = u32 (u32 (s.cursor_y * buf_width) + s.cursor_x)

unfoldable pub update_cursor : Console → Console
update_cursor s =
    let position = u16 (s.cursor_y * buf_width + s.cursor_x) in
    record s {
      ports =
          s.ports
          ++ ((0x3D4, 0x0F)
              ∷ (0x3D5, bit_and position 0xFF)
              ∷ (0x3D4, 0x0E)
              ∷ (0x3D5, bit_and (position / 256) 0xFF)
              ∷ []);
    }

-- `c` is a byte; as a signed `char` it is sign-extended to 16 bits first.
unfoldable pub vga_entry : ℕ → ℕ → ℕ
vga_entry c color = bit_or (if ltb c 128 then c else c + 0xFF00) (u16 (color * 256))

unfoldable pub clear_loop : ℕ → ℕ → (ℕ → ℕ) → ℕ → ℕ
clear_loop zero i b = b
clear_loop (suc n) i b = clear_loop n (i + 1) (update b i (vga_entry 32 light_grey))

unfoldable pub vga_clear : Console → Console
vga_clear s = update_cursor (record s {
  vga_buffer = clear_loop (buf_width * buf_height) 0 s.vga_buffer;
  cursor_x = 0;
  cursor_y = 0;
})

-- The inner loop of `vga_scroll`: the line below is copied to the line `y`.
unfoldable pub copy_line : ℕ → ℕ → ℕ → (ℕ → ℕ) → ℕ → ℕ
copy_line zero x y b = b
copy_line (suc n) x y b =
    copy_line n (x + 1) y (update b (y * buf_width + x) (b ((y + 1) * buf_width + x)))

unfoldable pub copy_lines : ℕ → ℕ → (ℕ → ℕ) → ℕ → ℕ
copy_lines zero y b = b
copy_lines (suc n) y b = copy_lines n (y + 1) (copy_line buf_width 0 y b)

unfoldable pub blank_line : ℕ → ℕ → (ℕ → ℕ) → ℕ → ℕ
blank_line zero x b = b
blank_line (suc n) x b =
    blank_line n (x + 1) (update b ((buf_height - 1) * buf_width + x) (vga_entry 32 light_grey))

unfoldable pub vga_scroll : Console → Console
vga_scroll s = record s {
  vga_buffer = blank_line buf_width 0 (copy_lines (buf_height - 1) 0 s.vga_buffer);
  cursor_y = buf_height - 1;
}

-- The three branches of `vga_putc`, before the tests for the borders.
unfoldable pub put_raw : Console → ℕ → ℕ → Console
put_raw s c color =
    if c == 10
    then record s { cursor_x = 0; cursor_y = u32 (s.cursor_y + 1) }
    else (if c == 8
        then (let back =
              if ltb 0 s.cursor_x
              then record s { cursor_x = s.cursor_x - 1 }
              else (if ltb 0 s.cursor_y
                  then record s { cursor_y = s.cursor_y - 1; cursor_x = buf_width - 1 }
                  else s) in
            record back { vga_buffer = update back.vga_buffer (index back) (vga_entry 32 color) })
        else record s {
          vga_buffer = update s.vga_buffer (index s) (vga_entry c color);
          cursor_x = u32 (s.cursor_x + 1);
        })

unfoldable pub wrap_line : Console → Console
wrap_line s =
    if leb buf_width s.cursor_x
    then record s { cursor_x = 0; cursor_y = u32 (s.cursor_y + 1) }
    else s

unfoldable pub scroll_over : Console → Console
scroll_over s = if leb buf_height s.cursor_y then vga_scroll s else s

unfoldable pub vga_putc : Console → ℕ → ℕ → Console
vga_putc s c color = update_cursor (scroll_over (wrap_line (put_raw s c color)))

-- The characters up to the terminator.
unfoldable pub vga_puts : Console → List ℕ → ℕ → Console
vga_puts s [] color = s
vga_puts s (c ∷ cs) color = vga_puts (vga_putc s c color) cs color

-- A step back, as `vga_backspace` makes it before and after it writes the space. At the start of a
-- line it sets `cursor_y`, not `cursor_x`, to 79.
unfoldable pub step_back : Console → Console
step_back s =
    if ltb 0 s.cursor_x
    then record s { cursor_x = s.cursor_x - 1 }
    else (if ltb 0 s.cursor_y then record s { cursor_y = 79 } else s)

unfoldable pub vga_backspace : Console → Console
vga_backspace s = step_back (vga_putc (step_back s) 32 7)
