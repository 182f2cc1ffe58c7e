-- ===== src/Console/Backspace.antt =====
-- `vga_backspace` of src/vga_buffer.c: inside a line it works, at the start of a line it does not.
use openyanase_kernel.Base.{
  ℕ, ◌+◌, ◌-◌, ◌*◌, ◌<◌, ◌≡◌, refl, ◌∙◌, ap, false, ltb, update, lt→ltb, arith,
}
use openyanase_kernel.Console.{
  Console, put_raw, wrap_line, scroll_over, vga_scroll, vga_putc, vga_entry, update_cursor,
  step_back, vga_backspace,
}
use openyanase_kernel.Console.Scroll.{scrolled, vga_scroll-scrolled}
use openyanase_kernel.Console.Text.{vga_putc-plain}

step_back_inside :
    (s : Console) → 0 < s.cursor_x → step_back s ≡ record s { cursor_x = s.cursor_x - 1 }
unfolding step_back
step_back_inside s h = rw (lt→ltb 0 s.cursor_x h) refl

step_back_line_start :
    (s : Console) → s.cursor_x ≡ 0 → 0 < s.cursor_y → step_back s ≡ record s { cursor_y = 79 }
unfolding step_back
step_back_line_start s z h = rw (at_start, lt→ltb 0 s.cursor_y h) refl
  where
    at_start : ltb 0 s.cursor_x ≡ false
    at_start = ground arith

-- The console after the space is written below the screen, before the last step back.
put_below :
    (s : Console) (k : ℕ)
    → s.cursor_x ≡ 0
    → let s' = vga_putc (record s { cursor_y = 79 }) 32 7 in
      (s'.vga_buffer k ≡ scrolled (update s.vga_buffer 6320 (vga_entry 32 7)) k)
      × (s'.cursor_x ≡ 1)
      × (s'.cursor_y ≡ 24)
unfolding vga_putc wrap_line scroll_over update_cursor put_raw
put_below s k z = rw z (cell.0, cell.2, cell.1)
  where
    raw : Console
    raw = record s {
      vga_buffer = update s.vga_buffer 6320 (vga_entry 32 7);
      cursor_x = 1;
      cursor_y = 79;
    }

    cell :
        ((vga_scroll raw).vga_buffer k ≡ scrolled raw.vga_buffer k)
        × ((vga_scroll raw).cursor_y ≡ 24)
        × ((vga_scroll raw).cursor_x ≡ 1)
    cell = vga_scroll-scrolled raw k

-- Inside a line the character before the cursor is blanked, no other cell changes, and the cursor
-- goes back by one.
pub vga_backspace_inside :
    (s : Console)
    → 0 < s.cursor_x
    → s.cursor_x < 80
    → s.cursor_y < 25
    → let s' = vga_backspace s in
      (s'.cursor_x ≡ s.cursor_x - 1)
      × (s'.cursor_y ≡ s.cursor_y)
      × (s'.vga_buffer ≡ update s.vga_buffer (s.cursor_y * 80 + s.cursor_x - 1) (vga_entry 32 7))
unfolding vga_backspace
vga_backspace_inside s h0 h1 h2 =
    rw (step_back_inside s h0, step_back_inside middle (omega (arith, one.0)))
      (
        omega (arith, one.0),
        one.1,
        one.2
            ∙ ap (λ i. update s.vga_buffer i (vga_entry 32 7))
                {x = s.cursor_y * 80 + (s.cursor_x - 1)} {y = s.cursor_y * 80 + s.cursor_x - 1}
                (omega arith),
      )
  where
    middle : Console
    middle = vga_putc (record s { cursor_x = s.cursor_x - 1 }) 32 7

    one :
        (middle.cursor_x ≡ s.cursor_x - 1 + 1)
        × (middle.cursor_y ≡ s.cursor_y)
        × (middle.vga_buffer
            ≡ update s.vga_buffer (s.cursor_y * 80 + (s.cursor_x - 1)) (vga_entry 32 7))
    one =
        vga_putc-plain (record s { cursor_x = s.cursor_x - 1 }) 32 7 (omega arith, omega arith)
          (omega arith) h2

-- At the start of any line but the first one, `vga_backspace` sets the line to 79 in place of the
-- column: the space goes to cell 6320, far behind the screen, the whole screen scrolls by a line,
-- and the cursor is left at the start of the last line.
pub vga_backspace_line_start :
    (s : Console) (k : ℕ)
    → s.cursor_x ≡ 0
    → 0 < s.cursor_y
    → let s' = vga_backspace s in
      (s'.vga_buffer k ≡ scrolled (update s.vga_buffer 6320 (vga_entry 32 7)) k)
      × (s'.cursor_x ≡ 0)
      × (s'.cursor_y ≡ 24)
unfolding vga_backspace
vga_backspace_line_start s k hx hy =
    rw (step_back_line_start s hx hy, step_back_inside middle (omega (arith, below.1)))
      (below.0, omega (arith, below.1), below.2)
  where
    middle : Console
    middle = vga_putc (record s { cursor_y = 79 }) 32 7

    below :
        (middle.vga_buffer k ≡ scrolled (update s.vga_buffer 6320 (vga_entry 32 7)) k)
        × (middle.cursor_x ≡ 1)
        × (middle.cursor_y ≡ 24)
    below = put_below s k hx
