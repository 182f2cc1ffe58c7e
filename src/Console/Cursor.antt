-- ===== src/Console/Cursor.antt =====
-- Where the cursor of src/vga_buffer.c can be, and which cells its functions write.
use openyanase_kernel.Base.{
  ℕ, ◌+◌, ◌*◌, ◌/◌, ◌%◌, ◌<◌, ◌≤◌, ◌≡◌, inl, inr, refl, ◌∙◌, ap, List, [], ◌∷◌, ◌++◌, u16, bit_and,
  leb, arith, Bool-cases,
}
use openyanase_kernel.Base.Bits.{bit_and_mask}
use openyanase_kernel.Console.{
  Console, put_raw, wrap_line, scroll_over, vga_scroll, vga_putc, vga_puts, update_cursor,
}
use openyanase_kernel.Console.Scroll.{vga_scroll-scrolled}

-- The cursor is on the screen, and the memory behind the screen is that of `before`.
pub record OnScreen (before : Console) (s : Console) : Type 0 where
  pub column : s.cursor_x < 80
  pub line : s.cursor_y < 25
  pub behind : (i : ℕ) → 2000 ≤ i → s.vga_buffer i ≡ before.vga_buffer i

-- After the character and before the tests for the borders: at most one step over.
record Stepped (before : Console) (s : Console) : Type 0 where
  column : s.cursor_x ≤ 80
  line : s.cursor_y ≤ 25
  corner : (s.cursor_x ≡ 80) → s.cursor_y < 25
  behind : (i : ℕ) → 2000 ≤ i → s.vga_buffer i ≡ before.vga_buffer i

put_raw-Stepped : (b s : Console) (c color : ℕ) → OnScreen b s → Stepped b (put_raw s c color)
unfolding put_raw
put_raw-Stepped b s c color v = record {
  column = ground arith;
  line = ground arith;
  corner = ground arith;
  behind = λ i h. ground (arith, v.behind i h);
}

wrap_line-line :
    (b s : Console)
    → Stepped b s
    → ((wrap_line s).cursor_x < 80)
      × ((wrap_line s).cursor_y ≤ 25)
      × ((wrap_line s).vga_buffer ≡ s.vga_buffer)
unfolding wrap_line
wrap_line-line b s v = ground (arith, v.corner)

scroll_over-OnScreen :
    (b s : Console)
    → s.cursor_x < 80
    → s.cursor_y ≤ 25
    → ((i : ℕ) → 2000 ≤ i → s.vga_buffer i ≡ b.vga_buffer i)
    → OnScreen b (scroll_over s)
unfolding scroll_over
scroll_over-OnScreen b s column line behind = elim (Bool-cases (leb 25 s.cursor_y)) [
  | inl over ↦ rw over (record {
    column = rw (vga_scroll-scrolled s 0).2 column;
    line = rw (vga_scroll-scrolled s 0).1 (omega arith);
    behind = λ i h. (vga_scroll-scrolled s i).0 ∙ ground (arith, behind i h);
  })
  | inr fits ↦ rw fits (record { column = column; line = ground arith; behind = behind })
]

-- `vga_putc` keeps the cursor on the screen, whatever the character is, and writes no cell behind
-- the screen.
pub vga_putc-OnScreen :
    (b s : Console) (c color : ℕ) → OnScreen b s → OnScreen b (vga_putc s c color)
unfolding vga_putc update_cursor
vga_putc-OnScreen b s c color v = record {
  column = shown.column;
  line = shown.line;
  behind = shown.behind;
}
  where
    raw : Console
    raw = put_raw s c color

    stepped : Stepped b raw
    stepped = put_raw-Stepped b s c color v

    wrapped :
        ((wrap_line raw).cursor_x < 80)
        × ((wrap_line raw).cursor_y ≤ 25)
        × ((wrap_line raw).vga_buffer ≡ raw.vga_buffer)
    wrapped = wrap_line-line b raw stepped

    shown : OnScreen b (scroll_over (wrap_line raw))
    shown =
        scroll_over-OnScreen b (wrap_line raw) wrapped.0 wrapped.1
          (λ i h. ap (λ f. f i) wrapped.2 ∙ stepped.behind i h)

-- So does `vga_puts`, for every text.
pub vga_puts-OnScreen :
    (b s : Console) (cs : List ℕ) (color : ℕ) → OnScreen b s → OnScreen b (vga_puts s cs color)
unfolding vga_puts
vga_puts-OnScreen b s [] color v = v
vga_puts-OnScreen b s (c ∷ cs) color v =
    vga_puts-OnScreen b (vga_putc s c color) cs color (vga_putc-OnScreen b s c color v)

keeps_ports :
    (s : Console) (c color : ℕ) → (scroll_over (wrap_line (put_raw s c color))).ports ≡ s.ports
unfolding scroll_over wrap_line put_raw vga_scroll
keeps_ports s c color = ground arith

low_high :
    (p : ℕ) → p < 2000 → (bit_and (u16 p) 0xFF ≡ p % 256) × (bit_and (u16 p / 256) 0xFF ≡ p / 256)
low_high p h = (bit_and_mask 8 (u16 p) ∙ omega arith, bit_and_mask 8 (u16 p / 256) ∙ omega arith)

-- The last four port writes of `vga_putc` give the hardware the cursor that the console keeps: the
-- low byte of its index to register 15, the high byte to register 14.
pub vga_putc-ports :
    (b s : Console) (c color : ℕ)
    → OnScreen b s
    → let s' = vga_putc s c color in
      let position = s'.cursor_y * 80 + s'.cursor_x in
      s'.ports
      ≡ s.ports
        ++ ((0x3D4, 0x0F) ∷ (0x3D5, position % 256) ∷ (0x3D4, 0x0E) ∷ (0x3D5, position / 256) ∷ [])
vga_putc-ports b s c color v =
    unfold vga_putc update_cursor in
    rw (keeps_ports s c color, (low_high position fits).0, (low_high position fits).1) refl
  where
    t : Console
    t = scroll_over (wrap_line (put_raw s c color))

    position : ℕ
    position = t.cursor_y * 80 + t.cursor_x

    on : OnScreen b t
    on =
        unfold vga_putc update_cursor in
        (let v' : OnScreen b (vga_putc s c color) = vga_putc-OnScreen b s c color v in
          record { column = v'.column; line = v'.line; behind = v'.behind })

    fits : position < 2000
    fits = omega (arith, on.column, on.line)
