-- ===== src/Console/Text.antt =====
-- Printing a run of characters in one line with src/vga_buffer.c.
use openyanase_kernel.Base.{
  ℕ, suc, ◌+◌, ◌-◌, ◌*◌, ◌<◌, ◌≡◌, ◌≢◌, refl, ◌∙◌, ap, ap₂, false, List, [], ◌∷◌, ltb, leb, ◌==◌,
  ◌&&◌, if◌then◌else◌, update, arith, All, length, get_or, u32,
}
use native.Mathlib.Decide.{ℕ_discrete, dec_lt}
use openyanase_kernel.Console.{
  Console, index, put_raw, wrap_line, scroll_over, vga_putc, vga_puts, vga_entry, update_cursor,
}

abbrev pub IsPlain : ℕ → Type 0
IsPlain c = (c ≢ 10) × (c ≢ 8)

-- The cells with the text from the index `i` on.
abbrev pub written : List ℕ → ℕ → ℕ → (ℕ → ℕ) → ℕ → ℕ
written cs color i b k =
    if leb i k && ltb k (i + length cs) then vga_entry (get_or cs (k - i) 0) color else b k

pub put_raw-plain :
    (s : Console) (c color : ℕ)
    → IsPlain c
    → s.cursor_x < 80
    → s.cursor_y < 25
    → put_raw s c color ≡ record s {
      vga_buffer = update s.vga_buffer (s.cursor_y * 80 + s.cursor_x) (vga_entry c color);
      cursor_x = s.cursor_x + 1;
    }
unfolding put_raw
put_raw-plain s c color p hx hy = rw (no_newline, no_backspace, place, next) refl
  where
    no_newline : (c == 10) ≡ false
    no_newline = ground arith

    no_backspace : (c == 8) ≡ false
    no_backspace = ground arith

    place : index s ≡ s.cursor_y * 80 + s.cursor_x
    place = omega arith

    next : u32 (s.cursor_x + 1) ≡ s.cursor_x + 1
    next = omega arith

pub vga_putc-plain :
    (s : Console) (c color : ℕ)
    → IsPlain c
    → s.cursor_x < 79
    → s.cursor_y < 25
    → let s' = vga_putc s c color in
      (s'.cursor_x ≡ s.cursor_x + 1)
      × (s'.cursor_y ≡ s.cursor_y)
      × (s'.vga_buffer ≡ update s.vga_buffer (s.cursor_y * 80 + s.cursor_x) (vga_entry c color))
unfolding vga_putc wrap_line scroll_over update_cursor
vga_putc-plain s c color p hx hy =
    rw (put_raw-plain s c color p (omega arith) hy, in_line, on_screen) (refl, refl, refl)
  where
    in_line : leb 80 (s.cursor_x + 1) ≡ false
    in_line = ground arith

    on_screen : leb 25 s.cursor_y ≡ false
    on_screen = ground arith

written-cons :
    (c : ℕ) (cs : List ℕ) (color i : ℕ) (b : ℕ → ℕ) (k : ℕ)
    → written cs color (i + 1) (update b i (vga_entry c color)) k ≡ written (c ∷ cs) color i b k
written-cons c cs color i b k = elim (dec_lt k i) [
  | yes below ↦ ground arith
  | no above ↦ elim (ℕ_discrete k i) [
    | yes here ↦ ground (arith, ap (λ n. get_or (c ∷ cs) n 0) {x = k - i} {y = 0} (omega arith))
    | no later ↦
        ground
          (arith, ap (λ n. get_or (c ∷ cs) n 0) {x = k - i} {y = suc (k - (i + 1))} (omega arith))
  ]
]

-- What a run of text does to the console.
record Shows (cs : List ℕ) (color : ℕ) (s s' : Console) : Type 0 where
  column : s'.cursor_x ≡ s.cursor_x + length cs
  line : s'.cursor_y ≡ s.cursor_y
  cells : (k : ℕ) → s'.vga_buffer k ≡ written cs color (s.cursor_y * 80 + s.cursor_x) s.vga_buffer k

Shows-cons :
    (c : ℕ) (cs : List ℕ) (color : ℕ) (s s1 s' : Console)
    → (s1.cursor_x ≡ s.cursor_x + 1)
      × (s1.cursor_y ≡ s.cursor_y)
      × (s1.vga_buffer ≡ update s.vga_buffer (s.cursor_y * 80 + s.cursor_x) (vga_entry c color))
    → Shows cs color s1 s'
    → Shows (c ∷ cs) color s s'
Shows-cons c cs color s s1 s' one rest = record {
  column = omega (arith, rest.column);
  line = rest.line ∙ one.1;
  cells = λ k.
      rest.cells k
      ∙ ap₂ (λ i b. written cs color i b k) {x = s1.cursor_y * 80 + s1.cursor_x}
          {y = s.cursor_y * 80 + s.cursor_x + 1} (omega arith) one.2
      ∙ written-cons c cs color (s.cursor_y * 80 + s.cursor_x) s.vga_buffer k;
}

vga_puts-Shows :
    (s : Console) (cs : List ℕ) (color : ℕ)
    → All IsPlain cs
    → s.cursor_x + length cs < 80
    → s.cursor_y < 25
    → Shows cs color s (vga_puts s cs color)
unfolding vga_puts
vga_puts-Shows s [] color p hx hy = record {
  column = omega arith;
  line = refl;
  cells = λ k. ground arith;
}
vga_puts-Shows s (c ∷ cs) color p hx hy =
    let one = vga_putc-plain s c color p.0 (omega arith) hy in
    Shows-cons c cs color s (vga_putc s c color) (vga_puts (vga_putc s c color) cs color) one (
      vga_puts-Shows (vga_putc s c color) cs color p.1 (omega (arith, one.0))
        (omega (arith, one.1)))

-- A text without line breaks and backspaces that ends before the last column of the line appears
-- from the cursor on, character by character in the given colour; no other cell changes, and the
-- cursor stands behind the text.
pub vga_puts-written :
    (s : Console) (cs : List ℕ) (color k : ℕ)
    → All IsPlain cs
    → s.cursor_x + length cs < 80
    → s.cursor_y < 25
    → let s' = vga_puts s cs color in
      (s'.cursor_x ≡ s.cursor_x + length cs)
      × (s'.cursor_y ≡ s.cursor_y)
      × (s'.vga_buffer k ≡ written cs color (s.cursor_y * 80 + s.cursor_x) s.vga_buffer k)
vga_puts-written s cs color k p hx hy =
    let v = vga_puts-Shows s cs color p hx hy in (v.column, v.line, v.cells k)
