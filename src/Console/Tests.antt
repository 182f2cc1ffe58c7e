-- ===== src/Console/Tests.antt =====
-- The console and the keyboard at concrete input.
use openyanase_kernel.Base.{ℕ, ◌≡◌, ◌<◌, refl, [], ◌∷◌, arith}
use openyanase_kernel.Console.{Console, vga_putc, vga_puts, vga_entry, vga_scroll}
use openyanase_kernel.Console.Scroll.{vga_scroll-scrolled}
use openyanase_kernel.Console.Cursor.{OnScreen, vga_putc-OnScreen}
use openyanase_kernel.Console.Text.{written, vga_puts-written}
use openyanase_kernel.Console.Keyboard.{Keyboard}
use openyanase_kernel.Console.Keyboard.Line.{line, keys, edits, edit, keys-edits}

abbrev console : ℕ → ℕ → Console
console x y = record { cursor_x = x; cursor_y = y; vga_buffer = λ i. i; ports = [] }

corner-OnScreen : OnScreen (console 79 24) (console 79 24)
corner-OnScreen = record { column = omega arith; line = omega arith; behind = λ i h. refl }

corner_put : OnScreen (console 79 24) (vga_putc (console 79 24) 65 7)
corner_put = vga_putc-OnScreen (console 79 24) (console 79 24) 65 7 corner-OnScreen

up_one :
    let s' = vga_scroll (console 3 25) in
    (s'.vga_buffer 85 ≡ 165) × (s'.cursor_y ≡ 24) × (s'.cursor_x ≡ 3)
up_one = vga_scroll-scrolled (console 3 25) 85

hi_written :
    let s' = vga_puts (console 3 2) (72 ∷ 105 ∷ []) 15 in
    (s'.cursor_x ≡ 5)
    × (s'.cursor_y ≡ 2)
    × (s'.vga_buffer 164 ≡ written (72 ∷ 105 ∷ []) 15 163 (λ i. i) 164)
hi_written =
    vga_puts-written (console 3 2) (72 ∷ 105 ∷ []) 15 164 (omega arith) (omega arith) (omega arith)

hi_cell : written (72 ∷ 105 ∷ []) 15 163 (λ i. i) 164 ≡ 3945
unfolding vga_entry
hi_cell = refl

abbrev idle : Keyboard
idle = record { shell_buffer = λ i. 0; shell_ptr = 0; command_ready = 0; screen = console 2 0 }

-- The keys l, x, backspace, s.
typed_ls :
    let k' = keys 1 idle (38 ∷ 45 ∷ 14 ∷ 31 ∷ []) in
    (line k'.shell_buffer k'.shell_ptr ≡ edits [] (38 ∷ 45 ∷ 14 ∷ 31 ∷ [])) × (k'.shell_ptr < 256)
typed_ls =
    keys-edits 1 idle (38 ∷ 45 ∷ 14 ∷ 31 ∷ []) (omega arith)
      ((refl, refl), ((refl, refl), ((refl, refl), ((refl, refl), tt))))

edits_ls : edits [] (38 ∷ 45 ∷ 14 ∷ 31 ∷ []) ≡ 115 ∷ 108 ∷ []
unfolding edits edit
edits_ls = refl
