-- ===== src/Console/Keyboard.antt =====
-- src/keyboard.c: the keyboard interrupt, which edits the command line of the shell.
pub mod Line
use openyanase_kernel.Base.{
  ℕ, zero, suc, ◌+◌, ◌-◌, Bool, true, false, ◌&&◌, List, [], ◌∷◌, ltb, ◌==◌, if◌then◌else◌, update,
  bit_and, get_or,
}
use openyanase_kernel.Console.{Console, vga_putc, vga_backspace, white, light_grey}

-- Scancode set 1; the keys behind the table have no character.
abbrev pub kbd_us : List ℕ
kbd_us =
    0 ∷ 27 ∷ 49 ∷ 50 ∷ 51 ∷ 52 ∷ 53 ∷ 54 ∷ 55 ∷ 56 ∷ 57 ∷ 48 ∷ 45 ∷ 61 ∷ 8 ∷ 9 ∷ 113 ∷ 119 ∷ 101
    ∷ 114 ∷ 116 ∷ 121 ∷ 117 ∷ 105 ∷ 111 ∷ 112 ∷ 91 ∷ 93 ∷ 10 ∷ 0 ∷ 97 ∷ 115 ∷ 100 ∷ 102 ∷ 103 ∷ 104
    ∷ 106 ∷ 107 ∷ 108 ∷ 59 ∷ 39 ∷ 96 ∷ 0 ∷ 92 ∷ 122 ∷ 120 ∷ 99 ∷ 118 ∷ 98 ∷ 110 ∷ 109 ∷ 44 ∷ 46 ∷ 47
    ∷ 0 ∷ 42 ∷ 0 ∷ 32 ∷ []

abbrev pub max_command_len : ℕ
max_command_len = 256

pub record Keyboard : Type 0 where
  pub shell_buffer : ℕ → ℕ
  pub shell_ptr : ℕ
  pub command_ready : ℕ
  pub screen : Console

-- What a key with the character `c` does.
unfoldable pub press : Keyboard → ℕ → Keyboard
press k c =
    if c == 10
    then record k {
      shell_buffer = update k.shell_buffer k.shell_ptr 0;
      command_ready = 1;
      screen = vga_putc k.screen 10 white;
    }
    else (if c == 8
        then (if ltb 0 k.shell_ptr
            then record k {
              shell_ptr = k.shell_ptr - 1;
              shell_buffer = update k.shell_buffer (k.shell_ptr - 1) 0;
              screen = vga_backspace k.screen;
            }
            else k)
        else (if ltb 0 c && ltb k.shell_ptr (max_command_len - 1)
            then record k {
              shell_buffer = update k.shell_buffer k.shell_ptr c;
              shell_ptr = k.shell_ptr + 1;
              screen = vga_putc k.screen c light_grey;
            }
            else k))

-- One interrupt, by what the status port and the data port give. A set bit 7 is a key released.
unfoldable pub keyboard_handler : Keyboard → ℕ → ℕ → Keyboard
keyboard_handler k status scancode =
    if bit_and status 1 == 0
    then k
    else (if bit_and scancode 0x80 == 0 then press k (get_or kbd_us scancode 0) else k)
