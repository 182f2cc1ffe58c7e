-- ===== src/Shell/Tests.antt =====
-- Lines typed at the shell of src/main.c.
use Prim.Native.String.{String}
use openyanase_kernel.Base.{◌≡◌, refl, true, false, none, some, List, [], ◌∷◌, get_or, arith}
use openyanase_kernel.Base.Text.{codes}
use openyanase_kernel.Str.{CString, vga_strncmp}
use openyanase_kernel.Initrd.{is_zero}
use openyanase_kernel.Console.Keyboard.{Keyboard, press}
use openyanase_kernel.Console.Keyboard.Line.{line}
use openyanase_kernel.Shell.{
  Call, puts, returned, endless, behind, Files, klog, cat, startx, dispatch, execute_command,
  served, main_round, starts, skip_spaces,
}
use openyanase_kernel.Shell.Returns.{Returns}
use openyanase_kernel.Shell.Loop.{late_key}

-- No CD, and an archive without files.
abbrev files : Files
files = record {
  initrd_ready = true;
  fs_ready = false;
  memory = λ a. 7;
  initrd_read_file = λ name. none;
  iso9660_read_file = λ name. none;
}

abbrev typed : String → CString
typed s i = get_or (codes s) i 0

abbrev keyboard : Keyboard
keyboard = record {
  shell_buffer = λ i. 0;
  shell_ptr = 0;
  command_ready = 0;
  screen = record { cursor_x = 0; cursor_y = 0; vga_buffer = λ i. 0; ports = [] };
}

cat_missing :
    execute_command files (typed "  cat  notes")
    ≡ some (returned (puts "\n" 0x07 ∷ klog "Error: File not found in Initrd or ISO." 2))
unfolding behind execute_command dispatch starts skip_spaces cat is_zero vga_strncmp
cat_missing = refl

-- The command that does not come back.
startx_stays : (calls : List Call) × (execute_command files (typed "startx") ≡ some (endless calls))
unfolding behind execute_command dispatch starts skip_spaces startx is_zero vga_strncmp
startx_stays = (_, refl)

late_key_example :
    let late = press (press keyboard 10) b'x' in
    (line late.shell_buffer late.shell_ptr ≡ b'x' ∷ [])
    × (late.shell_buffer 0 ≡ b'x')
    × (main_round files late ≡ served (execute_command files late.shell_buffer) late)
late_key_example = late_key files keyboard b'x' (omega arith) (omega arith)
