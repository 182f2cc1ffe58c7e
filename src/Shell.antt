-- ===== src/Shell.antt =====
-- src/main.c: the shell. `execute_command` gives the calls that a command makes, in order, those of
-- the console with their text, and whether it comes back from them.
pub mod Returns
pub mod Loop
mod Tests
use Prim.Native.String.{String}
use openyanase_kernel.Base.{
  ℕ, zero, suc, ◌+◌, ◌-◌, Bool, true, false, ◌&&◌, Option, none, some, List, [], ◌∷◌, ◌++◌, ltb,
  leb, ◌==◌, if◌then◌else◌, length, update,
}
use openyanase_kernel.Base.Text.{codes}
use openyanase_kernel.Str.{CString}
use openyanase_kernel.Initrd.{Memory}
use openyanase_kernel.Console.{white}
use openyanase_kernel.Console.Keyboard.{Keyboard}
use openyanase_kernel.Config.{text, starts_with}
use openyanase_kernel.Runtime.Machine.{◌>>=◌}

pub data Call : Type 0 where
  puts : String → ℕ → Call
  puts_input : CString → ℕ → Call
  putc : ℕ → ℕ → Call
  initrd_list iso_list_directory vga_clear : Call
  outb outw : ℕ → ℕ → Call
  delay : ℕ → Call
  halt : Call
  jar_execute : CString → Call
  class_execute : ℕ → ℕ → Call
  init_vesa_mode cursor_init flush : Call
  cursor_load_bmp : ℕ → ℕ → Call
  draw_bmp : ℕ → Call
  draw_string : ℕ → ℕ → String → ℕ → Call
  draw_input : ℕ → ℕ → CString → ℕ → Call
  -- The loop that follows the mouse, which does not end, with the size of the region it updates.
  follow_pointer : ℕ → Call

-- How a command goes: it comes back from these calls, or it stays for ever in the last of them.
pub data Ending : Type 0 where
  returned endless : List Call → Ending

abbrev pub returning : Option (List Call) → Option Ending
returning none = none
returning (some calls) = some (returned calls)

-- With a call before the others.
unfoldable pub behind : Call → Ending → Ending
behind call (returned calls) = returned (call ∷ calls)
behind call (endless calls) = endless (call ∷ calls)

-- What the shell asks of the rest of the kernel: the two flags, and what the archive and the CD
-- give for a name, a pointer and a size or nothing. A file of the CD is read into `iso_buf`.
pub record Files : Type 0 where
  pub initrd_ready : Bool
  pub fs_ready : Bool
  pub memory : Memory
  pub initrd_read_file : CString → Option (ℕ × ℕ)
  pub iso9660_read_file : CString → Option (Memory × ℕ)

unfoldable pub klog : String → ℕ → List Call
klog msg type =
    (if type == 0
      then puts "[ INFO  ] " 0x0B
      else (if type == 1
          then puts "[  OK   ] " 0x0A
          else (if type == 2 then puts "[ ERROR ] " 0x0C else puts "[ LOG   ] " 0x07)))
    ∷ puts msg 0x0F
    ∷ puts "\n" 0x0F
    ∷ []

-- The string from the place `i` on.
abbrev pub from : ℕ → CString → CString
from i s j = s (i + j)

-- `while (*s == ' ') s++`, by the place that it stops at; fuel first.
unfoldable pub skip_spaces : ℕ → CString → ℕ → Option ℕ
skip_spaces zero s i = none
skip_spaces (suc fuel) s i =
    let rest = skip_spaces fuel s (i + 1) in if s i == b' ' then rest else some i

-- `while (s[len]) len++`
unfoldable pub count : ℕ → CString → ℕ → Option ℕ
count zero s len = none
count (suc fuel) s len = let rest = count fuel s (len + 1) in if s len == 0 then some len else rest

-- Enough for a line of the shell, which has 256 characters at most.
abbrev pub line_fuel : ℕ
line_fuel = 256

-- `vga_strncmp(s, word, n) == 0`, where `n` is the length of the word.
unfoldable pub starts : CString → String → Bool
starts s word = starts_with s (codes word) (length (codes word))

-- The loop of `cat` over the file, with the bytes that are left.
unfoldable pub cat_loop : ℕ → ℕ → CString → List Call
cat_loop zero i buffer = []
cat_loop (suc n) i buffer =
    (if buffer i == 10
      then puts "\n" 0x07 ∷ []
      else (if leb 32 (buffer i) && leb (buffer i) 126
          then putc (buffer i) 0x0F ∷ []
          else (if buffer i == 9 then puts "    " 0x07 ∷ [] else [])))
    ++ cat_loop n (i + 1) buffer

unfoldable pub cat_file : CString → ℕ → List Call
unfolding cat_loop klog
cat_file buffer size =
    klog "File content loaded:" 1 ++ cat_loop size 0 buffer ++ puts "\n" 0x07 ∷ []

-- Where the file is found: in the archive, else on the CD.
unfoldable pub cat_found : Files → CString → Option (ℕ × ℕ) → Option (Memory × ℕ) → List Call
unfolding cat_file klog
cat_found f filename (some (address, size)) cd = cat_file (from address f.memory) size
cat_found f filename none (some (iso_buf, size)) = cat_file iso_buf size
cat_found f filename none none = klog "Error: File not found in Initrd or ISO." 2

unfoldable pub cat : Files → CString → Option (List Call)
unfolding klog cat_found
cat f input = do
  start ← skip_spaces line_fuel input 4
  let filename = from start input
  some (
      if filename 0 == 0
      then klog "Usage: cat <filename>" 2
      else cat_found f filename (f.initrd_read_file filename) (f.iso9660_read_file filename))

unfoldable pub run_class : Option (ℕ × ℕ) → List Call
unfolding klog
run_class (some (address, size)) = class_execute address size ∷ []
run_class none = klog "JVM: Class not found" 2

unfoldable pub java : Files → CString → Option (List Call)
unfolding klog run_class
java f input = do
  start ← skip_spaces line_fuel input 5
  let path = from start input
  len ← count line_fuel path 0
  some (
      if ltb 4 len && starts (from (len - 4) path) ".jar"
      then klog "JVM: Executing JAR archive..." 1 ++ jar_execute path ∷ []
      else (if ltb 6 len && starts (from (len - 6) path) ".class"
          then klog "JVM: Executing Class file..." 1 ++ run_class (f.initrd_read_file path)
          else klog "Usage: java <file.jar|file.class>" 0x0E))

-- The pointer's picture, from the archive if it is there.
unfoldable pub load_cursor : Option (ℕ × ℕ) → List Call
load_cursor (some (address, size)) = cursor_load_bmp address size ∷ []
load_cursor none = cursor_init ∷ []

unfoldable pub graphics : Files → List Call
unfolding load_cursor
graphics f = init_vesa_mode ∷ load_cursor (f.initrd_read_file (text (codes "cursor.bmp")))

unfoldable pub view : Files → CString → Option (ℕ × ℕ) → Ending
unfolding klog graphics
view f path (some (address, size)) = endless (
    graphics f
    ++ draw_bmp address
      ∷ draw_string 10 10 "Image: " 0xFFFFFF
      ∷ draw_input 70 10 path 0x00FF00
      ∷ draw_string 10 580 "Press any key to exit (Not implemented)" 0xAAAAAA
      ∷ flush
      ∷ follow_pointer 16
      ∷ [])
view f path none = returned (klog "Error: Image not found." 2)

unfoldable pub imgview : Files → CString → Option Ending
unfolding view
imgview f input = do
  start ← skip_spaces line_fuel input 8
  some (view f (from start input) (f.initrd_read_file (from start input)))

unfoldable pub startx : Files → Ending
unfolding graphics
startx f =
    endless
      (puts "Entering Graphical Mode...\n" 0x0A ∷ graphics f ++ flush ∷ follow_pointer 24 ∷ [])

unfoldable pub ls : Files → List Call
ls f =
    (puts "--- [ RAMDISK ] ---\n" 0x0B ∷ [])
    ++ (if f.initrd_ready then initrd_list ∷ [] else puts "Initrd not available.\n" 0x07 ∷ [])
    ++ (puts "\n--- [ CD-ROM ] ---\n" 0x0A ∷ [])
    ++ (if f.fs_ready
        then iso_list_directory ∷ []
        else puts "ISO9660 not mounted (No ATAPI detected).\n" 0x0C ∷ [])

unfoldable pub sys_shutdown : List Call
sys_shutdown =
    puts "\n[ SYSTEM ] Stopping all services...\n" 0x0E
    ∷ puts "[ KERNEL ] Saving configuration to ISO_ROOT/apps/...\n" 0x0B
    ∷ puts "[ STOP   ] System halt signal sent.\n" 0x0C
    ∷ puts "Safe to power off or wait for auto-shutdown.\n" 0x0F
    ∷ delay 150000000
    ∷ outw 0xB004 0x2000
    ∷ outw 0x604 0x2000
    ∷ puts "\n[ ERROR  ] ACPI Power-off failed.\n" 0x0C
    ∷ puts "[ HALT   ] CPU Halted. Press Power Button." 0x0F
    ∷ halt
    ∷ []

-- The chain of tests, on the line without the spaces at its front. The processor stops in the last
-- call of `sys_shutdown` with its interrupts off.
unfoldable pub dispatch : Files → CString → Option Ending
unfolding klog ls
dispatch f input =
    if starts input "help"
    then some (
        returned (
          puts "Commands: help, ls, cat <file>, java <file>, startx, mem, clear, reboot\n" 0x0B
          ∷ []))
    else if starts input "ls"
    then some (returned (ls f))
    else if starts input "cat "
    then returning (cat f input)
    else if starts input "java "
    then returning (java f input)
    else if starts input "imgview "
    then imgview f input
    else if starts input "mem"
    then some (returned (klog "Heap Base: 0x1000000 | Size: 4MB" 0))
    else if starts input "startx"
    then some (startx f)
    else if starts input "clear"
    then some (returned (vga_clear ∷ []))
    else if starts input "reboot"
    then some (returned (puts "Rebooting..." 0x0C ∷ outb 0x64 0xFE ∷ []))
    else if starts input "shutdown"
    then some (endless sys_shutdown)
    else if input 0 == 0
    then some (returned [])
    else some (returned (puts "Unknown command: " 0x0C ∷ puts_input input 0x0C ∷ []))

unfoldable pub execute_command : Files → CString → Option Ending
execute_command f input = do
  start ← skip_spaces line_fuel input 0
  ending ← dispatch f (from start input)
  some (behind (puts "\n" 0x07) ending)

-- `cmd_buffer` and `cmd_ptr`
pub record Line : Type 0 where
  pub cmd_buffer : CString
  pub cmd_ptr : ℕ

-- Behind the call of `execute_command`, where it comes back.
unfoldable pub entered : Option Ending → Line → Option Ending × Line
entered (some (returned calls)) s = (some (returned calls), record s { cmd_ptr = 0 })
entered other s = (other, s)

unfoldable pub shell_input : Files → Line → ℕ → Option Ending × Line
shell_input f s c =
    if c == 10
    then entered (execute_command f (update s.cmd_buffer s.cmd_ptr 0))
        (record s { cmd_buffer = update s.cmd_buffer s.cmd_ptr 0 })
    else if c == 8
    then (if ltb 0 s.cmd_ptr
        then (some (returned (putc 8 0x07 ∷ [])), record s { cmd_ptr = s.cmd_ptr - 1 })
        else (some (returned []), s))
    else if ltb s.cmd_ptr 255
    then (
      some (returned (putc c 0x0F ∷ [])),
      record { cmd_buffer = update s.cmd_buffer s.cmd_ptr c; cmd_ptr = s.cmd_ptr + 1 },
    )
    else (some (returned []), s)

-- A round of the loop of `kernel_main` behind the call of `execute_command`, where it comes back: the
-- prompt is printed, and the keyboard's buffer is made ready for the next command.
unfoldable pub served : Option Ending → Keyboard → Option Ending × Keyboard
served (some (returned calls)) k = (
  some (returned (calls ++ puts "\n> " white ∷ [])),
  record k { shell_ptr = 0; command_ready = 0 },
)
served other k = (other, k)

-- The round, but for the wait for an interrupt.
unfoldable pub main_round : Files → Keyboard → Option Ending × Keyboard
main_round f k =
    if k.command_ready == 0
    then (some (returned []), k)
    else served (execute_command f k.shell_buffer) k
