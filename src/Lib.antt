-- ===== src/Lib.antt =====
-- openyanase-kernel: a model of the kernel's C code, with the theorems that make it correct.
--
-- The program. The kernel starts in 32-bit protected mode, installs its descriptor tables, gives a
-- region of memory to its heap, mounts a TAR archive that the boot loader has left in memory, and
-- then serves a shell, which the keyboard's interrupt feeds and which prints to the text console; a
-- second interrupt follows the mouse. It also reads files from a CD. The parts meet in few places:
-- the keyboard prints what is typed through the console, the archive compares names with the string
-- helpers, the parsers of the configuration read a file of the archive with them, the interpreter
-- runs classes from one, and everything else shares only memory.
--
-- The files. A module's name is that of the part; the state of a part is a record with the names of
-- the C variables, an operation has the name of the C function, and a loop is a function of its own
-- beside the operation (`kmalloc_loop`, `read_loop`). The theorems stand in child modules named for
-- what they prove, and each part has a module Tests.
--   Heap        src/memory/heap.c: `heap_init`, `kmalloc`, `kfree` on a store of block headers.
--               Blocks has the abstract view, a list of blocks; Chain says when the headers
--               describe one; Alloc, Free, Regions, Adjacent and Cycle prove the operations.
--   Str         src/main.c: `vga_strncmp`, `vga_strncpy`.
--   Initrd      src/fs/initrd.c: `initrd_init`, `initrd_read_file`, `initrd_list`.
--   Mouse       src/drivers/mouse.c: `mouse_handler`, and `init_mouse` (Start).
--   Console     src/vga_buffer.c: the screen, the cursor and the writes to the cursor's
--               registers; Console/Keyboard is src/keyboard.c, whose handler prints on it.
--   Config      src/main.c: `parse_init_yc` and `parse_yanase_config`.
--   Descriptor  src/gdt.c, src/cpu/idt.c and `pic_remap` of src/main.c.
--   Runtime     src/runtime/bytecode.c: `execute_bytecode` with all its instructions and the
--               native methods. Word has `int32_t` as bit patterns, Machine the stack and the
--               locals, Native the table of methods, Bytecode the switch and the loop. Compile is
--               a small compiler, which is no part of the kernel: it says what the code is to
--               mean; so is Verifier, which counts the depth of the stack at each instruction.
--   Graphics    src/graphics/vesa.c and src/graphics/cursors.c: pixels, the copies of the back
--               buffer to the screen, scrolling, and the pointer, with the loop of src/main.c that
--               moves it (Frame); memcpy and memset of src/lib/strings.c on words. Text has the
--               characters of a font, numbers, `vesa_puts` and `vesa_load_font`.
--   Bmp         src/graphics/bmp.c: a picture on the screen (Screen), and one that becomes the
--               pointer, with `cursor_load_bmp` of src/graphics/cursors.c (Cells).
--   Ports       src/io.h as the drivers see it: a device behind the ports, and the loops
--               that wait for a status.
--   Iso         src/fs/iso9660.c: the search of a directory, reading and listing. Atapi has the
--               port dialogue of `atapi_read_sector`, Mount that of `iso9660_mount`; Device says
--               what a drive does, and Drive that the file system needs no more of it than that
--               it reads sectors.
--   Jar         src/runtime/jar.c: `jar_find_entry`, the lookup in a ZIP archive, and
--               `parse_constant_pool`, whose pool the interpreter reads; Class is `class_execute`,
--               which takes the pool from the heap and runs `main`; Manifest and Scan are the
--               way from an archive to the class that is run.
--   Shell       src/main.c: `execute_command`, as the calls that a command makes, `shell_input`,
--               and the main loop with the keyboard's interrupt (Loop).
--   Base        numbers, lists and words that the parts share.
--
-- The model. A machine word is a natural number with its wrap-around written out (`u8`, `u32`,
-- `add32`); `int32_t` of the mouse is an integer, since no sum there leaves 32 bits. Memory is a
-- function from addresses to bytes, or to block headers in the heap; an array that is written is a
-- function from indices or a list. What an interrupt handler reads from a port is an argument, and
-- what it writes is a list of pairs of port and byte. What a shell command does is the list of its
-- calls and whether it comes back from them (`Ending`): startx and imgview stay in the loop that
-- follows the mouse, and shutdown halts. What the calls print is modelled with the functions that
-- print it. A record of the CD that is longer than the variable of 34 bytes it is copied to is a
-- result of its own, `overrun`, since it is written over the stack. The interpreter's sums and
-- products wrap around, as they do in the compiled kernel; what C leaves undefined there (an index
-- outside the stack or the locals, a shift by 32 or more, a quotient that overflows) is a result of
-- its own, `undefined`. A native method records what it calls in the graphics.
--
-- Fuel. `kmalloc`, `kfree`, `initrd_read_file`, `initrd_list`, `jar_find_entry`, `jar_scan_entries`
-- and `parse_constant_pool` follow links or lengths in memory, which may be a cycle, so their loops
-- take fuel, and running out of it is a result of its own (`none`, `stuck`). Their theorems give
-- the fuel: one round for each block, file, member or constant, and one more. The interpreter's
-- loop takes fuel too (`running`), one round for each instruction. A search of a directory's sector
-- takes 2049 rounds at most, since each moves the offset on; a loop over a line of the shell takes
-- 256, since the line ends in its buffer; a number that is drawn has ten digits at most. The loop
-- of `init_mouse` that empties the controller takes a round for each byte there and one more
-- (`Holds`). Every other loop counts down a number that the source fixes, or goes through a list.
--
-- A device behind the ports is a parameter: a type of states, and what a read of a port answers and
-- a write does in each. Theorems about a dialogue hold for every device, or name what the device is
-- to do as a record of laws (`IsAtapi`, `IsAtaBus`), which the tests fill with a concrete one.
--
-- Not modelled: assembly, the start-up of `kernel_main`, the OpenGL subset, which computes with
-- floating-point numbers, and the set-up of the graphics mode.
pub mod Base
pub mod Heap
pub mod Str
pub mod Initrd
pub mod Mouse
pub mod Ports
pub mod Console
pub mod Descriptor
pub mod Runtime
pub mod Graphics
pub mod Jar
pub mod Config
pub mod Iso
pub mod Bmp
pub mod Shell
