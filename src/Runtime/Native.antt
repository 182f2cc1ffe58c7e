-- ===== src/Runtime/Native.antt =====
-- The native methods of src/runtime/bytecode.c and how a call finds one.
use openyanase_kernel.Base.{ℕ, List, [], ◌∷◌, Option, none, some, ◌&&◌, if◌then◌else◌, get_or, u16}
use openyanase_kernel.Str.{CString, vga_strncmp}
use openyanase_kernel.Initrd.{is_zero}
use openyanase_kernel.Runtime.Machine.{
  Vm, Program, draw_number, put_pixel, clear, flush, unresolved, push, pop, call, ◌>>=◌,
}

-- The strings of the table.
abbrev c_string : List ℕ → CString
c_string l i = get_or l i 0

abbrev pub print_stream_bytes : List ℕ
print_stream_bytes =
    b'j' ∷ b'a' ∷ b'v' ∷ b'a' ∷ b'/' ∷ b'i' ∷ b'o' ∷ b'/' ∷ b'P' ∷ b'r' ∷ b'i' ∷ b'n' ∷ b't' ∷ b'S'
    ∷ b't' ∷ b'r' ∷ b'e' ∷ b'a' ∷ b'm' ∷ []

abbrev pub print_stream : CString
print_stream = c_string print_stream_bytes

abbrev pub println : CString
println = c_string (b'p' ∷ b'r' ∷ b'i' ∷ b'n' ∷ b't' ∷ b'l' ∷ b'n' ∷ [])

abbrev pub int_void : CString
int_void = c_string (b'(' ∷ b'I' ∷ b')' ∷ b'V' ∷ [])

abbrev pub string_void : CString
string_void = c_string (
    b'(' ∷ b'L' ∷ b'j' ∷ b'a' ∷ b'v' ∷ b'a' ∷ b'/' ∷ b'l' ∷ b'a' ∷ b'n' ∷ b'g' ∷ b'/' ∷ b'S' ∷ b't'
    ∷ b'r' ∷ b'i' ∷ b'n' ∷ b'g' ∷ b';' ∷ b')' ∷ b'V' ∷ [])

abbrev pub mouse_class : CString
mouse_class = c_string (
    b'v' ∷ b'n' ∷ b'/' ∷ b'p' ∷ b'm' ∷ b'g' ∷ b't' ∷ b'e' ∷ b'a' ∷ b'm' ∷ b'/' ∷ b'y' ∷ b'a' ∷ b'n'
    ∷ b'a' ∷ b's' ∷ b'e' ∷ b'/' ∷ b'i' ∷ b'n' ∷ b'p' ∷ b'u' ∷ b't' ∷ b'/' ∷ b'M' ∷ b'o' ∷ b'u'
    ∷ b's' ∷ b'e' ∷ [])

abbrev pub get_x : CString
get_x = c_string (b'g' ∷ b'e' ∷ b't' ∷ b'X' ∷ [])

abbrev pub void_int : CString
void_int = c_string (b'(' ∷ b')' ∷ b'I' ∷ [])

abbrev pub get_y : CString
get_y = c_string (b'g' ∷ b'e' ∷ b't' ∷ b'Y' ∷ [])

abbrev pub screen_class : CString
screen_class = c_string (
    b'v' ∷ b'n' ∷ b'/' ∷ b'p' ∷ b'm' ∷ b'g' ∷ b't' ∷ b'e' ∷ b'a' ∷ b'm' ∷ b'/' ∷ b'y' ∷ b'a' ∷ b'n'
    ∷ b'a' ∷ b's' ∷ b'e' ∷ b'/' ∷ b'g' ∷ b'r' ∷ b'a' ∷ b'p' ∷ b'h' ∷ b'i' ∷ b'c' ∷ b's' ∷ b'/'
    ∷ b'S' ∷ b'c' ∷ b'r' ∷ b'e' ∷ b'e' ∷ b'n' ∷ [])

abbrev pub draw_pixel_name : CString
draw_pixel_name = c_string (b'd' ∷ b'r' ∷ b'a' ∷ b'w' ∷ b'P' ∷ b'i' ∷ b'x' ∷ b'e' ∷ b'l' ∷ [])

abbrev pub ints_void : CString
ints_void = c_string (b'(' ∷ b'I' ∷ b'I' ∷ b'I' ∷ b')' ∷ b'V' ∷ [])

abbrev pub clear_name : CString
clear_name = c_string (b'c' ∷ b'l' ∷ b'e' ∷ b'a' ∷ b'r' ∷ [])

abbrev pub update_name : CString
update_name = c_string (b'u' ∷ b'p' ∷ b'd' ∷ b'a' ∷ b't' ∷ b'e' ∷ [])

abbrev pub void_void : CString
void_void = c_string (b'(' ∷ b')' ∷ b'V' ∷ [])

-- The functions of the table.
pub data Native : Type 0 where
  println_int println_str mouse_get_x mouse_get_y draw_pixel clear_screen update_screen : Native

unfoldable pub run_native : Program → Native → Vm → Option Vm
unfolding push pop
run_native p println_int s = do (v, s1) ← pop s; some (call flush (call (draw_number v) s1))
run_native p println_str s = do (v, s1) ← pop s; some s1
run_native p mouse_get_x s = push p.mouse_x s
run_native p mouse_get_y s = push p.mouse_y s
run_native p draw_pixel s = do
  (color, s1) ← pop s
  (y, s2) ← pop s1
  (x, s3) ← pop s2
  some (call (put_pixel (u16 x) (u16 y) color) s3)
run_native p clear_screen s = do (color, s1) ← pop s; some (call (clear color) s1)
run_native p update_screen s = some (call flush s)

-- `native_entry_t`
pub record NativeEntry : Type 0 where
  pub class_name : CString
  pub method_name : CString
  pub descriptor : CString
  pub fn : Native

abbrev pub native_table : List NativeEntry
native_table =
    record {
      class_name = print_stream;
      method_name = println;
      descriptor = int_void;
      fn = println_int;
    }
    ∷ record {
      class_name = print_stream;
      method_name = println;
      descriptor = string_void;
      fn = println_str;
    }
    ∷ record {
      class_name = mouse_class;
      method_name = get_x;
      descriptor = void_int;
      fn = mouse_get_x;
    }
    ∷ record {
      class_name = mouse_class;
      method_name = get_y;
      descriptor = void_int;
      fn = mouse_get_y;
    }
    ∷ record {
      class_name = screen_class;
      method_name = draw_pixel_name;
      descriptor = ints_void;
      fn = draw_pixel;
    }
    ∷ record {
      class_name = screen_class;
      method_name = clear_name;
      descriptor = int_void;
      fn = clear_screen;
    }
    ∷ record {
      class_name = screen_class;
      method_name = update_name;
      descriptor = void_void;
      fn = update_screen;
    }
    ∷ []

unfoldable pub find_native : List NativeEntry → CString → CString → CString → Option Native
find_native [] class_name method_name descriptor = none
find_native (e ∷ es) class_name method_name descriptor =
    let rest = find_native es class_name method_name descriptor in
    if is_zero (vga_strncmp e.class_name class_name 128)
      && is_zero (vga_strncmp e.method_name method_name 128)
      && is_zero (vga_strncmp e.descriptor descriptor 128)
    then some e.fn
    else rest

-- A method that is not found is reported.
unfoldable pub call_native : Program → Option Native → Vm → Option Vm
unfolding run_native
call_native p none s = some (call unresolved s)
call_native p (some f) s = run_native p f s

unfoldable pub handle_native_call : Program → CString → CString → CString → Vm → Option Vm
unfolding find_native call_native
handle_native_call p class_name method_name descriptor s =
    call_native p (find_native native_table class_name method_name descriptor) s
