-- ===== src/Config.antt =====
-- src/main.c: the two parsers of the configuration file. The file is the list of its bytes, so
-- that `i == size` says that the rest is empty.
pub mod LastByte
mod Tests
use openyanase_kernel.Base.{
  ℕ, zero, suc, ◌+◌, Bool, true, false, ◌||◌, Option, none, some, List, [], ◌∷◌, ◌++◌, ltb, ◌==◌,
  if◌then◌else◌, update, get_or,
}
use openyanase_kernel.Str.{CString, vga_strncmp, vga_strncpy}
use openyanase_kernel.Initrd.{is_zero}

-- `sys_config`, but for `default_user`, which the parsers do not touch.
pub record Config : Type 0 where
  pub theme : CString
  pub boot_jar : CString
  pub autostart_gui : ℕ

abbrev pub text : List ℕ → CString
text l i = get_or l i 0

-- The key of a line is compared with a string of `n` characters.
abbrev pub starts_with : CString → List ℕ → ℕ → Bool
starts_with line key n = is_zero (vga_strncmp line (text key) n)

abbrev pub theme_key : List ℕ
theme_key = b't' ∷ b'h' ∷ b'e' ∷ b'm' ∷ b'e' ∷ []

abbrev pub core_key : List ℕ
core_key = b'c' ∷ b'o' ∷ b'r' ∷ b'e' ∷ []

abbrev pub autostart_key : List ℕ
autostart_key = b'a' ∷ b'u' ∷ b't' ∷ b'o' ∷ b's' ∷ b't' ∷ b'a' ∷ b'r' ∷ b't' ∷ []

abbrev pub theme_eq : List ℕ
theme_eq = b't' ∷ b'h' ∷ b'e' ∷ b'm' ∷ b'e' ∷ b'=' ∷ []

abbrev pub core_eq : List ℕ
core_eq = b'c' ∷ b'o' ∷ b'r' ∷ b'e' ∷ b'=' ∷ []

abbrev pub autostart_true : List ℕ
autostart_true =
    b'a' ∷ b'u' ∷ b't' ∷ b'o' ∷ b's' ∷ b't' ∷ b'a' ∷ b'r' ∷ b't' ∷ b'=' ∷ b't' ∷ b'r' ∷ b'u' ∷ b'e'
    ∷ []

-- What `parse_init_yc` makes of a line of `lp` bytes, behind which the terminator stands.
unfoldable pub config_line : CString → ℕ → Config → Config
config_line line lp c =
    if ltb 0 lp
    then (if starts_with line theme_eq 6
        then record c { theme = vga_strncpy c.theme (λ i. line (6 + i)) 31 }
        else if starts_with line core_eq 5
        then record c { boot_jar = vga_strncpy c.boot_jar (λ i. line (5 + i)) 63 }
        else if starts_with line autostart_true 14
        then record c { autostart_gui = 1 }
        else c)
    else c

abbrev pub is_last : List ℕ → Bool
is_last [] = true
is_last (c ∷ cs) = false

abbrev pub ends_line : ℕ → List ℕ → Bool
ends_line c rest = c == 10 || c == 13 || is_last rest

unfoldable pub init_loop : List ℕ → CString → ℕ → Config → Config
unfolding config_line
init_loop [] line lp config = config
init_loop (c ∷ rest) line lp config =
    let ended = init_loop rest (update line lp 0) 0 (config_line (update line lp 0) lp config) in
    let stored = init_loop rest (update line lp c) (lp + 1) config in
    let dropped = init_loop rest line lp config in
    if ends_line c rest then ended else (if ltb lp 127 then stored else dropped)

unfoldable pub parse_init_yc : List ℕ → CString → Config → Config
unfolding init_loop
parse_init_yc buffer line config = init_loop buffer line 0 config

-- What `parse_yanase_config` reports with `klog`.
pub data Report : Type 0 where
  theme_set core_identified : CString → Report
  autostart_updated : Report

-- The search for the `=` from the index `j` on, with the bytes that are left.
unfoldable pub find_equals : ℕ → ℕ → CString → Option ℕ
find_equals zero j line = none
find_equals (suc n) j line =
    let rest = find_equals n (j + 1) line in if line j == b'=' then some j else rest

unfoldable pub yanase_line : CString → ℕ → List Report
unfolding find_equals
yanase_line line line_ptr = elim (find_equals line_ptr 0 line) [
  | none ↦ []
  | some j ↦
      let key = update line j 0 in
      let value = λ (i : ℕ). line (j + 1 + i) in
      if starts_with key theme_key 5
      then theme_set value ∷ []
      else if starts_with key core_key 4
      then core_identified value ∷ []
      else if starts_with key autostart_key 9
      then autostart_updated ∷ []
      else []
]

-- The line behind it: its first `=` has become a terminator.
unfoldable pub split_line : CString → ℕ → CString
split_line line line_ptr = elim (find_equals line_ptr 0 line) [
  | none ↦ line
  | some j ↦ update line j 0
]

-- The reports, the last one first.
unfoldable pub yanase_loop : List ℕ → CString → ℕ → List Report → List Report
unfolding yanase_line
yanase_loop [] line line_ptr reports = reports
yanase_loop (c ∷ rest) line line_ptr reports =
    let ended_line = update line line_ptr 0 in
    let ended =
      yanase_loop rest (split_line ended_line line_ptr) 0
        (yanase_line ended_line line_ptr ++ reports) in
    let stored = yanase_loop rest (update line line_ptr c) (line_ptr + 1) reports in
    let dropped = yanase_loop rest line line_ptr reports in
    if ends_line c rest then ended else (if ltb line_ptr 127 then stored else dropped)

unfoldable pub parse_yanase_config : List ℕ → CString → List Report
unfolding yanase_loop
parse_yanase_config data_bytes line = yanase_loop data_bytes line 0 []
