-- ===== src/Config/LastByte.antt =====
-- The last byte of the configuration file in the parsers of src/main.c.
use openyanase_kernel.Base.{ℕ, ◌+◌, ◌≡◌, refl, arith, true, List, [], ◌∷◌, ◌++◌, update}
use openyanase_kernel.Str.{CString}
use openyanase_kernel.Config.{
  Config, Report, is_last, ends_line, config_line, init_loop, parse_init_yc, yanase_line,
  split_line, yanase_loop, parse_yanase_config,
}

-- The last byte ends the line.
ends_line-last : (c : ℕ) → ends_line c [] ≡ true
ends_line-last c = ground arith

-- The byte before the last does not tell them apart.
is_last-append : (cs : List ℕ) (c d : ℕ) → is_last (cs ++ c ∷ []) ≡ is_last (cs ++ d ∷ [])
is_last-append [] c d = refl
is_last-append (x ∷ cs) c d = refl

init_loop-last :
    (cs : List ℕ) (c d : ℕ) (line : CString) (lp : ℕ) (config : Config)
    → init_loop (cs ++ c ∷ []) line lp config ≡ init_loop (cs ++ d ∷ []) line lp config
unfolding init_loop
init_loop-last [] c d line lp config = rw (ends_line-last c, ends_line-last d) refl
init_loop-last (x ∷ cs) c d line lp config =
    rw
      (
        is_last-append cs c d,
        init_loop-last cs c d (update line lp 0) 0 (config_line (update line lp 0) lp config),
        init_loop-last cs c d (update line lp x) (lp + 1) config,
        init_loop-last cs c d line lp config,
      )
      refl

yanase_loop-last :
    (cs : List ℕ) (c d : ℕ) (line : CString) (lp : ℕ) (reports : List Report)
    → yanase_loop (cs ++ c ∷ []) line lp reports ≡ yanase_loop (cs ++ d ∷ []) line lp reports
unfolding yanase_loop
yanase_loop-last [] c d line lp reports = rw (ends_line-last c, ends_line-last d) refl
yanase_loop-last (x ∷ cs) c d line lp reports =
    rw
      (
        is_last-append cs c d,
        yanase_loop-last cs c d (split_line (update line lp 0) lp) 0
            (yanase_line (update line lp 0) lp ++ reports),
        yanase_loop-last cs c d (update line lp x) (lp + 1) reports,
        yanase_loop-last cs c d line lp reports,
      )
      refl

-- Neither parser sees the last byte of the file: it is taken for the end of the line whatever it is,
-- so that the last character of a file without a line break at its end is lost.
pub last_byte-lost :
    (cs : List ℕ) (c d : ℕ) (line : CString) (config : Config)
    → (parse_init_yc (cs ++ c ∷ []) line config ≡ parse_init_yc (cs ++ d ∷ []) line config)
      × (parse_yanase_config (cs ++ c ∷ []) line ≡ parse_yanase_config (cs ++ d ∷ []) line)
unfolding parse_init_yc parse_yanase_config
last_byte-lost cs c d line config =
    (init_loop-last cs c d line 0 config, yanase_loop-last cs c d line 0 [])
